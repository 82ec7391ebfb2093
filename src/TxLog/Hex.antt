-- ===== src/TxLog/Hex.antt =====
-- What `hex` writes, encoding/hex reads back.
use discourse_points_system.Prelude.{
  ℕ, ◌+◌, ◌*◌, ◌/◌, ◌%◌, ◌<◌, ◌≡◌, refl, arith, [], ◌∷◌, Bytes, some,
}
use discourse_points_system.Prelude.Text.{AllBytes, hex_value, hex_decode}
use discourse_points_system.TxLog.{hex, hex_digit}

hex_value-hex_digit : (d : ℕ) → d < 16 → hex_value (hex_digit d) ≡ some d
unfolding hex_value hex_digit
hex_value-hex_digit d h = ground arith

-- The log's hexadecimal is what the decoder of hexadecimal inverts, for any bytes.
pub hex_decode-hex : (b : Bytes) → AllBytes b → hex_decode (hex b) ≡ some b
unfolding hex_decode hex
hex_decode-hex [] h = refl
hex_decode-hex (x ∷ b) h =
    let whole : 16 * (x / 16) + x % 16 ≡ x = omega arith in
    ground (
      arith,
      hex_value-hex_digit (x / 16) (omega arith),
      hex_value-hex_digit (x % 16) (omega arith),
      hex_decode-hex b h.1,
    )
