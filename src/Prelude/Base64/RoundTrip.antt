-- ===== src/Prelude/Base64/RoundTrip.antt =====
-- What base64 writes is plain text, which it reads back.
use Prim.Native.Nat.{ℕ, ◌+◌, ◌*◌, ◌/◌, ◌%◌, ◌≤◌, ◌<◌}
use mathlib.Core.Path.{◌≡◌, refl}
use mathlib.Core.Logic.{◌≢◌}
use mathlib.Core.Bool.{false}
use mathlib.Core.Option.{some}
use mathlib.Core.List.{[], ◌∷◌}
use native.Mathlib.Omega.{arith}
use discourse_points_system.Prelude.Tests.{nat_eqb}
use discourse_points_system.Prelude.Equality.{Bytes}
use discourse_points_system.Prelude.Text.{AllBytes}
use discourse_points_system.Prelude.Base64.{
  Encoding, std, raw_url, base64_char, base64_value, base64_encode, decode_two, decode_three,
  decode_four, decode_groups, without_line_ends, base64_decode,
}

-- The bytes of a text in base64: no dot and no line end.
abbrev pub PlainText : Bytes → Type 0
PlainText [] = Unit {0}
PlainText (c ∷ s) = ((43 ≤ c) × (c ≢ b'.')) × PlainText s

base64_char-Plain : (e : Encoding) (d : ℕ) → (43 ≤ base64_char e d) × (base64_char e d ≢ b'.')
unfolding base64_char
base64_char-Plain std d = ground arith
base64_char-Plain raw_url d = ground arith

pub base64_encode-PlainText : (e : Encoding) (b : Bytes) → PlainText (base64_encode e b)
unfolding base64_encode
base64_encode-PlainText e [] = tt
base64_encode-PlainText std (a ∷ []) =
    ground (arith, base64_char-Plain std (a / 4), base64_char-Plain std (a % 4 * 16))
base64_encode-PlainText raw_url (a ∷ []) =
    ground (arith, base64_char-Plain raw_url (a / 4), base64_char-Plain raw_url (a % 4 * 16))
base64_encode-PlainText std (a ∷ b ∷ []) = ground (
  arith,
  base64_char-Plain std (a / 4),
  base64_char-Plain std (a % 4 * 16 + b / 16),
  base64_char-Plain std (b % 16 * 4),
)
base64_encode-PlainText raw_url (a ∷ b ∷ []) = ground (
  arith,
  base64_char-Plain raw_url (a / 4),
  base64_char-Plain raw_url (a % 4 * 16 + b / 16),
  base64_char-Plain raw_url (b % 16 * 4),
)
base64_encode-PlainText e (a ∷ b ∷ c ∷ s) = ground (
  arith,
  base64_char-Plain e (a / 4),
  base64_char-Plain e (a % 4 * 16 + b / 16),
  base64_char-Plain e (b % 16 * 4 + c / 64),
  base64_char-Plain e (c % 64),
  base64_encode-PlainText e s,
)

without_line_ends-Plain : (s : Bytes) → PlainText s → without_line_ends s ≡ s
unfolding without_line_ends
without_line_ends-Plain [] h = refl
without_line_ends-Plain (c ∷ s) h = ground (arith, without_line_ends-Plain s h.1)

base64_value-char : (e : Encoding) (d : ℕ) → d < 64 → base64_value e (base64_char e d) ≡ some d
unfolding base64_value base64_char
base64_value-char std d h = ground arith
base64_value-char raw_url d h = ground arith

-- The characters of a full group are no padding, and carry the three bytes.
base64_char-eqb : (e : Encoding) (d : ℕ) → nat_eqb (base64_char e d) b'=' ≡ false
unfolding base64_char
base64_char-eqb std d = ground arith
base64_char-eqb raw_url d = ground arith

two_bytes :
    (e : Encoding) (a : ℕ)
    → a < 256
    → decode_two e (base64_char e (a / 4)) (base64_char e (a % 4 * 16)) ≡ some (a ∷ [])
unfolding decode_two
two_bytes e a h =
    let whole : a / 4 * 4 + a % 4 * 16 / 16 ≡ a = omega arith in
    ground (
      arith,
      base64_value-char e (a / 4) (omega arith),
      base64_value-char e (a % 4 * 16) (omega arith),
    )

three_bytes :
    (e : Encoding) (a b z : ℕ)
    → a < 256
    → b < 256
    → z / 4 ≡ b % 16
    → decode_three e (base64_char e (a / 4)) (base64_char e (a % 4 * 16 + b / 16)) (base64_char e z)
      ≡ some (a ∷ b ∷ [])
unfolding decode_three
three_bytes e a b z h i j =
    let whole : a / 4 * 4 + (a % 4 * 16 + b / 16) / 16 ≡ a = omega arith in
    let next : (a % 4 * 16 + b / 16) % 16 * 16 + z / 4 ≡ b = omega arith in
    ground (
      arith,
      base64_value-char e (a / 4) (omega arith),
      base64_value-char e (a % 4 * 16 + b / 16) (omega arith),
      base64_value-char e z (omega arith),
    )

four_bytes :
    (e : Encoding) (a b c : ℕ) (s : Bytes)
    → a < 256
    → b < 256
    → c < 256
    → decode_four e
        (base64_char e (a / 4))
        (base64_char e (a % 4 * 16 + b / 16))
        (base64_char e (b % 16 * 4 + c / 64))
        (base64_char e (c % 64))
        (some s)
      ≡ some (a ∷ b ∷ c ∷ s)
unfolding decode_four
four_bytes e a b c s h i j =
    let whole : (b % 16 * 4 + c / 64) % 4 * 64 + c % 64 ≡ c = omega arith in
    ground (
      arith,
      three_bytes e a b (b % 16 * 4 + c / 64) h i (omega arith),
      base64_value-char e (b % 16 * 4 + c / 64) (omega arith),
      base64_value-char e (c % 64) (omega arith),
    )

decode_groups-encode :
    (e : Encoding) (b : Bytes) → AllBytes b → decode_groups e (base64_encode e b) ≡ some b
unfolding decode_groups base64_encode
decode_groups-encode std [] h = refl
decode_groups-encode raw_url [] h = refl
decode_groups-encode std (a ∷ []) h = ground (arith, two_bytes std a h.0)
decode_groups-encode raw_url (a ∷ []) h = two_bytes raw_url a h.0
decode_groups-encode std (a ∷ b ∷ []) h =
    let kept = base64_char-eqb std (b % 16 * 4) in
    rw kept (three_bytes std a b (b % 16 * 4) h.0 h.1.0 (omega arith))
decode_groups-encode raw_url (a ∷ b ∷ []) h =
    three_bytes raw_url a b (b % 16 * 4) h.0 h.1.0 (omega arith)
decode_groups-encode std (a ∷ b ∷ c ∷ s) h =
    let kept = base64_char-eqb std (c % 64) in
    rw kept (rw (decode_groups-encode std s h.1.1.1) (four_bytes std a b c s h.0 h.1.0 h.1.1.0))
decode_groups-encode raw_url (a ∷ b ∷ c ∷ s) h =
    rw (decode_groups-encode raw_url s h.1.1.1) (four_bytes raw_url a b c s h.0 h.1.0 h.1.1.0)

pub base64_decode-encode :
    (e : Encoding) (b : Bytes) → AllBytes b → base64_decode e (base64_encode e b) ≡ some b
unfolding base64_decode
base64_decode-encode e b h =
    let kept : without_line_ends (base64_encode e b) ≡ base64_encode e b =
      without_line_ends-Plain (base64_encode e b) (base64_encode-PlainText e b) in
    rw kept (decode_groups-encode e b h)
