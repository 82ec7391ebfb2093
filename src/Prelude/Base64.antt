-- ===== src/Prelude/Base64.antt =====
-- What the program uses of encoding/base64, on bytes: StdEncoding, and RawURLEncoding without
-- padding. Like Go's, the decoder skips line ends and does not look at the bits left over.
pub mod RoundTrip
use Prim.Native.Nat.{ℕ, ◌+◌, ◌-◌, ◌*◌, ◌/◌, ◌%◌, ◌≤◌, ◌<◌}
use mathlib.Core.Path.{◌≡◌, refl}
use mathlib.Core.Logic.{◌≢◌}
use mathlib.Core.Bool.{false, ◌&&◌, ◌||◌}
use mathlib.Core.Option.{Option, none, some}
use mathlib.Core.List.{[], ◌∷◌, ◌++◌}
use native.Mathlib.Omega.{arith}
use discourse_points_system.Prelude.Tests.{leb, ltb, nat_eqb, if◌then◌else◌}
use discourse_points_system.Prelude.Equality.{Bytes}

pub data Encoding : Type 0 where
  std raw_url : Encoding

abbrev char_62 : Encoding → ℕ
char_62 std = b'+'
char_62 raw_url = b'-'

abbrev char_63 : Encoding → ℕ
char_63 std = b'/'
char_63 raw_url = b'_'

-- What fills the last group up.
abbrev padding_one : Encoding → Bytes
padding_one std = b'=' ∷ []
padding_one raw_url = []

abbrev padding_two : Encoding → Bytes
padding_two std = b'=' ∷ b'=' ∷ []
padding_two raw_url = []

unfoldable pub base64_char : Encoding → ℕ → ℕ
base64_char e d =
    if ltb d 26
    then b'A' + d
    else if ltb d 52
    then b'a' + d - 26
    else if ltb d 62
    then b'0' + d - 52
    else if nat_eqb d 62
    then char_62 e
    else char_63 e

unfoldable pub base64_value : Encoding → ℕ → Option ℕ
base64_value e c =
    if leb b'A' c && leb c b'Z'
    then some (c - b'A')
    else if leb b'a' c && leb c b'z'
    then some (c - b'a' + 26)
    else if leb b'0' c && leb c b'9'
    then some (c - b'0' + 52)
    else if nat_eqb c (char_62 e)
    then some 62
    else if nat_eqb c (char_63 e)
    then some 63
    else none

-- EncodeToString
unfoldable pub base64_encode : Encoding → Bytes → Bytes
unfolding base64_char
base64_encode e [] = []
base64_encode e (a ∷ []) = base64_char e (a / 4) ∷ base64_char e (a % 4 * 16) ∷ padding_two e
base64_encode e (a ∷ b ∷ []) =
    base64_char e (a / 4)
    ∷ base64_char e (a % 4 * 16 + b / 16)
    ∷ base64_char e (b % 16 * 4)
    ∷ padding_one e
base64_encode e (a ∷ b ∷ c ∷ s) =
    base64_char e (a / 4)
    ∷ base64_char e (a % 4 * 16 + b / 16)
    ∷ base64_char e (b % 16 * 4 + c / 64)
    ∷ base64_char e (c % 64)
    ∷ base64_encode e s

-- The bytes of a last group of two characters, and of one of three.
unfoldable pub decode_two : Encoding → ℕ → ℕ → Option Bytes
unfolding base64_value
decode_two e x y = elim (base64_value e x) [
  | none ↦ none
  | some p ↦ elim (base64_value e y) [ none ↦ none | some q ↦ some ((p * 4 + q / 16) ∷ []) ]
]

unfoldable pub decode_three : Encoding → ℕ → ℕ → ℕ → Option Bytes
unfolding base64_value
decode_three e x y z = elim (base64_value e x) [
  | none ↦ none
  | some p ↦ elim (base64_value e y) [
    | none ↦ none
    | some q ↦ elim (base64_value e z) [
      | none ↦ none
      | some r ↦ some ((p * 4 + q / 16) ∷ (q % 16 * 16 + r / 4) ∷ [])
    ]
  ]
]

-- A full group; `rest` is what follows, decoded.
unfoldable pub decode_four : Encoding → ℕ → ℕ → ℕ → ℕ → Option Bytes → Option Bytes
unfolding decode_three
decode_four e x y z w rest = elim (decode_three e x y z) [
  | none ↦ none
  | some front ↦ elim (base64_value e z) [
    | none ↦ none
    | some r ↦ elim (base64_value e w) [
      | none ↦ none
      | some s ↦ elim rest [ none ↦ none | some bytes ↦ some (front ++ (r % 4 * 64 + s) ∷ bytes) ]
    ]
  ]
]

-- A group with padding, which ends the text.
abbrev decode_padded : Encoding → ℕ → ℕ → ℕ → Bytes → Option Bytes
decode_padded e x y z [] = if nat_eqb z b'=' then decode_two e x y else decode_three e x y z
decode_padded e x y z (c ∷ s) = none

unfoldable pub decode_groups : Encoding → Bytes → Option Bytes
unfolding decode_two decode_three decode_four
decode_groups e [] = some []
decode_groups e (x ∷ []) = none
decode_groups std (x ∷ y ∷ []) = none
decode_groups raw_url (x ∷ y ∷ []) = decode_two raw_url x y
decode_groups std (x ∷ y ∷ z ∷ []) = none
decode_groups raw_url (x ∷ y ∷ z ∷ []) = decode_three raw_url x y z
decode_groups std (x ∷ y ∷ z ∷ w ∷ s) =
    let rest = decode_groups std s in
    if nat_eqb w b'=' then decode_padded std x y z s else decode_four std x y z w rest
decode_groups raw_url (x ∷ y ∷ z ∷ w ∷ s) =
    let rest = decode_groups raw_url s in decode_four raw_url x y z w rest

unfoldable pub without_line_ends : Bytes → Bytes
without_line_ends [] = []
without_line_ends (c ∷ s) =
    let rest = without_line_ends s in if nat_eqb c 10 || nat_eqb c 13 then rest else c ∷ rest

-- DecodeString
unfoldable pub base64_decode : Encoding → Bytes → Option Bytes
unfolding decode_groups without_line_ends
base64_decode e s = decode_groups e (without_line_ends s)
