-- ===== src/Prelude/Text.antt =====
-- What the program uses of the packages strings, strconv and encoding/hex, on bytes.
use Prim.Native.Nat.{ℕ, zero, suc, ◌+◌, ◌-◌, ◌*◌, ◌/◌, ◌%◌, ◌<◌}
use mathlib.Core.Bool.{Bool, true, false, ◌&&◌}
use mathlib.Core.Option.{Option, none, some}
use mathlib.Core.List.{[], ◌∷◌, ◌++◌}
use discourse_points_system.Prelude.Tests.{ltb, leb, nat_eqb, if◌then◌else◌}
use discourse_points_system.Prelude.Equality.{Bytes}
use discourse_points_system.Prelude.Int.{ℤ, pos, negsuc, i64_half}

-- The elements of a []byte are below 256.
abbrev pub AllBytes : Bytes → Type 0
AllBytes [] = Unit {0}
AllBytes (x ∷ b) = (x < 256) × AllBytes b

-- strings.HasPrefix(s, prefix)
unfoldable pub has_prefix : Bytes → Bytes → Bool
has_prefix s [] = true
has_prefix [] (p ∷ ps) = false
has_prefix (c ∷ s) (p ∷ ps) = nat_eqb c p && has_prefix s ps

-- The value of a hexadecimal digit of either case.
unfoldable pub hex_value : ℕ → Option ℕ
hex_value c =
    if leb b'0' c && leb c b'9'
    then some (c - b'0')
    else if leb b'a' c && leb c b'f'
    then some (c - b'a' + 10)
    else if leb b'A' c && leb c b'F'
    then some (c - b'A' + 10)
    else none

-- hex.DecodeString; an odd length is an error.
unfoldable pub hex_decode : Bytes → Option Bytes
unfolding hex_value
hex_decode [] = some []
hex_decode (a ∷ []) = none
hex_decode (a ∷ b ∷ s) =
    let rest = hex_decode s in
    elim (hex_value a) [
      | none ↦ none
      | some x ↦ elim (hex_value b) [
        | none ↦ none
        | some y ↦ elim rest [ none ↦ none | some bytes ↦ some ((16 * x + y) ∷ bytes) ]
      ]
    ]

-- The decimal digits of a number; a number has no more digits than its value, plus one.
unfoldable pub decimal_digits : ℕ → ℕ → Bytes
decimal_digits zero n = []
decimal_digits (suc f) n =
    let rest = decimal_digits f (n / 10) in
    if ltb n 10 then (b'0' + n) ∷ [] else rest ++ (b'0' + n % 10) ∷ []

-- `%d`
unfoldable pub decimal : ℤ → Bytes
unfolding decimal_digits
decimal (pos n) = decimal_digits (suc n) n
decimal (negsuc n) = b'-' ∷ decimal_digits (suc (suc n)) (suc n)

-- strings.SplitN(s, ".", 2), where it gives two parts.
unfoldable pub split_dot : Bytes → Option (Bytes × Bytes)
split_dot [] = none
split_dot (c ∷ s) =
    let rest = split_dot s in
    if nat_eqb c b'.'
    then some ([], s)
    else elim rest [ none ↦ none | some (a, b) ↦ some (c ∷ a, b) ]

-- The digits of a decimal number, after those that were read as `n`.
unfoldable pub digits_value : ℕ → Bytes → Option ℕ
digits_value n [] = some n
digits_value n (c ∷ s) =
    let rest = digits_value (10 * n + (c - b'0')) s in
    if leb b'0' c && leb c b'9' then rest else none

abbrev unsigned_value : Bytes → Option ℕ
unsigned_value [] = none
unsigned_value (c ∷ s) = digits_value 0 (c ∷ s)

-- strconv.ParseInt(s, 10, 64): an optional sign, digits, and a value in the range of an int64.
unfoldable pub parse_int64 : Bytes → Option ℤ
unfolding digits_value
parse_int64 [] = none
parse_int64 (c ∷ s) =
    if nat_eqb c b'-'
    then elim (unsigned_value s) [
      | none ↦ none
      | some zero ↦ some (pos 0)
      | some (suc n) ↦ if ltb n i64_half then some (negsuc n) else none
    ]
    else elim (if nat_eqb c b'+' then unsigned_value s else digits_value 0 (c ∷ s)) [
      | none ↦ none
      | some n ↦ if ltb n i64_half then some (pos n) else none
    ]

-- hex.DecodeString where its error is not looked at: the bytes before the first bad pair.
unfoldable pub hex_prefix : Bytes → Bytes
unfolding hex_value
hex_prefix [] = []
hex_prefix (a ∷ []) = []
hex_prefix (a ∷ b ∷ s) =
    let rest = hex_prefix s in
    elim (hex_value a) [
      | none ↦ []
      | some x ↦ elim (hex_value b) [ none ↦ [] | some y ↦ (16 * x + y) ∷ rest ]
    ]

-- strings.TrimRight(s, "/")
unfoldable pub trim_right_slash : Bytes → Bytes
trim_right_slash [] = []
trim_right_slash (c ∷ s) =
    let rest = trim_right_slash s in
    elim rest [ [] ↦ if nat_eqb c b'/' then [] else c ∷ [] | d ∷ ds ↦ c ∷ d ∷ ds ]
