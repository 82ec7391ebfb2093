-- ===== src/Prelude/Int.antt =====
-- Signed integers over the native numbers, and the wrap-around of Go's int64.
use Prim.Native.Nat.{ℕ, suc, ◌+◌, ◌-◌, ◌%◌, ◌≤◌, ◌<◌}
use mathlib.Core.Path.{◌≡◌}
use mathlib.Core.Logic.{◌↔◌, ◌≢◌}
use mathlib.Core.Bool.{Bool, true}
use native.Mathlib.Omega.{arith}
use native.Mathlib.Nat.{mod-eq_of_lt}
use discourse_points_system.Prelude.Tests.{ltb, leb, nat_eqb, if◌then◌else◌}
use discourse_points_system.Prelude.Equality.{Eq}

-- `negsuc n` is -(n + 1).
pub data ℤ : Type 0 where
  pos : ℕ → ℤ
  negsuc : ℕ → ℤ

abbrev pub pos_part : ℤ → ℕ
pos_part (pos n) = n
pos_part (negsuc n) = 0

abbrev pub neg_part : ℤ → ℕ
neg_part (pos n) = 0
neg_part (negsuc n) = suc n

abbrev pub sub_ℕ : ℕ → ℕ → ℤ
sub_ℕ a b = if leb b a then pos (a - b) else negsuc (b - a - 1)

infixl 65 ◌+ℤ◌ ◌-ℤ◌
infix 50 ◌≤ℤ◌ ◌<ℤ◌
unfoldable pub ◌+ℤ◌ : ℤ → ℤ → ℤ
a +ℤ b = sub_ℕ (pos_part a + pos_part b) (neg_part a + neg_part b)

unfoldable pub ◌-ℤ◌ : ℤ → ℤ → ℤ
a -ℤ b = sub_ℕ (pos_part a + neg_part b) (neg_part a + pos_part b)

abbrev pub ◌≤ℤ◌ : ℤ → ℤ → Type 0
a ≤ℤ b = pos_part a + neg_part b ≤ pos_part b + neg_part a

abbrev pub ◌<ℤ◌ : ℤ → ℤ → Type 0
a <ℤ b = pos_part a + neg_part b < pos_part b + neg_part a

abbrev pub ltb_ℤ : ℤ → ℤ → Bool
ltb_ℤ a b = ltb (pos_part a + neg_part b) (pos_part b + neg_part a)

abbrev pub leb_ℤ : ℤ → ℤ → Bool
leb_ℤ a b = leb (pos_part a + neg_part b) (pos_part b + neg_part a)

abbrev pub eqb_ℤ : ℤ → ℤ → Bool
eqb_ℤ a b = nat_eqb (pos_part a + neg_part b) (pos_part b + neg_part a)

pub eqb_ℤ_iff : (a b : ℤ) → (eqb_ℤ a b ≡ true) ↔ (a ≡ b)
eqb_ℤ_iff a b = ground arith

instance abbrev pub int_eq : Eq ℤ
int_eq = record { same = eqb_ℤ; same_iff = eqb_ℤ_iff }

pub +ℤ_parts :
    (a b : ℤ)
    → pos_part (a +ℤ b) + neg_part a + neg_part b ≡ neg_part (a +ℤ b) + pos_part a + pos_part b
unfolding ◌+ℤ◌
+ℤ_parts a b = ground arith

pub -ℤ_parts :
    (a b : ℤ)
    → pos_part (a -ℤ b) + neg_part a + pos_part b ≡ neg_part (a -ℤ b) + pos_part a + neg_part b
unfolding ◌-ℤ◌
-ℤ_parts a b = ground arith

pub eq_of_parts : (a b : ℤ) → pos_part a + neg_part b ≡ pos_part b + neg_part a → a ≡ b
eq_of_parts a b h = ground arith

-- What `omega` reads of an equation of integers.
pub eq_parts : {a b : ℤ} → a ≡ b → pos_part a + neg_part b ≡ pos_part b + neg_part a
eq_parts {a} {b} e = rw e (omega arith)

pub ruleset int_laws = (arith, +ℤ_parts, -ℤ_parts, eq_of_parts)

-- 2 ^ 63 and 2 ^ 64, as numerals that `omega` reads.
abbrev pub i64_half : ℕ
i64_half = 9_223_372_036_854_775_808

abbrev pub i64_mod : ℕ
i64_mod = 18_446_744_073_709_551_616

-- The int64 that an integer leaves after wrap-around: its residue modulo 2 ^ 64, read as signed.
-- -(n + 1) has the residue 2 ^ 64 - 1 - n % 2 ^ 64.
unfoldable pub wrap64 : ℤ → ℤ
wrap64 (pos n) = let m = n % i64_mod in if ltb m i64_half then pos m else negsuc (i64_mod - m - 1)
wrap64 (negsuc n) =
    let m = n % i64_mod in if ltb m i64_half then negsuc m else pos (i64_mod - 1 - m)

abbrev pub max_int64 : ℤ
max_int64 = pos 9_223_372_036_854_775_807

abbrev pub min_int64 : ℤ
min_int64 = negsuc 9_223_372_036_854_775_807

abbrev pub InRange64 : ℤ → Type 0
InRange64 z = (min_int64 ≤ℤ z) × (z ≤ℤ max_int64)

-- In range nothing wraps.
pub wrap64_lem : (z : ℤ) → InRange64 z → wrap64 z ≡ z
unfolding wrap64
wrap64_lem (pos n) h = ground (arith, mod-eq_of_lt {n = n} {m = i64_mod} (omega arith))
wrap64_lem (negsuc n) h = ground (arith, mod-eq_of_lt {n = n} {m = i64_mod} (omega arith))

unfoldable pub add64 : ℤ → ℤ → ℤ
add64 a b = wrap64 (a +ℤ b)

unfoldable pub sub64 : ℤ → ℤ → ℤ
sub64 a b = wrap64 (a -ℤ b)

pub add64_lem : (a b : ℤ) → InRange64 (a +ℤ b) → add64 a b ≡ a +ℤ b
unfolding add64
add64_lem a b h = wrap64_lem (a +ℤ b) h

pub sub64_lem : (a b : ℤ) → InRange64 (a -ℤ b) → sub64 a b ≡ a -ℤ b
unfolding sub64
sub64_lem a b h = wrap64_lem (a -ℤ b) h

-- Every result of int64 arithmetic is an int64.
pub wrap64-InRange64 : (z : ℤ) → InRange64 (wrap64 z)
unfolding wrap64
wrap64-InRange64 (pos n) = ground arith
wrap64-InRange64 (negsuc n) = ground arith

-- Counting up in int64 is counting up, wrapped.
pub add64-wrap64_one : (n : ℕ) → add64 (wrap64 (pos n)) (pos 1) ≡ wrap64 (pos (suc n))
unfolding add64 wrap64 ◌+ℤ◌
add64-wrap64_one n = ground arith

-- No int64 is its own successor.
pub add64_one-ne : (z : ℤ) → add64 z (pos 1) ≢ z
unfolding add64 wrap64 ◌+ℤ◌
add64_one-ne z h = ground arith
