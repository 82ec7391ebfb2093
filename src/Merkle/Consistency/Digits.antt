-- ===== src/Merkle/Consistency/Digits.antt =====
-- Powers of two, the test for them, and the loops that skip digits.
use Prim.Native.Nat.{min, bit_and, digits, bit_and-bitwise}
use discourse_points_system.Prelude.{
  ℕ, zero, suc, ◌+◌, ◌-◌, ◌*◌, ◌/◌, ◌%◌, ◌^◌, ◌≤◌, ◌<◌, ◌≡◌, refl, ap, true, false, arith,
  Bool-cases, nat_eqb, nat_eqb_iff, ltb, ltb→lt, inl, inr,
}
use native.Mathlib.Nat.{pow-suc, pow-zero}
use discourse_points_system.Prelude.Int.{pos}
use discourse_points_system.Merkle.{largest_power_of_two_less_than}
use discourse_points_system.Merkle.Split.{largest_power_of_two_less_than_lem}
use discourse_points_system.Merkle.Consistency.{is_power_of_two}

-- 2 ^ j, in a form that `omega` reads.
abbrev pub power : ℕ → ℕ
power zero = 1
power (suc j) = power j * 2

power-eq-pow : (j : ℕ) → 2 ^ j ≡ power j
power-eq-pow zero = pow-zero 2
power-eq-pow (suc j) = rw (pow-suc 2 j) (omega (arith, power-eq-pow j))

pub power_pos : (j : ℕ) → 0 < power j
power_pos zero = omega arith
power_pos (suc j) = omega (arith, power_pos j)

-- A power of two that lies between another and its double is that other.
power_unique : (i j n : ℕ) → power i < n → n ≤ power j * 2 → power j < n → n ≤ power i * 2 → i ≡ j
power_unique zero zero n a b c d = refl
power_unique zero (suc j) n a b c d = absurd (omega (arith, power_pos j))
power_unique (suc i) zero n a b c d = absurd (omega (arith, power_pos i))
power_unique (suc i) (suc j) n a b c d =
    ap suc (power_unique i j ((n + 1) / 2) (omega arith) (omega arith) (omega arith) (omega arith))

pub split_power :
    (n : ℕ)
    → 2 ≤ n
    → (j : ℕ) × (largest_power_of_two_less_than n ≡ power j) × (power j < n) × (n ≤ power j * 2)
split_power n h =
    let ((j, e), below, above) = largest_power_of_two_less_than_lem n h in
    let p = power-eq-pow j in (j, omega (arith, e, p), omega (arith, e, p), omega (arith, e, p))

pub split_of_power :
    (n j : ℕ) → power j < n → n ≤ power j * 2 → largest_power_of_two_less_than n ≡ power j
split_of_power n j h h' =
    let (i, e, below, above) = split_power n (omega (arith, power_pos j)) in
    let same = power_unique i j n below h' h above in rw (e, same) refl

-- The lowest digit of a bitwise and.
abbrev and_digits : ℕ → ℕ → ℕ → ℕ
and_digits n a b = digits (λ b. zero) min n a b

and_digits_count : (n m a b : ℕ) → a ≤ n → a ≤ m → and_digits n a b ≡ and_digits m a b
and_digits_count zero zero zero b p q = refl
and_digits_count zero (suc m) zero b p q = refl
and_digits_count (suc n) zero zero b p q = refl
and_digits_count (suc n) (suc m) zero b p q = refl
and_digits_count zero m (suc a) b p q = absurd (omega arith)
and_digits_count (suc n) zero (suc a) b p q = absurd (omega arith)
and_digits_count (suc n) (suc m) (suc a) b p q =
    omega (arith, and_digits_count n m (suc a / 2) (b / 2) (omega arith) (omega arith))

bit_and-lowest :
    (a b : ℕ) → bit_and (suc a) b ≡ bit_and (suc a / 2) (b / 2) * 2 + min (suc a % 2) (b % 2)
bit_and-lowest a b = omega (
  arith,
  bit_and-bitwise (suc a) b,
  bit_and-bitwise (suc a / 2) (b / 2),
  and_digits_count a (suc a / 2) (suc a / 2) (b / 2) (omega arith) (omega arith),
)

bit_and-at :
    (a b h k : ℕ)
    → 0 < a
    → h ≡ a / 2
    → k ≡ b / 2
    → bit_and a b ≡ bit_and h k * 2 + min (a % 2) (b % 2)
bit_and-at zero b h k p e e' = absurd (omega arith)
bit_and-at (suc a) b h k p e e' = rw (e, e') (bit_and-lowest a b)

bit_and-self_pos : (f n : ℕ) → n ≤ f → 0 < n → 0 < bit_and n n
bit_and-self_pos zero n p h = absurd (omega arith)
bit_and-self_pos (suc f) n p h = elim (Bool-cases (ltb 0 (n / 2))) [
  | inl more ↦ omega (
    arith,
    bit_and-at n n (n / 2) (n / 2) h refl refl,
    bit_and-self_pos f (n / 2) (omega arith) (ltb→lt 0 (n / 2) more),
  )
  | inr last ↦
      let one : n ≡ 1 = ground arith in omega (arith, bit_and-at n n (n / 2) (n / 2) h refl refl)
]

-- n & (n - 1) of an even and of an odd number.
and_pred-even : (n : ℕ) → 0 < n → bit_and (n * 2) (n * 2 - 1) ≡ bit_and n (n - 1) * 2
and_pred-even n h =
    omega
      (arith, bit_and-at (n * 2) (n * 2 - 1) n (n - 1) (omega arith) (omega arith) (omega arith))

and_pred-odd : (n : ℕ) → 0 < n → 0 < bit_and (n * 2 + 1) (n * 2 + 1 - 1)
and_pred-odd n h = omega (
  arith,
  bit_and-at (n * 2 + 1) (n * 2 + 1 - 1) n n (omega arith) (omega arith) (omega arith),
  bit_and-self_pos n n (omega arith) h,
)

and_pred-power : (j : ℕ) → bit_and (power j) (power j - 1) ≡ 0
and_pred-power zero = refl
and_pred-power (suc j) = omega (arith, and_pred-even (power j) (power_pos j), and_pred-power j)

and_pred-above : (j r : ℕ) → 0 < r → r < power j → 0 < bit_and (power j + r) (power j + r - 1)
and_pred-above zero r h h' = absurd (omega arith)
and_pred-above (suc j) r h h' = elim (Bool-cases (nat_eqb (r % 2) 0)) [
  | inl even ↦
      let q = r / 2 in
      let e : power (suc j) + r ≡ (power j + q) * 2 =
        omega (arith, (nat_eqb_iff (r % 2) 0).0 even) in
      rw e (
        omega (
          arith,
          and_pred-even (power j + q) (omega (arith, power_pos j)),
          and_pred-above j q (omega (arith, (nat_eqb_iff (r % 2) 0).0 even)) (omega arith),
        ))
  | inr odd ↦
      let q = r / 2 in
      let one : r % 2 ≡ 1 = ground arith in
      let e : power (suc j) + r ≡ (power j + q) * 2 + 1 = omega arith in
      rw e (and_pred-odd (power j + q) (omega (arith, power_pos j)))
]

pub is_power_of_two-power : (j : ℕ) → is_power_of_two (pos (power j)) ≡ true
unfolding is_power_of_two
is_power_of_two-power j = ground (arith, power_pos j, and_pred-power j)

-- A number above a power of two, by less than that power, is none.
pub is_power_of_two-above :
    (j r : ℕ) → 0 < r → r < power j → is_power_of_two (pos (power j + r)) ≡ false
unfolding is_power_of_two
is_power_of_two-above j r h h' = ground (arith, and_pred-above j r h h')
