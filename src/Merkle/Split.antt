-- ===== src/Merkle/Split.antt =====
-- Where the tree splits: the largest power of two below the size.
use discourse_points_system.Prelude.{ℕ, zero, suc, ◌+◌, ◌*◌, ◌^◌, ◌≤◌, ◌<◌, ◌≡◌, ◌∙◌, arith}
use native.Mathlib.Nat.{pow-suc, pow-zero}
use native.Mathlib.Decide.{dec_lt}
use discourse_points_system.Merkle.{double_below, largest_power_of_two_less_than}

double_below-more : (f n k : ℕ) → k * 2 < n → double_below (suc f) n k ≡ double_below f n (k * 2)
unfolding double_below
double_below-more f n k h = ground arith

double_below-done : (f n k : ℕ) → n ≤ k * 2 → double_below (suc f) n k ≡ k
unfolding double_below
double_below-done f n k h = ground arith

times-pow : (k j : ℕ) → k * 2 * 2 ^ j ≡ k * 2 ^ suc j
times-pow k j = rw (pow-suc 2 j) (omega arith)

-- What the loop ends with: a power of two times its start, below the bound, its double not.
abbrev IsSplit : ℕ → ℕ → ℕ → Type 0
IsSplit k n r = ((j : ℕ) × (r ≡ k * 2 ^ j)) × (r < n) × (n ≤ r * 2)

-- The loop doubles until the next doubling would reach the bound. The distance to the bound is
-- fuel enough.
double_below_lem : (f n k : ℕ) → 0 < k → k < n → n ≤ k + f → IsSplit k n (double_below f n k)
double_below_lem zero n k p q h = absurd (omega arith)
double_below_lem (suc f) n k p q h = elim (dec_lt (k * 2) n) [
  | yes more ↦
      let ((j, e), below, above) = double_below_lem f n (k * 2) (omega arith) more (omega arith) in
      rw (double_below-more f n k more) ((suc j, e ∙ times-pow k j), below, above)
  | no done ↦
      rw (double_below-done f n k (omega arith))
        ((0, rw (pow-zero 2) (omega arith)), q, omega arith)
]

-- For a size of at least two, the split is a power of two below the size, and its double is not.
pub largest_power_of_two_less_than_lem :
    (n : ℕ)
    → 2 ≤ n
    → ((j : ℕ) × (largest_power_of_two_less_than n ≡ 2 ^ j))
      × (largest_power_of_two_less_than n < n)
      × (n ≤ largest_power_of_two_less_than n * 2)
unfolding largest_power_of_two_less_than
largest_power_of_two_less_than_lem n h =
    let ((j, e), below, above) = double_below_lem n n 1 (omega arith) (omega arith) (omega arith) in
    rw (unfolded n h) ((j, e ∙ omega arith), below, above)
  where
    unfolded : (n : ℕ) → 2 ≤ n → largest_power_of_two_less_than n ≡ double_below n n 1
    unfolded n h = ground arith

-- Both halves are smaller, and neither is empty.
pub split_bounds :
    (n : ℕ)
    → 2 ≤ n
    → (0 < largest_power_of_two_less_than n) × (largest_power_of_two_less_than n < n)
split_bounds n h =
    let ((j, e), below, above) = largest_power_of_two_less_than_lem n h in (omega arith, below)
