-- ===== src/Merkle/Consistency/Walk.antt =====
-- How the walk over the digits of both sizes goes on when the sizes are placed under one more
-- split: into the left half of a larger tree, or beside a left half that both trees have.
use discourse_points_system.Prelude.{
  ℕ, zero, suc, ◌+◌, ◌-◌, ◌*◌, ◌/◌, ◌%◌, ◌≤◌, ◌<◌, ◌≡◌, ◌⊎◌, refl, ◌∙◌, arith, inl, inr,
}
use native.Mathlib.Decide.{dec_lt}
use discourse_points_system.Merkle.Consistency.{skip_ones, skip_zeros}
use discourse_points_system.Merkle.Consistency.Digits.{power, power_pos}

pub digit-cases : (n : ℕ) → (n % 2 ≡ 1) ⊎ (n % 2 ≡ 0)
digit-cases n = elim (dec_lt 0 (n % 2)) [ yes h ↦ inl (omega arith) | no h ↦ inr (omega arith) ]

skip_ones-odd : (f m n : ℕ) → m % 2 ≡ 1 → skip_ones (suc f) m n ≡ skip_ones f (m / 2) (n / 2)
unfolding skip_ones
skip_ones-odd f m n h = ground arith

skip_ones-even : (f m n : ℕ) → m % 2 ≡ 0 → skip_ones f m n ≡ (m, n)
unfolding skip_ones
skip_ones-even zero m n h = refl
skip_ones-even (suc f) m n h = ground arith

pub skip_zeros-odd : (f m n : ℕ) → m % 2 ≡ 1 → skip_zeros f m n ≡ (m, n)
unfolding skip_zeros
skip_zeros-odd zero m n h = refl
skip_zeros-odd (suc f) m n h = ground arith

skip_zeros-even :
    (f m n : ℕ) → m % 2 ≡ 0 → 0 < m → skip_zeros (suc f) m n ≡ skip_zeros f (m / 2) (n / 2)
unfolding skip_zeros
skip_zeros-even f m n h p = ground arith

-- A tree of m of the first 2 ^ j leaves, as the left part of a larger one.
abbrev pub IsInner : ℕ → ℕ → ℕ → Type 0
IsInner j mm nn = (mm < power j) × (power j ≤ nn) × (nn < power j * 2)

abbrev pub Inner : ℕ × ℕ → ℕ × ℕ → Type 0
Inner s t = (j : ℕ) × (s ≡ (t.0, power j - 1)) × IsInner j t.0 t.1

skip_ones-Inner_even :
    (f j mm nn : ℕ)
    → mm % 2 ≡ 0
    → IsInner j mm nn
    → Inner (skip_ones f mm (power j - 1)) (skip_ones f mm nn)
skip_ones-Inner_even f j mm nn even h =
    rw (skip_ones-even f mm nn even, skip_ones-even f mm (power j - 1) even) (j, refl, h)

pub skip_ones-Inner :
    (f j mm nn : ℕ)
    → mm ≤ f
    → IsInner j mm nn
    → Inner (skip_ones f mm (power j - 1)) (skip_ones f mm nn)
skip_ones-Inner zero j mm nn p h = skip_ones-Inner_even 0 j mm nn (omega arith) h
skip_ones-Inner (suc f) zero mm nn p h = skip_ones-Inner_even (suc f) 0 mm nn (omega arith) h
skip_ones-Inner (suc f) (suc j) mm nn p h = elim (digit-cases mm) [
  | inr even ↦ skip_ones-Inner_even (suc f) (suc j) mm nn even h
  | inl odd ↦
      let e : (power (suc j) - 1) / 2 ≡ power j - 1 = omega (arith, power_pos j) in
      rw (skip_ones-odd f mm nn odd, skip_ones-odd f mm (power (suc j) - 1) odd, e)
        (skip_ones-Inner f j (mm / 2) (nn / 2) (omega arith)
          (omega arith, omega arith, omega arith))
]

-- A left half that is whole has no digit left.
pub skip_ones-power : (f j : ℕ) → power j - 1 ≤ f → skip_ones f (power j - 1) (power j - 1) ≡ (0, 0)
skip_ones-power f zero h = skip_ones-even f 0 0 (omega arith)
skip_ones-power zero (suc j) h = absurd (omega (arith, power_pos j))
skip_ones-power (suc f) (suc j) h =
    let e : (power (suc j) - 1) / 2 ≡ power j - 1 = omega (arith, power_pos j) in
    skip_ones-odd f (power (suc j) - 1) (power (suc j) - 1) (omega (arith, power_pos j))
    ∙ rw e (skip_ones-power f j (omega (arith, power_pos j)))

-- Both trees with a left half of 2 ^ j leaves in front.
abbrev pub Beside : ℕ × ℕ → ℕ × ℕ → Type 0
Beside s t = (j : ℕ) × (t ≡ (power j + s.0, power j + s.1)) × (s.1 < power j)

skip_ones-Beside_even :
    (g f j mm nn : ℕ)
    → mm % 2 ≡ 0
    → mm < nn
    → nn < power (suc j)
    → Beside (skip_ones g mm nn) (skip_ones f (power (suc j) + mm) (power (suc j) + nn))
      × ((skip_ones g mm nn).0 < (skip_ones g mm nn).1)
skip_ones-Beside_even g f j mm nn even lt b =
    rw
      (
        skip_ones-even g mm nn even,
        skip_ones-even f (power (suc j) + mm) (power (suc j) + nn) (omega arith),
      )
      ((suc j, refl, b), lt)

pub skip_ones-Beside :
    (g f j mm nn : ℕ)
    → mm ≤ g
    → power j + mm ≤ f
    → mm < nn
    → nn < power j
    → Beside (skip_ones g mm nn) (skip_ones f (power j + mm) (power j + nn))
      × ((skip_ones g mm nn).0 < (skip_ones g mm nn).1)
skip_ones-Beside g f zero mm nn p q lt b = absurd (omega arith)
skip_ones-Beside zero f (suc j) mm nn p q lt b =
    skip_ones-Beside_even 0 f j mm nn (omega arith) lt b
skip_ones-Beside (suc g) zero (suc j) mm nn p q lt b = absurd (omega (arith, power_pos j))
skip_ones-Beside (suc g) (suc f) (suc j) mm nn p q lt b = elim (digit-cases mm) [
  | inr even ↦ skip_ones-Beside_even (suc g) (suc f) j mm nn even lt b
  | inl odd ↦
      let e : (power (suc j) + mm) / 2 ≡ power j + mm / 2 = omega arith in
      let e' : (power (suc j) + nn) / 2 ≡ power j + nn / 2 = omega arith in
      rw
        (
          skip_ones-odd g mm nn odd,
          skip_ones-odd f (power (suc j) + mm) (power (suc j) + nn) (omega arith),
          e,
          e',
        )
        (skip_ones-Beside g f j (mm / 2) (nn / 2) (omega arith) (omega (arith, power_pos j))
          (omega arith) (omega arith))
]

-- A number that has a lowest one below 2 ^ j has it still with 2 ^ j added.
pub skip_zeros-beside :
    (g f j mm : ℕ)
    → mm ≤ g
    → power j + mm ≤ f
    → 0 < mm
    → mm < power j
    → (i : ℕ) × (v : ℕ) × (skip_zeros g mm mm ≡ (v, v))
      × (skip_zeros f (power j + mm) (power j + mm) ≡ (power i + v, power i + v))
      × (0 < v)
      × (v < power i)
skip_zeros-beside g f zero mm p q h b = absurd (omega arith)
skip_zeros-beside zero f (suc j) mm p q h b = absurd (omega arith)
skip_zeros-beside (suc g) zero (suc j) mm p q h b = absurd (omega arith)
skip_zeros-beside (suc g) (suc f) (suc j) mm p q h b = elim (digit-cases mm) [
  | inl odd ↦ (
    suc j,
    mm,
    skip_zeros-odd (suc g) mm mm odd,
    skip_zeros-odd (suc f) (power (suc j) + mm) (power (suc j) + mm) (omega arith),
    h,
    b,
  )
  | inr even ↦
      let e : (power (suc j) + mm) / 2 ≡ power j + mm / 2 = omega arith in
      rw
        (
          skip_zeros-even g mm mm even h,
          skip_zeros-even f (power (suc j) + mm) (power (suc j) + mm) (omega arith) (omega arith),
          e,
        )
        (skip_zeros-beside g f j (mm / 2) (omega arith) (omega (arith, power_pos j)) (omega arith)
          (omega arith))
]

pub skip_zeros-power : (f j : ℕ) → power j ≤ f → skip_zeros f (power j) (power j) ≡ (1, 1)
skip_zeros-power f zero h = skip_zeros-odd f 1 1 (omega arith)
skip_zeros-power zero (suc j) h = absurd (omega (arith, power_pos j))
skip_zeros-power (suc f) (suc j) h =
    let e : power (suc j) / 2 ≡ power j = omega arith in
    skip_zeros-even f (power (suc j)) (power (suc j)) (omega arith) (omega (arith, power_pos j))
    ∙ rw e (skip_zeros-power f j (omega (arith, power_pos j)))
