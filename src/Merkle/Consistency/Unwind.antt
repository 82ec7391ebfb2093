-- ===== src/Merkle/Consistency/Unwind.antt =====
-- A walk that ends well, taken apart at its last entry: the walk before it is one on the smaller
-- tree. These are the converses of the lemmas on a proof with one more entry.
use discourse_points_system.Prelude.{
  ℕ, zero, suc, ◌+◌, ◌-◌, ◌/◌, ◌%◌, ◌≤◌, ◌<◌, ◌≡◌, refl, sym, ap, ◌∙◌, arith, List, [], ◌∷◌, Bytes,
  inl, inr,
}
use mathlib.Core.Path.{ap₂}
use native.Mathlib.Decide.{dec_lt}
use discourse_points_system.Prelude.Exec.{ok}
use discourse_points_system.Merkle.{node_hash}
use discourse_points_system.Merkle.Consistency.{walk_rounds}
use discourse_points_system.Merkle.Consistency.Digits.{power, power_pos}
use discourse_points_system.Merkle.Consistency.Walk.{
  digit-cases, skip_zeros-power, skip_zeros-beside, IsInner,
}
use discourse_points_system.Merkle.Consistency.Rounds.{
  power-half, rounds-end, rounds-end_inv, rounds-more_inv, rounds-both, rounds-new, rounds-odd,
}

module _ (sha256 : Bytes → Bytes) where
  pub rounds-zero_inv :
      (proof : List Bytes) (mm nn : ℕ) (hash1 hash2 : Bytes) {r : Bytes × Bytes}
      → nn ≡ 0
      → walk_rounds sha256 proof mm nn hash1 hash2 ≡ ok r
      → (hash1, hash2) ≡ r
  rounds-zero_inv [] mm nn hash1 hash2 z h = (rounds-end_inv sha256 mm nn hash1 hash2 h).1
  rounds-zero_inv (s ∷ proof) mm nn hash1 hash2 z h =
      absurd (omega (arith, rounds-more_inv sha256 s proof mm nn hash1 hash2 h))

  -- The entries before the last lead the walk on the left half of 2 ^ j leaves to u and y; the last
  -- entry gives the new tree's hash v.
  abbrev pub Inside : ℕ → ℕ → Bytes → Bytes → Bytes → Bytes → Type 0
  Inside j mm hash1 hash2 u v =
      (front : List Bytes) × (last : Bytes) × (y : Bytes) × (walk_rounds sha256 front mm
          (power j - 1) hash1 hash2
        ≡ ok (u, y))
      × (v ≡ node_hash sha256 y last)

  Inside-odd :
      (j mm : ℕ) (s hash1 hash2 u v : Bytes)
      → mm % 2 ≡ 1
      → Inside j (mm / 2) (node_hash sha256 s hash1) (node_hash sha256 s hash2) u v
      → Inside (suc j) mm hash1 hash2 u v
  Inside-odd j mm s hash1 hash2 u v odd (front, last, y, w, q) =
      let half : (power (suc j) - 1) / 2 ≡ power j - 1 = omega (arith, power_pos j) in
      let b : 0 < power (suc j) - 1 = omega (arith, power_pos j) in
      (
        s ∷ front,
        last,
        y,
        rounds-odd sha256 s front mm (power (suc j) - 1) hash1 hash2 b odd ∙ rw half w,
        q,
      )

  Inside-even :
      (j mm : ℕ) (s hash1 hash2 u v : Bytes)
      → mm % 2 ≡ 0
      → mm < power (suc j)
      → Inside j (mm / 2) hash1 (node_hash sha256 hash2 s) u v
      → Inside (suc j) mm hash1 hash2 u v
  Inside-even j mm s hash1 hash2 u v even lt (front, last, y, w, q) =
      let half : (power (suc j) - 1) / 2 ≡ power j - 1 = omega (arith, power_pos j) in
      (
        s ∷ front,
        last,
        y,
        rounds-new sha256 s front mm (power (suc j) - 1) hash1 hash2 (omega arith) even ∙ rw half w,
        q,
      )

  pub rounds-inner_inv :
      (proof : List Bytes) (j mm nn : ℕ) (hash1 hash2 u v : Bytes)
      → IsInner j mm nn
      → walk_rounds sha256 proof mm nn hash1 hash2 ≡ ok (u, v)
      → Inside j mm hash1 hash2 u v
  rounds-inner_inv [] j mm nn hash1 hash2 u v h e =
      absurd (omega (arith, power_pos j, rounds-end_inv sha256 mm nn hash1 hash2 e))
  rounds-inner_inv (s ∷ proof) zero mm nn hash1 hash2 u v h e =
      let new = rounds-new sha256 s proof mm nn hash1 hash2 (omega arith) (omega arith) in
      let same =
        rounds-zero_inv proof (mm / 2) (nn / 2) hash1 (node_hash sha256 hash2 s) (omega arith)
          (sym new ∙ e) in
      (
        [],
        s,
        hash2,
        rounds-end sha256 mm hash1 hash2 ∙ ap (λ (r : Bytes × Bytes). ok (r.0, hash2)) same,
        ap (λ (r : Bytes × Bytes). r.1) (sym same),
      )
  rounds-inner_inv (s ∷ proof) (suc j) mm nn hash1 hash2 u v h e =
      let inner : IsInner j (mm / 2) (nn / 2) = (omega arith, omega arith, omega arith) in
      elim (digit-cases mm) [
        | inl odd ↦ Inside-odd j mm s hash1 hash2 u v odd (
            rounds-inner_inv proof j (mm / 2) (nn / 2) (node_hash sha256 s hash1)
              (node_hash sha256 s hash2) u v inner
              (sym (rounds-odd sha256 s proof mm nn hash1 hash2 (omega arith) odd) ∙ e))
        | inr even ↦ Inside-even j mm s hash1 hash2 u v even (omega arith) (
            rounds-inner_inv proof j (mm / 2) (nn / 2) hash1 (node_hash sha256 hash2 s) u v inner
              (sym (rounds-new sha256 s proof mm nn hash1 hash2 (omega arith) even) ∙ e))
      ]

  -- The entries before the last lead the walk on the right half to x and y; the last entry, the hash
  -- of the left half, stands before both.
  abbrev pub After : ℕ → ℕ → Bytes → Bytes → Bytes → Bytes → Type 0
  After mm nn hash1 hash2 u v =
      (front : List Bytes) × (last : Bytes) × (x : Bytes) × (y : Bytes) × (walk_rounds sha256 front
          mm nn hash1 hash2
        ≡ ok (x, y))
      × (u ≡ node_hash sha256 last x)
      × (v ≡ node_hash sha256 last y)

  -- A first round that the walk on the right half makes too.
  After-cons :
      (s : Bytes) (mm nn : ℕ) (hash1 hash2 : Bytes) (a b : ℕ) (hash3 hash4 u v : Bytes)
      → ((front : List Bytes)
          → walk_rounds sha256 (s ∷ front) mm nn hash1 hash2
            ≡ walk_rounds sha256 front a b hash3 hash4)
      → After a b hash3 hash4 u v
      → After mm nn hash1 hash2 u v
  After-cons s mm nn hash1 hash2 a b hash3 hash4 u v h (front, last, x, y, w, p, q) =
      (s ∷ front, last, x, y, h front ∙ w, p, q)

  After-none :
      (s : Bytes) (proof : List Bytes) (j : ℕ) (hash1 hash2 u v : Bytes)
      → walk_rounds sha256 (s ∷ proof) (power j) (power j) hash1 hash2 ≡ ok (u, v)
      → After 0 0 hash1 hash2 u v
  After-none s proof j hash1 hash2 u v e =
      let same =
        rounds-zero_inv proof (1 / 2) (1 / 2) (node_hash sha256 s hash1) (node_hash sha256 s hash2)
          (omega arith)
          (sym (
              rounds-both sha256 s proof (power j) (power j) hash1 hash2 1 1 (power_pos j)
                (inr refl) (skip_zeros-power (power j) j (omega arith)))
            ∙ e) in
      (
        [],
        s,
        hash1,
        hash2,
        rounds-end sha256 0 hash1 hash2,
        ap (λ (r : Bytes × Bytes). r.0) (sym same),
        ap (λ (r : Bytes × Bytes). r.1) (sym same),
      )

  pub rounds-beside_inv :
      (proof : List Bytes) (j mm nn : ℕ) (hash1 hash2 u v : Bytes)
      → mm ≤ nn
      → nn < power j
      → walk_rounds sha256 proof (power j + mm) (power j + nn) hash1 hash2 ≡ ok (u, v)
      → After mm nn hash1 hash2 u v
  rounds-beside_inv [] j mm nn hash1 hash2 u v le b e = absurd (
      omega (arith, power_pos j, rounds-end_inv sha256 (power j + mm) (power j + nn) hash1 hash2 e))
  rounds-beside_inv (s ∷ proof) j zero zero hash1 hash2 u v le b e =
      let same : power j + 0 ≡ power j = omega arith in
      After-none s proof j hash1 hash2 u v
        (ap (λ (k : ℕ). walk_rounds sha256 (s ∷ proof) k k hash1 hash2) (sym same) ∙ e)
  rounds-beside_inv (s ∷ proof) j (suc mm) zero hash1 hash2 u v le b e = absurd (omega arith)
  rounds-beside_inv (s ∷ proof) zero mm (suc nn) hash1 hash2 u v le b e = absurd (omega arith)
  rounds-beside_inv (s ∷ proof) (suc j) mm (suc nn') hash1 hash2 u v le b e =
      let nn = suc nn' in
      let e₁ : (power (suc j) + mm) / 2 ≡ power j + mm / 2 = omega arith in
      let e₂ : (power (suc j) + nn) / 2 ≡ power j + nn / 2 = omega arith in
      let big = power (suc j) + mm in
      let big' = power (suc j) + nn in
      elim (digit-cases mm) [
        | inl odd ↦
            After-cons s mm nn hash1 hash2 (mm / 2) (nn / 2) (node_hash sha256 s hash1)
              (node_hash sha256 s hash2) u v
              (λ front. rounds-odd sha256 s front mm nn hash1 hash2 (omega arith) odd)
              (rounds-beside_inv proof j (mm / 2) (nn / 2) (node_hash sha256 s hash1)
                (node_hash sha256 s hash2) u v (omega arith) (omega arith)
                (ap₂
                    (λ (a b : ℕ).
                      walk_rounds sha256 proof a b (node_hash sha256 s hash1)
                        (node_hash sha256 s hash2))
                    (sym e₁) (sym e₂)
                  ∙ sym (rounds-odd sha256 s proof big big' hash1 hash2 (omega arith) (omega arith))
                  ∙ e))
        | inr even ↦ elim (dec_lt mm nn) [
          | yes lt ↦
              After-cons s mm nn hash1 hash2 (mm / 2) (nn / 2) hash1 (node_hash sha256 hash2 s) u v
                (λ front. rounds-new sha256 s front mm nn hash1 hash2 lt even)
                (rounds-beside_inv proof j (mm / 2) (nn / 2) hash1 (node_hash sha256 hash2 s) u v
                  (omega arith) (omega arith)
                  (ap₂ (λ (a b : ℕ). walk_rounds sha256 proof a b hash1 (node_hash sha256 hash2 s))
                      (sym e₁) (sym e₂)
                    ∙ sym
                        (rounds-new sha256 s proof big big' hash1 hash2 (omega arith) (omega arith))
                    ∙ e))
          | no ge ↦
              let same : nn ≡ mm = omega arith in
              let (i, w, g, f, pos_w, lt) =
                skip_zeros-beside mm big (suc j) mm (omega arith) (omega arith) (omega arith)
                  (omega arith) in
              let (k, twice) = power-half i w pos_w lt in
              let h : (power i + w) / 2 ≡ power k + w / 2 = omega (arith, twice) in
              After-cons s mm nn hash1 hash2 (w / 2) (w / 2) (node_hash sha256 s hash1)
                (node_hash sha256 s hash2) u v
                (λ front.
                  ap (λ (n : ℕ). walk_rounds sha256 (s ∷ front) mm n hash1 hash2) same
                  ∙ rounds-both sha256 s front mm mm hash1 hash2 w w (omega arith) (inr refl) g)
                (rounds-beside_inv proof k (w / 2) (w / 2) (node_hash sha256 s hash1)
                  (node_hash sha256 s hash2) u v (omega arith) (omega (arith, twice))
                  (ap
                      (λ (n : ℕ).
                        walk_rounds sha256 proof n n (node_hash sha256 s hash1)
                          (node_hash sha256 s hash2))
                      (sym h)
                    ∙ sym (
                        rounds-both sha256 s proof big big hash1 hash2 (power i + w) (power i + w)
                          (omega arith) (inr refl) f)
                    ∙ ap
                        (λ (n : ℕ).
                          walk_rounds sha256 (s ∷ proof) big (power (suc j) + n) hash1 hash2)
                        (sym same)
                    ∙ e))
        ]
      ]
