-- ===== src/Merkle/Consistency/Rounds.antt =====
-- The rounds of the walk on a proof with one more entry at its end.
use discourse_points_system.Prelude.{
  ℕ, zero, suc, ◌+◌, ◌-◌, ◌*◌, ◌/◌, ◌%◌, ◌≤◌, ◌<◌, ◌≡◌, ◌⊎◌, refl, sym, ap, ◌∙◌, arith, List, [],
  ◌∷◌, ◌++◌, Bytes, inl, inr,
}
use native.Mathlib.Decide.{dec_lt}
use discourse_points_system.Prelude.Exec.{ok}
use discourse_points_system.Merkle.{node_hash}
use discourse_points_system.Merkle.Consistency.{skip_zeros, walk_rounds}
use discourse_points_system.Merkle.Consistency.Digits.{power, power_pos}
use discourse_points_system.Merkle.Consistency.Walk.{
  digit-cases, skip_zeros-odd, skip_zeros-power, skip_zeros-beside, IsInner,
}

pub power-half : (i v : ℕ) → 0 < v → v < power i → (k : ℕ) × (power i ≡ power k * 2)
power-half zero v p h = absurd (omega arith)
power-half (suc i) v p h = (i, refl)

module _ (sha256 : Bytes → Bytes) where
  pub rounds-end :
      (mm : ℕ) (hash1 hash2 : Bytes) → walk_rounds sha256 [] mm 0 hash1 hash2 ≡ ok (hash1, hash2)
  unfolding walk_rounds
  rounds-end mm hash1 hash2 = refl

  -- A walk that ends well with no entry left has no digit left.
  pub rounds-end_inv :
      (mm nn : ℕ) (hash1 hash2 : Bytes) {r : Bytes × Bytes}
      → walk_rounds sha256 [] mm nn hash1 hash2 ≡ ok r
      → (nn ≡ 0) × ((hash1, hash2) ≡ r)
  unfolding walk_rounds
  rounds-end_inv mm nn hash1 hash2 h = ground arith

  pub rounds-more_inv :
      (s : Bytes) (proof : List Bytes) (mm nn : ℕ) (hash1 hash2 : Bytes) {r : Bytes × Bytes}
      → walk_rounds sha256 (s ∷ proof) mm nn hash1 hash2 ≡ ok r
      → 0 < nn
  unfolding walk_rounds
  rounds-more_inv s proof mm nn hash1 hash2 h = ground arith

  pub rounds-both :
      (s : Bytes) (proof : List Bytes) (mm nn : ℕ) (hash1 hash2 : Bytes) (a b : ℕ)
      → 0 < nn
      → (mm % 2 ≡ 1) ⊎ (mm ≡ nn)
      → skip_zeros mm mm nn ≡ (a, b)
      → walk_rounds sha256 (s ∷ proof) mm nn hash1 hash2
        ≡ walk_rounds sha256 proof
            (a / 2)
            (b / 2)
            (node_hash sha256 s hash1)
            (node_hash sha256 s hash2)
  unfolding walk_rounds
  rounds-both s proof mm nn hash1 hash2 a b p (inl odd) e = ground arith
  rounds-both s proof mm nn hash1 hash2 a b p (inr same) e = ground arith

  pub rounds-new :
      (s : Bytes) (proof : List Bytes) (mm nn : ℕ) (hash1 hash2 : Bytes)
      → mm < nn
      → mm % 2 ≡ 0
      → walk_rounds sha256 (s ∷ proof) mm nn hash1 hash2
        ≡ walk_rounds sha256 proof (mm / 2) (nn / 2) hash1 (node_hash sha256 hash2 s)
  unfolding walk_rounds
  rounds-new s proof mm nn hash1 hash2 lt even = ground arith

  pub rounds-odd :
      (s : Bytes) (proof : List Bytes) (mm nn : ℕ) (hash1 hash2 : Bytes)
      → 0 < nn
      → mm % 2 ≡ 1
      → walk_rounds sha256 (s ∷ proof) mm nn hash1 hash2
        ≡ walk_rounds sha256 proof
            (mm / 2)
            (nn / 2)
            (node_hash sha256 s hash1)
            (node_hash sha256 s hash2)
  rounds-odd s proof mm nn hash1 hash2 p odd =
      rounds-both s proof mm nn hash1 hash2 mm nn p (inl odd) (skip_zeros-odd mm mm nn odd)

  -- Inside a left half of 2 ^ j leaves, the last entry stands for the right half, which only the new
  -- tree has.
  pub rounds-inner :
      (proof : List Bytes) (last : Bytes) (j mm nn : ℕ) (hash1 hash2 x y : Bytes)
      → IsInner j mm nn
      → walk_rounds sha256 proof mm (power j - 1) hash1 hash2 ≡ ok (x, y)
      → walk_rounds sha256 (proof ++ last ∷ []) mm nn hash1 hash2 ≡ ok (x, node_hash sha256 y last)
  rounds-inner [] last j mm nn hash1 hash2 x y h e =
      let (z, same) = rounds-end_inv mm (power j - 1) hash1 hash2 e in
      let half : nn / 2 ≡ 0 = omega (arith, power_pos j) in
      let new =
        rounds-new last [] mm nn hash1 hash2 (omega (arith, power_pos j))
          (omega (arith, power_pos j)) in
      new
      ∙ rw half (
          rounds-end (mm / 2) hash1 (node_hash sha256 hash2 last)
          ∙ ap (λ (r : Bytes × Bytes). ok (r.0, node_hash sha256 r.1 last)) same)
  rounds-inner (s ∷ proof) last zero mm nn hash1 hash2 x y h e =
      absurd (omega (arith, rounds-more_inv s proof mm 0 hash1 hash2 e))
  rounds-inner (s ∷ proof) last (suc j) mm nn hash1 hash2 x y h e =
      let b : 0 < power (suc j) - 1 = omega (arith, power_pos j) in
      let half : (power (suc j) - 1) / 2 ≡ power j - 1 = omega (arith, power_pos j) in
      let inner : IsInner j (mm / 2) (nn / 2) = (omega arith, omega arith, omega arith) in
      elim (digit-cases mm) [
        | inl odd ↦
            let before = rounds-odd s proof mm (power (suc j) - 1) hash1 hash2 b odd in
            rounds-odd s (proof ++ last ∷ []) mm nn hash1 hash2 (omega arith) odd
            ∙ rounds-inner proof last j (mm / 2) (nn / 2) (node_hash sha256 s hash1)
                (node_hash sha256 s hash2) x y inner (rw (← half) (sym before ∙ e))
        | inr even ↦
            let before = rounds-new s proof mm (power (suc j) - 1) hash1 hash2 (omega arith) even in
            rounds-new s (proof ++ last ∷ []) mm nn hash1 hash2 (omega arith) even
            ∙ rounds-inner proof last j (mm / 2) (nn / 2) hash1 (node_hash sha256 hash2 s) x y inner
                (rw (← half) (sym before ∙ e))
      ]

  -- Beside a left half that both trees have, the last entry stands for that half.
  pub rounds-beside :
      (proof : List Bytes) (last : Bytes) (j mm nn : ℕ) (hash1 hash2 x y : Bytes)
      → mm ≤ nn
      → nn < power j
      → walk_rounds sha256 proof mm nn hash1 hash2 ≡ ok (x, y)
      → walk_rounds sha256 (proof ++ last ∷ []) (power j + mm) (power j + nn) hash1 hash2
        ≡ ok (node_hash sha256 last x, node_hash sha256 last y)
  rounds-beside [] last j mm nn hash1 hash2 x y le b e =
      let (z, same) = rounds-end_inv mm nn hash1 hash2 e in
      let e₁ : power j + mm ≡ power j = omega arith in
      let e₂ : power j + nn ≡ power j = omega arith in
      rw (e₁, e₂)
        (rounds-both last [] (power j) (power j) hash1 hash2 1 1 (power_pos j) (inr refl)
            (skip_zeros-power (power j) j (omega arith))
          ∙ rounds-end 0 (node_hash sha256 last hash1) (node_hash sha256 last hash2)
          ∙ ap (λ (r : Bytes × Bytes). ok (node_hash sha256 last r.0, node_hash sha256 last r.1))
              same)
  rounds-beside (s ∷ proof) last zero mm nn hash1 hash2 x y le b e =
      absurd (omega (arith, rounds-more_inv s proof mm nn hash1 hash2 e))
  rounds-beside (s ∷ proof) last (suc j) mm nn hash1 hash2 x y le b e =
      let p = rounds-more_inv s proof mm nn hash1 hash2 e in
      let e₁ : (power (suc j) + mm) / 2 ≡ power j + mm / 2 = omega arith in
      let e₂ : (power (suc j) + nn) / 2 ≡ power j + nn / 2 = omega arith in
      elim (digit-cases mm) [
        | inl odd ↦
            let before = rounds-odd s proof mm nn hash1 hash2 p odd in
            rounds-odd s (proof ++ last ∷ []) (power (suc j) + mm) (power (suc j) + nn) hash1 hash2
              (omega arith) (omega arith)
            ∙ rw (e₁, e₂)
                (rounds-beside proof last j (mm / 2) (nn / 2) (node_hash sha256 s hash1)
                  (node_hash sha256 s hash2) x y (omega arith) (omega arith) (sym before ∙ e))
        | inr even ↦ elim (dec_lt mm nn) [
          | yes lt ↦
              let before = rounds-new s proof mm nn hash1 hash2 lt even in
              rounds-new s (proof ++ last ∷ []) (power (suc j) + mm) (power (suc j) + nn) hash1
                hash2 (omega arith) (omega arith)
              ∙ rw (e₁, e₂)
                  (rounds-beside proof last j (mm / 2) (nn / 2) hash1 (node_hash sha256 hash2 s) x y
                    (omega arith) (omega arith) (sym before ∙ e))
          | no ge ↦
              let same : nn ≡ mm = omega arith in
              let (i, v, g, f, pos_v, lt) =
                skip_zeros-beside mm (power (suc j) + mm) (suc j) mm (omega arith) (omega arith)
                  (omega arith) (omega arith) in
              let (k, twice) = power-half i v pos_v lt in
              let h : (power i + v) / 2 ≡ power k + v / 2 = omega (arith, twice) in
              let before = rounds-both s proof mm mm hash1 hash2 v v (omega arith) (inr refl) g in
              let rest =
                rounds-beside proof last k (v / 2) (v / 2) (node_hash sha256 s hash1)
                  (node_hash sha256 s hash2) x y (omega arith) (omega (arith, twice))
                  (sym before
                    ∙ ap (λ (k : ℕ). walk_rounds sha256 (s ∷ proof) mm k hash1 hash2) (sym same)
                    ∙ e) in
              rw same (
                rounds-both s (proof ++ last ∷ []) (power (suc j) + mm) (power (suc j) + mm) hash1
                  hash2 (power i + v) (power i + v) (omega arith) (inr refl) f
                ∙ rw h rest)
        ]
      ]
