-- ===== src/Merkle/Consistency/Walked.antt =====
-- A walk that ends with the root of a list has started from a hash of its first leaves, or gives a
-- second preimage of an inner node.
use discourse_points_system.Prelude.{
  ℕ, zero, suc, ◌+◌, ◌-◌, ◌*◌, ◌≤◌, ◌<◌, ◌≡◌, sym, ap, ◌∙◌, arith, List, Bytes, inl, length, take,
  drop, take-take, length-take, length-drop, HashLength,
}
use mathlib.Core.Path.{ap₂, subst}
use native.Mathlib.Decide.{dec_lt}
use discourse_points_system.Prelude.Exec.{ok}
use discourse_points_system.Merkle.{root_from_leaf_hashes}
use discourse_points_system.Merkle.Steps.{split}
use discourse_points_system.Merkle.Preimage.{AllHashes, AllHashes-left, AllHashes-right}
use discourse_points_system.Merkle.Consistency.{skip_ones, walk_rounds}
use discourse_points_system.Merkle.Consistency.Digits.{power, power_pos, split_power}
use discourse_points_system.Merkle.Consistency.Walk.{
  skip_ones-power, skip_ones-Inner, skip_ones-Beside,
}
use discourse_points_system.Merkle.Consistency.Unwind.{
  rounds-zero_inv, rounds-inner_inv, rounds-beside_inv,
}
use discourse_points_system.Merkle.Consistency.Old.{
  rounds-length, IsOld, IsOld-left, IsOld-right, Walked,
}

module _ (sha256 : Bytes → Bytes) where
  -- The claim for shorter lists.
  abbrev pub Below : ℕ → Bytes → Type 0
  Below f start =
      (hs : List Bytes) (m : ℕ) (proof : List Bytes) (u : Bytes)
      → AllHashes hs
      → 0 < m
      → m < length hs
      → length hs ≤ f
      → Walked sha256 hs m proof start u
      → IsOld sha256 hs m u

  Walked-right :
      (f : ℕ) (hs : List Bytes) (m j : ℕ) (proof : List Bytes) (start u : Bytes)
      → Below f start
      → HashLength sha256
      → AllHashes hs
      → length start ≡ 32
      → split hs ≡ power j
      → power j < m
      → m < length hs
      → length hs ≤ suc f
      → length hs ≤ power j * 2
      → Walked sha256 hs m proof start u
      → IsOld sha256 hs m u
  Walked-right f hs m j proof start u ih hl all n e gt lt h above w =
      let k = power j in
      let r = m - k in
      let len = length-drop k hs in
      let size = length hs in
      let same : k + (r - 1) ≡ m - 1 = omega (arith, power_pos j) in
      let same' : k + (size - k - 1) ≡ size - 1 = omega (arith, power_pos j) in
      let ((i, at, below), less) =
        skip_ones-Beside (r - 1) (m - 1) j (r - 1) (size - k - 1) (omega arith)
          (omega (arith, power_pos j)) (omega arith) (omega (arith, power_pos j)) in
      let s = skip_ones (r - 1) (r - 1) (size - k - 1) in
      let (front, last, x, y, w', p, q) =
        rounds-beside_inv sha256 proof i s.0 s.1 start start u (root_from_leaf_hashes sha256 hs)
          (omega (arith, less)) below
          (ap (λ (t : ℕ × ℕ). walk_rounds sha256 proof t.0 t.1 start start)
              (sym at ∙ ap₂ (λ (a b : ℕ). skip_ones (m - 1) a b) same same')
            ∙ w) in
      IsOld-right sha256 hs m last x y u hl all (omega (arith, power_pos j)) (omega (arith, e))
        (omega arith) (rounds-length sha256 front s.0 s.1 start start x y hl n w') p (sym q)
        (λ same_y.
          subst (λ (c : ℕ). IsOld sha256 (drop c hs) (m - c) x) (sym e)
            (ih (drop k hs) r front x
              (subst (λ (c : ℕ). AllHashes (drop c hs)) e (AllHashes-right sha256 hs all))
              (omega arith) (omega (arith, len)) (omega (arith, len, power_pos j))
              (ap
                  (λ (c : ℕ).
                    walk_rounds sha256 front (skip_ones (r - 1) (r - 1) (c - 1)).0
                      (skip_ones (r - 1) (r - 1) (c - 1)).1 start start)
                  len
                ∙ w'
                ∙ ap (λ (z : Bytes). ok (x, z))
                    (same_y ∙ ap (λ (c : ℕ). root_from_leaf_hashes sha256 (drop c hs)) e))))

  Walked-left :
      (f : ℕ) (hs : List Bytes) (m j : ℕ) (proof : List Bytes) (start u : Bytes)
      → Below f start
      → HashLength sha256
      → AllHashes hs
      → length start ≡ 32
      → split hs ≡ power j
      → 0 < m
      → m ≤ power j
      → power j < length hs
      → length hs ≤ suc f
      → length hs ≤ power j * 2
      → Walked sha256 hs m proof start u
      → IsOld sha256 hs m u
  Walked-left f hs m j proof start u ih hl all n e p le lt h above w =
      let k = power j in
      let len = length-take k hs in
      let size = length hs in
      let (i, at, inner) =
        skip_ones-Inner (m - 1) j (m - 1) (size - 1) (omega arith)
          (omega arith, omega arith, omega arith) in
      let t = skip_ones (m - 1) (m - 1) (size - 1) in
      let s = skip_ones (m - 1) (m - 1) (k - 1) in
      let (front, last, y, w', q) =
        rounds-inner_inv sha256 proof i t.0 t.1 start start u (root_from_leaf_hashes sha256 hs)
          inner w in
      let w'' = ap (λ (s : ℕ × ℕ). walk_rounds sha256 front s.0 s.1 start start) at ∙ w' in
      IsOld-left sha256 hs m last y u hl all (omega (arith, power_pos j)) (omega (arith, e))
        (rounds-length sha256 front s.0 s.1 start start u y hl n w'') (sym q)
        (λ same_y.
          subst (λ (c : ℕ). IsOld sha256 (take c hs) m u) (sym e)
            (elim (dec_lt m k) [
              | yes less ↦
                  ih (take k hs) m front u
                    (subst (λ (c : ℕ). AllHashes (take c hs)) e (AllHashes-left sha256 hs all)) p
                    (omega (arith, len)) (omega (arith, len))
                    (ap
                        (λ (c : ℕ).
                          walk_rounds sha256 front (skip_ones (m - 1) (m - 1) (c - 1)).0
                            (skip_ones (m - 1) (m - 1) (c - 1)).1 start start)
                        (len ∙ omega arith)
                      ∙ w''
                      ∙ ap (λ (z : Bytes). ok (u, z))
                          (same_y ∙ ap (λ (c : ℕ). root_from_leaf_hashes sha256 (take c hs)) e))
              | no ge ↦
                  let whole : m ≡ k = omega arith in
                  let none_left : s.1 ≡ 0 =
                    ap (λ (c : ℕ). (skip_ones (c - 1) (c - 1) (k - 1)).1) whole
                    ∙ ap (λ (r : ℕ × ℕ). r.1) (skip_ones-power (k - 1) j (omega arith)) in
                  let ends = rounds-zero_inv sha256 front s.0 s.1 start start none_left w'' in
                  inl (
                    ap (λ (r : Bytes × Bytes). r.0) (sym ends)
                    ∙ ap (λ (r : Bytes × Bytes). r.1) ends
                    ∙ same_y
                    ∙ ap (λ (c : ℕ). root_from_leaf_hashes sha256 (take c hs)) e
                    ∙ ap (root_from_leaf_hashes sha256) (sym (take-take k k hs (omega arith)))
                    ∙ ap (λ (c : ℕ). root_from_leaf_hashes sha256 (take c (take k hs))) (sym whole))
            ]))

  pub walked-IsOld : (f : ℕ) (start : Bytes) → HashLength sha256 → length start ≡ 32 → Below f start
  walked-IsOld zero start hl n hs m proof u all p lt h w = absurd (omega arith)
  walked-IsOld (suc f) start hl n hs m proof u all p lt h w =
      let (j, e, below, above) = split_power (length hs) (omega arith) in
      elim (dec_lt (power j) m) [
        | yes gt ↦
            Walked-right f hs m j proof start u (walked-IsOld f start hl n) hl all n e gt lt h above
              w
        | no le ↦
            Walked-left f hs m j proof start u (walked-IsOld f start hl n) hl all n e p
              (omega arith) below h above w
      ]
