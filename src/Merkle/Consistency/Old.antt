-- ===== src/Merkle/Consistency/Old.antt =====
-- The old root, one split at a time: what both roots are made of, or a second preimage.
use discourse_points_system.Prelude.{
  ℕ, ◌-◌, ◌/◌, ◌++◌, ◌≤◌, ◌<◌, ◌≡◌, ◌⊎◌, sym, ap, ◌∙◌, arith, List, [], ◌∷◌, Bytes, inl, inr,
  length, take, drop, take-take, drop-take, length-take, HashLength,
}
use mathlib.Core.Path.{ap₂}
use discourse_points_system.Prelude.Exec.{ok}
use discourse_points_system.Merkle.{
  largest_power_of_two_less_than, node_hash, root_from_leaf_hashes,
}
use discourse_points_system.Merkle.Split.{split_bounds}
use discourse_points_system.Merkle.Steps.{
  split, left_half, right_half, length-left_half, length-right_half,
}
use discourse_points_system.Merkle.Preimage.{
  AllHashes, NodePreimage, length-root, node-inj, root-halves, lift_left, lift_right,
  AllHashes-left, AllHashes-right,
}
use discourse_points_system.Merkle.Consistency.{skip_ones, skip_zeros, walk_rounds}
use discourse_points_system.Merkle.Consistency.Digits.{power_pos, split_power, split_of_power}

module _ (sha256 : Bytes → Bytes) where
  -- The walk ends with hashes of 32 bytes.
  pub rounds-length :
      (proof : List Bytes) (mm nn : ℕ) (hash1 hash2 u v : Bytes)
      → HashLength sha256
      → length hash2 ≡ 32
      → walk_rounds sha256 proof mm nn hash1 hash2 ≡ ok (u, v)
      → length v ≡ 32
  unfolding walk_rounds node_hash
  rounds-length [] mm nn hash1 hash2 u v hl n e = ground arith
  rounds-length (s ∷ proof) mm nn hash1 hash2 u v hl n e =
      let z = skip_zeros mm mm nn in
      ground (
        arith,
        hl (0x01 ∷ (s ++ hash2)),
        hl (0x01 ∷ (hash2 ++ s)),
        rounds-length proof (z.0 / 2) (z.1 / 2) (node_hash sha256 s hash1)
            (node_hash sha256 s hash2) u v hl,
        rounds-length proof (mm / 2) (nn / 2) hash1 (node_hash sha256 hash2 s) u v hl,
      )

  -- The root of the first hashes, more than the left half, is that of the same left half and of the
  -- first hashes of the right half.
  root-take :
      (hs : List Bytes) (m : ℕ)
      → split hs < m
      → m ≤ length hs
      → 2 ≤ length hs
      → root_from_leaf_hashes sha256 (take m hs)
        ≡ node_hash sha256
            (root_from_leaf_hashes sha256 (left_half hs))
            (root_from_leaf_hashes sha256 (take (m - split hs) (right_half hs)))
  root-take hs m lt le two =
      let l = take m hs in
      let n : length l ≡ m = omega (arith, length-take m hs) in
      let (j, e, below, above) = split_power (length hs) two in
      let same : split l ≡ split hs =
        ap largest_power_of_two_less_than n
        ∙ split_of_power m j (omega (arith, e)) (omega arith)
        ∙ sym e in
      root-halves sha256 l (omega (arith, e, power_pos j))
      ∙ ap₂
          (λ (a b : List Bytes).
            node_hash sha256 (root_from_leaf_hashes sha256 a) (root_from_leaf_hashes sha256 b))
          (ap (λ (k : ℕ). take k l) same ∙ take-take (split hs) m hs (omega arith))
          (ap (λ (k : ℕ). drop k l) same ∙ drop-take (split hs) m hs)

  -- What is claimed of the old root.
  abbrev pub IsOld : List Bytes → ℕ → Bytes → Type 0
  IsOld hs m u = (u ≡ root_from_leaf_hashes sha256 (take m hs)) ⊎ NodePreimage sha256 hs

  abbrev pub Walked : List Bytes → ℕ → List Bytes → Bytes → Bytes → Type 0
  Walked hs m proof start u =
      walk_rounds sha256 proof (skip_ones (m - 1) (m - 1) (length hs - 1)).0
        (skip_ones (m - 1) (m - 1) (length hs - 1)).1 start start
      ≡ ok (u, root_from_leaf_hashes sha256 hs)

  pub IsOld-right :
      (hs : List Bytes) (m : ℕ) (last x y u : Bytes)
      → HashLength sha256
      → AllHashes hs
      → 2 ≤ length hs
      → split hs < m
      → m ≤ length hs
      → length y ≡ 32
      → u ≡ node_hash sha256 last x
      → node_hash sha256 last y ≡ root_from_leaf_hashes sha256 hs
      → (y ≡ root_from_leaf_hashes sha256 (right_half hs) → IsOld (right_half hs) (m - split hs) x)
      → IsOld hs m u
  IsOld-right hs m last x y u hl all two lt le n p q rest =
      let r = length-right_half hs two in
      let b = split_bounds (length hs) two in
      let len =
        length-root sha256 (right_half hs) hl (omega (arith, b, r))
          (AllHashes-right sha256 hs all) in
      elim (node-inj sha256 hs last y two (inr (n ∙ sym len)) q) [
        | inr c ↦ inr c
        | inl (same, below) ↦ elim (rest below) [
          | inr c ↦ inr (lift_right sha256 hs two c)
          | inl old ↦ inl (p ∙ ap₂ (node_hash sha256) same old ∙ sym (root-take hs m lt le two))
        ]
      ]

  pub IsOld-left :
      (hs : List Bytes) (m : ℕ) (last y u : Bytes)
      → HashLength sha256
      → AllHashes hs
      → 2 ≤ length hs
      → m ≤ split hs
      → length y ≡ 32
      → node_hash sha256 y last ≡ root_from_leaf_hashes sha256 hs
      → (y ≡ root_from_leaf_hashes sha256 (left_half hs) → IsOld (left_half hs) m u)
      → IsOld hs m u
  IsOld-left hs m last y u hl all two le n q rest =
      let l = length-left_half hs two in
      let b = split_bounds (length hs) two in
      let len =
        length-root sha256 (left_half hs) hl (omega (arith, b, l)) (AllHashes-left sha256 hs all) in
      elim (node-inj sha256 hs y last two (inl (n ∙ sym len)) q) [
        | inr c ↦ inr c
        | inl (below, same) ↦ elim (rest below) [
          | inr c ↦ inr (lift_left sha256 hs two c)
          | inl old ↦ inl (old ∙ ap (root_from_leaf_hashes sha256) (take-take m (split hs) hs le))
        ]
      ]
