-- ===== src/Merkle/Consistency/Soundness.antt =====
-- A proof that VerifyConsistency accepts shows that the old root is that of the first leaves, or a
-- second preimage of an inner node.
use discourse_points_system.Prelude.{
  ℕ, ◌-◌, ◌≤◌, ◌<◌, ◌≡◌, ◌⊎◌, refl, sym, ap, ◌∙◌, true, false, Bool, Bool-cases, arith, List, [],
  ◌∷◌, map, Bytes, inl, inr, length, take, length-map, take-all, map-take, HashLength, nat_eqb,
  if◌then◌else◌,
}
use discourse_points_system.Prelude.Int.{pos, i64_half}
use discourse_points_system.Prelude.Exec.{ok, Result-cases}
use discourse_points_system.Merkle.{leaf_hash, root_from_leaf_hashes, root}
use discourse_points_system.Merkle.Descend.{equal→eq}
use discourse_points_system.Merkle.Preimage.{AllHashes, NodePreimage}
use discourse_points_system.Merkle.Soundness.{AllHashes-map}
use discourse_points_system.Merkle.Consistency.{
  is_power_of_two, skip_ones, walk_rounds, walk_consistency, verify_path, verify_consistency,
}
use discourse_points_system.Merkle.Consistency.Old.{Walked}
use discourse_points_system.Merkle.Consistency.Walked.{walked-IsOld}
use discourse_points_system.Merkle.Consistency.Complete.{
  walk_consistency-sizes, verify_consistency-path,
}

module _ (sha256 : Bytes → Bytes) where
  -- A path that is accepted starts with a hash from which the walk leads to both roots.
  verify_path_inv :
      (old new : Bytes) (m n : ℕ) (path : List Bytes)
      → verify_path sha256 old new (pos m) (pos n) path ≡ ok tt
      → (start : Bytes) × (rest : List Bytes) × (path ≡ start ∷ rest)
        × (walk_consistency sha256 start start rest (pos m) (pos n) ≡ ok (old, new))
  unfolding verify_path
  verify_path_inv old new m n [] h = absurd (ground arith)
  verify_path_inv old new m n (start ∷ rest) h =
      elim (Result-cases (walk_consistency sha256 start start rest (pos m) (pos n))) [
        | inl (r, e) ↦ (start, rest, refl, ground (arith, equal→eq r.0 old, equal→eq r.1 new))
        | inr (x, e) ↦ absurd (ground arith)
      ]

  first-length :
      (b : Bool) (old start : Bytes) (proof rest : List Bytes)
      → length old ≡ 32
      → AllHashes proof
      → (if b then old ∷ proof else proof) ≡ start ∷ rest
      → length start ≡ 32
  first-length true old start proof rest n all e = ground arith
  first-length false old start [] rest n all e = absurd (ground arith)
  first-length false old start (x ∷ proof) rest n all e = ground (arith, all 0 x refl)

  verify_consistency_inv :
      (old new : Bytes) (m n : ℕ) (proof : List Bytes)
      → verify_consistency sha256 old new (pos m) (pos n) proof ≡ ok tt
      → ((m ≡ n) × (old ≡ new)) ⊎ ((0 < m) × (m < n))
  unfolding verify_consistency
  verify_consistency_inv old new m n proof h = elim (Bool-cases (nat_eqb m n)) [
    | inl same ↦ inl (ground arith, ground (arith, equal→eq old new))
    | inr differ ↦ inr (ground arith, ground arith)
  ]

  -- Soundness: where SHA-256 gives 32 bytes and the proof's entries and the old root have 32 bytes,
  -- any proof that VerifyConsistency accepts against an old root, for a size m, and against the root
  -- of a list of leaves, for the list's size, an int64, shows that the old root is the root of the
  -- first m leaves, or else gives a second preimage of an inner node of the list's own tree.
  pub consistency_sound :
      (leaves : List Bytes) (m : ℕ) (old : Bytes) (proof : List Bytes)
      → HashLength sha256
      → AllHashes proof
      → length old ≡ 32
      → length leaves < i64_half
      → verify_consistency sha256 old (root sha256 leaves) (pos m) (pos (length leaves)) proof
        ≡ ok tt
      → ((m ≤ length leaves) × (old ≡ root sha256 (take m leaves)))
        ⊎ NodePreimage sha256 (map (leaf_hash sha256) leaves)
  unfolding root
  consistency_sound leaves m old proof hl all n b h =
      let hs = map (leaf_hash sha256) leaves in
      let new = root_from_leaf_hashes sha256 hs in
      let len = length-map (leaf_hash sha256) leaves in
      elim (verify_consistency_inv old new m (length leaves) proof h) [
        | inl (size, same) ↦ inl (
          omega arith,
          same
              ∙ ap (λ (l : List Bytes). root_from_leaf_hashes sha256 (map (leaf_hash sha256) l))
                  (sym (take-all m leaves (omega arith))),
        )
        | inr (p, lt) ↦
            let (start, rest, path, w) =
              verify_path_inv old new m (length leaves) _
                (sym (verify_consistency-path sha256 old new m (length leaves) proof p lt) ∙ h) in
            let walked : Walked sha256 hs m rest start old =
              ap
                (λ (k : ℕ).
                  walk_rounds sha256 rest (skip_ones (m - 1) (m - 1) (k - 1)).0
                    (skip_ones (m - 1) (m - 1) (k - 1)).1 start start)
                len
              ∙ sym (
                  walk_consistency-sizes sha256 m (length leaves) start start rest p (omega arith)
                    b)
              ∙ w in
            elim (walked-IsOld sha256 (length hs) start hl
              (first-length (is_power_of_two (pos m)) old start proof rest n all path) hs m rest old
              (AllHashes-map sha256 leaves hl) p (omega (arith, len)) (omega arith) walked) [
                | inr c ↦ inr c
                | inl e ↦ inl (
                  omega arith,
                  e
                      ∙ ap (root_from_leaf_hashes sha256)
                          (sym (map-take (leaf_hash sha256) m leaves)),
                )
              ]
      ]
