-- ===== src/Merkle/Consistency/Complete.antt =====
-- Every consistency proof that the program makes is accepted by its verifier.
use discourse_points_system.Prelude.{
  ℕ, ◌-◌, ◌≤◌, ◌<◌, ◌≡◌, refl, sym, ap, ◌∙◌, true, false, Bool, arith, List, [], ◌∷◌, map, Bytes,
  length, take, length-take, length-map, map-take, if◌then◌else◌,
}
use native.Mathlib.Decide.{dec_lt}
use discourse_points_system.Prelude.Int.{pos, i64_half}
use discourse_points_system.Prelude.Exec.{ok}
use discourse_points_system.Merkle.{leaf_hash, root_of_hashes, root_from_leaf_hashes, root}
use discourse_points_system.Merkle.Inclusion.{equal_refl}
use mathlib.Core.Path.{ap₂}
use discourse_points_system.Merkle.Consistency.{
  is_power_of_two, skip_ones, walk_rounds, walk_consistency, sub_proof, consistency_proof,
  verify_consistency, verify_path, to_uint64, decrement,
}
use discourse_points_system.Merkle.Consistency.SubProof.{head_root, sub_proof-same}
use discourse_points_system.Merkle.Consistency.Leads.{Leads, Leads-sub}

module _ (sha256 : Bytes → Bytes) where
  root-head_root :
      (leaves : List Bytes) (n : ℕ)
      → 0 < n
      → n ≤ length leaves
      → root sha256 (take n leaves) ≡ head_root sha256 (map (leaf_hash sha256) leaves) n
  unfolding root
  root-head_root leaves n p q =
      let hs = map (leaf_hash sha256) leaves in
      rw (map-take (leaf_hash sha256) n leaves)
        (go (take n hs) n p (omega (arith, length-take n hs, length-map (leaf_hash sha256) leaves)))
    where
      go :
          (l : List Bytes) (n : ℕ)
          → 0 < n
          → length l ≡ n
          → root_from_leaf_hashes sha256 l ≡ root_of_hashes sha256 n l
      go [] n p e = absurd (omega arith)
      go (x ∷ l) n p e = ap (λ (k : ℕ). root_of_hashes sha256 k (x ∷ l)) e

  -- Sizes that are Go ints are the uint64 values that the walk starts with.
  pub walk_consistency-sizes :
      (m n : ℕ) (hash1 hash2 : Bytes) (proof : List Bytes)
      → 0 < m
      → m ≤ n
      → n < i64_half
      → walk_consistency sha256 hash1 hash2 proof (pos m) (pos n)
        ≡ walk_rounds sha256 proof
            (skip_ones (m - 1) (m - 1) (n - 1)).0
            (skip_ones (m - 1) (m - 1) (n - 1)).1
            hash1
            hash2
  unfolding walk_consistency to_uint64 decrement
  walk_consistency-sizes m n hash1 hash2 proof p le lt =
      let e : decrement (to_uint64 (pos m)) ≡ m - 1 = omega arith in
      let e' : decrement (to_uint64 (pos n)) ≡ n - 1 = omega arith in
      ap₂
        (λ (a b : ℕ). walk_rounds sha256 proof (skip_ones a a b).0 (skip_ones a a b).1 hash1 hash2)
        e e'

  verify_path-walked :
      (start old new : Bytes) (rest : List Bytes) (m n : ℕ)
      → walk_consistency sha256 start start rest (pos m) (pos n) ≡ ok (old, new)
      → verify_path sha256 old new (pos m) (pos n) (start ∷ rest) ≡ ok tt
  unfolding verify_path
  verify_path-walked start old new rest m n e = ground (arith, equal_refl old, equal_refl new)

  pub verify_consistency-path :
      (old new : Bytes) (m n : ℕ) (proof : List Bytes)
      → 0 < m
      → m < n
      → verify_consistency sha256 old new (pos m) (pos n) proof
        ≡ verify_path sha256 old new
            (pos m)
            (pos n)
            (if is_power_of_two (pos m) then old ∷ proof else proof)
  unfolding verify_consistency
  verify_consistency-path old new m n proof p lt = ground arith

  path-start :
      (b : Bool) (old start : Bytes) (rest : List Bytes)
      → (b ≡ true → start ≡ old)
      → (if b then old ∷ (if b then rest else start ∷ rest) else if b then rest else start ∷ rest)
        ≡ start ∷ rest
  path-start true old start rest h = ap (λ (x : Bytes). x ∷ rest) (sym (h refl))
  path-start false old start rest h = refl

  verify_consistency-Leads :
      (hs : List Bytes) (m n : ℕ)
      → 0 < m
      → m < n
      → n < i64_half
      → Leads sha256 n hs m n
      → verify_consistency sha256
          (head_root sha256 hs m)
          (head_root sha256 hs n)
          (pos m)
          (pos n)
          (sub_proof sha256 n hs m n true)
        ≡ ok tt
  verify_consistency-Leads hs m n p lt b l =
      let old = head_root sha256 hs m in
      let new = head_root sha256 hs n in
      rw (l.short) (
        verify_consistency-path old new m n _ p lt
        ∙ ap (verify_path sha256 old new (pos m) (pos n))
            (path-start (is_power_of_two (pos m)) old l.start l.rest l.first)
        ∙ verify_path-walked l.start old new l.rest m n
            (walk_consistency-sizes m n l.start l.start l.rest p (omega arith) b ∙ l.walked))

  verify_consistency-same :
      (hs : List Bytes) (n : ℕ)
      → 0 < n
      → verify_consistency sha256
          (head_root sha256 hs n)
          (head_root sha256 hs n)
          (pos n)
          (pos n)
          (sub_proof sha256 n hs n n true)
        ≡ ok tt
  unfolding verify_consistency
  verify_consistency-same hs n p =
      ground (arith, (sub_proof-same sha256 n hs n p).0, equal_refl (head_root sha256 hs n))

  -- Completeness: for 0 < m ≤ n, where n is at most the number of leaves, an int64, ConsistencyProof
  -- gives a proof, and VerifyConsistency accepts it against the roots of the first m and of the
  -- first n leaves.
  pub consistency_complete :
      (leaves : List Bytes) (m n : ℕ)
      → 0 < m
      → m ≤ n
      → n ≤ length leaves
      → length leaves < i64_half
      → (proof : List Bytes) × (consistency_proof sha256 leaves (pos m) (pos n) ≡ ok proof)
        × (verify_consistency sha256
              (root sha256 (take m leaves))
              (root sha256 (take n leaves))
              (pos m)
              (pos n)
              proof
            ≡ ok tt)
  unfolding consistency_proof
  consistency_complete leaves m n p le q b =
      let hs = map (leaf_hash sha256) leaves in
      let len = length-map (leaf_hash sha256) leaves in
      (
        sub_proof sha256 n hs m n true,
        ground (arith, len),
        rw (root-head_root leaves m p (omega arith), root-head_root leaves n (omega arith) q)
            (elim (dec_lt m n) [
              | yes lt ↦
                  verify_consistency-Leads hs m n p lt (omega arith)
                    (Leads-sub sha256 n hs m n p lt (omega (arith, len)) (omega arith))
              | no ge ↦
                  let same : m ≡ n = omega arith in
                  rw same (verify_consistency-same hs n (omega arith))
            ]),
      )
