-- ===== src/Api/Log/Proofs.antt =====
-- The proofs that the log's handlers serve are accepted by the verifiers.
use discourse_points_system.Prelude.{
  ℕ, zero, suc, ◌≤◌, ◌<◌, ◌≡◌, refl, sym, ap, ◌∙◌, arith, List, [], ◌∷◌, ◌++◌, Bytes, map, length,
  take, get_elem?, get_elem?-take, length-take, length-map, length-append, take-take, Option, some,
}
use mathlib.Core.Path.{ap₂}
use discourse_points_system.Prelude.Int.{pos, i64_half}
use discourse_points_system.Prelude.Exec.{ok}
use discourse_points_system.Ledger.Tx.{Tx}
use discourse_points_system.Merkle.{
  leaf_hash, root, inclusion_proof, inclusion_proof_from_hashes, verify_inclusion,
}
use discourse_points_system.Merkle.Inclusion.{inclusion_complete}
use discourse_points_system.Merkle.Consistency.{
  consistency_proof, consistency_proof_from_hashes, verify_consistency,
}
use discourse_points_system.Merkle.Consistency.Complete.{consistency_complete}
use discourse_points_system.TxLog.{Snapshot, hex}
use discourse_points_system.TxLog.Rows.{InOrder, hashes, current_tree_size-length}
use discourse_points_system.TxLog.Exact.{merkle_snapshot-answer}
use discourse_points_system.TxLog.Fetch.{ExactCache}
use discourse_points_system.Api.Log.{
  consistency, inclusion, leaf_hashes, log_consistency, log_inclusion,
}

module _ (sha256 : Bytes → Bytes) where
  leaf_hashes-first :
      (txs : List Tx) (cache : Option Snapshot) (n : ℕ)
      → InOrder 0 txs
      → ExactCache sha256 txs cache
      → n ≤ length txs
      → (leaf_hashes sha256 txs cache (pos n)).0 ≡ ok (map (leaf_hash sha256) (take n (hashes txs)))
  unfolding leaf_hashes
  leaf_hashes-first txs cache n d c h =
      ground (arith, (merkle_snapshot-answer sha256 txs cache (pos n) d c).0)

  proof_from_hashes :
      (leaves : List Bytes) (m n : ℕ)
      → consistency_proof sha256 leaves (pos m) (pos n)
        ≡ consistency_proof_from_hashes sha256 (map (leaf_hash sha256) leaves) (pos m) (pos n)
  unfolding consistency_proof
  proof_from_hashes leaves m n = refl

  -- The consistency handler serves a good proof: where the table held the log in the order of its
  -- indices when its size was read, holds it so, with more entries at most, when the leaves are read,
  -- and the cache is a snapshot of its first entries, or empty, then for 0 < first ≤ second, up to
  -- the size read, an int64, the answer is a proof, and VerifyConsistency accepts it against the
  -- roots of the first entries and of the second.
  pub consistency_served :
      (txs more : List Tx) (cache : Option Snapshot) (first second : ℕ)
      → InOrder 0 txs
      → InOrder 0 (txs ++ more)
      → ExactCache sha256 (txs ++ more) cache
      → 0 < first
      → first ≤ second
      → second ≤ length txs
      → length txs < i64_half
      → (proof : List Bytes) × ((log_consistency sha256
            (some (pos first))
            (some (pos second))
            txs
            (txs ++ more)
            cache).0
          ≡ consistency (pos first) (pos second) (map hex proof))
        × (verify_consistency sha256
              (root sha256 (take first (hashes (txs ++ more))))
              (root sha256 (take second (hashes (txs ++ more))))
              (pos first)
              (pos second)
              proof
            ≡ ok tt)
  unfolding log_consistency
  consistency_served txs more cache first second d d' c p le fits b =
      let all = hashes (txs ++ more) in
      let leaves = take second all in
      let n : length leaves ≡ second = omega (
        arith,
        length-take second all,
        length-map (λ (tx : Tx). tx.tx_hash) (txs ++ more),
        length-append txs more,
      ) in
      let (proof, made, accepted) =
        consistency_complete sha256 leaves first second p le (omega (arith, n))
          (omega (arith, n)) in
      (
        proof,
        ground (
          arith,
          current_tree_size-length txs d,
          leaf_hashes-first (txs ++ more) cache second d' c
              (omega (arith, fits, length-append txs more)),
          proof_from_hashes leaves first second,
          made,
        ),
        ap₂
              (λ (a b : List Bytes).
                verify_consistency sha256 (root sha256 a) (root sha256 b) (pos first) (pos second)
                  proof)
              (sym (take-take first second all le))
              (sym (take-take second second all (omega arith)))
            ∙ accepted,
      )

  path_from_hashes :
      (leaves : List Bytes) (i : ℕ)
      → inclusion_proof sha256 leaves (pos i)
        ≡ inclusion_proof_from_hashes sha256 (map (leaf_hash sha256) leaves) (pos i)
  unfolding inclusion_proof
  path_from_hashes leaves i = refl

  get_elem?-leaves :
      (xs : List Bytes) (i : ℕ) (h : Bytes)
      → get_elem? xs i ≡ some h
      → get_elem? (map (leaf_hash sha256) xs) i ≡ some (leaf_hash sha256 h)
  get_elem?-leaves [] i h e = absurd (ground arith)
  get_elem?-leaves (x ∷ xs) zero h e = ground arith
  get_elem?-leaves (x ∷ xs) (suc i) h e = get_elem?-leaves xs i h e

  -- The inclusion handler serves a good proof: under the same conditions on the table and the
  -- cache, for a tree size up to the size read and an index below it, the answer is the leaf hash
  -- of the entry at that index and a proof that VerifyInclusion accepts for it against the root of
  -- the first entries, as many as the tree size.
  pub inclusion_served :
      (txs more : List Tx) (cache : Option Snapshot) (index size : ℕ) (h : Bytes)
      → InOrder 0 txs
      → InOrder 0 (txs ++ more)
      → ExactCache sha256 (txs ++ more) cache
      → index < size
      → size ≤ length txs
      → get_elem? (hashes (txs ++ more)) index ≡ some h
      → (proof : List Bytes) × ((log_inclusion sha256
            (some (pos index))
            (some (some (pos size)))
            txs
            (txs ++ more)
            cache).0
          ≡ inclusion (pos index) (pos size) (hex (leaf_hash sha256 h)) (map hex proof))
        × (verify_inclusion sha256
              (root sha256 (take size (hashes (txs ++ more))))
              (leaf_hash sha256 h)
              (pos index)
              (pos size)
              proof
            ≡ ok tt)
  unfolding log_inclusion
  inclusion_served txs more cache index size h d d' c lt fits at =
      let all = hashes (txs ++ more) in
      let leaves = take size all in
      let n : length leaves ≡ size = omega (
        arith,
        length-take size all,
        length-map (λ (tx : Tx). tx.tx_hash) (txs ++ more),
        length-append txs more,
      ) in
      let at' = get_elem?-take all size index lt ∙ at in
      let (proof, made, accepted) = inclusion_complete sha256 leaves index h at' in
      (
        proof,
        ground (
          arith,
          current_tree_size-length txs d,
          leaf_hashes-first (txs ++ more) cache size d' c
              (omega (arith, fits, length-append txs more)),
          get_elem?-leaves leaves index h at',
          path_from_hashes leaves index,
          made,
        ),
        ap
              (λ (k : ℕ).
                verify_inclusion sha256 (root sha256 leaves) (leaf_hash sha256 h) (pos index)
                  (pos k) proof)
              (sym n)
            ∙ accepted,
      )
