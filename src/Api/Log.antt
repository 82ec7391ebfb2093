-- ===== src/Api/Log.antt =====
-- internal/api/log.go: the handlers that serve proofs of the log. A number of the query comes
-- parsed, `none` where strconv fails. The table may grow between a handler's two queries: `txs` is
-- the table when the size is read, `txs'` when the leaves are.
pub mod Proofs
use discourse_points_system.Prelude.{
  ℕ, Bool, true, false, ◌||◌, ◌&&◌, Option, none, some, List, [], Bytes, map, get_elem?,
  if◌then◌else◌,
}
use discourse_points_system.Prelude.Int.{ℤ, pos, negsuc, leb_ℤ, ltb_ℤ, pos_part}
use discourse_points_system.Prelude.Exec.{Result, ok, err}
use discourse_points_system.Ledger.Tx.{Env, Tx}
use discourse_points_system.Merkle.{inclusion_proof_from_hashes}
use discourse_points_system.Merkle.Consistency.{consistency_proof_from_hashes}
use discourse_points_system.TxLog.{
  LogError, Snapshot, Sth, Keys, current_tree_size, merkle_snapshot, hex,
}
use discourse_points_system.TxLog.Range.{range_leaves}
use discourse_points_system.TxLog.Signing.{Checkpoints, CheckpointSummary, current_sth, checkpoints}

pub data LogResponse : Type 0 where
  refused : ℕ → LogResponse
  inclusion : ℤ → ℤ → Bytes → List Bytes → LogResponse
  consistency : ℤ → ℤ → List Bytes → LogResponse
  tree_head : Sth → LogResponse
  leaves : ℤ → ℤ → List Tx → LogResponse
  recent : List CheckpointSummary → LogResponse

module _ (sha256 : Bytes → Bytes) where
  -- Service.LeafHashes
  unfoldable pub leaf_hashes :
      List Tx → Option Snapshot → ℤ → Result LogError (List Bytes) × Option Snapshot
  leaf_hashes txs cache tree_size =
      let (r, cache') = merkle_snapshot sha256 txs cache tree_size in
      (elim r [ err e ↦ err e | ok snap ↦ ok snap.leaf_hashes ], cache')

  -- The hash of a leaf that is known to be in range.
  abbrev leaf_at : List Bytes → ℤ → Bytes
  leaf_at hs i = elim (get_elem? hs (pos_part i)) [ none ↦ [] | some h ↦ h ]

  -- logInclusion once the size is known.
  unfoldable pub serve_inclusion : ℤ → ℤ → List Tx → Option Snapshot → LogResponse × Option Snapshot
  unfolding leaf_hashes
  serve_inclusion index size txs cache =
      if ltb_ℤ index (pos 0) || leb_ℤ size index
      then (refused 400, cache)
      else (let (r, cache') = leaf_hashes txs cache size in
          elim r [
            | err e ↦ (refused 500, cache')
            | ok hs ↦ elim (inclusion_proof_from_hashes sha256 hs index) [
              | err e ↦ (refused 500, cache')
              | ok proof ↦ (inclusion index size (hex (leaf_at hs index)) (map hex proof), cache')
            ]
          ])

  -- logInclusion; the tree size may be left out of the query.
  unfoldable pub log_inclusion :
      Option ℤ
      → Option (Option ℤ)
      → List Tx
      → List Tx
      → Option Snapshot
      → LogResponse × Option Snapshot
  unfolding serve_inclusion
  log_inclusion none tree_size txs txs' cache = (refused 400, cache)
  log_inclusion (some index) none txs txs' cache =
      serve_inclusion index (current_tree_size txs) txs' cache
  log_inclusion (some index) (some none) txs txs' cache = (refused 400, cache)
  log_inclusion (some index) (some (some size)) txs txs' cache =
      if leb_ℤ size (pos 0) || ltb_ℤ (current_tree_size txs) size
      then (refused 400, cache)
      else serve_inclusion index size txs' cache

  unfoldable pub log_consistency :
      Option ℤ → Option ℤ → List Tx → List Tx → Option Snapshot → LogResponse × Option Snapshot
  unfolding leaf_hashes
  log_consistency (some first) (some second) txs txs' cache =
      if leb_ℤ first (pos 0) || ltb_ℤ second first
      then (refused 400, cache)
      else if ltb_ℤ (current_tree_size txs) second
      then (refused 400, cache)
      else (let (r, cache') = leaf_hashes txs' cache second in
          elim r [
            | err e ↦ (refused 500, cache')
            | ok hs ↦ elim (consistency_proof_from_hashes sha256 hs first second) [
              | err e ↦ (refused 500, cache')
              | ok proof ↦ (consistency first second (map hex proof), cache')
            ]
          ])
  log_consistency _ _ txs txs' cache = (refused 400, cache)

-- logSTH, at the time `ts`.
unfoldable pub log_sth :
    Env
    → Keys
    → ℤ
    → List Tx
    → Option Snapshot
    → Checkpoints
    → LogResponse × Option Snapshot × Checkpoints
log_sth env keys ts txs cache table =
    let (r, cache', table') = current_sth env keys ts txs cache table in
    (elim r [ err e ↦ refused 500 | ok sth ↦ tree_head sth ], cache', table')

-- logLeaves. What strconv gives for `from`, an error included, is taken as it is; `to` may be left
-- out of the query.
unfoldable pub log_leaves : ℤ → Option (Option ℤ) → List Tx → LogResponse
log_leaves from none txs = leaves from (negsuc 0) (range_leaves txs from (negsuc 0))
log_leaves from (some none) txs = refused 400
log_leaves from (some (some to)) txs = leaves from to (range_leaves txs from to)

-- logCheckpoints: a limit that does not parse, or is out of bounds, is 50.
unfoldable pub log_checkpoints : Env → Keys → Option ℤ → Checkpoints → LogResponse × Checkpoints
log_checkpoints env keys limit table =
    let n : ℤ = elim limit [
      | none ↦ pos 50
      | some l ↦ if ltb_ℤ (pos 0) l && leb_ℤ l (pos 500) then l else pos 50
    ] in
    let (r, table') = checkpoints env keys n table in
    (elim r [ err e ↦ refused 500 | ok out ↦ recent out ], table')
