-- ===== src/TxLog/Signing.antt =====
-- internal/txlog/service.go: the signed tree heads, and the table of checkpoints that keeps the
-- first one of each size.
use discourse_points_system.Prelude.{
  Bool, true, false, not, ◌||◌, take, Option, none, some, List, [], ◌∷◌, Bytes, length, ltb,
  if◌then◌else◌,
}
use discourse_points_system.Prelude.Int.{ℤ, pos, negsuc, int_eq, leb_ℤ, ltb_ℤ, pos_part}
use discourse_points_system.Prelude.Dict.{Dict, lookup, insert}
use discourse_points_system.Prelude.Exec.{Result, ok, err}
use discourse_points_system.Ledger.Tx.{Env, Tx}
use discourse_points_system.Merkle.{equal}
use discourse_points_system.TxLog.{
  LogError, other_root, no_pub_key, Snapshot, Sth, Checkpoint, Keys, hex, signed_sth_bytes,
  merkle_snapshot,
}

abbrev pub Checkpoints : Type 0
Checkpoints = Dict ℤ Checkpoint

-- A key that was stored; NULL is read as no bytes.
abbrev pub stored_key : Option Bytes → Bytes
stored_key none = []
stored_key (some key) = key

-- `UPDATE checkpoints SET admin_pubkey = $2 WHERE tree_size = $1 AND admin_pubkey IS NULL`
unfoldable pub backfill : ℤ → Bytes → Checkpoints → Checkpoints
backfill size key table = elim (lookup size table) [
  | none ↦ table
  | some row ↦ elim row.admin_pubkey [
    | some _ ↦ table
    | none ↦ insert size (record row { admin_pubkey = some key }) table
  ]
]

-- `INSERT … ON CONFLICT (tree_size) DO NOTHING RETURNING …`, or the row that is there.
unfoldable pub insert_checkpoint : ℤ → Checkpoint → Checkpoints → Checkpoint × Checkpoints
insert_checkpoint size row table = elim (lookup size table) [
  | none ↦ (row, insert size row table)
  | some stored ↦ (stored, table)
]

unfoldable pub sth_of : ℤ → Checkpoint → Bytes → Sth
sth_of size row key = record {
  tree_size = size;
  root_hash = hex row.root_hash;
  timestamp_ms = row.timestamp_ms;
  admin_sig = hex row.admin_sig;
  admin_pubkey = hex key;
}

module _ (env : Env) (keys : Keys) where
  unfoldable pub checkpoint_pub_key :
      ℤ → Bytes → ℤ → Bytes → Bytes → Checkpoints → Result LogError Bytes × Checkpoints
  unfolding backfill signed_sth_bytes
  checkpoint_pub_key size root ts_ms sig stored table =
      if ltb 0 (length stored)
      then (ok stored, table)
      else if not (env.ed25519_verify keys.admin_pub_key (signed_sth_bytes size root ts_ms) sig)
      then (err (no_pub_key size), table)
      else (ok keys.admin_pub_key, backfill size keys.admin_pub_key table)

  -- persistCheckpoint, at the time `ts`.
  unfoldable pub persist_checkpoint :
      ℤ → ℤ → Bytes → Checkpoints → Result LogError Sth × Checkpoints
  unfolding insert_checkpoint checkpoint_pub_key sth_of
  persist_checkpoint ts size root table =
      let row : Checkpoint = record {
        root_hash = root;
        timestamp_ms = ts;
        admin_sig = env.ed25519_sign keys.admin_priv_key (signed_sth_bytes size root ts);
        admin_pubkey = some keys.admin_pub_key;
        ots_receipt = none;
      } in
      let (stored, table') = insert_checkpoint size row table in
      if not (equal stored.root_hash root)
      then (err (other_root size), table')
      else (let (key, table'') =
            checkpoint_pub_key size stored.root_hash stored.timestamp_ms stored.admin_sig
              (stored_key stored.admin_pubkey) table' in
          elim key [ err e ↦ (err e, table'') | ok k ↦ (ok (sth_of size stored k), table'') ])

  -- CurrentSTH
  unfoldable pub current_sth :
      ℤ
      → List Tx
      → Option Snapshot
      → Checkpoints
      → Result LogError Sth × Option Snapshot × Checkpoints
  unfolding persist_checkpoint
  current_sth ts txs cache table =
      let (r, cache') = merkle_snapshot env.sha256 txs cache (negsuc 0) in
      elim r [
        | err e ↦ (err e, cache', table)
        | ok snap ↦
            let (sth, table') = persist_checkpoint ts (pos snap.tree_size) snap.root_hash table in
            (sth, cache', table')
      ]

-- A row as it is shown; only whether there is a receipt.
pub record CheckpointSummary : Type 0 where
  pub head : Sth
  pub has_ots_receipt : Bool

unfoldable pub insert_newest : ℤ × Checkpoint → List (ℤ × Checkpoint) → List (ℤ × Checkpoint)
insert_newest (size, row) [] = (size, row) ∷ []
insert_newest (size, row) ((j, r) ∷ rows) =
    if leb_ℤ j size then (size, row) ∷ (j, r) ∷ rows else (j, r) ∷ insert_newest (size, row) rows

-- `ORDER BY tree_size DESC`
unfoldable pub newest_first : Checkpoints → List (ℤ × Checkpoint)
unfolding insert_newest
newest_first [] = []
newest_first ((size, row) ∷ rows) = insert_newest (size, row) (newest_first rows)

module _ (env : Env) (keys : Keys) where
  -- `for rows.Next()` of Checkpoints: a key that is missing is filled in.
  unfoldable pub summaries :
      List (ℤ × Checkpoint) → Checkpoints → Result LogError (List CheckpointSummary) × Checkpoints
  unfolding checkpoint_pub_key sth_of
  summaries [] table = (ok [], table)
  summaries ((size, row) ∷ rows) table =
      let (key, table') =
        checkpoint_pub_key env keys size row.root_hash row.timestamp_ms row.admin_sig
          (stored_key row.admin_pubkey) table in
      let (rest, table'') = summaries rows table' in
      elim key [
        | err e ↦ (err e, table')
        | ok k ↦ elim rest [
          | err e ↦ (err e, table'')
          | ok out ↦ (
            ok (
                record {
                  head = sth_of size row k;
                  has_ots_receipt = elim row.ots_receipt [ none ↦ false | some _ ↦ true ];
                }
                ∷ out),
            table'',
          )
        ]
      ]

  -- Checkpoints, the newest first.
  unfoldable pub checkpoints :
      ℤ → Checkpoints → Result LogError (List CheckpointSummary) × Checkpoints
  unfolding summaries newest_first
  checkpoints limit table =
      let n = if leb_ℤ limit (pos 0) || ltb_ℤ (pos 500) limit then 50 else pos_part limit in
      summaries (take n (newest_first table)) table
