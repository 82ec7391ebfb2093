-- ===== src/TxLog.antt =====
-- internal/txlog/service.go: the log served from the table of transactions, with a cache of the
-- hashes read so far, and the signed tree heads kept in the table of checkpoints. Connection errors
-- are left out; the mutex makes each access to the cache one step.
pub mod Rows
pub mod Range
pub mod Fetch
pub mod Exact
pub mod Calls
pub mod Signing
pub mod Hex
pub mod Heads
pub mod Published
pub mod Tests
use discourse_points_system.Prelude.{
  ℕ, zero, suc, ◌+◌, ◌-◌, ◌/◌, ◌%◌, Bool, true, false, not, ◌&&◌, ◌||◌, Option, none, some, List,
  [], ◌∷◌, ◌++◌, Bytes, codes, length, take, ltb, leb, nat_eqb, if◌then◌else◌,
}
use discourse_points_system.Prelude.Int.{ℤ, pos, negsuc, int_eq, ◌+ℤ◌, leb_ℤ, ltb_ℤ, eqb_ℤ}
use discourse_points_system.Prelude.Dict.{Dict, lookup, insert}
use discourse_points_system.Prelude.Exec.{Result, ok, err}
use discourse_points_system.Prelude.Text.{decimal}
use discourse_points_system.Ledger.Tx.{Env, Tx}
use discourse_points_system.Merkle.{leaf_hash, root_from_leaf_hashes, equal}

pub data LogError : Type 0 where
  bad_tree_size other_root no_pub_key : ℤ → LogError
  gap : ℕ → ℤ → LogError
  ended : ℕ → ℕ → LogError

-- merkleSnapshot; its tree size is never negative.
pub record Snapshot : Type 0 where
  pub tree_size : ℕ
  pub tx_hashes : List Bytes
  pub leaf_hashes : List Bytes
  pub root_hash : Bytes

-- STH: byte fields are in hexadecimal.
pub record Sth : Type 0 where
  pub tree_size : ℤ
  pub root_hash : Bytes
  pub timestamp_ms : ℤ
  pub admin_sig : Bytes
  pub admin_pubkey : Bytes

-- A row of checkpoints; a row from before the column was there has no key.
pub record Checkpoint : Type 0 where
  pub root_hash : Bytes
  pub timestamp_ms : ℤ
  pub admin_sig : Bytes
  pub admin_pubkey : Option Bytes
  pub ots_receipt : Option Bytes

-- The keys that a Service holds.
pub record Keys : Type 0 where
  pub admin_priv_key : Bytes
  pub admin_pub_key : Bytes

-- `MAX(leaf_index)`
unfoldable pub max_index : List Tx → Option ℤ
max_index [] = none
max_index (tx ∷ txs) = elim (max_index txs) [
  | none ↦ some tx.leaf_index
  | some i ↦ some (if leb_ℤ i tx.leaf_index then tx.leaf_index else i)
]

-- `SELECT COALESCE(MAX(leaf_index) + 1, 0) FROM transactions`
unfoldable pub current_tree_size : List Tx → ℤ
unfolding max_index
current_tree_size txs = elim (max_index txs) [ none ↦ pos 0 | some i ↦ i +ℤ pos 1 ]

unfoldable pub insert_row : Tx → List Tx → List Tx
insert_row tx [] = tx ∷ []
insert_row tx (r ∷ rows) =
    if leb_ℤ tx.leaf_index r.leaf_index then tx ∷ r ∷ rows else r ∷ insert_row tx rows

-- `WHERE leaf_index >= $1 AND leaf_index < $2 ORDER BY leaf_index ASC`
unfoldable pub select_range : List Tx → ℤ → ℤ → List Tx
unfolding insert_row
select_range [] start target = []
select_range (tx ∷ txs) start target =
    let rows = select_range txs start target in
    if leb_ℤ start tx.leaf_index && ltb_ℤ tx.leaf_index target then insert_row tx rows else rows

-- What the cache answers: a snapshot, or what a call starts from.
pub data Cached : Type 0 where
  hit : Snapshot → Cached
  miss : ℕ → List Bytes → List Bytes → Cached

-- The last part of merkleSnapshot, which holds the mutex: the cache never shrinks.
unfoldable pub store_snapshot : Option Snapshot → Snapshot → Option Snapshot
store_snapshot none snap = some snap
store_snapshot (some cached) snap =
    if leb cached.tree_size snap.tree_size then some snap else some cached

module _ (sha256 : Bytes → Bytes) where
  -- The first part of merkleSnapshot that holds the mutex.
  unfoldable pub read_cache : Option Snapshot → ℕ → Cached
  read_cache none target = miss 0 [] []
  read_cache (some cached) target =
      if leb target cached.tree_size
      then hit (record {
        tree_size = target;
        tx_hashes = take target cached.tx_hashes;
        leaf_hashes = take target cached.leaf_hashes;
        root_hash = root_from_leaf_hashes sha256 (take target cached.leaf_hashes);
      })
      else miss cached.tree_size cached.tx_hashes cached.leaf_hashes

  -- `for rows.Next()`
  unfoldable pub read_rows :
      ℕ → List Tx → List Bytes → List Bytes → Result LogError (ℕ × List Bytes × List Bytes)
  read_rows next [] tx_hashes leaf_hashes = ok (next, tx_hashes, leaf_hashes)
  read_rows next (r ∷ rows) tx_hashes leaf_hashes =
      let rest =
        read_rows (suc next) rows (tx_hashes ++ r.tx_hash ∷ [])
          (leaf_hashes ++ leaf_hash sha256 r.tx_hash ∷ []) in
      if not (eqb_ℤ r.leaf_index (pos next)) then err (gap next r.leaf_index) else rest

  unfoldable pub snapshot_of : ℕ → List Bytes → List Bytes → Snapshot
  snapshot_of target tx_hashes leaf_hashes = record {
    tree_size = target;
    tx_hashes = tx_hashes;
    leaf_hashes = leaf_hashes;
    root_hash = root_from_leaf_hashes sha256 leaf_hashes;
  }

  -- The part between, without the mutex: the query, and the checks of its rows.
  unfoldable pub fetch : List Tx → ℕ → ℕ → List Bytes → List Bytes → Result LogError Snapshot
  unfolding read_rows snapshot_of
  fetch txs target start tx_hashes leaf_hashes =
      if ltb start target
      then elim (read_rows start (select_range txs (pos start) (pos target)) tx_hashes
          leaf_hashes) [
            | err e ↦ err e
            | ok r ↦
                if not (nat_eqb r.0 target)
                then err (ended r.0 target)
                else ok (snapshot_of target r.1 r.2)
          ]
      else ok (snapshot_of target tx_hashes leaf_hashes)

  unfoldable pub snapshot_at :
      List Tx → Option Snapshot → ℕ → Result LogError Snapshot × Option Snapshot
  unfolding read_cache fetch store_snapshot
  snapshot_at txs cache target = elim (read_cache cache target) [
    | hit out ↦ (ok out, cache)
    | miss start tx_hashes leaf_hashes ↦ elim (fetch txs target start tx_hashes leaf_hashes) [
      | err e ↦ (err e, cache)
      | ok snap ↦ (ok snap, store_snapshot cache snap)
    ]
  ]

  -- `if target < 0` after the tree size is known.
  unfoldable pub checked_at :
      List Tx → Option Snapshot → ℤ → Result LogError Snapshot × Option Snapshot
  unfolding snapshot_at
  checked_at txs cache (pos target) = snapshot_at txs cache target
  checked_at txs cache (negsuc n) = (err (bad_tree_size (negsuc n)), cache)

  -- merkleSnapshot: a negative size asks for the current one.
  unfoldable pub merkle_snapshot :
      List Tx → Option Snapshot → ℤ → Result LogError Snapshot × Option Snapshot
  unfolding checked_at
  merkle_snapshot txs cache (pos n) = checked_at txs cache (pos n)
  merkle_snapshot txs cache (negsuc n) = checked_at txs cache (current_tree_size txs)

-- hex
unfoldable pub hex_digit : ℕ → ℕ
hex_digit d = if ltb d 10 then b'0' + d else b'a' + d - 10

unfoldable pub hex : Bytes → Bytes
unfolding hex_digit
hex [] = []
hex (x ∷ b) = hex_digit (x / 16) ∷ hex_digit (x % 16) ∷ hex b

-- `fp.sth.v1|%d|%s|%d`
unfoldable pub signed_sth_bytes : ℤ → Bytes → ℤ → Bytes
unfolding hex decimal
signed_sth_bytes tree_size root_hash ts_ms =
    codes "fp.sth.v1|"
    ++ (decimal tree_size ++ (codes "|" ++ (hex root_hash ++ (codes "|" ++ decimal ts_ms))))
