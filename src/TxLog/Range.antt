-- ===== src/TxLog/Range.antt =====
-- internal/txlog/service.go: the hashes of all entries, and the entries of a range, a page at most.
-- The encoding of the columns is the database's.
use discourse_points_system.Prelude.{
  ℕ, ◌-◌, ◌≡◌, refl, ap, ◌∙◌, arith, ◌&&◌, ◌||◌, Option, List, [], ◌∷◌, Bytes, take, drop,
  if◌then◌else◌,
}
use discourse_points_system.Prelude.Int.{ℤ, pos, negsuc, leb_ℤ, ltb_ℤ}
use discourse_points_system.Prelude.Exec.{Result, ok, err}
use discourse_points_system.Ledger.Tx.{Tx}
use discourse_points_system.TxLog.{LogError, Snapshot, insert_row, select_range, merkle_snapshot}
use discourse_points_system.TxLog.Rows.{InOrder, select_range-slice}

-- AllTxHashes
unfoldable pub all_tx_hashes :
    (Bytes → Bytes) → List Tx → Option Snapshot → Result LogError (List Bytes) × Option Snapshot
all_tx_hashes sha256 txs cache =
    let (r, cache') = merkle_snapshot sha256 txs cache (negsuc 0) in
    (elim r [ err e ↦ err e | ok snap ↦ ok snap.tx_hashes ], cache')

-- `WHERE leaf_index >= $1 AND ($2 < 0 OR leaf_index < $2) ORDER BY leaf_index ASC`
unfoldable pub select_leaves : List Tx → ℤ → ℤ → List Tx
unfolding insert_row
select_leaves [] from to = []
select_leaves (tx ∷ txs) from to =
    let rows = select_leaves txs from to in
    if leb_ℤ from tx.leaf_index && (ltb_ℤ to (pos 0) || ltb_ℤ tx.leaf_index to)
    then insert_row tx rows
    else rows

-- `LIMIT 10000`
abbrev pub page : ℕ
page = 10_000

unfoldable pub range_leaves : List Tx → ℤ → ℤ → List Tx
unfolding select_leaves
range_leaves txs from to = take page (select_leaves txs from to)

select_leaves-range :
    (txs : List Tx) (from : ℤ) (b : ℕ)
    → select_leaves txs from (pos b) ≡ select_range txs from (pos b)
unfolding select_leaves select_range
select_leaves-range [] from b = refl
select_leaves-range (tx ∷ txs) from b = ground (arith, select_leaves-range txs from b)

-- A page of a log in order.
pub range_leaves-slice :
    (a b : ℕ) (txs : List Tx)
    → InOrder 0 txs
    → range_leaves txs (pos a) (pos b) ≡ take page (take (b - a) (drop a txs))
unfolding range_leaves
range_leaves-slice a b txs d =
    let z : a - 0 ≡ a = omega arith in
    ap (take page) (
      select_leaves-range txs (pos a) b
      ∙ select_range-slice 0 a b txs d (omega arith)
      ∙ ap (λ (n : ℕ). take (b - a) (drop n txs)) z)
