-- ===== src/TxLog/Exact.antt =====
-- What merkleSnapshot answers: the same as a computation from the whole table, whatever the cache
-- holds of it.
use discourse_points_system.Prelude.{
  ℕ, ◌≤◌, ◌≡◌, refl, sym, ap, ◌∙◌, arith, List, [], Bytes, map, length, take, ◌⊎◌, inl, inr, Option,
  none, some, leb, if◌then◌else◌, Bool-cases,
}
use mathlib.Core.Path.{subst}
use native.Mathlib.Decide.{dec_lt}
use discourse_points_system.Prelude.Int.{ℤ, pos, negsuc}
use discourse_points_system.Prelude.Exec.{Result, ok, err}
use discourse_points_system.Ledger.Tx.{Tx}
use discourse_points_system.Merkle.{leaf_hash}
use discourse_points_system.TxLog.{
  LogError, ended, Snapshot, hit, miss, read_cache, store_snapshot, snapshot_at, checked_at,
  merkle_snapshot,
}
use discourse_points_system.TxLog.Rows.{InOrder, hashes, current_tree_size-length}
use discourse_points_system.TxLog.Fetch.{
  reference, Exact, ExactCache, Starts, read_cache-hit, read_cache-miss, fetch_lem,
}

module _ (sha256 : Bytes → Bytes) where
  -- What merkleSnapshot gives for a size that is not negative.
  abbrev pub answer : List Tx → ℕ → Result LogError Snapshot
  answer txs target =
      if leb target (length txs)
      then ok (reference sha256 txs target)
      else err (ended (length txs) target)

  pub store_snapshot-Exact :
      (txs : List Tx) (cache : Option Snapshot) (snap : Snapshot)
      → ExactCache sha256 txs cache
      → Exact sha256 txs snap
      → ExactCache sha256 txs (store_snapshot cache snap)
  unfolding store_snapshot
  store_snapshot-Exact txs none snap c e = e
  store_snapshot-Exact txs (some cached) snap c e =
      elim (Bool-cases (leb cached.tree_size snap.tree_size)) [
        | inl more ↦ rw more e
        | inr fewer ↦ rw fewer c
      ]

  pub read_cache-Starts :
      (txs : List Tx) (cache : Option Snapshot) (target : ℕ)
      → ExactCache sha256 txs cache
      → ((read_cache sha256 cache target ≡ hit (reference sha256 txs target))
          × (target ≤ length txs))
        ⊎ ((start : ℕ) × (tx_hashes : List Bytes) × (leaf_hashes : List Bytes) × (read_cache sha256
                cache target
              ≡ miss start tx_hashes leaf_hashes)
            × Starts sha256 txs start tx_hashes leaf_hashes
            × (start ≤ target))
  unfolding read_cache
  read_cache-Starts txs none target c =
      inr (0, [], [], refl, (omega arith, refl, refl), omega arith)
  read_cache-Starts txs (some cached) target (le, e) = elim (dec_lt cached.tree_size target) [
    | no ge ↦ inl (
      ap (λ (s : Snapshot). read_cache sha256 (some s) target) e
          ∙ read_cache-hit sha256 txs cached.tree_size target (omega arith),
      omega arith,
    )
    | yes lt ↦ inr (
      cached.tree_size,
      take cached.tree_size (hashes txs),
      map (leaf_hash sha256) (take cached.tree_size (hashes txs)),
      ap (λ (s : Snapshot). read_cache sha256 (some s) target) e
          ∙ read_cache-miss sha256 txs cached.tree_size target lt,
      (le, refl, refl),
      omega arith,
    )
  ]

  -- A result and a cache that are known.
  abbrev pub AnswersIn : List Tx → ℕ → Result LogError Snapshot × Option Snapshot → Type 0
  AnswersIn txs target r = (r.0 ≡ answer txs target) × ExactCache sha256 txs r.1

  pub snapshot_at-answer :
      (txs : List Tx) (cache : Option Snapshot) (target : ℕ)
      → InOrder 0 txs
      → ExactCache sha256 txs cache
      → AnswersIn txs target (snapshot_at sha256 txs cache target)
  unfolding snapshot_at
  snapshot_at-answer txs cache target d c = elim (read_cache-Starts txs cache target c) [
    | inl (e, le) ↦
        let same : snapshot_at sha256 txs cache target ≡ (ok (reference sha256 txs target), cache) =
          ground (arith, e) in
        subst (AnswersIn txs target) (sym same) (ground arith, c)
    | inr (start, ts, ls, e, s, le) ↦
        let f = fetch_lem sha256 txs target start ts ls d s le in
        elim (dec_lt (length txs) target) [
          | yes gt ↦
              let same : snapshot_at sha256 txs cache target
                  ≡ (err (ended (length txs) target), cache) =
                ground (arith, e, f) in
              subst (AnswersIn txs target) (sym same) (ground arith, c)
          | no fits ↦
              let same : snapshot_at sha256 txs cache target ≡ (
                ok (reference sha256 txs target),
                store_snapshot cache (reference sha256 txs target),
              ) =
                ground (arith, e, f) in
              subst (AnswersIn txs target) (sym same) (
                ground arith,
                store_snapshot-Exact txs cache (reference sha256 txs target) c (omega arith, refl),
              )
        ]
  ]

  -- The size that a call is for.
  abbrev pub wanted : List Tx → ℤ → ℕ
  wanted txs (pos n) = n
  wanted txs (negsuc n) = length txs

  -- Where the table holds the log in the order of its indices and the cache is a snapshot of its
  -- first entries, or empty, merkleSnapshot answers for every size as a computation from the whole
  -- table does: with the first entries, their leaf hashes and their root, for as many entries as
  -- are asked for or, for a negative size, for all of them; and with an error exactly when more are
  -- asked for than there are. The cache that it leaves is again a snapshot of the first entries.
  pub merkle_snapshot-answer :
      (txs : List Tx) (cache : Option Snapshot) (tree_size : ℤ)
      → InOrder 0 txs
      → ExactCache sha256 txs cache
      → ((merkle_snapshot sha256 txs cache tree_size).0 ≡ answer txs (wanted txs tree_size))
        × ExactCache sha256 txs (merkle_snapshot sha256 txs cache tree_size).1
  unfolding merkle_snapshot checked_at
  merkle_snapshot-answer txs cache (pos n) d c = snapshot_at-answer txs cache n d c
  merkle_snapshot-answer txs cache (negsuc n) d c =
      rw (current_tree_size-length txs d) (snapshot_at-answer txs cache (length txs) d c)
