-- ===== src/TxLog/Fetch.antt =====
-- What a call of merkleSnapshot takes from the cache and from the rows it queries.
use mathlib.Core.List.{map-append}
use discourse_points_system.Prelude.{
  ℕ, ◌+◌, ◌-◌, ◌≤◌, ◌<◌, ◌≡◌, refl, sym, ap, ◌∙◌, arith, List, ◌++◌, Bytes, map, length, take, drop,
  length-take, length-drop, length-map, take-take, take-append-take, take-append, map-take,
  map-drop, Option, none, some, leb, if◌then◌else◌,
}
use mathlib.Core.Path.{ap₂, subst}
use native.Mathlib.Decide.{dec_lt}
use discourse_points_system.Prelude.Int.{pos}
use discourse_points_system.Prelude.Exec.{ok, err}
use discourse_points_system.Ledger.Tx.{Tx}
use discourse_points_system.Merkle.{leaf_hash, root}
use discourse_points_system.TxLog.{
  ended, Snapshot, snapshot_of, hit, miss, read_cache, read_rows, fetch, select_range,
}
use discourse_points_system.TxLog.Rows.{
  InOrder, hashes, select_range-slice, read_rows-InOrder, InOrder-take, InOrder-drop,
}

module _ (sha256 : Bytes → Bytes) where
  -- The snapshot of the first n entries, computed from the table.
  abbrev pub reference : List Tx → ℕ → Snapshot
  reference txs n = record {
    tree_size = n;
    tx_hashes = take n (hashes txs);
    leaf_hashes = map (leaf_hash sha256) (take n (hashes txs));
    root_hash = root sha256 (take n (hashes txs));
  }

  abbrev pub Exact : List Tx → Snapshot → Type 0
  Exact txs snap = (snap.tree_size ≤ length txs) × (snap ≡ reference txs snap.tree_size)

  abbrev pub ExactCache : List Tx → Option Snapshot → Type 0
  ExactCache txs none = Unit {0}
  ExactCache txs (some snap) = Exact txs snap

  pub reference-append :
      (txs more : List Tx) (n : ℕ) → n ≤ length txs → reference (txs ++ more) n ≡ reference txs n
  reference-append txs more n h =
      let e : take n (hashes (txs ++ more)) ≡ take n (hashes txs) =
        ap (take n) (map-append (λ (tx : Tx). tx.tx_hash) txs more)
        ∙ take-append n (hashes txs) (hashes more)
            (omega (arith, h, length-map (λ (tx : Tx). tx.tx_hash) txs)) in
      ap
        (λ (l : List Bytes). record {
          tree_size = n;
          tx_hashes = l;
          leaf_hashes = map (leaf_hash sha256) l;
          root_hash = root sha256 l;
        })
        e

  -- What a call that starts from the first `start` entries holds.
  abbrev pub Starts : List Tx → ℕ → List Bytes → List Bytes → Type 0
  Starts txs start tx_hashes leaf_hashes =
      (start ≤ length txs)
      × (tx_hashes ≡ take start (hashes txs))
      × (leaf_hashes ≡ map (leaf_hash sha256) (take start (hashes txs)))

  pub snapshot_of-reference :
      (txs : List Tx) (n : ℕ)
      → snapshot_of sha256 n (take n (hashes txs)) (map (leaf_hash sha256) (take n (hashes txs)))
        ≡ reference txs n
  unfolding snapshot_of root
  snapshot_of-reference txs n = refl

  pub read_cache-hit :
      (txs : List Tx) (n target : ℕ)
      → target ≤ n
      → read_cache sha256 (some (reference txs n)) target ≡ hit (reference txs target)
  unfolding read_cache root
  read_cache-hit txs n target h =
      let first = take-take target n (hashes txs) h in
      let leaves : take target (map (leaf_hash sha256) (take n (hashes txs)))
          ≡ map (leaf_hash sha256) (take target (hashes txs)) =
        sym (map-take (leaf_hash sha256) target (take n (hashes txs)))
        ∙ ap (map (leaf_hash sha256)) first in
      rw (first, leaves) (ground arith)

  pub read_cache-miss :
      (txs : List Tx) (n target : ℕ)
      → n < target
      → read_cache sha256 (some (reference txs n)) target
        ≡ miss n (take n (hashes txs)) (map (leaf_hash sha256) (take n (hashes txs)))
  unfolding read_cache root
  read_cache-miss txs n target h = ground arith

  -- The rows that a call takes in end its lists at the target.
  pub read-target :
      (txs : List Tx) (target start : ℕ) (tx_hashes leaf_hashes : List Bytes)
      → InOrder 0 txs
      → Starts txs start tx_hashes leaf_hashes
      → start ≤ target
      → read_rows sha256 start (select_range txs (pos start) (pos target)) tx_hashes leaf_hashes
        ≡ ok (
          start + length (take (target - start) (drop start txs)),
          take target (hashes txs),
          map (leaf_hash sha256) (take target (hashes txs)),
        )
  read-target txs target start ts ls d s h =
      let rows = take (target - start) (drop start txs) in
      let z : start - 0 ≡ start = omega arith in
      let first : 0 + start ≡ start = omega arith in
      let slice : select_range txs (pos start) (pos target) ≡ rows =
        select_range-slice 0 start target txs d (omega arith)
        ∙ ap (λ (n : ℕ). take (target - start) (drop n txs)) z in
      let inside : InOrder start rows =
        InOrder-take start (target - start) (drop start txs)
          (subst (λ (n : ℕ). InOrder n (drop start txs)) first (InOrder-drop 0 start txs d)) in
      let whole : take start (hashes txs) ++ hashes rows ≡ take target (hashes txs) =
        ap (λ (l : List Bytes). take start (hashes txs) ++ l)
          (map-take (λ (tx : Tx). tx.tx_hash) (target - start) (drop start txs)
            ∙ ap (take (target - start)) (map-drop (λ (tx : Tx). tx.tx_hash) start txs))
        ∙ take-append-take start target (hashes txs) h in
      ap (λ (l : List Tx). read_rows sha256 start l ts ls) slice
      ∙ read_rows-InOrder sha256 start rows ts ls inside
      ∙ ap₂ (λ (a b : List Bytes). ok (start + length rows, a, b))
          (ap (λ (l : List Bytes). l ++ hashes rows) s.1 ∙ whole)
          (ap (λ (l : List Bytes). l ++ map (leaf_hash sha256) (hashes rows)) s.2
            ∙ sym (map-append (leaf_hash sha256) (take start (hashes txs)) (hashes rows))
            ∙ ap (map (leaf_hash sha256)) whole)

  -- The query and its checks, on every branch.
  pub fetch_lem :
      (txs : List Tx) (target start : ℕ) (tx_hashes leaf_hashes : List Bytes)
      → InOrder 0 txs
      → Starts txs start tx_hashes leaf_hashes
      → start ≤ target
      → fetch sha256 txs target start tx_hashes leaf_hashes ≡ (
          if leb target (length txs)
          then ok (reference txs target)
          else err (ended (length txs) target))
  unfolding fetch
  fetch_lem txs target start ts ls d s h = elim (dec_lt start target) [
    | yes lt ↦ ground (
      arith,
      read-target txs target start ts ls d s h,
      length-take (target - start) (drop start txs),
      length-drop start txs,
      snapshot_of-reference txs target,
    )
    | no ge ↦
        let same : start ≡ target = omega arith in
        ground (
          arith,
          ap₂ (snapshot_of sha256 target) (s.1 ∙ ap (λ (n : ℕ). take n (hashes txs)) same)
                (s.2 ∙ ap (λ (n : ℕ). map (leaf_hash sha256) (take n (hashes txs))) same)
              ∙ snapshot_of-reference txs target,
        )
  ]
