-- ===== src/TxLog/Calls.antt =====
-- Concurrent calls of merkleSnapshot. A call reads the cache and, if that does not answer it,
-- queries the table and then stores what it found; between its parts other calls run, and Apply
-- appends to the table.
use discourse_points_system.Prelude.{
  ℕ, zero, suc, ◌≤◌, ◌≡◌, refl, sym, ap, ◌∙◌, arith, List, [], ◌∷◌, ◌++◌, Bytes, map, length,
  get_elem?, length-append, take, Option, none, some, inl, inr,
}
use mathlib.Core.Path.{subst}
use native.Mathlib.Decide.{dec_lt}
use discourse_points_system.Merkle.{leaf_hash}
use discourse_points_system.Prelude.Int.{pos}
use discourse_points_system.Prelude.Exec.{ok}
use discourse_points_system.Ledger.Tx.{Tx}
use discourse_points_system.TxLog.{Snapshot, hit, miss, read_cache, fetch, store_snapshot}
use discourse_points_system.TxLog.Rows.{InOrder, InOrder-append_one, hashes}
use discourse_points_system.TxLog.Exact.{read_cache-Starts, store_snapshot-Exact}
use discourse_points_system.TxLog.Fetch.{
  reference, reference-append, Exact, ExactCache, Starts, fetch_lem,
}

-- A call that the cache did not answer: its target, and what it starts from.
pub record Call : Type 0 where
  pub target : ℕ
  pub start : ℕ
  pub tx_hashes : List Bytes
  pub leaf_hashes : List Bytes

-- The table, the cache, the calls under way, what calls have found and not yet stored, and what
-- was answered so far.
pub record World : Type 0 where
  pub txs : List Tx
  pub cache : Option Snapshot
  pub calls : List Call
  pub found : List Snapshot
  pub answers : List Snapshot

module _ (sha256 : Bytes → Bytes) where
  -- A call may take each of its later parts more than once, which allows more than the code does.
  pub data Step : World → World → Type 0 where
    append :
        (w : World) (tx : Tx)
        → tx.leaf_index ≡ pos (length w.txs)
        → Step w (record w { txs = w.txs ++ tx ∷ [] })
    answer_cached :
        (w : World) (target : ℕ) (snap : Snapshot)
        → read_cache sha256 w.cache target ≡ hit snap
        → Step w (record w { answers = snap ∷ w.answers })
    begin :
        (w : World) (c : Call)
        → read_cache sha256 w.cache c.target ≡ miss c.start c.tx_hashes c.leaf_hashes
        → Step w (record w { calls = c ∷ w.calls })
    find :
        (w : World) (i : ℕ) (c : Call) (snap : Snapshot)
        → get_elem? w.calls i ≡ some c
        → fetch sha256 w.txs c.target c.start c.tx_hashes c.leaf_hashes ≡ ok snap
        → Step w (record w { found = snap ∷ w.found })
    finish :
        (w : World) (i : ℕ) (snap : Snapshot)
        → get_elem? w.found i ≡ some snap
        → Step w (record w { cache = store_snapshot w.cache snap; answers = snap ∷ w.answers })

  pub data Reach (w : World) : World → Type 0 where
    here : Reach w w
    next : {v u : World} → Reach w v → Step v u → Reach w u

  abbrev AllExact : List Tx → List Snapshot → Type 0
  AllExact txs snaps = (i : ℕ) (s : Snapshot) → get_elem? snaps i ≡ some s → Exact sha256 txs s

  abbrev CallStarts : List Tx → Call → Type 0
  CallStarts txs c = Starts sha256 txs c.start c.tx_hashes c.leaf_hashes × (c.start ≤ c.target)

  -- All that the world holds is of the first entries of its table.
  pub record IsExact (w : World) : Type 0 where
    pub ordered : InOrder 0 w.txs
    pub cached : ExactCache sha256 w.txs w.cache
    pub calling : (i : ℕ) (c : Call) → get_elem? w.calls i ≡ some c → CallStarts w.txs c
    pub finding : AllExact w.txs w.found
    pub answered : AllExact w.txs w.answers

  Exact-append :
      (txs more : List Tx) (s : Snapshot) → Exact sha256 txs s → Exact sha256 (txs ++ more) s
  Exact-append txs more s (le, e) = (
    omega (arith, le, length-append txs more),
    e ∙ sym (reference-append sha256 txs more s.tree_size le),
  )

  ExactCache-append :
      (txs more : List Tx) (cache : Option Snapshot)
      → ExactCache sha256 txs cache
      → ExactCache sha256 (txs ++ more) cache
  ExactCache-append txs more none c = tt
  ExactCache-append txs more (some s) c = Exact-append txs more s c

  Starts-append : (txs more : List Tx) (c : Call) → CallStarts txs c → CallStarts (txs ++ more) c
  Starts-append txs more c ((le, t, l), below) =
      let e = sym (reference-append sha256 txs more c.start le) in
      (
        (
          omega (arith, le, length-append txs more),
          t ∙ ap (λ (s : Snapshot). s.tx_hashes) e,
          l ∙ ap (λ (s : Snapshot). s.leaf_hashes) e,
        ),
        below,
      )

  AllExact-cons :
      (txs : List Tx) (s : Snapshot) (snaps : List Snapshot)
      → Exact sha256 txs s
      → AllExact txs snaps
      → AllExact txs (s ∷ snaps)
  AllExact-cons txs s snaps e all zero t h =
      let same : s ≡ t = cc in subst (Exact sha256 txs) same e
  AllExact-cons txs s snaps e all (suc i) t h = all i t h

  hit-Exact :
      (txs : List Tx) (cache : Option Snapshot) (target : ℕ) (snap : Snapshot)
      → ExactCache sha256 txs cache
      → read_cache sha256 cache target ≡ hit snap
      → Exact sha256 txs snap
  hit-Exact txs cache target snap c h = elim (read_cache-Starts sha256 txs cache target c) [
    | inl (e, le) ↦
        let same : reference sha256 txs target ≡ snap = cc in
        subst (Exact sha256 txs) same (le, refl)
    | inr (start, ts, ls, e, s, le) ↦ absurd (ground (arith, e))
  ]

  miss-CallStarts :
      (txs : List Tx) (cache : Option Snapshot) (c : Call)
      → ExactCache sha256 txs cache
      → read_cache sha256 cache c.target ≡ miss c.start c.tx_hashes c.leaf_hashes
      → CallStarts txs c
  miss-CallStarts txs cache c x h = elim (read_cache-Starts sha256 txs cache c.target x) [
    | inl (e, le) ↦ absurd (ground (arith, e))
    | inr (start, ts, ls, e, s, le) ↦
        let first : start ≡ c.start = cc in
        let second : ts ≡ c.tx_hashes = cc in
        let third : ls ≡ c.leaf_hashes = cc in
        (
          (
            omega (arith, s.0),
            sym second ∙ s.1 ∙ ap (λ (n : ℕ). take n (hashes txs)) first,
            sym third ∙ s.2 ∙ ap (λ (n : ℕ). map (leaf_hash sha256) (take n (hashes txs))) first,
          ),
          omega arith,
        )
  ]

  fetch-Exact :
      (txs : List Tx) (c : Call) (snap : Snapshot)
      → InOrder 0 txs
      → CallStarts txs c
      → fetch sha256 txs c.target c.start c.tx_hashes c.leaf_hashes ≡ ok snap
      → Exact sha256 txs snap
  fetch-Exact txs c snap d (s, le) h =
      let f = fetch_lem sha256 txs c.target c.start c.tx_hashes c.leaf_hashes d s le in
      elim (dec_lt (length txs) c.target) [
        | yes gt ↦ absurd (ground (arith, f))
        | no fits ↦
            let same : reference sha256 txs c.target ≡ snap = ground (arith, f) in
            subst (Exact sha256 txs) same (omega arith, refl)
      ]

  calls-cons :
      (txs : List Tx) (c : Call) (calls : List Call)
      → CallStarts txs c
      → ((i : ℕ) (b : Call) → get_elem? calls i ≡ some b → CallStarts txs b)
      → (i : ℕ) (b : Call) → get_elem? (c ∷ calls) i ≡ some b
      → CallStarts txs b
  calls-cons txs c calls s all zero b h = let same : c ≡ b = cc in subst (CallStarts txs) same s
  calls-cons txs c calls s all (suc i) b h = all i b h

  Step-IsExact : {w u : World} → Step w u → IsExact w → IsExact u
  Step-IsExact (append w tx e) x = record {
    ordered = InOrder-append_one 0 w.txs tx x.ordered (e ∙ ap pos (omega arith));
    cached = ExactCache-append w.txs (tx ∷ []) w.cache x.cached;
    calling = λ i c h. Starts-append w.txs (tx ∷ []) c (x.calling i c h);
    finding = λ i s h. Exact-append w.txs (tx ∷ []) s (x.finding i s h);
    answered = λ i s h. Exact-append w.txs (tx ∷ []) s (x.answered i s h);
  }
  Step-IsExact (answer_cached w target snap e) x = record {
    ordered = x.ordered;
    cached = x.cached;
    calling = x.calling;
    finding = x.finding;
    answered =
        AllExact-cons w.txs snap w.answers (hit-Exact w.txs w.cache target snap x.cached e)
          x.answered;
  }
  Step-IsExact (begin w c e) x = record {
    ordered = x.ordered;
    cached = x.cached;
    calling = calls-cons w.txs c w.calls (miss-CallStarts w.txs w.cache c x.cached e) x.calling;
    finding = x.finding;
    answered = x.answered;
  }
  Step-IsExact (find w i c snap at e) x = record {
    ordered = x.ordered;
    cached = x.cached;
    calling = x.calling;
    finding =
        AllExact-cons w.txs snap w.found (fetch-Exact w.txs c snap x.ordered (x.calling i c at) e)
          x.finding;
    answered = x.answered;
  }
  Step-IsExact (finish w i snap at) x = record {
    ordered = x.ordered;
    cached = store_snapshot-Exact sha256 w.txs w.cache snap x.cached (x.finding i snap at);
    calling = x.calling;
    finding = x.finding;
    answered = AllExact-cons w.txs snap w.answers (x.finding i snap at) x.answered;
  }

  -- However concurrent calls of merkleSnapshot and appends to the table interleave: if the table
  -- held the log in the order of its indices, the cache was empty or a snapshot of its first
  -- entries, and so was all that calls under way held, then this is so again, and every answer
  -- given is, with its hashes and its root, the snapshot of the first entries of the table.
  pub Reach-IsExact : {w u : World} → Reach w u → IsExact w → IsExact u
  Reach-IsExact here x = x
  Reach-IsExact (next r st) x = Step-IsExact st (Reach-IsExact r x)
