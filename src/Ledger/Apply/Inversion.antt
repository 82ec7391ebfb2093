-- ===== src/Ledger/Apply/Inversion.antt =====
-- Apply as a whole on the in-memory store: what a success did, and that a failure did nothing.
use discourse_points_system.Prelude.{true, false, get_last?, ◌≡◌, sym, ap, ◌∙◌, arith, inl, inr}
use discourse_points_system.Prelude.Exec.{Result, ok, err, ◌>>=◌, Result-cases}
use discourse_points_system.Ledger.Tx.{Env, Tx, Error, build, verify_sig, hash_tx}
use discourse_points_system.Ledger.MemStore.{
  MemStore, MemTx, mem_tx, mem_store, begin, commit, rollback, lock_ledger, last_tx,
}
use discourse_points_system.Ledger.Apply.{position, execute, apply_within, apply}

-- The transaction of the store that Begin makes, and the store that Commit leaves.
abbrev pub opened : MemStore → MemTx
opened m = record {
  by_discourse_id = m.by_discourse_id;
  by_pub_key = m.by_pub_key;
  txs = m.txs;
  done = false;
}

abbrev pub closed : MemTx → MemStore
closed t = record { by_discourse_id = t.by_discourse_id; by_pub_key = t.by_pub_key; txs = t.txs }

-- The caller's transaction with its hash.
abbrev pub sealed : Env → Tx → Tx → Tx
sealed env tx tx₁ = record tx₁ { tx_hash = hash_tx env tx.payload tx.sig tx₁.prev_hash }

build-hash :
    (env : Env) (tx : Tx) (prev : _) (rebuilt : Tx)
    → build env tx.type tx.payload tx.signer tx.sig prev ≡ ok rebuilt
    → rebuilt.tx_hash ≡ hash_tx env tx.payload tx.sig prev
unfolding build
build-hash env tx prev rebuilt h = ground arith

apply_within_inv :
    (env : Env) (tx tx' : Tx) (t t' : MemTx)
    → apply_within env mem_tx tx t ≡ (ok tt, tx', t')
    → (tx₁ : Tx) × (position tx (get_last? t.txs) ≡ ok tx₁)
      × (tx' ≡ sealed env tx tx₁)
      × (execute env mem_tx tx' t ≡ (ok tt, t'))
unfolding apply_within lock_ledger last_tx ◌>>=◌
apply_within_inv env tx tx' t t' h = elim (Result-cases (position tx (get_last? t.txs))) [
  | inr (e, p) ↦ absurd (ground arith)
  | inl (tx₁, p) ↦
      elim (Result-cases (build env tx.type tx.payload tx.signer tx.sig tx₁.prev_hash)) [
        | inr (e, b) ↦ absurd (ground arith)
        | inl (rebuilt, b) ↦ (
          tx₁,
          p,
          ground (arith, build-hash env tx tx₁.prev_hash rebuilt b),
          ground (arith, build-hash env tx tx₁.prev_hash rebuilt b),
        )
      ]
]

-- What a successful Apply did.
pub record Applied (env : Env) (tx tx' : Tx) (m : MemStore) (t' : MemTx) (tx₁ : Tx) : Type 0 where
  pub signed : verify_sig env tx.signer tx.payload tx.sig ≡ true
  pub placed : position tx (get_last? m.txs) ≡ ok tx₁
  pub hashed : tx' ≡ sealed env tx tx₁
  pub ran : execute env mem_tx tx' (opened m) ≡ (ok tt, t')

pub apply_inv :
    (env : Env) (tx tx' : Tx) (m m' : MemStore)
    → apply env mem_store tx m ≡ (ok tt, tx', m')
    → (t' : MemTx) × (tx₁ : Tx) × Applied env tx tx' m t' tx₁ × (m' ≡ closed t')
unfolding apply begin commit rollback
apply_inv env tx tx' m m' h =
    let t' = (apply_within env mem_tx tx (opened m)).2 in
    elim (Result-cases (apply_within env mem_tx tx (opened m)).0) [
      | inr (e, failed) ↦ absurd (ground arith)
      | inl (_, done) ↦
          let (tx₁, placed, hashed, ran) =
            apply_within_inv env tx tx' (opened m) t' (ground arith) in
          (
            t',
            tx₁,
            record { signed = ground arith; placed = placed; hashed = hashed; ran = ran },
            ground arith,
          )
    ]

-- Apply on the store in memory is atomic: where it returns an error, the store is as it was.
pub apply_atomic :
    (env : Env) (tx : Tx) (m : MemStore) (e : Error)
    → (apply env mem_store tx m).0 ≡ err e
    → (apply env mem_store tx m).2 ≡ m
unfolding apply begin commit rollback
apply_atomic env tx m e h = ground arith

pub apply_refused :
    (env : Env) (tx tx' : Tx) (m m' : MemStore) (e : Error)
    → apply env mem_store tx m ≡ (err e, tx', m')
    → m' ≡ m
apply_refused env tx tx' m m' e h =
    sym (ap (λ (r : Result Error (Unit {0}) × Tx × MemStore). r.2) h)
    ∙ apply_atomic env tx m e (ap (λ (r : Result Error (Unit {0}) × Tx × MemStore). r.0) h)
