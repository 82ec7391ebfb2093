-- ===== src/Ledger/Accept.antt =====
-- Apply accepts every transfer that is signed, passes the guards and has a fresh hash.
use discourse_points_system.Prelude.{
  HashLength, true, false, some, List, [], ◌∷◌, Bytes, length, get_last?, ◌≡◌, sym, ap, ◌∙◌, arith,
}
use discourse_points_system.Prelude.Int.{pos, add64}
use discourse_points_system.Prelude.Exec.{ok, ◌>>=◌}
use discourse_points_system.Ledger.Tx.{
  Env, Tx, TxType, TransferPayload, build, verify_sig, hash_tx, zero_hash,
}
use discourse_points_system.Ledger.Store.{Account}
use discourse_points_system.Ledger.MemStore.{
  MemStore, MemTx, mem_store, mem_tx, begin, commit, rollback, lock_ledger, last_tx, insert_tx,
  has_hash,
}
use discourse_points_system.Ledger.MemStore.Sound.{txs-upsert, done-upsert}
use discourse_points_system.Ledger.Chain.{IsChain}
use discourse_points_system.Ledger.Apply.{
  apply, apply_within, execute, dispatch, position, check_supply, requires_full_supply_check,
}
use discourse_points_system.Ledger.Apply.Transfer.{IsTransfer, after_transfer, apply_transfer_runs}
use discourse_points_system.Ledger.Apply.Inversion.{opened, closed, sealed}
use discourse_points_system.Ledger.Apply.Execute.{logged}

-- The transaction as Apply logs it behind the entry `last`.
abbrev pub behind : Env → Tx → Tx → Tx
behind env tx last =
    sealed env tx
      (record tx { leaf_index = add64 last.leaf_index (pos 1); prev_hash = last.tx_hash })

last-sized :
    (env : Env) (prev : Bytes) (i : _) (txs : List Tx) (last : Tx)
    → HashLength env.sha256
    → IsChain env prev i txs
    → get_last? txs ≡ some last
    → length last.tx_hash ≡ 32
last-sized env prev i [] last sized c at = absurd (ground arith)
last-sized env prev i (x ∷ []) last sized c at =
    let e : x ≡ last = ground arith in
    ap (λ (t : Tx). length t.tx_hash) (sym e) ∙ ap length c.0.hashed ∙ sized _
last-sized env prev i (x ∷ y ∷ txs) last sized c at =
    last-sized env x.tx_hash _ (y ∷ txs) last sized c.1 at

position-behind :
    (tx last : Tx)
    → tx.type ≡ TxType.transfer
    → position tx (some last)
      ≡ ok (record tx { leaf_index = add64 last.leaf_index (pos 1); prev_hash = last.tx_hash })
unfolding position
position-behind tx last ty = ground arith

build-runs :
    (env : Env) (tx : Tx) (prev : Bytes)
    → verify_sig env tx.signer tx.payload tx.sig ≡ true
    → length prev ≡ 32
    → build env tx.type tx.payload tx.signer tx.sig prev
      ≡ ok (record tx {
        leaf_index = pos 0;
        prev_hash = prev;
        tx_hash = hash_tx env tx.payload tx.sig prev;
      })
unfolding build verify_sig
build-runs env tx prev signed n = ground arith

finish :
    (env : Env) (tx : Tx) (t t₁ : MemTx)
    → tx.type ≡ TxType.transfer
    → dispatch env mem_tx tx tx.type t ≡ (ok tt, t₁)
    → has_hash tx.tx_hash t₁.txs ≡ false
    → execute env mem_tx tx t ≡ (ok tt, logged tx t₁)
unfolding execute insert_tx check_supply requires_full_supply_check ◌>>=◌
finish env tx t t₁ ty ran fresh = ground arith

dispatch-runs :
    (env : Env) (tx : Tx) (t : MemTx) (p : TransferPayload) (from : Account)
    → tx.type ≡ TxType.transfer
    → IsTransfer env tx t p from
    → dispatch env mem_tx tx tx.type t ≡ (ok tt, after_transfer p from t)
unfolding dispatch
dispatch-runs env tx t p from ty g =
    ap (λ (y : TxType). dispatch env mem_tx tx y t) ty ∙ apply_transfer_runs env tx t t p from g

apply-runs :
    (env : Env) (tx tx₁ rebuilt : Tx) (m : MemStore) (t' : MemTx)
    → verify_sig env tx.signer tx.payload tx.sig ≡ true
    → position tx (get_last? m.txs) ≡ ok tx₁
    → build env tx.type tx.payload tx.signer tx.sig tx₁.prev_hash ≡ ok rebuilt
    → execute env mem_tx (record tx₁ { tx_hash = rebuilt.tx_hash }) (opened m) ≡ (ok tt, t')
    → t'.done ≡ false
    → apply env mem_store tx m ≡ (ok tt, record tx₁ { tx_hash = rebuilt.tx_hash }, closed t')
unfolding apply apply_within begin commit rollback lock_ledger last_tx ◌>>=◌
apply-runs env tx tx₁ rebuilt m t' signed placed built ran open' = ground arith

-- Where SHA-256 gives 32 bytes, on a ledger in memory whose log is a valid chain with a last
-- entry: a signed transfer that passes the guards, and whose hash behind that entry is on no
-- entry yet, is accepted. It is logged behind the last entry, and its two accounts are written.
pub transfer_accepted :
    (env : Env) (tx last : Tx) (m : MemStore) (p : TransferPayload) (from : Account)
    → HashLength env.sha256
    → IsChain env zero_hash 0 m.txs
    → get_last? m.txs ≡ some last
    → tx.type ≡ TxType.transfer
    → verify_sig env tx.signer tx.payload tx.sig ≡ true
    → IsTransfer env tx (opened m) p from
    → has_hash (behind env tx last).tx_hash m.txs ≡ false
    → apply env mem_store tx m ≡ (
      ok tt,
      behind env tx last,
      closed (logged (behind env tx last) (after_transfer p from (opened m))),
    )
transfer_accepted env tx last m p from sized c at ty signed g fresh =
    let tx₂ = behind env tx last in
    let t₁ = after_transfer p from (opened m) in
    let g₂ : IsTransfer env tx₂ (opened m) p from = record {
      parsed = g.parsed;
      positive = g.positive;
      to_user = g.to_user;
      by_signer = g.by_signer;
      key_size = g.key_size;
      found = g.found;
      distinct = g.distinct;
      next_nonce = g.next_nonce;
      covered = g.covered;
    } in
    apply-runs env tx _ _ m (logged tx₂ t₁) signed
      (ap (position tx) at ∙ position-behind tx last ty)
      (build-runs env tx last.tx_hash signed (last-sized env zero_hash 0 m.txs last sized c at))
      (finish env tx₂ (opened m) t₁ ty (dispatch-runs env tx₂ (opened m) p from ty g₂)
        (ap (has_hash tx₂.tx_hash) (log p from (opened m)) ∙ fresh))
      (done p from (opened m))
  where
    log : (p : TransferPayload) (from : Account) (t : MemTx) → (after_transfer p from t).txs ≡ t.txs
    log p from t = txs-upsert _ _ ∙ txs-upsert _ _

    done :
        (p : TransferPayload) (from : Account) (t : MemTx) → (after_transfer p from t).done ≡ t.done
    done p from t = done-upsert _ _ ∙ done-upsert _ _
