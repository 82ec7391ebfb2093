-- ===== src/Ledger/Replay.antt =====
-- A transfer cannot be submitted twice: its nonce is taken.
use discourse_points_system.Prelude.{
  some, Bytes, bytes_eq, length, ◌≡◌, ◌≢◌, ◌⊎◌, inl, inr, sym, ap, ◌∙◌, arith,
}
use discourse_points_system.Prelude.Int.{ℤ, pos, int_eq, ◌≤ℤ◌, max_int64, add64, add64_one-ne}
use discourse_points_system.Prelude.Dict.{lookup}
use discourse_points_system.Prelude.Exec.{ok}
use discourse_points_system.Ledger.Tx.{Env, Tx, TxType, TransferPayload}
use discourse_points_system.Ledger.Store.{Account}
use discourse_points_system.Ledger.MemStore.{MemStore, MemTx, mem_store, upsert, find_by_pub_key}
use discourse_points_system.Ledger.MemStore.Index.{note_key_inv}
use discourse_points_system.Ledger.MemStore.Sound.{
  IsSound, account, find_by_pub_key_inv, key_of_found, key-upsert, sum,
}
use discourse_points_system.Ledger.Apply.{apply}
use discourse_points_system.Ledger.Apply.Transfer.{IsTransfer, debited, after_transfer}
use discourse_points_system.Ledger.Apply.TransferEffect.{to', to'-id, transfer_effect}
use discourse_points_system.Ledger.Apply.Execute.{Handled, logged}
use discourse_points_system.Ledger.Apply.Inversion.{opened, closed}
use discourse_points_system.Ledger.Invariant.{IsLedger, accepted_inv, apply-IsStep, supply-bounded}

key-upsert_inv :
    (k : Bytes) (a : Account) (t : MemTx) (d : ℤ)
    → lookup k (upsert a t).by_pub_key ≡ some d
    → (d ≡ a.discourse_id) ⊎ (lookup k t.by_pub_key ≡ some d)
unfolding upsert
key-upsert_inv k a t d h =
    note_key_inv k a (lookup a.discourse_id t.by_discourse_id) t.by_pub_key d h

-- The key of the sender leads, after a transfer, to the sender or to the recipient.
key-after_transfer :
    (p : TransferPayload) (from to : Account) (t : MemTx) (d : ℤ)
    → from.pubkey ≡ some p.from
    → length p.from ≡ 32
    → lookup p.from (upsert to (upsert (debited p from) t)).by_pub_key ≡ some d
    → (d ≡ to.discourse_id) ⊎ (d ≡ from.discourse_id)
key-after_transfer p from to t d own size h =
    elim (key-upsert_inv p.from to (upsert (debited p from) t) d h) [
      | inl here ↦ inl here
      | inr before ↦ inr (ground (arith, key-upsert p.from (debited p from) t own size))
    ]

-- A handled transaction of the type transfer passed the guards of a transfer.
handled-transfer :
    (env : Env) (tx : Tx) (t t₁ : MemTx) (ty : TxType)
    → Handled env tx t t₁ ty
    → ty ≡ TxType.transfer
    → (p : TransferPayload) × (from : Account) × IsTransfer env tx t p from
      × (t₁ ≡ after_transfer p from t)
handled-transfer env tx t t₁ ty (Handled.genesis p g e) is_transfer = cc
handled-transfer env tx t t₁ ty (Handled.transfer p from g e) is_transfer = (p, from, g, e)
handled-transfer env tx t t₁ ty (Handled.rotation p old g e) is_transfer = cc
handled-transfer env tx t t₁ ty (Handled.reclaim p admin from g e) is_transfer = cc

-- An accepted transfer passed its guards, and this is the store that it leaves.
pub accepted-transfer :
    (env : Env) (tx tx' : Tx) (m m' : MemStore)
    → IsLedger env m
    → tx.type ≡ TxType.transfer
    → apply env mem_store tx m ≡ (ok tt, tx', m')
    → (p : TransferPayload) × (from : Account) × IsTransfer env tx' (opened m) p from
      × (m' ≡ closed (logged tx' (after_transfer p from (opened m))))
      × (tx'.payload ≡ tx.payload)
accepted-transfer env tx tx' m m' inv ty h =
    let (t₁, handled, e, same_type, same_payload, _) = accepted_inv env tx tx' m m' inv h in
    let (p, from, g, e') =
      handled-transfer env tx' (opened m) t₁ tx'.type handled (same_type ∙ ty) in
    (p, from, g, e ∙ ap (λ (t : MemTx). closed (logged tx' t)) e', same_payload)

some_eq : {p q : TransferPayload} → some p ≡ some q → p ≡ q
some_eq e = ground arith

nonce-eq : {a b : Account} → some a ≡ some b → a.nonce ≡ b.nonce
nonce-eq e = ground arith

module _ (env : Env) (tx : Tx) (t : MemTx) (p : TransferPayload) (from : Account) (v : IsSound t)
    (bounded : sum t ≤ℤ max_int64) (g : IsTransfer env tx t p from) where
  -- The account that the sender's key leads to after the transfer is not its sender with a fresh
  -- nonce: it is the recipient, or its nonce is taken.
  spent :
      (t₂ : MemTx) (from₂ : Account)
      → IsSound t₂
      → t₂.by_pub_key ≡ (after_transfer p from t).by_pub_key
      → t₂.by_discourse_id ≡ (after_transfer p from t).by_discourse_id
      → find_by_pub_key p.from t₂ ≡ some from₂
      → (from₂.discourse_id ≡ p.to_discourse_id) ⊎ (from₂.nonce ≡ p.nonce)
  spent t₂ from₂ v₂ keys ids found =
      elim (key-after_transfer p from (to' env tx t p from v bounded g) t from₂.discourse_id
        (find_by_pub_key_inv p.from t from v g.found).1 g.key_size
        (ap (lookup p.from) (sym keys) ∙ key_of_found p.from t₂ from₂ v₂ found)) [
          | inl to ↦ inl (to ∙ to'-id env tx t p from v bounded g)
          | inr back ↦ inr (
              nonce-eq (
                sym (find_by_pub_key_inv p.from t₂ from₂ v₂ found).0
                ∙ ap (lookup from₂.discourse_id) ids
                ∙ ap (λ (d : ℤ). account d (after_transfer p from t)) back
                ∙ (transfer_effect env tx t p from v bounded g).sender))
        ]

-- On a ledger in memory that satisfies the invariant, a transfer is accepted once: right after
-- it, no transaction with the same payload is accepted as a transfer, whatever its signature.
pub transfer_once :
    (env : Env) (tx tx' tx₂ : Tx) (m m' : MemStore)
    → IsLedger env m
    → tx.type ≡ TxType.transfer
    → apply env mem_store tx m ≡ (ok tt, tx', m')
    → tx₂.type ≡ TxType.transfer
    → tx₂.payload ≡ tx.payload
    → (apply env mem_store tx₂ m').0 ≢ ok tt
transfer_once env tx tx' tx₂ m m' inv ty h ty₂ same again =
    let (p, from, g, left, payload) = accepted-transfer env tx tx' m m' inv ty h in
    let r = apply env mem_store tx₂ m' in
    let inv' = (apply-IsStep env tx tx' m m' inv h).kept in
    let (p₂, from₂, g₂, _, payload₂) =
      accepted-transfer env tx₂ r.1 m' r.2 inv' ty₂ (ground (arith, again)) in
    let e : p₂ ≡ p =
      some_eq
        (sym g₂.parsed ∙ ap env.unmarshal_transfer (payload₂ ∙ same ∙ sym payload) ∙ g.parsed) in
    elim (spent env tx' (opened m) p from inv.sound (supply-bounded env m inv) g (opened m') from₂
      inv'.sound (ap (λ (n : MemStore). n.by_pub_key) left)
      (ap (λ (n : MemStore). n.by_discourse_id) left)
      (ap (λ (q : TransferPayload). find_by_pub_key q.from (opened m')) (sym e) ∙ g₂.found)) [
        | inl to ↦ g₂.distinct (to ∙ ap (λ (q : TransferPayload). q.to_discourse_id) (sym e))
        | inr taken ↦ add64_one-ne p.nonce (
            ap (λ (z : ℤ). add64 z (pos 1)) (sym taken)
            ∙ sym g₂.next_nonce
            ∙ ap (λ (q : TransferPayload). q.nonce) e)
      ]
