-- ===== src/Rewards/Payment/Charge.antt =====
-- What PayRewardOnce moves when it pays, and that it moves nothing when it does not.
use discourse_points_system.Prelude.{
  true, false, Option, some, [], ◌∷◌, ◌++◌, Bytes, ◌≡◌, refl, sym, ap, ◌∙◌, inl, inr, arith,
}
use discourse_points_system.Prelude.Int.{ℤ, int_eq, ◌+ℤ◌}
use discourse_points_system.Prelude.Dict.{lookup}
use discourse_points_system.Prelude.Exec.{ok, Result-cases}
use discourse_points_system.Ledger.Tx.{Env, Tx, TransferPayload, canonical_json}
use discourse_points_system.Ledger.MemStore.{MemStore, MemTx, mem_store}
use discourse_points_system.Ledger.MemStore.Balances.{balance_of}
use discourse_points_system.Ledger.Apply.Inversion.{opened, closed}
use discourse_points_system.Ledger.Apply.Transfer.{after_transfer}
use discourse_points_system.Ledger.Apply.TransferEffect.{transfer_effect}
use discourse_points_system.Ledger.Apply.Execute.{logged}
use discourse_points_system.Ledger.Invariant.{IsLedger, apply-IsStep, accepted_inv, supply-bounded}
use discourse_points_system.Ledger.Replay.{accepted-transfer}
use discourse_points_system.Store.RewardEvents.{RewardTables, complete_reward_event}
use discourse_points_system.Store.RewardEvents.Permanent.{IsPaid, completed-IsPaid}
use discourse_points_system.Rewards.{
  World, PaymentResult, reward_tx, sign_and_apply_transfer, pay_reserved,
}
use discourse_points_system.Rewards.Payment.{
  Call, event_id, pg_service, tried, pay, IsPayment-inv, CallCases, call-CallCases, is_charged,
}
use discourse_points_system.Rewards.Payment.Effect.{IsSigned, transfer-IsSigned, transfer-failed}

-- The decoder reads back what the encoder wrote: sender, recipient, amount and nonce.
abbrev pub Decodes : Env → (TransferPayload → Option Bytes) → Type 0
Decodes env marshal =
    (p : TransferPayload) (b : Bytes)
    → canonical_json marshal p ≡ some b
    → (q : TransferPayload) × (env.unmarshal_transfer b ≡ some q)
      × (q.from ≡ p.from)
      × (q.to_discourse_id ≡ p.to_discourse_id)
      × (q.amount ≡ p.amount)
      × (q.nonce ≡ p.nonce)

module _ (env : Env) (priv pub_key : Bytes) (marshal : TransferPayload → Option Bytes) where
  -- What a signed transfer of a reward has moved.
  pub record IsCharge (to amount : ℤ) (m m' : MemStore) (tx : Tx) : Type 0 where
    pub appended : m'.txs ≡ m.txs ++ tx ∷ []
    pub kept : IsLedger env m'
    pub signer : tx.signer ≡ pub_key
    pub credited :
        balance_of (lookup to m'.by_discourse_id)
        ≡ balance_of (lookup to m.by_discourse_id) +ℤ amount

  some_eq : {p q : TransferPayload} → some p ≡ some q → p ≡ q
  some_eq e = ground arith

  credit :
      (p : TransferPayload) (t : MemTx) (m m' : MemStore) (tx : Tx) (to amount : ℤ)
      → m' ≡ closed (logged tx t)
      → balance_of (lookup p.to_discourse_id t.by_discourse_id)
        ≡ balance_of (lookup p.to_discourse_id m.by_discourse_id) +ℤ p.amount
      → p.to_discourse_id ≡ to
      → p.amount ≡ amount
      → balance_of (lookup to m'.by_discourse_id)
        ≡ balance_of (lookup to m.by_discourse_id) +ℤ amount
  credit p t m m' tx to amount left moved to_p amount_p = rw (left, ← to_p, ← amount_p) moved

  signed-IsCharge :
      (to : ℤ) (username : Bytes) (amount : ℤ) (source : Bytes) (m m' : MemStore) (tx : Tx)
      → Decodes env marshal
      → IsLedger env m
      → IsSigned env priv pub_key marshal to username amount source m m' tx
      → IsCharge to amount m m' tx
  signed-IsCharge to username amount source m m' tx decodes inv s =
      let tx₀ = reward_tx (pg_service env mem_store priv pub_key marshal) s.payload in
      let step = apply-IsStep env tx₀ tx m m' inv s.applied in
      let (p, from, g, left, same) = accepted-transfer env tx₀ tx m m' inv refl s.applied in
      let (_, _, _, _, _, by) = accepted_inv env tx₀ tx m m' inv s.applied in
      let (q, decoded, _, to_q, amount_q, _) = decodes _ s.payload s.encoded in
      let e : p ≡ q = some_eq (sym g.parsed ∙ ap env.unmarshal_transfer same ∙ decoded) in
      let moved =
        (transfer_effect env tx (opened m) p from inv.sound (supply-bounded env m inv)
          g).receiver in
      record {
        appended = step.appended;
        kept = step.kept;
        signer = by;
        credited =
            credit p (after_transfer p from (opened m)) m m' tx to amount left moved
              (ap (λ (x : TransferPayload). x.to_discourse_id) e ∙ to_q)
              (ap (λ (x : TransferPayload). x.amount) e ∙ amount_q);
      }

  -- Where the decoder reads back what the encoder writes: a call of PayRewardOnce that pays, on a
  -- ledger in memory that satisfies the invariant, has appended one entry, signed by the service's
  -- key, which raises the recipient's balance by the amount that the result names, and has
  -- completed the event with that entry's hash; the invariant holds afterwards.
  pub payment-IsCharge :
      (c : Call) (w w' : World MemStore RewardTables) (r : PaymentResult)
      → Decodes env marshal
      → IsLedger env w.db
      → pay env mem_store priv pub_key marshal c w ≡ (ok r, w')
      → r.paid ≡ true
      → (tx : Tx) × (r.tx ≡ some tx)
        × IsCharge c.to r.amount w.db w'.db tx
        × IsPaid (event_id c) tx.tx_hash w'.table
  payment-IsCharge c w w' r decodes inv h paid =
      let (tx, p) = IsPayment-inv env mem_store priv pub_key marshal c w w' r h paid in
      (
        tx,
        p.logged,
        signed-IsCharge c.to c.username r.amount c.source w.db w'.db tx decodes inv (
            transfer-IsSigned env priv pub_key marshal c.to c.username r.amount c.source w.db w'.db
              tx p.applied),
        completed-IsPaid (event_id c) tx.tx_hash _ w'.table p.completed,
      )

  uncharged-reserved :
      (c : Call) (amount : ℤ) (w : World MemStore RewardTables)
      → is_charged
          (pay_reserved
            (pg_service env mem_store priv pub_key marshal)
            c.event_type
            c.event_key
            c.to
            c.username
            c.source
            amount
            w).0
        ≡ false
      → (pay_reserved
          (pg_service env mem_store priv pub_key marshal)
          c.event_type
          c.event_key
          c.to
          c.username
          c.source
          amount
          w).1.db
        ≡ w.db
  unfolding pay_reserved
  uncharged-reserved c amount w h =
      let service = pg_service env mem_store priv pub_key marshal in
      elim (Result-cases (sign_and_apply_transfer service c.to c.username amount c.source w.db).0) [
        | inr (e, failed) ↦ ground (
          arith,
          transfer-failed env priv pub_key marshal c.to c.username amount c.source w.db e failed,
        )
        | inl (tx, done) ↦
            elim (Result-cases (complete_reward_event (event_id c) tx.tx_hash w.table).0) [
              | inr (e, failed) ↦ absurd (ground arith)
              | inl (_, fine) ↦ absurd (ground arith)
            ]
      ]

  -- A call of PayRewardOnce whose result is no payment, and no error of the completion of the
  -- event, has left the ledger in memory as it was.
  pub uncharged-same :
      (c : Call) (w : World MemStore RewardTables)
      → is_charged (pay env mem_store priv pub_key marshal c w).0 ≡ false
      → (pay env mem_store priv pub_key marshal c w).1.db ≡ w.db
  uncharged-same c w h = elim (call-CallCases env mem_store priv pub_key marshal c w) [
    | CallCases.stopped x free e ↦ ground arith
    | CallCases.refused x free e ↦ ground arith
    | CallCases.went_on amount _ _ _ e ↦
        ground (arith, uncharged-reserved c amount (tried env mem_store priv pub_key marshal c w))
  ]
