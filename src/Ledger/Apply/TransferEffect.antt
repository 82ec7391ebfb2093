-- ===== src/Ledger/Apply/TransferEffect.antt =====
-- What a transfer does to the balances.
use discourse_points_system.Prelude.{
  some, ◌≡◌, ◌≢◌, refl, ap, sym, ◌∙◌, arith, inl, inr, Option-cases,
}
use discourse_points_system.Prelude.Int.{
  ℤ, pos, int_eq, ◌+ℤ◌, ◌-ℤ◌, ◌≤ℤ◌, max_int64, InRange64, add64_lem, sub64_lem, int_laws,
}
use discourse_points_system.Prelude.Exec.{ok}
use discourse_points_system.Ledger.Tx.{Env, Tx, TransferPayload}
use discourse_points_system.Ledger.Store.{Account}
use discourse_points_system.Ledger.MemStore.{MemTx, mem_tx, upsert}
use discourse_points_system.Ledger.MemStore.Sound.{
  IsSound, sum, account, find_by_pub_key_inv, move-IsSound, account-upsert_ne, account-upsert_self,
  txs-upsert,
}
use discourse_points_system.Ledger.MemStore.Balances.{balance_of, balance_of-bounds, two-bounds}
use discourse_points_system.Ledger.Apply.{apply_transfer, recipient}
use discourse_points_system.Ledger.Apply.Transfer.{
  IsTransfer, debited, credited, after_transfer, apply_transfer_inv,
}

-- What a transfer does to the accounts: the amount goes from the sender's account to the
-- recipient's, the sender's nonce is taken, and no other account changes.
pub record Transferred (p : TransferPayload) (from : Account) (t t' : MemTx) : Type 0 where
  pub sound : IsSound t'
  pub same_sum : sum t' ≡ sum t
  pub same_log : t'.txs ≡ t.txs
  pub sender :
      account from.discourse_id t'
      ≡ some (record from { nonce = p.nonce; balance = from.balance -ℤ p.amount })
  pub receiver :
      balance_of (account p.to_discourse_id t')
      ≡ balance_of (account p.to_discourse_id t) +ℤ p.amount
  pub others :
      (did : ℤ) → did ≢ from.discourse_id → did ≢ p.to_discourse_id → account did t' ≡ account did t

module _ (env : Env) (tx : Tx) (t : MemTx) (p : TransferPayload) (from : Account) (v : IsSound t)
    (bounded : sum t ≤ℤ max_int64) (g : IsTransfer env tx t p from) where
  abbrev pub to' : Account
  to' = credited p (account p.to_discourse_id t)

  stored : (account from.discourse_id t ≡ some from) × (from.pubkey ≡ some p.from)
  stored = find_by_pub_key_inv p.from t from v g.found

  pub to'-id : to'.discourse_id ≡ p.to_discourse_id
  unfolding recipient
  to'-id = elim (Option-cases (account p.to_discourse_id t)) [
    | inl absent ↦ ground arith
    | inr (to, at) ↦ ground (arith, v.indexed.named p.to_discourse_id to at)
  ]

  together : from.balance +ℤ balance_of (account p.to_discourse_id t) ≤ℤ sum t
  together =
      rw (ap balance_of stored.0) at
        (two-bounds from.discourse_id p.to_discourse_id t.by_discourse_id v.nonneg g.distinct)

  receiver_bounds : pos 0 ≤ℤ balance_of (account p.to_discourse_id t)
  receiver_bounds = (balance_of-bounds p.to_discourse_id t.by_discourse_id v.nonneg).0

  -- No subtraction or addition of a transfer wraps.
  debit : (debited p from).balance ≡ from.balance -ℤ p.amount
  debit = sub64_lem from.balance p.amount (
    omega (int_laws, g.positive, g.covered),
    omega (int_laws, g.positive, together, bounded, receiver_bounds),
  )

  fits : InRange64 (balance_of (account p.to_discourse_id t) +ℤ p.amount)
  fits = (
    omega (int_laws, g.positive, receiver_bounds),
    omega (int_laws, g.covered, together, bounded),
  )

  credit : to'.balance ≡ balance_of (account p.to_discourse_id t) +ℤ p.amount
  unfolding recipient
  credit = elim (Option-cases (account p.to_discourse_id t)) [
    | inl absent ↦ rw absent (add64_lem (pos 0) p.amount (rw (ap balance_of absent) at fits))
    | inr (to, at) ↦ rw at (add64_lem to.balance p.amount (rw (ap balance_of at) at fits))
  ]

  moved :
      IsSound (upsert to' (upsert (debited p from) t))
      × (sum (upsert to' (upsert (debited p from) t)) ≡ sum t)
  moved =
      move-IsSound t from (debited p from) to' p.amount v stored.0 refl
        (λ e. g.distinct (sym e ∙ to'-id)) debit (rw to'-id credit) (omega (arith, g.positive))
        g.covered

  -- A transfer that passes its guards moves the amount, and wraps around nowhere.
  pub transfer_effect : Transferred p from t (after_transfer p from t)
  transfer_effect = record {
    sound = moved.0;
    same_sum = moved.1;
    same_log = txs-upsert to' (upsert (debited p from) t) ∙ txs-upsert (debited p from) t;
    sender =
        account-upsert_ne from.discourse_id to' (upsert (debited p from) t)
          (λ e. g.distinct (e ∙ to'-id))
        ∙ account-upsert_self from.discourse_id (debited p from) t refl
        ∙ ap (λ (x : ℤ). some (record from { nonce = p.nonce; balance = x })) debit;
    receiver =
        ap balance_of
          (account-upsert_self p.to_discourse_id to' (upsert (debited p from) t) (sym to'-id))
        ∙ credit;
    others = λ did not_sender not_receiver.
        account-upsert_ne did to' (upsert (debited p from) t) (λ e. not_receiver (e ∙ to'-id))
        ∙ account-upsert_ne did (debited p from) t not_sender;
  }

-- On a store in memory whose maps agree and whose balances are not negative and add up to an
-- int64: a transfer that succeeds has passed its guards and moved exactly the payload's amount.
-- The sender's balance falls by it and its nonce becomes the payload's, the recipient's rises by
-- it (from zero if the account is new), no other account changes, and the sum, the log, the
-- agreement of the maps and the signs of the balances are kept.
pub apply_transfer-Transferred :
    (env : Env) (tx : Tx) (t t' : MemTx)
    → IsSound t
    → sum t ≤ℤ max_int64
    → apply_transfer env mem_tx tx t ≡ (ok tt, t')
    → (p : TransferPayload) × (from : Account) × IsTransfer env tx t p from
      × Transferred p from t t'
apply_transfer-Transferred env tx t t' v bounded h =
    let (p, from, g, e) = apply_transfer_inv env tx t t' h in
    (p, from, g, rw e (transfer_effect env tx t p from v bounded g))
