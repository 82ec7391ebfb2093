-- ===== src/Ledger/Apply/Reclaim.antt =====
-- applyReclaimInvalid on the in-memory store: its guards, what it writes, and what that does.
use discourse_points_system.Prelude.{some, length, ◌≡◌, ◌≢◌, refl, ap, sym, ◌∙◌, arith}
use discourse_points_system.Prelude.Int.{
  ℤ, pos, negsuc, add64, sub64, ◌+ℤ◌, ◌-ℤ◌, ◌≤ℤ◌, eqb_ℤ_iff, max_int64, add64_lem, sub64_lem,
  int_laws, eq_parts,
}
use discourse_points_system.Prelude.Exec.{
  ok, ◌>>=◌, ◌>>◌, map_err, or_fail_inv, fail_if_inv, read_inv,
}
use discourse_points_system.Ledger.Tx.{Env, Tx, ReclaimInvalidPayload, Context, wrapped}
use discourse_points_system.Ledger.Store.{Account, key_bytes}
use discourse_points_system.Ledger.MemStore.{
  MemTx, mem_tx, find_by_pub_key, get_account_by_discourse_id, upsert, upsert_account,
}
use discourse_points_system.Ledger.MemStore.Balances.{balance_of, two-bounds}
use discourse_points_system.Ledger.MemStore.Sound.{
  IsSound, sum, account, find_by_pub_key_inv, move-IsSound, account-upsert_ne, account-upsert_self,
  txs-upsert, get_account_by_pub_key_lem, account-nonneg,
}
use discourse_points_system.Ledger.Apply.{apply_reclaim_invalid}
use discourse_points_system.Ledger.Apply.EqualBytes.{equal_bytes_iff}

-- The guards of applyReclaimInvalid: the treasury's account, and the one that it takes from.
pub record IsReclaim (env : Env) (tx : Tx) (t : MemTx) (p : ReclaimInvalidPayload)
    (admin from : Account) : Type 0 where
  pub parsed : env.unmarshal_reclaim_invalid tx.payload ≡ some p
  pub positive : pos 1 ≤ℤ p.amount
  pub invalid_id : p.from_discourse_id ≤ℤ negsuc 0
  pub key_size : length p.admin ≡ 32
  pub by_signer : tx.signer ≡ p.admin
  pub found : find_by_pub_key p.admin t ≡ some admin
  pub is_treasury : admin.discourse_id ≡ pos 0
  pub next_nonce : p.nonce ≡ add64 admin.nonce (pos 1)
  pub known : account p.from_discourse_id t ≡ some from
  pub no_key : length (key_bytes from.pubkey) ≡ 0
  pub covered : p.amount ≤ℤ from.balance

abbrev pub drained : ReclaimInvalidPayload → Account → Account
drained p from = record from { balance = sub64 from.balance p.amount }

abbrev pub refunded : ReclaimInvalidPayload → Account → Account
refunded p admin = record admin { nonce = p.nonce; balance = add64 admin.balance p.amount }

abbrev pub after_reclaim : ReclaimInvalidPayload → Account → Account → MemTx → MemTx
after_reclaim p admin from t = upsert (refunded p admin) (upsert (drained p from) t)

module _ (env : Env) (tx : Tx) (t t' : MemTx) where
  writes :
      (p : ReclaimInvalidPayload) (admin from : Account)
      → (do
        map_err (wrapped Context.update_invalid_account) (mem_tx.upsert_account (drained p from))
        map_err (wrapped Context.update_treasury) (mem_tx.upsert_account (refunded p admin)))
          t
        ≡ (ok tt, t')
      → t' ≡ after_reclaim p admin from t
  unfolding upsert_account ◌>>=◌
  writes p admin from h = ground arith

  get-known : (did : ℤ) → get_account_by_discourse_id did t ≡ (ok (account did t), t)
  unfolding get_account_by_discourse_id
  get-known did = refl

  -- A reclaim succeeds only if all its guards hold, and then it has written two accounts.
  pub apply_reclaim_invalid_inv :
      apply_reclaim_invalid env mem_tx tx t ≡ (ok tt, t')
      → (p : ReclaimInvalidPayload) × (admin : Account) × (from : Account) × IsReclaim env tx t p
          admin from
        × (t' ≡ after_reclaim p admin from t)
  unfolding apply_reclaim_invalid
  apply_reclaim_invalid_inv h = or_fail_inv _ _ h λ p parsed h₁. fail_if_inv _ _ h₁ λ positive h₂.
      fail_if_inv _ _ h₂ λ invalid h₃. fail_if_inv _ _ h₃ λ sized h₄.
        fail_if_inv _ _ h₄ λ signed h₅.
          let size : length p.admin ≡ 32 = ground arith in
          let h₆ = read_inv _ _ _ (get_account_by_pub_key_lem p.admin t size) h₅ in
          or_fail_inv _ _ h₆ λ admin found h₇. fail_if_inv _ _ h₇ λ treasury h₈.
            fail_if_inv _ _ h₈ λ next h₉.
              let h₁₀ = read_inv _ _ _ (get-known p.from_discourse_id) h₉ in
              or_fail_inv _ _ h₁₀ λ from known h₁₁. fail_if_inv _ _ h₁₁ λ keyless h₁₂.
                fail_if_inv _ _ h₁₂ λ covered h₁₃. (
                  p,
                  admin,
                  from,
                  record {
                    parsed = parsed;
                    positive = ground arith;
                    invalid_id = ground arith;
                    key_size = size;
                    by_signer = ground (arith, equal_bytes_iff tx.signer p.admin);
                    found = found;
                    is_treasury = ground (arith, eqb_ℤ_iff admin.discourse_id (pos 0));
                    next_nonce = ground (arith, eqb_ℤ_iff p.nonce (add64 admin.nonce (pos 1)));
                    known = known;
                    no_key = ground arith;
                    covered = ground arith;
                  },
                  writes p admin from h₁₃,
                )

-- What a reclaim does: the amount goes from the invalid account to the treasury, whose nonce is
-- taken; no other account changes.
pub record Reclaimed (p : ReclaimInvalidPayload) (admin from : Account) (t t' : MemTx)
    : Type 0 where
  pub sound : IsSound t'
  pub same_sum : sum t' ≡ sum t
  pub same_log : t'.txs ≡ t.txs
  pub taken :
      account p.from_discourse_id t' ≡ some (record from { balance = from.balance -ℤ p.amount })
  pub treasury :
      account (pos 0) t'
      ≡ some (record admin { nonce = p.nonce; balance = admin.balance +ℤ p.amount })
  pub others : (did : ℤ) → did ≢ p.from_discourse_id → did ≢ pos 0 → account did t' ≡ account did t

module _ (env : Env) (tx : Tx) (t : MemTx) (p : ReclaimInvalidPayload) (admin from : Account)
    (v : IsSound t) (bounded : sum t ≤ℤ max_int64) (g : IsReclaim env tx t p admin from) where
  admin-at : account admin.discourse_id t ≡ some admin
  admin-at = (find_by_pub_key_inv p.admin t admin v g.found).0

  from-id : from.discourse_id ≡ p.from_discourse_id
  from-id = v.indexed.named p.from_discourse_id from g.known

  from-at : account from.discourse_id t ≡ some from
  from-at = ap (λ (d : ℤ). account d t) from-id ∙ g.known

  apart : admin.discourse_id ≢ from.discourse_id
  apart e = absurd (omega (arith, eq_parts (sym g.is_treasury ∙ e ∙ from-id), g.invalid_id))

  together : from.balance +ℤ admin.balance ≤ℤ sum t
  together =
      rw (ap balance_of from-at, ap balance_of admin-at) at
        (two-bounds from.discourse_id admin.discourse_id t.by_discourse_id v.nonneg
          (λ e. apart (sym e)))

  debit : (drained p from).balance ≡ from.balance -ℤ p.amount
  debit = sub64_lem from.balance p.amount (
    omega (int_laws, g.positive, g.covered),
    omega (
      int_laws,
      g.positive,
      together,
      bounded,
      account-nonneg admin.discourse_id admin t v admin-at,
    ),
  )

  credit : (refunded p admin).balance ≡ admin.balance +ℤ p.amount
  credit = add64_lem admin.balance p.amount (
    omega (int_laws, g.positive, account-nonneg admin.discourse_id admin t v admin-at),
    omega (int_laws, g.covered, together, bounded),
  )

  moved : IsSound (after_reclaim p admin from t) × (sum (after_reclaim p admin from t) ≡ sum t)
  moved =
      move-IsSound t from (drained p from) (refunded p admin) p.amount v from-at refl apart debit
        (credit ∙ ap (λ (x : ℤ). x +ℤ p.amount) (sym (ap balance_of admin-at)))
        (omega (arith, g.positive)) g.covered

  -- A reclaim that passes its guards moves the amount to the treasury, and wraps around nowhere.
  pub reclaim_effect : Reclaimed p admin from t (after_reclaim p admin from t)
  reclaim_effect = record {
    sound = moved.0;
    same_sum = moved.1;
    same_log =
        txs-upsert (refunded p admin) (upsert (drained p from) t) ∙ txs-upsert (drained p from) t;
    taken =
        account-upsert_ne p.from_discourse_id (refunded p admin) (upsert (drained p from) t)
          (λ e. apart (sym (from-id ∙ e)))
        ∙ account-upsert_self p.from_discourse_id (drained p from) t (sym from-id)
        ∙ ap (λ (x : ℤ). some (record from { balance = x })) debit;
    treasury =
        account-upsert_self (pos 0) (refunded p admin) (upsert (drained p from) t)
          (sym g.is_treasury)
        ∙ ap (λ (x : ℤ). some (record admin { nonce = p.nonce; balance = x })) credit;
    others = λ did not_from not_treasury.
        account-upsert_ne did (refunded p admin) (upsert (drained p from) t)
          (λ e. not_treasury (e ∙ g.is_treasury))
        ∙ account-upsert_ne did (drained p from) t (λ e. not_from (e ∙ from-id));
  }

-- On a store in memory whose maps agree and whose balances are not negative and add up to an
-- int64: a reclaim that succeeds was signed by the treasury's key, took the amount from an
-- account with a negative id and no key that covered it, and gave it to the treasury; the
-- treasury's nonce is taken, and no other account, nor the sum, nor the log, has changed.
pub apply_reclaim_invalid-Reclaimed :
    (env : Env) (tx : Tx) (t t' : MemTx)
    → IsSound t
    → sum t ≤ℤ max_int64
    → apply_reclaim_invalid env mem_tx tx t ≡ (ok tt, t')
    → (p : ReclaimInvalidPayload) × (admin : Account) × (from : Account) × IsReclaim env tx t p
        admin from
      × Reclaimed p admin from t t'
apply_reclaim_invalid-Reclaimed env tx t t' v bounded h =
    let (p, admin, from, g, e) = apply_reclaim_invalid_inv env tx t t' h in
    (p, admin, from, g, rw e (reclaim_effect env tx t p admin from v bounded g))
