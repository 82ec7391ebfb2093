-- ===== src/Ledger/Apply/Transfer.antt =====
-- applyTransfer on the in-memory store: when it succeeds, and what it then writes.
use discourse_points_system.Prelude.{Option, some, length, ◌≡◌, ◌≢◌, ap, sym, ◌∙◌, arith, ◌↔◌}
use discourse_points_system.Prelude.Int.{pos, int_eq, add64, sub64, ◌≤ℤ◌, eqb_ℤ_iff}
use discourse_points_system.Prelude.Dict.{lookup}
use discourse_points_system.Prelude.Exec.{
  ok, ◌>>=◌, ◌>>◌, map_err, or_fail_inv, fail_if_inv, read_inv,
}
use discourse_points_system.Ledger.Tx.{Env, Tx, TransferPayload, Context, wrapped}
use discourse_points_system.Ledger.Store.{Account}
use discourse_points_system.Ledger.MemStore.{
  MemTx, mem_tx, find_by_pub_key, get_account_by_discourse_id, upsert, upsert_account,
}
use discourse_points_system.Ledger.MemStore.Sound.{get_account_by_pub_key_lem}
use discourse_points_system.Ledger.Apply.{apply_transfer, recipient}
use discourse_points_system.Ledger.Apply.EqualBytes.{equal_bytes_iff}

-- The sender after a transfer, and the recipient.
abbrev pub debited : TransferPayload → Account → Account
debited p from = record from { nonce = p.nonce; balance = sub64 from.balance p.amount }

abbrev pub credited : TransferPayload → Option Account → Account
credited p known = record (recipient p known) {
  balance = add64 (recipient p known).balance p.amount;
}

-- The guards of applyTransfer, for a payload and the account of its signer.
pub record IsTransfer (env : Env) (tx : Tx) (t : MemTx) (p : TransferPayload) (from : Account)
    : Type 0 where
  pub parsed : env.unmarshal_transfer tx.payload ≡ some p
  pub positive : pos 1 ≤ℤ p.amount
  pub to_user : pos 1 ≤ℤ p.to_discourse_id
  pub by_signer : p.from ≡ tx.signer
  pub key_size : length p.from ≡ 32
  pub found : find_by_pub_key p.from t ≡ some from
  pub distinct : from.discourse_id ≢ p.to_discourse_id
  pub next_nonce : p.nonce ≡ add64 from.nonce (pos 1)
  pub covered : p.amount ≤ℤ from.balance

abbrev pub after_transfer : TransferPayload → Account → MemTx → MemTx
after_transfer p from t =
    upsert (credited p (lookup p.to_discourse_id t.by_discourse_id)) (upsert (debited p from) t)

module _ (env : Env) (tx : Tx) (t t' : MemTx) where
  -- The reads and the writes behind the guards.
  write_two :
      (p : TransferPayload) (from : Account)
      → (do
        known ←
            map_err
              (wrapped Context.to_account)
              (mem_tx.get_account_by_discourse_id p.to_discourse_id)
        map_err (wrapped Context.update_from) (mem_tx.upsert_account (debited p from))
        map_err (wrapped Context.update_to) (mem_tx.upsert_account (credited p known)))
          t
        ≡ (ok tt, t')
      → t' ≡ after_transfer p from t
  unfolding get_account_by_discourse_id upsert_account ◌>>=◌
  write_two p from h = ground arith

  -- A transfer succeeds only if all its guards hold, and then it has written two accounts.
  pub apply_transfer_inv :
      apply_transfer env mem_tx tx t ≡ (ok tt, t')
      → (p : TransferPayload) × (from : Account) × IsTransfer env tx t p from
        × (t' ≡ after_transfer p from t)
  unfolding apply_transfer
  apply_transfer_inv h = or_fail_inv _ _ h λ p parsed h₁. fail_if_inv _ _ h₁ λ positive h₂.
      fail_if_inv _ _ h₂ λ to_user h₃. fail_if_inv _ _ h₃ λ signed h₄.
        fail_if_inv _ _ h₄ λ sized h₅.
          let size : length p.from ≡ 32 = ground arith in
          let h₆ = read_inv _ _ _ (get_account_by_pub_key_lem p.from t size) h₅ in
          or_fail_inv _ _ h₆ λ from found h₇. fail_if_inv _ _ h₇ λ distinct h₈.
            fail_if_inv _ _ h₈ λ next h₉. fail_if_inv _ _ h₉ λ covered h₁₀. (
              p,
              from,
              record {
                parsed = parsed;
                positive = ground arith;
                to_user = ground arith;
                by_signer = ground (arith, equal_bytes_iff p.from tx.signer);
                key_size = size;
                found = found;
                distinct = ground (arith, eqb_ℤ_iff from.discourse_id p.to_discourse_id);
                next_nonce = ground (arith, eqb_ℤ_iff p.nonce (add64 from.nonce (pos 1)));
                covered = ground arith;
              },
              write_two p from h₁₀,
            )

  -- The other way round: where the guards hold, the transfer succeeds.
  pub apply_transfer_runs :
      (p : TransferPayload) (from : Account)
      → IsTransfer env tx t p from
      → apply_transfer env mem_tx tx t ≡ (ok tt, after_transfer p from t)
  unfolding apply_transfer get_account_by_discourse_id upsert_account ◌>>=◌
  apply_transfer_runs p from g =
      ground (arith, get_account_by_pub_key_lem p.from t, equal_bytes_iff p.from tx.signer)

-- On the store in memory, a transfer succeeds exactly where the payload decodes, the amount and
-- the recipient's id are positive, the payload's sender is the signer and has a key of 32 bytes,
-- that key has an account other than the recipient's, the nonce is that account's next and its
-- balance covers the amount; the store is then written in its two accounts, and nowhere else.
pub apply_transfer_iff :
    (env : Env) (tx : Tx) (t t' : MemTx)
    → (apply_transfer env mem_tx tx t ≡ (ok tt, t')) ↔ (
        (p : TransferPayload) × (from : Account) × IsTransfer env tx t p from
        × (t' ≡ after_transfer p from t))
apply_transfer_iff env tx t t' = (
  apply_transfer_inv env tx t t',
  λ w. apply_transfer_runs env tx t t' w.0 w.1 w.2 ∙ ap (λ (u : MemTx). (ok tt, u)) (sym w.3),
)
