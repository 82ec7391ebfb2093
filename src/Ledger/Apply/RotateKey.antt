-- ===== src/Ledger/Apply/RotateKey.antt =====
-- applyRotateKey on the in-memory store: its guards, what it writes, and what that does.
use discourse_points_system.Prelude.{
  some, bytes_eq, length, ◌==◌, if◌then◌else◌, ◌≡◌, ◌≢◌, refl, ap, sym, ◌∙◌, arith,
}
use discourse_points_system.Prelude.Int.{ℤ, pos, add64, eqb_ℤ_iff, int_eq}
use discourse_points_system.Prelude.Dict.{lookup}
use discourse_points_system.Prelude.Exec.{
  Result, ok, ◌>>=◌, ◌>>◌, map_err, or_fail_inv, fail_if_inv, read_inv,
}
use discourse_points_system.Ledger.Tx.{Env, Tx, RotateKeyPayload, Context, wrapped}
use discourse_points_system.Ledger.Store.{Account}
use discourse_points_system.Ledger.MemStore.{
  MemTx, mem_tx, find_by_pub_key, upsert, upsert_account, rekey, update_pub_key,
}
use discourse_points_system.Ledger.MemStore.Sound.{
  IsSound, sum, account, find_by_pub_key_inv, account-upsert_ne, account-upsert_self, txs-upsert,
  get_account_by_pub_key_lem, key-upsert, rekey-IsSound, upsert-IsSound, sum-upsert_same,
  account-nonneg, account-rekey, txs-rekey,
}
use discourse_points_system.Ledger.MemStore.Balances.{balance_of}
use discourse_points_system.Ledger.Apply.{apply_rotate_key}
use discourse_points_system.Ledger.Apply.EqualBytes.{equal_bytes_iff}

-- The guards of applyRotateKey.
pub record IsRotation (env : Env) (tx : Tx) (t : MemTx) (p : RotateKeyPayload) (old : Account)
    : Type 0 where
  pub parsed : env.unmarshal_rotate_key tx.payload ≡ some p
  pub old_size : length p.old_pub_key ≡ 32
  pub new_size : length p.new_pub_key ≡ 32
  pub by_signer : tx.signer ≡ p.old_pub_key
  pub found : find_by_pub_key p.old_pub_key t ≡ some old
  pub next_nonce : p.nonce ≡ add64 old.nonce (pos 1)

abbrev pub bumped : RotateKeyPayload → Account → Account
bumped p old = record old { nonce = p.nonce }

abbrev pub after_rotation : RotateKeyPayload → Account → MemTx → MemTx
after_rotation p old t =
    rekey p.old_pub_key p.new_pub_key old.discourse_id (bumped p old) (upsert (bumped p old) t)

module _ (env : Env) (tx : Tx) (t : MemTx) (v : IsSound t) where
  found_again :
      (p : RotateKeyPayload) (old : Account)
      → IsRotation env tx t p old
      → lookup p.old_pub_key (upsert (bumped p old) t).by_pub_key ≡ some old.discourse_id
  found_again p old g =
      key-upsert p.old_pub_key (bumped p old) t
        (find_by_pub_key_inv p.old_pub_key t old v g.found).1 g.old_size

  -- The write of the nonce, and the change of the key, which finds the account again.
  writes :
      (p : RotateKeyPayload) (old : Account)
      → IsRotation env tx t p old
      → (do
        map_err (wrapped Context.nonce_bump) (upsert_account (bumped p old))
        update_pub_key p.old_pub_key p.new_pub_key)
          t
        ≡ (ok tt, after_rotation p old t)
  unfolding upsert_account update_pub_key ◌>>=◌
  writes p old g =
      ground
        (arith, found_again p old g, account-upsert_self old.discourse_id (bumped p old) t refl)

  -- A rotation succeeds only if all its guards hold, and then it has bumped the nonce and moved
  -- the account to the new key.
  pub apply_rotate_key_inv :
      {t' : MemTx}
      → apply_rotate_key env mem_tx tx t ≡ (ok tt, t')
      → (p : RotateKeyPayload) × (old : Account) × IsRotation env tx t p old
        × (t' ≡ after_rotation p old t)
  unfolding apply_rotate_key
  apply_rotate_key_inv {t'} h = or_fail_inv _ _ h λ p parsed h₁. fail_if_inv _ _ h₁ λ sized h₂.
      fail_if_inv _ _ h₂ λ signed h₃.
        let size : length p.old_pub_key ≡ 32 = ground arith in
        let h₄ = read_inv _ _ _ (get_account_by_pub_key_lem p.old_pub_key t size) h₃ in
        or_fail_inv _ _ h₄ λ old found h₅. fail_if_inv _ _ h₅ λ next h₆.
          let g : IsRotation env tx t p old = record {
            parsed = parsed;
            old_size = size;
            new_size = ground arith;
            by_signer = ground (arith, equal_bytes_iff tx.signer p.old_pub_key);
            found = found;
            next_nonce = ground (arith, eqb_ℤ_iff p.nonce (add64 old.nonce (pos 1)));
          } in
          (p, old, g, ap (λ (r : Result _ _ × MemTx). r.1) (sym h₆ ∙ writes p old g))

-- What a rotation does: the account keeps its id, name and balance, takes the nonce and the new
-- key; no other account changes.
pub record Rotated (p : RotateKeyPayload) (old : Account) (t t' : MemTx) : Type 0 where
  pub sound : IsSound t'
  pub same_sum : sum t' ≡ sum t
  pub same_log : t'.txs ≡ t.txs
  pub rotated :
      account old.discourse_id t'
      ≡ some (record old { nonce = p.nonce; pubkey = some p.new_pub_key })
  pub others : (did : ℤ) → did ≢ old.discourse_id → account did t' ≡ account did t

-- A rotation that passes its guards changes the key and the nonce of the signer's account only.
pub rotation_effect :
    (env : Env) (tx : Tx) (t : MemTx) (p : RotateKeyPayload) (old : Account)
    → IsSound t
    → IsRotation env tx t p old
    → Rotated p old t (after_rotation p old t)
rotation_effect env tx t p old v g = record {
  sound = moved.0;
  same_sum = moved.1 ∙ sum-upsert_same (bumped p old) t (ap balance_of at);
  same_log =
      txs-rekey p.old_pub_key p.new_pub_key old.discourse_id (bumped p old)
        (upsert (bumped p old) t)
      ∙ txs-upsert (bumped p old) t;
  rotated = ground (arith, rekeyed old.discourse_id, eqb_ℤ_iff old.discourse_id old.discourse_id);
  others = λ did ne. ground (
    arith,
    rekeyed did,
    eqb_ℤ_iff did old.discourse_id,
    account-upsert_ne did (bumped p old) t ne,
  );
}
  where
    rekeyed :
        (d : ℤ)
        → account d (after_rotation p old t) ≡ (
            if d == old.discourse_id
            then some (record (bumped p old) { pubkey = some p.new_pub_key })
            else account d (upsert (bumped p old) t))
    rekeyed d =
        account-rekey d p.old_pub_key p.new_pub_key old.discourse_id (bumped p old)
          (upsert (bumped p old) t)

    at : account old.discourse_id t ≡ some old
    at = (find_by_pub_key_inv p.old_pub_key t old v g.found).0

    bumped-IsSound : IsSound (upsert (bumped p old) t)
    bumped-IsSound = upsert-IsSound (bumped p old) t (account-nonneg old.discourse_id old t v at) v

    moved :
        IsSound (after_rotation p old t)
        × (sum (after_rotation p old t) ≡ sum (upsert (bumped p old) t))
    moved =
        rekey-IsSound p.old_pub_key p.new_pub_key old.discourse_id (bumped p old)
          (upsert (bumped p old) t) bumped-IsSound (found_again env tx t v p old g)
          (account-upsert_self old.discourse_id (bumped p old) t refl)

-- On a store in memory whose maps agree and whose balances are not negative: a rotation that
-- succeeds has passed its guards, has put the new key and the next nonce on the account of the
-- signer's key, and has changed nothing else: not its balance, not the sum, no other account, not
-- the log.
pub apply_rotate_key-Rotated :
    (env : Env) (tx : Tx) (t t' : MemTx)
    → IsSound t
    → apply_rotate_key env mem_tx tx t ≡ (ok tt, t')
    → (p : RotateKeyPayload) × (old : Account) × IsRotation env tx t p old × Rotated p old t t'
apply_rotate_key-Rotated env tx t t' v h =
    let (p, old, g, e) = apply_rotate_key_inv env tx t v h in
    (p, old, g, rw e (rotation_effect env tx t p old v g))
