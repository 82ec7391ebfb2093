-- ===== src/Rewards/Payment/Effect.antt =====
-- What PayRewardOnce does to the ledger in memory.
use discourse_points_system.Prelude.{
  ℕ, zero, suc, Option, some, Bytes, ◌≡◌, refl, inl, inr, arith, Bool-cases, Option-cases,
}
use discourse_points_system.Prelude.Int.{ℤ, pos, add64, ltb_ℤ, leb_ℤ}
use discourse_points_system.Prelude.Exec.{Result, ok, err, Result-cases}
use discourse_points_system.Ledger.Tx.{Env, Tx, TransferPayload, canonical_json}
use discourse_points_system.Ledger.Store.{Account}
use discourse_points_system.Ledger.MemStore.{
  MemStore, MemTx, mem_store, begin, rollback, get_account_by_pub_key,
}
use discourse_points_system.Ledger.Apply.{apply}
use discourse_points_system.Ledger.Apply.Inversion.{opened, apply_atomic}
use discourse_points_system.Store.RewardEvents.{RewardTables, EventError}
use discourse_points_system.Rewards.{
  Service, PayError, reward_payload, reward_tx, sign_and_apply, sign_and_apply_transfer_once,
  attempts, sign_and_apply_transfer, is_nonce_error,
}
use discourse_points_system.Rewards.Payment.{pg_service}

module _ (env : Env) (priv pub_key : Bytes) (marshal : TransferPayload → Option Bytes) where
  abbrev svc : Service EventError MemStore MemTx RewardTables
  svc = pg_service env mem_store priv pub_key marshal

  abbrev once : ℤ → Bytes → ℤ → Bytes → MemStore → Result (PayError EventError) Tx × MemStore
  once = sign_and_apply_transfer_once svc

  apply-failed :
      (to : ℤ) (username : Bytes) (amount : ℤ) (source : Bytes) (admin : Account) (m : MemStore)
      (e : PayError EventError)
      → (sign_and_apply svc to username amount source admin m).0 ≡ err e
      → (sign_and_apply svc to username amount source admin m).1 ≡ m
  unfolding sign_and_apply
  apply-failed to username amount source admin m e h =
      let p = reward_payload svc to username amount source (add64 admin.nonce (pos 1)) in
      elim (Bool-cases (ltb_ℤ admin.balance amount)) [
        | inl poor ↦ ground arith
        | inr rich ↦ elim (Option-cases (canonical_json marshal p)) [
          | inl failed ↦ ground arith
          | inr (b, encoded) ↦ elim (Result-cases (apply env mem_store (reward_tx svc b) m).0) [
            | inl (_, done) ↦ absurd (ground arith)
            | inr (x, failed) ↦ ground (arith, apply_atomic env (reward_tx svc b) m x failed)
          ]
        ]
      ]

  once-failed :
      (to : ℤ) (username : Bytes) (amount : ℤ) (source : Bytes) (m : MemStore)
      (e : PayError EventError)
      → (once to username amount source m).0 ≡ err e
      → (once to username amount source m).1 ≡ m
  unfolding sign_and_apply_transfer_once begin rollback
  once-failed to username amount source m e h =
      elim (Result-cases (get_account_by_pub_key pub_key (opened m)).0) [
        | inr (x, failed) ↦ ground arith
        | inl (found, done) ↦ elim (Option-cases found) [
          | inl absent ↦ ground arith
          | inr (admin, at) ↦ ground (arith, apply-failed to username amount source admin m e)
        ]
      ]

  -- On a ledger that no one else writes, a failed attempt fails again.
  attempts-once :
      (n : ℕ) (last : PayError EventError) (to : ℤ) (username : Bytes) (amount : ℤ) (source : Bytes)
      (m m' : MemStore) (tx : Tx)
      → attempts svc n last to username amount source m ≡ (ok tx, m')
      → once to username amount source m ≡ (ok tx, m')
  unfolding attempts
  attempts-once zero last to username amount source m m' tx h = absurd (ground arith)
  attempts-once (suc n) last to username amount source m m' tx h =
      elim (Result-cases (once to username amount source m).0) [
        | inl (tx', done) ↦ ground arith
        | inr (e, failed) ↦
            let same = once-failed to username amount source m e failed in
            elim (Bool-cases (is_nonce_error e)) [
              | inr other ↦ absurd (ground arith)
              | inl again ↦ attempts-once n e to username amount source m m' tx (ground arith)
            ]
      ]

  attempts-failed :
      (n : ℕ) (last e : PayError EventError) (to : ℤ) (username : Bytes) (amount : ℤ)
      (source : Bytes) (m : MemStore)
      → (attempts svc n last to username amount source m).0 ≡ err e
      → (attempts svc n last to username amount source m).1 ≡ m
  unfolding attempts
  attempts-failed zero last e to username amount source m h = refl
  attempts-failed (suc n) last e to username amount source m h =
      elim (Result-cases (once to username amount source m).0) [
        | inl (tx', done) ↦ absurd (ground arith)
        | inr (x, failed) ↦
            let same = once-failed to username amount source m x failed in
            elim (Bool-cases (is_nonce_error x)) [
              | inr other ↦ ground arith
              | inl again ↦ ground (arith, attempts-failed n x e to username amount source m)
            ]
      ]

  -- A transfer that is signed and applied: by the treasury's account, with its next nonce.
  pub record IsSigned (to : ℤ) (username : Bytes) (amount : ℤ) (source : Bytes) (m m' : MemStore)
      (tx : Tx) : Type 0 where
    pub admin : Account
    pub payload : Bytes
    pub found : (get_account_by_pub_key pub_key (opened m)).0 ≡ ok (some admin)
    pub encoded :
        canonical_json marshal
          (reward_payload svc to username amount source (add64 admin.nonce (pos 1)))
        ≡ some payload
    pub applied : apply env mem_store (reward_tx svc payload) m ≡ (ok tt, tx, m')

  apply-IsSigned :
      (to : ℤ) (username : Bytes) (amount : ℤ) (source : Bytes) (admin : Account) (m m' : MemStore)
      (tx : Tx)
      → (get_account_by_pub_key pub_key (opened m)).0 ≡ ok (some admin)
      → sign_and_apply svc to username amount source admin m ≡ (ok tx, m')
      → IsSigned to username amount source m m' tx
  unfolding sign_and_apply
  apply-IsSigned to username amount source admin m m' tx found h =
      let p = reward_payload svc to username amount source (add64 admin.nonce (pos 1)) in
      elim (Bool-cases (ltb_ℤ admin.balance amount)) [
        | inl poor ↦ absurd (ground arith)
        | inr rich ↦ elim (Option-cases (canonical_json marshal p)) [
          | inl failed ↦ absurd (ground arith)
          | inr (b, encoded) ↦ elim (Result-cases (apply env mem_store (reward_tx svc b) m).0) [
            | inr (x, failed) ↦ absurd (ground arith)
            | inl (_, done) ↦ record {
              admin = admin;
              payload = b;
              found = found;
              encoded = encoded;
              applied = ground arith;
            }
          ]
        ]
      ]

  once-IsSigned :
      (to : ℤ) (username : Bytes) (amount : ℤ) (source : Bytes) (m m' : MemStore) (tx : Tx)
      → once to username amount source m ≡ (ok tx, m')
      → IsSigned to username amount source m m' tx
  unfolding sign_and_apply_transfer_once begin rollback
  once-IsSigned to username amount source m m' tx h =
      elim (Result-cases (get_account_by_pub_key pub_key (opened m)).0) [
        | inr (x, failed) ↦ absurd (ground arith)
        | inl (found, done) ↦ elim (Option-cases found) [
          | inl absent ↦ absurd (ground arith)
          | inr (admin, at) ↦
              apply-IsSigned to username amount source admin m m' tx (ground arith) (ground arith)
        ]
      ]

  pub transfer-IsSigned :
      (to : ℤ) (username : Bytes) (amount : ℤ) (source : Bytes) (m m' : MemStore) (tx : Tx)
      → sign_and_apply_transfer svc to username amount source m ≡ (ok tx, m')
      → IsSigned to username amount source m m' tx
  unfolding sign_and_apply_transfer
  transfer-IsSigned to username amount source m m' tx h = elim (Bool-cases (leb_ℤ to (pos 0))) [
    | inl skip ↦ absurd (ground arith)
    | inr user ↦
        once-IsSigned to username amount source m m' tx
          (attempts-once 8 PayError.nil_error to username amount source m m' tx (ground arith))
  ]

  pub transfer-failed :
      (to : ℤ) (username : Bytes) (amount : ℤ) (source : Bytes) (m : MemStore)
      (e : PayError EventError)
      → (sign_and_apply_transfer svc to username amount source m).0 ≡ err e
      → (sign_and_apply_transfer svc to username amount source m).1 ≡ m
  unfolding sign_and_apply_transfer
  transfer-failed to username amount source m e h = elim (Bool-cases (leb_ℤ to (pos 0))) [
    | inl skip ↦ ground arith
    | inr user ↦ ground (arith, attempts-failed 8 PayError.nil_error e to username amount source m)
  ]
