-- ===== src/Rewards.antt =====
-- internal/rewards/webhook.go: the payment of a reward, over any store and any table of rewards.
pub mod Payment
pub mod Webhook
mod Tests
use discourse_points_system.Prelude.{
  ℕ, zero, suc, Bool, true, false, not, ◌||◌, Option, none, some, [], ◌∷◌, Bytes, codes, ◌==◌,
  bytes_eq, if◌then◌else◌,
}
use discourse_points_system.Prelude.Int.{ℤ, pos, add64, ltb_ℤ, leb_ℤ, eqb_ℤ}
use discourse_points_system.Prelude.Exec.{Result, ok, err, Exec}
use discourse_points_system.Ledger.Tx.{
  Env, Tx, TxType, Error, TransferPayload, MetaValue, canonical_json, is_bad_nonce, treasury_dsc_id,
}
use discourse_points_system.Ledger.Store.{Account, Store}
use discourse_points_system.Ledger.Apply.{apply}

abbrev pub event_signup_bonus : Bytes
event_signup_bonus = codes "signup_bonus"

abbrev pub event_first_post_ever : Bytes
event_first_post_ever = codes "first_post_ever"

-- The interface `Rewards`, with errors of type `X`.
pub record Rewards (X R : Type 0) : Type 0 where
  pub get_reward_amount : Bytes → Exec X R (ℤ × Bool)
  pub try_reserve_reward_event : Bytes → Bytes → Exec X R Bool
  pub complete_reward_event : Bytes → Bytes → Bytes → Exec X R (Unit {0})
  pub release_reward_event : Bytes → Bytes → Exec X R (Unit {0})

-- `nil_error` is lastNonceErr before the first attempt.
pub data PayError (X : Type 0) : Type 0 where
  nil_error bad_discourse_id admin_not_found encode_failed : PayError X
  begin : Error → PayError X
  admin_lookup : Error → PayError X
  treasury_underfunded : ℤ → ℤ → PayError X
  apply_failed : Error → PayError X
  reward_config dedup_reserve : X → PayError X
  dedup_complete : Bytes → X → PayError X
  pay_failed : PayError X → PayError X

-- `errors.Is(err, ledger.ErrBadNonce)`
unfoldable pub is_nonce_error : {X : Type 0} → PayError X → Bool
is_nonce_error (PayError.begin e) = is_bad_nonce e
is_nonce_error (PayError.admin_lookup e) = is_bad_nonce e
is_nonce_error (PayError.apply_failed e) = is_bad_nonce e
is_nonce_error _ = false

pub record PaymentResult : Type 0 where
  pub paid : Bool
  pub reason : Bytes
  pub amount : ℤ
  pub tx : Option Tx

abbrev pub unpaid : Bytes → PaymentResult
unpaid why = record { paid = false; reason = why; amount = pos 0; tx = none }

-- The service: its keys, the encoder of a payload, and the interfaces that it uses. The mutex
-- adminSignMu makes sign_and_apply_transfer one step.
pub record Service (X D S R : Type 0) : Type 0 where
  pub env : Env
  pub store : Store D S
  pub rewards : Rewards X R
  pub admin_priv_key : Bytes
  pub admin_pub_key : Bytes
  pub marshal : TransferPayload → Option Bytes

-- The ledger's database and the table of rewards.
pub record World (D R : Type 0) : Type 0 where
  pub db : D
  pub table : R

module _ {X D S R : Type 0} (service : Service X D S R) where
  open service use {env, store, rewards, admin_priv_key, admin_pub_key, marshal}

  abbrev pub reward_payload : ℤ → Bytes → ℤ → Bytes → ℤ → TransferPayload
  reward_payload to username amount source nonce = record {
    from = admin_pub_key;
    to_discourse_id = to;
    amount = amount;
    nonce = nonce;
    meta =
        (codes "reward_source", MetaValue.text source)
        ∷ (codes "tip_target_username", MetaValue.text username)
        ∷ [];
  }

  abbrev pub reward_tx : Bytes → Tx
  reward_tx payload = record {
    leaf_index = pos 0;
    type = TxType.transfer;
    payload = payload;
    sig = env.ed25519_sign admin_priv_key payload;
    signer = admin_pub_key;
    prev_hash = [];
    tx_hash = [];
  }

  -- What follows the lookup of the treasury's account.
  unfoldable pub sign_and_apply : ℤ → Bytes → ℤ → Bytes → Account → D → Result (PayError X) Tx × D
  sign_and_apply to username amount source admin db =
      if ltb_ℤ admin.balance amount
      then (err (PayError.treasury_underfunded admin.balance amount), db)
      else elim (canonical_json marshal
          (reward_payload to username amount source (add64 admin.nonce (pos 1)))) [
            | none ↦ (err PayError.encode_failed, db)
            | some payload ↦
                let (r, tx, db') = apply env store (reward_tx payload) db in
                elim r [ err e ↦ (err (PayError.apply_failed e), db') | ok _ ↦ (ok tx, db') ]
          ]

  unfoldable pub sign_and_apply_transfer_once :
      ℤ → Bytes → ℤ → Bytes → D → Result (PayError X) Tx × D
  unfolding sign_and_apply
  sign_and_apply_transfer_once to username amount source db = elim (store.begin db) [
    | err e ↦ (err (PayError.begin e), db)
    | ok s ↦
        let (r, s') = store.stx.get_account_by_pub_key admin_pub_key s in
        let db' = (store.rollback s' db).1 in
        elim r [
          | err e ↦ (err (PayError.admin_lookup e), db')
          | ok found ↦ elim found [
            | none ↦ (err PayError.admin_not_found, db')
            | some admin ↦ sign_and_apply to username amount source admin db'
          ]
        ]
  ]

  -- The loop over the attempts, with the error of the last one.
  unfoldable pub attempts : ℕ → PayError X → ℤ → Bytes → ℤ → Bytes → D → Result (PayError X) Tx × D
  attempts zero last to username amount source db = (err last, db)
  attempts (suc n) last to username amount source db =
      let (r, db') = sign_and_apply_transfer_once to username amount source db in
      elim r [
        | ok tx ↦ (ok tx, db')
        | err e ↦ elim (is_nonce_error e) [
          | false ↦ (err e, db')
          | true ↦ attempts n e to username amount source db'
        ]
      ]

  unfoldable pub sign_and_apply_transfer : ℤ → Bytes → ℤ → Bytes → D → Result (PayError X) Tx × D
  unfolding attempts
  sign_and_apply_transfer to username amount source db =
      if leb_ℤ to treasury_dsc_id
      then (err PayError.bad_discourse_id, db)
      else attempts 8 PayError.nil_error to username amount source db

  -- What follows a reservation. An error of the release is only logged.
  unfoldable pub pay_reserved :
      Bytes
      → Bytes
      → ℤ
      → Bytes
      → Bytes
      → ℤ
      → World D R
      → Result (PayError X) PaymentResult × World D R
  pay_reserved event_type event_key to username source amount w =
      let (r, db') = sign_and_apply_transfer to username amount source w.db in
      elim r [
        | err e ↦ (
          err (PayError.pay_failed e),
          record {
            db = db';
            table = (rewards.release_reward_event event_type event_key w.table).1;
          },
        )
        | ok tx ↦
            let (done, table') =
              rewards.complete_reward_event event_type event_key tx.tx_hash w.table in
            elim done [
              | err e ↦
                  (err (PayError.dedup_complete tx.tx_hash e), record { db = db'; table = table' })
              | ok _ ↦ (
                ok (record { paid = true; reason = []; amount = amount; tx = some tx }),
                record { db = db'; table = table' },
              )
            ]
      ]

  unfoldable pub pay_reward_once :
      Bytes → Bytes → ℤ → Bytes → Bytes → World D R → Result (PayError X) PaymentResult × World D R
  unfolding pay_reserved
  pay_reward_once event_type event_key to username source w =
      if leb_ℤ to treasury_dsc_id
      then (ok (unpaid (codes "skip non-user discourse_id")), w)
      else let (r, table₁) = rewards.get_reward_amount event_type w.table in
        let w₁ = record w { table = table₁ } in
        elim r [
          | err e ↦ (err (PayError.reward_config e), w₁)
          | ok (amount, enabled) ↦
              if not enabled || leb_ℤ amount (pos 0)
              then (ok (unpaid (codes "reward disabled or amount=0")), w₁)
              else if eqb_ℤ to treasury_dsc_id
              then (ok (unpaid (codes "skip self-pay to treasury")), w₁)
              else let (r₂, table₂) =
                  rewards.try_reserve_reward_event event_type event_key table₁ in
                let w₂ = record w { table = table₂ } in
                elim r₂ [
                  | err e ↦ (err (PayError.dedup_reserve e), w₂)
                  | ok reserved ↦
                      if not reserved
                      then (ok (unpaid (codes "already paid or in-flight (dedup)")), w₂)
                      else pay_reserved event_type event_key to username source amount w₂
                ]
        ]
