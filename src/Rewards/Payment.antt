-- ===== src/Rewards/Payment.antt =====
-- PayRewardOnce on the Postgres table of rewards, over any store: what a payment has done.
pub mod Once
pub mod Effect
pub mod Charge
use discourse_points_system.Prelude.{
  ℕ, ◌+◌, ◌≤◌, Bool, true, false, not, ◌&&◌, ◌||◌, Option, none, some, List, [], ◌∷◌, Bytes, codes,
  bytes_eq, ◌==◌, ◌≡◌, ◌≢◌, refl, sym, ap, ◌∙◌, arith, Bool-cases, inl, inr, if◌then◌else◌,
}
use discourse_points_system.Prelude.Int.{ℤ, pos, ltb_ℤ, leb_ℤ, eqb_ℤ, ◌≤ℤ◌}
use discourse_points_system.Prelude.Exec.{Result, ok, err, Result-cases}
use discourse_points_system.Ledger.Tx.{Env, Tx, TransferPayload}
use discourse_points_system.Ledger.Store.{Store}
use discourse_points_system.Store.RewardEvents.{
  EventId, event_id_eq, RewardTables, EventError, get_reward_amount, try_reserve_reward_event,
  complete_reward_event, release_reward_event,
}
use discourse_points_system.Store.RewardEvents.Permanent.{IsStep, IsReachable}
use discourse_points_system.Rewards.{
  Rewards, Service, World, PayError, PaymentResult, sign_and_apply_transfer, pay_reserved,
  pay_reward_once, unpaid,
}

-- The PGStore as the service's table of rewards.
abbrev pub pg_rewards : Rewards EventError RewardTables
pg_rewards = record {
  get_reward_amount = get_reward_amount;
  try_reserve_reward_event =
      λ event_type event_key. try_reserve_reward_event (event_type, event_key);
  complete_reward_event = λ event_type event_key. complete_reward_event (event_type, event_key);
  release_reward_event = λ event_type event_key. release_reward_event (event_type, event_key);
}

-- A call of PayRewardOnce, and the time that passes before it.
pub record Call : Type 0 where
  pub event_type : Bytes
  pub event_key : Bytes
  pub to : ℤ
  pub username : Bytes
  pub source : Bytes
  pub delay : ℕ

abbrev pub event_id : Call → EventId
event_id c = (c.event_type, c.event_key)

amount-same : (ty : Bytes) (t : RewardTables) → (get_reward_amount ty t).1 ≡ t
unfolding get_reward_amount
amount-same ty t = ground arith

-- Whether a result leaves a transfer behind: a payment does, and so does an error of the
-- completion.
abbrev pub is_charged : Result (PayError EventError) PaymentResult → Bool
is_charged (ok r) = r.paid
is_charged (err (PayError.dedup_complete h e)) = true
is_charged (err e) = false

module _ {D S : Type 0} (env : Env) (store : Store D S) (priv pub_key : Bytes)
    (marshal : TransferPayload → Option Bytes) where
  abbrev pub pg_service : Service EventError D S RewardTables
  pg_service = record {
    env = env;
    store = store;
    rewards = pg_rewards;
    admin_priv_key = priv;
    admin_pub_key = pub_key;
    marshal = marshal;
  }

  abbrev pub waited : Call → World D RewardTables → World D RewardTables
  waited c w = record w { table = record w.table { now = w.table.now + c.delay } }

  abbrev pub pay :
      Call
      → World D RewardTables
      → Result (PayError EventError) PaymentResult × World D RewardTables
  pay c w =
      pay_reward_once pg_service c.event_type c.event_key c.to c.username c.source (waited c w)

  -- What a payment did, in order: it reserved the event, signed and applied a transfer, and
  -- completed the event with its hash.
  pub record IsPayment (c : Call) (w w' : World D RewardTables) (r : PaymentResult) (tx : Tx)
      : Type 0 where
    pub reserved : (try_reserve_reward_event (event_id c) (waited c w).table).0 ≡ ok true
    pub applied :
        sign_and_apply_transfer pg_service c.to c.username r.amount c.source w.db ≡ (ok tx, w'.db)
    pub completed :
        complete_reward_event
          (event_id c)
          tx.tx_hash
          (try_reserve_reward_event (event_id c) (waited c w).table).1
        ≡ (ok tt, w'.table)
    pub logged : r.tx ≡ some tx
    pub configured : (get_reward_amount c.event_type (waited c w).table).0 ≡ ok (r.amount, true)
    pub positive : pos 1 ≤ℤ r.amount

  reserved_inv :
      (c : Call) (amount : ℤ) (w w' : World D RewardTables) (r : PaymentResult)
      → pay_reserved pg_service c.event_type c.event_key c.to c.username c.source amount w
        ≡ (ok r, w')
      → (tx : Tx) × (sign_and_apply_transfer pg_service c.to c.username amount c.source w.db
          ≡ (ok tx, w'.db))
        × (complete_reward_event (event_id c) tx.tx_hash w.table ≡ (ok tt, w'.table))
        × (r ≡ record { paid = true; reason = []; amount = amount; tx = some tx })
  unfolding pay_reserved
  reserved_inv c amount w w' r h =
      let run = sign_and_apply_transfer pg_service c.to c.username amount c.source w.db in
      elim (Result-cases run.0) [
        | inr (e, failed) ↦ absurd (ground arith)
        | inl (tx, done) ↦
            elim (Result-cases (complete_reward_event (event_id c) tx.tx_hash w.table).0) [
              | inr (e, failed) ↦ absurd (ground arith)
              | inl (_, fine) ↦ (tx, ground arith, ground arith, ground arith)
            ]
      ]

  abbrev pub tried : Call → World D RewardTables → World D RewardTables
  tried c w = record w { table = (try_reserve_reward_event (event_id c) (waited c w).table).1 }

  -- How a call goes: it stops before the reservation, or at it, or the event is reserved.
  pub data CallCases (c : Call) (w : World D RewardTables) : Type 0 where
    stopped :
        (r : Result (PayError EventError) PaymentResult)
        → is_charged r ≡ false
        → pay c w ≡ (r, waited c w)
        → CallCases c w
    refused :
        (r : Result (PayError EventError) PaymentResult)
        → is_charged r ≡ false
        → pay c w ≡ (r, tried c w)
        → CallCases c w
    went_on :
        (amount : ℤ)
        → (get_reward_amount c.event_type (waited c w).table).0 ≡ ok (amount, true)
        → pos 1 ≤ℤ amount
        → (try_reserve_reward_event (event_id c) (waited c w).table).0 ≡ ok true
        → pay c w
          ≡ pay_reserved pg_service c.event_type c.event_key c.to c.username c.source amount
              (tried c w)
        → CallCases c w

  pub call-CallCases : (c : Call) (w : World D RewardTables) → CallCases c w
  unfolding pay_reward_once
  call-CallCases c w =
      let t = (waited c w).table in
      let same = amount-same c.event_type t in
      elim (Bool-cases (leb_ℤ c.to (pos 0))) [
        | inl skip ↦
            CallCases.stopped (ok (unpaid (codes "skip non-user discourse_id"))) refl (ground arith)
        | inr user ↦ elim (Result-cases (get_reward_amount c.event_type t).0) [
          | inr (e, failed) ↦ CallCases.stopped (err (PayError.reward_config e)) refl (ground arith)
          | inl ((amount, enabled), got) ↦ elim (Bool-cases (not enabled || leb_ℤ amount (pos 0))) [
            | inl off ↦
                CallCases.stopped (ok (unpaid (codes "reward disabled or amount=0"))) refl
                  (ground arith)
            | inr on ↦ elim (Bool-cases (eqb_ℤ c.to (pos 0))) [
              | inl treasury ↦
                  CallCases.stopped (ok (unpaid (codes "skip self-pay to treasury"))) refl
                    (ground arith)
              | inr other ↦ elim (Result-cases (try_reserve_reward_event (event_id c) t).0) [
                | inr (e, failed) ↦
                    CallCases.refused (err (PayError.dedup_reserve e)) refl (ground arith)
                | inl (true, reserved) ↦
                    CallCases.went_on amount (ground arith) (ground arith) reserved (ground arith)
                | inl (false, reserved) ↦
                    CallCases.refused (ok (unpaid (codes "already paid or in-flight (dedup)"))) refl
                      (ground arith)
              ]
            ]
          ]
        ]
      ]

  pub IsPayment-inv :
      (c : Call) (w w' : World D RewardTables) (r : PaymentResult)
      → pay c w ≡ (ok r, w')
      → r.paid ≡ true
      → (tx : Tx) × IsPayment c w w' r tx
  IsPayment-inv c w w' r h paid = elim (call-CallCases c w) [
    | CallCases.stopped x free e ↦ absurd (ground arith)
    | CallCases.refused x free e ↦ absurd (ground arith)
    | CallCases.went_on amount configured positive reserved e ↦
        let (tx, applied, completed, same) = reserved_inv c amount (tried c w) w' r (sym e ∙ h) in
        (
          tx,
          record {
            reserved = reserved;
            applied = ground arith;
            completed = completed;
            logged = ground arith;
            configured = ground arith;
            positive = ground arith;
          },
        )
  ]
