-- ===== src/Rewards/Payment/Once.antt =====
-- An event is paid at most once, over every sequence of calls of PayRewardOnce.
use discourse_points_system.Prelude.{
  ℕ, suc, ◌+◌, ◌≤◌, Bool, true, false, ◌&&◌, Option, List, [], ◌∷◌, Bytes, bytes_eq, ◌==◌, ◌≡◌, ◌⊎◌,
  refl, sym, arith, Bool-cases, inl, inr, if◌then◌else◌,
}
use mathlib.Core.Path.{subst}
use discourse_points_system.Prelude.Int.{ℤ}
use discourse_points_system.Prelude.Exec.{Result, ok, err, Result-cases}
use discourse_points_system.Ledger.Tx.{Env, TransferPayload}
use discourse_points_system.Ledger.Store.{Store}
use discourse_points_system.Store.RewardEvents.{
  EventId, event_id_eq, RewardTables, EventError, complete_reward_event, release_reward_event,
}
use discourse_points_system.Store.RewardEvents.Permanent.{
  IsStep, IsReachable, IsPaid, IsPaid-reachable, paid-refused, completed-IsPaid,
}
use discourse_points_system.Rewards.{
  World, PayError, PaymentResult, sign_and_apply_transfer, pay_reserved,
}
use discourse_points_system.Rewards.Payment.{
  Call, event_id, pg_service, waited, tried, pay, IsPayment-inv, CallCases, call-CallCases,
}

both : (a b : Bool) → (a && b) ≡ true → (a ≡ true) × (b ≡ true)
both a b h = ground arith

abbrev is_paid : {X : Type 0} → Result (PayError X) PaymentResult → Bool
is_paid (ok r) = r.paid
is_paid (err e) = false

module _ {D S : Type 0} (env : Env) (store : Store D S) (priv pub_key : Bytes)
    (marshal : TransferPayload → Option Bytes) where
  abbrev pay' :
      Call
      → World D RewardTables
      → Result (PayError EventError) PaymentResult × World D RewardTables
  pay' c w = pay env store priv pub_key marshal c w

  -- How often an event is paid in a sequence of calls.
  unfoldable pub times_paid : EventId → List Call → World D RewardTables → ℕ
  times_paid id [] w = 0
  times_paid id (c ∷ cs) w =
      let later = times_paid id cs (pay' c w).1 in
      if (id == event_id c) && is_paid (pay' c w).0 then suc later else later

  abbrev after_reservation : Call → ℤ → World D RewardTables → World D RewardTables
  after_reservation c amount w =
      (pay_reserved (pg_service env store priv pub_key marshal) c.event_type c.event_key c.to
        c.username c.source amount w).1

  -- The table after the reservation: the event is released, or completed.
  reserved-table :
      (c : Call) (amount : ℤ) (w : World D RewardTables)
      → ((after_reservation c amount w).table ≡ (release_reward_event (event_id c) w.table).1)
        ⊎ ((h : Bytes) × ((after_reservation c amount w).table
              ≡ (complete_reward_event (event_id c) h w.table).1))
  unfolding pay_reserved
  reserved-table c amount w =
      elim (Result-cases
        (sign_and_apply_transfer (pg_service env store priv pub_key marshal) c.to c.username amount
          c.source w.db).0) [
            | inr (e, failed) ↦ inl (ground arith)
            | inl (tx, done) ↦
                elim (Result-cases (complete_reward_event (event_id c) tx.tx_hash w.table).0) [
                  | inr (e, failed) ↦ inr (tx.tx_hash, ground arith)
                  | inl (_, fine) ↦ inr (tx.tx_hash, ground arith)
                ]
          ]

  reserved-IsReachable :
      (c : Call) (amount : ℤ) (t : RewardTables) (w : World D RewardTables)
      → IsReachable t w.table
      → IsReachable t (after_reservation c amount w).table
  reserved-IsReachable c amount t w r = elim (reserved-table c amount w) [
    | inl e ↦ rw e (IsReachable.next w.table _ r (IsStep.released (event_id c)))
    | inr (h, e) ↦ rw e (IsReachable.next w.table _ r (IsStep.completed (event_id c) h))
  ]

  abbrev tried' : Call → World D RewardTables → World D RewardTables
  tried' c w = tried env store priv pub_key marshal c w

  call-IsReachable : (c : Call) (w : World D RewardTables) → IsReachable w.table (pay' c w).1.table
  call-IsReachable c w =
      let t = (waited env store priv pub_key marshal c w).table in
      let r : IsReachable w.table t =
        IsReachable.next w.table t IsReachable.start
          (IsStep.waited (w.table.now + c.delay) (omega arith)) in
      let r' : IsReachable w.table (tried' c w).table =
        IsReachable.next t _ r (IsStep.tried (event_id c)) in
      elim (call-CallCases env store priv pub_key marshal c w) [
        | CallCases.stopped x free e ↦ rw e r
        | CallCases.refused x free e ↦ rw e r'
        | CallCases.went_on amount _ _ _ e ↦
            rw e (reserved-IsReachable c amount w.table (tried' c w) r')
      ]

  call-completes :
      (c : Call) (w : World D RewardTables)
      → is_paid (pay' c w).0 ≡ true
      → (h : Bytes) × IsPaid (event_id c) h (pay' c w).1.table
  call-completes c w e = go (pay' c w).0 refl e
    where
      go :
          (r : Result (PayError EventError) PaymentResult)
          → (pay' c w).0 ≡ r
          → is_paid r ≡ true
          → (h : Bytes) × IsPaid (event_id c) h (pay' c w).1.table
      go (err x) same paid = absurd (ground arith)
      go (ok r) same paid =
          let (tx, p) =
            IsPayment-inv env store priv pub_key marshal c w (pay' c w).1 r (ground arith) paid in
          (tx.tx_hash, completed-IsPaid (event_id c) tx.tx_hash _ _ p.completed)

  -- A paid event is refused.
  call-refused :
      (c : Call) (h : Bytes) (w : World D RewardTables)
      → IsPaid (event_id c) h w.table
      → is_paid (pay' c w).0 ≡ false
  call-refused c h w p = go (pay' c w).0 refl
    where
      go : (r : Result (PayError EventError) PaymentResult) → (pay' c w).0 ≡ r → is_paid r ≡ false
      go (err x) same = refl
      go (ok r) same = elim (Bool-cases r.paid) [
        | inr unpaid ↦ unpaid
        | inl paid ↦
            let (tx, q) =
              IsPayment-inv env store priv pub_key marshal c w (pay' c w).1 r (ground arith) paid in
            let no =
              (paid-refused (event_id c) h (waited env store priv pub_key marshal c w).table p).0 in
            absurd (ground (arith, q.reserved, no))
      ]

  never_again :
      (id : EventId) (h : Bytes) (cs : List Call) (w : World D RewardTables)
      → IsPaid id h w.table
      → times_paid id cs w ≡ 0
  unfolding times_paid
  never_again id h [] w p = refl
  never_again id h (c ∷ cs) w p =
      let later =
        never_again id h cs (pay' c w).1
          (IsPaid-reachable id h w.table _ p (call-IsReachable c w)) in
      elim (Bool-cases (id == event_id c)) [
        | inr other ↦ ground arith
        | inl here ↦
            let e : id ≡ event_id c = (event_id_eq.same_iff id (event_id c)).0 here in
            let no = call-refused c h w (subst (λ (j : EventId). IsPaid j h w.table) e p) in
            ground arith
      ]

  -- Over any calls of PayRewardOnce one after the other, on any store and with any time between
  -- them, an event of the table is paid at most once.
  pub times_paid-bound :
      (id : EventId) (cs : List Call) (w : World D RewardTables) → times_paid id cs w ≤ 1
  unfolding times_paid
  times_paid-bound id [] w = omega arith
  times_paid-bound id (c ∷ cs) w =
      let rest = times_paid-bound id cs (pay' c w).1 in
      elim (Bool-cases ((id == event_id c) && is_paid (pay' c w).0)) [
        | inr other ↦ ground arith
        | inl here ↦
            let (same, paid) = both (id == event_id c) (is_paid (pay' c w).0) here in
            let e : id ≡ event_id c = (event_id_eq.same_iff id (event_id c)).0 same in
            let (h, p) = call-completes c w paid in
            let none =
              never_again id h cs (pay' c w).1
                (subst (λ (j : EventId). IsPaid j h (pay' c w).1.table) (sym e) p) in
            ground arith
      ]
