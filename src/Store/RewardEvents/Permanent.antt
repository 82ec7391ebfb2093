-- ===== src/Store/RewardEvents/Permanent.antt =====
-- A reward event that is completed stays completed, whatever is done to the table afterwards.
use discourse_points_system.Prelude.{
  ℕ, ◌+◌, ◌<◌, ◌↔◌, ◌≤◌, true, false, none, some, Bytes, bytes_eq, ◌≡◌, ◌≢◌, inl, inr, refl, ap,
  arith, Option-cases,
}
use discourse_points_system.Prelude.Dict.{lookup, insert, lookup-insert, lookup-erase}
use discourse_points_system.Prelude.Exec.{Result, ok, err}
use discourse_points_system.Store.RewardEvents.{
  EventId, event_id_eq, EventRow, RewardTables, EventError, is_stale, expire, reserve,
  reservation_time, try_reserve_reward_event, complete_reward_event, release_reward_event,
}

-- What may happen to the table: its statements, for any event, and the passing of time.
pub data IsStep (t : RewardTables) : RewardTables → Type 0 where
  tried : (id : EventId) → IsStep t (try_reserve_reward_event id t).1
  completed : (id : EventId) (h : Bytes) → IsStep t (complete_reward_event id h t).1
  released : (id : EventId) → IsStep t (release_reward_event id t).1
  waited : (later : ℕ) → t.now ≤ later → IsStep t (record t { now = later })

pub data IsReachable (t : RewardTables) : RewardTables → Type 0 where
  start : IsReachable t t
  next : (t₁ t₂ : RewardTables) → IsReachable t t₁ → IsStep t₁ t₂ → IsReachable t t₂

-- The event has been paid by the transaction of this hash.
abbrev pub IsPaid : EventId → Bytes → RewardTables → Type 0
IsPaid id h t = (row : EventRow) × (lookup id t.events ≡ some row) × (row.tx_hash ≡ some h)

module _ (id : EventId) (h : Bytes) where
  IsPaid-expire : (j : EventId) (t : RewardTables) → IsPaid id h t → IsPaid id h (expire j t)
  unfolding expire
  IsPaid-expire j t (row, at, paid) =
      (row, ground (arith, lookup-erase id j t.events, event_id_eq.same_iff id j), paid)

  IsPaid-reserve : (j : EventId) (t : RewardTables) → IsPaid id h t → IsPaid id h (reserve j t).1
  unfolding reserve
  IsPaid-reserve j t (row, at, paid) = (
    row,
    ground (
      arith,
      lookup-insert id j (record { tx_hash = none; paid_at = t.now }) t.events,
      event_id_eq.same_iff id j,
    ),
    paid,
  )

  IsPaid-complete :
      (j : EventId) (g : Bytes) (t : RewardTables)
      → IsPaid id h t
      → IsPaid id h (complete_reward_event j g t).1
  unfolding complete_reward_event
  IsPaid-complete j g t (row, at, paid) = (
    row,
    ground (
      arith,
      lookup-insert id j (record { tx_hash = some g; paid_at = t.now }) t.events,
      event_id_eq.same_iff id j,
    ),
    paid,
  )

  IsPaid-release :
      (j : EventId) (t : RewardTables) → IsPaid id h t → IsPaid id h (release_reward_event j t).1
  unfolding release_reward_event
  IsPaid-release j t (row, at, paid) =
      (row, ground (arith, lookup-erase id j t.events, event_id_eq.same_iff id j), paid)

  IsPaid-step : (t t' : RewardTables) → IsPaid id h t → IsStep t t' → IsPaid id h t'
  unfolding try_reserve_reward_event
  IsPaid-step t _ p (IsStep.tried j) = IsPaid-reserve j (expire j t) (IsPaid-expire j t p)
  IsPaid-step t _ p (IsStep.completed j g) = IsPaid-complete j g t p
  IsPaid-step t _ p (IsStep.released j) = IsPaid-release j t p
  IsPaid-step t _ p (IsStep.waited later le) = p

  pub IsPaid-reachable : (t t' : RewardTables) → IsPaid id h t → IsReachable t t' → IsPaid id h t'
  IsPaid-reachable t _ p IsReachable.start = p
  IsPaid-reachable t t' p (IsReachable.next t₁ _ r s) =
      IsPaid-step t₁ t' (IsPaid-reachable t t₁ p r) s

  pub paid-refused :
      (t : RewardTables)
      → IsPaid id h t
      → ((try_reserve_reward_event id t).0 ≡ ok false) × ((try_reserve_reward_event id t).1 ≡ t)
  unfolding try_reserve_reward_event expire reserve
  paid-refused t (row, at, paid) = (ground arith, ground arith)

  pub complete-IsPaid :
      (t : RewardTables)
      → (complete_reward_event id h t).0 ≡ ok tt
      → IsPaid id h (complete_reward_event id h t).1
  unfolding complete_reward_event
  complete-IsPaid t e = elim (Option-cases (lookup id t.events)) [
    | inl absent ↦ (new, ground (arith, fresh), refl)
    | inr (row, at) ↦ elim (Option-cases row.tx_hash) [
      | inl flying ↦ (new, ground (arith, fresh), refl)
      | inr (g, paid) ↦ (row, ground arith, ground (arith, bytes_eq.same_iff g h))
    ]
  ]
    where
      new : EventRow
      new = record { tx_hash = some h; paid_at = t.now }

      fresh : lookup id (insert id new t.events) ≡ some new
      fresh = ground (arith, lookup-insert id id new t.events, event_id_eq.same_iff id id)

  pub completed-IsPaid :
      (t t' : RewardTables) → complete_reward_event id h t ≡ (ok tt, t') → IsPaid id h t'
  completed-IsPaid t t' e =
      rw (ap (λ (r : Result EventError (Unit {0}) × RewardTables). r.1) e) at
        (complete-IsPaid t (ap (λ (r : Result EventError (Unit {0}) × RewardTables). r.0) e))

  differently :
      (t : RewardTables) (g : Bytes)
      → IsPaid id h t
      → g ≢ h
      → (complete_reward_event id g t).0 ≡ err EventError.completed_differently
  unfolding complete_reward_event
  differently t g (row, at, paid) ne = ground (arith, bytes_eq.same_iff h g)

-- Once CompleteRewardEvent has succeeded for an event, then after any further statements on the
-- table, for any events, and any time, the event cannot be reserved, and cannot be completed with
-- another hash.
pub paid_once :
    (id : EventId) (h g : Bytes) (t t' : RewardTables)
    → (complete_reward_event id h t).0 ≡ ok tt
    → IsReachable (complete_reward_event id h t).1 t'
    → g ≢ h
    → ((try_reserve_reward_event id t').0 ≡ ok false)
      × ((complete_reward_event id g t').0 ≡ err EventError.completed_differently)
paid_once id h g t t' done r ne =
    let p =
      IsPaid-reachable id h (complete_reward_event id h t).1 t' (complete-IsPaid id h t done) r in
    ((paid-refused id h t' p).0, differently id h t' g p ne)

-- TryReserveRewardEvent gives the event exactly where it has no row, or the row is a reservation
-- of more than 15 minutes ago that was never completed.
pub reserved_iff :
    (id : EventId) (t : RewardTables)
    → ((try_reserve_reward_event id t).0 ≡ ok true) ↔ (
        (row : EventRow)
        → lookup id t.events ≡ some row
        → (row.tx_hash ≡ none) × (row.paid_at + reservation_time < t.now))
unfolding try_reserve_reward_event expire reserve is_stale
reserved_iff id t = ((λ h row at. ground arith), from)
  where
    from :
        ((row : EventRow)
          → lookup id t.events ≡ some row
          → (row.tx_hash ≡ none) × (row.paid_at + reservation_time < t.now))
        → (try_reserve_reward_event id t).0 ≡ ok true
    from free = elim (Option-cases (lookup id t.events)) [
      | inl absent ↦ ground arith
      | inr (row, at) ↦
          let (flying, old) = free row at in
          ground (arith, lookup-erase id id t.events, event_id_eq.same_iff id id)
    ]
