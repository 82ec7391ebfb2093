-- ===== src/Store/RewardEvents.antt =====
-- internal/store/pgstore.go, the tables reward_events and reward_config and the statements on
-- them. A table is keyed by its primary key. Time is in microseconds, Postgres' own unit.
-- Connection errors, and the reference of tx_hash to the table of transactions, are left out.
pub mod Permanent
use discourse_points_system.Prelude.{
  ℕ, ◌+◌, Bool, true, false, not, ◌&&◌, ◌||◌, Option, none, some, Bytes, bytes_eq, Eq, ◌==◌, ltb,
  ◌≡◌, ◌↔◌, refl, arith, if◌then◌else◌,
}
use discourse_points_system.Prelude.Int.{ℤ, pos}
use discourse_points_system.Prelude.Dict.{Dict, lookup, insert, erase}
use discourse_points_system.Prelude.Exec.{Result, ok, err, Exec}

-- (event_type, event_key)
abbrev pub EventId : Type 0
EventId = Bytes × Bytes

instance abbrev pub event_id_eq : Eq EventId
event_id_eq = record {
  same = λ a b. (a.0 == b.0) && (a.1 == b.1);
  same_iff = λ a b. ground (arith, bytes_eq.same_iff a.0 b.0, bytes_eq.same_iff a.1 b.1);
}

-- A row of reward_events; a NULL tx_hash means that it is in flight.
pub record EventRow : Type 0 where
  pub tx_hash : Option Bytes
  pub paid_at : ℕ

pub record ConfigRow : Type 0 where
  pub amount : ℤ
  pub enabled : Bool

pub record RewardTables : Type 0 where
  pub events : Dict EventId EventRow
  pub config : Dict Bytes ConfigRow
  pub now : ℕ

pub data EventError : Type 0 where
  completed_differently : EventError

abbrev pub EventAction : Type 0 → Type 0
EventAction A = Exec EventError RewardTables A

-- `interval '15 minutes'`
abbrev pub reservation_time : ℕ
reservation_time = 900_000_000

unfoldable pub reward_event_exists : EventId → EventAction Bool
reward_event_exists id t = (ok (elim (lookup id t.events) [ none ↦ false | some row ↦ true ]), t)

-- `tx_hash IS NULL AND paid_at < now() - interval '15 minutes'`
unfoldable pub is_stale : EventRow → ℕ → Bool
is_stale row now = elim row.tx_hash [
  | some h ↦ false
  | none ↦ ltb (row.paid_at + reservation_time) now
]

-- The DELETE of a reservation that is too old.
unfoldable pub expire : EventId → RewardTables → RewardTables
unfolding is_stale
expire id t = elim (lookup id t.events) [
  | none ↦ t
  | some row ↦ if is_stale row t.now then record t { events = erase id t.events } else t
]

-- The INSERT … ON CONFLICT DO NOTHING RETURNING true.
unfoldable pub reserve : EventId → RewardTables → Bool × RewardTables
reserve id t = elim (lookup id t.events) [
  | some row ↦ (false, t)
  | none ↦
      (true, record t { events = insert id (record { tx_hash = none; paid_at = t.now }) t.events })
]

unfoldable pub try_reserve_reward_event : EventId → EventAction Bool
unfolding expire reserve
try_reserve_reward_event id t = let (reserved, t') = reserve id (expire id t) in (ok reserved, t')

unfoldable pub complete_reward_event : EventId → Bytes → EventAction (Unit {0})
complete_reward_event id tx_hash t =
    let completed = record t {
      events = insert id (record { tx_hash = some tx_hash; paid_at = t.now }) t.events;
    } in
    elim (lookup id t.events) [
      | none ↦ (ok tt, completed)
      | some row ↦ elim row.tx_hash [
        | none ↦ (ok tt, completed)
        | some h ↦ if h == tx_hash then (ok tt, t) else (err completed_differently, t)
      ]
    ]

unfoldable pub release_reward_event : EventId → EventAction (Unit {0})
release_reward_event id t = elim (lookup id t.events) [
  | none ↦ (ok tt, t)
  | some row ↦ elim row.tx_hash [
    | none ↦ (ok tt, record t { events = erase id t.events })
    | some h ↦ (ok tt, t)
  ]
]

abbrev pub record_reward_event : EventId → Bytes → EventAction (Unit {0})
record_reward_event id tx_hash = complete_reward_event id tx_hash

unfoldable pub get_reward_amount : Bytes → EventAction (ℤ × Bool)
get_reward_amount event_type t = elim (lookup event_type t.config) [
  | none ↦ (ok (pos 0, false), t)
  | some row ↦ (ok (row.amount, row.enabled), t)
]
