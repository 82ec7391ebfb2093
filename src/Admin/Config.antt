-- ===== src/Admin/Config.antt =====
-- internal/admin/server.go: the rewards that the admin configures, on the table reward_config of
-- the service of rewards. Errors of the connection are left out.
use discourse_points_system.Prelude.{
  ℕ, ◌≡◌, arith, Bool, Option, none, some, [], Bytes, bytes_eq, ◌==◌, nat_eqb, if◌then◌else◌,
  Option-cases, inl, inr,
}
use discourse_points_system.Prelude.Int.{ℤ, pos, ltb_ℤ}
use discourse_points_system.Prelude.Dict.{lookup, insert, lookup-insert}
use discourse_points_system.Prelude.Exec.{ok}
use discourse_points_system.Store.RewardEvents.{RewardTables, ConfigRow, get_reward_amount}

pub record UpdateRewardReq : Type 0 where
  pub event_type : Bytes
  pub amount : ℤ
  pub enabled : Bool

-- `UPDATE reward_config SET … WHERE event_type=$1`, with the number of rows.
unfoldable pub update_config : Bytes → ConfigRow → RewardTables → ℕ × RewardTables
update_config event row t = elim (lookup event t.config) [
  | none ↦ (0, t)
  | some _ ↦ (1, record t { config = insert event row t.config })
]

-- `INSERT … ON CONFLICT (event_type) DO UPDATE SET …`
unfoldable pub upsert_config : Bytes → ConfigRow → RewardTables → RewardTables
upsert_config event row t = record t { config = insert event row t.config }

-- updateRewardConfig: the status, and the tables.
unfoldable pub update_reward_config : Option UpdateRewardReq → RewardTables → ℕ × RewardTables
unfolding update_config upsert_config
update_reward_config none t = (400, t)
update_reward_config (some req) t =
    if ltb_ℤ req.amount (pos 0)
    then (400, t)
    else if req.event_type == []
    then (400, t)
    else (let row : ConfigRow = record { amount = req.amount; enabled = req.enabled } in
        let (rows, t') = update_config req.event_type row t in
        (200, if nat_eqb rows 0 then upsert_config req.event_type row t' else t'))

-- After an update of the rewards that is answered with 200, the rewards service reads for the updated
-- event the amount and the switch of the request, and for every other event what it read before.
pub update-get_reward_amount :
    (req : UpdateRewardReq) (t : RewardTables) (event : Bytes)
    → (update_reward_config (some req) t).0 ≡ 200
    → (get_reward_amount event (update_reward_config (some req) t).1).0 ≡ (
        if event == req.event_type
        then ok (req.amount, req.enabled)
        else (get_reward_amount event t).0)
unfolding update_reward_config get_reward_amount
update-get_reward_amount req t event h =
    let row : ConfigRow = record { amount = req.amount; enabled = req.enabled } in
    elim (Option-cases (lookup req.event_type t.config)) [
      | inl e ↦ ground (arith, lookup-insert event req.event_type row t.config)
      | inr (old, e) ↦ ground (arith, lookup-insert event req.event_type row t.config)
    ]
