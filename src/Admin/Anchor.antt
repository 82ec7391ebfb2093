-- ===== src/Admin/Anchor.antt =====
-- internal/admin/server.go, anchoring the current tree head with a time stamp, and the statement of
-- internal/ots/anchor.go on the table of checkpoints. The calendar is remote: `submit` is what its
-- call gives. Errors of the connection are left out.
use discourse_points_system.Prelude.{
  ℕ, ◌≡◌, ◌⊎◌, refl, sym, ap, ◌∙◌, arith, Bool, true, false, not, ◌&&◌, Option, none, some, List,
  [], ◌∷◌, ◌++◌, Bytes, codes, bytes_eq, ◌==◌, length, ltb, if◌then◌else◌, Option-cases, inl, inr,
  Bool-cases,
}
use discourse_points_system.Prelude.Int.{ℤ, pos, int_eq}
use discourse_points_system.Prelude.Dict.{lookup, insert}
use discourse_points_system.Prelude.Exec.{ok, err}
use discourse_points_system.Prelude.Text.{hex_prefix, trim_right_slash}
use discourse_points_system.Ledger.Tx.{Env, Tx}
use discourse_points_system.TxLog.{Snapshot, Sth, Checkpoint, Keys, signed_sth_bytes}
use discourse_points_system.TxLog.Signing.{Checkpoints, current_sth, stored_key}

unfoldable pub default_calendar : Bytes
default_calendar = codes "https://a.pool.opentimestamps.org/digest"

-- The fields of Service that anchoring reads, with strings.EqualFold and the call of the calendar.
pub record Anchoring : Type 0 where
  pub ots_calendar_url : Bytes
  pub ots_calendar_allowlist : List Bytes
  pub equal_fold : Bytes → Bytes → Bool
  pub submit : Bytes → Bytes → Option Bytes

pub record AnchorReq : Type 0 where
  pub calendar_url : Bytes
  pub force : Bool

pub data AnchorResponse : Type 0 where
  refused : ℕ → AnchorResponse
  already_anchored : Sth → Bytes → Bytes → AnchorResponse
  anchored : Sth → Bytes → Bytes → Bytes → AnchorResponse

-- The loop over the calendars that are allowed.
unfoldable pub any_equal : (Bytes → Bytes → Bool) → Bytes → List Bytes → Bool
any_equal equal_fold calendar [] = false
any_equal equal_fold calendar (candidate ∷ candidates) =
    let rest = any_equal equal_fold calendar candidates in
    if equal_fold (trim_right_slash candidate) (trim_right_slash calendar) then true else rest

unfoldable pub calendar_allowed : Anchoring → Bytes → Bool
unfolding any_equal
calendar_allowed s calendar =
    if calendar == []
    then false
    else any_equal s.equal_fold calendar (
        default_calendar ∷ (if s.ots_calendar_url == [] then [] else s.ots_calendar_url ∷ [])
        ++ s.ots_calendar_allowlist)

-- The calendar that is asked for, or the configured one, or the default.
unfoldable pub chosen_calendar : Anchoring → AnchorReq → Bytes
chosen_calendar s req =
    if not (req.calendar_url == [])
    then req.calendar_url
    else if not (s.ots_calendar_url == [])
    then s.ots_calendar_url
    else default_calendar

-- AnchorCheckpoint; `none` where no row has the size.
unfoldable pub anchor_checkpoint : ℤ → Bytes → Checkpoints → Option Checkpoints
anchor_checkpoint size receipt table = elim (lookup size table) [
  | none ↦ none
  | some row ↦ some (insert size (record row { ots_receipt = some receipt }) table)
]

-- The receipt that is stored for a size; no row and NULL are read as no bytes.
unfoldable pub existing_receipt : ℤ → Checkpoints → Bytes
existing_receipt size table = elim (lookup size table) [
  | none ↦ []
  | some row ↦ stored_key row.ots_receipt
]

-- DigestSTH over the canonical message of a head.
unfoldable pub digest_sth : Env → Sth → Bytes
digest_sth env sth =
    env.sha256 (signed_sth_bytes sth.tree_size (hex_prefix sth.root_hash) sth.timestamp_ms)

empty-cases : (b : Bytes) → (ltb 0 (length b) ≡ true) ⊎ (b ≡ [])
empty-cases [] = inr refl
empty-cases (x ∷ b) = inl (ground arith)

module _ (env : Env) (s : Anchoring) where
  -- anchorSTH once there is a head to anchor.
  unfoldable pub anchor_head : AnchorReq → Sth → Checkpoints → AnchorResponse × Checkpoints
  unfolding calendar_allowed chosen_calendar anchor_checkpoint existing_receipt digest_sth
  anchor_head req sth table =
      let digest = digest_sth env sth in
      let existing = existing_receipt sth.tree_size table in
      let calendar = chosen_calendar s req in
      if ltb 0 (length existing) && not req.force
      then (already_anchored sth digest existing, table)
      else if not (calendar_allowed s calendar)
      then (refused 400, table)
      else elim (s.submit calendar digest) [
        | none ↦ (refused 502, table)
        | some receipt ↦ elim (anchor_checkpoint sth.tree_size receipt table) [
          | none ↦ (refused 500, table)
          | some table' ↦ (anchored sth calendar digest receipt, table')
        ]
      ]

  -- anchorSTH, where the log and the database are configured, with the log's keys, table and cache, at the time `ts`; `none` is a body that does
  -- not decode.
  unfoldable pub anchor_sth :
      Keys
      → Option AnchorReq
      → ℤ
      → List Tx
      → Option Snapshot
      → Checkpoints
      → AnchorResponse × Option Snapshot × Checkpoints
  unfolding anchor_head
  anchor_sth keys none ts txs cache table = (refused 400, cache, table)
  anchor_sth keys (some req) ts txs cache table =
      let (r, cache', table') = current_sth env keys ts txs cache table in
      elim r [
        | err e ↦ (refused 500, cache', table')
        | ok sth ↦
            if sth.tree_size == pos 0
            then (refused 409, cache', table')
            else (let (response, table'') = anchor_head req sth table' in
                (response, cache', table''))
      ]

-- What an anchored head shows: the receipt is that of an allowed calendar for the head's digest; it
-- is stored in the head's row, of which nothing else changes; and it replaces no receipt, unless
-- that is asked for.
pub record IsAnchored (env : Env) (s : Anchoring) (req : AnchorReq) (sth : Sth)
    (table : Checkpoints) (calendar receipt : Bytes) (table' : Checkpoints) : Type 0 where
  pub row : Checkpoint
  pub allowed : calendar_allowed s calendar ≡ true
  pub given : s.submit calendar (digest_sth env sth) ≡ some receipt
  pub stored : lookup sth.tree_size table ≡ some row
  pub table_is : table' ≡ insert sth.tree_size (record row { ots_receipt = some receipt }) table
  pub fresh : (req.force ≡ true) ⊎ (stored_key row.ots_receipt ≡ [])

module _ (env : Env) (s : Anchoring) where
  pub anchor_head-IsAnchored :
      (req : AnchorReq) (sth sth' : Sth) (table table' : Checkpoints)
      (calendar digest receipt : Bytes)
      → anchor_head env s req sth table ≡ (anchored sth' calendar digest receipt, table')
      → IsAnchored env s req sth table calendar receipt table'
  unfolding anchor_head anchor_checkpoint existing_receipt
  anchor_head-IsAnchored req sth sth' table table' calendar digest receipt h =
      elim (Option-cases (s.submit (chosen_calendar s req) (digest_sth env sth))) [
        | inl e ↦ absurd (ground arith)
        | inr (got, e) ↦ elim (Option-cases (lookup sth.tree_size table)) [
          | inl f ↦ absurd (ground arith)
          | inr (row, f) ↦
              let same : chosen_calendar s req ≡ calendar = ground arith in
              let permitted : calendar_allowed s (chosen_calendar s req) ≡ true =
                elim (Bool-cases (calendar_allowed s (chosen_calendar s req))) [
                  | inl b ↦ b
                  | inr b ↦ absurd (ground arith)
                ] in
              let same' : got ≡ receipt = ground arith in
              record {
                row = row;
                allowed = ap (calendar_allowed s) (sym same) ∙ permitted;
                given = rw (← same, ← same') e;
                stored = f;
                table_is = ground arith;
                fresh = ground (arith, empty-cases (stored_key row.ots_receipt));
              }
        ]
      ]
