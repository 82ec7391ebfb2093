-- ===== src/Rewards/Webhook.antt =====
-- internal/rewards/webhook.go: the handler of Discourse's webhooks.
pub mod Trigger
use discourse_points_system.Prelude.{
  ℕ, Bool, true, false, not, ◌||◌, Option, none, some, [], ◌∷◌, ◌++◌, Bytes, codes, ◌==◌, bytes_eq,
  length, take, drop, ◌≡◌, refl, sym, ap, ◌∙◌, ◌⊎◌, inl, inr, arith, Bool-cases, Option-cases,
  if◌then◌else◌,
}
use discourse_points_system.Prelude.Int.{ℤ, pos, leb_ℤ, ◌≤ℤ◌}
use discourse_points_system.Prelude.Text.{has_prefix, hex_decode, decimal}
use discourse_points_system.Prelude.Exec.{Result, ok, err}
use discourse_points_system.Ledger.Tx.{Tx}
use discourse_points_system.Rewards.{
  Service, World, PayError, PaymentResult, pay_reward_once, event_signup_bonus,
  event_first_post_ever,
}

pub record UserPayload : Type 0 where
  pub id : ℤ
  pub username : Bytes
  pub active : Bool

pub record PostPayload : Type 0 where
  pub id : ℤ
  pub user_id : ℤ
  pub username : Bytes

-- A request: its headers (an absent one is empty) and its body, or no body if it cannot be read.
pub record Request : Type 0 where
  pub header : Bytes → Bytes
  pub body : Option Bytes

-- What is written: the status follows from the case.
pub data Response (X : Type 0) : Type 0 where
  bad_request unauthorized ignored : Response X
  recorded : Bytes → Response X
  paid : Bytes → ℤ → ℤ → Option Tx → Response X
  apply_error : PayError X → Response X

unfoldable pub status : {X : Type 0} → Response X → ℕ
status bad_request = 400
status unauthorized = 401
status ignored = 200
status (recorded detail) = 200
status (paid event to amount tx) = 200
status (apply_error e) = 500

-- HMAC-SHA-256 and the JSON decoder, with the secret.
pub record Hooks : Type 0 where
  pub hmac_sha256 : Bytes → Bytes → Bytes
  pub webhook_secret : Bytes
  pub unmarshal_user : Bytes → Option UserPayload
  pub unmarshal_post : Bytes → Option PostPayload

abbrev pub body_limit : ℕ
body_limit = 1_048_576

-- The headers and the names of events that the handler reads.
unfoldable pub signature_header : Bytes
signature_header = codes "X-Discourse-Event-Signature"

unfoldable pub type_header : Bytes
type_header = codes "X-Discourse-Event-Type"

unfoldable pub event_header : Bytes
event_header = codes "X-Discourse-Event"

unfoldable pub signature_prefix : Bytes
signature_prefix = codes "sha256="

unfoldable pub user_type : Bytes
user_type = codes "user"

unfoldable pub post_type : Bytes
post_type = codes "post"

unfoldable pub user_created : Bytes
user_created = codes "user_created"

unfoldable pub user_activated : Bytes
user_activated = codes "user_activated"

unfoldable pub post_created : Bytes
post_created = codes "post_created"

abbrev pub user_key : ℤ → Bytes
user_key id = codes "user:" ++ decimal id

module _ {X D S R : Type 0} (hooks : Hooks) (service : Service X D S R) where
  open hooks use {hmac_sha256, webhook_secret, unmarshal_user, unmarshal_post}

  unfoldable pub verify_sig : Request → Bytes → Bool
  verify_sig r body =
      let header = r.header signature_header in
      if header == []
      then false
      else if not (has_prefix header signature_prefix)
      then false
      else elim (hex_decode (drop 7 header)) [
        | none ↦ false
        | some want ↦ want == hmac_sha256 webhook_secret body
      ]

  unfoldable pub pay_once : Bytes → Bytes → ℤ → Bytes → World D R → Response X × World D R
  pay_once event_type event_key to username w =
      let (r, w') = pay_reward_once service event_type event_key to username event_type w in
      elim r [
        | err e ↦ (apply_error e, w')
        | ok result ↦
            if not result.paid
            then (recorded result.reason, w')
            else (paid event_type to result.amount result.tx, w')
      ]

  unfoldable pub handle_user_event : Bytes → Bytes → World D R → Response X × World D R
  handle_user_event name body w = elim (unmarshal_user body) [
    | none ↦ (bad_request, w)
    | some user ↦
        if leb_ℤ user.id (pos 0)
        then (bad_request, w)
        else if name == user_created || name == user_activated
        then (if user.active
            then pay_once event_signup_bonus (user_key user.id) user.id user.username w
            else (recorded (codes "user event recorded, no reward triggered"), w))
        else (recorded (codes "user event recorded, no reward triggered"), w)
  ]

  unfoldable pub handle_post_event : Bytes → Bytes → World D R → Response X × World D R
  handle_post_event name body w = elim (unmarshal_post body) [
    | none ↦ (bad_request, w)
    | some post ↦
        if name == post_created
        then (if leb_ℤ post.user_id (pos 0)
            then (recorded (codes "skip non-user post author"), w)
            else pay_once event_first_post_ever (user_key post.user_id) post.user_id post.username
                w)
        else (recorded (codes "post event recorded, no reward triggered"), w)
  ]

  unfoldable pub webhook : Request → World D R → Response X × World D R
  webhook r w = elim r.body [
    | none ↦ (bad_request, w)
    | some sent ↦
        let body = take body_limit sent in
        if not (verify_sig r body)
        then (unauthorized, w)
        else if r.header type_header == user_type
        then handle_user_event (r.header event_header) body w
        else if r.header type_header == post_type
        then handle_post_event (r.header event_header) body w
        else (ignored, w)
  ]
