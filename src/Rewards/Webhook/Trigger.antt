-- ===== src/Rewards/Webhook/Trigger.antt =====
-- What makes the handler of webhooks pay.
use discourse_points_system.Prelude.{
  true, ◌||◌, some, [], ◌∷◌, ◌++◌, Bytes, codes, ◌==◌, bytes_eq, length, take, drop, ◌≡◌, refl, ap,
  ◌∙◌, ◌⊎◌, inl, inr, arith, Bool-cases, Option-cases,
}
use discourse_points_system.Prelude.Int.{ℤ, pos, leb_ℤ, ◌≤ℤ◌}
use discourse_points_system.Prelude.Text.{has_prefix, hex_decode, decimal}
use discourse_points_system.Prelude.Exec.{Result-cases}
use discourse_points_system.Rewards.{
  Service, World, pay_reward_once, event_signup_bonus, event_first_post_ever,
}
use discourse_points_system.Rewards.Webhook.{
  UserPayload, PostPayload, Request, Hooks, body_limit, user_key, verify_sig, pay_once,
  handle_user_event, handle_post_event, webhook, signature_header, type_header, event_header,
  signature_prefix, user_type, post_type, user_created, user_activated, post_created,
}

either :
    (name : Bytes)
    → (name == user_created || name == user_activated) ≡ true
    → (name ≡ user_created) ⊎ (name ≡ user_activated)
either name h =
    ground (arith, bytes_eq.same_iff name user_created, bytes_eq.same_iff name user_activated)

has_prefix-split : (s p : Bytes) → has_prefix s p ≡ true → s ≡ p ++ drop (length p) s
unfolding has_prefix
has_prefix-split s [] h = refl
has_prefix-split [] (x ∷ p) h = absurd (ground arith)
has_prefix-split (c ∷ s) (x ∷ p) h = ground (arith, has_prefix-split s p)

module _ {X D S R : Type 0} (hooks : Hooks) (service : Service X D S R) where
  -- The header carries the MAC of the body under the secret, in hexadecimal.
  abbrev pub IsAuthentic : Request → Bytes → Type 0
  IsAuthentic r body =
      (hex : Bytes) × (r.header signature_header ≡ signature_prefix ++ hex)
      × (hex_decode hex ≡ some (hooks.hmac_sha256 hooks.webhook_secret body))

  -- The events that a reward is paid for, with the event's type, the user and the user's name.
  pub data IsEvent (name body : Bytes) : Bytes → ℤ → Bytes → Type 0 where
    signup :
        (u : UserPayload)
        → hooks.unmarshal_user body ≡ some u
        → (name ≡ user_created) ⊎ (name ≡ user_activated)
        → u.active ≡ true
        → pos 1 ≤ℤ u.id
        → IsEvent name body event_signup_bonus u.id u.username
    first_post :
        (p : PostPayload)
        → hooks.unmarshal_post body ≡ some p
        → name ≡ post_created
        → pos 1 ≤ℤ p.user_id
        → IsEvent name body event_first_post_ever p.user_id p.username

  verify_sig-IsAuthentic :
      (r : Request) (body : Bytes) → verify_sig hooks service r body ≡ true → IsAuthentic r body
  unfolding verify_sig signature_prefix
  verify_sig-IsAuthentic r body h =
      let header = r.header signature_header in
      elim (Bool-cases (header == [])) [
        | inl absent ↦ absurd (ground arith)
        | inr present ↦ elim (Bool-cases (has_prefix header signature_prefix)) [
          | inr other ↦ absurd (ground arith)
          | inl prefixed ↦ elim (Option-cases (hex_decode (drop 7 header))) [
            | inl bad ↦ absurd (ground arith)
            | inr (want, decoded) ↦ (
              drop 7 header,
              has_prefix-split header signature_prefix prefixed,
              decoded
                  ∙ ap some (
                      ground (
                        arith,
                        bytes_eq.same_iff want (hooks.hmac_sha256 hooks.webhook_secret body),
                      )),
            )
          ]
        ]
      ]

  abbrev Paid : Bytes → Bytes → World D R → World D R → Type 0
  Paid name body w w' =
      (w' ≡ w)
      ⊎ ((event_type : Bytes) × (to : ℤ) × (username : Bytes) × IsEvent name body event_type to
            username
          × (w' ≡ (pay_reward_once service event_type (user_key to) to username event_type w).1))

  pay_once-world :
      (ty key : Bytes) (to : ℤ) (username : Bytes) (w : World D R)
      → (pay_once hooks service ty key to username w).1
        ≡ (pay_reward_once service ty key to username ty w).1
  unfolding pay_once
  pay_once-world ty key to username w =
      elim (Result-cases (pay_reward_once service ty key to username ty w).0) [
        | inr (e, failed) ↦ ground arith
        | inl (r, done) ↦ ground arith
      ]

  user-Paid :
      (name body : Bytes) (w : World D R)
      → Paid name body w (handle_user_event hooks service name body w).1
  unfolding handle_user_event
  user-Paid name body w = elim (Option-cases (hooks.unmarshal_user body)) [
    | inl bad ↦ inl (ground arith)
    | inr (u, decoded) ↦ elim (Bool-cases (leb_ℤ u.id (pos 0))) [
      | inl bad ↦ inl (ground arith)
      | inr real ↦ elim (Bool-cases (name == user_created || name == user_activated)) [
        | inr other ↦ inl (ground arith)
        | inl named ↦ elim (Bool-cases u.active) [
          | inr inactive ↦ inl (ground arith)
          | inl active ↦ inr (
            event_signup_bonus,
            u.id,
            u.username,
            IsEvent.signup u decoded (either name named) active (ground arith),
            ground (arith, pay_once-world event_signup_bonus (user_key u.id) u.id u.username w),
          )
        ]
      ]
    ]
  ]

  post-Paid :
      (name body : Bytes) (w : World D R)
      → Paid name body w (handle_post_event hooks service name body w).1
  unfolding handle_post_event
  post-Paid name body w = elim (Option-cases (hooks.unmarshal_post body)) [
    | inl bad ↦ inl (ground arith)
    | inr (p, decoded) ↦ elim (Bool-cases (name == post_created)) [
      | inr other ↦ inl (ground arith)
      | inl named ↦ elim (Bool-cases (leb_ℤ p.user_id (pos 0))) [
        | inl bad ↦ inl (ground arith)
        | inr real ↦ inr (
          event_first_post_ever,
          p.user_id,
          p.username,
          IsEvent.first_post p decoded ((bytes_eq.same_iff name post_created).0 named)
              (ground arith),
          ground (
            arith,
            pay_once-world event_first_post_ever (user_key p.user_id) p.user_id p.username w,
          ),
        )
      ]
    ]
  ]

  -- The world is as it was, or the request's body, up to its limit, is authentic and has paid for
  -- its event, under the key that names the user.
  abbrev pub IsPaidFor : Request → World D R → World D R → Type 0
  IsPaidFor r w w' =
      (w' ≡ w)
      ⊎ ((sent : Bytes) × (body : Bytes) × (r.body ≡ some sent)
          × (body ≡ take 1_048_576 sent)
          × IsAuthentic r body
          × (event_type : Bytes) × (to : ℤ) × (username : Bytes) × IsEvent (r.header event_header)
              body event_type to username
          × (w'
              ≡ (pay_reward_once service event_type (codes "user:" ++ decimal to) to username
                  event_type w).1))

  conclude :
      (r : Request) (sent : Bytes) (w w' handled : World D R) (body : Bytes)
      → r.body ≡ some sent
      → body ≡ take 1_048_576 sent
      → IsAuthentic r body
      → w' ≡ handled
      → Paid (r.header event_header) body w handled
      → IsPaidFor r w w'
  conclude r sent w w' handled body read cut shown e (inl same) = inl (e ∙ same)
  conclude r sent w w' handled body read cut shown e (inr (ty, to, username, event, p)) =
      inr (sent, body, read, cut, shown, ty, to, username, event, e ∙ p)

  -- A webhook leaves the service's world as it was, or its signature header carries the MAC,
  -- under the secret, of its body up to the limit of 1 MiB, that body is a created or activated user
  -- who is active, or a created post of a user, with a positive id, and it has called PayRewardOnce
  -- once, for that kind of event, under the key `user:` with the id, for that user.
  pub webhook-IsEvent : (r : Request) (w : World D R) → IsPaidFor r w (webhook hooks service r w).1
  unfolding webhook
  webhook-IsEvent r w = elim (Option-cases r.body) [
    | inl unread ↦ inl (ground arith)
    | inr (sent, read) ↦
        let body = take body_limit sent in
        elim (Bool-cases (verify_sig hooks service r body)) [
          | inr forged ↦ inl (ground arith)
          | inl authentic ↦
              let shown = verify_sig-IsAuthentic r body authentic in
              elim (Bool-cases (r.header type_header == user_type)) [
                | inl user ↦
                    conclude r sent w _ _ body read refl shown (ground arith)
                      (user-Paid (r.header event_header) body w)
                | inr other ↦ elim (Bool-cases (r.header type_header == post_type)) [
                  | inl post ↦
                      conclude r sent w _ _ body read refl shown (ground arith)
                        (post-Paid (r.header event_header) body w)
                  | inr unknown ↦ inl (ground arith)
                ]
              ]
        ]
  ]
