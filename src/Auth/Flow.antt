-- ===== src/Auth/Flow.antt =====
-- Login and Callback together: what a sign-in shows, and that a login that Discourse answers
-- completes.
use discourse_points_system.Prelude.{
  ◌≡◌, ◌≢◌, refl, arith, Option, none, some, List, [], ◌∷◌, Bytes, codes, ◌==◌, bytes_eq, same→eq,
  if◌then◌else◌, inl, inr, Option-cases,
}
use discourse_points_system.Prelude.Int.{ℤ, pos, ◌≤ℤ◌, add64}
use discourse_points_system.Prelude.Exec.{Result-cases}
use discourse_points_system.Prelude.Text.{hex_decode, parse_int64}
use discourse_points_system.Prelude.Base64.{std, base64_decode}
use discourse_points_system.Auth.{
  Codec, DiscourseConnect, SessionToken, StateCookieValue, Values, Cookie, found, get,
  cleared_state, parse_state_cookie, session_ttl,
}
use discourse_points_system.Auth.Handlers.{session_cookie, accept_payload, callback}
use discourse_points_system.Auth.Session.{IsState, parse_state_cookie_inv}

-- The token that Callback mints.
abbrev pub minted_token : ℤ → Values → ℤ → SessionToken
minted_token id values minted = record {
  discourse_id = id;
  username = get values (codes "username");
  exp_unix = add64 minted session_ttl;
}

-- A payload that answers the nonce of a state cookie that Login signed, in time, for a user with an
-- id and a name.
pub record IsAccepted (codec : Codec) (d : DiscourseConnect) (values : Values)
    (cookie : Option Bytes) (now minted : ℤ) (cookies : List Cookie) (url : Bytes) : Type 0 where
  pub text : Bytes
  pub state : StateCookieValue
  pub id : ℤ
  pub sent : cookie ≡ some text
  pub stashed : IsState codec d.secret text now state
  pub same_nonce : state.nonce ≡ get values (codes "nonce")
  pub user : parse_int64 (get values (codes "external_id")) ≡ some id
  pub positive : pos 1 ≤ℤ id
  pub named : get values (codes "username") ≢ []
  pub cookies_are :
      cookies ≡ session_cookie codec d (minted_token id values minted) ∷ cleared_state ∷ []
  pub target : url ≡ (if state.return == [] then d.forum_base else state.return)

-- The same behind a signature of Discourse.
pub record IsSignIn (codec : Codec) (d : DiscourseConnect) (sso sig : Bytes) (cookie : Option Bytes)
    (now minted : ℤ) (cookies : List Cookie) (url : Bytes) : Type 0 where
  pub raw : Bytes
  pub values : Values
  pub signed : hex_decode sig ≡ some (codec.hmac_sha256 d.secret sso)
  pub decoded : base64_decode std sso ≡ some raw
  pub query : codec.parse_query raw ≡ some values
  pub accepted : IsAccepted codec d values cookie now minted cookies url

module _ (codec : Codec) (d : DiscourseConnect) where
  accept_payload_inv :
      (values : Values) (cookie : Option Bytes) (now minted : ℤ) (cookies : List Cookie)
      (url : Bytes)
      → accept_payload codec d values cookie now minted ≡ found cookies url
      → IsAccepted codec d values cookie now minted cookies url
  unfolding accept_payload
  accept_payload_inv values none now minted cookies url h = absurd (ground arith)
  accept_payload_inv values (some text) now minted cookies url h =
      elim (Result-cases (parse_state_cookie codec text d.secret now)) [
        | inr (e, p) ↦ absurd (ground arith)
        | inl (state, p) ↦ elim (Option-cases (parse_int64 (get values (codes "external_id")))) [
          | inl q ↦ absurd (ground arith)
          | inr (id, q) ↦ record {
            text = text;
            state = state;
            id = id;
            sent = refl;
            stashed = parse_state_cookie_inv codec text d.secret now state p;
            same_nonce = ground (arith, same→eq state.nonce (get values (codes "nonce")));
            user = q;
            positive = ground arith;
            named = λ p.
                absurd (ground (arith, (bytes_eq.same_iff (get values (codes "username")) []).1 p));
            cookies_are = ground arith;
            target = ground arith;
          }
        ]
      ]

  -- Where Callback redirects, for any parameters, cookie and clocks, `sig` is the MAC of `sso` under
  -- the shared secret; the state cookie carries a MAC under that secret, is in time and has the nonce
  -- of the payload; the payload names a user with a positive id and a name; and the cookies set are
  -- that user's session, for 86400 seconds, and the cleared state.
  pub callback-IsSignIn :
      (sso sig : Bytes) (cookie : Option Bytes) (now minted : ℤ) (cookies : List Cookie)
      (url : Bytes)
      → callback codec d sso sig cookie now minted ≡ found cookies url
      → IsSignIn codec d sso sig cookie now minted cookies url
  unfolding callback
  callback-IsSignIn sso sig cookie now minted cookies url h = elim (Option-cases (hex_decode sig)) [
    | inl e ↦ absurd (ground arith)
    | inr (got, e) ↦ elim (Option-cases (base64_decode std sso)) [
      | inl f ↦ absurd (ground arith)
      | inr (raw, f) ↦ elim (Option-cases (codec.parse_query raw)) [
        | inl g ↦ absurd (ground arith)
        | inr (values, g) ↦ record {
          raw = raw;
          values = values;
          signed = ground (arith, same→eq got (codec.hmac_sha256 d.secret sso));
          decoded = f;
          query = g;
          accepted = accept_payload_inv values cookie now minted cookies url (ground arith);
        }
      ]
    ]
  ]
