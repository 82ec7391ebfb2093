-- ===== src/Api/CurrentUser.antt =====
-- internal/api/server.go: the user of a request, by the session cookie or, with the token for
-- development, by headers.
use discourse_points_system.Prelude.{
  Bool, false, not, ◌&&◌, Option, none, some, [], Bytes, codes, bytes_eq, ◌==◌, length, nat_eqb,
  if◌then◌else◌, ◌≡◌, ◌≢◌, ◌⊎◌, inl, inr, arith, same→eq, Option-cases,
}
use discourse_points_system.Prelude.Int.{ℤ, pos, leb_ℤ, ◌≤ℤ◌}
use discourse_points_system.Prelude.Exec.{ok, err, Result-cases}
use discourse_points_system.Prelude.Text.{parse_int64}
use discourse_points_system.Auth.{Codec, DiscourseConnect, SessionToken, verify_session}
use discourse_points_system.Auth.Session.{IsSession, verify_session_inv}

-- The fields of Server that say who a user is.
pub record Identity : Type 0 where
  pub dc : Option DiscourseConnect
  pub dev_header_auth_token : Bytes

-- What is read of a request: the session cookie and the headers (an absent one is empty).
pub record Credentials : Type 0 where
  pub session : Option Bytes
  pub header : Bytes → Bytes

abbrev pub dev_auth_header : Bytes
dev_auth_header = codes "X-Wallet-Dev-Auth"

abbrev pub user_id_header : Bytes
user_id_header = codes "X-Discourse-User-Id"

abbrev pub username_header : Bytes
username_header = codes "X-Discourse-Username"

-- subtle.ConstantTimeCompare gives 1 on equal bytes.
unfoldable pub constant_time_string_equal : Bytes → Bytes → Bool
constant_time_string_equal a b = if not (nat_eqb (length a) (length b)) then false else a == b

unfoldable pub resolve_header_user : (Bytes → Bytes) → Option (ℤ × Bytes)
resolve_header_user header =
    if header user_id_header == []
    then none
    else if header username_header == []
    then none
    else elim (parse_int64 (header user_id_header)) [
      | none ↦ none
      | some id ↦ if leb_ℤ id (pos 0) then none else some (id, header username_header)
    ]

module _ (codec : Codec) where
  -- The user of a session cookie, where login is enabled.
  unfoldable pub session_user : Option DiscourseConnect → Option Bytes → ℤ → Option (ℤ × Bytes)
  session_user none cookie now = none
  session_user (some d) none now = none
  session_user (some d) (some cookie) now = elim (verify_session codec cookie d.secret now) [
    | err e ↦ none
    | ok tok ↦ some (tok.discourse_id, tok.username)
  ]

  -- resolveCurrentUser
  unfoldable pub resolve_current_user : Identity → Credentials → ℤ → Option (ℤ × Bytes)
  unfolding session_user resolve_header_user constant_time_string_equal
  resolve_current_user server r now = elim (session_user server.dc r.session now) [
    | some user ↦ some user
    | none ↦
        if not (server.dev_header_auth_token == [])
          && constant_time_string_equal (r.header dev_auth_header) server.dev_header_auth_token
        then resolve_header_user r.header
        else none
  ]

  -- A session cookie that a holder of the secret signed for this user, in time.
  pub record IsLoggedIn (server : Identity) (r : Credentials) (now id : ℤ) (name : Bytes)
      : Type 0 where
    pub d : DiscourseConnect
    pub cookie : Bytes
    pub tok : SessionToken
    pub enabled : server.dc ≡ some d
    pub sent : r.session ≡ some cookie
    pub session : IsSession codec d.secret cookie now tok
    pub user : tok.discourse_id ≡ id
    pub named : tok.username ≡ name

  session_user_inv :
      (server : Identity) (r : Credentials) (now id : ℤ) (name : Bytes)
      → session_user server.dc r.session now ≡ some (id, name)
      → IsLoggedIn server r now id name
  unfolding session_user
  session_user_inv server r now id name h = elim (Option-cases server.dc) [
    | inl e ↦ absurd (ground arith)
    | inr (d, e) ↦ elim (Option-cases r.session) [
      | inl f ↦ absurd (ground arith)
      | inr (cookie, f) ↦ elim (Result-cases (verify_session codec cookie d.secret now)) [
        | inr (x, g) ↦ absurd (ground arith)
        | inl (tok, g) ↦ record {
          d = d;
          cookie = cookie;
          tok = tok;
          enabled = e;
          sent = f;
          session = verify_session_inv codec cookie d.secret now tok g;
          user = ground arith;
          named = ground arith;
        }
      ]
    ]
  ]

-- The token for development, which is set, and headers with an id and a name.
pub record IsDeveloper (server : Identity) (r : Credentials) (id : ℤ) (name : Bytes) : Type 0 where
  pub token_set : server.dev_header_auth_token ≢ []
  pub token_sent : r.header dev_auth_header ≡ server.dev_header_auth_token
  pub user : parse_int64 (r.header user_id_header) ≡ some id
  pub positive : pos 1 ≤ℤ id
  pub named : r.header username_header ≡ name
  pub name_some : name ≢ []

resolve_header_user_inv :
    (server : Identity) (r : Credentials) (id : ℤ) (name : Bytes)
    → server.dev_header_auth_token ≢ []
    → r.header dev_auth_header ≡ server.dev_header_auth_token
    → resolve_header_user r.header ≡ some (id, name)
    → IsDeveloper server r id name
unfolding resolve_header_user
resolve_header_user_inv server r id name set sent h =
    elim (Option-cases (parse_int64 (r.header user_id_header))) [
      | inl e ↦ absurd (ground arith)
      | inr (i, e) ↦ record {
        token_set = set;
        token_sent = sent;
        user = ground arith;
        positive = ground arith;
        named = ground arith;
        name_some =
            λ p. absurd (ground (arith, (bytes_eq.same_iff (r.header username_header) []).1));
      }
    ]

module _ (codec : Codec) where
  -- Where a request has a user, then either login is enabled and its session cookie is a text with a
  -- MAC under the login's secret, of a token for this user, not expired; or the token for
  -- development is set, the request sends it, and its headers give this positive id and this name.
  pub resolve_current_user-IsLoggedIn :
      (server : Identity) (r : Credentials) (now id : ℤ) (name : Bytes)
      → resolve_current_user codec server r now ≡ some (id, name)
      → IsLoggedIn codec server r now id name ⊎ IsDeveloper server r id name
  unfolding resolve_current_user
  resolve_current_user-IsLoggedIn server r now id name h =
      elim (Option-cases (session_user codec server.dc r.session now)) [
        | inr (user, e) ↦ inl (session_user_inv codec server r now id name (ground arith))
        | inl e ↦ inr (
            resolve_header_user_inv server r id name
              (λ p.
                absurd (ground (arith, (bytes_eq.same_iff server.dev_header_auth_token []).1 p)))
              (ground (arith, same→eq (r.header dev_auth_header) server.dev_header_auth_token))
              (ground arith))
      ]
