-- ===== src/Auth/Handlers.antt =====
-- internal/auth/discourse_connect.go, the handlers Login and Callback.
use discourse_points_system.Prelude.{
  not, ◌||◌, Option, none, some, [], ◌∷◌, ◌++◌, Bytes, codes, ◌==◌, bytes_eq, if◌then◌else◌,
}
use discourse_points_system.Prelude.Int.{ℤ, pos, leb_ℤ, add64}
use discourse_points_system.Prelude.Exec.{ok, err}
use discourse_points_system.Prelude.Text.{hex_decode, parse_int64}
use discourse_points_system.Prelude.Base64.{std, raw_url, base64_encode, base64_decode}
use discourse_points_system.TxLog.{hex}
use discourse_points_system.Auth.{
  SessionToken, StateCookieValue, Values, Codec, DiscourseConnect, Cookie, Response, refused, found,
  state_cookie_name, session_cookie_name, state_cookie_max_age, session_ttl, get, cleared_state,
  wallet_cookie, sign_session, parse_state_cookie, safe_return_url,
}

module _ (codec : Codec) (d : DiscourseConnect) where
  open codec use {hmac_sha256, marshal_state, encode_values, parse_query}
  open d use {secret, forum_base, callback_url}

  -- The state that Login stashes, for the random bytes and the parameter `return`.
  unfoldable pub login_state : Bytes → Bytes → ℤ → StateCookieValue
  unfolding safe_return_url
  login_state random return now = record {
    nonce = hex random;
    return = safe_return_url codec return forum_base;
    exp = add64 now state_cookie_max_age;
  }

  unfoldable pub state_cookie : StateCookieValue → Cookie
  unfolding wallet_cookie
  state_cookie state =
      let b = marshal_state state in
      wallet_cookie d state_cookie_name
        (base64_encode raw_url b ++ b'.' ∷ hex (hmac_sha256 secret b)) state_cookie_max_age

  -- Login
  unfoldable pub login : Bytes → Bytes → ℤ → Response
  unfolding login_state state_cookie
  login random return now =
      let state = login_state random return now in
      let payload : Values =
        (codes "nonce", state.nonce ∷ []) ∷ (codes "return_sso_url", callback_url ∷ []) ∷ [] in
      let encoded = base64_encode std (encode_values payload) in
      let sig = hex (hmac_sha256 secret encoded) in
      let q : Values = (codes "sso", encoded ∷ []) ∷ (codes "sig", sig ∷ []) ∷ [] in
      found (state_cookie state ∷ [])
        (forum_base ++ (codes "/session/sso_provider?" ++ encode_values q))

  unfoldable pub session_cookie : SessionToken → Cookie
  unfolding wallet_cookie sign_session
  session_cookie tok =
      wallet_cookie d session_cookie_name (sign_session codec tok secret) session_ttl

  -- Callback once the payload's signature is checked, with the cookie, at its two readings of
  -- the clock.
  unfoldable pub accept_payload : Values → Option Bytes → ℤ → ℤ → Response
  unfolding session_cookie cleared_state parse_state_cookie get
  accept_payload values none now minted = refused 401
  accept_payload values (some cookie) now minted =
      elim (parse_state_cookie codec cookie secret now) [
        | err e ↦ refused 401
        | ok state ↦
            if not (state.nonce == get values (codes "nonce"))
            then refused 401
            else elim (parse_int64 (get values (codes "external_id"))) [
              | none ↦ refused 400
              | some id ↦
                  if leb_ℤ id (pos 0)
                  then refused 400
                  else if get values (codes "username") == []
                  then refused 400
                  else (let tok : SessionToken = record {
                    discourse_id = id;
                    username = get values (codes "username");
                    exp_unix = add64 minted session_ttl;
                  } in
                      found (session_cookie tok ∷ cleared_state ∷ [])
                        (if state.return == [] then forum_base else state.return))
            ]
      ]

  -- Callback, with the parameters `sso` and `sig` and the state cookie.
  unfoldable pub callback : Bytes → Bytes → Option Bytes → ℤ → ℤ → Response
  unfolding accept_payload
  callback sso sig cookie now minted =
      if sso == [] || sig == [] then refused 400 else elim (hex_decode sig) [
        | none ↦ refused 400
        | some got ↦
            if not (got == hmac_sha256 secret sso)
            then refused 401
            else elim (base64_decode std sso) [
              | none ↦ refused 400
              | some raw ↦ elim (parse_query raw) [
                | none ↦ refused 400
                | some values ↦ accept_payload values cookie now minted
              ]
            ]
      ]
