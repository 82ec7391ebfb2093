-- ===== src/Auth/Complete.antt =====
-- A login that Discourse answers in time completes, and the session it sets is accepted.
use discourse_points_system.Prelude.{
  ◌≡◌, ◌≢◌, refl, sym, ap, ◌∙◌, arith, Option, some, [], ◌∷◌, Bytes, codes, ◌==◌, bytes_eq,
  beq_refl, same→eq, if◌then◌else◌,
}
use discourse_points_system.Prelude.Int.{ℤ, pos, ◌≤ℤ◌, ◌+ℤ◌, add64, add64_lem, max_int64, int_laws}
use discourse_points_system.Prelude.Exec.{ok}
use discourse_points_system.Prelude.Text.{AllBytes, parse_int64}
use discourse_points_system.Prelude.Base64.{std, base64_encode}
use discourse_points_system.Prelude.Base64.RoundTrip.{base64_decode-encode}
use discourse_points_system.TxLog.{hex}
use discourse_points_system.TxLog.Hex.{hex_decode-hex}
use discourse_points_system.Auth.{
  Codec, DiscourseConnect, SessionToken, StateCookieValue, Values, Cookie, found, get,
  safe_return_url, cleared_state, verify_session, parse_state_cookie, session_ttl,
  state_cookie_max_age,
}
use discourse_points_system.Auth.Handlers.{
  login_state, state_cookie, login, session_cookie, accept_payload, callback,
}
use discourse_points_system.Auth.Session.{
  IsCodec, parse_state_cookie-ok, state_cookie-IsState, verify_session-sign_session,
}
use discourse_points_system.Auth.Flow.{minted_token}

-- What Discourse sends back for a user: the payload `raw` with the nonce it was sent.
pub record IsAnswer (codec : Codec) (nonce raw : Bytes) (values : Values) (id : ℤ) : Type 0 where
  pub raw_bytes : AllBytes raw
  pub raw_some : raw ≢ []
  pub query : codec.parse_query raw ≡ some values
  pub same_nonce : get values (codes "nonce") ≡ nonce
  pub user : parse_int64 (get values (codes "external_id")) ≡ some id
  pub positive : pos 1 ≤ℤ id
  pub named : get values (codes "username") ≢ []

hex-ne : (b : Bytes) → b ≢ [] → hex b ≢ []
unfolding hex
hex-ne [] h e = h refl
hex-ne (x ∷ b) h e = ground arith

base64_encode-ne : (b : Bytes) → b ≢ [] → base64_encode std b ≢ []
unfolding base64_encode
base64_encode-ne [] h e = h refl
base64_encode-ne (a ∷ []) h e = ground arith
base64_encode-ne (a ∷ b ∷ []) h e = ground arith
base64_encode-ne (a ∷ b ∷ c ∷ s) h e = ground arith

-- A time to live is added to a clock that is not at its end.
pub expiry :
    (began ttl now : ℤ)
    → pos 0 ≤ℤ began
    → pos 0 ≤ℤ ttl
    → (began +ℤ ttl) ≤ℤ max_int64
    → now ≤ℤ (began +ℤ ttl)
    → now ≤ℤ add64 began ttl
expiry began ttl now h i j k = let whole = add64_lem began ttl (grind int_laws, j) in rw whole k

module _ (codec : Codec) (d : DiscourseConnect) where
  safe_target :
      (raw : Bytes)
      → (if safe_return_url codec raw d.forum_base == []
          then d.forum_base
          else safe_return_url codec raw d.forum_base)
        ≡ safe_return_url codec raw d.forum_base
  unfolding safe_return_url
  safe_target raw = ground arith

  accept_payload-found :
      (values : Values) (text : Bytes) (now minted : ℤ) (state : StateCookieValue) (id : ℤ)
      → parse_state_cookie codec text d.secret now ≡ ok state
      → get values (codes "nonce") ≡ state.nonce
      → parse_int64 (get values (codes "external_id")) ≡ some id
      → pos 1 ≤ℤ id
      → get values (codes "username") ≢ []
      → accept_payload codec d values (some text) now minted
        ≡ found
            (session_cookie codec d (minted_token id values minted) ∷ cleared_state ∷ [])
            (if state.return == [] then d.forum_base else state.return)
  unfolding accept_payload
  accept_payload-found values text now minted state id p q r positive named = ground (
    arith,
    (bytes_eq.same_iff state.nonce (get values (codes "nonce"))).1 (sym q),
    same→eq (get values (codes "username")) [],
  )

  -- Callback on a payload signed with the secret.
  callback-signed :
      (raw : Bytes) (values : Values) (text : Option Bytes) (now minted : ℤ)
      → IsCodec codec
      → AllBytes raw
      → raw ≢ []
      → codec.parse_query raw ≡ some values
      → callback codec d
          (base64_encode std raw)
          (hex (codec.hmac_sha256 d.secret (base64_encode std raw)))
          text
          now
          minted
        ≡ accept_payload codec d values text now minted
  unfolding callback
  callback-signed raw values text now minted good bytes some_raw q =
      let sso = base64_encode std raw in
      let code = codec.hmac_sha256 d.secret sso in
      ground (
        arith,
        hex-ne code (good.mac_some d.secret sso),
        base64_encode-ne raw some_raw,
        hex_decode-hex code (good.mac_bytes d.secret sso),
        base64_decode-encode std raw bytes,
        beq_refl code,
        same→eq sso [],
        same→eq (hex code) [],
      )

  accept_payload-login :
      (random return raw : Bytes) (began now minted : ℤ) (text : Bytes) (values : Values) (id : ℤ)
      → parse_state_cookie codec text d.secret now ≡ ok (login_state codec d random return began)
      → IsAnswer codec (hex random) raw values id
      → accept_payload codec d values (some text) now minted
        ≡ found
            (session_cookie codec d (minted_token id values minted) ∷ cleared_state ∷ [])
            (safe_return_url codec return d.forum_base)
  unfolding login_state
  accept_payload-login random return raw began now minted text values id p answer =
      accept_payload-found values text now minted (login_state codec d random return began) id p
        answer.same_nonce answer.user answer.positive answer.named
      ∙ ap (found (session_cookie codec d (minted_token id values minted) ∷ cleared_state ∷ []))
          (safe_target return)

  login_cookie :
      (random return : Bytes) (began : ℤ) (cookie : Cookie) (url : Bytes)
      → login codec d random return began ≡ found (cookie ∷ []) url
      → cookie ≡ state_cookie codec d (login_state codec d random return began)
  unfolding login
  login_cookie random return began cookie url h = ground arith

  login_in_time :
      (random return : Bytes) (began now : ℤ)
      → pos 0 ≤ℤ began
      → (began +ℤ state_cookie_max_age) ≤ℤ max_int64
      → now ≤ℤ (began +ℤ state_cookie_max_age)
      → now ≤ℤ (login_state codec d random return began).exp
  unfolding login_state
  login_in_time random return began now h i j =
      expiry began state_cookie_max_age now h (omega arith) i j

  verify_session-session_cookie :
      (good : IsCodec codec) (tok : SessionToken) (seen : ℤ)
      → codec.unmarshal_session (codec.marshal_session tok) ≡ some tok
      → seen ≤ℤ tok.exp_unix
      → verify_session codec (session_cookie codec d tok).value d.secret seen ≡ ok tok
  unfolding session_cookie
  verify_session-session_cookie good tok seen back in_time =
      verify_session-sign_session codec good tok d.secret seen back in_time

  -- Let Login, for random bytes and a parameter `return`, redirect with one cookie, and let a
  -- payload answer its nonce for a user with a positive id and a name, signed with the secret. Let
  -- the MACs and encodings be bytes, no MAC be empty, JSON read back this state and this token, the
  -- clocks not be negative, and the two expiry times be int64. Then Callback, with that cookie and
  -- within 600 seconds, sets the session cookie for the user, clears the state cookie and redirects
  -- to the safe return URL; and VerifySession accepts that session cookie as the user's until
  -- 86400 seconds after it was minted.
  pub login_completes :
      (good : IsCodec codec) (random return : Bytes) (began now minted seen : ℤ) (cookie : Cookie)
      (url raw : Bytes) (values : Values) (id : ℤ)
      (login_is : login codec d random return began ≡ found (cookie ∷ []) url)
      (answer : IsAnswer codec (hex random) raw values id)
      (state_back : codec.unmarshal_state
          (codec.marshal_state (login_state codec d random return began))
        ≡ some (login_state codec d random return began))
      (token_back : codec.unmarshal_session (codec.marshal_session (minted_token id values minted))
        ≡ some (minted_token id values minted))
      (began_pos : pos 0 ≤ℤ began) (minted_pos : pos 0 ≤ℤ minted)
      (in_range : began +ℤ state_cookie_max_age ≤ℤ max_int64)
      (in_range' : minted +ℤ session_ttl ≤ℤ max_int64)
      (in_time : now ≤ℤ (began +ℤ state_cookie_max_age))
      (in_session : seen ≤ℤ (minted +ℤ session_ttl))
      → (callback codec d
            (base64_encode std raw)
            (hex (codec.hmac_sha256 d.secret (base64_encode std raw)))
            (some cookie.value)
            now
            minted
          ≡ found
              (session_cookie codec d (minted_token id values minted) ∷ cleared_state ∷ [])
              (safe_return_url codec return d.forum_base))
        × (verify_session codec
              (session_cookie codec d (minted_token id values minted)).value
              d.secret
              seen
            ≡ ok (minted_token id values minted))
  login_completes good random return began now minted seen cookie url raw values id login_is answer
        state_back token_back began_pos minted_pos in_range in_range' in_time in_session =
      let state = login_state codec d random return began in
      let tok = minted_token id values minted in
      let cookie_is : cookie ≡ state_cookie codec d state =
        login_cookie random return began cookie url login_is in
      let stashed =
        state_cookie-IsState codec good d state now state_back
          (login_in_time random return began now began_pos in_range in_time) in
      let read =
        parse_state_cookie-ok codec (state_cookie codec d state).value d.secret now state stashed in
      (
        rw cookie_is (
            callback-signed raw values (some (state_cookie codec d state).value) now minted good
              answer.raw_bytes answer.raw_some answer.query
            ∙ accept_payload-login random return raw began now minted
                (state_cookie codec d state).value values id read answer),
        verify_session-session_cookie good tok seen token_back
            (expiry minted session_ttl seen minted_pos (omega arith) in_range' in_session),
      )
