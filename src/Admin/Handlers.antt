-- ===== src/Admin/Handlers.antt =====
-- internal/admin/server.go, the handlers login and whoami and the guard of the protected endpoints.
use discourse_points_system.Prelude.{
  ℕ, not, Option, none, some, Bytes, ◌==◌, bytes_eq, nat_eqb, length, if◌then◌else◌,
}
use discourse_points_system.Prelude.Int.{ℤ, ltb_ℤ, add64}
use discourse_points_system.Prelude.Exec.{ok, err}
use discourse_points_system.Prelude.Text.{hex_decode, hex_prefix, split_dot}
use discourse_points_system.Prelude.Base64.{raw_url, base64_decode}
use discourse_points_system.TxLog.{hex}
use discourse_points_system.Admin.{
  Codec, Service, ChallengeToken, SessionToken, LoginReq, Request, Response, refused, logged_in,
  admin_is, session_ttl, csrf_header, session_cookie, sign_session, verify_session, csrf_token,
  valid_csrf, same_origin_write, is_unsafe_method,
}

module _ (codec : Codec) where
  open codec use {hmac_sha256, ed25519_verify, unmarshal_challenge}

  -- The end of `login`: the session that is minted, at a second reading of the clock.
  unfoldable pub open_session : Service → Bytes → ℤ → Response
  unfolding sign_session csrf_token session_cookie
  open_session s pubkey_hex minted =
      let sess : SessionToken = record { exp_unix = add64 minted session_ttl } in
      let value = sign_session codec sess s.session_secret in
      logged_in (session_cookie s value session_ttl) pubkey_hex sess.exp_unix
        (csrf_token codec s.session_secret value)

  -- `login` once the token is checked: the key and the signature of the nonce.
  unfoldable pub check_signature : Service → LoginReq → ChallengeToken → ℤ → Response
  unfolding open_session
  check_signature s req tok minted = elim (hex_decode req.pubkey_hex) [
    | none ↦ refused 400
    | some pub_bytes ↦
        if not (nat_eqb (length pub_bytes) 32)
        then refused 400
        else if not (pub_bytes == s.admin_pub_key)
        then refused 403
        else elim (hex_decode req.sig_hex) [
          | none ↦ refused 400
          | some sig ↦
              if not (nat_eqb (length sig) 64)
              then refused 400
              else if not (ed25519_verify pub_bytes (hex_prefix tok.nonce) sig)
              then refused 401
              else open_session s req.pubkey_hex minted
        ]
  ]

  -- login, at its two readings of the clock.
  unfoldable pub login : Service → Option LoginReq → ℤ → ℤ → Response
  unfolding check_signature
  login s none now minted = refused 400
  login s (some req) now minted = elim (split_dot req.token) [
    | none ↦ refused 400
    | some (enc, sig) ↦
        if not (hex_prefix sig == hmac_sha256 s.session_secret enc)
        then refused 401
        else elim (base64_decode raw_url enc) [
          | none ↦ refused 400
          | some raw ↦ elim (unmarshal_challenge raw) [
            | none ↦ refused 400
            | some tok ↦ if ltb_ℤ tok.exp now then refused 401 else check_signature s req tok minted
          ]
        ]
  ]

  -- adminSessionCookie: the value of the cookie, if it is there and verifies.
  unfoldable pub admin_session_cookie : Service → Request → ℤ → Option Bytes
  unfolding verify_session
  admin_session_cookie s r now = elim r.session [
    | none ↦ none
    | some c ↦ elim (verify_session codec c s.session_secret now) [ err e ↦ none | ok t ↦ some c ]
  ]

  unfoldable pub whoami : Service → Request → ℤ → Response
  unfolding admin_session_cookie csrf_token
  whoami s r now = elim (admin_session_cookie s r now) [
    | none ↦ refused 401
    | some c ↦ admin_is (hex s.admin_pub_key) (csrf_token codec s.session_secret c)
  ]

  -- requireAdmin: `next` is what the endpoint answers.
  unfoldable pub require_admin : {A : Type 0} → Service → (ℕ → A) → A → Request → ℤ → A
  unfolding admin_session_cookie is_unsafe_method same_origin_write valid_csrf
  require_admin s write_err next r now = elim (admin_session_cookie s r now) [
    | none ↦ write_err 401
    | some c ↦
        if is_unsafe_method r.method
        then (if not (same_origin_write codec r)
            then write_err 403
            else if not (valid_csrf codec s.session_secret c (r.header csrf_header))
            then write_err 403
            else next)
        else next
  ]
