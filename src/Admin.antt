-- ===== src/Admin.antt =====
-- internal/admin/server.go: the admin's login by a signed challenge, its session, and the guard of
-- the protected endpoints. HMAC-SHA-256, Ed25519, JSON, net/url and the folding of case are
-- parameters; a body comes decoded, `none` where it does not decode.
pub mod Handlers
pub mod Session
pub mod Access
pub mod Anchor
pub mod Config
pub mod Tests
use discourse_points_system.Prelude.{
  ℕ, Bool, true, false, not, ◌&&◌, ◌||◌, Option, none, some, List, [], ◌∷◌, ◌++◌, Bytes, codes,
  ◌==◌, bytes_eq, nat_eqb, length, if◌then◌else◌,
}
use discourse_points_system.Prelude.Int.{ℤ, pos, negsuc, ltb_ℤ, add64}
use discourse_points_system.Prelude.Exec.{Result, ok, err}
use discourse_points_system.Prelude.Text.{hex_decode, hex_prefix, split_dot}
use discourse_points_system.Prelude.Base64.{raw_url, base64_encode, base64_decode}
use discourse_points_system.TxLog.{hex}
use discourse_points_system.Auth.{Cookie, Url, cookie_path}

pub record ChallengeToken : Type 0 where
  pub nonce : Bytes
  pub exp : ℤ

pub record SessionToken : Type 0 where
  pub exp_unix : ℤ

-- What the package calls.
pub record Codec : Type 0 where
  pub hmac_sha256 : Bytes → Bytes → Bytes
  pub ed25519_verify : Bytes → Bytes → Bytes → Bool
  pub marshal_challenge : ChallengeToken → Bytes
  pub unmarshal_challenge : Bytes → Option ChallengeToken
  pub marshal_session : SessionToken → Bytes
  pub unmarshal_session : Bytes → Option SessionToken
  pub parse_url : Bytes → Option Url
  pub equal_fold : Bytes → Bytes → Bool

-- The fields of Service that the login reads.
pub record Service : Type 0 where
  pub admin_pub_key : Bytes
  pub session_secret : Bytes
  pub secure_cookies : Bool

pub record LoginReq : Type 0 where
  pub token : Bytes
  pub sig_hex : Bytes
  pub pubkey_hex : Bytes

-- What the guard reads of a request: its method, its host, the session cookie and the headers (an
-- absent one is empty).
pub record Request : Type 0 where
  pub method : Bytes
  pub host : Bytes
  pub session : Option Bytes
  pub header : Bytes → Bytes

-- What is written: an error with its status, a challenge with its nonce and token, a session with
-- its key, expiry and CSRF token, the admin's key with a CSRF token, or no content with a cookie.
pub data Response : Type 0 where
  refused : ℕ → Response
  challenge : Bytes → Bytes → Response
  logged_in : Cookie → Bytes → ℤ → Bytes → Response
  admin_is : Bytes → Bytes → Response
  no_content : Cookie → Response

-- What verifySession refuses.
pub data SessionError : Type 0 where
  bad_format signature_mismatch bad_base64 bad_json expired : SessionError

-- loginTTL and sessionTTL, in seconds.
abbrev pub login_ttl : ℤ
login_ttl = pos 300

abbrev pub session_ttl : ℤ
session_ttl = pos 3600

unfoldable pub cookie_name : Bytes
cookie_name = codes "fp_admin_session"

abbrev pub csrf_header : Bytes
csrf_header = codes "X-FP-CSRF"

abbrev pub origin_header : Bytes
origin_header = codes "Origin"

unfoldable pub session_cookie : Service → Bytes → ℤ → Cookie
session_cookie s value max_age = record {
  name = cookie_name;
  value = value;
  path = cookie_path;
  max_age = max_age;
  http_only = true;
  secure = s.secure_cookies;
  same_site_lax = true;
}

unfoldable pub logout : Service → Response
unfolding session_cookie
logout s = no_content (session_cookie s [] (negsuc 0))

unfoldable pub is_unsafe_method : Bytes → Bool
is_unsafe_method method =
    if (method == codes "GET") || (method == codes "HEAD") || (method == codes "OPTIONS")
    then false
    else true

-- The challenge for the 32 random bytes drawn.
abbrev pub new_challenge : Bytes → ℤ → ChallengeToken
new_challenge random now = record { nonce = hex random; exp = add64 now login_ttl }

module _ (codec : Codec) where
  open codec use {
    hmac_sha256, marshal_challenge, marshal_session, unmarshal_session, parse_url, equal_fold,
  }

  -- What a challenge and a session are written as: their base64 with its MAC.
  abbrev pub signed_text : Bytes → Bytes → Bytes
  signed_text secret j =
      let enc = base64_encode raw_url j in enc ++ b'.' ∷ hex (hmac_sha256 secret enc)

  -- loginChallenge
  unfoldable pub login_challenge : Service → Bytes → ℤ → Response
  login_challenge s random now =
      let tok = new_challenge random now in
      challenge tok.nonce (signed_text s.session_secret (marshal_challenge tok))

  unfoldable pub sign_session : SessionToken → Bytes → Bytes
  sign_session t secret = signed_text secret (marshal_session t)

  -- verifySession, at the time `now`; the decoder's error is dropped, not what it decoded.
  unfoldable pub verify_session : Bytes → Bytes → ℤ → Result SessionError SessionToken
  verify_session s secret now = elim (split_dot s) [
    | none ↦ err bad_format
    | some (enc, sig) ↦
        if not (hex_prefix sig == hmac_sha256 secret enc)
        then err signature_mismatch
        else elim (base64_decode raw_url enc) [
          | none ↦ err bad_base64
          | some raw ↦ elim (unmarshal_session raw) [
            | none ↦ err bad_json
            | some t ↦ if ltb_ℤ t.exp_unix now then err expired else ok t
          ]
        ]
  ]

  unfoldable pub csrf_token : Bytes → Bytes → Bytes
  csrf_token secret session = hex (hmac_sha256 secret (codes "csrf|" ++ session))

  unfoldable pub valid_csrf : Bytes → Bytes → Bytes → Bool
  unfolding csrf_token
  valid_csrf secret session got = got == csrf_token secret session

  unfoldable pub same_origin_write : Request → Bool
  same_origin_write r =
      if r.header origin_header == [] then true else elim (parse_url (r.header origin_header)) [
        | none ↦ false
        | some u ↦ equal_fold u.host r.host
      ]
