-- ===== src/Auth.antt =====
-- internal/auth/discourse_connect.go: the login through Discourse. A handler is a function of the
-- request, of the clock at each of its readings, and, for Login, of the random bytes drawn; its
-- value is the response it writes. HMAC-SHA-256, JSON, net/url and the folding of case are
-- parameters; hex.EncodeToString writes what the log's `hex` writes.
pub mod Handlers
pub mod Session
pub mod Flow
pub mod Complete
pub mod Tests
use discourse_points_system.Prelude.{
  ℕ, Bool, true, false, not, ◌&&◌, ◌||◌, Option, none, some, List, [], ◌∷◌, ◌++◌, Bytes, codes,
  ◌==◌, bytes_eq, if◌then◌else◌,
}
use discourse_points_system.Prelude.Int.{ℤ, pos, negsuc, ltb_ℤ, leb_ℤ, add64}
use discourse_points_system.Prelude.Dict.{Dict, lookup}
use discourse_points_system.Prelude.Exec.{Result, ok, err}
use discourse_points_system.Prelude.Text.{has_prefix, hex_decode, split_dot, parse_int64}
use discourse_points_system.Prelude.Base64.{Encoding, std, raw_url, base64_encode, base64_decode}
use discourse_points_system.TxLog.{hex}

pub record SessionToken : Type 0 where
  pub discourse_id : ℤ
  pub username : Bytes
  pub exp_unix : ℤ

pub record StateCookieValue : Type 0 where
  pub nonce : Bytes
  pub return : Bytes
  pub exp : ℤ

-- What url.Parse gives, of which the code reads two fields.
pub record Url : Type 0 where
  pub scheme : Bytes
  pub host : Bytes

-- url.Values
abbrev pub Values : Type 0
Values = Dict Bytes (List Bytes)

-- What the package calls.
pub record Codec : Type 0 where
  pub hmac_sha256 : Bytes → Bytes → Bytes
  pub marshal_session : SessionToken → Bytes
  pub unmarshal_session : Bytes → Option SessionToken
  pub marshal_state : StateCookieValue → Bytes
  pub unmarshal_state : Bytes → Option StateCookieValue
  pub encode_values : Values → Bytes
  pub parse_query : Bytes → Option Values
  pub parse_url : Bytes → Option Url
  pub equal_fold : Bytes → Bytes → Bool

pub record DiscourseConnect : Type 0 where
  pub secret : Bytes
  pub forum_base : Bytes
  pub callback_url : Bytes
  pub secure_cookies : Bool

-- What VerifySession and parseStateCookie refuse.
pub data AuthError : Type 0 where
  bad_format bad_sig_hex signature_mismatch bad_base64 bad_json expired : AuthError

-- http.Cookie; SameSite is Lax or unset.
pub record Cookie : Type 0 where
  pub name : Bytes
  pub value : Bytes
  pub path : Bytes
  pub max_age : ℤ
  pub http_only : Bool
  pub secure : Bool
  pub same_site_lax : Bool

-- What a handler writes: an error with its status, a redirection (302) behind its cookies, or no
-- content (204) behind its cookies.
pub data Response : Type 0 where
  refused : ℕ → Response
  found : List Cookie → Bytes → Response
  no_content : List Cookie → Response

unfoldable pub state_cookie_name : Bytes
state_cookie_name = codes "fp_oauth_state"

unfoldable pub session_cookie_name : Bytes
session_cookie_name = codes "fp_session"

abbrev pub state_cookie_max_age : ℤ
state_cookie_max_age = pos 600

-- sessionTTL, in seconds.
abbrev pub session_ttl : ℤ
session_ttl = pos 86_400

abbrev pub cookie_path : Bytes
cookie_path = codes "/wallet/"

-- values.Get
unfoldable pub get : Values → Bytes → Bytes
get values key = elim (lookup key values) [ some (v ∷ vs) ↦ v | _ ↦ [] ]

unfoldable pub cleared_state : Cookie
cleared_state = record {
  name = state_cookie_name;
  value = [];
  path = cookie_path;
  max_age = negsuc 0;
  http_only = false;
  secure = false;
  same_site_lax = false;
}

module _ (d : DiscourseConnect) where
  -- A cookie for the whole wallet that scripts do not see.
  unfoldable pub wallet_cookie : Bytes → Bytes → ℤ → Cookie
  wallet_cookie name value max_age = record {
    name = name;
    value = value;
    path = cookie_path;
    max_age = max_age;
    http_only = true;
    secure = d.secure_cookies;
    same_site_lax = true;
  }

  -- Logout
  unfoldable pub logout : Response
  unfolding wallet_cookie
  logout = no_content (wallet_cookie session_cookie_name [] (negsuc 0) ∷ [])

module _ (codec : Codec) where
  open codec use {
    hmac_sha256, marshal_session, unmarshal_session, marshal_state, unmarshal_state, encode_values,
    parse_query, parse_url, equal_fold,
  }

  unfoldable pub sign_session : SessionToken → Bytes → Bytes
  sign_session t secret =
      let enc = base64_encode raw_url (marshal_session t) in
      enc ++ b'.' ∷ hex (hmac_sha256 secret enc)

  -- VerifySession, at the time `now`.
  unfoldable pub verify_session : Bytes → Bytes → ℤ → Result AuthError SessionToken
  verify_session s secret now = elim (split_dot s) [
    | none ↦ err bad_format
    | some (enc, sig) ↦ elim (hex_decode sig) [
      | none ↦ err bad_sig_hex
      | some got ↦
          if not (got == hmac_sha256 secret enc)
          then err signature_mismatch
          else elim (base64_decode raw_url enc) [
            | none ↦ err bad_base64
            | some raw ↦ elim (unmarshal_session raw) [
              | none ↦ err bad_json
              | some tok ↦ if ltb_ℤ tok.exp_unix now then err expired else ok tok
            ]
          ]
    ]
  ]

  -- parseStateCookie, at the time `now`: the code is over the bytes, not over their base64.
  unfoldable pub parse_state_cookie : Bytes → Bytes → ℤ → Result AuthError StateCookieValue
  parse_state_cookie v secret now = elim (split_dot v) [
    | none ↦ err bad_format
    | some (enc, sig) ↦ elim (hex_decode sig) [
      | none ↦ err bad_sig_hex
      | some got ↦ elim (base64_decode raw_url enc) [
        | none ↦ err bad_base64
        | some raw ↦
            if not (got == hmac_sha256 secret raw)
            then err signature_mismatch
            else elim (unmarshal_state raw) [
              | none ↦ err bad_json
              | some s ↦ if ltb_ℤ s.exp now then err expired else ok s
            ]
      ]
    ]
  ]

  -- safeReturnURL
  unfoldable pub safe_return_url : Bytes → Bytes → Bytes
  safe_return_url raw forum_base = if raw == [] then forum_base else elim (parse_url raw) [
    | none ↦ forum_base
    | some u ↦
        if u.scheme == []
        then (if has_prefix raw (codes "/") && not (has_prefix raw (codes "//"))
            then raw
            else forum_base)
        else elim (parse_url forum_base) [
          | none ↦ forum_base
          | some base ↦
              if equal_fold u.scheme base.scheme && equal_fold u.host base.host
              then raw
              else forum_base
        ]
  ]
