-- ===== src/Admin/Tests.antt =====
-- The admin's login on a small codec, and the theorems applied to it.
use discourse_points_system.Prelude.{
  ◌+◌, ◌≡◌, refl, arith, true, false, Option, none, some, [], ◌∷◌, Bytes, codes, bytes_eqb,
  replicate, length, if◌then◌else◌, ◌==◌, bytes_eq,
}
use discourse_points_system.Prelude.Int.{pos, ◌+ℤ◌, add64, wrap64}
use discourse_points_system.Prelude.Exec.{ok, err}
use discourse_points_system.Prelude.Text.{hex_decode, hex_prefix, split_dot}
use discourse_points_system.Prelude.Base64.{base64_encode, base64_decode}
use discourse_points_system.TxLog.{hex}
use discourse_points_system.Auth.{Cookie}
use discourse_points_system.Auth.Tests.{
  sum, byte, low_bytes, put_time, get_time, low_bytes-AllBytes,
}
use discourse_points_system.Admin.{
  Codec, Service, ChallengeToken, SessionToken, LoginReq, Request, challenge, logged_in,
  signed_text, new_challenge, login_challenge, sign_session, session_cookie, session_ttl,
  csrf_token, csrf_header, admin_is,
}
use discourse_points_system.Admin.Handlers.{whoami, require_admin, login}
use discourse_points_system.Prelude.Dict.{lookup}
use discourse_points_system.Store.RewardEvents.{RewardTables, get_reward_amount}
use discourse_points_system.Admin.Config.{
  UpdateRewardReq, update_reward_config, update-get_reward_amount,
}
use discourse_points_system.Admin.Session.{IsCodec}
use discourse_points_system.Admin.Access.{
  IsAdmitted, IsLogin, through, challenge_admits, login-IsLogin, require_admin-IsAdmitted,
}

abbrev read_session : Bytes → Option SessionToken
read_session (a ∷ b ∷ c ∷ rest) = some (record { exp_unix = get_time a b c })
read_session _ = none

abbrev read_challenge : Bytes → Option ChallengeToken
read_challenge (a ∷ b ∷ c ∷ rest) = some (record { nonce = rest; exp = get_time a b c })
read_challenge _ = none

abbrev small_codec : Codec
small_codec = record {
  hmac_sha256 = λ key msg. byte (sum key + sum msg) ∷ byte (length msg) ∷ [];
  ed25519_verify = λ key msg sig. bytes_eqb sig (replicate 64 (byte (sum key + sum msg)));
  marshal_challenge = λ t. put_time t.exp (low_bytes t.nonce);
  unmarshal_challenge = read_challenge;
  marshal_session = λ t. put_time t.exp_unix [];
  unmarshal_session = read_session;
  parse_url = λ raw. none;
  equal_fold = bytes_eqb;
}

small_codec-IsCodec : IsCodec small_codec
small_codec-IsCodec = record {
  mac_bytes = λ key msg. (omega arith, (omega arith, tt));
  challenge_bytes = λ t. (omega arith, (omega arith, (omega arith, low_bytes-AllBytes t.nonce)));
  session_bytes = λ t. (omega arith, (omega arith, (omega arith, tt)));
}

abbrev admin_key : Bytes
admin_key = replicate 32 7

abbrev console : Service
console = record {
  admin_pub_key = admin_key;
  session_secret = codes "secret";
  secure_cookies = true;
}

-- The challenge of time 1000, for the random byte 7.
abbrev token : Bytes
token =
    signed_text small_codec console.session_secret
      (small_codec.marshal_challenge (record { nonce = codes "07"; exp = pos 1300 }))

abbrev headers : Bytes → Bytes → Bytes
headers csrf name = if name == csrf_header then csrf else []

-- A write with the token of the challenge in place of a session.
abbrev intruder : Request
intruder = record {
  method = codes "POST";
  host = codes "forum";
  session = some token;
  header = headers (csrf_token small_codec console.session_secret token);
}

issued : login_challenge small_codec console (7 ∷ []) (pos 1000) ≡ challenge (codes "07") token
unfolding login_challenge add64 wrap64 ◌+ℤ◌ hex
issued = refl

ignores :
    read_session (small_codec.marshal_challenge (new_challenge (7 ∷ []) (pos 1000)))
    ≡ some (record { exp_unix = (new_challenge (7 ∷ []) (pos 1000)).exp })
unfolding add64 wrap64 ◌+ℤ◌
ignores = refl

no_origin : intruder.header (codes "Origin") ≡ []
unfolding bytes_eqb
no_origin = refl

own_csrf : intruder.header csrf_header ≡ csrf_token small_codec console.session_secret token
unfolding bytes_eqb
own_csrf = refl

challenge_admits_example :
    (whoami small_codec console intruder (pos 1200)
      ≡ admin_is (hex admin_key) (csrf_token small_codec console.session_secret token))
    × (require_admin small_codec console err through intruder (pos 1200) ≡ through)
unfolding ◌+ℤ◌
challenge_admits_example =
    challenge_admits small_codec console small_codec-IsCodec (7 ∷ []) (pos 1000) (pos 1200)
      (codes "07") token intruder err through ignores (omega arith) (omega arith) (omega arith)
      issued refl no_origin own_csrf

abbrev req : LoginReq
req = record {
  token = token;
  sig_hex = hex (replicate 64 (byte (sum admin_key + sum (7 ∷ []))));
  pubkey_hex = hex admin_key;
}

abbrev value : Bytes
value =
    sign_session small_codec (record { exp_unix = add64 (pos 1100) session_ttl })
      console.session_secret

abbrev cookie : Cookie
cookie = session_cookie console value session_ttl

opens :
    login small_codec console (some req) (pos 1099) (pos 1100)
    ≡ logged_in cookie
        (hex admin_key)
        (add64 (pos 1100) session_ttl)
        (csrf_token small_codec console.session_secret value)
unfolding login hex split_dot hex_prefix bytes_eqb base64_decode base64_encode hex_decode
opens = refl

login-IsLogin_example : IsLogin small_codec console req (pos 1099) (pos 1100) cookie
login-IsLogin_example =
    login-IsLogin small_codec console req (pos 1099) (pos 1100) cookie (hex admin_key)
      (csrf_token small_codec console.session_secret value) (add64 (pos 1100) session_ttl) opens

abbrev write : Request
write = record {
  method = codes "POST";
  host = codes "forum";
  session = some value;
  header = headers (csrf_token small_codec console.session_secret value);
}

admitted : require_admin small_codec console err through write (pos 2000) ≡ through
unfolding require_admin sign_session csrf_token add64 wrap64 ◌+ℤ◌ hex split_dot hex_prefix bytes_eqb
    base64_decode base64_encode
admitted = refl

require_admin-IsAdmitted_example : IsAdmitted small_codec console write (pos 2000)
require_admin-IsAdmitted_example =
    require_admin-IsAdmitted small_codec console write (pos 2000) admitted

abbrev tables : RewardTables
tables = record {
  events = [];
  config = (codes "signup_bonus", record { amount = pos 100; enabled = true }) ∷ [];
  now = 5;
}

abbrev update : UpdateRewardReq
update = record { event_type = codes "quality_post"; amount = pos 500; enabled = false }

updated : (update_reward_config (some update) tables).0 ≡ 200
unfolding update_reward_config lookup bytes_eqb
updated = refl

update-get_reward_amount_example :
    (get_reward_amount (codes "signup_bonus") (update_reward_config (some update) tables).1).0 ≡ (
      if codes "signup_bonus" == update.event_type
      then ok (update.amount, update.enabled)
      else (get_reward_amount (codes "signup_bonus") tables).0)
update-get_reward_amount_example =
    update-get_reward_amount update tables (codes "signup_bonus") updated
