-- ===== src/Auth/Tests.antt =====
-- A small codec, a login through it, and the witnesses.
use discourse_points_system.Prelude.{
  ℕ, ◌+◌, ◌*◌, ◌/◌, ◌%◌, ◌≡◌, refl, arith, true, Option, none, some, [], ◌∷◌, ◌++◌, Bytes, codes,
  bytes_eqb, map, length, take, drop,
}
use discourse_points_system.Prelude.Int.{ℤ, pos, pos_part, ◌+ℤ◌, add64, wrap64}
use discourse_points_system.Prelude.Dict.{lookup}
use discourse_points_system.Prelude.Exec.{ok}
use discourse_points_system.Prelude.Text.{AllBytes, has_prefix, parse_int64, hex_decode, split_dot}
use discourse_points_system.Prelude.Base64.{std, base64_encode, base64_decode}
use discourse_points_system.TxLog.{hex}
use discourse_points_system.Auth.{
  Codec, DiscourseConnect, SessionToken, StateCookieValue, Values, Cookie, found, get,
  safe_return_url, cleared_state, verify_session,
}
use discourse_points_system.Auth.Handlers.{
  login_state, state_cookie, login, session_cookie, callback,
}
use discourse_points_system.Auth.Session.{IsCodec}
use discourse_points_system.Auth.Flow.{minted_token, IsSignIn, callback-IsSignIn}
use discourse_points_system.Auth.Complete.{IsAnswer, login_completes}

abbrev pub sum : Bytes → ℕ
sum [] = 17
sum (x ∷ b) = 3 * x + sum b

abbrev pub byte : ℕ → ℕ
byte n = n % 256

abbrev pub low_bytes : Bytes → Bytes
low_bytes b = map byte b

abbrev pub put_time : ℤ → Bytes → Bytes
put_time t rest = byte (pos_part t / 65_536) ∷ byte (pos_part t / 256) ∷ byte (pos_part t) ∷ rest

abbrev pub get_time : ℕ → ℕ → ℕ → ℤ
get_time a b c = pos (65_536 * a + 256 * b + c)

abbrev read_session : Bytes → Option SessionToken
read_session (a ∷ b ∷ c ∷ id ∷ name) =
    some (record { discourse_id = pos id; username = name; exp_unix = get_time a b c })
read_session _ = none

abbrev read_state : Bytes → Option StateCookieValue
read_state (a ∷ b ∷ c ∷ n ∷ rest) =
    some (record { nonce = take n rest; return = drop n rest; exp = get_time a b c })
read_state _ = none

-- A payload is the nonce, of two characters, a digit and the name.
abbrev read_query : Bytes → Option Values
read_query (a ∷ b ∷ id ∷ name) = some (
    (codes "nonce", (a ∷ b ∷ []) ∷ [])
    ∷ (codes "external_id", (id ∷ []) ∷ [])
    ∷ (codes "username", name ∷ [])
    ∷ [])
read_query _ = none

abbrev pub small_codec : Codec
small_codec = record {
  hmac_sha256 = λ key msg. byte (sum key + sum msg) ∷ byte (length msg) ∷ [];
  marshal_session =
      λ t. put_time t.exp_unix (byte (pos_part t.discourse_id) ∷ low_bytes t.username);
  unmarshal_session = read_session;
  marshal_state =
      λ s. put_time s.exp (byte (length s.nonce) ∷ low_bytes s.nonce ++ low_bytes s.return);
  unmarshal_state = read_state;
  encode_values = λ values. get values (codes "nonce");
  parse_query = read_query;
  parse_url = λ raw. some (record { scheme = []; host = [] });
  equal_fold = bytes_eqb;
}

abbrev pub forum : DiscourseConnect
forum = record {
  secret = codes "key";
  forum_base = codes "https://forum";
  callback_url = codes "https://forum/wallet/cb";
  secure_cookies = true;
}

pub low_bytes-AllBytes : (b : Bytes) → AllBytes (low_bytes b)
low_bytes-AllBytes [] = tt
low_bytes-AllBytes (x ∷ b) = (omega arith, low_bytes-AllBytes b)

AllBytes-append : (a b : Bytes) → AllBytes a → AllBytes b → AllBytes (a ++ b)
AllBytes-append [] b h k = k
AllBytes-append (x ∷ a) b h k = (h.0, AllBytes-append a b h.1 k)

pub small_codec-IsCodec : IsCodec small_codec
small_codec-IsCodec = record {
  mac_bytes = λ key msg. (omega arith, (omega arith, tt));
  mac_some = λ key msg e. absurd (ground arith);
  session_bytes = λ t.
      (omega arith, (omega arith, (omega arith, (omega arith, low_bytes-AllBytes t.username))));
  state_bytes = λ s. (
    omega arith,
    (
      omega arith,
      (
        omega arith,
        (
          omega arith,
          AllBytes-append (low_bytes s.nonce) (low_bytes s.return) (low_bytes-AllBytes s.nonce)
              (low_bytes-AllBytes s.return),
        ),
      ),
    ),
  );
}

-- The login of user 5, begun at time 1000 with the random byte 7 and answered 100 seconds later.
abbrev stashed : StateCookieValue
stashed = record { nonce = codes "07"; return = codes "/w"; exp = pos 1600 }

abbrev stashed_cookie : Cookie
stashed_cookie = state_cookie small_codec forum stashed

abbrev answer : Bytes
answer = codes "075bob"

abbrev answer_values : Values
answer_values =
    (codes "nonce", codes "07" ∷ [])
    ∷ (codes "external_id", codes "5" ∷ [])
    ∷ (codes "username", codes "bob" ∷ [])
    ∷ []

abbrev sso_url : Bytes
sso_url = codes "https://forum/session/sso_provider?"

abbrev pub bob : SessionToken
bob = minted_token (pos 5) answer_values (pos 1101)

abbrev sso : Bytes
sso = base64_encode std answer

abbrev sso_sig : Bytes
sso_sig = hex (small_codec.hmac_sha256 forum.secret sso)

login_is :
    login small_codec forum (7 ∷ []) (codes "/w") (pos 1000) ≡ found (stashed_cookie ∷ []) sso_url
unfolding login state_cookie add64 hex get wrap64 bytes_eqb lookup ◌+ℤ◌ has_prefix
login_is = refl

answer-IsAnswer : IsAnswer small_codec (hex (7 ∷ [])) answer answer_values (pos 5)
unfolding hex get lookup bytes_eqb parse_int64
answer-IsAnswer = record {
  raw_bytes =
      (omega arith, (omega arith, (omega arith, (omega arith, (omega arith, (omega arith, tt))))));
  raw_some = λ e. absurd (ground arith);
  query = refl;
  same_nonce = refl;
  user = refl;
  positive = omega arith;
  named = λ e. absurd (ground arith);
}

state_back :
    read_state
      (small_codec.marshal_state (login_state small_codec forum (7 ∷ []) (codes "/w") (pos 1000)))
    ≡ some (login_state small_codec forum (7 ∷ []) (codes "/w") (pos 1000))
unfolding login_state add64 wrap64 ◌+ℤ◌ hex get lookup bytes_eqb has_prefix
state_back = refl

pub bob_back : read_session (small_codec.marshal_session bob) ≡ some bob
unfolding add64 wrap64 ◌+ℤ◌ get lookup bytes_eqb
bob_back = refl

login_completes_example :
    (callback small_codec forum sso sso_sig (some stashed_cookie.value) (pos 1100) (pos 1101)
      ≡ found
          (session_cookie small_codec forum bob ∷ cleared_state ∷ [])
          (safe_return_url small_codec (codes "/w") forum.forum_base))
    × (verify_session small_codec
          (session_cookie small_codec forum bob).value
          forum.secret
          (pos 2000)
        ≡ ok bob)
unfolding ◌+ℤ◌
login_completes_example =
    login_completes small_codec forum small_codec-IsCodec (7 ∷ []) (codes "/w") (pos 1000)
      (pos 1100) (pos 1101) (pos 2000) stashed_cookie sso_url answer answer_values (pos 5) login_is
      answer-IsAnswer state_back bob_back (omega arith) (omega arith) (omega arith) (omega arith)
      (omega arith) (omega arith)

signed_in :
    callback small_codec forum sso sso_sig (some stashed_cookie.value) (pos 1100) (pos 1101)
    ≡ found (session_cookie small_codec forum bob ∷ cleared_state ∷ []) (codes "/w")
unfolding callback hex get lookup bytes_eqb parse_int64 state_cookie base64_encode base64_decode
    hex_decode split_dot
signed_in = refl

callback-IsSignIn_example :
    IsSignIn small_codec forum sso sso_sig
      (some stashed_cookie.value)
      (pos 1100)
      (pos 1101)
      (session_cookie small_codec forum bob ∷ cleared_state ∷ [])
      (codes "/w")
callback-IsSignIn_example =
    callback-IsSignIn small_codec forum sso sso_sig (some stashed_cookie.value) (pos 1100)
      (pos 1101) (session_cookie small_codec forum bob ∷ cleared_state ∷ []) (codes "/w") signed_in
