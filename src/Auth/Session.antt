-- ===== src/Auth/Session.antt =====
-- Signed values: what VerifySession and parseStateCookie accept, and that they accept what the
-- package signs.
use discourse_points_system.Prelude.{
  ◌≡◌, ◌≢◌, refl, arith, some, [], ◌∷◌, ◌++◌, Bytes, bytes_eq, beq_refl, same→eq, inl, inr,
  Option-cases,
}
use discourse_points_system.Prelude.Int.{ℤ, ◌≤ℤ◌}
use discourse_points_system.Prelude.Exec.{ok}
use discourse_points_system.Prelude.Text.{AllBytes, hex_decode, split_dot}
use discourse_points_system.Prelude.Base64.{raw_url, base64_encode, base64_decode}
use discourse_points_system.Prelude.Base64.RoundTrip.{
  PlainText, base64_encode-PlainText, base64_decode-encode,
}
use discourse_points_system.TxLog.{hex}
use discourse_points_system.TxLog.Hex.{hex_decode-hex}
use discourse_points_system.Auth.{
  Codec, DiscourseConnect, SessionToken, StateCookieValue, sign_session, verify_session,
  parse_state_cookie,
}
use discourse_points_system.Auth.Handlers.{state_cookie}

-- The functions give bytes, and a code has bytes.
pub record IsCodec (codec : Codec) : Type 0 where
  pub mac_bytes : (key msg : Bytes) → AllBytes (codec.hmac_sha256 key msg)
  pub mac_some : (key msg : Bytes) → codec.hmac_sha256 key msg ≢ []
  pub session_bytes : (tok : SessionToken) → AllBytes (codec.marshal_session tok)
  pub state_bytes : (state : StateCookieValue) → AllBytes (codec.marshal_state state)

-- A text that a holder of the secret made, for this token, and that is in time.
pub record IsSession (codec : Codec) (secret s : Bytes) (now : ℤ) (tok : SessionToken)
    : Type 0 where
  pub enc : Bytes
  pub sig : Bytes
  pub raw : Bytes
  pub parts : split_dot s ≡ some (enc, sig)
  pub signed : hex_decode sig ≡ some (codec.hmac_sha256 secret enc)
  pub decoded : base64_decode raw_url enc ≡ some raw
  pub token : codec.unmarshal_session raw ≡ some tok
  pub in_time : now ≤ℤ tok.exp_unix

pub record IsState (codec : Codec) (secret v : Bytes) (now : ℤ) (state : StateCookieValue)
    : Type 0 where
  pub enc : Bytes
  pub sig : Bytes
  pub raw : Bytes
  pub parts : split_dot v ≡ some (enc, sig)
  pub decoded : base64_decode raw_url enc ≡ some raw
  pub signed : hex_decode sig ≡ some (codec.hmac_sha256 secret raw)
  pub state_of : codec.unmarshal_state raw ≡ some state
  pub in_time : now ≤ℤ state.exp

pub split_dot-signed :
    (enc sig : Bytes) → PlainText enc → split_dot (enc ++ b'.' ∷ sig) ≡ some (enc, sig)
unfolding split_dot
split_dot-signed [] sig h = refl
split_dot-signed (c ∷ enc) sig h = ground (arith, split_dot-signed enc sig h.1)

module _ (codec : Codec) where
  -- VerifySession accepts every such text.
  pub verify_session-ok :
      (s secret : Bytes) (now : ℤ) (tok : SessionToken)
      → IsSession codec secret s now tok
      → verify_session codec s secret now ≡ ok tok
  unfolding verify_session
  verify_session-ok s secret now tok v = ground (
    arith,
    v.parts,
    v.signed,
    v.decoded,
    v.token,
    v.in_time,
    beq_refl (codec.hmac_sha256 secret v.enc),
  )

  -- And no other.
  pub verify_session_inv :
      (s secret : Bytes) (now : ℤ) (tok : SessionToken)
      → verify_session codec s secret now ≡ ok tok
      → IsSession codec secret s now tok
  unfolding verify_session
  verify_session_inv s secret now tok h = elim (Option-cases (split_dot s)) [
    | inl e ↦ absurd (ground arith)
    | inr ((enc, sig), e) ↦ elim (Option-cases (hex_decode sig)) [
      | inl f ↦ absurd (ground arith)
      | inr (got, f) ↦ elim (Option-cases (base64_decode raw_url enc)) [
        | inl g ↦ absurd (ground arith)
        | inr (raw, g) ↦ record {
          enc = enc;
          sig = sig;
          raw = raw;
          parts = e;
          signed = ground (arith, same→eq got (codec.hmac_sha256 secret enc));
          decoded = g;
          token = ground arith;
          in_time = ground arith;
        }
      ]
    ]
  ]

  pub parse_state_cookie-ok :
      (v secret : Bytes) (now : ℤ) (state : StateCookieValue)
      → IsState codec secret v now state
      → parse_state_cookie codec v secret now ≡ ok state
  unfolding parse_state_cookie
  parse_state_cookie-ok v secret now state w = ground (
    arith,
    w.parts,
    w.signed,
    w.decoded,
    w.state_of,
    w.in_time,
    beq_refl (codec.hmac_sha256 secret w.raw),
  )

  pub parse_state_cookie_inv :
      (v secret : Bytes) (now : ℤ) (state : StateCookieValue)
      → parse_state_cookie codec v secret now ≡ ok state
      → IsState codec secret v now state
  unfolding parse_state_cookie
  parse_state_cookie_inv v secret now state h = elim (Option-cases (split_dot v)) [
    | inl e ↦ absurd (ground arith)
    | inr ((enc, sig), e) ↦ elim (Option-cases (hex_decode sig)) [
      | inl f ↦ absurd (ground arith)
      | inr (got, f) ↦ elim (Option-cases (base64_decode raw_url enc)) [
        | inl g ↦ absurd (ground arith)
        | inr (raw, g) ↦ record {
          enc = enc;
          sig = sig;
          raw = raw;
          parts = e;
          decoded = g;
          signed = ground (arith, same→eq got (codec.hmac_sha256 secret raw));
          state_of = ground arith;
          in_time = ground arith;
        }
      ]
    ]
  ]

-- What the package signs, it accepts, while it is in time.
module _ (codec : Codec) (good : IsCodec codec) where
  sign_session-IsSession :
      (tok : SessionToken) (secret : Bytes) (now : ℤ)
      → codec.unmarshal_session (codec.marshal_session tok) ≡ some tok
      → now ≤ℤ tok.exp_unix
      → IsSession codec secret (sign_session codec tok secret) now tok
  unfolding sign_session
  sign_session-IsSession tok secret now back in_time =
      let raw = codec.marshal_session tok in
      let enc = base64_encode raw_url raw in
      let code = codec.hmac_sha256 secret enc in
      record {
        enc = enc;
        sig = hex code;
        raw = raw;
        parts = split_dot-signed enc (hex code) (base64_encode-PlainText raw_url raw);
        signed = hex_decode-hex code (good.mac_bytes secret enc);
        decoded = base64_decode-encode raw_url raw (good.session_bytes tok);
        token = back;
        in_time = in_time;
      }

  pub verify_session-sign_session :
      (tok : SessionToken) (secret : Bytes) (now : ℤ)
      → codec.unmarshal_session (codec.marshal_session tok) ≡ some tok
      → now ≤ℤ tok.exp_unix
      → verify_session codec (sign_session codec tok secret) secret now ≡ ok tok
  verify_session-sign_session tok secret now back in_time =
      verify_session-ok codec (sign_session codec tok secret) secret now tok
        (sign_session-IsSession tok secret now back in_time)

  pub state_cookie-IsState :
      (d : DiscourseConnect) (state : StateCookieValue) (now : ℤ)
      → codec.unmarshal_state (codec.marshal_state state) ≡ some state
      → now ≤ℤ state.exp
      → IsState codec d.secret (state_cookie codec d state).value now state
  unfolding state_cookie
  state_cookie-IsState d state now back in_time =
      let raw = codec.marshal_state state in
      let enc = base64_encode raw_url raw in
      let code = codec.hmac_sha256 d.secret raw in
      record {
        enc = enc;
        sig = hex code;
        raw = raw;
        parts = split_dot-signed enc (hex code) (base64_encode-PlainText raw_url raw);
        decoded = base64_decode-encode raw_url raw (good.state_bytes state);
        signed = hex_decode-hex code (good.mac_bytes d.secret raw);
        state_of = back;
        in_time = in_time;
      }
