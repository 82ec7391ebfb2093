-- ===== src/Admin/Session.antt =====
-- The admin's session: what opens one, what the guard lets through, and that the token of a
-- challenge is a session too.
use discourse_points_system.Prelude.{
  ◌≡◌, arith, some, [], ◌∷◌, Bytes, bytes_eq, beq_refl, same→eq, inl, inr, Option-cases,
}
use discourse_points_system.Prelude.Int.{ℤ, ◌≤ℤ◌}
use discourse_points_system.Prelude.Exec.{ok, Result-cases}
use discourse_points_system.Prelude.Text.{AllBytes, hex_decode, hex_prefix, split_dot}
use discourse_points_system.Prelude.Base64.{raw_url, base64_encode, base64_decode}
use discourse_points_system.Prelude.Base64.RoundTrip.{base64_encode-PlainText, base64_decode-encode}
use discourse_points_system.TxLog.{hex}
use discourse_points_system.TxLog.Hex.{hex_decode-hex}
use discourse_points_system.Auth.Session.{split_dot-signed}
use discourse_points_system.Admin.{
  Codec, Service, ChallengeToken, SessionToken, Request, signed_text, verify_session,
}
use discourse_points_system.Admin.Handlers.{admin_session_cookie}

-- Where the decoder has no error, what it decoded is its result.
pub hex_prefix-decode : (s b : Bytes) → hex_decode s ≡ some b → hex_prefix s ≡ b
unfolding hex_decode hex_prefix
hex_prefix-decode [] b h = ground arith
hex_prefix-decode (c ∷ []) b h = absurd (ground arith)
hex_prefix-decode (c ∷ d ∷ s) b h = elim (Option-cases (hex_decode s)) [
  | inl e ↦ absurd (ground arith)
  | inr (rest, e) ↦ ground (arith, hex_prefix-decode s rest e)
]

-- The functions give bytes.
pub record IsCodec (codec : Codec) : Type 0 where
  pub mac_bytes : (key msg : Bytes) → AllBytes (codec.hmac_sha256 key msg)
  pub challenge_bytes : (tok : ChallengeToken) → AllBytes (codec.marshal_challenge tok)
  pub session_bytes : (tok : SessionToken) → AllBytes (codec.marshal_session tok)

-- A text with the MAC of its first part under the secret, whose first part is base64 of `raw`.
pub record IsSigned (codec : Codec) (secret s raw : Bytes) : Type 0 where
  pub enc : Bytes
  pub sig : Bytes
  pub parts : split_dot s ≡ some (enc, sig)
  pub signed : hex_prefix sig ≡ codec.hmac_sha256 secret enc
  pub decoded : base64_decode raw_url enc ≡ some raw

-- A session: such a text of a token that is in time.
pub record IsSession (codec : Codec) (secret s : Bytes) (now : ℤ) : Type 0 where
  pub raw : Bytes
  pub tok : SessionToken
  pub signed : IsSigned codec secret s raw
  pub token : codec.unmarshal_session raw ≡ some tok
  pub in_time : now ≤ℤ tok.exp_unix

pub signed_text-IsSigned :
    (codec : Codec) (good : IsCodec codec) (secret raw : Bytes)
    → AllBytes raw
    → IsSigned codec secret (signed_text codec secret raw) raw
signed_text-IsSigned codec good secret raw bytes =
    let enc = base64_encode raw_url raw in
    let code = codec.hmac_sha256 secret enc in
    record {
      enc = enc;
      sig = hex code;
      parts = split_dot-signed enc (hex code) (base64_encode-PlainText raw_url raw);
      signed = hex_prefix-decode (hex code) code (hex_decode-hex code (good.mac_bytes secret enc));
      decoded = base64_decode-encode raw_url raw bytes;
    }

module _ (codec : Codec) where
  verify_session-ok :
      (s secret : Bytes) (now : ℤ) (v : IsSession codec secret s now)
      → verify_session codec s secret now ≡ ok v.tok
  unfolding verify_session
  verify_session-ok s secret now v = ground (
    arith,
    v.signed.parts,
    v.signed.signed,
    v.signed.decoded,
    v.token,
    v.in_time,
    beq_refl (codec.hmac_sha256 secret v.signed.enc),
  )

  verify_session_inv :
      (s secret : Bytes) (now : ℤ) (tok : SessionToken)
      → verify_session codec s secret now ≡ ok tok
      → IsSession codec secret s now
  unfolding verify_session
  verify_session_inv s secret now tok h = elim (Option-cases (split_dot s)) [
    | inl e ↦ absurd (ground arith)
    | inr ((enc, sig), e) ↦ elim (Option-cases (base64_decode raw_url enc)) [
      | inl g ↦ absurd (ground arith)
      | inr (raw, g) ↦ record {
        raw = raw;
        tok = tok;
        signed = record {
          enc = enc;
          sig = sig;
          parts = e;
          signed = ground (arith, same→eq (hex_prefix sig) (codec.hmac_sha256 secret enc));
          decoded = g;
        };
        token = ground arith;
        in_time = ground arith;
      }
    ]
  ]

  pub admin_session_cookie-some :
      (s : Service) (r : Request) (now : ℤ) (c : Bytes)
      → r.session ≡ some c
      → IsSession codec s.session_secret c now
      → admin_session_cookie codec s r now ≡ some c
  unfolding admin_session_cookie
  admin_session_cookie-some s r now c sent v =
      ground (arith, sent, verify_session-ok c s.session_secret now v)

  pub admin_session_cookie_inv :
      (s : Service) (r : Request) (now : ℤ) (c : Bytes)
      → admin_session_cookie codec s r now ≡ some c
      → (r.session ≡ some c) × IsSession codec s.session_secret c now
  unfolding admin_session_cookie
  admin_session_cookie_inv s r now c h = elim (Option-cases r.session) [
    | inl e ↦ absurd (ground arith)
    | inr (d, e) ↦ elim (Result-cases (verify_session codec d s.session_secret now)) [
      | inr (x, f) ↦ absurd (ground arith)
      | inl (tok, f) ↦
          let same : d ≡ c = ground arith in
          rw (← same) (e, verify_session_inv d s.session_secret now tok f)
    ]
  ]
