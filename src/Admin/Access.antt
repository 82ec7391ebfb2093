-- ===== src/Admin/Access.antt =====
-- What the guard of the protected endpoints lets through, and what opens a session.
use discourse_points_system.Prelude.{
  ℕ, ◌≡◌, ap, ◌∙◌, arith, true, some, [], Bytes, bytes_eq, same→eq, inl, inr, Option-cases,
  Bool-cases, bytes-cases, codes, false, ◌⊎◌, ◌++◌,
}
use discourse_points_system.Prelude.Int.{ℤ, pos, ◌≤ℤ◌, ◌+ℤ◌, add64, max_int64}
use discourse_points_system.Prelude.Exec.{Result, ok, err}
use discourse_points_system.Prelude.Text.{hex_decode, hex_prefix, split_dot}
use discourse_points_system.Prelude.Base64.{raw_url, base64_decode}
use discourse_points_system.TxLog.{hex}
use discourse_points_system.Auth.{Cookie, Url}
use discourse_points_system.Auth.Complete.{expiry}
use discourse_points_system.Admin.{
  Codec, Service, ChallengeToken, LoginReq, Request, challenge, logged_in, signed_text,
  sign_session, login_challenge, new_challenge, is_unsafe_method, same_origin_write, valid_csrf,
  csrf_header, origin_header, csrf_token, admin_is, login_ttl, session_ttl, session_cookie,
}
use discourse_points_system.Admin.Handlers.{
  admin_session_cookie, require_admin, whoami, check_signature, open_session, login,
}
use discourse_points_system.Admin.Session.{
  IsCodec, IsSigned, IsSession, signed_text-IsSigned, admin_session_cookie-some,
  admin_session_cookie_inv,
}

-- The answer of an endpoint, for a guard that refuses with a status.
abbrev pub through : Result ℕ (Unit {0})
through = ok tt

-- The methods that read.
abbrev pub IsRead : Bytes → Type 0
IsRead method = (method ≡ codes "GET") ⊎ ((method ≡ codes "HEAD") ⊎ (method ≡ codes "OPTIONS"))

-- A request with no Origin, or with one whose host is its own, and whose CSRF header is the MAC of
-- its session cookie, behind a prefix, in hexadecimal.
pub record IsOwnWrite (codec : Codec) (s : Service) (r : Request) (cookie : Bytes) : Type 0 where
  pub origin :
      (r.header (codes "Origin") ≡ [])
      ⊎ ((u : Url) × (codec.parse_url (r.header (codes "Origin")) ≡ some u)
          × (codec.equal_fold u.host r.host ≡ true))
  pub csrf :
      r.header (codes "X-FP-CSRF")
      ≡ hex (codec.hmac_sha256 s.session_secret (codes "csrf|" ++ cookie))

-- What stands behind a request that is let through.
pub record IsAdmitted (codec : Codec) (s : Service) (r : Request) (now : ℤ) : Type 0 where
  pub cookie : Bytes
  pub sent : r.session ≡ some cookie
  pub session : IsSession codec s.session_secret cookie now
  pub guarded : IsRead r.method ⊎ IsOwnWrite codec s r cookie

-- What stands behind a login: a token with a MAC of the service, of a challenge that is in time,
-- whose nonce is signed by the admin's key.
pub record IsLogin (codec : Codec) (s : Service) (req : LoginReq) (now minted : ℤ) (cookie : Cookie)
    : Type 0 where
  pub raw : Bytes
  pub tok : ChallengeToken
  pub sig : Bytes
  pub issued : IsSigned codec s.session_secret req.token raw
  pub token : codec.unmarshal_challenge raw ≡ some tok
  pub in_time : now ≤ℤ tok.exp
  pub admin : hex_decode req.pubkey_hex ≡ some s.admin_pub_key
  pub sent : hex_decode req.sig_hex ≡ some sig
  pub signed : codec.ed25519_verify s.admin_pub_key (hex_prefix tok.nonce) sig ≡ true
  pub opened :
      cookie.value
      ≡ sign_session codec (record { exp_unix = add64 minted session_ttl }) s.session_secret

module _ (codec : Codec) (s : Service) where
  own_csrf :
      (r : Request) (c : Bytes)
      → valid_csrf codec s.session_secret c (r.header csrf_header) ≡ true
      → r.header (codes "X-FP-CSRF") ≡ hex (codec.hmac_sha256 s.session_secret (codes "csrf|" ++ c))
  unfolding valid_csrf
  own_csrf r c h =
      same→eq (r.header csrf_header) (hex (codec.hmac_sha256 s.session_secret (codes "csrf|" ++ c)))
        h

  is_unsafe_method-IsRead : (method : Bytes) → is_unsafe_method method ≡ false → IsRead method
  unfolding is_unsafe_method
  is_unsafe_method-IsRead method h = ground (
    arith,
    bytes_eq.same_iff method (codes "GET"),
    bytes_eq.same_iff method (codes "HEAD"),
    bytes_eq.same_iff method (codes "OPTIONS"),
  )

  own_origin :
      (r : Request)
      → same_origin_write codec r ≡ true
      → (r.header (codes "Origin") ≡ [])
        ⊎ ((u : Url) × (codec.parse_url (r.header (codes "Origin")) ≡ some u)
            × (codec.equal_fold u.host r.host ≡ true))
  unfolding same_origin_write
  own_origin r h = elim (bytes-cases (r.header (codes "Origin")) []) [
    | inl absent ↦ inl absent
    | inr present ↦ elim (Option-cases (codec.parse_url (r.header (codes "Origin")))) [
      | inl bad ↦ absurd (ground (arith, same→eq (r.header (codes "Origin")) []))
      | inr (u, parsed) ↦ inr (u, parsed, ground (arith, same→eq (r.header (codes "Origin")) []))
    ]
  ]

  -- A request that the guard of the protected endpoints lets through has a session cookie that is a
  -- text with a MAC under the service's secret, of a token that decodes and is not expired. And its
  -- method is GET, HEAD or OPTIONS; or it has no Origin header, or one that parses with the
  -- request's own host, and its header X-FP-CSRF is, in hexadecimal, the MAC under that secret of
  -- `csrf|` and the cookie.
  pub require_admin-IsAdmitted :
      (r : Request) (now : ℤ)
      → require_admin codec s err through r now ≡ through
      → IsAdmitted codec s r now
  unfolding require_admin
  require_admin-IsAdmitted r now h = elim (Option-cases (admin_session_cookie codec s r now)) [
    | inl e ↦ absurd (ground arith)
    | inr (c, e) ↦
        let (sent, session) = admin_session_cookie_inv codec s r now c e in
        record {
          cookie = c;
          sent = sent;
          session = session;
          guarded = elim (Bool-cases (is_unsafe_method r.method)) [
            | inr safe ↦ inl (is_unsafe_method-IsRead r.method safe)
            | inl unsafe ↦ inr (record {
              origin = own_origin r (ground arith);
              csrf = own_csrf r c (ground arith);
            })
          ];
        }
  ]

  check_signature_inv :
      (req : LoginReq) (raw : Bytes) (tok : ChallengeToken) (now minted : ℤ) (cookie : Cookie)
      (key_hex csrf : Bytes) (exp : ℤ)
      → IsSigned codec s.session_secret req.token raw
      → codec.unmarshal_challenge raw ≡ some tok
      → now ≤ℤ tok.exp
      → check_signature codec s req tok minted ≡ logged_in cookie key_hex exp csrf
      → IsLogin codec s req now minted cookie
  unfolding check_signature open_session session_cookie
  check_signature_inv req raw tok now minted cookie key_hex csrf exp issued token in_time h =
      elim (Option-cases (hex_decode req.pubkey_hex)) [
        | inl e ↦ absurd (ground arith)
        | inr (k, e) ↦ elim (Option-cases (hex_decode req.sig_hex)) [
          | inl f ↦ absurd (ground arith)
          | inr (sig, f) ↦
              let same : k ≡ s.admin_pub_key = ground (arith, same→eq k s.admin_pub_key) in
              record {
                raw = raw;
                tok = tok;
                sig = sig;
                issued = issued;
                token = token;
                in_time = in_time;
                admin = e ∙ ap some same;
                sent = f;
                signed = rw (← same) (ground arith);
                opened = ground arith;
              }
        ]
      ]

  -- Where `login` opens a session, the request's token has a MAC under the service's secret and is a
  -- challenge that is not expired; the key sent is the admin's, and it signs the challenge's nonce;
  -- and the cookie set is a signed session that expires 3600 seconds after the clock's reading.
  pub login-IsLogin :
      (req : LoginReq) (now minted : ℤ) (cookie : Cookie) (key_hex csrf : Bytes) (exp : ℤ)
      → login codec s (some req) now minted ≡ logged_in cookie key_hex exp csrf
      → IsLogin codec s req now minted cookie
  unfolding login
  login-IsLogin req now minted cookie key_hex csrf exp h =
      elim (Option-cases (split_dot req.token)) [
        | inl e ↦ absurd (ground arith)
        | inr ((enc, sig), e) ↦ elim (Option-cases (base64_decode raw_url enc)) [
          | inl f ↦ absurd (ground arith)
          | inr (raw, f) ↦ elim (Option-cases (codec.unmarshal_challenge raw)) [
            | inl g ↦ absurd (ground arith)
            | inr (tok, g) ↦
                check_signature_inv req raw tok now minted cookie key_hex csrf exp
                  (record {
                    enc = enc;
                    sig = sig;
                    parts = e;
                    signed =
                        ground (
                          arith,
                          same→eq (hex_prefix sig) (codec.hmac_sha256 s.session_secret enc),
                        );
                    decoded = f;
                  })
                  g (ground arith) (ground arith)
          ]
        ]
      ]

  challenge-IsSession :
      (good : IsCodec codec) (random : Bytes) (now seen : ℤ) (nonce token : Bytes)
      → codec.unmarshal_session (codec.marshal_challenge (new_challenge random now))
        ≡ some (record { exp_unix = (new_challenge random now).exp })
      → pos 0 ≤ℤ now
      → (now +ℤ login_ttl) ≤ℤ max_int64
      → seen ≤ℤ (now +ℤ login_ttl)
      → login_challenge codec s random now ≡ challenge nonce token
      → IsSession codec s.session_secret token seen
  unfolding login_challenge
  challenge-IsSession good random now seen nonce token ignores now_pos in_range in_time h =
      let tok = new_challenge random now in
      let raw = codec.marshal_challenge tok in
      let same : signed_text codec s.session_secret raw ≡ token = ground arith in
      rw (← same) (record {
        raw = raw;
        tok = record { exp_unix = tok.exp };
        signed = signed_text-IsSigned codec good s.session_secret raw (good.challenge_bytes tok);
        token = ignores;
        in_time = expiry now login_ttl seen now_pos (omega arith) in_range in_time;
      })

  -- The token of a login challenge, which anyone may ask for, is an admin session. Let MACs and
  -- encodings be bytes, let JSON read the challenge as a session with its expiry, skipping the
  -- nonce, let the clock not be negative and the expiry an int64. Then for 300 seconds a request
  -- with that token as its session cookie is told the CSRF token by `whoami`; and with that token in
  -- the CSRF header and no Origin, the guard lets it through to any endpoint, whatever its method.
  pub challenge_admits :
      {A : Type 0}
      → (good : IsCodec codec) (random : Bytes) (now seen : ℤ) (nonce token : Bytes) (r : Request)
        (write_err : ℕ → A) (next : A)
      → codec.unmarshal_session (codec.marshal_challenge (new_challenge random now))
        ≡ some (record { exp_unix = (new_challenge random now).exp })
      → pos 0 ≤ℤ now
      → (now +ℤ login_ttl) ≤ℤ max_int64
      → seen ≤ℤ (now +ℤ login_ttl)
      → login_challenge codec s random now ≡ challenge nonce token
      → r.session ≡ some token
      → r.header origin_header ≡ []
      → r.header csrf_header ≡ csrf_token codec s.session_secret token
      → (whoami codec s r seen
          ≡ admin_is (hex s.admin_pub_key) (csrf_token codec s.session_secret token))
        × (require_admin codec s write_err next r seen ≡ next)
  unfolding whoami require_admin valid_csrf same_origin_write
  challenge_admits good random now seen nonce token r write_err next ignores now_pos in_range
        in_time issued sent no_origin csrf =
      let session =
        challenge-IsSession good random now seen nonce token ignores now_pos in_range in_time
          issued in
      let found = admin_session_cookie-some codec s r seen token sent session in
      ground (
        arith,
        found,
        (bytes_eq.same_iff (r.header origin_header) []).1 no_origin,
        (bytes_eq.same_iff (r.header csrf_header) (csrf_token codec s.session_secret token)).1 csrf,
      )
