-- ===== src/Ledger/Binding.antt =====
-- What the hash of an entry commits to: Build in internal/ledger/tx.go hashes the payload, the
-- signature and the previous hash, and Apply chains the hashes.
use discourse_points_system.Prelude.{
  bytes-cases, HashLength, ℕ, suc, true, List, [], ◌∷◌, ◌++◌, Bytes, length, length-append,
  length-replicate, append-inj, ◌≡◌, ◌≢◌, ◌⊎◌, inl, inr, sym, ap, ◌∙◌, arith,
}
use discourse_points_system.Ledger.Tx.{Env, Tx, hash_tx, verify_sig, zero_hash}
use discourse_points_system.Ledger.Chain.{IsChain, IsLink, end_hash}

-- What an entry's hash is taken of, and what stands in the entry's place in the chain.
abbrev pub hashed_bytes : Tx → Bytes
hashed_bytes tx = tx.payload ++ (tx.sig ++ tx.prev_hash)

pub record SameContent (a b : Tx) : Type 0 where
  pub payload : a.payload ≡ b.payload
  pub sig : a.sig ≡ b.sig
  pub prev_hash : a.prev_hash ≡ b.prev_hash
  pub tx_hash : a.tx_hash ≡ b.tx_hash

-- Two logs of the same length, entry by entry the same up to type and signer.
abbrev pub SameLog : List Tx → List Tx → Type 0
SameLog [] [] = Unit
SameLog [] (b ∷ ys) = ⊥
SameLog (a ∷ xs) [] = ⊥
SameLog (a ∷ xs) (b ∷ ys) = SameContent a b × SameLog xs ys

-- At one place of two logs, two different byte strings with one hash.
abbrev pub LogCollision : (Bytes → Bytes) → List Tx → List Tx → Type 0
LogCollision sha256 [] ys = ⊥
LogCollision sha256 (a ∷ xs) [] = ⊥
LogCollision sha256 (a ∷ xs) (b ∷ ys) =
    ((hashed_bytes a ≢ hashed_bytes b) × (sha256 (hashed_bytes a) ≡ sha256 (hashed_bytes b)))
    ⊎ LogCollision sha256 xs ys

sig-size :
    (env : Env) (signer payload sig : Bytes)
    → verify_sig env signer payload sig ≡ true
    → length sig ≡ 64
unfolding verify_sig
sig-size env signer payload sig h = ground arith

-- Three parts, the last two of fixed sizes, are known from their concatenation.
parts-inj :
    (p s q p' s' q' : Bytes)
    → length s ≡ length s'
    → length q ≡ length q'
    → p ++ (s ++ q) ≡ p' ++ (s' ++ q')
    → (p ≡ p') × (s ≡ s') × (q ≡ q')
parts-inj p s q p' s' q' n m e =
    let whole : length (p ++ (s ++ q)) ≡ length (p' ++ (s' ++ q')) = ap length e in
    let (a, rest) =
      append-inj p (s ++ q) p' (s' ++ q')
        (omega (
          arith,
          n,
          m,
          whole,
          length-append p (s ++ q),
          length-append p' (s' ++ q'),
          length-append s q,
          length-append s' q',
        ))
        e in
    let (b, c) = append-inj s q s' q' n rest in (a, b, c)

module _ (env : Env) (sized : HashLength env.sha256) where
  -- One entry of each log, with the same hash.
  link-inj :
      (prev prev' : Bytes) (i : ℕ) (a b : Tx)
      → length prev ≡ 32
      → length prev' ≡ 32
      → IsLink env prev i a
      → IsLink env prev' i b
      → a.tx_hash ≡ b.tx_hash
      → ((prev ≡ prev') × SameContent a b)
        ⊎ ((hashed_bytes a ≢ hashed_bytes b)
            × (env.sha256 (hashed_bytes a) ≡ env.sha256 (hashed_bytes b)))
  link-inj prev prev' i a b n n' l l' e =
      let same : env.sha256 (hashed_bytes a) ≡ env.sha256 (hashed_bytes b) =
        ap (λ (q : Bytes). hash_tx env a.payload a.sig q) l.follows
        ∙ sym l.hashed
        ∙ e
        ∙ l'.hashed
        ∙ ap (λ (q : Bytes). hash_tx env b.payload b.sig q) (sym l'.follows) in
      elim (bytes-cases (hashed_bytes a) (hashed_bytes b)) [
        | inr ne ↦ inr (ne, same)
        | inl eq ↦
            let (p, s, q) =
              parts-inj a.payload a.sig a.prev_hash b.payload b.sig b.prev_hash
                (sig-size env a.signer a.payload a.sig l.signed
                  ∙ sym (sig-size env b.signer b.payload b.sig l'.signed))
                (ap length l.follows ∙ n ∙ sym n' ∙ sym (ap length l'.follows)) eq in
            inl (
              sym l.follows ∙ q ∙ l'.follows,
              record { payload = p; sig = s; prev_hash = q; tx_hash = e },
            )
      ]

  logs-inj :
      (prev prev' : Bytes) (i : ℕ) (xs ys : List Tx)
      → length prev ≡ 32
      → length prev' ≡ 32
      → IsChain env prev i xs
      → IsChain env prev' i ys
      → length xs ≡ length ys
      → end_hash prev xs ≡ end_hash prev' ys
      → ((prev ≡ prev') × SameLog xs ys) ⊎ LogCollision env.sha256 xs ys
  logs-inj prev prev' i [] [] n n' c c' size e = inl (e, tt)
  logs-inj prev prev' i [] (b ∷ ys) n n' c c' size e = absurd (omega arith)
  logs-inj prev prev' i (a ∷ xs) [] n n' c c' size e = absurd (omega arith)
  logs-inj prev prev' i (a ∷ xs) (b ∷ ys) n n' c c' size e =
      elim (logs-inj a.tx_hash b.tx_hash (suc i) xs ys (ap length c.0.hashed ∙ sized _)
        (ap length c'.0.hashed ∙ sized _) c.1 c'.1 (omega arith) e) [
          | inr later ↦ inr (inr later)
          | inl (same, rest) ↦ elim (link-inj prev prev' i a b n n' c.0 c'.0 same) [
            | inr here ↦ inr (inl here)
            | inl (before, content) ↦ inl (before, (content, rest))
          ]
        ]

-- The last hash commits to the log: where SHA-256 gives 32 bytes, two valid logs of the same
-- length that end in the same hash agree in every entry's payload, signature, previous hash and
-- hash, or two different byte strings that two entries at one place are hashed from have one
-- hash.
pub end_hash-inj :
    (env : Env) (xs ys : List Tx)
    → HashLength env.sha256
    → IsChain env zero_hash 0 xs
    → IsChain env zero_hash 0 ys
    → length xs ≡ length ys
    → end_hash zero_hash xs ≡ end_hash zero_hash ys
    → SameLog xs ys ⊎ LogCollision env.sha256 xs ys
unfolding zero_hash
end_hash-inj env xs ys sized c c' size e =
    elim (logs-inj env sized zero_hash zero_hash 0 xs ys (length-replicate {A = ℕ} 32 0)
      (length-replicate {A = ℕ} 32 0) c c' size e) [
        | inl (_, same) ↦ inl same
        | inr collision ↦ inr collision
      ]
