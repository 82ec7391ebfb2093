-- ===== src/Ledger/Chain.antt =====
-- The log as a chain: the entry at index i carries that index and the hash of the entry before it,
-- its own hash is that of its payload, signature and predecessor, and its signature verifies.
-- Apply writes these fields (internal/ledger/apply.go, tx.go).
use discourse_points_system.Prelude.{
  ℕ, suc, ◌+◌, ◌-◌, ◌<◌, true, false, none, some, List, [], ◌∷◌, ◌++◌, Bytes, length, get_last?,
  get_last?-cons, nat_eqb, ◌≡◌, refl, sym, ap, ◌∙◌, arith,
}
use discourse_points_system.Prelude.Int.{ℤ, pos, add64, wrap64, add64-wrap64_one}
use discourse_points_system.Prelude.Exec.{ok}
use discourse_points_system.Ledger.Tx.{Env, Tx, zero_hash, hash_tx, verify_sig}
use discourse_points_system.Ledger.Apply.{position, is_genesis}

-- One entry: its index, its predecessor, its hash and its signature.
pub record IsLink (env : Env) (prev : Bytes) (i : ℕ) (tx : Tx) : Type 0 where
  pub at_index : tx.leaf_index ≡ wrap64 (pos i)
  pub follows : tx.prev_hash ≡ prev
  pub hashed : tx.tx_hash ≡ hash_tx env tx.payload tx.sig prev
  pub signed : verify_sig env tx.signer tx.payload tx.sig ≡ true
  -- The first entry is the genesis, and no other is.
  pub genesis_first : is_genesis tx.type ≡ nat_eqb i 0

abbrev pub IsChain : Env → Bytes → ℕ → List Tx → Type 0
IsChain env prev i [] = Unit
IsChain env prev i (tx ∷ txs) = IsLink env prev i tx × IsChain env tx.tx_hash (suc i) txs

-- The hash that the next entry follows.
abbrev pub end_hash : Bytes → List Tx → Bytes
end_hash prev [] = prev
end_hash prev (tx ∷ txs) = end_hash tx.tx_hash txs

-- A chain is extended by a link to its end.
pub IsChain-append_one :
    (env : Env) (prev : Bytes) (i j : ℕ) (txs : List Tx) (tx : Tx)
    → IsChain env prev i txs
    → j ≡ i + length txs
    → IsLink env (end_hash prev txs) j tx
    → IsChain env prev i (txs ++ tx ∷ [])
IsChain-append_one env prev i j [] tx c e l = let e' : j ≡ i = omega arith in (rw e' at l, tt)
IsChain-append_one env prev i j (x ∷ txs) tx c e l =
    (c.0, IsChain-append_one env x.tx_hash (suc i) j txs tx c.1 (omega arith) l)

-- The last entry of a chain has the last index, and the next entry follows its hash.
last-of-chain :
    (env : Env) (prev : Bytes) (i j : ℕ) (txs : List Tx) (last : Tx)
    → IsChain env prev i txs
    → get_last? txs ≡ some last
    → suc j ≡ i + length txs
    → (last.tx_hash ≡ end_hash prev txs) × (last.leaf_index ≡ wrap64 (pos j))
last-of-chain env prev i j [] last c h e = cc
last-of-chain env prev i j (x ∷ []) last c h e =
    let e' : j ≡ i = omega arith in let same : x ≡ last = cc in rw (e', ← same) (refl, c.0.at_index)
last-of-chain env prev i j (x ∷ y ∷ txs) last c h e =
    last-of-chain env x.tx_hash (suc i) j (y ∷ txs) last c.1 h (omega arith)

-- Where Apply puts a transaction: at the end of the chain, and the genesis in the first place only.
pub record IsPlaced (txs : List Tx) (tx tx₁ : Tx) : Type 0 where
  pub index : tx₁.leaf_index ≡ wrap64 (pos (length txs))
  pub prev : tx₁.prev_hash ≡ end_hash zero_hash txs
  pub kind : is_genesis tx.type ≡ nat_eqb (length txs) 0
  pub rest : tx₁ ≡ record tx { leaf_index = tx₁.leaf_index; prev_hash = tx₁.prev_hash }

first-IsPlaced : (tx tx₁ : Tx) → position tx none ≡ ok tx₁ → IsPlaced [] tx tx₁
unfolding position wrap64
first-IsPlaced tx tx₁ h = ground arith

next_inv :
    (tx tx₁ last : Tx)
    → position tx (some last) ≡ ok tx₁
    → (is_genesis tx.type ≡ false)
      × (tx₁ ≡ record tx { leaf_index = add64 last.leaf_index (pos 1); prev_hash = last.tx_hash })
unfolding position
next_inv tx tx₁ last h = ground arith

next-IsPlaced :
    (env : Env) (txs : List Tx) (tx tx₁ last : Tx)
    → IsChain env zero_hash 0 txs
    → get_last? txs ≡ some last
    → 0 < length txs
    → position tx (some last) ≡ ok tx₁
    → IsPlaced txs tx tx₁
next-IsPlaced env txs tx tx₁ last c at some_txs h =
    let n = length txs - 1 in
    let e : suc n ≡ length txs = omega arith in
    let (kind, same) = next_inv tx tx₁ last h in
    let (prev, index) = last-of-chain env zero_hash 0 n txs last c at (omega arith) in
    record {
      index =
          ap (λ (x : Tx). x.leaf_index) same
          ∙ ap (λ (z : ℤ). add64 z (pos 1)) index
          ∙ add64-wrap64_one n
          ∙ ap (λ (k : ℕ). wrap64 (pos k)) e;
      prev = ap (λ (x : Tx). x.prev_hash) same ∙ prev;
      kind = ground arith;
      rest = ground arith;
    }

-- A transaction that Apply places stands at the end of the chain.
pub position-IsPlaced :
    (env : Env) (txs : List Tx) (tx tx₁ : Tx)
    → IsChain env zero_hash 0 txs
    → position tx (get_last? txs) ≡ ok tx₁
    → IsPlaced txs tx tx₁
position-IsPlaced env [] tx tx₁ c h = first-IsPlaced tx tx₁ h
position-IsPlaced env (x ∷ txs) tx tx₁ c h =
    let (last, at) = get_last?-cons x txs in
    next-IsPlaced env (x ∷ txs) tx tx₁ last c at (omega arith) (ap (position tx) (sym at) ∙ h)
