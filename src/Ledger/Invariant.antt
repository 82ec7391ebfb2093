-- ===== src/Ledger/Invariant.antt =====
-- The invariant of the ledger in memory, over every sequence of submitted transactions.
use discourse_points_system.Prelude.{
  true, List, [], ◌∷◌, ◌++◌, length, nat_eqb, ◌≡◌, refl, sym, ap, ◌∙◌, arith, if◌then◌else◌,
}
use discourse_points_system.Prelude.Int.{ℤ, pos, ◌≤ℤ◌, max_int64}
use discourse_points_system.Prelude.Exec.{Result, ok, err}
use discourse_points_system.Ledger.Tx.{Env, Tx, Error, zero_hash, supply_cap}
use discourse_points_system.Ledger.MemStore.{MemStore, MemTx, mem_store}
use discourse_points_system.Ledger.MemStore.Sound.{IsSound, sum}
use discourse_points_system.Ledger.Chain.{
  IsChain, IsLink, IsPlaced, end_hash, position-IsPlaced, IsChain-append_one,
}
use discourse_points_system.Ledger.Apply.{apply, is_genesis}
use discourse_points_system.Ledger.Apply.Execute.{Handled, handled-IsKept, execute_inv, logged}
use discourse_points_system.Ledger.Apply.Inversion.{
  opened, closed, Applied, apply_inv, apply_refused,
}

-- Before the genesis there is no balance; after it the balances make up the supply.
abbrev pub expected_supply : List Tx → ℤ
expected_supply [] = pos 0
expected_supply (tx ∷ txs) = supply_cap

pub record IsLedger (env : Env) (m : MemStore) : Type 0 where
  -- The two maps agree, and no balance is negative.
  pub sound : IsSound (opened m)
  -- The balances add up to the supply.
  pub supply : sum (opened m) ≡ expected_supply m.txs
  -- The log is a hash chain of signed entries, the genesis first.
  pub chain : IsChain env zero_hash 0 m.txs

expected-bounded : (txs : List Tx) → expected_supply txs ≤ℤ max_int64
expected-bounded [] = omega arith
expected-bounded (tx ∷ txs) = omega arith

pub supply-bounded : (env : Env) (m : MemStore) → IsLedger env m → sum (opened m) ≤ℤ max_int64
supply-bounded env m inv = rw inv.supply (expected-bounded m.txs)

expected-first : (txs : List Tx) → nat_eqb (length txs) 0 ≡ true → expected_supply txs ≡ pos 0
expected-first [] h = refl
expected-first (tx ∷ txs) h = absurd (ground arith)

expected-later :
    (txs : List Tx) (tx : Tx)
    → (if nat_eqb (length txs) 0 then supply_cap else expected_supply txs)
      ≡ expected_supply (txs ++ tx ∷ [])
expected-later [] tx = refl
expected-later (x ∷ txs) tx = ground arith

-- What one accepted transaction adds to the log.
pub record IsStep (env : Env) (tx tx' : Tx) (m m' : MemStore) : Type 0 where
  pub appended : m'.txs ≡ m.txs ++ tx' ∷ []
  pub link : IsLink env (end_hash zero_hash m.txs) (length m.txs) tx'
  pub kept : IsLedger env m'

module _ (env : Env) (tx tx' : Tx) (m : MemStore) (t' : MemTx) (tx₁ : Tx) (inv : IsLedger env m)
    (a : Applied env tx tx' m t' tx₁) where
  placed : IsPlaced m.txs tx tx₁
  placed = position-IsPlaced env m.txs tx tx₁ inv.chain a.placed

  -- The transaction as it is logged is the caller's, but for its place and its hash.
  same :
      tx'
      ≡ record tx { leaf_index = tx₁.leaf_index; prev_hash = tx₁.prev_hash; tx_hash = tx'.tx_hash }
  same = ground (arith, a.hashed, placed.rest)

  link : IsLink env (end_hash zero_hash m.txs) (length m.txs) tx'
  link = record {
    at_index = ground (arith, a.hashed, placed.index);
    follows = ground (arith, a.hashed, placed.prev);
    hashed = ground (arith, a.hashed, same, placed.prev);
    signed = ground (arith, same, a.signed);
    genesis_first = ground (arith, same, placed.kind);
  }

  kind : is_genesis tx'.type ≡ nat_eqb (length m.txs) 0
  kind = link.genesis_first

  total_after :
      (if is_genesis tx'.type then supply_cap else sum (opened m))
      ≡ expected_supply (m.txs ++ tx' ∷ [])
  total_after = rw (kind, inv.supply) (expected-later m.txs tx')

  step : IsStep env tx tx' m (closed t')
  step =
      let (t₁, handled, fresh, e) = execute_inv env tx' (opened m) t' inv.sound a.ran in
      let k =
        handled-IsKept env tx' (opened m) inv.sound handled (supply-bounded env m inv)
          (λ g. inv.supply ∙ expected-first m.txs (sym kind ∙ g)) in
      rw e (record {
        appended = ap (λ (l : List Tx). l ++ tx' ∷ []) k.log;
        link = link;
        kept = record {
          sound = record { indexed = k.sound.indexed; nonneg = k.sound.nonneg };
          supply =
              k.total
              ∙ total_after
              ∙ ap (λ (l : List Tx). expected_supply (l ++ tx' ∷ [])) (sym k.log);
          chain = rw k.log (
              IsChain-append_one env zero_hash 0 (length m.txs) m.txs tx' inv.chain (omega arith)
                link);
        };
      })

-- What an accepted transaction ran: it is logged as the caller gave it, but for place and hash.
pub accepted_inv :
    (env : Env) (tx tx' : Tx) (m m' : MemStore)
    → IsLedger env m
    → apply env mem_store tx m ≡ (ok tt, tx', m')
    → (t₁ : MemTx) × Handled env tx' (opened m) t₁ tx'.type
      × (m' ≡ closed (logged tx' t₁))
      × (tx'.type ≡ tx.type)
      × (tx'.payload ≡ tx.payload)
      × (tx'.signer ≡ tx.signer)
accepted_inv env tx tx' m m' inv h =
    let (t', tx₁, a, e) = apply_inv env tx tx' m m' h in
    let (t₁, handled, fresh, e') = execute_inv env tx' (opened m) t' inv.sound a.ran in
    let s = same env tx tx' m t' tx₁ inv a in
    (
      t₁,
      handled,
      e ∙ ap closed e',
      ap (λ (x : Tx). x.type) s,
      ap (λ (x : Tx). x.payload) s,
      ap (λ (x : Tx). x.signer) s,
    )

-- On a ledger in memory that satisfies the invariant, an accepted transaction extends the log by
-- itself, linked to its end, and the invariant is kept: the balances still add up to the supply.
pub apply-IsStep :
    (env : Env) (tx tx' : Tx) (m m' : MemStore)
    → IsLedger env m
    → apply env mem_store tx m ≡ (ok tt, tx', m')
    → IsStep env tx tx' m m'
apply-IsStep env tx tx' m m' inv h =
    let (t', tx₁, a, e) = apply_inv env tx tx' m m' h in rw e (step env tx tx' m t' tx₁ inv a)

-- Whatever is submitted, accepted or refused, the invariant holds afterwards.
pub apply-IsLedger :
    (env : Env) (tx : Tx) (m : MemStore)
    → IsLedger env m
    → IsLedger env (apply env mem_store tx m).2
apply-IsLedger env tx m inv = go (apply env mem_store tx m) refl
  where
    go :
        (r : Result Error (Unit {0}) × Tx × MemStore)
        → apply env mem_store tx m ≡ r
        → IsLedger env r.2
    go (ok _, tx', m') h = (apply-IsStep env tx tx' m m' inv h).kept
    go (err e, tx', m') h = rw (apply_refused env tx tx' m m' e h) inv
