-- ===== src/Audit/Accepts.antt =====
-- The audit passes on every log that Apply has written.
use discourse_points_system.Prelude.{
  ℕ, suc, ◌<◌, true, some, List, [], ◌∷◌, ◌++◌, map, Bytes, length, Bool-cases, inl, inr, ◌≡◌, refl,
  sym, ap, ◌∙◌, arith, if◌then◌else◌,
}
use discourse_points_system.Prelude.Int.{ℤ, pos, negsuc, ◌≤ℤ◌, eqb_ℤ_iff}
use discourse_points_system.Prelude.Exec.{Result, ok, err}
use discourse_points_system.Ledger.Tx.{
  Env, Tx, TxType, GenesisPayload, TransferPayload, ReclaimInvalidPayload, supply_cap, verify_sig,
  zero_hash, hash_tx, Error,
}
use discourse_points_system.Ledger.MemStore.{MemStore, MemTx, mem_store, new_mem_store}
use discourse_points_system.Ledger.Apply.{apply, is_genesis}
use discourse_points_system.Ledger.Apply.Inversion.{opened, apply_refused}
use discourse_points_system.Ledger.Apply.Execute.{Handled}
use discourse_points_system.Ledger.Chain.{IsChain}
use discourse_points_system.Ledger.Invariant.{IsLedger, apply-IsStep, apply-IsLedger, accepted_inv}
use discourse_points_system.Ledger.History.{submit_all, submit_all-IsLedger}
use discourse_points_system.Merkle.{root}
use discourse_points_system.Audit.{
  bytes_eq_from, bytes_same, check_chain, check_payload, check_payloads, audit,
}

bytes_same_refl : (a : Bytes) → bytes_same a a ≡ true
unfolding bytes_same
bytes_same_refl a = ground (arith, loop a)
  where
    loop : (a : Bytes) → bytes_eq_from a a ≡ true
    loop [] = refl
    loop (x ∷ a) = ground (arith, loop a)

bytes_same_eq : (a b : Bytes) → a ≡ b → bytes_same a b ≡ true
bytes_same_eq a b e = rw e (bytes_same_refl b)

verified :
    (env : Env) (signer payload sig : Bytes)
    → verify_sig env signer payload sig ≡ true
    → env.ed25519_verify signer payload sig ≡ true
unfolding verify_sig
verified env signer payload sig h = ground arith

check_chain-ok :
    (env : Env) (prev : Bytes) (i : ℕ) (leaves : List Tx)
    → IsChain env prev i leaves
    → check_chain env prev i leaves ≡ ok tt
unfolding check_chain
check_chain-ok env prev i [] c = refl
check_chain-ok env prev i (lf ∷ leaves) c =
    let l = c.0 in
    let same = bytes_same_eq lf.prev_hash prev l.follows in
    let hashed =
      bytes_same_eq (env.sha256 (lf.payload ++ (lf.sig ++ lf.prev_hash))) lf.tx_hash
        (ap (λ (q : Bytes). hash_tx env lf.payload lf.sig q) l.follows ∙ sym l.hashed) in
    let signed = verified env lf.signer lf.payload lf.sig l.signed in
    let rest = check_chain-ok env lf.tx_hash (suc i) leaves c.1 in ground arith

-- What step 5 wants of an entry's payload.
abbrev pub Passes : Env → Tx → TxType → Type 0
Passes env tx TxType.genesis =
    (p : GenesisPayload) × (env.unmarshal_genesis tx.payload ≡ some p) × (p.amount ≡ supply_cap)
Passes env tx TxType.transfer =
    (p : TransferPayload) × (env.unmarshal_transfer tx.payload ≡ some p) × (pos 1 ≤ℤ p.amount)
Passes env tx TxType.reclaim_invalid =
    (p : ReclaimInvalidPayload) × (env.unmarshal_reclaim_invalid tx.payload ≡ some p)
    × (p.from_discourse_id ≤ℤ negsuc 0)
    × (pos 1 ≤ℤ p.amount)
Passes env tx TxType.rotate_key = Unit
Passes env tx TxType.rotate_admin = Unit
Passes env tx TxType.reward_config = Unit
Passes env tx (TxType.unknown b) = Unit

abbrev pub AllPass : Env → List Tx → Type 0
AllPass env [] = Unit
AllPass env (tx ∷ txs) = Passes env tx tx.type × AllPass env txs

AllPass-append_one :
    (env : Env) (txs : List Tx) (tx : Tx)
    → AllPass env txs
    → Passes env tx tx.type
    → AllPass env (txs ++ tx ∷ [])
AllPass-append_one env [] tx all one = (one, tt)
AllPass-append_one env (x ∷ txs) tx all one = (all.0, AllPass-append_one env txs tx all.1 one)

handled-Passes :
    (env : Env) (tx : Tx) (t t₁ : MemTx) (ty : TxType) → Handled env tx t t₁ ty → Passes env tx ty
handled-Passes env tx t t₁ ty (Handled.genesis p g e) = (p, g.parsed, g.whole_supply)
handled-Passes env tx t t₁ ty (Handled.transfer p from g e) = (p, g.parsed, g.positive)
handled-Passes env tx t t₁ ty (Handled.rotation p old g e) = tt
handled-Passes env tx t t₁ ty (Handled.reclaim p admin from g e) =
    (p, g.parsed, g.invalid_id, g.positive)

check_payload-ok :
    (env : Env) (amount : ℤ) (tx : Tx) (ty : TxType)
    → Passes env tx ty
    → check_payload env amount tx ty ≡ ok (if is_genesis ty then supply_cap else amount)
unfolding check_payload
check_payload-ok env amount tx TxType.genesis (p, e, h) =
    ground (arith, eqb_ℤ_iff p.amount supply_cap)
check_payload-ok env amount tx TxType.transfer (p, e, h) = ground arith
check_payload-ok env amount tx TxType.reclaim_invalid (p, e, h, g) = ground arith
check_payload-ok env amount tx TxType.rotate_key h = refl
check_payload-ok env amount tx TxType.rotate_admin h = refl
check_payload-ok env amount tx TxType.reward_config h = refl
check_payload-ok env amount tx (TxType.unknown b) h = refl

check_payloads-ok :
    (env : Env) (leaves : List Tx)
    → AllPass env leaves
    → check_payloads env supply_cap leaves ≡ ok supply_cap
unfolding check_payloads
check_payloads-ok env [] all = refl
check_payloads-ok env (lf ∷ leaves) all =
    let one = check_payload-ok env supply_cap lf lf.type all.0 in
    let rest = check_payloads-ok env leaves all.1 in
    elim (Bool-cases (is_genesis lf.type)) [ inl e ↦ ground arith | inr e ↦ ground arith ]

payloads-ok :
    (env : Env) (prev : Bytes) (leaves : List Tx)
    → 0 < length leaves
    → IsChain env prev 0 leaves
    → AllPass env leaves
    → check_payloads env (pos 0) leaves ≡ ok supply_cap
unfolding check_payloads
payloads-ok env prev [] some_leaf c all = absurd (omega arith)
payloads-ok env prev (lf ∷ leaves) some_leaf c all =
    let first = c.0.genesis_first in
    let one = check_payload-ok env (pos 0) lf lf.type all.0 in
    let rest = check_payloads-ok env leaves all.1 in ground arith

apply-AllPass :
    (env : Env) (tx : Tx) (m : MemStore)
    → IsLedger env m
    → AllPass env m.txs
    → AllPass env (apply env mem_store tx m).2.txs
apply-AllPass env tx m inv all = go (apply env mem_store tx m) refl
  where
    go :
        (r : Result Error (Unit {0}) × Tx × MemStore)
        → apply env mem_store tx m ≡ r
        → AllPass env r.2.txs
    go (err e, tx', m') h = rw (apply_refused env tx tx' m m' e h) all
    go (ok _, tx', m') h =
        let (t₁, handled, _, _, _, _) = accepted_inv env tx tx' m m' inv h in
        rw ((apply-IsStep env tx tx' m m' inv h).appended) (
          AllPass-append_one env m.txs tx' all
            (handled-Passes env tx' (opened m) t₁ tx'.type handled))

submit_all-AllPass :
    (env : Env) (txs : List Tx) (m : MemStore)
    → IsLedger env m
    → AllPass env m.txs
    → AllPass env (submit_all env txs m).txs
unfolding submit_all
submit_all-AllPass env [] m inv all = all
submit_all-AllPass env (tx ∷ txs) m inv all =
    submit_all-AllPass env txs (apply env mem_store tx m).2 (apply-IsLedger env tx m inv)
      (apply-AllPass env tx m inv all)

empty-IsLedger : (env : Env) → IsLedger env new_mem_store
unfolding submit_all
empty-IsLedger env = submit_all-IsLedger env []

audit-ok :
    (env : Env) (leaves : List Tx)
    → 0 < length leaves
    → IsChain env zero_hash 0 leaves
    → AllPass env leaves
    → audit env (root env.sha256 (map (λ (lf : Tx). lf.tx_hash) leaves)) leaves ≡ ok tt
unfolding audit zero_hash
audit-ok env leaves some_leaf c all =
    let chained = check_chain-ok env zero_hash 0 leaves c in
    let same = bytes_same_refl (root env.sha256 (map (λ (lf : Tx). lf.tx_hash) leaves)) in
    let paid = payloads-ok env zero_hash leaves some_leaf c all in
    ground (arith, eqb_ℤ_iff supply_cap supply_cap)

-- The audit of ledger-verify, its steps on the chain, the Merkle root and the payloads, passes on
-- the log that any submissions to a new ledger in memory leave, if it has an entry and the tree
-- head names the root of the entries' hashes.
pub audit_passes :
    (env : Env) (txs : List Tx)
    → 0 < length (submit_all env txs new_mem_store).txs
    → audit env
        (root env.sha256 (map (λ (lf : Tx). lf.tx_hash) (submit_all env txs new_mem_store).txs))
        (submit_all env txs new_mem_store).txs
      ≡ ok tt
audit_passes env txs some_leaf =
    audit-ok env (submit_all env txs new_mem_store).txs some_leaf
      (submit_all-IsLedger env txs).chain
      (submit_all-AllPass env txs new_mem_store (empty-IsLedger env) tt)
