-- ===== src/Audit.antt =====
-- cmd/ledger-verify/main.go: what a third party checks of the downloaded log. The leaves are
-- those of the server after their base64 and hexadecimal fields are decoded; `fatal` is an error.
pub mod Accepts
pub mod Head
pub mod Download
mod Tests
use discourse_points_system.Prelude.{
  ℕ, suc, Bool, true, false, not, ◌||◌, Option, none, some, List, [], ◌∷◌, ◌++◌, map, Bytes,
  replicate, length, nat_eqb, if◌then◌else◌,
}
use discourse_points_system.Prelude.Int.{ℤ, pos, eqb_ℤ, leb_ℤ}
use discourse_points_system.Prelude.Exec.{Result, ok, err}
use discourse_points_system.Ledger.Tx.{Env, Tx, TxType, supply_cap}
use discourse_points_system.Merkle.{root}

pub data AuditError : Type 0 where
  chain_broken tx_hash_wrong signature_invalid : ℕ → AuditError
  root_mismatch no_genesis : AuditError
  undecoded no_leaves : ℤ → AuditError
  genesis_amount : ℤ → ℤ → AuditError
  transfer_amount reclaim_payload : ℤ → AuditError

-- The loop of `bytesEq`, over the indices of `a`, behind its test of the lengths.
unfoldable pub bytes_eq_from : Bytes → Bytes → Bool
bytes_eq_from [] b = true
bytes_eq_from (x ∷ a) [] = false
bytes_eq_from (x ∷ a) (y ∷ b) =
    let rest = bytes_eq_from a b in if not (nat_eqb x y) then false else rest

unfoldable pub bytes_same : Bytes → Bytes → Bool
unfolding bytes_eq_from
bytes_same a b = if not (nat_eqb (length a) (length b)) then false else bytes_eq_from a b

module _ (env : Env) where
  -- Step 3, over the leaves from index `i` on.
  unfoldable pub check_chain : Bytes → ℕ → List Tx → Result AuditError (Unit {0})
  check_chain prev i [] = ok tt
  check_chain prev i (lf ∷ leaves) =
      let rest = check_chain lf.tx_hash (suc i) leaves in
      if not (bytes_same lf.prev_hash prev)
      then err (chain_broken i)
      else if not (bytes_same (env.sha256 (lf.payload ++ (lf.sig ++ lf.prev_hash))) lf.tx_hash)
      then err (tx_hash_wrong i)
      else if not (env.ed25519_verify lf.signer lf.payload lf.sig)
      then err (signature_invalid i)
      else rest

  -- The body of the loop of step 5, for one leaf: the amount of the last genesis.
  unfoldable pub check_payload : ℤ → Tx → TxType → Result AuditError ℤ
  check_payload amount lf TxType.genesis = elim (env.unmarshal_genesis lf.payload) [
    | none ↦ err (undecoded lf.leaf_index)
    | some p ↦
        if not (eqb_ℤ p.amount supply_cap)
        then err (AuditError.genesis_amount lf.leaf_index p.amount)
        else ok p.amount
  ]
  check_payload amount lf TxType.transfer = elim (env.unmarshal_transfer lf.payload) [
    | none ↦ err (undecoded lf.leaf_index)
    | some p ↦ if leb_ℤ p.amount (pos 0) then err (transfer_amount lf.leaf_index) else ok amount
  ]
  check_payload amount lf TxType.reclaim_invalid = elim (env.unmarshal_reclaim_invalid lf.payload) [
    | none ↦ err (undecoded lf.leaf_index)
    | some p ↦
        if leb_ℤ (pos 0) p.from_discourse_id || leb_ℤ p.amount (pos 0)
        then err (reclaim_payload lf.leaf_index)
        else ok amount
  ]
  check_payload amount lf _ = ok amount

  unfoldable pub check_payloads : ℤ → List Tx → Result AuditError ℤ
  check_payloads amount [] = ok amount
  check_payloads amount (lf ∷ leaves) = elim (check_payload amount lf lf.type) [
    | err e ↦ err e
    | ok amount' ↦ check_payloads amount' leaves
  ]

  -- Steps 3 to 5, for the root that the signed tree head names.
  unfoldable pub audit : Bytes → List Tx → Result AuditError (Unit {0})
  audit root_hash leaves = elim (check_chain (replicate 32 0) 0 leaves) [
    | err e ↦ err e
    | ok _ ↦
        if not (bytes_same (root env.sha256 (map (λ (lf : Tx). lf.tx_hash) leaves)) root_hash)
        then err root_mismatch
        else elim (check_payloads (pos 0) leaves) [
          | err e ↦ err e
          | ok amount ↦ if not (eqb_ℤ amount supply_cap) then err no_genesis else ok tt
        ]
  ]
