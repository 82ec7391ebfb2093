-- ===== src/Ledger/Apply/Execute.antt =====
-- The middle of Apply on the in-memory store: the switch on the type, the append to the log and
-- the check of the supply.
use discourse_points_system.Prelude.{
  true, false, [], ◌∷◌, ◌++◌, ◌≡◌, refl, ◌∙◌, arith, if◌then◌else◌, Bool-cases, inl, inr,
}
use discourse_points_system.Prelude.Int.{
  pos, ◌≤ℤ◌, max_int64, eqb_ℤ_iff, int_laws, eq_parts, eq_of_parts,
}
use discourse_points_system.Prelude.Exec.{ok, ◌>>=◌, map_err, fail, bind_inv}
use discourse_points_system.Ledger.Tx.{
  Env, Tx, TxType, Context, wrapped, supply_cap, GenesisPayload, TransferPayload, RotateKeyPayload,
  ReclaimInvalidPayload,
}
use discourse_points_system.Ledger.Store.{Account}
use discourse_points_system.Ledger.MemStore.{
  MemTx, mem_tx, has_hash, insert_tx, total_balance, add_balances, upsert,
}
use discourse_points_system.Ledger.MemStore.Balances.{add_balances-eq-sum}
use discourse_points_system.Ledger.MemStore.Sound.{IsSound, sum}
use discourse_points_system.Ledger.Apply.{
  is_genesis, dispatch, check_supply, execute, requires_full_supply_check,
}
use discourse_points_system.Ledger.Apply.Genesis.{
  IsGenesis, treasury_account, apply_genesis_inv, genesis_effect,
}
use discourse_points_system.Ledger.Apply.Transfer.{IsTransfer, after_transfer, apply_transfer_inv}
use discourse_points_system.Ledger.Apply.TransferEffect.{transfer_effect}
use discourse_points_system.Ledger.Apply.RotateKey.{
  IsRotation, after_rotation, apply_rotate_key_inv, rotation_effect,
}
use discourse_points_system.Ledger.Apply.Reclaim.{
  IsReclaim, after_reclaim, apply_reclaim_invalid_inv, reclaim_effect,
}

-- A handler's success, by the type of the transaction. Types without a handler have no case.
pub data Handled (env : Env) (tx : Tx) (t t₁ : MemTx) : TxType → Type 0 where
  genesis :
      (p : GenesisPayload)
      → IsGenesis env tx t p
      → t₁ ≡ upsert (treasury_account p) t
      → Handled env tx t t₁ TxType.genesis
  transfer :
      (p : TransferPayload) (from : Account)
      → IsTransfer env tx t p from
      → t₁ ≡ after_transfer p from t
      → Handled env tx t t₁ TxType.transfer
  rotation :
      (p : RotateKeyPayload) (old : Account)
      → IsRotation env tx t p old
      → t₁ ≡ after_rotation p old t
      → Handled env tx t t₁ TxType.rotate_key
  reclaim :
      (p : ReclaimInvalidPayload) (admin from : Account)
      → IsReclaim env tx t p admin from
      → t₁ ≡ after_reclaim p admin from t
      → Handled env tx t t₁ TxType.reclaim_invalid

module _ (env : Env) (tx : Tx) (t : MemTx) (v : IsSound t) where
  pub dispatch_inv :
      (ty : TxType) (t₁ : MemTx)
      → dispatch env mem_tx tx ty t ≡ (ok tt, t₁)
      → Handled env tx t t₁ ty
  unfolding dispatch fail
  dispatch_inv TxType.genesis t₁ h =
      let (p, g, e) = apply_genesis_inv env tx t t₁ h in genesis p g e
  dispatch_inv TxType.transfer t₁ h =
      let (p, from, g, e) = apply_transfer_inv env tx t t₁ h in transfer p from g e
  dispatch_inv TxType.rotate_key t₁ h =
      let (p, old, g, e) = apply_rotate_key_inv env tx t v h in rotation p old g e
  dispatch_inv TxType.reclaim_invalid t₁ h =
      let (p, admin, from, g, e) = apply_reclaim_invalid_inv env tx t t₁ h in
      reclaim p admin from g e
  dispatch_inv TxType.rotate_admin t₁ h = absurd (ground arith)
  dispatch_inv TxType.reward_config t₁ h = absurd (ground arith)
  dispatch_inv (TxType.unknown b) t₁ h = absurd (ground arith)

  -- The invariant and the sum after a handler. A genesis starts from no balance at all.
  pub record IsKept (t₁ : MemTx) (ty : TxType) : Type 0 where
    pub sound : IsSound t₁
    pub total : sum t₁ ≡ (if is_genesis ty then supply_cap else sum t)
    pub log : t₁.txs ≡ t.txs

  pub handled-IsKept :
      {t₁ : MemTx} {ty : TxType}
      → Handled env tx t t₁ ty
      → sum t ≤ℤ max_int64
      → (is_genesis ty ≡ true → sum t ≡ pos 0)
      → IsKept t₁ ty
  handled-IsKept (genesis p g e) bounded empty =
      let c = genesis_effect t p v (empty refl) in
      rw e (record { sound = c.sound; total = c.whole; log = c.same_log })
  handled-IsKept (transfer p from g e) bounded empty =
      let c = transfer_effect env tx t p from v bounded g in
      rw e (record { sound = c.sound; total = c.same_sum; log = c.same_log })
  handled-IsKept (rotation p old g e) bounded empty =
      let c = rotation_effect env tx t p old v g in
      rw e (record { sound = c.sound; total = c.same_sum; log = c.same_log })
  handled-IsKept (reclaim p admin from g e) bounded empty =
      let c = reclaim_effect env tx t p admin from v bounded g in
      rw e (record { sound = c.sound; total = c.same_sum; log = c.same_log })

abbrev pub logged : Tx → MemTx → MemTx
logged tx t = record t { txs = t.txs ++ tx ∷ [] }

pub insert_tx_inv :
    (tx : Tx) (t t' : MemTx)
    → map_err (wrapped Context.insert_tx) (insert_tx tx) t ≡ (ok tt, t')
    → (has_hash tx.tx_hash t.txs ≡ false) × (t' ≡ logged tx t)
unfolding insert_tx map_err
insert_tx_inv tx t t' h = ground arith

pub check_supply_same :
    (ty : TxType) (t t' : MemTx) → check_supply mem_tx ty t ≡ (ok tt, t') → t' ≡ t
unfolding check_supply total_balance ◌>>=◌
check_supply_same ty t t' h = ground arith

-- On a store in memory whose maps agree and whose balances are not negative: while the balances
-- add up to the cap, the check of the supply passes, for every type of transaction, and changes
-- nothing.
pub check_supply_passes :
    (ty : TxType) (t : MemTx)
    → IsSound t
    → sum t ≡ supply_cap
    → check_supply mem_tx ty t ≡ (ok tt, t)
unfolding check_supply total_balance ◌>>=◌
check_supply_passes ty t v whole =
    let e : add_balances t.by_discourse_id (pos 0) ≡ supply_cap =
      add_balances-eq-sum t.by_discourse_id (pos 0) v.nonneg (omega arith)
        (omega (int_laws, eq_parts whole))
      ∙ eq_of_parts _ _ (omega (int_laws, eq_parts whole)) in
    elim (Bool-cases (requires_full_supply_check ty)) [
      | inl full ↦ ground (arith, eqb_ℤ_iff (add_balances t.by_discourse_id (pos 0)) supply_cap)
      | inr skip ↦ ground arith
    ]

-- What a success of the middle part did: a handler ran, and the transaction was appended.
pub execute_inv :
    (env : Env) (tx : Tx) (t t' : MemTx)
    → IsSound t
    → execute env mem_tx tx t ≡ (ok tt, t')
    → (t₁ : MemTx) × Handled env tx t t₁ tx.type
      × (has_hash tx.tx_hash t₁.txs ≡ false)
      × (t' ≡ logged tx t₁)
unfolding execute
execute_inv env tx t t' v h = bind_inv _ h λ _ t₁ handled h₁. bind_inv _ h₁ λ _ t₂ inserted h₂.
    let (fresh, e) = insert_tx_inv tx t₁ t₂ inserted in
    (t₁, dispatch_inv env tx t v tx.type t₁ handled, fresh, check_supply_same tx.type t₂ t' h₂ ∙ e)
