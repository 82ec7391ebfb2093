-- ===== src/Ledger/Tests/Witnesses.antt =====
-- The theorems on the ledger, applied to the runs.
use discourse_points_system.Prelude.{
  HashLength, List, [], ◌∷◌, ◌++◌, length-replicate, ℕ, ◌≡◌, ◌≢◌, ◌↔◌, ◌⊎◌, refl, ap, arith,
}
use discourse_points_system.Prelude.Int.{pos, ◌+ℤ◌, ◌≤ℤ◌, int_laws, max_int64}
use discourse_points_system.Prelude.Exec.{Result, ok}
use discourse_points_system.Prelude.Dict.{lookup, insert}
use discourse_points_system.Ledger.Tx.{
  Tx, Error, GenesisPayload, TransferPayload, RotateKeyPayload, ReclaimInvalidPayload, supply_cap,
}
use discourse_points_system.Ledger.Store.{Account}
use discourse_points_system.Ledger.Apply.{
  apply_genesis, apply_transfer, apply_rotate_key, apply_reclaim_invalid,
}
use discourse_points_system.Ledger.MemStore.{MemTx, mem_tx, new_mem_store, upsert, add_balances}
use discourse_points_system.Ledger.MemStore.Sound.{IsSound, sum, upsert-IsSound}
use discourse_points_system.Ledger.MemStore.Balances.{add_balances-eq-sum, sum_balances}
use discourse_points_system.Ledger.Apply.Inversion.{opened, closed, apply_atomic}
use discourse_points_system.Ledger.Apply.Transfer.{IsTransfer, after_transfer, apply_transfer_iff}
use discourse_points_system.Ledger.Apply.TransferEffect.{Transferred, apply_transfer-Transferred}
use discourse_points_system.Ledger.Apply.RotateKey.{IsRotation, Rotated, apply_rotate_key-Rotated}
use discourse_points_system.Ledger.Apply.Reclaim.{
  IsReclaim, Reclaimed, apply_reclaim_invalid-Reclaimed,
}
use discourse_points_system.Ledger.Apply.Genesis.{IsGenesis, Created, apply_genesis-Created}
use discourse_points_system.Ledger.Apply.Execute.{logged}
use discourse_points_system.Ledger.Invariant.{IsLedger, IsStep, supply-bounded, apply-IsStep}
use discourse_points_system.Ledger.History.{submit_all, submit_all-IsLedger, submit_all-extends}
use discourse_points_system.Ledger.Replay.{transfer_once}
use discourse_points_system.Ledger.Binding.{SameLog, LogCollision, end_hash-inj}
use discourse_points_system.Ledger.Accept.{behind, transfer_accepted}
use discourse_points_system.Ledger.Tests.{
  first_byte, toy_env, genesis_tx, transfer_tx, rotation_tx, reclaim_tx, m₁, m₂, run, runs,
  handlers, fresh, t₀, treasury, invalid, t_reclaim,
}

whole : {A B : Type 0} (r : Result Error (Unit {0}) × A × B) → r.0 ≡ ok tt → r ≡ (ok tt, r.1, r.2)
whole (x, a, b) e = ap (λ (y : Result Error (Unit {0})). (y, a, b)) e

whole_step : {A : Type 0} (r : Result Error (Unit {0}) × A) → r.0 ≡ ok tt → r ≡ (ok tt, r.1)
whole_step (x, a) e = ap (λ (y : Result Error (Unit {0})). (y, a)) e

submit_all-IsLedger_example :
    IsLedger toy_env
      (submit_all toy_env (genesis_tx ∷ transfer_tx ∷ transfer_tx ∷ []) new_mem_store)
submit_all-IsLedger_example =
    submit_all-IsLedger toy_env (genesis_tx ∷ transfer_tx ∷ transfer_tx ∷ [])

m₁-IsLedger : IsLedger toy_env m₁
unfolding submit_all
m₁-IsLedger = submit_all-IsLedger toy_env (genesis_tx ∷ [])

apply-IsStep_example : IsStep toy_env transfer_tx (run transfer_tx m₁).1 m₁ m₂
apply-IsStep_example =
    apply-IsStep toy_env transfer_tx (run transfer_tx m₁).1 m₁ m₂ m₁-IsLedger
      (whole (run transfer_tx m₁) runs.1)

apply_atomic_example : (run transfer_tx m₂).2 ≡ m₂
apply_atomic_example = apply_atomic toy_env transfer_tx m₂ (Error.bad_nonce (pos 2) (pos 1)) runs.2

submit_all-extends_example :
    (more : List Tx) × ((submit_all toy_env (transfer_tx ∷ rotation_tx ∷ []) m₁).txs
      ≡ m₁.txs ++ more)
submit_all-extends_example =
    submit_all-extends toy_env (transfer_tx ∷ rotation_tx ∷ []) m₁ m₁-IsLedger

transfer_once_example : (run transfer_tx m₂).0 ≢ ok tt
transfer_once_example =
    transfer_once toy_env transfer_tx (run transfer_tx m₁).1 transfer_tx m₁ m₂ m₁-IsLedger refl
      (whole (run transfer_tx m₁) runs.1) refl refl

abbrev transferred : MemTx
transferred = (apply_transfer toy_env mem_tx transfer_tx (opened m₁)).1

apply_transfer-Transferred_example :
    (p : TransferPayload) × (from : Account) × IsTransfer toy_env transfer_tx (opened m₁) p from
    × Transferred p from (opened m₁) transferred
apply_transfer-Transferred_example =
    apply_transfer-Transferred toy_env transfer_tx (opened m₁) transferred m₁-IsLedger.sound
      (supply-bounded toy_env m₁ m₁-IsLedger)
      (whole_step (apply_transfer toy_env mem_tx transfer_tx (opened m₁)) handlers.0)

apply_transfer_iff_example :
    (apply_transfer toy_env mem_tx transfer_tx (opened m₁) ≡ (ok tt, transferred)) ↔ (
      (p : TransferPayload) × (from : Account) × IsTransfer toy_env transfer_tx (opened m₁) p from
      × (transferred ≡ after_transfer p from (opened m₁)))
apply_transfer_iff_example = apply_transfer_iff toy_env transfer_tx (opened m₁) transferred

m₂-IsLedger : IsLedger toy_env m₂
unfolding submit_all
m₂-IsLedger = submit_all-IsLedger toy_env (genesis_tx ∷ transfer_tx ∷ [])

abbrev rotated : MemTx
rotated = (apply_rotate_key toy_env mem_tx rotation_tx (opened m₂)).1

apply_rotate_key-Rotated_example :
    (p : RotateKeyPayload) × (old : Account) × IsRotation toy_env rotation_tx (opened m₂) p old
    × Rotated p old (opened m₂) rotated
apply_rotate_key-Rotated_example =
    apply_rotate_key-Rotated toy_env rotation_tx (opened m₂) rotated m₂-IsLedger.sound
      (whole_step (apply_rotate_key toy_env mem_tx rotation_tx (opened m₂)) handlers.1)

t₀-IsLedger : IsLedger toy_env new_mem_store
unfolding submit_all
t₀-IsLedger = submit_all-IsLedger toy_env []

t_reclaim-IsSound : IsSound t_reclaim
t_reclaim-IsSound =
    upsert-IsSound invalid (upsert treasury t₀) (omega arith)
      (upsert-IsSound treasury t₀ (omega arith) t₀-IsLedger.sound)

t_reclaim-sum : sum t_reclaim ≡ supply_cap
unfolding upsert insert lookup ◌+ℤ◌
t_reclaim-sum = refl

abbrev reclaimed : MemTx
reclaimed = (apply_reclaim_invalid toy_env mem_tx reclaim_tx t_reclaim).1

t_reclaim-bounded : sum t_reclaim ≤ℤ max_int64
t_reclaim-bounded = rw t_reclaim-sum (omega arith)

apply_reclaim_invalid-Reclaimed_example :
    (p : ReclaimInvalidPayload) × (admin : Account) × (from : Account) × IsReclaim toy_env
      reclaim_tx t_reclaim p admin from
    × Reclaimed p admin from t_reclaim reclaimed
apply_reclaim_invalid-Reclaimed_example =
    apply_reclaim_invalid-Reclaimed toy_env reclaim_tx t_reclaim reclaimed t_reclaim-IsSound
      t_reclaim-bounded
      (whole_step (apply_reclaim_invalid toy_env mem_tx reclaim_tx t_reclaim) handlers.3)

abbrev created : MemTx
created = (apply_genesis toy_env mem_tx genesis_tx t₀).1

apply_genesis-Created_example :
    (p : GenesisPayload) × IsGenesis toy_env genesis_tx t₀ p × Created p t₀ created
apply_genesis-Created_example =
    apply_genesis-Created toy_env genesis_tx t₀ created t₀-IsLedger.sound t₀-IsLedger.supply
      (whole_step (apply_genesis toy_env mem_tx genesis_tx t₀) handlers.2)

add_balances-eq-sum_example :
    add_balances t_reclaim.by_discourse_id (pos 0) ≡ pos 0 +ℤ sum_balances t_reclaim.by_discourse_id
add_balances-eq-sum_example =
    add_balances-eq-sum t_reclaim.by_discourse_id (pos 0) t_reclaim-IsSound.nonneg (omega arith)
      (omega (int_laws, t_reclaim-bounded))

sized : HashLength toy_env.sha256
sized b = length-replicate {A = ℕ} 32 (first_byte b)

end_hash-inj_example : SameLog m₂.txs m₂.txs ⊎ LogCollision toy_env.sha256 m₂.txs m₂.txs
end_hash-inj_example =
    end_hash-inj toy_env m₂.txs m₂.txs sized m₂-IsLedger.chain m₂-IsLedger.chain refl refl

abbrev guards :
    (p : TransferPayload) × (from : Account) × IsTransfer toy_env transfer_tx (opened m₁) p from
    × (transferred ≡ after_transfer p from (opened m₁))
guards =
    (apply_transfer_iff toy_env transfer_tx (opened m₁) transferred).0
      (whole_step (apply_transfer toy_env mem_tx transfer_tx (opened m₁)) handlers.0)

abbrev first_entry : Tx
first_entry = (run genesis_tx new_mem_store).1

transfer_accepted_example : run transfer_tx m₁ ≡ (
  ok tt,
  behind toy_env transfer_tx first_entry,
  closed (
      logged
        (behind toy_env transfer_tx first_entry)
        (after_transfer guards.0 guards.1 (opened m₁))),
)
transfer_accepted_example =
    transfer_accepted toy_env transfer_tx first_entry m₁ guards.0 guards.1 sized m₁-IsLedger.chain
      fresh.0 refl fresh.1 guards.2 fresh.2
