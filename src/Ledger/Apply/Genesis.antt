-- ===== src/Ledger/Apply/Genesis.antt =====
-- applyGenesis on the in-memory store: its guards, what it writes, and what that does.
use discourse_points_system.Prelude.{some, Bool, false, length, ◌≡◌, ◌≢◌, refl, arith}
use discourse_points_system.Prelude.Int.{ℤ, pos, eqb_ℤ_iff, int_laws, eq_parts, eq_of_parts}
use discourse_points_system.Prelude.Exec.{Result, ok, ◌>>=◌, or_fail_inv, fail_if_inv}
use discourse_points_system.Ledger.Tx.{Env, Error, Tx, GenesisPayload, supply_cap, treasury_dsc_id}
use discourse_points_system.Ledger.Store.{Account, Action}
use discourse_points_system.Ledger.MemStore.{
  MemTx, mem_tx, any_genesis, genesis_exists, upsert, upsert_account,
}
use discourse_points_system.Ledger.MemStore.Balances.{balance_of-bounds}
use discourse_points_system.Ledger.MemStore.Sound.{
  IsSound, sum, account, account-upsert_ne, account-upsert_self, sum-upsert, txs-upsert,
  upsert-IsSound,
}
use discourse_points_system.Ledger.Apply.{apply_genesis, treasury_username}
use discourse_points_system.Ledger.Apply.EqualBytes.{equal_bytes_iff}

-- The guards of applyGenesis.
pub record IsGenesis (env : Env) (tx : Tx) (t : MemTx) (p : GenesisPayload) : Type 0 where
  pub first : any_genesis t.txs ≡ false
  pub parsed : env.unmarshal_genesis tx.payload ≡ some p
  pub key_size : length p.to ≡ 32
  pub whole_supply : p.amount ≡ supply_cap
  pub by_signer : tx.signer ≡ p.to

abbrev pub treasury_account : GenesisPayload → Account
treasury_account p = record {
  discourse_id = treasury_dsc_id;
  pubkey = some p.to;
  username = treasury_username p.treasury_user;
  nonce = pos 0;
  balance = supply_cap;
}

module _ (env : Env) (tx : Tx) (t t' : MemTx) where
  exists_inv :
      (m : Bool → Action MemTx (Unit {0})) {r : Result Error (Unit {0}) × MemTx}
      → (genesis_exists >>= m) t ≡ r
      → m (any_genesis t.txs) t ≡ r
  unfolding genesis_exists ◌>>=◌
  exists_inv m h = h

  written :
      (p : GenesisPayload)
      → upsert_account (treasury_account p) t ≡ (ok tt, t')
      → t' ≡ upsert (treasury_account p) t
  unfolding upsert_account
  written p h = ground arith

  -- A genesis succeeds only if all its guards hold, and then it has written the treasury.
  pub apply_genesis_inv :
      apply_genesis env mem_tx tx t ≡ (ok tt, t')
      → (p : GenesisPayload) × IsGenesis env tx t p × (t' ≡ upsert (treasury_account p) t)
  unfolding apply_genesis
  apply_genesis_inv h = fail_if_inv _ _ (exists_inv _ h) λ first h₁.
      or_fail_inv _ _ h₁ λ p parsed h₂. fail_if_inv _ _ h₂ λ sized h₃.
        fail_if_inv _ _ h₃ λ whole h₄. fail_if_inv _ _ h₄ λ signed h₅. (
          p,
          record {
            first = first;
            parsed = parsed;
            key_size = ground arith;
            whole_supply = ground (arith, eqb_ℤ_iff p.amount supply_cap);
            by_signer = ground (arith, equal_bytes_iff tx.signer p.to);
          },
          written p h₅,
        )

-- What a genesis does where no balance is there yet: the treasury has the whole supply.
pub record Created (p : GenesisPayload) (t t' : MemTx) : Type 0 where
  pub sound : IsSound t'
  pub whole : sum t' ≡ supply_cap
  pub same_log : t'.txs ≡ t.txs
  pub treasury : account (pos 0) t' ≡ some (treasury_account p)
  pub others : (did : ℤ) → did ≢ pos 0 → account did t' ≡ account did t

pub genesis_effect :
    (t : MemTx) (p : GenesisPayload)
    → IsSound t
    → sum t ≡ pos 0
    → Created p t (upsert (treasury_account p) t)
genesis_effect t p v empty = record {
  sound = upsert-IsSound (treasury_account p) t (omega arith) v;
  whole = eq_of_parts _ _ (
      omega (
        int_laws,
        eq_parts (sum-upsert (treasury_account p) t),
        eq_parts empty,
        balance_of-bounds (pos 0) t.by_discourse_id v.nonneg,
      ));
  same_log = txs-upsert (treasury_account p) t;
  treasury = account-upsert_self (pos 0) (treasury_account p) t refl;
  others = λ did ne. account-upsert_ne did (treasury_account p) t ne;
}

-- On a store in memory whose maps agree and whose balances add up to zero, none negative: a
-- genesis that succeeds was the first, named its signer as the treasury's key and the whole
-- supply as its amount, and gives the treasury the whole supply.
pub apply_genesis-Created :
    (env : Env) (tx : Tx) (t t' : MemTx)
    → IsSound t
    → sum t ≡ pos 0
    → apply_genesis env mem_tx tx t ≡ (ok tt, t')
    → (p : GenesisPayload) × IsGenesis env tx t p × Created p t t'
apply_genesis-Created env tx t t' v empty h =
    let (p, g, e) = apply_genesis_inv env tx t t' h in (p, g, rw e (genesis_effect t p v empty))
