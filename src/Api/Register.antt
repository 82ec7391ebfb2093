-- ===== src/Api/Register.antt =====
-- Registration writes an account outside of Apply: the ledger keeps its invariant.
use discourse_points_system.Prelude.{
  true, false, Option, none, some, Bytes, length, nat_eqb, ◌≡◌, refl, sym, ap, ◌∙◌, arith,
  Bool-cases, inl, inr,
}
use discourse_points_system.Prelude.Int.{
  ℤ, pos, int_eq, eqb_ℤ, ◌≤ℤ◌, int_laws, eq_parts, eq_of_parts,
}
use discourse_points_system.Ledger.Tx.{Env}
use discourse_points_system.Ledger.Store.{Account, key_bytes}
use discourse_points_system.Ledger.MemStore.{
  MemStore, MemTx, mem_store, begin, commit, rollback, upsert, upsert_account,
  update_username_and_pub_key, get_account_by_discourse_id,
}
use discourse_points_system.Ledger.MemStore.{register as register_account}
use discourse_points_system.Ledger.MemStore.Index.{register-IsIndexed}
use discourse_points_system.Ledger.MemStore.Balances.{
  balance_of, balance_of-bounds, insert-AreNonneg, sum-insert,
}
use discourse_points_system.Ledger.MemStore.Sound.{
  IsSound, sum, account, upsert-IsSound, sum-upsert, txs-upsert,
}
use discourse_points_system.Ledger.Apply.Inversion.{opened, closed}
use discourse_points_system.Ledger.Invariant.{IsLedger, expected_supply}
use discourse_points_system.Api.{committed, bytes_equal, register_key, register}

-- The accounts and the sum are kept, and so is the log.
pub record Keeps (t t' : MemTx) : Type 0 where
  pub sound : IsSound t'
  pub same_sum : sum t' ≡ sum t
  pub same_log : t'.txs ≡ t.txs

abbrev new_account : ℤ → Bytes → Bytes → Account
new_account id key name = record {
  discourse_id = id;
  pubkey = some key;
  username = name;
  nonce = pos 0;
  balance = pos 0;
}

created-Keeps :
    (id : ℤ) (key name : Bytes) (t : MemTx)
    → IsSound t
    → account id t ≡ none
    → Keeps t (upsert (new_account id key name) t)
created-Keeps id key name t v absent =
    let a = new_account id key name in
    record {
      sound = upsert-IsSound a t (omega arith) v;
      same_sum =
          eq_of_parts _ _
            (omega (int_laws, eq_parts (sum-upsert a t), eq_parts (ap balance_of absent)));
      same_log = txs-upsert a t;
    }

registered-Keeps :
    (id : ℤ) (key name : Bytes) (a : Account) (t : MemTx)
    → IsSound t
    → account id t ≡ some a
    → Keeps t (register_account id (some key) name a t)
unfolding register_account
registered-Keeps id key name a t v at =
    let a' = record a { pubkey = some key; username = name } in
    let nonneg : pos 0 ≤ℤ a.balance =
      rw (ap balance_of at) at (balance_of-bounds id t.by_discourse_id v.nonneg).0 in
    record {
      sound = record {
        indexed = register-IsIndexed t.by_discourse_id t.by_pub_key v.indexed id key name a at;
        nonneg = insert-AreNonneg id a' t.by_discourse_id nonneg v.nonneg;
      };
      same_sum = eq_of_parts _ _ (
          omega
            (int_laws, eq_parts (sum-insert id a' t.by_discourse_id), eq_parts (ap balance_of at)));
      same_log = refl;
    }

Keeps-IsLedger :
    (env : Env) (m : MemStore) (t : MemTx)
    → IsLedger env m
    → Keeps (opened m) t
    → IsLedger env (closed t)
Keeps-IsLedger env m t inv k = record {
  sound = record { indexed = k.sound.indexed; nonneg = k.sound.nonneg };
  supply = k.same_sum ∙ inv.supply ∙ ap expected_supply (sym k.same_log);
  chain = rw k.same_log inv.chain;
}

register_key-IsLedger :
    (env : Env) (id : ℤ) (name key : Bytes) (existing : Option Account) (m : MemStore)
    → IsLedger env m
    → account id (opened m) ≡ existing
    → IsLedger env (register_key mem_store id name key existing (opened m) m).1
unfolding register_key committed upsert_account update_username_and_pub_key commit rollback
register_key-IsLedger env id name key none m inv at =
    Keeps-IsLedger env m _ inv (created-Keeps id key name (opened m) inv.sound at)
register_key-IsLedger env id name key (some a) m inv at =
    let after : MemStore = (register_key mem_store id name key (some a) (opened m) m).1 in
    elim (Bool-cases (nat_eqb (length (key_bytes a.pubkey)) 0)) [
      | inl unset ↦
          let e : after ≡ closed (register_account id (some key) name a (opened m)) =
            ground arith in
          rw e (
            Keeps-IsLedger env m (register_account id (some key) name a (opened m)) inv
              (registered-Keeps id key name a (opened m) inv.sound at))
      | inr set ↦ elim (Bool-cases (bytes_equal (key_bytes a.pubkey) key)) [
        | inl same ↦ let e : after ≡ m = ground arith in rw e inv
        | inr other ↦ let e : after ≡ m = ground arith in rw e inv
      ]
    ]

opened-register :
    (id : ℤ) (name key : Bytes) (m : MemStore)
    → nat_eqb (length key) 32 ≡ true
    → eqb_ℤ id (pos 0) ≡ false
    → (register mem_store (some (id, name)) (some key) m).1
      ≡ (register_key mem_store id name key (account id (opened m)) (opened m) m).1
unfolding register begin get_account_by_discourse_id
opened-register id name key m size user = ground arith

-- A registration keeps the invariant of the ledger in memory, whoever asks, whatever the body and
-- whatever the answer.
pub register-IsLedger :
    (env : Env) (user : Option (ℤ × Bytes)) (body : Option Bytes) (m : MemStore)
    → IsLedger env m
    → IsLedger env (register mem_store user body m).1
unfolding register
register-IsLedger env none body m inv = inv
register-IsLedger env (some user) none m inv = inv
register-IsLedger env (some (id, name)) (some key) m inv =
    let after : MemStore = (register mem_store (some (id, name)) (some key) m).1 in
    elim (Bool-cases (nat_eqb (length key) 32)) [
      | inr size ↦ let e : after ≡ m = ground arith in rw e inv
      | inl size ↦ elim (Bool-cases (eqb_ℤ id (pos 0))) [
        | inl treasury ↦ let e : after ≡ m = ground arith in rw e inv
        | inr user ↦
            let e : after
                ≡ (register_key mem_store id name key (account id (opened m)) (opened m) m).1 =
              opened-register id name key m size user in
            rw e (register_key-IsLedger env id name key (account id (opened m)) m inv refl)
      ]
    ]
