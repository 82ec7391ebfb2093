-- ===== src/Ledger/Tests.antt =====
-- Runs of the ledger in memory on a toy environment.
mod Witnesses
use discourse_points_system.Prelude.{
  ℕ, bytes_eqb, Bool, true, false, Option, none, some, List, [], ◌∷◌, Bytes, codes, replicate, ◌≡◌,
  refl, ap, nat_eqb, get_last?, length, ◌≢◌, arith,
}
use discourse_points_system.Prelude.Int.{ℤ, pos, negsuc, add64, sub64, wrap64, ◌+ℤ◌, ◌-ℤ◌}
use discourse_points_system.Prelude.Exec.{Result, ok, err, ◌>>=◌}
use discourse_points_system.Prelude.Dict.{lookup, insert, erase}
use discourse_points_system.Ledger.Tx.{
  Env, Tx, TxType, Error, GenesisPayload, TransferPayload, RotateKeyPayload, ReclaimInvalidPayload,
  supply_cap, build, verify_sig, zero_hash, meta_string,
}
use discourse_points_system.Ledger.Store.{Account}
use discourse_points_system.Ledger.Apply.{
  apply, apply_within, execute, dispatch, position, apply_genesis, apply_transfer, apply_rotate_key,
  apply_reclaim_invalid, check_supply, equal_bytes, recipient, pending_username, treasury_username,
  requires_full_supply_check,
}
use discourse_points_system.Ledger.MemStore.{
  MemStore, MemTx, mem_store, mem_tx, new_mem_store, begin, commit, rollback, lock_ledger, last_tx,
  insert_tx, genesis_exists, total_balance, upsert_account, update_pub_key, get_account_by_pub_key,
  get_account_by_discourse_id, note_key, forget_key, upsert, has_hash,
}
use discourse_points_system.Ledger.Apply.Inversion.{opened}
use discourse_points_system.Ledger.Accept.{behind}
use discourse_points_system.Ledger.Invariant.{IsLedger}
use discourse_points_system.Ledger.History.{submit_all, submit_all-IsLedger}

abbrev pub first_byte : Bytes → ℕ
first_byte [] = 0
first_byte (b ∷ bs) = b

abbrev pub key : ℕ → Bytes
key n = replicate 32 n

-- A hash that tells the payloads below apart, a signature that repeats the payload's first byte, and a decoder that
-- gives one payload for each type.
abbrev pub toy_env : Env
toy_env = record {
  sha256 = λ b. replicate 32 (first_byte b);
  ed25519_verify = λ key payload sig. nat_eqb (first_byte sig) (first_byte payload);
  ed25519_sign = λ key payload. replicate 64 (first_byte payload);
  unmarshal_genesis =
      λ _. some (record { to = key 7; treasury_user = []; amount = supply_cap; memo = [] });
  unmarshal_transfer = λ _. some (record {
    from = key 7;
    to_discourse_id = pos 5;
    amount = pos 100;
    nonce = pos 1;
    meta = [];
  });
  unmarshal_rotate_key =
      λ _. some (record { old_pub_key = key 7; new_pub_key = key 8; nonce = pos 2 });
  unmarshal_reclaim_invalid = λ _. some (record {
    admin = key 7;
    from_discourse_id = negsuc 2;
    amount = pos 50;
    nonce = pos 1;
    memo = [];
  });
}

abbrev pub toy_tx : TxType → ℕ → ℕ → Tx
toy_tx t payload signer = record {
  leaf_index = pos 0;
  type = t;
  payload = payload ∷ [];
  sig = replicate 64 payload;
  signer = key signer;
  prev_hash = [];
  tx_hash = [];
}

abbrev pub genesis_tx : Tx
genesis_tx = toy_tx TxType.genesis 1 7

abbrev pub transfer_tx : Tx
transfer_tx = toy_tx TxType.transfer 2 7

abbrev pub rotation_tx : Tx
rotation_tx = toy_tx TxType.rotate_key 3 7

abbrev pub reclaim_tx : Tx
reclaim_tx = toy_tx TxType.reclaim_invalid 4 7

-- A store's state after the run of a transaction, and the transaction as it was logged.
abbrev pub run : Tx → MemStore → Result Error (Unit {0}) × Tx × MemStore
run tx m = apply toy_env mem_store tx m

abbrev pub m₁ : MemStore
m₁ = (run genesis_tx new_mem_store).2

abbrev pub m₂ : MemStore
m₂ = (run transfer_tx m₁).2

pub runs :
    ((run genesis_tx new_mem_store).0 ≡ ok tt)
    × ((run transfer_tx m₁).0 ≡ ok tt)
    × ((run transfer_tx m₂).0 ≡ err (Error.bad_nonce (pos 2) (pos 1)))
    × ((run rotation_tx m₂).0 ≡ ok tt)
    × ((run genesis_tx m₂).0 ≡ err Error.genesis_exists)
    × ((run transfer_tx new_mem_store).0 ≡ err (Error.first_tx_not_genesis TxType.transfer))
unfolding apply apply_within execute dispatch position apply_genesis apply_transfer apply_rotate_key
    check_supply equal_bytes recipient pending_username treasury_username requires_full_supply_check
    begin commit rollback lock_ledger last_tx insert_tx genesis_exists total_balance upsert_account
    update_pub_key get_account_by_pub_key get_account_by_discourse_id note_key forget_key build
    verify_sig ◌>>=◌ bytes_eqb lookup insert erase zero_hash meta_string add64 sub64 wrap64 ◌+ℤ◌
    ◌-ℤ◌
runs = (refl, refl, refl, refl, refl, refl)

-- A treasury that holds all but 50, and an account with an invalid id that holds those.
abbrev pub treasury : Account
treasury = record {
  discourse_id = pos 0;
  pubkey = some (key 7);
  username = [];
  nonce = pos 0;
  balance = pos 49_999_950;
}

abbrev pub invalid : Account
invalid = record {
  discourse_id = negsuc 2;
  pubkey = none;
  username = [];
  nonce = pos 0;
  balance = pos 50;
}

abbrev pub t₀ : MemTx
t₀ = record { by_discourse_id = []; by_pub_key = []; txs = []; done = false }

abbrev pub t_reclaim : MemTx
t_reclaim = upsert invalid (upsert treasury t₀)

pub handlers :
    ((apply_transfer toy_env mem_tx transfer_tx (opened m₁)).0 ≡ ok tt)
    × ((apply_rotate_key toy_env mem_tx rotation_tx (opened m₂)).0 ≡ ok tt)
    × ((apply_genesis toy_env mem_tx genesis_tx t₀).0 ≡ ok tt)
    × ((apply_reclaim_invalid toy_env mem_tx reclaim_tx t_reclaim).0 ≡ ok tt)
unfolding apply apply_within execute dispatch position apply_genesis apply_transfer apply_rotate_key
    check_supply equal_bytes recipient pending_username treasury_username requires_full_supply_check
    begin commit rollback genesis_exists total_balance upsert_account update_pub_key
    get_account_by_pub_key get_account_by_discourse_id note_key forget_key build verify_sig ◌>>=◌
    bytes_eqb lookup insert erase zero_hash meta_string add64 sub64 wrap64 ◌+ℤ◌ ◌-ℤ◌ upsert
    apply_reclaim_invalid lock_ledger last_tx insert_tx
handlers = (refl, refl, refl, refl)

pub fresh :
    (get_last? m₁.txs ≡ some (run genesis_tx new_mem_store).1)
    × (verify_sig toy_env transfer_tx.signer transfer_tx.payload transfer_tx.sig ≡ true)
    × (has_hash (behind toy_env transfer_tx (run genesis_tx new_mem_store).1).tx_hash m₁.txs
        ≡ false)
unfolding apply apply_within execute dispatch position apply_genesis apply_transfer apply_rotate_key
    check_supply equal_bytes recipient pending_username treasury_username requires_full_supply_check
    begin commit rollback genesis_exists total_balance upsert_account update_pub_key
    get_account_by_pub_key get_account_by_discourse_id note_key forget_key build verify_sig ◌>>=◌
    bytes_eqb lookup insert erase zero_hash meta_string add64 sub64 wrap64 ◌+ℤ◌ ◌-ℤ◌ upsert
    apply_reclaim_invalid lock_ledger last_tx insert_tx has_hash
fresh = (refl, refl, refl)
