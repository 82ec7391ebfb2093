-- ===== src/Store/Tests.antt =====
-- Statements on a table of two accounts, one of them refused, and a transfer from a treasury.
use discourse_points_system.Prelude.{
  ℕ, false, some, [], ◌∷◌, Bytes, bytes_eqb, codes, replicate, ◌≡◌, ◌≢◌, ◌⊎◌, refl, arith,
}
use discourse_points_system.Prelude.Int.{
  ℤ, pos, int_eq, eqb_ℤ_iff, add64, sub64, int_laws, wrap64, ◌+ℤ◌, ◌-ℤ◌,
}
use discourse_points_system.Prelude.Dict.{lookup, insert}
use discourse_points_system.Prelude.Exec.{ok, err, ◌>>=◌}
use discourse_points_system.Ledger.Tx.{Error}
use discourse_points_system.Ledger.Store.{Account}
use discourse_points_system.Store.Postgres.{
  PgTx, pg_tx, get_account_by_pub_key, get_account_by_discourse_id, upsert_account, update_pub_key,
  write_row, find_key, merged, violates,
}
use discourse_points_system.Store.Postgres.Rows.{IsTable, rows_of}
use discourse_points_system.Store.Postgres.Transfer.{IsRowTransfer, RowsMoved}
use discourse_points_system.Store.Postgres.Accept.{IsUnique, IsGuarded, pg_transfer_cases}
use discourse_points_system.Ledger.Tx.{TransferPayload, meta_string}
use discourse_points_system.Ledger.Apply.{apply_transfer, equal_bytes, recipient, pending_username}
use discourse_points_system.Ledger.Tests.{toy_env, genesis_tx, transfer_tx}

abbrev key : ℕ → Bytes
key n = replicate 32 n

abbrev row : ℤ → ℕ → Account
row did n = record {
  discourse_id = did;
  pubkey = some (key n);
  username = codes "ann";
  nonce = pos 0;
  balance = pos 9;
}

abbrev t₀ : PgTx
t₀ = record { tables = record { accounts = []; transactions = [] }; done = false }

abbrev t₁ : PgTx
t₁ = (upsert_account (row (pos 1) 7) t₀).1

abbrev t₂ : PgTx
t₂ = (upsert_account (row (pos 2) 8) t₁).1

-- A key that another account has is refused.
refuses :
    ((upsert_account (row (pos 2) 8) t₁).0 ≡ ok tt)
    × ((update_pub_key (key 8) (key 7) t₂).0 ≡ err Error.database_refused)
    × ((update_pub_key (key 8) (key 9) t₂).0 ≡ ok tt)
unfolding upsert_account update_pub_key write_row violates find_key merged lookup insert bytes_eqb
refuses = (refl, refl, refl)

-- The tables after a genesis transaction whose treasury has key 7.
abbrev treasury : Account
treasury = record {
  discourse_id = pos 0;
  pubkey = some (key 7);
  username = [];
  nonce = pos 0;
  balance = pos 50_000_000;
}

abbrev funded : PgTx
funded = record {
  tables = record { accounts = (pos 0, treasury) ∷ []; transactions = genesis_tx ∷ [] };
  done = false;
}

funded-IsTable : IsTable (rows_of funded)
unfolding lookup
funded-IsTable = record {
  named = λ did a h. ground (arith, eqb_ℤ_iff did (pos 0));
  keyed = (refl, tt);
  nonneg = (ground arith, tt);
}

abbrev paid : PgTx
paid = (apply_transfer toy_env (pg_tx toy_env) transfer_tx funded).1

pays : apply_transfer toy_env (pg_tx toy_env) transfer_tx funded ≡ (ok tt, paid)
unfolding apply_transfer equal_bytes recipient pending_username meta_string ◌>>=◌
    get_account_by_pub_key get_account_by_discourse_id upsert_account write_row violates find_key
    merged lookup insert bytes_eqb add64 sub64 wrap64 ◌+ℤ◌ ◌-ℤ◌
pays = refl

funded-IsUnique : IsUnique (rows_of funded)
unfolding lookup
funded-IsUnique d a k at has e b at' has' = ground (arith, eqb_ℤ_iff d (pos 0), eqb_ℤ_iff e (pos 0))

pg_transfer_cases_example :
    (((apply_transfer toy_env (pg_tx toy_env) transfer_tx funded).0 ≡ ok tt)
      × ((p : TransferPayload) × (from : Account) × IsRowTransfer toy_env transfer_tx funded p from
          × RowsMoved p from funded paid))
    ⊎ (((apply_transfer toy_env (pg_tx toy_env) transfer_tx funded).0 ≢ ok tt)
        × ¬ IsGuarded toy_env transfer_tx funded)
pg_transfer_cases_example =
    pg_transfer_cases toy_env transfer_tx funded funded-IsTable funded-IsUnique (omega int_laws)
