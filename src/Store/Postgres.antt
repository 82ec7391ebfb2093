-- ===== src/Store/Postgres.antt =====
-- internal/store/pgstore.go, the transaction of the ledger on Postgres: the tables accounts and
-- transactions, keyed by their primary keys, with their constraints, and the statements on them. A
-- statement that a constraint refuses is an error and writes nothing. Connection errors, and the
-- columns that only the readers of history use, are left out.
pub mod Accept
pub mod Rows
pub mod Transfer
use discourse_points_system.Prelude.{
  ℕ, Bool, true, false, not, ◌&&◌, ◌||◌, Option, none, some, List, [], ◌∷◌, ◌++◌, Bytes, bytes_eq,
  ◌==◌, length, ltb, if◌then◌else◌,
}
use discourse_points_system.Prelude.Int.{ℤ, pos, int_eq, ◌+ℤ◌, ltb_ℤ, leb_ℤ, max_int64}
use discourse_points_system.Prelude.Dict.{Dict, lookup, insert}
use discourse_points_system.Prelude.Exec.{Result, ok, err}
use discourse_points_system.Ledger.Tx.{Env, Tx, TxType, Error, derive_tx_fields}
use discourse_points_system.Ledger.Store.{Account, Action, StoreTx, Store, key_bytes}
use discourse_points_system.Ledger.MemStore.{collect_accounts}

pub record PgTables : Type 0 where
  pub accounts : Dict ℤ Account
  pub transactions : List Tx

pub record PgTx : Type 0 where
  pub tables : PgTables
  pub done : Bool

-- READ COMMITTED, one transaction at a time.
unfoldable pub begin : PgTables → Result Error PgTx
begin db = ok (record { tables = db; done = false })

unfoldable pub commit : PgTx → PgTables → Result Error (Unit {0}) × PgTx × PgTables
commit t db =
    if t.done
    then (err Error.tx_already_done, t, db)
    else (ok tt, record t { done = true }, t.tables)

unfoldable pub rollback : PgTx → PgTables → PgTx × PgTables
rollback t db = (record t { done = true }, db)

-- pg_advisory_xact_lock
unfoldable pub lock_ledger : Action PgTx (Unit {0})
lock_ledger t = (ok tt, t)

abbrev pub has_key : Bytes → Account → Bool
has_key k a = elim a.pubkey [ none ↦ false | some j ↦ k == j ]

-- `WHERE pubkey = $1`: the first row, with its id.
unfoldable pub find_key : Bytes → Dict ℤ Account → Option (ℤ × Account)
find_key k [] = none
find_key k ((did, a) ∷ rows) = if has_key k a then some (did, a) else find_key k rows

unfoldable pub get_account_by_pub_key : Bytes → Action PgTx (Option Account)
unfolding find_key
get_account_by_pub_key [] t = (ok none, t)
get_account_by_pub_key (c ∷ k) t =
    (ok (elim (find_key (c ∷ k) t.tables.accounts) [ none ↦ none | some r ↦ some r.1 ]), t)

unfoldable pub get_account_by_discourse_id : ℤ → Action PgTx (Option Account)
get_account_by_discourse_id did t = (ok (lookup did t.tables.accounts), t)

unfoldable pub get_accounts_by_discourse_ids : List ℤ → Action PgTx (Dict ℤ Account)
get_accounts_by_discourse_ids dids t = (ok (collect_accounts t.tables.accounts dids []), t)

-- UNIQUE (pubkey): a row of another id has the key.
unfoldable pub key_taken : Option Bytes → ℤ → Dict ℤ Account → Bool
key_taken none did rows = false
key_taken (some k) did [] = false
key_taken (some k) did ((e, a) ∷ rows) =
    (not (e == did) && has_key k a) || key_taken (some k) did rows

-- A row that the constraints of migrations/0001_init.sql refuse: UNIQUE (pubkey), and
-- CHECK (balance >= 0).
unfoldable pub violates : Account → Dict ℤ Account → Bool
unfolding key_taken
violates a rows = key_taken a.pubkey a.discourse_id rows || ltb_ℤ a.balance (pos 0)

-- The write of a row.
unfoldable pub write_row : Account → Action PgTx (Unit {0})
unfolding violates
write_row a t = if violates a t.tables.accounts then (err Error.database_refused, t) else (
  ok tt,
  record t { tables = record t.tables { accounts = insert a.discourse_id a t.tables.accounts } },
)

-- `(pending)`
abbrev pub pending : Bytes
pending = b'(' ∷ b'p' ∷ b'e' ∷ b'n' ∷ b'd' ∷ b'i' ∷ b'n' ∷ b'g' ∷ b')' ∷ []

-- The row of the ON CONFLICT DO UPDATE: COALESCE of the keys, and the CASE of the names.
unfoldable pub merged : Account → Account → Account
merged new old = record new {
  pubkey = elim new.pubkey [ none ↦ old.pubkey | some k ↦ some k ];
  username =
      if (new.username == pending) && not (old.username == pending)
      then old.username
      else new.username;
}

-- An empty key is written as NULL.
abbrev pub with_null_key : Account → Account
with_null_key a = record a {
  pubkey = if ltb 0 (length (key_bytes a.pubkey)) then a.pubkey else none;
}

unfoldable pub upsert_account : Account → Action PgTx (Unit {0})
unfolding write_row merged
upsert_account a t = elim (lookup a.discourse_id t.tables.accounts) [
  | none ↦ write_row (with_null_key a) t
  | some old ↦ write_row (merged (with_null_key a) old) t
]

unfoldable pub update_pub_key : Bytes → Bytes → Action PgTx (Unit {0})
unfolding write_row find_key
update_pub_key old new t = elim (find_key old t.tables.accounts) [
  | none ↦ (err Error.unknown_account, t)
  | some r ↦ write_row (record r.1 { discourse_id = r.0; pubkey = some new }) t
]

unfoldable pub update_username_and_pub_key : ℤ → Option Bytes → Bytes → Action PgTx (Unit {0})
unfolding write_row
update_username_and_pub_key did key name t = elim (lookup did t.tables.accounts) [
  | none ↦ (err Error.unknown_account, t)
  | some a ↦ write_row (record a { discourse_id = did; pubkey = key; username = name }) t
]

-- ORDER BY leaf_index DESC LIMIT 1
unfoldable pub last_of : Option Tx → List Tx → Option Tx
last_of best [] = best
last_of none (tx ∷ txs) = last_of (some tx) txs
last_of (some b) (tx ∷ txs) =
    let newer = last_of (some tx) txs in
    let older = last_of (some b) txs in if ltb_ℤ b.leaf_index tx.leaf_index then newer else older

unfoldable pub last_tx : Action PgTx (Option Tx)
unfolding last_of
last_tx t = (ok (last_of none t.tables.transactions), t)

abbrev pub is_genesis : TxType → Bool
is_genesis TxType.genesis = true
is_genesis _ = false

-- CHECK (tx_type IN …)
abbrev pub is_known : TxType → Bool
is_known (TxType.unknown b) = false
is_known _ = true

-- PRIMARY KEY (leaf_index), UNIQUE (tx_hash) and one_genesis: a row in the way.
unfoldable pub in_the_way : Tx → List Tx → Bool
in_the_way tx [] = false
in_the_way tx (x ∷ txs) =
    (x.leaf_index == tx.leaf_index)
    || (x.tx_hash == tx.tx_hash)
    || (is_genesis x.type && is_genesis tx.type)
    || in_the_way tx txs

unfoldable pub insert_tx : Env → Tx → Action PgTx (Unit {0})
unfolding in_the_way
insert_tx env tx t = elim (derive_tx_fields env tx.type tx.payload) [
  | none ↦ (err Error.payload_json, t)
  | some fields ↦
      if not (is_known tx.type) || in_the_way tx t.tables.transactions
      then (err Error.database_refused, t)
      else (
        ok tt,
        record t { tables = record t.tables { transactions = t.tables.transactions ++ tx ∷ [] } },
      )
]

unfoldable pub any_genesis : List Tx → Bool
any_genesis [] = false
any_genesis (tx ∷ txs) = is_genesis tx.type || any_genesis txs

unfoldable pub genesis_exists : Action PgTx Bool
unfolding any_genesis
genesis_exists t = (ok (any_genesis t.tables.transactions), t)

-- SUM is a numeric: a sum that is no int64 cannot be scanned.
unfoldable pub sum_of : Dict ℤ Account → ℤ
sum_of [] = pos 0
sum_of ((did, a) ∷ rows) = a.balance +ℤ sum_of rows

unfoldable pub total_balance : Action PgTx ℤ
unfolding sum_of
total_balance t =
    let total = sum_of t.tables.accounts in
    if ltb_ℤ max_int64 total then (err Error.database_refused, t) else (ok total, t)

abbrev pub pg_tx : Env → StoreTx PgTx
pg_tx env = record {
  lock_ledger = lock_ledger;
  get_account_by_pub_key = get_account_by_pub_key;
  get_account_by_discourse_id = get_account_by_discourse_id;
  get_accounts_by_discourse_ids = get_accounts_by_discourse_ids;
  upsert_account = upsert_account;
  update_pub_key = update_pub_key;
  update_username_and_pub_key = update_username_and_pub_key;
  last_tx = last_tx;
  insert_tx = insert_tx env;
  genesis_exists = genesis_exists;
  total_balance = total_balance;
}

abbrev pub pg_store : Env → Store PgTables PgTx
pg_store env = record { begin = begin; stx = pg_tx env; commit = commit; rollback = rollback }
