-- ===== src/Ledger/MemStore.antt =====
-- internal/ledger/memstore.go: the store that Apply is used with in memory. A transaction works
-- on copies, so a state of it is a value; the mutex of the parent guards single calls only.
pub mod Index
pub mod Sound
pub mod Balances
pub mod Keeps
use discourse_points_system.Prelude.{
  Bool, true, false, ◌||◌, Option, none, some, List, [], ◌∷◌, ◌++◌, Bytes, ◌==◌, bytes_eq, ltb,
  length, get_last?, if◌then◌else◌,
}
use discourse_points_system.Prelude.Int.{ℤ, pos, add64, int_eq}
use discourse_points_system.Prelude.Dict.{Dict, lookup, insert, erase}
use discourse_points_system.Prelude.Exec.{Result, ok, err}
use discourse_points_system.Ledger.Tx.{Tx, TxType, Error}
use discourse_points_system.Ledger.Store.{Account, Action, StoreTx, Store, key_bytes}

pub record MemStore : Type 0 where
  pub by_discourse_id : Dict ℤ Account
  pub by_pub_key : Dict Bytes ℤ
  pub txs : List Tx

pub record MemTx : Type 0 where
  pub by_discourse_id : Dict ℤ Account
  pub by_pub_key : Dict Bytes ℤ
  pub txs : List Tx
  pub done : Bool

abbrev pub new_mem_store : MemStore
new_mem_store = record { by_discourse_id = []; by_pub_key = []; txs = [] }

unfoldable pub begin : MemStore → Result Error MemTx
begin m = ok (record {
  by_discourse_id = m.by_discourse_id;
  by_pub_key = m.by_pub_key;
  txs = m.txs;
  done = false;
})

unfoldable pub commit : MemTx → MemStore → Result Error (Unit {0}) × MemTx × MemStore
commit t m = if t.done then (err Error.tx_already_done, t, m) else (
  ok tt,
  record t { done = true },
  record { by_discourse_id = t.by_discourse_id; by_pub_key = t.by_pub_key; txs = t.txs },
)

unfoldable pub rollback : MemTx → MemStore → MemTx × MemStore
rollback t m = (record t { done = true }, m)

unfoldable pub lock_ledger : Action MemTx (Unit {0})
lock_ledger t = (ok tt, t)

-- The account that the index gives for a key, if both entries are there.
unfoldable pub find_by_pub_key : Bytes → MemTx → Option Account
find_by_pub_key k t = elim (lookup k t.by_pub_key) [
  | none ↦ none
  | some did ↦ lookup did t.by_discourse_id
]

unfoldable pub get_account_by_pub_key : Bytes → Action MemTx (Option Account)
unfolding find_by_pub_key
get_account_by_pub_key [] t = (ok none, t)
get_account_by_pub_key (c ∷ k) t = (ok (find_by_pub_key (c ∷ k) t), t)

unfoldable pub get_account_by_discourse_id : ℤ → Action MemTx (Option Account)
get_account_by_discourse_id did t = (ok (lookup did t.by_discourse_id), t)

-- The loop over the ids, into a map.
unfoldable pub collect_accounts : Dict ℤ Account → List ℤ → Dict ℤ Account → Dict ℤ Account
collect_accounts accounts [] out = out
collect_accounts accounts (did ∷ dids) out =
    collect_accounts accounts dids
      (elim (lookup did accounts) [ none ↦ out | some a ↦ insert did a out ])

unfoldable pub get_accounts_by_discourse_ids : List ℤ → Action MemTx (Dict ℤ Account)
unfolding collect_accounts
get_accounts_by_discourse_ids dids t = (ok (collect_accounts t.by_discourse_id dids []), t)

-- The index without the key of the account that is replaced.
unfoldable pub forget_key : Option Account → Dict Bytes ℤ → Dict Bytes ℤ
forget_key none index = index
forget_key (some existing) index = elim existing.pubkey [ none ↦ index | some k ↦ erase k index ]

-- The index with the key of the account that is written, unless that key is empty.
unfoldable pub note_key : Account → Dict Bytes ℤ → Dict Bytes ℤ
note_key a index =
    if ltb 0 (length (key_bytes a.pubkey))
    then insert (key_bytes a.pubkey) a.discourse_id index
    else index

unfoldable pub upsert : Account → MemTx → MemTx
upsert a t = record t {
  by_discourse_id = insert a.discourse_id a t.by_discourse_id;
  by_pub_key = note_key a (forget_key (lookup a.discourse_id t.by_discourse_id) t.by_pub_key);
}

unfoldable pub upsert_account : Account → Action MemTx (Unit {0})
unfolding upsert
upsert_account a t = (ok tt, upsert a t)

unfoldable pub rekey : Bytes → Bytes → ℤ → Account → MemTx → MemTx
rekey old new did a t = record t {
  by_discourse_id = insert did (record a { pubkey = some new }) t.by_discourse_id;
  by_pub_key = insert new did (erase old t.by_pub_key);
}

-- An index entry with no account behind it makes Go dereference nil: `nil_account`.
unfoldable pub update_pub_key : Bytes → Bytes → Action MemTx (Unit {0})
unfolding rekey
update_pub_key old new t = elim (lookup old t.by_pub_key) [
  | none ↦ (err Error.unknown_account, t)
  | some did ↦ elim (lookup did t.by_discourse_id) [
    | none ↦ (err Error.nil_account, t)
    | some a ↦ (ok tt, rekey old new did a t)
  ]
]

-- A nil key is stored as it is, and indexed under the empty string.
unfoldable pub register : ℤ → Option Bytes → Bytes → Account → MemTx → MemTx
register did key name a t = record t {
  by_discourse_id = insert did (record a { pubkey = key; username = name }) t.by_discourse_id;
  by_pub_key = insert (key_bytes key) did (forget_key (some a) t.by_pub_key);
}

unfoldable pub update_username_and_pub_key : ℤ → Option Bytes → Bytes → Action MemTx (Unit {0})
unfolding register
update_username_and_pub_key did key name t = elim (lookup did t.by_discourse_id) [
  | none ↦ (err Error.unknown_account, t)
  | some a ↦ (ok tt, register did key name a t)
]

unfoldable pub last_tx : Action MemTx (Option Tx)
last_tx t = (ok (get_last? t.txs), t)

unfoldable pub has_hash : Bytes → List Tx → Bool
has_hash h [] = false
has_hash h (tx ∷ txs) = (tx.tx_hash == h) || has_hash h txs

unfoldable pub insert_tx : Tx → Action MemTx (Unit {0})
unfolding has_hash
insert_tx tx t =
    if has_hash tx.tx_hash t.txs
    then (err Error.duplicate_tx_hash, t)
    else (ok tt, record t { txs = t.txs ++ tx ∷ [] })

abbrev is_genesis : TxType → Bool
is_genesis TxType.genesis = true
is_genesis _ = false

unfoldable pub any_genesis : List Tx → Bool
any_genesis [] = false
any_genesis (tx ∷ txs) = is_genesis tx.type || any_genesis txs

unfoldable pub genesis_exists : Action MemTx Bool
unfolding any_genesis
genesis_exists t = (ok (any_genesis t.txs), t)

-- `total += a.Balance` over the accounts, in int64.
unfoldable pub add_balances : Dict ℤ Account → ℤ → ℤ
add_balances [] total = total
add_balances ((_, a) ∷ d) total = add_balances d (add64 total a.balance)

unfoldable pub total_balance : Action MemTx ℤ
unfolding add_balances
total_balance t = (ok (add_balances t.by_discourse_id (pos 0)), t)

abbrev pub mem_tx : StoreTx MemTx
mem_tx = record {
  lock_ledger = lock_ledger;
  get_account_by_pub_key = get_account_by_pub_key;
  get_account_by_discourse_id = get_account_by_discourse_id;
  get_accounts_by_discourse_ids = get_accounts_by_discourse_ids;
  upsert_account = upsert_account;
  update_pub_key = update_pub_key;
  update_username_and_pub_key = update_username_and_pub_key;
  last_tx = last_tx;
  insert_tx = insert_tx;
  genesis_exists = genesis_exists;
  total_balance = total_balance;
}

abbrev pub mem_store : Store MemStore MemTx
mem_store = record { begin = begin; stx = mem_tx; commit = commit; rollback = rollback }
