-- ===== src/Ledger/Store.antt =====
-- internal/ledger/apply.go, the interfaces: an account, and what Apply asks of a store.
-- A transaction of the store is a state `S`; the database behind it is a state `D`.
use discourse_points_system.Prelude.{List, Bytes, Option, none, some, Bool, []}
use discourse_points_system.Prelude.Dict.{Dict}
use discourse_points_system.Prelude.Int.{ℤ}
use discourse_points_system.Prelude.Exec.{Result, Exec}
use discourse_points_system.Ledger.Tx.{Tx, Error}

-- A nil public key is `none`.
pub record Account : Type 0 where
  pub discourse_id : ℤ
  pub pubkey : Option Bytes
  pub username : Bytes
  pub nonce : ℤ
  pub balance : ℤ

-- `len(a.Pubkey)` and `string(a.Pubkey)`
abbrev pub key_bytes : Option Bytes → Bytes
key_bytes none = []
key_bytes (some k) = k

-- A Go call that fails returns an error; the state comes back as the call left it.
abbrev pub Action : Type 0 → Type 0 → Type 0
Action S A = Exec Error S A

pub record StoreTx (S : Type 0) : Type 0 where
  pub lock_ledger : Action S (Unit {0})
  pub get_account_by_pub_key : Bytes → Action S (Option Account)
  pub get_account_by_discourse_id : ℤ → Action S (Option Account)
  pub get_accounts_by_discourse_ids : List ℤ → Action S (Dict ℤ Account)
  pub upsert_account : Account → Action S (Unit {0})
  pub update_pub_key : Bytes → Bytes → Action S (Unit {0})
  pub update_username_and_pub_key : ℤ → Option Bytes → Bytes → Action S (Unit {0})
  pub last_tx : Action S (Option Tx)
  pub insert_tx : Tx → Action S (Unit {0})
  pub genesis_exists : Action S Bool
  pub total_balance : Action S ℤ

pub record Store (D S : Type 0) : Type 0 where
  pub begin : D → Result Error S
  pub stx : StoreTx S
  pub commit : S → D → Result Error (Unit {0}) × S × D
  pub rollback : S → D → S × D
