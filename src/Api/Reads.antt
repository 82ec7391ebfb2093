-- ===== src/Api/Reads.antt =====
-- internal/api/server.go: the handlers that read, over any store. The query of the history is a
-- parameter; the rate limiter and the HTTP plumbing are left out.
pub mod Balances
pub mod Treasury
mod Tests
use discourse_points_system.Prelude.{
  ℕ, Bool, true, false, not, ◌&&◌, Option, none, some, List, [], ◌∷◌, Bytes, bytes_eq, ◌==◌, length,
  ltb, map, if◌then◌else◌,
}
use discourse_points_system.Prelude.Int.{ℤ, pos, int_eq, ltb_ℤ, leb_ℤ, eqb_ℤ}
use discourse_points_system.Prelude.Dict.{Dict, lookup}
use discourse_points_system.Prelude.Exec.{Result, ok, err}
use discourse_points_system.Prelude.Text.{parse_int64}
use discourse_points_system.Ledger.Tx.{Error, treasury_dsc_id, supply_cap}
use discourse_points_system.Ledger.Store.{Account, Store, key_bytes}
use discourse_points_system.TxLog.{hex}
use discourse_points_system.Api.{normalize_discourse_ids}

-- accountResponse; the nonce is there where it is asked for.
pub record AccountView : Type 0 where
  pub discourse_id : ℤ
  pub username : Bytes
  pub balance : ℤ
  pub pubkey_hex : Bytes
  pub registered : Bool
  pub nonce : Option ℤ

-- An account and whether it is activated, or an id without one: its balance is zero, and where
-- there is a name, for /me, its nonce too.
pub data Entry : Type 0 where
  no_account : ℤ → Option Bytes → Entry
  shown : AccountView → Bool → Entry

pub record TreasuryView : Type 0 where
  pub treasury_balance : ℤ
  pub treasury_registered : Bool
  pub supply_circulating : ℤ
  pub supply_cap : ℤ
  pub supply_ok : Bool

pub data ReadResponse (H : Type 0) : Type 0 where
  refused : ℕ → ReadResponse H
  entry : Entry → ReadResponse H
  accounts : ℕ → List Entry → ReadResponse H
  history_of : ℤ → ℕ → List H → ReadResponse H
  treasury_is : TreasuryView → ReadResponse H

unfoldable pub account_response : Account → Bool → AccountView
account_response a include_nonce = record {
  discourse_id = a.discourse_id;
  username = a.username;
  balance = a.balance;
  pubkey_hex = if ltb 0 (length (key_bytes a.pubkey)) then hex (key_bytes a.pubkey) else [];
  registered = ltb 0 (length (key_bytes a.pubkey));
  nonce = if include_nonce then some a.nonce else none;
}

-- What `me`, `balance` and `balances` write of an account that may be absent.
unfoldable pub entry_of : ℤ → Option Bytes → Bool → Option Account → Entry
unfolding account_response
entry_of id name include_nonce none = no_account id name
entry_of id name include_nonce (some a) =
    let activated = ltb 0 (length (key_bytes a.pubkey)) in
    shown (record (account_response a include_nonce) { registered = activated }) activated

-- The parameter `limit` of history; strconv.Atoi reads an int, of 64 bits.
unfoldable pub history_limit : Bytes → ℤ
history_limit l = if l == [] then pos 50 else elim (parse_int64 l) [
  | none ↦ pos 50
  | some n ↦ if ltb_ℤ (pos 0) n && leb_ℤ n (pos 200) then n else pos 50
]

-- history, where it is enabled; UserHistory is the query.
unfoldable pub history :
    {H : Type 0} → Option (ℤ → ℤ → Result Error (List H)) → Bytes → Bytes → ReadResponse H
unfolding history_limit
history none id_str l = refused 501
history (some user_history) id_str l = elim (parse_int64 id_str) [
  | none ↦ refused 400
  | some id ↦
      if ltb_ℤ id treasury_dsc_id then refused 400 else elim (user_history id (history_limit l)) [
        | err e ↦ refused 500
        | ok entries ↦ history_of id (length entries) entries
      ]
]

-- The answer of `treasury`, for the treasury's account and the total.
unfoldable pub treasury_view : Option Account → ℤ → TreasuryView
treasury_view t total = record {
  treasury_balance = elim t [ none ↦ pos 0 | some a ↦ a.balance ];
  treasury_registered = elim t [ none ↦ false | some a ↦ true ];
  supply_circulating = total;
  supply_cap = supply_cap;
  supply_ok = eqb_ℤ total supply_cap;
}

module _ {D S H : Type 0} (store : Store D S) where
  -- The read of one account, in a transaction that is rolled back.
  unfoldable pub read_account : ℤ → (Option Account → Entry) → D → ReadResponse H × D
  read_account id answer db = elim (store.begin db) [
    | err e ↦ (refused 500, db)
    | ok s ↦
        let (r, s') = store.stx.get_account_by_discourse_id id s in
        let db' = (store.rollback s' db).1 in
        elim r [ err e ↦ (refused 500, db') | ok a ↦ (entry (answer a), db') ]
  ]

  -- me, for the logged-in user, if any.
  unfoldable pub me : Option (ℤ × Bytes) → D → ReadResponse H × D
  unfolding read_account
  me none db = (refused 401, db)
  me (some (id, name)) db = read_account id (entry_of id (some name) true) db

  unfoldable pub balance : Bytes → D → ReadResponse H × D
  unfolding read_account
  balance id_str db = elim (parse_int64 id_str) [
    | none ↦ (refused 400, db)
    | some id ↦
        let served = read_account id (entry_of id none false) db in
        if ltb_ℤ id treasury_dsc_id then (refused 400, db) else served
  ]

  -- balances, with the ids of the body, if it decodes.
  unfoldable pub balances : Option (List ℤ) → D → ReadResponse H × D
  unfolding entry_of
  balances none db = (refused 400, db)
  balances (some raw) db = elim (normalize_discourse_ids raw 200) [
    | none ↦ (refused 400, db)
    | some ids ↦ elim (store.begin db) [
      | err e ↦ (refused 500, db)
      | ok s ↦
          let (r, s') = store.stx.get_accounts_by_discourse_ids ids s in
          let db' = (store.rollback s' db).1 in
          elim r [
            | err e ↦ (refused 500, db')
            | ok found ↦
                let entries = map (λ id. entry_of id none false (lookup id found)) ids in
                (accounts (length entries) entries, db')
          ]
    ]
  ]

  unfoldable pub treasury : D → ReadResponse H × D
  unfolding treasury_view
  treasury db = elim (store.begin db) [
    | err e ↦ (refused 500, db)
    | ok s ↦
        let (r, s') = store.stx.get_account_by_discourse_id treasury_dsc_id s in
        elim r [
          | err e ↦ (refused 500, (store.rollback s' db).1)
          | ok t ↦
              let (r', s'') = store.stx.total_balance s' in
              let db' = (store.rollback s'' db).1 in
              elim r' [
                | err e ↦ (refused 500, db')
                | ok total ↦ (treasury_is (treasury_view t total), db')
              ]
        ]
  ]
