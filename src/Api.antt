-- ===== src/Api.antt =====
-- internal/api/server.go: the handlers that write, and the check of a list of ids. What a handler
-- reads of a request comes decoded, `none` where Go's decoder fails.
pub mod Register
pub mod Ids
pub mod Submit
pub mod Log
pub mod Reads
pub mod CurrentUser
mod Tests
use discourse_points_system.Prelude.{
  ℕ, Bool, true, false, not, ◌||◌, Option, none, some, List, [], ◌∷◌, ◌++◌, Bytes, length, nat_eqb,
  ltb, if◌then◌else◌,
}
use discourse_points_system.Prelude.Int.{ℤ, pos, int_eq, ltb_ℤ, eqb_ℤ}
use discourse_points_system.Prelude.Dict.{Dict, lookup, insert}
use discourse_points_system.Prelude.Exec.{Result, ok, err}
use discourse_points_system.Ledger.Tx.{Env, Tx, TxType, Error, treasury_dsc_id, pub_key_len}
use discourse_points_system.Ledger.Store.{Account, Store, key_bytes}
use discourse_points_system.Ledger.Apply.{apply}

-- What is written: an error with its status, or an account or a transaction with its status.
pub data Response : Type 0 where
  refused : ℕ → Response
  account : ℕ → Account → Response
  submitted : ℤ → Bytes → Response

-- The loop of `bytesEqual`, over the indices of `a`, behind its test of the lengths.
unfoldable pub bytes_equal_from : Bytes → Bytes → Bool
bytes_equal_from [] b = true
bytes_equal_from (x ∷ a) [] = false
bytes_equal_from (x ∷ a) (y ∷ b) =
    let rest = bytes_equal_from a b in if not (nat_eqb x y) then false else rest

unfoldable pub bytes_equal : Bytes → Bytes → Bool
unfolding bytes_equal_from
bytes_equal a b = if not (nat_eqb (length a) (length b)) then false else bytes_equal_from a b

-- The switch on the error of Apply, by errors.Is: what is wrapped counts.
unfoldable pub error_status : Error → ℕ
error_status Error.bad_sig = 400
error_status Error.bad_pub_key = 400
error_status Error.signer_mismatch = 400
error_status Error.self_transfer = 400
error_status Error.bad_amount = 400
error_status Error.bad_discourse_id = 400
error_status Error.unknown_tx_type = 400
error_status Error.insufficient_funds = 422
error_status (Error.bad_nonce expected got) = 422
error_status Error.genesis_exists = 409
error_status Error.unknown_account = 404
error_status (Error.wrapped c e) = error_status e
error_status _ = 500

module _ {D S : Type 0} (store : Store D S) where
  -- A commit whose error is a 500.
  unfoldable pub committed : Response → S → D → Response × D
  committed response s db =
      let (r, s', db') = store.commit s db in
      let db'' = (store.rollback s' db').1 in
      elim r [ err e ↦ (refused 500, db'') | ok _ ↦ (response, db'') ]

  -- The switch of `register`, for the account that the user has.
  unfoldable pub register_key : ℤ → Bytes → Bytes → Option Account → S → D → Response × D
  unfolding committed
  register_key id name key none s db =
      let a : Account = record {
        discourse_id = id;
        pubkey = some key;
        username = name;
        nonce = pos 0;
        balance = pos 0;
      } in
      let (r, s') = store.stx.upsert_account a s in
      elim r [
        | err e ↦ (refused 500, (store.rollback s' db).1)
        | ok _ ↦ committed (account 201 a) s' db
      ]
  register_key id name key (some existing) s db =
      if nat_eqb (length (key_bytes existing.pubkey)) 0
      then (let (r, s') = store.stx.update_username_and_pub_key id (some key) name s in
          elim r [
            | err e ↦ (refused 500, (store.rollback s' db).1)
            | ok _ ↦
                committed (account 200 (record existing { pubkey = some key; username = name })) s'
                  db
          ])
      else if bytes_equal (key_bytes existing.pubkey) key
      then (account 200 existing, (store.rollback s db).1)
      else (refused 409, (store.rollback s db).1)

  -- register, for the logged-in user, if any, and the key of the body, if it decodes.
  unfoldable pub register : Option (ℤ × Bytes) → Option Bytes → D → Response × D
  unfolding register_key
  register none body db = (refused 401, db)
  register (some user) none db = (refused 400, db)
  register (some (id, name)) (some key) db =
      if not (nat_eqb (length key) pub_key_len)
      then (refused 400, db)
      else if eqb_ℤ id treasury_dsc_id
      then (refused 400, db)
      else elim (store.begin db) [
        | err e ↦ (refused 500, db)
        | ok s ↦
            let (r, s') = store.stx.get_account_by_discourse_id id s in
            elim r [
              | err e ↦ (refused 500, (store.rollback s' db).1)
              | ok existing ↦ register_key id name key existing s' db
            ]
      ]

  -- submitTx, once the body is decoded.
  unfoldable pub submit_tx : Env → TxType → Bytes → Bytes → Bytes → D → Response × D
  unfolding error_status
  submit_tx env t payload sig signer db =
      let tx : Tx = record {
        leaf_index = pos 0;
        type = t;
        payload = payload;
        sig = sig;
        signer = signer;
        prev_hash = [];
        tx_hash = [];
      } in
      let (r, tx', db') = apply env store tx db in
      elim r [
        | err e ↦ (refused (error_status e), db')
        | ok _ ↦ (submitted tx'.leaf_index tx'.tx_hash, db')
      ]

-- The loop over the ids that are left, with those seen; `none` is a bad id.
unfoldable pub unique_ids : List ℤ → Dict ℤ (Unit {0}) → Option (List ℤ)
unique_ids [] seen = some []
unique_ids (id ∷ ids) seen =
    let again = unique_ids ids seen in
    let fresh = unique_ids ids (insert id tt seen) in
    if ltb_ℤ id treasury_dsc_id then none else elim (lookup id seen) [
      | some _ ↦ again
      | none ↦ elim fresh [ none ↦ none | some out ↦ some (id ∷ out) ]
    ]

unfoldable pub normalize_discourse_ids : List ℤ → ℕ → Option (List ℤ)
unfolding unique_ids
normalize_discourse_ids raw max =
    if nat_eqb (length raw) 0
    then none
    else if ltb max (length raw)
    then none
    else elim (unique_ids raw []) [
      | none ↦ none
      | some out ↦ if nat_eqb (length out) 0 then none else some out
    ]
