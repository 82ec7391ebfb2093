-- ===== src/Ledger/Apply.antt =====
-- internal/ledger/apply.go: Apply and its four handlers, over any store.
pub mod EqualBytes
pub mod Transfer
pub mod RotateKey
pub mod Reclaim
pub mod Genesis
pub mod Inversion
pub mod Execute
pub mod TransferEffect
use discourse_points_system.Prelude.{
  Bool, true, false, not, ◌||◌, Option, none, some, [], ◌∷◌, Bytes, codes, length, ◌==◌, nat_eqb,
  bytes_eq, ltb, if◌then◌else◌,
}
use discourse_points_system.Prelude.Int.{pos, add64, sub64, ltb_ℤ, leb_ℤ, eqb_ℤ}
use discourse_points_system.Prelude.Exec.{
  Result, ok, err, pure, fail, or_fail, ◌>>=◌, ◌>>◌, fail_if, map_err,
}
use discourse_points_system.Ledger.Tx.{
  Tx, TxType, Error, Context, Env, TransferPayload, supply_cap, treasury_dsc_id, pub_key_len,
  zero_hash, meta_string, build, verify_sig, wrapped,
}
use discourse_points_system.Ledger.Store.{Account, Action, StoreTx, Store, key_bytes}

-- The loop of `equalBytes`, over the indices of `a`, behind its test of the lengths.
unfoldable pub equal_from : Bytes → Bytes → Bool
equal_from [] b = true
equal_from (x ∷ a) [] = false
equal_from (x ∷ a) (y ∷ b) = let rest = equal_from a b in if not (nat_eqb x y) then false else rest

unfoldable pub equal_bytes : Bytes → Bytes → Bool
unfolding equal_from
equal_bytes a b = if not (nat_eqb (length a) (length b)) then false else equal_from a b

abbrev pub is_genesis : TxType → Bool
is_genesis TxType.genesis = true
is_genesis _ = false

unfoldable pub requires_full_supply_check : TxType → Bool
requires_full_supply_check TxType.genesis = true
requires_full_supply_check TxType.reclaim_invalid = true
requires_full_supply_check _ = false

-- Where the transaction stands in the log: its index and the hash that it follows.
unfoldable pub position : Tx → Option Tx → Result Error Tx
position tx none =
    if is_genesis tx.type
    then ok (record tx { leaf_index = pos 0; prev_hash = zero_hash })
    else err (Error.first_tx_not_genesis tx.type)
position tx (some last) =
    if is_genesis tx.type
    then err Error.genesis_exists
    else ok (record tx { leaf_index = add64 last.leaf_index (pos 1); prev_hash = last.tx_hash })

-- `username := "TREASURY"` if the payload names none.
unfoldable pub treasury_username : Bytes → Bytes
treasury_username u = if u == [] then codes "TREASURY" else u

-- The username of an account that a transfer creates.
unfoldable pub pending_username : TransferPayload → Bytes
pending_username p = elim (meta_string (codes "tip_target_username") p.meta) [
  | none ↦ codes "(pending)"
  | some u ↦ if u == [] then codes "(pending)" else u
]

-- The recipient: the account found, or a pending one.
unfoldable pub recipient : TransferPayload → Option Account → Account
recipient p (some to) = to
recipient p none = record {
  discourse_id = p.to_discourse_id;
  pubkey = none;
  username = pending_username p;
  nonce = pos 0;
  balance = pos 0;
}

unfoldable pub check_supply : {S : Type 0} → StoreTx S → TxType → Action S (Unit {0})
check_supply stx t =
    if requires_full_supply_check t
    then (do
      total ← map_err (wrapped Context.total_balance) stx.total_balance
      fail_if (not (eqb_ℤ total supply_cap)) (Error.supply_violated total))
    else pure tt

module _ {S : Type 0} (env : Env) (stx : StoreTx S) where
  open stx use {
    lock_ledger, get_account_by_pub_key, get_account_by_discourse_id, upsert_account,
    update_pub_key, last_tx, insert_tx, genesis_exists,
  }

  unfoldable pub apply_genesis : Tx → Action S (Unit {0})
  apply_genesis tx = do
    exists ← genesis_exists
    fail_if exists Error.genesis_exists
    p ← or_fail (env.unmarshal_genesis tx.payload) Error.payload_json
    fail_if (not (nat_eqb (length p.to) pub_key_len)) Error.bad_pub_key
    fail_if (not (eqb_ℤ p.amount supply_cap)) (Error.genesis_amount p.amount)
    fail_if (not (equal_bytes tx.signer p.to)) Error.genesis_signer
    upsert_account (record {
      discourse_id = treasury_dsc_id;
      pubkey = some p.to;
      username = treasury_username p.treasury_user;
      nonce = pos 0;
      balance = supply_cap;
    })

  unfoldable pub apply_transfer : Tx → Action S (Unit {0})
  apply_transfer tx = do
    p ← or_fail (env.unmarshal_transfer tx.payload) Error.payload_json
    fail_if (leb_ℤ p.amount (pos 0)) Error.bad_amount
    fail_if (leb_ℤ p.to_discourse_id treasury_dsc_id) Error.bad_discourse_id
    fail_if (not (equal_bytes p.from tx.signer)) Error.signer_mismatch
    fail_if (not (nat_eqb (length p.from) pub_key_len)) Error.bad_pub_key
    found ← map_err (wrapped Context.from_account) (get_account_by_pub_key p.from)
    from ← or_fail found Error.unknown_account
    fail_if (eqb_ℤ from.discourse_id p.to_discourse_id) Error.self_transfer
    fail_if (not (eqb_ℤ p.nonce (add64 from.nonce (pos 1))))
        (Error.bad_nonce (add64 from.nonce (pos 1)) p.nonce)
    fail_if (ltb_ℤ from.balance p.amount) Error.insufficient_funds
    known ← map_err (wrapped Context.to_account) (get_account_by_discourse_id p.to_discourse_id)
    let to = recipient p known
    map_err (wrapped Context.update_from)
        (upsert_account (record from { nonce = p.nonce; balance = sub64 from.balance p.amount }))
    map_err (wrapped Context.update_to)
        (upsert_account (record to { balance = add64 to.balance p.amount }))

  unfoldable pub apply_rotate_key : Tx → Action S (Unit {0})
  apply_rotate_key tx = do
    p ← or_fail (env.unmarshal_rotate_key tx.payload) Error.payload_json
    fail_if
        (not (nat_eqb (length p.old_pub_key) pub_key_len)
          || not (nat_eqb (length p.new_pub_key) pub_key_len))
        Error.bad_pub_key
    fail_if (not (equal_bytes tx.signer p.old_pub_key)) Error.signer_mismatch
    found ← map_err (wrapped Context.old_account) (get_account_by_pub_key p.old_pub_key)
    old ← or_fail found Error.unknown_account
    fail_if (not (eqb_ℤ p.nonce (add64 old.nonce (pos 1))))
        (Error.bad_nonce (add64 old.nonce (pos 1)) p.nonce)
    map_err (wrapped Context.nonce_bump) (upsert_account (record old { nonce = p.nonce }))
    update_pub_key p.old_pub_key p.new_pub_key

  unfoldable pub apply_reclaim_invalid : Tx → Action S (Unit {0})
  apply_reclaim_invalid tx = do
    p ← or_fail (env.unmarshal_reclaim_invalid tx.payload) Error.payload_json
    fail_if (leb_ℤ p.amount (pos 0)) Error.bad_amount
    fail_if (leb_ℤ treasury_dsc_id p.from_discourse_id) Error.bad_discourse_id
    fail_if (not (nat_eqb (length p.admin) pub_key_len)) Error.bad_pub_key
    fail_if (not (equal_bytes tx.signer p.admin)) Error.signer_mismatch
    found ← map_err (wrapped Context.admin_account) (get_account_by_pub_key p.admin)
    admin ← or_fail found Error.unknown_account
    fail_if (not (eqb_ℤ admin.discourse_id treasury_dsc_id)) Error.unknown_account
    fail_if (not (eqb_ℤ p.nonce (add64 admin.nonce (pos 1))))
        (Error.bad_nonce (add64 admin.nonce (pos 1)) p.nonce)
    known ←
        map_err (wrapped Context.invalid_account) (get_account_by_discourse_id p.from_discourse_id)
    from ← or_fail known Error.unknown_account
    fail_if (ltb 0 (length (key_bytes from.pubkey))) Error.bad_discourse_id
    fail_if (ltb_ℤ from.balance p.amount) Error.insufficient_funds
    map_err (wrapped Context.update_invalid_account)
        (upsert_account (record from { balance = sub64 from.balance p.amount }))
    map_err (wrapped Context.update_treasury)
        (upsert_account (record admin { nonce = p.nonce; balance = add64 admin.balance p.amount }))

  -- `switch tx.Type`
  unfoldable pub dispatch : Tx → TxType → Action S (Unit {0})
  dispatch tx TxType.genesis = apply_genesis tx
  dispatch tx TxType.transfer = apply_transfer tx
  dispatch tx TxType.rotate_key = apply_rotate_key tx
  dispatch tx TxType.reclaim_invalid = apply_reclaim_invalid tx
  dispatch tx _ = fail Error.unknown_tx_type

  -- What follows the hash: the handler, the append to the log and the check of the supply.
  unfoldable pub execute : Tx → Action S (Unit {0})
  execute tx = do
    dispatch tx tx.type
    map_err (wrapped Context.insert_tx) (insert_tx tx)
    check_supply stx tx.type

  -- The part of Apply between Begin and Commit, with the caller's transaction as it leaves it.
  unfoldable pub apply_within : Tx → S → Result Error (Unit {0}) × Tx × S
  apply_within tx s =
      let (r, s₁) =
        (do
          map_err (wrapped Context.ledger_lock) lock_ledger
          map_err (wrapped Context.last_tx_lookup) last_tx)
          s in
      elim r [
        | err e ↦ (err e, tx, s₁)
        | ok last ↦ elim (position tx last) [
          | err e ↦ (err e, tx, s₁)
          | ok tx₁ ↦ elim (build env tx.type tx.payload tx.signer tx.sig tx₁.prev_hash) [
            | err e ↦ (err e, tx₁, s₁)
            | ok rebuilt ↦
                let tx₂ = record tx₁ { tx_hash = rebuilt.tx_hash } in
                let (r', s₂) = execute tx₂ s₁ in (r', tx₂, s₂)
          ]
        ]
      ]

-- Apply: the result, the caller's transaction and the database afterwards.
unfoldable pub apply : {D S : Type 0} → Env → Store D S → Tx → D → Result Error (Unit {0}) × Tx × D
apply env st tx db =
    if not (verify_sig env tx.signer tx.payload tx.sig)
    then (err Error.bad_sig, tx, db)
    else elim (st.begin db) [
      | err e ↦ (err (wrapped Context.begin e), tx, db)
      | ok s ↦
          let (r, tx', s') = apply_within env st.stx tx s in
          elim r [
            | err e ↦ (err e, tx', (st.rollback s' db).1)
            | ok _ ↦ let (c, s'', db') = st.commit s' db in (c, tx', (st.rollback s'' db').1)
          ]
    ]
