-- ===== src/Ledger/MemStore/Keeps.antt =====
-- The operations of the in-memory store that write: each keeps the two maps in agreement.
use discourse_points_system.Prelude.{some, Bytes, bytes_eq, Option-cases, inl, inr}
use discourse_points_system.Prelude.Int.{ℤ, int_eq}
use discourse_points_system.Prelude.Dict.{lookup}
use discourse_points_system.Ledger.Store.{Account}
use discourse_points_system.Ledger.MemStore.{
  MemTx, upsert_account, update_pub_key, update_username_and_pub_key,
}
use discourse_points_system.Ledger.MemStore.Index.{
  IsIndexed, upsert-IsIndexed, rekey-IsIndexed, register-IsIndexed,
}

-- What the index says of a state of the store.
abbrev pub Agrees : MemTx → Type 0
Agrees t = IsIndexed t.by_discourse_id t.by_pub_key

update_pub_key-Agrees :
    (old new : Bytes) (t : MemTx) → Agrees t → Agrees (update_pub_key old new t).1
unfolding update_pub_key
update_pub_key-Agrees old new t w = elim (Option-cases (lookup old t.by_pub_key)) [
  | inl absent ↦ rw (update_pub_key, absent) w
  | inr (did, found) ↦ elim (Option-cases (lookup did t.by_discourse_id)) [
    | inl e ↦ rw (update_pub_key, found, e) w
    | inr (a, at) ↦
        rw (update_pub_key, found, at)
          (rekey-IsIndexed t.by_discourse_id t.by_pub_key w old new did a found at)
  ]
]

register-Agrees :
    (did : ℤ) (key name : Bytes) (t : MemTx)
    → Agrees t
    → Agrees (update_username_and_pub_key did (some key) name t).1
unfolding update_username_and_pub_key
register-Agrees did key name t w = elim (Option-cases (lookup did t.by_discourse_id)) [
  | inl absent ↦ rw (update_username_and_pub_key, absent) w
  | inr (a, at) ↦
      rw (update_username_and_pub_key, at)
        (register-IsIndexed t.by_discourse_id t.by_pub_key w did key name a at)
]

-- While the key index leads only to accounts with the key, and accounts stand under their own id,
-- both stay so after UpsertAccount, UpdatePubKey and UpdateUsernameAndPubKey (with a key that is
-- not nil), whether the call succeeds or not.
pub writes-Agrees :
    (a : Account) (old new : Bytes) (did : ℤ) (key name : Bytes) (t : MemTx)
    → Agrees t
    → Agrees (upsert_account a t).1
      × Agrees (update_pub_key old new t).1
      × Agrees (update_username_and_pub_key did (some key) name t).1
unfolding upsert_account
writes-Agrees a old new did key name t w = (
  upsert-IsIndexed t.by_discourse_id t.by_pub_key w a,
  update_pub_key-Agrees old new t w,
  register-Agrees did key name t w,
)
