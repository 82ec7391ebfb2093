-- ===== src/Ledger/MemStore/Index.antt =====
-- The two maps of the in-memory store agree: what the key index gives is an account with that key.
use discourse_points_system.Prelude.{
  Bool, ◌&&◌, Option, none, some, Bytes, ◌==◌, bytes_eq, bytes_eqb_iff, ltb, length, if◌then◌else◌,
  ◌≡◌, ◌≢◌, ◌⊎◌, refl, arith, Option-cases, inl, inr,
}
use discourse_points_system.Prelude.Int.{ℤ, int_eq, eqb_ℤ_iff}
use discourse_points_system.Prelude.Dict.{Dict, lookup, insert, erase, lookup-insert, lookup-erase}
use discourse_points_system.Ledger.Store.{Account, key_bytes}
use discourse_points_system.Ledger.MemStore.{forget_key, note_key}

pub record IsIndexed (accounts : Dict ℤ Account) (index : Dict Bytes ℤ) : Type 0 where
  -- An index entry leads to an account that has the key.
  pub keyed :
      (k : Bytes) (did : ℤ)
      → lookup k index ≡ some did
      → (a : Account) × (lookup did accounts ≡ some a) × (a.pubkey ≡ some k)
  -- An account is stored under its own id.
  pub named : (did : ℤ) (a : Account) → lookup did accounts ≡ some a → a.discourse_id ≡ did

abbrev has_key : Account → Bytes → Bool
has_key a k = ltb 0 (length (key_bytes a.pubkey)) && (k == key_bytes a.pubkey)

pub lookup-note_key :
    (k : Bytes) (a : Account) (index : Dict Bytes ℤ)
    → lookup k (note_key a index) ≡ (if has_key a k then some a.discourse_id else lookup k index)
unfolding note_key
lookup-note_key k a index =
    ground (arith, lookup-insert k (key_bytes a.pubkey) a.discourse_id index)

-- Forgetting an account's key takes that key out of the index and no other.
pub lookup-forget_key :
    (k : Bytes) (a : Account) (index : Dict Bytes ℤ) (did : ℤ)
    → lookup k (forget_key (some a) index) ≡ some did
    → (lookup k index ≡ some did) × (a.pubkey ≢ some k)
unfolding forget_key
lookup-forget_key k a index did h = elim (Option-cases a.pubkey) [
  | inl e ↦ ground arith
  | inr (j, e) ↦ ground (arith, lookup-erase k j index, bytes_eqb_iff k j)
]

module _ (accounts : Dict ℤ Account) (index : Dict Bytes ℤ) (w : IsIndexed accounts index) where
  -- An entry that survives the forgetting of account `did`'s key leads to another account.
  keyed-forget_key :
      (k : Bytes) (did d : ℤ)
      → lookup k (forget_key (lookup did accounts) index) ≡ some d
      → (d ≢ did) × (b : Account) × (lookup d accounts ≡ some b) × (b.pubkey ≡ some k)
  unfolding forget_key
  keyed-forget_key k did d h = elim (Option-cases (lookup did accounts)) [
    | inl absent ↦
        let (b, at, key) = w.keyed k d (rw absent at h) in ((λ e. ground arith), b, at, key)
    | inr (old, e) ↦
        let (kept, other) = lookup-forget_key k old index d (rw e at h) in
        let (b, at, key) = w.keyed k d kept in ((λ same. ground arith), b, at, key)
  ]

  -- One account is written under `did`, and the index gains at most its key: the maps still agree.
  write-IsIndexed :
      (did : ℤ) (a : Account) (rest index' : Dict Bytes ℤ)
      → a.discourse_id ≡ did
      → ((k : Bytes) (d : ℤ)
          → lookup k rest ≡ some d
          → (d ≢ did) × (b : Account) × (lookup d accounts ≡ some b) × (b.pubkey ≡ some k))
      → ((k : Bytes) (d : ℤ)
          → lookup k index' ≡ some d
          → ((d ≡ did) × (a.pubkey ≡ some k)) ⊎ (lookup k rest ≡ some d))
      → IsIndexed (insert did a accounts) index'
  write-IsIndexed did a rest index' own others gains = record {
    keyed = λ k d h. elim (gains k d h) [
      | inl (here, key) ↦ (a, ground (arith, lookup-insert d did a accounts, eqb_ℤ_iff d did), key)
      | inr there ↦
          let (other, b, at, key) = others k d there in
          (b, ground (arith, lookup-insert d did a accounts, eqb_ℤ_iff d did), key)
    ];
    named = λ d b h. ground (arith, lookup-insert d did a accounts, eqb_ℤ_iff d did, w.named d b);
  }

  -- Writing an account keeps the maps in agreement, whatever its key.
  pub upsert-IsIndexed :
      (a : Account)
      → IsIndexed
          (insert a.discourse_id a accounts)
          (note_key a (forget_key (lookup a.discourse_id accounts) index))
  upsert-IsIndexed a =
      write-IsIndexed a.discourse_id a rest (note_key a rest) refl
        (λ k d. keyed-forget_key k a.discourse_id d)
        (λ k d h. ground (arith, lookup-note_key k a rest, bytes_eqb_iff k (key_bytes a.pubkey)))
    where
      rest : Dict Bytes ℤ
      rest = forget_key (lookup a.discourse_id accounts) index

  -- Moving an account from its old key to a new one keeps the maps in agreement, even where
  -- another account has the new key.
  pub rekey-IsIndexed :
      (old new : Bytes) (did : ℤ) (a : Account)
      → lookup old index ≡ some did
      → lookup did accounts ≡ some a
      → IsIndexed
          (insert did (record a { pubkey = some new }) accounts)
          (insert new did (erase old index))
  rekey-IsIndexed old new did a found at =
      write-IsIndexed did (record a { pubkey = some new }) (erase old index)
        (insert new did (erase old index)) (w.named did a at)
        (λ k d h.
          let e = lookup-erase k old index in
          let h' : lookup k index ≡ some d = ground (arith, e) in
          let (b, at', key) = w.keyed k d h' in
          let (b₀, at₀, key₀) = w.keyed old did found in
          ((λ same. ground (arith, e, bytes_eqb_iff k old)), b, at', key))
        (λ k d h. ground (arith, lookup-insert k new did (erase old index), bytes_eqb_iff k new))

  -- Registering a key, which is not empty, for a known account keeps the maps in agreement.
  pub register-IsIndexed :
      (did : ℤ) (key name : Bytes) (a : Account)
      → lookup did accounts ≡ some a
      → IsIndexed
          (insert did (record a { pubkey = some key; username = name }) accounts)
          (insert key did (forget_key (some a) index))
  register-IsIndexed did key name a at =
      write-IsIndexed did (record a { pubkey = some key; username = name })
        (forget_key (some a) index) (insert key did (forget_key (some a) index)) (w.named did a at)
        (λ k d h. keyed-forget_key k did d (rw at h))
        (λ k d h.
          ground (arith, lookup-insert k key did (forget_key (some a) index), bytes_eqb_iff k key))

-- Where a key leads after an account is written: to that account, or where it led before.
pub note_key_inv :
    (k : Bytes) (a : Account) (old : Option Account) (index : Dict Bytes ℤ) (d : ℤ)
    → lookup k (note_key a (forget_key old index)) ≡ some d
    → (d ≡ a.discourse_id) ⊎ (lookup k index ≡ some d)
unfolding forget_key
note_key_inv k a none index d h = ground (arith, lookup-note_key k a index)
note_key_inv k a (some b) index d h =
    ground (arith, lookup-note_key k a (forget_key (some b) index), lookup-forget_key k b index d)
