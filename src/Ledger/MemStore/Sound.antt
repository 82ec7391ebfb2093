-- ===== src/Ledger/MemStore/Sound.antt =====
-- The invariant of the in-memory store's accounts, and how each write of Apply keeps it.
use discourse_points_system.Prelude.{
  length, Option, some, [], ◌∷◌, Bytes, bytes_eq, bytes_eqb_iff, ◌==◌, ◌≡◌, ◌≢◌, refl, ap, sym, ◌∙◌,
  arith, if◌then◌else◌, Option-cases, inl, inr,
}
use discourse_points_system.Prelude.Int.{
  ℤ, pos, int_eq, ◌+ℤ◌, ◌-ℤ◌, ◌≤ℤ◌, eqb_ℤ_iff, int_laws, eq_parts, eq_of_parts,
}
use discourse_points_system.Prelude.Dict.{lookup, lookup-insert}
use discourse_points_system.Prelude.Exec.{ok}
use discourse_points_system.Ledger.Store.{Account}
use discourse_points_system.Ledger.MemStore.{
  MemTx, find_by_pub_key, get_account_by_pub_key, upsert, rekey, note_key, forget_key,
}
use discourse_points_system.Ledger.MemStore.Index.{IsIndexed, upsert-IsIndexed, rekey-IsIndexed}
use discourse_points_system.Ledger.MemStore.Balances.{
  sum_balances, AreNonneg, balance_of, sum-insert, insert-AreNonneg, balance_of-bounds,
}

abbrev pub sum : MemTx → ℤ
sum t = sum_balances t.by_discourse_id

abbrev pub account : ℤ → MemTx → Option Account
account did t = lookup did t.by_discourse_id

pub record IsSound (t : MemTx) : Type 0 where
  pub indexed : IsIndexed t.by_discourse_id t.by_pub_key
  pub nonneg : AreNonneg t.by_discourse_id

-- `len(pubkey) == 0` is no case of a key of 32 bytes.
pub get_account_by_pub_key_lem :
    (k : Bytes) (t : MemTx)
    → length k ≡ 32
    → get_account_by_pub_key k t ≡ (ok (find_by_pub_key k t), t)
unfolding get_account_by_pub_key
get_account_by_pub_key_lem [] t h = absurd (omega arith)
get_account_by_pub_key_lem (c ∷ k) t h = refl

-- The account found by a key is stored under its id, and has the key.
pub find_by_pub_key_inv :
    (k : Bytes) (t : MemTx) (a : Account)
    → IsSound t
    → find_by_pub_key k t ≡ some a
    → (account a.discourse_id t ≡ some a) × (a.pubkey ≡ some k)
unfolding find_by_pub_key
find_by_pub_key_inv k t a v h = elim (Option-cases (lookup k t.by_pub_key)) [
  | inl absent ↦ absurd (ground arith)
  | inr (did, e) ↦
      let (b, at, key) = v.indexed.keyed k did e in ground (arith, v.indexed.named did b at)
]

-- The key of the account found leads to its id.
pub key_of_found :
    (k : Bytes) (t : MemTx) (a : Account)
    → IsSound t
    → find_by_pub_key k t ≡ some a
    → lookup k t.by_pub_key ≡ some a.discourse_id
unfolding find_by_pub_key
key_of_found k t a v h = elim (Option-cases (lookup k t.by_pub_key)) [
  | inl absent ↦ absurd (ground arith)
  | inr (did, e) ↦ e ∙ ap some (sym (v.indexed.named did a (ground arith)))
]

pub upsert-IsSound :
    (a : Account) (t : MemTx) → pos 0 ≤ℤ a.balance → IsSound t → IsSound (upsert a t)
unfolding upsert
upsert-IsSound a t p v = record {
  indexed = upsert-IsIndexed t.by_discourse_id t.by_pub_key v.indexed a;
  nonneg = insert-AreNonneg a.discourse_id a t.by_discourse_id p v.nonneg;
}

pub sum-upsert :
    (a : Account) (t : MemTx)
    → sum (upsert a t) +ℤ balance_of (account a.discourse_id t) ≡ sum t +ℤ a.balance
unfolding upsert
sum-upsert a t = sum-insert a.discourse_id a t.by_discourse_id

pub account-upsert :
    (did : ℤ) (a : Account) (t : MemTx)
    → account did (upsert a t) ≡ (if did == a.discourse_id then some a else account did t)
unfolding upsert
account-upsert did a t = lookup-insert did a.discourse_id a t.by_discourse_id

pub account-upsert_ne :
    (did : ℤ) (a : Account) (t : MemTx)
    → did ≢ a.discourse_id
    → account did (upsert a t) ≡ account did t
account-upsert_ne did a t ne = ground (arith, account-upsert did a t, eqb_ℤ_iff did a.discourse_id)

pub account-upsert_self :
    (did : ℤ) (a : Account) (t : MemTx) → did ≡ a.discourse_id → account did (upsert a t) ≡ some a
account-upsert_self did a t e = ground (arith, account-upsert did a t, eqb_ℤ_iff did a.discourse_id)

pub txs-upsert : (a : Account) (t : MemTx) → (upsert a t).txs ≡ t.txs
unfolding upsert
txs-upsert a t = refl

pub done-upsert : (a : Account) (t : MemTx) → (upsert a t).done ≡ t.done
unfolding upsert
done-upsert a t = refl

-- Moving an amount between two accounts keeps the sum and the invariant.
pub move-IsSound :
    (t : MemTx) (from from' to' : Account) (amount : ℤ)
    → IsSound t
    → account from.discourse_id t ≡ some from
    → from'.discourse_id ≡ from.discourse_id
    → to'.discourse_id ≢ from.discourse_id
    → from'.balance ≡ from.balance -ℤ amount
    → to'.balance ≡ balance_of (account to'.discourse_id t) +ℤ amount
    → pos 0 ≤ℤ amount
    → amount ≤ℤ from.balance
    → IsSound (upsert to' (upsert from' t)) × (sum (upsert to' (upsert from' t)) ≡ sum t)
move-IsSound t from from' to' amount v at same other debit credit p cover = (
  upsert-IsSound to' (upsert from' t) (omega (int_laws, bounds, eq_parts credit))
      (upsert-IsSound from' t (omega (int_laws, eq_parts debit)) v),
  eq_of_parts _ _ (
      omega (
        int_laws,
        eq_parts credit,
        eq_parts debit,
        eq_parts (sum-upsert from' t),
        eq_parts (sum-upsert to' (upsert from' t)),
        eq_parts before,
        eq_parts kept,
      )),
)
  where
    bounds : pos 0 ≤ℤ balance_of (account to'.discourse_id t)
    bounds = (balance_of-bounds to'.discourse_id t.by_discourse_id v.nonneg).0

    before : balance_of (account from'.discourse_id t) ≡ from.balance
    before = rw (same, at) refl

    kept :
        balance_of (account to'.discourse_id (upsert from' t))
        ≡ balance_of (account to'.discourse_id t)
    kept = ap balance_of (account-upsert_ne to'.discourse_id from' t (λ e. other (e ∙ same)))

-- After an account is written, its key leads to it.
pub key-upsert :
    (k : Bytes) (a : Account) (t : MemTx)
    → a.pubkey ≡ some k
    → length k ≡ 32
    → lookup k (upsert a t).by_pub_key ≡ some a.discourse_id
unfolding upsert note_key
key-upsert k a t e size = rw e (
    ground (
      arith,
      lookup-insert k k a.discourse_id
          (forget_key (lookup a.discourse_id t.by_discourse_id) t.by_pub_key),
      bytes_eqb_iff k k,
    ))

-- A new key for a stored account keeps the invariant and the sum.
pub rekey-IsSound :
    (old new : Bytes) (did : ℤ) (a : Account) (t : MemTx)
    → IsSound t
    → lookup old t.by_pub_key ≡ some did
    → account did t ≡ some a
    → IsSound (rekey old new did a t) × (sum (rekey old new did a t) ≡ sum t)
unfolding rekey
rekey-IsSound old new did a t v found at = (
  record {
    indexed = rekey-IsIndexed t.by_discourse_id t.by_pub_key v.indexed old new did a found at;
    nonneg =
        insert-AreNonneg did (record a { pubkey = some new }) t.by_discourse_id bounds v.nonneg;
  },
  eq_of_parts _ _ (
      omega (
        int_laws,
        eq_parts (sum-insert did (record a { pubkey = some new }) t.by_discourse_id),
        eq_parts before,
      )),
)
  where
    before : balance_of (account did t) ≡ a.balance
    before = ap balance_of at

    bounds : pos 0 ≤ℤ a.balance
    bounds = rw before at ((balance_of-bounds did t.by_discourse_id v.nonneg).0)

pub account-nonneg :
    (did : ℤ) (a : Account) (t : MemTx) → IsSound t → account did t ≡ some a → pos 0 ≤ℤ a.balance
account-nonneg did a t v at =
    rw (ap balance_of at) at ((balance_of-bounds did t.by_discourse_id v.nonneg).0)

-- Writing an account with the balance that it has keeps the sum.
pub sum-upsert_same :
    (a : Account) (t : MemTx)
    → balance_of (account a.discourse_id t) ≡ a.balance
    → sum (upsert a t) ≡ sum t
sum-upsert_same a t e = eq_of_parts _ _ (omega (int_laws, eq_parts (sum-upsert a t), eq_parts e))

pub account-rekey :
    (d : ℤ) (old new : Bytes) (did : ℤ) (a : Account) (t : MemTx)
    → account d (rekey old new did a t)
      ≡ (if d == did then some (record a { pubkey = some new }) else account d t)
unfolding rekey
account-rekey d old new did a t =
    lookup-insert d did (record a { pubkey = some new }) t.by_discourse_id

pub txs-rekey :
    (old new : Bytes) (did : ℤ) (a : Account) (t : MemTx) → (rekey old new did a t).txs ≡ t.txs
unfolding rekey
txs-rekey old new did a t = refl
