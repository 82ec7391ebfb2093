-- ===== src/Store/Postgres/Rows.antt =====
-- The table of accounts of the Postgres store: its primary key, what a lookup by public key finds,
-- and what a write of a row leaves.
use discourse_points_system.Prelude.{
  ◌≡◌, inl, inr, refl, sym, ap, ◌∙◌, arith, true, ◌&&◌, not, Option, none, some, [], ◌∷◌, Bytes,
  bytes_eq, length, ltb, ◌==◌, Bool-cases, Option-cases, same→eq, if◌then◌else◌,
}
use discourse_points_system.Prelude.Int.{ℤ, pos, int_eq, eqb_ℤ_iff, ◌≤ℤ◌}
use discourse_points_system.Prelude.Dict.{Dict, lookup, insert, lookup-insert}
use discourse_points_system.Prelude.Exec.{ok}
use discourse_points_system.Ledger.Store.{Account, key_bytes}
use discourse_points_system.Ledger.MemStore.Balances.{AreNonneg, insert-AreNonneg}
use discourse_points_system.Store.Postgres.{
  PgTx, find_key, write_row, merged, with_null_key, upsert_account, get_account_by_pub_key, pending,
  has_key,
}

-- No id stands twice.
abbrev pub IsKeyed : Dict ℤ Account → Type 0
IsKeyed [] = Unit
IsKeyed ((did, a) ∷ rows) = (lookup did rows ≡ none) × IsKeyed rows

-- Every row stands under its own id, and there once; no balance is negative.
pub record IsTable (rows : Dict ℤ Account) : Type 0 where
  pub named : (did : ℤ) (a : Account) → lookup did rows ≡ some a → a.discourse_id ≡ did
  pub keyed : IsKeyed rows
  pub nonneg : AreNonneg rows

abbrev pub rows_of : PgTx → Dict ℤ Account
rows_of t = t.tables.accounts

pub has_key-some : (k : Bytes) (a : Account) → has_key k a ≡ true → a.pubkey ≡ some k
has_key-some k a h = elim (Option-cases a.pubkey) [
  | inl e ↦ absurd (ground arith)
  | inr (j, e) ↦ ground (arith, same→eq k j)
]

pub find_key-lookup :
    (k : Bytes) (rows : Dict ℤ Account) (did : ℤ) (a : Account)
    → IsKeyed rows
    → find_key k rows ≡ some (did, a)
    → (lookup did rows ≡ some a) × (a.pubkey ≡ some k)
unfolding find_key lookup
find_key-lookup k [] did a d h = absurd (ground arith)
find_key-lookup k ((e, b) ∷ rows) did a d h = elim (Bool-cases (has_key k b)) [
  | inl hit ↦ (ground (arith, eqb_ℤ_iff did e), ground (arith, has_key-some k b hit))
  | inr miss ↦
      let (at, key) = find_key-lookup k rows did a d.1 (ground arith) in
      (ground (arith, at, d.0, eqb_ℤ_iff did e), key)
]

pub by_key-find :
    (k : Bytes) (t : PgTx)
    → length k ≡ 32
    → get_account_by_pub_key k t
      ≡ (ok (elim (find_key k (rows_of t)) [ none ↦ none | some r ↦ some r.1 ]), t)
unfolding get_account_by_pub_key
by_key-find [] t h = absurd (omega arith)
by_key-find (c ∷ k) t h = refl

pub IsKeyed-insert :
    (did : ℤ) (a : Account) (rows : Dict ℤ Account) → IsKeyed rows → IsKeyed (insert did a rows)
unfolding insert lookup
IsKeyed-insert did a [] d = (refl, tt)
IsKeyed-insert did a ((e, b) ∷ rows) d = ground (
  arith,
  IsKeyed-insert did a rows d.1,
  lookup-insert e did a rows,
  eqb_ℤ_iff did e,
  eqb_ℤ_iff e did,
)

pub insert-IsTable :
    (a : Account) (rows : Dict ℤ Account)
    → IsTable rows
    → pos 0 ≤ℤ a.balance
    → IsTable (insert a.discourse_id a rows)
insert-IsTable a rows v fine = record {
  named = λ did b h.
      ground (
        arith,
        lookup-insert did a.discourse_id a rows,
        eqb_ℤ_iff did a.discourse_id,
        v.named did b,
      );
  keyed = IsKeyed-insert a.discourse_id a rows v.keyed;
  nonneg = insert-AreNonneg a.discourse_id a rows fine v.nonneg;
}

-- The tables with a row written.
abbrev pub put : Account → PgTx → PgTx
put a t = record t {
  tables = record t.tables { accounts = insert a.discourse_id a t.tables.accounts };
}

write_row_inv : (a : Account) (t t' : PgTx) → write_row a t ≡ (ok tt, t') → t' ≡ put a t
unfolding write_row
write_row_inv a t t' h = ground arith

kept-key :
    (o : Option Bytes)
    → elim (if ltb 0 (length (key_bytes o)) then o else none) [ none ↦ o | some k ↦ some k ] ≡ o
kept-key none = refl
kept-key (some []) = refl
kept-key (some (c ∷ k)) = ground arith

kept-name : (u : Bytes) → (if (u == pending) && not (u == pending) then u else u) ≡ u
kept-name u = elim (Bool-cases ((u == pending) && not (u == pending))) [
  | inl e ↦ rw e refl
  | inr e ↦ rw e refl
]

pub merged-same :
    (a old : Account)
    → a.pubkey ≡ old.pubkey
    → a.username ≡ old.username
    → merged (with_null_key a) old ≡ a
unfolding merged
merged-same a old k u =
    let key =
      ap
        (λ (o : Option Bytes).
          elim (if ltb 0 (length (key_bytes a.pubkey)) then a.pubkey else none) [
            | none ↦ o
            | some j ↦ some j
          ])
        (sym k)
      ∙ kept-key a.pubkey in
    let name =
      ap (λ (v : Bytes). if (a.username == pending) && not (v == pending) then v else a.username)
        (sym u)
      ∙ kept-name a.username in
    ap
      (λ (o : Option Bytes). record a {
        pubkey = o;
        username =
            if (a.username == pending) && not (old.username == pending)
            then old.username
            else a.username;
      })
      key
    ∙ ap (λ (v : Bytes). record a { username = v }) name

-- An upsert of a row that keeps the key and the name writes the row as it is.
pub upsert-put :
    (a old : Account) (t t' : PgTx)
    → lookup a.discourse_id (rows_of t) ≡ some old
    → a.pubkey ≡ old.pubkey
    → a.username ≡ old.username
    → upsert_account a t ≡ (ok tt, t')
    → t' ≡ put a t
unfolding upsert_account
upsert-put a old t t' at k u h = write_row_inv a t t' (ground (arith, at, merged-same a old k u))

-- So does one of a row without a key under a new id.
pub upsert-put_new :
    (a : Account) (t t' : PgTx)
    → lookup a.discourse_id (rows_of t) ≡ none
    → a.pubkey ≡ none
    → upsert_account a t ≡ (ok tt, t')
    → t' ≡ put a t
unfolding upsert_account
upsert-put_new a t t' at k h =
    let same : with_null_key a ≡ a = rw (with_null_key, k) (rw (← k) refl) in
    write_row_inv a t t' (ground (arith, at, same))
