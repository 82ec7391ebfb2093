-- ===== src/Store/Postgres/Accept.antt =====
-- applyTransfer of internal/ledger/ledger.go, run on the transaction of internal/store/pgstore.go:
-- when it succeeds.
use discourse_points_system.Prelude.{
  Option, none, some, [], ◌∷◌, true, false, Bytes, bytes_eq, ◌≡◌, ◌≢◌, ◌⊎◌, refl, ap, sym, ◌∙◌,
  arith, inl, inr, Bool-cases, bytes_eqb_iff, ◌==◌,
}
use discourse_points_system.Prelude.Int.{
  ℤ, pos, int_eq, ◌≤ℤ◌, max_int64, int_laws, eqb_ℤ_iff, add64, eq_parts,
}
use discourse_points_system.Prelude.Dict.{Dict, lookup}
use discourse_points_system.Prelude.Exec.{ok, ◌>>=◌, Result-cases}
use discourse_points_system.Ledger.Tx.{Env, Tx, TransferPayload}
use discourse_points_system.Ledger.Store.{Account}
use discourse_points_system.Ledger.MemStore.Balances.{sum_balances}
use discourse_points_system.Ledger.Apply.{apply_transfer, recipient}
use discourse_points_system.Ledger.Apply.EqualBytes.{equal_bytes_iff}
use discourse_points_system.Ledger.Apply.Transfer.{debited, credited}
use discourse_points_system.Store.Postgres.{
  PgTx, pg_tx, get_account_by_pub_key, upsert_account, get_account_by_discourse_id, find_key,
  has_key, key_taken, violates, write_row, with_null_key,
}
use discourse_points_system.Store.Postgres.Rows.{
  IsKeyed, IsKeyed-insert, IsTable, rows_of, put, by_key-find, merged-same, has_key-some,
}
use discourse_points_system.Store.Postgres.Transfer.{
  IsRowTransfer, RowsMoved, pg_transfer-RowsMoved, after_rows, lookup-put_ne, lookup-put_self,
  debit, credit, receiver_bounds,
}

-- No row but the one under an id has a key.
abbrev Owns : Bytes → ℤ → Dict ℤ Account → Type 0
Owns k did rows = (e : ℤ) (b : Account) → lookup e rows ≡ some b → b.pubkey ≡ some k → e ≡ did

-- No key stands twice.
abbrev pub IsUnique : Dict ℤ Account → Type 0
IsUnique rows =
    (d : ℤ) (a : Account) (k : Bytes)
    → lookup d rows ≡ some a
    → a.pubkey ≡ some k
    → (e : ℤ) (b : Account) → lookup e rows ≡ some b
    → b.pubkey ≡ some k
    → e ≡ d

Owns-tail :
    (k : Bytes) (did e : ℤ) (a : Account) (rows : Dict ℤ Account)
    → lookup e rows ≡ none
    → Owns k did ((e, a) ∷ rows)
    → Owns k did rows
unfolding lookup
Owns-tail k did e a rows none_else own d b at has =
    own d b (ground (arith, at, none_else, eqb_ℤ_iff d e)) has

has_key-true : (k : Bytes) (a : Account) → a.pubkey ≡ some k → has_key k a ≡ true
has_key-true k a h = ground (arith, h, bytes_eqb_iff k k)

lookup-head : (e : ℤ) (a : Account) (rows : Dict ℤ Account) → lookup e ((e, a) ∷ rows) ≡ some a
unfolding lookup
lookup-head e a rows = ground (arith, eqb_ℤ_iff e e)

key_taken-free :
    (k : Bytes) (did : ℤ) (rows : Dict ℤ Account)
    → IsKeyed rows
    → Owns k did rows
    → key_taken (some k) did rows ≡ false
unfolding key_taken lookup
key_taken-free k did [] d own = refl
key_taken-free k did ((e, a) ∷ rows) d own =
    let rest = key_taken-free k did rows d.1 (Owns-tail k did e a rows d.0 own) in
    elim (Bool-cases (has_key k a)) [
      | inl has ↦
          let mine = own e a (lookup-head e a rows) (has_key-some k a has) in
          ground (arith, rest, mine, eqb_ℤ_iff e did)
      | inr hasnt ↦ ground (arith, rest, hasnt)
    ]

find_key-owner :
    (k : Bytes) (did : ℤ) (a : Account) (rows : Dict ℤ Account)
    → IsKeyed rows
    → Owns k did rows
    → lookup did rows ≡ some a
    → a.pubkey ≡ some k
    → find_key k rows ≡ some (did, a)
unfolding find_key lookup
find_key-owner k did a [] d own at has = absurd (ground arith)
find_key-owner k did a ((e, b) ∷ rows) d own at has =
    let rest = find_key-owner k did a rows d.1 (Owns-tail k did e b rows d.0 own) in
    elim (Bool-cases (has_key k b)) [
      | inl hit ↦
          let mine = own e b (lookup-head e b rows) (has_key-some k b hit) in
          ground (arith, hit, at, mine, eqb_ℤ_iff did e)
      | inr miss ↦ ground (arith, miss, at, rest, has, has_key-true k a has, eqb_ℤ_iff did e)
    ]

upsert-runs :
    (a old : Account) (t : PgTx)
    → lookup a.discourse_id (rows_of t) ≡ some old
    → a.pubkey ≡ old.pubkey
    → a.username ≡ old.username
    → violates a (rows_of t) ≡ false
    → upsert_account a t ≡ (ok tt, put a t)
unfolding upsert_account write_row
upsert-runs a old t at k u free = ground (arith, at, merged-same a old k u, free)

upsert-runs_new :
    (a : Account) (t : PgTx)
    → lookup a.discourse_id (rows_of t) ≡ none
    → a.pubkey ≡ none
    → violates a (rows_of t) ≡ false
    → upsert_account a t ≡ (ok tt, put a t)
unfolding upsert_account write_row
upsert-runs_new a t at k free =
    let same : with_null_key a ≡ a = rw (with_null_key, k) (rw (← k) refl) in
    ground (arith, at, same, free)

module _ (env : Env) (tx : Tx) (t : PgTx) (p : TransferPayload) (from : Account)
    (v : IsTable (rows_of t)) (unique : IsUnique (rows_of t))
    (g : IsRowTransfer env tx t p from) where
  abbrev t₁ : PgTx
  t₁ = put (debited p from) t

  owner : Owns p.from from.discourse_id (rows_of t)
  owner = unique from.discourse_id from p.from g.stored g.key

  found : find_key p.from (rows_of t) ≡ some (from.discourse_id, from)
  found = find_key-owner p.from from.discourse_id from (rows_of t) v.keyed owner g.stored g.key

  debits : pos 0 ≤ℤ (debited p from).balance → upsert_account (debited p from) t ≡ (ok tt, t₁)
  unfolding violates
  debits fine =
      upsert-runs (debited p from) from t g.stored refl refl
        (ground (arith, g.key, key_taken-free p.from from.discourse_id (rows_of t) v.keyed owner))

  -- A key of the recipient is free once the sender's row is written.
  owner' :
      (to : Account) (k : Bytes)
      → lookup p.to_discourse_id (rows_of t) ≡ some to
      → to.pubkey ≡ some k
      → Owns k p.to_discourse_id (rows_of t₁)
  owner' to k at has e b at' has' = elim (Bool-cases (e == from.discourse_id)) [
    | inl same ↦
        let e_from : e ≡ from.discourse_id = (eqb_ℤ_iff e from.discourse_id).0 same in
        let key : from.pubkey ≡ some k =
          ground (arith, has', at', lookup-put_self e (debited p from) t e_from) in
        absurd
          (g.distinct (unique p.to_discourse_id to k at has from.discourse_id from g.stored key))
    | inr other ↦
        let ne : e ≢ from.discourse_id = ground (arith, other, eqb_ℤ_iff e from.discourse_id) in
        unique p.to_discourse_id to k at has e b (sym (lookup-put_ne e (debited p from) t ne) ∙ at')
          has'
  ]

  untouched : lookup p.to_discourse_id (rows_of t₁) ≡ lookup p.to_discourse_id (rows_of t)
  untouched = lookup-put_ne p.to_discourse_id (debited p from) t (λ e. g.distinct (sym e))

  free :
      (to : Account) (o : Option Bytes)
      → lookup p.to_discourse_id (rows_of t) ≡ some to
      → to.pubkey ≡ o
      → key_taken o p.to_discourse_id (rows_of t₁) ≡ false
  unfolding key_taken
  free to none at has = refl
  free to (some k) at has =
      key_taken-free k p.to_discourse_id (rows_of t₁)
        (IsKeyed-insert from.discourse_id (debited p from) (rows_of t) v.keyed) (owner' to k at has)

  credits :
      (o : Option Account)
      → lookup p.to_discourse_id (rows_of t) ≡ o
      → pos 0 ≤ℤ (credited p o).balance
      → upsert_account (credited p o) t₁ ≡ (ok tt, put (credited p o) t₁)
  unfolding recipient violates
  credits none at fine = upsert-runs_new (credited p none) t₁ (untouched ∙ at) refl (ground arith)
  credits (some to) at fine =
      let id = v.named p.to_discourse_id to at in
      upsert-runs (credited p (some to)) to t₁
        (ap (λ (d : ℤ). lookup d (rows_of t₁)) id ∙ untouched ∙ at) refl refl
        (ground (arith, id, free to to.pubkey at refl))

  -- A transfer whose guards hold succeeds: no constraint refuses its two rows.
  transfer_runs :
      sum_balances (rows_of t) ≤ℤ max_int64
      → apply_transfer env (pg_tx env) tx t ≡ (ok tt, after_rows p from t)
  unfolding apply_transfer get_account_by_discourse_id ◌>>=◌
  transfer_runs bounded =
      let paid =
        debits (omega (int_laws, eq_parts (debit env tx t p from v bounded g), g.covered)) in
      let got = credits (lookup p.to_discourse_id (rows_of t)) refl (
        omega (
          int_laws,
          eq_parts (credit env tx t p from v bounded g),
          g.positive,
          receiver_bounds env tx t p from v bounded g,
        )) in
      let read : get_account_by_pub_key p.from t ≡ (ok (some from), t) =
        by_key-find p.from t g.key_size
        ∙ ap (λ (o : Option (ℤ × Account)). (ok (elim o [ none ↦ none | some r ↦ some r.1 ]), t))
            found in
      ground (
        arith,
        read,
        paid,
        got,
        g.parsed,
        g.positive,
        g.to_user,
        g.by_signer,
        g.key_size,
        g.distinct,
        g.next_nonce,
        g.covered,
        equal_bytes_iff p.from tx.signer,
        eqb_ℤ_iff from.discourse_id p.to_discourse_id,
        eqb_ℤ_iff p.nonce (add64 from.nonce (pos 1)),
      )

-- For some payload and row, the guards of a transfer hold.
abbrev pub IsGuarded : Env → Tx → PgTx → Type 0
IsGuarded env tx t = (p : TransferPayload) × (from : Account) × IsRowTransfer env tx t p from

-- On tables of accounts where every row stands once, under its own id, no key stands twice, and the
-- balances are not negative and add up to an int64: a transfer either succeeds, and then its
-- guards hold for a payload and a row, and it has moved exactly that payload's amount from that
-- row, or it fails, and then no payload and row pass the guards. A success takes the amount from
-- the row of the signer's key, which takes the payload's nonce and keeps its key and name; it adds
-- it to the recipient's row, which keeps all else, or is new with it; and it changes no other row,
-- nor the sum, nor the table of transactions.
pub pg_transfer_cases :
    (env : Env) (tx : Tx) (t : PgTx)
    → IsTable (rows_of t)
    → IsUnique (rows_of t)
    → sum_balances (rows_of t) ≤ℤ max_int64
    → (((apply_transfer env (pg_tx env) tx t).0 ≡ ok tt)
        × ((p : TransferPayload) × (from : Account) × IsRowTransfer env tx t p from
            × RowsMoved p from t (apply_transfer env (pg_tx env) tx t).1))
      ⊎ (((apply_transfer env (pg_tx env) tx t).0 ≢ ok tt) × ¬ IsGuarded env tx t)
pg_transfer_cases env tx t v unique bounded =
    elim (Result-cases (apply_transfer env (pg_tx env) tx t).0) [
      | inl (tt, e) ↦ inl (
        e,
        pg_transfer-RowsMoved env tx t (apply_transfer env (pg_tx env) tx t).1 v bounded
            (ap (λ r. (r, (apply_transfer env (pg_tx env) tx t).1)) e),
      )
      | inr (x, e) ↦
          let failed : (apply_transfer env (pg_tx env) tx t).0 ≢ ok tt = ground (arith, e) in
          inr (
            failed,
            λ w. failed (ap (λ r. r.0) (transfer_runs env tx t w.0 w.1 v unique w.2 bounded)),
          )
    ]
