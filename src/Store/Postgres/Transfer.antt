-- ===== src/Store/Postgres/Transfer.antt =====
-- applyTransfer of internal/ledger/ledger.go, run on the transaction of internal/store/pgstore.go.
use discourse_points_system.Prelude.{
  Option, none, some, Bytes, length, ◌≡◌, ◌≢◌, refl, ap, sym, ◌∙◌, arith, inl, inr, Option-cases,
}
use discourse_points_system.Prelude.Int.{
  ℤ, pos, int_eq, ◌+ℤ◌, ◌-ℤ◌, ◌≤ℤ◌, max_int64, InRange64, add64_lem, sub64_lem, int_laws, eqb_ℤ_iff,
  add64, eq_parts, eq_of_parts,
}
use discourse_points_system.Prelude.Dict.{lookup, lookup-insert}
use discourse_points_system.Prelude.Exec.{
  Exec, ok, ◌>>=◌, ◌>>◌, map_err, or_fail_inv, fail_if_inv, read_inv, bind_inv,
}
use discourse_points_system.Ledger.Tx.{Env, Tx, TransferPayload, Context, Error, wrapped}
use discourse_points_system.Ledger.Store.{Account}
use discourse_points_system.Ledger.MemStore.Balances.{
  sum_balances, balance_of, balance_of-bounds, two-bounds, sum-insert,
}
use discourse_points_system.Ledger.Apply.{apply_transfer, recipient}
use discourse_points_system.Ledger.Apply.EqualBytes.{equal_bytes_iff}
use discourse_points_system.Ledger.Apply.Transfer.{debited, credited}
use discourse_points_system.Store.Postgres.{
  PgTx, pg_tx, upsert_account, get_account_by_discourse_id, find_key,
}
use discourse_points_system.Store.Postgres.Rows.{
  IsTable, rows_of, put, find_key-lookup, by_key-find, insert-IsTable, upsert-put, upsert-put_new,
}

-- The guards of a transfer, for a payload and the row of its signer.
pub record IsRowTransfer (env : Env) (tx : Tx) (t : PgTx) (p : TransferPayload) (from : Account)
    : Type 0 where
  pub parsed : env.unmarshal_transfer tx.payload ≡ some p
  pub positive : pos 1 ≤ℤ p.amount
  pub to_user : pos 1 ≤ℤ p.to_discourse_id
  pub by_signer : p.from ≡ tx.signer
  pub key_size : length p.from ≡ 32
  pub stored : lookup from.discourse_id (rows_of t) ≡ some from
  pub key : from.pubkey ≡ some p.from
  pub distinct : from.discourse_id ≢ p.to_discourse_id
  pub next_nonce : p.nonce ≡ add64 from.nonce (pos 1)
  pub covered : p.amount ≤ℤ from.balance

-- What it does to the tables: the amount goes from the sender's row to the recipient's, which
-- keeps its key, its name and its nonce, and no other row changes.
pub record RowsMoved (p : TransferPayload) (from : Account) (t t' : PgTx) : Type 0 where
  pub table : IsTable (rows_of t')
  pub same_sum : sum_balances (rows_of t') ≡ sum_balances (rows_of t)
  pub same_log : t'.tables.transactions ≡ t.tables.transactions
  pub sender :
      lookup from.discourse_id (rows_of t')
      ≡ some (record from { nonce = p.nonce; balance = from.balance -ℤ p.amount })
  pub receiver :
      (to : Account)
      → lookup p.to_discourse_id (rows_of t) ≡ some to
      → lookup p.to_discourse_id (rows_of t')
        ≡ some (record to { balance = to.balance +ℤ p.amount })
  pub received :
      balance_of (lookup p.to_discourse_id (rows_of t'))
      ≡ balance_of (lookup p.to_discourse_id (rows_of t)) +ℤ p.amount
  pub others :
      (did : ℤ)
      → did ≢ from.discourse_id
      → did ≢ p.to_discourse_id
      → lookup did (rows_of t') ≡ lookup did (rows_of t)

map_err_inv :
    {A : Type 0} (w : Error → Error) (m : Exec Error PgTx A) (s s' : PgTx) (b : A)
    → map_err w m s ≡ (ok b, s')
    → m s ≡ (ok b, s')
unfolding map_err
map_err_inv w m s s' b h = ground arith

found_row :
    (o : Option (ℤ × Account)) (a : Account)
    → elim o [ none ↦ none | some r ↦ some r.1 ] ≡ some a
    → (did : ℤ) × (o ≡ some (did, a))
found_row none a h = absurd (ground arith)
found_row (some (did, b)) a h = (did, ground arith)

-- The row that the query by key finds.
stored_row :
    (k : Bytes) (t : PgTx) (from : Account)
    → IsTable (rows_of t)
    → elim (find_key k (rows_of t)) [ none ↦ none | some r ↦ some r.1 ] ≡ some from
    → (lookup from.discourse_id (rows_of t) ≡ some from) × (from.pubkey ≡ some k)
stored_row k t from v h =
    let (did, e) = found_row (find_key k (rows_of t)) from h in
    let (at, key) = find_key-lookup k (rows_of t) did from v.keyed e in
    (ap (λ (d : ℤ). lookup d (rows_of t)) (v.named did from at) ∙ at, key)

pub lookup-put_ne :
    (did : ℤ) (a : Account) (t : PgTx)
    → did ≢ a.discourse_id
    → lookup did (rows_of (put a t)) ≡ lookup did (rows_of t)
lookup-put_ne did a t ne =
    ground (arith, lookup-insert did a.discourse_id a (rows_of t), eqb_ℤ_iff did a.discourse_id)

pub lookup-put_self :
    (did : ℤ) (a : Account) (t : PgTx)
    → did ≡ a.discourse_id
    → lookup did (rows_of (put a t)) ≡ some a
lookup-put_self did a t e =
    ground (arith, lookup-insert did a.discourse_id a (rows_of t), eqb_ℤ_iff did a.discourse_id)

abbrev pub after_rows : TransferPayload → Account → PgTx → PgTx
after_rows p from t =
    put (credited p (lookup p.to_discourse_id (rows_of t))) (put (debited p from) t)

-- The row that the second statement writes is the one computed, its key and name kept.
write_to :
    (p : TransferPayload) (known : Option Account) (t t' : PgTx)
    → lookup p.to_discourse_id (rows_of t) ≡ known
    → ((to : Account) → known ≡ some to → to.discourse_id ≡ p.to_discourse_id)
    → upsert_account (credited p known) t ≡ (ok tt, t')
    → t' ≡ put (credited p known) t
unfolding recipient
write_to p none t t' at id h = upsert-put_new (credited p none) t t' at refl h
write_to p (some to) t t' at id h =
    upsert-put (credited p (some to)) to t t'
      (ap (λ (d : ℤ). lookup d (rows_of t)) (id to refl) ∙ at) refl refl h

module _ (env : Env) (tx : Tx) (t t' : PgTx) (v : IsTable (rows_of t)) where
  to_id :
      (p : TransferPayload)
      → (recipient p (lookup p.to_discourse_id (rows_of t))).discourse_id ≡ p.to_discourse_id
  unfolding recipient
  to_id p = elim (Option-cases (lookup p.to_discourse_id (rows_of t))) [
    | inl absent ↦ ground arith
    | inr (to, at) ↦ ground (arith, v.named p.to_discourse_id to at)
  ]

  write_two :
      (p : TransferPayload) (from : Account)
      → IsRowTransfer env tx t p from
      → (do
        known ←
            map_err
              (wrapped Context.to_account)
              ((pg_tx env).get_account_by_discourse_id p.to_discourse_id)
        map_err (wrapped Context.update_from) ((pg_tx env).upsert_account (debited p from))
        map_err (wrapped Context.update_to) ((pg_tx env).upsert_account (credited p known)))
          t
        ≡ (ok tt, t')
      → t' ≡ after_rows p from t
  unfolding get_account_by_discourse_id
  write_two p from g h =
      let h₁ = read_inv _ _ _ refl h in
      bind_inv _ h₁ λ _ t₁ e h₂.
        let first =
          upsert-put (debited p from) from t t₁ g.stored refl refl (map_err_inv _ _ _ _ _ e) in
        let same =
          ap (λ u. lookup p.to_discourse_id (rows_of u)) first
          ∙ lookup-put_ne p.to_discourse_id (debited p from) t (λ e. g.distinct (sym e)) in
        let second =
          write_to p (lookup p.to_discourse_id (rows_of t)) t₁ t' same (v.named p.to_discourse_id)
            (map_err_inv _ _ _ _ _ h₂) in
        second ∙ ap (put (credited p (lookup p.to_discourse_id (rows_of t)))) first

  -- A transfer that succeeds has passed its guards and written two rows.
  pub pg_transfer_inv :
      apply_transfer env (pg_tx env) tx t ≡ (ok tt, t')
      → (p : TransferPayload) × (from : Account) × IsRowTransfer env tx t p from
        × (t' ≡ after_rows p from t)
  unfolding apply_transfer
  pg_transfer_inv h = or_fail_inv _ _ h λ p parsed h₁. fail_if_inv _ _ h₁ λ positive h₂.
      fail_if_inv _ _ h₂ λ to_user h₃. fail_if_inv _ _ h₃ λ signed h₄.
        fail_if_inv _ _ h₄ λ sized h₅.
          let size : length p.from ≡ 32 = ground arith in
          let h₆ = read_inv _ _ _ (by_key-find p.from t size) h₅ in
          or_fail_inv _ _ h₆ λ from found h₇. fail_if_inv _ _ h₇ λ distinct h₈.
            fail_if_inv _ _ h₈ λ next h₉. fail_if_inv _ _ h₉ λ covered h₁₀.
              let row = stored_row p.from t from v found in
              let g : IsRowTransfer env tx t p from = record {
                parsed = parsed;
                positive = ground arith;
                to_user = ground arith;
                by_signer = ground (arith, equal_bytes_iff p.from tx.signer);
                key_size = size;
                stored = row.0;
                key = row.1;
                distinct = ground (arith, eqb_ℤ_iff from.discourse_id p.to_discourse_id);
                next_nonce = ground (arith, eqb_ℤ_iff p.nonce (add64 from.nonce (pos 1)));
                covered = ground arith;
              } in
              (p, from, g, write_two p from g h₁₀)

module _ (env : Env) (tx : Tx) (t : PgTx) (p : TransferPayload) (from : Account)
    (v : IsTable (rows_of t)) (bounded : sum_balances (rows_of t) ≤ℤ max_int64)
    (g : IsRowTransfer env tx t p from) where
  abbrev known : Option Account
  known = lookup p.to_discourse_id (rows_of t)

  abbrev t₁ : PgTx
  t₁ = put (debited p from) t

  id' : (credited p known).discourse_id ≡ p.to_discourse_id
  id' = to_id env tx t t v p

  together : from.balance +ℤ balance_of known ≤ℤ sum_balances (rows_of t)
  together =
      rw (ap balance_of g.stored) at
        (two-bounds from.discourse_id p.to_discourse_id (rows_of t) v.nonneg g.distinct)

  pub receiver_bounds : pos 0 ≤ℤ balance_of known
  receiver_bounds = (balance_of-bounds p.to_discourse_id (rows_of t) v.nonneg).0

  pub debit : (debited p from).balance ≡ from.balance -ℤ p.amount
  debit = sub64_lem from.balance p.amount (
    omega (int_laws, g.positive, g.covered),
    omega (int_laws, g.positive, together, bounded, receiver_bounds),
  )

  fits : InRange64 (balance_of known +ℤ p.amount)
  fits = (
    omega (int_laws, g.positive, receiver_bounds),
    omega (int_laws, g.covered, together, bounded),
  )

  credited_row :
      (o : Option Account)
      → InRange64 (balance_of o +ℤ p.amount)
      → ((credited p o).balance ≡ balance_of o +ℤ p.amount)
        × ((to : Account)
            → o ≡ some to
            → credited p o ≡ record to { balance = to.balance +ℤ p.amount })
  unfolding recipient
  credited_row none r = (add64_lem (pos 0) p.amount r, λ to h. absurd (ground arith))
  credited_row (some a) r = (
    add64_lem a.balance p.amount r,
    λ to h. ap (λ (x : ℤ). record a { balance = x }) (add64_lem a.balance p.amount r) ∙ cc,
  )

  pub credit : (credited p known).balance ≡ balance_of known +ℤ p.amount
  credit = (credited_row known fits).0

  kept : lookup p.to_discourse_id (rows_of t₁) ≡ known
  kept = lookup-put_ne p.to_discourse_id (debited p from) t (λ e. g.distinct (sym e))

  same_sum : sum_balances (rows_of (after_rows p from t)) ≡ sum_balances (rows_of t)
  same_sum = eq_of_parts _ _ (
      omega (
        int_laws,
        eq_parts credit,
        eq_parts debit,
        eq_parts (ap balance_of g.stored),
        eq_parts (ap (λ (d : ℤ). balance_of (lookup d (rows_of t₁))) id' ∙ ap balance_of kept),
        eq_parts (sum-insert from.discourse_id (debited p from) (rows_of t)),
        eq_parts (sum-insert (credited p known).discourse_id (credited p known) (rows_of t₁)),
      ))

  moved : RowsMoved p from t (after_rows p from t)
  moved = record {
    table =
        insert-IsTable (credited p known) (rows_of t₁)
          (insert-IsTable (debited p from) (rows_of t) v
            (omega (int_laws, eq_parts debit, g.covered)))
          (omega (int_laws, eq_parts credit, g.positive, receiver_bounds));
    same_sum = same_sum;
    same_log = refl;
    sender =
        lookup-put_ne from.discourse_id (credited p known) t₁ (λ e. g.distinct (e ∙ id'))
        ∙ lookup-put_self from.discourse_id (debited p from) t refl
        ∙ ap (λ (x : ℤ). some (record from { nonce = p.nonce; balance = x })) debit;
    receiver = λ to at.
        lookup-put_self p.to_discourse_id (credited p known) t₁ (sym id')
        ∙ ap some ((credited_row known fits).1 to at);
    received =
        ap balance_of (lookup-put_self p.to_discourse_id (credited p known) t₁ (sym id')) ∙ credit;
    others = λ did not_sender not_receiver.
        lookup-put_ne did (credited p known) t₁ (λ e. not_receiver (e ∙ id'))
        ∙ lookup-put_ne did (debited p from) t not_sender;
  }

-- So a transfer that succeeds has passed its guards and moved its amount.
pub pg_transfer-RowsMoved :
    (env : Env) (tx : Tx) (t t' : PgTx)
    → IsTable (rows_of t)
    → sum_balances (rows_of t) ≤ℤ max_int64
    → apply_transfer env (pg_tx env) tx t ≡ (ok tt, t')
    → (p : TransferPayload) × (from : Account) × IsRowTransfer env tx t p from
      × RowsMoved p from t t'
pg_transfer-RowsMoved env tx t t' v bounded h =
    let (p, from, g, e) = pg_transfer_inv env tx t t' v h in
    (p, from, g, rw e (moved env tx t p from v bounded g))
