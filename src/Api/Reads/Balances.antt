-- ===== src/Api/Reads/Balances.antt =====
-- The balances that are served are those of the store in memory, in the order of the ids.
use discourse_points_system.Prelude.{
  ◌≤◌, ◌<◌, Bool, true, Bytes, ◌≡◌, ◌⊎◌, inl, inr, refl, ◌∙◌, arith, false, Option, none, some,
  List, [], ◌∷◌, length, length-map, ltb, if◌then◌else◌, map, Option-cases, beq_refl, same→eq,
}
use discourse_points_system.Prelude.Int.{ℤ, int_eq}
use discourse_points_system.Prelude.Dict.{Dict, lookup, insert, lookup-insert}
use discourse_points_system.Ledger.Store.{Account, key_bytes}
use discourse_points_system.Ledger.MemStore.{
  MemStore, mem_store, begin, rollback, collect_accounts, get_accounts_by_discourse_ids,
}
use discourse_points_system.TxLog.{hex}
use discourse_points_system.Api.Ids.{distinct, AreIds, normalize-distinct}
use discourse_points_system.Api.Reads.{Entry, no_account, shown, accounts, entry_of, balances}

map-ext : {f g : ℤ → Entry} → ((id : ℤ) → f id ≡ g id) → (ids : List ℤ) → map f ids ≡ map g ids
map-ext h [] = refl
map-ext h (id ∷ ids) = rw (h id, map-ext h ids) refl

-- What the map under construction has for a key: nothing, or the account.
abbrev Agrees : Dict ℤ Account → Dict ℤ Account → Type 0
Agrees acc out = (k : ℤ) → (lookup k out ≡ none) ⊎ (lookup k out ≡ lookup k acc)

abbrev step : Dict ℤ Account → ℤ → Dict ℤ Account → Dict ℤ Account
step acc did out = elim (lookup did acc) [ none ↦ out | some a ↦ insert did a out ]

empty-Agrees : (acc : Dict ℤ Account) → Agrees acc []
unfolding lookup
empty-Agrees acc k = inl refl

step-kept :
    (acc out : Dict ℤ Account) (did k : ℤ)
    → lookup k out ≡ lookup k acc
    → lookup k (step acc did out) ≡ lookup k acc
step-kept acc out did k h = elim (Option-cases (lookup did acc)) [
  | inl e ↦ rw (e, step) h
  | inr (a, e) ↦ rw (e, step) (ground (arith, lookup-insert k did a out, same→eq k did))
]

step-Agrees : (acc out : Dict ℤ Account) (did : ℤ) → Agrees acc out → Agrees acc (step acc did out)
step-Agrees acc out did h k = elim (Option-cases (lookup did acc)) [
  | inl e ↦ rw (e, step) (h k)
  | inr (a, e) ↦ elim (h k) [
    | inr p ↦ inr (step-kept acc out did k p)
    | inl p ↦ rw (e, step) (ground (arith, lookup-insert k did a out, same→eq k did))
  ]
]

step-settled :
    (acc out : Dict ℤ Account) (did : ℤ)
    → Agrees acc out
    → lookup did (step acc did out) ≡ lookup did acc
step-settled acc out did h = elim (Option-cases (lookup did acc)) [
  | inl e ↦ elim (h did) [ inl p ↦ rw (e, step) p | inr p ↦ rw (e, step) (p ∙ e) ]
  | inr (a, e) ↦ rw (e, step) (ground (arith, lookup-insert did did a out, beq_refl did))
]

collect-kept :
    (acc out : Dict ℤ Account) (dids : List ℤ) (k : ℤ)
    → lookup k out ≡ lookup k acc
    → lookup k (collect_accounts acc dids out) ≡ lookup k acc
unfolding collect_accounts
collect-kept acc out [] k h = h
collect-kept acc out (did ∷ dids) k h =
    collect-kept acc (step acc did out) dids k (step-kept acc out did k h)

-- The map that is collected gives every entry as the store's map does.
collect-entries :
    (f : ℤ → Option Account → Entry) (acc out : Dict ℤ Account) (dids : List ℤ)
    → Agrees acc out
    → map (λ id. f id (lookup id (collect_accounts acc dids out))) dids
      ≡ map (λ id. f id (lookup id acc)) dids
unfolding collect_accounts
collect-entries f acc out [] h = refl
collect-entries f acc out (did ∷ dids) h =
    let head = collect-kept acc (step acc did out) dids did (step-settled acc out did h) in
    rw (collect-entries f acc (step acc did out) dids (step-Agrees acc out did h), head) refl

-- What is served of a row: all of it but its nonce, the key in hexadecimal, and whether there is a
-- key, twice; or that there is no account under the id.
abbrev pub has_key : Option Bytes → Bool
has_key (some (c ∷ k)) = true
has_key _ = false

abbrev pub shown_row : ℤ → Option Account → Entry
shown_row id none = no_account id none
shown_row id (some a) =
    shown
      (record {
        discourse_id = a.discourse_id;
        username = a.username;
        balance = a.balance;
        pubkey_hex = elim a.pubkey [ none ↦ [] | some k ↦ hex k ];
        registered = has_key a.pubkey;
        nonce = none;
      })
      (has_key a.pubkey)

has_key-length : (o : Option Bytes) → ltb 0 (length (key_bytes o)) ≡ has_key o
has_key-length none = refl
has_key-length (some []) = refl
has_key-length (some (c ∷ k)) = ground arith

shown-key :
    (o : Option Bytes)
    → (if has_key o then hex (key_bytes o) else []) ≡ elim o [ none ↦ [] | some k ↦ hex k ]
unfolding hex
shown-key none = refl
shown-key (some []) = refl
shown-key (some (c ∷ k)) = refl

entry_of-shown_row : (id : ℤ) (o : Option Account) → entry_of id none false o ≡ shown_row id o
unfolding entry_of
entry_of-shown_row id none = refl
entry_of-shown_row id (some a) = rw (has_key-length a.pubkey, shown-key a.pubkey) refl

-- On a store in memory, for a list of ids that is not empty, has no more than 200 ids and none that
-- is negative, `balances` answers with one entry for each different id, in the order of their first
-- occurrences: the account that the store has under the id, with its own id, name, balance and
-- hexadecimal key and whether it has a key, but without its nonce, or that there is none; with the
-- number of entries; and the store is as it was.
pub balances-shown_row :
    (H : Type 0) (raw : List ℤ) (m : MemStore)
    → 0 < length raw
    → length raw ≤ 200
    → AreIds raw
    → balances {H = H} mem_store (some raw) m ≡ (
      accounts
          (length (distinct raw))
          (map (λ id. shown_row id (lookup id m.by_discourse_id)) (distinct raw)),
      m,
    )
unfolding balances begin rollback get_accounts_by_discourse_ids
balances-shown_row H raw m some_id short fine =
    rw
      (
        normalize-distinct raw 200 some_id short fine,
        balances,
        collect-entries (λ id. entry_of id none false) m.by_discourse_id [] (distinct raw)
            (empty-Agrees m.by_discourse_id),
        map-ext (λ id. entry_of-shown_row id (lookup id m.by_discourse_id)) (distinct raw),
        length-map (λ id. shown_row id (lookup id m.by_discourse_id)) (distinct raw),
      )
      refl
