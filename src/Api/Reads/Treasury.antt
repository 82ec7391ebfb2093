-- ===== src/Api/Reads/Treasury.antt =====
-- What the treasury's handler says of the supply, on every ledger that the API reaches.
use discourse_points_system.Prelude.{
  ◌≡◌, ◌≢◌, ◌↔◌, refl, sym, ◌∙◌, arith, inl, inr, Option-cases, true, none, List, [], ◌∷◌,
}
use discourse_points_system.Prelude.Int.{ℤ, pos, int_eq, int_laws}
use discourse_points_system.Prelude.Dict.{Dict, lookup}
use discourse_points_system.Ledger.Tx.{Env, Tx, supply_cap}
use discourse_points_system.Ledger.MemStore.{
  MemStore, mem_store, new_mem_store, begin, rollback, get_account_by_discourse_id, total_balance,
  add_balances,
}
use discourse_points_system.Ledger.Store.{Account}
use discourse_points_system.Ledger.MemStore.Balances.{add_balances-eq-sum, balance_of, sum_balances}
use discourse_points_system.Ledger.Invariant.{IsLedger, expected_supply, supply-bounded}
use discourse_points_system.Api.Submit.{Request, serve_all, serve_all-IsLedger}
use discourse_points_system.Api.Reads.{TreasuryView, treasury_is, treasury_view, treasury}

expected-later : (txs : List Tx) → txs ≢ [] → expected_supply txs ≡ supply_cap
expected-later [] h = absurd (h refl)
expected-later (tx ∷ txs) h = refl

total-supply :
    (env : Env) (m : MemStore)
    → IsLedger env m
    → add_balances m.by_discourse_id (pos 0) ≡ expected_supply m.txs
total-supply env m inv =
    add_balances-eq-sum m.by_discourse_id (pos 0) inv.sound.nonneg (omega arith)
      (omega (int_laws, supply-bounded env m inv))
    ∙ omega int_laws
    ∙ inv.supply

-- What is reported: the balance of the treasury's account, zero if there is none, whether there is
-- one, and the whole supply, which is right.
pub record IsReport (rows : Dict ℤ Account) (t : TreasuryView) : Type 0 where
  pub balance : t.treasury_balance ≡ balance_of (lookup (pos 0) rows)
  pub registered : (t.treasury_registered ≡ true) ↔ (lookup (pos 0) rows ≢ none)
  pub sum : t.supply_circulating ≡ sum_balances rows
  pub circulating : t.supply_circulating ≡ pos 50_000_000
  pub cap : t.supply_cap ≡ pos 50_000_000
  pub right : t.supply_ok ≡ true

treasury_view-IsReport :
    (rows : Dict ℤ Account)
    → sum_balances rows ≡ pos 50_000_000
    → IsReport rows (treasury_view (lookup (pos 0) rows) (pos 50_000_000))
unfolding treasury_view
treasury_view-IsReport rows h = record {
  balance = elim (Option-cases (lookup (pos 0) rows)) [
    | inl e ↦ rw e refl
    | inr (a, e) ↦ rw e refl
  ];
  registered = elim (Option-cases (lookup (pos 0) rows)) [
    | inl e ↦ ((λ b. absurd (ground arith)), (λ f. absurd (f e)))
    | inr (a, e) ↦ ((λ b f. absurd (ground arith)), (λ f. ground arith))
  ];
  sum = sym h;
  circulating = refl;
  cap = refl;
  right = refl;
}

-- After any sequence of submissions and registrations on a new ledger in memory that logs an entry,
-- `treasury` reports the balance of the account with id 0, zero if there is none, whether there is
-- one, the sum of all balances as the circulating supply, which is
-- 50 million, the same as the cap, and that the supply is right; and it
-- changes nothing.
pub treasury-supply :
    (H : Type 0) (env : Env) (rs : List Request)
    → (serve_all env rs new_mem_store).txs ≢ []
    → (t : TreasuryView) × (treasury {H = H} mem_store (serve_all env rs new_mem_store)
        ≡ (treasury_is t, serve_all env rs new_mem_store))
      × IsReport (serve_all env rs new_mem_store).by_discourse_id t
unfolding treasury begin rollback get_account_by_discourse_id total_balance
treasury-supply H env rs some_tx =
    let m = serve_all env rs new_mem_store in
    let o = lookup (pos 0) m.by_discourse_id in
    let total : add_balances m.by_discourse_id (pos 0) ≡ supply_cap =
      total-supply env m (serve_all-IsLedger env rs) ∙ expected-later m.txs some_tx in
    let supplied = (serve_all-IsLedger env rs).supply ∙ expected-later m.txs some_tx in
    (treasury_view o supply_cap, rw total refl, treasury_view-IsReport m.by_discourse_id supplied)
