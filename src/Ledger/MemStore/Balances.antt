-- ===== src/Ledger/MemStore/Balances.antt =====
-- The sum of the balances under each write, and the int64 loop of TotalBalance against it.
use discourse_points_system.Prelude.{◌≢◌, Option, none, some, [], ◌∷◌, ◌≡◌, arith}
use discourse_points_system.Prelude.Int.{
  ℤ, pos, int_eq, eqb_ℤ_iff, ◌+ℤ◌, ◌≤ℤ◌, int_laws, add64_lem, max_int64,
}
use discourse_points_system.Prelude.Dict.{Dict, lookup, insert}
use discourse_points_system.Ledger.Store.{Account}
use discourse_points_system.Ledger.MemStore.{add_balances}

-- The sum of the balances, over the integers.
abbrev pub sum_balances : Dict ℤ Account → ℤ
sum_balances [] = pos 0
sum_balances ((_, a) ∷ d) = a.balance +ℤ sum_balances d

abbrev pub AreNonneg : Dict ℤ Account → Type 0
AreNonneg [] = Unit
AreNonneg ((_, a) ∷ d) = (pos 0 ≤ℤ a.balance) × AreNonneg d

-- The balance that an id has, zero if there is no account.
abbrev pub balance_of : Option Account → ℤ
balance_of none = pos 0
balance_of (some a) = a.balance

pub sum-nonneg : (d : Dict ℤ Account) → AreNonneg d → pos 0 ≤ℤ sum_balances d
sum-nonneg [] h = omega arith
sum-nonneg ((_, a) ∷ d) h = omega (int_laws, sum-nonneg d h.1)

-- A write changes the sum by the change of the one balance.
pub sum-insert :
    (k : ℤ) (a : Account) (d : Dict ℤ Account)
    → sum_balances (insert k a d) +ℤ balance_of (lookup k d) ≡ sum_balances d +ℤ a.balance
unfolding insert lookup
sum-insert k a [] = omega int_laws
sum-insert k a ((j, b) ∷ d) = grind (int_laws, sum-insert k a d)

pub insert-AreNonneg :
    (k : ℤ) (a : Account) (d : Dict ℤ Account)
    → pos 0 ≤ℤ a.balance
    → AreNonneg d
    → AreNonneg (insert k a d)
unfolding insert
insert-AreNonneg k a [] p h = (p, tt)
insert-AreNonneg k a ((j, b) ∷ d) p h = ground (arith, insert-AreNonneg k a d p h.1)

-- From a total that is not negative, while no balance is negative and total and balances add up
-- to an int64, the loop of TotalBalance gives their sum: it does not wrap.
pub add_balances-eq-sum :
    (d : Dict ℤ Account) (total : ℤ)
    → AreNonneg d
    → pos 0 ≤ℤ total
    → total +ℤ sum_balances d ≤ℤ max_int64
    → add_balances d total ≡ total +ℤ sum_balances d
unfolding add_balances
add_balances-eq-sum [] total h p r = omega int_laws
add_balances-eq-sum ((_, a) ∷ d) total h p r =
    rw
      (add64_lem total a.balance
        (omega (int_laws, sum-nonneg d h.1), omega (int_laws, sum-nonneg d h.1)))
      (rw (add_balances-eq-sum d (total +ℤ a.balance) h.1 (omega int_laws) (omega int_laws))
        (omega int_laws))

pub balance_of-bounds :
    (k : ℤ) (d : Dict ℤ Account)
    → AreNonneg d
    → (pos 0 ≤ℤ balance_of (lookup k d)) × (balance_of (lookup k d) ≤ℤ sum_balances d)
unfolding lookup
balance_of-bounds k [] h = omega arith
balance_of-bounds k ((j, b) ∷ d) h = grind (int_laws, balance_of-bounds k d h.1, sum-nonneg d h.1)

-- Two accounts together hold no more than the sum.
pub two-bounds :
    (k j : ℤ) (d : Dict ℤ Account)
    → AreNonneg d
    → k ≢ j
    → balance_of (lookup k d) +ℤ balance_of (lookup j d) ≤ℤ sum_balances d
unfolding lookup
two-bounds k j [] h ne = omega int_laws
two-bounds k j ((i, b) ∷ d) h ne = grind (
  int_laws,
  two-bounds k j d h.1 ne,
  balance_of-bounds k d h.1,
  balance_of-bounds j d h.1,
  eqb_ℤ_iff k i,
  eqb_ℤ_iff j i,
)
