-- ===== src/Ledger/History.antt =====
-- Sequences of submissions to the ledger in memory: what holds after all of them.
use mathlib.Core.List.{append_assoc, append-nil}
use discourse_points_system.Prelude.{List, [], ◌∷◌, ◌++◌, bytes_eq, ◌≡◌, refl, sym, ap, ◌∙◌}
use discourse_points_system.Prelude.Dict.{lookup}
use discourse_points_system.Prelude.Exec.{Result, ok, err}
use discourse_points_system.Ledger.Tx.{Env, Tx, Error}
use discourse_points_system.Ledger.MemStore.{MemStore, mem_store, new_mem_store}
use discourse_points_system.Ledger.Apply.{apply}
use discourse_points_system.Ledger.Apply.Inversion.{apply_refused}
use discourse_points_system.Ledger.Invariant.{IsLedger, apply-IsStep, apply-IsLedger}

-- The store after a sequence of calls of Apply, whatever each of them returned.
unfoldable pub submit_all : Env → List Tx → MemStore → MemStore
submit_all env [] m = m
submit_all env (tx ∷ txs) m = submit_all env txs (apply env mem_store tx m).2

new-IsLedger : (env : Env) → IsLedger env new_mem_store
unfolding lookup
new-IsLedger env = record {
  sound = record { indexed = record { keyed = λ k d h. cc; named = λ d a h. cc }; nonneg = tt };
  supply = refl;
  chain = tt;
}

submit_all-keeps :
    (env : Env) (txs : List Tx) (m : MemStore)
    → IsLedger env m
    → IsLedger env (submit_all env txs m)
unfolding submit_all
submit_all-keeps env [] m inv = inv
submit_all-keeps env (tx ∷ txs) m inv =
    submit_all-keeps env txs (apply env mem_store tx m).2 (apply-IsLedger env tx m inv)

-- Whatever is submitted to a new store, the invariant holds: the maps agree, no balance is
-- negative, the balances add up to the supply once there is an entry, and the log is a chain.
pub submit_all-IsLedger :
    (env : Env) (txs : List Tx) → IsLedger env (submit_all env txs new_mem_store)
submit_all-IsLedger env txs = submit_all-keeps env txs new_mem_store (new-IsLedger env)

apply-extends :
    (env : Env) (tx : Tx) (m : MemStore)
    → IsLedger env m
    → (more : List Tx) × ((apply env mem_store tx m).2.txs ≡ m.txs ++ more)
apply-extends env tx m inv = go (apply env mem_store tx m) refl
  where
    go :
        (r : Result Error (Unit {0}) × Tx × MemStore)
        → apply env mem_store tx m ≡ r
        → (more : List Tx) × (r.2.txs ≡ m.txs ++ more)
    go (ok _, tx', m') h = (tx' ∷ [], (apply-IsStep env tx tx' m m' inv h).appended)
    go (err e, tx', m') h = (
      [],
      ap (λ (m : MemStore). m.txs) (apply_refused env tx tx' m m' e h) ∙ sym (append-nil m.txs),
    )

-- From a ledger in memory that satisfies the invariant, the log is append-only under any
-- submissions: what it held stays, in place.
pub submit_all-extends :
    (env : Env) (txs : List Tx) (m : MemStore)
    → IsLedger env m
    → (more : List Tx) × ((submit_all env txs m).txs ≡ m.txs ++ more)
unfolding submit_all
submit_all-extends env [] m inv = ([], sym (append-nil m.txs))
submit_all-extends env (tx ∷ txs) m inv =
    let (one, e) = apply-extends env tx m inv in
    let (rest, e') =
      submit_all-extends env txs (apply env mem_store tx m).2 (apply-IsLedger env tx m inv) in
    (one ++ rest, e' ∙ ap (λ (l : List Tx). l ++ rest) e ∙ append_assoc m.txs one rest)
