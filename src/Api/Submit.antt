-- ===== src/Api/Submit.antt =====
-- Requests of every kind, in any order: the ledger keeps its invariant, and a submission answers
-- with 201 exactly when it is logged.
use discourse_points_system.Prelude.{
  ℕ, Option, List, [], ◌∷◌, ◌++◌, Bytes, ◌≡◌, ◌⊎◌, inl, inr, arith,
}
use discourse_points_system.Prelude.Int.{ℤ, pos}
use discourse_points_system.Prelude.Exec.{ok, Result-cases}
use discourse_points_system.Ledger.Tx.{Env, Tx, TxType}
use discourse_points_system.Ledger.MemStore.{MemStore, mem_store, new_mem_store}
use discourse_points_system.Ledger.Apply.{apply}
use discourse_points_system.Ledger.Apply.Inversion.{apply_atomic}
use discourse_points_system.Ledger.Invariant.{IsLedger, apply-IsLedger, apply-IsStep, accepted_inv}
use discourse_points_system.Ledger.History.{submit_all, submit_all-IsLedger}
use discourse_points_system.Api.{Response, refused, submitted, register, submit_tx, error_status}
use discourse_points_system.Api.Register.{register-IsLedger}

-- A request that may write: a submission, decoded, or a registration.
pub data Request : Type 0 where
  submission : TxType → Bytes → Bytes → Bytes → Request
  registration : Option (ℤ × Bytes) → Option Bytes → Request

unfoldable pub serve : Env → Request → MemStore → Response × MemStore
serve env (submission t payload sig signer) m = submit_tx mem_store env t payload sig signer m
serve env (registration user body) m = register mem_store user body m

unfoldable pub serve_all : Env → List Request → MemStore → MemStore
serve_all env [] m = m
serve_all env (r ∷ rs) m = serve_all env rs (serve env r m).1

abbrev pub sent : TxType → Bytes → Bytes → Bytes → Tx
sent t payload sig signer = record {
  leaf_index = pos 0;
  type = t;
  payload = payload;
  sig = sig;
  signer = signer;
  prev_hash = [];
  tx_hash = [];
}

pub submit-world :
    (env : Env) (t : TxType) (payload sig signer : Bytes) (m : MemStore)
    → (submit_tx mem_store env t payload sig signer m).1
      ≡ (apply env mem_store (sent t payload sig signer) m).2
unfolding submit_tx
submit-world env t payload sig signer m =
    elim (Result-cases (apply env mem_store (sent t payload sig signer) m).0) [
      | inl (_, done) ↦ ground arith
      | inr (e, failed) ↦ ground arith
    ]

serve-IsLedger :
    (env : Env) (r : Request) (m : MemStore) → IsLedger env m → IsLedger env (serve env r m).1
unfolding serve
serve-IsLedger env (Request.submission t payload sig signer) m inv =
    rw (submit-world env t payload sig signer m)
      (apply-IsLedger env (sent t payload sig signer) m inv)
serve-IsLedger env (Request.registration user body) m inv = register-IsLedger env user body m inv

serve_all-keeps :
    (env : Env) (rs : List Request) (m : MemStore)
    → IsLedger env m
    → IsLedger env (serve_all env rs m)
unfolding serve_all
serve_all-keeps env [] m inv = inv
serve_all-keeps env (r ∷ rs) m inv =
    serve_all-keeps env rs (serve env r m).1 (serve-IsLedger env r m inv)

empty-IsLedger : (env : Env) → IsLedger env new_mem_store
unfolding submit_all
empty-IsLedger env = submit_all-IsLedger env []

-- After any sequence of submissions and registrations on a new ledger in memory, each of them
-- answered in whatever way, the invariant holds: the maps agree, no balance is negative, the
-- balances add up to the supply once there is an entry, and the log is a chain.
pub serve_all-IsLedger :
    (env : Env) (rs : List Request) → IsLedger env (serve_all env rs new_mem_store)
serve_all-IsLedger env rs = serve_all-keeps env rs new_mem_store (empty-IsLedger env)

-- A submission to a ledger that satisfies the invariant either answers that it is submitted, with
-- the index and the hash of an entry of its type and payload that it has appended to the log, or
-- is refused and changes nothing.
pub submit-answer :
    (env : Env) (t : TxType) (payload sig signer : Bytes) (m : MemStore)
    → IsLedger env m
    → ((tx : Tx) × ((submit_tx mem_store env t payload sig signer m).0
          ≡ submitted tx.leaf_index tx.tx_hash)
        × ((submit_tx mem_store env t payload sig signer m).1.txs ≡ m.txs ++ tx ∷ [])
        × (tx.type ≡ t)
        × (tx.payload ≡ payload))
      ⊎ ((status : ℕ) × (submit_tx mem_store env t payload sig signer m ≡ (refused status, m)))
unfolding submit_tx
submit-answer env t payload sig signer m inv =
    let tx₀ = sent t payload sig signer in
    let tx = (apply env mem_store tx₀ m).1 in
    let m' = (apply env mem_store tx₀ m).2 in
    elim (Result-cases (apply env mem_store tx₀ m).0) [
      | inr (e, failed) ↦ inr (error_status e, ground (arith, apply_atomic env tx₀ m e failed))
      | inl (_, done) ↦
          let h : apply env mem_store tx₀ m ≡ (ok tt, tx, m') = ground arith in
          let (_, _, _, same_type, same_payload, _) = accepted_inv env tx₀ tx m m' inv h in
          inl (
            tx,
            ground arith,
            ground (arith, (apply-IsStep env tx₀ tx m m' inv h).appended),
            same_type,
            same_payload,
          )
    ]
