-- ===== src/Api/Tests.antt =====
-- Requests to a toy ledger, and the theorems applied to them.
use discourse_points_system.Prelude.{
  ℕ, none, some, List, [], ◌∷◌, ◌++◌, codes, replicate, ◌≡◌, ◌⊎◌, refl, arith, Bytes, map, take,
}
use discourse_points_system.Prelude.Int.{ℤ, pos, int_eq}
use discourse_points_system.Prelude.Exec.{ok}
use discourse_points_system.Prelude.Dict.{lookup, insert}
use discourse_points_system.Ledger.Tx.{Tx, TxType}
use discourse_points_system.Ledger.MemStore.{mem_store, new_mem_store}
use discourse_points_system.Ledger.Invariant.{IsLedger}
use discourse_points_system.Ledger.Tests.{toy_env, key}
use discourse_points_system.Api.{refused, submitted, submit_tx, normalize_discourse_ids}
use discourse_points_system.Merkle.{leaf_hash, root, verify_inclusion}
use discourse_points_system.Merkle.Consistency.{verify_consistency}
use discourse_points_system.TxLog.{hex}
use discourse_points_system.TxLog.Rows.{hashes}
use discourse_points_system.TxLog.Tests.{toy_hash, two_entries, log, log_end}
use discourse_points_system.Api.Log.{consistency, inclusion, log_consistency, log_inclusion}
use discourse_points_system.Api.Log.Proofs.{consistency_served, inclusion_served}
use discourse_points_system.Api.Submit.{
  Request, submission, registration, serve_all, serve_all-IsLedger, submit-answer,
}

abbrev requests : List Request
requests =
    submission TxType.genesis (1 ∷ []) (replicate 64 1) (key 7)
    ∷ registration (some (pos 5, codes "ann")) (some (key 9))
    ∷ submission TxType.transfer (2 ∷ []) (replicate 64 2) (key 7)
    ∷ registration none none
    ∷ []

serve_all-IsLedger_example : IsLedger toy_env (serve_all toy_env requests new_mem_store)
serve_all-IsLedger_example = serve_all-IsLedger toy_env requests

empty : IsLedger toy_env new_mem_store
unfolding serve_all
empty = serve_all-IsLedger toy_env []

submit-answer_example :
    ((tx : Tx) × ((submit_tx mem_store toy_env TxType.genesis
          (1 ∷ [])
          (replicate 64 1)
          (key 7)
          new_mem_store).0
        ≡ submitted tx.leaf_index tx.tx_hash)
      × ((submit_tx mem_store toy_env TxType.genesis
            (1 ∷ [])
            (replicate 64 1)
            (key 7)
            new_mem_store).1.txs
          ≡ [] ++ tx ∷ [])
      × (tx.type ≡ TxType.genesis)
      × (tx.payload ≡ 1 ∷ []))
    ⊎ ((status : ℕ) × (submit_tx mem_store toy_env TxType.genesis
            (1 ∷ [])
            (replicate 64 1)
            (key 7)
            new_mem_store
          ≡ (refused status, new_mem_store)))
submit-answer_example =
    submit-answer toy_env TxType.genesis (1 ∷ []) (replicate 64 1) (key 7) new_mem_store empty

abbrev ids : List ℤ
ids = pos 3 ∷ pos 5 ∷ pos 3 ∷ []

normalizes : normalize_discourse_ids ids 200 ≡ some (pos 3 ∷ pos 5 ∷ [])
unfolding normalize_discourse_ids lookup insert
normalizes = refl

consistency_served_example :
    (proof : List Bytes) × ((log_consistency toy_hash
        (some (pos 1))
        (some (pos 2))
        two_entries
        log
        none).0
      ≡ consistency (pos 1) (pos 2) (map hex proof))
    × (verify_consistency toy_hash
          (root toy_hash (take 1 (hashes log)))
          (root toy_hash (take 2 (hashes log)))
          (pos 1)
          (pos 2)
          proof
        ≡ ok tt)
consistency_served_example =
    consistency_served toy_hash two_entries (log_end ∷ []) none 1 2 (refl, (refl, tt))
      (refl, (refl, (refl, tt))) tt (omega arith) (omega arith) (omega arith) (omega arith)

inclusion_served_example :
    (proof : List Bytes) × ((log_inclusion toy_hash
        (some (pos 0))
        (some (some (pos 2)))
        two_entries
        log
        none).0
      ≡ inclusion (pos 0) (pos 2) (hex (leaf_hash toy_hash [])) (map hex proof))
    × (verify_inclusion toy_hash
          (root toy_hash (take 2 (hashes log)))
          (leaf_hash toy_hash [])
          (pos 0)
          (pos 2)
          proof
        ≡ ok tt)
inclusion_served_example =
    inclusion_served toy_hash two_entries (log_end ∷ []) none 0 2 [] (refl, (refl, tt))
      (refl, (refl, (refl, tt))) tt (omega arith) (omega arith) refl
