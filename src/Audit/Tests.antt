-- ===== src/Audit/Tests.antt =====
-- The audit of a toy log.
use discourse_points_system.Prelude.{
  bytes_eqb, true, ◌<◌, some, List, [], ◌∷◌, map, get_last?, take, length, ◌≡◌, refl, arith,
}
use discourse_points_system.Prelude.Exec.{ok}
use discourse_points_system.Ledger.Tx.{Tx}
use discourse_points_system.Ledger.MemStore.{new_mem_store}
use discourse_points_system.Ledger.History.{submit_all}
use discourse_points_system.Ledger.Tests.{toy_env, genesis_tx, m₁, fresh}
use discourse_points_system.Merkle.{root, equal}
use discourse_points_system.Prelude.Int.{pos, int_eq}
use discourse_points_system.Prelude.Dict.{lookup, insert}
use discourse_points_system.TxLog.Signing.{persist_checkpoint}
use discourse_points_system.TxLog.Tests.{log, signing_env, toy_keys, head}
use discourse_points_system.TxLog.Range.{range_leaves}
use discourse_points_system.Audit.Download.{fetch_all_leaves, fetch_all_leaves-log}
use discourse_points_system.Audit.Head.{IsKeyPair, ValidRows, verify_sth_sig, published-verifies}
use discourse_points_system.Audit.{audit}
use discourse_points_system.Audit.Accepts.{audit_passes}

last-some : (txs : List Tx) (last : Tx) → get_last? txs ≡ some last → 0 < length txs
last-some [] last e = absurd (ground arith)
last-some (x ∷ txs) last e = omega arith

some_leaf : 0 < length (submit_all toy_env (genesis_tx ∷ []) new_mem_store).txs
unfolding submit_all
some_leaf = last-some m₁.txs _ fresh.0

audit_passes_example :
    audit toy_env
      (root toy_env.sha256
        (map (λ (lf : Tx). lf.tx_hash) (submit_all toy_env (genesis_tx ∷ []) new_mem_store).txs))
      (submit_all toy_env (genesis_tx ∷ []) new_mem_store).txs
    ≡ ok tt
audit_passes_example = audit_passes toy_env (genesis_tx ∷ []) some_leaf

key_pair : IsKeyPair signing_env toy_keys
unfolding bytes_eqb
key_pair = record {
  key_bytes = omega arith;
  sig_bytes = λ msg. omega arith;
  verifies = λ msg. refl;
}

no_rows : ValidRows signing_env []
unfolding lookup
no_rows size row h = absurd (ground arith)

published-verifies_example : verify_sth_sig signing_env head ≡ some true
unfolding persist_checkpoint equal lookup insert
published-verifies_example =
    published-verifies signing_env toy_keys key_pair (pos 100) (pos 2) (5 ∷ []) [] head
      (omega arith) no_rows refl

fetch_all_leaves-log_example :
    fetch_all_leaves 4 (range_leaves log) (pos 0) (pos 3) [] ≡ some (ok (take 3 log))
fetch_all_leaves-log_example =
    fetch_all_leaves-log log 3 4 (refl, (refl, (refl, tt))) (omega arith) (omega arith)
