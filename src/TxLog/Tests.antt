-- ===== src/TxLog/Tests.antt =====
-- A toy log of three entries, calls on it, and the theorems applied to it.
use discourse_points_system.Prelude.{
  ℕ, ◌≡◌, refl, arith, List, [], ◌∷◌, ◌++◌, Bytes, length, replicate, bytes_eqb, Option, none, some,
}
use discourse_points_system.Prelude.Int.{◌+ℤ◌, pos, negsuc, int_eq}
use discourse_points_system.Prelude.Dict.{lookup, insert}
use discourse_points_system.Prelude.Exec.{ok, err}
use discourse_points_system.Ledger.Tx.{Env, Tx, TxType}
use discourse_points_system.Ledger.Tests.{toy_env}
use discourse_points_system.Merkle.{root, root_from_leaf_hashes, equal}
use discourse_points_system.TxLog.{
  ended, other_root, Snapshot, Sth, Keys, merkle_snapshot, read_cache, fetch, select_range,
  store_snapshot, current_tree_size,
}
use discourse_points_system.TxLog.Exact.{answer, merkle_snapshot-answer}
use discourse_points_system.TxLog.Fetch.{reference, ExactCache}
use discourse_points_system.TxLog.Calls.{
  World, Call, append, begin, find, finish, Reach, here, next, IsExact, Reach-IsExact,
}
use discourse_points_system.TxLog.Signing.{Checkpoints, persist_checkpoint, sth_of}
use discourse_points_system.TxLog.Heads.{own_row}
use discourse_points_system.TxLog.Published.{publish_all, published_once}

abbrev pub toy_hash : Bytes → Bytes
toy_hash b = replicate 32 (length b)

abbrev pub entry : ℕ → Tx
entry n = record {
  leaf_index = pos n;
  type = TxType.transfer;
  payload = [];
  sig = [];
  signer = [];
  prev_hash = [];
  tx_hash = replicate n 1;
}

abbrev pub two_entries : List Tx
two_entries = entry 0 ∷ entry 1 ∷ []

abbrev pub log_end : Tx
log_end = entry 2

abbrev pub log : List Tx
log = two_entries ++ log_end ∷ []

abbrev cached : Option Snapshot
cached = some (reference toy_hash two_entries 2)

-- Runs with an empty cache, with a cache of two entries, and past the end.
runs :
    ((merkle_snapshot toy_hash log none (negsuc 0)).0 ≡ ok (reference toy_hash log 3))
    × ((merkle_snapshot toy_hash log cached (pos 1)).0 ≡ ok (reference toy_hash log 1))
    × ((merkle_snapshot toy_hash log cached (pos 3)).0 ≡ ok (reference toy_hash log 3))
    × ((merkle_snapshot toy_hash log cached (pos 4)).0 ≡ err (ended 3 4))
unfolding merkle_snapshot current_tree_size select_range root root_from_leaf_hashes ◌+ℤ◌
runs = (refl, refl, refl, refl)

merkle_snapshot-answer_example :
    ((merkle_snapshot toy_hash log cached (pos 3)).0 ≡ answer toy_hash log 3)
    × ExactCache toy_hash log (merkle_snapshot toy_hash log cached (pos 3)).1
merkle_snapshot-answer_example =
    merkle_snapshot-answer toy_hash log cached (pos 3) (refl, (refl, (refl, tt)))
      (omega arith, refl)

-- A call begins, an entry is appended, the call finds its snapshot and finishes.
abbrev w₀ : World
w₀ = record { txs = two_entries; cache = none; calls = []; found = []; answers = [] }

abbrev call : Call
call = record { target = 2; start = 0; tx_hashes = []; leaf_hashes = [] }

abbrev w₁ : World
w₁ = record w₀ { calls = call ∷ [] }

abbrev w₂ : World
w₂ = record w₁ { txs = log }

abbrev w₃ : World
w₃ = record w₂ { found = reference toy_hash log 2 ∷ [] }

abbrev w₄ : World
w₄ = record w₃ { cache = some (reference toy_hash log 2); answers = reference toy_hash log 2 ∷ [] }

w₀-IsExact : IsExact toy_hash w₀
w₀-IsExact = record {
  ordered = (refl, (refl, tt));
  cached = tt;
  calling = λ i c h. absurd (ground arith);
  finding = λ i s h. absurd (ground arith);
  answered = λ i s h. absurd (ground arith);
}

interleaved : Reach toy_hash w₀ w₄
unfolding read_cache fetch store_snapshot select_range root root_from_leaf_hashes
interleaved =
    next
      (next (next (next here (begin w₀ call refl)) (append w₁ (entry 2) refl))
        (find w₂ 0 call (reference toy_hash log 2) refl refl))
      (finish w₃ 0 (reference toy_hash log 2) refl)

Reach-IsExact_example : IsExact toy_hash w₄
Reach-IsExact_example = Reach-IsExact toy_hash interleaved w₀-IsExact

-- One signature for all messages, and a check that knows it.
abbrev pub signing_env : Env
signing_env = record toy_env {
  ed25519_sign = λ key msg. replicate 64 1;
  ed25519_verify = λ key msg sig. bytes_eqb sig (replicate 64 1);
}

abbrev pub toy_keys : Keys
toy_keys = record { admin_priv_key = 9 ∷ []; admin_pub_key = 7 ∷ [] }

abbrev pub head : Sth
head = sth_of (pos 2) (own_row signing_env toy_keys (pos 100) (pos 2) (5 ∷ [])) (7 ∷ [])

abbrev pub table : Checkpoints
table = (persist_checkpoint signing_env toy_keys (pos 100) (pos 2) (5 ∷ []) []).1

-- A head, the same head later, and another root refused.
publishes :
    ((persist_checkpoint signing_env toy_keys (pos 100) (pos 2) (5 ∷ []) []).0 ≡ ok head)
    × ((persist_checkpoint signing_env toy_keys (pos 300) (pos 2) (5 ∷ []) table).0 ≡ ok head)
    × ((persist_checkpoint signing_env toy_keys (pos 300) (pos 2) (6 ∷ []) table).0
        ≡ err (other_root (pos 2)))
unfolding persist_checkpoint equal lookup insert
publishes = (refl, refl, refl)

published_once_example :
    ◌≡◌ {A = Bytes} (5 ∷ []) (5 ∷ [])
    × (head.root_hash ≡ head.root_hash)
    × (head.timestamp_ms ≡ head.timestamp_ms)
    × (head.admin_sig ≡ head.admin_sig)
unfolding persist_checkpoint equal lookup insert publish_all
published_once_example =
    published_once signing_env toy_keys (pos 100) (pos 300) (pos 2) (5 ∷ []) (5 ∷ [])
      ((pos 200, pos 3, 8 ∷ []) ∷ []) [] head head refl refl
