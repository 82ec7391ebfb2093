-- ===== src/TxLog/Heads.antt =====
-- The tree heads that persistCheckpoint publishes: one for each size, for ever, and signed.
use discourse_points_system.Prelude.{
  ◌≡◌, refl, sym, ap, ◌∙◌, arith, Bytes, length, none, some, Option-cases, Bool-cases, ◌⊎◌, inl,
  inr, ◌==◌, same→eq, beq_refl, ltb,
}
use mathlib.Core.Path.{subst}
use discourse_points_system.Prelude.Int.{ℤ, int_eq}
use discourse_points_system.Prelude.Dict.{lookup, insert, lookup-insert}
use discourse_points_system.Prelude.Exec.{Result, ok, err, Result-cases}
use discourse_points_system.Ledger.Tx.{Env}
use discourse_points_system.Merkle.{equal}
use discourse_points_system.Merkle.Descend.{equal→eq}
use discourse_points_system.TxLog.{
  LogError, Sth, Checkpoint, Keys, hex, signed_sth_bytes, other_root,
}
use discourse_points_system.TxLog.Signing.{
  Checkpoints, backfill, checkpoint_pub_key, insert_checkpoint, sth_of, persist_checkpoint,
  stored_key,
}

-- What a published head shows of the checkpoint that stands for its size.
abbrev pub Shows : ℤ → Checkpoint → Sth → Type 0
Shows size row sth =
    (sth.tree_size ≡ size)
    × (sth.root_hash ≡ hex row.root_hash)
    × (sth.timestamp_ms ≡ row.timestamp_ms)
    × (sth.admin_sig ≡ hex row.admin_sig)

-- Two rows that differ at most in a key that was missing.
abbrev pub Same : Checkpoint → Checkpoint → Type 0
Same a b =
    (a.root_hash ≡ b.root_hash) × (a.timestamp_ms ≡ b.timestamp_ms) × (a.admin_sig ≡ b.admin_sig)

-- A row of the table before stands in the table after, with its root, time and signature.
abbrev pub Kept : Checkpoints → Checkpoints → Type 0
Kept table table' =
    (size : ℤ) (row : Checkpoint)
    → lookup size table ≡ some row
    → (row' : Checkpoint) × (lookup size table' ≡ some row') × Same row row'

backfill-cases :
    (size : ℤ) (key : Bytes) (table : Checkpoints)
    → (backfill size key table ≡ table)
      ⊎ ((row : Checkpoint) × (lookup size table ≡ some row)
          × (row.admin_pubkey ≡ none)
          × (backfill size key table ≡ insert size (record row { admin_pubkey = some key }) table))
unfolding backfill
backfill-cases size key table = elim (Option-cases (lookup size table)) [
  | inl e ↦ inl (ground (arith, e))
  | inr (row, e) ↦ elim (Option-cases row.admin_pubkey) [
    | inl missing ↦ inr (row, e, missing, ground (arith, e, missing))
    | inr (k, there) ↦ inl (ground (arith, e, there))
  ]
]

pub insert_checkpoint-cases :
    (size : ℤ) (row : Checkpoint) (table : Checkpoints)
    → ((lookup size table ≡ none)
        × (insert_checkpoint size row table ≡ (row, insert size row table)))
      ⊎ ((stored : Checkpoint) × (lookup size table ≡ some stored)
          × (insert_checkpoint size row table ≡ (stored, table)))
unfolding insert_checkpoint
insert_checkpoint-cases size row table = elim (Option-cases (lookup size table)) [
  | inl e ↦ inl (e, ground (arith, e))
  | inr (stored, e) ↦ inr (stored, e, ground (arith, e))
]

pub Kept-refl : (table : Checkpoints) → Kept table table
Kept-refl table size row h = (row, h, (refl, refl, refl))

pub Kept-trans : (a b c : Checkpoints) → Kept a b → Kept b c → Kept a c
Kept-trans a b c f g size row h =
    let (row', h', (r, t, s)) = f size row h in
    let (row'', h'', (r', t', s')) = g size row' h' in (row'', h'', (r ∙ r', t ∙ t', s ∙ s'))

-- A write over a row with the same root, time and signature, or where there was none.
insert-Kept :
    (size : ℤ) (row : Checkpoint) (table : Checkpoints)
    → ((old : Checkpoint) → lookup size table ≡ some old → Same old row)
    → Kept table (insert size row table)
insert-Kept size row table f size' old h =
    let e = lookup-insert size' size row table in
    elim (Bool-cases (size' == size)) [
      | inl same ↦
          let s : size' ≡ size = same→eq size' size same in
          (row, ground (arith, e), f old (ap (λ (n : ℤ). lookup n table) (sym s) ∙ h))
      | inr differ ↦ (old, ground (arith, e), (refl, refl, refl))
    ]

backfill-Kept :
    (size : ℤ) (key : Bytes) (table : Checkpoints) → Kept table (backfill size key table)
backfill-Kept size key table = elim (backfill-cases size key table) [
  | inl e ↦ subst (Kept table) (sym e) (Kept-refl table)
  | inr (row, h, missing, e) ↦ subst (Kept table) (sym e) (
      insert-Kept size (record row { admin_pubkey = some key }) table
        (λ old h'.
          let same : old ≡ row = cc in
          (
            ap (λ (r : Checkpoint). r.root_hash) same,
            ap (λ (r : Checkpoint). r.timestamp_ms) same,
            ap (λ (r : Checkpoint). r.admin_sig) same,
          )))
]

pub insert_checkpoint-Kept :
    (size : ℤ) (row : Checkpoint) (table : Checkpoints)
    → Kept table (insert_checkpoint size row table).1
insert_checkpoint-Kept size row table = elim (insert_checkpoint-cases size row table) [
  | inl (free, e) ↦ rw e (insert-Kept size row table (λ old h. absurd (ground arith)))
  | inr (stored, taken, e) ↦ rw e (Kept-refl table)
]

pub insert_checkpoint-lookup :
    (size : ℤ) (row : Checkpoint) (table : Checkpoints)
    → lookup size (insert_checkpoint size row table).1 ≡ some (insert_checkpoint size row table).0
insert_checkpoint-lookup size row table = elim (insert_checkpoint-cases size row table) [
  | inl (free, e) ↦ rw e (ground (arith, lookup-insert size size row table, beq_refl size))
  | inr (stored, taken, e) ↦ rw e taken
]

module _ (env : Env) (keys : Keys) where
  pub checkpoint_pub_key-Kept :
      (size : ℤ) (root : Bytes) (ts : ℤ) (sig stored : Bytes) (table : Checkpoints)
      → Kept table (checkpoint_pub_key env keys size root ts sig stored table).1
  unfolding checkpoint_pub_key
  checkpoint_pub_key-Kept size root ts sig stored table =
      elim (Bool-cases (ltb 0 (length stored))) [
        | inl there ↦ rw there (Kept-refl table)
        | inr missing ↦
            rw missing
              (elim (Bool-cases
                (env.ed25519_verify keys.admin_pub_key (signed_sth_bytes size root ts) sig)) [
                  | inl valid ↦ rw valid (backfill-Kept size keys.admin_pub_key table)
                  | inr invalid ↦ rw invalid (Kept-refl table)
                ])
      ]

  -- The row that persistCheckpoint would write, and what stands for the size after its INSERT.
  abbrev pub own_row : ℤ → ℤ → Bytes → Checkpoint
  own_row ts size root = record {
    root_hash = root;
    timestamp_ms = ts;
    admin_sig = env.ed25519_sign keys.admin_priv_key (signed_sth_bytes size root ts);
    admin_pubkey = some keys.admin_pub_key;
    ots_receipt = none;
  }

  abbrev pub placed : ℤ → ℤ → Bytes → Checkpoints → Checkpoint × Checkpoints
  placed ts size root table = insert_checkpoint size (own_row ts size root) table

  abbrev pub key_of : ℤ → Checkpoint × Checkpoints → Result LogError Bytes × Checkpoints
  key_of size p =
      checkpoint_pub_key env keys size p.0.root_hash p.0.timestamp_ms p.0.admin_sig
        (stored_key p.0.admin_pubkey) p.1

  -- A call that fails before it looks for a key, one that finds none, and one that succeeds.
  pub persist-cases :
      (ts size : ℤ) (root : Bytes) (table : Checkpoints)
      → (persist_checkpoint env keys ts size root table
          ≡ (err (other_root size), (placed ts size root table).1))
        ⊎ ((placed ts size root table).0.root_hash ≡ root)
          × (((e : LogError) × (persist_checkpoint env keys ts size root table
                  ≡ (err e, (key_of size (placed ts size root table)).1)))
              ⊎ ((k : Bytes) × ((key_of size (placed ts size root table)).0 ≡ ok k)
                  × (persist_checkpoint env keys ts size root table ≡ (
                    ok (sth_of size (placed ts size root table).0 k),
                    (key_of size (placed ts size root table)).1,
                  ))))
  unfolding persist_checkpoint
  persist-cases ts size root table =
      let p = placed ts size root table in
      elim (Bool-cases (equal p.0.root_hash root)) [
        | inr other ↦ inl (ground (arith, other))
        | inl same ↦ inr (
          equal→eq p.0.root_hash root same,
          elim (Result-cases (key_of size p).0) [
            | inr (e, bad) ↦ inl (e, ground (arith, same, bad))
            | inl (k, good) ↦ inr (k, good, ground (arith, same, good))
          ],
        )
      ]
