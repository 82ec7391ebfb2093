-- ===== src/TxLog/Published.antt =====
-- The heads published for one size agree, whatever is published in between.
use discourse_points_system.Prelude.{◌≡◌, sym, ap, ◌∙◌, arith, List, [], ◌∷◌, Bytes, some, inl, inr}
use discourse_points_system.Prelude.Int.{ℤ, int_eq}
use discourse_points_system.Prelude.Dict.{lookup}
use discourse_points_system.Prelude.Exec.{Result, ok}
use discourse_points_system.Ledger.Tx.{Env}
use discourse_points_system.TxLog.{LogError, Sth, Checkpoint, Keys, hex}
use discourse_points_system.TxLog.Signing.{Checkpoints, sth_of, persist_checkpoint, stored_key}
use discourse_points_system.TxLog.Heads.{
  Shows, Kept, Kept-refl, Kept-trans, insert_checkpoint-Kept, insert_checkpoint-lookup,
  checkpoint_pub_key-Kept, placed, key_of, own_row, persist-cases,
}

module _ (env : Env) (keys : Keys) where
  key_of-Kept : (size : ℤ) (p : Checkpoint × Checkpoints) → Kept p.1 (key_of env keys size p).1
  key_of-Kept size p =
      checkpoint_pub_key-Kept env keys size p.0.root_hash p.0.timestamp_ms p.0.admin_sig
        (stored_key p.0.admin_pubkey) p.1

  pub persist-Kept :
      (ts size : ℤ) (root : Bytes) (table : Checkpoints)
      → Kept table (persist_checkpoint env keys ts size root table).1
  persist-Kept ts size root table =
      let p = placed env keys ts size root table in
      let first = insert_checkpoint-Kept size (own_row env keys ts size root) table in
      let both = Kept-trans table p.1 (key_of env keys size p).1 first (key_of-Kept size p) in
      elim (persist-cases env keys ts size root table) [
        | inl e ↦ rw e first
        | inr (same, inl (x, e)) ↦ rw e both
        | inr (same, inr (k, good, e)) ↦ rw e both
      ]

  -- A published head shows the row that then stands for its size, and the root asked for.
  pub persist-Shows :
      (ts size : ℤ) (root : Bytes) (table : Checkpoints) (sth : Sth)
      → (persist_checkpoint env keys ts size root table).0 ≡ ok sth
      → (row : Checkpoint) × (lookup size (persist_checkpoint env keys ts size root table).1
          ≡ some row)
        × Shows size row sth
        × (row.root_hash ≡ root)
  unfolding sth_of
  persist-Shows ts size root table sth h =
      let p = placed env keys ts size root table in
      elim (persist-cases env keys ts size root table) [
        | inl e ↦ absurd (ground (arith, e))
        | inr (same, inl (x, e)) ↦ absurd (ground (arith, e))
        | inr (same, inr (k, good, e)) ↦
            let (row, at, (r, t, s)) =
              key_of-Kept size p size p.0
                (insert_checkpoint-lookup size (own_row env keys ts size root) table) in
            let made : sth_of size p.0 k ≡ sth =
              cc (ap (λ (x : Result LogError Sth × Checkpoints). x.0) e) in
            (
              row,
              ap (λ (x : Result LogError Sth × Checkpoints). lookup size x.1) e ∙ at,
              (
                sym (ap (λ (x : Sth). x.tree_size) made),
                sym (ap (λ (x : Sth). x.root_hash) made) ∙ ap hex r,
                sym (ap (λ (x : Sth). x.timestamp_ms) made) ∙ t,
                sym (ap (λ (x : Sth). x.admin_sig) made) ∙ ap hex s,
              ),
              sym r ∙ same,
            )
      ]

  -- Requests for heads, each a time, a size and a root.
  unfoldable pub publish_all : List (ℤ × ℤ × Bytes) → Checkpoints → Checkpoints
  publish_all [] table = table
  publish_all ((ts, size, root) ∷ requests) table =
      publish_all requests (persist_checkpoint env keys ts size root table).1

  publish_all-Kept :
      (requests : List (ℤ × ℤ × Bytes)) (table : Checkpoints)
      → Kept table (publish_all requests table)
  unfolding publish_all
  publish_all-Kept [] table = Kept-refl table
  publish_all-Kept ((ts, size, root) ∷ requests) table =
      let table' = (persist_checkpoint env keys ts size root table).1 in
      Kept-trans table table' (publish_all requests table') (persist-Kept ts size root table)
        (publish_all-Kept requests table')

  -- Two heads published for one size, whatever was requested in between and at whatever times, are
  -- for the same root and show the same root, time and signature.
  pub published_once :
      (ts ts' size : ℤ) (root root' : Bytes) (requests : List (ℤ × ℤ × Bytes)) (table : Checkpoints)
      (sth sth' : Sth)
      → (persist_checkpoint env keys ts size root table).0 ≡ ok sth
      → (persist_checkpoint env keys ts' size root'
          (publish_all requests (persist_checkpoint env keys ts size root table).1)).0
        ≡ ok sth'
      → (root' ≡ root)
        × (sth'.root_hash ≡ sth.root_hash)
        × (sth'.timestamp_ms ≡ sth.timestamp_ms)
        × (sth'.admin_sig ≡ sth.admin_sig)
  published_once ts ts' size root root' requests table sth sth' h h' =
      let table₁ = (persist_checkpoint env keys ts size root table).1 in
      let table₂ = publish_all requests table₁ in
      let table₃ = (persist_checkpoint env keys ts' size root' table₂).1 in
      let (row, at, (_, r, t, s), same) = persist-Shows ts size root table sth h in
      let (row', at', (_, r', t', s'), same') = persist-Shows ts' size root' table₂ sth' h' in
      let (row'', at'', (r'', t'', s'')) =
        Kept-trans table₁ table₂ table₃ (publish_all-Kept requests table₁)
          (persist-Kept ts' size root' table₂) size row at in
      let e : row'' ≡ row' = cc in
      let roots = r'' ∙ ap (λ (c : Checkpoint). c.root_hash) e in
      (
        sym same' ∙ sym roots ∙ same,
        r' ∙ ap hex (sym roots) ∙ sym r,
        t' ∙ sym (t'' ∙ ap (λ (c : Checkpoint). c.timestamp_ms) e) ∙ sym t,
        s' ∙ ap hex (sym (s'' ∙ ap (λ (c : Checkpoint). c.admin_sig) e)) ∙ sym s,
      )
