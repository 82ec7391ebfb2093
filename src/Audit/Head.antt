-- ===== src/Audit/Head.antt =====
-- cmd/ledger-verify/main.go, step 2: the signature of the tree head. `none` is a fatal error of
-- mustDecodeHex, `false` an invalid signature.
use discourse_points_system.Prelude.{
  ◌≡◌, ◌<◌, sym, ap, ◌∙◌, arith, true, Bool, Bytes, Option, none, some, inl, inr, length,
  Bool-cases, ltb, ltb→lt,
}
use mathlib.Core.Path.{subst}
use discourse_points_system.Prelude.Int.{ℤ, int_eq}
use discourse_points_system.Prelude.Dict.{lookup}
use discourse_points_system.Prelude.Exec.{Result, ok}
use discourse_points_system.Prelude.Text.{hex_decode}
use discourse_points_system.Ledger.Tx.{Env}
use discourse_points_system.TxLog.{LogError, Sth, Checkpoint, Keys, signed_sth_bytes}
use discourse_points_system.TxLog.Signing.{
  Checkpoints, checkpoint_pub_key, sth_of, persist_checkpoint, stored_key,
}
use discourse_points_system.TxLog.Hex.{hex_decode-hex}
use discourse_points_system.Prelude.Text.{AllBytes}
use discourse_points_system.TxLog.Heads.{placed, own_row, persist-cases, insert_checkpoint-cases}

unfoldable pub verify_sth_sig : Env → Sth → Option Bool
verify_sth_sig env sth = elim (hex_decode sth.admin_pubkey) [
  | none ↦ none
  | some pub_key ↦ elim (hex_decode sth.root_hash) [
    | none ↦ none
    | some root_hash ↦ elim (hex_decode sth.admin_sig) [
      | none ↦ none
      | some sig ↦ some (
          env.ed25519_verify pub_key (signed_sth_bytes sth.tree_size root_hash sth.timestamp_ms)
            sig)
    ]
  ]
]

-- A row whose fields are bytes, and whose signature, where it has a key, is valid for that key.
pub record IsValidRow (env : Env) (size : ℤ) (row : Checkpoint) : Type 0 where
  pub root_bytes : AllBytes row.root_hash
  pub sig_bytes : AllBytes row.admin_sig
  pub key_bytes : AllBytes (stored_key row.admin_pubkey)
  pub signed :
      0 < length (stored_key row.admin_pubkey)
      → env.ed25519_verify
          (stored_key row.admin_pubkey)
          (signed_sth_bytes size row.root_hash row.timestamp_ms)
          row.admin_sig
        ≡ true

-- The service's keys belong together and are bytes, as are its signatures.
pub record IsKeyPair (env : Env) (keys : Keys) : Type 0 where
  pub key_bytes : AllBytes keys.admin_pub_key
  pub sig_bytes : (msg : Bytes) → AllBytes (env.ed25519_sign keys.admin_priv_key msg)
  pub verifies :
      (msg : Bytes)
      → env.ed25519_verify keys.admin_pub_key msg (env.ed25519_sign keys.admin_priv_key msg) ≡ true

abbrev pub ValidRows : Env → Checkpoints → Type 0
ValidRows env table =
    (size : ℤ) (row : Checkpoint) → lookup size table ≡ some row → IsValidRow env size row

module _ (env : Env) (keys : Keys) (pair : IsKeyPair env keys) where
  verify-sth_of :
      (size : ℤ) (row : Checkpoint) (k : Bytes)
      → AllBytes row.root_hash
      → AllBytes row.admin_sig
      → AllBytes k
      → env.ed25519_verify k (signed_sth_bytes size row.root_hash row.timestamp_ms) row.admin_sig
        ≡ true
      → verify_sth_sig env (sth_of size row k) ≡ some true
  unfolding verify_sth_sig sth_of
  verify-sth_of size row k r s b v =
      ground (
        arith,
        hex_decode-hex row.root_hash r,
        hex_decode-hex row.admin_sig s,
        hex_decode-hex k b,
        v,
      )

  -- The key that a head names verifies its signature.
  checkpoint_pub_key-verifies :
      (size : ℤ) (row : Checkpoint) (table : Checkpoints) (k : Bytes)
      → IsValidRow env size row
      → (checkpoint_pub_key env keys size row.root_hash row.timestamp_ms row.admin_sig
          (stored_key row.admin_pubkey)
          table).0
        ≡ ok k
      → AllBytes k
        × (env.ed25519_verify k (signed_sth_bytes size row.root_hash row.timestamp_ms) row.admin_sig
            ≡ true)
  unfolding checkpoint_pub_key
  checkpoint_pub_key-verifies size row table k v h =
      let stored = stored_key row.admin_pubkey in
      let valid = λ (key : Bytes).
        env.ed25519_verify key (signed_sth_bytes size row.root_hash row.timestamp_ms)
          row.admin_sig in
      elim (Bool-cases (ltb 0 (length stored))) [
        | inl there ↦
            let same : stored ≡ k = ground (arith, there) in
            (
              subst AllBytes same v.key_bytes,
              ap valid (sym same) ∙ v.signed (ltb→lt 0 (length stored) there),
            )
        | inr missing ↦ elim (Bool-cases (valid keys.admin_pub_key)) [
          | inl good ↦
              let same : keys.admin_pub_key ≡ k = ground (arith, missing, good) in
              (subst AllBytes same pair.key_bytes, ap valid (sym same) ∙ good)
          | inr bad ↦ absurd (ground (arith, missing, bad))
        ]
      ]

  own_row-IsValid :
      (ts size : ℤ) (root : Bytes)
      → AllBytes root
      → IsValidRow env size (own_row env keys ts size root)
  own_row-IsValid ts size root b = record {
    root_bytes = b;
    sig_bytes = pair.sig_bytes (signed_sth_bytes size root ts);
    key_bytes = pair.key_bytes;
    signed = λ _. pair.verifies (signed_sth_bytes size root ts);
  }

  placed-IsValid :
      (ts size : ℤ) (root : Bytes) (table : Checkpoints)
      → AllBytes root
      → ValidRows env table
      → IsValidRow env size (placed env keys ts size root table).0
  placed-IsValid ts size root table b v =
      elim (insert_checkpoint-cases size (own_row env keys ts size root) table) [
        | inl (free, e) ↦ rw e (own_row-IsValid ts size root b)
        | inr (stored, taken, e) ↦ rw e (v size stored taken)
      ]

  -- The audit accepts the signature of every head that the service publishes: where signing and
  -- verifying with the service's keys fit together, keys, signatures and the root are bytes, and
  -- every stored signature that has a key is valid for that key, a head that persistCheckpoint
  -- returns, new or stored before, decodes and verifies under the key that it names.
  pub published-verifies :
      (ts size : ℤ) (root : Bytes) (table : Checkpoints) (sth : Sth)
      → AllBytes root
      → ValidRows env table
      → (persist_checkpoint env keys ts size root table).0 ≡ ok sth
      → verify_sth_sig env sth ≡ some true
  published-verifies ts size root table sth b v h =
      let p = placed env keys ts size root table in
      let row = placed-IsValid ts size root table b v in
      elim (persist-cases env keys ts size root table) [
        | inl e ↦ absurd (ground (arith, e))
        | inr (same, inl (x, e)) ↦ absurd (ground (arith, e))
        | inr (same, inr (k, good, e)) ↦
            let (kb, signed) = checkpoint_pub_key-verifies size p.0 p.1 k row good in
            let made : sth_of size p.0 k ≡ sth =
              cc (ap (λ (x : Result LogError Sth × Checkpoints). x.0) e) in
            ap (verify_sth_sig env) (sym made)
            ∙ verify-sth_of size p.0 k row.root_bytes row.sig_bytes kb signed
      ]
