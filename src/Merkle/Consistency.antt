-- ===== src/Merkle/Consistency.antt =====
-- internal/merkle/tree.go: consistency proofs and their verifier. A proof is made by recursion on
-- the split; it is checked by a walk over the binary digits of both sizes less one, as uint64
-- values. VerifyConsistency's own shifting of m - 1 and n - 1 has no effect and is left out.
pub mod Digits
pub mod Walk
pub mod Rounds
pub mod SubProof
pub mod Leads
pub mod Unwind
pub mod Old
pub mod Walked
pub mod Soundness
pub mod Complete
use Prim.Native.Nat.{bit_and}
use discourse_points_system.Prelude.{
  ℕ, zero, suc, ◌+◌, ◌-◌, ◌*◌, ◌/◌, ◌%◌, Bool, true, false, not, ◌||◌, ◌&&◌, List, [], ◌∷◌, ◌++◌,
  map, Bytes, length, take, drop, ltb, leb, nat_eqb, if◌then◌else◌,
}
use discourse_points_system.Prelude.Int.{ℤ, pos, negsuc, ltb_ℤ, leb_ℤ, eqb_ℤ, i64_mod}
use discourse_points_system.Prelude.Exec.{Result, ok, err}
use discourse_points_system.Merkle.{
  ProofError, bad_sizes, proof_too_short, nonempty_proof, roots_differ, old_root_mismatch,
  new_root_mismatch, proof_too_long, largest_power_of_two_less_than, leaf_hash, node_hash,
  root_of_hashes, equal,
}

-- isPowerOfTwo: `n > 0 && (n&(n-1)) == 0`
unfoldable pub is_power_of_two : ℤ → Bool
is_power_of_two (pos n) = ltb 0 n && nat_eqb (bit_and n (n - 1)) 0
is_power_of_two (negsuc n) = false

-- uint64(n)
unfoldable pub to_uint64 : ℤ → ℕ
to_uint64 (pos n) = n % i64_mod
to_uint64 (negsuc n) = i64_mod - 1 - n % i64_mod

-- `x--` on a uint64
unfoldable pub decrement : ℕ → ℕ
decrement x = (x + i64_mod - 1) % i64_mod

-- `for mm&1 == 1 { mm >>= 1; nn >>= 1 }`. An odd number halves to less: mm is fuel enough.
unfoldable pub skip_ones : ℕ → ℕ → ℕ → ℕ × ℕ
skip_ones zero mm nn = (mm, nn)
skip_ones (suc f) mm nn = elim (nat_eqb (mm % 2) 1) [
  | true ↦ skip_ones f (mm / 2) (nn / 2)
  | false ↦ (mm, nn)
]

-- `for mm&1 == 0 && mm > 0 { mm >>= 1; nn >>= 1 }`
unfoldable pub skip_zeros : ℕ → ℕ → ℕ → ℕ × ℕ
skip_zeros zero mm nn = (mm, nn)
skip_zeros (suc f) mm nn = elim (nat_eqb (mm % 2) 0 && ltb 0 mm) [
  | true ↦ skip_zeros f (mm / 2) (nn / 2)
  | false ↦ (mm, nn)
]

module _ (sha256 : Bytes → Bytes) where
  -- subProof. Each call splits n, so n is fuel enough.
  unfoldable pub sub_proof : ℕ → List Bytes → ℕ → ℕ → Bool → List Bytes
  sub_proof zero hashes m n b = []
  sub_proof (suc f) hashes m n b =
      let k = largest_power_of_two_less_than n in
      elim (nat_eqb m n) [
        | true ↦ if b then [] else root_of_hashes sha256 n (take n hashes) ∷ []
        | false ↦ elim (leb m k) [
          | true ↦
              sub_proof f (take k hashes) m k b
              ++ root_of_hashes sha256 n (drop k (take n hashes)) ∷ []
          | false ↦
              sub_proof f (drop k hashes) (m - k) (n - k) false
              ++ root_of_hashes sha256 n (take k hashes) ∷ []
        ]
      ]

  unfoldable pub consistency_proof_from_hashes : List Bytes → ℤ → ℤ → Result ProofError (List Bytes)
  consistency_proof_from_hashes hashes (pos m) (pos n) =
      if nat_eqb m 0 || ltb n m || ltb (length hashes) n
      then err bad_sizes
      else ok (sub_proof n hashes m n true)
  consistency_proof_from_hashes hashes _ _ = err bad_sizes

  unfoldable pub consistency_proof : List Bytes → ℤ → ℤ → Result ProofError (List Bytes)
  unfolding consistency_proof_from_hashes
  consistency_proof leaves m n = consistency_proof_from_hashes (map (leaf_hash sha256) leaves) m n

  -- The loop `for nn > 0` of walkConsistency; each round takes an entry of the proof. The error of a
  -- proof that is too long counts the entries left.
  unfoldable pub walk_rounds :
      List Bytes → ℕ → ℕ → Bytes → Bytes → Result ProofError (Bytes × Bytes)
  walk_rounds [] mm nn hash1 hash2 = if ltb 0 nn then err proof_too_short else ok (hash1, hash2)
  walk_rounds (sibling ∷ proof) mm nn hash1 hash2 = elim (ltb 0 nn) [
    | false ↦ err (proof_too_long (length (sibling ∷ proof)))
    | true ↦ elim (nat_eqb (mm % 2) 1 || nat_eqb mm nn) [
      | true ↦
          let s = skip_zeros mm mm nn in
          walk_rounds proof (s.0 / 2) (s.1 / 2) (node_hash sha256 sibling hash1)
            (node_hash sha256 sibling hash2)
      | false ↦ walk_rounds proof (mm / 2) (nn / 2) hash1 (node_hash sha256 hash2 sibling)
    ]
  ]

  unfoldable pub walk_consistency :
      Bytes → Bytes → List Bytes → ℤ → ℤ → Result ProofError (Bytes × Bytes)
  unfolding skip_ones
  walk_consistency hash1 hash2 proof m n =
      let mm = decrement (to_uint64 m) in
      let s = skip_ones mm mm (decrement (to_uint64 n)) in walk_rounds proof s.0 s.1 hash1 hash2

  -- VerifyConsistency from its walk on: the path starts with a hash of both trees.
  unfoldable pub verify_path : Bytes → Bytes → ℤ → ℤ → List Bytes → Result ProofError (Unit {0})
  verify_path old_root new_root m n [] = err proof_too_short
  verify_path old_root new_root m n (hash ∷ path) = elim (walk_consistency hash hash path m n) [
    | err e ↦ err e
    | ok r ↦
        if not (equal r.0 old_root)
        then err old_root_mismatch
        else if not (equal r.1 new_root)
        then err new_root_mismatch
        else ok tt
  ]

  -- The old tree's root stands for the first entry if the old size is a power of two.
  unfoldable pub verify_consistency :
      Bytes → Bytes → ℤ → ℤ → List Bytes → Result ProofError (Unit {0})
  unfolding verify_path
  verify_consistency old_root new_root m n proof =
      if eqb_ℤ m n
      then if ltb 0 (length proof)
        then err nonempty_proof
        else if not (equal old_root new_root)
        then err roots_differ
        else ok tt
      else if eqb_ℤ m (pos 0) || ltb_ℤ n m
      then err bad_sizes
      else verify_path old_root new_root m n (if is_power_of_two m then old_root ∷ proof else proof)
