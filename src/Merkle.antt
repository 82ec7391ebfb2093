-- ===== src/Merkle.antt =====
-- internal/merkle/tree.go: the RFC 6962 tree, its inclusion and consistency proofs, and their
-- verifiers. The recursions split a list of length n at the largest power of two below n; they
-- recur on fuel, which the length bounds.
pub mod Split
pub mod Steps
pub mod Inclusion
pub mod Descend
pub mod Preimage
pub mod Soundness
pub mod Consistency
mod Tests
use discourse_points_system.Prelude.{
  ℕ, zero, suc, ◌+◌, ◌-◌, ◌*◌, ◌/◌, ◌%◌, ◌<◌, Bool, true, false, not, ◌||◌, ◌&&◌, Option, none,
  some, List, [], ◌∷◌, ◌++◌, map, Bytes, length, take, drop, get_last?, ltb, leb, nat_eqb,
  if◌then◌else◌,
}
use discourse_points_system.Prelude.Int.{ℤ, pos, negsuc}
use discourse_points_system.Prelude.Exec.{Result, ok, err}

pub data ProofError : Type 0 where
  index_out_of_range bad_sizes proof_too_short root_mismatch nonempty_proof : ProofError
  roots_differ old_root_mismatch new_root_mismatch : ProofError
  proof_too_long : ℕ → ProofError

-- `for k*2 < n { k *= 2 }`
unfoldable pub double_below : ℕ → ℕ → ℕ → ℕ
double_below zero n k = k
double_below (suc f) n k = elim (ltb (k * 2) n) [ true ↦ double_below f n (k * 2) | false ↦ k ]

unfoldable pub largest_power_of_two_less_than : ℕ → ℕ
unfolding double_below
largest_power_of_two_less_than n = if ltb n 2 then 0 else double_below n n 1

-- The loop of `equal`, over the indices of `a`, behind its test of the lengths.
unfoldable pub equal_from : Bytes → Bytes → Bool
equal_from [] b = true
equal_from (x ∷ a) [] = false
equal_from (x ∷ a) (y ∷ b) = let rest = equal_from a b in if not (nat_eqb x y) then false else rest

unfoldable pub equal : Bytes → Bytes → Bool
unfolding equal_from
equal a b = if not (nat_eqb (length a) (length b)) then false else equal_from a b

-- The hash is crypto/sha256's.
module _ (sha256 : Bytes → Bytes) where
  unfoldable pub leaf_hash : Bytes → Bytes
  leaf_hash content = sha256 (0x00 ∷ content)

  unfoldable pub node_hash : Bytes → Bytes → Bytes
  node_hash left right = sha256 (0x01 ∷ (left ++ right))

  -- rootOfHashes. An empty list, on which Go does not end, is never passed: it gives no bytes.
  unfoldable pub root_of_hashes : ℕ → List Bytes → Bytes
  root_of_hashes zero hashes = []
  root_of_hashes (suc f) [] = []
  root_of_hashes (suc f) (h ∷ []) = h
  root_of_hashes (suc f) (h ∷ h' ∷ hs) =
      let hashes = h ∷ h' ∷ hs in
      let k = largest_power_of_two_less_than (length hashes) in
      node_hash (root_of_hashes f (take k hashes)) (root_of_hashes f (drop k hashes))

  unfoldable pub root_from_leaf_hashes : List Bytes → Bytes
  root_from_leaf_hashes [] = sha256 []
  root_from_leaf_hashes (h ∷ hs) = root_of_hashes (length (h ∷ hs)) (h ∷ hs)

  unfoldable pub root : List Bytes → Bytes
  unfolding root_from_leaf_hashes
  root leaves = root_from_leaf_hashes (map leaf_hash leaves)

  -- inclusionProof, from the leaf up.
  unfoldable pub inclusion_path : ℕ → List Bytes → ℕ → List Bytes
  inclusion_path zero hashes index = []
  inclusion_path (suc f) [] index = []
  inclusion_path (suc f) (h ∷ []) index = []
  inclusion_path (suc f) (h ∷ h' ∷ hs) index =
      let hashes = h ∷ h' ∷ hs in
      let k = largest_power_of_two_less_than (length hashes) in
      elim (ltb index k) [
        | true ↦
            inclusion_path f (take k hashes) index
            ++ root_of_hashes (length hashes) (drop k hashes) ∷ []
        | false ↦
            inclusion_path f (drop k hashes) (index - k)
            ++ root_of_hashes (length hashes) (take k hashes) ∷ []
      ]

  -- The index is a Go int: a negative one is refused.
  unfoldable pub inclusion_proof_from_hashes : List Bytes → ℤ → Result ProofError (List Bytes)
  inclusion_proof_from_hashes hashes (negsuc i) = err index_out_of_range
  inclusion_proof_from_hashes hashes (pos i) =
      if leb (length hashes) i
      then err index_out_of_range
      else ok (inclusion_path (length hashes) hashes i)

  unfoldable pub inclusion_proof : List Bytes → ℤ → Result ProofError (List Bytes)
  unfolding inclusion_proof_from_hashes
  inclusion_proof leaves index = inclusion_proof_from_hashes (map leaf_hash leaves) index

  -- verifyDescend: the hash that the proof leads to, and the number of its entries left over. It
  -- takes an entry off the end of the proof at each level.
  unfoldable pub verify_descend : ℕ → Bytes → ℕ → ℕ → List Bytes → Result ProofError (Bytes × ℕ)
  verify_descend zero leaf index size proof = err proof_too_short
  verify_descend (suc f) leaf index size proof = elim (nat_eqb size 1) [
    | true ↦ ok (leaf, length proof)
    | false ↦ elim (get_last? proof) [
      | none ↦ err proof_too_short
      | some sibling ↦
          let k = largest_power_of_two_less_than size in
          let inner = take (length proof - 1) proof in
          elim (ltb index k) [
            | true ↦ elim (verify_descend f leaf index k inner) [
              | err e ↦ err e
              | ok r ↦ ok (node_hash r.0 sibling, r.1)
            ]
            | false ↦ elim (verify_descend f leaf (index - k) (size - k) inner) [
              | err e ↦ err e
              | ok r ↦ ok (node_hash sibling r.0, r.1)
            ]
          ]
    ]
  ]

  -- VerifyInclusion, once the index is known to be in range.
  unfoldable pub verify_inclusion_at :
      Bytes → Bytes → ℕ → ℕ → List Bytes → Result ProofError (Unit {0})
  unfolding verify_descend
  verify_inclusion_at root_hash leaf index size proof =
      elim (verify_descend (suc (length proof)) leaf index size proof) [
        | err e ↦ err e
        | ok r ↦
            if not (nat_eqb r.1 0)
            then err (proof_too_long r.1)
            else if not (equal r.0 root_hash)
            then err root_mismatch
            else ok tt
      ]

  -- The index and the size are Go ints: `index < 0 || index >= treeSize` is refused.
  unfoldable pub verify_inclusion :
      Bytes → Bytes → ℤ → ℤ → List Bytes → Result ProofError (Unit {0})
  unfolding verify_inclusion_at
  verify_inclusion root_hash leaf (pos i) (pos n) proof =
      if leb n i then err index_out_of_range else verify_inclusion_at root_hash leaf i n proof
  verify_inclusion root_hash leaf _ _ proof = err index_out_of_range
