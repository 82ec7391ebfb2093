-- ===== src/Merkle/Tests.antt =====
-- A tree of three leaves on a toy hash, and the theorems applied to it.
use discourse_points_system.Prelude.{
  HashLength, ℕ, zero, suc, length, ◌+◌, ◌*◌, ◌%◌, ◌≤◌, some, List, [], ◌∷◌, map, Bytes, replicate,
  length-replicate, get_elem?, take, drop, Bool, true, false, ◌≡◌, ◌⊎◌, refl, arith,
}
use discourse_points_system.Prelude.Int.{pos}
use discourse_points_system.Prelude.Exec.{ok, err}
use discourse_points_system.Merkle.{
  ProofError, largest_power_of_two_less_than, leaf_hash, node_hash, root, root_of_hashes,
  inclusion_proof, verify_inclusion, equal,
}
use discourse_points_system.Merkle.Consistency.{
  consistency_proof, verify_consistency, sub_proof, walk_rounds, walk_consistency, skip_zeros,
  is_power_of_two, decrement, to_uint64,
}
use discourse_points_system.Merkle.Consistency.Soundness.{consistency_sound}
use discourse_points_system.Merkle.Consistency.Complete.{consistency_complete}
use discourse_points_system.Merkle.Inclusion.{inclusion_complete}
use discourse_points_system.Merkle.Preimage.{AllHashes, NodePreimage}
use discourse_points_system.Merkle.Soundness.{LeafPreimage, inclusion_sound}

-- A checksum of the input, 32 times.
abbrev checksum : Bytes → ℕ
checksum [] = 7
checksum (b ∷ bs) = (3 * b + 5 * checksum bs) % 251

abbrev toy_hash : Bytes → Bytes
toy_hash b = replicate 32 (checksum b)

sized : HashLength toy_hash
sized b = length-replicate {A = ℕ} 32 (checksum b)

abbrev leaves : List Bytes
leaves = (1 ∷ []) ∷ (2 ∷ 3 ∷ []) ∷ (4 ∷ []) ∷ []

abbrev path_of_one : List Bytes
path_of_one = leaf_hash toy_hash (1 ∷ []) ∷ leaf_hash toy_hash (4 ∷ []) ∷ []

accepts :
    verify_inclusion toy_hash
      (root toy_hash leaves)
      (leaf_hash toy_hash (2 ∷ 3 ∷ []))
      (pos 1)
      (pos 3)
      path_of_one
    ≡ ok tt
unfolding verify_inclusion root leaf_hash node_hash root_of_hashes largest_power_of_two_less_than
    equal
accepts = refl

refuses :
    verify_inclusion toy_hash
      (root toy_hash leaves)
      (leaf_hash toy_hash (4 ∷ []))
      (pos 1)
      (pos 3)
      path_of_one
    ≡ err ProofError.root_mismatch
unfolding verify_inclusion root leaf_hash node_hash root_of_hashes largest_power_of_two_less_than
    equal
refuses = refl

splits : map largest_power_of_two_less_than (1 ∷ 2 ∷ 3 ∷ 8 ∷ 9 ∷ []) ≡ 0 ∷ 1 ∷ 2 ∷ 4 ∷ 8 ∷ []
unfolding largest_power_of_two_less_than
splits = refl

inclusion_complete_example :
    (proof : List Bytes) × (inclusion_proof toy_hash leaves (pos 1) ≡ ok proof)
    × (verify_inclusion toy_hash
          (root toy_hash leaves)
          (leaf_hash toy_hash (2 ∷ 3 ∷ []))
          (pos 1)
          (pos 3)
          proof
        ≡ ok tt)
inclusion_complete_example = inclusion_complete toy_hash leaves 1 (2 ∷ 3 ∷ []) refl

inclusion_sound_example :
    (get_elem? leaves 1 ≡ some (2 ∷ 3 ∷ []))
    ⊎ LeafPreimage toy_hash leaves 1 (2 ∷ 3 ∷ [])
    ⊎ NodePreimage toy_hash (map (leaf_hash toy_hash) leaves)
inclusion_sound_example = inclusion_sound toy_hash leaves 1 (2 ∷ 3 ∷ []) path_of_one sized accepts

abbrev seven : List Bytes
seven = (1 ∷ []) ∷ (2 ∷ []) ∷ (3 ∷ []) ∷ (4 ∷ []) ∷ (5 ∷ []) ∷ (6 ∷ []) ∷ (7 ∷ []) ∷ []

-- Whether the proof from the first m to the first n leaves is accepted.
abbrev checked : ℕ → ℕ → Bool
checked m n = elim (consistency_proof toy_hash seven (pos m) (pos n)) [
  | err e ↦ false
  | ok proof ↦
      elim (verify_consistency toy_hash (root toy_hash (take m seven))
        (root toy_hash (take n seven)) (pos m) (pos n) proof) [ ok u ↦ true | err e ↦ false ]
]

checks : (checked 3 7 ≡ true) × (checked 4 7 ≡ true) × (checked 6 7 ≡ true) × (checked 7 5 ≡ false)
unfolding consistency_proof verify_consistency root leaf_hash node_hash root_of_hashes
    largest_power_of_two_less_than equal sub_proof walk_rounds skip_zeros is_power_of_two decrement
    to_uint64 walk_consistency
checks = (refl, refl, refl, refl)

consistency_complete_example :
    (proof : List Bytes) × (consistency_proof toy_hash seven (pos 3) (pos 7) ≡ ok proof)
    × (verify_consistency toy_hash
          (root toy_hash (take 3 seven))
          (root toy_hash (take 7 seven))
          (pos 3)
          (pos 7)
          proof
        ≡ ok tt)
consistency_complete_example =
    consistency_complete toy_hash seven 3 7 (omega arith) (omega arith) (omega arith) (omega arith)

-- A proof from the first three leaves to all seven.
abbrev path_of_three : List Bytes
path_of_three =
    leaf_hash toy_hash (3 ∷ [])
    ∷ leaf_hash toy_hash (4 ∷ [])
    ∷ root toy_hash (take 2 seven)
    ∷ root toy_hash ((5 ∷ []) ∷ (6 ∷ []) ∷ (7 ∷ []) ∷ [])
    ∷ []

AllHashes-nil : AllHashes []
AllHashes-nil i h e = absurd (ground arith)

AllHashes-cons : (x : Bytes) (xs : List Bytes) → length x ≡ 32 → AllHashes xs → AllHashes (x ∷ xs)
AllHashes-cons x xs n all zero h e = ground arith
AllHashes-cons x xs n all (suc i) h e = all i h e

path_of_three-AllHashes : AllHashes path_of_three
unfolding leaf_hash root node_hash root_of_hashes largest_power_of_two_less_than
path_of_three-AllHashes = AllHashes-cons _ (drop 1 path_of_three) refl (
    AllHashes-cons _ (drop 2 path_of_three) refl
      (AllHashes-cons _ (drop 3 path_of_three) refl (AllHashes-cons _ [] refl AllHashes-nil)))

consistency_sound_example :
    ((3 ≤ 7) × (root toy_hash (take 3 seven) ≡ root toy_hash (take 3 seven)))
    ⊎ NodePreimage toy_hash (map (leaf_hash toy_hash) seven)
unfolding consistency_proof verify_consistency root leaf_hash node_hash root_of_hashes
    largest_power_of_two_less_than equal sub_proof walk_rounds skip_zeros is_power_of_two decrement
    to_uint64 walk_consistency
consistency_sound_example =
    consistency_sound toy_hash seven 3 (root toy_hash (take 3 seven)) path_of_three sized
      path_of_three-AllHashes refl (omega arith) refl
