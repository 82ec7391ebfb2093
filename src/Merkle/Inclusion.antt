-- ===== src/Merkle/Inclusion.antt =====
-- Every inclusion proof that the program makes is accepted by its verifier.
use discourse_points_system.Prelude.{
  ℕ, zero, suc, ◌+◌, ◌-◌, ◌≤◌, ◌<◌, true, some, List, [], ◌∷◌, ◌++◌, map, Bytes, length, get_elem?,
  length-append, length-map, get_elem?-take, get_elem?-drop, ◌≡◌, refl, sym, ap, ◌∙◌, arith,
}
use native.Mathlib.Decide.{dec_lt}
use discourse_points_system.Prelude.Int.{pos}
use discourse_points_system.Prelude.Exec.{ok}
use discourse_points_system.Merkle.{
  equal, equal_from, leaf_hash, root_of_hashes, root_from_leaf_hashes, root, inclusion_path,
  inclusion_proof, verify_descend, verify_inclusion,
}
use discourse_points_system.Merkle.Split.{split_bounds}
use discourse_points_system.Merkle.Steps.{
  split, left_half, right_half, length-left_half, length-right_half, root-split, root_fuel,
  path-left, path-right, descend-left, descend-right,
}

get_elem?-lt {ℓ} :
    {A : Type ℓ} (xs : List A) (i : ℕ) (a : A) → get_elem? xs i ≡ some a → i < length xs
get_elem?-lt [] i a e = absurd (ground arith)
get_elem?-lt (x ∷ xs) zero a e = omega arith
get_elem?-lt (x ∷ xs) (suc i) a e = omega (arith, get_elem?-lt xs i a e)

pub equal_refl : (a : Bytes) → equal a a ≡ true
unfolding equal
equal_refl a = ground (arith, loop a)
  where
    loop : (a : Bytes) → equal_from a a ≡ true
    loop [] = refl
    loop (x ∷ a) = ground (arith, loop a)

shorter :
    (path inner : List Bytes) (a : Bytes) → path ≡ inner ++ a ∷ [] → length path ≡ length inner + 1
shorter path inner a e = ap length e ∙ length-append inner (a ∷ [])

module _ (sha256 : Bytes → Bytes) where
  descend-left-path :
      (f : ℕ) (hs : List Bytes) (index g : ℕ) (leaf : Bytes)
      → 2 ≤ length hs
      → length hs ≤ suc f
      → index < split hs
      → verify_descend sha256 g leaf index
          (length (left_half hs))
          (inclusion_path sha256 f (left_half hs) index)
        ≡ ok (root_of_hashes sha256 f (left_half hs), 0)
      → verify_descend sha256
          (suc g)
          leaf
          index
          (length hs)
          (inclusion_path sha256 (suc f) hs index)
        ≡ ok (root_of_hashes sha256 (suc f) hs, 0)
  descend-left-path f hs index g leaf two p lt ih =
      let b = split_bounds (length hs) two in
      let m = length-right_half hs two in
      let inner = inclusion_path sha256 f (left_half hs) index in
      let r = root_of_hashes sha256 f (left_half hs) in
      let same =
        root_fuel sha256 (length hs) f (right_half hs) (omega (arith, b, m))
          (omega (arith, b, m)) in
      rw (path-left sha256 f hs index two lt, same, root-split sha256 f hs two)
        (descend-left sha256 g leaf index (length hs) inner
          (root_of_hashes sha256 f (right_half hs)) (r, 0) two lt
          (ap (λ (n : ℕ). verify_descend sha256 g leaf index n inner)
              (sym (length-left_half hs two))
            ∙ ih))

  descend-right-path :
      (f : ℕ) (hs : List Bytes) (index g : ℕ) (leaf : Bytes)
      → 2 ≤ length hs
      → length hs ≤ suc f
      → split hs ≤ index
      → verify_descend sha256 g leaf
          (index - split hs)
          (length (right_half hs))
          (inclusion_path sha256 f (right_half hs) (index - split hs))
        ≡ ok (root_of_hashes sha256 f (right_half hs), 0)
      → verify_descend sha256
          (suc g)
          leaf
          index
          (length hs)
          (inclusion_path sha256 (suc f) hs index)
        ≡ ok (root_of_hashes sha256 (suc f) hs, 0)
  descend-right-path f hs index g leaf two p ge ih =
      let b = split_bounds (length hs) two in
      let n = length-left_half hs two in
      let inner = inclusion_path sha256 f (right_half hs) (index - split hs) in
      let r = root_of_hashes sha256 f (right_half hs) in
      let same =
        root_fuel sha256 (length hs) f (left_half hs) (omega (arith, b, n)) (omega (arith, b, n)) in
      rw (path-right sha256 f hs index two ge, same, root-split sha256 f hs two)
        (descend-right sha256 g leaf index (length hs) inner
          (root_of_hashes sha256 f (left_half hs)) (r, 0) two ge
          (ap (λ (k : ℕ). verify_descend sha256 g leaf (index - split hs) k inner)
              (sym (length-right_half hs two))
            ∙ ih))

  descend-one :
      (f index g : ℕ) (x leaf : Bytes)
      → get_elem? (x ∷ []) index ≡ some leaf
      → verify_descend sha256 (suc g) leaf index 1 (inclusion_path sha256 (suc f) (x ∷ []) index)
        ≡ ok (root_of_hashes sha256 (suc f) (x ∷ []), 0)
  unfolding verify_descend inclusion_path root_of_hashes
  descend-one f zero g x leaf at = ground arith
  descend-one f (suc index) g x leaf at = absurd (ground arith)

  -- The proof of a leaf leads the verifier to the root, with no entry left over.
  descend-path :
      (f : ℕ) (hs : List Bytes) (index g : ℕ) (leaf : Bytes)
      → length hs ≤ f
      → get_elem? hs index ≡ some leaf
      → length (inclusion_path sha256 f hs index) < g
      → verify_descend sha256 g leaf index (length hs) (inclusion_path sha256 f hs index)
        ≡ ok (root_of_hashes sha256 f hs, 0)
  descend-path f [] index g leaf p at q = absurd (ground arith)
  descend-path zero (x ∷ hs) index g leaf p at q = absurd (omega arith)
  descend-path (suc f) (x ∷ hs) index zero leaf p at q = absurd (omega arith)
  descend-path (suc f) (x ∷ []) index (suc g) leaf p at q = descend-one f index g x leaf at
  descend-path (suc f) (x ∷ y ∷ hs) index (suc g) leaf p at q = elim (dec_lt index (split l)) [
    | yes lt ↦ descend-left-path f l index g leaf two p lt (
        descend-path f (left_half l) index g leaf (omega (arith, b, length-left_half l two))
          (get_elem?-take l (split l) index lt ∙ at)
          (omega (arith, q, shorter _ _ _ (path-left sha256 f l index two lt))))
    | no ge ↦ descend-right-path f l index g leaf two p (omega arith) (
        descend-path f (right_half l) (index - split l) g leaf
          (omega (arith, b, length-right_half l two))
          (get_elem?-drop l (split l) index (omega arith) ∙ at)
          (omega (arith, q, shorter _ _ _ (path-right sha256 f l index two (omega arith)))))
  ]
    where
      l : List Bytes
      l = x ∷ y ∷ hs

      two : 2 ≤ length l
      two = omega arith

      b : (0 < split l) × (split l < length l)
      b = split_bounds (length l) two

  from_hashes :
      (hs : List Bytes) (index : ℕ) (leaf : Bytes)
      → get_elem? hs index ≡ some leaf
      → verify_inclusion sha256
          (root_from_leaf_hashes sha256 hs)
          leaf
          (pos index)
          (pos (length hs))
          (inclusion_path sha256 (length hs) hs index)
        ≡ ok tt
  unfolding verify_inclusion root_from_leaf_hashes
  from_hashes [] index leaf at = absurd (ground arith)
  from_hashes (x ∷ hs) index leaf at =
      let l = x ∷ hs in
      ground (
        arith,
        descend-path (length l) l index (suc (length (inclusion_path sha256 (length l) l index)))
            leaf (omega arith) at (omega arith),
        get_elem?-lt l index leaf at,
        equal_refl (root_of_hashes sha256 (length l) l),
      )

  -- Completeness: for every leaf of a list, InclusionProof gives a proof, and VerifyInclusion
  -- accepts it against the root of the list, for the hash of that leaf, its index and the size.
  pub inclusion_complete :
      (leaves : List Bytes) (index : ℕ) (leaf : Bytes)
      → get_elem? leaves index ≡ some leaf
      → (proof : List Bytes) × (inclusion_proof sha256 leaves (pos index) ≡ ok proof)
        × (verify_inclusion sha256
              (root sha256 leaves)
              (leaf_hash sha256 leaf)
              (pos index)
              (pos (length leaves))
              proof
            ≡ ok tt)
  unfolding inclusion_proof root
  inclusion_complete leaves index leaf at =
      let hs = map (leaf_hash sha256) leaves in
      let n = length-map (leaf_hash sha256) leaves in
      (
        inclusion_path sha256 (length hs) hs index,
        ground (arith, get_elem?-lt leaves index leaf at, n),
        ap
              (λ (k : ℕ).
                verify_inclusion sha256 (root_from_leaf_hashes sha256 hs) (leaf_hash sha256 leaf)
                  (pos index) (pos k) (inclusion_path sha256 (length hs) hs index))
              (sym n)
            ∙ from_hashes hs index (leaf_hash sha256 leaf) (get_elem?-map leaves index leaf at),
      )
    where
      get_elem?-map :
          (xs : List Bytes) (i : ℕ) (a : Bytes)
          → get_elem? xs i ≡ some a
          → get_elem? (map (leaf_hash sha256) xs) i ≡ some (leaf_hash sha256 a)
      get_elem?-map [] i a e = absurd (ground arith)
      get_elem?-map (x ∷ xs) zero a e = ground arith
      get_elem?-map (x ∷ xs) (suc i) a e = get_elem?-map xs i a e
