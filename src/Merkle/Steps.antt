-- ===== src/Merkle/Steps.antt =====
-- One level of each recursion on the tree, and the fuel that does not matter.
use discourse_points_system.Prelude.{
  ℕ, zero, suc, ◌-◌, ◌≤◌, ◌<◌, List, [], ◌∷◌, ◌++◌, Bytes, length, take, drop, length-take,
  length-drop, take-append_one, get_last?-append_one, ◌≡◌, refl, arith,
}
use mathlib.Core.Path.{ap₂}
use discourse_points_system.Prelude.Exec.{ok}
use discourse_points_system.Merkle.{
  largest_power_of_two_less_than, node_hash, root_of_hashes, inclusion_path, verify_descend,
}
use discourse_points_system.Merkle.Split.{split_bounds}

-- The split of a list, and its halves.
abbrev pub split : List Bytes → ℕ
split hs = largest_power_of_two_less_than (length hs)

abbrev pub left_half : List Bytes → List Bytes
left_half hs = take (split hs) hs

abbrev pub right_half : List Bytes → List Bytes
right_half hs = drop (split hs) hs

pub length-left_half : (hs : List Bytes) → 2 ≤ length hs → length (left_half hs) ≡ split hs
length-left_half hs h = omega (arith, length-take (split hs) hs, split_bounds (length hs) h)

pub length-right_half :
    (hs : List Bytes) → 2 ≤ length hs → length (right_half hs) ≡ length hs - split hs
length-right_half hs h = length-drop (split hs) hs

module _ (sha256 : Bytes → Bytes) where
  pub root-split :
      (f : ℕ) (hs : List Bytes)
      → 2 ≤ length hs
      → root_of_hashes sha256 (suc f) hs
        ≡ node_hash sha256
            (root_of_hashes sha256 f (left_half hs))
            (root_of_hashes sha256 f (right_half hs))
  unfolding root_of_hashes
  root-split f [] h = absurd (omega arith)
  root-split f (x ∷ []) h = absurd (omega arith)
  root-split f (x ∷ y ∷ hs) h = refl

  -- Fuel for the length of the list is enough, and more changes nothing.
  pub root_fuel :
      (f g : ℕ) (hs : List Bytes)
      → length hs ≤ f
      → length hs ≤ g
      → root_of_hashes sha256 f hs ≡ root_of_hashes sha256 g hs
  unfolding root_of_hashes
  root_fuel zero zero hs p q = refl
  root_fuel zero (suc g) [] p q = refl
  root_fuel zero (suc g) (x ∷ hs) p q = absurd (omega arith)
  root_fuel (suc f) zero [] p q = refl
  root_fuel (suc f) zero (x ∷ hs) p q = absurd (omega arith)
  root_fuel (suc f) (suc g) [] p q = refl
  root_fuel (suc f) (suc g) (x ∷ []) p q = refl
  root_fuel (suc f) (suc g) (x ∷ y ∷ hs) p q =
      let l = x ∷ y ∷ hs in
      let b = split_bounds (length l) (omega arith) in
      let n = length-left_half l (omega arith) in
      let m = length-right_half l (omega arith) in
      ap₂ (node_hash sha256)
        (root_fuel f g (left_half l) (omega (arith, b, n)) (omega (arith, b, n)))
        (root_fuel f g (right_half l) (omega (arith, b, m)) (omega (arith, b, m)))

  pub path-left :
      (f : ℕ) (hs : List Bytes) (index : ℕ)
      → 2 ≤ length hs
      → index < split hs
      → inclusion_path sha256 (suc f) hs index
        ≡ inclusion_path sha256 f (left_half hs) index
          ++ root_of_hashes sha256 (length hs) (right_half hs) ∷ []
  unfolding inclusion_path
  path-left f [] index h lt = absurd (omega arith)
  path-left f (x ∷ []) index h lt = absurd (omega arith)
  path-left f (x ∷ y ∷ hs) index h lt = ground arith

  pub path-right :
      (f : ℕ) (hs : List Bytes) (index : ℕ)
      → 2 ≤ length hs
      → split hs ≤ index
      → inclusion_path sha256 (suc f) hs index
        ≡ inclusion_path sha256 f (right_half hs) (index - split hs)
          ++ root_of_hashes sha256 (length hs) (left_half hs) ∷ []
  unfolding inclusion_path
  path-right f [] index h lt = absurd (omega arith)
  path-right f (x ∷ []) index h lt = absurd (omega arith)
  path-right f (x ∷ y ∷ hs) index h lt = ground arith

  pub descend-left :
      (f : ℕ) (leaf : Bytes) (index size : ℕ) (inner : List Bytes) (sibling : Bytes) (r : Bytes × ℕ)
      → 2 ≤ size
      → index < largest_power_of_two_less_than size
      → verify_descend sha256 f leaf index (largest_power_of_two_less_than size) inner ≡ ok r
      → verify_descend sha256 (suc f) leaf index size (inner ++ sibling ∷ [])
        ≡ ok (node_hash sha256 r.0 sibling, r.1)
  unfolding verify_descend
  descend-left f leaf index size inner sibling r h lt e =
      ground (arith, take-append_one inner sibling, get_last?-append_one inner sibling)

  pub descend-right :
      (f : ℕ) (leaf : Bytes) (index size : ℕ) (inner : List Bytes) (sibling : Bytes) (r : Bytes × ℕ)
      → 2 ≤ size
      → largest_power_of_two_less_than size ≤ index
      → verify_descend sha256 f leaf
          (index - largest_power_of_two_less_than size)
          (size - largest_power_of_two_less_than size)
          inner
        ≡ ok r
      → verify_descend sha256 (suc f) leaf index size (inner ++ sibling ∷ [])
        ≡ ok (node_hash sha256 sibling r.0, r.1)
  unfolding verify_descend
  descend-right f leaf index size inner sibling r h lt e =
      ground (arith, take-append_one inner sibling, get_last?-append_one inner sibling)
