-- ===== src/Merkle/Preimage.antt =====
-- Byte strings with the hash of an inner node: the node's own input, or a second preimage of it.
use discourse_points_system.Prelude.{
  bytes-cases, HashLength, ℕ, zero, suc, ◌≤◌, some, List, [], ◌∷◌, ◌++◌, Bytes, length, take, drop,
  get_elem?, length-append, append-inj, ◌≡◌, ◌≢◌, ◌⊎◌, inl, inr, refl, sym, ap, ◌∙◌, arith,
}
use discourse_points_system.Merkle.{node_hash, root_of_hashes, root_from_leaf_hashes}
use discourse_points_system.Merkle.Split.{split_bounds}
use discourse_points_system.Merkle.Steps.{
  split, left_half, right_half, length-left_half, length-right_half, root-split, root_fuel,
}

cons-inj : (x : ℕ) (xs ys : Bytes) → x ∷ xs ≡ x ∷ ys → xs ≡ ys
cons-inj x xs ys e = cc

first-length :
    (a b l r : Bytes)
    → (length a ≡ length l) ⊎ (length b ≡ length r)
    → a ++ b ≡ l ++ r
    → length a ≡ length l
first-length a b l r (inl n) e = n
first-length a b l r (inr n) e =
    let s : length (a ++ b) ≡ length (l ++ r) = ap length e in
    omega (arith, s, length-append a b, length-append l r)

abbrev pub AllHashes : List Bytes → Type 0
AllHashes hs = (i : ℕ) (h : Bytes) → get_elem? hs i ≡ some h → length h ≡ 32

pub get_elem?-take-some :
    (xs : List Bytes) (n i : ℕ) (a : Bytes)
    → get_elem? (take n xs) i ≡ some a
    → get_elem? xs i ≡ some a
get_elem?-take-some xs zero i a e = absurd (ground arith)
get_elem?-take-some [] (suc n) i a e = absurd (ground arith)
get_elem?-take-some (x ∷ xs) (suc n) zero a e = e
get_elem?-take-some (x ∷ xs) (suc n) (suc i) a e = get_elem?-take-some xs n i a e

get_elem?-drop-some :
    (xs : List Bytes) (n i : ℕ) (a : Bytes)
    → get_elem? (drop n xs) i ≡ some a
    → (j : ℕ) × (get_elem? xs j ≡ some a)
get_elem?-drop-some xs zero i a e = (i, e)
get_elem?-drop-some [] (suc n) i a e = absurd (ground arith)
get_elem?-drop-some (x ∷ xs) (suc n) i a e =
    let (j, p) = get_elem?-drop-some xs n i a e in (suc j, p)

module _ (sha256 : Bytes → Bytes) where
  -- The byte strings that are hashed for the inner nodes of a tree.
  pub data IsNodeInput : List Bytes → Bytes → Type 0 where
    top :
        (hs : List Bytes)
        → 2 ≤ length hs
        → IsNodeInput hs (
            0x01
            ∷ (root_from_leaf_hashes sha256 (left_half hs)
                ++ root_from_leaf_hashes sha256 (right_half hs)))
    in_left :
        (hs : List Bytes) (b : Bytes)
        → 2 ≤ length hs
        → IsNodeInput (left_half hs) b
        → IsNodeInput hs b
    in_right :
        (hs : List Bytes) (b : Bytes)
        → 2 ≤ length hs
        → IsNodeInput (right_half hs) b
        → IsNodeInput hs b

  -- A byte string other than one that the tree hashes, with the same hash.
  abbrev pub NodePreimage : List Bytes → Type 0
  NodePreimage hs = (a b : Bytes) × IsNodeInput hs a × (a ≢ b) × (sha256 a ≡ sha256 b)

  root-fuel_of :
      (f : ℕ) (hs : List Bytes)
      → 1 ≤ length hs
      → length hs ≤ f
      → root_from_leaf_hashes sha256 hs ≡ root_of_hashes sha256 f hs
  unfolding root_from_leaf_hashes
  root-fuel_of f [] h p = absurd (omega arith)
  root-fuel_of f (x ∷ hs) h p = root_fuel sha256 (length (x ∷ hs)) f (x ∷ hs) (omega arith) p

  pub root-halves :
      (hs : List Bytes)
      → 2 ≤ length hs
      → root_from_leaf_hashes sha256 hs
        ≡ node_hash sha256
            (root_from_leaf_hashes sha256 (left_half hs))
            (root_from_leaf_hashes sha256 (right_half hs))
  root-halves hs two =
      let b = split_bounds (length hs) two in
      let n = length-left_half hs two in
      let m = length-right_half hs two in
      let f = length hs in
      rw
        (
          root-fuel_of (suc f) hs (omega arith) (omega arith),
          root-fuel_of f (left_half hs) (omega (arith, b, n)) (omega (arith, b, n)),
          root-fuel_of f (right_half hs) (omega (arith, b, m)) (omega (arith, b, m)),
        )
        (root-split sha256 f hs two)

  pub length-root :
      (hs : List Bytes)
      → HashLength sha256
      → 1 ≤ length hs
      → AllHashes hs
      → length (root_from_leaf_hashes sha256 hs) ≡ 32
  unfolding root_from_leaf_hashes root_of_hashes node_hash
  length-root [] hl h all = absurd (omega arith)
  length-root (x ∷ []) hl h all = all 0 x refl
  length-root (x ∷ y ∷ hs) hl h all = hl _

  -- Two nodes of one hash have the same children, or are a second preimage.
  pub node-inj :
      (hs : List Bytes) (a b : Bytes)
      → 2 ≤ length hs
      → (length a ≡ length (root_from_leaf_hashes sha256 (left_half hs)))
        ⊎ (length b ≡ length (root_from_leaf_hashes sha256 (right_half hs)))
      → node_hash sha256 a b ≡ root_from_leaf_hashes sha256 hs
      → ((a ≡ root_from_leaf_hashes sha256 (left_half hs))
          × (b ≡ root_from_leaf_hashes sha256 (right_half hs)))
        ⊎ NodePreimage hs
  unfolding node_hash
  node-inj hs a b two n e =
      let l = root_from_leaf_hashes sha256 (left_half hs) in
      let r = root_from_leaf_hashes sha256 (right_half hs) in
      elim (bytes-cases (0x01 ∷ (l ++ r)) (0x01 ∷ (a ++ b))) [
        | inl p ↦
            let q = sym (cons-inj 0x01 (l ++ r) (a ++ b) p) in
            inl (append-inj a b l r (first-length a b l r n q) q)
        | inr p ↦ inr (_, _, top hs two, p, sym (e ∙ root-halves hs two))
      ]

  pub lift_left : (hs : List Bytes) → 2 ≤ length hs → NodePreimage (left_half hs) → NodePreimage hs
  lift_left hs two (a, b, p, ne, q) = (a, b, in_left hs a two p, ne, q)

  pub lift_right :
      (hs : List Bytes) → 2 ≤ length hs → NodePreimage (right_half hs) → NodePreimage hs
  lift_right hs two (a, b, p, ne, q) = (a, b, in_right hs a two p, ne, q)

  pub AllHashes-left : (hs : List Bytes) → AllHashes hs → AllHashes (left_half hs)
  AllHashes-left hs all i h e = all i h (get_elem?-take-some hs (split hs) i h e)

  pub AllHashes-right : (hs : List Bytes) → AllHashes hs → AllHashes (right_half hs)
  AllHashes-right hs all i h e = let (j, p) = get_elem?-drop-some hs (split hs) i h e in all j h p
