-- ===== src/Merkle/Soundness.antt =====
-- A proof that VerifyInclusion accepts shows the leaf that the list holds, or a second preimage of
-- a hash that the tree of the list is made of.
use discourse_points_system.Prelude.{
  bytes-cases, HashLength, ℕ, zero, suc, ◌-◌, ◌≤◌, ◌<◌, some, List, [], ◌∷◌, map, Bytes, length,
  get_elem?, length-map, get_elem?-drop, ◌≡◌, ◌≢◌, ◌⊎◌, inl, inr, refl, sym, ap, ◌∙◌, arith,
}
use native.Mathlib.Decide.{dec_lt}
use discourse_points_system.Prelude.Int.{pos}
use discourse_points_system.Prelude.Exec.{ok}
use discourse_points_system.Merkle.{
  largest_power_of_two_less_than, leaf_hash, node_hash, root_of_hashes, root_from_leaf_hashes, root,
  verify_descend, verify_inclusion_at, verify_inclusion,
}
use discourse_points_system.Merkle.Split.{split_bounds}
use discourse_points_system.Merkle.Steps.{
  split, left_half, right_half, length-left_half, length-right_half,
}
use discourse_points_system.Merkle.Descend.{
  descend_zero_inv, descend_one_inv, descend-Left, descend-Right, verify_inclusion_at_inv,
}
use discourse_points_system.Merkle.Preimage.{
  get_elem?-take-some, AllHashes, NodePreimage, length-root, node-inj, lift_left, lift_right,
  AllHashes-left, AllHashes-right,
}

get_elem?-map-some :
    (f : Bytes → Bytes) (xs : List Bytes) (i : ℕ) (h : Bytes)
    → get_elem? (map f xs) i ≡ some h
    → (a : Bytes) × (get_elem? xs i ≡ some a) × (f a ≡ h)
get_elem?-map-some f [] i h e = absurd (ground arith)
get_elem?-map-some f (x ∷ xs) zero h e = (x, refl, ground arith)
get_elem?-map-some f (x ∷ xs) (suc i) h e = get_elem?-map-some f xs i h e

module _ (sha256 : Bytes → Bytes) where
  length-descend :
      (f : ℕ) (leaf : Bytes) (index size : ℕ) (proof : List Bytes) (r : Bytes × ℕ)
      → HashLength sha256
      → length leaf ≡ 32
      → 1 ≤ size
      → index < size
      → verify_descend sha256 f leaf index size proof ≡ ok r
      → length r.0 ≡ 32
  unfolding node_hash
  length-descend zero leaf index size proof r hl n one lt h =
      absurd (descend_zero_inv sha256 leaf index size proof r h)
  length-descend (suc f) leaf index size proof r hl n one lt h = elim (dec_lt 1 size) [
    | no small ↦
        ap length (descend_one_inv sha256 (suc f) leaf index size proof r (omega arith) h) ∙ n
    | yes two ↦ elim (dec_lt index (largest_power_of_two_less_than size)) [
      | yes l ↦
          let (_, _, _, _, _, e) =
            descend-Left sha256 f leaf index size proof r (omega arith) l h in
          ap length e ∙ hl _
      | no g ↦
          let (_, _, _, _, _, e) =
            descend-Right sha256 f leaf index size proof r (omega arith) (omega arith) h in
          ap length e ∙ hl _
    ]
  ]

  -- What is claimed of a leaf's hash.
  abbrev pub Shown : List Bytes → ℕ → Bytes → Type 0
  Shown hs index leaf = (get_elem? hs index ≡ some leaf) ⊎ NodePreimage sha256 hs

  Shown-one :
      (hs : List Bytes) (index : ℕ) (leaf : Bytes)
      → length hs ≡ 1
      → index < length hs
      → leaf ≡ root_from_leaf_hashes sha256 hs
      → get_elem? hs index ≡ some leaf
  unfolding root_from_leaf_hashes root_of_hashes
  Shown-one [] index leaf one lt e = absurd (omega arith)
  Shown-one (x ∷ y ∷ hs) index leaf one lt e = absurd (omega arith)
  Shown-one (x ∷ []) (suc index) leaf one lt e = absurd (omega arith)
  Shown-one (x ∷ []) zero leaf one lt e = ap some (sym e)

  Shown-left :
      (hs : List Bytes) (index : ℕ) (leaf sub sibling : Bytes)
      → 2 ≤ length hs
      → index < split hs
      → length sub ≡ length (root_from_leaf_hashes sha256 (left_half hs))
      → node_hash sha256 sub sibling ≡ root_from_leaf_hashes sha256 hs
      → (sub ≡ root_from_leaf_hashes sha256 (left_half hs) → Shown (left_half hs) index leaf)
      → Shown hs index leaf
  Shown-left hs index leaf sub sibling two lt n e rest =
      elim (node-inj sha256 hs sub sibling two (inl n) e) [
        | inr p ↦ inr p
        | inl (p, _) ↦ elim (rest p) [
          | inl at ↦ inl (get_elem?-take-some hs (split hs) index leaf at)
          | inr c ↦ inr (lift_left sha256 hs two c)
        ]
      ]

  Shown-right :
      (hs : List Bytes) (index : ℕ) (leaf sub sibling : Bytes)
      → 2 ≤ length hs
      → split hs ≤ index
      → length sub ≡ length (root_from_leaf_hashes sha256 (right_half hs))
      → node_hash sha256 sibling sub ≡ root_from_leaf_hashes sha256 hs
      → (sub ≡ root_from_leaf_hashes sha256 (right_half hs)
          → Shown (right_half hs) (index - split hs) leaf)
      → Shown hs index leaf
  Shown-right hs index leaf sub sibling two ge n e rest =
      elim (node-inj sha256 hs sibling sub two (inr n) e) [
        | inr p ↦ inr p
        | inl (_, p) ↦ elim (rest p) [
          | inl at ↦ inl (sym (get_elem?-drop hs (split hs) index ge) ∙ at)
          | inr c ↦ inr (lift_right sha256 hs two c)
        ]
      ]

  descend-Shown :
      (f : ℕ) (hs : List Bytes) (index : ℕ) (leaf : Bytes) (proof : List Bytes) (r : Bytes × ℕ)
      → HashLength sha256
      → AllHashes hs
      → length leaf ≡ 32
      → index < length hs
      → verify_descend sha256 f leaf index (length hs) proof ≡ ok r
      → r.0 ≡ root_from_leaf_hashes sha256 hs
      → Shown hs index leaf
  descend-Shown zero hs index leaf proof r hl all n lt h e =
      absurd (descend_zero_inv sha256 leaf index (length hs) proof r h)
  descend-Shown (suc f) hs index leaf proof r hl all n lt h e = elim (dec_lt 1 (length hs)) [
    | no small ↦ inl (
        Shown-one hs index leaf (omega arith) lt
          (sym (descend_one_inv sha256 (suc f) leaf index (length hs) proof r (omega arith) h) ∙ e))
    | yes two ↦ elim (dec_lt index (split hs)) [
      | yes l ↦
          let (inner, sibling, sub, rem, d, q) =
            descend-Left sha256 f leaf index (length hs) proof r two l h in
          let c = length-left_half hs two in
          let d' = ap (λ (k : ℕ). verify_descend sha256 f leaf index k inner) c ∙ d in
          Shown-left hs index leaf sub sibling two l
            (length-descend f leaf index _ inner (sub, rem) hl n (omega arith) (omega (arith, c)) d'
              ∙ sym (
                  length-root sha256 (left_half hs) hl (omega (arith, c))
                    (AllHashes-left sha256 hs all)))
            (sym q ∙ e)
            (descend-Shown f (left_half hs) index leaf inner (sub, rem) hl
              (AllHashes-left sha256 hs all) n (omega (arith, c)) d')
      | no g ↦
          let (inner, sibling, sub, rem, d, q) =
            descend-Right sha256 f leaf index (length hs) proof r two (omega arith) h in
          let c = length-right_half hs two in
          let b = split_bounds (length hs) two in
          let d' = ap (λ (k : ℕ). verify_descend sha256 f leaf (index - split hs) k inner) c ∙ d in
          Shown-right hs index leaf sub sibling two (omega arith)
            (length-descend f leaf (index - split hs) _ inner (sub, rem) hl n (omega (arith, b, c))
                (omega (arith, b, c)) d'
              ∙ sym (
                  length-root sha256 (right_half hs) hl (omega (arith, b, c))
                    (AllHashes-right sha256 hs all)))
            (sym q ∙ e)
            (descend-Shown f (right_half hs) (index - split hs) leaf inner (sub, rem) hl
              (AllHashes-right sha256 hs all) n (omega (arith, b, c)) d')
    ]
  ]

  -- A leaf of the list at the index, and another content with the same leaf hash.
  abbrev pub LeafPreimage : List Bytes → ℕ → Bytes → Type 0
  LeafPreimage leaves index content =
      (a : Bytes) × (get_elem? leaves index ≡ some a)
      × (a ≢ content)
      × (leaf_hash sha256 a ≡ leaf_hash sha256 content)

  pub AllHashes-map :
      (leaves : List Bytes) → HashLength sha256 → AllHashes (map (leaf_hash sha256) leaves)
  unfolding leaf_hash
  AllHashes-map leaves hl i h e =
      let (a, _, p) = get_elem?-map-some (leaf_hash sha256) leaves i h e in ap length (sym p) ∙ hl _

  verify_inclusion_inv :
      (root_hash leaf : Bytes) (index size : ℕ) (proof : List Bytes)
      → verify_inclusion sha256 root_hash leaf (pos index) (pos size) proof ≡ ok tt
      → (index < size) × (verify_inclusion_at sha256 root_hash leaf index size proof ≡ ok tt)
  unfolding verify_inclusion
  verify_inclusion_inv root_hash leaf index size proof h = ground arith

  Shown-content :
      (leaves : List Bytes) (index : ℕ) (content : Bytes)
      → Shown (map (leaf_hash sha256) leaves) index (leaf_hash sha256 content)
      → (get_elem? leaves index ≡ some content)
        ⊎ LeafPreimage leaves index content
        ⊎ NodePreimage sha256 (map (leaf_hash sha256) leaves)
  Shown-content leaves index content (inr c) = inr (inr c)
  Shown-content leaves index content (inl at) =
      let (a, p, q) = get_elem?-map-some (leaf_hash sha256) leaves index _ at in
      elim (bytes-cases a content) [
        | inl e ↦ inl (p ∙ ap some e)
        | inr ne ↦ inr (inl (a, p, ne, q))
      ]

  -- Soundness: where SHA-256 gives 32 bytes, any proof that VerifyInclusion accepts against the
  -- root of a list, for the leaf hash of some content, an index and the list's size, shows that
  -- the list holds that content at that index, or else gives a second preimage: of the leaf hash
  -- at that index, or of an inner node of the list's own tree.
  pub inclusion_sound :
      (leaves : List Bytes) (index : ℕ) (content : Bytes) (proof : List Bytes)
      → HashLength sha256
      → verify_inclusion sha256
          (root sha256 leaves)
          (leaf_hash sha256 content)
          (pos index)
          (pos (length leaves))
          proof
        ≡ ok tt
      → (get_elem? leaves index ≡ some content)
        ⊎ LeafPreimage leaves index content
        ⊎ NodePreimage sha256 (map (leaf_hash sha256) leaves)
  unfolding root leaf_hash
  inclusion_sound leaves index content proof hl h =
      let hs = map (leaf_hash sha256) leaves in
      let leaf = leaf_hash sha256 content in
      let n = length-map (leaf_hash sha256) leaves in
      let (lt, v) = verify_inclusion_inv (root sha256 leaves) leaf index _ proof h in
      let (r, d, e) = verify_inclusion_at_inv sha256 (root sha256 leaves) leaf index _ proof v in
      let d' =
        ap (λ (k : ℕ). verify_descend sha256 (suc (length proof)) leaf index k proof) n ∙ d in
      Shown-content leaves index content (
        descend-Shown (suc (length proof)) hs index leaf proof r hl (AllHashes-map leaves hl) (hl _)
          (omega (arith, n)) d' e)
