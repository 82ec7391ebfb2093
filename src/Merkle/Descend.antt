-- ===== src/Merkle/Descend.antt =====
-- What an accepting run of verifyDescend has done, one level at a time.
use discourse_points_system.Prelude.{
  ℕ, zero, suc, ◌-◌, ◌≤◌, ◌<◌, true, List, [], ◌∷◌, Bytes, length, take, get_last?, Option-cases,
  ◌≡◌, ◌≢◌, inl, inr, refl, arith,
}
use discourse_points_system.Prelude.Exec.{ok, Result-cases}
use discourse_points_system.Merkle.{
  equal, equal_from, largest_power_of_two_less_than, node_hash, verify_descend, verify_inclusion_at,
}

equal_from→eq : (a b : Bytes) → length a ≡ length b → equal_from a b ≡ true → a ≡ b
unfolding equal_from
equal_from→eq [] [] h e = refl
equal_from→eq [] (y ∷ b) h e = absurd (omega arith)
equal_from→eq (x ∷ a) [] h e = absurd (omega arith)
equal_from→eq (x ∷ a) (y ∷ b) h e = ground (arith, equal_from→eq a b)

pub equal→eq : (a b : Bytes) → equal a b ≡ true → a ≡ b
unfolding equal
equal→eq a b h = ground (arith, equal_from→eq a b)

module _ (sha256 : Bytes → Bytes) where
  -- The level below, in the half that holds the index.
  abbrev pub Left : ℕ → Bytes → ℕ → ℕ → Bytes × ℕ → Type 0
  Left f leaf index size r =
      (inner : List Bytes) × (sibling sub : Bytes) × (rem : ℕ) × (verify_descend sha256 f leaf index
          (largest_power_of_two_less_than size) inner
        ≡ ok (sub, rem))
      × (r.0 ≡ node_hash sha256 sub sibling)

  abbrev pub Right : ℕ → Bytes → ℕ → ℕ → Bytes × ℕ → Type 0
  Right f leaf index size r =
      (inner : List Bytes) × (sibling sub : Bytes) × (rem : ℕ) × (verify_descend sha256 f leaf
          (index - largest_power_of_two_less_than size) (size - largest_power_of_two_less_than size)
          inner
        ≡ ok (sub, rem))
      × (r.0 ≡ node_hash sha256 sibling sub)

  pub descend_one_inv :
      (f : ℕ) (leaf : Bytes) (index size : ℕ) (proof : List Bytes) (r : Bytes × ℕ)
      → size ≡ 1
      → verify_descend sha256 f leaf index size proof ≡ ok r
      → r.0 ≡ leaf
  unfolding verify_descend
  descend_one_inv zero leaf index size proof r one h = absurd (ground arith)
  descend_one_inv (suc f) leaf index size proof r one h = ground arith

  pub descend_zero_inv :
      (leaf : Bytes) (index size : ℕ) (proof : List Bytes) (r : Bytes × ℕ)
      → verify_descend sha256 0 leaf index size proof ≢ ok r
  unfolding verify_descend
  descend_zero_inv leaf index size proof r h = absurd (ground arith)

  pub descend-Left :
      (f : ℕ) (leaf : Bytes) (index size : ℕ) (proof : List Bytes) (r : Bytes × ℕ)
      → 2 ≤ size
      → index < largest_power_of_two_less_than size
      → verify_descend sha256 (suc f) leaf index size proof ≡ ok r
      → Left f leaf index size r
  unfolding verify_descend
  descend-Left f leaf index size proof r two lt h = elim (Option-cases (get_last? proof)) [
    | inl e ↦ absurd (ground arith)
    | inr (sibling, e) ↦
        let k = largest_power_of_two_less_than size in
        let inner = take (length proof - 1) proof in
        elim (Result-cases (verify_descend sha256 f leaf index k inner)) [
          | inl (s, d) ↦ (inner, sibling, s.0, s.1, d, ground arith)
          | inr (x, d) ↦ absurd (ground arith)
        ]
  ]

  pub descend-Right :
      (f : ℕ) (leaf : Bytes) (index size : ℕ) (proof : List Bytes) (r : Bytes × ℕ)
      → 2 ≤ size
      → largest_power_of_two_less_than size ≤ index
      → verify_descend sha256 (suc f) leaf index size proof ≡ ok r
      → Right f leaf index size r
  unfolding verify_descend
  descend-Right f leaf index size proof r two ge h = elim (Option-cases (get_last? proof)) [
    | inl e ↦ absurd (ground arith)
    | inr (sibling, e) ↦
        let k = largest_power_of_two_less_than size in
        let inner = take (length proof - 1) proof in
        elim (Result-cases (verify_descend sha256 f leaf (index - k) (size - k) inner)) [
          | inl (s, d) ↦ (inner, sibling, s.0, s.1, d, ground arith)
          | inr (x, d) ↦ absurd (ground arith)
        ]
  ]

  pub verify_inclusion_at_inv :
      (root_hash leaf : Bytes) (index size : ℕ) (proof : List Bytes)
      → verify_inclusion_at sha256 root_hash leaf index size proof ≡ ok tt
      → (r : Bytes × ℕ) × (verify_descend sha256 (suc (length proof)) leaf index size proof ≡ ok r)
        × (r.0 ≡ root_hash)
  unfolding verify_inclusion_at
  verify_inclusion_at_inv root_hash leaf index size proof h =
      elim (Result-cases (verify_descend sha256 (suc (length proof)) leaf index size proof)) [
        | inl (r, d) ↦ (r, d, ground (arith, equal→eq r.0 root_hash))
        | inr (x, d) ↦ absurd (ground arith)
      ]
