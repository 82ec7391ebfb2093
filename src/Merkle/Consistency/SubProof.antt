-- ===== src/Merkle/Consistency/SubProof.antt =====
-- The recursion that makes a consistency proof, one split at a time, and the roots in it.
use discourse_points_system.Prelude.{
  ℕ, zero, suc, ◌-◌, ◌≤◌, ◌<◌, ◌≡◌, refl, ap, ◌∙◌, true, false, Bool, arith, List, [], ◌∷◌, ◌++◌,
  Bytes, length, take, drop, length-take, take-take, drop-take, if◌then◌else◌,
}
use discourse_points_system.Merkle.{largest_power_of_two_less_than, node_hash, root_of_hashes}
use mathlib.Core.Path.{ap₂}
use discourse_points_system.Merkle.Split.{split_bounds}
use discourse_points_system.Merkle.Steps.{root-split, root_fuel}
use discourse_points_system.Merkle.Consistency.{sub_proof}

pub append-choice :
    (b : Bool) (start : Bytes) (rest : List Bytes) (last : Bytes)
    → (if b then rest else start ∷ rest) ++ last ∷ []
      ≡ (if b then rest ++ last ∷ [] else start ∷ (rest ++ last ∷ []))
append-choice true start rest last = refl
append-choice false start rest last = refl

module _ (sha256 : Bytes → Bytes) where
  -- The root of the first n hashes.
  abbrev pub head_root : List Bytes → ℕ → Bytes
  head_root hs n = root_of_hashes sha256 n (take n hs)

  -- The root of a prefix of more than one hash is that of both its parts.
  pub head_root-split :
      (hs : List Bytes) (n k : ℕ)
      → 2 ≤ n
      → n ≤ length hs
      → largest_power_of_two_less_than n ≡ k
      → k < n
      → head_root hs n ≡ node_hash sha256 (head_root hs k) (head_root (drop k hs) (n - k))
  head_root-split hs zero k two p e lt = absurd (omega arith)
  head_root-split hs (suc f) k two p e lt =
      let l = take (suc f) hs in
      let n : length l ≡ suc f = omega (arith, length-take (suc f) hs) in
      let at : largest_power_of_two_less_than (length l) ≡ k =
        ap largest_power_of_two_less_than n ∙ e in
      let pos_k = (split_bounds (suc f) two).0 in
      let left : take k l ≡ take k hs = take-take k (suc f) hs (omega arith) in
      let right : drop k l ≡ take (suc f - k) (drop k hs) = drop-take k (suc f) hs in
      root-split sha256 f l (omega arith)
      ∙ rw (at, left, right)
          (ap₂ (node_hash sha256)
            (root_fuel sha256 f k (take k hs) (omega (arith, length-take k hs))
              (omega (arith, length-take k hs)))
            (root_fuel sha256 f (suc f - k) (take (suc f - k) (drop k hs))
              (omega (arith, length-take (suc f - k) (drop k hs), e, pos_k))
              (omega (arith, length-take (suc f - k) (drop k hs)))))

  pub head_root-drop :
      (hs : List Bytes) (n k : ℕ)
      → root_of_hashes sha256 n (drop k (take n hs)) ≡ head_root (drop k hs) (n - k)
  head_root-drop hs n k = rw (drop-take k n hs) (
      root_fuel sha256 n (n - k) (take (n - k) (drop k hs))
        (omega (arith, length-take (n - k) (drop k hs)))
        (omega (arith, length-take (n - k) (drop k hs))))

  pub head_root-fuel :
      (hs : List Bytes) (n k : ℕ) → k ≤ n → root_of_hashes sha256 n (take k hs) ≡ head_root hs k
  head_root-fuel hs n k h =
      root_fuel sha256 n k (take k hs) (omega (arith, length-take k hs))
        (omega (arith, length-take k hs))

  pub head_root-take :
      (hs : List Bytes) (m k : ℕ) → m ≤ k → head_root (take k hs) m ≡ head_root hs m
  head_root-take hs m k h = ap (root_of_hashes sha256 m) (take-take m k hs h)

  pub sub_proof-same :
      (f : ℕ) (hs : List Bytes) (m : ℕ)
      → 0 < f
      → (sub_proof sha256 f hs m m true ≡ [])
        × (sub_proof sha256 f hs m m false ≡ head_root hs m ∷ [])
  unfolding sub_proof
  sub_proof-same zero hs m h = absurd (omega arith)
  sub_proof-same (suc f) hs m h = ground arith

  pub sub-left :
      (f : ℕ) (hs : List Bytes) (m n k : ℕ) (b : Bool)
      → m < n
      → largest_power_of_two_less_than n ≡ k
      → m ≤ k
      → sub_proof sha256 (suc f) hs m n b
        ≡ sub_proof sha256 f (take k hs) m k b ++ root_of_hashes sha256 n (drop k (take n hs)) ∷ []
  unfolding sub_proof
  sub-left f hs m n k b lt e le = ground arith

  pub sub-right :
      (f : ℕ) (hs : List Bytes) (m n k : ℕ) (b : Bool)
      → m < n
      → largest_power_of_two_less_than n ≡ k
      → k < m
      → sub_proof sha256 (suc f) hs m n b
        ≡ sub_proof sha256 f (drop k hs) (m - k) (n - k) false
          ++ root_of_hashes sha256 n (take k hs) ∷ []
  unfolding sub_proof
  sub-right f hs m n k b lt e le = ground arith
