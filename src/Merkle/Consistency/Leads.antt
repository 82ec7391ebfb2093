-- ===== src/Merkle/Consistency/Leads.antt =====
-- What a consistency proof holds: the entries that lead the walk to both roots.
use discourse_points_system.Prelude.{
  ℕ, zero, suc, ◌+◌, ◌-◌, ◌*◌, ◌≤◌, ◌<◌, ◌≡◌, refl, sym, ap, ◌∙◌, true, false, arith, List, [], ◌∷◌,
  ◌++◌, Bytes, length, take, drop, length-take, length-drop, if◌then◌else◌,
}
use native.Mathlib.Decide.{dec_lt}
use discourse_points_system.Prelude.Int.{pos}
use discourse_points_system.Prelude.Exec.{ok}
use discourse_points_system.Merkle.{largest_power_of_two_less_than, node_hash, root_of_hashes}
use mathlib.Core.Path.{ap₂}
use discourse_points_system.Merkle.Consistency.{is_power_of_two, skip_ones, walk_rounds, sub_proof}
use discourse_points_system.Merkle.Consistency.Digits.{
  power, power_pos, split_power, split_of_power, is_power_of_two-power, is_power_of_two-above,
}
use discourse_points_system.Merkle.Consistency.Walk.{
  skip_ones-power, skip_ones-Inner, skip_ones-Beside,
}
use discourse_points_system.Merkle.Consistency.Rounds.{rounds-end, rounds-inner, rounds-beside}
use discourse_points_system.Merkle.Consistency.SubProof.{
  head_root, head_root-split, head_root-drop, head_root-fuel, head_root-take, sub_proof-same,
  sub-left, sub-right, append-choice,
}

module _ (sha256 : Bytes → Bytes) where
  -- What the proof that sub_proof makes is: a hash of both trees to start with, left out where it is
  -- the old root, and the entries that lead the walk to both roots.
  pub record Leads (f : ℕ) (hs : List Bytes) (m n : ℕ) : Type 0 where
    pub start : Bytes
    pub rest : List Bytes
    pub whole : sub_proof sha256 f hs m n false ≡ start ∷ rest
    pub short :
        sub_proof sha256 f hs m n true ≡ (if is_power_of_two (pos m) then rest else start ∷ rest)
    pub first : is_power_of_two (pos m) ≡ true → start ≡ head_root sha256 hs m
    pub walked :
        walk_rounds sha256 rest
          (skip_ones (m - 1) (m - 1) (n - 1)).0
          (skip_ones (m - 1) (m - 1) (n - 1)).1
          start
          start
        ≡ ok (head_root sha256 hs m, head_root sha256 hs n)

  Leads-power : (f : ℕ) (hs : List Bytes) (j : ℕ) → 0 < f → Leads f hs (power j) (power j)
  Leads-power f hs j h =
      let (t, w) = sub_proof-same sha256 f hs (power j) h in
      record {
        start = head_root sha256 hs (power j);
        rest = [];
        whole = w;
        short = rw (is_power_of_two-power j) t;
        first = λ p. refl;
        walked =
            rw (skip_ones-power (power j - 1) j (omega arith))
              (rounds-end sha256 0 (head_root sha256 hs (power j)) (head_root sha256 hs (power j)));
      }

  Leads-left :
      (f : ℕ) (hs : List Bytes) (m n j : ℕ)
      → 0 < m
      → m ≤ power j
      → power j < n
      → n ≤ power j * 2
      → n ≤ length hs
      → largest_power_of_two_less_than n ≡ power j
      → Leads f (take (power j) hs) m (power j)
      → Leads (suc f) hs m n
  Leads-left f hs m n j p le lt b q e ih =
      let k = power j in
      let right = root_of_hashes sha256 n (drop k (take n hs)) in
      let (i, at, inner) =
        skip_ones-Inner (m - 1) j (m - 1) (n - 1) (omega arith)
          (omega arith, omega arith, omega arith) in
      let t = skip_ones (m - 1) (m - 1) (n - 1) in
      record {
        start = ih.start;
        rest = ih.rest ++ right ∷ [];
        whole =
            sub-left sha256 f hs m n k false (omega arith) e le
            ∙ ap (λ (l : List Bytes). l ++ right ∷ []) ih.whole;
        short =
            sub-left sha256 f hs m n k true (omega arith) e le
            ∙ ap (λ (l : List Bytes). l ++ right ∷ []) ih.short
            ∙ append-choice (is_power_of_two (pos m)) ih.start ih.rest right;
        first = λ h. ih.first h ∙ head_root-take sha256 hs m k le;
        walked =
            rounds-inner sha256 ih.rest right i t.0 t.1 ih.start ih.start
              (head_root sha256 (take k hs) m) (head_root sha256 (take k hs) k) inner
              (ap (λ (s : ℕ × ℕ). walk_rounds sha256 ih.rest s.0 s.1 ih.start ih.start) (sym at)
                ∙ ih.walked)
            ∙ ap₂ (λ (x y : Bytes). ok (x, y)) (head_root-take sha256 hs m k le)
                (ap₂ (node_hash sha256) (head_root-take sha256 hs k k (omega arith))
                    (head_root-drop sha256 hs n k)
                  ∙ sym (head_root-split sha256 hs n k (omega (arith, power_pos j)) q e lt));
      }

  Leads-right :
      (f : ℕ) (hs : List Bytes) (m n j : ℕ)
      → power j < m
      → m < n
      → n ≤ power j * 2
      → n ≤ length hs
      → largest_power_of_two_less_than n ≡ power j
      → Leads f (drop (power j) hs) (m - power j) (n - power j)
      → Leads (suc f) hs m n
  Leads-right f hs m n j p lt b q e ih =
      let k = power j in
      let left = root_of_hashes sha256 n (take k hs) in
      let r = m - k in
      let same : k + (r - 1) ≡ m - 1 = omega (arith, power_pos j) in
      let same' : k + (n - k - 1) ≡ n - 1 = omega (arith, power_pos j) in
      let ((i, at, below), less) =
        skip_ones-Beside (r - 1) (m - 1) j (r - 1) (n - k - 1) (omega arith)
          (omega (arith, power_pos j)) (omega arith) (omega (arith, power_pos j)) in
      let s = skip_ones (r - 1) (r - 1) (n - k - 1) in
      let whole =
        sub-right sha256 f hs m n k false lt e p
        ∙ ap (λ (l : List Bytes). l ++ left ∷ []) ih.whole in
      let above_power : is_power_of_two (pos m) ≡ false =
        let sum : m ≡ k + r = omega arith in
        rw sum (is_power_of_two-above j r (omega arith) (omega arith)) in
      record {
        start = ih.start;
        rest = ih.rest ++ left ∷ [];
        whole = whole;
        short = rw above_power (
            sub-right sha256 f hs m n k true lt e p
            ∙ ap (λ (l : List Bytes). l ++ left ∷ []) ih.whole);
        first = λ h. absurd (ground (arith, above_power));
        walked =
            ap (λ (t : ℕ × ℕ). walk_rounds sha256 (ih.rest ++ left ∷ []) t.0 t.1 ih.start ih.start)
              (ap₂ (λ (a b : ℕ). skip_ones (m - 1) a b) (sym same) (sym same') ∙ at)
            ∙ rounds-beside sha256 ih.rest left i s.0 s.1 ih.start ih.start
                (head_root sha256 (drop k hs) r) (head_root sha256 (drop k hs) (n - k))
                (omega (arith, less)) below ih.walked
            ∙ ap₂ (λ (x y : Bytes). ok (x, y))
                (ap (λ (l : Bytes). node_hash sha256 l (head_root sha256 (drop k hs) r))
                    (head_root-fuel sha256 hs n k (omega arith))
                  ∙ sym (
                      head_root-split sha256 hs m k (omega (arith, power_pos j)) (omega arith)
                        (split_of_power m j p (omega arith)) p))
                (ap (λ (l : Bytes). node_hash sha256 l (head_root sha256 (drop k hs) (n - k)))
                    (head_root-fuel sha256 hs n k (omega arith))
                  ∙ sym (
                      head_root-split sha256 hs n k (omega (arith, power_pos j)) q e
                        (omega arith)));
      }

  pub Leads-sub :
      (f : ℕ) (hs : List Bytes) (m n : ℕ) → 0 < m → m < n → n ≤ length hs → n ≤ f → Leads f hs m n
  Leads-sub zero hs m n p lt q h = absurd (omega arith)
  Leads-sub (suc f) hs m n p lt q h =
      let (j, e, below, above) = split_power n (omega arith) in
      let left = length-take (power j) hs in
      let right = length-drop (power j) hs in
      elim (dec_lt (power j) m) [
        | yes gt ↦ Leads-right f hs m n j gt lt above q e (
            Leads-sub f (drop (power j) hs) (m - power j) (n - power j) (omega arith) (omega arith)
              (omega (arith, right)) (omega (arith, power_pos j)))
        | no le ↦ elim (dec_lt m (power j)) [
          | yes less ↦ Leads-left f hs m n j p (omega arith) below above q e (
              Leads-sub f (take (power j) hs) m (power j) p less (omega (arith, left))
                (omega arith))
          | no ge ↦
              let same : m ≡ power j = omega arith in
              rw same (
                Leads-left f hs (power j) n j (power_pos j) (omega arith) below above q e
                  (Leads-power f (take (power j) hs) j (omega (arith, power_pos j))))
        ]
      ]
