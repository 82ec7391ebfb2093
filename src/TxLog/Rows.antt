-- ===== src/TxLog/Rows.antt =====
-- The rows of a log in order: the query gives a stretch of them, and the loop takes them in.
use mathlib.Core.List.{append_assoc, append-nil}
use discourse_points_system.Prelude.{
  ℕ, zero, suc, ◌+◌, ◌-◌, ◌≤◌, ◌<◌, ◌≡◌, ◌⊎◌, refl, sym, ap, ◌∙◌, arith, List, [], ◌∷◌, ◌++◌, Bytes,
  map, length, take, drop, take-nil, drop-nil, inl, inr, some,
}
use native.Mathlib.Decide.{dec_lt}
use discourse_points_system.Prelude.Int.{pos, ◌+ℤ◌}
use discourse_points_system.Prelude.Exec.{ok}
use discourse_points_system.Ledger.Tx.{Tx}
use discourse_points_system.Merkle.{leaf_hash}
use discourse_points_system.TxLog.{
  max_index, current_tree_size, insert_row, select_range, read_rows,
}

-- The entries stand in the order of their indices, the first of which is `k`.
abbrev pub InOrder : ℕ → List Tx → Type 0
InOrder k [] = Unit {0}
InOrder k (tx ∷ txs) = (tx.leaf_index ≡ pos k) × InOrder (suc k) txs

abbrev pub hashes : List Tx → List Bytes
hashes = map (λ (tx : Tx). tx.tx_hash)

pub InOrder-append_one :
    (k : ℕ) (txs : List Tx) (tx : Tx)
    → InOrder k txs
    → tx.leaf_index ≡ pos (k + length txs)
    → InOrder k (txs ++ tx ∷ [])
InOrder-append_one k [] tx d e = (let z : k + 0 ≡ k = omega arith in e ∙ ap pos z, tt)
InOrder-append_one k (x ∷ txs) tx d e =
    let z : k + suc (length txs) ≡ suc k + length txs = omega arith in
    (d.0, InOrder-append_one (suc k) txs tx d.1 (e ∙ ap pos z))

pub InOrder-take : (k n : ℕ) (txs : List Tx) → InOrder k txs → InOrder k (take n txs)
InOrder-take k zero txs d = tt
InOrder-take k (suc n) [] d = tt
InOrder-take k (suc n) (x ∷ txs) d = (d.0, InOrder-take (suc k) n txs d.1)

pub InOrder-drop : (k n : ℕ) (txs : List Tx) → InOrder k txs → InOrder (k + n) (drop n txs)
InOrder-drop k zero txs d = let z : k ≡ k + 0 = omega arith in rw (← z) d
InOrder-drop k (suc n) [] d = tt
InOrder-drop k (suc n) (x ∷ txs) d =
    let z : suc k + n ≡ k + suc n = omega arith in rw (← z) (InOrder-drop (suc k) n txs d.1)

insert_row-first :
    (k : ℕ) (tx : Tx) (rows : List Tx)
    → tx.leaf_index ≡ pos k
    → InOrder (suc k) rows
    → insert_row tx rows ≡ tx ∷ rows
unfolding insert_row
insert_row-first k tx [] e d = refl
insert_row-first k tx (r ∷ rows) e d = ground (arith, e, d.0)

select-in :
    (k a b : ℕ) (tx : Tx) (txs : List Tx)
    → tx.leaf_index ≡ pos k
    → a ≤ k
    → k < b
    → select_range (tx ∷ txs) (pos a) (pos b) ≡ insert_row tx (select_range txs (pos a) (pos b))
unfolding select_range
select-in k a b tx txs e h h' = ground (arith, e)

select-out :
    (k a b : ℕ) (tx : Tx) (txs : List Tx)
    → tx.leaf_index ≡ pos k
    → (k < a) ⊎ (b ≤ k)
    → select_range (tx ∷ txs) (pos a) (pos b) ≡ select_range txs (pos a) (pos b)
unfolding select_range
select-out k a b tx txs e (inl h) = ground (arith, e)
select-out k a b tx txs e (inr h) = ground (arith, e)

select-none :
    (k a b : ℕ) (txs : List Tx) → InOrder k txs → b ≤ k → select_range txs (pos a) (pos b) ≡ []
unfolding select_range
select-none k a b [] d h = refl
select-none k a b (x ∷ txs) d h =
    select-out k a b x txs d.0 (inr h) ∙ select-none (suc k) a b txs d.1 (omega arith)

select-from :
    (k a b : ℕ) (txs : List Tx)
    → InOrder k txs
    → a ≤ k
    → select_range txs (pos a) (pos b) ≡ take (b - k) txs
unfolding select_range
select-from k a b [] d h = sym (take-nil (b - k))
select-from k a b (x ∷ txs) d h = elim (dec_lt k b) [
  | yes lt ↦
      let e : b - k ≡ suc (b - suc k) = omega arith in
      select-in k a b x txs d.0 h lt
      ∙ ap (insert_row x) (select-from (suc k) a b txs d.1 (omega arith))
      ∙ insert_row-first k x (take (b - suc k) txs) d.0 (InOrder-take (suc k) (b - suc k) txs d.1)
      ∙ ap (λ (n : ℕ). take n (x ∷ txs)) (sym e)
  | no ge ↦
      let e : b - k ≡ 0 = omega arith in
      select-none k a b (x ∷ txs) d (omega arith) ∙ ap (λ (n : ℕ). take n (x ∷ txs)) (sym e)
]

-- The query for a stretch gives that stretch.
pub select_range-slice :
    (k a b : ℕ) (txs : List Tx)
    → InOrder k txs
    → k ≤ a
    → select_range txs (pos a) (pos b) ≡ take (b - a) (drop (a - k) txs)
unfolding select_range
select_range-slice k a b [] d h =
    sym (take-nil (b - a)) ∙ ap (take (b - a)) (sym (drop-nil (a - k)))
select_range-slice k a b (x ∷ txs) d h = elim (dec_lt k a) [
  | yes lt ↦
      let e : a - k ≡ suc (a - suc k) = omega arith in
      select-out k a b x txs d.0 (inl lt)
      ∙ select_range-slice (suc k) a b txs d.1 lt
      ∙ ap (λ (n : ℕ). take (b - a) (drop n (x ∷ txs))) (sym e)
  | no ge ↦
      let same : a ≡ k = omega arith in
      let e : a - k ≡ 0 = omega arith in
      select-from k a b (x ∷ txs) d (omega arith)
      ∙ ap (λ (n : ℕ). take (b - n) (x ∷ txs)) (sym same)
      ∙ ap (λ (n : ℕ). take (b - a) (drop n (x ∷ txs))) (sym e)
]

max_index-last :
    (k : ℕ) (tx : Tx) (txs : List Tx)
    → InOrder k (tx ∷ txs)
    → max_index (tx ∷ txs) ≡ some (pos (k + length txs))
unfolding max_index
max_index-last k tx [] d = let z : k ≡ k + 0 = omega arith in ap some (d.0 ∙ ap pos z)
max_index-last k tx (x ∷ txs) d = ground (arith, d.0, max_index-last (suc k) x txs d.1)

read_rows-step :
    (sha256 : Bytes → Bytes) (next : ℕ) (r : Tx) (rows : List Tx)
    (tx_hashes leaf_hashes : List Bytes)
    → r.leaf_index ≡ pos next
    → read_rows sha256 next (r ∷ rows) tx_hashes leaf_hashes
      ≡ read_rows sha256
          (suc next)
          rows
          (tx_hashes ++ r.tx_hash ∷ [])
          (leaf_hashes ++ leaf_hash sha256 r.tx_hash ∷ [])
unfolding read_rows
read_rows-step sha256 next r rows ts ls e = ground (arith, e)

-- Rows in order, which start at the next index, are all taken in.
pub read_rows-InOrder :
    (sha256 : Bytes → Bytes) (next : ℕ) (rows : List Tx) (tx_hashes leaf_hashes : List Bytes)
    → InOrder next rows
    → read_rows sha256 next rows tx_hashes leaf_hashes
      ≡ ok (
        next + length rows,
        tx_hashes ++ hashes rows,
        leaf_hashes ++ map (leaf_hash sha256) (hashes rows),
      )
unfolding read_rows
read_rows-InOrder sha256 next [] ts ls d =
    let z : next + 0 ≡ next = omega arith in rw (z, append-nil ts, append-nil ls) refl
read_rows-InOrder sha256 next (r ∷ rows) ts ls d =
    let z : suc next + length rows ≡ next + suc (length rows) = omega arith in
    read_rows-step sha256 next r rows ts ls d.0
    ∙ read_rows-InOrder sha256 (suc next) rows (ts ++ r.tx_hash ∷ [])
        (ls ++ leaf_hash sha256 r.tx_hash ∷ []) d.1
    ∙ rw
        (
          z,
          append_assoc ts (r.tx_hash ∷ []) (hashes rows),
          append_assoc ls (leaf_hash sha256 r.tx_hash ∷ []) (map (leaf_hash sha256) (hashes rows)),
        )
        refl

pub current_tree_size-length :
    (txs : List Tx) → InOrder 0 txs → current_tree_size txs ≡ pos (length txs)
unfolding current_tree_size ◌+ℤ◌
current_tree_size-length [] d = refl
current_tree_size-length (tx ∷ txs) d = ground (arith, max_index-last 0 tx txs d)
