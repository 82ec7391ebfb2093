-- ===== src/Audit/Download.antt =====
-- cmd/ledger-verify/main.go, step 1: the leaves are downloaded page by page, each page from the
-- index after the last one; a page without leaves is a fatal error. The server is a parameter.
use discourse_points_system.Prelude.{
  ℕ, zero, suc, ◌+◌, ◌-◌, ◌≤◌, ◌<◌, ◌≡◌, refl, sym, ap, ◌∙◌, arith, true, false, Option, none, some,
  List, [], ◌∷◌, ◌++◌, length, take, drop, length-take, length-drop, take-take-min,
  take-append-take, get_last?,
}
use Prim.Native.Nat.{min}
use mathlib.Core.Path.{ap₂, subst}
use native.Mathlib.Decide.{dec_lt}
use discourse_points_system.Prelude.Int.{ℤ, pos, ◌+ℤ◌, ltb_ℤ}
use discourse_points_system.Prelude.Exec.{Result, ok, err}
use discourse_points_system.Ledger.Tx.{Tx}
use discourse_points_system.TxLog.Rows.{InOrder, InOrder-take, InOrder-drop}
use discourse_points_system.TxLog.Range.{page, range_leaves, range_leaves-slice}
use discourse_points_system.Audit.{AuditError, no_leaves}

-- `none` means that the fuel ran out. The index of the next page is not wrapped: it is at most the
-- size of the tree, itself an int64.
unfoldable pub fetch_all_leaves :
    ℕ → (ℤ → ℤ → List Tx) → ℤ → ℤ → List Tx → Option (Result AuditError (List Tx))
fetch_all_leaves zero server from tree_size all = none
fetch_all_leaves (suc f) server from tree_size all = elim (ltb_ℤ from tree_size) [
  | false ↦ some (ok all)
  | true ↦
      let batch = server from tree_size in
      elim (get_last? batch) [
        | none ↦ some (err (no_leaves from))
        | some last ↦ fetch_all_leaves f server (last.leaf_index +ℤ pos 1) tree_size (all ++ batch)
      ]
]

InOrder-last :
    (k : ℕ) (x : Tx) (xs : List Tx)
    → InOrder k (x ∷ xs)
    → (last : Tx) × (get_last? (x ∷ xs) ≡ some last) × (last.leaf_index ≡ pos (k + length xs))
InOrder-last k x [] d = let z : k ≡ k + 0 = omega arith in (x, refl, d.0 ∙ ap pos z)
InOrder-last k x (y ∷ xs) d =
    let (last, e, i) = InOrder-last (suc k) y xs d.1 in
    let z : suc k + length xs ≡ k + suc (length xs) = omega arith in (last, e, i ∙ ap pos z)

-- The index that the next page starts from.
next_index :
    (k : ℕ) (xs : List Tx)
    → InOrder k xs
    → 0 < length xs
    → (last : Tx) × (get_last? xs ≡ some last) × (last.leaf_index +ℤ pos 1 ≡ pos (k + length xs))
unfolding ◌+ℤ◌
next_index k [] d h = absurd (omega arith)
next_index k (x ∷ xs) d h = let (last, e, i) = InOrder-last k x xs d in (last, e, ground (arith, i))

fetch-step :
    (f : ℕ) (server : ℤ → ℤ → List Tx) (from tree_size : ℤ) (all batch : List Tx) (last : Tx)
    → ltb_ℤ from tree_size ≡ true
    → server from tree_size ≡ batch
    → get_last? batch ≡ some last
    → fetch_all_leaves (suc f) server from tree_size all
      ≡ fetch_all_leaves f server (last.leaf_index +ℤ pos 1) tree_size (all ++ batch)
unfolding fetch_all_leaves
fetch-step f server from tree_size all batch last t e g = ground (arith, t, e, g)

module _ (txs : List Tx) (d : InOrder 0 txs) (n : ℕ) (fits : n ≤ length txs) where
  -- A page that starts at `a` is the next stretch of the log, and not empty.
  abbrev stretch : ℕ → ℕ
  stretch a = min page (n - a)

  page-stretch : (a : ℕ) → range_leaves txs (pos a) (pos n) ≡ take (stretch a) (drop a txs)
  page-stretch a = range_leaves-slice a n txs d ∙ take-take-min page (n - a) (drop a txs)

  stretch-length : (a : ℕ) → a ≤ n → length (take (stretch a) (drop a txs)) ≡ stretch a
  stretch-length a h = omega (arith, length-take (stretch a) (drop a txs), length-drop a txs)

  download :
      (f a : ℕ)
      → a ≤ n
      → n - a < f
      → fetch_all_leaves f (range_leaves txs) (pos a) (pos n) (take a txs) ≡ some (ok (take n txs))
  unfolding fetch_all_leaves
  download zero a h fuel = absurd (omega arith)
  download (suc f) a h fuel = elim (dec_lt a n) [
    | no end ↦ let same : a ≡ n = omega arith in ground (arith, ap (λ (k : ℕ). take k txs) same)
    | yes more ↦
        let c = stretch a in
        let batch = take c (drop a txs) in
        let len = stretch-length a h in
        let first : 0 + a ≡ a = omega arith in
        let inside : InOrder a batch =
          InOrder-take a c (drop a txs)
            (subst (λ (k : ℕ). InOrder k (drop a txs)) first (InOrder-drop 0 a txs d)) in
        let (last, e, i) = next_index a batch inside (omega (arith, len)) in
        let z : a + c - a ≡ c = omega arith in
        let next : last.leaf_index +ℤ pos 1 ≡ pos (a + c) = i ∙ ap (λ (k : ℕ). pos (a + k)) len in
        let whole : take a txs ++ batch ≡ take (a + c) txs =
          ap (λ (k : ℕ). take a txs ++ take k (drop a txs)) (sym z)
          ∙ take-append-take a (a + c) txs (omega arith) in
        fetch-step f (range_leaves txs) (pos a) (pos n) (take a txs) batch last (ground arith)
          (page-stretch a) e
        ∙ ap₂ (λ (from : ℤ) (all : List Tx). fetch_all_leaves f (range_leaves txs) from (pos n) all)
            next whole
        ∙ download f (a + c) (omega arith) (omega arith)
  ]

-- The download ends with the whole log: against a server whose table holds the log in the order of
-- its indices, for a tree size up to its length, and with a number of rounds above the tree size,
-- fetchAllLeaves returns the first entries, as many as the tree size.
pub fetch_all_leaves-log :
    (txs : List Tx) (tree_size rounds : ℕ)
    → InOrder 0 txs
    → tree_size ≤ length txs
    → tree_size < rounds
    → fetch_all_leaves rounds (range_leaves txs) (pos 0) (pos tree_size) []
      ≡ some (ok (take tree_size txs))
fetch_all_leaves-log txs tree_size rounds d fits fuel =
    download txs d tree_size fits rounds 0 (omega arith) (omega arith)
