-- ===== src/Api/Ids.antt =====
-- normalizeDiscourseIDs against a reference: the first occurrence of each id, in order.
use discourse_points_system.Prelude.{
  ℕ, ◌≤◌, ◌<◌, none, some, List, [], ◌∷◌, length, ◌==◌, ◌≡◌, refl, arith, Option-cases, inl, inr,
  if◌then◌else◌,
}
use discourse_points_system.Prelude.Int.{ℤ, pos, ◌≤ℤ◌, int_eq, eqb_ℤ_iff}
use discourse_points_system.Prelude.Dict.{Dict, lookup, insert, lookup-insert}
use discourse_points_system.Api.{unique_ids, normalize_discourse_ids}

-- A list without an id.
abbrev pub remove : ℤ → List ℤ → List ℤ
remove x [] = []
remove x (y ∷ ys) = let rest = remove x ys in if y == x then rest else y ∷ rest

-- The first occurrence of each id.
abbrev pub distinct : List ℤ → List ℤ
distinct [] = []
distinct (x ∷ xs) = x ∷ remove x (distinct xs)

-- No id is negative.
abbrev pub AreIds : List ℤ → Type 0
AreIds [] = Unit
AreIds (x ∷ xs) = (pos 0 ≤ℤ x) × AreIds xs

-- A list without the ids that were seen.
abbrev unseen : Dict ℤ (Unit {0}) → List ℤ → List ℤ
unseen seen [] = []
unseen seen (y ∷ ys) =
    let rest = unseen seen ys in elim (lookup y seen) [ some _ ↦ rest | none ↦ y ∷ rest ]

unseen-empty : (ys : List ℤ) → unseen [] ys ≡ ys
unfolding lookup
unseen-empty [] = refl
unseen-empty (y ∷ ys) = ground (arith, unseen-empty ys)

unseen-insert :
    (x : ℤ) (seen : Dict ℤ (Unit {0})) (ys : List ℤ)
    → unseen (insert x tt seen) ys ≡ unseen seen (remove x ys)
unseen-insert x seen [] = refl
unseen-insert x seen (y ∷ ys) = ground (arith, lookup-insert y x tt seen, unseen-insert x seen ys)

unseen-remove :
    (x : ℤ) (u : Unit {0}) (seen : Dict ℤ (Unit {0})) (ys : List ℤ)
    → lookup x seen ≡ some u
    → unseen seen (remove x ys) ≡ unseen seen ys
unseen-remove x u seen [] known = refl
unseen-remove x u seen (y ∷ ys) known =
    ground (arith, eqb_ℤ_iff y x, unseen-remove x u seen ys known)

unique_ids-distinct :
    (raw : List ℤ) (seen : Dict ℤ (Unit {0}))
    → AreIds raw
    → unique_ids raw seen ≡ some (unseen seen (distinct raw))
unfolding unique_ids
unique_ids-distinct [] seen h = refl
unique_ids-distinct (x ∷ xs) seen h = elim (Option-cases (lookup x seen)) [
  | inr (u, known) ↦
      ground (arith, unique_ids-distinct xs seen h.1, unseen-remove x u seen (distinct xs) known)
  | inl new ↦
      ground
        (arith, unique_ids-distinct xs (insert x tt seen) h.1, unseen-insert x seen (distinct xs))
]

-- A list that is not empty, not too long and without a negative id is accepted.
pub normalize-distinct :
    (raw : List ℤ) (max : ℕ)
    → 0 < length raw
    → length raw ≤ max
    → AreIds raw
    → normalize_discourse_ids raw max ≡ some (distinct raw)
unfolding normalize_discourse_ids
normalize-distinct [] max some_id short h = absurd (omega arith)
normalize-distinct (x ∷ xs) max some_id short h =
    ground (arith, unique_ids-distinct (x ∷ xs) [] h, unseen-empty (distinct (x ∷ xs)))
