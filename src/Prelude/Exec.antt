-- ===== src/Prelude/Exec.antt =====
-- Code that changes a state and may fail: what was written before an error stays written, so the
-- state comes back beside the error too.
use mathlib.Core.Bool.{Bool, true, false}
use mathlib.Core.Option.{Option, none, some}
use mathlib.Core.Path.{◌≡◌, refl}
use mathlib.Core.Logic.{◌⊎◌, inl, inr}
use native.Mathlib.Omega.{arith}

pub data Result {ℓ κ} (E : Type ℓ) (A : Type κ) : Type (ℓ ⊔ κ) where
  ok : A → Result E A
  err : E → Result E A

abbrev pub Exec : Type 0 → Type 0 → Type 0 → Type 0
Exec E S A = S → Result E A × S

module _ {E S A : Type 0} where
  unfoldable pub pure : A → Exec E S A
  pure a s = (ok a, s)

  unfoldable pub fail : E → Exec E S A
  fail e s = (err e, s)

  -- `if v == nil { return e }`
  unfoldable pub or_fail : Option A → E → Exec E S A
  or_fail none e s = (err e, s)
  or_fail (some a) e s = (ok a, s)

  -- `fmt.Errorf("…: %w", err)`: an error is passed on inside another.
  unfoldable pub map_err : (E → E) → Exec E S A → Exec E S A
  map_err w m s = let (r, s') = m s in (elim r [ ok a ↦ ok a | err e ↦ err (w e) ], s')

module _ {E S : Type 0} where
  -- `if c { return e }`
  unfoldable pub fail_if : Bool → E → Exec E S (Unit {0})
  fail_if true e s = (err e, s)
  fail_if false e s = (ok tt, s)

module _ {E S A B : Type 0} where
  abbrev continue : Result E A → (A → Exec E S B) → Exec E S B
  continue (ok a) f s = f a s
  continue (err e) f s = (err e, s)

  infixl 5 ◌>>=◌ ◌>>◌
  -- Opening this opens the actions above too.
  unfoldable pub ◌>>=◌ : Exec E S A → (A → Exec E S B) → Exec E S B
  unfolding pure fail or_fail map_err fail_if
  ◌>>=◌ m f s = let (r, s') = m s in continue r f s'

  abbrev pub ◌>>◌ : Exec E S A → Exec E S B → Exec E S B
  m >> k = m >>= λ _. k

  -- The inversion rules hand what a success shows to a continuation.
  -- A block that succeeds ran its first action with success, then the rest.
  pub bind_inv :
      (m : Exec E S A) {f : A → Exec E S B} {s : S} {b : B} {s' : S} {C : Type 0}
      → (m >>= f) s ≡ (ok b, s')
      → ((a : A) (s₁ : S) → m s ≡ (ok a, s₁) → f a s₁ ≡ (ok b, s') → C)
      → C
  unfolding ◌>>=◌
  bind_inv m {f} {s} {b} {s'} {C} h k = go (m s) refl h
    where
      go : (r : Result E A × S) → m s ≡ r → continue r.0 f r.1 ≡ (ok b, s') → C
      go (ok a, s₁) e h = k a s₁ e h
      go (err x, s₁) e h = absurd (ground arith)

  -- The same where the first action reads: it is known to succeed and change nothing.
  pub read_inv :
      (w : E → E) (m : Exec E S A) (f : A → Exec E S B) {s : S} {a : A} {r : Result E B × S}
      → m s ≡ (ok a, s)
      → (map_err w m >>= f) s ≡ r
      → f a s ≡ r
  unfolding ◌>>=◌
  read_inv w m f e h = ground arith

  pub or_fail_inv :
      {o : Option A} (e : E) (f : A → Exec E S B) {s : S} {b : B} {s' : S} {C : Type 0}
      → (or_fail o e >>= f) s ≡ (ok b, s')
      → ((a : A) → o ≡ some a → f a s ≡ (ok b, s') → C)
      → C
  unfolding ◌>>=◌
  or_fail_inv {o = none} e f h k = absurd (ground arith)
  or_fail_inv {o = some a} e f h k = k a refl h

module _ {E S B : Type 0} where
  pub fail_if_inv :
      {c : Bool} (e : E) (m : Exec E S B) {s : S} {b : B} {s' : S} {C : Type 0}
      → (fail_if c e >> m) s ≡ (ok b, s')
      → (c ≡ false → m s ≡ (ok b, s') → C)
      → C
  unfolding ◌>>=◌
  fail_if_inv {c = true} e m h k = absurd (ground arith)
  fail_if_inv {c = false} e m h k = k refl h

-- To split on a computed result and keep the equation.
pub Result-cases {ℓ κ} :
    {E : Type ℓ} {A : Type κ} (r : Result E A) → ((a : A) × (r ≡ ok a)) ⊎ ((e : E) × (r ≡ err e))
Result-cases (ok a) = inl (a, refl)
Result-cases (err e) = inr (e, refl)
