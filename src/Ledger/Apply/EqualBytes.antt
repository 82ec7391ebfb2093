-- ===== src/Ledger/Apply/EqualBytes.antt =====
-- equalBytes is equality.
use discourse_points_system.Prelude.{true, [], ◌∷◌, Bytes, length, ◌≡◌, ◌↔◌, refl, arith}
use discourse_points_system.Ledger.Apply.{equal_from, equal_bytes}

equal_from→eq : (a b : Bytes) → length a ≡ length b → equal_from a b ≡ true → a ≡ b
unfolding equal_from
equal_from→eq [] [] h e = refl
equal_from→eq [] (y ∷ b) h e = absurd (omega arith)
equal_from→eq (x ∷ a) [] h e = absurd (omega arith)
equal_from→eq (x ∷ a) (y ∷ b) h e = ground (arith, equal_from→eq a b)

equal_from_refl : (a : Bytes) → equal_from a a ≡ true
unfolding equal_from
equal_from_refl [] = refl
equal_from_refl (x ∷ a) = ground (arith, equal_from_refl a)

-- equalBytes returns true exactly for equal byte strings.
pub equal_bytes_iff : (a b : Bytes) → (equal_bytes a b ≡ true) ↔ (a ≡ b)
unfolding equal_bytes
equal_bytes_iff a b =
    ((λ h. ground (arith, equal_from→eq a b)), (λ e. rw e (ground (arith, equal_from_refl b))))
