-- ===== src/Cstr/Equal.antt =====
-- Equality of C strings.
use cloudcomputing_lab2_http.Prelude.{◌≡◌, refl, ◌↔◌, true, [], ◌∷◌, arith}
use cloudcomputing_lab2_http.Cstr.{Bytes, strcmp_eq}

pub strcmp_eq_iff : (s t : Bytes) → (strcmp_eq s t ≡ true) ↔ (s ≡ t)
unfolding strcmp_eq
strcmp_eq_iff [] [] = (λ _. refl, λ _. refl)
strcmp_eq_iff [] (d ∷ t) = ground arith
strcmp_eq_iff (c ∷ s) [] = ground arith
strcmp_eq_iff (c ∷ s) (d ∷ t) = ground (arith, strcmp_eq_iff s t)

pub strcmp_eq_self : (s : Bytes) → strcmp_eq s s ≡ true
strcmp_eq_self s = (strcmp_eq_iff s s).1 refl
