-- ===== src/Cstr/Search.antt =====
-- What the searching functions find.
use cloudcomputing_lab2_http.Prelude.{
  ℕ, ◌≡◌, refl, ◌≢◌, Bool, true, false, none, some, [], ◌∷◌, ◌++◌, arith, length, All,
}
use cloudcomputing_lab2_http.Cstr.{Bytes, strchr, strstr, starts_with, span}

-- No byte of the string is `c`.
abbrev pub Lacks : ℕ → Bytes → Type 0
Lacks c s = All (λ d. d ≢ c) s

-- The first `c` behind a prefix without it.
pub strchr-append : (a b : Bytes) (c : ℕ) → Lacks c a → strchr (a ++ c ∷ b) c ≡ some (length a)
unfolding strchr
strchr-append [] b c h = ground arith
strchr-append (d ∷ a) b c h = ground (arith, strchr-append a b c h.1)

pub strchr-Lacks : (a : Bytes) (c : ℕ) → Lacks c a → strchr a c ≡ none
unfolding strchr
strchr-Lacks [] c h = refl
strchr-Lacks (d ∷ a) c h = ground (arith, strchr-Lacks a c h.1)

pub span-append :
    (p : ℕ → Bool) (a : Bytes) (c : ℕ) (b : Bytes)
    → All (λ d. p d ≡ true) a
    → p c ≡ false
    → span p (a ++ c ∷ b) ≡ (a, c ∷ b)
unfolding span
span-append p [] c b h e = ground arith
span-append p (d ∷ a) c b h e = ground (arith, span-append p a c b h.1 e)

-- No occurrence of `t` in `a ++ s` starts in `a`.
abbrev pub IsClear : Bytes → Bytes → Bytes → Type 0
IsClear t [] s = Unit
IsClear t (c ∷ a) s = (starts_with (c ∷ (a ++ s)) t ≡ false) × IsClear t a s

pub starts_with-append : (t s : Bytes) → starts_with (t ++ s) t ≡ true
unfolding starts_with
starts_with-append [] [] = refl
starts_with-append [] (c ∷ s) = refl
starts_with-append (c ∷ t) s = ground (arith, starts_with-append t s)

strstr_first : (s t : Bytes) → starts_with s t ≡ true → strstr s t ≡ some 0
unfolding strstr
strstr_first [] t h = ground arith
strstr_first (c ∷ s) t h = rw h

-- The first occurrence behind a prefix in which none starts.
pub strstr-IsClear :
    (t a s : Bytes) → IsClear t a (t ++ s) → strstr (a ++ (t ++ s)) t ≡ some (length a)
unfolding strstr
strstr-IsClear t [] s h = strstr_first (t ++ s) t (starts_with-append t s)
strstr-IsClear t (c ∷ a) s h = rw (h.0, strstr-IsClear t a s h.1)
