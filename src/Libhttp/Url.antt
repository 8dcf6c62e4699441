-- ===== src/Libhttp/Url.antt =====
-- `normalize_url` of libhttp.c: repeated slashes are dropped, in place.
use cloudcomputing_lab2_http.Prelude.{
  ℕ, ◌+◌, ◌≡◌, refl, inl, inr, Bool, true, false, not, ◌&&◌, [], ◌∷◌, ◌++◌, arith, ◌==◌, Bool-cases,
  length, length-append, subst, sym,
}
use cloudcomputing_lab2_http.Result.{Result, ok}
use cloudcomputing_lab2_http.Cstr.{Bytes}
use cloudcomputing_lab2_http.Cstr.Compact.{compact, compacted, compact_lem, Runs}
use cloudcomputing_lab2_http.Cstr.Search.{Lacks}

abbrev slash : ℕ → Bool
slash c = c == b'/'

-- The variable of the loop is `prev_char_slash`.
abbrev copied : Bool → ℕ → Bool
copied prev_char_slash c = not (slash c && prev_char_slash)

abbrev after : Bool → ℕ → Bool
after prev_char_slash c = slash c

abbrev not_nul : ℕ → ℕ → Bool
not_nul src c = not (c == 0)

-- On the block of a string, the NUL included: the block that it leaves.
unfoldable pub normalize_url : Bytes → Result Bytes
unfolding compact
normalize_url url = compact copied after not_nul (length url) url 0 0 false

-- The text without repeated slashes.
unfoldable pub squeezed : Bytes → Bytes
unfolding compacted
squeezed url = compacted copied after not_nul false url

runs : (s : Bytes) (i : ℕ) → Lacks 0 s → Runs copied after not_nul i s
runs [] i h = refl
runs (c ∷ s) i h = (ground arith, runs s (i + 1) h.1)

-- The loop ends inside the block, and leaves the squeezed text in it.
pub normalize_url-block :
    (s tail : Bytes)
    → Lacks 0 s
    → (junk : Bytes) × (normalize_url (s ++ 0 ∷ tail) ≡ ok (squeezed s ++ 0 ∷ junk))
unfolding normalize_url squeezed
normalize_url-block s tail h =
    compact_lem copied after not_nul false s tail (length (s ++ 0 ∷ tail))
      (omega (arith, length-append {0} s (0 ∷ tail))) (runs s 0 h)

pub normalize_url-squeezed :
    (s : Bytes)
    → Lacks 0 s
    → (junk : Bytes) × (normalize_url (s ++ 0 ∷ []) ≡ ok (squeezed s ++ 0 ∷ junk))
normalize_url-squeezed s h = normalize_url-block s [] h

-- No two slashes are neighbours; `prev` says that one stands in front of the text.
abbrev IsSqueezed : Bool → Bytes → Type 0
IsSqueezed prev [] = Unit
IsSqueezed prev (c ∷ s) = ((slash c && prev) ≡ false) × IsSqueezed (slash c) s

compacted-IsSqueezed :
    (prev : Bool) (s : Bytes) → IsSqueezed prev (compacted copied after not_nul prev s)
unfolding compacted
compacted-IsSqueezed prev [] = tt
compacted-IsSqueezed false (c ∷ s) = ground (arith, compacted-IsSqueezed (slash c) s)
compacted-IsSqueezed true (c ∷ s) = ground (arith, compacted-IsSqueezed (slash c) s)

IsSqueezed-fixed :
    (prev : Bool) (s : Bytes) → IsSqueezed prev s → compacted copied after not_nul prev s ≡ s
unfolding compacted
IsSqueezed-fixed prev [] h = refl
IsSqueezed-fixed prev (c ∷ s) h = ground (arith, IsSqueezed-fixed (slash c) s)

compacted-Lacks :
    (prev : Bool) (s : Bytes) → Lacks 0 s → Lacks 0 (compacted copied after not_nul prev s)
unfolding compacted
compacted-Lacks prev [] h = tt
compacted-Lacks prev (c ∷ s) h = elim (Bool-cases (copied prev c)) [
  | inl e ↦ rw e (h.0, compacted-Lacks (slash c) s h.1)
  | inr e ↦ rw e (compacted-Lacks (slash c) s h.1)
]

pub squeezed-Lacks : (s : Bytes) → Lacks 0 s → Lacks 0 (squeezed s)
unfolding squeezed
squeezed-Lacks s h = compacted-Lacks false s h

-- A text and what is left of it: every run of slashes becomes one slash, all else stays.
pub data Collapses : Bytes → Bytes → Type 0 where
  nothing_left : Collapses [] []
  other_byte : (c : ℕ) (s t : Bytes) → ¬ (c ≡ b'/') → Collapses s t → Collapses (c ∷ s) (c ∷ t)
  last_slash : Collapses (b'/' ∷ []) (b'/' ∷ [])
  before_other :
      (c : ℕ) (s t : Bytes)
      → ¬ (c ≡ b'/')
      → Collapses (c ∷ s) t
      → Collapses (b'/' ∷ c ∷ s) (b'/' ∷ t)
  before_slash : (s t : Bytes) → Collapses (b'/' ∷ s) t → Collapses (b'/' ∷ b'/' ∷ s) t

-- Behind a slash, the loop leaves what follows the one slash that stays.
squeezed-Collapses :
    (s : Bytes)
    → Collapses s (compacted copied after not_nul false s)
      × Collapses (b'/' ∷ s) (b'/' ∷ compacted copied after not_nul true s)
unfolding compacted
squeezed-Collapses [] = (nothing_left, last_slash)
squeezed-Collapses (c ∷ s) =
    let (plain, behind) = squeezed-Collapses s in
    elim (Bool-cases (slash c)) [
      | inl e ↦
          let is : c ≡ b'/' = ground arith in
          subst
            (λ x.
              Collapses (x ∷ s) (compacted copied after not_nul false (x ∷ s))
              × Collapses (b'/' ∷ x ∷ s) (b'/' ∷ compacted copied after not_nul true (x ∷ s)))
            (sym is) (behind, before_slash s _ behind)
      | inr e ↦
          let other : ¬ (c ≡ b'/') = ground arith in
          rw e
            (other_byte c s _ other plain, before_other c s _ other (other_byte c s _ other plain))
    ]

-- The loop of `normalize_url` stays inside the block of a string that holds no NUL. In the text that
-- it leaves every run of slashes became one slash, and all else stayed. A second run, on that text,
-- leaves the same text.
pub normalize_url_lem :
    (s : Bytes)
    → Lacks 0 s
    → (url junk again : Bytes) × (normalize_url (s ++ 0 ∷ []) ≡ ok (url ++ 0 ∷ junk))
      × Collapses s url
      × (normalize_url (url ++ 0 ∷ []) ≡ ok (url ++ 0 ∷ again))
unfolding squeezed
normalize_url_lem s h =
    let (junk, e) = normalize_url-squeezed s h in
    let (again, e') = normalize_url-squeezed (squeezed s) (squeezed-Lacks s h) in
    (
      squeezed s,
      junk,
      again,
      e,
      (squeezed-Collapses s).0,
      subst (λ text. normalize_url (squeezed s ++ 0 ∷ []) ≡ ok (text ++ 0 ∷ again))
          (IsSqueezed-fixed false (squeezed s) (compacted-IsSqueezed false s)) e',
    )
