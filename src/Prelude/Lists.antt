-- ===== src/Prelude/Lists.antt =====
-- Lists measured and indexed by native numbers, under the library's names.
use Prim.Native.Nat.{ℕ, zero, suc, ◌+◌, ◌-◌, ◌≤◌, min}
use mathlib.Core.Path.{◌≡◌, refl, ap}
use mathlib.Core.List.{List, [], ◌∷◌, ◌++◌}
use mathlib.Core.Option.{Option, none, some}
use native.Mathlib.Omega.{arith}

module _ {ℓ} {A : Type ℓ} where
  abbrev pub length : List A → ℕ
  length [] = 0
  length (x ∷ xs) = suc (length xs)

  abbrev pub get_elem? : List A → ℕ → Option A
  get_elem? [] i = none
  get_elem? (x ∷ xs) zero = some x
  get_elem? (x ∷ xs) (suc i) = get_elem? xs i

  -- A write out of bounds changes nothing.
  abbrev pub set : List A → ℕ → A → List A
  set [] i v = []
  set (x ∷ xs) zero v = v ∷ xs
  set (x ∷ xs) (suc i) v = x ∷ set xs i v

  abbrev pub take : ℕ → List A → List A
  take zero xs = []
  take (suc n) [] = []
  take (suc n) (x ∷ xs) = x ∷ take n xs

  abbrev pub drop : ℕ → List A → List A
  drop zero xs = xs
  drop (suc n) [] = []
  drop (suc n) (x ∷ xs) = drop n xs

  abbrev pub replicate : ℕ → A → List A
  replicate zero a = []
  replicate (suc n) a = a ∷ replicate n a

  pub length-append : (xs ys : List A) → length (xs ++ ys) ≡ length xs + length ys
  length-append [] ys = omega arith
  length-append (x ∷ xs) ys = omega (arith, length-append xs ys)

module _ {ℓ} {A : Type ℓ} where
  pub length-set : (xs : List A) (i : ℕ) (v : A) → length (set xs i v) ≡ length xs
  length-set [] i v = refl
  length-set (x ∷ xs) zero v = refl
  length-set (x ∷ xs) (suc i) v = ap suc (length-set xs i v)

  pub take-append-drop : (n : ℕ) (xs : List A) → take n xs ++ drop n xs ≡ xs
  take-append-drop zero xs = refl
  take-append-drop (suc n) [] = refl
  take-append-drop (suc n) (x ∷ xs) = rw (take-append-drop n xs)

  pub length-take : (n : ℕ) (xs : List A) → length (take n xs) ≡ min n (length xs)
  length-take zero xs = omega arith
  length-take (suc n) [] = omega arith
  length-take (suc n) (x ∷ xs) = omega (arith, length-take n xs)

  pub length-drop : (n : ℕ) (xs : List A) → length (drop n xs) ≡ length xs - n
  length-drop zero xs = omega arith
  length-drop (suc n) [] = omega arith
  length-drop (suc n) (x ∷ xs) = omega (arith, length-drop n xs)

  pub take-append : (xs ys : List A) → take (length xs) (xs ++ ys) ≡ xs
  take-append [] ys = refl
  take-append (x ∷ xs) ys = rw (take-append xs ys)

  pub drop-suc-append :
      (xs : List A) (y : A) (ys : List A) → drop (suc (length xs)) (xs ++ y ∷ ys) ≡ ys
  drop-suc-append [] y ys = refl
  drop-suc-append (x ∷ xs) y ys = drop-suc-append xs y ys

  -- A drop into what stands behind a prefix.
  pub drop-past : (xs ys : List A) (n k : ℕ) → n ≡ length xs + k → drop n (xs ++ ys) ≡ drop k ys
  drop-past [] ys n k e = let e' : n ≡ k = omega arith in rw e'
  drop-past (x ∷ xs) ys zero k e = absurd (omega arith)
  drop-past (x ∷ xs) ys (suc n) k e = drop-past xs ys n k (omega arith)

  pub take-take-drop :
      (xs : List A) (n m k : ℕ) → k ≡ n + m → take n xs ++ take m (drop n xs) ≡ take k xs
  take-take-drop xs zero m k e = let e' : m ≡ k = omega arith in rw e'
  take-take-drop xs (suc n) m zero e = absurd (omega arith)
  take-take-drop [] (suc n) zero (suc k) e = refl
  take-take-drop [] (suc n) (suc m) (suc k) e = refl
  take-take-drop (x ∷ xs) (suc n) m (suc k) e = rw (take-take-drop xs n m k (omega arith))

  pub drop-drop : (xs : List A) (n m k : ℕ) → k ≡ n + m → drop m (drop n xs) ≡ drop k xs
  drop-drop xs zero m k e = let e' : m ≡ k = omega arith in rw e'
  drop-drop xs (suc n) m zero e = absurd (omega arith)
  drop-drop [] (suc n) zero (suc k) e = refl
  drop-drop [] (suc n) (suc m) (suc k) e = refl
  drop-drop (x ∷ xs) (suc n) m (suc k) e = drop-drop xs n m k (omega arith)

  pub take-append-drop-length :
      (n : ℕ) (xs : List A) → take n xs ++ drop (length (take n xs)) xs ≡ xs
  take-append-drop-length zero xs = refl
  take-append-drop-length (suc n) [] = refl
  take-append-drop-length (suc n) (x ∷ xs) = rw (take-append-drop-length n xs)

  pub take-eq-nil : (n : ℕ) (xs : List A) → take (suc n) xs ≡ [] → xs ≡ []
  take-eq-nil n [] h = refl
  take-eq-nil n (x ∷ xs) h = cc

  pub take-exact : (n : ℕ) (xs ys : List A) → length xs ≡ n → take n (xs ++ ys) ≡ xs
  take-exact n xs ys e = rw (← e) (take-append xs ys)

  pub take-all : (xs : List A) (n : ℕ) → length xs ≤ n → take n xs ≡ xs
  take-all [] zero h = refl
  take-all [] (suc n) h = refl
  take-all (x ∷ xs) zero h = elim h [ ]
  take-all (x ∷ xs) (suc n) h = rw (take-all xs n (omega arith))

  pub drop-append : (xs ys : List A) → drop (length xs) (xs ++ ys) ≡ ys
  drop-append [] ys = refl
  drop-append (x ∷ xs) ys = drop-append xs ys

  pub length-replicate : (n : ℕ) (a : A) → length (replicate n a) ≡ n
  length-replicate zero a = refl
  length-replicate (suc n) a = ap suc (length-replicate n a)

  -- The element behind a prefix, read and written.
  pub get_elem?-append : (xs ys : List A) (y : A) → get_elem? (xs ++ y ∷ ys) (length xs) ≡ some y
  get_elem?-append [] ys y = refl
  get_elem?-append (x ∷ xs) ys y = get_elem?-append xs ys y

  pub set-append : (xs ys : List A) (y z : A) → set (xs ++ y ∷ ys) (length xs) z ≡ xs ++ z ∷ ys
  set-append [] ys y z = refl
  set-append (x ∷ xs) ys y z = rw (set-append xs ys y z)

-- A predicate of every element.
abbrev pub All {ℓ κ} : {A : Type ℓ} → (A → Type κ) → List A → Type κ
All holds [] = Unit
All holds (x ∷ xs) = holds x × All holds xs

module _ {ℓ κ} {A : Type ℓ} (holds : A → Type κ) where
  -- What holds of every element of a list holds of the elements of its parts.
  pub All-split :
      (front back : List A) → All holds (front ++ back) → All holds front × All holds back
  All-split [] back every = (tt, every)
  All-split (first ∷ front) back every =
      let (f, b) = All-split front back every.1 in ((every.0, f), b)

  pub All-append :
      (front back : List A) → All holds front → All holds back → All holds (front ++ back)
  All-append [] back f b = b
  All-append (first ∷ front) back f b = (f.0, All-append front back f.1 b)
