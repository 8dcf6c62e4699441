-- ===== src/Os/Keeps.antt =====
-- Invariants of actions on the system, one rule for each way to build an action.
use cloudcomputing_lab2_http.Prelude.{
  ◌≡◌, refl, Bool, true, false, Option, none, some, if◌then◌else◌,
}
use cloudcomputing_lab2_http.Result.{Result, Fault, ok, fault}
use cloudcomputing_lab2_http.Os.{World, Io, pure, fail, lift, ◌>>=◌, ◌>>◌}

-- A run that ends in a fault with `E`, or in a value with `Q` and a world with `F`.
pub data Gives {A : Type 0} (E : Fault → Type 0) (F : World → Type 0) (Q : A → Type 0)
    : Result (A × World) → Type 0 where
  gives : {a : A} {w : World} → Q a → F w → Gives E F Q (ok (a, w))
  faults : {e : Fault} → E e → Gives E F Q (fault e)

-- From a world with `P`, `m` ends in a fault with `E`, or in a world with `F` and a value with `Q`.
pub record Keeps {A : Type 0} (E : Fault → Type 0) (P F : World → Type 0) (Q : A → Type 0)
    (m : Io A) : Type 0 where
  pub at : (w : World) → P w → Gives E F Q (m w)

-- Nothing is said of the value.
abbrev pub Any : {A : Type 0} → A → Type 0
Any a = Unit

module _ {A : Type 0} {E : Fault → Type 0} {P : World → Type 0} where
  pub Keeps-pure : {Q : A → Type 0} (a : A) → Q a → Keeps E P P Q (pure a)
  Keeps-pure a q = record { at = λ w p. gives q p }

  -- The value is the one that was computed.
  pub Keeps-lift :
      (r : Result A) → ((e : Fault) → r ≡ fault e → E e) → Keeps E P P (λ a. r ≡ ok a) (lift r)
  Keeps-lift (ok a) h = record { at = λ w p. gives refl p }
  Keeps-lift (fault e) h = record { at = λ w p. faults (h e refl) }

module _ {A : Type 0} {E : Fault → Type 0} {P F : World → Type 0} where
  pub Keeps-fail : {Q : A → Type 0} (e : Fault) → E e → Keeps E P F Q (fail e)
  Keeps-fail e h = record { at = λ w p. faults h }

  -- The first branch may use that the test passed.
  pub Keeps-if :
      {Q : A → Type 0} (b : Bool) (m n : Io A)
      → (b ≡ true → Keeps E P F Q m)
      → Keeps E P F Q n
      → Keeps E P F Q (if b then m else n)
  Keeps-if true m n km kn = km refl
  Keeps-if false m n km kn = kn

-- The predicate at the end may be weaker.
module _ {A : Type 0} {E : Fault → Type 0} {M F : World → Type 0} {Q : A → Type 0}
    (over : (w : World) → M w → F w) where
  weaken : {r : Result (A × World)} → Gives E M Q r → Gives E F Q r
  weaken (gives q p) = gives q (over _ p)
  weaken (faults h) = faults h

  pub Keeps-over : {P : World → Type 0} (m : Io A) → Keeps E P M Q m → Keeps E P F Q m
  Keeps-over m k = record { at = λ w p. weaken (k.at w p) }

-- What is known of the value may be forgotten.
module _ {A : Type 0} {E : Fault → Type 0} {F : World → Type 0} {Q : A → Type 0} where
  forget : {r : Result (A × World)} → Gives E F Q r → Gives E F Any r
  forget (gives q p) = gives tt p
  forget (faults h) = faults h

  pub Keeps-Any : {P : World → Type 0} (m : Io A) → Keeps E P F Q m → Keeps E P F Any m
  Keeps-Any m k = record { at = λ w p. forget (k.at w p) }

module _ {A X : Type 0} {E : Fault → Type 0} {P F : World → Type 0} {Q : A → Type 0} where
  pub Keeps-Option :
      (o : Option X) (m : Io A) (k : X → Io A)
      → Keeps E P F Q m
      → ((x : X) → o ≡ some x → Keeps E P F Q (k x))
      → Keeps E P F Q (elim o as (λ _. Io A) [ none ↦ m | some x ↦ k x ])
  Keeps-Option none m k km kk = km
  Keeps-Option (some x) m k km kk = kk x refl

module _ {A B : Type 0} {E : Fault → Type 0} {M F : World → Type 0} {R : A → Type 0}
    {Q : B → Type 0} where
  continue :
      (r : Result (A × World)) (f : A → Io B)
      → Gives E M R r
      → ((a : A) → R a → Keeps E M F Q (f a))
      → Gives E F Q (elim r [ ok (a, w') ↦ f a w' | fault e ↦ fault e ])
  continue r f (gives q p) k = (k _ q).at _ p
  continue r f (faults h) k = faults h

  pub Keeps-bind :
      {P : World → Type 0} (m : Io A) (f : A → Io B)
      → Keeps E P M R m
      → ((a : A) → R a → Keeps E M F Q (f a))
      → Keeps E P F Q (m >>= f)
  Keeps-bind m f km kf = record { at = λ w p. continue (m w) f (km.at w p) kf }

module _ {B : Type 0} {E : Fault → Type 0} {P M F : World → Type 0} {Q : B → Type 0} where
  pub Keeps-then :
      {R : Unit {0} → Type 0} (m : Io (Unit {0})) (k : Io B)
      → Keeps E P M R m
      → Keeps E M F Q k
      → Keeps E P F Q (m >> k)
  Keeps-then m k km kk = Keeps-bind m (λ _. k) km (λ _ _. kk)
