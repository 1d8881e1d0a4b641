-- ===== src/Prelude/Triple.antt =====
-- What holds after a call, of its value and the state if it returns, and of the state if it
-- throws, given what holds before.
use mathlib.Core.Path.{◌≡◌, ◌∙◌, refl}
use sec_search.Prelude.Outcome.{Result, ok, throw}
use sec_search.Prelude.Action.{Action, ◌>>=◌}

module _ {S A : Type 0} where
  abbrev pub Post : (A → S → Type 0) → (S → Type 0) → Result A × S → Type 0
  Post P F (ok a, s) = P a s
  Post P F (throw e, s) = F s

  abbrev pub Triple : (S → Type 0) → Action S A → (A → S → Type 0) → (S → Type 0) → Type 0
  Triple Pre m P F = (s : S) → Pre s → Post P F (m s)

  pub Post-weaken :
      (P Q : A → S → Type 0) (F G : S → Type 0) (r : Result A × S)
      → ((a : A) (s : S) → P a s → Q a s)
      → ((s : S) → F s → G s)
      → Post P F r
      → Post Q G r
  Post-weaken P Q F G (ok a, s) p f h = p a s h
  Post-weaken P Q F G (throw e, s) p f h = f s h

module _ {S A B : Type 0} where
  pub Triple-bind :
      (Pre : S → Type 0) (m : Action S A) (Q : A → S → Type 0) (F : S → Type 0) (f : A → Action S B)
      (P : B → S → Type 0)
      → Triple Pre m Q F
      → ((a : A) → Triple (Q a) (f a) P F)
      → Triple Pre (m >>= f) P F
  Triple-bind Pre m Q F f P h k s pre = through (m s) (h s pre)
    where
      through : (r : Result A × S) → Post Q F r → Post P F (((λ s'. r) >>= f) s)
      through (ok a, s') q = k a s' q
      through (throw e, s') q = q

-- A measure of the state that a call leaves alone, whether it returns or throws.
abbrev pub Keeps : {S A X : Type 0} → (S → X) → Action S A → Type 0
Keeps {S} f m = (s : S) → f (m s).1 ≡ f s

pub Keeps-bind :
    {S A B X : Type 0} (f : S → X) (m : Action S A) (k : A → Action S B)
    → Keeps f m
    → ((a : A) → Keeps f (k a))
    → Keeps f (m >>= k)
Keeps-bind {S} {A} {B} f m k h g s = through (m s) (h s)
  where
    through : (r : Result A × S) → f r.1 ≡ f s → f (((λ s'. r) >>= k) s).1 ≡ f s
    through (ok a, s') e = g a s' ∙ e
    through (throw x, s') e = e

-- A sequence that returns is one whose calls have returned.
pub bind-ok :
    {S A B : Type 0} (m : Action S A) (f : A → Action S B) (s : S) (b : B)
    → ((m >>= f) s).0 ≡ ok b
    → (a : A) × ((m s).0 ≡ ok a) × ((f a (m s).1).0 ≡ ok b)
bind-ok {S} {A} {B} m f s b h = through (m s) h
  where
    through :
        (r : Result A × S)
        → (((λ s'. r) >>= f) s).0 ≡ ok b
        → (a : A) × (r.0 ≡ ok a) × ((f a r.1).0 ≡ ok b)
    through (ok a, s') e = (a, refl, e)
    through (throw x, s') e = cc

-- A call that never throws.
abbrev pub Returns : {S A : Type 0} → Action S A → Type 0
Returns {S} {A} m = (s : S) → (a : A) × ((m s).0 ≡ ok a)

pub Returns-bind :
    {S A B : Type 0} (m : Action S A) (f : A → Action S B)
    → Returns m
    → ((a : A) → Returns (f a))
    → Returns (m >>= f)
Returns-bind {S} {A} {B} m f h k s = through (m s) (h s)
  where
    through :
        (r : Result A × S) → (a : A) × (r.0 ≡ ok a) → (b : B) × ((((λ s'. r) >>= f) s).0 ≡ ok b)
    through (ok a, s') g = k a s'
    through (throw e, s') (a, g) = absurd (no g)
      where
        no : throw e ≡ ok a → ⊥
        no g = cc

-- What holds behind a call that is always made, of its state.
pub after-Returns :
    {S A B : Type 0} (P : S → Type 0) (m : Action S A) (f : A → Action S B)
    → Returns m
    → ((a : A) (s : S) → P (f a s).1)
    → (s : S) → P ((m >>= f) s).1
after-Returns {S} {A} P m f h k s = through (m s) (h s)
  where
    through : (r : Result A × S) → (a : A) × (r.0 ≡ ok a) → P (((λ s'. r) >>= f) s).1
    through (ok a, s') g = k a s'
    through (throw e, s') (a, g) = absurd (no g)
      where
        no : throw e ≡ ok a → ⊥
        no g = cc
