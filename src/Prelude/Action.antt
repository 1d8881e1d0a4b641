-- ===== src/Prelude/Action.antt =====
-- A call on mutable state that may throw: what was written before a throw stays written.
use mathlib.Core.Path.{◌≡◌}
use mathlib.Core.Bool.{Bool, true, false}
use sec_search.Prelude.Outcome.{Result, ok, throw, Error}

abbrev pub Action : Type 0 → Type 0 → Type 0
Action S A = S → Result A × S

module _ {S A : Type 0} where
  abbrev pub pure : A → Action S A
  pure a s = (ok a, s)

  abbrev pub raise : Error → Action S A
  raise e s = (throw e, s)

  abbrev pub gets : (S → A) → Action S A
  gets f s = (ok (f s), s)

  -- A call that throws and writes nothing.
  abbrev pub lift : Result A → Action S A
  lift r s = (r, s)

abbrev pub modify : {S : Type 0} → (S → S) → Action S (Unit {0})
modify f s = (ok tt, f s)

abbrev pub raise_if : {S : Type 0} → Bool → Error → Action S (Unit {0})
raise_if true e s = (throw e, s)
raise_if false e s = (ok tt, s)

abbrev bind_result : {S A B : Type 0} → Result A × S → (A → Action S B) → Result B × S
bind_result (ok a, s) f = f a s
bind_result (throw e, s) f = (throw e, s)

infixl 5 ◌>>=◌ ◌>>◌
abbrev pub ◌>>=◌ : {S A B : Type 0} → Action S A → (A → Action S B) → Action S B
◌>>=◌ m f s = bind_result (m s) f

abbrev pub ◌>>◌ : {S B : Type 0} → Action S (Unit {0}) → Action S B → Action S B
m >> k = m >>= λ _. k

-- What a result that is no exception is like.
abbrev pub Gives : {A : Type 0} → (A → Type 0) → Result A → Type 0
Gives P (ok a) = P a
Gives P (throw e) = Unit

abbrev pub Ensures : {S A : Type 0} → (A → Type 0) → Action S A → Type 0
Ensures {S} P a = (s : S) → Gives P (a s).0

pub bind-Ensures :
    {S A B : Type 0} (Q : A → Type 0) (P : B → Type 0) (m : Action S A) (f : A → Action S B)
    → Ensures Q m
    → ((a : A) → Q a → Ensures P (f a))
    → Ensures P (m >>= f)
bind-Ensures {S} {A} {B} Q P m f h k s = through (m s) (h s)
  where
    through : (r : Result A × S) → Gives Q r.0 → Gives P (bind_result r f).0
    through (ok a, s') q = k a q s'
    through (throw e, s') q = tt

-- When nothing need be known of the first call.
pub then-Ensures :
    {S A B : Type 0} (P : B → Type 0) (m : Action S A) (f : A → Action S B)
    → ((a : A) → Ensures P (f a))
    → Ensures P (m >>= f)
then-Ensures {S} {A} P m f k =
    bind-Ensures (λ a. Unit {0}) P m f (λ s. anything (m s).0) (λ a q. k a)
  where
    anything : (r : Result A) → Gives (λ a. Unit {0}) r
    anything (ok a) = tt
    anything (throw e) = tt

pub Gives-ok : {A : Type 0} (P : A → Type 0) (r : Result A) (a : A) → Gives P r → r ≡ ok a → P a
Gives-ok P r a g e = rw e at g
