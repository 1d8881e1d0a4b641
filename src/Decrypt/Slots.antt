-- ===== src/Decrypt/Slots.antt =====
-- Lists with numbered entries: the vector of results, and the queues of indexed items.
use sec_search.Prelude.{
  ℕ, zero, suc, ◌<◌, List, [], ◌∷◌, ◌++◌, Option, none, some, length, All, ◌≡◌, ◌≢◌, refl, ap, ◌⊎◌,
  inl, inr, arith,
}

module _ {ℓ} {A : Type ℓ} where
  -- `v[i]`, `none` out of range.
  unfoldable pub nth : ℕ → List A → Option A
  nth i [] = none
  nth zero (x ∷ xs) = some x
  nth (suc i) (x ∷ xs) = nth i xs

  -- `v[i] = a`.
  unfoldable pub set_at : ℕ → A → List A → List A
  set_at i a [] = []
  set_at zero a (x ∷ xs) = a ∷ xs
  set_at (suc i) a (x ∷ xs) = x ∷ set_at i a xs

  -- The element at a place, and the others.
  unfoldable pub take_out : ℕ → List A → Option (A × List A)
  take_out k [] = none
  take_out zero (x ∷ xs) = some (x, xs)
  take_out (suc k) (x ∷ xs) = elim (take_out k xs) [
    | none ↦ none
    | some (y, rest) ↦ some (y, x ∷ rest)
  ]

  pub length-set_at : (i : ℕ) (a : A) (xs : List A) → length (set_at i a xs) ≡ length xs
  unfolding set_at
  length-set_at i a [] = refl
  length-set_at zero a (x ∷ xs) = refl
  length-set_at (suc i) a (x ∷ xs) = ap suc (length-set_at i a xs)

  pub nth-set_at : (i : ℕ) (a : A) (xs : List A) → i < length xs → nth i (set_at i a xs) ≡ some a
  unfolding set_at nth
  nth-set_at i a [] h = absurd (omega arith)
  nth-set_at zero a (x ∷ xs) h = refl
  nth-set_at (suc i) a (x ∷ xs) h = nth-set_at i a xs (omega arith)

  pub nth-set_at_ne : (i j : ℕ) (a : A) (xs : List A) → j ≢ i → nth j (set_at i a xs) ≡ nth j xs
  unfolding set_at nth
  nth-set_at_ne i j a [] h = refl
  nth-set_at_ne zero zero a (x ∷ xs) h = absurd (h refl)
  nth-set_at_ne zero (suc j) a (x ∷ xs) h = refl
  nth-set_at_ne (suc i) zero a (x ∷ xs) h = refl
  nth-set_at_ne (suc i) (suc j) a (x ∷ xs) h = nth-set_at_ne i j a xs (λ e. h (ap suc e))

  pub nth_lt : (i : ℕ) (a : A) (xs : List A) → nth i xs ≡ some a → i < length xs
  unfolding nth
  nth_lt i a [] h = cc
  nth_lt zero a (x ∷ xs) h = omega arith
  nth_lt (suc i) a (x ∷ xs) h = omega (arith, nth_lt i a xs h)

module _ {A : Type 0} where
  -- An entry with the index.
  abbrev pub HasIndex : ℕ → List (ℕ × A) → Type 0
  HasIndex i [] = ⊥
  HasIndex i ((j, a) ∷ xs) = (i ≡ j) ⊎ HasIndex i xs

  pub HasIndex-left : (i : ℕ) (xs ys : List (ℕ × A)) → HasIndex i xs → HasIndex i (xs ++ ys)
  HasIndex-left i [] ys h = absurd h
  HasIndex-left i ((j, a) ∷ xs) ys (inl e) = inl e
  HasIndex-left i ((j, a) ∷ xs) ys (inr h) = inr (HasIndex-left i xs ys h)

  pub HasIndex-last : (i j : ℕ) (a : A) (xs : List (ℕ × A)) → i ≡ j → HasIndex i (xs ++ (j, a) ∷ [])
  HasIndex-last i j a [] e = inl e
  HasIndex-last i j a (x ∷ xs) e = inr (HasIndex-last i j a xs e)

  -- What `take_out` does to a list.
  pub record IsSplit (xs : List (ℕ × A)) (x : ℕ × A) (rest : List (ℕ × A)) : Type 1 where
    pub size : length xs ≡ suc (length rest)
    pub index : (i : ℕ) → HasIndex i xs → (i ≡ x.0) ⊎ HasIndex i rest
    pub every : (P : ℕ × A → Type 0) → All P xs → P x × All P rest

  -- The only outcomes of `take_out`.
  abbrev pub Takes : List (ℕ × A) → Option ((ℕ × A) × List (ℕ × A)) → Type 1
  Takes xs none = Unit
  Takes xs (some (x, rest)) = IsSplit xs x rest

  take_out_more :
      (x y : ℕ × A) (xs rest : List (ℕ × A)) → IsSplit xs y rest → IsSplit (x ∷ xs) y (x ∷ rest)
  take_out_more (j, a) y xs rest s = record {
    size = ap suc s.size;
    index = λ i h. elim h [
      | inl e ↦ inr (inl e)
      | inr g ↦ elim (s.index i g) [ inl e ↦ inl e | inr f ↦ inr (inr f) ]
    ];
    every = λ P h. ((s.every P h.1).0, (h.0, (s.every P h.1).1));
  }

  pub take_out-Takes : (k : ℕ) (xs : List (ℕ × A)) → Takes xs (take_out k xs)
  unfolding take_out
  take_out-Takes k [] = tt
  take_out-Takes zero ((j, a) ∷ xs) = record { size = refl; index = λ i h. h; every = λ P h. h }
  take_out-Takes (suc k) (x ∷ xs) = grow (take_out k xs) (take_out-Takes k xs)
    where
      grow :
          (o : Option ((ℕ × A) × List (ℕ × A)))
          → Takes xs o
          → Takes (x ∷ xs) (elim o [ none ↦ none | some (y, rest) ↦ some (y, x ∷ rest) ])
      grow none h = tt
      grow (some (y, rest)) h = take_out_more x y xs rest h
