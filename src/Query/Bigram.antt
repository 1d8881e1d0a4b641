-- ===== src/Query/Bigram.antt =====
-- `DAO::splitBigram` of src/database/dao.cpp, and what it means for the fuzzy search.
use sec_search.Prelude.{
  ℕ, ◌+◌, ◌≤◌, List, [], ◌∷◌, ◌++◌, Bytes, length, length-append, All, ◌≡◌, refl, ◌⊎◌, inl, inr,
  arith,
}

-- The loop over `substr(i, 2)`.
unfoldable pub pairs : Bytes → List Bytes
pairs [] = []
pairs (a ∷ []) = []
pairs (a ∷ b ∷ s) = (a ∷ b ∷ []) ∷ pairs (b ∷ s)

unfoldable pub split_bigram : Bytes → List Bytes
unfolding pairs
split_bigram [] = []
split_bigram (a ∷ []) = (a ∷ []) ∷ []
split_bigram (a ∷ b ∷ s) = pairs (a ∷ b ∷ s)

-- A token is in a list.
abbrev pub IsIn : Bytes → List Bytes → Type 0
IsIn t [] = ⊥
IsIn t (u ∷ us) = (t ≡ u) ⊎ IsIn t us

pairs-tail : (t : Bytes) (a : ℕ) (s : Bytes) → IsIn t (pairs s) → IsIn t (pairs (a ∷ s))
unfolding pairs
pairs-tail t a [] h = h
pairs-tail t a (b ∷ s) h = inr h

pairs-prefix : (t : Bytes) (before s : Bytes) → IsIn t (pairs s) → IsIn t (pairs (before ++ s))
pairs-prefix t [] s h = h
pairs-prefix t (a ∷ before) s h = pairs-tail t a (before ++ s) (pairs-prefix t before s h)

pairs-suffix : (t : Bytes) (s after : Bytes) → IsIn t (pairs s) → IsIn t (pairs (s ++ after))
unfolding pairs
pairs-suffix t [] after h = absurd h
pairs-suffix t (a ∷ []) after h = absurd h
pairs-suffix t (a ∷ b ∷ s) after (inl e) = inl e
pairs-suffix t (a ∷ b ∷ s) after (inr h) = inr (pairs-suffix t (b ∷ s) after h)

split_bigram-pairs : (s : Bytes) → 2 ≤ length s → split_bigram s ≡ pairs s
unfolding split_bigram
split_bigram-pairs [] h = absurd (omega arith)
split_bigram-pairs (a ∷ []) h = absurd (omega arith)
split_bigram-pairs (a ∷ b ∷ s) h = refl

-- Every token of a keyword of at least two bytes is a token of each text that contains the
-- keyword, so a search for all tokens of the keyword misses no such text.
pub split_bigram_covers :
    (before keyword after token : Bytes)
    → 2 ≤ length keyword
    → IsIn token (split_bigram keyword)
    → IsIn token (split_bigram (before ++ (keyword ++ after)))
split_bigram_covers before keyword after token h m =
    let inside : IsIn token (pairs keyword) = rw (split_bigram-pairs keyword h) at m in
    rw (split_bigram-pairs (before ++ (keyword ++ after)) long)
      (pairs-prefix token before (keyword ++ after) (pairs-suffix token keyword after inside))
  where
    long : 2 ≤ length (before ++ (keyword ++ after))
    long = omega (arith, h, length-append before (keyword ++ after), length-append keyword after)

-- A text of at least two bytes has one token fewer than bytes, each of two bytes; a single byte
-- is its own token, and the empty text has none.
pub split_bigram_shape :
    (s : Bytes)
    → ((length s ≡ 0) × (split_bigram s ≡ []))
      ⊎ (((length s ≡ 1) × (split_bigram s ≡ s ∷ []))
          ⊎ ((2 ≤ length s)
              × (length (split_bigram s) + 1 ≡ length s)
              × All (λ t. length t ≡ 2) (split_bigram s)))
unfolding split_bigram pairs
split_bigram_shape [] = inl (refl, refl)
split_bigram_shape (a ∷ []) = inr (inl (refl, refl))
split_bigram_shape (a ∷ b ∷ s) =
    inr (inr (omega arith, (pairs_shape a (b ∷ s)).0, (pairs_shape a (b ∷ s)).1))
  where
    pairs_shape :
        (a : ℕ) (s : Bytes)
        → (length (pairs (a ∷ s)) + 1 ≡ length (a ∷ s)) × All (λ t. length t ≡ 2) (pairs (a ∷ s))
    pairs_shape a [] = (omega arith, tt)
    pairs_shape a (b ∷ s) = let (n, every) = pairs_shape b s in (omega (arith, n), (refl, every))
