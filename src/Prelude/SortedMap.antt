-- ===== src/Prelude/SortedMap.antt =====
-- `std::map` with integer keys: an association list in ascending order of keys.
use Prim.Native.Nat.{ℕ, ◌<◌}
use mathlib.Core.Path.{◌≡◌, refl}
use mathlib.Core.Logic.{◌≢◌, inl, inr}
use mathlib.Core.Option.{Option, none, some}
use mathlib.Core.List.{List, [], ◌∷◌, map}
use native.Mathlib.Omega.{arith}
use sec_search.Prelude.Tests.{ltb, ◌==◌, if◌then◌else◌, Bool-cases}

abbrev pub SortedMap {ℓ} : Type ℓ → Type ℓ
SortedMap V = List (ℕ × V)

module _ {ℓ} {V : Type ℓ} where
  -- `find`.
  unfoldable pub lookup : ℕ → SortedMap V → Option V
  lookup k [] = none
  lookup k ((j, v) ∷ m) = if k == j then some v else lookup k m

  -- `m[k] = v`.
  unfoldable pub insert : ℕ → V → SortedMap V → SortedMap V
  insert k v [] = (k, v) ∷ []
  insert k v ((j, w) ∷ m) =
      if ltb k j then (k, v) ∷ (j, w) ∷ m else if k == j then (k, v) ∷ m else (j, w) ∷ insert k v m

  pub insert-ne-nil : (k : ℕ) (v : V) (m : SortedMap V) → insert k v m ≢ []
  unfolding insert
  insert-ne-nil k v [] e = cc
  insert-ne-nil k v ((j, w) ∷ m) e = ground arith

  -- The keys in iteration order.
  abbrev pub keys : SortedMap V → List ℕ
  keys = map (λ e. e.0)

  -- Every key is above `b`.
  abbrev pub Above : ℕ → SortedMap V → Type 0
  Above b [] = Unit {0}
  Above b ((j, v) ∷ m) = (b < j) × Above b m

  -- Ascending keys, none twice.
  abbrev pub IsSorted : SortedMap V → Type 0
  IsSorted [] = Unit {0}
  IsSorted ((j, v) ∷ m) = Above j m × IsSorted m

  Above-insert : (b k : ℕ) (v : V) (m : SortedMap V) → b < k → Above b m → Above b (insert k v m)
  unfolding insert
  Above-insert b k v [] h a = (h, tt)
  Above-insert b k v ((j, w) ∷ m) h a = ground (arith, Above-insert b k v m)

  Above-mono : (b c : ℕ) (m : SortedMap V) → b < c → Above c m → Above b m
  Above-mono b c [] h a = tt
  Above-mono b c ((j, v) ∷ m) h a = (omega arith, Above-mono b c m h a.1)

  pub insert-IsSorted : (k : ℕ) (v : V) (m : SortedMap V) → IsSorted m → IsSorted (insert k v m)
  unfolding insert
  insert-IsSorted k v [] s = (tt, tt)
  insert-IsSorted k v ((j, w) ∷ m) s =
      ground (arith, insert-IsSorted k v m s.1, Above-mono k j m, Above-insert j k v m)

  lookup_below : (k b : ℕ) (m : SortedMap V) → k < b → Above b m → lookup k m ≡ none
  unfolding lookup
  lookup_below k b [] h a = refl
  lookup_below k b ((j, w) ∷ m) h a = ground (arith, lookup_below k b m)

  -- The map law, on any list: `insert` puts the new entry before an old one with its key.
  pub lookup-insert :
      (k j : ℕ) (v : V) (m : SortedMap V)
      → lookup j (insert k v m) ≡ (if j == k then some v else lookup j m)
  unfolding lookup insert
  lookup-insert k j v [] = refl
  lookup-insert k j v ((i, w) ∷ m) = ground (arith, lookup-insert k j v m)

  pub lookup-insert_self : (k : ℕ) (v : V) (m : SortedMap V) → lookup k (insert k v m) ≡ some v
  lookup-insert_self k v m = ground (arith, lookup-insert k k v m)

  pub lookup-insert_ne :
      (k j : ℕ) (v : V) (m : SortedMap V) → j ≢ k → lookup j (insert k v m) ≡ lookup j m
  lookup-insert_ne k j v m h = ground (arith, lookup-insert k j v m)

  -- A predicate on every entry.
  abbrev pub AllEntries {κ} : (ℕ → V → Type κ) → SortedMap V → Type κ
  AllEntries P [] = Unit
  AllEntries P ((k, v) ∷ m) = P k v × AllEntries P m

  pub insert-AllEntries {κ} :
      (P : ℕ → V → Type κ) (k : ℕ) (v : V) (m : SortedMap V)
      → P k v
      → AllEntries P m
      → AllEntries P (insert k v m)
  unfolding insert
  insert-AllEntries P k v [] p a = (p, tt)
  insert-AllEntries P k v ((j, w) ∷ m) p a = elim (Bool-cases (ltb k j)) [
    | inl before ↦ rw before (p, a)
    | inr after ↦ elim (Bool-cases (k == j)) [
      | inl same ↦ rw (after, same) (p, a.1)
      | inr other ↦ rw (after, other) (a.0, insert-AllEntries P k v m p a.1)
    ]
  ]

  pub lookup-AllEntries {κ} :
      (P : ℕ → V → Type κ) (k : ℕ) (v : V) (m : SortedMap V)
      → AllEntries P m
      → lookup k m ≡ some v
      → P k v
  unfolding lookup
  lookup-AllEntries P k v [] a e = cc
  lookup-AllEntries P k v ((j, w) ∷ m) a e = elim (Bool-cases (k == j)) [
    | inl same ↦
        let key : j ≡ k = ground arith in
        let value : w ≡ v = ground arith in rw (← key, ← value) a.0
    | inr other ↦ lookup-AllEntries P k v m a.1 (ground arith)
  ]
