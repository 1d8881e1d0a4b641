-- ===== src/Decrypt/Batch/Reads.antt =====
-- What `decryptBatch` of src/decrypt/batch_decryptor.cpp asks the database for.
use sec_search.Prelude.{
  ℕ, zero, suc, ◌+◌, ◌-◌, ◌≤◌, ◌<◌, List, [], ◌∷◌, ◌++◌, length, Result, ok, throw, All, take, drop,
  length-drop, ◌≡◌, refl, ap, ◌∙◌, arith, ltb, ◌⊎◌, ◌↔◌, inl, inr, sym, Bool-cases,
}
use sec_search.Prelude.Action.{pure, ◌>>=◌}
use sec_search.Crypto.Primitives.{Primitives}
use sec_search.Database.{CipherRecord}
use sec_search.Database.Server.{Server, Session}
use sec_search.Database.Dao.{batch_select_ciphers}
use sec_search.Decrypt.Pipeline.{State, start}
use sec_search.Decrypt.Batch.{io_batch, slice, min, batches, read_batches, decrypt_batch, concat}

take-drop :
    (n m : ℕ) (ids : List ℕ)
    → (n ≡ m) ⊎ ((length ids ≤ n) × (n ≤ m))
    → take n ids ++ drop m ids ≡ ids
take-drop zero zero ids h = refl
take-drop zero (suc m) [] h = refl
take-drop zero (suc m) (id ∷ ids) (inl e) = absurd (omega (arith, e))
take-drop zero (suc m) (id ∷ ids) (inr (k, l)) = absurd (omega (arith, k))
take-drop (suc n) zero ids (inl e) = absurd (omega (arith, e))
take-drop (suc n) zero ids (inr (k, l)) = absurd (omega (arith, l))
take-drop (suc n) (suc m) [] h = refl
take-drop (suc n) (suc m) (id ∷ ids) (inl e) =
    ap (λ x. id ∷ x) (take-drop n m ids (inl (omega (arith, e))))
take-drop (suc n) (suc m) (id ∷ ids) (inr (k, l)) =
    ap (λ x. id ∷ x) (take-drop n m ids (inr (omega (arith, k), omega (arith, l))))

drop-nil : (n : ℕ) → drop {A = ℕ} n [] ≡ []
drop-nil zero = refl
drop-nil (suc n) = refl

drop-all : (n : ℕ) (ids : List ℕ) → length ids ≤ n → drop n ids ≡ []
drop-all n [] h = drop-nil n
drop-all zero (id ∷ ids) h = absurd (omega (arith, h))
drop-all (suc n) (id ∷ ids) h = drop-all n ids (omega (arith, h))

drop-drop : (n m : ℕ) (ids : List ℕ) → drop (n + m) ids ≡ drop m (drop n ids)
drop-drop zero m ids = let e : 0 + m ≡ m = omega arith in ap (λ k. drop k ids) e
drop-drop (suc n) m [] = drop-nil (suc n + m) ∙ sym (drop-nil m)
drop-drop (suc n) m (id ∷ ids) =
    let e : suc n + m ≡ suc (n + m) = omega arith in
    ap (λ k. drop k (id ∷ ids)) e ∙ drop-drop n m ids

length-take : (n : ℕ) (ids : List ℕ) → n ≤ length ids → length (take n ids) ≡ n
length-take zero ids h = refl
length-take (suc n) [] h = absurd (omega arith)
length-take (suc n) (id ∷ ids) h = ap suc (length-take n ids (omega (arith, h)))

-- A batch, of a size, that is not empty.
abbrev pub IsBatch : ℕ → List ℕ → Type 0
IsBatch size ids = (0 < length ids) × (length ids ≤ size)

-- One batch: what is left of the ids begins with it, and goes on behind it.
slice_at :
    (size offset : ℕ) (ids : List ℕ)
    → 0 < size
    → offset < length ids
    → let batch = slice offset (min (offset + size) (length ids)) ids in
      IsBatch size batch × (batch ++ drop (offset + size) ids ≡ drop offset ids)
slice_at size offset ids h k =
    let end : ℕ = min (offset + size) (length ids) in
    let left : List ℕ = drop offset ids in
    let n : ℕ = end - offset in
    let many : length left ≡ length ids - offset = length-drop offset ids in
    let fits : (0 < n) × (n ≤ size) × (n ≤ length left) = ground (arith, h, k, many) in
    let sized : length (take n left) ≡ n = length-take n left fits.2 in
    let cut : (n ≡ size) ⊎ ((length left ≤ n) × (n ≤ size)) = ground (arith, many) in
    (
      (omega (arith, sized, fits.0), omega (arith, sized, fits.1)),
      ap (λ x. take n left ++ x) (drop-drop offset size ids) ∙ take-drop n size left cut,
    )

batches_from :
    (size fuel offset : ℕ) (ids : List ℕ)
    → 0 < size
    → length ids ≤ offset + fuel
    → (concat (batches size fuel offset ids) ≡ drop offset ids)
      × All (IsBatch size) (batches size fuel offset ids)
unfolding batches concat
batches_from size zero offset ids h k = (sym (drop-all offset ids (omega (arith, k))), tt)
batches_from size (suc fuel) offset ids h k = elim (Bool-cases (ltb offset (length ids))) [
  | inl more ↦
      let (batch, goes_on) = slice_at size offset ids h (ground (arith, more)) in
      let (rest, small) = batches_from size fuel (offset + size) ids h (omega (arith, h, k)) in
      rw more (
        ap (λ x. slice offset (min (offset + size) (length ids)) ids ++ x) rest ∙ goes_on,
        (batch, small),
      )
  | inr over ↦ rw over (sym (drop-all offset ids (ground (arith, over))), tt)
]

module _ (c : Primitives) (sv : Server) where
  -- One `batchSelectCiphers` for each list of ids, in this order, with its rows.
  abbrev pub Selects : List (List ℕ) → List (List CipherRecord) → Session sv → Session sv → Type 0
  Selects [] [] s s' = s ≡ s'
  Selects (ids ∷ more) (rows ∷ others) s s' =
      (s1 : Session sv) × (batch_select_ciphers sv ids s ≡ (ok rows, s1))
      × Selects more others s1 s'
  Selects [] (rows ∷ others) s s' = ⊥
  Selects (ids ∷ more) [] s s' = ⊥

  Selects-read :
      (bs : List (List ℕ)) (rows : List (List CipherRecord)) (s s' : Session sv)
      → Selects bs rows s s'
      → read_batches c sv bs s ≡ (ok (concat rows), s')
  unfolding read_batches concat
  Selects-read [] [] s s' h = ap (λ x. (ok [], x)) h
  Selects-read [] (rows ∷ others) s s' h = elim h [ ]
  Selects-read (ids ∷ more) [] s s' h = elim h [ ]
  Selects-read (ids ∷ more) (rows ∷ others) s s' (s1, e, h) =
      rw (e, Selects-read more others s1 s' h) refl

  Read : List (List ℕ) → Session sv → Result (List CipherRecord) × Session sv → Type 0
  Read bs s (throw e, s') = Unit
  Read bs s (ok records, s') =
      (rows : List (List CipherRecord)) × Selects bs rows s s' × (records ≡ concat rows)

  read_batches-Read : (bs : List (List ℕ)) (s : Session sv) → Read bs s (read_batches c sv bs s)
  unfolding read_batches concat Read
  read_batches-Read [] s = ([], refl, refl)
  read_batches-Read (ids ∷ more) s =
      through (batch_select_ciphers sv ids s) refl λ s1. read_batches-Read more s1
    where
      joined :
          (rows : List CipherRecord) (s1 : Session sv) (r : Result (List CipherRecord) × Session sv)
          → batch_select_ciphers sv ids s ≡ (ok rows, s1)
          → Read more s1 r
          → Read (ids ∷ more) s (((λ s'. r) >>= λ others. pure (rows ++ others)) s1)
      joined rows s1 (throw e, s') h k = tt
      joined rows s1 (ok records, s') h (others, k, l) =
          (rows ∷ others, (s1, h, k), ap (λ x. rows ++ x) l)

      through :
          (r : Result (List CipherRecord) × Session sv)
          → batch_select_ciphers sv ids s ≡ r
          → ((s1 : Session sv) → Read more s1 (read_batches c sv more s1))
          → Read
              (ids ∷ more)
              s
              (((λ s'. r) >>= λ rows. read_batches c sv more >>= λ others. pure (rows ++ others)) s)
      through (throw e, s1) h k = tt
      through (ok rows, s1) h k = joined rows s1 (read_batches c sv more s1) h (k s1)

  ok-injective : {A : Type 0} (a b : A) → ok a ≡ ok b → a ≡ b
  ok-injective a b h = cc

  decrypt-Selects :
      (bs : List (List ℕ)) (e : c.Env) (m : State c) (s s' : Session sv)
      (r : Result (List CipherRecord) × Session sv)
      → Read bs s r
      → ((λ s1. r) >>= λ records. pure (start c records e)) s ≡ (ok m, s')
      → (rows : List (List CipherRecord)) × Selects bs rows s s' × (m ≡ start c (concat rows) e)
  unfolding Read
  decrypt-Selects bs e m s s' (throw x, s1) k h = let no : throw x ≡ ok m = ap (λ p. p.0) h in cc
  decrypt-Selects bs e m s s' (ok records, s1) (rows, k, l) h =
      let made : start c records e ≡ m = ok-injective _ m (ap (λ p. p.0) h) in
      let ends : s1 ≡ s' = ap (λ p. p.1) h in
      (rows, (rw ends at k), sym made ∙ ap (λ x. start c x e) l)

  -- `decryptBatch` asks for each id of the list once and in order, in batches of at least one id and
  -- at most 32768. Its reads return, and leave a machine that is to decrypt some records, exactly if
  -- one SELECT for each batch, in this order, returns, and the records are the rows of all of them.
  pub decrypt_batch_asks :
      (ids : List ℕ) (e : c.Env) (m : State c) (s s' : Session sv)
      → let bs = batches io_batch (length ids) 0 ids in
        (concat bs ≡ ids)
        × All (IsBatch io_batch) bs
        × ((decrypt_batch c sv ids e s ≡ (ok m, s')) ↔ (
            (rows : List (List CipherRecord)) × Selects bs rows s s'
            × (m ≡ start c (concat rows) e)))
  unfolding decrypt_batch
  decrypt_batch_asks ids e m s s' =
      let bs : List (List ℕ) = batches io_batch (length ids) 0 ids in
      let (whole, small) = batches_from io_batch (length ids) 0 ids (omega arith) (omega arith) in
      (
        whole,
        small,
        (
          decrypt-Selects bs e m s s' (read_batches c sv bs s) (read_batches-Read bs s),
          λ (rows, k, l). rw (Selects-read bs rows s s' k, l) refl,
        ),
      )
