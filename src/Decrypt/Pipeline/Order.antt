-- ===== src/Decrypt/Pipeline/Order.antt =====
-- The results of a schedule that has finished.
use sec_search.Prelude.{
  ℕ, suc, ◌+◌, ◌<◌, ◌≤◌, List, [], ◌∷◌, Option, none, some, length, All, ◌≡◌, refl, sym, ap, ◌∙◌,
  inl, inr, arith,
}
use mathlib.Core.Option.{some-injective}
use native.Mathlib.Decide.{ℕ_discrete}
use sec_search.Crypto.Primitives.{Primitives}
use sec_search.Crypto.KeyManager.{KeyManager}
use sec_search.Database.{CipherRecord}
use sec_search.Decrypt.Record.{DecryptResult, decrypt_record}
use sec_search.Decrypt.Slots.{nth, nth_lt, HasIndex}
use sec_search.Decrypt.Pipeline.{State, number, blank, start, Move, step, run}
use sec_search.Decrypt.Pipeline.Inventory.{IsSound, IsTask, IsAnswered, Behind, step-Behind}

pub length-number : (i : ℕ) (rs : List CipherRecord) → length (number i rs) ≡ length rs
length-number i [] = refl
length-number i (r ∷ rs) = ap suc (length-number (i + 1) rs)

length-blank : (rs : List CipherRecord) → length (blank rs) ≡ length rs
length-blank [] = refl
length-blank (r ∷ rs) = ap suc (length-blank rs)

HasIndex-number :
    (i j : ℕ) (rs : List CipherRecord) → i ≤ j → j < i + length rs → HasIndex j (number i rs)
HasIndex-number i j [] h k = omega arith
HasIndex-number i j (r ∷ rs) h k = elim (ℕ_discrete j i) [
  | yes e ↦ inl e
  | no other ↦ inr (HasIndex-number (i + 1) j rs (omega arith) (omega arith))
]

no_member : {A : Type 0} (xs : List (ℕ × A)) (i : ℕ) → length xs ≡ 0 → ¬ HasIndex i xs
no_member [] i h m = m
no_member (x ∷ xs) i h m = omega arith

module _ (c : Primitives) (keys : KeyManager) where
  number-IsTask :
      (all rs : List CipherRecord) (i : ℕ)
      → ((j k : ℕ) → j ≡ i + k → nth j all ≡ nth k rs)
      → All (IsTask c keys all) (number i rs)
  unfolding nth
  number-IsTask all [] i h = tt
  number-IsTask all (r ∷ rs) i h =
      (h i 0 (omega arith), number-IsTask all rs (i + 1) λ j k e. h j (suc k) (omega (arith, e)))

  start-IsSound : (rs : List CipherRecord) (e : c.Env) → IsSound c keys rs (start c rs e)
  start-IsSound rs e = record {
    sized = length-blank rs;
    pending_tasks = number-IsTask rs rs 0 (λ j k e'. ap (λ x. nth x rs) (omega (arith, e')));
    queued_tasks = tt;
    running_tasks = tt;
    made = tt;
    covered = λ i h. inl (inl (HasIndex-number 0 i rs (omega arith) (omega (arith, h))));
    counted = omega (arith, length-number 0 rs);
  }

  module _ (rs : List CipherRecord) (capacity workers : ℕ) where
    -- The rest of a schedule behind a move.
    continue :
        (o : Option (State c)) (rest : State c → Option (State c))
        → Behind c keys rs o
        → ((s : State c) → IsSound c keys rs s → Behind c keys rs (rest s))
        → Behind c keys rs (elim o [ none ↦ none | some s ↦ rest s ])
    continue none rest h f = tt
    continue (some s) rest h f = f s h

    run-Behind :
        (xs : List Move) (s : State c)
        → IsSound c keys rs s
        → Behind c keys rs (run c keys capacity workers xs s)
    unfolding run
    run-Behind [] s v = v
    run-Behind (x ∷ xs) s v =
        continue (step c keys capacity workers x s) (run c keys capacity workers xs)
          (step-Behind c keys rs capacity workers x s v) (run-Behind xs)

    pub run-IsSound :
        (xs : List Move) (e : c.Env) (s : State c)
        → run c keys capacity workers xs (start c rs e) ≡ some s
        → IsSound c keys rs s
    run-IsSound xs e s h = rw h at (run-Behind xs (start c rs e) (start-IsSound rs e))

    answers :
        (i : ℕ) (s : State c)
        → IsSound c keys rs s
        → s.finished ≡ length rs
        → i < length rs
        → IsAnswered c keys rs i s.results
    answers i s v done h = elim (v.covered i h) [
      | inr a ↦ a
      | inl (inl p) ↦ absurd (no_member s.pending i (omega (arith, v.counted)) p)
      | inl (inr (inl q)) ↦ absurd (no_member s.task_queue i (omega (arith, v.counted)) q)
      | inl (inr (inr (inl w))) ↦ absurd (no_member s.running i (omega (arith, v.counted)) w)
      | inl (inr (inr (inr x))) ↦ absurd (no_member s.result_queue i (omega (arith, v.counted)) x)
    ]

    -- However the producer and the workers interleave, once `collectResults` has counted as many
    -- results as there are records, there are as many results as records, and the one at each
    -- place is what `decryptOneRecord` made of the record at that place in some state of the
    -- library.
    pub run_in_order :
        (xs : List Move) (e : c.Env) (s : State c) (i : ℕ) (r : CipherRecord)
        → run c keys capacity workers xs (start c rs e) ≡ some s
        → s.finished ≡ length rs
        → nth i rs ≡ some r
        → (length s.results ≡ length rs)
          × ((d : DecryptResult) × (nth i s.results ≡ some d)
              × ((e' : c.Env) × (d ≡ (decrypt_record c keys r e').0)))
    run_in_order xs e s i r h done at_i =
        let v = run-IsSound xs e s h in
        let (d, stored, (r', found, (e', made))) = answers i s v done (nth_lt i r rs at_i) in
        let same : r' ≡ r = some-injective r' r (sym found ∙ at_i) in
        (v.sized, (d, stored, (e', rw same at made)))
