-- ===== src/Query/Limits/Window.antt =====
-- The deque of timestamps against the whole history of requests.
use sec_search.Prelude.{
  ℕ, suc, ◌+◌, ◌<◌, ◌≤◌, Bool, true, false, List, [], ◌∷◌, ◌++◌, append_assoc, length, ok, throw,
  ltb, if◌then◌else◌, All, All-append, ◌≡◌, refl, sym, ap, ◌∙◌, inl, inr, arith, Bool-cases,
}
use sec_search.Query.Limits.{drop_expired, check_frequency_limit, max_requests_per_second}

module _ (second : ℕ) where
  -- How many requests of a history lie within a second before a time.
  abbrev pub recent : ℕ → List ℕ → ℕ
  recent now [] = 0
  recent now (t ∷ ts) = if ltb (t + second) now then recent now ts else suc (recent now ts)

  -- One call of `checkFrequencyLimit`: whether it lets the request pass, and the deque.
  pub admits : ℕ → List ℕ → Bool × List ℕ
  admits now ts =
      let (r, ts') = check_frequency_limit second now ts in
      (elim r [ ok _ ↦ true | throw _ ↦ false ], ts')

  -- The answers to requests at the times of a list, from a deque on.
  abbrev pub answers : List ℕ → List ℕ → List Bool
  answers [] ts = []
  answers (now ∷ later) ts = let (b, ts') = admits now ts in b ∷ answers later ts'

  -- The rule: a request passes if fewer than ten passed within the last second.
  abbrev pub rule : List ℕ → List ℕ → List Bool
  rule [] history = []
  rule (now ∷ later) history =
      let b = ltb (recent now history) max_requests_per_second in
      b ∷ rule later (if b then history ++ now ∷ [] else history)

  -- Times that do not go back, from a first one on.
  abbrev pub IsAscending : ℕ → List ℕ → Type 0
  IsAscending from [] = Unit {0}
  IsAscending from (t ∷ ts) = (from ≤ t) × IsAscending t ts

  recent-append : (now : ℕ) (xs ys : List ℕ) → recent now (xs ++ ys) ≡ recent now xs + recent now ys
  recent-append now [] ys = omega arith
  recent-append now (t ∷ ts) ys = ground (arith, recent-append now ts ys)

  -- The requests that a deque has dropped lie more than a second back.
  abbrev AreExpired : ℕ → List ℕ → Type 0
  AreExpired now = All (λ t. t + second < now)

  recent_expired : (now : ℕ) (xs : List ℕ) → AreExpired now xs → recent now xs ≡ 0
  recent_expired now [] h = refl
  recent_expired now (t ∷ ts) h = ground (arith, recent_expired now ts h.1)

  AreExpired-mono :
      (now now' : ℕ) (xs : List ℕ) → now ≤ now' → AreExpired now xs → AreExpired now' xs
  AreExpired-mono now now' [] h e = tt
  AreExpired-mono now now' (t ∷ ts) h e = (omega (arith, e.0), AreExpired-mono now now' ts h e.1)

  -- Of a deque in ascending order, the first part is dropped, and all of the rest is recent.
  drop_expired-split :
      (now from : ℕ) (ts : List ℕ)
      → IsAscending from ts
      → (gone : List ℕ) × (gone ++ drop_expired second now ts ≡ ts)
        × AreExpired now gone
        × (recent now (drop_expired second now ts) ≡ length (drop_expired second now ts))
  unfolding drop_expired
  drop_expired-split now from [] h = ([], refl, tt, refl)
  drop_expired-split now from (t ∷ ts) h = elim (Bool-cases (ltb (t + second) now)) [
    | inl old ↦
        let (gone, whole, every, all_recent) = drop_expired-split now t ts h.1 in
        (t ∷ gone, rw old (ap (◌∷◌ t) whole), (ground arith, every), rw old all_recent)
    | inr young ↦
        ([], rw young refl, tt, rw young (all_young t (t ∷ ts) (ground arith) (omega arith, h.1)))
  ]
    where
      all_young :
          (u : ℕ) (us : List ℕ) → now ≤ u + second → IsAscending u us → recent now us ≡ length us
      all_young u [] h a = refl
      all_young u (v ∷ vs) h a = ground (arith, all_young v vs (omega (arith, a.0)) a.1)

  All-suffix : (P : ℕ → Type 0) (xs ys : List ℕ) → All P (xs ++ ys) → All P ys
  All-suffix P [] ys h = h
  All-suffix P (x ∷ xs) ys h = All-suffix P xs ys h.1

  IsAscending-suffix : (from : ℕ) (xs ys : List ℕ) → IsAscending from (xs ++ ys) → IsAscending 0 ys
  IsAscending-suffix from [] [] h = tt
  IsAscending-suffix from [] (y ∷ ys) h = (omega arith, h.1)
  IsAscending-suffix from (x ∷ xs) ys h = IsAscending-suffix x xs ys h.1

  IsAscending-last :
      (from now : ℕ) (ts : List ℕ)
      → IsAscending from ts
      → All (λ t. t ≤ now) ts
      → from ≤ now
      → IsAscending from (ts ++ now ∷ [])
  IsAscending-last from now [] h a le = (le, tt)
  IsAscending-last from now (t ∷ ts) h a le = (h.0, IsAscending-last t now ts h.1 a.1 a.0)

  All-le :
      (prev now : ℕ) (ts : List ℕ) → prev ≤ now → All (λ t. t ≤ prev) ts → All (λ t. t ≤ now) ts
  All-le prev now [] h a = tt
  All-le prev now (t ∷ ts) h a = (omega (arith, a.0), All-le prev now ts h a.1)

  -- One call of `checkFrequencyLimit`, on a deque whose expired part is dropped.
  admits_lem :
      (now : ℕ) (ts : List ℕ)
      → let rest = drop_expired second now ts in
        admits now ts ≡ (
          if ltb (length rest) max_requests_per_second
          then (true, rest ++ now ∷ [])
          else (false, rest))
  unfolding admits check_frequency_limit
  admits_lem now ts = ground arith

  from_history :
      (times : List ℕ) (prev : ℕ) (gone ts : List ℕ)
      → IsAscending prev times
      → AreExpired prev gone
      → IsAscending 0 ts
      → All (λ t. t ≤ prev) ts
      → answers times ts ≡ rule times (gone ++ ts)
  from_history [] prev gone ts up old order le = refl
  from_history (now ∷ later) prev gone ts up old order le =
      let (out, whole, expired, young) = drop_expired-split now 0 ts order in
      let rest = drop_expired second now ts in
      let old' : AreExpired now (gone ++ out) =
        All-append (λ t. t + second < now) gone out (AreExpired-mono prev now gone up.0 old)
          expired in
      let history : (gone ++ out) ++ rest ≡ gone ++ ts =
        append_assoc gone out rest ∙ ap (λ x. gone ++ x) whole in
      let count : recent now (gone ++ ts) ≡ length rest = rw (← history) (
        omega (
          arith,
          recent-append now (gone ++ out) rest,
          recent_expired now (gone ++ out) old',
          young,
        )) in
      let order' : IsAscending 0 rest = IsAscending-suffix 0 out rest (rw (← whole) at order) in
      let le' : All (λ t. t ≤ now) rest =
        All-le prev now rest up.0 (All-suffix (λ t. t ≤ prev) out rest (rw (← whole) at le)) in
      elim (Bool-cases (ltb (length rest) max_requests_per_second)) [
        | inl room ↦
            rw (admits_lem now ts, count, room)
              (ap (◌∷◌ true) (
                from_history later now (gone ++ out) (rest ++ now ∷ []) up.1 old'
                  (IsAscending-last 0 now rest order' le' (omega arith))
                  (All-append (λ t. t ≤ now) rest (now ∷ []) le' (omega arith, tt))
                ∙ ap (rule later) (
                    sym (append_assoc (gone ++ out) rest (now ∷ []))
                    ∙ ap (λ x. x ++ now ∷ []) history)))
        | inr full ↦
            rw (admits_lem now ts, count, full)
              (ap (◌∷◌ false) (
                from_history later now (gone ++ out) rest up.1 old' order' le'
                ∙ ap (rule later) history))
      ]

  -- On requests at times that do not go back, from the first on, `checkFrequencyLimit` lets a
  -- request pass exactly if fewer than ten of the requests that passed before it lie within the
  -- last second, although it remembers only the deque.
  pub answers-rule : (times : List ℕ) → IsAscending 0 times → answers times [] ≡ rule times []
  answers-rule times up = from_history times 0 [] [] up tt tt tt
