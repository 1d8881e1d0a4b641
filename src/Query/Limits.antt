-- ===== src/Query/Limits.antt =====
-- The limits of src/query/query_service.cpp: `checkKeywordLength`, `checkCandidateLimit` and
-- `checkFrequencyLimit`. A time is a number of ticks of the steady clock, which never goes back;
-- `second` is how many ticks a second has.
pub mod Window
use sec_search.Prelude.{
  ℕ, ◌+◌, Bool, true, false, not, List, [], ◌∷◌, ◌++◌, Bytes, length, Result, ok, throw, Error,
  throw_if, ltb, leb, if◌then◌else◌,
}
use sec_search.Prelude.Action.{Action, raise_if, gets, modify, ◌>>=◌, ◌>>◌}

abbrev pub min_keyword_length : ℕ
min_keyword_length = 2

abbrev pub max_candidate_count : ℕ
max_candidate_count = 10000

abbrev pub max_requests_per_second : ℕ
max_requests_per_second = 10

unfoldable pub check_keyword_length : Bytes → Result (Unit {0})
check_keyword_length keyword =
    throw_if (ltb (length keyword) min_keyword_length) Error.keyword_too_short

unfoldable pub check_candidate_limit : ℕ → Result (Unit {0})
check_candidate_limit count = throw_if (ltb max_candidate_count count) Error.too_many_candidates

module _ (second : ℕ) where
  -- The loop over `pop_front`: the timestamps from the first one that is not before the cutoff.
  unfoldable pub drop_expired : ℕ → List ℕ → List ℕ
  drop_expired now [] = []
  drop_expired now (t ∷ ts) =
      let rest = drop_expired now ts in if ltb (t + second) now then rest else t ∷ ts

  -- The state is `requestTimestamps_`.
  unfoldable pub check_frequency_limit : ℕ → Action (List ℕ) (Unit {0})
  check_frequency_limit now = do
    modify (drop_expired now)
    size ← gets (λ ts. length ts)
    raise_if (leb max_requests_per_second size) Error.query_too_frequent
    modify (λ ts. ts ++ now ∷ [])
