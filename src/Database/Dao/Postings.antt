-- ===== src/Database/Dao/Postings.antt =====
-- What `insertFuzzyIndex` of src/database/dao.cpp puts into the table is there for a search.
use sec_search.Prelude.{
  ℕ, Bool, true, false, ◌&&◌, List, [], ◌∷◌, Bytes, length, All, same, same_refl, ◌==◌,
  if◌then◌else◌, Bool-cases, ◌≡◌, refl, ap, sym, inl, inr, arith,
}
use sec_search.Database.{FieldType, name, phone, address}
use sec_search.Database.Server.{Statement}
use sec_search.Database.Server.Tables.{
  Posting, Tables, filter, same_field, same_posting, add_posting, add_postings,
}
use sec_search.Database.Server.Answers.{answer, count_hashes, distinct, is_in, is_posted, group_ids}
use sec_search.Database.Server.Reads.{IsOneOf}
use sec_search.Database.Dao.Search.{HasPostings}

-- No hash stands twice in the list.
abbrev pub AreDistinct : List Bytes → Type 0
AreDistinct [] = Unit {0}
AreDistinct (h ∷ hs) = (is_in h hs ≡ false) × AreDistinct hs

distinct_same : (hs : List Bytes) → AreDistinct hs → distinct hs ≡ hs
unfolding distinct
distinct_same [] d = refl
distinct_same (h ∷ hs) d = rw d.0 (ap (◌∷◌ h) (distinct_same hs d.1))

module _ {A : Type 0} (p : A → Bool) where
  filter-All : (xs : List A) → All (λ x. p x ≡ true) xs → filter p xs ≡ xs
  filter-All [] h = refl
  filter-All (x ∷ xs) h = rw h.0 (ap (◌∷◌ x) (filter-All xs h.1))

  IsOneOf-filter_intro : (x : A) (xs : List A) → p x ≡ true → IsOneOf x xs → IsOneOf x (filter p xs)
  IsOneOf-filter_intro x [] h k = k
  IsOneOf-filter_intro x (y ∷ ys) h (inl e) = rw (sym e, h) (inl refl)
  IsOneOf-filter_intro x (y ∷ ys) h (inr k) = elim (Bool-cases (p y)) [
    | inl kept ↦ rw kept (inr (IsOneOf-filter_intro x ys h k))
    | inr dropped ↦ rw dropped (IsOneOf-filter_intro x ys h k)
  ]

is_posted-group_ids :
    (p : Posting) (ps : List Posting) → is_posted p ps ≡ true → IsOneOf p.data_id (group_ids ps)
unfolding is_posted group_ids same_posting
is_posted-group_ids p [] h = cc
is_posted-group_ids p (q ∷ qs) h = elim (Bool-cases (p.data_id == q.data_id)) [
  | inl here ↦ inl (ground (arith, here))
  | inr other ↦ inr (
      IsOneOf-filter_intro (λ id. if id == q.data_id then false else true) p.data_id (group_ids qs)
        (rw other refl) (is_posted-group_ids p qs (rw other at h)))
]

-- An id with a posting of each of some distinct hashes is an answer to the search for them.
pub HasPostings-answer :
    (t : FieldType) (g : Bytes) (gs : List Bytes) (tables : Tables) (id : ℕ)
    → AreDistinct (g ∷ gs)
    → HasPostings t (g ∷ gs) tables.fuzzy_inverted id
    → IsOneOf id (answer (Statement.select_fuzzy t (g ∷ gs) (length (g ∷ gs))) tables)
unfolding answer count_hashes
HasPostings-answer t g gs tables id d h =
    IsOneOf-filter_intro
      (λ id'. count_hashes t (g ∷ gs) id' tables.fuzzy_inverted == length (g ∷ gs)) id
      (group_ids tables.fuzzy_inverted) counted
      (is_posted-group_ids (record { token_hash = g; data_id = id; field_type = t })
        tables.fuzzy_inverted h.0)
  where
    counted : (count_hashes t (g ∷ gs) id tables.fuzzy_inverted == length (g ∷ gs)) ≡ true
    counted =
        let e : count_hashes t (g ∷ gs) id tables.fuzzy_inverted ≡ length (g ∷ gs) =
          rw (distinct_same (g ∷ gs) d) (
            ap length (
              filter-All
                (λ h'.
                  is_posted (record { token_hash = h'; data_id = id; field_type = t })
                    tables.fuzzy_inverted)
                (g ∷ gs) h)) in
        ground (arith, e)

same_posting_refl : (p : Posting) → same_posting p p ≡ true
unfolding same_posting same_field
same_posting_refl p = by_field p.field_type
  where
    by_field :
        (t : FieldType)
        → ((p.data_id == p.data_id) && (same_field t t && same p.token_hash p.token_hash)) ≡ true
    by_field name = ground (arith, same_refl p.token_hash)
    by_field phone = ground (arith, same_refl p.token_hash)
    by_field address = ground (arith, same_refl p.token_hash)

is_posted-add_posting_self :
    (p : Posting) (ps : List Posting) → is_posted p (add_posting p ps) ≡ true
unfolding is_posted add_posting
is_posted-add_posting_self p [] = rw (same_posting_refl p) refl
is_posted-add_posting_self p (q ∷ qs) = elim (Bool-cases (same_posting p q)) [
  | inl same ↦ rw (same, same) refl
  | inr other ↦ rw (other, other) (is_posted-add_posting_self p qs)
]

-- A posting that is there stays there.
is_posted-add_posting :
    (p q : Posting) (ps : List Posting)
    → is_posted p ps ≡ true
    → is_posted p (add_posting q ps) ≡ true
unfolding is_posted add_posting
is_posted-add_posting p q [] h = cc
is_posted-add_posting p q (r ∷ rs) h = elim (Bool-cases (same_posting q r)) [
  | inl same ↦ rw same h
  | inr other ↦ rw other (elim (Bool-cases (same_posting p r)) [
    | inl here ↦ rw here refl
    | inr later ↦ rw later (is_posted-add_posting p q rs (rw later at h))
  ])
]

pub is_posted-add_postings :
    (p : Posting) (id : ℕ) (t : FieldType) (hs : List Bytes) (ps : List Posting)
    → is_posted p ps ≡ true
    → is_posted p (add_postings id t hs ps) ≡ true
unfolding add_postings
is_posted-add_postings p id t [] ps h = h
is_posted-add_postings p id t (g ∷ hs) ps h =
    is_posted-add_postings p id t hs _ (is_posted-add_posting p _ ps h)

pub add_postings-is_posted :
    (h : Bytes) (id : ℕ) (t : FieldType) (hs : List Bytes) (ps : List Posting)
    → IsOneOf h hs
    → is_posted (record { token_hash = h; data_id = id; field_type = t }) (add_postings id t hs ps)
      ≡ true
unfolding add_postings
add_postings-is_posted h id t [] ps k = absurd k
add_postings-is_posted h id t (g ∷ hs) ps (inl e) =
    is_posted-add_postings _ id t hs _ (
      rw e
        (is_posted-add_posting_self (record { token_hash = g; data_id = id; field_type = t }) ps))
add_postings-is_posted h id t (g ∷ hs) ps (inr k) = add_postings-is_posted h id t hs _ k
