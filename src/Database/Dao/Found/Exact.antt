-- ===== src/Database/Dao/Found/Exact.antt =====
-- A record that `insertData` of src/database/dao.cpp has inserted is found by
-- `queryByExactIndexMulti`.
use sec_search.Prelude.{
  ℕ, Bool, true, List, [], ◌∷◌, map, some, Bytes, Bool-cases, ==_iff, same_refl, ◌==◌, Result, ok,
  throw, ◌≡◌, refl, sym, inl, inr, arith,
}
use mathlib.Core.Path.{subst}
use sec_search.Prelude.Action.{Gives, Ensures, bind-Ensures, then-Ensures, Gives-ok}
use sec_search.Prelude.Triple.{Post, Triple, Post-weaken}
use sec_search.Prelude.SortedMap.{SortedMap, lookup, insert, lookup-insert_self}
use sec_search.Crypto.Primitives.{Primitives}
use sec_search.Database.{FieldType, name, phone, address, PlainData}
use sec_search.Database.Server.{Server, Statement, MainRow}
use sec_search.Database.Server.Tables.{Tables, effect, filter}
use sec_search.Database.Server.Lawful.{Lawful}
use sec_search.Database.Server.Effects.{At}
use sec_search.Database.Server.Answers.{answer, columns, is_in}
use sec_search.Database.Server.Reads.{IsOneOf, Answering}
use sec_search.Database.Server.Complete.{Complete, select_rows-IsOneOf}
use sec_search.Database.Transaction.Atomic.{outside}
use sec_search.Database.Dao.{query_by_exact_index_multi}
use sec_search.Database.Dao.Records.{Store, FieldHashes, on_session, seal_row, insert_data}
use sec_search.Database.Dao.Writes.{indexed, on_session-Triple}
use sec_search.Database.Dao.Insert.{Inserted, insert_data_leaves}
use sec_search.Database.Dao.Found.{IsMac, field_text}

-- The key of an entry that a map gives and a test lets through.
lookup-filter :
    {V : Type 0} (p : ℕ × V → Bool) (k : ℕ) (v : V) (m : SortedMap V)
    → lookup k m ≡ some v
    → p (k, v) ≡ true
    → IsOneOf k (map (λ e. e.0) (filter p m))
unfolding lookup
lookup-filter p k v [] h q = cc
lookup-filter p k v ((j, w) ∷ m) h q = elim (Bool-cases (k == j)) [
  | inl here ↦
      let k_is : k ≡ j = (==_iff k j).0 here in
      let v_is : v ≡ w = ground (arith, here) in
      let kept : p (j, w) ≡ true = rw (k_is, v_is) at q in rw kept (inl k_is)
  | inr further ↦
      let rest = lookup-filter p k v m (rw further at h) q in
      elim (Bool-cases (p (j, w))) [ inl kept ↦ rw kept (inr rest) | inr dropped ↦ rw dropped rest ]
]

IsOneOf-is_in : (h : Bytes) (hs : List Bytes) → IsOneOf h hs → is_in h hs ≡ true
unfolding is_in
IsOneOf-is_in h [] k = absurd k
IsOneOf-is_in h (g ∷ gs) (inl e) = rw (← e, same_refl h) refl
IsOneOf-is_in h (g ∷ gs) (inr k) = let found = IsOneOf-is_in h gs k in ground (arith, found)

module _ (c : Primitives) (sv : Server) (mac : Bytes → Bytes → Bytes) (is_mac : IsMac c mac) where
  hmac_hex-mac : (m key : Bytes) → Ensures (λ h. h ≡ mac key m) (c.hmac_hex m key)
  hmac_hex-mac m key e = through (c.hmac_hex m key e).0 refl
    where
      through : (r : Result Bytes) → (c.hmac_hex m key e).0 ≡ r → Gives (λ h. h ≡ mac key m) r
      through (ok h) q = is_mac m key h e q
      through (throw x) q = tt

module _ (c : Primitives) (sv : Server) (mac : Bytes → Bytes → Bytes) (is_mac : IsMac c mac)
    (plain : PlainData) (enc_key idx_key tag_key : Bytes) (version : ℕ) where
  -- The blind index of each field is the MAC of its text under the index key.
  IsIndexed : MainRow → Type 0
  IsIndexed row =
      (row.name_field.blind ≡ mac idx_key plain.name_text)
      × (row.phone_field.blind ≡ mac idx_key plain.phone_text)
      × (row.address_field.blind ≡ mac idx_key plain.address_text)

  seal_row-IsIndexed : Ensures IsIndexed (seal_row c sv plain enc_key idx_key tag_key version)
  unfolding seal_row IsIndexed
  seal_row-IsIndexed = then-Ensures IsIndexed (c.encrypt plain.name_text enc_key) _ λ c1.
      then-Ensures IsIndexed (c.encrypt plain.phone_text enc_key) _ λ c2.
        then-Ensures IsIndexed (c.encrypt plain.address_text enc_key) _ λ c3.
          bind-Ensures _ IsIndexed (c.hmac_hex plain.name_text idx_key) _
            (hmac_hex-mac c sv mac is_mac plain.name_text idx_key)
            λ b1 q1.
              bind-Ensures _ IsIndexed (c.hmac_hex plain.phone_text idx_key) _
                (hmac_hex-mac c sv mac is_mac plain.phone_text idx_key)
                λ b2 q2.
                  bind-Ensures _ IsIndexed (c.hmac_hex plain.address_text idx_key) _
                    (hmac_hex-mac c sv mac is_mac plain.address_text idx_key)
                    λ b3 q3. then-Ensures IsIndexed (c.hmac_hex c1 tag_key) _ λ t1.
                      then-Ensures IsIndexed (c.hmac_hex c2 tag_key) _
                        λ t2. then-Ensures IsIndexed (c.hmac_hex c3 tag_key) _ λ t3 s. (q1, q2, q3)

  blind-mac :
      (f : FieldType) (row : MainRow)
      → IsIndexed row
      → (columns f row).blind ≡ mac idx_key (field_text f plain)
  unfolding IsIndexed
  blind-mac name row h = h.0
  blind-mac phone row h = h.1
  blind-mac address row h = h.2

  -- The inserted row is an answer for its blind index.
  inserted-answer :
      (f : FieldType) (g : Bytes) (gs : List Bytes) (row : MainRow) (hashes : FieldHashes c sv)
      (id : ℕ) (t : Tables)
      → id ≡ t.next_id
      → IsIndexed row
      → IsOneOf (mac idx_key (field_text f plain)) (g ∷ gs)
      → IsOneOf id (
          answer
            (Statement.select_exact f (g ∷ gs))
            (indexed c sv id hashes (effect (Statement.insert_main row) t)))
  unfolding answer effect
  inserted-answer f g gs row hashes id t new h k =
      subst
        (λ n. IsOneOf n (
          answer (Statement.select_exact f (g ∷ gs))
            (indexed c sv id hashes (effect (Statement.insert_main row) t))))
        (sym new)
        (lookup-filter (λ e. is_in (columns f e.1).blind (g ∷ gs)) t.next_id row
          (insert t.next_id row t.sensitive_data)
          (lookup-insert_self t.next_id row t.sensitive_data)
          (IsOneOf-is_in _ (g ∷ gs) (subst (λ x. IsOneOf x (g ∷ gs)) (sym (blind-mac f row h)) k)))

  module _ (law : Lawful sv) (reads : Answering sv law) (all : Complete sv law reads) where
    multi_finds :
        (f : FieldType) (hs : List Bytes) (id : ℕ) (u : Tables)
        → ((g : Bytes) (gs : List Bytes)
            → hs ≡ g ∷ gs
            → IsOneOf id (answer (Statement.select_exact f (g ∷ gs)) u))
        → IsOneOf (mac idx_key (field_text f plain)) hs
        → Triple
            (At sv law (outside u))
            (query_by_exact_index_multi sv hs f)
            (λ ids s. IsOneOf id ids)
            (λ s. Unit {0})
    unfolding query_by_exact_index_multi
    multi_finds f [] id u h k = absurd k
    multi_finds f (g ∷ gs) id u h k =
        select_rows-IsOneOf sv law reads all _ _ [] (Statement.select_exact f (g ∷ gs)) (outside u)
          id (h g gs refl)

    -- On tables outside a transaction, and if fetches do not fail and the MAC is a function: when
    -- `insertData` returns an id, then `queryByExactIndexMulti` right after it, on any hashes among
    -- which is the MAC of one of the three texts under the index key, and in that text's field,
    -- returns that id among others, or throws.
    pub insert_data_found_exactly :
        (t : Tables) (s : Store c sv) (f : FieldType) (hs : List Bytes)
        → IsOneOf (mac idx_key (field_text f plain)) hs
        → At sv law (outside t) s.session
        → Post
            (λ id s'.
              Post
                (λ ids s''. IsOneOf id ids)
                (λ s''. Unit {0})
                (on_session c sv (query_by_exact_index_multi sv hs f) s'))
            (λ s'. Unit {0})
            (insert_data c sv plain enc_key idx_key tag_key version s)
    insert_data_found_exactly t s f hs k h =
        Post-weaken _ _ _ (λ s'. Unit {0})
          (insert_data c sv plain enc_key idx_key tag_key version s) found (λ s' x. tt)
          (insert_data_leaves c sv law plain enc_key idx_key tag_key version t s.env s h refl)
      where
        found :
            (id : ℕ) (s' : Store c sv)
            → Inserted c sv law plain enc_key idx_key tag_key version t s.env id s'
            → Post
                (λ ids s''. IsOneOf id ids)
                (λ s''. Unit {0})
                (on_session c sv (query_by_exact_index_multi sv hs f) s')
        found id s' (row, hashes, (sealed, hashed), new, at) =
            Post-weaken _ _ (λ s''. Unit {0}) (λ s''. Unit {0})
              (on_session c sv (query_by_exact_index_multi sv hs f) s') (λ ids s'' x. x.0)
              (λ s'' x. x)
              (on_session-Triple sv law c _
                (At sv law
                  (outside (indexed c sv id hashes (effect (Statement.insert_main row) t))))
                (λ ids s''. IsOneOf id ids) (λ s''. Unit {0}) s'.env
                (multi_finds f hs id _
                  (λ g gs e.
                    inserted-answer f g gs row hashes id t new
                      (Gives-ok IsIndexed _ row (seal_row-IsIndexed s.env) sealed) (rw e at k))
                  k)
                s' (at, refl))
