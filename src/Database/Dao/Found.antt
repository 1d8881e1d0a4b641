-- ===== src/Database/Dao/Found.antt =====
-- A record that `insertData` has inserted is found by `queryByFuzzyKeyword`, both of
-- src/database/dao.cpp.
pub mod Search
pub mod Exact
use sec_search.Prelude.{
  ℕ, ◌≤◌, Bool, true, List, [], ◌∷◌, ◌++◌, map, Bytes, length, All, Result, ok, throw, ◌≡◌, refl,
  ap, ◌∙◌, sym, inl, inr,
}
use sec_search.Prelude.Action.{Action, pure, ◌>>=◌}
use sec_search.Prelude.Triple.{Post, Triple, Triple-bind, Post-weaken, bind-ok}
use sec_search.Crypto.Primitives.{Primitives}
use sec_search.Database.{FieldType, name, phone, address, PlainData}
use sec_search.Database.Server.{Server, Session, Statement}
use sec_search.Database.Server.Tables.{Posting, Tables, effect}
use sec_search.Database.Server.Lawful.{Lawful}
use sec_search.Database.Server.Effects.{At}
use sec_search.Database.Server.Answers.{is_posted}
use sec_search.Database.Server.Reads.{IsOneOf, Answering}
use sec_search.Database.Server.Complete.{Complete, select_rows-IsOneOf}
use sec_search.Database.Transaction.Atomic.{outside}
use sec_search.Database.Dao.{query_by_fuzzy_keyword_multi}
use sec_search.Database.Dao.Records.{
  FieldHashes, Store, on_env, on_session, hash_tokens, hash_fields, insert_data,
  query_by_fuzzy_keyword,
}
use sec_search.Database.Dao.Writes.{indexed, on_session-Triple, on_env-Triple}
use sec_search.Database.Dao.Insert.{Inserted, Left, insert_data_leaves}
use sec_search.Database.Dao.Search.{HasPostings}
use sec_search.Database.Dao.Postings.{
  AreDistinct, HasPostings-answer, is_posted-add_postings, add_postings-is_posted,
}
use sec_search.Query.Bigram.{split_bigram, IsIn, split_bigram_covers}

-- The MAC that `hmacHex` returns, when it returns, depends on the message and the key only.
abbrev pub IsMac : (c : Primitives) → (Bytes → Bytes → Bytes) → Type 0
IsMac c mac = (m key h : Bytes) (e : c.Env) → (c.hmac_hex m key e).0 ≡ ok h → h ≡ mac key m

abbrev pub field_text : FieldType → PlainData → Bytes
field_text name plain = plain.name_text
field_text phone plain = plain.phone_text
field_text address plain = plain.address_text

module _ (c : Primitives) (sv : Server) (mac : Bytes → Bytes → Bytes) (is_mac : IsMac c mac) where
  pub hash_tokens-mac :
      (tokens : List Bytes) (key : Bytes) (hs : List Bytes) (e : c.Env)
      → (hash_tokens c sv tokens key e).0 ≡ ok hs
      → hs ≡ map (mac key) tokens
  unfolding hash_tokens
  hash_tokens-mac [] key hs e h = cc
  hash_tokens-mac (t ∷ tokens) key hs e h =
      let (g, first, rest) = bind-ok (c.hmac_hex t key) _ e hs h in
      let (gs, others, both) =
        bind-ok (hash_tokens c sv tokens key) (λ hashes. pure (g ∷ hashes)) _ hs rest in
      let same_g : g ≡ mac key t = is_mac t key g e first in
      let same_gs : gs ≡ map (mac key) tokens = hash_tokens-mac tokens key gs _ others in
      let hs_is : hs ≡ g ∷ gs = cc in rw (hs_is, same_g, same_gs) refl

  abbrev pub hashes_of : FieldType → FieldHashes c sv → List Bytes
  hashes_of name hashes = hashes.name_hashes
  hashes_of phone hashes = hashes.phone_hashes
  hashes_of address hashes = hashes.addr_hashes

  pub hash_fields-mac :
      (f : FieldType) (plain : PlainData) (key : Bytes) (hashes : FieldHashes c sv) (e : c.Env)
      → (hash_fields c sv plain key e).0 ≡ ok hashes
      → hashes_of f hashes ≡ map (mac key) (split_bigram (field_text f plain))
  unfolding hash_fields
  hash_fields-mac f plain key hashes e h =
      let (ns, n, h1) =
        bind-ok (hash_tokens c sv (split_bigram plain.name_text) key) _ e hashes h in
      let (ps, p, h2) =
        bind-ok (hash_tokens c sv (split_bigram plain.phone_text) key) _ _ hashes h1 in
      let (ads, a, h3) =
        bind-ok (hash_tokens c sv (split_bigram plain.address_text) key) _ _ hashes h2 in
      let made : hashes ≡ record { name_hashes = ns; phone_hashes = ps; addr_hashes = ads } = cc in
      rw made (
        of_field f ns ps ads (hash_tokens-mac _ key ns _ n) (hash_tokens-mac _ key ps _ p)
          (hash_tokens-mac _ key ads _ a))
    where
      of_field :
          (f' : FieldType) (ns ps ads : List Bytes)
          → ns ≡ map (mac key) (split_bigram plain.name_text)
          → ps ≡ map (mac key) (split_bigram plain.phone_text)
          → ads ≡ map (mac key) (split_bigram plain.address_text)
          → hashes_of f' (record { name_hashes = ns; phone_hashes = ps; addr_hashes = ads })
            ≡ map (mac key) (split_bigram (field_text f' plain))
      of_field name ns ps ads n p a = n
      of_field phone ns ps ads n p a = p
      of_field address ns ps ads n p a = a

  -- The hash of a token of a field is posted by `index_fields`.
  pub indexed-is_posted :
      (f : FieldType) (h : Bytes) (id : ℕ) (hashes : FieldHashes c sv) (u : Tables)
      → IsOneOf h (hashes_of f hashes)
      → is_posted
          (record { token_hash = h; data_id = id; field_type = f })
          (indexed c sv id hashes u).fuzzy_inverted
        ≡ true
  unfolding effect
  indexed-is_posted name h id hashes u k =
      is_posted-add_postings _ id address hashes.addr_hashes _ (
        is_posted-add_postings _ id phone hashes.phone_hashes _
          (add_postings-is_posted h id name hashes.name_hashes u.fuzzy_inverted k))
  indexed-is_posted phone h id hashes u k =
      is_posted-add_postings _ id address hashes.addr_hashes _
        (add_postings-is_posted h id phone hashes.phone_hashes _ k)
  indexed-is_posted address h id hashes u k =
      add_postings-is_posted h id address hashes.addr_hashes _ k

  pub IsIn-map :
      (key t : Bytes) (tokens : List Bytes)
      → IsIn t tokens
      → IsOneOf (mac key t) (map (mac key) tokens)
  IsIn-map key t [] h = h
  IsIn-map key t (u ∷ us) (inl e) = inl (ap (mac key) e)
  IsIn-map key t (u ∷ us) (inr h) = inr (IsIn-map key t us h)

  -- Each token of a list is in another, and so is each hash posted.
  pub map-HasPostings :
      (f : FieldType) (key : Bytes) (id : ℕ) (ps : List Posting) (tokens : List Bytes)
      → ((t : Bytes)
          → IsIn t tokens
          → is_posted (record { token_hash = mac key t; data_id = id; field_type = f }) ps ≡ true)
      → HasPostings f (map (mac key) tokens) ps id
  map-HasPostings f key id ps [] h = tt
  map-HasPostings f key id ps (t ∷ ts) h =
      (h t (inl refl), map-HasPostings f key id ps ts (λ u k. h u (inr k)))
