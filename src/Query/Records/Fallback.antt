-- ===== src/Query/Records/Fallback.antt =====
-- The fallback of `fetchFullRecords` against the tag check of the batch.
use sec_search.Prelude.{
  ℕ, true, false, [], ◌∷◌, Option, none, some, Bytes, length, ok, ◌≡◌, ◌≢◌, refl, ◌⊎◌, inl, inr,
  same, same_refl, eq_of_same, Bool-cases, ==_self, ltb, arith, List, ap, if◌then◌else◌,
}
use sec_search.Prelude.SortedMap.{SortedMap, lookup, insert, lookup-insert_self}
use sec_search.Crypto.Primitives.{Primitives, Lawful, IsSized}
use sec_search.Crypto.KeyManager.{KeyManager, enc, tag, get_key_by_version}
use sec_search.Database.{CipherRecord, FieldType, name, phone, address}
use sec_search.Decrypt.Record.{DecryptResult, decrypt_record, decrypt_one_record, opened}
use sec_search.Decrypt.Record.Laws.{decrypt_one_record_opens, decrypt_record_refuses}
use sec_search.Query.Records.{
  group, given, all_cipher_records, fill_cache, is_empty, decrypt_records,
  decrypt_field_with_version, field_text, build_record, build_all, decrypt_rows, Plains, plains_of,
  put_plain, SealedField, FullRecordBuilder,
}

is_empty-cons : (s : Bytes) → s ≢ [] → is_empty s ≡ false
unfolding is_empty
is_empty-cons [] h = absurd (h refl)
is_empty-cons (x ∷ s) h = refl

module _ (c : Primitives) (laws : Lawful c) (keys : KeyManager) where
  open laws use {Ready, mac, decrypt-Seals, Seals}

  decrypt_field-Seals :
      (s enc_key fallback_key m : Bytes) (version : ℕ) (e : c.Env)
      → Ready e
      → length enc_key ≡ 16
      → get_key_by_version enc version keys ≡ some enc_key
      → Seals enc_key m s
      → decrypt_field_with_version c keys s version fallback_key e
        ≡ (ok m, (c.decrypt s enc_key e).1)
  unfolding decrypt_field_with_version
  decrypt_field-Seals s enc_key fallback_key m version e ready l found seals =
      rw (found, decrypt_field_with_version, (decrypt-Seals m enc_key s e ready l seals).0)

  -- What the batch may have made of a field, and what may be known of it then.
  abbrev Cached : Bytes → Option Bytes → Type 0
  Cached m o = (o ≡ none) ⊎ (o ≡ some m)

  abbrev Verdict : Bytes → DecryptResult → Type 0
  Verdict m d = (d.success ≡ false) ⊎ ((d.success ≡ true) × (d.plaintext ≡ m))

  opened-Verdict :
      (r : CipherRecord) (m : Bytes) (e : c.Env)
      → (decrypt_one_record c keys r e).0 ≡ opened m
      → Ready (decrypt_one_record c keys r e).1
      → Ready (decrypt_record c keys r e).1 × Verdict m (decrypt_record c keys r e).0
  unfolding decrypt_record
  opened-Verdict r m e opens ready = (ready, rw opens (inr (refl, refl)))

  -- A sealed cipher is opened or refused, as its tag is, and the library stays ready.
  decrypt_record-Verdict :
      (r : CipherRecord) (tag_key enc_key m : Bytes) (e : c.Env)
      → Ready e
      → IsSized r.cipher
      → length tag_key ≡ 16
      → length enc_key ≡ 16
      → get_key_by_version tag r.enc_key_version keys ≡ some tag_key
      → get_key_by_version enc r.enc_key_version keys ≡ some enc_key
      → Seals enc_key m r.cipher
      → Ready (decrypt_record c keys r e).1 × Verdict m (decrypt_record c keys r e).0
  decrypt_record-Verdict r tag_key enc_key m e ready sized k l found found' seals =
      elim (Bool-cases (same r.tag (mac tag_key r.cipher))) [
        | inl eq ↦
            let (opens, ready') =
              decrypt_one_record_opens c laws keys r tag_key enc_key m e ready sized k l found
                found' (eq_of_same r.tag (mac tag_key r.cipher) eq) seals in
            opened-Verdict r m e opens ready'
        | inr ne ↦
            let (refused, ready') =
              decrypt_record_refuses c laws keys r tag_key e ready sized k found
                (λ h. differ r.tag (mac tag_key r.cipher) ne h) in
            rw refused (ready', inl refl)
      ]
    where
      differ : (a b : Bytes) → same a b ≡ false → a ≢ b
      differ a b ne h = let eq : same a b ≡ true = rw h (same_refl b) in cc

  field_text-shows :
      (s enc_key fallback_key m : Bytes) (version : ℕ) (o : Option Bytes) (e : c.Env)
      → Ready e
      → s ≢ []
      → length enc_key ≡ 16
      → get_key_by_version enc version keys ≡ some enc_key
      → Seals enc_key m s
      → Cached m o
      → (e' : c.Env) × (field_text c keys fallback_key version o s e ≡ (ok m, e')) × Ready e'
  unfolding field_text
  field_text-shows s enc_key fallback_key m version o e ready filled l found seals cached =
      let again = decrypt_field-Seals s enc_key fallback_key m version e ready l found seals in
      let ready' = (decrypt-Seals m enc_key s e ready l seals).1 in
      elim cached [
        | inl missed ↦ (_, rw (missed, is_empty-cons s filled) again, ready')
        | inr hit ↦ elim (Bool-cases (is_empty m)) [
          | inl blank ↦ (_, rw (hit, blank, is_empty-cons s filled) again, ready')
          | inr text ↦ (e, rw (hit, text) refl, ready)
        ]
      ]

  -- What is known of the three fields of an id.
  abbrev AllCached : Bytes → Bytes → Bytes → Plains → Type 0
  AllCached mn mp ma p =
      Cached mn p.name_plain × Cached mp p.phone_plain × Cached ma p.address_plain

  -- The text of a field among the three.
  abbrev text_at : FieldType → Bytes → Bytes → Bytes → Bytes
  text_at name mn mp ma = mn
  text_at phone mn mp ma = mp
  text_at address mn mp ma = ma

  put_plain-AllCached :
      (t : FieldType) (mn mp ma m : Bytes) (p : Plains)
      → m ≡ text_at t mn mp ma
      → AllCached mn mp ma p
      → AllCached mn mp ma (put_plain t m p)
  put_plain-AllCached name mn mp ma m p e (n, q, a) = (inr (ap some e), q, a)
  put_plain-AllCached phone mn mp ma m p e (n, q, a) = (n, inr (ap some e), a)
  put_plain-AllCached address mn mp ma m p e (n, q, a) = (n, q, inr (ap some e))

  -- One round of the loop that fills the cache.
  filled : ℕ → FieldType → DecryptResult → SortedMap Plains → SortedMap Plains
  filled id t d cache =
      if d.success
      then insert id (put_plain t d.plaintext (plains_of (lookup id cache))) cache
      else cache

  filled-AllCached :
      (id : ℕ) (t : FieldType) (d : DecryptResult) (mn mp ma : Bytes) (cache : SortedMap Plains)
      → Verdict (text_at t mn mp ma) d
      → AllCached mn mp ma (plains_of (lookup id cache))
      → AllCached mn mp ma (plains_of (lookup id (filled id t d cache)))
  unfolding filled
  filled-AllCached id t d mn mp ma cache (inl refused) h = rw refused h
  filled-AllCached id t d mn mp ma cache (inr (opens, text)) h =
      rw
        (opens, lookup-insert_self id (put_plain t d.plaintext (plains_of (lookup id cache))) cache)
        (put_plain-AllCached t mn mp ma d.plaintext (plains_of (lookup id cache)) text h)

  abbrev row_of : ℕ → ℕ → FieldType → SealedField → CipherRecord
  row_of id version t f = record {
    id = id;
    cipher = f.cipher;
    tag = f.tag;
    field_type = t;
    enc_key_version = version;
  }

  abbrev builder : ℕ → ℕ → SealedField → SealedField → SealedField → FullRecordBuilder
  builder id version n p a = record {
    id = id;
    enc_key_version = version;
    name_field = n;
    phone_field = p;
    addr_field = a;
  }

  abbrev pub three_rows : ℕ → ℕ → SealedField → SealedField → SealedField → List CipherRecord
  three_rows id version n p a =
      row_of id version name n ∷ row_of id version phone p ∷ row_of id version address a ∷ []

  group-three :
      (id version : ℕ) (n p a : SealedField)
      → group (three_rows id version n p a) [] ≡ (id, builder id version n p a) ∷ []
  unfolding group insert lookup
  group-three id version n p a =
      let not_below : ltb id id ≡ false = ground arith in
      rw (not_below, ==_self id, not_below, ==_self id) refl

  all_cipher_records-three :
      (id version : ℕ) (n p a : SealedField)
      → n.cipher ≢ []
      → p.cipher ≢ []
      → a.cipher ≢ []
      → all_cipher_records ((id, builder id version n p a) ∷ []) ≡ three_rows id version n p a
  unfolding all_cipher_records given
  all_cipher_records-three id version n p a f g h =
      rw (is_empty-cons n.cipher f, is_empty-cons p.cipher g, is_empty-cons a.cipher h) refl

  -- A field of an id: its cipher is a message sealed under a key. Nothing is said of its tag.
  pub record IsSealed (enc_key m : Bytes) (f : SealedField) : Type 0 where
    pub sized : IsSized f.cipher
    pub present : f.cipher ≢ []
    pub seals : Seals enc_key m f.cipher

  -- The cache behind the batch of the three rows, and the library.
  module _ (id version : ℕ) (n p a : SealedField) (tag_key enc_key mn mp ma : Bytes)
      (k : length tag_key ≡ 16) (l : length enc_key ≡ 16)
      (found : get_key_by_version tag version keys ≡ some tag_key)
      (found' : get_key_by_version enc version keys ≡ some enc_key) (sn : IsSealed enc_key mn n)
      (sp : IsSealed enc_key mp p) (sa : IsSealed enc_key ma a) where
    abbrev name_result : c.Env → DecryptResult × c.Env
    name_result e = decrypt_record c keys (row_of id version name n) e

    abbrev phone_result : c.Env → DecryptResult × c.Env
    phone_result e = decrypt_record c keys (row_of id version phone p) (name_result e).1

    abbrev address_result : c.Env → DecryptResult × c.Env
    address_result e = decrypt_record c keys (row_of id version address a) (phone_result e).1

    abbrev cache : c.Env → SortedMap Plains
    cache e =
        filled id address (address_result e).0
          (filled id phone (phone_result e).0 (filled id name (name_result e).0 []))

    cache-AllCached :
        (e : c.Env)
        → Ready e
        → Ready (address_result e).1 × AllCached mn mp ma (plains_of (lookup id (cache e)))
    unfolding lookup
    cache-AllCached e ready =
        let (r1, v1) =
          decrypt_record-Verdict (row_of id version name n) tag_key enc_key mn e ready sn.sized k l
            found found' sn.seals in
        let (r2, v2) =
          decrypt_record-Verdict (row_of id version phone p) tag_key enc_key mp (name_result e).1 r1
            sp.sized k l found found' sp.seals in
        let (r3, v3) =
          decrypt_record-Verdict (row_of id version address a) tag_key enc_key ma (phone_result e).1
            r2 sa.sized k l found found' sa.seals in
        (
          r3,
          filled-AllCached id address (address_result e).0 mn mp ma _ v3 (
              filled-AllCached id phone (phone_result e).0 mn mp ma _ v2
                (filled-AllCached id name (name_result e).0 mn mp ma [] v1 nothing_cached)),
        )
      where
        nothing_cached : AllCached mn mp ma (plains_of (lookup id []))
        nothing_cached = (inl refl, inl refl, inl refl)

    build_record-shows :
        (fallback_key : Bytes) (q : Plains) (e : c.Env)
        → Ready e
        → AllCached mn mp ma q
        → (build_record c keys fallback_key (builder id version n p a) q e).0
          ≡ ok (record {
            id = id;
            name_text = mn;
            phone_text = mp;
            address_text = ma;
            enc_key_version = version;
          })
    unfolding build_record
    build_record-shows fallback_key q e ready (cn, cp, ca) =
        let (e1, shows1, r1) =
          field_text-shows n.cipher enc_key fallback_key mn version q.name_plain e ready sn.present
            l found' sn.seals cn in
        let (e2, shows2, r2) =
          field_text-shows p.cipher enc_key fallback_key mp version q.phone_plain e1 r1 sp.present l
            found' sp.seals cp in
        let (e3, shows3, r3) =
          field_text-shows a.cipher enc_key fallback_key ma version q.address_plain e2 r2 sa.present
            l found' sa.seals ca in
        rw (shows1, shows2, shows3) refl

    -- The name, the phone and the address of an id, as `batchSelectCiphers` gives them, not empty
    -- and sealed under the encryption key of their version, which the manager has as well as the tag
    -- key of that version, are shown whatever their tags are, whichever field is asked for: the batch decryption refuses those with a wrong tag, and the fallback then decrypts
    -- them under the same key and looks at no tag.
    pub decrypt_rows_forged :
        (fallback_key : Bytes) (t : FieldType) (e : c.Env)
        → Ready e
        → (decrypt_rows c keys fallback_key t none (three_rows id version n p a) e).0
          ≡ ok (
              record {
                id = id;
                name_text = mn;
                phone_text = mp;
                address_text = ma;
                enc_key_version = version;
              }
              ∷ [])
    unfolding decrypt_rows decrypt_records fill_cache build_all filled
    decrypt_rows_forged fallback_key t e ready =
        let (ready', cached) = cache-AllCached e ready in
        rw
          (
            group-three id version n p a,
            all_cipher_records-three id version n p a sn.present sp.present sa.present,
            build_record-shows fallback_key (plains_of (lookup id (cache e))) (address_result e).1
                ready' cached,
          )
          refl
