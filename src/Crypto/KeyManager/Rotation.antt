-- ===== src/Crypto/KeyManager/Rotation.antt =====
-- `rotateKey`, branch by branch.
use sec_search.Prelude.Int.{pos}
use sec_search.Prelude.{
  ℕ, ◌+◌, ◌<◌, false, none, some, Bytes, length, ok, throw, Error, ◌==◌, if◌then◌else◌, ◌≡◌, ◌≢◌,
  refl, sym, ap, ◌∙◌, ◌⊎◌, inl, inr, arith, lt→ltb,
}
use mathlib.Core.Option.{some-injective}
use native.Mathlib.Decide.{ℕ_discrete}
use sec_search.Prelude.SortedMap.{
  SortedMap, lookup, insert, lookup-insert, lookup-insert_self, lookup-insert_ne,
}
use sec_search.Crypto.KeyManager.{
  KeyManager, KeyInfo, KeyType, KeyStatus, enc, idx, tag, key_map, put_map, get_current_version,
  put_version, rotate_key, is_key_active, is_enabled, get_key_by_version, get_current_key_info,
  int_max,
}

-- The entry that a rotation makes.
abbrev pub new_info : Bytes → ℕ → KeyInfo
new_info key v = record { key = key; version = v; status = KeyStatus.enabled }

abbrev pub retired : KeyInfo → KeyInfo
retired info = record info { status = KeyStatus.disabled }

-- The manager after a rotation that succeeds, and after one that throws half way.
abbrev pub rotated : KeyType → Bytes → ℕ → KeyInfo → KeyManager → KeyManager
rotated t key now info m =
    let v = get_current_version m t in
    let old = put_map m t (insert v (retired info) (key_map m t)) in
    record (put_version (put_map old t (insert (v + 1) (new_info key (v + 1)) (key_map old t))) t
      (v + 1)) { last_rotate_time = pos now }

key_map-rotated :
    (t : KeyType) (key : Bytes) (now : ℕ) (info : KeyInfo) (m : KeyManager)
    → let v = get_current_version m t in
      key_map (rotated t key now info m) t
      ≡ insert (v + 1) (new_info key (v + 1)) (insert v (retired info) (key_map m t))
key_map-rotated enc key now info m = refl
key_map-rotated idx key now info m = refl
key_map-rotated tag key now info m = refl

version-rotated :
    (t : KeyType) (key : Bytes) (now : ℕ) (info : KeyInfo) (m : KeyManager)
    → get_current_version (rotated t key now info m) t ≡ get_current_version m t + 1
version-rotated enc key now info m = refl
version-rotated idx key now info m = refl
version-rotated tag key now info m = refl

others-rotated :
    (t u : KeyType) (key : Bytes) (now : ℕ) (info : KeyInfo) (m : KeyManager)
    → u ≢ t
    → (key_map (rotated t key now info m) u ≡ key_map m u)
      × (get_current_version (rotated t key now info m) u ≡ get_current_version m u)
others-rotated enc enc key now info m h = absurd (h refl)
others-rotated idx idx key now info m h = absurd (h refl)
others-rotated tag tag key now info m h = absurd (h refl)
others-rotated enc idx key now info m h = (refl, refl)
others-rotated enc tag key now info m h = (refl, refl)
others-rotated idx enc key now info m h = (refl, refl)
others-rotated idx tag key now info m h = (refl, refl)
others-rotated tag enc key now info m h = (refl, refl)
others-rotated tag idx key now info m h = (refl, refl)

pub rotate_key-rotated :
    (t : KeyType) (key : Bytes) (now : ℕ) (info : KeyInfo) (m : KeyManager)
    → lookup (get_current_version m t) (key_map m t) ≡ some info
    → get_current_version m t < int_max
    → length key ≡ 16
    → rotate_key t (some key) now m ≡ (ok (get_current_version m t + 1), rotated t key now info m)
unfolding rotate_key
rotate_key-rotated t key now info m e room size = rw (e, lt→ltb _ _ room, size)

-- The same, part by part.
rotate_key_parts :
    (t : KeyType) (key : Bytes) (now : ℕ) (info : KeyInfo) (m : KeyManager)
    → lookup (get_current_version m t) (key_map m t) ≡ some info
    → get_current_version m t < int_max
    → length key ≡ 16
    → let v = get_current_version m t in
      let (r, m') = rotate_key t (some key) now m in
      (r ≡ ok (v + 1))
      × (get_current_version m' t ≡ v + 1)
      × (lookup (v + 1) (key_map m' t) ≡ some (new_info key (v + 1)))
      × (lookup v (key_map m' t) ≡ some (retired info))
      × ((w : ℕ) → w ≢ v → w ≢ v + 1 → lookup w (key_map m' t) ≡ lookup w (key_map m t))
      × ((u : KeyType)
          → u ≢ t
          → (key_map m' u ≡ key_map m u) × (get_current_version m' u ≡ get_current_version m u))
rotate_key_parts t key now info m e room size =
    let v = get_current_version m t in
    let old = insert v (retired info) (key_map m t) in
    rw (rotate_key-rotated t key now info m e room size) (
      refl,
      version-rotated t key now info m,
      rw (key_map-rotated t key now info m) (lookup-insert_self (v + 1) _ old),
      rw (key_map-rotated t key now info m)
          (lookup-insert_ne (v + 1) v _ old (omega arith) ∙ lookup-insert_self v _ (key_map m t)),
      (λ w h k.
          rw (key_map-rotated t key now info m)
            (lookup-insert_ne (v + 1) w _ old k ∙ lookup-insert_ne v w _ (key_map m t) h)),
      λ u h. others-rotated t u key now info m h,
    )

KeyType-discrete : Discrete KeyType
KeyType-discrete = hlevel

-- A rotation of a type whose current version v has an entry, with 16 random bytes and room for
-- v + 1 in an `int`, returns v + 1 and makes it current: v + 1 has the new key, enabled; v keeps
-- its key, disabled; every other version, and both other types, are as they were.
pub rotate_key_lem :
    (t : KeyType) (key : Bytes) (now : ℕ) (info : KeyInfo) (m : KeyManager)
    → lookup (get_current_version m t) (key_map m t) ≡ some info
    → get_current_version m t < int_max
    → length key ≡ 16
    → let v = get_current_version m t in
      let (r, m') = rotate_key t (some key) now m in
      (r ≡ ok (v + 1))
      × (get_current_version m' t ≡ v + 1)
      × ((w : ℕ)
          → lookup w (key_map m' t) ≡ (
              if w == v + 1
              then some (new_info key (v + 1))
              else if w == v
              then some (retired info)
              else lookup w (key_map m t)))
      × ((u : KeyType)
          → (u ≡ t)
            ⊎ ((key_map m' u ≡ key_map m u) × (get_current_version m' u ≡ get_current_version m u)))
rotate_key_lem t key now info m e room size =
    let v = get_current_version m t in
    let old = insert v (retired info) (key_map m t) in
    let (done, cur, _, _, _, others) = rotate_key_parts t key now info m e room size in
    (
      done,
      cur,
      (λ w.
          rw (rotate_key-rotated t key now info m e room size, key_map-rotated t key now info m)
            (lookup-insert (v + 1) w _ old
              ∙ ap (λ x. if w == v + 1 then some (new_info key (v + 1)) else x)
                  (lookup-insert v w _ (key_map m t)))),
      λ u. elim (KeyType-discrete u t) [ yes same ↦ inl same | no other ↦ inr (others u other) ],
    )

-- Every version of a type is at most its current one.
abbrev pub IsLatest : KeyType → KeyManager → Type 0
IsLatest t m = (v : ℕ) → get_current_version m t < v → lookup v (key_map m t) ≡ none

key_by_version-entry :
    (t : KeyType) (v : ℕ) (info : KeyInfo) (m : KeyManager)
    → lookup v (key_map m t) ≡ some info
    → get_key_by_version t v m ≡ some info.key
unfolding get_key_by_version
key_by_version-entry t v info m e = rw (e, get_key_by_version)

key_by_version-congr :
    (t : KeyType) (v : ℕ) (m m' : KeyManager)
    → lookup v (key_map m' t) ≡ lookup v (key_map m t)
    → get_key_by_version t v m' ≡ get_key_by_version t v m
unfolding get_key_by_version
key_by_version-congr t v m m' e = rw (e, get_key_by_version)

key_by_version-retired :
    (t : KeyType) (v : ℕ) (info : KeyInfo) (m m' : KeyManager)
    → lookup v (key_map m t) ≡ some info
    → lookup v (key_map m' t) ≡ some (retired info)
    → get_key_by_version t v m' ≡ get_key_by_version t v m
key_by_version-retired t v info m m' e e' =
    rw (key_by_version-entry t v info m e, key_by_version-entry t v (retired info) m' e')

-- If no version is above the current one, a rotation keeps the key of every version that had
-- one, and again leaves no version above the current one.
pub rotate_key_keeps_keys :
    (t : KeyType) (w : ℕ) (key : Bytes) (now : ℕ) (info : KeyInfo) (m : KeyManager)
    → lookup (get_current_version m t) (key_map m t) ≡ some info
    → get_current_version m t < int_max
    → length key ≡ 16
    → IsLatest t m
    → lookup w (key_map m t) ≢ none
    → let m' = (rotate_key t (some key) now m).1 in
      IsLatest t m' × (get_key_by_version t w m' ≡ get_key_by_version t w m)
rotate_key_keeps_keys t w key now info m e room size latest present =
    let v = get_current_version m t in
    let m' = (rotate_key t (some key) now m).1 in
    let (_, cur, _, old, rest, _) = rotate_key_parts t key now info m e room size in
    (
      (λ x h. rest x (omega (arith, cur)) (omega (arith, cur)) ∙ latest x (omega (arith, cur))),
      elim (ℕ_discrete w v) [
        | yes same ↦ rw same (key_by_version-retired t v info m m' e old)
        | no other ↦
            key_by_version-congr t w m m' (rest w other λ above. present (latest w (omega arith)))
      ],
    )

-- If the version above the current one already has a key, a rotation replaces it: the old key
-- of that version is gone.
pub rotate_key_overwrites :
    (t : KeyType) (key : Bytes) (now : ℕ) (info old : KeyInfo) (m : KeyManager)
    → lookup (get_current_version m t) (key_map m t) ≡ some info
    → get_current_version m t < int_max
    → length key ≡ 16
    → lookup (get_current_version m t + 1) (key_map m t) ≡ some old
    → old.key ≢ key
    → let v = get_current_version m t in
      (get_key_by_version t (v + 1) m ≡ some old.key)
      × (get_key_by_version t (v + 1) (rotate_key t (some key) now m).1 ≢ some old.key)
rotate_key_overwrites t key now info old m e room size above differs =
    let v = get_current_version m t in
    let m' = (rotate_key t (some key) now m).1 in
    let (_, _, made, _, _, _) = rotate_key_parts t key now info m e room size in
    (
      key_by_version-entry t (v + 1) old m above,
      λ same. differs (
          sym (
            some-injective key old.key
              (sym (key_by_version-entry t (v + 1) (new_info key (v + 1)) m' made) ∙ same))),
    )

put_map-version :
    (t : KeyType) (k : SortedMap KeyInfo) (m : KeyManager)
    → get_current_version (put_map m t k) t ≡ get_current_version m t
put_map-version enc k m = refl
put_map-version idx k m = refl
put_map-version tag k m = refl

is_key_active-entry :
    (t : KeyType) (info : KeyInfo) (m : KeyManager)
    → lookup (get_current_version m t) (key_map m t) ≡ some info
    → is_key_active t m ≡ ok (is_enabled info.status)
unfolding is_key_active get_current_key_info
is_key_active-entry t info m e = rw (e, is_key_active)

lookup-put_map :
    (t : KeyType) (info : KeyInfo) (m : KeyManager)
    → let m' = put_map m t (insert (get_current_version m t) info (key_map m t)) in
      lookup (get_current_version m' t) (key_map m' t) ≡ some info
lookup-put_map enc info m = lookup-insert_self m.current_enc_version info m.enc_keys
lookup-put_map idx info m = lookup-insert_self m.current_idx_version info m.idx_keys
lookup-put_map tag info m = lookup-insert_self m.current_tag_version info m.tag_keys

-- If the random generator fails, the rotation throws, yet the current version has not moved and
-- its key is disabled: until another rotation the type has no active key.
pub rotate_key_without_random :
    (t : KeyType) (now : ℕ) (info : KeyInfo) (m : KeyManager)
    → lookup (get_current_version m t) (key_map m t) ≡ some info
    → let (r, m') = rotate_key t none now m in
      (r ≡ throw Error.failed_to_generate_new_key)
      × (get_current_version m' t ≡ get_current_version m t)
      × (is_key_active t m' ≡ ok false)
unfolding rotate_key is_enabled
rotate_key_without_random t now info m e =
    let k = insert (get_current_version m t) (retired info) (key_map m t) in
    rw e (
      refl,
      put_map-version t k m,
      is_key_active-entry t (retired info) (put_map m t k) (lookup-put_map t (retired info) m),
    )
