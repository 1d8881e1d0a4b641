-- ===== src/Console/Rotation/Stale/Drawn.antt =====
-- An automatic rotation of src/main.cpp while no key can be saved.
use sec_search.Prelude.{
  false, ℕ, ◌+◌, ◌<◌, ◌≤◌, Bool, some, Bytes, length, ok, throw, Error, ◌≡◌, refl, ap,
}
use sec_search.Prelude.SortedMap.{lookup, lookup-insert_self}
use sec_search.Crypto.Primitives.{Primitives, Lawful}
use sec_search.Crypto.KeyManager.{
  KeyManager, KeyInfo, KeyType, enc, idx, tag, key_map, get_current_version, get_current_key,
  get_current_key_info, int_max,
}
use sec_search.Crypto.KeyManager.Rotation.{rotated, rotate_key-rotated, new_info}
use sec_search.Database.ConnectionPool.{Mysql}
use sec_search.Database.Server.{Server}
use sec_search.Console.{App}
use sec_search.Console.Rotation.{
  Clock, auto_rotate_days, days_since, load_time, rotate, draw, drawn, save_key,
  check_and_auto_rotate,
}
use sec_search.Console.Rotation.InUse.Automatic.{load_time-ok}
use sec_search.Console.Rotation.Stale.{globals, HalfWay, check_and_auto_rotate-half_way}

current_key-entry :
    (t : KeyType) (info : KeyInfo) (m : KeyManager)
    → lookup (get_current_version m t) (key_map m t) ≡ some info
    → get_current_key t m ≡ ok info.key
unfolding get_current_key get_current_key_info
current_key-entry t info m e = rw (e, get_current_key) refl

entry-rotated :
    (t : KeyType) (key : Bytes) (now : ℕ) (info : KeyInfo) (m : KeyManager)
    → let m' = rotated t key now info m in
      lookup (get_current_version m' t) (key_map m' t)
      ≡ some (new_info key (get_current_version m t + 1))
entry-rotated enc key now info m = lookup-insert_self (m.current_enc_version + 1) _ _
entry-rotated idx key now info m = lookup-insert_self (m.current_idx_version + 1) _ _
entry-rotated tag key now info m = lookup-insert_self (m.current_tag_version + 1) _ _

module _ (c : Primitives) (laws : Lawful c) (db : Mysql) (sv : Server) where
  open laws use {Ready, random_key-length}

  -- The program behind a rotation that succeeds.
  abbrev after_rotation : KeyType → Bytes → ℕ → KeyInfo → App c db sv → App c db sv
  after_rotation t key now info s = record s {
    keys = rotated t key now info s.keys;
    store = record s.store { env = (c.random_key s.store.env).1 };
  }

  -- A type whose current version has an entry, and a number above it.
  abbrev pub HasCurrent : KeyType → KeyInfo → KeyManager → Type 0
  HasCurrent t info m =
      (lookup (get_current_version m t) (key_map m t) ≡ some info)
      × (get_current_version m t < int_max)

  rotate-drawn :
      (t : KeyType) (key : Bytes) (now : ℕ) (info : KeyInfo) (s : App c db sv)
      → HasCurrent t info s.keys
      → (c.random_key s.store.env).0 ≡ ok key
      → length key ≡ 16
      → rotate c db sv t now s
        ≡ (ok (get_current_version s.keys t + 1), after_rotation t key now info s)
  unfolding rotate draw drawn
  rotate-drawn t key now info s (e, room) random size =
      rw (e, draw, random, rotate_key-rotated t key now info s.keys e room size) refl

  module _ (writable : Bool) (clock : Clock) (s : App c db sv) (ie ii it : KeyInfo) where
    abbrev loaded : App c db sv
    loaded = (load_time c db sv clock.loaded s).1

    -- A rotation is due, the current versions have entries, and the database takes no key.
    pub record CannotSave : Type 0 where
      pub ready : Ready s.store.env
      pub due : auto_rotate_days ≤ days_since clock.now loaded.keys.last_rotate_time
      pub enc_current : HasCurrent enc ie loaded.keys
      pub idx_current : HasCurrent idx ii loaded.keys
      pub tag_current : HasCurrent tag it loaded.keys
      pub refuses :
          (key : Bytes) (version : ℕ) (s' : App c db sv)
          → s'.store.session ≡ s.store.session
          → (x : Error) × ((save_key c db sv enc key version s').0 ≡ throw x)

    -- Three keys of the random generator, one behind the other.
    pub record Drawn (ke ki kt : Bytes) : Type 0 where
      pub enc_drawn : (c.random_key s.store.env).0 ≡ ok ke
      pub idx_drawn : (c.random_key (c.random_key s.store.env).1).0 ≡ ok ki
      pub tag_drawn : (c.random_key (c.random_key (c.random_key s.store.env).1).1).0 ≡ ok kt

    half_way :
        (ke ki kt : Bytes)
        → CannotSave
        → Drawn ke ki kt
        → length ke ≡ 16
        → length ki ≡ 16
        → length kt ≡ 16
        → let s1 = after_rotation enc ke clock.enc_rotated ie loaded in
          let s2 = after_rotation idx ki clock.idx_rotated ii s1 in
          let s3 = after_rotation tag kt clock.tag_rotated it s2 in
          (x : Error) × HalfWay c db sv writable clock s loaded s1 s2 s3
            (get_current_version loaded.keys enc + 1)
            (get_current_version loaded.keys idx + 1)
            (get_current_version loaded.keys tag + 1)
            ke
            ki
            kt
            x
    unfolding load_time
    half_way ke ki kt h d le li lt =
        let s1 = after_rotation enc ke clock.enc_rotated ie loaded in
        let s2 = after_rotation idx ki clock.idx_rotated ii s1 in
        let s3 = after_rotation tag kt clock.tag_rotated it s2 in
        let (x, refused) = h.refuses ke (get_current_version loaded.keys enc + 1) s3 refl in
        (
          x,
          record {
            loads = ap (λ r. (r, loaded)) (load_time-ok c db sv clock.loaded s);
            due = h.due;
            enc_rotates =
                rotate-drawn enc ke clock.enc_rotated ie loaded h.enc_current d.enc_drawn le;
            idx_rotates = rotate-drawn idx ki clock.idx_rotated ii s1 h.idx_current d.idx_drawn li;
            tag_rotates = rotate-drawn tag kt clock.tag_rotated it s2 h.tag_current d.tag_drawn lt;
            enc_current =
                current_key-entry enc _ s3.keys
                  (entry-rotated enc ke clock.enc_rotated ie loaded.keys);
            idx_current =
                current_key-entry idx _ s3.keys (entry-rotated idx ki clock.idx_rotated ii s1.keys);
            tag_current =
                current_key-entry tag _ s3.keys (entry-rotated tag kt clock.tag_rotated it s2.keys);
            fails = refused;
          },
        )

    -- If a rotation is due, each current version has an entry and is below the greatest `int`, the
    -- library is ready and no key can be saved, then `checkAndAutoRotate` answers false, and
    -- afterwards the manager's current keys are three keys newly drawn from the random generator,
    -- while the three keys that the program works with and the file of the rotation time are as they
    -- were before.
    pub check_and_auto_rotate_stale :
        CannotSave
        → let (r, s') = check_and_auto_rotate c db sv writable clock s in
          (ke : Bytes) × (ki : Bytes) × (kt : Bytes) × Drawn ke ki kt
          × (r ≡ ok false)
          × (get_current_key enc s'.keys ≡ ok ke)
          × (get_current_key idx s'.keys ≡ ok ki)
          × (get_current_key tag s'.keys ≡ ok kt)
          × (globals c db sv s' ≡ globals c db sv s)
    check_and_auto_rotate_stale h =
        let (ke, de, le, r1) = random_key-length s.store.env h.ready in
        let (ki, di, li, r2) = random_key-length (c.random_key s.store.env).1 r1 in
        let (kt, dt, lt, r3) = random_key-length (c.random_key (c.random_key s.store.env).1).1 r2 in
        let d : Drawn ke ki kt = record { enc_drawn = de; idx_drawn = di; tag_drawn = dt } in
        let (x, half) = half_way ke ki kt h d le li lt in
        let (answered, enc_new, idx_new, tag_new, kept) =
          check_and_auto_rotate-half_way c db sv writable clock s _ _ _ _ _ _ _ ke ki kt x half in
        (ke, ki, kt, d, answered, enc_new, idx_new, tag_new, kept)
