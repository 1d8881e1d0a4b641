-- ===== src/Console/Rotation/Stale.antt =====
-- An automatic rotation of src/main.cpp that fails half way.
pub mod Drawn
use sec_search.Prelude.{
  ℕ, ◌≤◌, Bool, true, false, Option, none, some, Bytes, Result, ok, throw, Error, leb, ◌≡◌, refl,
  ◌∙◌, ap, sym, arith,
}
use sec_search.Prelude.Action.{◌>>=◌}
use sec_search.Prelude.Triple.{Keeps, Keeps-bind}
use sec_search.Prelude.SortedMap.{lookup}
use sec_search.Crypto.Primitives.{Primitives}
use sec_search.Crypto.KeyManager.{
  KeyInfo, KeyType, enc, idx, tag, key_map, get_current_version, get_current_key, rotate_key,
}
use sec_search.Database.ConnectionPool.{Mysql}
use sec_search.Database.Server.{Server}
use sec_search.Console.{App, on_keys}
use sec_search.Console.Rotation.{
  Clock, auto_rotate_days, days_since, load_time, rotate, draw, save_key, current_key, save_all,
  rotate_all, tried, check_and_auto_rotate,
}

module _ (c : Primitives) (db : Mysql) (sv : Server) where
  -- The three keys that the program works with, and the file.
  abbrev pub Globals : Type 0
  Globals = Bytes × Bytes × Bytes × Option Bytes

  abbrev pub globals : App c db sv → Globals
  globals s = (s.enc_key, s.idx_key, s.tag_key, s.rotate_file)

  draw-globals : (entry : Option KeyInfo) → Keeps globals (draw c db sv entry)
  unfolding draw
  draw-globals none s = refl
  draw-globals (some info) s = refl

  rotate_with-globals :
      (t : KeyType) (now : ℕ) (entry : Option KeyInfo)
      → Keeps globals (draw c db sv entry >>= λ random. on_keys c db sv (rotate_key t random now))
  rotate_with-globals t now entry =
      Keeps-bind globals (draw c db sv entry) (λ random. on_keys c db sv (rotate_key t random now))
        (draw-globals entry) (λ random s. refl)

  rotate-globals : (t : KeyType) (now : ℕ) → Keeps globals (rotate c db sv t now)
  unfolding rotate
  rotate-globals t now s =
      rotate_with-globals t now (lookup (get_current_version s.keys t) (key_map s.keys t)) s

  load_time-globals : (now : ℕ) → Keeps globals (load_time c db sv now)
  unfolding load_time
  load_time-globals now s = refl

  module _ (writable : Bool) (clock : Clock) (s s0 s1 s2 s3 : App c db sv) (v1 v2 v3 : ℕ)
      (ke ki kt : Bytes) (e : Error) where
    -- The three rotations return, and the first of the new keys cannot be saved.
    pub record HalfWay : Type 0 where
      pub loads : load_time c db sv clock.loaded s ≡ (ok tt, s0)
      pub due : auto_rotate_days ≤ days_since clock.now s0.keys.last_rotate_time
      pub enc_rotates : rotate c db sv enc clock.enc_rotated s0 ≡ (ok v1, s1)
      pub idx_rotates : rotate c db sv idx clock.idx_rotated s1 ≡ (ok v2, s2)
      pub tag_rotates : rotate c db sv tag clock.tag_rotated s2 ≡ (ok v3, s3)
      pub enc_current : get_current_key enc s3.keys ≡ ok ke
      pub idx_current : get_current_key idx s3.keys ≡ ok ki
      pub tag_current : get_current_key tag s3.keys ≡ ok kt
      pub fails : (save_key c db sv enc ke v1 s3).0 ≡ throw e

    save_all-fails :
        HalfWay
        → save_all c db sv writable v1 v2 v3 s3 ≡ (throw e, (save_key c db sv enc ke v1 s3).1)
    unfolding save_all current_key
    save_all-fails h = rw (h.enc_current, h.idx_current, h.tag_current, h.fails) refl

    rotate_all-fails :
        HalfWay
        → rotate_all c db sv writable clock s0 ≡ (throw e, (save_key c db sv enc ke v1 s3).1)
    unfolding rotate_all
    rotate_all-fails h = rw (h.enc_rotates, h.idx_rotates, h.tag_rotates) (save_all-fails h)

    globals-kept : HalfWay → globals s3 ≡ globals s
    globals-kept h =
        ap (λ (r : Result ℕ × App c db sv). globals r.1) (sym h.tag_rotates)
        ∙ rotate-globals tag clock.tag_rotated s2
        ∙ ap (λ (r : Result ℕ × App c db sv). globals r.1) (sym h.idx_rotates)
        ∙ rotate-globals idx clock.idx_rotated s1
        ∙ ap (λ (r : Result ℕ × App c db sv). globals r.1) (sym h.enc_rotates)
        ∙ rotate-globals enc clock.enc_rotated s0
        ∙ ap (λ (r : Result (Unit {0}) × App c db sv). globals r.1) (sym h.loads)
        ∙ load_time-globals clock.loaded s

    pub check_and_auto_rotate-half_way :
        HalfWay
        → let (r, s') = check_and_auto_rotate c db sv writable clock s in
          (r ≡ ok false)
          × (get_current_key enc s'.keys ≡ ok ke)
          × (get_current_key idx s'.keys ≡ ok ki)
          × (get_current_key tag s'.keys ≡ ok kt)
          × (globals s' ≡ globals s)
    unfolding check_and_auto_rotate tried save_key
    check_and_auto_rotate-half_way h =
        let due : leb auto_rotate_days (days_since clock.now s0.keys.last_rotate_time) ≡ true =
          ground (arith, h.due) in
        rw (h.loads, due, rotate_all-fails h)
          (refl, h.enc_current, h.idx_current, h.tag_current, globals-kept h)
