-- ===== src/Console/Rotation/InUse/Automatic.antt =====
-- The keys in use behind `checkAndAutoRotate` of src/main.cpp.
use sec_search.Prelude.{
  ℕ, Bool, true, false, [], ◌∷◌, Option, none, some, Bytes, Result, ok, throw, leb, ◌≡◌, refl, ◌⊎◌,
  inl, inr, if◌then◌else◌,
}
use sec_search.Prelude.Action.{pure}
use sec_search.Prelude.Triple.{Post}
use sec_search.Crypto.Primitives.{Primitives}
use sec_search.Crypto.KeyManager.{
  KeyManager, KeyType, enc, idx, tag, get_current_key, get_current_key_info,
}
use sec_search.Crypto.KeyManager.RotateTime.{load_rotate_time_from_file}
use sec_search.Database.ConnectionPool.{Mysql}
use sec_search.Database.Server.{Server}
use sec_search.Console.{App}
use sec_search.Console.Rotation.{
  Clock, auto_rotate_days, days_since, load_time, rotate_all, tried, check_and_auto_rotate,
}
use sec_search.Console.Rotation.InUse.{AllInUse, Anything, both-keys, InUse-both}
use sec_search.Console.Rotation.InUse.Management.{rotate_all-AllInUse}

load-keys :
    (u : KeyType) (file : Option Bytes) (now : ℕ) (m : KeyManager)
    → get_current_key u (load_rotate_time_from_file file now m).1 ≡ get_current_key u m
unfolding load_rotate_time_from_file get_current_key get_current_key_info
load-keys enc none now m = refl
load-keys idx none now m = refl
load-keys tag none now m = refl
load-keys u (some []) now m = refl
load-keys enc (some (b ∷ text)) now m = refl
load-keys idx (some (b ∷ text)) now m = refl
load-keys tag (some (b ∷ text)) now m = refl

load-ok :
    (file : Option Bytes) (now : ℕ) (m : KeyManager)
    → (load_rotate_time_from_file file now m).0 ≡ ok tt
unfolding load_rotate_time_from_file
load-ok none now m = refl
load-ok (some []) now m = refl
load-ok (some (b ∷ text)) now m = refl

module _ (c : Primitives) (db : Mysql) (sv : Server) where
  pub load_time-AllInUse :
      (now : ℕ) (s : App c db sv)
      → AllInUse c db sv s
      → AllInUse c db sv (load_time c db sv now s).1
  unfolding load_time
  load_time-AllInUse now s h u =
      InUse-both c db sv u s (load_time c db sv now s).1
        (both-keys c db sv u _ s (load-keys u s.rotate_file now s.keys)) (h u)

  pub load_time-ok : (now : ℕ) (s : App c db sv) → (load_time c db sv now s).0 ≡ ok tt
  unfolding load_time
  load_time-ok now s = load-ok s.rotate_file now s.keys

  -- The days since the last rotation, as the call finds them.
  abbrev pub days_found : Clock → App c db sv → ℕ
  days_found clock s =
      days_since clock.now (load_time c db sv clock.loaded s).1.keys.last_rotate_time

  -- What a call answers and leaves, where `due` says whether a rotation is due.
  abbrev pub Rotated : Bool → Result Bool × App c db sv → Type 0
  Rotated due (r, s) = ((r ≡ ok due) × AllInUse c db sv s) ⊎ ((r ≡ ok false) × (due ≡ true))

  tried-Rotated :
      (r : Result (Unit {0}) × App c db sv)
      → Post (λ a. AllInUse c db sv) (Anything c db sv) r
      → Rotated true (tried r)
  unfolding tried
  tried-Rotated (ok a, s) h = inl (refl, h)
  tried-Rotated (throw e, s) h = inr (refl, refl)

  -- If the three keys that the program works with are the manager's current ones, they are again
  -- behind `checkAndAutoRotate`, which then answers whether a rotation was due; or one was due, and
  -- the call answers false.
  pub check_and_auto_rotate_in_use :
      (writable : Bool) (clock : Clock) (s : App c db sv)
      → AllInUse c db sv s
      → Rotated
          (leb auto_rotate_days (days_found clock s))
          (check_and_auto_rotate c db sv writable clock s)
  unfolding check_and_auto_rotate
  check_and_auto_rotate_in_use writable clock s h =
      let s1 : App c db sv = (load_time c db sv clock.loaded s).1 in
      let kept : AllInUse c db sv s1 = load_time-AllInUse clock.loaded s h in
      rw (load_time-ok clock.loaded s) (decide s1 kept (leb auto_rotate_days (days_found clock s)))
    where
      decide :
          (s1 : App c db sv)
          → AllInUse c db sv s1
          → (b : Bool)
          → Rotated b
              ((if b then (λ s'. tried (rotate_all c db sv writable clock s')) else pure false) s1)
      decide s1 g true =
          tried-Rotated (rotate_all c db sv writable clock s1)
            (rotate_all-AllInUse c db sv writable clock s1 g)
      decide s1 g false = inl (refl, g)
