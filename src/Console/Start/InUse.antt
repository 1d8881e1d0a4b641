-- ===== src/Console/Start/InUse.antt =====
-- The keys in use when the loop of src/main.cpp begins.
use sec_search.Prelude.{
  ℕ, Bool, true, false, Bytes, Result, ok, throw, leb, ◌≡◌, refl, ◌∙◌, ap, ◌⊎◌, inl, inr,
}
use sec_search.Prelude.Action.{Action, pure, ◌>>=◌, ◌>>◌}
use sec_search.Prelude.Triple.{Post, Triple, Triple-bind}
use sec_search.Crypto.Primitives.{Primitives}
use sec_search.Crypto.KeyManager.{KeyType, enc, idx, tag, init}
use sec_search.Database.ConnectionPool.{Mysql}
use sec_search.Database.Server.{Server}
use sec_search.Console.{App, on_keys}
use sec_search.Console.Rotation.{Clock, auto_rotate_days, refresh, load_time, check_and_auto_rotate}
use sec_search.Console.Rotation.InUse.{AllInUse, SomeInUse, Anything, refresh-SomeInUse}
use sec_search.Console.Rotation.InUse.Management.{Refreshed-all}
use sec_search.Console.Rotation.InUse.Automatic.{
  days_found, Rotated, load_time-AllInUse, check_and_auto_rotate_in_use,
}
use sec_search.Console.Start.{load_or_initialise, start}

module _ (c : Primitives) (db : Mysql) (sv : Server) (writable : Bool) (clock : Clock) where
  -- Where an automatic rotation ends that was due and failed; the keys were in use before it.
  abbrev pub Missed : App c db sv → Type 0
  Missed s' =
      (s : App c db sv) × AllInUse c db sv s
      × (leb auto_rotate_days (days_found c db sv clock s) ≡ true)
      × (check_and_auto_rotate c db sv writable clock s ≡ (ok false, s'))

  abbrev pub Started : App c db sv → Type 0
  Started s = AllInUse c db sv s ⊎ Missed s

  -- A call before which, and after which, nothing need hold, and what follows it.
  Triple-any :
      {A B : Type 0} (m : Action (App c db sv) A) (f : A → Action (App c db sv) B)
      → ((a : A) → Triple (Anything c db sv) (f a) (λ b. Started) (Anything c db sv))
      → Triple (Anything c db sv) (m >>= f) (λ b. Started) (Anything c db sv)
  Triple-any {A} m f h =
      Triple-bind (Anything c db sv) m (λ a. Anything c db sv) (Anything c db sv) f (λ b. Started)
        (λ s g. anything (m s)) h
    where
      anything : (r : Result A × App c db sv) → Post (λ a. Anything c db sv) (Anything c db sv) r
      anything (ok a, s) = tt
      anything (throw e, s) = tt

  -- The last call of the start.
  rotated-Started :
      Triple
        (AllInUse c db sv)
        (check_and_auto_rotate c db sv writable clock >>= λ rotated. pure tt)
        (λ a. Started)
        (Anything c db sv)
  rotated-Started s h =
      through (check_and_auto_rotate c db sv writable clock s) refl
        (check_and_auto_rotate_in_use c db sv writable clock s h)
    where
      due : Bool
      due = leb auto_rotate_days (days_found c db sv clock s)

      through :
          (r : Result Bool × App c db sv)
          → check_and_auto_rotate c db sv writable clock s ≡ r
          → Rotated c db sv due r
          → Post (λ a. Started) (Anything c db sv) (((λ s'. r) >>= λ rotated. pure tt) s)
      through (ok b, s') e (inl (_, g)) = inl g
      through (ok b, s') e (inr (g, d)) = inr (s, h, d, e ∙ ap (λ x. (x, s')) g)
      through (throw x, s') e g = tt

  load_time-Triple :
      (now : ℕ)
      → Triple (AllInUse c db sv) (load_time c db sv now) (λ a. AllInUse c db sv) (Anything c db sv)
  load_time-Triple now s h = through (load_time c db sv now s) (load_time-AllInUse c db sv now s h)
    where
      through :
          (r : Result (Unit {0}) × App c db sv)
          → AllInUse c db sv r.1
          → Post (λ a. AllInUse c db sv) (Anything c db sv) r
      through (ok a, s') g = g
      through (throw e, s') g = tt

  -- Behind a refresh, more types are in use.
  refresh-then :
      (t : KeyType) (P : KeyType → Type 0) (m : Action (App c db sv) (Unit {0}))
      → Triple (SomeInUse c db sv (λ u. P u ⊎ (u ≡ t))) m (λ a. Started) (Anything c db sv)
      → Triple (SomeInUse c db sv P) (refresh c db sv t >> m) (λ a. Started) (Anything c db sv)
  refresh-then t P m h =
      Triple-bind (SomeInUse c db sv P) (refresh c db sv t)
        (λ a. SomeInUse c db sv (λ u. P u ⊎ (u ≡ t))) (Anything c db sv) (λ a. m) (λ a. Started)
        (refresh-SomeInUse c db sv t P) (λ a. h)

  rest-Started :
      (read : ℕ)
      → Triple
          (AllInUse c db sv)
          (load_time c db sv read
            >> (check_and_auto_rotate c db sv writable clock >>= λ rotated. pure tt))
          (λ a. Started)
          (Anything c db sv)
  rest-Started read =
      Triple-bind (AllInUse c db sv) (load_time c db sv read) (λ a. AllInUse c db sv)
        (Anything c db sv) _ (λ a. Started) (load_time-Triple read) (λ a. rotated-Started)

  -- If the start of the program returns, then the three keys that the program works with are the
  -- manager's current ones; or they were before the automatic rotation at the end of the start, and
  -- that was due and failed.
  pub start_in_use :
      (kek : Bytes) (started read : ℕ) (s : App c db sv)
      → Post (λ a. Started) (Anything c db sv) (start c db sv writable kek started read clock s)
  unfolding start
  start_in_use kek started read s =
      let none_yet : KeyType → Type 0 = λ u. ⊥ in
      Triple-any (on_keys c db sv (init kek started)) _
        (λ a. Triple-any (load_or_initialise c db sv kek) _ λ b s' g.
          refresh-then enc none_yet _
            (refresh-then idx (λ u. ⊥ ⊎ (u ≡ enc)) _
              (refresh-then tag (λ u. (⊥ ⊎ (u ≡ enc)) ⊎ (u ≡ idx)) _
                λ s3 h. rest-Started read s3 λ u. h u (Refreshed-all c db sv writable u)))
            s' λ u no. absurd no)
        s tt
