-- ===== src/Console/Rotation/InUse/Management.antt =====
-- What `keyManagement` and `checkAndAutoRotate` of src/main.cpp leave in use.
use sec_search.Prelude.{ℕ, Bool, true, false, if◌then◌else◌, ◌≡◌, ◌≢◌, refl, ◌⊎◌, inl, inr}
use sec_search.Prelude.Action.{Action, ◌>>=◌, ◌>>◌}
use sec_search.Prelude.Int.{ℤ}
use sec_search.Prelude.Triple.{Post, Triple, Triple-bind, Post-weaken, Keeps}
use sec_search.Crypto.Primitives.{Primitives}
use sec_search.Crypto.KeyManager.{
  KeyType, enc, idx, tag, get_current_key, get_current_key_info, set_last_rotate_time,
}
use sec_search.Database.ConnectionPool.{Mysql}
use sec_search.Database.Server.{Server}
use sec_search.Console.{App, on_keys}
use sec_search.Console.Input.{is_number}
use sec_search.Console.Rotation.{
  Clock, rotate, current_key, save_key, refresh, save_time, rotate_one, save_all, rotate_all,
  key_management,
}
use sec_search.Console.Rotation.InUse.{
  KeyType-discrete, AllInUse, SomeInUse, Anything, both, InUse-both, SomeInUse-Keeps, rotate-both,
  current_key-both, save_key-both, refresh-SomeInUse,
}

module _ (c : Primitives) (db : Mysql) (sv : Server) (writable : Bool) where
  save_time-both : (u : KeyType) → Keeps (both c db sv u) (save_time c db sv writable)
  unfolding save_time
  save_time-both enc s = refl
  save_time-both idx s = refl
  save_time-both tag s = refl

  -- The keys of some types are in use behind a call if they are before it.
  abbrev pub Holds :
      {A : Type 0} → (KeyType → Type 0) → Action (App c db sv) A → (KeyType → Type 0) → Type 0
  Holds P m Q = Triple (SomeInUse c db sv P) m (λ a. SomeInUse c db sv Q) (Anything c db sv)

  Holds-bind :
      {A B : Type 0} (P Q R : KeyType → Type 0) (m : Action (App c db sv) A)
      (f : A → Action (App c db sv) B)
      → Holds P m Q
      → ((a : A) → Holds Q (f a) R)
      → Holds P (m >>= f) R
  Holds-bind P Q R m f h k =
      Triple-bind (SomeInUse c db sv P) m (λ a. SomeInUse c db sv Q) (Anything c db sv) f
        (λ b. SomeInUse c db sv R) h k

  Holds-weaken :
      {A : Type 0} (P Q R : KeyType → Type 0) (m : Action (App c db sv) A)
      → Holds P m Q
      → ((u : KeyType) → R u → Q u)
      → Holds P m R
  Holds-weaken P Q R m h sub s p =
      Post-weaken (λ a. SomeInUse c db sv Q) (λ a. SomeInUse c db sv R) (Anything c db sv)
        (Anything c db sv) (m s) (λ a s' g u r. g u (sub u r)) (λ s' g. tt) (h s p)

  -- Behind a call that leaves them alone.
  Holds-after :
      {A B : Type 0} (P R : KeyType → Type 0) (m : Action (App c db sv) A)
      (f : A → Action (App c db sv) B)
      → ((u : KeyType) → P u → Keeps (both c db sv u) m)
      → ((a : A) → Holds P (f a) R)
      → Holds P (m >>= f) R
  Holds-after P R m f k h = Holds-bind P P R m f (SomeInUse-Keeps c db sv P m k) h

  rotate_one-Holds :
      (t : KeyType) (now : ℕ)
      → Holds (λ u. u ≢ t) (rotate_one c db sv writable t now) (λ u. (u ≢ t) ⊎ (u ≡ t))
  unfolding rotate_one
  rotate_one-Holds t now =
      let P : KeyType → Type 0 = λ u. u ≢ t in
      let R : KeyType → Type 0 = λ u. P u ⊎ (u ≡ t) in
      Holds-after P R (rotate c db sv t now) _ (λ u ne. rotate-both c db sv t u now ne)
        λ v.
          Holds-after P R (current_key c db sv t) _ (λ u ne. current_key-both c db sv t u)
            λ key.
              Holds-after P R (save_key c db sv t key v) _ (λ u ne. save_key-both c db sv t u key v)
                λ x.
                  Holds-after P R (save_time c db sv writable) _ (λ u ne. save_time-both u)
                    λ y. refresh-SomeInUse c db sv t P

  rotate_one-AllInUse :
      (t : KeyType) (now : ℕ)
      → Triple
          (AllInUse c db sv)
          (rotate_one c db sv writable t now)
          (λ a. AllInUse c db sv)
          (Anything c db sv)
  rotate_one-AllInUse t now s h =
      Post-weaken (λ a. SomeInUse c db sv (λ u. (u ≢ t) ⊎ (u ≡ t))) (λ a. AllInUse c db sv)
        (Anything c db sv) (Anything c db sv) (rotate_one c db sv writable t now s)
        (λ a s' g u. g u (elim (KeyType-discrete u t) [ yes e ↦ inr e | no e ↦ inl e ]))
        (λ s' g. tt) (rotate_one-Holds t now s λ u ne. h u)

  -- What the three refreshes at the end have put into use.
  abbrev pub Refreshed : KeyType → Type 0
  Refreshed u = ((⊥ ⊎ (u ≡ enc)) ⊎ (u ≡ idx)) ⊎ (u ≡ tag)

  pub Refreshed-all : (u : KeyType) → Refreshed u
  Refreshed-all enc = inl (inl (inr refl))
  Refreshed-all idx = inl (inr refl)
  Refreshed-all tag = inr refl

  pub refresh_all-Holds :
      Holds (λ u. ⊥) (refresh c db sv enc >> (refresh c db sv idx >> refresh c db sv tag)) Refreshed
  refresh_all-Holds =
      Holds-bind (λ u. ⊥) (λ u. ⊥ ⊎ (u ≡ enc)) Refreshed _ _
        (refresh-SomeInUse c db sv enc (λ u. ⊥))
        λ x.
          Holds-bind (λ u. ⊥ ⊎ (u ≡ enc)) (λ u. (⊥ ⊎ (u ≡ enc)) ⊎ (u ≡ idx)) Refreshed _ _
            (refresh-SomeInUse c db sv idx (λ u. ⊥ ⊎ (u ≡ enc)))
            λ y. refresh-SomeInUse c db sv tag (λ u. (⊥ ⊎ (u ≡ enc)) ⊎ (u ≡ idx))

  -- Nothing need be in use before.
  pub Holds-none :
      {A B : Type 0} (m : Action (App c db sv) A) (f : A → Action (App c db sv) B)
      → ((a : A) → Holds (λ u. ⊥) (f a) Refreshed)
      → Holds (λ u. ⊥) (m >>= f) Refreshed
  Holds-none m f h = Holds-after (λ u. ⊥) Refreshed m f (λ u no. absurd no) h

  save_all-Holds : (v w x : ℕ) → Holds (λ u. ⊥) (save_all c db sv writable v w x) Refreshed
  unfolding save_all
  save_all-Holds v w x = Holds-none (current_key c db sv enc) _ λ k1.
      Holds-none (current_key c db sv idx) _ λ k2. Holds-none (current_key c db sv tag) _ λ k3.
        Holds-none (save_key c db sv enc k1 v) _ λ p. Holds-none (save_key c db sv idx k2 w) _ λ q.
          Holds-none (save_key c db sv tag k3 x) _
            λ r. Holds-none (save_time c db sv writable) _ λ y. refresh_all-Holds

  rotate_all-Holds : (clock : Clock) → Holds (λ u. ⊥) (rotate_all c db sv writable clock) Refreshed
  unfolding rotate_all
  rotate_all-Holds clock = Holds-none (rotate c db sv enc clock.enc_rotated) _ λ v.
      Holds-none (rotate c db sv idx clock.idx_rotated) _
        λ w. Holds-none (rotate c db sv tag clock.tag_rotated) _ λ x. save_all-Holds v w x

  pub rotate_all-AllInUse :
      (clock : Clock)
      → Triple
          (AllInUse c db sv)
          (rotate_all c db sv writable clock)
          (λ a. AllInUse c db sv)
          (Anything c db sv)
  rotate_all-AllInUse clock s h =
      Post-weaken (λ a. SomeInUse c db sv Refreshed) (λ a. AllInUse c db sv) (Anything c db sv)
        (Anything c db sv) (rotate_all c db sv writable clock s) (λ a s' g u. g u (Refreshed-all u))
        (λ s' g. tt) (rotate_all-Holds clock s λ u no. absurd no)

  set_time-both :
      (now : ℕ) (u : KeyType)
      → Keeps
          (both c db sv u)
          (on_keys c db sv (set_last_rotate_time now) >> save_time c db sv writable)
  unfolding save_time set_last_rotate_time get_current_key get_current_key_info
  set_time-both now enc s = refl
  set_time-both now idx s = refl
  set_time-both now tag s = refl

  set_time-AllInUse :
      (now : ℕ)
      → Triple
          (AllInUse c db sv)
          (on_keys c db sv (set_last_rotate_time now) >> save_time c db sv writable)
          (λ a. AllInUse c db sv)
          (Anything c db sv)
  unfolding save_time set_last_rotate_time
  set_time-AllInUse now s h u = InUse-both c db sv u s _ (set_time-both now u s) (h u)

  if-AllInUse :
      (b : Bool) (m n : Action (App c db sv) (Unit {0}))
      → Triple (AllInUse c db sv) m (λ a. AllInUse c db sv) (Anything c db sv)
      → Triple (AllInUse c db sv) n (λ a. AllInUse c db sv) (Anything c db sv)
      → Triple (AllInUse c db sv) (if b then m else n) (λ a. AllInUse c db sv) (Anything c db sv)
  if-AllInUse true m n h k = h
  if-AllInUse false m n h k = k

  key_management-AllInUse :
      (choice : ℤ) (clock : Clock)
      → Triple
          (AllInUse c db sv)
          (key_management c db sv writable choice clock)
          (λ a. AllInUse c db sv)
          (Anything c db sv)
  unfolding key_management
  key_management-AllInUse choice clock =
      if-AllInUse (is_number choice 1) _ _ (rotate_one-AllInUse enc clock.enc_rotated) (
        if-AllInUse (is_number choice 2) _ _ (rotate_one-AllInUse idx clock.idx_rotated) (
          if-AllInUse (is_number choice 3) _ _ (rotate_one-AllInUse tag clock.tag_rotated) (
            if-AllInUse (is_number choice 4) _ _ (rotate_all-AllInUse clock)
              (if-AllInUse (is_number choice 6) _ _ (set_time-AllInUse clock.now) (λ s h. h)))))

  -- If the three keys that the program works with are the manager's current ones, they are again
  -- after a key management that returns, whichever its choice is.
  pub key_management_in_use :
      (choice : ℤ) (clock : Clock) (s : App c db sv)
      → AllInUse c db sv s
      → Post
          (λ a. AllInUse c db sv)
          (Anything c db sv)
          (key_management c db sv writable choice clock s)
  key_management_in_use choice clock s h = key_management-AllInUse choice clock s h
