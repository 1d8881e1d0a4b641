-- ===== src/Console/Rotation/InUse.antt =====
-- The keys that the program of src/main.cpp works with, and the manager's current ones.
pub mod Automatic
pub mod Management
use sec_search.Prelude.{
  ℕ, Bool, true, false, Option, Option-cases, none, some, Bytes, Result, ok, throw, if◌then◌else◌,
  ◌≡◌, ◌≢◌, refl, ◌∙◌, ap, sym, ◌⊎◌, inl, inr,
}
use sec_search.Prelude.Action.{Action, modify, ◌>>=◌, ◌>>◌}
use sec_search.Prelude.Int.{ℤ}
use sec_search.Prelude.Triple.{Post, Triple, Triple-bind, Post-weaken, Keeps, Keeps-bind}
use sec_search.Prelude.SortedMap.{SortedMap, lookup}
use sec_search.Crypto.Primitives.{Primitives}
use sec_search.Crypto.KeyManager.{
  KeyManager, KeyInfo, KeyType, enc, idx, tag, key_map, put_map, get_current_version,
  get_current_key, get_current_key_info, rotate_key, set_last_rotate_time,
}
use sec_search.Crypto.KeyManager.Invariant.{installed, rotate_key-state, rotate_key-missing}
use sec_search.Database.ConnectionPool.{Mysql}
use sec_search.Database.Server.{Server}
use sec_search.Console.{App, on_keys}
use sec_search.Console.Input.{is_number}
use sec_search.Console.Rotation.{
  Clock, draw, rotate, current_key, save_key, put_global, refresh, save_time, rotate_one, save_all,
  rotate_all, key_management,
}

pub KeyType-discrete : Discrete KeyType
KeyType-discrete = hlevel

put_map-others :
    (t u : KeyType) (m : KeyManager) (x : SortedMap KeyInfo)
    → u ≢ t
    → get_current_key u (put_map m t x) ≡ get_current_key u m
unfolding get_current_key get_current_key_info
put_map-others enc enc m x h = absurd (h refl)
put_map-others idx idx m x h = absurd (h refl)
put_map-others tag tag m x h = absurd (h refl)
put_map-others enc idx m x h = refl
put_map-others enc tag m x h = refl
put_map-others idx enc m x h = refl
put_map-others idx tag m x h = refl
put_map-others tag enc m x h = refl
put_map-others tag idx m x h = refl

installed-others :
    (t u : KeyType) (key : Bytes) (v now : ℕ) (m : KeyManager)
    → u ≢ t
    → get_current_key u (installed t key v now m) ≡ get_current_key u m
unfolding get_current_key get_current_key_info
installed-others enc enc key v now m h = absurd (h refl)
installed-others idx idx key v now m h = absurd (h refl)
installed-others tag tag key v now m h = absurd (h refl)
installed-others enc idx key v now m h = refl
installed-others enc tag key v now m h = refl
installed-others idx enc key v now m h = refl
installed-others idx tag key v now m h = refl
installed-others tag enc key v now m h = refl
installed-others tag idx key v now m h = refl

-- A rotation leaves the other types' current keys alone, whether it returns or throws.
rotate_key-others :
    (t u : KeyType) (random : Option Bytes) (now : ℕ) (m : KeyManager)
    → u ≢ t
    → get_current_key u (rotate_key t random now m).1 ≡ get_current_key u m
rotate_key-others t u random now m h =
    elim (Option-cases (lookup (get_current_version m t) (key_map m t))) [
      | inl e ↦ ap (get_current_key u) (rotate_key-missing t random now m e)
      | inr (info, e) ↦ elim (rotate_key-state t random now m info e) [
        | inl half ↦ ap (get_current_key u) half ∙ put_map-others t u m _ h
        | inr (key, size, full) ↦
            ap (get_current_key u) full
            ∙ installed-others t u key _ now _ h
            ∙ put_map-others t u m _ h
      ]
    ]

module _ (c : Primitives) (db : Mysql) (sv : Server) where
  abbrev pub global : KeyType → App c db sv → Bytes
  global enc s = s.enc_key
  global idx s = s.idx_key
  global tag s = s.tag_key

  abbrev pub InUse : KeyType → App c db sv → Type 0
  InUse t s = get_current_key t s.keys ≡ ok (global t s)

  abbrev pub AllInUse : App c db sv → Type 0
  AllInUse s = (t : KeyType) → InUse t s

  -- Those of some types.
  abbrev pub SomeInUse : (KeyType → Type 0) → App c db sv → Type 0
  SomeInUse P s = (u : KeyType) → P u → InUse u s

  abbrev pub Anything : App c db sv → Type 0
  Anything s = Unit {0}

  -- What a call has to leave alone.
  abbrev pub both : KeyType → App c db sv → Result Bytes × Bytes
  both u s = (get_current_key u s.keys, global u s)

  global-put :
      (t u : KeyType) (key : Bytes) (s : App c db sv)
      → u ≢ t
      → global u (put_global c db sv t key s) ≡ global u s
  global-put enc enc key s h = absurd (h refl)
  global-put idx idx key s h = absurd (h refl)
  global-put tag tag key s h = absurd (h refl)
  global-put enc idx key s h = refl
  global-put enc tag key s h = refl
  global-put idx enc key s h = refl
  global-put idx tag key s h = refl
  global-put tag enc key s h = refl
  global-put tag idx key s h = refl

  global-put_self :
      (t : KeyType) (key : Bytes) (s : App c db sv) → global t (put_global c db sv t key s) ≡ key
  global-put_self enc key s = refl
  global-put_self idx key s = refl
  global-put_self tag key s = refl

  keys-put :
      (t : KeyType) (key : Bytes) (s : App c db sv) → (put_global c db sv t key s).keys ≡ s.keys
  keys-put enc key s = refl
  keys-put idx key s = refl
  keys-put tag key s = refl

  pub InUse-both :
      (u : KeyType) (s s' : App c db sv) → both u s' ≡ both u s → InUse u s → InUse u s'
  InUse-both u s s' e h = ap (λ p. p.0) e ∙ h ∙ ap ok (sym (ap (λ p. p.1) e))

  pub SomeInUse-Keeps :
      {A : Type 0} (P : KeyType → Type 0) (m : Action (App c db sv) A)
      → ((u : KeyType) → P u → Keeps (both u) m)
      → Triple (SomeInUse P) m (λ a. SomeInUse P) Anything
  SomeInUse-Keeps {A} P m k s h = Post-state (m s) λ u p. InUse-both u s (m s).1 (k u p s) (h u p)
    where
      Post-state :
          (r : Result A × App c db sv) → SomeInUse P r.1 → Post (λ a. SomeInUse P) Anything r
      Post-state (ok a, s') g = g
      Post-state (throw e, s') g = tt

  draw-both : (u : KeyType) (entry : Option KeyInfo) → Keeps (both u) (draw c db sv entry)
  unfolding draw
  draw-both enc none s = refl
  draw-both idx none s = refl
  draw-both tag none s = refl
  draw-both enc (some info) s = refl
  draw-both idx (some info) s = refl
  draw-both tag (some info) s = refl

  pub both-keys :
      (u : KeyType) (m : KeyManager) (s : App c db sv)
      → get_current_key u m ≡ get_current_key u s.keys
      → both u (record s { keys = m }) ≡ both u s
  both-keys enc m s e = ap (λ r. (r, s.enc_key)) e
  both-keys idx m s e = ap (λ r. (r, s.idx_key)) e
  both-keys tag m s e = ap (λ r. (r, s.tag_key)) e

  install-both :
      (t u : KeyType) (now : ℕ) (random : Option Bytes)
      → u ≢ t
      → Keeps (both u) (on_keys c db sv (rotate_key t random now))
  install-both t u now random h s = both-keys u _ s (rotate_key-others t u random now s.keys h)

  pub rotate-both : (t u : KeyType) (now : ℕ) → u ≢ t → Keeps (both u) (rotate c db sv t now)
  unfolding rotate
  rotate-both t u now h s =
      Keeps-bind (both u) (draw c db sv _) (λ random. on_keys c db sv (rotate_key t random now))
        (draw-both u (lookup (get_current_version s.keys t) (key_map s.keys t)))
        (λ random. install-both t u now random h) s

  pub current_key-both : (t u : KeyType) → Keeps (both u) (current_key c db sv t)
  unfolding current_key
  current_key-both t u s = refl

  pub save_key-both :
      (t u : KeyType) (key : Bytes) (v : ℕ) → Keeps (both u) (save_key c db sv t key v)
  unfolding save_key
  save_key-both t enc key v s = refl
  save_key-both t idx key v s = refl
  save_key-both t tag key v s = refl

  pub refresh-SomeInUse :
      (t : KeyType) (P : KeyType → Type 0)
      → Triple (SomeInUse P) (refresh c db sv t) (λ a. SomeInUse (λ u. P u ⊎ (u ≡ t))) Anything
  unfolding refresh current_key
  refresh-SomeInUse t P s h = through (get_current_key t s.keys) refl
    where
      put : Bytes → App c db sv
      put key = put_global c db sv t key s

      kept : (u : KeyType) (key : Bytes) → u ≢ t → InUse u s → InUse u (put key)
      kept u key ne i =
          InUse-both u s (put key)
            (ap (λ m. (get_current_key u m, global u (put key))) (keys-put t key s)
              ∙ ap (λ k. (get_current_key u s.keys, k)) (global-put t u key s ne))
            i

      taken : (key : Bytes) → get_current_key t s.keys ≡ ok key → InUse t (put key)
      taken key e =
          ap (get_current_key t) (keys-put t key s) ∙ e ∙ ap ok (sym (global-put_self t key s))

      now_in_use :
          (key : Bytes)
          → get_current_key t s.keys ≡ ok key
          → (u : KeyType) → P u ⊎ (u ≡ t)
          → InUse u (put key)
      now_in_use key e u p = elim (KeyType-discrete u t) [
        | yes same ↦ rw same (taken key e)
        | no other ↦ elim p [ inl q ↦ kept u key other (h u q) | inr same ↦ absurd (other same) ]
      ]

      through :
          (r : Result Bytes)
          → get_current_key t s.keys ≡ r
          → Post
              (λ a. SomeInUse (λ u. P u ⊎ (u ≡ t)))
              Anything
              (((λ s'. (r, s)) >>= λ key. modify (put_global c db sv t key)) s)
      through (throw e) g = tt
      through (ok key) g = now_in_use key g
