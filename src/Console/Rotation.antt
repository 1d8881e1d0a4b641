-- ===== src/Console/Rotation.antt =====
-- `checkAndAutoRotate` and `keyManagement` of src/main.cpp. The random keys and the times at which
-- the clock is read come from outside; whether the file can be written does, too.
pub mod Stale
pub mod InUse
pub mod Waits
use sec_search.Prelude.{
  ℕ, suc, ◌+◌, ◌-◌, ◌*◌, ◌/◌, Bool, true, false, Option, none, some, Bytes, Result, ok, throw, leb,
  if◌then◌else◌,
}
use sec_search.Prelude.Action.{Action, pure, lift, gets, modify, ◌>>=◌, ◌>>◌}
use sec_search.Prelude.Int.{ℤ, pos, negsuc}
use sec_search.Prelude.SortedMap.{lookup}
use sec_search.Crypto.Primitives.{Primitives}
use sec_search.Crypto.KeyManager.{
  KeyManager, KeyInfo, KeyType, KeyStatus, enc, idx, tag, key_map, get_current_version,
  get_current_key, rotate_key, set_last_rotate_time,
}
use sec_search.Crypto.KeyManager.RotateTime.{
  nanos, get_last_rotate_time, save_rotate_time_to_file, load_rotate_time_from_file,
}
use sec_search.Database.ConnectionPool.{Mysql}
use sec_search.Database.Server.{Server}
use sec_search.Database.Dao.Records.{on_env}
use sec_search.Database.Dao.SaveKey.{save_to_database}
use sec_search.Console.{App, on_keys, on_store}
use sec_search.Console.Input.{is_number}

-- `AUTO_ROTATE_DAYS`.
abbrev pub auto_rotate_days : ℕ
auto_rotate_days = 90

-- `now - lastTime`, or 0 if that is negative.
abbrev pub elapsed : ℕ → ℤ → ℕ
elapsed now (pos t) = now - t
elapsed now (negsuc t) = now + suc t

-- Whole hours, and whole days of those; a negative difference has at most 0 days.
unfoldable pub days_since : ℕ → ℤ → ℕ
days_since now last = elapsed now last / (3600 * nanos) / 24

-- The readings of the clock, in their order: at the load of the file, for the comparison, and at
-- the end of each rotation.
pub record Clock : Type 0 where
  pub loaded : ℕ
  pub now : ℕ
  pub enc_rotated : ℕ
  pub idx_rotated : ℕ
  pub tag_rotated : ℕ

-- The number that stands for a type in key_config.
abbrev pub type_number : KeyType → ℕ
type_number enc = 1
type_number idx = 2
type_number tag = 3

-- `none` if the random generator fails.
unfoldable pub drawn : {S : Type 0} → Result Bytes × S → Result (Option Bytes) × S
drawn (ok key, s) = (ok (some key), s)
drawn (throw e, s) = (ok none, s)

-- What the `try` of `checkAndAutoRotate` makes of its body.
unfoldable pub tried : {S : Type 0} → Result (Unit {0}) × S → Result Bool × S
tried (ok u, s) = (ok true, s)
tried (throw e, s) = (ok false, s)

module _ (c : Primitives) (db : Mysql) (sv : Server) where
  abbrev Program : Type 0
  Program = App c db sv

  -- `CRYPT_EAL_Randbytes`, if the current version has an entry.
  unfoldable pub draw : Option KeyInfo → Action Program (Option Bytes)
  unfolding drawn
  draw none = pure none
  draw (some info) = on_store c db sv (on_env c sv (λ e. drawn (c.random_key e)))

  -- `g_keyMgr.rotateKey(type)`.
  unfoldable pub rotate : KeyType → ℕ → Action Program ℕ
  unfolding draw
  rotate t now = do
    entry ← gets (λ s. lookup (get_current_version s.keys t) (key_map s.keys t))
    random ← draw entry
    on_keys c db sv (rotate_key t random now)

  unfoldable pub current_key : KeyType → Action Program Bytes
  current_key t s = (get_current_key t s.keys, s)

  unfoldable pub save_key : KeyType → Bytes → ℕ → Action Program (Unit {0})
  save_key t key version s =
      on_store c db sv (save_to_database c sv s.keys (type_number t) key version KeyStatus.enabled)
        s

  -- `g_encKey = g_keyMgr.getEncryptionKey()` and its like.
  abbrev pub put_global : KeyType → Bytes → Program → Program
  put_global enc key s = record s { enc_key = key }
  put_global idx key s = record s { idx_key = key }
  put_global tag key s = record s { tag_key = key }

  unfoldable pub refresh : KeyType → Action Program (Unit {0})
  unfolding current_key
  refresh t = do key ← current_key t; modify (put_global t key)

  unfoldable pub load_time : ℕ → Action Program (Unit {0})
  load_time now s = on_keys c db sv (load_rotate_time_from_file s.rotate_file now) s

module _ (c : Primitives) (db : Mysql) (sv : Server) (writable : Bool) where
  abbrev Saving : Type 0
  Saving = App c db sv

  unfoldable pub save_time : Action Saving (Unit {0})
  save_time =
      modify λ s. record s { rotate_file = save_rotate_time_to_file writable s.keys s.rotate_file }

  -- The first three choices of `keyManagement`.
  unfoldable pub rotate_one : KeyType → ℕ → Action Saving (Unit {0})
  rotate_one t now = do
    version ← rotate c db sv t now
    key ← current_key c db sv t
    save_key c db sv t key version
    save_time
    refresh c db sv t

  -- Behind the three rotations.
  unfoldable pub save_all : ℕ → ℕ → ℕ → Action Saving (Unit {0})
  save_all enc_version idx_version tag_version = do
    enc_key ← current_key c db sv enc
    idx_key ← current_key c db sv idx
    tag_key ← current_key c db sv tag
    save_key c db sv enc enc_key enc_version
    save_key c db sv idx idx_key idx_version
    save_key c db sv tag tag_key tag_version
    save_time
    refresh c db sv enc
    refresh c db sv idx
    refresh c db sv tag

  -- The fourth choice, and the body of the `try` in `checkAndAutoRotate`.
  unfoldable pub rotate_all : Clock → Action Saving (Unit {0})
  rotate_all clock = do
    enc_version ← rotate c db sv enc clock.enc_rotated
    idx_version ← rotate c db sv idx clock.idx_rotated
    tag_version ← rotate c db sv tag clock.tag_rotated
    save_all enc_version idx_version tag_version

  unfoldable pub check_and_auto_rotate : Clock → Action Saving Bool
  unfolding tried
  check_and_auto_rotate clock = do
    load_time c db sv clock.loaded
    last ← gets (λ s. get_last_rotate_time s.keys)
    let rotated = λ (s : Saving). tried (rotate_all clock s)
    if leb auto_rotate_days (days_since clock.now last) then rotated else pure false

  -- `keyManagement` by its choice; the fifth lists the versions.
  unfoldable pub key_management : ℤ → Clock → Action Saving (Unit {0})
  key_management choice clock =
      if is_number choice 1
      then rotate_one enc clock.enc_rotated
      else if is_number choice 2
      then rotate_one idx clock.idx_rotated
      else if is_number choice 3
      then rotate_one tag clock.tag_rotated
      else if is_number choice 4
      then rotate_all clock
      else if is_number choice 6
      then on_keys c db sv (set_last_rotate_time clock.now) >> save_time
      else pure tt
