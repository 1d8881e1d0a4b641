-- ===== src/Console/Start.antt =====
-- What `main` of src/main.cpp does about the keys before its loop. A file system gives the content of
-- each path, and `none` for one that cannot be opened.
pub mod InUse
pub mod Overwrites
use sec_search.Prelude.{
  ℕ, ◌+◌, Bool, true, false, List, [], ◌∷◌, Option, none, some, Bytes, codes, Result, ok, throw,
}
use sec_search.Prelude.Action.{Action, pure, lift, ◌>>=◌, ◌>>◌}
use sec_search.Crypto.Primitives.{Primitives}
use sec_search.Crypto.KeyFile.{read_key_from_file}
use sec_search.Crypto.KeyManager.{KeyInfo, KeyType, enc, idx, tag, init}
use sec_search.Crypto.KeyManager.Loading.{load_from_database}
use sec_search.Database.ConnectionPool.{Mysql}
use sec_search.Database.Server.{Server}
use sec_search.Database.Dao.Records.{on_session}
use sec_search.Database.Dao.Keys.{load_all_keys_from_config}
use sec_search.Console.{App, on_keys, on_store}
use sec_search.Console.Rotation.{Clock, save_key, refresh, load_time, check_and_auto_rotate}

abbrev pub kek_search_paths : List Bytes
kek_search_paths =
    codes "/etc/secsearch/kek.key"
    ∷ codes "/usr/local/etc/secsearch/kek.key"
    ∷ codes "/home/songyihang/.secsearch/kek.key"
    ∷ codes "./kek.key"
    ∷ codes "./.kek.key"
    ∷ []

-- `findKEKFile` and `readKeyFromFile` of the path that it finds; `none` if it finds none.
pub find_kek_file : (Bytes → Option Bytes) → List Bytes → Option Bytes
find_kek_file files [] = none
find_kek_file files (path ∷ paths) = elim (files path) [
  | none ↦ find_kek_file files paths
  | some content ↦ some path
]

pub load_kek : (Bytes → Option Bytes) → Option (Result Bytes)
unfolding find_kek_file
load_kek files = elim (find_kek_file files kek_search_paths) [
  | none ↦ none
  | some path ↦ some (read_key_from_file (files path))
]

-- `std::vector<unsigned char>(16, b)`.
abbrev pub sixteen : ℕ → Bytes
sixteen b = b ∷ b ∷ b ∷ b ∷ b ∷ b ∷ b ∷ b ∷ b ∷ b ∷ b ∷ b ∷ b ∷ b ∷ b ∷ b ∷ []

module _ (c : Primitives) (db : Mysql) (sv : Server) where
  abbrev Program : Type 0
  Program = App c db sv

  -- The rows of each type are read first: decrypting them does not touch the connection.
  unfoldable pub load_rows : Bytes → (KeyType → List KeyInfo) → Action Program (Unit {0})
  load_rows kek rows s =
      let (r, t) = load_from_database c rows kek (s.store.env, s.keys) in
      (r, record s { store = record s.store { env = t.0 }; keys = t.1 })

  abbrev rows_of : List KeyInfo → List KeyInfo → List KeyInfo → KeyType → List KeyInfo
  rows_of enc_rows idx_rows tag_rows enc = enc_rows
  rows_of enc_rows idx_rows tag_rows idx = idx_rows
  rows_of enc_rows idx_rows tag_rows tag = tag_rows

  -- `g_keyMgr.loadFromDatabase(dao, kek)`.
  unfoldable pub load_from_config : Bytes → Action Program (Unit {0})
  unfolding load_rows
  load_from_config kek = do
    enc_rows ← on_store c db sv (on_session c sv (load_all_keys_from_config sv 1))
    idx_rows ← on_store c db sv (on_session c sv (load_all_keys_from_config sv 2))
    tag_rows ← on_store c db sv (on_session c sv (load_all_keys_from_config sv 3))
    load_rows kek (rows_of enc_rows idx_rows tag_rows)

  unfoldable pub save_initial_keys : Action Program (Unit {0})
  save_initial_keys = do
    save_key c db sv enc (sixteen 0xA0) 1
    save_key c db sv idx (sixteen 0xB0) 1
    save_key c db sv tag (sixteen 0xC0) 1

  -- `catch (const std::exception& e)` of the load.
  unfoldable pub or_initialise : Bytes → Result (Unit {0}) × Program → Result (Unit {0}) × Program
  unfolding save_initial_keys load_from_config
  or_initialise kek (ok u, s) = (ok tt, s)
  or_initialise kek (throw e, s) = (save_initial_keys >> load_from_config kek) s

  unfoldable pub load_or_initialise : Bytes → Action Program (Unit {0})
  unfolding load_from_config or_initialise
  load_or_initialise kek s = or_initialise kek (load_from_config kek s)

  -- From `g_keyMgr.init(kek)` up to the loop; `started` is the time of `init`, and `read` that of the
  -- load of the file behind it.
  unfoldable pub start : Bool → Bytes → ℕ → ℕ → Clock → Action Program (Unit {0})
  unfolding load_or_initialise
  start writable kek started read clock = do
    on_keys c db sv (init kek started)
    load_or_initialise kek
    refresh c db sv enc
    refresh c db sv idx
    refresh c db sv tag
    load_time c db sv read
    check_and_auto_rotate c db sv writable clock >>= λ rotated. pure tt
