-- ===== src/Console/Sample.antt =====
-- A program for the tests: a ciphertext is the key and the message, a MAC the message and the key,
-- so that another key is noticed; the database is the server in memory, and the clock stands still.
use sec_search.Prelude.{
  ℕ, ◌<◌, ◌^◌, List, [], ◌∷◌, ◌++◌, Option, none, some, Bytes, length, false, true, ◌*◌,
  length-append, Result, ok, throw, Error, ◌==◌, ==_self, if◌then◌else◌, ◌≡◌, refl, arith,
}
use sec_search.Prelude.Int.{pos}
use sec_search.Crypto.Primitives.{Primitives, Lawful}
use sec_search.Crypto.KeyManager.{KeyManager, KeyInfo, KeyStatus}
use sec_search.Database.ConnectionPool.{Mysql}
use sec_search.Database.Server.{KeyRow}
use sec_search.Database.Server.Tables.{Tables}
use sec_search.Database.Server.Memory.{memory, fresh}
use sec_search.Console.{App}
use sec_search.Console.Rotation.{Clock}
use sec_search.Console.Start.{sixteen}

unfoldable pub strip : Bytes → Bytes → Option Bytes
strip [] s = some s
strip (k ∷ key) [] = none
strip (k ∷ key) (b ∷ s) = if k == b then strip key s else none

strip-append : (key m : Bytes) → strip key (key ++ m) ≡ some m
unfolding strip
strip-append [] m = refl
strip-append (k ∷ key) m = rw (==_self k) (strip-append key m)

abbrev pub opened : Option Bytes → Result Bytes
opened none = throw (Error.final_failed 1)
opened (some m) = ok m

abbrev pub labelled : Primitives
labelled = record {
  Env = Unit {0};
  encrypt = λ m key e. (ok (key ++ m), e);
  decrypt = λ s key e. (opened (strip key s), e);
  hmac_hex = λ m key e. (ok (m ++ key), e);
  random_key = λ e. (ok (sixteen 9), e);
}

pub sized : (key m : Bytes) → length key ≡ 16 → length m < 2 ^ 30 → length (key ++ m) < 2 ^ 32
sized key m h k = omega (arith, length-append key m)

pub reopened : (m key s : Bytes) → s ≡ key ++ m → opened (strip key s) ≡ ok m
reopened m key s e = rw (e, strip-append key m) refl

unfoldable pub labelled_lawful : Lawful labelled
labelled_lawful = record {
  Ready = λ e. Unit {0};
  mac = λ key m. m ++ key;
  Seals = λ key m s. s ≡ key ++ m;
  hmac_hex-mac = λ m key e r a b. (refl, tt);
  encrypt-Seals = λ m key e r p size. (key ++ m, refl, refl, sized key m size p.short, tt);
  decrypt-Seals = λ m key s e r size seal. (reopened m key s seal, tt);
  random_key-length = λ e r. (sixteen 9, refl, refl, tt);
}

-- No connection to the log's pool can be made.
abbrev pub down : Mysql
down = record {
  World = Unit {0};
  Conn = ℕ;
  init = λ w. (none, w);
  real_connect = λ conn w. (false, w);
  ping = λ conn w. (false, w);
  close = λ conn w. w;
}

abbrev pub tables_with : List KeyRow → Tables
tables_with rows = record {
  sensitive_data = [];
  next_id = 1;
  fuzzy_inverted = [];
  key_config = rows;
  index_rebuild_task = [];
  next_task = 1;
}

abbrev pub info : ℕ → KeyInfo
info b = record { key = sixteen b; version = 1; status = KeyStatus.enabled }

abbrev pub manager : KeyManager
manager = record {
  kek = sixteen 5;
  enc_keys = (1, info 1) ∷ [];
  idx_keys = (1, info 2) ∷ [];
  tag_keys = (1, info 3) ∷ [];
  current_enc_version = 1;
  current_idx_version = 1;
  current_tag_version = 1;
  initialized = true;
  last_rotate_time = pos 0;
}

-- The program on a server that carries out `n` statements, with the file of the rotation time.
abbrev pub app : ℕ → Tables → Option Bytes → App labelled down memory
app n t file = record {
  keys = manager;
  enc_key = sixteen 1;
  idx_key = sixteen 2;
  tag_key = sixteen 3;
  store = record { env = tt; session = record { world = fresh n t; statements = 0 } };
  logger = record {
    pool = record { world = tt; live = 0; connections = []; initialized = true };
    session = record { world = fresh n t; statements = 0 };
  };
  timestamps = [];
  rotate_file = file;
}

-- Ten years after 1970, in nanoseconds.
abbrev pub late : ℕ
late = 315360000 * 1000000000

abbrev pub clock : Clock
clock = record {
  loaded = late;
  now = late;
  enc_rotated = late;
  idx_rotated = late;
  tag_rotated = late;
}
