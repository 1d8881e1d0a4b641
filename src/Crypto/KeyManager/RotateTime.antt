-- ===== src/Crypto/KeyManager/RotateTime.antt =====
-- The time of the last rotation in `KeyManager` of src/crypto/key_manager.cpp, and its file. A file
-- is its content, and `none` if it cannot be opened. Times whose nanoseconds do not fit in 64 bits
-- are kept as they are.
use sec_search.Prelude.{
  ℕ, suc, ◌-◌, ◌*◌, ◌/◌, ◌^◌, ◌<◌, Bool, true, [], ◌∷◌, Option, none, some, Bytes, if◌then◌else◌,
  ◌≡◌, ◌≢◌, refl, ok,
}
use sec_search.Prelude.Action.{Action, pure, modify}
use sec_search.Prelude.Int.{ℤ, pos, negsuc}
use sec_search.Prelude.Decimal.{negative, stoll, read_integer, print_integer, first_line}
use sec_search.Prelude.Decimal.RoundTrip.{read_integer-print}
use sec_search.Crypto.KeyManager.{KeyManager, set_last_rotate_time}

-- Nanoseconds in a second.
abbrev pub nanos : ℕ
nanos = 1000000000

-- `system_clock::to_time_t`, towards 0, and `system_clock::from_time_t`.
abbrev pub to_time_t : ℤ → ℤ
to_time_t (pos t) = pos (t / nanos)
to_time_t (negsuc t) = negative (suc t / nanos)

abbrev pub from_time_t : ℤ → ℤ
from_time_t (pos n) = pos (n * nanos)
from_time_t (negsuc n) = negsuc (suc n * nanos - 1)

-- `getLastRotateTime`.
abbrev pub get_last_rotate_time : KeyManager → ℤ
get_last_rotate_time m = m.last_rotate_time

-- The file behind the call, if it was `file` before and can be written or not.
unfoldable pub save_rotate_time_to_file : Bool → KeyManager → Option Bytes → Option Bytes
save_rotate_time_to_file writable m file =
    if writable then some (print_integer (to_time_t (get_last_rotate_time m))) else file

-- What a line is read as; `now` if `std::stoll` throws.
unfoldable pub time_of_line : ℕ → Option ℤ → ℤ
time_of_line now none = pos now
time_of_line now (some n) = from_time_t n

unfoldable pub load_rotate_time_from_file : Option Bytes → ℕ → Action KeyManager (Unit {0})
unfolding time_of_line set_last_rotate_time
load_rotate_time_from_file none now = set_last_rotate_time now
load_rotate_time_from_file (some []) now = pure tt
load_rotate_time_from_file (some (c ∷ s)) now =
    modify λ m. record m { last_rotate_time = time_of_line now (stoll (first_line (c ∷ s))) }

stoll-nil : (n : ℤ) → stoll (first_line []) ≢ some n
unfolding read_integer first_line
stoll-nil n e = cc

-- A file whose first line is a number.
load_rotate_time_from_file-line :
    (text : Bytes) (n : ℤ) (now : ℕ) (m : KeyManager)
    → stoll (first_line text) ≡ some n
    → load_rotate_time_from_file (some text) now m
      ≡ (ok tt, record m { last_rotate_time = from_time_t n })
unfolding load_rotate_time_from_file
load_rotate_time_from_file-line [] n now m e = absurd (stoll-nil n e)
load_rotate_time_from_file-line (c ∷ s) n now m e = rw e refl

-- What `saveRotateTimeToFile` has written, `loadRotateTimeFromFile` reads back whatever the time
-- and the manager are then: the time of the last rotation, cut to whole seconds, if those fit in a
-- `long long`.
pub load_rotate_time_from_file-save :
    (m m' : KeyManager) (t now : ℕ) (file : Option Bytes)
    → m.last_rotate_time ≡ pos t
    → t / nanos < 2 ^ 63
    → load_rotate_time_from_file (save_rotate_time_to_file true m file) now m'
      ≡ (ok tt, record m' { last_rotate_time = pos (t / nanos * nanos) })
unfolding save_rotate_time_to_file
load_rotate_time_from_file-save m m' t now file e fits = rw e (
    load_rotate_time_from_file-line (print_integer (pos (t / nanos))) (pos (t / nanos)) now m'
      (read_integer-print (2 ^ 63) (pos (t / nanos)) fits))
