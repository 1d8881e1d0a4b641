-- ===== src/Console/Rotation/Waits.antt =====
-- The automatic rotation of src/main.cpp while there is no file with the time of the last one.
use sec_search.Prelude.{ℕ, ◌-◌, ◌*◌, ◌/◌, ◌<◌, Bool, false, none, ok, leb, ◌≡◌, refl, arith}
use sec_search.Prelude.Int.{pos}
use sec_search.Crypto.Primitives.{Primitives}
use sec_search.Crypto.KeyManager.RotateTime.{nanos, load_rotate_time_from_file}
use sec_search.Database.ConnectionPool.{Mysql}
use sec_search.Database.Server.{Server}
use sec_search.Console.{App}
use sec_search.Console.Rotation.{
  Clock, auto_rotate_days, days_since, load_time, check_and_auto_rotate,
}

days_since-recent :
    (now last : ℕ)
    → now - last < auto_rotate_days * 24 * 3600 * nanos
    → leb auto_rotate_days (days_since now (pos last)) ≡ false
unfolding days_since
days_since-recent now last h =
    let few : (now - last) / (3600 * nanos) / 24 < 90 = omega arith in ground arith

module _ (c : Primitives) (db : Mysql) (sv : Server) (writable : Bool) where
  -- Without a file `checkAndAutoRotate` rotates nothing, however old the keys are: if the clock moves
  -- on by less than 90 days between its two readings, the call answers false and only takes the
  -- first reading for the time of the last rotation, and there is still no file.
  pub check_and_auto_rotate_without_file :
      (clock : Clock) (s : App c db sv)
      → s.rotate_file ≡ none
      → clock.now - clock.loaded < auto_rotate_days * 24 * 3600 * nanos
      → check_and_auto_rotate c db sv writable clock s
        ≡ (ok false, record s { keys = record s.keys { last_rotate_time = pos clock.loaded } })
  unfolding check_and_auto_rotate load_time load_rotate_time_from_file
  check_and_auto_rotate_without_file clock s e recent =
      rw (e, days_since-recent clock.now clock.loaded recent) refl
