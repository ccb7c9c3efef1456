-- ===== src/Limiter.antt =====
-- src/control-plane-ui-abuse.ts: the limit on failed logins. A time is in milliseconds.
pub mod Limit
use z_s_app.Prelude.{
  ℕ, ◌+◌, ◌-◌, String, Bool, true, false, Option, none, some, List, leb, ltb, if◌then◌else◌,
}
use z_s_app.Prelude.Map
use z_s_app.Prelude.Map.{Map}

pub record AttemptWindow : Type 0 where
  pub count : ℕ
  pub started_at_milliseconds : ℕ

abbrev pub max_failures : ℕ
max_failures = 5

abbrev pub window_milliseconds : ℕ
window_milliseconds = 60000

abbrev pub Windows : Type 0
Windows = Map AttemptWindow

-- `now - started >= WINDOW`. Where the clock went back, the difference of the source is negative
-- and that of ℕ is 0; both are less than the window.
abbrev pub is_past : ℕ → AttemptWindow → Bool
is_past now w = leb window_milliseconds (now - w.started_at_milliseconds)

abbrev window_left : String → ℕ → Windows → Option AttemptWindow → Option AttemptWindow × Windows
window_left key now windows none = (none, windows)
window_left key now windows (some w) =
    if is_past now w then (none, Map.remove key windows) else (some w, windows)

unfoldable pub active_window : String → ℕ → Windows → Option AttemptWindow × Windows
active_window key now windows = window_left key now windows (Map.get key windows)

abbrev is_full : Option AttemptWindow → Bool
is_full none = false
is_full (some w) = leb max_failures w.count

-- `true` if the attempt is allowed; else the source throws its error 429.
unfoldable pub assert_allowed : String → ℕ → Windows → Bool × Windows
unfolding active_window
assert_allowed key now windows =
    let (current, left) = active_window key now windows in
    (if is_full current then false else true, left)

abbrev counted : ℕ → Option AttemptWindow → AttemptWindow
counted now none = record { count = 1; started_at_milliseconds = now }
counted now (some w) = record w { count = w.count + 1 }

unfoldable pub record_failure : String → ℕ → Windows → Windows
unfolding active_window
record_failure key now windows =
    let (current, left) = active_window key now windows in Map.put key (counted now current) left

unfoldable pub record_success : String → Windows → Windows
record_success key windows = Map.remove key windows
