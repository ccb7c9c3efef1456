-- ===== src/Limiter/Limit.antt =====
-- src/control-plane-ui-abuse.ts: when a login is refused.
use z_s_app.Prelude.{
  ℕ, suc, ◌+◌, ◌-◌, ◌≤◌, ◌<◌, String, ◌≡◌, refl, ap, ◌∙◌, true, false, none, some, List, [], ◌∷◌,
  ltb, length, arith, ◌==◌, eq_iff, string_eq,
}
use z_s_app.Prelude.Map
use z_s_app.Prelude.Map.{Map, get-put, get-remove}
use z_s_app.Limiter.{
  AttemptWindow, max_failures, window_milliseconds, Windows, is_past, active_window, assert_allowed,
  record_failure,
}

same_key : (k : String) → (k == k) ≡ true
same_key k = (eq_iff k k).1 refl

-- `n` failures of one key, at the given times
pub failures : String → List ℕ → Windows → Windows
failures key [] w = w
failures key (t ∷ l) w = failures key l (record_failure key t w)

-- all the times lie in the window that began at `start`
abbrev pub AllWithin : ℕ → List ℕ → Type 0
AllWithin start [] = Unit
AllWithin start (t ∷ l) = (t - start < window_milliseconds) × AllWithin start l

get-put_same :
    (key : String) (v : AttemptWindow) (w : Windows) → Map.get key (Map.put key v w) ≡ some v
get-put_same key v w = ground (arith, get-put key key v w, same_key key)

-- A failure in an open window counts one more, and the window's start stays.
counts_on :
    (key : String) (now : ℕ) (w : Windows) (a : AttemptWindow)
    → Map.get key w ≡ some a
    → is_past now a ≡ false
    → Map.get key (record_failure key now w) ≡ some (record a { count = a.count + 1 })
unfolding record_failure active_window
counts_on key now w a held still = rw (held, still) (get-put_same key _ _)

-- The first failure, or one after the window is past, opens a window.
opens :
    (key : String) (now : ℕ) (w : Windows)
    → (active_window key now w).0 ≡ none
    → Map.get key (record_failure key now w)
      ≡ some (record { count = 1; started_at_milliseconds = now })
unfolding record_failure active_window
opens key now w none_open = rw none_open (get-put_same key _ _)

still_open :
    (a : AttemptWindow) (now : ℕ)
    → now - a.started_at_milliseconds < window_milliseconds
    → is_past now a ≡ false
still_open a now h = ground (arith, h)

sum_step : (a : AttemptWindow) (n : ℕ) → a.count + 1 + n ≡ a.count + suc n
sum_step a n = omega arith

after_failures :
    (key : String) (l : List ℕ) (w : Windows) (a : AttemptWindow)
    → Map.get key w ≡ some a
    → AllWithin a.started_at_milliseconds l
    → Map.get key (failures key l w) ≡ some (record a { count = a.count + length l })
unfolding failures
after_failures key [] w a held h = held ∙ ap (λ n. some (record a { count = n })) (omega arith)
after_failures key (t ∷ l) w a held h =
    after_failures key l (record_failure key t w) (record a { count = a.count + 1 })
      (counts_on key t w a held (still_open a t h.0)) h.1
    ∙ ap (λ n. some (record a { count = n })) (sum_step a (length l))

-- After a failure that opens a window for a key, and any further failures of the key within a minute
-- of it, an attempt within that minute is allowed exactly if there were fewer than five failures.
pub assert_allowed-failures :
    (key : String) (start : ℕ) (l : List ℕ) (now : ℕ) (w : Windows)
    → (active_window key start w).0 ≡ none
    → AllWithin start l
    → now - start < window_milliseconds
    → (assert_allowed key now (failures key l (record_failure key start w))).0
      ≡ ltb (1 + length l) max_failures
unfolding assert_allowed active_window
assert_allowed-failures key start l now w none_open all_in in_time =
    let held = after_failures key l _ _ (opens key start w none_open) all_in in
    rw held (ground (arith, in_time))

-- A minute after the failure that opened the window an attempt is allowed, however many failures
-- were recorded in the window.
pub assert_allowed-later :
    (key : String) (start : ℕ) (l : List ℕ) (now : ℕ) (w : Windows)
    → (active_window key start w).0 ≡ none
    → AllWithin start l
    → window_milliseconds ≤ now - start
    → (assert_allowed key now (failures key l (record_failure key start w))).0 ≡ true
unfolding assert_allowed active_window
assert_allowed-later key start l now w none_open all_in late =
    let held = after_failures key l _ _ (opens key start w none_open) all_in in
    rw held (ground (arith, late))
