-- ===== src/Bash/Throttle.antt =====
-- bashThrottle of tools/bash.go. Each method and each callback of a timer runs under the mutex, so it is
-- one step; a callback that has started waits for the mutex, and stopping its timer does not stop it.
-- P is a progress, W what a progress function reads; times are in nanoseconds.
use resolute_agent_core_go.Prelude.{
  ℕ, suc, ◌+◌, ◌-◌, ◌*◌, Bool, true, false, ◌&&◌, ◌||◌, List, [], ◌∷◌, ◌++◌, Option, none, some,
  if◌then◌else◌, leb, ltb, ◌==◌,
}

abbrev pub bash_update_throttle : ℕ
bash_update_throttle = 100 * 1000000

-- The fields, with the timers that the runtime has armed, each with its time, the number of callbacks
-- that have started and wait, and what was emitted. A timer is the number it got.
pub record BashThrottle (W P : Type 0) : Type 0 where
  pub get_progress : Option (W → P)
  pub timer : Option ℕ
  pub dirty : Bool
  pub last_emit : Option ℕ
  pub settled : Bool
  pub armed : List (ℕ × ℕ)
  pub waiting : ℕ
  pub next_timer : ℕ
  pub emitted : List (ℕ × P)

unfoldable pub disarm : ℕ → List (ℕ × ℕ) → List (ℕ × ℕ)
disarm id [] = []
disarm id ((i, due) ∷ ts) = let rest = disarm id ts in if i == id then rest else (i, due) ∷ rest

-- Whether a timer is armed and its time has come.
unfoldable pub is_due : ℕ → ℕ → List (ℕ × ℕ) → Bool
is_due id now [] = false
is_due id now ((i, due) ∷ ts) = (i == id && leb due now) || is_due id now ts

module _ {W P : Type 0} where
  unfoldable pub new_bash_throttle : BashThrottle W P
  new_bash_throttle = record {
    get_progress = none;
    timer = none;
    dirty = false;
    last_emit = none;
    settled = false;
    armed = [];
    waiting = 0;
    next_timer = 0;
    emitted = [];
  }

  unfoldable pub clear_timer_at : Option ℕ → BashThrottle W P → BashThrottle W P
  unfolding disarm
  clear_timer_at none t = t
  clear_timer_at (some id) t = record t { timer = none; armed = disarm id t.armed }

  unfoldable pub clear_timer_locked : BashThrottle W P → BashThrottle W P
  clear_timer_locked t = clear_timer_at t.timer t

  unfoldable pub emit_with : Bool → Option (W → P) → ℕ → W → BashThrottle W P → BashThrottle W P
  emit_with false progress now w t = t
  emit_with true none now w t = t
  emit_with true (some progress) now w t = record t {
    dirty = false;
    last_emit = some now;
    emitted = t.emitted ++ (now, progress w) ∷ [];
  }

  unfoldable pub emit_locked : ℕ → W → BashThrottle W P → BashThrottle W P
  emit_locked now w t = emit_with t.dirty t.get_progress now w t

  -- A timer for the end of the interval, unless one is pending.
  unfoldable pub arm : Option ℕ → ℕ → BashThrottle W P → BashThrottle W P
  arm (some id) due t = t
  arm none due t = record t {
    timer = some t.next_timer;
    armed = t.armed ++ (t.next_timer, due) ∷ [];
    next_timer = suc t.next_timer;
  }

  -- Before the first emit the interval has passed: the zero time is long ago.
  unfoldable pub schedule_since : Option ℕ → ℕ → W → BashThrottle W P → BashThrottle W P
  schedule_since none now w t = emit_locked now w (clear_timer_locked t)
  schedule_since (some last) now w t =
      if leb (last + bash_update_throttle) now
      then emit_locked now w (clear_timer_locked t)
      else arm t.timer (last + bash_update_throttle) t

  unfoldable pub schedule_locked : ℕ → W → BashThrottle W P → BashThrottle W P
  schedule_locked now w t = schedule_since t.last_emit now w (record t { dirty = true })

  unfoldable pub on_chunk : (W → P) → ℕ → W → BashThrottle W P → BashThrottle W P
  on_chunk progress now w t =
      if t.settled then t else schedule_locked now w (record t { get_progress = some progress })

  -- The callback of a timer, once it has the mutex.
  unfoldable pub timer_callback : ℕ → W → BashThrottle W P → BashThrottle W P
  timer_callback now w t = emit_locked now w (record t { timer = none; waiting = t.waiting - 1 })

  -- A timer whose time has come starts its callback.
  unfoldable pub start_callback : ℕ → ℕ → BashThrottle W P → BashThrottle W P
  unfolding disarm is_due
  start_callback id now t =
      if is_due id now t.armed
      then record t { armed = disarm id t.armed; waiting = suc t.waiting }
      else t

  unfoldable pub final_flush : P → ℕ → W → BashThrottle W P → BashThrottle W P
  final_flush final now w t =
      let flushed =
        emit_locked now w
          (record (clear_timer_locked t) { get_progress = some (λ _. final); dirty = true }) in
      record flushed { settled = true }

  unfoldable pub stop : BashThrottle W P → BashThrottle W P
  stop t = record (clear_timer_locked t) { settled = true }

-- What may happen to the throttle, in any order, but for the last flush.
pub data ThrottleEvent (W P : Type 0) : Type 0 where
  chunk : (W → P) → ℕ → W → ThrottleEvent W P
  starts : ℕ → ℕ → ThrottleEvent W P
  runs : ℕ → W → ThrottleEvent W P
  stopped : ThrottleEvent W P

module _ {W P : Type 0} where
  -- A callback runs only where one has started.
  unfoldable pub throttle_step : ThrottleEvent W P → BashThrottle W P → BashThrottle W P
  throttle_step (chunk progress now w) t = on_chunk progress now w t
  throttle_step (starts id now) t = start_callback id now t
  throttle_step (runs now w) t = if ltb 0 t.waiting then timer_callback now w t else t
  throttle_step stopped t = stop t

  unfoldable pub throttle_run : List (ThrottleEvent W P) → BashThrottle W P → BashThrottle W P
  unfolding throttle_step
  throttle_run [] t = t
  throttle_run (e ∷ es) t = throttle_run es (throttle_step e t)
