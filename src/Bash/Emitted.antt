-- ===== src/Bash/Emitted.antt =====
-- What bashThrottle of tools/bash.go emits, and when.
use resolute_agent_core_go.Prelude.{
  ℕ, ◌-◌, Bool, true, false, List, [], ◌∷◌, ◌++◌, Option, none, some, ◌≡◌, refl, ap, ltb, if-either,
  if-true,
}
use resolute_agent_core_go.Bash.Throttle.{
  BashThrottle, is_due, clear_timer_at, clear_timer_locked, emit_with, emit_locked, on_chunk,
  timer_callback, start_callback, final_flush, stop, ThrottleEvent, chunk, starts, runs, stopped,
  throttle_step, throttle_run,
}

module _ {W P : Type 0} where
  -- Nothing is left to emit, and nothing more is accepted.
  abbrev Quiet : List (ℕ × P) → BashThrottle W P → Type 0
  Quiet emitted t = (t.settled ≡ true) × (t.dirty ≡ false) × (t.emitted ≡ emitted)

  clear-Quiet :
      (emitted : List (ℕ × P)) (o : Option ℕ) (t : BashThrottle W P)
      → Quiet emitted t
      → Quiet emitted (clear_timer_at o t)
  unfolding clear_timer_at
  clear-Quiet emitted none t h = h
  clear-Quiet emitted (some id) t h = h

  emit-Quiet :
      (emitted : List (ℕ × P)) (dirty : Bool) (progress : Option (W → P)) (now : ℕ) (w : W)
      (t : BashThrottle W P)
      → dirty ≡ false
      → Quiet emitted t
      → Quiet emitted (emit_with dirty progress now w t)
  unfolding emit_with
  emit-Quiet emitted false progress now w t e h = h
  emit-Quiet emitted true progress now w t e h = absurd cc

  step-Quiet :
      (emitted : List (ℕ × P)) (e : ThrottleEvent W P) (t : BashThrottle W P)
      → Quiet emitted t
      → Quiet emitted (throttle_step e t)
  unfolding throttle_step on_chunk start_callback timer_callback emit_locked stop clear_timer_locked
  step-Quiet emitted (chunk progress now w) t h = if-true (Quiet emitted) t.settled t _ h.0 h
  step-Quiet emitted (starts id now) t h = if-either (Quiet emitted) (is_due id now t.armed) h h
  step-Quiet emitted (runs now w) t h =
      if-either (Quiet emitted) (ltb 0 t.waiting)
        (emit-Quiet emitted t.dirty t.get_progress now w
          (record t { timer = none; waiting = t.waiting - 1 }) h.1 h)
        h
  step-Quiet emitted stopped t h =
      let (settled, dirty, same) = clear-Quiet emitted t.timer t h in (refl, dirty, same)

  run-Quiet :
      (emitted : List (ℕ × P)) (es : List (ThrottleEvent W P)) (t : BashThrottle W P)
      → Quiet emitted t
      → Quiet emitted (throttle_run es t)
  unfolding throttle_run
  run-Quiet emitted [] t h = h
  run-Quiet emitted (e ∷ es) t h =
      run-Quiet emitted es (throttle_step e t) (step-Quiet emitted e t h)

  emitted-clear : (o : Option ℕ) (t : BashThrottle W P) → (clear_timer_at o t).emitted ≡ t.emitted
  unfolding clear_timer_at
  emitted-clear none t = refl
  emitted-clear (some id) t = refl

  -- Whatever happened before, finalFlush emits the final state once, and whatever happens behind it,
  -- late chunks, callbacks that had started or still start, and the stop, nothing more is emitted.
  pub final_flush-last :
      (final : P) (now : ℕ) (w : W) (t : BashThrottle W P) (es : List (ThrottleEvent W P))
      → (throttle_run es (final_flush final now w t)).emitted ≡ t.emitted ++ (now, final) ∷ []
  unfolding final_flush emit_locked emit_with clear_timer_locked
  final_flush-last final now w t es =
      (run-Quiet (t.emitted ++ (now, final) ∷ []) es (final_flush final now w t)
        (refl, refl, ap (λ l. l ++ (now, final) ∷ []) (emitted-clear t.timer t))).2
