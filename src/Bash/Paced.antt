-- ===== src/Bash/Paced.antt =====
-- The intervals at which bashThrottle of tools/bash.go emits, where a timer's callback gets the mutex
-- as it starts.
use resolute_agent_core_go.Prelude.{
  ℕ, suc, ◌+◌, ◌-◌, ◌≤◌, Bool, true, false, List, [], ◌∷◌, ◌++◌, Option, none, some, ◌≡◌, refl, sym,
  ap, ◌∙◌, subst, inl, inr, arith, tests, Bool-cases, leb, ltb, ◌==◌, if-either, if-true, if-false,
}
use resolute_agent_core_go.Bash.Throttle.{
  BashThrottle, bash_update_throttle, disarm, is_due, clear_timer_at, clear_timer_locked, emit_with,
  emit_locked, arm, schedule_since, schedule_locked, on_chunk, timer_callback, start_callback,
  chunk, starts, runs, throttle_step, new_bash_throttle,
}

-- The interval has passed, or there was no emit before.
abbrev pub Gap : Option ℕ → ℕ → Type 0
Gap none now = Unit
Gap (some last) now = last + bash_update_throttle ≤ now

-- Each emit comes at least an interval behind the one before it.
abbrev pub Apart : {P : Type 0} → Option ℕ → List (ℕ × P) → Type 0
Apart last [] = Unit
Apart last ((at, p) ∷ es) = Gap last at × Apart (some at) es

abbrev last_time : {P : Type 0} → Option ℕ → List (ℕ × P) → Option ℕ
last_time last [] = last
last_time last ((at, p) ∷ es) = last_time (some at) es

Apart-append :
    {P : Type 0} (last : Option ℕ) (es : List (ℕ × P)) (now : ℕ) (p : P)
    → Apart last es
    → Gap (last_time last es) now
    → Apart last (es ++ (now, p) ∷ [])
Apart-append last [] now p h g = (g, tt)
Apart-append last ((at, q) ∷ es) now p (k, h) g = (k, Apart-append (some at) es now p h g)

last_time-append :
    {P : Type 0} (last : Option ℕ) (es : List (ℕ × P)) (now : ℕ) (p : P)
    → last_time last (es ++ (now, p) ∷ []) ≡ some now
last_time-append last [] now p = refl
last_time-append last ((at, q) ∷ es) now p = last_time-append (some at) es now p

-- At most the timer that the throttle knows is armed, for the end of the interval or later.
abbrev Held : Option ℕ → List (ℕ × ℕ) → Option ℕ → Type 0
Held none armed last = armed ≡ []
Held (some id) armed last =
    (due : ℕ) × (l : ℕ) × (armed ≡ (id, due) ∷ [])
    × (last ≡ some l)
    × (l + bash_update_throttle ≤ due)

-- Chunks and timers, in any order and at any times.
pub data PromptEvent (W P : Type 0) : Type 0 where
  arrives : (W → P) → ℕ → W → PromptEvent W P
  rings : ℕ → ℕ → W → PromptEvent W P

module _ {W P : Type 0} where
  abbrev pub prompt_step : PromptEvent W P → BashThrottle W P → BashThrottle W P
  prompt_step (arrives progress now w) t = throttle_step (chunk progress now w) t
  prompt_step (rings id now w) t = throttle_step (runs now w) (throttle_step (starts id now) t)

  abbrev pub prompt_run : List (PromptEvent W P) → BashThrottle W P → BashThrottle W P
  prompt_run [] t = t
  prompt_run (e ∷ es) t = prompt_run es (prompt_step e t)

  abbrev Emits : BashThrottle W P → Type 0
  Emits t = Apart none t.emitted × (last_time none t.emitted ≡ t.last_emit) × (t.waiting ≡ 0)

  abbrev Paced : BashThrottle W P → Type 0
  Paced t = Emits t × Held t.timer t.armed t.last_emit

  -- An emit, where nothing is armed and the interval has passed.
  emit-Paced :
      (dirty : Bool) (progress : Option (W → P)) (now : ℕ) (w : W) (t : BashThrottle W P)
      → Gap t.last_emit now
      → Emits t
      → t.timer ≡ none
      → t.armed ≡ []
      → Paced (emit_with dirty progress now w t)
  unfolding emit_with
  emit-Paced false progress now w t g h e a = (h, subst (λ o. Held o t.armed t.last_emit) (sym e) a)
  emit-Paced true none now w t g h e a = (h, subst (λ o. Held o t.armed t.last_emit) (sym e) a)
  emit-Paced true (some progress) now w t g (apart, last, idle) e a = (
    (
      Apart-append none t.emitted now (progress w) apart (subst (λ o. Gap o now) (sym last) g),
      last_time-append none t.emitted now (progress w),
      idle,
    ),
    subst (λ o. Held o t.armed (some now)) (sym e) a,
  )

  -- Clearing leaves nothing armed.
  clear-Paced :
      (o : Option ℕ) (t : BashThrottle W P)
      → Emits t
      → t.timer ≡ o
      → Held o t.armed t.last_emit
      → Emits (clear_timer_at o t)
        × ((clear_timer_at o t).timer ≡ none)
        × ((clear_timer_at o t).armed ≡ [])
        × ((clear_timer_at o t).last_emit ≡ t.last_emit)
  unfolding clear_timer_at disarm
  clear-Paced none t h e a = (h, e, a, refl)
  clear-Paced (some id) t h e (due, l, armed, _, _) =
      (h, refl, ap (disarm id) armed ∙ removed, refl)
    where
      removed : disarm id ((id, due) ∷ []) ≡ []
      removed = let same : (id == id) ≡ true = ground arith in rw same refl

  arm-Paced :
      (o : Option ℕ) (last : ℕ) (t : BashThrottle W P)
      → Emits t
      → t.timer ≡ o
      → t.last_emit ≡ some last
      → Held o t.armed t.last_emit
      → Paced (arm o (last + bash_update_throttle) t)
  unfolding arm
  arm-Paced none last t h e l a = (
    h,
    (
      last + bash_update_throttle,
      last,
      ap (λ r. r ++ (t.next_timer, last + bash_update_throttle) ∷ []) a,
      l,
      omega arith,
    ),
  )
  arm-Paced (some id) last t h e l a = (h, subst (λ o. Held o t.armed t.last_emit) (sym e) a)

  schedule-Paced :
      (last : Option ℕ) (now : ℕ) (w : W) (t : BashThrottle W P)
      → t.last_emit ≡ last
      → Paced t
      → Paced (schedule_since last now w t)
  unfolding schedule_since emit_locked clear_timer_locked
  schedule-Paced none now w t l (h, a) =
      let (h', e, empty, kept) = clear-Paced t.timer t h refl a in
      let c : BashThrottle W P = clear_timer_at t.timer t in
      emit-Paced c.dirty c.get_progress now w c (subst (λ o. Gap o now) (sym (kept ∙ l)) tt) h' e
        empty
  schedule-Paced (some last) now w t l (h, a) =
      elim (Bool-cases (leb (last + bash_update_throttle) now)) [
        | inl passed ↦
            let (h', e, empty, kept) = clear-Paced t.timer t h refl a in
            let c : BashThrottle W P = clear_timer_at t.timer t in
            if-true Paced (leb (last + bash_update_throttle) now) _ _ passed (
              emit-Paced c.dirty c.get_progress now w c
                (subst (λ o. Gap o now) (sym (kept ∙ l)) (omega tests)) h' e empty)
        | inr early ↦
            if-false Paced (leb (last + bash_update_throttle) now) _ _ early
              (arm-Paced t.timer last t h refl l a)
      ]

  arrives-Paced :
      (progress : W → P) (now : ℕ) (w : W) (t : BashThrottle W P)
      → Paced t
      → Paced (throttle_step (chunk progress now w) t)
  unfolding throttle_step on_chunk schedule_locked
  arrives-Paced progress now w t h = if-either Paced t.settled h (
      schedule-Paced t.last_emit now w (record t { get_progress = some progress; dirty = true })
        refl h)

  -- A timer that is due.
  ring-due :
      (id now : ℕ) (w : W) (timer : Option ℕ) (t : BashThrottle W P)
      → is_due id now t.armed ≡ true
      → Emits t
      → Held timer t.armed t.last_emit
      → Paced (
          throttle_step
            (runs now w)
            (record t { armed = disarm id t.armed; waiting = suc t.waiting }))
  unfolding throttle_step timer_callback emit_locked is_due disarm
  ring-due id now w none t due (apart, last, idle) empty =
      absurd (ground (arith, subst (λ l. is_due id now l ≡ true) empty due))
  ring-due id now w (some known) t due (apart, last, idle) (time, l, armed, at, far) =
      let is : is_due id now ((known, time) ∷ []) ≡ true =
        subst (λ a. is_due id now a ≡ true) armed due in
      let same : (known == id) ≡ true = ground arith in
      let reached : time ≤ now = ground arith in
      let removed : disarm id t.armed ≡ [] = ap (disarm id) armed ∙ rw same refl in
      if-true Paced (ltb 0 (suc t.waiting)) _ _ (ground arith) (
        emit-Paced t.dirty t.get_progress now w
          (record t { timer = none; armed = disarm id t.armed; waiting = suc t.waiting - 1 })
          (subst (λ o. Gap o now) (sym at) (omega arith)) (apart, last, omega (arith, idle)) refl
          removed)

  rings-Paced :
      (id now : ℕ) (w : W) (t : BashThrottle W P)
      → Paced t
      → Paced (throttle_step (runs now w) (throttle_step (starts id now) t))
  unfolding throttle_step start_callback
  rings-Paced id now w t ((apart, last, idle), a) =
      let Q : BashThrottle W P → Type 0 = λ u. Paced (throttle_step (runs now w) u) in
      elim (Bool-cases (is_due id now t.armed)) [
        | inl due ↦
            if-true Q (is_due id now t.armed)
              (record t { armed = disarm id t.armed; waiting = suc t.waiting }) t due
              (ring-due id now w t.timer t due (apart, last, idle) a)
        | inr early ↦
            if-false Q (is_due id now t.armed)
              (record t { armed = disarm id t.armed; waiting = suc t.waiting }) t early
              (if-false Paced (ltb 0 t.waiting) (timer_callback now w t) t (ground (arith, idle))
                ((apart, last, idle), a))
      ]

  run-Paced :
      (es : List (PromptEvent W P)) (t : BashThrottle W P) → Paced t → Paced (prompt_run es t)
  run-Paced [] t h = h
  run-Paced (arrives progress now w ∷ es) t h =
      run-Paced es (throttle_step (chunk progress now w) t) (arrives-Paced progress now w t h)
  run-Paced (rings id now w ∷ es) t h =
      run-Paced es (throttle_step (runs now w) (throttle_step (starts id now) t))
        (rings-Paced id now w t h)

  -- Whatever chunks arrive and timers ring, at whatever times, where a callback gets the mutex as it
  -- starts, a new throttle emits its partial results at least 100 ms apart.
  pub new_bash_throttle-Apart :
      (es : List (PromptEvent W P)) → Apart none (prompt_run es new_bash_throttle).emitted
  unfolding new_bash_throttle
  new_bash_throttle-Apart es = (run-Paced es new_bash_throttle ((tt, refl, refl), refl)).0.0
