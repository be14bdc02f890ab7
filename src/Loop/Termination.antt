-- ===== src/Loop/Termination.antt =====
-- How many turns a prompt takes that a hook stops (loop of prompt.go, ShouldStopAfterTurn).
use resolute_agent_core_go.Prelude.{
  ℕ, zero, suc, ◌+◌, ◌≤◌, ◌<◌, Bool, true, false, ◌||◌, List, [], ◌∷◌, ◌++◌, Option, none, some,
  Outcome, ok, err, ◌≡◌, refl, ap, subst, inl, inr, Bool-cases, leb, leb→le, leb→gt, arith,
}
use resolute_agent_core_go.Loop.Machine.{PromptResult, Environment, Machine, ◌>>=◌, ask, get_run}
use resolute_agent_core_go.Loop.Prompt.{
  finish, flush_pending, asked_to_stop, next_turn, after_turn, turns, begin, started, close_prompt,
  run_prompt,
}
use resolute_agent_core_go.Loop.KeepsTurn.{flush_pending-Keeps}
use resolute_agent_core_go.Loop.Turns.{bind_lem, run_one_turn_lem, after_result_lem}
use resolute_agent_core_go.Loop.AtTurn.{
  AtTurn, AnyChange, env-IsQuiet, AtTurn-IsStable, AtTurn-IsFree, start_turn-AtTurn, begin-Keeps,
}

module _ {X L E W : Type 0} (env : Environment X L E W) where
  -- A step that does not ask for another turn.
  IsStopped : Outcome E Bool × Machine L E W → Type 0
  IsStopped (ok true, m) = ⊥
  IsStopped (ok false, m) = Unit
  IsStopped (err e, m) = Unit

  next_turn-IsStopped :
      (had_calls a b : Bool) (m : Machine L E W)
      → IsStopped (next_turn env had_calls (a || b || true) m)
  unfolding next_turn IsStopped
  next_turn-IsStopped had_calls true true m = tt
  next_turn-IsStopped had_calls true false m = tt
  next_turn-IsStopped had_calls false true m = tt
  next_turn-IsStopped had_calls false false m = tt

  module _ (hook : ℕ → Bool → W → Bool × W) (set : env.should_stop_after_turn ≡ some hook) (n : ℕ)
      (stops : (t : ℕ) (b : Bool) (w : W) → n ≤ t → (hook t b w).0 ≡ true) where
    asked_to_stop_lem : (b : Bool) → asked_to_stop env b ≡ (get_run >>= λ r. ask (hook r.turn b))
    unfolding asked_to_stop
    asked_to_stop_lem b = rw (set, asked_to_stop) refl

    decided-IsStopped :
        (b : Bool) (m : Machine L E W)
        → n ≤ m.run.turn
        → IsStopped (
            (asked_to_stop env b >>= λ stop.
            get_run >>= λ r. next_turn env b (r.terminated || r.suspended || stop))
              m)
    unfolding ◌>>=◌
    decided-IsStopped b m late =
        rw (asked_to_stop_lem b, stops m.run.turn b m.world late)
          (next_turn-IsStopped b m.run.terminated m.run.suspended _)

    after_turn-IsStopped :
        (b : Bool) (k : ℕ) (rs : List (PromptResult E)) (m : Machine L E W)
        → AtTurn k rs m
        → n ≤ k
        → IsStopped (after_turn env b m)
    unfolding after_turn IsStopped
    after_turn-IsStopped b k rs m h late =
        bind_lem IsStopped (flush_pending env) _ m (λ e m'. tt)
          (λ u m1 e1. decided-IsStopped b m1 (omega (arith, late, (flushed m1 e1).turn_is)))
      where
        flushed : (m1 : Machine L E W) → flush_pending env m ≡ (ok tt, m1) → AtTurn k rs m1
        flushed m1 e1 =
            subst (λ p. AtTurn k rs (p.1)) e1
              ((flush_pending-Keeps env (AtTurn k rs) AnyChange (AtTurn-IsStable env k rs)
                  (env-IsQuiet env) (AtTurn-IsFree env k rs)).kept
                m h)

    module _ (rs : List (PromptResult E)) where
      -- The loop is over within n turns, and it delivered one result.
      IsOver : Option (Machine L E W) → Type 0
      IsOver none = ⊥
      IsOver (some m) = (m.run.turn ≤ n) × ((r : PromptResult E) × (m.run.results ≡ rs ++ r ∷ []))

      finish-IsOver :
          (k : ℕ)
          → k ≤ n
          → (e : Option E) (m : Machine L E W) → AtTurn k rs m
          → IsOver (some (finish env e m))
      unfolding IsOver finish
      finish-IsOver k few e m h = (
        omega (arith, h.turn_is, few),
        (
          _,
          ap
              (λ l.
                l
                ++ record { messages = m.run.transcript; error = e; suspended = m.run.suspended }
                  ∷ [])
              h.results_are,
        ),
      )

      never :
          {A : Type 0} (r : Outcome E Bool × Machine L E W) (m' : Machine L E W)
          → IsStopped r
          → r ≡ (ok true, m')
          → A
      unfolding IsStopped
      never r m' stopped e = elim (subst IsStopped e stopped) [ ]

      turns-IsOver :
          (fuel k : ℕ) (m : Machine L E W)
          → AtTurn k rs m
          → k < n
          → n ≤ k + fuel
          → IsOver (turns env fuel m)
      unfolding turns
      turns-IsOver zero k m h few enough = elim (not_enough few enough) [ ]
        where
          not_enough : k < n → n ≤ k + zero → ⊥
          not_enough few enough = omega arith
      turns-IsOver (suc fuel) k m h few enough =
          after_result_lem env (AtTurn (suc k) rs) AnyChange (AtTurn-IsStable env (suc k) rs)
            (env-IsQuiet env) (AtTurn-IsFree env (suc k) rs) IsOver
            (finish-IsOver (suc k) (omega (arith, few))) _ _
            (run_one_turn_lem env (AtTurn (suc k) rs) AnyChange (AtTurn-IsStable env (suc k) rs)
              (env-IsQuiet env) (AtTurn-IsFree env (suc k) rs) m (start_turn-AtTurn env k rs m h))
            (λ b m1 m2 h1 e h2. elim (Bool-cases (leb n (suc k))) [
              | inl late ↦ never _ _ (after_turn-IsStopped b (suc k) rs m1 h1 (leb→le _ _ late)) e
              | inr early ↦
                  turns-IsOver fuel (suc k) m2 h2 (leb→gt _ _ early) (omega (arith, enough))
            ])

      started-IsOver :
          (fuel : ℕ) (r : Outcome E (Unit {0}) × Machine L E W)
          → AtTurn 0 rs (r.1)
          → 0 < n
          → n ≤ fuel
          → IsOver (started env fuel r)
      unfolding started
      started-IsOver fuel (ok u, m) h some_turn enough =
          turns-IsOver fuel 0 m h some_turn (omega (arith, enough))
      started-IsOver fuel (err e, m) h some_turn enough = finish-IsOver 0 (omega arith) _ m h

      close_prompt-IsOver :
          (o : Option (Machine L E W))
          → IsOver o
          → IsOver (elim o [ none ↦ none | some m ↦ some (close_prompt env m) ])
      unfolding IsOver close_prompt
      close_prompt-IsOver none h = h
      close_prompt-IsOver (some m) (few, (r, delivered)) =
          let kept : AtTurn (m.run.turn) (rs ++ r ∷ []) (close_prompt env m) =
            (flush_pending-Keeps env (AtTurn m.run.turn (rs ++ r ∷ [])) AnyChange
                (AtTurn-IsStable env _ _) (env-IsQuiet env) (AtTurn-IsFree env _ _)).kept
              _ (record { turn_is = refl; results_are = delivered }) in
          (omega (arith, few, kept.turn_is), (r, kept.results_are))

    some_over :
        (rs : List (PromptResult E)) (o : Option (Machine L E W))
        → IsOver rs o
        → (m' : Machine L E W) × (o ≡ some m')
          × (m'.run.turn ≤ n)
          × ((r : PromptResult E) × (m'.run.results ≡ rs ++ r ∷ []))
    unfolding IsOver
    some_over rs none h = elim h [ ]
    some_over rs (some m) h = (m, refl, h.0, h.1)

    -- Where the hook stops every turn from the n-th on, fuel for n turns is enough: the prompt ends
    -- within n turns, with one result delivered, whatever the provider, the tools, the session and
    -- the queues do.
    pub run_prompt_terminates :
        (fuel : ℕ) (m : Machine L E W)
        → m.run.turn ≡ 0
        → 0 < n
        → n ≤ fuel
        → (m' : Machine L E W) × (run_prompt env fuel m ≡ some m')
          × (m'.run.turn ≤ n)
          × ((r : PromptResult E) × (m'.run.results ≡ m.run.results ++ r ∷ []))
    unfolding run_prompt
    run_prompt_terminates fuel m fresh some_turn enough = some_over m.run.results _ (
        close_prompt-IsOver m.run.results (started env fuel (begin env m)) (
          started-IsOver m.run.results fuel _
            ((begin-Keeps env 0 m.run.results).kept m
              (record { turn_is = fresh; results_are = refl }))
            some_turn enough))
