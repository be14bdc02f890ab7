-- ===== src/Loop/Turns.antt =====
-- How the loop of a prompt ends: what its turns keep holds where it finishes (loop of prompt.go).
use resolute_agent_core_go.Prelude.{
  ℕ, zero, suc, Bool, true, false, Option, none, some, Outcome, ok, err, ◌≡◌, refl, inl, inr,
  Bool-cases, ◌++◌, ◌∷◌, [],
}
use resolute_agent_core_go.Loop.Machine.{Environment, Machine, M, ◌>>=◌, continue, llm_error}
use resolute_agent_core_go.Loop.Turn.{start_turn, turn_body, run_one_turn}
use resolute_agent_core_go.Loop.Prompt.{
  as_cancellation, finish, after_turn, fail_turn, decide, after_result, turns,
}
use resolute_agent_core_go.Loop.Keeps.{Keeps, IsStable, IsQuiet}
use resolute_agent_core_go.Loop.KeepsTurn.{IsFree, turn_body-Keeps, after_turn-Keeps}

-- What a step leads to, from what it leads to where its first part returns.
module _ {L E W A B : Type 0} (R : Outcome E B × Machine L E W → Type 0) where
  pub bind_lem :
      (step : M L E W A) (f : A → M L E W B) (m : Machine L E W)
      → ((e : E) (m' : Machine L E W) → R (err e, m'))
      → ((a : A) (m' : Machine L E W) → step m ≡ (ok a, m') → R (f a m'))
      → R ((step >>= f) m)
  unfolding ◌>>=◌
  bind_lem step f m failing returning = bound (step m) refl
    where
      bound : (r : Outcome E A × Machine L E W) → step m ≡ r → R (continue f r)
      bound (ok a, m') e = returning a m' e
      bound (err x, m') e = failing x m'

module _ {X L E W : Type 0} (env : Environment X L E W) (Q : Machine L E W → Type 0)
    (Quiet : (W → W) → Type 0) (stable : IsStable Q Quiet) (calm : IsQuiet env Quiet)
    (free : IsFree env Q) where
  pub run_one_turn_lem : (m : Machine L E W) → Q ((start_turn env m).1) → Q ((run_one_turn env m).1)
  unfolding run_one_turn ◌>>=◌
  run_one_turn_lem m h = bound (start_turn env m) h
    where
      bound :
          (r : Outcome E (Unit {0}) × Machine L E W)
          → Q (r.1)
          → Q ((continue (λ _. turn_body env) r).1)
      bound (ok u, m') h' = (turn_body-Keeps env Q Quiet stable calm free).kept m' h'
      bound (err e, m') h' = h'

  module _ (R : Option (Machine L E W) → Type 0)
      (ended : (e : Option E) (m : Machine L E W) → Q m → R (some (finish env e m))) where
    fail_turn_lem : (e : E) (m : Machine L E W) → Q m → R (some (fail_turn env e m))
    unfolding fail_turn
    fail_turn_lem e m h = elim (Bool-cases ((as_cancellation env e).1)) [
      | inl cancelled ↦ rw (cancelled, fail_turn) (ended _ m h)
      | inr failed ↦
          rw (failed, fail_turn)
            (ended _ _ (
              stable.minor (λ r. record r { events = r.events ++ llm_error e false ∷ [] })
                (record {
                  same_transcript = λ r. refl;
                  same_session = λ r. refl;
                  same_turn = λ r. refl;
                  same_terminated = λ r. refl;
                  same_suspended = λ r. refl;
                  same_results = λ r. refl;
                })
                m h))
    ]

    decide_lem :
        (next : Machine L E W → Option (Machine L E W)) (r : Outcome E Bool × Machine L E W)
        → Q (r.1)
        → ((m' : Machine L E W) → r ≡ (ok true, m') → Q m' → R (next m'))
        → R (decide env next r)
    unfolding decide
    decide_lem next (err e, m) h more = ended _ m h
    decide_lem next (ok false, m) h more = ended _ m h
    decide_lem next (ok true, m) h more = more m refl h

    pub after_result_lem :
        (next : Machine L E W → Option (Machine L E W)) (r : Outcome E Bool × Machine L E W)
        → Q (r.1)
        → ((b : Bool) (m m' : Machine L E W)
            → Q m
            → after_turn env b m ≡ (ok true, m')
            → Q m'
            → R (next m'))
        → R (after_result env next r)
    unfolding after_result
    after_result_lem next (err e, m) h more = fail_turn_lem e m h
    after_result_lem next (ok b, m) h more =
        decide_lem next (after_turn env b m)
          ((after_turn-Keeps env Q Quiet stable calm free b).kept m h)
          (λ m' e h'. more b m m' h e h')

  -- What each turn keeps holds at the end of the loop.
  pub turns_lem :
      (R : Option (Machine L E W) → Type 0)
      → ((e : Option E) (m : Machine L E W) → Q m → R (some (finish env e m)))
      → R none
      → Keeps Q (start_turn env)
      → (fuel : ℕ) (m : Machine L E W) → Q m
      → R (turns env fuel m)
  unfolding turns
  turns_lem R ended starved start zero m h = starved
  turns_lem R ended starved start (suc fuel) m h =
      after_result_lem R ended _ _ (run_one_turn_lem m (start.kept m h))
        (λ b m1 m2 _ _ h2. turns_lem R ended starved start fuel m2 h2)
