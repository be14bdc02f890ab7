-- ===== src/Loop/Prompt.antt =====
-- loop of prompt.go: turns until the model stops calling tools, a hook or a tool stops the prompt, or
-- an error ends it.
use resolute_agent_core_go.Prelude.{
  ℕ, zero, suc, String, Bool, true, false, ◌||◌, List, [], ◌∷◌, ◌++◌, Option, none, some, Outcome,
  ok, err, str_eq, if◌then◌else◌, last?,
}
use resolute_agent_core_go.Message.{Message, new_active_tools_change}
use resolute_agent_core_go.Loop.Machine.{
  AgentEvent, agent_start, agent_end, message_start, llm_error, steer_injected, follow_up_injected,
  over, Environment, Machine, M, pure, throw, ◌>>=◌, ◌>>◌, ask, get_run, modify, from_outcome, emit,
}
use resolute_agent_core_go.Loop.Tools.{append_transcript}
use resolute_agent_core_go.Loop.Turn.{append_all, run_one_turn}

module _ {X L E W : Type 0} (env : Environment X L E W) where
  -- The error that asCancellation gives back, and whether it is a cancellation.
  unfoldable pub as_cancellation : E → E × Bool
  as_cancellation e =
      if env.is_agent_stopped e
      then (env.agent_stopped, true)
      else if env.is_prompt_cancelled e || env.is_canceled e
      then (env.prompt_cancelled, true)
      else (e, false)

  unfoldable pub finish : Option E → Machine L E W → Machine L E W
  finish e m = record m {
    run = record (m.run) {
      phase = over;
      events = m.run.events ++ agent_end m.run.transcript ∷ [];
      results =
          m.run.results
          ++ record { messages = m.run.transcript; error = e; suspended = m.run.suspended } ∷ [];
    };
  }

  unfoldable pub changes : List (Option (List String)) → List Message
  changes [] = []
  changes (names ∷ more) = new_active_tools_change names ∷ changes more

  -- flushPendingActiveTools
  unfoldable pub flush_pending : M L E W (Unit {0})
  flush_pending = do pending ← ask env.take_pending; append_all env (changes pending)

  unfoldable pub asked_to_stop : Bool → M L E W Bool
  asked_to_stop had_calls = elim env.should_stop_after_turn [
    | none ↦ pure false
    | some hook ↦ get_run >>= λ r. ask (hook r.turn had_calls)
  ]

  unfoldable pub inject : (Message → AgentEvent E) → Message → M L E W Bool
  inject event m = do
    append_transcript env m
    emit (message_start "user" "text")
    emit (event m)
    pure true

  unfoldable pub cancelled_or : Bool → Option E → M L E W Bool
  cancelled_or otherwise none = pure otherwise
  cancelled_or otherwise (some cause) = throw (as_cancellation cause).0

  -- A done context ends the prompt; `otherwise` is whether it goes on.
  unfoldable pub unless_cancelled : Bool → M L E W Bool
  unless_cancelled otherwise = ask env.cancelled >>= cancelled_or otherwise

  unfoldable pub followed_up : Option Message → M L E W Bool
  followed_up (some m) = inject follow_up_injected m
  followed_up none = unless_cancelled false

  -- The end of a turn without a queued steer. Where a follow-up is queued and the context is done,
  -- select takes either, so that the answer of `follow_up` may be none.
  unfoldable pub no_steer : Bool → M L E W Bool
  no_steer true = unless_cancelled true
  no_steer false = ask env.follow_up >>= followed_up

  unfoldable pub steered : Bool → Option Message → M L E W Bool
  steered had_calls (some m) = inject steer_injected m
  steered had_calls none = no_steer had_calls

  -- A queued steer goes before anything else that starts another turn.
  unfoldable pub next_turn : Bool → Bool → M L E W Bool
  next_turn had_calls true = pure false
  next_turn had_calls false = ask env.steer >>= steered had_calls

  -- What follows a turn without error: whether there is another.
  unfoldable pub after_turn : Bool → M L E W Bool
  after_turn had_calls = do
    flush_pending
    stop ← asked_to_stop had_calls
    r ← get_run
    next_turn had_calls (r.terminated || r.suspended || stop)

  -- The end of a prompt whose turn failed.
  unfoldable pub fail_turn : E → Machine L E W → Machine L E W
  fail_turn e m =
      let cause = as_cancellation e in
      if cause.1
      then finish (some cause.0) m
      else finish (some e)
          (record m { run = record (m.run) { events = m.run.events ++ llm_error e false ∷ [] } })

  -- What follows the step that decides on another turn.
  unfoldable pub decide :
      (Machine L E W → Option (Machine L E W))
      → Outcome E Bool × Machine L E W
      → Option (Machine L E W)
  decide next (err e, m) = some (finish (some e) m)
  decide next (ok false, m) = some (finish none m)
  decide next (ok true, m) = next m

  unfoldable pub after_result :
      (Machine L E W → Option (Machine L E W))
      → Outcome E Bool × Machine L E W
      → Option (Machine L E W)
  after_result next (err e, m) = some (fail_turn e m)
  after_result next (ok had_calls, m) = decide next (after_turn had_calls m)

  -- The loop on fuel, a unit for each turn; `none` is fuel that ran out.
  unfoldable pub turns : ℕ → Machine L E W → Option (Machine L E W)
  turns zero m = none
  turns (suc fuel) m = after_result (λ m'. turns fuel m') (run_one_turn env m)

  unfoldable pub load_transcript : M L E W (Unit {0})
  load_transcript = do
    r ← get_run
    loaded ← ask (env.load r.session_id)
    msgs ← from_outcome loaded
    stored ← ask (env.load_branch_summaries r.session_id)
    summaries ← from_outcome stored
    modify (λ r'. record r' { transcript = msgs; branch_summaries = summaries })

  unfoldable pub announce_message : Option Message → M L E W (Unit {0})
  announce_message none = pure tt
  announce_message (some m) =
      if str_eq m.role "user" then emit (message_start "user" "text") else pure tt

  -- The user prompt that was appended before the loop.
  unfoldable pub announce : M L E W (Unit {0})
  announce = get_run >>= λ r. announce_message (last? r.transcript)

  unfoldable pub begin : M L E W (Unit {0})
  begin = do emit agent_start; load_transcript; announce

  unfoldable pub started : ℕ → Outcome E (Unit {0}) × Machine L E W → Option (Machine L E W)
  started fuel (err e, m) = some (finish (some (env.wrapped "loading transcript" e)) m)
  started fuel (ok u, m) = turns fuel m

  -- The deferred calls: the Agent is free, and what is still queued is flushed, errors ignored.
  unfoldable pub close_prompt : Machine L E W → Machine L E W
  close_prompt m = (flush_pending (record m { world = env.release m.world })).1

  unfoldable pub run_prompt : ℕ → Machine L E W → Option (Machine L E W)
  run_prompt fuel m = elim (started fuel (begin m)) [
    | none ↦ none
    | some m' ↦ some (close_prompt m')
  ]
