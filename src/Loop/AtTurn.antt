-- ===== src/Loop/AtTurn.antt =====
-- The turn and the results that a prompt has come to, and the steps that leave them (prompt.go).
use resolute_agent_core_go.Prelude.{
  ℕ, suc, List, [], ◌∷◌, Option, none, some, ◌≡◌, ◌∙◌, inl, inr, All, Bool-cases, str_eq, arith,
}
use resolute_agent_core_go.Message.{Message}
use resolute_agent_core_go.Loop.Machine.{
  AgentEvent, PromptResult, Provider, LlmRequest, Environment, Machine, ◌>>=◌, ask, emit, set_phase,
}
use resolute_agent_core_go.Loop.Tools.{set_terminated, set_suspended}
use resolute_agent_core_go.Loop.Turn.{start_turn, next_turn_number}
use resolute_agent_core_go.Loop.Prompt.{load_transcript, announce, announce_message, begin}
use resolute_agent_core_go.Loop.Keeps.{
  Keeps, IsStable, IsQuiet, keeps_bind, keeps_pure, keeps_outcome, emit-Keeps, ask-Keeps,
}
use resolute_agent_core_go.Loop.KeepsTurn.{IsFree}
use resolute_agent_core_go.Loop.InSync.{append_transcript_lem}

-- A run that has begun `n` turns and delivered the results `rs`.
pub record AtTurn {L E W : Type 0} (n : ℕ) (rs : List (PromptResult E)) (m : Machine L E W)
    : Type 0 where
  pub turn_is : m.run.turn ≡ n
  pub results_are : m.run.results ≡ rs

-- No call of the world matters.
unfoldable pub AnyChange : {W : Type 0} → (W → W) → Type 0
AnyChange g = Unit

module _ {X L E W : Type 0} (env : Environment X L E W) where
  pub all_calm :
      (ps : List (Provider X L E W))
      → All (λ p. (req : LlmRequest X L) → AnyChange (λ w. (p.stream req w).1)) ps
  unfolding AnyChange
  all_calm [] = tt
  all_calm (p ∷ ps) = ((λ req. tt), all_calm ps)

  pub env-IsQuiet : IsQuiet env AnyChange
  unfolding AnyChange
  env-IsQuiet = record {
    agent = tt;
    take_pending = tt;
    cancelled = tt;
    steer = tt;
    follow_up = tt;
    release = tt;
    streams = all_calm env.providers;
    transform_context = λ hook e ms. tt;
    should_stop_after_turn = λ hook e t b. tt;
    before_tool_call = λ hook e c. tt;
    run_batch = λ ps. tt;
  }

  module _ (n : ℕ) (rs : List (PromptResult E)) where
    pub AtTurn-IsStable : IsStable (AtTurn {L = L} {W = W} n rs) AnyChange
    AtTurn-IsStable = record {
      minor = λ f small m h. record {
        turn_is = small.same_turn m.run ∙ h.turn_is;
        results_are = small.same_results m.run ∙ h.results_are;
      };
      quiet = λ g any m h. record { turn_is = h.turn_is; results_are = h.results_are };
    }

    pub AtTurn-IsFree : IsFree env (AtTurn n rs)
    unfolding set_terminated set_suspended
    AtTurn-IsFree = record {
      append_transcript = λ msg. record {
        kept = λ m h.
            append_transcript_lem env (AtTurn n rs) msg m
              (λ fine. record { turn_is = h.turn_is; results_are = h.results_are })
              (λ e bad. record { turn_is = h.turn_is; results_are = h.results_are });
      };
      set_terminated = record {
        kept = λ m h. record { turn_is = h.turn_is; results_are = h.results_are };
      };
      set_suspended = record {
        kept = λ m h. record { turn_is = h.turn_is; results_are = h.results_are };
      };
    }

  pub start_turn-AtTurn :
      (k : ℕ) (rs : List (PromptResult E)) (m : Machine L E W)
      → AtTurn k rs m
      → AtTurn (suc k) rs ((start_turn env m).1)
  unfolding start_turn next_turn_number emit set_phase ◌>>=◌
  start_turn-AtTurn k rs m h = record {
    turn_is = omega (arith, h.turn_is);
    results_are = h.results_are;
  }

  module _ (n : ℕ) (rs : List (PromptResult E)) where
    pub quiet_ask : {A : Type 0} (f : W → A × W) → Keeps (AtTurn {L = L} n rs) (ask f)
    unfolding AnyChange
    quiet_ask f = ask-Keeps env _ AnyChange (AtTurn-IsStable n rs) env-IsQuiet f tt

    pub quiet_emit : (e : AgentEvent E) → Keeps (AtTurn {L = L} {W = W} n rs) (emit e)
    quiet_emit = emit-Keeps env _ AnyChange (AtTurn-IsStable n rs) env-IsQuiet

    pub load_transcript-Keeps : Keeps (AtTurn n rs) (load_transcript env)
    unfolding load_transcript
    load_transcript-Keeps =
        keeps_bind _ _ _ (record { kept = λ m h. h })
          (λ r. keeps_bind _ _ _ (quiet_ask _) (λ loaded. keeps_outcome _ _ _ (λ msgs _.
            keeps_bind _ _ _ (quiet_ask _) (λ stored. keeps_outcome _ _ _ (λ summaries _. record {
              kept = λ m h. record { turn_is = h.turn_is; results_are = h.results_are };
            })))))

    pub announce_message-Keeps : (o : Option Message) → Keeps (AtTurn n rs) (announce_message env o)
    unfolding announce_message
    announce_message-Keeps none = keeps_pure _ _
    announce_message-Keeps (some msg) = elim (Bool-cases (str_eq msg.role "user")) [
      | inl user ↦ rw (user, announce_message) (quiet_emit _)
      | inr other ↦ rw (other, announce_message) (keeps_pure _ _)
    ]

    pub begin-Keeps : Keeps (AtTurn n rs) (begin env)
    unfolding begin announce
    begin-Keeps = keeps_bind _ _ _ (quiet_emit _) (λ _.
        keeps_bind _ _ _ load_transcript-Keeps
          (λ _. keeps_bind _ _ _ (record { kept = λ m h. h }) (λ r. announce_message-Keeps _)))
