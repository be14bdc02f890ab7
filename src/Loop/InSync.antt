-- ===== src/Loop/InSync.antt =====
-- The transcript of a prompt and the messages of its session (appendTranscript, loadTranscript and the
-- deferred flush of prompt.go).
use resolute_agent_core_go.Prelude.{
  String, List, [], ◌∷◌, ◌++◌, none, some, ok, ◌≡◌, ◌∙◌, sym, ap, subst, inl, inr, Option-cases,
}
use resolute_agent_core_go.Message.{Message}
use resolute_agent_core_go.Loop.Machine.{PromptResult, Environment, Machine, ◌>>=◌}
use resolute_agent_core_go.Loop.Tools.{append_transcript, set_terminated, set_suspended}
use resolute_agent_core_go.Loop.Turn.{start_turn, next_turn_number}
use resolute_agent_core_go.Loop.Keeps.{
  Keeps, IsStable, IsQuiet, keeps_bind, emit-Keeps, set_phase-Keeps,
}
use resolute_agent_core_go.Loop.KeepsTurn.{IsFree}

-- What a session does with the messages of a conversation, as session.go documents it.
pub record IsSession {X L E W : Type 0} (env : Environment X L E W)
    (messages : String → W → List Message) : Type 0 where
  pub append_ok :
      (id : String) (msg : Message) (w : W)
      → (env.append id msg w).0 ≡ none
      → messages id ((env.append id msg w).1) ≡ messages id w ++ msg ∷ []
  pub append_err :
      (id : String) (msg : Message) (e : E) (w : W)
      → (env.append id msg w).0 ≡ some e
      → messages id ((env.append id msg w).1) ≡ messages id w
  pub load_ok :
      (id : String) (w : W) (ms : List Message)
      → (env.load id w).0 ≡ ok ms
      → messages id ((env.load id w).1) ≡ ms
  pub summaries_quiet :
      (id k : String) (w : W) → messages k ((env.load_branch_summaries id w).1) ≡ messages k w

-- A change of the world that leaves the messages of every conversation.
abbrev pub SameMessages : {W : Type 0} → (String → W → List Message) → (W → W) → Type 0
SameMessages messages g = (id : String) (w : _) → messages id (g w) ≡ messages id w

-- The conversation of the prompt, in memory as in the session, and the results delivered so far.
pub record InSync {L E W : Type 0} (messages : String → W → List Message) (id : String)
    (rs : List (PromptResult E)) (m : Machine L E W) : Type 0 where
  pub same_session : m.run.session_id ≡ id
  pub same_messages : m.run.transcript ≡ messages id m.world
  pub same_results : m.run.results ≡ rs

module _ {X L E W : Type 0} (env : Environment X L E W) where
  -- What appending one message comes to, in the two cases of the session's answer.
  pub append_transcript_lem :
      (P : Machine L E W → Type 0) (msg : Message) (m : Machine L E W)
      → ((env.append m.run.session_id msg m.world).0 ≡ none
          → P (record m {
            run = record (m.run) { transcript = m.run.transcript ++ msg ∷ [] };
            world = (env.append m.run.session_id msg m.world).1;
          }))
      → ((e : E)
          → (env.append m.run.session_id msg m.world).0 ≡ some e
          → P (record m { world = (env.append m.run.session_id msg m.world).1 }))
      → P ((append_transcript env msg m).1)
  unfolding append_transcript ◌>>=◌
  append_transcript_lem P msg m stored failed =
      elim (Option-cases ((env.append m.run.session_id msg m.world).0)) [
        | inl fine ↦ rw (fine, append_transcript) (stored fine)
        | inr (e, bad) ↦ rw (bad, append_transcript) (failed e bad)
      ]

module _ {X L E W : Type 0} (env : Environment X L E W) (messages : String → W → List Message)
    (session : IsSession env messages) (calm : IsQuiet env (SameMessages messages)) where
  module _ (id : String) (rs : List (PromptResult E)) where
    pub InSync-IsStable : IsStable (InSync {L = L} messages id rs) (SameMessages messages)
    InSync-IsStable = record {
      minor = λ f small m h. record {
        same_session = small.same_session m.run ∙ h.same_session;
        same_messages = small.same_transcript m.run ∙ h.same_messages;
        same_results = small.same_results m.run ∙ h.same_results;
      };
      quiet = λ g calm m h. record {
        same_session = h.same_session;
        same_messages = h.same_messages ∙ sym (calm id m.world);
        same_results = h.same_results;
      };
    }

    append_transcript-Keeps :
        (msg : Message) → Keeps (InSync messages id rs) (append_transcript env msg)
    append_transcript-Keeps msg = record {
      kept = λ m h.
          append_transcript_lem env (InSync messages id rs) msg m
            (λ fine. record {
              same_session = h.same_session;
              same_messages =
                  ap (λ ms. ms ++ msg ∷ []) h.same_messages
                  ∙ sym (
                      subst
                        (λ k.
                          messages k ((env.append m.run.session_id msg m.world).1)
                          ≡ messages k m.world ++ msg ∷ [])
                        h.same_session (session.append_ok m.run.session_id msg m.world fine));
              same_results = h.same_results;
            })
            (λ e bad. record {
              same_session = h.same_session;
              same_messages =
                  h.same_messages
                  ∙ sym (
                      subst
                        (λ k.
                          messages k ((env.append m.run.session_id msg m.world).1)
                          ≡ messages k m.world)
                        h.same_session (session.append_err m.run.session_id msg e m.world bad));
              same_results = h.same_results;
            });
    }

    pub InSync-IsFree : IsFree env (InSync messages id rs)
    unfolding set_terminated set_suspended
    InSync-IsFree = record {
      append_transcript = append_transcript-Keeps;
      set_terminated = record {
        kept = λ m h. record {
          same_session = h.same_session;
          same_messages = h.same_messages;
          same_results = h.same_results;
        };
      };
      set_suspended = record {
        kept = λ m h. record {
          same_session = h.same_session;
          same_messages = h.same_messages;
          same_results = h.same_results;
        };
      };
    }

    pub start_turn-Keeps : Keeps (InSync messages id rs) (start_turn env)
    unfolding start_turn next_turn_number
    start_turn-Keeps = keeps_bind _ _ _ (set_phase-Keeps env _ _ InSync-IsStable calm _) (λ _.
        keeps_bind _ _ _
          (record {
            kept = λ m h. record {
              same_session = h.same_session;
              same_messages = h.same_messages;
              same_results = h.same_results;
            };
          })
          (λ _.
            keeps_bind _ _ _ (record { kept = λ m h. h })
              (λ _. emit-Keeps env _ _ InSync-IsStable calm _)))
