-- ===== src/Loop/Conclusion.antt =====
-- What a prompt has come to when it is over: its result, its transcript and its session (loop and its
-- deferred calls, prompt.go).
use mathlib.Core.List.{append-nil, append_assoc}
use resolute_agent_core_go.Prelude.{
  ℕ, String, List, [], ◌∷◌, ◌++◌, Option, none, some, Outcome, ok, err, ◌≡◌, ◌∙◌, refl, sym, ap,
  subst, inl, inr, All, All-append, Outcome-cases, Bool-cases, str_eq,
}
use resolute_agent_core_go.Message.{Message, new_active_tools_change}
use resolute_agent_core_go.Loop.Machine.{PromptResult, Environment, Machine, ◌>>=◌, continue, emit}
use resolute_agent_core_go.Loop.Tools.{append_transcript}
use resolute_agent_core_go.Loop.Turn.{append_all}
use resolute_agent_core_go.Loop.Prompt.{
  finish, changes, flush_pending, load_transcript, announce, begin, started, close_prompt,
  run_prompt, announce_message,
}
use resolute_agent_core_go.Loop.Keeps.{Keeps, IsQuiet, keeps_bind, keeps_pure}
use resolute_agent_core_go.Loop.Turns.{turns_lem}
use resolute_agent_core_go.Loop.InSync.{
  IsSession, SameMessages, InSync, append_transcript_lem, InSync-IsStable, InSync-IsFree,
  start_turn-Keeps,
}

-- The record of a change of the active tools.
abbrev pub IsChange : Message → Type 0
IsChange m = (names : Option (List String)) × (m ≡ new_active_tools_change names)

-- A prompt that is over: one result was delivered, with the messages of the transcript, to which
-- only changes of the active tools were added since, and the session holds the same messages.
pub record IsConcluded {L E W : Type 0} (messages : String → W → List Message)
    (before m : Machine L E W) : Type 0 where
  pub result : PromptResult E
  pub late : List Message
  pub one_result : m.run.results ≡ before.run.results ++ result ∷ []
  pub all_messages : m.run.transcript ≡ result.messages ++ late
  pub late_changes : All IsChange late
  pub same_session : m.run.session_id ≡ before.run.session_id
  pub in_session : messages before.run.session_id m.world ≡ m.run.transcript

module _ {X L E W : Type 0} (env : Environment X L E W) (messages : String → W → List Message)
    (session : IsSession env messages) (calm : IsQuiet env (SameMessages messages))
    (before : Machine L E W) where
  id : String
  id = before.run.session_id

  Begun : Outcome E (Unit {0}) × Machine L E W → Type 0
  Begun (ok u, m) = InSync messages before.run.session_id before.run.results m
  Begun (err e, m) = Unit

  load_transcript-Begun :
      (m : Machine L E W)
      → m.run.session_id ≡ before.run.session_id
      → m.run.results ≡ before.run.results
      → Begun (load_transcript env m)
  unfolding Begun load_transcript ◌>>=◌
  load_transcript-Begun m same rs = elim (Outcome-cases ((env.load m.run.session_id m.world).0)) [
    | inr (e, bad) ↦ rw (bad, load_transcript, Begun) tt
    | inl (ms, good) ↦
        elim (Outcome-cases (
          (env.load_branch_summaries m.run.session_id ((env.load m.run.session_id m.world).1)).0)) [
            | inr (e, bad) ↦ rw (good, bad, load_transcript, Begun) tt
            | inl (summaries, fine) ↦
                rw (good, fine, load_transcript, Begun)
                  (record {
                    same_session = same;
                    same_messages =
                        sym (session.load_ok m.run.session_id m.world ms good)
                        ∙ sym (
                            session.summaries_quiet m.run.session_id m.run.session_id
                              ((env.load m.run.session_id m.world).1))
                        ∙ ap
                            (λ k. messages k (
                              (env.load_branch_summaries m.run.session_id
                                ((env.load m.run.session_id m.world).1)).1))
                            same;
                    same_results = rs;
                  })
          ]
  ]

  announce_message-Begun :
      (o : Option Message) (m : Machine L E W)
      → InSync messages before.run.session_id before.run.results m
      → Begun (announce_message env o m)
  unfolding announce_message Begun emit
  announce_message-Begun none m h = h
  announce_message-Begun (some msg) m h = elim (Bool-cases (str_eq msg.role "user")) [
    | inl user ↦
        rw (user, announce_message, Begun)
          (record {
            same_session = h.same_session;
            same_messages = h.same_messages;
            same_results = h.same_results;
          })
    | inr other ↦ rw (other, announce_message, Begun) h
  ]

  announced-Begun :
      (r : Outcome E (Unit {0}) × Machine L E W) → Begun r → Begun (continue (λ _. announce env) r)
  unfolding Begun announce ◌>>=◌
  announced-Begun (ok u, m) h = announce_message-Begun _ m h
  announced-Begun (err e, m) h = tt

  begin-Begun : Begun (begin env before)
  unfolding begin emit ◌>>=◌
  begin-Begun = announced-Begun _ (load_transcript-Begun _ refl refl)

  -- The loop is over, and the deferred calls may still append.
  record IsEnding (m : Machine L E W) : Type 0 where
    result : PromptResult E
    late : List Message
    all_messages : m.run.transcript ≡ result.messages ++ late
    late_changes : All IsChange late
    in_sync : InSync messages before.run.session_id (before.run.results ++ result ∷ []) m

  finish-IsEnding :
      (e : Option E) (m : Machine L E W)
      → InSync messages before.run.session_id before.run.results m
      → IsEnding (finish env e m)
  unfolding finish
  finish-IsEnding e m h = record {
    result = record { messages = m.run.transcript; error = e; suspended = m.run.suspended };
    late = [];
    all_messages = sym (append-nil m.run.transcript);
    late_changes = tt;
    in_sync = record {
      same_session = h.same_session;
      same_messages = h.same_messages;
      same_results =
          ap
            (λ rs.
              rs
              ++ record { messages = m.run.transcript; error = e; suspended = m.run.suspended }
                ∷ [])
            h.same_results;
    };
  }

  append_change-Keeps :
      (names : Option (List String))
      → Keeps IsEnding (append_transcript env (new_active_tools_change names))
  append_change-Keeps names = record {
    kept = λ m h.
        let insync : Keeps
            (InSync messages before.run.session_id (before.run.results ++ h.result ∷ []))
            (append_transcript env (new_active_tools_change names)) =
          (InSync-IsFree env messages session calm before.run.session_id
              (before.run.results ++ h.result ∷ [])).append_transcript
            (new_active_tools_change names) in
        append_transcript_lem env
          (λ m'.
            InSync messages before.run.session_id (before.run.results ++ h.result ∷ []) m'
            → IsEnding m')
          (new_active_tools_change names) m
          (λ fine now. record {
            result = h.result;
            late = h.late ++ new_active_tools_change names ∷ [];
            all_messages =
                ap (λ ms. ms ++ new_active_tools_change names ∷ []) h.all_messages
                ∙ append_assoc h.result.messages h.late (new_active_tools_change names ∷ []);
            late_changes = All-append IsChange h.late _ h.late_changes ((names, refl), tt);
            in_sync = now;
          })
          (λ e bad now. record {
            result = h.result;
            late = h.late;
            all_messages = h.all_messages;
            late_changes = h.late_changes;
            in_sync = now;
          })
          (insync.kept m h.in_sync);
  }

  append_changes-Keeps :
      (pending : List (Option (List String)))
      → Keeps IsEnding (append_all env (changes env pending))
  unfolding changes append_all
  append_changes-Keeps [] = keeps_pure _ _
  append_changes-Keeps (names ∷ more) =
      keeps_bind _ _ _ (append_change-Keeps names) (λ _. append_changes-Keeps more)

  quiet_IsEnding :
      (g : W → W)
      → SameMessages messages g
      → (m : Machine L E W) → IsEnding m
      → IsEnding (record m { world = g m.world })
  quiet_IsEnding g same m h = record {
    result = h.result;
    late = h.late;
    all_messages = h.all_messages;
    late_changes = h.late_changes;
    in_sync = (InSync-IsStable env messages session calm _ _).quiet g same m h.in_sync;
  }

  close_prompt-IsEnding : (m : Machine L E W) → IsEnding m → IsEnding (close_prompt env m)
  unfolding close_prompt flush_pending ◌>>=◌
  close_prompt-IsEnding m h =
      (append_changes-Keeps _).kept _
        (quiet_IsEnding _ calm.take_pending _ (quiet_IsEnding env.release calm.release m h))

  Ends : Option (Machine L E W) → Type 0
  Ends none = Unit
  Ends (some m) = IsEnding m

  -- What follows from a start that succeeded.
  OkEnds : Outcome E (Unit {0}) → Option (Machine L E W) → Type 0
  OkEnds (ok u) o = Ends o
  OkEnds (err e) o = Unit

  started-OkEnds :
      (fuel : ℕ) (r : Outcome E (Unit {0}) × Machine L E W)
      → Begun r
      → OkEnds (r.0) (started env fuel r)
  unfolding started Begun Ends OkEnds
  started-OkEnds fuel (err e, m) h = tt
  started-OkEnds fuel (ok u, m) h =
      turns_lem env (InSync messages before.run.session_id before.run.results) _
        (InSync-IsStable env messages session calm _ _) calm
        (InSync-IsFree env messages session calm _ _) Ends finish-IsEnding tt
        (start_turn-Keeps env messages session calm _ _) fuel m h

  closed-Ends :
      (o : Option (Machine L E W))
      → Ends o
      → Ends (elim o [ none ↦ none | some m ↦ some (close_prompt env m) ])
  unfolding Ends
  closed-Ends none h = tt
  closed-Ends (some m) h = close_prompt-IsEnding m h

  run_prompt-Ends : (fuel : ℕ) → (begin env before).0 ≡ ok tt → Ends (run_prompt env fuel before)
  unfolding run_prompt OkEnds
  run_prompt-Ends fuel begun = closed-Ends _ (
      subst (λ o. OkEnds o (started env fuel (begin env before))) begun
        (started-OkEnds fuel _ begin-Begun))

  -- Where the loading of the session succeeds and nobody else writes to it, a prompt that is over has
  -- delivered exactly one result with the transcript's messages, to which only changes of the active
  -- tools are added after it, and the session holds the messages of the transcript.
  pub run_prompt-IsConcluded :
      (fuel : ℕ) (m : Machine L E W)
      → (begin env before).0 ≡ ok tt
      → run_prompt env fuel before ≡ some m
      → IsConcluded messages before m
  unfolding Ends
  run_prompt-IsConcluded fuel m begun over =
      let h : IsEnding m = subst Ends over (run_prompt-Ends fuel begun) in
      record {
        result = h.result;
        late = h.late;
        one_result = h.in_sync.same_results;
        all_messages = h.all_messages;
        late_changes = h.late_changes;
        same_session = h.in_sync.same_session;
        in_session = sym h.in_sync.same_messages;
      }
