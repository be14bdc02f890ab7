-- ===== src/Config/Invariant.antt =====
-- The configurations that an Agent reaches by its constructor, its setters and the sessions that it resumes.
use mathlib.Core.Option.{none-ne-some}
use resolute_agent_core_go.Message.{Message, new_active_tools_change}
use resolute_agent_core_go.Prelude.{
  ℕ, Bool, true, false, ◌&&◌, Bool-cases, some, sym, String, List, [], ◌∷◌, Option, none, Outcome,
  ok, err, ◌≡◌, refl, subst, Option-cases, inl, inr,
}
use resolute_agent_core_go.ActiveTools.{
  RegisteredTool, ConfigError, tool_names, validate_tool_config, contains,
  active_tool_names_from_transcript,
}
use resolute_agent_core_go.ActiveTools.Validation.{
  Distinct, IsValidConfig, validate_tool_config-IsValidConfig,
}
use resolute_agent_core_go.ActiveTools.Selection.{filter_active_tools-registered, is_active}
use resolute_agent_core_go.Config.Repo.{SessionRepo}
use resolute_agent_core_go.Config.{
  Skill, AgentConfig, Agent, new_agent, set_model, set_system_prompt, set_thinking_level,
  set_skills, set_tools, set_active_tools, store_active_tools, written, flush_pending_active_tools,
  snapshot, restore_active_tools_from_session, is_bound, is_running,
}

-- What a caller, or the running prompt at the end of a turn, does to the configuration.
pub data Change (X L : Type 0) : Type 0 where
  to_model : String → Change X L
  to_system_prompt : String → Change X L
  to_thinking_level : L → Change X L
  to_skills : List Skill → Change X L
  to_tools : List (RegisteredTool X) → Change X L
  to_active_tools : Option (List String) → Change X L
  flush : String → Change X L

-- The active names that were validated: none of the restored ones.
pub validated : Bool → Option (List String) → Option (List String)
validated true names = none
validated false names = names

module _ {X : Type 0} where
  valid_tools :
      (restored : Bool) (tools : List (RegisteredTool X)) (names : Option (List String))
      → IsValidConfig tools names
      → IsValidConfig tools (validated restored names)
  unfolding validated
  valid_tools false tools names h = h
  valid_tools true tools names h = record {
    names_distinct = h.names_distinct;
    schemas_valid = h.schemas_valid;
    active_distinct = λ ns e. absurd (none-ne-some ns e);
    active_registered = λ ns e. absurd (none-ne-some ns e);
  }

  accepted_tools :
      (restored : Bool) (tools : List (RegisteredTool X)) (names : Option (List String))
      → validate_tool_config tools names ≡ none
      → IsValidConfig tools (validated restored names)
  accepted_tools restored tools names h =
      valid_tools restored tools names ((validate_tool_config-IsValidConfig tools names).0 h)

module _ {X L S : Type 0} (repo : SessionRepo S) where
  -- A setter that returns an error leaves everything as it was.
  abbrev pub changed : Change X L → Agent X L → S → Agent X L
  changed (to_model m) a s = (set_model m a).0
  changed (to_system_prompt p) a s = (set_system_prompt p a).0
  changed (to_thinking_level l) a s = (set_thinking_level l a).0
  changed (to_skills k) a s = (set_skills k a).0
  changed (to_tools ts) a s = elim (set_tools ts a) [ err e ↦ a | ok r ↦ r.0 ]
  changed (to_active_tools ns) a s = elim (set_active_tools repo ns a s) [
    | err e ↦ a
    | ok r ↦ r.agent
  ]
  changed (flush id) a s = (flush_pending_active_tools repo id a s).0

  -- The Agents built from a configuration and changed any number of times, with whether the active names
  -- were ever restored. The session may be in any state at a change; a prompt that starts on the Agent
  -- or ends sets its bookkeeping fields, and one that resumes a session restores the names that the
  -- session has, which are not validated.
  pub data Reachable : Bool → Agent X L → Type 0 where
    built : (c : AgentConfig X L) (a : Agent X L) → new_agent c ≡ ok a → Reachable false a
    change :
        (restored : Bool) (a : Agent X L)
        → Reachable restored a
        → (d : Change X L) (s : S) → Reachable restored (changed d a s)
    prompt :
        (restored : Bool) (a : Agent X L)
        → Reachable restored a
        → (running : ℕ) (id : String)
        → Reachable restored (record a { running = running; last_session_id = id })
    resume :
        (restored : Bool) (a b : Agent X L)
        → Reachable restored a
        → (id : String) (s : S) → restore_active_tools_from_session repo id a s ≡ some b
        → Reachable true b

  abbrev IsAccepted : Bool → Agent X L → Type 0
  IsAccepted restored a = IsValidConfig a.tools (validated restored a.active_tool_names)

  IsAcceptedOutcome : Outcome ConfigError (Agent X L) → Type 0
  IsAcceptedOutcome (err e) = Unit
  IsAcceptedOutcome (ok a) = IsAccepted false a

  new_agent-IsAccepted :
      (c : AgentConfig X L) (a : Agent X L) → new_agent c ≡ ok a → IsAccepted false a
  unfolding new_agent IsAcceptedOutcome
  new_agent-IsAccepted c a h = subst IsAcceptedOutcome h (accepted_outcome c)
    where
      accepted_outcome : (c : AgentConfig X L) → IsAcceptedOutcome (new_agent c)
      accepted_outcome c = elim (Option-cases (validate_tool_config c.tools c.active_tool_names)) [
        | inl accepted ↦
            rw (accepted, IsAcceptedOutcome)
              (accepted_tools false c.tools c.active_tool_names accepted)
        | inr (e, refused) ↦ rw (refused, IsAcceptedOutcome) tt
      ]

  set_tools-IsAccepted :
      (restored : Bool) (ts : List (RegisteredTool X)) (a : Agent X L) (s : S)
      → IsAccepted restored a
      → IsAccepted restored (changed (to_tools ts) a s)
  unfolding set_tools
  set_tools-IsAccepted restored ts a s h =
      elim (Option-cases (validate_tool_config ts a.active_tool_names)) [
        | inl accepted ↦
            rw (accepted, changed) (accepted_tools restored ts a.active_tool_names accepted)
        | inr (e, refused) ↦ rw (refused, changed) h
      ]

  store_active_tools-kept :
      (ns : Option (List String)) (a : Agent X L) (s : S)
      → ((store_active_tools repo ns a s).agent.tools ≡ a.tools)
        × ((store_active_tools repo ns a s).agent.active_tool_names ≡ ns)
  unfolding store_active_tools written
  store_active_tools-kept ns a s = elim (Bool-cases (is_bound a)) [
    | inr unbound ↦ rw unbound (refl, refl)
    | inl bound ↦ elim (Bool-cases (is_running a)) [
      | inl runs ↦ rw (bound, runs) (refl, refl)
      | inr idle ↦
          let o = repo.append a.last_session_id (new_active_tools_change ns ∷ []) s in
          elim (Option-cases o) [
            | inl failed ↦ rw (bound, idle, failed) (refl, refl)
            | inr (s', done) ↦ rw (bound, idle, done) (refl, refl)
          ]
    ]
  ]

  set_active_tools-IsAccepted :
      (restored : Bool) (ns : Option (List String)) (a : Agent X L) (s : S)
      → IsAccepted restored a
      → IsAccepted restored (changed (to_active_tools ns) a s)
  unfolding set_active_tools
  set_active_tools-IsAccepted restored ns a s h =
      elim (Option-cases (validate_tool_config a.tools ns)) [
        | inl accepted ↦
            let (same_tools, new_names) = store_active_tools-kept ns a s in
            rw (accepted, changed, same_tools, new_names)
              (accepted_tools restored a.tools ns accepted)
        | inr (e, refused) ↦ rw (refused, changed) h
      ]

  change-IsAccepted :
      (restored : Bool) (a : Agent X L) (d : Change X L) (s : S)
      → IsAccepted restored a
      → IsAccepted restored (changed d a s)
  unfolding set_model set_system_prompt set_thinking_level set_skills flush_pending_active_tools
  change-IsAccepted restored a (to_model m) s h = h
  change-IsAccepted restored a (to_system_prompt p) s h = h
  change-IsAccepted restored a (to_thinking_level l) s h = h
  change-IsAccepted restored a (to_skills k) s h = h
  change-IsAccepted restored a (to_tools ts) s h = set_tools-IsAccepted restored ts a s h
  change-IsAccepted restored a (to_active_tools ns) s h =
      set_active_tools-IsAccepted restored ns a s h
  change-IsAccepted restored a (flush id) s h = h

  IsRestoring : Agent X L → Option (Agent X L) → Type 0
  IsRestoring a none = Unit
  IsRestoring a (some b) = b.tools ≡ a.tools

  restore_active_tools-kept :
      (id : String) (a b : Agent X L) (s : S)
      → restore_active_tools_from_session repo id a s ≡ some b
      → b.tools ≡ a.tools
  unfolding restore_active_tools_from_session IsRestoring
  restore_active_tools-kept id a b s h = subst (IsRestoring a) h (by_load (repo.load id s))
    where
      by_load :
          (o : Option (List Message))
          → IsRestoring a (elim o [
            | none ↦ none
            | some ms ↦ some (record a {
              active_tool_names = elim (active_tool_names_from_transcript ms) [
                | none ↦ none
                | some names ↦ names
              ];
            })
          ])
      by_load none = tt
      by_load (some ms) = refl

  resumed-IsAccepted :
      (restored : Bool) (a b : Agent X L)
      → b.tools ≡ a.tools
      → IsAccepted restored a
      → IsAccepted true b
  unfolding validated
  resumed-IsAccepted restored a b same h =
      subst (λ tools. IsValidConfig tools none) (sym same)
        (valid_tools true a.tools (validated restored a.active_tool_names) h)

  Reachable-IsAccepted :
      (restored : Bool) (a : Agent X L) → Reachable restored a → IsAccepted restored a
  Reachable-IsAccepted _ _ (built c a h) = new_agent-IsAccepted c a h
  Reachable-IsAccepted _ _ (change restored a r d s) =
      change-IsAccepted restored a d s (Reachable-IsAccepted restored a r)
  Reachable-IsAccepted _ _ (prompt restored a r running id) = Reachable-IsAccepted restored a r
  Reachable-IsAccepted _ _ (resume restored a b r id s h) =
      resumed-IsAccepted restored a b (restore_active_tools-kept id a b s h)
        (Reachable-IsAccepted restored a r)

  -- However an Agent was configured by its constructor, its setters and the sessions it resumed, its
  -- tools are valid, with the active names where these were never restored, and a turn's snapshot offers
  -- the registered tools that are active: no name twice, and a name just where it is registered and
  -- active, so that restored names that no tool has are dropped.
  pub snapshot-offers :
      (restored : Bool) (a : Agent X L)
      → Reachable restored a
      → IsValidConfig a.tools (validated restored a.active_tool_names)
        × Distinct (tool_names (snapshot a).tools)
        × ((n : String)
            → contains n (tool_names (snapshot a).tools)
              ≡ (contains n (tool_names a.tools) && is_active a.active_tool_names a.tools n))
  unfolding snapshot
  snapshot-offers restored a r =
      let accepted = Reachable-IsAccepted restored a r in
      let offered =
        filter_active_tools-registered a.tools a.active_tool_names accepted.names_distinct in
      (accepted, offered.0, offered.1)
