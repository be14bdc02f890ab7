-- ===== src/Config/Restore.antt =====
-- What a session that is resumed restores of the changes to the active tools.
use resolute_agent_core_go.Prelude.{
  String, true, false, Outcome, ok, err, List, [], ◌∷◌, ◌++◌, Option, none, some, ◌≡◌, refl, ap,
  ◌∙◌, subst, sym, Bool-cases, arith, Option-cases, inl, inr, All, append_assoc,
}
use resolute_agent_core_go.Message.{Message, active_tool_names, new_active_tools_change}
use resolute_agent_core_go.ActiveTools.Sets.{same_string_set-contains}
use resolute_agent_core_go.ActiveTools.{
  RegisteredTool, tool_names, same_string_set, ConfigError, validate_tool_config,
}
use resolute_agent_core_go.ActiveTools.Selection.{
  is_active, nothing_recorded, active_tool_names_from_transcript-last,
}
use resolute_agent_core_go.Config.Repo.{SessionRepo}
use resolute_agent_core_go.Config.{
  Agent, ActiveToolsSet, append_each, flush_pending_active_tools, restore_active_tools_from_session,
  record_active_tools_on_create, is_bound, is_running, store_active_tools, written,
  set_active_tools,
}

module _ {S : Type 0} (repo : SessionRepo S) where
  -- The last entry of the queue is the last entry of the transcript.
  appended :
      (id : String) (queue : List (Option (List String))) (names : Option (List String))
      (old : List Message) (s s' : S)
      → repo.load id s ≡ some old
      → append_each repo id (queue ++ names ∷ []) s ≡ some s'
      → (before : List Message) × (repo.load id s'
          ≡ some (before ++ new_active_tools_change names ∷ []))
  unfolding append_each
  appended id [] names old s s' loaded done =
      elim (Option-cases (repo.append id (new_active_tools_change names ∷ []) s)) [
        | inl failed ↦ absurd (ground arith)
        | inr (t, one) ↦
            let last : repo.append id (new_active_tools_change names ∷ []) s ≡ some s' =
              ground arith in
            (old, repo.load-append id _ old s s' loaded last)
      ]
  appended id (n ∷ queue) names old s s' loaded done =
      elim (Option-cases (repo.append id (new_active_tools_change n ∷ []) s)) [
        | inl failed ↦ absurd (ground arith)
        | inr (t, one) ↦
            let more : append_each repo id (queue ++ names ∷ []) t ≡ some s' = ground arith in
            appended id queue names (old ++ new_active_tools_change n ∷ []) t s'
              (repo.load-append id _ old s t loaded one) more
      ]

module _ {X L S : Type 0} (repo : SessionRepo S) where
  -- The changes that were queued while a prompt ran are written at the end of its turn so that the
  -- last of them is what the session restores, whatever follows that records no names.
  pub flush_pending_active_tools-restores :
      (id : String) (a b : Agent X L) (queue : List (Option (List String)))
      (names : Option (List String)) (old after : List Message) (s s' t : S)
      → a.pending_active_tools ≡ queue ++ names ∷ []
      → repo.load id s ≡ some old
      → (flush_pending_active_tools repo id a s).1 ≡ some s'
      → All (λ m. active_tool_names m ≡ none) after
      → repo.append id after s' ≡ some t
      → restore_active_tools_from_session repo id b t
        ≡ some (record b { active_tool_names = names })
  unfolding flush_pending_active_tools restore_active_tools_from_session
  flush_pending_active_tools-restores id a b queue names old after s s' t queued loaded flushed
        quiet more =
      let done : append_each repo id (queue ++ names ∷ []) s ≡ some s' =
        subst (λ q. append_each repo id q s ≡ some s') queued flushed in
      let (before, last) = appended repo id queue names old s s' loaded done in
      let entry = new_active_tools_change names in
      let whole : repo.load id t ≡ some (before ++ entry ∷ after) =
        repo.load-append id after _ s' t last more
        ∙ ap some (append_assoc before (entry ∷ []) after) in
      rw
        (
          whole,
          restore_active_tools_from_session,
          active_tool_names_from_transcript-last before after names quiet,
        )
        refl

  written-restores :
      (names : Option (List String)) (a b : Agent X L) (old : List Message) (s : S)
      → is_bound a ≡ true
      → is_running a ≡ false
      → repo.load a.last_session_id s ≡ some old
      → (store_active_tools repo names a s).persisted ≡ true
      → restore_active_tools_from_session repo a.last_session_id b
          (store_active_tools repo names a s).session
        ≡ some (record b { active_tool_names = names })
  unfolding store_active_tools written restore_active_tools_from_session
  written-restores names a b old s bound idle loaded persisted =
      elim (Option-cases (repo.append a.last_session_id (new_active_tools_change names ∷ []) s)) [
        | inl failed ↦ absurd (ground arith)
        | inr (t, one) ↦
            let whole = repo.load-append a.last_session_id _ old s t loaded one in
            rw
              (
                bound,
                idle,
                one,
                whole,
                restore_active_tools_from_session,
                active_tool_names_from_transcript-last old [] names tt,
              )
              refl
      ]

  Persists :
      Agent X L
      → Agent X L
      → Option (List String)
      → Outcome ConfigError (ActiveToolsSet X L S)
      → Type 0
  Persists a b names (err e) = Unit
  Persists a b names (ok r) =
      r.persisted ≡ true
      → restore_active_tools_from_session repo a.last_session_id b r.session
        ≡ some (record b { active_tool_names = names })

  set_active_tools-Persists :
      (names : Option (List String)) (a b : Agent X L) (old : List Message) (s : S)
      → is_bound a ≡ true
      → is_running a ≡ false
      → repo.load a.last_session_id s ≡ some old
      → Persists a b names (set_active_tools repo names a s)
  unfolding set_active_tools Persists
  set_active_tools-Persists names a b old s bound idle loaded =
      elim (Option-cases (validate_tool_config a.tools names)) [
        | inl accepted ↦
            rw (accepted, Persists) (written-restores names a b old s bound idle loaded)
        | inr (e, refused) ↦ rw (refused, Persists) tt
      ]

  -- On an Agent that is idle and bound to a session, a change of the active tools that was accepted and
  -- written is what a resume of that session restores.
  pub set_active_tools-restores :
      (names : Option (List String)) (a b : Agent X L) (old : List Message) (s : S)
      (r : ActiveToolsSet X L S)
      → is_bound a ≡ true
      → is_running a ≡ false
      → repo.load a.last_session_id s ≡ some old
      → set_active_tools repo names a s ≡ ok r
      → r.persisted ≡ true
      → restore_active_tools_from_session repo a.last_session_id b r.session
        ≡ some (record b { active_tool_names = names })
  unfolding Persists
  set_active_tools-restores names a b old s r bound idle loaded set persisted =
      subst (Persists a b names) set (set_active_tools-Persists names a b old s bound idle loaded)
        persisted

  -- A resume of the session restores `names`, and just the tools that count as active in `active` do
  -- so in `names`.
  abbrev pub RestoresActive :
      String → List (RegisteredTool X) → Option (List String) → Agent X L → S → Type 0
  RestoresActive id tools active b s =
      (names : Option (List String)) × (restore_active_tools_from_session repo id b s
        ≡ some (record b { active_tool_names = names }))
      × ((n : String) → is_active names tools n ≡ is_active active tools n)

  restores-nothing :
      (id : String) (b : Agent X L) (old : List Message) (s : S)
      → repo.load id s ≡ some old
      → All (λ m. active_tool_names m ≡ none) old
      → restore_active_tools_from_session repo id b s ≡ some (record b { active_tool_names = none })
  unfolding restore_active_tools_from_session
  restores-nothing id b old s loaded quiet =
      rw (loaded, restore_active_tools_from_session, nothing_recorded old quiet) refl

  restores-entry :
      (id : String) (b : Agent X L) (old : List Message) (names : Option (List String)) (s : S)
      → repo.load id s ≡ some (old ++ new_active_tools_change names ∷ [])
      → restore_active_tools_from_session repo id b s
        ≡ some (record b { active_tool_names = names })
  unfolding restore_active_tools_from_session
  restores-entry id b old names s loaded =
      rw
        (
          loaded,
          restore_active_tools_from_session,
          active_tool_names_from_transcript-last old [] names tt,
        )
        refl

  recorded :
      (id : String) (a b : Agent X L) (active : Option (List String)) (old : List Message)
      (s s' : S)
      → a.active_tool_names ≡ active
      → repo.load id s ≡ some old
      → All (λ m. active_tool_names m ≡ none) old
      → record_active_tools_on_create repo id a s ≡ some s'
      → RestoresActive id a.tools active b s'
  unfolding record_active_tools_on_create
  recorded id a b none old s s' is loaded quiet e =
      let unchanged : s ≡ s' = ground arith in
      subst (RestoresActive id a.tools none b) unchanged
        (none, restores-nothing id b old s loaded quiet, λ n. refl)
  recorded id a b (some names) old s s' is loaded quiet e =
      elim (Bool-cases (same_string_set names (tool_names a.tools))) [
        | inl same ↦
            let unchanged : s ≡ s' = ground arith in
            subst (RestoresActive id a.tools (some names) b) unchanged (
              none,
              restores-nothing id b old s loaded quiet,
              λ n. sym ((same_string_set-contains names (tool_names a.tools)).0 same n),
            )
        | inr other ↦
            let written_now : repo.append id (new_active_tools_change (some names) ∷ []) s
                ≡ some s' =
              ground arith in
            let whole = repo.load-append id _ old s s' loaded written_now in
            (some names, restores-entry id b old (some names) s' whole, λ n. refl)
      ]

  -- What is recorded on the creation of a session, whose transcript recorded no names before, makes a
  -- resume of the session restore names by which just those tools are active that were: none recorded
  -- where the active names are all the registered ones.
  pub record_active_tools_on_create-restores :
      (id : String) (a b : Agent X L) (old : List Message) (s s' : S)
      → repo.load id s ≡ some old
      → All (λ m. active_tool_names m ≡ none) old
      → record_active_tools_on_create repo id a s ≡ some s'
      → RestoresActive id a.tools a.active_tool_names b s'
  record_active_tools_on_create-restores id a b old s s' loaded quiet e =
      recorded id a b a.active_tool_names old s s' refl loaded quiet e
