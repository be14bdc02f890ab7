-- ===== src/Session/Log.antt =====
-- A session backend as a log: what was appended to each session since it was last created or deleted.
use resolute_agent_core_go.Prelude.{
  ℕ, String, List, [], ◌∷◌, ◌++◌, ◌≡◌, refl, ap, ◌∙◌, arith, str_eq, eq_iff, if◌then◌else◌,
  get_list, get_list-insert, get_list-delete,
}
use resolute_agent_core_go.Message.{Message}
use resolute_agent_core_go.Compaction.{BranchSummary}
use resolute_agent_core_go.Session.Memory.{
  MemorySession, create, append, append_branch_summary, load, load_branch_summaries, delete_session,
  new_memory_session,
}

-- The calls that change a backend, with the fresh id of a create and the time of each call.
pub data Op : Type 0 where
  created : String → ℕ → Op
  appended : String → List Message → ℕ → Op
  summarized : String → BranchSummary → Op
  deleted : String → Op

unfoldable pub step : Op → MemorySession → MemorySession
unfolding create append append_branch_summary delete_session
step (created id now) m = (create id now m).1
step (appended id msgs now) m = append id msgs now m
step (summarized id s) m = append_branch_summary id s m
step (deleted id) m = delete_session id m

unfoldable pub run : List Op → MemorySession → MemorySession
unfolding step
run [] m = m
run (op ∷ ops) m = run ops (step op m)

-- What session j holds after the calls, if it held `held` before.
pub messages_of : String → List Op → List Message → List Message
messages_of j [] held = held
messages_of j (created id now ∷ ops) held = messages_of j ops (if str_eq id j then [] else held)
messages_of j (appended id msgs now ∷ ops) held =
    messages_of j ops (if str_eq id j then held ++ msgs else held)
messages_of j (summarized id s ∷ ops) held = messages_of j ops held
messages_of j (deleted id ∷ ops) held = messages_of j ops (if str_eq id j then [] else held)

pub summaries_of : String → List Op → List BranchSummary → List BranchSummary
summaries_of j [] held = held
summaries_of j (summarized id s ∷ ops) held =
    summaries_of j ops (if str_eq id j then held ++ s ∷ [] else held)
summaries_of j (deleted id ∷ ops) held = summaries_of j ops (if str_eq id j then [] else held)
summaries_of j (created id now ∷ ops) held = summaries_of j ops held
summaries_of j (appended id msgs now ∷ ops) held = summaries_of j ops held

load-append :
    (id j : String) (msgs : List Message) (now : ℕ) (m : MemorySession)
    → load (append id msgs now m) j ≡ (if str_eq id j then load m j ++ msgs else load m j)
unfolding load append
load-append id j msgs now m =
    ground (arith, eq_iff id j, get_list-insert id j (get_list id m.sessions ++ msgs) m.sessions)

load_branch_summaries-append :
    (id j : String) (s : BranchSummary) (m : MemorySession)
    → load_branch_summaries (append_branch_summary id s m) j
      ≡ (if str_eq id j then load_branch_summaries m j ++ s ∷ [] else load_branch_summaries m j)
unfolding load_branch_summaries append_branch_summary
load_branch_summaries-append id j s m =
    ground
      (arith, eq_iff id j, get_list-insert id j (get_list id m.summaries ++ s ∷ []) m.summaries)

load-create :
    (id j : String) (now : ℕ) (m : MemorySession)
    → load (create id now m).1 j ≡ (if str_eq id j then [] else load m j)
unfolding load create
load-create id j now m = get_list-insert id j [] m.sessions

load-delete_session :
    (id j : String) (m : MemorySession)
    → load (delete_session id m) j ≡ (if str_eq id j then [] else load m j)
unfolding load delete_session
load-delete_session id j m = get_list-delete id j m.sessions

load_branch_summaries-delete_session :
    (id j : String) (m : MemorySession)
    → load_branch_summaries (delete_session id m) j
      ≡ (if str_eq id j then [] else load_branch_summaries m j)
unfolding load_branch_summaries delete_session
load_branch_summaries-delete_session id j m = get_list-delete id j m.summaries

load-run :
    (j : String) (ops : List Op) (m : MemorySession)
    → load (run ops m) j ≡ messages_of j ops (load m j)
unfolding run messages_of
load-run j [] m = refl
load-run j (created id now ∷ ops) m =
    load-run j ops (create id now m).1 ∙ ap (messages_of j ops) (load-create id j now m)
load-run j (appended id msgs now ∷ ops) m =
    load-run j ops (append id msgs now m) ∙ ap (messages_of j ops) (load-append id j msgs now m)
load-run j (summarized id s ∷ ops) m =
    load-run j ops (append_branch_summary id s m)
    ∙ ap (messages_of j ops) (unfold load append_branch_summary in refl)
load-run j (deleted id ∷ ops) m =
    load-run j ops (delete_session id m) ∙ ap (messages_of j ops) (load-delete_session id j m)

load_branch_summaries-run :
    (j : String) (ops : List Op) (m : MemorySession)
    → load_branch_summaries (run ops m) j ≡ summaries_of j ops (load_branch_summaries m j)
unfolding run summaries_of
load_branch_summaries-run j [] m = refl
load_branch_summaries-run j (created id now ∷ ops) m =
    load_branch_summaries-run j ops (create id now m).1
    ∙ ap (summaries_of j ops) (unfold load_branch_summaries create in refl)
load_branch_summaries-run j (appended id msgs now ∷ ops) m =
    load_branch_summaries-run j ops (append id msgs now m)
    ∙ ap (summaries_of j ops) (unfold load_branch_summaries append in refl)
load_branch_summaries-run j (summarized id s ∷ ops) m =
    load_branch_summaries-run j ops (append_branch_summary id s m)
    ∙ ap (summaries_of j ops) (load_branch_summaries-append id j s m)
load_branch_summaries-run j (deleted id ∷ ops) m =
    load_branch_summaries-run j ops (delete_session id m)
    ∙ ap (summaries_of j ops) (load_branch_summaries-delete_session id j m)

-- From the empty backend, whatever the calls were: Load answers with the messages that the log holds
-- for the session, and LoadBranchSummaries with its summaries.
pub memory-refines-log :
    (ops : List Op) (j : String)
    → (load (run ops new_memory_session) j ≡ messages_of j ops [])
      × (load_branch_summaries (run ops new_memory_session) j ≡ summaries_of j ops [])
unfolding load load_branch_summaries new_memory_session
memory-refines-log ops j =
    (load-run j ops new_memory_session, load_branch_summaries-run j ops new_memory_session)
