-- ===== src/Session/Internal.antt =====
-- agent.go: internalMemorySession, the default backend, and its agreement with MemorySession.
use resolute_agent_core_go.Prelude.{
  ℕ, String, List, [], ◌∷◌, ◌++◌, none, some, ◌≡◌, refl, ap, ◌∙◌, Dict, lookup, insert, delete,
  values, get_list,
}
use resolute_agent_core_go.Message.{Message}
use resolute_agent_core_go.Compaction.{BranchSummary}
use resolute_agent_core_go.Session.Memory
use resolute_agent_core_go.Session.Memory.{MemorySession, SessionMeta}
use resolute_agent_core_go.Session.Log
use resolute_agent_core_go.Session.Log.{Op, created, appended, summarized, deleted}

pub record InternalSession : Type 0 where
  pub sessions : Dict (List Message)
  pub summaries : Dict (List BranchSummary)
  pub meta : Dict SessionMeta

unfoldable pub new_internal_session : InternalSession
new_internal_session = record { sessions = []; summaries = []; meta = [] }

unfoldable pub create : String → ℕ → InternalSession → String × InternalSession
create id now m = (
  id,
  record {
    sessions = insert id [] m.sessions;
    summaries = m.summaries;
    meta = insert id (record { id = id; created_at = now; updated_at = now }) m.meta;
  },
)

touch : String → ℕ → Dict SessionMeta → Dict SessionMeta
touch id now meta = elim (lookup id meta) [
  | none ↦ meta
  | some old ↦ insert id (record old { updated_at = now }) meta
]

unfoldable pub append : String → List Message → ℕ → InternalSession → InternalSession
unfolding touch
append id msgs now m = record m {
  sessions = insert id (get_list id m.sessions ++ msgs) m.sessions;
  meta = touch id now m.meta;
}

unfoldable pub load : InternalSession → String → List Message
unfolding get_list
load m id = get_list id m.sessions

unfoldable pub list : InternalSession → List SessionMeta
unfolding values
list m = values m.meta

unfoldable pub append_branch_summary : String → BranchSummary → InternalSession → InternalSession
append_branch_summary id s m = record m {
  summaries = insert id (get_list id m.summaries ++ s ∷ []) m.summaries;
}

unfoldable pub load_branch_summaries : InternalSession → String → List BranchSummary
unfolding get_list
load_branch_summaries m id = get_list id m.summaries

unfoldable pub delete_session : String → InternalSession → InternalSession
delete_session id m = record m {
  sessions = delete id m.sessions;
  summaries = delete id m.summaries;
  meta = delete id m.meta;
}

unfoldable pub step : Op → InternalSession → InternalSession
unfolding create append append_branch_summary delete_session
step (created id now) m = (create id now m).1
step (appended id msgs now) m = append id msgs now m
step (summarized id s) m = append_branch_summary id s m
step (deleted id) m = delete_session id m

unfoldable pub run : List Op → InternalSession → InternalSession
unfolding step
run [] m = m
run (op ∷ ops) m = run ops (step op m)

-- The part of a MemorySession that the other backend has too.
forget : MemorySession → InternalSession
forget m = record { sessions = m.sessions; summaries = m.summaries; meta = m.meta }

step-forget : (op : Op) (m : MemorySession) → step op (forget m) ≡ forget (Log.step op m)
unfolding step Log.step forget Memory.touch
step-forget (created id now) m = refl
step-forget (appended id msgs now) m = refl
step-forget (summarized id s) m = refl
step-forget (deleted id) m = refl

run-forget : (ops : List Op) (m : MemorySession) → run ops (forget m) ≡ forget (Log.run ops m)
unfolding run Log.run
run-forget [] m = refl
run-forget (op ∷ ops) m = ap (run ops) (step-forget op m) ∙ run-forget ops (Log.step op m)

-- The default backend and MemorySession answer alike after the same calls: messages, summaries and
-- session metadata.
pub internal-agrees-memory :
    (ops : List Op) (j : String)
    → (load (run ops new_internal_session) j
        ≡ Memory.load (Log.run ops Memory.new_memory_session) j)
      × (load_branch_summaries (run ops new_internal_session) j
          ≡ Memory.load_branch_summaries (Log.run ops Memory.new_memory_session) j)
      × (list (run ops new_internal_session) ≡ Memory.list (Log.run ops Memory.new_memory_session))
unfolding load load_branch_summaries list Memory.load Memory.load_branch_summaries Memory.list
    forget new_internal_session Memory.new_memory_session
internal-agrees-memory ops j =
    let same = run-forget ops Memory.new_memory_session in
    (ap (λ m. load m j) same, ap (λ m. load_branch_summaries m j) same, ap list same)
