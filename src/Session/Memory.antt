-- ===== src/Session/Memory.antt =====
-- session/memory.go: MemorySession. The id that a session gets and the time are arguments; each
-- method runs under the mutex, so a call is one step.
use resolute_agent_core_go.Prelude.{
  ℕ, ◌+◌, String, List, [], ◌∷◌, ◌++◌, none, some, Dict, lookup, insert, delete, values, get_list,
}
use resolute_agent_core_go.Message.{Message}
use resolute_agent_core_go.Compaction.{BranchSummary}

pub record SessionMeta : Type 0 where
  pub id : String
  pub created_at : ℕ
  pub updated_at : ℕ

pub record MemorySession : Type 0 where
  pub sessions : Dict (List Message)
  pub summaries : Dict (List BranchSummary)
  pub meta : Dict SessionMeta
  pub counter : ℕ

unfoldable pub new_memory_session : MemorySession
new_memory_session = record { sessions = []; summaries = []; meta = []; counter = 0 }

unfoldable pub create : String → ℕ → MemorySession → String × MemorySession
create id now m = (
  id,
  record {
    sessions = insert id [] m.sessions;
    summaries = m.summaries;
    meta = insert id (record { id = id; created_at = now; updated_at = now }) m.meta;
    counter = m.counter + 1;
  },
)

unfoldable pub touch : String → ℕ → Dict SessionMeta → Dict SessionMeta
touch id now meta = elim (lookup id meta) [
  | none ↦ meta
  | some old ↦ insert id (record old { updated_at = now }) meta
]

unfoldable pub append : String → List Message → ℕ → MemorySession → MemorySession
unfolding touch
append id msgs now m = record m {
  sessions = insert id (get_list id m.sessions ++ msgs) m.sessions;
  meta = touch id now m.meta;
}

-- The copy of the stored slice; nil for an id that is not there.
unfoldable pub load : MemorySession → String → List Message
unfolding get_list
load m id = get_list id m.sessions

unfoldable pub list : MemorySession → List SessionMeta
unfolding values
list m = values m.meta

unfoldable pub append_branch_summary : String → BranchSummary → MemorySession → MemorySession
append_branch_summary id s m = record m {
  summaries = insert id (get_list id m.summaries ++ s ∷ []) m.summaries;
}

unfoldable pub load_branch_summaries : MemorySession → String → List BranchSummary
unfolding get_list
load_branch_summaries m id = get_list id m.summaries

unfoldable pub delete_session : String → MemorySession → MemorySession
delete_session id m = record m {
  sessions = delete id m.sessions;
  summaries = delete id m.summaries;
  meta = delete id m.meta;
}
