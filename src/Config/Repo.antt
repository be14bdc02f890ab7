-- ===== src/Config/Repo.antt =====
-- session.go: the part of the SessionRepo interface that the Agent uses for a transcript, with what a
-- backend S promises about it.
use resolute_agent_core_go.Prelude.{String, List, ◌++◌, Option, some, ◌≡◌}
use resolute_agent_core_go.Message.{Message}

-- `none` is an error.
pub record SessionRepo (S : Type 0) : Type 0 where
  pub append : String → List Message → S → Option S
  pub load : String → S → Option (List Message)
  pub load-append :
      (id : String) (ms old : List Message) (s s' : S)
      → load id s ≡ some old
      → append id ms s ≡ some s'
      → load id s' ≡ some (old ++ ms)
