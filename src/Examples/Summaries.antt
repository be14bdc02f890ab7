-- ===== src/Examples/Summaries.antt =====
-- Summarization calls that are retried.
use resolute_agent_core_go.Prelude.{
  ℕ, zero, suc, ◌*◌, ◌^◌, String, false, Option, none, some, Outcome, ok, err, ◌≡◌, refl, arith,
  pos, min,
}
use resolute_agent_core_go.Message.{Usage}
use resolute_agent_core_go.Retry.{
  SummarizationRetryPolicy, Services, Summarized, normalized, backoff, summarize_with_llm,
}
use resolute_agent_core_go.Retry.Backoff.{backoff-min}
use resolute_agent_core_go.Retry.Protocol.{Course, summarize_with_llm-Course}

abbrev twice : SummarizationRetryPolicy
twice = record { max_retries = pos 2; base_delay = pos 1000; max_delay = pos 5000 }

-- A provider that fails as many times as the world says, and a timer that is never cut short.
abbrev call : ℕ → Outcome String (String × Option Usage) × ℕ
call zero = (ok ("summary", none), 0)
call (suc failures) = (err "overloaded", failures)

abbrev flaky : Services String ℕ
flaky = record { is_a = λ s e. false; once = call; sleep = λ d w. (none, w) }

summarize_with_llm-Course_example :
    (r : Summarized String ℕ) × (summarize_with_llm flaky twice 2 1 ≡ some r)
    × Course flaky (normalized twice) 2 1 r
summarize_with_llm-Course_example = summarize_with_llm-Course flaky twice 2 2 1 refl (omega arith)

backoff-min_example : backoff twice 3 ≡ pos (min (1000 * 2 ^ 2) 5000)
backoff-min_example = backoff-min twice 1000 5000 2 refl refl (omega arith)
