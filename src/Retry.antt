-- ===== src/Retry.antt =====
-- summarize_retry.go, and summarizeWithLLM of compact.go. A time.Duration is an int64 of nanoseconds.
-- The provider call, the timer and the classification of errors by errors.Is are parameters.
pub mod Backoff
pub mod Protocol
pub mod Kept
use resolute_agent_core_go.Prelude.{
  ℕ, zero, suc, ◌+◌, ◌-◌, ◌*◌, ◌%◌, ◌^◌, String, Bool, true, false, ◌||◌, ◌&&◌, not, List, [], ◌∷◌,
  ◌++◌, Option, none, some, ℤ, pos, negsuc, ltb_ℤ, leb_ℤ, ◌+ℤ◌, Outcome, ok, err, ltb, ◌==◌,
  if◌then◌else◌,
}
use resolute_agent_core_go.Message.{Usage}

pub record SummarizationRetryPolicy : Type 0 where
  pub max_retries : ℤ
  pub base_delay : ℤ
  pub max_delay : ℤ

abbrev pub default_base_delay : ℤ
default_base_delay = pos 1000000000

abbrev pub default_max_delay : ℤ
default_max_delay = pos 60000000000

unfoldable pub normalized : SummarizationRetryPolicy → SummarizationRetryPolicy
normalized p = record p {
  base_delay = if leb_ℤ p.base_delay (pos 0) then default_base_delay else p.base_delay;
  max_delay = if leb_ℤ p.max_delay (pos 0) then default_max_delay else p.max_delay;
}

-- A 64-bit pattern read as an int64.
signed : ℕ → ℤ
signed r = if ltb r (2 ^ 63) then pos r else negsuc (2 ^ 64 - r - 1)

wrap_int64 : ℤ → ℤ
unfolding signed
wrap_int64 (pos n) = signed (n % 2 ^ 64)
wrap_int64 (negsuc n) = signed (2 ^ 64 - 1 - n % 2 ^ 64)

-- for i := 1; i < attempt && d < p.MaxDelay; i++ { d *= 2 }, with the rounds left for i
doublings : ℕ → ℤ → ℤ → ℤ
unfolding wrap_int64 ◌+ℤ◌
doublings zero limit d = d
doublings (suc left) limit d =
    let more = doublings left limit (wrap_int64 (d +ℤ d)) in if ltb_ℤ d limit then more else d

unfoldable pub backoff : SummarizationRetryPolicy → ℕ → ℤ
unfolding doublings
backoff p attempt =
    let d = doublings (attempt - 1) p.max_delay p.base_delay in
    if ltb_ℤ p.max_delay d then p.max_delay else d

-- The errors that are not retried.
pub data Sentinel : Type 0 where
  provider_fatal context_overflow summary_truncated canceled : Sentinel

-- SummarizationRetryCtx by its phase; a finished event has the error, or none after a success.
pub data RetryEvent (E : Type 0) : Type 0 where
  scheduled : ℕ → ℤ → ℤ → E → RetryEvent E
  attempt_start : ℕ → RetryEvent E
  finished : ℕ → Option E → RetryEvent E

-- The last error of the call, or the context's error during a wait.
pub data Failure (E : Type 0) : Type 0 where
  call_failed : E → Failure E
  wait_failed : E → Failure E

pub record Services (E W : Type 0) : Type 0 where
  -- errors.Is
  pub is_a : Sentinel → E → Bool
  -- summarizeOnce: the summary and its usage
  pub once : W → Outcome E (String × Option Usage) × W
  -- sleepCtx: the context's error, if it is done first
  pub sleep : ℤ → W → Option E × W

abbrev pub Answer : Type 0 → Type 0
Answer E = Outcome (Failure E) (String × Option Usage)

-- The result, the events of the OnSummarizationRetry hook, and the world that is left.
pub record Summarized (E W : Type 0) : Type 0 where
  pub answer : Answer E
  pub events : List (RetryEvent E)
  pub world : W

module _ {E W : Type 0} (services : Services E W) where
  unfoldable pub is_transient : E → Bool
  is_transient e = not (
      services.is_a provider_fatal e
      || services.is_a context_overflow e
      || services.is_a summary_truncated e
      || services.is_a canceled e)

  -- The events of earlier attempts go before those of the later ones.
  after : List (RetryEvent E) → Option (Summarized E W) → Option (Summarized E W)
  after events none = none
  after events (some r) = some (record r { events = events ++ r.events })

  -- What follows an attempt: the end, or the next attempt, `next`.
  judge :
      SummarizationRetryPolicy
      → ℕ
      → Outcome E (String × Option Usage)
      → W
      → (E → Option (Summarized E W))
      → Option (Summarized E W)
  unfolding is_transient after
  judge p attempt (ok a) w next =
      some (record { answer = ok a; events = finished attempt none ∷ []; world = w })
  judge p attempt (err e) w next =
      let again = next e in
      if leb_ℤ p.max_retries (pos attempt) || not (is_transient e)
      then some (record {
        answer = err (call_failed e);
        events = finished attempt (some e) ∷ [];
        world = w;
      })
      else again

  -- The wait before an attempt: it is cut short, or what comes next happens.
  after_sleep :
      SummarizationRetryPolicy
      → ℕ
      → E
      → Option E
      → W
      → Option (Summarized E W)
      → Option (Summarized E W)
  unfolding backoff
  after_sleep p attempt e none w next = next
  after_sleep p attempt e (some interrupted) w next = some (record {
    answer = err (wait_failed interrupted);
    events = scheduled attempt p.max_retries (backoff p attempt) e ∷ finished attempt (some e) ∷ [];
    world = w;
  })

  -- The loop over attempts, on fuel; `none` is fuel that ran out.
  attempts : SummarizationRetryPolicy → ℕ → ℕ → E → W → Option (Summarized E W)
  unfolding judge backoff after_sleep
  attempts p zero attempt e w = none
  attempts p (suc fuel) attempt e w =
      let slept = services.sleep (backoff p attempt) w in
      let called = services.once slept.1 in
      after_sleep p attempt e slept.0 slept.1 (
        after (scheduled attempt p.max_retries (backoff p attempt) e ∷ attempt_start attempt ∷ [])
          (judge p attempt called.0 called.1 (λ e'. attempts p fuel (suc attempt) e' called.1)))

  first_call :
      SummarizationRetryPolicy → ℕ → Outcome E (String × Option Usage) → W → Option (Summarized E W)
  unfolding attempts is_transient
  first_call p fuel (ok a) w = some (record { answer = ok a; events = []; world = w })
  first_call p fuel (err e) w =
      let retried = attempts p fuel 1 e w in
      if (leb_ℤ p.max_retries (pos 0) && leb_ℤ (pos 0) p.max_retries) || not (is_transient e)
      then some (record { answer = err (call_failed e); events = []; world = w })
      else retried

  unfoldable pub summarize_with_llm : SummarizationRetryPolicy → ℕ → W → Option (Summarized E W)
  unfolding first_call normalized
  summarize_with_llm policy fuel w =
      let called = services.once w in first_call (normalized policy) fuel called.0 called.1
