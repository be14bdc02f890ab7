-- ===== src/Retry/Kept.antt =====
-- What the calls keep that summarizeWithLLM makes, it keeps.
use resolute_agent_core_go.Prelude.{
  ℕ, zero, suc, String, ◌&&◌, ◌||◌, not, List, [], ◌∷◌, Option, none, some, inl, inr, ℤ, pos, leb_ℤ,
  Outcome, ok, err, Bool-cases,
}
use resolute_agent_core_go.Message.{Usage}
use resolute_agent_core_go.Retry.{
  SummarizationRetryPolicy, RetryEvent, scheduled, attempt_start, Services, Summarized, normalized,
  backoff, is_transient, after, after_sleep, judge, attempts, first_call, summarize_with_llm,
}

-- Where a result is reached, P holds of the world that it leaves.
unfoldable pub KeptBy : {E W : Type 0} → (W → Type 0) → Option (Summarized E W) → Type 0
KeptBy P none = Unit
KeptBy P (some r) = P r.world

module _ {E W : Type 0} (services : Services E W) (P : W → Type 0)
    (once_keeps : (w : W) → P w → P (services.once w).1)
    (sleep_keeps : (delay : ℤ) (w : W) → P w → P (services.sleep delay w).1)
    (p : SummarizationRetryPolicy) where
  after-KeptBy :
      (events : List (RetryEvent E)) (o : Option (Summarized E W))
      → KeptBy P o
      → KeptBy P (after services events o)
  unfolding after KeptBy
  after-KeptBy events none h = tt
  after-KeptBy events (some r) h = h

  judge-KeptBy :
      (k : ℕ) (called : Outcome E (String × Option Usage)) (w : W)
      (next : E → Option (Summarized E W))
      → P w
      → ((e : E) → KeptBy P (next e))
      → KeptBy P (judge services p k called w next)
  unfolding judge KeptBy
  judge-KeptBy k (ok a) w next h later = h
  judge-KeptBy k (err e) w next h later =
      elim (Bool-cases (leb_ℤ p.max_retries (pos k) || not (is_transient services e))) [
        | inl over ↦ rw over h
        | inr goes_on ↦ rw goes_on (later e)
      ]

  after_sleep-KeptBy :
      (k : ℕ) (e : E) (slept : Option E) (w : W) (next : Option (Summarized E W))
      → P w
      → KeptBy P next
      → KeptBy P (after_sleep services p k e slept w next)
  unfolding after_sleep KeptBy
  after_sleep-KeptBy k e none w next h later = later
  after_sleep-KeptBy k e (some i) w next h later = h

  attempts-KeptBy : (fuel k : ℕ) (e : E) (w : W) → P w → KeptBy P (attempts services p fuel k e w)
  unfolding attempts KeptBy
  attempts-KeptBy zero k e w h = tt
  attempts-KeptBy (suc fuel) k e w h =
      let slept = services.sleep (backoff p k) w in
      let called = services.once slept.1 in
      let awake : P slept.1 = sleep_keeps (backoff p k) w h in
      let asked : P called.1 = once_keeps slept.1 awake in
      after_sleep-KeptBy k e slept.0 slept.1 _ awake (
        after-KeptBy (scheduled k p.max_retries (backoff p k) e ∷ attempt_start k ∷ []) _ (
          judge-KeptBy k called.0 called.1 _ asked
            (λ e'. attempts-KeptBy fuel (suc k) e' called.1 asked)))

  first_call-KeptBy :
      (fuel : ℕ) (called : Outcome E (String × Option Usage)) (w : W)
      → P w
      → KeptBy P (first_call services p fuel called w)
  unfolding first_call KeptBy
  first_call-KeptBy fuel (ok a) w h = h
  first_call-KeptBy fuel (err e) w h =
      elim (Bool-cases (
        (leb_ℤ p.max_retries (pos 0) && leb_ℤ (pos 0) p.max_retries)
        || not (is_transient services e))) [
          | inl over ↦ rw over h
          | inr retried ↦ rw retried (attempts-KeptBy fuel 1 e w h)
        ]

module _ {E W : Type 0} (services : Services E W) (P : W → Type 0) where
  pub summarize_with_llm-KeptBy :
      ((w : W) → P w → P (services.once w).1)
      → ((delay : ℤ) (w : W) → P w → P (services.sleep delay w).1)
      → (policy : SummarizationRetryPolicy) (fuel : ℕ) (w : W) → P w
      → KeptBy P (summarize_with_llm services policy fuel w)
  unfolding summarize_with_llm
  summarize_with_llm-KeptBy once_keeps sleep_keeps policy fuel w h =
      first_call-KeptBy services P once_keeps sleep_keeps (normalized policy) fuel
        (services.once w).0 (services.once w).1 (once_keeps w h)
