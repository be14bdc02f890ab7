-- ===== src/Retry/Protocol.antt =====
-- The course of a summarization with retries: its events, its end and its result.
use resolute_agent_core_go.Prelude.{
  ℕ, zero, suc, ◌+◌, ◌≤◌, String, false, ◌||◌, ◌&&◌, not, List, [], ◌∷◌, Option, none, some, ◌≡◌,
  refl, ap, ◌⊎◌, inl, inr, pos, leb_ℤ, Outcome, ok, err, Bool-cases, arith,
}
use resolute_agent_core_go.Message.{Usage}
use resolute_agent_core_go.Retry.{
  SummarizationRetryPolicy, RetryEvent, scheduled, attempt_start, finished, call_failed,
  wait_failed, Services, Answer, Summarized, normalized, backoff, is_transient, after, after_sleep,
  judge, attempts, first_call, summarize_with_llm,
}

-- The events from the wait before attempt k on, with the answer in which they end: each attempt is
-- announced with its delay, then started; exactly one event, the last, says that it is over, with
-- no error just where the answer is a summary.
pub data Protocol {E : Type 0} (p : SummarizationRetryPolicy)
    : ℕ → List (RetryEvent E) → Answer E → Type 0 where
  interrupted :
      (k : ℕ) (e i : E)
      → Protocol p k
          (scheduled k p.max_retries (backoff p k) e ∷ finished k (some e) ∷ [])
          (err (wait_failed i))
  succeeded :
      (k : ℕ) (e : E) (a : String × Option Usage)
      → Protocol p k
          (scheduled k p.max_retries (backoff p k) e ∷ attempt_start k ∷ finished k none ∷ [])
          (ok a)
  gave_up :
      (k : ℕ) (e e' : E)
      → Protocol p k
          (scheduled k p.max_retries (backoff p k) e ∷ attempt_start k ∷ finished k (some e') ∷ [])
          (err (call_failed e'))
  again :
      {k : ℕ} (e : E) {es : List (RetryEvent E)} {a : Answer E}
      → Protocol p (suc k) es a
      → Protocol p k (scheduled k p.max_retries (backoff p k) e ∷ attempt_start k ∷ es) a

-- The retries that were made.
pub starts : {E : Type 0} → List (RetryEvent E) → ℕ
starts [] = 0
starts (attempt_start k ∷ es) = suc (starts es)
starts (scheduled k m d e ∷ es) = starts es
starts (finished k e ∷ es) = starts es

module _ {E W : Type 0} (services : Services E W) (p : SummarizationRetryPolicy) (n : ℕ)
    (bound : p.max_retries ≡ pos n) where
  abbrev Ends : ℕ → Option (Summarized E W) → Type 0
  Ends k o =
      (r : Summarized E W) × (o ≡ some r)
      × Protocol p k r.events r.answer
      × (starts r.events + k ≤ suc n)

  abbrev plan : ℕ → E → RetryEvent E
  plan k e = scheduled k p.max_retries (backoff p k) e

  after_sleep-Ends :
      (k : ℕ) (e : E) (slept : Option E) (w : W) (next : Option (Summarized E W))
      → k ≤ n
      → Ends k next
      → Ends k (after_sleep services p k e slept w next)
  unfolding after_sleep starts
  after_sleep-Ends k e none w next h ends = ends
  after_sleep-Ends k e (some i) w next h ends = (_, refl, interrupted k e i, omega arith)

  after-Ends :
      (k : ℕ) (e : E) (o : Option (Summarized E W))
      → Ends (suc k) o
      → Ends k (after services (plan k e ∷ attempt_start k ∷ []) o)
  unfolding after starts
  after-Ends k e o (r, eq, course, few) = rw (eq, after) (_, refl, again e course, omega arith)

  room :
      (k : ℕ) (e : E)
      → (leb_ℤ p.max_retries (pos k) || not (is_transient services e)) ≡ false
      → suc k ≤ n
  room k e h = ground arith

  judge-Ends :
      (k : ℕ) (e : E) (called : Outcome E (String × Option Usage)) (w : W)
      (next : E → Option (Summarized E W))
      → k ≤ n
      → ((e' : E) → suc k ≤ n → Ends (suc k) (next e'))
      → Ends k (after services (plan k e ∷ attempt_start k ∷ []) (judge services p k called w next))
  unfolding after judge starts
  judge-Ends k e (ok a) w next h later = (_, refl, succeeded k e a, omega arith)
  judge-Ends k e (err e') w next h later =
      elim (Bool-cases (leb_ℤ p.max_retries (pos k) || not (is_transient services e'))) [
        | inl over ↦ rw (over, after) (_, refl, gave_up k e e', omega arith)
        | inr goes_on ↦ rw (goes_on) (after-Ends k e (next e') (later e' (room k e' goes_on)))
      ]

  attempts-Ends :
      (fuel k : ℕ) (e : E) (w : W)
      → suc n ≤ fuel + k
      → k ≤ n
      → Ends k (attempts services p fuel k e w)
  unfolding attempts
  attempts-Ends zero k e w room h = absurd (omega arith)
  attempts-Ends (suc fuel) k e w room h =
      let slept = services.sleep (backoff p k) w in
      let called = services.once slept.1 in
      after_sleep-Ends k e slept.0 slept.1 _ h (
        judge-Ends k e called.0 called.1 _ h
          (λ e' h'. attempts-Ends fuel (suc k) e' called.1 (omega arith) h'))

-- The answer of a call that is not retried.
pub first_answer : {E : Type 0} → Outcome E (String × Option Usage) → Answer E
first_answer (ok a) = ok a
first_answer (err e) = err (call_failed e)

abbrev pub Course :
    {E W : Type 0} → Services E W → SummarizationRetryPolicy → ℕ → W → Summarized E W → Type 0
Course services p n w r =
    (((r.events ≡ []) × (r.answer ≡ first_answer (services.once w).0))
      ⊎ Protocol p 1 r.events r.answer)
    × (starts r.events ≤ n)

module _ {E W : Type 0} (services : Services E W) (p : SummarizationRetryPolicy) (n fuel : ℕ)
    (w : W) where
  first_call-Course :
      p.max_retries ≡ pos n
      → n ≤ fuel
      → (o : Outcome E (String × Option Usage)) → o ≡ (services.once w).0
      → (r : Summarized E W) × (first_call services p fuel o (services.once w).1 ≡ some r)
        × Course services p n w r
  unfolding first_call starts first_answer
  first_call-Course b h (ok a) e = (_, refl, (inl (refl, ap first_answer e), omega arith))
  first_call-Course b h (err x) e =
      elim (Bool-cases (
        (leb_ℤ p.max_retries (pos 0) && leb_ℤ (pos 0) p.max_retries)
        || not (is_transient services x))) [
          | inl over ↦ rw over (_, refl, (inl (refl, ap first_answer e), omega arith))
          | inr retried ↦ rw retried (retry retried)
        ]
    where
      retry :
          ((leb_ℤ p.max_retries (pos 0) && leb_ℤ (pos 0) p.max_retries)
              || not (is_transient services x))
            ≡ false
          → (r : Summarized E W) × (attempts services p fuel 1 x (services.once w).1 ≡ some r)
            × Course services p n w r
      retry retried =
          let (r, eq, course, few) =
            attempts-Ends services p n b fuel 1 x (services.once w).1 (omega arith)
              (ground arith) in
          (r, eq, (inr course, omega arith))

-- With fuel for the retries that the policy allows, a summarization ends. Either the first call
-- decides and no event is fired, or the events follow the protocol from attempt 1 on; at most
-- MaxRetries retries are made.
pub summarize_with_llm-Course :
    {E W : Type 0} (services : Services E W) (policy : SummarizationRetryPolicy) (n fuel : ℕ)
    (w : W)
    → policy.max_retries ≡ pos n
    → n ≤ fuel
    → (r : Summarized E W) × (summarize_with_llm services policy fuel w ≡ some r)
      × Course services (normalized policy) n w r
unfolding summarize_with_llm normalized
summarize_with_llm-Course services policy n fuel w b h =
    first_call-Course services (normalized policy) n fuel w b h (services.once w).0 refl
