-- ===== src/Retry/Backoff.antt =====
-- The delays between the attempts.
use native.Mathlib.Nat.{pow-suc}
use resolute_agent_core_go.Prelude.{
  ℕ, zero, suc, ◌+◌, ◌-◌, ◌*◌, ◌^◌, ◌≤◌, ◌<◌, min, ◌≡◌, ap, ◌∙◌, ℤ, pos, ltb_ℤ, ◌+ℤ◌, arith, tests,
  if◌then◌else◌, Bool-cases, inl, inr,
}
use resolute_agent_core_go.Retry.{SummarizationRetryPolicy, backoff, doublings, wrap_int64, signed}

-- Below 2^62 doubling does not leave the range of an int64.
double_fits : (d : ℕ) → d < 2 ^ 62 → wrap_int64 (pos d +ℤ pos d) ≡ pos (d + d)
unfolding wrap_int64 signed ◌+ℤ◌
double_fits d h = ground arith

le-mul_pow : (d k : ℕ) → d ≤ d * 2 ^ k
le-mul_pow d zero = omega arith
le-mul_pow d (suc k) = omega (arith, le-mul_pow d k, ap (λ (t : ℕ). d * t) (pow-suc 2 k))

capped : ℤ → ℤ → ℤ
capped limit d = if ltb_ℤ limit d then limit else d

at_cap : (m d t : ℕ) → m ≤ d → d ≤ t → capped (pos m) (pos d) ≡ pos (min t m)
unfolding capped
at_cap m d t h k = ground arith

-- Until the cap is reached each attempt doubles the delay.
capped-doublings :
    (left m d : ℕ)
    → m ≤ 2 ^ 62
    → capped (pos m) (doublings left (pos m) (pos d)) ≡ pos (min (d * 2 ^ left) m)
unfolding capped doublings
capped-doublings zero m d h = ground arith
capped-doublings (suc left) m d h =
    let twice : (d + d) * 2 ^ left ≡ d * 2 ^ suc left =
      omega (arith, ap (λ (t : ℕ). d * t) (pow-suc 2 left)) in
    elim (Bool-cases (ltb_ℤ (pos d) (pos m))) [
      | inl below ↦
          rw (below, double_fits d (omega tests))
            (capped-doublings left m (d + d) h ∙ ap (λ t. pos (min t m)) twice)
      | inr reached ↦
          rw reached (at_cap m d (d * 2 ^ suc left) (ground arith) (le-mul_pow d (suc left)))
    ]

-- The wait before attempt k + 1 is BaseDelay * 2^k capped at MaxDelay, for positive delays and a cap
-- of at most 2^62 ns, below which the doubling never overflows.
pub backoff-min :
    (p : SummarizationRetryPolicy) (b m k : ℕ)
    → p.base_delay ≡ pos b
    → p.max_delay ≡ pos m
    → m ≤ 2 ^ 62
    → backoff p (suc k) ≡ pos (min (b * 2 ^ k) m)
unfolding backoff capped
backoff-min p b m k eb em h =
    let rounds : suc k - 1 ≡ k = omega arith in rw (rounds, eb, em) (capped-doublings k m b h)
