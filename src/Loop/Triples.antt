-- ===== src/Loop/Triples.antt =====
-- What a step of the loop guarantees where it returns.
use resolute_agent_core_go.Prelude.{Outcome, ok, err, ◌≡◌, subst}
use resolute_agent_core_go.Loop.Machine.{Machine, M, pure, throw, ◌>>=◌, continue}
use resolute_agent_core_go.Loop.Keeps.{Keeps}

module _ {L E W : Type 0} where
  -- The value and the machine of a step that returned.
  unfoldable pub After :
      {A : Type 0} → (A → Machine L E W → Type 0) → Outcome E A × Machine L E W → Type 0
  After Q (ok a, m) = Q a m
  After Q (err e, m) = Unit

  -- From where P holds, the step fails or Q holds of what it returns.
  pub record Triple {A : Type 0} (P : Machine L E W → Type 0) (step : M L E W A)
      (Q : A → Machine L E W → Type 0) : Type 0 where
    pub holds : (m : Machine L E W) → P m → After Q (step m)

  pub triple_bind :
      {A B : Type 0} {P : Machine L E W → Type 0} {Q : A → Machine L E W → Type 0}
      {R : B → Machine L E W → Type 0} (step : M L E W A) (f : A → M L E W B)
      → Triple P step Q
      → ((a : A) → Triple (Q a) (f a) R)
      → Triple P (step >>= f) R
  unfolding ◌>>=◌ After
  triple_bind {A} {B} {P} {Q} {R} step f first then_each = record {
    holds = λ m h. bound (step m) (first.holds m h);
  }
    where
      bound : (r : Outcome E A × Machine L E W) → After Q r → After R (continue f r)
      bound (ok a, m') h' = (then_each a).holds m' h'
      bound (err e, m') h' = tt

  pub triple_keeps :
      {A : Type 0} {P : Machine L E W → Type 0} (step : M L E W A)
      → Keeps P step
      → Triple P step (λ a m. P m)
  unfolding After
  triple_keeps {A} {P} step keeps = record { holds = λ m h. bound (step m) (keeps.kept m h) }
    where
      bound : (r : Outcome E A × Machine L E W) → P (r.1) → After (λ a m. P m) r
      bound (ok a, m') h = h
      bound (err e, m') h = tt

  pub triple_pure :
      {A : Type 0} {P : Machine L E W → Type 0} {Q : A → Machine L E W → Type 0} (a : A)
      → ((m : Machine L E W) → P m → Q a m)
      → Triple P (pure a) Q
  unfolding After
  triple_pure a h = record { holds = h }

  pub triple_throw :
      {A : Type 0} {P : Machine L E W → Type 0} {Q : A → Machine L E W → Type 0} (e : E)
      → Triple P (throw {A = A} e) Q
  unfolding After
  triple_throw e = record { holds = λ m h. tt }

  -- A fact that the step's start depends on.
  pub triple_given :
      {A F : Type 0} {P : Machine L E W → Type 0} {Q : A → Machine L E W → Type 0}
      {step : M L E W A}
      → (F → Triple P step Q)
      → Triple (λ m. P m × F) step Q
  triple_given h = record { holds = λ m both. (h both.1).holds m both.0 }

  -- A step that does not read or write anything but P, with a fact of its result.
  pub triple_result :
      {A : Type 0} {P : Machine L E W → Type 0} {Q : A → Machine L E W → Type 0} (step : M L E W A)
      (m m' : Machine L E W) (a : A)
      → Triple P step Q
      → P m
      → step m ≡ (ok a, m')
      → Q a m'
  unfolding After
  triple_result {Q = Q} step m m' a t h e = subst (After Q) e (t.holds m h)

  pub triple_map :
      {A : Type 0} {P : Machine L E W → Type 0} {Q R : A → Machine L E W → Type 0}
      (step : M L E W A)
      → ((a : A) (m : Machine L E W) → Q a m → R a m)
      → Triple P step Q
      → Triple P step R
  unfolding After
  triple_map {A} {P} {Q} {R} step weaker t = record { holds = λ m h. bound (step m) (t.holds m h) }
    where
      bound : (r : Outcome E A × Machine L E W) → After Q r → After R r
      bound (ok a, m') h' = weaker a m' h'
      bound (err e, m') h' = tt
