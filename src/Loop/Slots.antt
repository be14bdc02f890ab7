-- ===== src/Loop/Slots.antt =====
-- The slots of a batch, one for each call, and when a call does not run any more (executeTools of prompt.go).
use resolute_agent_core_go.Prelude.{
  ℕ, zero, suc, String, List, [], ◌∷◌, Option, none, some, Outcome, ok, err, ◌≡◌, refl, ap, ◌⊎◌,
  map,
}
use resolute_agent_core_go.Message.{ToolResult}
use resolute_agent_core_go.Loop.Machine.{
  PreparedCall, immediate, runnable, BatchStep, updated, finished,
}
use resolute_agent_core_go.Loop.Tools.{ToolOutcome, Slots, initial_slots, fill, call_of, outcomes}

-- What each call of a batch comes to, by its index.
abbrev pub Answers : Type 0 → Type 0
Answers E = ℕ → Outcome E ToolResult × Option E

-- The index of a call that the steps finish.
unfoldable pub HasFinished : {E : Type 0} → ℕ → List (BatchStep E) → Type 0
HasFinished i [] = ⊥
HasFinished i (updated j r ∷ ss) = HasFinished i ss
HasFinished i (finished j o e ∷ ss) = (j ≡ i) ⊎ HasFinished i ss

-- A step that says of a call what the answers say.
unfoldable pub IsAnswer : {E : Type 0} → Answers E → BatchStep E → Type 0
IsAnswer answers (updated i r) = Unit
IsAnswer answers (finished i o e) = answers i ≡ (o, e)

-- A call that nobody can finish does not run.
unfoldable pub IsNone : Option (String × String) → Type 0
IsNone none = Unit
IsNone (some c) = ⊥

module _ {X E : Type 0} where
  -- A call that does not run any more.
  unfoldable pub IsOver : PreparedCall X E → Option ToolResult → Type 0
  IsOver (immediate id name e) o = Unit
  IsOver (runnable id name args tool) none = ⊥
  IsOver (runnable id name args tool) (some r) = Unit

  pub filled-IsOver : (p : PreparedCall X E) (r : ToolResult) → IsOver p (some r)
  unfolding IsOver
  filled-IsOver (immediate id name e) r = tt
  filled-IsOver (runnable id name args tool) r = tt

  unfoldable pub IsOverAt : ℕ → Slots X E → Type 0
  IsOverAt i [] = Unit
  IsOverAt zero ((p, o) ∷ slots) = IsOver p o
  IsOverAt (suc i) (slot ∷ slots) = IsOverAt i slots

  pub fill-IsOverAt : (i : ℕ) (r : ToolResult) (slots : Slots X E) → IsOverAt i (fill i r slots)
  unfolding IsOverAt fill
  fill-IsOverAt i r [] = tt
  fill-IsOverAt zero r ((p, o) ∷ slots) = filled-IsOver p r
  fill-IsOverAt (suc i) r (slot ∷ slots) = fill-IsOverAt i r slots

  pub IsOverAt-fill :
      (j i : ℕ) (r : ToolResult) (slots : Slots X E)
      → IsOverAt j slots
      → IsOverAt j (fill i r slots)
  unfolding IsOverAt fill
  IsOverAt-fill j i r [] h = h
  IsOverAt-fill zero zero r ((p, o) ∷ slots) h = filled-IsOver p r
  IsOverAt-fill zero (suc i) r ((p, o) ∷ slots) h = h
  IsOverAt-fill (suc j) zero r ((p, o) ∷ slots) h = h
  IsOverAt-fill (suc j) (suc i) r (slot ∷ slots) h = IsOverAt-fill j i r slots h

  pub call_of-IsOverAt : (i : ℕ) (slots : Slots X E) → IsNone (call_of i slots) → IsOverAt i slots
  unfolding IsOverAt IsOver call_of IsNone
  call_of-IsOverAt i [] h = tt
  call_of-IsOverAt zero ((immediate id name e, o) ∷ slots) h = tt
  call_of-IsOverAt zero ((runnable id name args tool, o) ∷ slots) h = elim h [ ]
  call_of-IsOverAt (suc i) (slot ∷ slots) h = call_of-IsOverAt i slots h

  -- The slots that agree with the answers.
  pub Agrees : (ℕ → ToolResult) → Slots X E → Type 0
  Agrees results [] = Unit
  Agrees results ((p, none) ∷ slots) = Agrees (λ i. results (suc i)) slots
  Agrees results ((p, some r) ∷ slots) = (r ≡ results 0) × Agrees (λ i. results (suc i)) slots

  pub Agrees-fill :
      (results : ℕ → ToolResult) (i : ℕ) (slots : Slots X E)
      → Agrees results slots
      → Agrees results (fill i (results i) slots)
  unfolding Agrees fill
  Agrees-fill results i [] h = h
  Agrees-fill results zero ((p, none) ∷ slots) h = (refl, h)
  Agrees-fill results zero ((p, some r) ∷ slots) h = (refl, h.1)
  Agrees-fill results (suc i) ((p, none) ∷ slots) h = Agrees-fill (λ k. results (suc k)) i slots h
  Agrees-fill results (suc i) ((p, some r) ∷ slots) h =
      (h.0, Agrees-fill (λ k. results (suc k)) i slots h.1)

  pub Agrees-initial_slots :
      (results : ℕ → ToolResult) (ps : List (PreparedCall X E)) → Agrees results (initial_slots ps)
  unfolding Agrees initial_slots
  Agrees-initial_slots results [] = tt
  Agrees-initial_slots results (p ∷ ps) = Agrees-initial_slots (λ i. results (suc i)) ps

  -- The outcomes of the calls by their order: the error of a call that did not run, or its result.
  unfoldable pub expected : (ℕ → ToolResult) → List (PreparedCall X E) → List (ToolOutcome E)
  expected results [] = []
  expected results (immediate id name e ∷ ps) =
      record { call_id = id; name = name; outcome = err e } ∷ expected (λ i. results (suc i)) ps
  expected results (runnable id name args tool ∷ ps) =
      record { call_id = id; name = name; outcome = ok (results 0) }
      ∷ expected (λ i. results (suc i)) ps

  pub calls_in : Slots X E → List (PreparedCall X E)
  calls_in slots = map (λ slot. slot.0) slots

  pub outcomes-expected :
      (results : ℕ → ToolResult) (slots : Slots X E)
      → Agrees results slots
      → ((i : ℕ) → IsOverAt i slots)
      → outcomes slots ≡ expected results (calls_in slots)
  unfolding Agrees IsOverAt IsOver outcomes expected calls_in
  outcomes-expected results [] h full = refl
  outcomes-expected results ((immediate id name e, none) ∷ slots) h full =
      ap (λ os. record { call_id = id; name = name; outcome = err e } ∷ os)
        (outcomes-expected (λ i. results (suc i)) slots h (λ i. full (suc i)))
  outcomes-expected results ((immediate id name e, some r) ∷ slots) h full =
      ap (λ os. record { call_id = id; name = name; outcome = err e } ∷ os)
        (outcomes-expected (λ i. results (suc i)) slots h.1 (λ i. full (suc i)))
  outcomes-expected results ((runnable id name args tool, some r) ∷ slots) h full =
      rw (h.0, outcomes-expected (λ i. results (suc i)) slots h.1 (λ i. full (suc i))) refl
  outcomes-expected results ((runnable id name args tool, none) ∷ slots) h full =
      elim (full zero) [ ]

  pub calls_in-fill :
      (i : ℕ) (r : ToolResult) (slots : Slots X E) → calls_in (fill i r slots) ≡ calls_in slots
  unfolding calls_in fill
  calls_in-fill i r [] = refl
  calls_in-fill zero r ((p, o) ∷ slots) = refl
  calls_in-fill (suc i) r (slot ∷ slots) = ap (λ ps. slot.0 ∷ ps) (calls_in-fill i r slots)

  pub calls_in-initial_slots : (ps : List (PreparedCall X E)) → calls_in (initial_slots ps) ≡ ps
  unfolding calls_in initial_slots
  calls_in-initial_slots [] = refl
  calls_in-initial_slots (p ∷ ps) = ap (λ qs. p ∷ qs) (calls_in-initial_slots ps)
