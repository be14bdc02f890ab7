-- ===== src/Loop/Batch.antt =====
-- The results of a batch of tool calls, by the order of the calls (executeTools of prompt.go).
use resolute_agent_core_go.Prelude.{
  ℕ, String, List, [], ◌∷◌, Option, none, some, Outcome, ◌≡◌, ◌∙◌, refl, sym, ap, subst, inl, inr,
  All, Option-cases,
}
use resolute_agent_core_go.Message.{ToolResult}
use resolute_agent_core_go.Loop.Machine.{PreparedCall, BatchStep, updated, finished, Environment}
use resolute_agent_core_go.Loop.Tools.{Slots, initial_slots, fill, call_of, outcomes, final_result}
use resolute_agent_core_go.Loop.Slots.{
  Answers, HasFinished, IsAnswer, IsNone, IsOverAt, fill-IsOverAt, IsOverAt-fill, call_of-IsOverAt,
  Agrees, Agrees-fill, Agrees-initial_slots, expected, calls_in, outcomes-expected, calls_in-fill,
  calls_in-initial_slots,
}

module _ {X L E W : Type 0} (env : Environment X L E W) where
  -- The slots after the steps, without the events.
  unfoldable pub filled_by : BatchStep E → Slots X E → Slots X E
  filled_by (updated i partial) slots = slots
  filled_by (finished i o e) slots = elim (call_of i slots) [
    | none ↦ slots
    | some c ↦ fill i (final_result env o e) slots
  ]

  unfoldable pub filled : List (BatchStep E) → Slots X E → Slots X E
  filled [] slots = slots
  filled (s ∷ ss) slots = filled ss (filled_by s slots)

  filled_by-IsOverAt :
      (j : ℕ) (s : BatchStep E) (slots : Slots X E)
      → IsOverAt j slots
      → IsOverAt j (filled_by s slots)
  unfolding filled_by
  filled_by-IsOverAt j (updated i partial) slots h = h
  filled_by-IsOverAt j (finished i o e) slots h = elim (Option-cases (call_of i slots)) [
    | inl nobody ↦ rw (nobody, filled_by) h
    | inr (c, found) ↦ rw (found, filled_by) (IsOverAt-fill j i _ slots h)
  ]

  finished-IsOverAt :
      (i : ℕ) (o : Outcome E ToolResult) (e : Option E) (slots : Slots X E)
      → IsOverAt i (filled_by (finished i o e) slots)
  unfolding filled_by IsNone
  finished-IsOverAt i o e slots = elim (Option-cases (call_of i slots)) [
    | inl nobody ↦ rw (nobody, filled_by) (call_of-IsOverAt i slots (subst IsNone (sym nobody) tt))
    | inr (c, found) ↦ rw (found, filled_by) (fill-IsOverAt i _ slots)
  ]

  filled-IsOverAt_kept :
      (j : ℕ) (ss : List (BatchStep E)) (slots : Slots X E)
      → IsOverAt j slots
      → IsOverAt j (filled ss slots)
  unfolding filled
  filled-IsOverAt_kept j [] slots h = h
  filled-IsOverAt_kept j (s ∷ ss) slots h =
      filled-IsOverAt_kept j ss (filled_by s slots) (filled_by-IsOverAt j s slots h)

  filled-IsOverAt :
      (j : ℕ) (ss : List (BatchStep E)) (slots : Slots X E)
      → HasFinished j ss
      → IsOverAt j (filled ss slots)
  unfolding filled HasFinished
  filled-IsOverAt j [] slots h = elim h [ ]
  filled-IsOverAt j (updated i partial ∷ ss) slots h = filled-IsOverAt j ss _ h
  filled-IsOverAt j (finished i o e ∷ ss) slots (inl same) = filled-IsOverAt_kept j ss _ (
      subst (λ k. IsOverAt k (filled_by (finished i o e) slots)) same
        (finished-IsOverAt i o e slots))
  filled-IsOverAt j (finished i o e ∷ ss) slots (inr later) = filled-IsOverAt j ss _ later

  unfoldable pub results : Answers E → ℕ → ToolResult
  results answers i = final_result env ((answers i).0) ((answers i).1)

  filled_by-Agrees :
      (answers : Answers E) (s : BatchStep E) (slots : Slots X E)
      → IsAnswer answers s
      → Agrees (results answers) slots
      → Agrees (results answers) (filled_by s slots)
  unfolding filled_by IsAnswer results
  filled_by-Agrees answers (updated i partial) slots a h = h
  filled_by-Agrees answers (finished i o e) slots a h = elim (Option-cases (call_of i slots)) [
    | inl nobody ↦ rw (nobody, filled_by) h
    | inr (c, found) ↦
        rw (found, filled_by)
          (subst (λ r. Agrees (results answers) (fill i r slots))
            (ap (λ p. final_result env (p.0) (p.1)) a) (Agrees-fill (results answers) i slots h))
  ]

  filled-Agrees :
      (answers : Answers E) (ss : List (BatchStep E)) (slots : Slots X E)
      → All (IsAnswer answers) ss
      → Agrees (results answers) slots
      → Agrees (results answers) (filled ss slots)
  unfolding filled
  filled-Agrees answers [] slots a h = h
  filled-Agrees answers (s ∷ ss) slots (a, more) h =
      filled-Agrees answers ss _ more (filled_by-Agrees answers s slots a h)

  calls_in-filled :
      (ss : List (BatchStep E)) (slots : Slots X E) → calls_in (filled ss slots) ≡ calls_in slots
  unfolding filled filled_by
  calls_in-filled [] slots = refl
  calls_in-filled (updated i partial ∷ ss) slots = calls_in-filled ss slots
  calls_in-filled (finished i o e ∷ ss) slots = calls_in-filled ss _ ∙ same
    where
      same : calls_in (filled_by (finished i o e) slots) ≡ calls_in slots
      same = elim (Option-cases (call_of i slots)) [
        | inl nobody ↦ rw (nobody, filled_by) refl
        | inr (c, found) ↦ rw (found, filled_by) (calls_in-fill i _ slots)
      ]

  -- Whatever the order in which the calls finish, the outcomes of a batch are those of its calls in
  -- their own order.
  pub filled_lem :
      (answers : Answers E) (ps : List (PreparedCall X E)) (ss : List (BatchStep E))
      → All (IsAnswer answers) ss
      → ((i : ℕ) → IsOverAt i (filled ss (initial_slots ps)))
      → outcomes (filled ss (initial_slots ps)) ≡ expected (results answers) ps
  filled_lem answers ps ss a over =
      outcomes-expected _ _ (filled-Agrees answers ss _ a (Agrees-initial_slots _ ps)) over
      ∙ ap (expected (results answers)) (calls_in-filled ss _ ∙ calls_in-initial_slots ps)

  -- A batch whose runnable calls have all finished is over.
  pub initial_slots-IsOverAt :
      (ps : List (PreparedCall X E)) (ss : List (BatchStep E))
      → ((i : ℕ) (c : String × String) → call_of i (initial_slots ps) ≡ some c → HasFinished i ss)
      → (i : ℕ) → IsOverAt i (filled ss (initial_slots ps))
  unfolding IsNone
  initial_slots-IsOverAt ps ss all i = elim (Option-cases (call_of i (initial_slots ps))) [
    | inl nobody ↦ filled-IsOverAt_kept i ss _ (call_of-IsOverAt i _ (subst IsNone (sym nobody) tt))
    | inr (c, found) ↦ filled-IsOverAt i ss _ (all i c found)
  ]
