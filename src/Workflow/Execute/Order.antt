-- ===== src/Workflow/Execute/Order.antt =====
-- src/workflow.rs: which steps run, and what the outcome of a workflow says of them.
use master_control_program.Base.{
  ◌≢◌, ◌⊎◌, inl, inr, refl, ℕ, ◌≡◌, String, Bool, true, false, Option, List, [], ◌∷◌, map, arith,
  all,
}
use master_control_program.Observation.Record.{
  running, failed, timed_out, Outcome, satisfied, canceled,
}
use master_control_program.Workflow.Execute.{
  follow, Step, StepResult, Answer, execute, run_step, runs, canceled_before, late_before, Output,
  Run,
}

abbrev pub is_satisfied : Outcome → Bool
is_satisfied satisfied = true
is_satisfied _ = false

module _ {V : Type 0} where
  abbrev names : List (StepResult V) → List String
  names = map (λ r. r.name)

  abbrev declared : List (Step × Answer V) → List String
  declared = map (λ x. x.0.name)

  name-run_step :
      (step : Step) (deadline started : ℕ) (output : Output V) (finished : ℕ)
      (refusal : Option String)
      → (run_step step deadline started output finished refusal).name ≡ step.name
  unfolding run_step
  name-run_step step deadline started output finished refusal = ground arith

  -- A workflow is satisfied only if no step failed before, every declared step has a result, in
  -- order, and every result is satisfied.
  pub execute-satisfied :
      (deadline : ℕ) (had_failure : Bool) (steps : List (Step × Answer V))
      → (execute deadline had_failure steps).outcome ≡ satisfied
      → (had_failure ≡ false)
        × (names (execute deadline had_failure steps).results ≡ declared steps)
        × (all (λ r. is_satisfied r.outcome) (execute deadline had_failure steps).results ≡ true)
  unfolding execute
  execute-satisfied deadline had_failure [] h = ground arith
  execute-satisfied deadline had_failure ((step, canceled_before) ∷ steps) h = ground arith
  execute-satisfied deadline had_failure ((step, late_before) ∷ steps) h = ground arith
  execute-satisfied deadline had_failure ((step, runs started output finished refusal) ∷ steps) h =
      ground (
        arith,
        name-run_step step deadline started output finished refusal,
        execute-satisfied deadline had_failure steps,
        execute-satisfied deadline true steps,
      )

  abbrev pub GoesOn : Step → StepResult V → Type 0
  GoesOn step r = (step.continue_on_error ≡ true) × (r.outcome ≢ canceled)

  -- The results are those of the first steps in their order, and a step follows another only if that
  -- one was satisfied, or failed without being canceled and is declared to continue.
  abbrev pub Follows : List (Step × Answer V) → List (StepResult V) → Type 0
  Follows steps [] = Unit
  Follows [] (r ∷ results) = ⊥
  Follows ((step, answer) ∷ steps) (r ∷ results) =
      (r.name ≡ step.name)
      × ((results ≡ []) ⊎ ((r.outcome ≡ satisfied) ⊎ GoesOn step r))
      × Follows steps results

  follow-Follows :
      (step : Step) (r : StepResult V) (steps : List (Step × Answer V)) (answer : Answer V)
      (succeeded continued : Run V) (outcome : Outcome) (continues : Bool)
      → r.outcome ≡ outcome
      → step.continue_on_error ≡ continues
      → r.name ≡ step.name
      → Follows steps succeeded.results
      → Follows steps continued.results
      → Follows ((step, answer) ∷ steps) (follow outcome continues r succeeded continued).results
  follow-Follows step r steps answer s c canceled continues e f n a b = (n, inl refl, tt)
  follow-Follows step r steps answer s c satisfied continues e f n a b = (n, inr (inl e), a)
  follow-Follows step r steps answer s c running true e f n a b =
      (n, inr (inr (f, (λ x. cc (e, x)))), b)
  follow-Follows step r steps answer s c timed_out true e f n a b =
      (n, inr (inr (f, (λ x. cc (e, x)))), b)
  follow-Follows step r steps answer s c failed true e f n a b =
      (n, inr (inr (f, (λ x. cc (e, x)))), b)
  follow-Follows step r steps answer s c running false e f n a b = (n, inl refl, tt)
  follow-Follows step r steps answer s c timed_out false e f n a b = (n, inl refl, tt)
  follow-Follows step r steps answer s c failed false e f n a b = (n, inl refl, tt)

  -- The results of a workflow are those of its first steps in their order, and a step begins after
  -- another only if that one was satisfied, or ended otherwise without being canceled and is
  -- declared to continue.
  pub execute-Follows :
      (deadline : ℕ) (had_failure : Bool) (steps : List (Step × Answer V))
      → Follows steps (execute deadline had_failure steps).results
  unfolding execute
  execute-Follows deadline true [] = tt
  execute-Follows deadline false [] = tt
  execute-Follows deadline had_failure ((step, canceled_before) ∷ steps) = tt
  execute-Follows deadline had_failure ((step, late_before) ∷ steps) = tt
  execute-Follows deadline had_failure ((step, runs started output finished refusal) ∷ steps) =
      follow-Follows step (run_step step deadline started output finished refusal) steps
        (runs started output finished refusal) (execute deadline had_failure steps)
        (execute deadline true steps)
        (run_step step deadline started output finished refusal).outcome step.continue_on_error refl
        refl (name-run_step step deadline started output finished refusal)
        (execute-Follows deadline had_failure steps) (execute-Follows deadline true steps)
