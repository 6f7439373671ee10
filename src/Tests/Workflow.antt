-- ===== src/Tests/Workflow.antt =====
-- src/workflow.rs: the theorems applied to two steps, the first of which fails.
pub mod Retained
use master_control_program.Base.{ℕ, ◌≡◌, String, true, false, refl, List, [], ◌∷◌, none, map, all}
use master_control_program.Observation.Record.{satisfied}
use master_control_program.Workflow.Execute.{
  Step, Answer, runs, produced, errored, execute, run_step,
}
use master_control_program.Workflow.Execute.Order.{
  Follows, execute-Follows, execute-satisfied, is_satisfied,
}

abbrev declared_step : String → Step
declared_step name = record {
  name = name;
  timeout_ms = 100;
  continue_on_error = true;
  is_action = true;
}

abbrev steps : List (Step × Answer ℕ)
steps =
    (declared_step "open", runs 1 (errored "no window") 2 none)
    ∷ (declared_step "capture", runs 3 (produced satisfied 7 1) 4 none)
    ∷ []

execute-Follows_example : Follows steps (execute 1000 false steps).results
execute-Follows_example = execute-Follows 1000 false steps

abbrev good_steps : List (Step × Answer ℕ)
good_steps =
    (declared_step "open", runs 1 (produced satisfied 8 1) 2 none)
    ∷ (declared_step "capture", runs 3 (produced satisfied 7 1) 4 none)
    ∷ []

all_satisfied : (execute 1000 false good_steps).outcome ≡ satisfied
unfolding execute run_step
all_satisfied = refl

execute-satisfied_example :
    (false ≡ false)
    × (map (λ r. r.name) (execute 1000 false good_steps).results ≡ "open" ∷ "capture" ∷ [])
    × (all (λ r. is_satisfied r.outcome) (execute 1000 false good_steps).results ≡ true)
execute-satisfied_example = execute-satisfied 1000 false good_steps all_satisfied
