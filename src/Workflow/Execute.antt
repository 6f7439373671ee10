-- ===== src/Workflow/Execute.antt =====
-- src/workflow.rs: `execute`, the steps of a workflow in their order. What happens to a step is given
-- by an answer: the clock, the cancellations and the tools are not part of this loop.
pub mod Order
use master_control_program.Base.{
  ℕ, ◌+◌, ◌*◌, min, String, Bool, true, false, Option, none, some, List, [], ◌∷◌, leb, is_some,
  if◌then◌else◌, Result, ok, err,
}
use master_control_program.Observation.Record.{
  Outcome, running, satisfied, timed_out, canceled, failed,
}
use master_control_program.Observation.Wait.{is_running}

abbrev pub max_result_bytes : ℕ
max_result_bytes = 8 * 1024 * 1024

-- A step, with whether its operation is an action.
pub record Step : Type 0 where
  pub name : String
  pub timeout_ms : ℕ
  pub continue_on_error : Bool
  pub is_action : Bool

pub record StepResult (V : Type 0) : Type 0 where
  pub name : String
  pub outcome : Outcome
  pub started_at_unix_ms : ℕ
  pub deadline_unix_ms : ℕ
  pub finished_at_unix_ms : Option ℕ
  pub result : Option V
  pub error : Option String
  pub action_may_have_completed : Bool

-- How the `select!` ends: a cancellation, the deadline of the step, or the operation with its outcome
-- and value, of some length, or with an error.
pub data Output (V : Type 0) : Type 0 where
  was_canceled deadline_elapsed : Output V
  produced : Outcome → V → ℕ → Output V
  errored : String → Output V

-- What meets a step: it may not begin, or it begins at a time, ends at another, and its result is
-- stored or refused.
pub data Answer (V : Type 0) : Type 0 where
  canceled_before late_before : Answer V
  runs : ℕ → Output V → ℕ → Option String → Answer V

module _ {V : Type 0} where
  abbrev begun : Step → ℕ → ℕ → StepResult V
  begun step started overall_deadline = record {
    name = step.name;
    outcome = running;
    started_at_unix_ms = started;
    deadline_unix_ms = min (started + step.timeout_ms) overall_deadline;
    finished_at_unix_ms = none;
    result = none;
    error = none;
    action_may_have_completed = false;
  }

  abbrev with_output : Step → Output V → StepResult V → StepResult V
  with_output step was_canceled r = record r {
    outcome = canceled;
    action_may_have_completed = step.is_action;
  }
  with_output step deadline_elapsed r = record r {
    outcome = timed_out;
    error =
        some
          "step deadline elapsed; action is not retried and may still finish in a native provider";
    action_may_have_completed = step.is_action;
  }
  with_output step (produced outcome value size) r =
      if leb size max_result_bytes
      then record r { outcome = outcome; result = some value }
      else record r {
        outcome = failed;
        error = some "step output exceeds 8 MiB result limit";
        action_may_have_completed = step.is_action;
      }
  with_output step (errored error) r = record r {
    outcome = failed;
    error = some error;
    action_may_have_completed = step.is_action;
  }

  -- A result that `put_result` refuses is a failure without a value.
  abbrev with_storage : Step → Option String → StepResult V → StepResult V
  with_storage step none r = r
  with_storage step (some refusal) r = record r {
    outcome = failed;
    result = none;
    error = some refusal;
    action_may_have_completed = step.is_action;
  }

  -- The result of a step that began.
  unfoldable pub run_step : Step → ℕ → ℕ → Output V → ℕ → Option String → StepResult V
  run_step step overall_deadline started output finished refusal =
      with_storage step refusal
        (record (with_output step output (begun step started overall_deadline)) {
          finished_at_unix_ms = some finished;
        })

-- The results of the steps that began, and what `execute` returns.
pub record Run (V : Type 0) : Type 0 where
  pub results : List (StepResult V)
  pub outcome : Outcome
  pub error : Option String

abbrev or_message : Option String → String → Option String
or_message none message = some message
or_message (some error) message = some error

module _ {V : Type 0} where
  abbrev pub and_then : StepResult V → Run V → Run V
  and_then r rest = record rest { results = r ∷ rest.results }

  abbrev pub stop : StepResult V → Outcome → Option String → Run V
  stop r outcome error = record { results = r ∷ []; outcome = outcome; error = error }

  abbrev pub at_end : Bool → Run V
  at_end true = record {
    results = [];
    outcome = failed;
    error =
        some
          "one or more steps failed; declared evidence-collection steps continued without retries";
  }
  at_end false = record { results = []; outcome = satisfied; error = none }

  -- What follows a result of this outcome: the rest as after a success, or as after a failure, if
  -- the step is declared to continue.
  abbrev pub follow : Outcome → Bool → StepResult V → Run V → Run V → Run V
  follow canceled continues r succeeded continued = stop r canceled r.error
  follow satisfied continues r succeeded continued = and_then r succeeded
  follow outcome true r succeeded continued = and_then r continued
  follow outcome false r succeeded continued =
      stop r outcome (or_message r.error "step did not satisfy its outcome")

  abbrev pub after_step : Step → StepResult V → Run V → Run V → Run V
  after_step step r succeeded continued =
      follow r.outcome step.continue_on_error r succeeded continued

  unfoldable pub execute : ℕ → Bool → List (Step × Answer V) → Run V
  unfolding run_step
  execute overall_deadline had_failure [] = at_end had_failure
  execute overall_deadline had_failure ((step, canceled_before) ∷ steps) = record {
    results = [];
    outcome = canceled;
    error = none;
  }
  execute overall_deadline had_failure ((step, late_before) ∷ steps) = record {
    results = [];
    outcome = timed_out;
    error = some "workflow deadline elapsed before next action";
  }
  execute overall_deadline had_failure ((step, runs started output finished refusal) ∷ steps) =
      after_step step (run_step step overall_deadline started output finished refusal)
        (execute overall_deadline had_failure steps) (execute overall_deadline true steps)
