-- ===== src/Workflow/State.antt =====
-- src/workflow.rs: `WorkflowState`, the workflows that a host retains, and what changes them.
pub mod Linked
pub mod Kept
pub mod Calls
pub mod Ended
use master_control_program.Base.{
  ℕ, ◌+◌, ◌*◌, String, Bool, true, false, not, ◌&&◌, ◌||◌, Option, none, some, List, [], ◌∷◌, ◌++◌,
  map, length, any, keep, all, leb, ltb, ◌==◌, is_some, is_none, is_some_and, str_eq, if◌then◌else◌,
  Result, ok, err, ensure, or_err, ◌>>=◌, ◌>>◌, persistence_failure,
}
use master_control_program.Base.Map.{Map, string_key, get, insert, remove, adjust, values}
use master_control_program.Observation.Record.{
  Cursor, Lifetime, Outcome, failed, is_persistent, visible,
}
use master_control_program.Observation.Wait.{is_running}
use master_control_program.Workflow.Bindings.{JsonValue}
use master_control_program.Workflow.Execute.{StepResult}
use master_control_program.Workflow.Validate.{StartInput, StartError, validate_workflow}

pub record WorkflowRecord (V : Type 0) : Type 0 where
  pub id : String
  pub epoch : String
  pub owner : String
  pub input : StartInput V
  pub outcome : Outcome
  pub started_at_unix_ms : ℕ
  pub deadline_unix_ms : ℕ
  pub finished_at_unix_ms : Option ℕ
  pub start_cursor : Cursor
  pub steps : List (StepResult V)
  pub error : Option String
  pub cancellation_requested : Bool
  pub replayed : Bool

-- A cancellation that is still listed, with whether it was signaled.
pub record WorkflowState (V : Type 0) : Type 0 where
  pub epoch : String
  pub persistent_enabled : Bool
  pub records : Map String (WorkflowRecord V)
  pub cancellations : Map String Bool
  pub retired : List String
  pub persistence_error : Option String

pub data WorkflowError : Type 0 where
  not_persistent : WorkflowError
  refused : StartError → WorkflowError
  persistence_unavailable : WorkflowError
  connection_closed : WorkflowError
  too_many_workflows : WorkflowError
  too_many_active : WorkflowError
  state_too_long : WorkflowError
  disappeared : WorkflowError
  step_disappeared : WorkflowError
  not_found : WorkflowError
  still_running : WorkflowError
  bad_version : WorkflowError
  bad_snapshot : WorkflowError
  connection_owned : WorkflowError

abbrev pub max_workflows : ℕ
max_workflows = 64

abbrev pub max_active : ℕ
max_active = 16

abbrev pub max_state_bytes : ℕ
max_state_bytes = 32 * 1024 * 1024

-- The lengths of values as JSON.
pub record Sizes (V : Type 0) : Type 0 where
  pub input : StartInput V → ℕ
  pub records : Map String (WorkflowRecord V) → ℕ
  pub record_size : WorkflowRecord V → ℕ
  pub step : StepResult V → ℕ
  pub snapshot : List (WorkflowRecord V) → ℕ

module _ {V : Type 0} where
  abbrev pub signal : String → WorkflowState V → WorkflowState V
  signal id s = record s { cancellations = adjust id (λ _. true) s.cancellations }

  abbrev pub started_record :
      WorkflowState V → StartInput V → String → ℕ → String → Cursor → WorkflowRecord V
  started_record s input owner now id cursor = record {
    id = id;
    epoch = s.epoch;
    owner = owner;
    input = input;
    outcome = Outcome.running;
    started_at_unix_ms = now;
    deadline_unix_ms = now + input.timeout_ms;
    finished_at_unix_ms = none;
    start_cursor = cursor;
    steps = [];
    error = none;
    cancellation_requested = false;
    replayed = false;
  }

  -- Another step of the name is replaced, if there is one.
  unfoldable pub replace_step : StepResult V → List (StepResult V) → Option (List (StepResult V))
  replace_step result [] = none
  replace_step result (step ∷ steps) = elim (str_eq step.name result.name) [
    | true ↦ some (result ∷ steps)
    | false ↦ elim (replace_step result steps) [ none ↦ none | some rest ↦ some (step ∷ rest) ]
  ]

  abbrev pub set_step : StepResult V → WorkflowRecord V → WorkflowRecord V
  set_step result r = record r {
    steps = elim (replace_step result r.steps) [
      | none ↦ r.steps ++ (result ∷ [])
      | some steps ↦ steps
    ];
  }

  unfoldable pub put_step : String → StepResult V → WorkflowState V → WorkflowState V
  put_step id result s = record s { records = adjust id (set_step result) s.records }

  unfoldable pub put_result :
      Sizes V → String → StepResult V → WorkflowState V → Result WorkflowError (WorkflowState V)
  put_result sizes id result s =
      ensure (leb (sizes.records s.records + sizes.step result) max_state_bytes) state_too_long
      >> or_err (get id s.records) disappeared
      >>= λ r. or_err (replace_step result r.steps) step_disappeared >>= λ steps.
          ok record s { records = adjust id (λ q. record q { steps = steps }) s.records }

  -- What `finish` makes of a record that runs.
  abbrev pub ended_record :
      Option String → Outcome → Option String → ℕ → WorkflowRecord V → WorkflowRecord V
  ended_record persistence_error outcome error now r =
      if is_running r.outcome
      then record r {
        outcome =
            if is_persistent r.input.lifetime && is_some persistence_error then failed else outcome;
        finished_at_unix_ms = some now;
        error =
            if is_persistent r.input.lifetime && is_some persistence_error
            then persistence_error
            else if is_some error
            then error
            else r.error;
      }
      else r

  unfoldable pub finish_workflow :
      String → Outcome → Option String → ℕ → WorkflowState V → WorkflowState V
  finish_workflow id outcome error now s =
      let records = adjust id (ended_record s.persistence_error outcome error now) s.records in
      let retired = any (λ other. str_eq other id) s.retired in
      record s {
        records = if retired then remove id records else records;
        cancellations = remove id s.cancellations;
        retired = keep (λ other. not (str_eq other id)) s.retired;
      }

  unfoldable pub status_of :
      String → String → WorkflowState V → Result WorkflowError (WorkflowRecord V)
  status_of id owner s = or_err (get id s.records) not_found >>= λ r.
      if visible r.owner r.input.lifetime owner then ok r else err not_found

  abbrev pub requested : WorkflowRecord V → WorkflowRecord V
  requested r = if is_running r.outcome then record r { cancellation_requested = true } else r

  -- A call that is refused may have signaled the cancellation.
  unfoldable pub cancel_workflow :
      String
      → String
      → Bool
      → WorkflowState V
      → WorkflowState V × Result WorkflowError (WorkflowRecord V)
  cancel_workflow id owner forget s = elim (status_of id owner s) [
    | err e ↦ (s, err e)
    | ok r ↦
        let q = signal id s in
        let t = record q { records = adjust id requested q.records } in
        if forget
        then (if is_running r.outcome
            then (t, err still_running)
            else (record t { records = remove id t.records }, ok (requested r)))
        else (t, ok (requested r))
  ]

  -- One round of the loop of `shutdown_connection`.
  unfoldable pub retire_workflow : String → WorkflowState V → WorkflowState V
  retire_workflow id s = elim (get id s.cancellations) [
    | some signaled ↦ record (signal id s) { retired = id ∷ s.retired }
    | none ↦ record s { records = remove id s.records }
  ]

  unfoldable pub retire_workflows : List String → WorkflowState V → WorkflowState V
  retire_workflows [] s = s
  retire_workflows (id ∷ ids) s = retire_workflows ids (retire_workflow id s)

  abbrev pub is_owned : String → WorkflowRecord V → Bool
  is_owned owner r = str_eq r.owner owner && not (is_persistent r.input.lifetime)

  unfoldable pub shutdown_owner : String → WorkflowState V → WorkflowState V
  shutdown_owner owner s =
      retire_workflows (map (λ r. r.id) (keep (is_owned owner) (values s.records))) s

  -- The first block of `shutdown`, and the drop of the state.
  unfoldable pub cancel_workflows : WorkflowState V → WorkflowState V
  cancel_workflows s = record s { cancellations = map (λ c. (c.0, true)) s.cancellations }

  -- A persistent workflow that runs, when its checkpoint cannot be written.
  abbrev pub is_at_risk : WorkflowRecord V → Bool
  is_at_risk r = is_persistent r.input.lifetime && is_running r.outcome

  unfoldable pub fail_all : String → List String → WorkflowState V → WorkflowState V
  fail_all error [] s = s
  fail_all error (id ∷ ids) s =
      let q = signal id s in
      fail_all error ids record q {
        records = adjust id (λ r. record r { error = some (persistence_failure error) }) q.records;
      }

  unfoldable pub persistence_failed : String → WorkflowState V → WorkflowState V
  persistence_failed error s =
      fail_all error (map (λ r. r.id) (keep is_at_risk (values s.records)))
        record s { persistence_error = some error }

  abbrev pub with_workflow : WorkflowRecord V → WorkflowState V → WorkflowState V
  with_workflow r s = record s {
    records = insert r.id r s.records;
    cancellations = insert r.id false s.cancellations;
  }

module _ {V : Type 0} (sizes : Sizes V) where
  -- The block under the lock, up to its changes.
  unfoldable pub check_room :
      WorkflowRecord V → Bool → WorkflowState V → Result WorkflowError (Unit {0})
  check_room r connected s =
      ensure connected connection_closed
      >> ensure (ltb (length s.records) max_workflows) too_many_workflows
      >> ensure (ltb (length s.cancellations) max_active) too_many_active
      >> ensure (leb (sizes.records s.records + sizes.record_size r) max_state_bytes) state_too_long

module _ {V : Type 0} (json : JsonValue V) (has_tool : String → Bool) (sizes : Sizes V) where
  unfoldable pub check_start : StartInput V → WorkflowState V → Result WorkflowError (Unit {0})
  check_start input s =
      ensure (not (is_persistent input.lifetime) || s.persistent_enabled) not_persistent
      >> elim (validate_workflow json has_tool sizes.input input) [
        | ok u ↦ ok u
        | err e ↦ err (refused e)
      ]
      >> ensure (not (is_persistent input.lifetime && is_some s.persistence_error))
          persistence_unavailable

  -- The identifier is a new UUID.
  unfoldable pub start_workflow :
      StartInput V
      → (owner : String) → (now : ℕ) → (id : String) → Cursor
      → (connected : Bool) → WorkflowState V
      → Result WorkflowError (WorkflowState V)
  start_workflow input owner now id cursor connected s =
      let r = started_record s input owner now id cursor in
      (check_start input s >> check_room sizes r connected s) >> ok (with_workflow r s)
