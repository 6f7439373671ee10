-- ===== src/Workflow/Validate.antt =====
-- src/workflow.rs: `validate`, the checks of a workflow before it starts.
pub mod Accepted
use master_control_program.Base.{
  ℕ, ◌+◌, ◌*◌, ◌≡◌, String, len, Bool, true, false, not, ◌&&◌, List, [], ◌∷◌, length, any, leb, ltb,
  in_range, str_eq, starts_with, Result, ok, err, ensure, ◌>>=◌, ◌>>◌,
}
use master_control_program.Base.Map.{Map}
use master_control_program.Observation.Record.{Lifetime, max_duration_ms}
use master_control_program.Workflow.Bindings.{JsonValue, BindingError, validate_bindings, levels}

-- The cursor that a wait may begin after is left out: `validate` does not look at it.
pub data Operation (V : Type 0) : Type 0 where
  action : String → Map String V → Operation V
  wait : Map String V → Operation V

pub record DeclaredStep (V : Type 0) : Type 0 where
  pub name : String
  pub timeout_ms : ℕ
  pub continue_on_error : Bool
  pub operation : Operation V

pub record StartInput (V : Type 0) : Type 0 where
  pub name : String
  pub lifetime : Lifetime
  pub timeout_ms : ℕ
  pub steps : List (DeclaredStep V)

pub data StartError : Type 0 where
  bad_name : StartError
  bad_timeout : StartError
  bad_steps : StartError
  too_long : StartError
  bad_step_name : StartError
  bad_step_timeout : StartError
  recursive_action : StartError
  unknown_tool : StartError
  binding : BindingError → StartError
  duplicate_step : StartError

abbrev pub max_steps : ℕ
max_steps = 32

abbrev pub max_definition_bytes : ℕ
max_definition_bytes = 256 * 1024

abbrev pub from_binding : Result BindingError (Unit {0}) → Result StartError (Unit {0})
from_binding (ok u) = ok u
from_binding (err e) = err (binding e)

abbrev pub is_named : String → List String → Bool
is_named name = any (λ other. str_eq other name)

abbrev pub arguments_of : {V : Type 0} → Operation V → Map String V
arguments_of (action tool arguments) = arguments
arguments_of (wait filter) = filter

-- The tools that the dispatcher has.
abbrev pub validate_tool :
    {V : Type 0} → (String → Bool) → Operation V → Result StartError (Unit {0})
validate_tool has_tool (action tool arguments) =
    ensure (not (starts_with tool "workflow_")) recursive_action
    >> ensure (has_tool tool) unknown_tool
validate_tool has_tool (wait filter) = ok tt

module _ {V : Type 0} (json : JsonValue V) (has_tool : String → Bool) where
  -- One round of the loop.
  unfoldable pub validate_step : List String → DeclaredStep V → Result StartError (Unit {0})
  validate_step names step =
      ensure (in_range 1 64 (len step.name)) bad_step_name
      >> ensure (in_range 1 max_duration_ms step.timeout_ms) bad_step_timeout
      >> validate_tool has_tool step.operation
      >> from_binding
          (validate_bindings json levels (json.from_object (arguments_of step.operation)) names)
      >> ensure (not (is_named step.name names)) duplicate_step

  unfoldable pub validate_steps : List String → List (DeclaredStep V) → Result StartError (Unit {0})
  validate_steps names [] = ok tt
  validate_steps names (step ∷ steps) =
      validate_step names step >> validate_steps (step.name ∷ names) steps

  -- `size` is the length of the input as JSON.
  unfoldable pub validate_workflow :
      (size : StartInput V → ℕ) → StartInput V → Result StartError (Unit {0})
  validate_workflow size input =
      ensure (in_range 1 128 (len input.name)) bad_name
      >> ensure (in_range 1 max_duration_ms input.timeout_ms) bad_timeout
      >> ensure (in_range 1 max_steps (length input.steps)) bad_steps
      >> ensure (leb (size input) max_definition_bytes) too_long
      >> validate_steps [] input.steps
