-- ===== src/Tests/Workflow/Retained.antt =====
-- src/workflow.rs: the theorems applied to a workflow of two steps, whose second binds the result of the
-- first.
use master_control_program.Base.{
  ◌≡◌, String, Bool, true, false, refl, List, [], ◌∷◌, none, some, ok, sym, ap,
}
use master_control_program.Base.Map.{Map, string_key, get, insert, place, adjust, remove}
use master_control_program.Observation.Record.{Cursor, Lifetime, Outcome}
use master_control_program.Workflow.Bindings.{
  Shape, JsonValue, object, text, other, resolve, validate_bindings, validate_binding,
  for_each_value, levels,
}
use master_control_program.Workflow.Bindings.Resolved.{resolve-IsPlain}
use master_control_program.Workflow.Validate.{
  StartInput, action, validate_workflow, validate_steps, validate_step,
}
use master_control_program.Workflow.Validate.Accepted.{IsAccepted, validate_workflow-IsAccepted}
use master_control_program.Workflow.State.{
  WorkflowRecord, WorkflowState, Sizes, start_workflow, check_start, check_room, started_record,
  with_workflow, cancel_workflows, finish_workflow, cancel_workflow,
}
use master_control_program.Workflow.State.Linked.{IsLinked}
use master_control_program.Workflow.State.Calls.{
  Call, done, call, starts, finishes, new_state, new_state-IsLinked, Calls-IsLinked, cancels,
}
use master_control_program.Workflow.State.Ended.{EndsAs, Call-EndsAs, cancel_workflows-signals}
use master_control_program.Workflow.Snapshot.{
  WorkflowSnapshot, IsRestored, restore_workflows, restore_records, interrupted_record,
  restore_workflows-IsRestored,
}

-- JSON values: no arguments, a binding of the result of "open", the parts of it, and arguments that hold
-- a list of texts and a number.
data Document : Type 0 where
  no_arguments bound_arguments open_text data_text number plain_arguments text_list : Document

abbrev binding_map : Map String Document
binding_map = ("$step", open_text) ∷ ("pointer", data_text) ∷ []

abbrev plain_map : Map String Document
plain_map = ("count", number) ∷ ("paths", text_list) ∷ []

abbrev shape_of : Document → Shape Document
shape_of no_arguments = object []
shape_of bound_arguments = object binding_map
shape_of open_text = text "open"
shape_of data_text = text "/data"
shape_of number = other
shape_of plain_arguments = object plain_map
shape_of text_list = Shape.array (data_text ∷ open_text ∷ [])

abbrev document_of : Map String Document → Document
document_of [] = no_arguments
document_of ((key, value) ∷ m) = elim value [ number ↦ plain_arguments | _ ↦ bound_arguments ]

object-injective : {m n : Map String Document} → object m ≡ object n → n ≡ m
object-injective {m} h = sym (ap (λ (s : Shape Document). elim s [ object k ↦ k | _ ↦ m ]) h)

document_of-shape_of :
    (v : Document) (m : Map String Document) → shape_of v ≡ object m → document_of m ≡ v
document_of-shape_of no_arguments [] h = refl
document_of-shape_of no_arguments (x ∷ xs) h = cc
document_of-shape_of bound_arguments m h = ap document_of (object-injective h)
document_of-shape_of open_text m h = cc
document_of-shape_of data_text m h = cc
document_of-shape_of number m h = cc
document_of-shape_of plain_arguments m h = ap document_of (object-injective h)
document_of-shape_of text_list m h = cc

no_arrays : (v : Document) (vs : List Document) → shape_of v ≡ Shape.array vs → text_list ≡ v
no_arrays no_arguments vs h = cc
no_arrays bound_arguments vs h = cc
no_arrays open_text vs h = cc
no_arrays data_text vs h = cc
no_arrays number vs h = cc
no_arrays plain_arguments vs h = cc
no_arrays text_list vs h = refl

abbrev json : JsonValue Document
json = record {
  shape = shape_of;
  from_object = document_of;
  from_array = λ vs. text_list;
  pointer = λ v path. some number;
  object_lem = document_of-shape_of;
  array_lem = no_arrays;
}

abbrev has_tool : String → Bool
has_tool tool = true

abbrev two_steps : StartInput Document
two_steps = record {
  name = "evidence";
  lifetime = Lifetime.persistent;
  timeout_ms = 1000;
  steps =
      record {
        name = "open";
        timeout_ms = 100;
        continue_on_error = false;
        operation = action "run" [];
      }
      ∷ record {
        name = "read";
        timeout_ms = 100;
        continue_on_error = false;
        operation = action "read" binding_map;
      }
      ∷ [];
}

two_steps-validate_workflow : validate_workflow json has_tool (λ input. 500) two_steps ≡ ok tt
unfolding validate_workflow validate_steps validate_step validate_bindings validate_binding
    for_each_value get
two_steps-validate_workflow = refl

validate_workflow-IsAccepted_example : IsAccepted json has_tool two_steps
validate_workflow-IsAccepted_example =
    validate_workflow-IsAccepted json has_tool (λ input. 500) two_steps two_steps-validate_workflow

resolve-IsPlain_example :
    resolve json levels plain_arguments (("open", number) ∷ []) ≡ ok plain_arguments
unfolding get
resolve-IsPlain_example =
    resolve-IsPlain json levels plain_arguments (("open", number) ∷ [])
      (refl, (tt, ((tt, (tt, tt)), tt)))

abbrev sizes : Sizes Document
sizes = record {
  input = λ i. 500;
  records = λ m. 600;
  record_size = λ r. 600;
  step = λ r. 50;
  snapshot = λ rs. 700;
}

abbrev no_workflows : WorkflowState Document
no_workflows = new_state "epoch" true

abbrev at_start : Cursor
at_start = record { epoch = "epoch"; id = 0 }

abbrev first_record : WorkflowRecord Document
first_record = started_record no_workflows two_steps "client" 10 "w1" at_start

abbrev one_workflow : WorkflowState Document
one_workflow = with_workflow first_record no_workflows

starts_one :
    start_workflow json has_tool sizes two_steps "client" 10 "w1" at_start true no_workflows
    ≡ ok one_workflow
unfolding start_workflow check_start check_room validate_workflow validate_steps validate_step
    validate_bindings validate_binding for_each_value get
starts_one = refl

starts-Call : Call json has_tool sizes no_workflows one_workflow
unfolding get
starts-Call =
    starts two_steps "client" 10 "w1" at_start true no_workflows one_workflow refl starts_one

abbrev ended_workflow : WorkflowState Document
ended_workflow = finish_workflow "w1" Outcome.satisfied none 20 one_workflow

finishes-Call : Call json has_tool sizes one_workflow ended_workflow
finishes-Call = finishes "w1" Outcome.satisfied none 20 one_workflow refl

Calls-IsLinked_example : IsLinked ended_workflow
Calls-IsLinked_example =
    Calls-IsLinked json has_tool sizes
      (call no_workflows one_workflow ended_workflow starts-Call
        (call one_workflow ended_workflow ended_workflow finishes-Call (done ended_workflow)))
      (new_state-IsLinked "epoch" true)

one_workflow-IsLinked : IsLinked one_workflow
one_workflow-IsLinked =
    Calls-IsLinked json has_tool sizes
      (call no_workflows one_workflow one_workflow starts-Call (done one_workflow))
      (new_state-IsLinked "epoch" true)

cancel_workflows-signals_example :
    get "w1" (cancel_workflows one_workflow).cancellations ≡ some true
unfolding cancel_workflows get insert place
cancel_workflows-signals_example =
    cancel_workflows-signals "w1" one_workflow one_workflow-IsLinked refl refl

ended_workflow-IsLinked : IsLinked ended_workflow
ended_workflow-IsLinked =
    Calls-IsLinked json has_tool sizes
      (call no_workflows one_workflow ended_workflow starts-Call
        (call one_workflow ended_workflow ended_workflow finishes-Call (done ended_workflow)))
      (new_state-IsLinked "epoch" true)

abbrev ended_record_one : WorkflowRecord Document
ended_record_one = record first_record {
  outcome = Outcome.satisfied;
  finished_at_unix_ms = some 20;
}

found_ended : get "w1" ended_workflow.records ≡ some ended_record_one
unfolding finish_workflow get insert place adjust remove
found_ended = refl

Call-EndsAs_example :
    EndsAs ended_record_one
      (get "w1" (cancel_workflow "w1" "client" false ended_workflow).0.records)
Call-EndsAs_example =
    Call-EndsAs json has_tool sizes "w1" ended_record_one
      (cancels "w1" "client" false ended_workflow) ended_workflow-IsLinked found_ended refl

abbrev saved : WorkflowSnapshot Document
saved = record { version = 1; epoch = "epoch"; records = first_record ∷ [] }

abbrev restored : WorkflowState Document
restored = record (new_state "second" true) {
  records = insert "w1" (interrupted_record 30 first_record) [];
}

restores_one : restore_workflows sizes saved "second" 30 ≡ ok restored
unfolding restore_workflows restore_records
restores_one = refl

restore_workflows-IsRestored_example : IsRestored restored
restore_workflows-IsRestored_example =
    restore_workflows-IsRestored sizes saved "second" 30 restores_one
