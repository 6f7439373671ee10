-- ===== src/Workflow/State/Calls.antt =====
-- src/workflow.rs: the calls that change a `WorkflowState`, in any order.
use mathlib.Core.Path.{subst}
use master_control_program.Base.{
  ℕ, suc, ◌<◌, ◌≡◌, refl, sym, inl, inr, String, Bool, true, false, Option, none, some, [], ◌∷◌,
  map, length, is_some, str_eq, if◌then◌else◌, Result, ok, err, arith, Bool-cases, ◌∙◌, keep, ap,
  ok_first, ◌>>◌,
}
use master_control_program.Base.Map.{
  Map, string_key, get, values, Distinct, get-insert, Distinct-insert, length-insert_le,
}
use master_control_program.Observation.Record.{Outcome, Cursor}
use master_control_program.Observation.Wait.{is_running}
use master_control_program.Workflow.Bindings.{JsonValue}
use master_control_program.Workflow.Execute.{StepResult}
use master_control_program.Workflow.Validate.{StartInput}
use master_control_program.Workflow.State.{
  WorkflowRecord, WorkflowState, Sizes, start_workflow, started_record, put_step, put_result,
  finish_workflow, cancel_workflow, shutdown_owner, cancel_workflows, persistence_failed, is_owned,
  is_at_risk, check_start, check_room, with_workflow, max_workflows, max_active,
}
use master_control_program.Workflow.State.Linked.{IsLinked, Agrees-is_some}
use master_control_program.Workflow.State.Kept.{
  put_step-IsLinked, put_result-IsLinked, finish_workflow-IsLinked, cancel_workflow-IsLinked,
  retire_workflows-IsLinked, fail_all-IsLinked,
}

abbrev pub signaled : String × Bool → String × Bool
signaled c = (c.0, true)

pub get-signaled :
    (id : String) (m : Map String Bool)
    → get id (map signaled m) ≡ (if is_some (get id m) then some true else none)
unfolding get
get-signaled id [] = refl
get-signaled id ((k, b) ∷ m) = ground (arith, get-signaled id m)

length-signaled : (m : Map String Bool) → length (map signaled m) ≡ length m
length-signaled [] = refl
length-signaled (c ∷ m) = ap suc (length-signaled m)

Distinct-signaled : (m : Map String Bool) → Distinct m → Distinct (map signaled m)
Distinct-signaled [] d = tt
Distinct-signaled ((k, b) ∷ m) d = (get-signaled k m ∙ rw d.0 refl, Distinct-signaled m d.1)

pub ok-injective : {E A : Type 0} {x y : A} → ◌≡◌ {A = Result E A} (ok x) (ok y) → x ≡ y
ok-injective {E} {A} {x} {y} h = ap (λ (r : Result E A). elim r [ ok a ↦ a | err e ↦ x ]) h

module _ {V : Type 0} where
  abbrev pub new_state : String → Bool → WorkflowState V
  new_state epoch persistent_enabled = record {
    epoch = epoch;
    persistent_enabled = persistent_enabled;
    records = [];
    cancellations = [];
    retired = [];
    persistence_error = none;
  }

  pub new_state-IsLinked : (epoch : String) (enabled : Bool) → IsLinked (new_state epoch enabled)
  unfolding get
  new_state-IsLinked epoch enabled = record {
    few = omega arith;
    active = omega arith;
    records = tt;
    cancellations = tt;
    agree = λ id. refl;
  }

  cancel_workflows-IsLinked : (s : WorkflowState V) → IsLinked s → IsLinked (cancel_workflows s)
  unfolding cancel_workflows
  cancel_workflows-IsLinked s i = record {
    few = i.few;
    active = omega (arith, length-signaled s.cancellations, i.active);
    records = i.records;
    cancellations = Distinct-signaled s.cancellations i.cancellations;
    agree = λ id.
        Agrees-is_some (get id s.records) (get id s.cancellations)
          (get id (map signaled s.cancellations)) (ground (arith, get-signaled id s.cancellations))
          (i.agree id);
  }

  with_workflow-IsLinked :
      (r : WorkflowRecord V) (s : WorkflowState V)
      → is_running r.outcome ≡ true
      → length s.records < max_workflows
      → length s.cancellations < max_active
      → IsLinked s
      → IsLinked (with_workflow r s)
  with_workflow-IsLinked r s live few active i = record {
    few = omega (arith, length-insert_le r.id r s.records, few);
    active = omega (arith, length-insert_le r.id false s.cancellations, active);
    records = Distinct-insert r.id r s.records i.records;
    cancellations = Distinct-insert r.id false s.cancellations i.cancellations;
    agree = λ j. elim (Bool-cases (str_eq r.id j)) [
      | inl same ↦
          rw (get-insert r.id j r s.records, get-insert r.id j false s.cancellations, same)
            (sym live)
      | inr other ↦
          rw (get-insert r.id j r s.records, get-insert r.id j false s.cancellations, other)
            (i.agree j)
    ];
  }

  check_room-ok :
      (sizes : Sizes V) (r : WorkflowRecord V) (connected : Bool) (s : WorkflowState V)
      → check_room sizes r connected s ≡ ok tt
      → (length s.records < max_workflows) × (length s.cancellations < max_active)
  unfolding check_room
  check_room-ok sizes r connected s h = (ground arith, ground arith)

module _ {V : Type 0} (json : JsonValue V) (has_tool : String → Bool) (sizes : Sizes V) where
  start_workflow-IsLinked :
      (input : StartInput V) (owner : String) (now : ℕ) (id : String) (cursor : Cursor)
      (connected : Bool) (s : WorkflowState V) {t : WorkflowState V}
      → IsLinked s
      → start_workflow json has_tool sizes input owner now id cursor connected s ≡ ok t
      → IsLinked t
  unfolding start_workflow
  start_workflow-IsLinked input owner now id cursor connected s {t} i h =
      let r = started_record s input owner now id cursor in
      let p =
        ok_first (check_start json has_tool sizes input s >> check_room sizes r connected s)
          (ok (with_workflow r s)) h in
      let q =
        ok_first (check_start json has_tool sizes input s) (check_room sizes r connected s) p.0 in
      let (few, active) = check_room-ok sizes r connected s q.1 in
      subst IsLinked {x = with_workflow r s} {y = t} (ok-injective p.1)
        (with_workflow-IsLinked r s refl few active i)

  pub data Call : WorkflowState V → WorkflowState V → Type 0 where
    starts :
        (input : StartInput V) (owner : String) (now : ℕ) (id : String) (cursor : Cursor)
        (connected : Bool) (s t : WorkflowState V)
        → get id s.records ≡ none
        → start_workflow json has_tool sizes input owner now id cursor connected s ≡ ok t
        → Call s t
    puts_step :
        (id : String) (result : StepResult V) (s : WorkflowState V) → Call s (put_step id result s)
    puts_result :
        (id : String) (result : StepResult V) (s t : WorkflowState V)
        → put_result sizes id result s ≡ ok t
        → Call s t
    finishes :
        (id : String) (outcome : Outcome) (error : Option String) (now : ℕ) (s : WorkflowState V)
        → is_running outcome ≡ false
        → Call s (finish_workflow id outcome error now s)
    cancels :
        (id owner : String) (forget : Bool) (s : WorkflowState V)
        → Call s (cancel_workflow id owner forget s).0
    disconnects : (owner : String) (s : WorkflowState V) → Call s (shutdown_owner owner s)
    shuts_down : (s : WorkflowState V) → Call s (cancel_workflows s)
    loses_disk : (error : String) (s : WorkflowState V) → Call s (persistence_failed error s)

  pub data Calls : WorkflowState V → WorkflowState V → Type 0 where
    done : (s : WorkflowState V) → Calls s s
    call : (s t u : WorkflowState V) → Call s t → Calls t u → Calls s u

  Call-IsLinked : {s t : WorkflowState V} → Call s t → IsLinked s → IsLinked t
  unfolding shutdown_owner persistence_failed
  Call-IsLinked (starts input owner now id cursor connected s t fresh h) i =
      start_workflow-IsLinked input owner now id cursor connected s i h
  Call-IsLinked (puts_step id result s) i = put_step-IsLinked id result s i
  Call-IsLinked (puts_result id result s t h) i = put_result-IsLinked sizes id result s i h
  Call-IsLinked (finishes id outcome error now s h) i =
      finish_workflow-IsLinked id outcome error now s h i
  Call-IsLinked (cancels id owner forget s) i = cancel_workflow-IsLinked id owner forget s i
  Call-IsLinked (disconnects owner s) i =
      retire_workflows-IsLinked (map (λ r. r.id) (keep (is_owned owner) (values s.records))) s i
  Call-IsLinked (shuts_down s) i = cancel_workflows-IsLinked s i
  Call-IsLinked (loses_disk error s) i =
      fail_all-IsLinked error (map (λ r. r.id) (keep is_at_risk (values s.records)))
        record s { persistence_error = some error }
        record {
          few = i.few;
          active = i.active;
          records = i.records;
          cancellations = i.cancellations;
          agree = i.agree;
        }

  -- Whatever calls change the state of the workflows, in any order, if no workflow is ended as
  -- running and each starts under a new identifier, at most 64 workflows and 16 cancellations are
  -- listed, and a cancellation is listed just for each workflow that runs, if that held before.
  pub Calls-IsLinked : {s t : WorkflowState V} → Calls s t → IsLinked s → IsLinked t
  Calls-IsLinked (done s) i = i
  Calls-IsLinked (call s t u c cs) i = Calls-IsLinked cs (Call-IsLinked c i)
