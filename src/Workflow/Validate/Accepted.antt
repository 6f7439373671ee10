-- ===== src/Workflow/Validate/Accepted.antt =====
-- src/workflow.rs: what holds of a workflow that `validate` accepted.
use master_control_program.Base.{
  ℕ, ◌≤◌, ◌≡◌, refl, String, Bool, false, not, List, [], ◌∷◌, length, in_range, str_eq, arith,
  Result, ok, err, ensure, ◌>>◌, len, leb, ◌||◌, ok_first,
}
use master_control_program.Base.Map.{Map}
use master_control_program.Workflow.Bindings.{
  JsonValue, BindingError, validate_bindings, levels, resolve,
}
use master_control_program.Workflow.Bindings.Resolved.{Settles, resolve-Settles, AllOf}
use master_control_program.Workflow.Validate.{
  DeclaredStep, StartInput, StartError, from_binding, is_named, arguments_of, validate_tool,
  validate_step, validate_steps, validate_workflow, max_steps, max_definition_bytes,
}
use master_control_program.Observation.Record.{max_duration_ms}

-- No two of the steps have one name.
abbrev pub DistinctNames : {V : Type 0} → List (DeclaredStep V) → Type 0
DistinctNames [] = Unit
DistinctNames (step ∷ steps) =
    AllOf (λ other. str_eq step.name other.name ≡ false) steps × DistinctNames steps

module _ {V : Type 0} (json : JsonValue V) (has_tool : String → Bool) where
  -- Whatever results the earlier steps had, the arguments are resolved, or a result is unavailable.
  abbrev pub ArgumentsSettle : DeclaredStep V → Type 0
  ArgumentsSettle step =
      (previous : Map String V)
      → Settles (resolve json levels (json.from_object (arguments_of step.operation)) previous)

  pub record IsAccepted (input : StartInput V) : Type 0 where
    pub some_steps : 1 ≤ length input.steps
    pub few_steps : length input.steps ≤ max_steps
    pub distinct : DistinctNames input.steps
    pub times :
        AllOf (λ step. (1 ≤ step.timeout_ms) × (step.timeout_ms ≤ max_duration_ms)) input.steps
    pub settle : AllOf ArgumentsSettle input.steps

  record IsStep (names : List String) (step : DeclaredStep V) : Type 0 where
    pub fresh : is_named step.name names ≡ false
    pub low : 1 ≤ step.timeout_ms
    pub high : step.timeout_ms ≤ max_duration_ms
    pub settles : ArgumentsSettle step

  from_binding-ok : (r : Result BindingError (Unit {0})) → from_binding r ≡ ok tt → r ≡ ok tt
  from_binding-ok (ok tt) h = refl
  from_binding-ok (err e) h = cc

  validate_step-IsStep :
      (names : List String) (step : DeclaredStep V)
      → validate_step json has_tool names step ≡ ok tt
      → IsStep names step
  unfolding validate_step
  validate_step-IsStep names step h =
      let bound =
        from_binding
          (validate_bindings json levels (json.from_object (arguments_of step.operation)) names) in
      let unused = ensure (not (is_named step.name names)) StartError.duplicate_step in
      let named = ensure (in_range 1 64 (len step.name)) StartError.bad_step_name in
      let timed = ensure (in_range 1 max_duration_ms step.timeout_ms) StartError.bad_step_timeout in
      let tool = validate_tool has_tool step.operation in
      let p = ok_first (named >> timed >> tool >> bound) unused h in
      let q = ok_first (named >> timed >> tool) bound p.0 in
      let t = ok_first named timed (ok_first (named >> timed) tool q.0).0 in
      record {
        fresh = ground (arith, p.1, not);
        low = ground (arith, t.1);
        high = ground (arith, t.1);
        settles = λ previous.
            resolve-Settles json levels (json.from_object (arguments_of step.operation)) names
              previous (from_binding-ok _ q.1);
      }

  -- The steps that follow those that have `names`.
  record AreSteps (names : List String) (steps : List (DeclaredStep V)) : Type 0 where
    pub fresh : AllOf (λ step. is_named step.name names ≡ false) steps
    pub distinct : DistinctNames steps
    pub times : AllOf (λ step. (1 ≤ step.timeout_ms) × (step.timeout_ms ≤ max_duration_ms)) steps
    pub settle : AllOf ArgumentsSettle steps

  fresh-tail :
      (name : String) (names : List String) (steps : List (DeclaredStep V))
      → AllOf (λ step. is_named step.name (name ∷ names) ≡ false) steps
      → AllOf (λ step. is_named step.name names ≡ false) steps
        × AllOf (λ other. str_eq name other.name ≡ false) steps
  fresh-tail name names [] a = (tt, tt)
  fresh-tail name names (step ∷ steps) a =
      let t = fresh-tail name names steps a.1 in
      ((ground (arith, ◌||◌, a.0), t.0), (ground (arith, ◌||◌, a.0), t.1))

  validate_steps-AreSteps :
      (names : List String) (steps : List (DeclaredStep V))
      → validate_steps json has_tool names steps ≡ ok tt
      → AreSteps names steps
  unfolding validate_steps
  validate_steps-AreSteps names [] h = record { fresh = tt; distinct = tt; times = tt; settle = tt }
  validate_steps-AreSteps names (step ∷ steps) h =
      let p = ok_first _ _ h in
      let s = validate_step-IsStep names step p.0 in
      let rest = validate_steps-AreSteps (step.name ∷ names) steps p.1 in
      let f = fresh-tail step.name names steps rest.fresh in
      record {
        fresh = (s.fresh, f.0);
        distinct = (f.1, rest.distinct);
        times = ((s.low, s.high), rest.times);
        settle = (s.settles, rest.settle);
      }

  -- A workflow that is accepted has 1 to 32 steps with distinct names and timeouts of at most 24
  -- hours, and whatever results the earlier steps had, the arguments of each step are resolved, or
  -- a result that they bind is unavailable.
  pub validate_workflow-IsAccepted :
      (size : StartInput V → ℕ) (input : StartInput V)
      → validate_workflow json has_tool size input ≡ ok tt
      → IsAccepted input
  unfolding validate_workflow
  validate_workflow-IsAccepted size input h =
      let named = ensure (in_range 1 128 (len input.name)) StartError.bad_name in
      let timed = ensure (in_range 1 max_duration_ms input.timeout_ms) StartError.bad_timeout in
      let counted = ensure (in_range 1 max_steps (length input.steps)) StartError.bad_steps in
      let short = ensure (leb (size input) max_definition_bytes) StartError.too_long in
      let p =
        ok_first (named >> timed >> counted >> short) (validate_steps json has_tool [] input.steps)
          h in
      let q =
        ok_first (named >> timed) counted (ok_first (named >> timed >> counted) short p.0).0 in
      let s = validate_steps-AreSteps [] input.steps p.1 in
      record {
        some_steps = ground (arith, q.1);
        few_steps = ground (arith, q.1);
        distinct = s.distinct;
        times = s.times;
        settle = s.settle;
      }
