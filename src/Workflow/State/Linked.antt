-- ===== src/Workflow/State/Linked.antt =====
-- src/workflow.rs: each workflow that runs has a cancellation that is listed, and no other has.
use mathlib.Core.Path.{subst}
use master_control_program.Base.{
  ◌≤◌, ◌≡◌, refl, inl, inr, String, Bool, true, false, Option, none, some, length, is_some, str_eq,
  str_eq_iff, arith, Bool-cases, Option-cases,
}
use master_control_program.Base.Map.{
  Map, string_key, get, remove, adjust, Distinct, get-adjust, get-adjust-none, get-remove_ne,
  get-remove_self, Distinct-remove, Distinct-adjust, length-adjust, length-remove_le,
}
use master_control_program.Observation.Wait.{is_running}
use master_control_program.Workflow.State.{
  WorkflowRecord, WorkflowState, max_workflows, max_active, signal,
}

abbrev pub Agrees : {V : Type 0} → Option (WorkflowRecord V) → Option Bool → Type 0
Agrees none c = is_some c ≡ false
Agrees (some r) c = is_some c ≡ is_running r.outcome

pub record IsLinked {V : Type 0} (s : WorkflowState V) : Type 0 where
  pub few : length s.records ≤ max_workflows
  pub active : length s.cancellations ≤ max_active
  pub records : Distinct s.records
  pub cancellations : Distinct s.cancellations
  pub agree : (id : String) → Agrees (get id s.records) (get id s.cancellations)

pub is_some-adjust :
    (id j : String) (f : Bool → Bool) (m : Map String Bool)
    → is_some (get j (adjust id f m)) ≡ is_some (get j m)
is_some-adjust id j f m = elim (Option-cases (get j m)) [
  | inl absent ↦ rw (absent, get-adjust-none id j f m absent) refl
  | inr (b, e) ↦ ground (arith, e, get-adjust id j f m b e)
]

module _ {V : Type 0} where
  -- A change of a record that does not change whether it runs.
  adjust-Agrees :
      (id j : String) (f : WorkflowRecord V → WorkflowRecord V) (m : Map String (WorkflowRecord V))
      (c : Option Bool)
      → ((r : WorkflowRecord V) → is_running (f r).outcome ≡ is_running r.outcome)
      → Agrees (get j m) c
      → Agrees (get j (adjust id f m)) c
  adjust-Agrees id j f m c h a = elim (Option-cases (get j m)) [
    | inl absent ↦ rw (get-adjust-none id j f m absent) (rw absent at a)
    | inr (r, e) ↦ elim (Bool-cases (str_eq id j)) [
      | inl same ↦ rw (get-adjust id j f m r e, same) (ground (arith, rw e at a, h r))
      | inr other ↦ rw (get-adjust id j f m r e, other) (rw e at a)
    ]
  ]

  pub adjust-IsLinked :
      (id : String) (f : WorkflowRecord V → WorkflowRecord V) (s : WorkflowState V)
      → ((r : WorkflowRecord V) → is_running (f r).outcome ≡ is_running r.outcome)
      → IsLinked s
      → IsLinked record s { records = adjust id f s.records }
  adjust-IsLinked id f s h i = record {
    few = omega (arith, length-adjust id f s.records, i.few);
    active = i.active;
    records = Distinct-adjust id f s.records i.records;
    cancellations = i.cancellations;
    agree = λ j. adjust-Agrees id j f s.records (get j s.cancellations) h (i.agree j);
  }

  pub Agrees-is_some :
      (r : Option (WorkflowRecord V)) (c d : Option Bool)
      → is_some d ≡ is_some c
      → Agrees r c
      → Agrees r d
  Agrees-is_some none c d e a = cc
  Agrees-is_some (some r) c d e a = cc

  pub signal-IsLinked : (id : String) (s : WorkflowState V) → IsLinked s → IsLinked (signal id s)
  signal-IsLinked id s i = record {
    few = i.few;
    active = omega (arith, length-adjust id (λ _. true) s.cancellations, i.active);
    records = i.records;
    cancellations = Distinct-adjust id (λ _. true) s.cancellations i.cancellations;
    agree = λ j.
        Agrees-is_some (get j s.records) (get j s.cancellations)
          (get j (adjust id (λ _. true) s.cancellations))
          (is_some-adjust id j (λ _. true) s.cancellations) (i.agree j);
  }

  -- A workflow without a cancellation is removed.
  pub remove-IsLinked :
      (id : String) (s : WorkflowState V)
      → is_some (get id s.cancellations) ≡ false
      → IsLinked s
      → IsLinked record s { records = remove id s.records }
  remove-IsLinked id s h i = record {
    few = omega (arith, length-remove_le id s.records, i.few);
    active = i.active;
    records = Distinct-remove id s.records i.records;
    cancellations = i.cancellations;
    agree = λ j. elim (Bool-cases (str_eq id j)) [
      | inl same ↦
          subst (λ k. Agrees (get k (remove id s.records)) (get k s.cancellations))
            ((str_eq_iff id j).0 same) (rw (get-remove_self id s.records i.records) h)
      | inr other ↦ rw (get-remove_ne id j s.records other) (i.agree j)
    ];
  }
