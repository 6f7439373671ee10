-- ===== src/Workflow/State/Kept.antt =====
-- src/workflow.rs: what each operation does to the cancellations that are listed.
use mathlib.Core.Path.{subst}
use master_control_program.Base.{
  ℕ, ◌≡◌, refl, sym, inl, inr, String, Bool, true, false, not, ◌&&◌, Option, some, List, [], ◌∷◌,
  any, keep, is_some, str_eq, str_eq_iff, ok, arith, Bool-cases, Option-cases, Result-cases, ◌∙◌,
  persistence_failure,
}
use master_control_program.Base.Map.{
  string_key, get, remove, adjust, get-adjust, get-adjust-none, get-remove_ne, get-remove_self,
  Distinct-remove, Distinct-adjust, length-adjust, length-remove_le,
}
use master_control_program.Observation.Record.{Outcome}
use master_control_program.Observation.Wait.{is_running}
use master_control_program.Workflow.Execute.{StepResult}
use master_control_program.Workflow.State.{
  WorkflowRecord, WorkflowState, put_step, set_step, put_result, finish_workflow, ended_record,
  cancel_workflow, requested, retire_workflow, retire_workflows, signal, Sizes, status_of, fail_all,
  replace_step,
}
use master_control_program.Workflow.State.Linked.{
  IsLinked, Agrees, is_some-adjust, adjust-IsLinked, signal-IsLinked, remove-IsLinked,
}

module _ {V : Type 0} where
  pub put_step-IsLinked :
      (id : String) (result : StepResult V) (s : WorkflowState V)
      → IsLinked s
      → IsLinked (put_step id result s)
  unfolding put_step
  put_step-IsLinked id result s i = adjust-IsLinked id (set_step result) s (λ r. refl) i

  pub put_result-IsLinked :
      (sizes : Sizes V) (id : String) (result : StepResult V) (s : WorkflowState V)
      {t : WorkflowState V}
      → IsLinked s
      → put_result sizes id result s ≡ ok t
      → IsLinked t
  unfolding put_result
  put_result-IsLinked sizes id result s {t} i h = elim (Option-cases (get id s.records)) [
    | inl absent ↦ absurd (ground arith)
    | inr (r, e) ↦ elim (Option-cases (replace_step result r.steps)) [
      | inl missing ↦ absurd (ground arith)
      | inr (steps, p) ↦
          subst IsLinked
            {x = record s { records = adjust id (λ q. record q { steps = steps }) s.records }}
            {y = t} (ground arith)
            (adjust-IsLinked id (λ q. record q { steps = steps }) s (λ q. refl) i)
    ]
  ]

  ended_record-outcome :
      (p : Option String) (outcome : Outcome) (error : Option String) (now : ℕ)
      (r : WorkflowRecord V)
      → is_running outcome ≡ false
      → is_running (ended_record p outcome error now r).outcome ≡ false
  ended_record-outcome p outcome error now r h = ground (arith, ◌&&◌)

  -- The records and cancellations after the end of a workflow.
  finished-Agrees :
      (id j : String) (f : WorkflowRecord V → WorkflowRecord V) (s : WorkflowState V)
      → ((r : WorkflowRecord V) → is_running (f r).outcome ≡ false)
      → IsLinked s
      → Agrees (get j (adjust id f s.records)) (get j (remove id s.cancellations))
  finished-Agrees id j f s h i = elim (Bool-cases (str_eq id j)) [
    | inl same ↦
        subst (λ k. Agrees (get k (adjust id f s.records)) (get k (remove id s.cancellations)))
          ((str_eq_iff id j).0 same)
          (rw (get-remove_self id s.cancellations i.cancellations)
            (elim (Option-cases (get id s.records)) [
              | inl absent ↦ rw (get-adjust-none id id f s.records absent) refl
              | inr (r, e) ↦
                  let self = (str_eq_iff id id).1 refl in
                  rw (get-adjust id id f s.records r e, self) (sym (h r))
            ]))
    | inr other ↦
        rw (get-remove_ne id j s.cancellations other) (elim (Option-cases (get j s.records)) [
          | inl absent ↦ rw (get-adjust-none id j f s.records absent) (rw absent at (i.agree j))
          | inr (r, e) ↦ rw (get-adjust id j f s.records r e, other) (rw e at (i.agree j))
        ])
  ]

  pub finish_workflow-IsLinked :
      (id : String) (outcome : Outcome) (error : Option String) (now : ℕ) (s : WorkflowState V)
      → is_running outcome ≡ false
      → IsLinked s
      → IsLinked (finish_workflow id outcome error now s)
  unfolding finish_workflow
  finish_workflow-IsLinked id outcome error now s h i =
      let f = ended_record s.persistence_error outcome error now in
      let q : IsLinked record s {
        records = adjust id f s.records;
        cancellations = remove id s.cancellations;
        retired = keep (λ other. not (str_eq other id)) s.retired;
      } =
        record {
          few = omega (arith, length-adjust id f s.records, i.few);
          active = omega (arith, length-remove_le id s.cancellations, i.active);
          records = Distinct-adjust id f s.records i.records;
          cancellations = Distinct-remove id s.cancellations i.cancellations;
          agree = λ j.
              finished-Agrees id j f s
                (λ r. ended_record-outcome s.persistence_error outcome error now r h) i;
        } in
      elim (Bool-cases (any (λ other. str_eq other id) s.retired)) [
        | inl retired ↦
            rw (retired, finish_workflow)
              (remove-IsLinked id _ (rw (get-remove_self id s.cancellations i.cancellations) refl)
                q)
        | inr kept ↦ rw (kept, finish_workflow) q
      ]

  requested-outcome :
      (r : WorkflowRecord V) → is_running (requested r).outcome ≡ is_running r.outcome
  requested-outcome r = ground arith

  pub status_of-get :
      (id owner : String) (s : WorkflowState V) {r : WorkflowRecord V}
      → status_of id owner s ≡ ok r
      → get id s.records ≡ some r
  unfolding status_of
  status_of-get id owner s {r} h = elim (Option-cases (get id s.records)) [
    | inl absent ↦ absurd (ground arith)
    | inr (q, e) ↦ e ∙ ground arith
  ]

  -- A workflow that is over has no cancellation.
  pub over-no_cancellation :
      (id : String) (s : WorkflowState V) {r : WorkflowRecord V}
      → IsLinked s
      → get id s.records ≡ some r
      → is_running r.outcome ≡ false
      → is_some (get id s.cancellations) ≡ false
  over-no_cancellation id s i e h = rw e at (i.agree id) ∙ h

  pub cancel_workflow-IsLinked :
      (id owner : String) (forget : Bool) (s : WorkflowState V)
      → IsLinked s
      → IsLinked (cancel_workflow id owner forget s).0
  unfolding cancel_workflow
  cancel_workflow-IsLinked id owner forget s i =
      let t =
        adjust-IsLinked id requested (signal id s) requested-outcome (signal-IsLinked id s i) in
      elim (Result-cases (status_of id owner s)) [
        | inl (e, refused) ↦ rw (refused, cancel_workflow) i
        | inr (r, seen) ↦ elim (Bool-cases forget) [
          | inl forgets ↦ elim (Bool-cases (is_running r.outcome)) [
            | inl live ↦ rw (seen, forgets, live, cancel_workflow) t
            | inr over ↦
                rw (seen, forgets, over, cancel_workflow)
                  (remove-IsLinked id _
                    (is_some-adjust id id (λ _. true) s.cancellations
                      ∙ over-no_cancellation id s i (status_of-get id owner s seen) over)
                    t)
          ]
          | inr keeps ↦ rw (seen, keeps, cancel_workflow) t
        ]
      ]

  pub retire_workflow-IsLinked :
      (id : String) (s : WorkflowState V) → IsLinked s → IsLinked (retire_workflow id s)
  unfolding retire_workflow
  retire_workflow-IsLinked id s i = elim (Option-cases (get id s.cancellations)) [
    | inl absent ↦ rw (absent, retire_workflow) (remove-IsLinked id s (rw absent refl) i)
    | inr (c, e) ↦
        rw (e, retire_workflow)
          (let q = signal-IsLinked id s i in
            record {
              few = q.few;
              active = q.active;
              records = q.records;
              cancellations = q.cancellations;
              agree = q.agree;
            })
  ]

  pub retire_workflows-IsLinked :
      (ids : List String) (s : WorkflowState V) → IsLinked s → IsLinked (retire_workflows ids s)
  unfolding retire_workflows
  retire_workflows-IsLinked [] s i = i
  retire_workflows-IsLinked (id ∷ ids) s i =
      retire_workflows-IsLinked ids (retire_workflow id s) (retire_workflow-IsLinked id s i)

  pub fail_all-IsLinked :
      (error : String) (ids : List String) (s : WorkflowState V)
      → IsLinked s
      → IsLinked (fail_all error ids s)
  unfolding fail_all
  fail_all-IsLinked error [] s i = i
  fail_all-IsLinked error (id ∷ ids) s i = fail_all-IsLinked error ids _ (
      adjust-IsLinked id (λ r. record r { error = some (persistence_failure error) }) (signal id s)
        (λ r. refl) (signal-IsLinked id s i))
