-- ===== src/Workflow/State/Ended.antt =====
-- src/workflow.rs: what becomes of workflows that are over, and of those that run at a shutdown.
use mathlib.Core.Path.{subst}
use master_control_program.Base.{
  ℕ, ◌≡◌, refl, inl, inr, String, Bool, true, false, Option, none, some, List, [], ◌∷◌, map, keep,
  any, is_some, str_eq, str_eq_iff, ok, arith, Bool-cases, Option-cases, Result-cases, ◌∙◌, ap,
  ok_first, ◌>>◌, persistence_failure,
}
use master_control_program.Base.Map.{
  Map, string_key, get, remove, adjust, values, Distinct, get-adjust, get-adjust-none, get-insert,
  get-remove_ne, get-remove_self, Distinct-adjust,
}
use master_control_program.Observation.Record.{Outcome}
use master_control_program.Observation.Wait.{is_running}
use master_control_program.Workflow.Bindings.{JsonValue}
use master_control_program.Workflow.Execute.{StepResult}
use master_control_program.Workflow.State.{
  WorkflowRecord, WorkflowState, Sizes, start_workflow, started_record, put_step, set_step,
  put_result, replace_step, finish_workflow, ended_record, cancel_workflow, requested, status_of,
  retire_workflow, retire_workflows, shutdown_owner, cancel_workflows, persistence_failed, fail_all,
  is_owned, is_at_risk, with_workflow, check_start, check_room,
}
use master_control_program.Workflow.State.Linked.{IsLinked}
use master_control_program.Workflow.State.Kept.{retire_workflow-IsLinked}
use master_control_program.Workflow.State.Calls.{
  Call, starts, puts_step, puts_result, finishes, cancels, disconnects, shuts_down, loses_disk,
  get-signaled, ok-injective,
}

-- The record is forgotten, or is as it was in how and when it ended.
abbrev pub EndsAs : {V : Type 0} → WorkflowRecord V → Option (WorkflowRecord V) → Type 0
EndsAs r none = Unit
EndsAs r (some q) = (q.outcome ≡ r.outcome) × (q.finished_at_unix_ms ≡ r.finished_at_unix_ms)

module _ {V : Type 0} where
  -- A change that leaves records alone that are over.
  abbrev KeepsEnded : (WorkflowRecord V → WorkflowRecord V) → Type 0
  KeepsEnded f = (q : WorkflowRecord V) → is_running q.outcome ≡ false → EndsAs q (some (f q))

  adjust-EndsAs :
      (id j : String) (f : WorkflowRecord V → WorkflowRecord V) (m : Map String (WorkflowRecord V))
      (r : WorkflowRecord V)
      → is_running r.outcome ≡ false
      → KeepsEnded f
      → EndsAs r (get id m)
      → EndsAs r (get id (adjust j f m))
  adjust-EndsAs id j f m r over k e = elim (Option-cases (get id m)) [
    | inl absent ↦ rw (get-adjust-none j id f m absent) tt
    | inr (q, found) ↦
        let same = rw found at e in
        let g = get-adjust j id f m q found in
        elim (Bool-cases (str_eq j id)) [
          | inl here ↦
              let kept = k q (ap is_running same.0 ∙ over) in
              rw (g, here) (kept.0 ∙ same.0, kept.1 ∙ same.1)
          | inr other ↦ rw (g, other) same
        ]
  ]

  remove-EndsAs :
      (id j : String) (m : Map String (WorkflowRecord V)) (r : WorkflowRecord V)
      → Distinct m
      → EndsAs r (get id m)
      → EndsAs r (get id (remove j m))
  remove-EndsAs id j m r d e = elim (Bool-cases (str_eq j id)) [
    | inl same ↦
        subst (λ k. EndsAs r (get k (remove j m))) ((str_eq_iff j id).0 same)
          (rw (get-remove_self j m d) tt)
    | inr other ↦ rw (get-remove_ne j id m other) e
  ]

  finish_workflow-EndsAs :
      (id j : String) (outcome : Outcome) (error : Option String) (now : ℕ) (s : WorkflowState V)
      (r : WorkflowRecord V)
      → is_running r.outcome ≡ false
      → IsLinked s
      → EndsAs r (get id s.records)
      → EndsAs r (get id (finish_workflow j outcome error now s).records)
  unfolding finish_workflow
  finish_workflow-EndsAs id j outcome error now s r over i e =
      let f = ended_record s.persistence_error outcome error now in
      let a = adjust-EndsAs id j f s.records r over (λ q o. rw o (refl, refl)) e in
      elim (Bool-cases (any (λ other. str_eq other j) s.retired)) [
        | inl retired ↦
            rw (retired, finish_workflow)
              (remove-EndsAs id j (adjust j f s.records) r (Distinct-adjust j f s.records i.records)
                a)
        | inr kept ↦ rw (kept, finish_workflow) a
      ]

  cancel_workflow-EndsAs :
      (id j owner : String) (forget : Bool) (s : WorkflowState V) (r : WorkflowRecord V)
      → is_running r.outcome ≡ false
      → IsLinked s
      → EndsAs r (get id s.records)
      → EndsAs r (get id (cancel_workflow j owner forget s).0.records)
  unfolding cancel_workflow
  cancel_workflow-EndsAs id j owner forget s r over i e =
      let a = adjust-EndsAs id j requested s.records r over (λ q o. rw o (refl, refl)) e in
      elim (Result-cases (status_of j owner s)) [
        | inl (why, refused) ↦ rw (refused, cancel_workflow) e
        | inr (q, seen) ↦ elim (Bool-cases forget) [
          | inl forgets ↦ elim (Bool-cases (is_running q.outcome)) [
            | inl live ↦ rw (seen, forgets, live, cancel_workflow) a
            | inr done ↦
                rw (seen, forgets, done, cancel_workflow)
                  (remove-EndsAs id j (adjust j requested s.records) r
                    (Distinct-adjust j requested s.records i.records) a)
          ]
          | inr keeps ↦ rw (seen, keeps, cancel_workflow) a
        ]
      ]

  retire_workflows-EndsAs :
      (id : String) (ids : List String) (s : WorkflowState V) (r : WorkflowRecord V)
      → IsLinked s
      → EndsAs r (get id s.records)
      → EndsAs r (get id (retire_workflows ids s).records)
  unfolding retire_workflows retire_workflow
  retire_workflows-EndsAs id [] s r i e = e
  retire_workflows-EndsAs id (j ∷ ids) s r i e =
      retire_workflows-EndsAs id ids (retire_workflow j s) r (retire_workflow-IsLinked j s i)
        (elim (Option-cases (get j s.cancellations)) [
          | inl absent ↦ rw (absent, retire_workflow) (remove-EndsAs id j s.records r i.records e)
          | inr (c, found) ↦ rw (found, retire_workflow) e
        ])

  fail_all-EndsAs :
      (id error : String) (ids : List String) (s : WorkflowState V) (r : WorkflowRecord V)
      → is_running r.outcome ≡ false
      → EndsAs r (get id s.records)
      → EndsAs r (get id (fail_all error ids s).records)
  unfolding fail_all
  fail_all-EndsAs id error [] s r over e = e
  fail_all-EndsAs id error (j ∷ ids) s r over e = fail_all-EndsAs id error ids _ r over (
      adjust-EndsAs id j (λ q. record q { error = some (persistence_failure error) }) s.records r
        over (λ q o. (refl, refl)) e)

  -- When the host shuts down, the cancellation of each workflow that runs is listed and signaled,
  -- if the cancellations that are listed are those of the workflows that run.
  pub cancel_workflows-signals :
      (id : String) (s : WorkflowState V) {r : WorkflowRecord V}
      → IsLinked s
      → get id (cancel_workflows s).records ≡ some r
      → is_running r.outcome ≡ true
      → get id (cancel_workflows s).cancellations ≡ some true
  unfolding cancel_workflows
  cancel_workflows-signals id s i found live =
      let listed : is_some (get id s.cancellations) ≡ true = rw found at (i.agree id) ∙ live in
      get-signaled id s.cancellations ∙ rw listed refl

  put_result-EndsAs :
      (sizes : Sizes V) (id j : String) (result : StepResult V) (s : WorkflowState V)
      {t : WorkflowState V} (r : WorkflowRecord V)
      → is_running r.outcome ≡ false
      → EndsAs r (get id s.records)
      → put_result sizes j result s ≡ ok t
      → EndsAs r (get id t.records)
  unfolding put_result
  put_result-EndsAs sizes id j result s {t} r over e h = elim (Option-cases (get j s.records)) [
    | inl absent ↦ absurd (ground arith)
    | inr (q, found) ↦ elim (Option-cases (replace_step result q.steps)) [
      | inl missing ↦ absurd (ground arith)
      | inr (steps, p) ↦
          let f : WorkflowRecord V → WorkflowRecord V = λ q. record q { steps = steps } in
          subst (λ u. EndsAs r (get id u.records)) {x = record s { records = adjust j f s.records }}
            {y = t} (ground arith) (adjust-EndsAs id j f s.records r over (λ q o. (refl, refl)) e)
    ]
  ]

  with_workflow-EndsAs :
      (id : String) (w : WorkflowRecord V) (s : WorkflowState V) (r : WorkflowRecord V)
      → get w.id s.records ≡ none
      → get id s.records ≡ some r
      → EndsAs r (get id (with_workflow w s).records)
  with_workflow-EndsAs id w s r fresh found = elim (Bool-cases (str_eq w.id id)) [
    | inl same ↦ absurd (cc (fresh, found, (str_eq_iff w.id id).0 same))
    | inr other ↦ rw (get-insert w.id id w s.records, other, found) (refl, refl)
  ]

module _ {V : Type 0} (json : JsonValue V) (has_tool : String → Bool) (sizes : Sizes V) where
  -- A workflow that is over, in a state where the cancellations that are listed are those of the
  -- workflows that run, is forgotten by a call or keeps its outcome and the time of its end.
  pub Call-EndsAs :
      (id : String) (r : WorkflowRecord V) {s t : WorkflowState V}
      → Call json has_tool sizes s t
      → IsLinked s
      → get id s.records ≡ some r
      → is_running r.outcome ≡ false
      → EndsAs r (get id t.records)
  unfolding start_workflow put_step shutdown_owner cancel_workflows persistence_failed
  Call-EndsAs id r (starts input owner now new cursor connected s t fresh h) i found over =
      let w = started_record s input owner now new cursor in
      let p =
        ok_first (check_start json has_tool sizes input s >> check_room sizes w connected s)
          (ok (with_workflow w s)) h in
      subst (λ u. EndsAs r (get id u.records)) (ok-injective p.1)
        (with_workflow-EndsAs id w s r fresh found)
  Call-EndsAs id r (puts_step j result s) i found over =
      adjust-EndsAs id j (set_step result) s.records r over (λ q o. (refl, refl))
        (rw found (refl, refl))
  Call-EndsAs id r (puts_result j result s t h) i found over =
      put_result-EndsAs sizes id j result s r over (rw found (refl, refl)) h
  Call-EndsAs id r (finishes j outcome error now s h) i found over =
      finish_workflow-EndsAs id j outcome error now s r over i (rw found (refl, refl))
  Call-EndsAs id r (cancels j owner forget s) i found over =
      cancel_workflow-EndsAs id j owner forget s r over i (rw found (refl, refl))
  Call-EndsAs id r (disconnects owner s) i found over =
      retire_workflows-EndsAs id (map (λ q. q.id) (keep (is_owned owner) (values s.records))) s r i
        (rw found (refl, refl))
  Call-EndsAs id r (shuts_down s) i found over = rw found (refl, refl)
  Call-EndsAs id r (loses_disk error s) i found over =
      fail_all-EndsAs id error (map (λ q. q.id) (keep is_at_risk (values s.records)))
        record s { persistence_error = some error } r over (rw found (refl, refl))
