-- ===== src/Workflow/Snapshot.antt =====
-- src/workflow.rs: `snapshot` and `restore`, the workflows that a restart of the host finds again.
use mathlib.Core.Path.{subst}
use mathlib.Core.Option.{some-injective}
use master_control_program.Base.{
  ℕ, suc, ◌+◌, ◌≤◌, ◌≡◌, refl, sym, inl, inr, String, Bool, true, false, ◌&&◌, some, List, [], ◌∷◌,
  map, keep, length, leb, ◌==◌, str_eq, if◌then◌else◌, Result, ok, ensure, ◌>>◌, ok_first, arith,
  Bool-cases, is_some, ◌∙◌,
}
use master_control_program.Base.Map.{
  Map, string_key, get, insert, values, get-insert, Distinct-insert, length-insert_le,
}
use master_control_program.Observation.Record.{failed, is_persistent}
use master_control_program.Observation.Wait.{is_running}
use master_control_program.Workflow.Execute.{StepResult}
use master_control_program.Workflow.State.{
  WorkflowRecord, WorkflowState, WorkflowError, Sizes, max_workflows, max_state_bytes, bad_version,
  bad_snapshot, connection_owned,
}
use master_control_program.Workflow.State.Linked.{IsLinked}
use master_control_program.Workflow.State.Calls.{new_state, new_state-IsLinked, ok-injective}

pub record WorkflowSnapshot (V : Type 0) : Type 0 where
  pub version : ℕ
  pub epoch : String
  pub records : List (WorkflowRecord V)

none_listed : (j : String) (m : Map String Bool) → m ≡ [] → is_some (get j m) ≡ false
unfolding get
none_listed j m e = rw e refl

module _ {V : Type 0} where
  abbrev pub is_kept : WorkflowRecord V → Bool
  is_kept r = is_persistent r.input.lifetime

  unfoldable pub snapshot_of : WorkflowState V → WorkflowSnapshot V
  snapshot_of s = record { version = 1; epoch = s.epoch; records = keep is_kept (values s.records) }

  abbrev pub interrupted_step : ℕ → StepResult V → StepResult V
  interrupted_step now step =
      if is_running step.outcome
      then record step {
        outcome = failed;
        finished_at_unix_ms = some now;
        action_may_have_completed = true;
        error = some "host restarted during step; application side effects are unknown";
      }
      else step

  -- A workflow that ran is interrupted, and nothing of it is run again.
  unfoldable pub interrupted_record : ℕ → WorkflowRecord V → WorkflowRecord V
  interrupted_record now r =
      if is_running r.outcome
      then record r {
        outcome = failed;
        finished_at_unix_ms = some now;
        error = some "host restarted; workflow interrupted and no action replayed";
        steps = map (interrupted_step now) r.steps;
      }
      else r

  unfoldable pub restore_records :
      ℕ → List (WorkflowRecord V) → WorkflowState V → Result WorkflowError (WorkflowState V)
  restore_records now [] s = ok s
  restore_records now (r ∷ rs) s =
      ensure (is_kept r) connection_owned
      >> restore_records now rs
          record s { records = insert r.id (interrupted_record now r) s.records }

  unfoldable pub restore_workflows :
      Sizes V → WorkflowSnapshot V → String → ℕ → Result WorkflowError (WorkflowState V)
  restore_workflows sizes snapshot epoch now =
      ensure (snapshot.version == 1) bad_version
      >> ensure
          (leb (length snapshot.records) max_workflows
            && leb (sizes.snapshot snapshot.records) max_state_bytes)
          bad_snapshot
      >> restore_records now snapshot.records (new_state epoch true)

  interrupted_record-outcome :
      (now : ℕ) (r : WorkflowRecord V) → is_running (interrupted_record now r).outcome ≡ false
  unfolding interrupted_record
  interrupted_record-outcome now r = ground arith

  -- A state just restored: nothing runs, and what it retains is persistent.
  pub record IsRestored (s : WorkflowState V) : Type 0 where
    pub linked : IsLinked s
    pub idle : s.cancellations ≡ []
    pub over :
        (id : String) (r : WorkflowRecord V)
        → get id s.records ≡ some r
        → (is_running r.outcome ≡ false) × (is_kept r ≡ true)

  interrupted_record-is_kept :
      (now : ℕ) (r : WorkflowRecord V) → is_kept (interrupted_record now r) ≡ is_kept r
  unfolding interrupted_record
  interrupted_record-is_kept now r = ground arith

  interrupted_record-id : (now : ℕ) (r : WorkflowRecord V) → (interrupted_record now r).id ≡ r.id
  unfolding interrupted_record
  interrupted_record-id now r = ground arith

  new_state-IsRestored : (epoch : String) → IsRestored (new_state epoch true)
  unfolding get
  new_state-IsRestored epoch = record {
    linked = new_state-IsLinked epoch true;
    idle = refl;
    over = λ j r found. cc;
  }

  insert-IsRestored :
      (q : WorkflowRecord V) (s : WorkflowState V)
      → is_running q.outcome ≡ false
      → is_kept q ≡ true
      → suc (length s.records) ≤ max_workflows
      → IsRestored s
      → IsRestored record s { records = insert q.id q s.records }
  insert-IsRestored q s ended kept room i = record {
    linked = record {
      few = omega (arith, length-insert_le q.id q s.records);
      active = i.linked.active;
      records = Distinct-insert q.id q s.records i.linked.records;
      cancellations = i.linked.cancellations;
      agree = λ j. elim (Bool-cases (str_eq q.id j)) [
        | inl same ↦
            rw (get-insert q.id j q s.records, same)
              (none_listed j s.cancellations i.idle ∙ sym ended)
        | inr other ↦ rw (get-insert q.id j q s.records, other) (i.linked.agree j)
      ];
    };
    idle = i.idle;
    over = λ j r found. elim (Bool-cases (str_eq q.id j)) [
      | inl same ↦
          let e : q ≡ r = some-injective _ _ (rw (get-insert q.id j q s.records, same) at found) in
          subst (λ r. (is_running r.outcome ≡ false) × (is_kept r ≡ true)) e (ended, kept)
      | inr other ↦ i.over j r (rw (get-insert q.id j q s.records, other) at found)
    ];
  }

  restore_records-IsRestored :
      (now : ℕ) (rs : List (WorkflowRecord V)) (s : WorkflowState V) {t : WorkflowState V}
      → length rs + length s.records ≤ max_workflows
      → IsRestored s
      → restore_records now rs s ≡ ok t
      → IsRestored t
  unfolding restore_records
  restore_records-IsRestored now [] s room i h = subst IsRestored (ok-injective h) i
  restore_records-IsRestored now (r ∷ rs) s room i h =
      let q = interrupted_record now r in
      let next = record s { records = insert r.id q s.records } in
      let p = ok_first (ensure (is_kept r) connection_owned) (restore_records now rs next) h in
      let kept : is_kept r ≡ true = ground arith in
      restore_records-IsRestored now rs next
        (omega (arith, length-insert_le r.id q s.records, room))
        (subst (λ k. IsRestored record s { records = insert k q s.records })
          (interrupted_record-id now r)
          (insert-IsRestored q s (interrupted_record-outcome now r)
            (interrupted_record-is_kept now r ∙ kept) (omega (arith, room)) i))
        p.1

  -- After a restart that accepts its snapshot no workflow runs and no cancellation is listed, each
  -- retained workflow is persistent, and there are at most 64.
  pub restore_workflows-IsRestored :
      (sizes : Sizes V) (snapshot : WorkflowSnapshot V) (epoch : String) (now : ℕ)
      {s : WorkflowState V}
      → restore_workflows sizes snapshot epoch now ≡ ok s
      → IsRestored s
  unfolding restore_workflows
  restore_workflows-IsRestored sizes snapshot epoch now h =
      let versioned = ensure (snapshot.version == 1) bad_version in
      let fits =
        ensure
          (leb (length snapshot.records) max_workflows
            && leb (sizes.snapshot snapshot.records) max_state_bytes)
          bad_snapshot in
      let p =
        ok_first (versioned >> fits) (restore_records now snapshot.records (new_state epoch true))
          h in
      let q = ok_first versioned fits p.0 in
      restore_records-IsRestored now snapshot.records (new_state epoch true)
        (ground (arith, ◌&&◌, q.1)) (new_state-IsRestored epoch) p.1
