-- ===== src/Observation/Watch/Steps.antt =====
-- src/observation.rs: any sequence of calls and of reports of the providers.
use mathlib.Core.Path.{subst}
use master_control_program.Base.{
  sym, inl, inr, ℕ, ◌≤◌, ◌≡◌, String, Option, none, some, List, arith, Option-cases, Bool-cases, ok,
  is_some_and, [], ◌∷◌, ◌∙◌, ap, sum_by, length, persistence_failure,
}
use master_control_program.Base.Map.{string_key, get, Distinct}
use master_control_program.Observation.Record.{TargetIdentity, Json, max_events, max_bytes}
use master_control_program.Observation.Store.{Store, append, forget, no_target}
use master_control_program.Observation.Store.Limits.{append-IsWithinLimits}
use master_control_program.Observation.Watch.{
  watch, remove_forget, ready, emit, lost, fail, finish, finish_stopped, now_recording, with_lost,
  failed_with, on_watch, is_canceled, records, cancel_signal,
}
use master_control_program.Observation.Watch.Life.{
  Kept, create-Kept, request_stop-Kept, forget-Kept, on_watch-Kept, finish_stopped-Kept,
  retire_all-Kept, cancel_control-Kept,
}
use master_control_program.Observation.Store.Retention.{IsCounted}
use master_control_program.Observation.Wait.{fail_watches, checkpoint_failed}
use master_control_program.Observation.Wait.Apart.{
  IsSame, retire_owned-IsSame, admit_wait-IsSame, finish_wait-IsSame, cancel_wait-IsSame,
  fail_waits-IsSame, signal_wait-IsSame, drop_waits-IsSame,
}
use master_control_program.Observation.Watch.Calls.{
  Step, Steps, IsShort, AllShort, HasShortGap, HasShortFailure, HasShortFinish, creates, stops,
  forgets, retires, disconnects, drops, signals, admits, ends_wait, cancels_wait, loses_checkpoint,
  readies, emits, losts, fails, finishes, done, then, signals_wait, drops_waits,
}

module _ {V : Type 0} (json : Json V) where
  append-Kept :
      (s : Store V) (now : ℕ) (id kind : String) (target : TargetIdentity) (payload : V)
      (timestamp : Option ℕ) {q : Store V}
      → HasShortGap json s now id kind target payload timestamp
      → append json s now id kind target payload timestamp ≡ some q
      → Kept s
      → Kept q
  append-Kept s now id kind target payload timestamp short h k =
      append-IsWithinLimits json s now id kind target payload timestamp short k.0 k.1 h

  emit-Kept :
      (s : Store V) (now : ℕ) (id kind : String) (target : TargetIdentity) (payload : V)
      (timestamp : Option ℕ) {q : Store V}
      → HasShortGap json s now id kind target payload timestamp
      → emit json s now id kind target payload timestamp ≡ some q
      → Kept s
      → Kept q
  unfolding emit
  emit-Kept s now id kind target payload timestamp {q} short h k =
      elim (Bool-cases (is_canceled s id)) [
        | inl over ↦ subst Kept {x = s} {y = q} (ground arith) k
        | inr live ↦ elim (Bool-cases (is_some_and (get id s.watches) (λ r. records r.status))) [
          | inl takes ↦
              append-Kept s now id kind target payload timestamp {q = q} short (ground arith) k
          | inr not_now ↦ subst Kept {x = s} {y = q} (ground arith) k
        ]
      ]

  pub fail-Kept :
      (s : Store V) (now : ℕ) (id error : String) {q : Store V}
      → HasShortFailure json s now id error
      → fail json s now id error ≡ some q
      → Kept s
      → Kept q
  unfolding fail
  fail-Kept s now id error {q} short h k =
      elim (Option-cases (
        append json (on_watch id (failed_with error now) s) now id "watch.failed" no_target
          (json.failure error) none)) [
            | inl panic ↦ ground arith
            | inr (t, e) ↦
                (let (a, b) =
                    append-Kept (on_watch id (failed_with error now) s) now id "watch.failed"
                      no_target (json.failure error) none short e
                      (on_watch-Kept id (failed_with error now) s (λ r. ground arith) k) in
                  subst Kept {x = cancel_signal id t} {y = q} (ground arith) (
                    record { bytes = a.bytes; distinct = a.distinct; counts = a.counts },
                    record { few = b.few; small = b.small },
                  ))
          ]

  finish-Kept :
      (s : Store V) (now : ℕ) (id : String) (error : Option String) {q : Store V}
      → HasShortFinish json s now id error
      → finish json s now id error ≡ some q
      → Kept s
      → Kept q
  unfolding finish
  finish-Kept s now id none {q} short h k =
      subst Kept {x = finish_stopped s id now} {y = q} (ground arith)
        (finish_stopped-Kept s id now k)
  finish-Kept s now id (some error) {q} short h k = elim (Option-cases (fail json s now id error)) [
    | inl panic ↦ ground arith
    | inr (t, e) ↦
        subst Kept {x = finish_stopped t id now} {y = q} (ground arith)
          (finish_stopped-Kept t id now (fail-Kept s now id error short e k))
  ]

  remove_forget-Kept :
      (s : Store V) (id client : String) {q : Store V}
      → remove_forget s id client ≡ ok q
      → Kept s
      → Kept q
  unfolding remove_forget watch
  remove_forget-Kept s id client {q} h k =
      subst Kept {x = forget s id} {y = q} (ground arith) (forget-Kept s id k)

  IsSame-Kept : {s q : Store V} → IsSame s q → Kept s → Kept q
  IsSame-Kept {s} {q} i k = (
    record {
      bytes = i.bytes ∙ k.0.bytes ∙ ap (sum_by (λ x. x.1)) (sym i.events);
      distinct = subst (λ m. Distinct m) (sym i.watches) k.0.distinct;
      counts = λ id {r} held.
          subst (λ events. IsCounted id events r) (sym i.events)
            (k.0.counts id (ap (get id) (sym i.watches) ∙ held));
    },
    record {
      few = subst (λ events. length events ≤ max_events) (sym i.events) k.1.few;
      small = subst (λ n. n ≤ max_bytes) (sym i.bytes) k.1.small;
    },
  )

  fail_watches-Kept :
      (now : String → ℕ) (error : String) (ids : List String) (s : Store V)
      → Kept s
      → Kept (fail_watches now error ids s)
  unfolding fail_watches
  fail_watches-Kept now error [] s k = k
  fail_watches-Kept now error (id ∷ ids) s k = fail_watches-Kept now error ids _ (
      cancel_control-Kept id (on_watch id (failed_with (persistence_failure error) (now id)) s) (
        on_watch-Kept id (failed_with (persistence_failure error) (now id)) s (λ r. ground arith)
          k))

  checkpoint_failed-Kept :
      (s : Store V) (now : String → ℕ) (error : String)
      → Kept s
      → Kept (checkpoint_failed s now error)
  unfolding checkpoint_failed
  checkpoint_failed-Kept s now error k =
      IsSame-Kept (fail_waits-IsSame now error _ _) (fail_watches-Kept now error _ s k)

  pub Step-Kept : {s q : Store V} (step : Step json s q) → IsShort json step → Kept s → Kept q
  unfolding ready lost
  Step-Kept {s} (creates closed id owner input now duration new fresh h) short k =
      create-Kept s closed id owner input now duration fresh h k
  Step-Kept {s} (stops id reason e) short k = subst Kept (sym e) (request_stop-Kept s id reason k)
  Step-Kept {s} (forgets id client h) short k = remove_forget-Kept s id client h k
  Step-Kept {s} (retires client e) short k =
      subst Kept (sym e) (IsSame-Kept (retire_owned-IsSame s client) k)
  Step-Kept {s} (disconnects ids e) short k = subst Kept (sym e) (retire_all-Kept ids s k)
  Step-Kept {s} (drops id done_ e) short k = subst Kept (sym e) (forget-Kept s id k)
  Step-Kept {s} (signals id e) short k = subst Kept (sym e) (cancel_control-Kept id s k)
  Step-Kept {s} (admits closed r h) short k = IsSame-Kept (admit_wait-IsSame s closed r h) k
  Step-Kept {s} (ends_wait now id outcome event error cursor e) short k =
      subst Kept (sym e) (IsSame-Kept (finish_wait-IsSame s now id outcome event error cursor) k)
  Step-Kept {s} (cancels_wait now id client forgets_ r h) short k =
      IsSame-Kept (cancel_wait-IsSame s now id client forgets_ h) k
  Step-Kept {s} (signals_wait id e) short k =
      subst Kept (sym e) (IsSame-Kept (signal_wait-IsSame id s) k)
  Step-Kept {s} (drops_waits ids e) short k =
      subst Kept (sym e) (IsSame-Kept (drop_waits-IsSame ids s) k)
  Step-Kept {s} (loses_checkpoint now error e) short k =
      subst Kept (sym e) (checkpoint_failed-Kept s now error k)
  Step-Kept {s} (readies id now e) short k =
      subst Kept (sym e) (on_watch-Kept id (now_recording now) s (λ r. ground arith) k)
  Step-Kept {s} (emits now id kind target payload timestamp h) short k =
      emit-Kept s now id kind target payload timestamp short h k
  Step-Kept {s} (losts now id events buffers reason h) short k =
      append-Kept (on_watch id (with_lost events buffers) s) now id "gap" no_target
        (json.lost reason events buffers) none short h
        (on_watch-Kept id (with_lost events buffers) s (λ r. ground arith) k)
  Step-Kept {s} (fails now id error h) short k = fail-Kept s now id error short h k
  Step-Kept {s} (finishes now id error h) short k = finish-Kept s now id error short h k

  -- Whatever calls change the store, on watches, waits and connections, whatever the providers
  -- report and whenever the checkpoint fails, in any order, with a new identifier for each watch,
  -- the counters of the store and of each watch stay what they count and the store stays within its
  -- limits, if for each event that is reported the gap that takes its place when it is too long
  -- takes at most 1024 bytes.
  pub Steps-Kept :
      {s q : Store V} → Kept s → (steps : Steps json s q) → AllShort json steps → Kept q
  Steps-Kept k done short = k
  Steps-Kept k (then steps step) short = Step-Kept step short.1 (Steps-Kept k steps short.0)
