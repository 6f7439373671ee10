-- ===== src/Observation/Watch/Never.antt =====
-- src/observation.rs: no report and no call makes a watch active again.
use mathlib.Core.Path.{subst}
use master_control_program.Base.{
  ℕ, suc, ◌≡◌, inl, inr, refl, sym, String, false, Option, none, some, length, arith, Option-cases,
  Bool-cases, is_some_and, List, [], ◌∷◌, persistence_failure,
}
use master_control_program.Base.Map.{string_key, get}
use master_control_program.Observation.Record.{TargetIdentity, WatchRecord, Json, active}
use master_control_program.Observation.Store.{
  Store, append, forget, trim, discard_oldest, push, sized, new_event, no_target,
}
use master_control_program.Observation.Watch.{
  watch, remove_forget, ready, emit, lost, fail, finish, finish_stopped, now_recording, with_lost,
  failed_with, on_watch, is_canceled, records, cancel_signal,
}
use master_control_program.Observation.Watch.Life.{Kept}
use master_control_program.Observation.Watch.Ended.{
  Ended, Ended-adjust, Ended-trim, Ended-discard_oldest, Ended-push, Ended-forget,
  Ended-request_stop, Ended-retire_all, Ended-finish_stopped, Ended-create,
}
use master_control_program.Observation.Watch.Steps.{fail-Kept}
use master_control_program.Observation.Watch.Calls.{
  Step, creates, stops, forgets, disconnects, readies, emits, losts, fails, finishes, IsShort,
  HasShortFinish, retires, drops, signals, admits, ends_wait, cancels_wait, loses_checkpoint,
  signals_wait, drops_waits,
}
use master_control_program.Observation.Wait.{fail_watches, checkpoint_failed}
use master_control_program.Observation.Wait.Apart.{
  IsSame, retire_owned-IsSame, admit_wait-IsSame, finish_wait-IsSame, cancel_wait-IsSame,
  fail_waits-IsSame, signal_wait-IsSame, drop_waits-IsSame,
}

module _ {V : Type 0} (json : Json V) where
  Ended-append :
      (id : String) (s : Store V) (now : ℕ) (k kind : String) (target : TargetIdentity)
      (payload : V) (timestamp : Option ℕ) {q : Store V}
      → append json s now k kind target payload timestamp ≡ some q
      → Ended id s.watches
      → Ended id q.watches
  unfolding append
  Ended-append id s now k kind target payload timestamp {q} h e =
      elim (Option-cases (get k s.watches)) [
        | inl unknown ↦ subst (λ (x : Store V). Ended id x.watches) {x = s} {y = q} (ground arith) e
        | inr (r, known) ↦
            (let event = sized json r (new_event s r now k kind target payload timestamp) in
              let t = record s { next_id = suc s.next_id } in
              let a = trim (length t.events) k event.1 t in
              let b = discard_oldest (length a.events) event.1 a in
              subst (λ (x : Store V). Ended id x.watches) {x = push b event} {y = q} (ground arith)
                (Ended-push id b event.0 event.1 (
                  Ended-discard_oldest id (length a.events) event.1 a
                    (Ended-trim id (length t.events) k event.1 t e))))
      ]

  Ended-emit :
      (id : String) (s : Store V) (now : ℕ) (k kind : String) (target : TargetIdentity)
      (payload : V) (timestamp : Option ℕ) {q : Store V}
      → emit json s now k kind target payload timestamp ≡ some q
      → Ended id s.watches
      → Ended id q.watches
  unfolding emit
  Ended-emit id s now k kind target payload timestamp {q} h e =
      elim (Bool-cases (is_canceled s k)) [
        | inl over ↦ subst (λ (x : Store V). Ended id x.watches) {x = s} {y = q} (ground arith) e
        | inr live ↦ elim (Bool-cases (is_some_and (get k s.watches) (λ r. records r.status))) [
          | inl takes ↦
              Ended-append id s now k kind target payload timestamp {q = q} (ground arith) e
          | inr not_now ↦
              subst (λ (x : Store V). Ended id x.watches) {x = s} {y = q} (ground arith) e
        ]
      ]

  Ended-fail :
      (id : String) (s : Store V) (now : ℕ) (k error : String) {q : Store V}
      → fail json s now k error ≡ some q
      → Ended id s.watches
      → Ended id q.watches
  unfolding fail
  Ended-fail id s now k error {q} h e =
      elim (Option-cases (
        append json (on_watch k (failed_with error now) s) now k "watch.failed" no_target
          (json.failure error) none)) [
            | inl panic ↦ ground arith
            | inr (t, done) ↦
                subst (λ (x : Store V). Ended id x.watches) {x = cancel_signal k t} {y = q}
                  (ground arith)
                  (Ended-append id (on_watch k (failed_with error now) s) now k "watch.failed"
                    no_target (json.failure error) none done
                    (Ended-adjust id k (failed_with error now) s.watches (λ r x. refl) e))
          ]

  Ended-finish :
      (id : String) (s : Store V) (now : ℕ) (k : String) (error : Option String) {q : Store V}
      → HasShortFinish json s now k error
      → finish json s now k error ≡ some q
      → Kept s
      → Ended id s.watches
      → Ended id q.watches
  unfolding finish
  Ended-finish id s now k none {q} short h kept e =
      subst (λ (x : Store V). Ended id x.watches) {x = finish_stopped s k now} {y = q}
        (ground arith) (Ended-finish_stopped id k s now kept e)
  Ended-finish id s now k (some error) {q} short h kept e =
      elim (Option-cases (fail json s now k error)) [
        | inl panic ↦ ground arith
        | inr (t, done) ↦
            subst (λ (x : Store V). Ended id x.watches) {x = finish_stopped t k now} {y = q}
              (ground arith)
              (Ended-finish_stopped id k t now (fail-Kept json s now k error short done kept)
                (Ended-fail id s now k error done e))
      ]

  Ended-IsSame :
      (id : String) {s q : Store V} → IsSame s q → Ended id s.watches → Ended id q.watches
  Ended-IsSame id i e = subst (Ended id) (sym i.watches) e

  Ended-fail_watches :
      (id : String) (now : String → ℕ) (error : String) (ids : List String) (s : Store V)
      → Ended id s.watches
      → Ended id (fail_watches now error ids s).watches
  unfolding fail_watches
  Ended-fail_watches id now error [] s e = e
  Ended-fail_watches id now error (k ∷ ids) s e = Ended-fail_watches id now error ids _ (
      Ended-adjust id k (failed_with (persistence_failure error) (now k)) s.watches (λ r x. refl) e)

  Ended-checkpoint_failed :
      (id : String) (s : Store V) (now : String → ℕ) (error : String)
      → Ended id s.watches
      → Ended id (checkpoint_failed s now error).watches
  unfolding checkpoint_failed
  Ended-checkpoint_failed id s now error e =
      Ended-IsSame id (fail_waits-IsSame now error _ _) (Ended-fail_watches id now error _ s e)

  -- A watch that is not active, in a store whose counters are right and within its limits, is
  -- forgotten or still not active after any of the calls that change the store, any report of a
  -- provider, and a failure of the checkpoint, if the gap that takes the place of the event that is
  -- reported, when it is too long, takes at most 1024 bytes.
  pub Step-Ended :
      {s q : Store V} (id : String) {r : WatchRecord}
      → Kept s
      → get id s.watches ≡ some r
      → active r.status ≡ false
      → (step : Step json s q) → IsShort json step
      → Ended id q.watches
  unfolding ready lost remove_forget watch
  Step-Ended {s} id {r} kept found over (retires client e) short =
      subst (λ (x : Store V). Ended id x.watches) (sym e)
        (Ended-IsSame id (retire_owned-IsSame s client) (inr (r, found, over)))
  Step-Ended {s} id {r} kept found over (drops k done_ e) short =
      subst (λ (x : Store V). Ended id x.watches) (sym e)
        (Ended-forget id k s kept (inr (r, found, over)))
  Step-Ended {s} id {r} kept found over (signals k e) short =
      subst (λ (x : Store V). Ended id x.watches) (sym e) (inr (r, found, over))
  Step-Ended {s} id {r} kept found over (admits closed w h) short =
      Ended-IsSame id (admit_wait-IsSame s closed w h) (inr (r, found, over))
  Step-Ended {s} id {r} kept found over (ends_wait now k outcome event error cursor e) short =
      subst (λ (x : Store V). Ended id x.watches) (sym e)
        (Ended-IsSame id (finish_wait-IsSame s now k outcome event error cursor)
          (inr (r, found, over)))
  Step-Ended {s} id {r} kept found over (cancels_wait now k client forgets_ w h) short =
      Ended-IsSame id (cancel_wait-IsSame s now k client forgets_ h) (inr (r, found, over))
  Step-Ended {s} id {r} kept found over (signals_wait k e) short =
      subst (λ (x : Store V). Ended id x.watches) (sym e)
        (Ended-IsSame id (signal_wait-IsSame k s) (inr (r, found, over)))
  Step-Ended {s} id {r} kept found over (drops_waits ids e) short =
      subst (λ (x : Store V). Ended id x.watches) (sym e)
        (Ended-IsSame id (drop_waits-IsSame ids s) (inr (r, found, over)))
  Step-Ended {s} id {r} kept found over (loses_checkpoint now error e) short =
      subst (λ (x : Store V). Ended id x.watches) (sym e)
        (Ended-checkpoint_failed id s now error (inr (r, found, over)))
  Step-Ended {s} {q} id kept found over (creates closed k owner input now duration new fresh h)
        short =
      Ended-create id k owner s closed input now duration new h found over
  Step-Ended {s} id {r} kept found over (stops k reason e) short =
      subst (λ (x : Store V). Ended id x.watches) (sym e)
        (Ended-request_stop id k reason s (inr (r, found, over)))
  Step-Ended {s} {q} id {r} kept found over (forgets k client h) short =
      subst (λ (x : Store V). Ended id x.watches) {x = forget s k} {y = q} (ground arith)
        (Ended-forget id k s kept (inr (r, found, over)))
  Step-Ended {s} id {r} kept found over (disconnects ids e) short =
      subst (λ (x : Store V). Ended id x.watches) (sym e)
        (Ended-retire_all id ids s kept (inr (r, found, over)))
  Step-Ended {s} id {r} kept found over (readies k now e) short =
      subst (λ (x : Store V). Ended id x.watches) (sym e)
        (Ended-adjust id k (now_recording now) s.watches (λ r h. ground arith)
          (inr (r, found, over)))
  Step-Ended {s} id {r} kept found over (emits now k kind target payload timestamp h) short =
      Ended-emit id s now k kind target payload timestamp h (inr (r, found, over))
  Step-Ended {s} id {r} kept found over (losts now k events buffers reason h) short =
      Ended-append id (on_watch k (with_lost events buffers) s) now k "gap" no_target
        (json.lost reason events buffers) none h
        (Ended-adjust id k (with_lost events buffers) s.watches (λ r h. h) (inr (r, found, over)))
  Step-Ended {s} id {r} kept found over (fails now k error h) short =
      Ended-fail id s now k error h (inr (r, found, over))
  Step-Ended {s} id {r} kept found over (finishes now k error h) short =
      Ended-finish id s now k error short h kept (inr (r, found, over))
