-- ===== src/Observation/Watch.antt =====
-- src/observation.rs: the life of a watch, from its admission to its end. `now` is the clock.
pub mod Life
pub mod Calls
pub mod Steps
pub mod Ended
pub mod Never
use master_control_program.Base.{
  ℕ, zero, suc, ◌+◌, ◌-◌, String, Bool, true, false, not, ◌&&◌, ◌||◌, Option, none, some, List, [],
  ◌∷◌, length, sum_by, keep, leb, ltb, is_some, is_some_and, is_none_or, unwrap_or, str_eq,
  if◌then◌else◌, Result, ok, err, ensure, or_err, ◌>>=◌, ◌>>◌, map,
}
use master_control_program.Base.Map.{Map, string_key, get, insert, remove, adjust, values}
use master_control_program.Observation.Record.{
  too_many_active, Lifetime, Cursor, Event, TargetIdentity, WatchInput, WatchRecord, WatchStatus,
  Control, Json, ObservationError, active, is_persistent, visible, max_retained, max_active_watches,
  starting, recording, stopping, stopped, failed, connection_closed, too_many_watches,
  watch_not_found, still_stopping, not_quiesced,
}
use master_control_program.Observation.Store.{
  Store, append, forget, cancel_control, contains, no_target,
}

abbrev pub new_watch : String → String → WatchInput → ℕ → ℕ → Cursor → WatchRecord
new_watch id owner input now duration cursor = record {
  id = id;
  owner = owner;
  input = input;
  status = starting;
  started_at_unix_ms = now;
  recording_started_at_unix_ms = none;
  deadline_unix_ms = now + duration;
  start_cursor = cursor;
  finished_at_unix_ms = none;
  recorded_events = 0;
  recorded_bytes = 0;
  retained_events = 0;
  retained_bytes = 0;
  retention_dropped_events = 0;
  retention_dropped_bytes = 0;
  last_dropped_id = 0;
  last_gap_id = 0;
  provider_lost_events = 0;
  provider_lost_buffers = 0;
  error = none;
  stop_reason = none;
}

-- `get_or_insert_with`
abbrev pub or_reason : Option String → String → Option String
or_reason none reason = some reason
or_reason (some first) reason = some first

abbrev pub failed_with : String → ℕ → WatchRecord → WatchRecord
failed_with error now r = record r {
  status = failed;
  error = some error;
  finished_at_unix_ms = some now;
}

abbrev pub asked_to_stop : String → WatchRecord → WatchRecord
asked_to_stop reason r =
    if active r.status
    then record r { status = stopping; stop_reason = or_reason r.stop_reason reason }
    else r

abbrev pub now_recording : ℕ → WatchRecord → WatchRecord
now_recording now r = elim r.status [
  | starting ↦ record r { status = recording; recording_started_at_unix_ms = some now }
  | _ ↦ r
]

abbrev pub now_stopped : ℕ → WatchRecord → WatchRecord
now_stopped now r = elim r.status [
  | failed ↦ r
  | _ ↦ record r {
    status = stopped;
    finished_at_unix_ms = some now;
    stop_reason = or_reason r.stop_reason "provider_stopped";
  }
]

abbrev pub with_lost : Option ℕ → Option ℕ → WatchRecord → WatchRecord
with_lost events buffers r = record r {
  provider_lost_events = r.provider_lost_events + unwrap_or events 0;
  provider_lost_buffers = r.provider_lost_buffers + unwrap_or buffers 0;
}

-- `matches!(status, Starting | Recording)`
abbrev pub records : WatchStatus → Bool
records starting = true
records recording = true
records _ = false

module _ {V : Type 0} where
  abbrev pub on_watch : String → (WatchRecord → WatchRecord) → Store V → Store V
  on_watch id f s = record s { watches = adjust id f s.watches }

  -- `control.is_finished()` of the control that the store holds for a watch.
  abbrev pub has_finished : Store V → String → Bool
  has_finished s id = is_some_and (get id s.signals) (λ c. c.finished)

  abbrev pub quiesced : Store V → String → Bool
  quiesced s id = not (contains id s.controls) || has_finished s id

  abbrev pub is_canceled : Store V → String → Bool
  is_canceled s id = is_some_and (get id s.signals) (λ c. c.canceled)

  -- The controls are those of the providers that have not finished.
  abbrev pub active_controls : Store V → List String
  active_controls s = keep (λ id. not (has_finished s id)) s.controls

  -- The block of `create_scoped` under the lock; `closed` tells whether the connection was canceled.
  unfoldable pub create :
      Store V → Bool → String → String → WatchInput → ℕ → ℕ → Result ObservationError (Store V)
  create s closed id owner input now duration = do
    ensure (is_persistent input.lifetime || not closed) connection_closed
    ensure (ltb (length (active_controls s)) max_active_watches) too_many_active
    ensure (ltb (length s.watches) max_retained) too_many_watches
    ok (record s {
      watches =
          insert id
            (new_watch id owner input now duration (record { epoch = s.epoch; id = s.next_id - 1 }))
            s.watches;
      controls = id ∷ s.controls;
      signals = insert id (record { canceled = false; finished = false }) s.signals;
    })

  unfoldable pub watch : Store V → String → String → Result ObservationError WatchRecord
  watch s id client = do
    r ← or_err (get id s.watches) watch_not_found
    ensure (visible r.owner r.input.lifetime client) watch_not_found
    ok r

  unfoldable pub request_stop : Store V → String → String → Store V
  request_stop s id reason = cancel_control id (on_watch id (asked_to_stop reason) s)

  -- `remove` until it waits for the provider.
  unfoldable pub remove_request : Store V → String → String → Result ObservationError (Store V)
  remove_request s id client = do _ ← watch s id client; ok (request_stop s id "removed")

  -- What `remove` does after it has waited, if the watch is to be forgotten.
  unfoldable pub remove_forget : Store V → String → String → Result ObservationError (Store V)
  remove_forget s id client = do
    r ← watch s id client
    ensure (not (active r.status)) still_stopping
    ensure (quiesced s id) not_quiesced
    ok (forget s id)

  unfoldable pub ready : Store V → String → ℕ → Store V
  ready s id now = on_watch id (now_recording now) s

  abbrev pub cancel_signal : String → Store V → Store V
  cancel_signal id s = record s {
    signals = adjust id (λ c. record c { canceled = true }) s.signals;
  }

  abbrev pub finish_signal : String → Store V → Store V
  finish_signal id s = record s {
    signals = adjust id (λ c. record c { finished = true }) s.signals;
  }

  abbrev forget_retired : String → Store V → Store V
  forget_retired id s = if contains id s.retired_watches then forget s id else s

  -- `Sink::finish` after a failure was reported.
  unfoldable pub finish_stopped : Store V → String → ℕ → Store V
  finish_stopped s id now = finish_signal id (forget_retired id (on_watch id (now_stopped now) s))

  -- The loop of `shutdown_connection` over the watches of the connection.
  unfoldable pub retire_all : List String → Store V → Store V
  retire_all [] s = s
  retire_all (id ∷ ids) s =
      let q = request_stop s id "connection_disconnected" in
      retire_all ids (if quiesced q id then forget q id else q)

module _ {V : Type 0} (json : Json V) where
  unfoldable pub emit :
      Store V → ℕ → String → String → TargetIdentity → V → Option ℕ → Option (Store V)
  emit s now id kind target payload timestamp =
      if is_canceled s id
      then some s
      else if is_some_and (get id s.watches) (λ r. records r.status)
      then append json s now id kind target payload timestamp
      else some s

  unfoldable pub lost : Store V → ℕ → String → Option ℕ → Option ℕ → String → Option (Store V)
  lost s now id events buffers reason =
      append json (on_watch id (with_lost events buffers) s) now id "gap" no_target
        (json.lost reason events buffers) none

  unfoldable pub fail : Store V → ℕ → String → String → Option (Store V)
  fail s now id error =
      elim (append json (on_watch id (failed_with error now) s) now id "watch.failed" no_target
        (json.failure error) none) [ none ↦ none | some q ↦ some (cancel_signal id q) ]

  -- `Sink::finish`; the error of the provider, if it had one, is reported first.
  unfoldable pub finish : Store V → ℕ → String → Option String → Option (Store V)
  finish s now id none = some (finish_stopped s id now)
  finish s now id (some error) = elim (fail s now id error) [
    | none ↦ none
    | some q ↦ some (finish_stopped q id now)
  ]
