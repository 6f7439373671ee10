-- ===== src/Observation/Wait.antt =====
-- src/observation.rs: waits for an event. The text of an error of `read` is given by `message`.
pub mod Rounds
pub mod Apart
use master_control_program.Base.{
  ℕ, ◌+◌, ◌-◌, min, String, Bool, true, false, not, ◌&&◌, ◌||◌, Option, none, some, List, [], ◌∷◌,
  length, all, any, keep, leb, ltb, is_some, is_some_and, unwrap_or, str_eq, if◌then◌else◌, Result,
  ok, err, ensure, or_err, ◌>>=◌, ◌>>◌, map, ◌++◌, persistence_failure,
}
use master_control_program.Base.Map.{Map, string_key, get, insert, remove, adjust, values}
use master_control_program.Observation.Record.{
  Lifetime, Cursor, Event, EventFilter, EventsInput, WaitInput, WaitRecord, WatchRecord, Outcome,
  Json, ObservationError, active, is_persistent, visible, max_retained, running, satisfied,
  timed_out, canceled, failed, connection_closed, too_many_waits, wait_not_found,
}
use master_control_program.Observation.Store.{Store, without, contains, cancel_control}
use master_control_program.Observation.Page.{EventsPage, read}
use master_control_program.Observation.Watch.{retire_all, on_watch, failed_with}

abbrev pub is_running : Outcome → Bool
is_running running = true
is_running _ = false

abbrev first_error : List WatchRecord → Option String
first_error [] = none
first_error (r ∷ rs) = let rest = first_error rs in elim r.error [ none ↦ rest | some e ↦ some e ]

-- What one round of a wait comes to.
pub data Verdict (V : Type 0) : Type 0 where
  ends : Outcome → Option (Event V) → Option String → Option Cursor → Verdict V
  goes_on : Cursor → Verdict V

module _ {V : Type 0} where
  abbrev pub ended :
      ℕ → Outcome → Option (Event V) → Option String → Option Cursor → WaitRecord V → WaitRecord V
  ended now outcome event error cursor r =
      if is_running r.outcome
      then record r {
        outcome = outcome;
        event = event;
        error = error;
        finished_at_unix_ms = some now;
        cursor = unwrap_or cursor r.cursor;
      }
      else r

  unfoldable pub finish_wait :
      Store V → ℕ → String → Outcome → Option (Event V) → Option String → Option Cursor → Store V
  finish_wait s now id outcome event error cursor = record s {
    waits = adjust id (ended now outcome event error cursor) s.waits;
    wait_cancels =
        if is_some_and (get id s.waits) (λ r. is_running r.outcome)
        then without id s.wait_cancels
        else s.wait_cancels;
  }

  unfoldable pub wait_status : Store V → String → String → Result ObservationError (WaitRecord V)
  wait_status s id client = do
    r ← or_err (get id s.waits) wait_not_found
    ensure (visible r.owner r.input.lifetime client) wait_not_found
    ok r

  abbrev pub signal_wait : String → Store V → Store V
  signal_wait id s =
      if contains id s.wait_cancels then record s { canceled_waits = id ∷ s.canceled_waits } else s

  -- `cancel_wait`; the record comes back as it is after the cancellation.
  unfoldable pub cancel_wait :
      Store V → ℕ → String → String → Bool → Result ObservationError (Store V × WaitRecord V)
  cancel_wait s now id client forgets = do
    _ ← wait_status s id client
    let q = finish_wait (signal_wait id s) now id canceled none none none
    r ← wait_status q id client
    ok (if forgets then record q { waits = remove id q.waits } else q, r)

  -- The block of `start_wait_scoped` under the lock.
  unfoldable pub admit_wait : Store V → Bool → WaitRecord V → Result ObservationError (Store V)
  admit_wait s closed r = do
    ensure (is_persistent r.input.lifetime || not closed) connection_closed
    ensure (ltb (length s.waits) max_retained) too_many_waits
    ok (record s { waits = insert r.id r s.waits; wait_cancels = r.id ∷ s.wait_cancels })

  -- The filter of a wait ends with its deadline.
  abbrev pub until_deadline : WaitInput V → EventFilter V
  until_deadline input = record input.filter {
    until_unix_ms =
        some (
          min (unwrap_or input.filter.until_unix_ms input.deadline_unix_ms) input.deadline_unix_ms);
  }

  abbrev stopped_early : WaitInput V → EventsPage V → Bool
  stopped_early input page =
      is_some input.filter.watch_id && all (λ r. not (active r.status)) page.watches

  -- What is decided from a page; `due` tells whether the deadline has passed.
  abbrev pub judge : WaitInput V → Bool → EventsPage V → List (Event V) → Verdict V
  judge input due page (event ∷ events) =
      if page.restarted
      then ends failed none (some "recording epoch changed; establish a new cursor before waiting")
          (some page.next_cursor)
      else ends satisfied (some event) none (some event.cursor)
  judge input due page [] =
      if page.restarted
      then ends failed none (some "recording epoch changed; establish a new cursor before waiting")
          (some page.next_cursor)
      else if page.retention_gap || page.recording_gap
      then ends failed none (some "recording gap: cannot establish whether the condition occurred")
          (some page.next_cursor)
      else if stopped_early input page
      then ends failed none
          (some (
            unwrap_or (first_error page.watches)
              "recording stopped before the condition was observed"))
          (some page.next_cursor)
      else if due
      then ends timed_out none none (some page.next_cursor)
      else goes_on page.next_cursor

  abbrev owned_watches : String → Store V → List String
  owned_watches client s =
      map (λ r. r.id)
        (keep (λ r. str_eq r.owner client && not (is_persistent r.input.lifetime))
          (values s.watches))

  abbrev owned_waits : String → Store V → List String
  owned_waits client s =
      map (λ r. r.id)
        (keep (λ r. str_eq r.owner client && not (is_persistent r.input.lifetime)) (values s.waits))

  unfoldable pub drop_waits : List String → Store V → Store V
  drop_waits [] s = s
  drop_waits (id ∷ ids) s = drop_waits ids (record (signal_wait id s) {
    wait_cancels = without id s.wait_cancels;
    waits = remove id s.waits;
  })

  -- The first block of `shutdown_connection`.
  unfoldable pub retire_owned : Store V → String → Store V
  retire_owned s client =
      drop_waits (owned_waits client s)
        (record s { retired_watches = owned_watches client s ++ s.retired_watches })

  unfoldable pub shutdown_connection : Store V → String → Store V
  shutdown_connection s client = retire_all (owned_watches client s) (retire_owned s client)

  abbrev watches_at_risk : Store V → List String
  watches_at_risk s =
      map (λ r. r.id)
        (keep (λ r. is_persistent r.input.lifetime && active r.status) (values s.watches))

  abbrev waits_at_risk : Store V → List String
  waits_at_risk s =
      map (λ r. r.id)
        (keep (λ r. is_persistent r.input.lifetime && is_running r.outcome) (values s.waits))

  unfoldable pub fail_watches : (now : String → ℕ) → String → List String → Store V → Store V
  fail_watches now error [] s = s
  fail_watches now error (id ∷ ids) s =
      fail_watches now error ids
        (cancel_control id (on_watch id (failed_with (persistence_failure error) (now id)) s))

  abbrev lost_wait : String → ℕ → WaitRecord V → WaitRecord V
  lost_wait error now r = record r {
    outcome = failed;
    error = some (persistence_failure error);
    finished_at_unix_ms = some now;
  }

  unfoldable pub fail_waits : (now : String → ℕ) → String → List String → Store V → Store V
  fail_waits now error [] s = s
  fail_waits now error (id ∷ ids) s = fail_waits now error ids (record (signal_wait id s) {
    wait_cancels = without id s.wait_cancels;
    waits = adjust id (lost_wait error (now id)) s.waits;
  })

  -- `checkpoint_failed`; `now` is the clock when the record with the identifier is changed.
  unfoldable pub checkpoint_failed : Store V → (now : String → ℕ) → String → Store V
  checkpoint_failed s now error =
      let q = fail_watches now error (watches_at_risk s) s in
      fail_waits now error (waits_at_risk q) q

module _ {V : Type 0} (json : Json V) (message : ObservationError → String) where
  -- One round of the loop of a wait, from the cursor that it has come to.
  unfoldable pub wait_round :
      Store V → WaitInput V → String → Bool → Bool → Option Cursor → Verdict V
  wait_round s input client is_canceled due cursor =
      if is_canceled
      then ends canceled none none cursor
      else elim (read json s
          (record { after = cursor; filter = until_deadline input; limit = some 1 }) client) [
            | err error ↦ ends failed none (some (message error)) cursor
            | ok page ↦ judge input due page page.events
          ]
