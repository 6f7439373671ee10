-- ===== src/Observation/Wait/Rounds.antt =====
-- src/observation.rs: what the outcome of a wait says.
use mathlib.Core.Path.{subst}
use master_control_program.Base.{
  any, ltb, ℕ, ◌≡◌, String, Bool, false, Option, none, some, List, [], ◌∷◌, ok, err, arith, Result,
  inl, inr, sym, ◌∙◌, ◌⊎◌, refl, Bool-cases,
}
use master_control_program.Observation.Record.{
  Cursor, Event, EventsInput, WaitInput, Json, ObservationError, satisfied, timed_out,
}
use master_control_program.Observation.Store.{Store}
use master_control_program.Observation.Store.Order.{IsOrdered}
use master_control_program.Observation.Page.{watches_read, EventsPage, read, wanted}
use master_control_program.Observation.Page.Complete.{between}
use master_control_program.Observation.Page.Progress.{read-gap, read-IsPage, effective}
use master_control_program.Observation.Wait.{ends, goes_on, until_deadline, judge, wait_round}

module _ {V : Type 0} (json : Json V) (message : ObservationError → String) (s : Store V)
    (input : WaitInput V) (client : String) (is_canceled due : Bool) (cursor : Option Cursor) where
  abbrev pub asked : EventsInput V
  asked = record { after = cursor; filter = until_deadline input; limit = some 1 }

  -- The events that would satisfy the wait, from its cursor up to another.
  abbrev pub candidates : ℕ → List (Event V)
  candidates last =
      between (wanted json (until_deadline input) client s) (effective json s asked) last s.events

  read_cases :
      ((e : ObservationError) × (read json s asked client ≡ err e))
      ⊎ ((page : EventsPage V) × (read json s asked client ≡ ok page))
  read_cases = cases (read json s asked client)
    where
      cases :
          (r : Result ObservationError (EventsPage V))
          → ((e : ObservationError) × (r ≡ err e)) ⊎ ((page : EventsPage V) × (r ≡ ok page))
      cases (err e) = inl (e, refl)
      cases (ok page) = inr (page, refl)

  judge-satisfied :
      (page : EventsPage V) (events : List (Event V)) {event : Event V} {at : Option Cursor}
      → judge input due page events ≡ ends satisfied (some event) none at
      → (more : List (Event V)) × (events ≡ event ∷ more)
  judge-satisfied page [] h = ground arith
  judge-satisfied page (e ∷ events) h = (events, ground arith)

  judge-next :
      (page : EventsPage V) (events : List (Event V)) {next : Cursor}
      → (judge input due page events ≡ goes_on next)
        ⊎ (judge input due page events ≡ ends timed_out none none (some next))
      → (events ≡ [])
        × (page.next_cursor ≡ next)
        × (page.retention_gap ≡ false)
        × (page.recording_gap ≡ false)
        × (page.restarted ≡ false)
  judge-next page [] h = ground arith
  judge-next page (e ∷ events) h = ground arith

  -- A round of a wait is satisfied only by the first of the retained events that its client may see
  -- and its filter selects up to the deadline, after the cursor of the wait, if the cursors of the
  -- events increase.
  pub wait_round-satisfied :
      {event : Event V} {at : Option Cursor}
      → IsOrdered s
      → wait_round json message s input client is_canceled due cursor
        ≡ ends satisfied (some event) none at
      → (last : ℕ) × (more : List (Event V)) × (candidates last ≡ event ∷ more)
  unfolding wait_round
  wait_round-satisfied {event} {at} v h = elim (Bool-cases is_canceled) [
    | inl stop ↦ ground arith
    | inr live ↦ elim read_cases [
      | inl (e, bad) ↦ ground arith
      | inr (page, good) ↦
          (let (more, first) =
              judge-satisfied page page.events {event = event} {at = at} (ground arith) in
            (
              page.next_cursor.id,
              more,
              sym (read-IsPage json s asked client v good).events ∙ first,
            ))
    ]
  ]

  -- A round of a wait that goes on or times out has found no such event up to its new cursor, and
  -- no watch that it read had dropped an event after the cursor that it began with, if the cursors
  -- of the events increase.
  pub wait_round-next :
      {next : Cursor}
      → IsOrdered s
      → (wait_round json message s input client is_canceled due cursor ≡ goes_on next)
        ⊎ (wait_round json message s input client is_canceled due cursor
            ≡ ends timed_out none none (some next))
      → (candidates next.id ≡ [])
        × (any (λ r. ltb (effective json s asked) r.last_dropped_id) (watches_read asked s client)
            ≡ false)
  unfolding wait_round
  wait_round-next {next} v h = elim (Bool-cases is_canceled) [
    | inl stop ↦ ground arith
    | inr live ↦ elim read_cases [
      | inl (e, bad) ↦ ground arith
      | inr (page, good) ↦
          (let (none_here, at, no_gap, _, _) =
              judge-next page page.events {next = next} (ground arith) in
            (
              subst (λ (c : Cursor). candidates c.id ≡ []) {x = page.next_cursor} {y = next} at
                  (sym (read-IsPage json s asked client v good).events ∙ none_here),
              sym (read-gap json s asked client good) ∙ no_gap,
            ))
    ]
  ]
