-- ===== src/Observation/Page.antt =====
-- src/observation.rs: `read`, a page of the events after a cursor.
pub mod Complete
pub mod Progress
use master_control_program.Base.{
  ℕ, zero, suc, ◌+◌, ◌-◌, ◌*◌, max, String, Bool, true, false, not, ◌&&◌, ◌||◌, Option, none, some,
  List, [], ◌∷◌, ◌++◌, length, sum_by, keep, any, leb, ltb, ◌==◌, in_range, is_some_and, is_none_or,
  unwrap_or, str_eq, if◌then◌else◌, Result, ok, err, ensure, ◌>>=◌, ◌>>◌, map,
}
use master_control_program.Base.Map.{Map, string_key, get, values}
use master_control_program.Observation.Record.{
  Cursor, Event, EventFilter, EventsInput, WatchRecord, Json, ObservationError, visible, name,
  watch_not_found, invalid_limit, cursor_ahead,
}
use master_control_program.Observation.Validate.{validate_filter}
use master_control_program.Observation.Match.{filter_matches}
use master_control_program.Observation.Store.{Store}

abbrev pub max_page_bytes : ℕ
max_page_bytes = 4 * 1024 * 1024

-- `EventsPage`, without the reports that `read` copies into it.
pub record EventsPage (V : Type 0) : Type 0 where
  pub epoch : String
  pub epoch_started_at_unix_ms : ℕ
  pub next_cursor : Cursor
  pub oldest_retained_id : Option ℕ
  pub retention_gap : Bool
  pub recording_gap : Bool
  pub restarted : Bool
  pub dropped_events : ℕ
  pub dropped_bytes : ℕ
  pub events : List (Event V)
  pub watches : List WatchRecord

-- What the loop over the events has so far.
pub record Scan (V : Type 0) : Type 0 where
  pub events : List (Event V)
  pub page_bytes : ℕ
  pub next : ℕ
  pub exhausted : Bool

abbrev pub sees : String → WatchRecord → Bool
sees client r = visible r.owner r.input.lifetime client

abbrev pub cursor_id : Option Cursor → ℕ
cursor_id none = 0
cursor_id (some cursor) = cursor.id

module _ {V : Type 0} where
  abbrev pub is_full : ℕ → Scan V → ℕ → Bool
  is_full limit scan bytes =
      length scan.events == limit || ltb max_page_bytes (scan.page_bytes + bytes)

  abbrev pub skipped : Event V → Scan V → Scan V
  skipped event scan = record scan { next = event.cursor.id }

  abbrev pub taken : Event V × ℕ → Scan V → Scan V
  taken (event, bytes) scan = record scan {
    events = scan.events ++ (event ∷ []);
    page_bytes = scan.page_bytes + bytes;
    next = event.cursor.id;
  }

  -- The loop takes an event that is after the cursor, visible and selected, until the page is full.
  unfoldable pub scan_events : (Event V → Bool) → ℕ → ℕ → Scan V → List (Event V × ℕ) → Scan V
  scan_events want limit after scan [] = scan
  scan_events want limit after scan ((event, bytes) ∷ rest) = elim (leb event.cursor.id after) [
    | true ↦ scan_events want limit after scan rest
    | false ↦ elim (want event) [
      | false ↦ scan_events want limit after (skipped event scan) rest
      | true ↦ elim (is_full limit scan bytes) [
        | true ↦ record scan { exhausted = false }
        | false ↦ scan_events want limit after (taken (event, bytes) scan) rest
      ]
    ]
  ]

  abbrev pub watches_read : EventsInput V → Store V → String → List WatchRecord
  watches_read input s client =
      keep (λ r. is_none_or input.filter.source (λ source. str_eq source (name r.input.source)))
        (keep (λ r. is_none_or input.filter.watch_id (λ id. str_eq id r.id))
          (keep (sees client) (values s.watches)))

  abbrev first_id : List (Event V × ℕ) → Option ℕ
  first_id [] = none
  first_id ((event, bytes) ∷ events) = some event.cursor.id

  abbrev pub next_of : Store V → Scan V → ℕ
  next_of s scan = if scan.exhausted then s.next_id - 1 else scan.next

  abbrev pub from : ℕ → Scan V
  from after = record { events = []; page_bytes = 0; next = after; exhausted = true }

module _ {V : Type 0} (json : Json V) where
  abbrev pub wanted : EventFilter V → String → Store V → Event V → Bool
  wanted filter client s event =
      is_some_and (get event.watch_id s.watches) (λ r. sees client r)
      && filter_matches json filter event

  abbrev pub page_of : EventsInput V → String → Store V → Bool → ℕ → ℕ → EventsPage V
  page_of input client s restarted after limit =
      let scan = scan_events (wanted input.filter client s) limit after (from after) s.events in
      let watches = watches_read input s client in
      record {
        epoch = s.epoch;
        epoch_started_at_unix_ms = s.started;
        next_cursor = record { epoch = s.epoch; id = next_of s scan };
        oldest_retained_id = first_id s.events;
        retention_gap = any (λ r. ltb after r.last_dropped_id) watches;
        recording_gap = any (λ r. ltb after r.last_gap_id) watches;
        restarted = restarted;
        dropped_events = sum_by (λ r. r.retention_dropped_events) watches;
        dropped_bytes = sum_by (λ r. r.retention_dropped_bytes) watches;
        events = scan.events;
        watches = watches;
      }

  unfoldable pub read : Store V → EventsInput V → String → Result ObservationError (EventsPage V)
  read s input client = do
    validate_filter json input.filter
    let limit = unwrap_or input.limit 100
    ensure (in_range 1 1000 limit) invalid_limit
    ensure
        (is_none_or input.filter.watch_id
          (λ id. is_some_and (get id s.watches) (λ r. sees client r)))
        watch_not_found
    let restarted = is_some_and input.after (λ cursor. not (str_eq cursor.epoch s.epoch))
    let asked = cursor_id input.after
    ensure (ltb asked s.next_id || restarted) cursor_ahead
    ok (page_of input client s restarted (if leb s.next_id asked then 0 else asked) limit)
