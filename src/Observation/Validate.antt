-- ===== src/Observation/Validate.antt =====
-- src/observation.rs: the checks of a watch and of a filter before they are used.
use master_control_program.Base.{
  ℕ, ◌*◌, ◌≤◌, ◌≡◌, String, Bool, not, ◌&&◌, ◌||◌, Option, List, [], ◌∷◌, length, any, all, leb,
  ltb, ◌==◌, in_range, is_some, is_none_or, unwrap_or, Result, ok, ensure, ◌>>◌, arith, str_eq,
}
use master_control_program.Observation.Record.{
  ProcessIdentity, EtwProvider, RecordingScope, Source, WatchInput, EventFilter, Json,
  ObservationError, max_duration_ms, max_events, max_bytes, no_creation_identity,
  too_many_processes, invalid_guid, filesystem, invalid_duration, too_many_event_ids, invalid_level,
  invalid_path, invalid_max_events, since_exceeds_until, registry, invalid_max_bytes,
  filter_too_large, service, invalid_max_recorded_events, invalid_service,
  invalid_max_recorded_bytes, process, etw, invalid_providers, ui_automation, too_many_kinds,
  unsupported_event,
}

-- `for process in &self.processes`
unfoldable pub check_processes : List ProcessIdentity → Result ObservationError (Unit {0})
check_processes [] = ok tt
check_processes (p ∷ ps) =
    ensure (is_some p.process_created_100ns) no_creation_identity >> check_processes ps

unfoldable pub validate_scope : RecordingScope → Result ObservationError (Unit {0})
validate_scope scope = do
  ensure (leb (length scope.processes) 64) too_many_processes
  ensure (leb (length scope.event_ids) 128) too_many_event_ids
  check_processes scope.processes

-- `!text.is_empty() && text.len() <= limit && !text.contains('\0')`
abbrev is_text : ℕ → List ℕ → Bool
is_text limit text =
    ltb 0 (length text) && (leb (length text) limit && not (any (λ byte. byte == 0) text))

-- `is_uuid` is the answer of `Uuid::parse_str`.
unfoldable pub check_providers :
    (String → Bool) → List EtwProvider → Result ObservationError (Unit {0})
check_providers is_uuid [] = ok tt
check_providers is_uuid (p ∷ ps) =
    ensure (is_uuid p.guid) invalid_guid
    >> (ensure (leb (unwrap_or p.level 5) 5) invalid_level >> check_providers is_uuid ps)

abbrev is_supported : String → Bool
is_supported event =
    str_eq event "window_opened"
    || (str_eq event "window_closed"
        || (str_eq event "invoked" || (str_eq event "selection" || str_eq event "text_changed")))

unfoldable pub validate_source : (String → Bool) → Source → Result ObservationError (Unit {0})
validate_source is_uuid (filesystem path recursive) = ensure (is_text 32_768 path) invalid_path
validate_source is_uuid (registry path recursive) = ensure (is_text 32_768 path) invalid_path
validate_source is_uuid (service name) = ensure (is_text 256 name) invalid_service
validate_source is_uuid (process scope) = validate_scope scope
validate_source is_uuid (etw providers scope) = do
  ensure (ltb 0 (length providers) && leb (length providers) 8) invalid_providers
  check_providers is_uuid providers
  validate_scope scope
validate_source is_uuid (ui_automation hwnd events scope) = do
  ensure (leb (length events) 5) too_many_kinds
  ensure (all is_supported events) unsupported_event
  validate_scope scope

unfoldable pub validate_watch : (String → Bool) → WatchInput → Result ObservationError ℕ
validate_watch is_uuid input = do
  validate_source is_uuid input.source
  let duration = unwrap_or input.max_duration_ms 300_000
  ensure (in_range 1 max_duration_ms duration) invalid_duration
  ensure (in_range 1 max_events (unwrap_or input.max_events 1024)) invalid_max_events
  ensure (in_range 1024 max_bytes (unwrap_or input.max_bytes (1024 * 1024))) invalid_max_bytes
  ensure (in_range 1 1_000_000 (unwrap_or input.max_recorded_events 100_000))
      invalid_max_recorded_events
  ensure
      (in_range 1024 (1024 * 1024 * 1024) (unwrap_or input.max_recorded_bytes (64 * 1024 * 1024)))
      invalid_max_recorded_bytes
  ok duration

abbrev in_order : Option ℕ → Option ℕ → Bool
in_order since until = is_none_or since (λ a. is_none_or until (λ b. leb a b))

module _ {V : Type 0} (json : Json V) where
  unfoldable pub validate_filter : EventFilter V → Result ObservationError (Unit {0})
  validate_filter filter = do
    ensure (is_none_or filter.process (λ p. is_some p.process_created_100ns)) no_creation_identity
    ensure (in_order filter.since_unix_ms filter.until_unix_ms) since_exceeds_until
    ensure (leb (json.filter_size filter) (16 * 1024)) filter_too_large

-- The limits that an accepted watch keeps.
pub record IsBounded (input : WatchInput) (duration : ℕ) : Type 0 where
  pub runs : 1 ≤ duration
  pub ends : duration ≤ max_duration_ms
  pub some_events : 1 ≤ unwrap_or input.max_events 1024
  pub few_events : unwrap_or input.max_events 1024 ≤ max_events
  pub some_bytes : 1024 ≤ unwrap_or input.max_bytes (1024 * 1024)
  pub few_bytes : unwrap_or input.max_bytes (1024 * 1024) ≤ max_bytes

-- A watch that is accepted keeps the limits on its duration and on the events and bytes that it
-- retains.
pub validate_watch-IsBounded :
    (is_uuid : String → Bool) (input : WatchInput) {duration : ℕ}
    → validate_watch is_uuid input ≡ ok duration
    → IsBounded input duration
unfolding validate_watch
validate_watch-IsBounded is_uuid input h = ground arith
