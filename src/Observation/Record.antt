-- ===== src/Observation/Record.antt =====
-- src/observation.rs: the data of watches, events and waits. A JSON value is a parameter.
use master_control_program.Base.{ℕ, ◌*◌, String, Bool, true, false, Option, List, ◌||◌, str_eq}

abbrev pub max_duration_ms : ℕ
max_duration_ms = 86_400_000

abbrev pub max_retained : ℕ
max_retained = 128

abbrev pub max_active_watches : ℕ
max_active_watches = 32

abbrev pub max_events : ℕ
max_events = 8192

abbrev pub max_bytes : ℕ
max_bytes = 16 * 1024 * 1024

abbrev pub max_event_bytes : ℕ
max_event_bytes = 64 * 1024

pub data Lifetime : Type 0 where
  connection persistent : Lifetime

abbrev pub is_persistent : Lifetime → Bool
is_persistent connection = false
is_persistent persistent = true

abbrev pub visible : String → Lifetime → String → Bool
visible owner lifetime client = is_persistent lifetime || str_eq owner client

pub record ProcessIdentity : Type 0 where
  pub pid : ℕ
  pub process_created_100ns : Option ℕ
  pub session_id : Option ℕ
  pub identity_error : Option String

pub record TargetIdentity : Type 0 where
  pub process : Option ProcessIdentity
  pub hwnd : Option ℕ
  pub path : Option String
  pub registry_key : Option String
  pub service : Option String
  pub provider_guid : Option String

pub record EtwProvider : Type 0 where
  pub guid : String
  pub level : Option ℕ
  pub match_any_keyword : Option ℕ
  pub match_all_keyword : Option ℕ

pub record RecordingScope : Type 0 where
  pub processes : List ProcessIdentity
  pub session_id : Option ℕ
  pub event_ids : List ℕ

pub data Source : Type 0 where
  filesystem : List ℕ → Bool → Source
  registry : List ℕ → Bool → Source
  service : List ℕ → Source
  process : RecordingScope → Source
  etw : List EtwProvider → RecordingScope → Source
  ui_automation : Option ℕ → List String → RecordingScope → Source

abbrev pub name : Source → String
name (filesystem path recursive) = "filesystem"
name (registry path recursive) = "registry"
name (service path) = "service"
name (process scope) = "process"
name (etw providers scope) = "etw"
name (ui_automation hwnd events scope) = "ui_automation"

pub record WatchInput : Type 0 where
  pub source : Source
  pub lifetime : Lifetime
  pub max_duration_ms : Option ℕ
  pub max_events : Option ℕ
  pub max_bytes : Option ℕ
  pub max_recorded_events : Option ℕ
  pub max_recorded_bytes : Option ℕ

pub data WatchStatus : Type 0 where
  starting recording stopping stopped failed : WatchStatus

abbrev pub active : WatchStatus → Bool
active starting = true
active recording = true
active stopping = true
active _ = false

pub record Cursor : Type 0 where
  pub epoch : String
  pub id : ℕ

pub record Event (V : Type 0) : Type 0 where
  pub cursor : Cursor
  pub watch_id : String
  pub observed_at_unix_ms : ℕ
  pub native_timestamp_100ns : Option ℕ
  pub source : String
  pub kind : String
  pub target : TargetIdentity
  pub payload : V

pub record WatchRecord : Type 0 where
  pub id : String
  pub owner : String
  pub input : WatchInput
  pub status : WatchStatus
  pub started_at_unix_ms : ℕ
  pub recording_started_at_unix_ms : Option ℕ
  pub deadline_unix_ms : ℕ
  pub start_cursor : Cursor
  pub finished_at_unix_ms : Option ℕ
  pub recorded_events : ℕ
  pub recorded_bytes : ℕ
  pub retained_events : ℕ
  pub retained_bytes : ℕ
  pub retention_dropped_events : ℕ
  pub retention_dropped_bytes : ℕ
  pub last_dropped_id : ℕ
  pub last_gap_id : ℕ
  pub provider_lost_events : ℕ
  pub provider_lost_buffers : ℕ
  pub error : Option String
  pub stop_reason : Option String

pub record EventFilter (V : Type 0) : Type 0 where
  pub watch_id : Option String
  pub source : Option String
  pub kind : Option String
  pub process : Option ProcessIdentity
  pub path : Option String
  pub since_unix_ms : Option ℕ
  pub until_unix_ms : Option ℕ
  pub payload_equals : List (String × V)

pub record EventsInput (V : Type 0) : Type 0 where
  pub after : Option Cursor
  pub filter : EventFilter V
  pub limit : Option ℕ

pub data Outcome : Type 0 where
  running satisfied timed_out canceled failed : Outcome

pub record WaitInput (V : Type 0) : Type 0 where
  pub lifetime : Lifetime
  pub filter : EventFilter V
  pub after : Option Cursor
  pub deadline_unix_ms : ℕ
  pub background : Bool

pub record WaitRecord (V : Type 0) : Type 0 where
  pub id : String
  pub owner : String
  pub input : WaitInput V
  pub started_at_unix_ms : ℕ
  pub outcome : Outcome
  pub event : Option (Event V)
  pub finished_at_unix_ms : Option ℕ
  pub error : Option String
  pub cursor : Cursor

-- What the manager uses of the `serde_json` crate: the property of an object, the equality of values,
-- the length of a serialized event, and the values that it builds.
pub record Json (V : Type 0) : Type 0 where
  pub property : V → String → Option V
  pub same : V → V → Bool
  pub size : Event V → ℕ
  pub filter_size : EventFilter V → ℕ
  pub oversized : ℕ → V
  pub lost : String → Option ℕ → Option ℕ → V
  pub failure : String → V

-- A `Control` is shared by the store, the thread of the provider and its sink.
pub record Control : Type 0 where
  pub canceled : Bool
  pub finished : Bool

-- The errors of `ensure!`, named after their messages.
pub data ObservationError : Type 0 where
  too_many_processes too_many_event_ids no_creation_identity invalid_path : ObservationError
  invalid_service invalid_providers invalid_guid invalid_level too_many_kinds : ObservationError
  unsupported_event invalid_duration invalid_max_events invalid_max_bytes : ObservationError
  invalid_max_recorded_events invalid_max_recorded_bytes since_exceeds_until : ObservationError
  filter_too_large invalid_limit watch_not_found wait_not_found : ObservationError
  cursor_ahead connection_closed too_many_watches too_many_waits : ObservationError
  too_many_active still_stopping not_quiesced : ObservationError
