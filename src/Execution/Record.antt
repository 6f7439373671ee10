-- ===== src/Execution/Record.antt =====
-- src/execution.rs: the data of jobs and terminals. A text whose length or bytes the code looks at
-- is a list of bytes; an identifier or a message is a `String`.
use master_control_program.Base.{
  ℕ, String, Bool, true, false, Option, List, ◌≡◌, ◌↔◌, arith, is_none, is_some, ◌&&◌, ◌||◌, ◌==◌,
  str_eq, is_some_and,
}
use master_control_program.Base.Map.{Key, Map}
use master_control_program.Execution.Buffer.{ByteBuffer, SavedBuffer, BufferError}

abbrev pub Text : Type 0
Text = List ℕ

abbrev pub default_output_bytes : ℕ
default_output_bytes = 262_144

abbrev pub max_output_bytes : ℕ
max_output_bytes = 4_194_304

abbrev pub max_total_output_bytes : ℕ
max_total_output_bytes = 67_108_864

abbrev pub max_records : ℕ
max_records = 64

abbrev pub max_read_bytes : ℕ
max_read_bytes = 262_144

abbrev pub max_input_bytes : ℕ
max_input_bytes = 65_536

abbrev pub max_wait_ms : ℕ
max_wait_ms = 300_000

pub data Lifetime : Type 0 where
  connection persistent : Lifetime

abbrev pub is_persistent : Lifetime → Bool
is_persistent connection = false
is_persistent persistent = true

pub record JobStartInput : Type 0 where
  pub program : Text
  pub args : List Text
  pub cwd : Option Text
  pub env : List (Text × Option Text)
  pub lifetime : Lifetime
  pub output_limit_bytes : Option ℕ
  pub timeout_ms : Option ℕ
  pub stdin_text : Option Text
  pub stdin_base64 : Option Text

pub record TerminalCreateInput : Type 0 where
  pub process : JobStartInput
  pub cols : Option ℕ
  pub rows : Option ℕ

pub data Stream : Type 0 where
  combined stdout stderr : Stream

abbrev stream_eq : Stream → Stream → Bool
stream_eq combined combined = true
stream_eq stdout stdout = true
stream_eq stderr stderr = true
stream_eq _ _ = false

-- The derived order of the constructors.
abbrev stream_before : Stream → Stream → Bool
stream_before combined stdout = true
stream_before combined stderr = true
stream_before stdout stderr = true
stream_before _ _ = false

pub stream_eq_iff : (a b : Stream) → (stream_eq a b ≡ true) ↔ (a ≡ b)
stream_eq_iff a b = ground arith

instance abbrev pub stream_key : Key Stream
stream_key = record { beq = stream_eq; beq_iff = stream_eq_iff; before = stream_before }

pub record OutputInput : Type 0 where
  pub id : String
  pub stream : Option Stream
  pub cursor : Option ℕ
  pub max_bytes : Option ℕ

pub data ExecutionKind : Type 0 where
  job terminal : ExecutionKind

pub data ExecutionStatus : Type 0 where
  starting running root_exited exited canceled timed_out failed : ExecutionStatus
  interrupted_host_restart : ExecutionStatus

abbrev pub finished : ExecutionStatus → Bool
finished exited = true
finished canceled = true
finished timed_out = true
finished failed = true
finished interrupted_host_restart = true
finished _ = false

pub record RestartGap : Type 0 where
  pub checkpoint_at_ms : ℕ
  pub observed_restart_at_ms : ℕ
  pub output_after_checkpoint_unknown : Bool
  pub mutations_replayed : Bool

pub record ExecutionRecord : Type 0 where
  pub id : String
  pub epoch : String
  pub kind : ExecutionKind
  pub lifetime : Lifetime
  pub owner_connection : Option String
  pub pid : ℕ
  pub process_creation_time : ℕ
  pub program : Text
  pub args : List Text
  pub cwd : Text
  pub started_at_ms : ℕ
  pub finished_at_ms : Option ℕ
  pub status : ExecutionStatus
  pub root_exit_code : Option ℕ
  pub tree_active_processes : ℕ
  pub process_state_current : Bool
  pub output_drained : Bool
  pub cancellation_requested : Bool
  pub cancellation_reason : Option String
  pub last_error : Option String
  pub restart_gap : Option RestartGap
  pub cols : Option ℕ
  pub rows : Option ℕ
  pub output_limit_bytes : ℕ
  pub timeout_ms : Option ℕ

-- What the manager reads of a process that Windows created for it (src/execution/native.rs).
pub record NativeProcess : Type 0 where
  pub pid : ℕ
  pub creation_time : ℕ
  pub program : Text
  pub cwd : Text

-- `EntryData` and the rest of `Entry`, which stand behind one lock each; the writer is present
-- exactly while `input` is `true`.
pub record Entry : Type 0 where
  pub info : ExecutionRecord
  pub streams : Map Stream ByteBuffer
  pub stdin_pending : Bool
  pub native : Option NativeProcess
  pub input : Bool
  pub budget : ℕ

pub record Checkpoint : Type 0 where
  pub version : ℕ
  pub epoch : String
  pub saved_at_ms : ℕ
  pub evicted : ℕ
  pub records : List (ExecutionRecord × Map Stream SavedBuffer)

-- The errors, named after their messages; `os` is an error of the operating system.
pub data ExecutionError : Type 0 where
  invalid_uuid shutting_down too_many_connections already_registered : ExecutionError
  unknown_connection persistence_unavailable connection_closed capacity_reached : ExecutionError
  request_canceled connection_closed_during_startup scope_closed canceled_before_resume :
      ExecutionError
  closed_before_resume unknown_id other_connection no_live_handle : ExecutionError
  invalid_size stdin_for_terminal invalid_program invalid_arguments arguments_too_long :
      ExecutionError
  cwd_too_long too_many_variables environment_too_long invalid_output_limit : ExecutionError
  invalid_timeout text_and_base64 no_input input_too_long base64_too_long bad_base64 :
      ExecutionError
  invalid_max_bytes stream_unavailable canceled_after_resume cleanup_failed : ExecutionError
  not_a_host bad_version too_many_records invalid_owner invalid_capacity : ExecutionError
  invalid_streams capacity_mismatch budget_exceeded duplicate_id : ExecutionError
  buffer : BufferError → ExecutionError
  os : String → ExecutionError

-- No process of the entry can still be running: `reserve` may forget it.
unfoldable pub evictable : Entry → Bool
evictable e =
    finished e.info.status
    && (is_none e.native || (is_some e.info.root_exit_code && e.info.tree_active_processes == 0))

-- `owner_connection.as_deref() == Some(client)`
abbrev pub owned_by : String → Entry → Bool
owned_by client e = is_some_and e.info.owner_connection (λ owner. str_eq owner client)

unfoldable pub authorized : Entry → String → Bool
authorized e client = is_persistent e.info.lifetime || owned_by client e
