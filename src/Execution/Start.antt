-- ===== src/Execution/Start.antt =====
-- src/execution.rs: the record of a new entry, the gate before its process is resumed, and the end
-- of connections and of the host.
pub mod Gate
pub mod Calls
use master_control_program.Base.{
  ℕ, ◌*◌, ◌≡◌, String, Bool, true, false, not, ◌&&◌, ◌||◌, Option, none, some, List, [], ◌∷◌, ◌++◌,
  map, if◌then◌else◌, is_some, is_none, Result, ok, err, ensure, or_err, ◌>>=◌, ◌>>◌,
}
use master_control_program.Base.Map.{Map, string_key, get, insert, remove, adjust}
use master_control_program.Execution.Buffer
use master_control_program.Execution.Record.{
  Entry, ExecutionRecord, ExecutionKind, ExecutionStatus, Lifetime, Stream, combined, stdout,
  stderr, JobStartInput, NativeProcess, ExecutionError, job, terminal, starting, running,
  is_persistent, owned_by, scope_closed, canceled_before_resume, request_canceled, unknown_id, os,
  connection_closed_during_startup, stream_key,
}
use master_control_program.Execution.Entry.{OsAnswer, terminate}
use master_control_program.Execution.Registry.{Registry, is_cancelled, connection_is_open, check}

-- `capacity * if size.is_some() { 1 } else { 2 }`
abbrev pub start_budget : ℕ → Option (ℕ × ℕ) → ℕ
start_budget capacity (some size) = capacity * 1
start_budget capacity none = capacity * 2

-- The streams that `native::create` returns readers for.
abbrev pub start_streams : Option (ℕ × ℕ) → List Stream
start_streams (some size) = combined ∷ []
start_streams none = stdout ∷ stderr ∷ []

abbrev kind_of : Option (ℕ × ℕ) → ExecutionKind
kind_of (some size) = terminal
kind_of none = job

abbrev owner_of : Lifetime → String → Option String
owner_of Lifetime.connection client = some client
owner_of Lifetime.persistent client = none

abbrev first : Option (ℕ × ℕ) → Option ℕ
first none = none
first (some (a, b)) = some a

abbrev second : Option (ℕ × ℕ) → Option ℕ
second none = none
second (some (a, b)) = some b

abbrev some_bytes : List ℕ → Bool
some_bytes [] = false
some_bytes (b ∷ bs) = true

-- The entry that `start` admits.
unfoldable pub new_entry :
    String
    → String
    → ℕ
    → JobStartInput
    → Option (ℕ × ℕ)
    → String
    → NativeProcess
    → ℕ
    → List ℕ
    → Entry
unfolding Buffer.new
new_entry id epoch now input size client process capacity stdin = record {
  info = record {
    id = id;
    epoch = epoch;
    kind = kind_of size;
    lifetime = input.lifetime;
    owner_connection = owner_of input.lifetime client;
    pid = process.pid;
    process_creation_time = process.creation_time;
    program = process.program;
    args = input.args;
    cwd = process.cwd;
    started_at_ms = now;
    finished_at_ms = none;
    status = starting;
    root_exit_code = none;
    tree_active_processes = 1;
    process_state_current = true;
    output_drained = false;
    cancellation_requested = false;
    cancellation_reason = none;
    last_error = none;
    restart_gap = none;
    cols = first size;
    rows = second size;
    output_limit_bytes = capacity;
    timeout_ms = input.timeout_ms;
  };
  streams = map (λ stream. (stream, Buffer.new capacity)) (start_streams size);
  stdin_pending = is_none size && some_bytes stdin;
  native = some process;
  input = false;
  budget = start_budget capacity size;
}

-- `StartupCancellation::before_resume`
unfoldable pub before_resume : Registry → Bool → ℕ → Lifetime → Result ExecutionError (Unit {0})
unfolding check
before_resume r requested token Lifetime.connection = check r requested token
before_resume r requested token Lifetime.persistent =
    if is_cancelled r token then ok tt else ensure (not requested) request_canceled

abbrev is_starting : ExecutionStatus → Bool
is_starting starting = true
is_starting _ = false

abbrev pub resumed : Registry → String → Registry
resumed r id = record r {
  entries = adjust id (λ e. record e { info = record e.info { status = running } }) r.entries;
}

abbrev answered : OsAnswer → Result ExecutionError (Unit {0})
answered none = ok tt
answered (some failure) = err (os failure)

-- The block of `start` that resumes the process under the lock. `shutdown` is the host's token.
unfoldable pub resume :
    Registry
    → Bool
    → Bool
    → ℕ
    → String
    → Lifetime
    → String
    → OsAnswer
    → Result ExecutionError Registry
resume r shutdown requested token client lifetime id answer = do
  ensure (not r.closed && (not shutdown && (is_persistent lifetime || connection_is_open r client)))
      scope_closed
  e ← or_err (get id r.entries) unknown_id
  ensure (is_starting e.info.status && not e.info.cancellation_requested) canceled_before_resume
  before_resume r requested token lifetime
  answered answer
  ok (resumed r id)

-- The part of `shutdown_connection` under the lock.
unfoldable pub disconnect : Registry → String → Registry
disconnect r id = elim (get id r.connections) [
  | none ↦ r
  | some token ↦ record r { connections = remove id r.connections; canceled = token ∷ r.canceled }
]

abbrev pub tokens : Map String ℕ → List ℕ
tokens = map (λ c. c.1)

-- The part of `shutdown` under the lock.
unfoldable pub close : Registry → Registry
close r = record r {
  closed = true;
  connections = [];
  canceled = tokens r.connections ++ r.canceled;
}

-- What the loop `for entry in entries { entry.terminate(reason) }` does to one entry: it is left
-- alone unless it is selected, and a failure is collected.
abbrev pub end_one : (Entry → Bool) → String → OsAnswer → Entry → Entry
end_one selected reason answer e = if selected e then (terminate e reason answer).0 else e

abbrev pub failures_of :
    (Entry → Bool) → String → OsAnswer → Entry → List ExecutionError → List ExecutionError
failures_of selected reason answer e failures =
    if selected e
    then elim ((terminate e reason answer).1) [ ok _ ↦ failures | err x ↦ x ∷ failures ]
    else failures

-- The answers of Windows are given by the entry's identifier.
unfoldable pub terminate_all :
    (Entry → Bool)
    → String
    → (String → OsAnswer)
    → Map String Entry
    → Map String Entry × List ExecutionError
terminate_all selected reason answers [] = ([], [])
terminate_all selected reason answers ((id, e) ∷ m) =
    let rest = terminate_all selected reason answers m in
    (
      (id, end_one selected reason (answers id) e) ∷ rest.0,
      failures_of selected reason (answers id) e rest.1,
    )

unfoldable pub shutdown_connection :
    Registry → String → (String → OsAnswer) → Registry × List ExecutionError
shutdown_connection r id answers =
    let q = disconnect r id in
    let (entries, failures) = terminate_all (owned_by id) "connection_closed" answers q.entries in
    (record q { entries = entries }, failures)
