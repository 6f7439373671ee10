-- ===== src/Tests/Execution/Entries.antt =====
-- The theorems on what becomes of an entry, applied.
use master_control_program.Execution.Record.{
  Entry, ExecutionRecord, ExecutionStatus, Lifetime, NativeProcess, job, running, exited,
  stream_key, stdout, stderr, finished,
}
use master_control_program.Execution.Buffer.{ByteBuffer, append}
use master_control_program.Base.{
  String, ℕ, ◌≡◌, [], ◌∷◌, some, none, true, false, refl, ok, List, Bool,
}
use master_control_program.Execution.Entry.{
  Process, Event, step, run, got_bytes, got_end, sampled, asked, supervise, terminate,
}
use master_control_program.Base.Map.{get, adjust}
use master_control_program.Execution.Entry.Outcome.{IsSound, run-IsSound, ends_in_two_rounds}

abbrev pub info : String → Lifetime → ExecutionStatus → ℕ → ExecutionRecord
info id lifetime status started = record {
  id = id;
  epoch = "epoch";
  kind = job;
  lifetime = lifetime;
  owner_connection = some "client";
  pid = 7;
  process_creation_time = 1;
  program = 99 ∷ [];
  args = [];
  cwd = 67 ∷ [];
  started_at_ms = started;
  finished_at_ms = none;
  status = status;
  root_exit_code = none;
  tree_active_processes = 1;
  process_state_current = true;
  output_drained = false;
  cancellation_requested = false;
  cancellation_reason = none;
  last_error = none;
  restart_gap = none;
  cols = none;
  rows = none;
  output_limit_bytes = 4;
  timeout_ms = none;
}

abbrev pub process : NativeProcess
process = record { pid = 7; creation_time = 1; program = 99 ∷ []; cwd = 67 ∷ [] }

abbrev pub out : Bool → ByteBuffer
out eof = record { bytes = []; capacity = 4; end = 0; eof = eof; error = none }

abbrev pub live : String → Bool → ExecutionStatus → ℕ → Entry
live id eof status started = record {
  info = info id Lifetime.connection status started;
  streams = (stdout, out eof) ∷ (stderr, out true) ∷ [];
  stdin_pending = false;
  native = some process;
  input = true;
  budget = 8;
}

abbrev watched : Process
watched = record { entry = live "a" false running 5; pty_closed = false; watched = true }

watched_IsSound : IsSound watched
watched_IsSound = record { says = refl; reasons = refl }

abbrev events : List Event
events =
    got_bytes stdout (104 ∷ [])
    ∷ got_end stdout
    ∷ sampled 10 5 (ok (some 3, 0)) none
    ∷ sampled 11 6 (ok (some 3, 0)) none
    ∷ []

-- What the events leave.
abbrev ended : Process
ended = record watched {
  watched = false;
  pty_closed = true;
  entry = record watched.entry {
    input = false;
    streams =
        (stdout, record { bytes = 104 ∷ []; capacity = 4; end = 1; eof = true; error = none })
        ∷ (stderr, out true)
        ∷ [];
    info = record watched.entry.info {
      status = exited;
      finished_at_ms = some 11;
      root_exit_code = some 3;
      tree_active_processes = 0;
      output_drained = true;
    };
  };
}

events_ran : run watched events ≡ some ended
unfolding run step supervise append get adjust
events_ran = refl

run-IsSound_example : IsSound ended
run-IsSound_example = run-IsSound watched events watched_IsSound events_ran

asked_again : step ended (asked "shutdown" none) ≡ some ended
unfolding step terminate
asked_again = refl

abbrev finishing : Process
finishing = record watched { entry = live "a" true running 5 }

ends_in_two_rounds_example :
    (q : Process) × (run finishing
        (sampled 10 5 (ok (some 3, 0)) none ∷ sampled 11 6 (ok (some 3, 0)) none ∷ [])
      ≡ some q)
    × (q.watched ≡ false)
    × (finished q.entry.info.status ≡ true)
ends_in_two_rounds_example = ends_in_two_rounds finishing 3 10 11 5 6 none none refl refl refl
