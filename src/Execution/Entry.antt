-- ===== src/Execution/Entry.antt =====
-- src/execution.rs: `Entry::terminate`, and the supervisor thread of a process. What Windows
-- answers to a call is an argument.
pub mod Outcome
use master_control_program.Base.{
  [], ◌∷◌, ℕ, String, Bool, true, false, not, ◌&&◌, ◌||◌, Option, none, some, List, all, is_some,
  is_some_and, ◌==◌, leb, str_eq, if◌then◌else◌, Result, ok, err, ◌∷◌,
}
use master_control_program.Base.Map.{get, adjust}
use master_control_program.Execution.Buffer.{ByteBuffer, append}
use master_control_program.Execution.Record.{
  Entry, ExecutionRecord, ExecutionStatus, ExecutionError, NativeProcess, finished, no_live_handle,
  os, root_exited, exited, canceled, timed_out, failed, Stream, stream_key,
}

-- The answer of `TerminateJobObject`, `None` for success.
abbrev pub OsAnswer : Type 0
OsAnswer = Option String

abbrev pub request_cancellation : String → ExecutionRecord → ExecutionRecord
request_cancellation reason r =
    if r.cancellation_requested
    then r
    else record r { cancellation_requested = true; cancellation_reason = some reason }

abbrev pub is_over : ExecutionRecord → Bool
is_over r = finished r.status && is_some r.root_exit_code && r.tree_active_processes == 0

abbrev ask_os : Entry → String → OsAnswer → Entry × Result ExecutionError ExecutionRecord
ask_os e reason (some failure) = (e, err (os failure))
ask_os e reason none = let r = request_cancellation reason e.info in (record e { info = r }, ok r)

abbrev terminate_live :
    Option NativeProcess → Entry → String → OsAnswer → Entry × Result ExecutionError ExecutionRecord
terminate_live none e reason answer = (e, err no_live_handle)
terminate_live (some process) e reason answer =
    if is_over e.info then (e, ok e.info) else ask_os e reason answer

unfoldable pub terminate : Entry → String → OsAnswer → Entry × Result ExecutionError ExecutionRecord
terminate e reason answer = terminate_live e.native e reason answer

-- `stream.eof || stream.error.is_some()`
abbrev pub closed : ByteBuffer → Bool
closed b = b.eof || is_some b.error

abbrev pub all_closed : Entry → Bool
all_closed e = all (λ s. closed s.1) e.streams

abbrev pub all_eof : Entry → Bool
all_eof e = all (λ s. s.1.eof) e.streams

-- The status of an entry whose tree and streams have ended.
abbrev pub final_status : ExecutionRecord → ExecutionStatus
final_status r =
    if is_some r.last_error
    then failed
    else if is_some_and r.cancellation_reason (λ reason. str_eq reason "deadline_exceeded")
    then timed_out
    else if r.cancellation_requested
    then canceled
    else exited

-- An entry with the threads that serve it: `watched` while the supervisor runs.
pub record Process : Type 0 where
  pub entry : Entry
  pub pty_closed : Bool
  pub watched : Bool

abbrev with_info : Process → ExecutionRecord → Process
with_info p r = record p { entry = record p.entry { info = r } }

abbrev pub is_done : Entry → Bool
is_done e =
    is_some e.info.root_exit_code
    && (e.info.tree_active_processes == 0 && (all_closed e && not e.stdin_pending))

abbrev pub is_due : ExecutionRecord → ℕ → Bool
is_due r elapsed = not r.cancellation_requested && is_some_and r.timeout_ms (λ ms. leb ms elapsed)

abbrev pub after_deadline : Entry × Result ExecutionError ExecutionRecord → Entry
after_deadline (e, ok _) = e
after_deadline (e, err _) = record e {
  info = record e.info { last_error = some "deadline cleanup failed" };
}

abbrev pub finish : Process → ℕ → Process
finish p now = record p {
  entry = record p.entry {
    info = record p.entry.info { status = final_status p.entry.info; finished_at_ms = some now };
  };
  watched = false;
}

-- The rest of a round in which the process was sampled: the final status, or the deadline.
abbrev pub conclude : Process → ℕ → ℕ → OsAnswer → Process
conclude p now elapsed answer =
    if is_done p.entry
    then finish p now
    else (let e =
          (if is_some p.entry.info.root_exit_code
            then record p.entry { info = record p.entry.info { status = root_exited } }
            else p.entry) in
        if is_due e.info elapsed
        then record p { entry = after_deadline (terminate e "deadline_exceeded" answer) }
        else record p { entry = e })

abbrev pub see : Entry → Option ℕ → ℕ → Entry
see e exit active = record e {
  info = record e.info { root_exit_code = exit; tree_active_processes = active };
}

abbrev pub drained : Process → Process
drained p = record p {
  entry = record p.entry { info = record p.entry.info { output_drained = all_eof p.entry } };
}

-- One round of the loop of `supervise`. The sample is the exit code and the number of processes of
-- the tree, or an error; `answer` is that of a termination that the round asks for.
unfoldable pub supervise : Process → ℕ → ℕ → Result String (Option ℕ × ℕ) → OsAnswer → Process
unfolding terminate
supervise p now elapsed (err failure) answer = record p {
  entry = record p.entry {
    info = record p.entry.info {
      last_error = some failure;
      status = failed;
      process_state_current = false;
    };
    input = false;
  };
  pty_closed = true;
  watched = false;
}
supervise p now elapsed (ok (exit, active)) answer =
    if active == 0 && not p.pty_closed
    then record p { entry = record (see p.entry exit active) { input = false }; pty_closed = true }
    else conclude (drained (record p { entry = see p.entry exit active })) now elapsed answer

-- What the threads of an entry do: a reader gets bytes, the end of its pipe or an error; the writer
-- of the standard input ends; the supervisor makes a round; a client, a closed connection or a
-- shutdown asks for termination.
pub data Event : Type 0 where
  got_bytes : Stream → List ℕ → Event
  got_end : Stream → Event
  got_error : Stream → String → Event
  wrote_stdin : Option String → Event
  sampled : ℕ → ℕ → Result String (Option ℕ × ℕ) → OsAnswer → Event
  asked : String → OsAnswer → Event

abbrev with_stream : Process → Stream → ByteBuffer → Process
with_stream p s b = record p {
  entry = record p.entry { streams = adjust s (λ _. b) p.entry.streams };
}

-- A reader ends with its stream; `none` is the panic of `append`.
abbrev on_open : Process → Stream → (ByteBuffer → Option Process) → Option Process
on_open p s f = elim (get s p.entry.streams) [
  | none ↦ some p
  | some b ↦ (if closed b then some p else f b)
]

unfoldable pub step : Process → Event → Option Process
unfolding supervise terminate
step p (got_bytes s bytes) =
    on_open p s λ b. elim (append b bytes) [ none ↦ none | some b' ↦ some (with_stream p s b') ]
step p (got_end s) = on_open p s λ b. some (with_stream p s (record b { eof = true }))
step p (got_error s failure) = on_open p s λ b. some (
    with_info (with_stream p s (record b { error = some failure }))
      (record p.entry.info { last_error = some failure }))
step p (wrote_stdin failure) =
    if p.entry.stdin_pending
    then some (record p {
      entry = record p.entry {
        stdin_pending = false;
        info = elim failure [
          | none ↦ p.entry.info
          | some failure ↦ record p.entry.info { last_error = some failure }
        ];
      };
    })
    else some p
step p (sampled now elapsed sample answer) =
    if p.watched then some (supervise p now elapsed sample answer) else some p
step p (asked reason answer) = some (record p { entry = (terminate p.entry reason answer).0 })

-- The threads' events in the order in which they take the entry's lock.
unfoldable pub run : Process → List Event → Option Process
unfolding step
run p [] = some p
run p (event ∷ events) = elim (step p event) [ none ↦ none | some q ↦ run q events ]
