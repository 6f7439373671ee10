-- ===== src/Execution/Input.antt =====
-- src/execution/input.rs: `InputWriter`, the queue of the input of a terminal and the loop that writes a
-- request to the pipe.
pub mod Delivered
pub mod Accounted
use master_control_program.Base.{
  ℕ, zero, suc, ◌+◌, ◌-◌, ◌^◌, min, String, Bool, true, false, not, ◌&&◌, ◌||◌, Option, none, some,
  List, [], ◌∷◌, ◌++◌, length, take, drop, leb, ltb, ◌==◌, is_some, if◌then◌else◌, Result, ok, err,
  ensure, or_err, ◌>>=◌, ◌>>◌, ◌≡◌, ◌≤◌,
}
use master_control_program.Base.Map.{Map, nat_key, get, insert, remove}
use master_control_program.Execution.Record.{max_input_bytes}

-- What a write to the pipe answers: how many bytes it accepted, or an error, which may be that the write
-- was aborted. A write that answers with an error may have delivered some bytes, which the answer does
-- not tell to the loop.
pub data FileAnswer : Type 0 where
  accepted : ℕ → FileAnswer
  refused : (taken : ℕ) → (aborted : Bool) → String → FileAnswer

-- The pipe: its answer to each write, which accepts no more than it is offered.
pub record Pipe : Type 0 where
  pub answer : ℕ → List ℕ → FileAnswer
  pub fits :
      (round : ℕ) (offered : List ℕ) (n : ℕ)
      → answer round offered ≡ accepted n
      → n ≤ length offered

-- The variables of the loop, and the bytes that went into the pipe, also those that no answer confirmed.
pub record Writing : Type 0 where
  pub written : ℕ
  pub error : Option String
  pub uncertain : Bool
  pub delivered : List ℕ

abbrev pub chunk_bytes : ℕ
chunk_bytes = 4096

-- `&request.bytes[written..end]`
abbrev pub offered : List ℕ → ℕ → List ℕ
offered bytes written =
    take (min (written + chunk_bytes) (length bytes) - written) (drop written bytes)

-- What the loop makes of an answer, and whether it goes on.
abbrev pub after_write : List ℕ → (canceled : Bool) → FileAnswer → Writing → Writing × Bool
after_write bytes canceled (accepted zero) w =
    (record w { error = some "WriteFile accepted zero bytes" }, false)
after_write bytes canceled (accepted (suc n)) w = (
  record w {
    written = w.written + suc n;
    delivered = w.delivered ++ take (suc n) (offered bytes w.written);
  },
  true,
)
after_write bytes canceled (refused taken aborted message) w = (
  record w {
    uncertain = true;
    delivered = w.delivered ++ take taken (offered bytes w.written);
    error = if not aborted || not canceled then some message else w.error;
  },
  false,
)

module _ (pipe : Pipe) (canceled : ℕ → Bool) (canceled_after : ℕ → Bool) where
  -- `while written < request.bytes.len() && !request.canceled`, on fuel.
  unfoldable pub write_loop : ℕ → ℕ → List ℕ → Writing → Option Writing
  write_loop zero round bytes w = none
  write_loop (suc fuel) round bytes w =
      elim (ltb w.written (length bytes) && not (canceled round)) [
        | false ↦ some w
        | true ↦
            let next =
              after_write bytes (canceled_after round) (pipe.answer round (offered bytes w.written))
                w in
            elim next.1 [ true ↦ write_loop fuel (suc round) bytes next.0 | false ↦ some next.0 ]
      ]

abbrev pub nothing_written : Writing
nothing_written = record { written = 0; error = none; uncertain = false; delivered = [] }

pub record InputResult : Type 0 where
  pub outcome : String
  pub requested_bytes : ℕ
  pub bytes_written : ℕ
  pub write_completion_uncertain : Bool
  pub error : Option String
  pub semantics : String

abbrev pub input_result : List ℕ → Writing → InputResult
input_result bytes w = record {
  outcome =
      if is_some w.error
      then "failed"
      else if w.written == length bytes
      then "written"
      else "canceled";
  requested_bytes = length bytes;
  bytes_written = w.written;
  write_completion_uncertain = w.uncertain;
  error = w.error;
  semantics =
      if w.uncertain
      then "bytes_written counts confirmed writes; the interrupted chunk may have delivered additional bytes. Do not replay input automatically"
      else "bytes written to the ConPTY input pipe, not an application postcondition";
}

-- The counter of the writer, the requests of calls that have reserved their bytes, the requests in the
-- channel, and the length of the one that is written.
pub record InputQueue : Type 0 where
  pub pending_bytes : ℕ
  pub next_id : ℕ
  pub reserved : Map ℕ ℕ
  pub queued : List (ℕ × ℕ)
  pub active : Option (ℕ × ℕ)
  pub is_open : Bool

pub data InputError : Type 0 where
  canceled_before : InputError
  too_many_bytes : InputError
  queue_full : InputError
  pipe_closed : InputError

abbrev pub usize_limit : ℕ
usize_limit = 2 ^ 64

abbrev pub queue_capacity : ℕ
queue_capacity = 8

-- The start of `write`: the bytes are added to the counter in one step, and the call takes a number.
unfoldable pub reserve_input : ℕ → (canceled : Bool) → InputQueue → Result InputError InputQueue
reserve_input count canceled q =
    ensure (not canceled) canceled_before
    >> ensure
        (ltb (q.pending_bytes + count) usize_limit && leb (q.pending_bytes + count) max_input_bytes)
        too_many_bytes
    >> ok record q {
      pending_bytes = q.pending_bytes + count;
      next_id = suc q.next_id;
      reserved = insert q.next_id count q.reserved;
    }

-- `try_send`, and what follows its error.
unfoldable pub send_input : ℕ → ℕ → InputQueue → InputQueue × Result InputError (Unit {0})
send_input id count q =
    let r = record q { reserved = remove id q.reserved } in
    let refused = record r { pending_bytes = q.pending_bytes - count } in
    if not q.is_open
    then (refused, err pipe_closed)
    else (if ltb (length q.queued) queue_capacity
        then (record r { queued = q.queued ++ ((id, count) ∷ []) }, ok tt)
        else (refused, err queue_full))

-- `receiver.recv()`, when no request is written.
unfoldable pub receive_input : InputQueue → InputQueue
receive_input q = elim q.active [
  | some request ↦ q
  | none ↦ elim q.queued [
    | [] ↦ q
    | request ∷ rest ↦ record q { queued = rest; active = some request }
  ]
]

-- The end of a round of the thread.
unfoldable pub complete_input : InputQueue → InputQueue
complete_input q = elim q.active [
  | none ↦ q
  | some (id, count) ↦ record q { active = none; pending_bytes = q.pending_bytes - count }
]
