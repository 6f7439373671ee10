-- ===== src/Execution/Entry/Outcome.antt =====
-- src/execution.rs: what the status of an entry says of the process, after any events.
use master_control_program.Base.{
  ℕ, String, true, false, ◌≡◌, inl, inr, Option, none, some, [], ◌∷◌, is_some, refl, arith, ◌==◌,
  Option-cases, all, List, str_eq_iff, Bool-cases, Bool, Result, err, ok, ◌&&◌, not, sym, ◌∙◌,
}
use mathlib.Core.Path.{subst}
use mathlib.Core.Option.{some-injective}
use master_control_program.Base.Map.{Map, get}
use master_control_program.Execution.Buffer.{ByteBuffer}
use master_control_program.Execution.Record.{
  ExecutionStatus, Stream, stream_key, exited, canceled, timed_out, failed,
  interrupted_host_restart,
}
use master_control_program.Execution.Entry.{
  Process, run, got_end, wrote_stdin, asked, step, closed, is_done, got_error, finish, terminate,
  got_bytes, finished, conclude, Event, sampled, drained, see, all_closed,
}

-- What each status of a live entry says.
abbrev Says : ExecutionStatus → Process → Type 0
Says exited p =
    (is_done p.entry ≡ true)
    × (p.entry.info.cancellation_requested ≡ false)
    × (p.entry.info.last_error ≡ none)
    × (p.watched ≡ false)
Says canceled p =
    (is_done p.entry ≡ true)
    × (p.entry.info.cancellation_requested ≡ true)
    × (p.entry.info.last_error ≡ none)
    × (p.watched ≡ false)
Says timed_out p =
    (is_done p.entry ≡ true)
    × (p.entry.info.cancellation_reason ≡ some "deadline_exceeded")
    × (p.entry.info.last_error ≡ none)
    × (p.watched ≡ false)
Says failed p = (is_some p.entry.info.last_error ≡ true) × (p.watched ≡ false)
Says interrupted_host_restart p = ⊥
Says _ p = p.watched ≡ true

-- `exited`, `canceled` or `timed_out`.
abbrev is_settled : ExecutionStatus → Bool
is_settled exited = true
is_settled canceled = true
is_settled timed_out = true
is_settled _ = false

pub record IsSound (p : Process) : Type 0 where
  pub says : Says p.entry.info.status p
  pub reasons : is_some p.entry.info.cancellation_reason ≡ p.entry.info.cancellation_requested

-- A stream of an entry whose streams have all ended has ended.
all_closed-get :
    (m : Map Stream ByteBuffer) (s : Stream) (b : ByteBuffer)
    → all (λ (x : Stream × ByteBuffer). closed x.1) m ≡ true
    → get s m ≡ some b
    → closed b ≡ true
unfolding get
all_closed-get [] s b h e = cc
all_closed-get ((j, w) ∷ m) s b h e = ground (arith, all_closed-get m s b)

asked-IsSound :
    (p : Process) (reason : String) (answer : Option String) {q : Process}
    → IsSound p
    → step p (asked reason answer) ≡ some q
    → IsSound q
unfolding step
asked-IsSound p reason answer v e = ground arith

wrote_stdin-IsSound :
    (p : Process) (failure : Option String) {q : Process}
    → IsSound p
    → step p (wrote_stdin failure) ≡ some q
    → IsSound q
unfolding step
wrote_stdin-IsSound p failure v e = ground arith

all_closed-get-some :
    (p : Process) (s : Stream) (b : ByteBuffer)
    → is_done p.entry ≡ true
    → get s p.entry.streams ≡ some b
    → closed b ≡ true
all_closed-get-some p s b h e = all_closed-get p.entry.streams s b (ground arith) e

got_bytes-IsSound :
    (p : Process) (s : Stream) (bytes : List ℕ) {q : Process}
    → IsSound p
    → step p (got_bytes s bytes) ≡ some q
    → IsSound q
unfolding step
got_bytes-IsSound p s bytes v e = elim (Option-cases (get s p.entry.streams)) [
  | inl absent ↦ ground arith
  | inr (b, e') ↦ ground (arith, all_closed-get-some p s b)
]

got_end-IsSound :
    (p : Process) (s : Stream) {q : Process} → IsSound p → step p (got_end s) ≡ some q → IsSound q
unfolding step
got_end-IsSound p s v e = elim (Option-cases (get s p.entry.streams)) [
  | inl absent ↦ ground arith
  | inr (b, e') ↦ ground (arith, all_closed-get-some p s b)
]

got_error-IsSound :
    (p : Process) (s : Stream) (failure : String) {q : Process}
    → IsSound p
    → step p (got_error s failure) ≡ some q
    → IsSound q
unfolding step
got_error-IsSound p s failure v e = elim (Option-cases (get s p.entry.streams)) [
  | inl absent ↦ ground arith
  | inr (b, e') ↦ ground (arith, all_closed-get-some p s b)
]

finish-IsSound :
    (p : Process) (now : ℕ)
    → is_done p.entry ≡ true
    → is_some p.entry.info.cancellation_reason ≡ p.entry.info.cancellation_requested
    → IsSound (finish p now)
finish-IsSound p now h r = elim (Option-cases p.entry.info.cancellation_reason) [
  | inl absent ↦ ground arith
  | inr (reason, e) ↦ ground (arith, str_eq_iff reason "deadline_exceeded")
]

conclude-IsSound :
    (p : Process) (now elapsed : ℕ) (answer : Option String)
    → p.watched ≡ true
    → finished p.entry.info.status ≡ false
    → is_some p.entry.info.cancellation_reason ≡ p.entry.info.cancellation_requested
    → IsSound (conclude p now elapsed answer)
unfolding terminate
conclude-IsSound p now elapsed answer w f r = elim (Bool-cases (is_done p.entry)) [
  | inl done ↦ rw done (finish-IsSound p now done r)
  | inr more ↦ rw more (ground arith)
]

not_finished : (p : Process) → IsSound p → p.watched ≡ true → finished p.entry.info.status ≡ false
not_finished p v w = ground arith

-- A round in which the pseudoconsole need not be closed.
concludes :
    (p : Process) (now elapsed : ℕ) (exit : Option ℕ) (active : ℕ) (answer : Option String)
    → p.watched ≡ true
    → (active == 0 && not p.pty_closed) ≡ false
    → step p (sampled now elapsed (ok (exit, active)) answer)
      ≡ some (conclude (drained (record p { entry = see p.entry exit active })) now elapsed answer)
unfolding step
concludes p now elapsed exit active answer watched rest = rw (watched, rest)

sampled-IsSound :
    (p : Process) (now elapsed : ℕ) (sample : Result String (Option ℕ × ℕ)) (answer : Option String)
    {q : Process}
    → IsSound p
    → step p (sampled now elapsed sample answer) ≡ some q
    → IsSound q
unfolding step
sampled-IsSound p now elapsed (err failure) answer v e = ground arith
sampled-IsSound p now elapsed (ok (exit, active)) answer v e = elim (Bool-cases p.watched) [
  | inr idle ↦ ground arith
  | inl watched ↦ elim (Bool-cases ((active == 0) && not p.pty_closed)) [
    | inl closes ↦ ground (arith, not_finished p v watched)
    | inr rest ↦
        subst IsSound
          (some-injective _ _ (sym (concludes p now elapsed exit active answer watched rest) ∙ e))
          (conclude-IsSound (drained (record p { entry = see p.entry exit active })) now elapsed
            answer watched (not_finished p v watched) v.reasons)
  ]
]

-- Whatever happens to a live entry, its status says what became of the process.
pub step-IsSound :
    (p : Process) (event : Event) {q : Process} → IsSound p → step p event ≡ some q → IsSound q
step-IsSound p (got_bytes s bytes) v e = got_bytes-IsSound p s bytes v e
step-IsSound p (got_end s) v e = got_end-IsSound p s v e
step-IsSound p (got_error s failure) v e = got_error-IsSound p s failure v e
step-IsSound p (wrote_stdin failure) v e = wrote_stdin-IsSound p failure v e
step-IsSound p (sampled now elapsed sample answer) v e =
    sampled-IsSound p now elapsed sample answer v e
step-IsSound p (asked reason answer) v e = asked-IsSound p reason answer v e

-- A record with status `exited`, `canceled` or `timed_out`, which says what became of its process,
-- is not changed by any event.
pub settled_stays :
    (p : Process) (event : Event) {q : Process}
    → IsSound p
    → is_settled p.entry.info.status ≡ true
    → step p event ≡ some q
    → q.entry.info ≡ p.entry.info
unfolding step
settled_stays p (got_bytes s bytes) v f e = elim (Option-cases (get s p.entry.streams)) [
  | inl absent ↦ ground arith
  | inr (b, e') ↦ ground (arith, all_closed-get-some p s b)
]
settled_stays p (got_error s failure) v f e = elim (Option-cases (get s p.entry.streams)) [
  | inl absent ↦ ground arith
  | inr (b, e') ↦ ground (arith, all_closed-get-some p s b)
]
settled_stays p (got_end s) v f e = elim (Option-cases (get s p.entry.streams)) [
  | inl absent ↦ ground arith
  | inr (b, e') ↦ ground (arith, all_closed-get-some p s b)
]
settled_stays p (wrote_stdin failure) v f e = ground arith
settled_stays p (sampled now elapsed sample answer) v f e = ground arith
settled_stays p (asked reason answer) v f e = ground arith

-- Every sequence of events keeps what the status of an entry says of its process: `exited`,
-- `canceled` and `timed_out` only when the tree is empty and the streams have ended, with the
-- cancellation that each of them names.
pub run-IsSound :
    (p : Process) (events : List Event) {q : Process}
    → IsSound p
    → run p events ≡ some q
    → IsSound q
unfolding run
run-IsSound p [] v e = subst IsSound (some-injective _ _ e) v
run-IsSound p (event ∷ events) v e = elim (Option-cases (step p event)) [
  | inl panic ↦ ground arith
  | inr (r, e') ↦ run-IsSound r events (step-IsSound p event v e') (ground arith)
]

-- While the supervisor runs, once the tree is empty and the streams and the input have ended, two
-- rounds give the entry a final status and end the supervisor.
pub ends_in_two_rounds :
    (p : Process) (code now later elapsed elapsed' : ℕ) (answer answer' : Option String)
    → p.watched ≡ true
    → all_closed p.entry ≡ true
    → p.entry.stdin_pending ≡ false
    → (q : Process) × (run p (
          sampled now elapsed (ok (some code, 0)) answer
          ∷ sampled later elapsed' (ok (some code, 0)) answer'
          ∷ [])
        ≡ some q)
      × (q.watched ≡ false)
      × (finished q.entry.info.status ≡ true)
unfolding run step
ends_in_two_rounds p code now later elapsed elapsed' answer answer' w c n =
    elim (Bool-cases p.pty_closed) [
      | inl shut ↦ (
        finish (drained (record p { entry = see p.entry (some code) 0 })) now,
        ground arith,
        refl,
        ground arith,
      )
      | inr fresh ↦ (
        finish
            (drained (record p {
              entry = record (see p.entry (some code) 0) { input = false };
              pty_closed = true;
            }))
            later,
        ground arith,
        refl,
        ground arith,
      )
    ]
