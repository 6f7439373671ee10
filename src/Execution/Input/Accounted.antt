-- ===== src/Execution/Input/Accounted.antt =====
-- src/execution/input.rs: the counter of pending bytes, whatever the calls and the thread do in between.
use mathlib.Core.Path.{subst}
use master_control_program.Base.{
  ℕ, suc, ◌+◌, ◌-◌, ◌≤◌, ◌<◌, ◌≡◌, refl, sym, ap, ◌∙◌, inl, inr, Bool, false, not, ◌&&◌, Option,
  none, some, List, [], ◌∷◌, length, sum_by, ltb, arith, Bool-cases, Option-cases, ok,
  length-append, sum_by-append, ◌==◌,
}
use master_control_program.Base.Map.{
  nat_key, get, insert, remove, total, total-insert, total-remove, get-insert, get-remove_ne,
}
use master_control_program.Execution.Record.{max_input_bytes}
use master_control_program.Execution.Input.{
  InputQueue, reserve_input, send_input, receive_input, complete_input, queue_capacity,
}

abbrev active_bytes : Option (ℕ × ℕ) → ℕ
active_bytes none = 0
active_bytes (some request) = request.1

abbrev size_of : ℕ × ℕ → ℕ
size_of request = request.1

-- The counter is the bytes of all requests that are reserved, queued or written, and within its limit.
pub record IsAccounted (q : InputQueue) : Type 0 where
  pub counted :
      q.pending_bytes
      ≡ total (λ count. count) q.reserved + sum_by size_of q.queued + active_bytes q.active
  pub few_bytes : q.pending_bytes ≤ max_input_bytes
  pub few : length q.queued ≤ queue_capacity
  pub numbered : (id count : ℕ) → get id q.reserved ≡ some count → id < q.next_id

next-get : (q : InputQueue) → IsAccounted q → get q.next_id q.reserved ≡ none
next-get q i = elim (Option-cases (get q.next_id q.reserved)) [
  | inl absent ↦ absent
  | inr (count, found) ↦ absurd (omega (arith, i.numbered q.next_id count found))
]

reserve_input-IsAccounted :
    (count : ℕ) (canceled : Bool) (q : InputQueue) {r : InputQueue}
    → IsAccounted q
    → reserve_input count canceled q ≡ ok r
    → IsAccounted r
unfolding reserve_input
reserve_input-IsAccounted count canceled q {r} i h =
    let next = record q {
      pending_bytes = q.pending_bytes + count;
      next_id = suc q.next_id;
      reserved = insert q.next_id count q.reserved;
    } in
    subst IsAccounted {x = next} {y = r} (ground (arith, ◌&&◌)) record {
      counted = omega (
        arith,
        i.counted,
        total-insert (λ count. count) q.next_id count q.reserved (next-get q i),
      );
      few_bytes = ground (arith, ◌&&◌);
      few = i.few;
      numbered = λ id c found. elim (Bool-cases (q.next_id == id)) [
        | inl same ↦ ground arith
        | inr other ↦
            let old = rw (get-insert q.next_id id count q.reserved, other) at found in
            omega (arith, i.numbered id c old)
      ];
    }

send_input-IsAccounted :
    (id count : ℕ) (q : InputQueue)
    → get id q.reserved ≡ some count
    → IsAccounted q
    → IsAccounted (send_input id count q).0
unfolding send_input
send_input-IsAccounted id count q held i =
    let t = total-remove (λ count. count) id count q.reserved held in
    let numbered : (j c : ℕ) → get j (remove id q.reserved) ≡ some c → j < q.next_id = λ j c found.
      elim (Bool-cases (id == j)) [
        | inl same ↦ let b = i.numbered id count held in ground arith
        | inr other ↦ i.numbered j c (sym (get-remove_ne id j q.reserved other) ∙ found)
      ] in
    let refused : IsAccounted
        record q { reserved = remove id q.reserved; pending_bytes = q.pending_bytes - count } =
      record {
        counted = omega (arith, i.counted, t);
        few_bytes = omega (arith, i.few_bytes);
        few = i.few;
        numbered = numbered;
      } in
    elim (Bool-cases (not q.is_open)) [
      | inl closed ↦ rw (closed, send_input) refused
      | inr opened ↦ elim (Bool-cases (ltb (length q.queued) queue_capacity)) [
        | inl space ↦
            rw (opened, space, send_input)
              record {
                counted =
                    omega (arith, i.counted, t, sum_by-append size_of q.queued ((id, count) ∷ []));
                few_bytes = i.few_bytes;
                few = ground (arith, length-append q.queued ((id, count) ∷ []));
                numbered = numbered;
              }
        | inr full ↦ rw (opened, full, send_input) refused
      ]
    ]

received_from :
    (q : InputQueue) (queued : List (ℕ × ℕ))
    → q.queued ≡ queued
    → q.active ≡ none
    → IsAccounted q
    → IsAccounted (receive_input q)
unfolding receive_input
received_from q [] e idle i = rw (idle, e, receive_input) i
received_from q (request ∷ rest) e idle i =
    let c =
      i.counted
      ∙ ap (λ a. total (λ count. count) q.reserved + sum_by size_of q.queued + active_bytes a)
          idle in
    let d = c ∙ ap (λ l. total (λ count. count) q.reserved + sum_by size_of l + 0) e in
    let few = rw e at i.few in
    rw (idle, e, receive_input)
      record {
        counted = omega (arith, d);
        few_bytes = i.few_bytes;
        few = omega (arith, few);
        numbered = i.numbered;
      }

receive_input-IsAccounted : (q : InputQueue) → IsAccounted q → IsAccounted (receive_input q)
unfolding receive_input
receive_input-IsAccounted q i = elim (Option-cases q.active) [
  | inl idle ↦ received_from q q.queued refl idle i
  | inr (request, busy) ↦ rw (busy, receive_input) i
]

complete_input-IsAccounted : (q : InputQueue) → IsAccounted q → IsAccounted (complete_input q)
unfolding complete_input
complete_input-IsAccounted q i = elim (Option-cases q.active) [
  | inl idle ↦ rw (idle, complete_input) i
  | inr (request, busy) ↦
      (let e =
          i.counted
          ∙ ap (λ a. total (λ count. count) q.reserved + sum_by size_of q.queued + active_bytes a)
              busy in
        rw (busy, complete_input)
          record {
            counted = omega (arith, e);
            few_bytes = omega (arith, i.few_bytes);
            few = i.few;
            numbered = i.numbered;
          })
]

-- A step of a call of `write` or of the thread.
pub data InputStep : InputQueue → InputQueue → Type 0 where
  reserves :
      (count : ℕ) (canceled : Bool) (q r : InputQueue)
      → reserve_input count canceled q ≡ ok r
      → InputStep q r
  sends :
      (id count : ℕ) (q : InputQueue)
      → get id q.reserved ≡ some count
      → InputStep q (send_input id count q).0
  receives : (q : InputQueue) → InputStep q (receive_input q)
  completes : (q : InputQueue) → InputStep q (complete_input q)
  closes : (q : InputQueue) → InputStep q record q { is_open = false }

pub data InputSteps : InputQueue → InputQueue → Type 0 where
  rests : (q : InputQueue) → InputSteps q q
  steps : (q r t : InputQueue) → InputStep q r → InputSteps r t → InputSteps q t

InputStep-IsAccounted : {q r : InputQueue} → InputStep q r → IsAccounted q → IsAccounted r
InputStep-IsAccounted (reserves count canceled q r h) i =
    reserve_input-IsAccounted count canceled q i h
InputStep-IsAccounted (sends id count q held) i = send_input-IsAccounted id count q held i
InputStep-IsAccounted (receives q) i = receive_input-IsAccounted q i
InputStep-IsAccounted (completes q) i = complete_input-IsAccounted q i
InputStep-IsAccounted (closes q) i = record {
  counted = i.counted;
  few_bytes = i.few_bytes;
  few = i.few;
  numbered = i.numbered;
}

-- Whatever steps the calls of `write` and the writing thread take, in any order, the counter of
-- pending input stays the bytes of the requests that are reserved, queued or written, and at most
-- 65,536, and at most eight requests are queued.
pub InputSteps-IsAccounted : {q r : InputQueue} → InputSteps q r → IsAccounted q → IsAccounted r
InputSteps-IsAccounted (rests q) i = i
InputSteps-IsAccounted (steps q r t s ss) i = InputSteps-IsAccounted ss (InputStep-IsAccounted s i)
