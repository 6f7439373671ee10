-- ===== src/Tests/Execution/Inputs.antt =====
-- src/execution/input.rs: the theorems applied to a request of three bytes.
use master_control_program.Base.{
  ℕ, ◌≤◌, ◌≡◌, refl, true, false, none, some, List, [], ◌∷◌, length, take, ok, arith, zero, suc,
  ◌+◌, if◌then◌else◌,
}
use master_control_program.Base.Map.{nat_key, get, insert, place}
use master_control_program.Execution.Input.{
  accepted, Pipe, Writing, write_loop, nothing_written, input_result, InputQueue, reserve_input,
  send_input, receive_input, complete_input, FileAnswer, refused,
}
use master_control_program.Execution.Input.Delivered.{write_loop-ends}
use master_control_program.Execution.Input.Accounted.{
  IsAccounted, reserves, sends, receives, completes, rests, steps, InputSteps-IsAccounted,
}

-- The pipe accepts one byte, and is closed in the next write, which delivers one more.
abbrev answers : ℕ → List ℕ → FileAnswer
answers zero [] = accepted 0
answers zero (byte ∷ bytes) = accepted 1
answers (suc round) offered = refused 1 false "the pipe is being closed"

answers_fit :
    (round : ℕ) (offered : List ℕ) (n : ℕ) → answers round offered ≡ accepted n → n ≤ length offered
answers_fit zero [] n h = ground arith
answers_fit zero (byte ∷ bytes) n h = ground arith
answers_fit (suc round) offered n h = cc

abbrev pipe : Pipe
pipe = record { answer = answers; fits = answers_fit }

abbrev text_bytes : List ℕ
text_bytes = 100 ∷ 105 ∷ 114 ∷ []

write_loop-ends_example :
    (v : Writing) × (write_loop pipe (λ r. false) (λ r. false) 4 0 text_bytes nothing_written
      ≡ some v)
    × ((input_result text_bytes v).bytes_written ≤ 3)
    × (extra : ℕ) × (extra
        ≤ (if (input_result text_bytes v).write_completion_uncertain then 4096 else 0))
    × (v.delivered ≡ take ((input_result text_bytes v).bytes_written + extra) text_bytes)
write_loop-ends_example = write_loop-ends pipe (λ r. false) (λ r. false) text_bytes

-- One byte is counted, and two went into the pipe.
writes_one :
    write_loop pipe (λ r. false) (λ r. false) 4 0 text_bytes nothing_written
    ≡ some record {
      written = 1;
      error = some "the pipe is being closed";
      uncertain = true;
      delivered = 100 ∷ 105 ∷ [];
    }
unfolding write_loop
writes_one = refl

abbrev new_queue : InputQueue
new_queue = record {
  pending_bytes = 0;
  next_id = 1;
  reserved = [];
  queued = [];
  active = none;
  is_open = true;
}

new_queue-IsAccounted : IsAccounted new_queue
unfolding get
new_queue-IsAccounted = record {
  counted = refl;
  few_bytes = omega arith;
  few = omega arith;
  numbered = λ id count found. cc;
}

abbrev reserved_queue : InputQueue
reserved_queue = record new_queue { pending_bytes = 3; next_id = 2; reserved = (1, 3) ∷ [] }

reserves_three : reserve_input 3 false new_queue ≡ ok reserved_queue
unfolding reserve_input insert place get
reserves_three = refl

held_three : get 1 reserved_queue.reserved ≡ some 3
unfolding get
held_three = refl

abbrev sent_queue : InputQueue
sent_queue = (send_input 1 3 reserved_queue).0

InputSteps-IsAccounted_example : IsAccounted (complete_input (receive_input sent_queue))
InputSteps-IsAccounted_example =
    InputSteps-IsAccounted
      (steps new_queue reserved_queue (complete_input (receive_input sent_queue))
        (reserves 3 false new_queue reserved_queue reserves_three)
        (steps reserved_queue sent_queue (complete_input (receive_input sent_queue))
          (sends 1 3 reserved_queue held_three)
          (steps sent_queue (receive_input sent_queue) (complete_input (receive_input sent_queue))
            (receives sent_queue)
            (steps (receive_input sent_queue) (complete_input (receive_input sent_queue))
              (complete_input (receive_input sent_queue)) (completes (receive_input sent_queue))
              (rests (complete_input (receive_input sent_queue)))))))
      new_queue-IsAccounted
