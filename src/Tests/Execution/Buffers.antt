-- ===== src/Tests/Execution/Buffers.antt =====
-- The theorems on buffers and on the bytes that clients send, applied.
use master_control_program.Base.{
  ℕ, ◌+◌, ◌≡◌, ◌⊎◌, ◌<◌, ◌≤◌, true, false, refl, List, [], ◌∷◌, ◌++◌, some, none, ok, err, length,
  arith, take, drop,
}
use master_control_program.Tests.Execution.Encoding.{encoding}
use master_control_program.Execution.Buffer.{
  ByteBuffer, SavedBuffer, OutputChunk, append, read, chunk, save, restore, cursor_beyond_end,
}
use master_control_program.Execution.Buffer.Stream.{
  Represents, Shows, append-Represents, read-Shows,
}
use master_control_program.Execution.Buffer.Saved.{
  IsValid, Represents-IsValid, restore-save, restore-IsValid,
}
use master_control_program.Execution.Buffer.Resume.{append_all, resume_reads}
use master_control_program.Execution.Record.{JobStartInput, Lifetime}
use master_control_program.Execution.Validate.{
  IsBounded, validate_start, check_total, validate_start-IsBounded, input_bytes, input_bytes-encode,
}

-- Four bytes of a stream of five.
abbrev buffer : ByteBuffer
buffer = record { bytes = 2 ∷ 3 ∷ 4 ∷ 5 ∷ []; capacity = 4; end = 5; eof = false; error = none }

abbrev stream : List ℕ
stream = 1 ∷ 2 ∷ 3 ∷ 4 ∷ 5 ∷ []

represents : Represents buffer stream
represents = record { ends = refl; keeps = refl; counts = omega arith }

abbrev grown : ByteBuffer
grown = record { bytes = 4 ∷ 5 ∷ 6 ∷ 7 ∷ []; capacity = 4; end = 7; eof = false; error = none }

appended : append buffer (6 ∷ 7 ∷ []) ≡ some grown
unfolding append
appended = refl

append-Represents_example : Represents grown (stream ++ (6 ∷ 7 ∷ []))
append-Represents_example = append-Represents represents (6 ∷ 7 ∷ []) appended

read-Shows_example :
    ((0 ≤ 5)
      × (c : OutputChunk) × (read encoding buffer (some 0) 2 ≡ ok c)
      × Shows encoding stream 4 0 2 c)
    ⊎ ((5 < 0) × (read encoding buffer (some 0) 2 ≡ err cursor_beyond_end))
read-Shows_example = read-Shows encoding represents (some 0) 2

abbrev first_chunk : OutputChunk
first_chunk = chunk encoding buffer 1 (2 ∷ 3 ∷ [])

was_read : read encoding buffer (some 1) 2 ≡ ok first_chunk
unfolding read
was_read = refl

all_appended : append_all buffer ((6 ∷ []) ∷ (7 ∷ []) ∷ []) ≡ some grown
unfolding append_all append
all_appended = refl

resume_reads_example :
    (second : OutputChunk) × (read encoding grown (some 3) 3 ≡ ok second)
    × (second.gap_bytes ≡ 0)
    × (a : List ℕ) × (b : List ℕ) × (encoding.decode first_chunk.bytes_base64 ≡ some a)
    × (encoding.decode second.bytes_base64 ≡ some b)
    × (a ++ b ≡ take (length a + length b) (drop 1 (stream ++ (6 ∷ 7 ∷ []))))
    × (second.next_cursor ≡ 1 + (length a + length b))
resume_reads_example =
    resume_reads encoding ((6 ∷ []) ∷ (7 ∷ []) ∷ []) (some 1) 2 3 represents was_read all_appended
      (omega arith)

restore-save_example : restore encoding (save encoding buffer) 8 ≡ ok buffer
restore-save_example =
    restore-save encoding buffer 8 (Represents-IsValid represents) (omega arith) (omega arith)

abbrev saved : SavedBuffer
saved = record {
  capacity = 4;
  end = 5;
  bytes_base64 = encoding.encode buffer.bytes;
  eof = false;
  error = none;
}

accepted : restore encoding saved 8 ≡ ok buffer
unfolding restore
accepted = refl

restore-IsValid_example : IsValid buffer × (0 < 4) × (4 ≤ 8)
restore-IsValid_example = restore-IsValid encoding saved 8 (omega arith) accepted

input_bytes-encode_example :
    input_bytes encoding none (some (encoding.encode (104 ∷ 105 ∷ []))) true ≡ ok (104 ∷ 105 ∷ [])
input_bytes-encode_example = input_bytes-encode encoding (104 ∷ 105 ∷ []) true (omega arith)

abbrev start_input : JobStartInput
start_input = record {
  program = 99 ∷ 109 ∷ 100 ∷ [];
  args = (47 ∷ 99 ∷ []) ∷ [];
  cwd = none;
  env = ((80 ∷ []), some (49 ∷ [])) ∷ [];
  lifetime = Lifetime.connection;
  output_limit_bytes = some 4096;
  timeout_ms = none;
  stdin_text = none;
  stdin_base64 = none;
}

start_accepted : validate_start start_input ≡ ok 4096
unfolding validate_start check_total
start_accepted = refl

validate_start-IsBounded_example : IsBounded start_input 4096
validate_start-IsBounded_example = validate_start-IsBounded start_input start_accepted
