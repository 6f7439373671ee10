-- ===== src/Execution/Buffer.antt =====
-- src/execution/buffer.rs: the bounded byte buffer of one output stream.
pub mod Stream
pub mod Saved
pub mod Resume
use master_control_program.Base.{
  ℕ, suc, ◌+◌, ◌-◌, ◌*◌, ◌^◌, ◌≤◌, ◌<◌, min, max, ◌≡◌, String, Bool, true, false, ◌&&◌, Option,
  none, some, List, [], ◌++◌, length, take, drop, leb, ltb, if◌then◌else◌, unwrap_or, Result, ok,
  err, ensure, or_err, ◌>>=◌, ◌>>◌,
}
use master_control_program.Execution.Utf8.{is_utf8, utf8_lossy}
use master_control_program.Execution.Base64.{Base64, div_ceil3}

abbrev pub u64_limit : ℕ
u64_limit = 2 ^ 64

-- `usize::saturating_add`
abbrev saturating_add : ℕ → ℕ → ℕ
saturating_add a b = min (a + b) (u64_limit - 1)

-- The errors of `anyhow::ensure!` and `context`, named after their messages.
pub data BufferError : Type 0 where
  cursor_beyond_end invalid_capacity output_exceeds_capacity : BufferError
  invalid_base64 invalid_cursor : BufferError

pub record ByteBuffer : Type 0 where
  pub bytes : List ℕ
  pub capacity : ℕ
  pub end : ℕ
  pub eof : Bool
  pub error : Option String

pub record SavedBuffer : Type 0 where
  pub capacity : ℕ
  pub end : ℕ
  pub bytes_base64 : List ℕ
  pub eof : Bool
  pub error : Option String

pub record OutputChunk : Type 0 where
  pub requested_cursor : ℕ
  pub start_cursor : ℕ
  pub next_cursor : ℕ
  pub end_cursor : ℕ
  pub retained_from_cursor : ℕ
  pub dropped_bytes : ℕ
  pub gap_bytes : ℕ
  pub bytes_base64 : List ℕ
  pub text_utf8_lossy : List ℕ
  pub valid_utf8 : Bool
  pub eof : Bool
  pub read_error : Option String

unfoldable pub new : ℕ → ByteBuffer
new capacity = record { bytes = []; capacity = capacity; end = 0; eof = false; error = none }

-- `none` is the panic "output cursor overflow".
unfoldable pub append : ByteBuffer → List ℕ → Option ByteBuffer
append buffer bytes =
    let cut = drop (length bytes - buffer.capacity) bytes in
    let gone = saturating_add (length buffer.bytes) (length cut) - buffer.capacity in
    if ltb (buffer.end + length bytes) u64_limit
    then some
        (record buffer { end = buffer.end + length bytes; bytes = drop gone buffer.bytes ++ cut })
    else none

-- The cursor of the first byte that is still retained.
abbrev pub start : ByteBuffer → ℕ
start buffer = buffer.end - length buffer.bytes

-- `.skip(..).take(max_bytes)`
abbrev pub slice : ByteBuffer → ℕ → ℕ → List ℕ
slice buffer cursor max_bytes = take max_bytes (drop (cursor - start buffer) buffer.bytes)

module _ (base64 : Base64) where
  abbrev pub chunk : ByteBuffer → ℕ → List ℕ → OutputChunk
  chunk buffer requested bytes =
      let from = max requested (start buffer) in
      record {
        requested_cursor = requested;
        start_cursor = from;
        next_cursor = from + length bytes;
        end_cursor = buffer.end;
        retained_from_cursor = start buffer;
        dropped_bytes = start buffer;
        gap_bytes = start buffer - requested;
        bytes_base64 = base64.encode bytes;
        text_utf8_lossy = utf8_lossy bytes;
        valid_utf8 = is_utf8 bytes;
        eof = buffer.eof;
        read_error = buffer.error;
      }

  unfoldable pub read : ByteBuffer → Option ℕ → ℕ → Result BufferError OutputChunk
  read buffer cursor max_bytes = do
    let requested = unwrap_or cursor (start buffer)
    ensure (leb requested buffer.end) cursor_beyond_end
    ok (chunk buffer requested (slice buffer (max requested (start buffer)) max_bytes))

  unfoldable pub save : ByteBuffer → SavedBuffer
  save buffer = record {
    capacity = buffer.capacity;
    end = buffer.end;
    bytes_base64 = base64.encode buffer.bytes;
    eof = buffer.eof;
    error = buffer.error;
  }

  unfoldable pub restore : SavedBuffer → ℕ → Result BufferError ByteBuffer
  restore saved maximum = do
    ensure (ltb 0 saved.capacity && leb saved.capacity maximum) invalid_capacity
    ensure (leb (length saved.bytes_base64) (div_ceil3 saved.capacity * 4)) output_exceeds_capacity
    bytes ← or_err (base64.decode saved.bytes_base64) invalid_base64
    ensure (leb (length bytes) saved.capacity && leb (length bytes) saved.end) invalid_cursor
    ok (record {
      bytes = bytes;
      capacity = saved.capacity;
      end = saved.end;
      eof = saved.eof;
      error = saved.error;
    })
