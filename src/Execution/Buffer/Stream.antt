-- ===== src/Execution/Buffer/Stream.antt =====
-- src/execution/buffer.rs against the unbounded stream of all bytes that were ever appended.
use native.Mathlib.Decide.{dec_le}
use master_control_program.Base.{
  ℕ, ◌+◌, ◌-◌, ◌≤◌, ◌<◌, min, max, ◌≡◌, ◌⊎◌, inl, inr, refl, sym, ap, ◌∙◌, Option, none, some, List,
  [], ◌++◌, length, take, drop, arith, ok, err, length-drop, length-append, drop-drop, drop-ge,
  drop-append-le, drop-append-ge, unwrap_or, Bool-cases, if◌then◌else◌,
}
use master_control_program.Execution.Base64.{Base64}
use master_control_program.Execution.Utf8.{is_utf8, utf8_lossy, utf8_lossy-is_utf8}
use master_control_program.Execution.Buffer.{
  ByteBuffer, OutputChunk, new, append, start, slice, read, u64_limit, cursor_beyond_end,
  saturating_add, chunk,
}

-- The buffer holds the last `capacity` bytes of the stream, and its cursor counts all of them.
pub record Represents (buffer : ByteBuffer) (stream : List ℕ) : Type 0 where
  pub ends : buffer.end ≡ length stream
  pub keeps : buffer.bytes ≡ drop (length stream - buffer.capacity) stream
  pub counts : length stream < u64_limit

pub new-Represents : (capacity : ℕ) → Represents (new capacity) []
unfolding new
new-Represents capacity = record { ends = refl; keeps = nothing capacity; counts = omega arith }
  where
    nothing : (capacity : ℕ) → [] ≡ drop {A = ℕ} (0 - capacity) []
    nothing capacity = sym (drop-ge (0 - capacity) [] (omega arith))

-- Dropping what the new bytes push out is dropping from the longer stream.
drop-window :
    (c gone : ℕ) (h d : List ℕ)
    → gone ≡ min (length h) c + min (length d) c - c
    → drop gone (drop (length h - c) h) ++ drop (length d - c) d
      ≡ drop (length h + length d - c) (h ++ d)
drop-window c gone h d e = elim (dec_le (length d) c) [
  | yes small ↦ rw drop-drop (
      ap (λ k. drop k h ++ drop (length d - c) d) {x = length h - c + gone} (omega arith)
      ∙ (ap (λ k. drop (length h + length d - c) h ++ drop k d) {x = length d - c} {y = 0}
            (omega arith)
          ∙ sym (drop-append-le (length h + length d - c) h d (omega arith))))
  | no large ↦ rw drop-drop (
      rw
        (
          drop-ge (length h - c + gone) h (omega arith),
          drop-append-ge (length h + length d - c) h d (omega arith),
        )
        (ap (λ k. drop k d) (omega arith)))
]

module _ {buffer : ByteBuffer} {stream : List ℕ} (r : Represents buffer stream) where
  pub length-bytes : length buffer.bytes ≡ min (length stream) buffer.capacity
  length-bytes =
      omega (arith, ap length r.keeps, length-drop (length stream - buffer.capacity) stream)

  pub start_lem : start buffer ≡ length stream - buffer.capacity
  start_lem = omega (arith, r.ends, length-bytes)

  pub append-some :
      (bytes : List ℕ)
      → length stream + length bytes < u64_limit
      → append buffer bytes
        ≡ some (record buffer {
          end = length stream + length bytes;
          bytes = drop (length stream + length bytes - buffer.capacity) (stream ++ bytes);
        })
  unfolding append
  append-some bytes fits = ground (arith, r.ends, moved)
    where
      gone : ℕ
      gone =
          saturating_add (length buffer.bytes)
            (length (drop (length bytes - buffer.capacity) bytes))
          - buffer.capacity

      moved :
          drop gone buffer.bytes ++ drop (length bytes - buffer.capacity) bytes
          ≡ drop (length stream + length bytes - buffer.capacity) (stream ++ bytes)
      moved =
          ap (λ b. drop gone b ++ drop (length bytes - buffer.capacity) bytes) r.keeps
          ∙ drop-window buffer.capacity gone stream bytes
              (omega (arith, length-bytes, length-drop (length bytes - buffer.capacity) bytes))

  pub append-none :
      (bytes : List ℕ) → u64_limit ≤ length stream + length bytes → append buffer bytes ≡ none
  unfolding append
  append-none bytes full = ground (arith, r.ends)

  -- A buffer that holds the last `capacity` bytes of a stream and counts all of them does so for
  -- the longer stream after `append`.
  pub append-Represents :
      (bytes : List ℕ) {after : ByteBuffer}
      → append buffer bytes ≡ some after
      → Represents after (stream ++ bytes)
  append-Represents bytes {after} e = elim (dec_le u64_limit (length stream + length bytes)) [
    | yes full ↦ cc (append-none bytes full)
    | no fits ↦ ground (arith, append-some bytes (omega arith), length-append stream bytes)
  ]

  slice_lem :
      (cursor max_bytes : ℕ)
      → start buffer ≤ cursor
      → slice buffer cursor max_bytes ≡ take max_bytes (drop cursor stream)
  slice_lem cursor max_bytes h =
      ap (λ b. take max_bytes (drop (cursor - start buffer) b)) r.keeps
      ∙ rw drop-drop (ap (λ k. take max_bytes (drop k stream)) (omega (arith, start_lem)))

-- What a chunk says of the stream, for a buffer of `capacity` bytes read from `requested`.
pub record Shows (base64 : Base64) (stream : List ℕ) (capacity requested max_bytes : ℕ)
    (chunk : OutputChunk) : Type 0 where
  pub ends : chunk.end_cursor ≡ length stream
  pub from : chunk.start_cursor ≡ max requested (length stream - capacity)
  pub skips : chunk.start_cursor ≡ requested + chunk.gap_bytes
  pub encodes : chunk.bytes_base64 ≡ base64.encode (take max_bytes (drop chunk.start_cursor stream))
  pub next :
      chunk.next_cursor
      ≡ chunk.start_cursor + length (take max_bytes (drop chunk.start_cursor stream))
  pub dropped : chunk.dropped_bytes ≡ length stream - capacity
  pub reads_text : chunk.text_utf8_lossy ≡ (
      let bytes = take max_bytes (drop chunk.start_cursor stream) in
      if chunk.valid_utf8 then bytes else utf8_lossy bytes)

module _ (base64 : Base64) {buffer : ByteBuffer} {stream : List ℕ} (r : Represents buffer stream)
    (cursor : Option ℕ) (max_bytes : ℕ) where
  shown : OutputChunk
  shown =
      chunk base64 buffer (unwrap_or cursor (start buffer))
        (take max_bytes (drop (max (unwrap_or cursor (start buffer)) (start buffer)) stream))

  text_shown :
      (bytes : List ℕ) → utf8_lossy bytes ≡ (if is_utf8 bytes then bytes else utf8_lossy bytes)
  text_shown bytes = elim (Bool-cases (is_utf8 bytes)) [
    | inl well ↦ rw well (utf8_lossy-is_utf8 bytes well)
    | inr broken ↦ rw broken
  ]

  shown-Shows :
      Shows base64 stream buffer.capacity (unwrap_or cursor (start buffer)) max_bytes shown
  unfolding shown
  shown-Shows = record {
    ends = r.ends;
    from = omega (arith, start_lem r);
    skips = omega arith;
    encodes = refl;
    next = refl;
    dropped = start_lem r;
    reads_text = text_shown _;
  }

  -- A read fails exactly when its cursor is past the end of the stream, and otherwise its chunk
  -- shows the stream from the cursor or from the first byte that is retained.
  pub read-Shows :
      ((unwrap_or cursor (start buffer) ≤ length stream)
        × (chunk : OutputChunk) × (read base64 buffer cursor max_bytes ≡ ok chunk)
        × Shows base64 stream buffer.capacity (unwrap_or cursor (start buffer)) max_bytes chunk)
      ⊎ ((length stream < unwrap_or cursor (start buffer))
          × (read base64 buffer cursor max_bytes ≡ err cursor_beyond_end))
  unfolding read shown
  read-Shows = elim (dec_le (unwrap_or cursor (start buffer)) (length stream)) [
    | yes inside ↦ inl (
      inside,
      shown,
      ground (
        arith,
        r.ends,
        slice_lem r (max (unwrap_or cursor (start buffer)) (start buffer)) max_bytes,
      ),
      shown-Shows,
    )
    | no beyond ↦ inr (omega arith, ground (arith, r.ends))
  ]
