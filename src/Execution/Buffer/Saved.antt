-- ===== src/Execution/Buffer/Saved.antt =====
-- src/execution/buffer.rs: what a checkpoint keeps of a buffer.
use master_control_program.Base.{
  ℕ, ◌*◌, ◌≤◌, ◌<◌, ◌≡◌, List, length, arith, ok, Option-cases, inl, inr,
}
use master_control_program.Execution.Base64.{Base64, div_ceil3}
use master_control_program.Execution.Buffer.{ByteBuffer, SavedBuffer, save, restore, u64_limit}
use master_control_program.Execution.Buffer.Stream.{Represents, length-bytes}

-- What holds of a buffer whatever was appended to it.
pub record IsValid (buffer : ByteBuffer) : Type 0 where
  pub fits : length buffer.bytes ≤ buffer.capacity
  pub behind : length buffer.bytes ≤ buffer.end
  pub counts : buffer.end < u64_limit

pub Represents-IsValid :
    {buffer : ByteBuffer} {stream : List ℕ} → Represents buffer stream → IsValid buffer
Represents-IsValid r = record {
  fits = omega (arith, length-bytes r);
  behind = omega (arith, length-bytes r, r.ends);
  counts = omega (arith, r.ends, r.counts);
}

module _ (base64 : Base64) where
  -- A valid buffer whose capacity is positive and within the limit comes back from a checkpoint as
  -- it was.
  pub restore-save :
      (buffer : ByteBuffer) (maximum : ℕ)
      → IsValid buffer
      → 0 < buffer.capacity
      → buffer.capacity ≤ maximum
      → restore base64 (save base64 buffer) maximum ≡ ok buffer
  unfolding restore save
  restore-save buffer maximum v some_room fits =
      ground
        (arith, base64.decode-encode buffer.bytes, base64.length-encode buffer.bytes, ceil_mono)
    where
      ceil_mono : div_ceil3 (length buffer.bytes) * 4 ≤ div_ceil3 buffer.capacity * 4
      ceil_mono = omega (arith, v.fits)

  -- What `restore` accepts of a saved buffer whose cursor is a 64-bit number is a valid buffer
  -- whose capacity is positive and within the limit.
  pub restore-IsValid :
      (saved : SavedBuffer) (maximum : ℕ) {buffer : ByteBuffer}
      → saved.end < u64_limit
      → restore base64 saved maximum ≡ ok buffer
      → IsValid buffer × (0 < buffer.capacity) × (buffer.capacity ≤ maximum)
  unfolding restore
  restore-IsValid saved maximum counts e = elim (Option-cases (base64.decode saved.bytes_base64)) [
    | inl bad ↦ ground arith
    | inr (bytes, good) ↦ ground arith
  ]
