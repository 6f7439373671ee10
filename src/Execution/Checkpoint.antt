-- ===== src/Execution/Checkpoint.antt =====
-- src/execution.rs: `checkpoint` and `restore`. The bytes of the file and its JSON are not modelled.
pub mod Restored
use master_control_program.Base.{
  ℕ, ◌+◌, ◌*◌, ◌≡◌, String, Bool, true, false, not, ◌&&◌, Option, none, some, List, [], ◌∷◌, map,
  length, all, keep, leb, ltb, ◌==◌, in_range, is_some, is_none, if◌then◌else◌, Result, ok, err,
  ensure, ◌>>=◌, ◌>>◌,
}
use master_control_program.Base.Map.{Map, string_key, get, insert, values}
use master_control_program.Execution.Base64.{Base64}
use master_control_program.Execution.Buffer
use master_control_program.Execution.Buffer.{ByteBuffer, SavedBuffer, BufferError}
use master_control_program.Execution.Record.{
  Entry, ExecutionRecord, ExecutionKind, ExecutionError, Stream, stream_key, Checkpoint, job,
  terminal, combined, stdout, stderr, finished, interrupted_host_restart, is_persistent,
  max_records, max_output_bytes, max_total_output_bytes, bad_version, too_many_records,
  invalid_uuid, invalid_owner, invalid_capacity, invalid_streams, capacity_mismatch,
  budget_exceeded, duplicate_id, buffer,
}
use master_control_program.Execution.Registry.{Registry, empty}

abbrev pub expected_streams : ExecutionKind → List Stream
expected_streams terminal = combined ∷ []
expected_streams job = stdout ∷ stderr ∷ []

abbrev from_buffer : {A : Type 0} → Result BufferError A → Result ExecutionError A
from_buffer (ok a) = ok a
from_buffer (err e) = err (buffer e)

-- What a restart makes of a record: one that was live is interrupted.
abbrev pub interrupted : ℕ → ℕ → ℕ → ExecutionRecord → ExecutionRecord
interrupted saved_at now started_at r = if finished r.status then r else record r {
  status = interrupted_host_restart;
  output_drained = false;
  finished_at_ms = some now;
  restart_gap = some (record {
    checkpoint_at_ms = saved_at;
    observed_restart_at_ms = started_at;
    output_after_checkpoint_unknown = true;
    mutations_replayed = false;
  });
}

abbrev pub restored_entry : ExecutionRecord → Map Stream ByteBuffer → Entry
restored_entry r streams = record {
  info = record r { process_state_current = false };
  streams = streams;
  stdin_pending = false;
  native = none;
  input = false;
  budget = r.output_limit_bytes * length streams;
}

abbrev pub with_entry : Registry → Entry → Registry
with_entry r e = record r { entries = insert e.info.id e r.entries; budget = r.budget + e.budget }

module _ (base64 : Base64) where
  unfoldable pub save_streams : Map Stream ByteBuffer → Map Stream SavedBuffer
  save_streams [] = []
  save_streams ((stream, b) ∷ streams) = (stream, Buffer.save base64 b) ∷ save_streams streams

  unfoldable pub saved_entries : Map String Entry → List (ExecutionRecord × Map Stream SavedBuffer)
  saved_entries [] = []
  saved_entries ((id, e) ∷ entries) =
      let rest = saved_entries entries in
      if is_persistent e.info.lifetime then (e.info, save_streams e.streams) ∷ rest else rest

  -- What `checkpoint` writes of a persistent host.
  unfoldable pub checkpoint : Registry → String → ℕ → Checkpoint
  checkpoint r epoch now = record {
    version = 1;
    epoch = epoch;
    saved_at_ms = now;
    evicted = r.evicted;
    records = saved_entries r.entries;
  }

  unfoldable pub restore_streams :
      ℕ → Map Stream SavedBuffer → Result ExecutionError (Map Stream ByteBuffer)
  restore_streams capacity [] = ok []
  restore_streams capacity ((stream, saved) ∷ streams) = do
    ensure (saved.capacity == capacity) capacity_mismatch
    b ← from_buffer (Buffer.restore base64 saved max_output_bytes)
    rest ← restore_streams capacity streams
    ok ((stream, b) ∷ rest)

  -- The checks of one saved record, and its entry.
  unfoldable pub restore_entry :
      (String → Bool)
      → ℕ
      → ℕ
      → ℕ
      → ExecutionRecord × Map Stream SavedBuffer
      → Result ExecutionError Entry
  restore_entry is_uuid saved_at now started_at (r, saved) = do
    ensure (is_uuid r.id) invalid_uuid
    ensure (is_persistent r.lifetime && is_none r.owner_connection) invalid_owner
    ensure (in_range 1 max_output_bytes r.output_limit_bytes) invalid_capacity
    ensure
        (length saved == length (expected_streams r.kind)
          && all (λ stream. is_some (get stream saved)) (expected_streams r.kind))
        invalid_streams
    streams ← restore_streams r.output_limit_bytes saved
    ok (restored_entry (interrupted saved_at now started_at r) streams)

  -- The loop over the saved records; `now` is the clock.
  unfoldable pub restore_all :
      (String → Bool)
      → ℕ
      → ℕ
      → ℕ
      → Registry
      → List (ExecutionRecord × Map Stream SavedBuffer)
      → Result ExecutionError Registry
  restore_all is_uuid saved_at now started_at r [] = ok r
  restore_all is_uuid saved_at now started_at r (saved ∷ records) = do
    e ← restore_entry is_uuid saved_at now started_at saved
    ensure (leb (r.budget + e.budget) max_total_output_bytes) budget_exceeded
    ensure (not (is_some (get e.info.id r.entries))) duplicate_id
    restore_all is_uuid saved_at now started_at (with_entry r e) records

  unfoldable pub restore_registry :
      (String → Bool) → ℕ → ℕ → Checkpoint → Result ExecutionError Registry
  restore_registry is_uuid now started_at saved = do
    ensure (saved.version == 1) bad_version
    ensure (leb (length saved.records) max_records) too_many_records
    restore_all is_uuid saved.saved_at_ms now started_at (record empty { evicted = saved.evicted })
        saved.records
