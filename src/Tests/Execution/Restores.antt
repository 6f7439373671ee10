-- ===== src/Tests/Execution/Restores.antt =====
-- The theorem on a restart, applied to a checkpoint of one persistent job that was running.
use master_control_program.Base.{◌≡◌, String, true, false, refl, [], ◌∷◌, none, some, ok}
use master_control_program.Base.Map.{string_key, get, insert, place}
use master_control_program.Execution.Buffer
use master_control_program.Execution.Buffer.{SavedBuffer}
use master_control_program.Execution.Record.{
  Checkpoint, Entry, ExecutionRecord, Lifetime, finished, running, stdout, stderr, stream_key,
}
use master_control_program.Execution.Registry.{Registry, empty}
use master_control_program.Execution.Registry.Capacity.{IsWithin}
use master_control_program.Execution.Checkpoint.{
  restore_registry, restore_all, restore_entry, restore_streams, with_entry, restored_entry,
  interrupted,
}
use master_control_program.Execution.Checkpoint.Restored.{restore_registry-IsWithin}
use master_control_program.Tests.Execution.Encoding.{encoding}
use master_control_program.Tests.Execution.Entries.{info, out}

abbrev saved_info : ExecutionRecord
saved_info = record (info "a" Lifetime.persistent running 5) { owner_connection = none }

abbrev saved_stream : SavedBuffer
saved_stream = record { capacity = 4; end = 0; bytes_base64 = []; eof = true; error = none }

abbrev saved_checkpoint : Checkpoint
saved_checkpoint = record {
  version = 1;
  epoch = "epoch";
  saved_at_ms = 8;
  evicted = 2;
  records = (saved_info, (stdout, saved_stream) ∷ (stderr, saved_stream) ∷ []) ∷ [];
}

abbrev restored : Registry
restored =
    with_entry (record empty { evicted = 2 })
      (restored_entry (interrupted 8 9 10 saved_info)
        ((stdout, out true) ∷ (stderr, out true) ∷ []))

restores : restore_registry encoding (λ _. true) 9 10 saved_checkpoint ≡ ok restored
unfolding restore_registry restore_all restore_entry restore_streams empty Buffer.restore get insert
    place
restores = refl

restore_registry-IsWithin_example :
    IsWithin restored
    × ((id : String) (e : Entry)
        → get id restored.entries ≡ some e
        → (finished e.info.status ≡ true)
          × (e.native ≡ none)
          × (e.info.process_state_current ≡ false))
restore_registry-IsWithin_example =
    restore_registry-IsWithin encoding (λ _. true) 9 10 saved_checkpoint restores
