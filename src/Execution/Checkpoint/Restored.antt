-- ===== src/Execution/Checkpoint/Restored.antt =====
-- src/execution.rs: what a restart restores.
use master_control_program.Base.{
  Result-cases, Option-cases, Bool-cases, List, [], ◌∷◌, leb, leb→le, ok, str_eq, inl, inr, ℕ, ◌+◌,
  ◌≤◌, ◌≡◌, String, Bool, true, false, none, length, ok, arith, some,
}
use mathlib.Core.Path.{subst}
use master_control_program.Base.Map.{
  get-insert, Map, string_key, get, total-insert, length-insert, Distinct-insert,
}
use master_control_program.Execution.Base64.{Base64}
use master_control_program.Execution.Buffer.{SavedBuffer}
use master_control_program.Execution.Record.{
  Entry, ExecutionRecord, Stream, finished, max_records, max_total_output_bytes,
}
use master_control_program.Execution.Registry.{Registry}
use master_control_program.Execution.Registry.Capacity.{IsWithin}
use master_control_program.Execution.Record.{Checkpoint}
use master_control_program.Execution.Registry.{empty}
use master_control_program.Execution.Registry.Capacity.{empty-IsWithin}
use master_control_program.Execution.Checkpoint.{
  restore_all, restore_registry, restore_entry, with_entry,
}

-- No process of the entry runs, and none can be run again.
abbrev pub IsOver : Entry → Type 0
IsOver e =
    (finished e.info.status ≡ true) × (e.native ≡ none) × (e.info.process_state_current ≡ false)

module _ (base64 : Base64) (is_uuid : String → Bool) where
  restore_entry-IsOver :
      (saved_at now started_at : ℕ) (saved : ExecutionRecord × Map Stream SavedBuffer) {e : Entry}
      → restore_entry base64 is_uuid saved_at now started_at saved ≡ ok e
      → IsOver e
  unfolding restore_entry
  restore_entry-IsOver saved_at now started_at (r, saved) h = ground arith

  with_entry-IsWithin :
      (r : Registry) (e : Entry)
      → IsWithin r
      → get e.info.id r.entries ≡ none
      → length r.entries + r.pending + 1 ≤ max_records
      → r.budget + e.budget ≤ max_total_output_bytes
      → IsWithin (with_entry r e)
  with_entry-IsWithin r e v fresh few small = record {
    accounted = record {
      bytes = omega (
        arith,
        v.bytes,
        total-insert {0, 0} (λ (x : Entry). x.budget) e.info.id e r.entries fresh,
      );
      waiting = v.waiting;
      distinct = Distinct-insert e.info.id e r.entries v.distinct;
      numbered = v.numbered;
    };
    few = omega (arith, few, length-insert {0, 0} e.info.id e r.entries fresh);
    small = small;
  }

  abbrev AllOver : Registry → Type 0
  AllOver r = (id : String) (e : Entry) → get id r.entries ≡ some e → IsOver e

  with_entry-AllOver : (r : Registry) (e : Entry) → AllOver r → IsOver e → AllOver (with_entry r e)
  with_entry-AllOver r e a o id found held = elim (Bool-cases (str_eq e.info.id id)) [
    | inl same ↦
        subst IsOver {x = e} {y = found}
          (ground (arith, get-insert e.info.id id e r.entries, held, same)) o
    | inr other ↦ a id found (ground (arith, get-insert e.info.id id e r.entries, held, other))
  ]

  restore_all-kept :
      (saved_at now started_at : ℕ) (r : Registry)
      (records : List (ExecutionRecord × Map Stream SavedBuffer)) {q : Registry}
      → IsWithin r
      → AllOver r
      → length r.entries + r.pending + length records ≤ max_records
      → restore_all base64 is_uuid saved_at now started_at r records ≡ ok q
      → IsWithin q × AllOver q
  unfolding restore_all
  restore_all-kept saved_at now started_at r [] {q} v a few h =
      subst (λ x. IsWithin x × AllOver x) {x = r} {y = q} (ground arith) (v, a)
  restore_all-kept saved_at now started_at r (saved ∷ records) {q} v a few h =
      elim (Result-cases (restore_entry base64 is_uuid saved_at now started_at saved)) [
        | inl (failure, bad) ↦ ground arith
        | inr (e, good) ↦ elim (Option-cases (get e.info.id r.entries)) [
          | inr (other, taken) ↦ ground arith
          | inl fresh ↦ elim (Bool-cases (leb (r.budget + e.budget) max_total_output_bytes)) [
            | inr big ↦ ground arith
            | inl small ↦
                restore_all-kept saved_at now started_at (with_entry r e) records
                  (with_entry-IsWithin r e v fresh (omega arith) (leb→le _ _ small))
                  (with_entry-AllOver r e a
                    (restore_entry-IsOver saved_at now started_at saved good))
                  (omega (arith, length-insert {0, 0} e.info.id e r.entries fresh)) (ground arith)
          ]
        ]
      ]

  -- What a restart restores from a checkpoint keeps the limits of the registry and its counters,
  -- and each restored entry has a final status, no process, and is marked as not current, so that
  -- nothing is run again.
  pub restore_registry-IsWithin :
      (now started_at : ℕ) (saved : Checkpoint) {q : Registry}
      → restore_registry base64 is_uuid now started_at saved ≡ ok q
      → IsWithin q
        × ((id : String) (e : Entry)
            → get id q.entries ≡ some e
            → (finished e.info.status ≡ true)
              × (e.native ≡ none)
              × (e.info.process_state_current ≡ false))
  unfolding restore_registry empty get
  restore_registry-IsWithin now started_at saved h =
      restore_all-kept saved.saved_at_ms now started_at (record empty { evicted = saved.evicted })
        saved.records
        (record {
          accounted = record {
            bytes = empty-IsWithin.bytes;
            waiting = empty-IsWithin.waiting;
            distinct = empty-IsWithin.distinct;
            numbered = empty-IsWithin.numbered;
          };
          few = empty-IsWithin.few;
          small = empty-IsWithin.small;
        })
        nothing (ground arith) (ground arith)
    where
      nothing : (id : String) (e : Entry) → get id [] ≡ some e → IsOver e
      nothing id e held = ground arith
