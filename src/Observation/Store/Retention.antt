-- ===== src/Observation/Store/Retention.antt =====
-- src/observation.rs: the counters of the retained events, and the limits of the store.
use mathlib.Core.Path.{subst}
use master_control_program.Base.{
  ℕ, zero, suc, ◌+◌, ◌≤◌, ◌≡◌, inl, inr, sym, String, false, none, some, List, [], ◌∷◌, length,
  sum_by, arith, Option-cases, Bool-cases, str_eq, if◌then◌else◌, get_elem?, erase_idx, find_idx?,
  length-erase_idx, sum_by-erase_idx,
}
use master_control_program.Base.Map.{string_key, get, Distinct, Distinct-adjust, get-adjust_inv}
use master_control_program.Observation.Record.{Event, WatchRecord, max_bytes}
use master_control_program.Observation.Store.{
  Store, discard, of_watch, trim, discard_oldest, is_crowded, counted_drop, fits_watch,
}

module _ {V : Type 0} where
  abbrev pub count : String → List (Event V × ℕ) → ℕ
  count id = sum_by (λ x. if of_watch id x then 1 else 0)

  abbrev pub bytes_of : String → List (Event V × ℕ) → ℕ
  bytes_of id = sum_by (λ x. if of_watch id x then x.1 else 0)

-- The counters of a watch are what they count, and what it recorded is retained or counted as dropped.
pub record IsCounted {V : Type 0} (id : String) (events : List (Event V × ℕ)) (r : WatchRecord)
    : Type 0 where
  pub retained : r.retained_events ≡ count id events
  pub held_bytes : r.retained_bytes ≡ bytes_of id events
  pub recorded : r.recorded_events ≡ r.retained_events + r.retention_dropped_events
  pub recorded_bytes : r.recorded_bytes ≡ r.retained_bytes + r.retention_dropped_bytes

pub record IsConsistent {V : Type 0} (s : Store V) : Type 0 where
  pub bytes : s.bytes ≡ sum_by (λ x. x.1) s.events
  pub distinct : Distinct s.watches
  pub counts : (id : String) {r : WatchRecord} → get id s.watches ≡ some r → IsCounted id s.events r

module _ {V : Type 0} where
  counted_drop-IsCounted :
      (id : String) (events : List (Event V × ℕ)) (index : ℕ) (event : Event V) (bytes : ℕ)
      (r : WatchRecord)
      → get_elem? events index ≡ some (event, bytes)
      → IsCounted id events r
      → IsCounted id
          (erase_idx events index)
          (if str_eq event.watch_id id then counted_drop event.cursor.id bytes r else r)
  counted_drop-IsCounted id events index event bytes r found c =
      let one = sum_by-erase_idx (λ x. if of_watch id x then 1 else 0) events index found in
      let size = sum_by-erase_idx (λ x. if of_watch id x then x.1 else 0) events index found in
      elim (Bool-cases (str_eq event.watch_id id)) [
        | inl same ↦ rw same (record {
          retained = ground (arith, one, c.retained);
          held_bytes = ground (arith, size, c.held_bytes);
          recorded = ground (arith, one, c.retained, c.recorded);
          recorded_bytes = ground (arith, size, c.held_bytes, c.recorded_bytes);
        })
        | inr other ↦ rw other (record {
          retained = ground (arith, one, c.retained);
          held_bytes = ground (arith, size, c.held_bytes);
          recorded = c.recorded;
          recorded_bytes = c.recorded_bytes;
        })
      ]

  pub discard-IsConsistent :
      (s : Store V) (index : ℕ) → IsConsistent s → IsConsistent (discard s index)
  unfolding discard
  discard-IsConsistent s index v = elim (Option-cases (get_elem? s.events index)) [
    | inl absent ↦ rw (absent, discard) v
    | inr ((event, bytes), found) ↦
        rw (found, discard)
          (record {
            bytes = omega (arith, v.bytes, sum_by-erase_idx (λ x. x.1) s.events index found);
            distinct =
                Distinct-adjust event.watch_id (counted_drop event.cursor.id bytes) s.watches
                  v.distinct;
            counts = λ id held.
                (let (r, before, e) =
                    get-adjust_inv event.watch_id id (counted_drop event.cursor.id bytes) s.watches
                      held in
                  subst (IsCounted id (erase_idx s.events index)) (sym e) (
                    counted_drop-IsCounted id s.events index event bytes r found
                      (v.counts id before)));
          })
  ]

  pub trim-IsConsistent :
      (fuel : ℕ) (id : String) (bytes : ℕ) (s : Store V)
      → IsConsistent s
      → IsConsistent (trim fuel id bytes s)
  unfolding trim
  trim-IsConsistent zero id bytes s v = v
  trim-IsConsistent (suc fuel) id bytes s v = elim (Bool-cases (fits_watch id bytes s)) [
    | inl room ↦ rw (room, trim) v
    | inr full ↦ elim (Option-cases (find_idx? (of_watch id) s.events)) [
      | inl nothing ↦ rw (full, nothing, trim) v
      | inr (index, found) ↦
          rw (full, found, trim)
            (trim-IsConsistent fuel id bytes (discard s index) (discard-IsConsistent s index v))
    ]
  ]

  pub discard_oldest-IsConsistent :
      (fuel bytes : ℕ) (s : Store V) → IsConsistent s → IsConsistent (discard_oldest fuel bytes s)
  unfolding discard_oldest
  discard_oldest-IsConsistent zero bytes s v = v
  discard_oldest-IsConsistent (suc fuel) bytes s v = elim (Bool-cases (is_crowded bytes s)) [
    | inr room ↦ rw (room, discard_oldest) v
    | inl full ↦
        rw (full, discard_oldest)
          (discard_oldest-IsConsistent fuel bytes (discard s 0) (discard-IsConsistent s 0 v))
  ]

  length-discard :
      (s : Store V) (fuel : ℕ) → length s.events ≤ suc fuel → length (discard s 0).events ≤ fuel
  unfolding discard
  length-discard s fuel h = elim (Option-cases (get_elem? s.events 0)) [
    | inl absent ↦ rw (absent, discard) (empty s.events absent)
    | inr (lost, found) ↦ rw (found, discard) (omega (arith, length-erase_idx s.events 0 found))
  ]
    where
      empty : (xs : List (Event V × ℕ)) → get_elem? xs 0 ≡ none → length xs ≤ fuel
      empty [] e = omega arith
      empty (x ∷ xs) e = cc

  -- With a round for each event the loop ends by its test.
  pub discard_oldest-fits :
      (fuel bytes : ℕ) (s : Store V)
      → IsConsistent s
      → bytes ≤ max_bytes
      → length s.events ≤ fuel
      → is_crowded bytes (discard_oldest fuel bytes s) ≡ false
  unfolding discard_oldest
  discard_oldest-fits zero bytes s v small enough = nothing s.events enough v.bytes
    where
      nothing :
          (xs : List (Event V × ℕ))
          → length xs ≤ 0
          → s.bytes ≡ sum_by (λ x. x.1) xs
          → is_crowded bytes (record s { events = xs }) ≡ false
      nothing [] h e = ground arith
      nothing (x ∷ xs) h e = absurd (omega arith)
  discard_oldest-fits (suc fuel) bytes s v small enough = elim (Bool-cases (is_crowded bytes s)) [
    | inr room ↦ rw (room, discard_oldest) room
    | inl full ↦
        rw (full, discard_oldest)
          (discard_oldest-fits fuel bytes (discard s 0) (discard-IsConsistent s 0 v) small
            (length-discard s fuel enough))
  ]
