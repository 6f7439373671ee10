-- ===== src/Observation/Store/Limits.antt =====
-- src/observation.rs: what `append` keeps: the counters, the limits of the store and of the watch.
use mathlib.Core.Path.{subst}
use master_control_program.Base.{
  ℕ, ◌≤◌, inl, inr, String, Bool, List, [], ◌∷◌, ◌++◌, length, arith, Bool-cases, str_eq,
  if◌then◌else◌, sum_by-append, is_some_and, ◌≡◌, false, Option, length-append, some, ◌+◌, sum_by,
  suc, Option-cases, sym,
}
use master_control_program.Base.Map.{string_key, get, adjust, get-adjust_inv, Distinct-adjust}
use master_control_program.Observation.Record.{
  Event, WatchRecord, max_events, max_bytes, Json, TargetIdentity, max_event_bytes,
}
use master_control_program.Observation.Store.{
  Store, of_watch, counted_event, stop_at_limit, is_at_limit, push, is_crowded, gap_event, append,
  sized, new_event, trim, discard_oldest,
}
use master_control_program.Observation.Store.Retention.{
  IsCounted, IsConsistent, trim-IsConsistent, discard_oldest-IsConsistent, discard_oldest-fits,
}

-- The limits of the store.
pub record IsWithinLimits {V : Type 0} (s : Store V) : Type 0 where
  pub few : length s.events ≤ max_events
  pub small : s.bytes ≤ max_bytes

module _ {V : Type 0} where
  counted_event-IsCounted :
      (id : String) (events : List (Event V × ℕ)) (event : Event V) (bytes : ℕ) (gap : Bool)
      (r : WatchRecord)
      → IsCounted id events r
      → IsCounted id (events ++ ((event, bytes) ∷ [])) (
          if str_eq event.watch_id id
          then stop_at_limit (counted_event gap event.cursor.id bytes r)
          else r)
  counted_event-IsCounted id events event bytes gap r c =
      let one = sum_by-append (λ x. if of_watch id x then 1 else 0) events ((event, bytes) ∷ []) in
      let size =
        sum_by-append (λ x. if of_watch id x then x.1 else 0) events ((event, bytes) ∷ []) in
      elim (Bool-cases (str_eq event.watch_id id)) [
        | inl same ↦ elim (Bool-cases (is_at_limit (counted_event gap event.cursor.id bytes r))) [
          | inl limit ↦
              rw (same, limit)
                (record {
                  retained = ground (arith, one, c.retained);
                  held_bytes = ground (arith, size, c.held_bytes);
                  recorded = omega (arith, c.recorded);
                  recorded_bytes = omega (arith, c.recorded_bytes);
                })
          | inr more ↦
              rw (same, more)
                (record {
                  retained = ground (arith, one, c.retained);
                  held_bytes = ground (arith, size, c.held_bytes);
                  recorded = omega (arith, c.recorded);
                  recorded_bytes = omega (arith, c.recorded_bytes);
                })
        ]
        | inr other ↦ rw other (record {
          retained = ground (arith, one, c.retained);
          held_bytes = ground (arith, size, c.held_bytes);
          recorded = c.recorded;
          recorded_bytes = c.recorded_bytes;
        })
      ]

  push-IsConsistent :
      (s : Store V) (event : Event V) (bytes : ℕ)
      → IsConsistent s
      → IsConsistent (push s (event, bytes))
  unfolding push
  push-IsConsistent s event bytes v = elim (Bool-cases limited) [
    | inl limit ↦
        rw (limit, push)
          (record {
            bytes = same_bytes;
            distinct = Distinct-adjust event.watch_id counted s.watches v.distinct;
            counts = counts;
          })
    | inr more ↦
        rw (more, push)
          (record {
            bytes = same_bytes;
            distinct = Distinct-adjust event.watch_id counted s.watches v.distinct;
            counts = counts;
          })
  ]
    where
      counted : WatchRecord → WatchRecord
      counted r = stop_at_limit (counted_event (str_eq event.kind "gap") event.cursor.id bytes r)

      limited : Bool
      limited =
          is_some_and (get event.watch_id s.watches)
            (λ r. is_at_limit (counted_event (str_eq event.kind "gap") event.cursor.id bytes r))

      same_bytes : s.bytes + bytes ≡ sum_by (λ x. x.1) (s.events ++ ((event, bytes) ∷ []))
      same_bytes = omega (arith, v.bytes, sum_by-append (λ x. x.1) s.events ((event, bytes) ∷ []))

      counts :
          (id : String) {r : WatchRecord}
          → get id (adjust event.watch_id counted s.watches) ≡ some r
          → IsCounted id (s.events ++ ((event, bytes) ∷ [])) r
      counts id held =
          let (r, before, e) = get-adjust_inv event.watch_id id counted s.watches held in
          subst (IsCounted id (s.events ++ ((event, bytes) ∷ []))) (sym e) (
            counted_event-IsCounted id s.events event bytes (str_eq event.kind "gap") r
              (v.counts id before))

  push-IsWithinLimits :
      (s : Store V) (event : Event V) (bytes : ℕ)
      → is_crowded bytes s ≡ false
      → IsWithinLimits (push s (event, bytes))
  unfolding push
  push-IsWithinLimits s event bytes room =
      let one = length-append s.events ((event, bytes) ∷ []) in
      elim (Bool-cases (
        is_some_and (get event.watch_id s.watches)
          (λ r. is_at_limit (counted_event (str_eq event.kind "gap") event.cursor.id bytes r)))) [
            | inl limit ↦
                rw (limit, push) (record { few = ground (arith, one); small = ground arith })
            | inr more ↦
                rw (more, push) (record { few = ground (arith, one); small = ground arith })
          ]

module _ {V : Type 0} (json : Json V) where
  -- What is recorded is no longer than the limits, if the gap in place of a long event is short.
  pub sized-le :
      (r : WatchRecord) (event : Event V)
      → json.size (gap_event json event) ≤ 1024
      → (sized json r event).1 ≤ max_event_bytes
  sized-le r event short = ground arith

  -- Whatever is appended, the counters stay right and the store stays within its limits, if the gap
  -- in place of the event takes at most 1024 bytes.
  pub append-IsWithinLimits :
      (s : Store V) (now : ℕ) (id kind : String) (target : TargetIdentity) (payload : V)
      (native_timestamp : Option ℕ) {q : Store V}
      → ((r : WatchRecord)
          → get id s.watches ≡ some r
          → json.size (gap_event json (new_event s r now id kind target payload native_timestamp))
            ≤ 1024)
      → IsConsistent s
      → IsWithinLimits s
      → append json s now id kind target payload native_timestamp ≡ some q
      → IsConsistent q × IsWithinLimits q
  unfolding append
  append-IsWithinLimits s now id kind target payload native_timestamp {q} short v w h =
      elim (Option-cases (get id s.watches)) [
        | inl unknown ↦
            subst (λ x. IsConsistent x × IsWithinLimits x) {x = s} {y = q} (ground arith) (v, w)
        | inr (r, known) ↦
            (let event = sized json r (new_event s r now id kind target payload native_timestamp) in
              let t = record s { next_id = suc s.next_id } in
              let a = trim (length t.events) id event.1 t in
              let va = trim-IsConsistent (length t.events) id event.1 t (numbered v) in
              let b = discard_oldest (length a.events) event.1 a in
              let vb = discard_oldest-IsConsistent (length a.events) event.1 a va in
              let small : event.1 ≤ max_bytes = omega (
                arith,
                sized-le r (new_event s r now id kind target payload native_timestamp)
                    (short r known),
              ) in
              let room : is_crowded event.1 b ≡ false =
                discard_oldest-fits (length a.events) event.1 a va small (omega arith) in
              subst (λ x. IsConsistent x × IsWithinLimits x) {x = push b event} {y = q}
                (ground arith)
                (
                  push-IsConsistent b event.0 event.1 vb,
                  push-IsWithinLimits b event.0 event.1 room,
                ))
      ]
    where
      numbered : IsConsistent s → IsConsistent (record s { next_id = suc s.next_id })
      numbered v = record { bytes = v.bytes; distinct = v.distinct; counts = v.counts }
