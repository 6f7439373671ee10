-- ===== src/Observation/Page/Progress.antt =====
-- src/observation.rs: `read` as a whole, page after page.
use mathlib.Core.Path.{subst}
use master_control_program.Base.{
  any, ap, ltb, ℕ, ◌-◌, ◌<◌, ◌≤◌, ◌≡◌, ◌⊎◌, inl, inr, refl, String, Bool, true, false, not, List,
  [], ◌∷◌, length, leb, if◌then◌else◌, arith, Bool-cases, ok, is_some_and, unwrap_or, str_eq,
  length-append,
}
use master_control_program.Base.Map.{string_key}
use master_control_program.Observation.Record.{Event, EventsInput, Json}
use master_control_program.Observation.Store.{Store}
use master_control_program.Observation.Page.{
  watches_read, Scan, scan_events, skipped, taken, from, read, page_of, wanted, cursor_id,
  EventsPage,
}
use master_control_program.Observation.Store.Order.{IsOrdered, UpTo}
use master_control_program.Observation.Page.Complete.{
  between, by_round, next-scan_events, scan_events-between,
}

module _ {V : Type 0} where
  length-scan_events :
      (want : Event V → Bool) (limit after : ℕ) (scan : Scan V) (events : List (Event V × ℕ))
      → length scan.events ≤ limit
      → length (scan_events want limit after scan events).events ≤ limit
  unfolding scan_events
  length-scan_events want limit after scan [] h = h
  length-scan_events want limit after scan ((event, bytes) ∷ rest) h =
      by_round want limit after scan event bytes rest (λ q. length q.events ≤ limit)
        (λ old. length-scan_events want limit after scan rest h)
        (λ new other. length-scan_events want limit after (skipped event scan) rest h)
        (λ new mine full. h)
        (λ new mine room.
          length-scan_events want limit after (taken (event, bytes) scan) rest
            (ground (arith, length-append scan.events (event ∷ []))))

  abbrev IsFresh : ℕ → Scan V → Type 0
  IsFresh after scan = ((length scan.events ≡ 0) × (scan.page_bytes ≡ 0)) ⊎ (after < scan.next)

  -- A scan that stops early has dealt with some event.
  stopped-scan_events :
      (want : Event V → Bool) (limit after low top : ℕ) (scan : Scan V)
      (events : List (Event V × ℕ))
      → 1 ≤ limit
      → UpTo top events
      → IsFresh after scan
      → scan.exhausted ≡ true
      → (scan_events want limit after scan events).exhausted ≡ false
      → after < (scan_events want limit after scan events).next
  unfolding scan_events
  stopped-scan_events want limit after low top scan [] l u f x e = cc
  stopped-scan_events want limit after low top scan ((event, bytes) ∷ rest) l u f x e =
      by_round want limit after scan event bytes rest (λ q. q.exhausted ≡ false → after < q.next)
        (λ old. stopped-scan_events want limit after low top scan rest l u.2 f x)
        (λ new other.
          stopped-scan_events want limit after low top (skipped event scan) rest l u.2
            (inr (ground arith)) x)
        (λ new mine full e. ground (arith, u.1))
        (λ new mine room.
          stopped-scan_events want limit after low top (taken (event, bytes) scan) rest l u.2
            (inr (ground arith)) x)
        e

-- What a page is: the wanted events up to its next cursor, which is after the last one or at the end.
pub record IsPage {V : Type 0} (want : Event V → Bool) (s : Store V) (after limit : ℕ)
    (page : EventsPage V) : Type 0 where
  pub events : page.events ≡ between want after page.next_cursor.id s.events
  pub few : length page.events ≤ limit
  pub ahead : after ≤ page.next_cursor.id
  pub moves : (after < page.next_cursor.id) ⊎ (page.next_cursor.id ≡ s.next_id - 1)

module _ {V : Type 0} (json : Json V) where
  -- The cursor that a page really starts after.
  abbrev pub effective : Store V → EventsInput V → ℕ
  effective s input = if leb s.next_id (cursor_id input.after) then 0 else cursor_id input.after

  page_of-IsPage :
      (s : Store V) (input : EventsInput V) (client : String) (restarted : Bool) (after limit : ℕ)
      → IsOrdered s
      → 1 ≤ limit
      → after < s.next_id
      → IsPage
          (wanted json input.filter client s)
          s
          after
          limit
          (page_of json input client s restarted after limit)
  page_of-IsPage s input client restarted after limit v l h =
      let want = wanted json input.filter client s in
      let q = scan_events want limit after (from after) s.events in
      let next =
        next-scan_events want limit after 0 (from after) s.events v.increasing (omega arith) in
      record {
        events =
            scan_events-between want limit after 0 (s.next_id - 1) (from after) s.events
              v.increasing v.behind (omega arith) refl;
        few = length-scan_events want limit after (from after) s.events (omega arith);
        ahead = ground (arith, next);
        moves = elim (Bool-cases q.exhausted) [
          | inl all ↦ inr (rw all refl)
          | inr stopped ↦ inl (
              rw stopped (
                stopped-scan_events want limit after 0 (s.next_id - 1) (from after) s.events l
                  v.behind (inl (refl, refl)) refl stopped))
        ];
      }

  -- A page that `read` returns holds exactly the retained events that are visible, selected, and
  -- between its two cursors, if their cursors increase; it is within the limit; and its next cursor
  -- is after the one that it starts from, or at the end of the recording.
  pub read-IsPage :
      (s : Store V) (input : EventsInput V) (client : String) {page : EventsPage V}
      → IsOrdered s
      → read json s input client ≡ ok page
      → IsPage
          (wanted json input.filter client s)
          s
          (effective s input)
          (unwrap_or input.limit 100)
          page
  unfolding read
  read-IsPage s input client {page} v h =
      subst
        (IsPage (wanted json input.filter client s) s (effective s input)
          (unwrap_or input.limit 100))
        {x = page_of json input client s
          (is_some_and input.after (λ cursor. not (str_eq cursor.epoch s.epoch)))
          (effective s input) (unwrap_or input.limit 100)}
        {y = page} (ground arith)
        (page_of-IsPage s input client
          (is_some_and input.after (λ cursor. not (str_eq cursor.epoch s.epoch)))
          (effective s input) (unwrap_or input.limit 100) v (ground arith)
          (ground (arith, v.numbered)))

  -- A page reports a gap if a watch that it reads has dropped an event after its cursor.
  pub read-gap :
      (s : Store V) (input : EventsInput V) (client : String) {page : EventsPage V}
      → read json s input client ≡ ok page
      → page.retention_gap
        ≡ any (λ r. ltb (effective s input) r.last_dropped_id) (watches_read input s client)
  unfolding read
  read-gap s input client {page} h =
      ap (λ (p : EventsPage V). p.retention_gap) {x = page}
        {y = page_of json input client s
          (is_some_and input.after (λ cursor. not (str_eq cursor.epoch s.epoch)))
          (effective s input) (unwrap_or input.limit 100)}
        (ground arith)
