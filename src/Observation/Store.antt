-- ===== src/Observation/Store.antt =====
-- src/observation.rs: the store of retained events, and what appends to it or forgets.
pub mod Retention
pub mod Limits
pub mod Gaps
pub mod Forget
pub mod Order
use master_control_program.Base.{
  is_some_and, ℕ, zero, suc, ◌+◌, ◌-◌, ◌*◌, ◌^◌, max, String, Bool, true, false, not, ◌&&◌, ◌||◌,
  Option, none, some, List, [], ◌∷◌, ◌++◌, length, keep, any, leb, ltb, ◌==◌, unwrap_or, str_eq,
  get_elem?, erase_idx, find_idx?, if◌then◌else◌,
}
use master_control_program.Base.Map.{Map, string_key, get, insert, remove, adjust}
use master_control_program.Observation.Record.{
  Lifetime, Cursor, Event, TargetIdentity, WatchRecord, WatchStatus, WaitRecord, Control, Json,
  active, name, max_events, max_bytes, max_event_bytes, stopping,
}

-- A control outlives its place in `controls`, since the sink of its watch holds it too: `signals`
-- are all the controls, and likewise `canceled_waits` are the waits whose cancellation was signaled.
pub record Store (V : Type 0) : Type 0 where
  pub epoch : String
  pub started : ℕ
  pub next_id : ℕ
  pub bytes : ℕ
  pub dropped_events : ℕ
  pub dropped_bytes : ℕ
  pub events : List (Event V × ℕ)
  pub watches : Map String WatchRecord
  pub controls : List String
  pub waits : Map String (WaitRecord V)
  pub wait_cancels : List String
  pub retired_watches : List String
  pub signals : Map String Control
  pub canceled_waits : List String

abbrev pub without : String → List String → List String
without id = keep (λ other. not (str_eq other id))

abbrev pub contains : String → List String → Bool
contains id = any (λ other. str_eq other id)

abbrev pub no_target : TargetIdentity
no_target = record {
  process = none;
  hwnd = none;
  path = none;
  registry_key = none;
  service = none;
  provider_guid = none;
}

-- The counters of a watch that loses an event, and of one that gets an event.
abbrev pub counted_drop : ℕ → ℕ → WatchRecord → WatchRecord
counted_drop id bytes r = record r {
  retained_events = r.retained_events - 1;
  retained_bytes = r.retained_bytes - bytes;
  retention_dropped_events = suc r.retention_dropped_events;
  retention_dropped_bytes = r.retention_dropped_bytes + bytes;
  last_dropped_id = max r.last_dropped_id id;
}

abbrev pub counted_event : Bool → ℕ → ℕ → WatchRecord → WatchRecord
counted_event is_gap id bytes r = record r {
  recorded_events = suc r.recorded_events;
  recorded_bytes = r.recorded_bytes + bytes;
  retained_events = suc r.retained_events;
  retained_bytes = r.retained_bytes + bytes;
  last_gap_id = if is_gap then id else r.last_gap_id;
}

abbrev pub is_at_limit : WatchRecord → Bool
is_at_limit r =
    active r.status
    && (leb (unwrap_or r.input.max_recorded_events 100_000) r.recorded_events
        || leb (unwrap_or r.input.max_recorded_bytes (64 * 1024 * 1024)) r.recorded_bytes)

abbrev pub stop_at_limit : WatchRecord → WatchRecord
stop_at_limit r =
    if is_at_limit r
    then record r { status = stopping; stop_reason = some "recording_limit" }
    else r

abbrev pub fits : WatchRecord → ℕ → Bool
fits r bytes =
    ltb r.retained_events (unwrap_or r.input.max_events 1024)
    && leb (r.retained_bytes + bytes) (unwrap_or r.input.max_bytes (1024 * 1024))

module _ {V : Type 0} where
  abbrev pub cancel_control : String → Store V → Store V
  cancel_control id s = record s {
    signals =
        if contains id s.controls
        then adjust id (λ c. record c { canceled = true }) s.signals
        else s.signals;
  }

  abbrev pub lose : ℕ → Event V × ℕ → Store V → Store V
  lose index (event, bytes) s = record s {
    events = erase_idx s.events index;
    bytes = s.bytes - bytes;
    dropped_events = suc s.dropped_events;
    dropped_bytes = s.dropped_bytes + bytes;
    watches = adjust event.watch_id (counted_drop event.cursor.id bytes) s.watches;
  }

  unfoldable pub discard : Store V → ℕ → Store V
  discard s index = elim (get_elem? s.events index) [ none ↦ s | some lost ↦ lose index lost s ]

  abbrev pub of_watch : String → Event V × ℕ → Bool
  of_watch id (event, bytes) = str_eq event.watch_id id

  -- The loop of `forget`, on fuel.
  unfoldable pub discard_all : ℕ → String → Store V → Store V
  discard_all zero id s = s
  discard_all (suc fuel) id s = elim (find_idx? (of_watch id) s.events) [
    | none ↦ s
    | some index ↦ discard_all fuel id (discard s index)
  ]

  unfoldable pub forget : Store V → String → Store V
  forget s id =
      let q = discard_all (length s.events) id s in
      record q {
        watches = remove id q.watches;
        controls = without id q.controls;
        retired_watches = without id q.retired_watches;
      }

  abbrev pub fits_watch : String → ℕ → Store V → Bool
  fits_watch id bytes s = elim (get id s.watches) [ none ↦ true | some r ↦ fits r bytes ]

  -- The two loops of `append` that make room, on fuel; the watch stays in the store.
  unfoldable pub trim : ℕ → String → ℕ → Store V → Store V
  trim zero id bytes s = s
  trim (suc fuel) id bytes s = elim (fits_watch id bytes s) [
    | true ↦ s
    | false ↦ elim (find_idx? (of_watch id) s.events) [
      | none ↦ s
      | some index ↦ trim fuel id bytes (discard s index)
    ]
  ]

  abbrev pub is_crowded : ℕ → Store V → Bool
  is_crowded bytes s = leb max_events (length s.events) || ltb max_bytes (s.bytes + bytes)

  unfoldable pub discard_oldest : ℕ → ℕ → Store V → Store V
  discard_oldest zero bytes s = s
  discard_oldest (suc fuel) bytes s = elim (is_crowded bytes s) [
    | false ↦ s
    | true ↦ discard_oldest fuel bytes (discard s 0)
  ]

  -- The end of `append`: the event is added and counted, and a watch at its limit is stopped.
  unfoldable pub push : Store V → Event V × ℕ → Store V
  push s (event, bytes) =
      let id = event.watch_id in
      let counted = counted_event (str_eq event.kind "gap") event.cursor.id bytes in
      let q = record s {
        bytes = s.bytes + bytes;
        events = s.events ++ ((event, bytes) ∷ []);
        watches = adjust id (λ r. stop_at_limit (counted r)) s.watches;
      } in
      if is_some_and (get id s.watches) (λ r. is_at_limit (counted r))
      then cancel_control id q
      else q

  abbrev pub new_event :
      Store V → WatchRecord → ℕ → String → String → TargetIdentity → V → Option ℕ → Event V
  new_event s r now id kind target payload native_timestamp = record {
    cursor = record { epoch = s.epoch; id = s.next_id };
    watch_id = id;
    observed_at_unix_ms = now;
    native_timestamp_100ns = native_timestamp;
    source = name r.input.source;
    kind = kind;
    target = target;
    payload = payload;
  }

abbrev pub next_id_limit : ℕ
next_id_limit = 2 ^ 64

module _ {V : Type 0} (json : Json V) where
  abbrev pub gap_event : Event V → Event V
  gap_event event = record event {
    kind = "gap";
    payload = json.oversized (json.size event);
    target = no_target;
  }

  -- The event that is recorded, with its length: an event that is too long is a gap.
  abbrev pub sized : WatchRecord → Event V → Event V × ℕ
  sized r event =
      if ltb max_event_bytes (json.size event)
        || ltb (unwrap_or r.input.max_bytes (1024 * 1024)) (json.size event)
      then (gap_event event, json.size (gap_event event))
      else (event, json.size event)

  abbrev pub make_room : String → ℕ → Store V → Store V
  make_room id bytes s =
      let q = trim (length s.events) id bytes s in discard_oldest (length q.events) bytes q

  -- `none` is the panic "event cursor exhausted".
  unfoldable pub append :
      Store V → ℕ → String → String → TargetIdentity → V → Option ℕ → Option (Store V)
  append s now id kind target payload native_timestamp = elim (get id s.watches) [
    | none ↦ some s
    | some r ↦
        (let event = sized r (new_event s r now id kind target payload native_timestamp) in
          if ltb (suc s.next_id) next_id_limit
          then some (push (make_room id event.1 (record s { next_id = suc s.next_id })) event)
          else none)
  ]
