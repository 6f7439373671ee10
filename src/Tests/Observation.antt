-- ===== src/Tests/Observation.antt =====
-- src/observation.rs: the theorems applied to a store of one watch.
use mathlib.Core.Path.{subst}
use master_control_program.Base.{
  any, ltb, ℕ, ◌≡◌, inl, inr, refl, sym, str_eq, str_eq_iff, Bool-cases, String, true, false, none,
  some, List, [], ◌∷◌, ok, arith, find_idx?, len, unwrap_or, ◌+◌,
}
use master_control_program.Base.Map.{string_key, get, adjust}
use master_control_program.Observation.Record.{
  stopped, Lifetime, Cursor, Event, EventFilter, EventsInput, WaitInput, WatchInput, WatchRecord,
  Json, filesystem, recording, satisfied, ObservationError,
}
use master_control_program.Observation.Validate.{validate_watch, validate_source, validate_filter}
use master_control_program.Observation.Match.{filter_matches}
use master_control_program.Observation.Store.{
  Store, append, forget, discard, trim, discard_oldest, push, of_watch, no_target,
}
use master_control_program.Observation.Store.Retention.{IsCounted, IsConsistent}
use master_control_program.Observation.Store.Limits.{IsWithinLimits, append-IsWithinLimits}
use master_control_program.Observation.Store.Gaps.{IsTraced, append-IsTraced}
use master_control_program.Observation.Store.Order.{IsOrdered, append-IsOrdered}
use master_control_program.Observation.Store.Forget.{forget-kept}
use master_control_program.Observation.Page.{EventsPage, read, scan_events, wanted}
use master_control_program.Observation.Page.Progress.{IsPage, read-IsPage, effective}
use master_control_program.Observation.Watch.{on_watch, emit, finish, fail}
use master_control_program.Observation.Watch.Ended.{Ended}
use master_control_program.Observation.Watch.Never.{Step-Ended}
use master_control_program.Observation.Watch.Life.{on_watch-Kept, Kept}
use master_control_program.Observation.Watch.Calls.{emits, finishes, loses_checkpoint, done, then}
use master_control_program.Observation.Watch.Steps.{Steps-Kept}
use master_control_program.Observation.Wait.{ends, goes_on, wait_round, checkpoint_failed}
use master_control_program.Observation.Wait.Rounds.{
  candidates, wait_round-satisfied, wait_round-next,
}

-- Values are numbers, without properties; the length of an event is that of its texts, and two.
abbrev json : Json ℕ
json = record {
  property = λ value key. none;
  same = λ a b. true;
  size = λ event. len event.watch_id + len event.kind + 2;
  filter_size = λ filter. 20;
  oversized = λ bytes. bytes;
  lost = λ reason events buffers. 0;
  failure = λ error. 0;
}

-- A watch keeps at most one event.
abbrev input : WatchInput
input = record {
  source = filesystem (67 ∷ []) false;
  lifetime = Lifetime.connection;
  max_duration_ms = none;
  max_events = some 1;
  max_bytes = none;
  max_recorded_events = none;
  max_recorded_bytes = none;
}

accepted : validate_watch (λ _. true) input ≡ ok 300_000
unfolding validate_watch validate_source
accepted = refl

abbrev at : ℕ → Cursor
at id = record { epoch = "epoch"; id = id }

abbrev watch_record : WatchRecord
watch_record = record {
  id = "w";
  owner = "client";
  input = input;
  status = recording;
  started_at_unix_ms = 1;
  recording_started_at_unix_ms = some 1;
  deadline_unix_ms = 300_001;
  start_cursor = at 0;
  finished_at_unix_ms = none;
  recorded_events = 1;
  recorded_bytes = 10;
  retained_events = 1;
  retained_bytes = 10;
  retention_dropped_events = 0;
  retention_dropped_bytes = 0;
  last_dropped_id = 0;
  last_gap_id = 0;
  provider_lost_events = 0;
  provider_lost_buffers = 0;
  error = none;
  stop_reason = none;
}

abbrev event : ℕ → Event ℕ
event id = record {
  cursor = at id;
  watch_id = "w";
  observed_at_unix_ms = 5;
  native_timestamp_100ns = none;
  source = "filesystem";
  kind = "changed";
  target = no_target;
  payload = 7;
}

abbrev store : Store ℕ
store = record {
  epoch = "epoch";
  started = 1;
  next_id = 2;
  bytes = 10;
  dropped_events = 0;
  dropped_bytes = 0;
  events = (event 1, 10) ∷ [];
  watches = ("w", watch_record) ∷ [];
  controls = "w" ∷ [];
  waits = [];
  wait_cancels = [];
  retired_watches = [];
  signals = ("w", record { canceled = false; finished = false }) ∷ [];
  canceled_waits = [];
}

-- The second event takes the place of the first.
abbrev after : Store ℕ
after = record store {
  next_id = 3;
  dropped_events = 1;
  dropped_bytes = 10;
  events = (event 2, 10) ∷ [];
  watches =
      (
        "w",
        record watch_record {
          recorded_events = 2;
          recorded_bytes = 20;
          retention_dropped_events = 1;
          retention_dropped_bytes = 10;
          last_dropped_id = 1;
        },
      )
      ∷ [];
}

appended : append json store 5 "w" "changed" no_target 7 none ≡ some after
unfolding append push trim discard_oldest discard get adjust
appended = refl

watch_record-IsCounted : IsCounted "w" store.events watch_record
watch_record-IsCounted = record {
  retained = refl;
  held_bytes = refl;
  recorded = refl;
  recorded_bytes = refl;
}

only_watch :
    (id : String) {r : WatchRecord}
    → get id store.watches ≡ some r
    → (id ≡ "w") × (r ≡ watch_record)
unfolding get
only_watch id {r} held = elim (Bool-cases (str_eq "w" id)) [
  | inl same ↦ (sym ((str_eq_iff "w" id).0 same), ground arith)
  | inr other ↦ ground arith
]

store-IsConsistent : IsConsistent store
unfolding get
store-IsConsistent = record {
  bytes = refl;
  distinct = (refl, tt);
  counts = λ id {r} held.
      (let (same, it) = only_watch id held in
        subst (λ k. IsCounted k store.events r) (sym same)
          (subst (IsCounted "w" store.events) (sym it) watch_record-IsCounted));
}

store-IsWithinLimits : IsWithinLimits store
store-IsWithinLimits = record { few = omega arith; small = omega arith }

store-IsOrdered : IsOrdered store
store-IsOrdered = record {
  increasing = (omega arith, tt);
  behind = (omega arith, omega arith, tt);
  numbered = omega arith;
}

append-IsWithinLimits_example : IsConsistent after × IsWithinLimits after
append-IsWithinLimits_example =
    append-IsWithinLimits json store 5 "w" "changed" no_target 7 none (λ r known. omega arith)
      store-IsConsistent store-IsWithinLimits appended

append-IsTraced_example : IsTraced store after
append-IsTraced_example = append-IsTraced json store 5 "w" "changed" no_target 7 none appended

append-IsOrdered_example : IsOrdered after
append-IsOrdered_example =
    append-IsOrdered json store 5 "w" "changed" no_target 7 none (λ r known. omega arith)
      store-IsOrdered appended

forget-kept_example :
    IsConsistent (forget store "w")
    × IsWithinLimits (forget store "w")
    × (get "w" (forget store "w").watches ≡ none)
    × (find_idx? (of_watch "w") (forget store "w").events ≡ none)
forget-kept_example = forget-kept store "w" store-IsConsistent store-IsWithinLimits

emitted : emit json store 5 "w" "changed" no_target 7 none ≡ some after
unfolding emit append push trim discard_oldest discard get adjust
emitted = refl

Steps-Kept_example : Kept (checkpoint_failed after (λ id. 7) "disk full")
Steps-Kept_example =
    Steps-Kept json (store-IsConsistent, store-IsWithinLimits)
      (then (then done (emits 5 "w" "changed" no_target 7 none emitted))
        (loses_checkpoint (λ id. 7) "disk full" refl))
      ((tt, λ r known. omega arith), tt)

abbrev filter : EventFilter ℕ
filter = record {
  watch_id = some "w";
  source = none;
  kind = some "changed";
  process = none;
  path = none;
  since_unix_ms = none;
  until_unix_ms = none;
  payload_equals = [];
}

abbrev asked : EventsInput ℕ
asked = record { after = some (at 0); filter = filter; limit = none }

abbrev page : EventsPage ℕ
page = record {
  epoch = "epoch";
  epoch_started_at_unix_ms = 1;
  next_cursor = at 1;
  oldest_retained_id = some 1;
  retention_gap = false;
  recording_gap = false;
  restarted = false;
  dropped_events = 0;
  dropped_bytes = 0;
  events = event 1 ∷ [];
  watches = watch_record ∷ [];
}

was_read : read json store asked "client" ≡ ok page
unfolding read validate_filter scan_events filter_matches get
was_read = refl

read-IsPage_example :
    IsPage (wanted json filter "client" store) store (effective json store asked) 100 page
read-IsPage_example = read-IsPage json store asked "client" store-IsOrdered was_read

abbrev wait_input : WaitInput ℕ
wait_input = record {
  lifetime = Lifetime.connection;
  filter = filter;
  after = some (at 0);
  deadline_unix_ms = 100;
  background = false;
}

abbrev message : ObservationError → String
message error = "error"

was_satisfied :
    wait_round json message store wait_input "client" false false (some (at 0))
    ≡ ends satisfied (some (event 1)) none (some (at 1))
unfolding wait_round read validate_filter scan_events filter_matches get
was_satisfied = refl

wait_round-satisfied_example :
    (last : ℕ) × (more : List (Event ℕ)) × (candidates json message store wait_input "client" false
        false
        (some (at 0))
        last
      ≡ event 1 ∷ more)
wait_round-satisfied_example =
    wait_round-satisfied json message store wait_input "client" false false (some (at 0))
      store-IsOrdered was_satisfied

waits_on :
    wait_round json message store wait_input "client" false false (some (at 1)) ≡ goes_on (at 1)
unfolding wait_round read validate_filter scan_events filter_matches get
waits_on = refl

wait_round-next_example :
    (candidates json message store wait_input "client" false false (some (at 1)) 1 ≡ [])
    × (any (λ (r : WatchRecord). ltb 1 r.last_dropped_id) (watch_record ∷ []) ≡ false)
wait_round-next_example =
    wait_round-next json message store wait_input "client" false false (some (at 1)) store-IsOrdered
      (inl waits_on)

-- The watch after it was stopped.
abbrev over_store : Store ℕ
over_store = on_watch "w" (λ r. record r { status = stopped }) store

over_store-Kept : Kept over_store
over_store-Kept =
    on_watch-Kept "w" (λ r. record r { status = stopped }) store
      (λ r. (refl, refl, refl, refl, refl, refl)) (store-IsConsistent, store-IsWithinLimits)

has_stopped : get "w" over_store.watches ≡ some (record watch_record { status = stopped })
unfolding get adjust
has_stopped = refl

-- Its provider ends with an error all the same.
abbrev failed_store : Store ℕ
failed_store = unwrap_or (finish json over_store 9 "w" (some "handle lost")) over_store

finished : finish json over_store 9 "w" (some "handle lost") ≡ some failed_store
unfolding finish fail append push trim discard_oldest discard get adjust
finished = refl

Step-Ended_example : Ended "w" failed_store.watches
Step-Ended_example =
    Step-Ended json "w" over_store-Kept has_stopped refl
      (finishes 9 "w" (some "handle lost") finished) (λ r known. omega arith)
