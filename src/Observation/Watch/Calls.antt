-- ===== src/Observation/Watch/Calls.antt =====
-- src/observation.rs: the calls and the reports of the providers, as steps in any order.
use master_control_program.Base.{
  ℕ, ◌≤◌, ◌≡◌, String, Bool, Option, none, some, List, ok, find_idx?, true,
}
use master_control_program.Base.Map.{string_key, get}
use master_control_program.Observation.Record.{
  Event, TargetIdentity, WatchInput, Json, WaitRecord, Outcome, Cursor, WatchRecord,
}
use master_control_program.Observation.Store.{
  Store, forget, gap_event, of_watch, no_target, cancel_control, new_event,
}
use master_control_program.Observation.Watch.{
  create, request_stop, remove_forget, ready, emit, lost, fail, finish, retire_all, with_lost,
  failed_with, on_watch, quiesced,
}
use master_control_program.Observation.Wait.{
  retire_owned, admit_wait, finish_wait, cancel_wait, checkpoint_failed, signal_wait, drop_waits,
}

module _ {V : Type 0} (json : Json V) where
  -- One call, or one report of a provider; a watch is created under a new identifier. The loop of a
  -- shutdown over the watches may be one step, or a `stops` and a `drops` for each of them with other
  -- steps between.
  pub data Step (s : Store V) (q : Store V) : Type 0 where
    creates :
        (closed : Bool) (id owner : String) (input : WatchInput) (now duration : ℕ)
        → get id s.watches ≡ none
        → find_idx? (of_watch id) s.events ≡ none
        → create s closed id owner input now duration ≡ ok q
        → Step s q
    stops : (id reason : String) → q ≡ request_stop s id reason → Step s q
    forgets : (id client : String) → remove_forget s id client ≡ ok q → Step s q
    retires : (client : String) → q ≡ retire_owned s client → Step s q
    disconnects : (ids : List String) → q ≡ retire_all ids s → Step s q
    drops : (id : String) → quiesced s id ≡ true → q ≡ forget s id → Step s q
    signals : (id : String) → q ≡ cancel_control id s → Step s q
    admits : (closed : Bool) (r : WaitRecord V) → admit_wait s closed r ≡ ok q → Step s q
    ends_wait :
        (now : ℕ) (id : String) (outcome : Outcome) (event : Option (Event V))
        (error : Option String) (cursor : Option Cursor)
        → q ≡ finish_wait s now id outcome event error cursor
        → Step s q
    cancels_wait :
        (now : ℕ) (id client : String) (forgets : Bool) (r : WaitRecord V)
        → cancel_wait s now id client forgets ≡ ok (q, r)
        → Step s q
    signals_wait : (id : String) → q ≡ signal_wait id s → Step s q
    drops_waits : (ids : List String) → q ≡ drop_waits ids s → Step s q
    loses_checkpoint :
        (now : String → ℕ) (error : String) → q ≡ checkpoint_failed s now error → Step s q
    readies : (id : String) (now : ℕ) → q ≡ ready s id now → Step s q
    emits :
        (now : ℕ) (id kind : String) (target : TargetIdentity) (payload : V) (timestamp : Option ℕ)
        → emit json s now id kind target payload timestamp ≡ some q
        → Step s q
    losts :
        (now : ℕ) (id : String) (events buffers : Option ℕ) (reason : String)
        → lost json s now id events buffers reason ≡ some q
        → Step s q
    fails : (now : ℕ) (id error : String) → fail json s now id error ≡ some q → Step s q
    finishes :
        (now : ℕ) (id : String) (error : Option String)
        → finish json s now id error ≡ some q
        → Step s q

  pub data Steps (s : Store V) : Store V → Type 0 where
    done : Steps s s
    then : {q t : Store V} → Steps s q → Step q t → Steps s t

  -- The gap that takes the place of an event of the watch, if it is too long, takes at most 1024 bytes.
  abbrev pub HasShortGap : Store V → ℕ → String → String → TargetIdentity → V → Option ℕ → Type 0
  HasShortGap s now id kind target payload timestamp =
      (r : WatchRecord)
      → get id s.watches ≡ some r
      → json.size (gap_event json (new_event s r now id kind target payload timestamp)) ≤ 1024

  abbrev pub HasShortFailure : Store V → ℕ → String → String → Type 0
  HasShortFailure s now id error =
      HasShortGap (on_watch id (failed_with error now) s) now id "watch.failed" no_target
        (json.failure error) none

  abbrev pub HasShortFinish : Store V → ℕ → String → Option String → Type 0
  HasShortFinish s now id none = Unit
  HasShortFinish s now id (some error) = HasShortFailure s now id error

  -- The events that the step may record have short gaps.
  abbrev pub IsShort : {s q : Store V} → Step s q → Type 0
  IsShort {s} (emits now id kind target payload timestamp h) =
      HasShortGap s now id kind target payload timestamp
  IsShort {s} (losts now id events buffers reason h) =
      HasShortGap (on_watch id (with_lost events buffers) s) now id "gap" no_target
        (json.lost reason events buffers) none
  IsShort {s} (fails now id error h) = HasShortFailure s now id error
  IsShort {s} (finishes now id error h) = HasShortFinish s now id error
  IsShort {s} _ = Unit

  abbrev pub AllShort : {s q : Store V} → Steps s q → Type 0
  AllShort done = Unit
  AllShort (then steps step) = AllShort steps × IsShort step
