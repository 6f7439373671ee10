-- ===== src/Observation/Match.antt =====
-- src/observation.rs: which events a scope records and which a filter selects.
use master_control_program.Base.{
  ℕ, String, Bool, true, false, not, ◌&&◌, ◌||◌, Option, none, some, List, [], ◌∷◌, any, all, leb,
  ◌==◌, is_some, is_some_and, is_none_or, str_eq,
}
use master_control_program.Observation.Record.{
  ProcessIdentity, RecordingScope, Event, EventFilter, Json,
}

-- `==` on optional numbers.
abbrev pub same_number : Option ℕ → Option ℕ → Bool
same_number none none = true
same_number (some a) (some b) = a == b
same_number _ _ = false

abbrev pub is_empty : {A : Type 0} → List A → Bool
is_empty [] = true
is_empty (x ∷ xs) = false

abbrev session_of : Option ProcessIdentity → Option ℕ
session_of none = none
session_of (some p) = p.session_id

abbrev same_process : ProcessIdentity → ProcessIdentity → Bool
same_process wanted actual =
    actual.pid == wanted.pid
    && same_number actual.process_created_100ns wanted.process_created_100ns

unfoldable pub scope_matches : RecordingScope → Option ProcessIdentity → Option ℕ → Bool
scope_matches scope process event_id =
    (is_empty scope.event_ids
      || is_some_and event_id (λ id. any (λ wanted. wanted == id) scope.event_ids))
    && ((not (is_some scope.session_id) || same_number scope.session_id (session_of process))
        && (is_empty scope.processes
            || is_some_and process
                (λ actual. any (λ wanted. same_process wanted actual) scope.processes)))

abbrev has_path : String → Option String → Bool
has_path path none = false
has_path path (some actual) = str_eq actual path

module _ {V : Type 0} (json : Json V) where
  abbrev has_property : V → String × V → Bool
  has_property payload (key, value) =
      is_some_and (json.property payload key) (λ actual. json.same actual value)

  unfoldable pub filter_matches : EventFilter V → Event V → Bool
  filter_matches filter event =
      is_none_or filter.watch_id (λ id. str_eq id event.watch_id)
      && (is_none_or filter.source (λ source. str_eq source event.source)
          && (is_none_or filter.kind (λ kind. str_eq kind event.kind)
              && (is_none_or filter.process (λ wanted. is_some_and event.target.process (λ actual.
                    same_process wanted actual
                    && is_none_or wanted.session_id
                        (λ session. is_some_and actual.session_id (λ id. id == session))))
                  && (is_none_or filter.path (λ path. has_path path event.target.path)
                      && (is_none_or filter.since_unix_ms
                            (λ time. leb time event.observed_at_unix_ms)
                          && (is_none_or filter.until_unix_ms
                                (λ time. leb event.observed_at_unix_ms time)
                              && all (has_property event.payload) filter.payload_equals))))))
