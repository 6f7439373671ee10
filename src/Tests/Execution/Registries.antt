-- ===== src/Tests/Execution/Registries.antt =====
-- The theorems on the registry and on the gate before a process is resumed, applied.
use master_control_program.Base.{
  String, ◌≡◌, ◌≢◌, ◌⊎◌, [], ◌∷◌, some, none, true, false, refl, ok, arith,
}
use master_control_program.Base.Map.{
  Map, string_key, nat_key, get, insert, remove, adjust, place, Distinct,
}
use master_control_program.Execution.Record.{Entry, Lifetime, running, exited, starting, evictable}
use master_control_program.Execution.Entry.{OsAnswer, is_over, terminate}
use master_control_program.Execution.Registry.{
  Registry, empty, make_room, is_full, register_connection, reserve, admit, connection_is_open,
  check,
}
use master_control_program.Execution.Registry.Eviction.{
  AllKept, make_room-keeps_live, make_room-cases,
}
use master_control_program.Execution.Registry.Capacity.{IsWithin, empty-IsWithin}
use master_control_program.Execution.Start.{
  resume, shutdown_connection, disconnect, terminate_all, before_resume,
}
use master_control_program.Execution.Start.Gate.{shutdown_connection-ends}
use master_control_program.Execution.Start.Calls.{
  Calls, Calls-IsWithin, closed_never_resumes, registers, reserves, admits, done, then,
}
use master_control_program.Tests.Execution.Entries.{live, info}

-- A job that ended, and one that runs and belongs to "client".
abbrev old : Entry
old = record (live "a" true exited 5) {
  info = record (info "a" Lifetime.connection exited 5) {
    root_exit_code = some 0;
    tree_active_processes = 0;
  };
}

abbrev entries : Map String Entry
entries = ("a", old) ∷ ("b", live "b" false running 6) ∷ []

entries_Distinct : Distinct entries
unfolding get
entries_Distinct = (refl, (refl, tt))

-- All but eight bytes of the budget are taken.
abbrev registry : Registry
registry = record empty {
  entries = entries;
  connections = ("client", 0) ∷ [];
  budget = 67_108_856;
  next_token = 1;
}

make_room-keeps_live_example :
    get "b" (make_room 2 16 registry).0.entries ≡ some (live "b" false running 6)
unfolding get evictable
make_room-keeps_live_example = make_room-keeps_live 2 16 registry "b" entries_Distinct refl refl

make_room-cases_example :
    (((make_room 2 16 registry).1 ≡ true) × (is_full 16 (make_room 2 16 registry).0 ≡ false))
    ⊎ (((make_room 2 16 registry).1 ≡ false)
        × (is_full 16 (make_room 2 16 registry).0 ≡ true)
        × AllKept (make_room 2 16 registry).0.entries)
make_room-cases_example = make_room-cases 2 16 registry (omega arith) entries_Distinct

abbrev admitted_entry : Entry
admitted_entry = live "c" false starting 9

-- A connection is registered, a reservation is made, and an entry is admitted with it.
abbrev connected : Registry
connected = record empty { connections = ("client", 0) ∷ []; next_token = 1 }

abbrev reserved : Registry
reserved = record connected {
  pending = 1;
  budget = 8;
  reservations = (0, 8) ∷ [];
  next_reservation = 1;
}

abbrev holding : Registry
holding = record connected {
  entries = ("c", admitted_entry) ∷ [];
  budget = 8;
  next_reservation = 1;
}

connects : register_connection (λ _. true) empty "client" ≡ ok connected
unfolding register_connection empty get insert place
connects = refl

makes_reservation : reserved ≡ (reserve true connected "client" Lifetime.connection 8).0
unfolding reserve make_room empty get insert connection_is_open place
makes_reservation = refl

reservation_held : get 0 reserved.reservations ≡ some 8
unfolding get
reservation_held = refl

unused_id : get "c" reserved.entries ≡ none
unfolding empty get
unused_id = refl

admits_entry : admit reserved false 0 "client" 0 "c" admitted_entry ≡ ok holding
unfolding admit empty check connection_is_open get insert remove place
admits_entry = refl

calls : Calls empty holding
calls =
    then
      (then (then done (registers (λ _. true) "client" connects))
        (reserves true "client" Lifetime.connection 8 makes_reservation))
      (admits false 0 "client" 0 "c" admitted_entry reservation_held unused_id admits_entry)

Calls-IsWithin_example : IsWithin holding
Calls-IsWithin_example = Calls-IsWithin empty-IsWithin calls

abbrev going : Registry
going = record holding { entries = ("c", live "c" false running 9) ∷ [] }

goes : resume holding false false 0 "client" Lifetime.connection "c" none ≡ ok going
unfolding resume before_resume check empty connection_is_open get adjust
goes = refl

abbrev answers : String → OsAnswer
answers _ = none

token_held : get "client" registry.connections ≡ some 0
unfolding get
token_held = refl

closed_never_resumes_example :
    resume
      (shutdown_connection registry "client" answers).0
      false
      false
      0
      "client"
      Lifetime.connection
      "b"
      none
    ≢ ok registry
closed_never_resumes_example =
    closed_never_resumes registry registry "client" 0 answers false false "b" "client" none
      token_held done

job_held : get "b" registry.entries ≡ some (live "b" false running 6)
unfolding get
job_held = refl

none_failed : (shutdown_connection registry "client" answers).1 ≡ []
unfolding shutdown_connection disconnect terminate_all terminate empty get remove
none_failed = refl

shutdown_connection-ends_example :
    (e : Entry) × (get "b" (shutdown_connection registry "client" answers).0.entries ≡ some e)
    × ((is_over e.info ≡ true) ⊎ (e.info.cancellation_requested ≡ true))
shutdown_connection-ends_example =
    shutdown_connection-ends registry "client" answers "b" none_failed job_held refl
