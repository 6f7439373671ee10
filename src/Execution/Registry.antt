-- ===== src/Execution/Registry.antt =====
-- src/execution.rs: the registry of entries and connections, under its one lock.
pub mod Eviction
pub mod Capacity
use master_control_program.Base.{
  ℕ, zero, suc, ◌+◌, ◌-◌, String, Bool, true, false, not, ◌&&◌, ◌||◌, Option, none, some, List, [],
  ◌∷◌, length, leb, ltb, if◌then◌else◌, is_some_and, is_some, Result, ok, err, ensure, or_err,
  ◌>>=◌, ◌>>◌, ◌==◌,
}
use master_control_program.Base.Map.{Map, string_key, nat_key, get, insert, remove}
use master_control_program.Execution.Record.{
  Entry, Lifetime, ExecutionError, evictable, authorized, is_persistent, max_records,
  max_total_output_bytes, shutting_down, too_many_connections, already_registered,
  unknown_connection, persistence_unavailable, connection_closed, capacity_reached,
  request_canceled, connection_closed_during_startup, closed_before_resume, unknown_id,
  other_connection, invalid_uuid,
}

-- A connection holds a cancellation token, which others share; the tokens are numbered, and
-- `canceled` lists those that were canceled. `reservations` are the `Reservation` values that some
-- call of `start` holds, with their budgets.
pub record Registry : Type 0 where
  pub entries : Map String Entry
  pub connections : Map String ℕ
  pub closed : Bool
  pub pending : ℕ
  pub budget : ℕ
  pub evicted : ℕ
  pub canceled : List ℕ
  pub next_token : ℕ
  pub reservations : Map ℕ ℕ
  pub next_reservation : ℕ

unfoldable pub empty : Registry
empty = record {
  entries = [];
  connections = [];
  closed = false;
  pending = 0;
  budget = 0;
  evicted = 0;
  canceled = [];
  next_token = 0;
  reservations = [];
  next_reservation = 0;
}

abbrev pub member : ℕ → List ℕ → Bool
member n [] = false
member n (m ∷ ms) = m == n || member n ms

abbrev pub is_cancelled : Registry → ℕ → Bool
is_cancelled r token = member token r.canceled

unfoldable pub connection_is_open : Registry → String → Bool
connection_is_open r id =
    not r.closed && is_some_and (get id r.connections) (λ token. not (is_cancelled r token))

-- `is_uuid` is the answer of `Uuid::parse_str`.
unfoldable pub register_connection :
    (String → Bool) → Registry → String → Result ExecutionError Registry
register_connection is_uuid r id = do
  ensure (is_uuid id) invalid_uuid
  ensure (not r.closed) shutting_down
  ensure (ltb (length r.connections) 64) too_many_connections
  ensure (not (is_some (get id r.connections))) already_registered
  ok (record r {
    connections = insert id r.next_token r.connections;
    next_token = suc r.next_token;
  })

unfoldable pub connection_cancellation : Registry → String → Result ExecutionError ℕ
connection_cancellation r id = or_err (get id r.connections) unknown_connection

-- `.filter_map(..).min_by_key(|(_, time)| *time)`: the first of the oldest.
abbrev pub older : String → ℕ → Option (String × ℕ) → Option (String × ℕ)
older id time none = some (id, time)
older id time (some (id', time')) = if leb time time' then some (id, time) else some (id', time')

unfoldable pub oldest : Map String Entry → Option (String × ℕ)
oldest [] = none
oldest ((id, e) ∷ m) =
    let rest = oldest m in if evictable e then older id e.info.started_at_ms rest else rest

abbrev pub is_full : ℕ → Registry → Bool
is_full budget r =
    leb max_records (length r.entries + r.pending) || ltb max_total_output_bytes (r.budget + budget)

unfoldable pub evict : String → Registry → Registry
evict id r = elim (get id r.entries) [
  | none ↦ r
  | some e ↦ record r {
    entries = remove id r.entries;
    budget = r.budget - e.budget;
    evicted = suc r.evicted;
  }
]

-- The `while` loop of `reserve`, on fuel; each round forgets one entry. `false` is the `bail!`.
unfoldable pub make_room : ℕ → ℕ → Registry → Registry × Bool
make_room zero budget r = (r, not (is_full budget r))
make_room (suc fuel) budget r = elim (is_full budget r) [
  | false ↦ (r, true)
  | true ↦ elim (oldest r.entries) [
    | none ↦ (r, false)
    | some (id, _) ↦ make_room fuel budget (evict id r)
  ]
]

abbrev pub hold : ℕ → Registry → Registry
hold budget r = record r {
  pending = suc r.pending;
  budget = r.budget + budget;
  reservations = insert r.next_reservation budget r.reservations;
  next_reservation = suc r.next_reservation;
}

abbrev pub held : ℕ → Registry × Bool → Registry × Result ExecutionError ℕ
held budget (r, true) = (hold budget r, ok r.next_reservation)
held budget (r, false) = (r, err capacity_reached)

-- The new registry comes back beside an error too: what was forgotten stays forgotten.
unfoldable pub reserve :
    Bool → Registry → String → Lifetime → ℕ → Registry × Result ExecutionError ℕ
reserve host r client lifetime budget =
    if is_persistent lifetime && not host
    then (r, err persistence_unavailable)
    else if connection_is_open r client
    then held budget (make_room (length r.entries) budget r)
    else (r, err connection_closed)

-- `Reservation::drop`, of a reservation that was not committed.
unfoldable pub release : Registry → ℕ → Registry
release r id = elim (get id r.reservations) [
  | none ↦ r
  | some budget ↦ record r {
    pending = r.pending - 1;
    budget = r.budget - budget;
    reservations = remove id r.reservations;
  }
]

-- `StartupCancellation::check`: whether the request was canceled, and the connection's token.
unfoldable pub check : Registry → Bool → ℕ → Result ExecutionError (Unit {0})
check r requested token = do
  ensure (not requested) request_canceled
  ensure (not (is_cancelled r token)) connection_closed_during_startup

-- The block of `start` that admits an entry under the lock and commits its reservation.
abbrev pub admitted : Registry → ℕ → String → Entry → Registry
admitted r reservation id e = record r {
  entries = insert id e r.entries;
  pending = r.pending - 1;
  reservations = remove reservation r.reservations;
}

unfoldable pub admit :
    Registry → Bool → ℕ → String → ℕ → String → Entry → Result ExecutionError Registry
admit r requested token client reservation id e = do
  check r requested token
  ensure (connection_is_open r client) closed_before_resume
  ok (admitted r reservation id e)

-- `ExecutionManager::entry`
unfoldable pub entry : (String → Bool) → Registry → String → String → Result ExecutionError Entry
entry is_uuid r id client = do
  ensure (is_uuid id) invalid_uuid
  ensure (connection_is_open r client) connection_closed
  e ← or_err (get id r.entries) unknown_id
  ensure (authorized e client) other_connection
  ok e
