-- ===== src/Execution/Start/Calls.antt =====
-- src/execution.rs: any sequence of calls that take the registry's lock, from any threads.
use mathlib.Core.Path.{subst}
use master_control_program.Base.{
  ℕ, zero, suc, ◌≡◌, ◌≢◌, String, Bool, true, none, some, refl, ok, arith, length, Option-cases,
  Bool-cases, inl, inr, List, [], ◌∷◌, sym, ==_iff, ◌++◌, ◌∙◌,
}
use master_control_program.Base.Map.{
  Map, string_key, nat_key, get, adjust, total, total-adjust, length-adjust, Distinct-adjust,
  Distinct,
}
use master_control_program.Execution.Record.{Entry, Lifetime, owned_by}
use master_control_program.Execution.Entry.{OsAnswer}
use master_control_program.Execution.Registry.{
  Registry, register_connection, reserve, release, admit, is_cancelled, evict, make_room, member,
  is_full, oldest,
}
use master_control_program.Execution.Registry.Capacity.{
  IsWithin, reserve-IsWithin, release-IsWithin, admit-IsWithin,
}
use master_control_program.Execution.Start.{
  resume, disconnect, close, shutdown_connection, tokens, resumed, terminate_all,
}
use master_control_program.Execution.Start.Gate.{
  total-terminate_all, length-terminate_all, Distinct-terminate_all, resume-connected,
}

-- One call: an entry is admitted under a new identifier with the reservation that `start` made for
-- it, and the threads of an entry change anything but its budget.
pub data Call (r : Registry) (q : Registry) : Type 0 where
  registers :
      (is_uuid : String → Bool) (id : String) → register_connection is_uuid r id ≡ ok q → Call r q
  reserves :
      (host : Bool) (client : String) (lifetime : Lifetime) (budget : ℕ)
      → q ≡ (reserve host r client lifetime budget).0
      → Call r q
  releases : (id : ℕ) → q ≡ release r id → Call r q
  admits :
      (requested : Bool) (token : ℕ) (client : String) (reservation : ℕ) (id : String) (e : Entry)
      → get reservation r.reservations ≡ some e.budget
      → get id r.entries ≡ none
      → admit r requested token client reservation id e ≡ ok q
      → Call r q
  resumes :
      (shutdown requested : Bool) (token : ℕ) (client : String) (lifetime : Lifetime) (id : String)
      (answer : OsAnswer)
      → resume r shutdown requested token client lifetime id answer ≡ ok q
      → Call r q
  changes :
      (id : String) (f : Entry → Entry)
      → ((e : Entry) → (f e).budget ≡ e.budget)
      → q ≡ record r { entries = adjust id f r.entries }
      → Call r q
  disconnects :
      (client : String) (answers : String → OsAnswer)
      → q ≡ (shutdown_connection r client answers).0
      → Call r q
  closes : q ≡ close r → Call r q

pub data Calls (r : Registry) : Registry → Type 0 where
  done : Calls r r
  then : {q s : Registry} → Calls r q → Call q s → Calls r s

registers-IsWithin :
    (is_uuid : String → Bool) (r : Registry) (id : String) {q : Registry}
    → IsWithin r
    → register_connection is_uuid r id ≡ ok q
    → IsWithin q
unfolding register_connection
registers-IsWithin is_uuid r id v h = ground arith

close-IsWithin : (r : Registry) → IsWithin r → IsWithin (close r)
unfolding close
close-IsWithin r v = record {
  accounted = record {
    bytes = v.bytes;
    waiting = v.waiting;
    distinct = v.distinct;
    numbered = v.numbered;
  };
  few = v.few;
  small = v.small;
}

-- Entries replaced by as many with the same budgets.
swap-IsWithin :
    (r : Registry) (m : Map String Entry)
    → IsWithin r
    → total (λ e. e.budget) m ≡ total (λ e. e.budget) r.entries
    → length m ≡ length r.entries
    → Distinct m
    → IsWithin (record r { entries = m })
swap-IsWithin r m v t l d = record {
  accounted = record {
    bytes = omega (arith, v.bytes);
    waiting = v.waiting;
    distinct = d;
    numbered = v.numbered;
  };
  few = omega (arith, v.few);
  small = v.small;
}

disconnect-IsWithin : (r : Registry) (id : String) → IsWithin r → IsWithin (disconnect r id)
unfolding disconnect
disconnect-IsWithin r id v = elim (Option-cases (get id r.connections)) [
  | inl absent ↦ rw (absent, disconnect) v
  | inr (token, found) ↦
      rw (found, disconnect)
        (record {
          accounted = record {
            bytes = v.bytes;
            waiting = v.waiting;
            distinct = v.distinct;
            numbered = v.numbered;
          };
          few = v.few;
          small = v.small;
        })
]

changed-IsWithin :
    (r : Registry) (id : String) (f : Entry → Entry)
    → ((e : Entry) → (f e).budget ≡ e.budget)
    → IsWithin r
    → IsWithin (record r { entries = adjust id f r.entries })
changed-IsWithin r id f same v =
    swap-IsWithin r (adjust id f r.entries) v (total-adjust (λ e. e.budget) id f r.entries same)
      (length-adjust id f r.entries) (Distinct-adjust id f r.entries v.distinct)

resume-resumed :
    (r : Registry) (shutdown requested : Bool) (token : ℕ) (client : String) (lifetime : Lifetime)
    (id : String) (answer : OsAnswer) {q : Registry}
    → resume r shutdown requested token client lifetime id answer ≡ ok q
    → resumed r id ≡ q
unfolding resume
resume-resumed r shutdown requested token client lifetime id answer h =
    elim (Option-cases (get id r.entries)) [
      | inl absent ↦ ground arith
      | inr (e, found) ↦ ground arith
    ]

resumes-IsWithin :
    (r : Registry) (shutdown requested : Bool) (token : ℕ) (client : String) (lifetime : Lifetime)
    (id : String) (answer : OsAnswer) {q : Registry}
    → IsWithin r
    → resume r shutdown requested token client lifetime id answer ≡ ok q
    → IsWithin q
unfolding resume
resumes-IsWithin r shutdown requested token client lifetime id answer v h =
    subst IsWithin {x = resumed r id}
      (resume-resumed r shutdown requested token client lifetime id answer h)
      (changed-IsWithin r id _ (λ e. refl) v)

shutdown_connection-IsWithin :
    (r : Registry) (client : String) (answers : String → OsAnswer)
    → IsWithin r
    → IsWithin (shutdown_connection r client answers).0
unfolding shutdown_connection
shutdown_connection-IsWithin r client answers v =
    let w = disconnect-IsWithin r client v in
    let m = (disconnect r client).entries in
    swap-IsWithin (disconnect r client)
      (terminate_all (owned_by client) "connection_closed" answers m).0 w
      (total-terminate_all (owned_by client) "connection_closed" answers m)
      (length-terminate_all (owned_by client) "connection_closed" answers m)
      (Distinct-terminate_all (owned_by client) "connection_closed" answers m w.distinct)

-- However the calls interleave, the counters are exact and the limits on records and bytes hold.
pub Call-IsWithin : {r q : Registry} → IsWithin r → Call r q → IsWithin q
Call-IsWithin {r} v (registers is_uuid id h) = registers-IsWithin is_uuid r id v h
Call-IsWithin {r} v (reserves host client lifetime budget h) =
    subst IsWithin (sym h) (reserve-IsWithin host r client lifetime budget v)
Call-IsWithin {r} v (releases id h) = subst IsWithin (sym h) (release-IsWithin r id v)
Call-IsWithin {r} v (admits requested token client reservation id e a b h) =
    admit-IsWithin r requested token client reservation id e v a b h
Call-IsWithin {r} v (resumes shutdown requested token client lifetime id answer h) =
    resumes-IsWithin r shutdown requested token client lifetime id answer v h
Call-IsWithin {r} v (changes id f same h) = subst IsWithin (sym h) (changed-IsWithin r id f same v)
Call-IsWithin {r} v (disconnects client answers h) =
    subst IsWithin (sym h) (shutdown_connection-IsWithin r client answers v)
Call-IsWithin {r} v (closes h) = subst IsWithin (sym h) (close-IsWithin r v)

-- Whatever calls take the registry's lock, in any order, the budget stays the sum of the budgets of
-- the entries and the reservations, `pending` the number of reservations, and the limits of 64
-- records and of 67,108,864 bytes of output hold, if they held before.
pub Calls-IsWithin : {r q : Registry} → IsWithin r → Calls r q → IsWithin q
Calls-IsWithin v done = v
Calls-IsWithin v (then cs c) = Call-IsWithin (Calls-IsWithin v cs) c

member-append : (n : ℕ) (xs ys : List ℕ) → member n ys ≡ true → member n (xs ++ ys) ≡ true
member-append n [] ys h = h
member-append n (x ∷ xs) ys h = ground (arith, member-append n xs ys)

evict-canceled : (r : Registry) (id : String) → (evict id r).canceled ≡ r.canceled
unfolding evict
evict-canceled r id = ground arith

make_room-canceled :
    (fuel budget : ℕ) (r : Registry) → (make_room fuel budget r).0.canceled ≡ r.canceled
unfolding make_room
make_room-canceled zero budget r = refl
make_room-canceled (suc fuel) budget r = elim (Bool-cases (is_full budget r)) [
  | inr fits ↦ rw (fits, make_room) refl
  | inl full ↦ elim (Option-cases (oldest r.entries)) [
    | inl nothing ↦ rw (full, nothing, make_room) refl
    | inr ((old, time), more) ↦
        rw (full, more, make_room)
          (make_room-canceled fuel budget (evict old r) ∙ evict-canceled r old)
  ]
]

reserve-canceled :
    (host : Bool) (r : Registry) (client : String) (lifetime : Lifetime) (budget : ℕ)
    → (reserve host r client lifetime budget).0.canceled ≡ r.canceled
unfolding reserve
reserve-canceled host r client lifetime budget =
    ground (arith, make_room-canceled (length r.entries) budget r)

shutdown_connection-canceled :
    (r : Registry) (client : String) (answers : String → OsAnswer) (token : ℕ)
    → is_cancelled r token ≡ true
    → is_cancelled (shutdown_connection r client answers).0 token ≡ true
unfolding shutdown_connection disconnect
shutdown_connection-canceled r client answers token h = ground arith

-- A canceled token stays canceled, also when its connection's name is registered anew.
pub Call-canceled :
    {r q : Registry} (token : ℕ)
    → is_cancelled r token ≡ true
    → Call r q
    → is_cancelled q token ≡ true
unfolding register_connection release admit resume close
Call-canceled {r} token h (registers is_uuid id e) = ground arith
Call-canceled {r} token h (reserves host client lifetime budget e) =
    ground (arith, reserve-canceled host r client lifetime budget)
Call-canceled {r} token h (releases id e) = ground arith
Call-canceled {r} token h (admits requested token' client reservation id x a b e) = ground arith
Call-canceled {r} token h (resumes shutdown requested token' client lifetime id answer e) =
    ground (arith, resume-resumed r shutdown requested token' client lifetime id answer e)
Call-canceled {r} token h (changes id f same e) = ground arith
Call-canceled {r} token h (disconnects client answers e) =
    subst (λ x. is_cancelled x token ≡ true) (sym e)
      (shutdown_connection-canceled r client answers token h)
Call-canceled {r} token h (closes e) =
    ground (arith, member-append token (tokens r.connections) r.canceled)

Calls-canceled :
    {r q : Registry} (token : ℕ)
    → is_cancelled r token ≡ true
    → Calls r q
    → is_cancelled q token ≡ true
Calls-canceled token h done = h
Calls-canceled token h (then cs c) = Call-canceled token (Calls-canceled token h cs) c

closed_token :
    (r : Registry) (client : String) (token : ℕ) (answers : String → OsAnswer)
    → get client r.connections ≡ some token
    → is_cancelled (shutdown_connection r client answers).0 token ≡ true
unfolding shutdown_connection disconnect
closed_token r client token answers found = ground (arith, ==_iff token token)

-- A start with the lifetime of a connection that began on a connection which has closed since never
-- resumes its process, whatever was called in between, and also if a connection of that name has
-- been registered again.
pub closed_never_resumes :
    (r : Registry) {q : Registry} (p : Registry) (client : String) (token : ℕ)
    (answers : String → OsAnswer) (shutdown requested : Bool) (id client' : String)
    (answer : OsAnswer)
    → get client r.connections ≡ some token
    → Calls (shutdown_connection r client answers).0 q
    → resume q shutdown requested token client' Lifetime.connection id answer ≢ ok p
closed_never_resumes r {q} p client token answers shutdown requested id client' answer found calls
      done_anyway =
    cc (
      Calls-canceled token (closed_token r client token answers found) calls,
      (resume-connected q shutdown requested token client' id answer done_anyway).1,
    )
