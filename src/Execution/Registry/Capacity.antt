-- ===== src/Execution/Registry/Capacity.antt =====
-- src/execution.rs: the limits on records and on reserved output bytes, whatever calls of the
-- manager's methods follow one another.
use mathlib.Core.Path.{subst}
use master_control_program.Base.{
  ℕ, zero, suc, ◌+◌, ◌≤◌, ◌<◌, ◌≡◌, ◌⊎◌, inl, inr, refl, String, true, false, some, none, [], ◌∷◌,
  Option-cases, Bool-cases, arith, length, not, Bool, ok, ◌&&◌,
}
use master_control_program.Base.Map.{
  Map, string_key, nat_key, get, insert, remove, Distinct, Distinct-insert, Distinct-remove,
  length-insert, length-remove, total, total-insert, total-remove, place,
}
use master_control_program.Execution.Record.{
  Entry, max_records, max_total_output_bytes, Lifetime, is_persistent,
}
use master_control_program.Execution.Registry.{
  Registry, oldest, evict, make_room, is_full, hold, release, empty, reserve, admit, held, admitted,
  connection_is_open,
}
use master_control_program.Execution.Registry.Eviction.{make_room-cases, oldest-some}

-- Reservations are numbered from below.
abbrev Below : ℕ → Map ℕ ℕ → Type 0
Below n [] = Unit
Below n ((k, b) ∷ m) = (k < n) × Below n m

abbrev pub budgets : Registry → ℕ
budgets r = total (λ e. e.budget) r.entries + total (λ (b : ℕ). b) r.reservations

-- The counters are what they count.
pub record IsAccounted (r : Registry) : Type 0 where
  pub bytes : r.budget ≡ budgets r
  pub waiting : r.pending ≡ length r.reservations
  pub distinct : Distinct r.entries
  pub numbered : Below r.next_reservation r.reservations

-- And they keep to the limits.
pub record IsWithin (r : Registry) : Type 0 where
  pub accounted : IsAccounted r
  pub open accounted use *
  pub few : length r.entries + r.pending ≤ max_records
  pub small : r.budget ≤ max_total_output_bytes

get-Below : (n : ℕ) (m : Map ℕ ℕ) → Below n m → get n m ≡ none
unfolding get
get-Below n [] b = refl
get-Below n ((k, w) ∷ m) b = ground (arith, get-Below n m)

Below-suc : (n : ℕ) (m : Map ℕ ℕ) → Below n m → Below (suc n) m
Below-suc n [] b = tt
Below-suc n ((k, w) ∷ m) b = (omega arith, Below-suc n m b.1)

Below-place : (n w : ℕ) (m : Map ℕ ℕ) → Below n m → Below (suc n) (place n w m)
unfolding place
Below-place n w [] b = (omega arith, tt)
Below-place n w ((k, v) ∷ m) b = ground (arith, Below-place n w m, Below-suc n m)

Below-insert : (n w : ℕ) (m : Map ℕ ℕ) → Below n m → Below (suc n) (insert n w m)
unfolding insert
Below-insert n w m b = rw (get-Below n m b, insert) (Below-place n w m b)

Below-remove : (n k : ℕ) (m : Map ℕ ℕ) → Below n m → Below n (remove k m)
unfolding remove
Below-remove n k [] b = tt
Below-remove n k ((j, w) ∷ m) b = ground (arith, Below-remove n k m)

pub empty-IsWithin : IsWithin empty
unfolding empty
empty-IsWithin = record {
  accounted = record { bytes = omega arith; waiting = refl; distinct = tt; numbered = tt };
  few = omega arith;
  small = omega arith;
}

evict-IsWithin :
    (r : Registry) (id : String) {e : Entry}
    → get id r.entries ≡ some e
    → IsWithin r
    → IsWithin (evict id r)
unfolding evict
evict-IsWithin r id {e} found v =
    rw (found, evict)
      (record {
        accounted = record {
          bytes =
              omega (
                arith,
                v.bytes,
                total-remove {0, 0} (λ (e : Entry). e.budget) id e r.entries found,
              );
          waiting = v.waiting;
          distinct = Distinct-remove id r.entries v.distinct;
          numbered = v.numbered;
        };
        few = omega (arith, v.few, length-remove {0, 0} id e r.entries found);
        small = omega (arith, v.small);
      })

-- Making room keeps the limits.
make_room-IsWithin :
    (fuel budget : ℕ) (r : Registry) → IsWithin r → IsWithin (make_room fuel budget r).0
unfolding make_room
make_room-IsWithin zero budget r v = v
make_room-IsWithin (suc fuel) budget r v = elim (Bool-cases (is_full budget r)) [
  | inr fits ↦ rw (fits, make_room) v
  | inl full ↦ elim (Option-cases (oldest r.entries)) [
    | inl nothing ↦ rw (full, nothing, make_room) v
    | inr ((old, time), more) ↦
        (let p = oldest-some r.entries v.distinct more in
          rw (full, more, make_room)
            (make_room-IsWithin fuel budget (evict old r) (evict-IsWithin r old p.found v)))
  ]
]

hold-IsWithin :
    (budget : ℕ) (r : Registry) → is_full budget r ≡ false → IsWithin r → IsWithin (hold budget r)
hold-IsWithin budget r room v = record {
  accounted = record {
    bytes = omega (
      arith,
      v.bytes,
      total-insert {0, 0} (λ (b : ℕ). b) r.next_reservation budget r.reservations fresh,
    );
    waiting =
        omega
          (arith, v.waiting, length-insert {0, 0} r.next_reservation budget r.reservations fresh);
    distinct = v.distinct;
    numbered = Below-insert r.next_reservation budget r.reservations v.numbered;
  };
  few = ground arith;
  small = ground arith;
}
  where
    fresh : get r.next_reservation r.reservations ≡ none
    fresh = get-Below r.next_reservation r.reservations v.numbered

held-IsWithin :
    (budget : ℕ) (made : Registry × Bool)
    → IsWithin made.0
    → ((made.1 ≡ true) × (is_full budget made.0 ≡ false)) ⊎ (made.1 ≡ false)
    → IsWithin (held budget made).0
held-IsWithin budget (r, true) v (inl (_, room)) = hold-IsWithin budget r room v
held-IsWithin budget (r, true) v (inr h) = cc
held-IsWithin budget (r, false) v h = v

room_made :
    (budget : ℕ) (r : Registry)
    → IsWithin r
    → let made = make_room (length r.entries) budget r in
      ((made.1 ≡ true) × (is_full budget made.0 ≡ false)) ⊎ (made.1 ≡ false)
room_made budget r v = elim (make_room-cases (length r.entries) budget r (omega arith) v.distinct) [
  | inl room ↦ inl room
  | inr full ↦ inr full.0
]

-- A reservation, granted or refused, keeps the counters right and the limits kept.
pub reserve-IsWithin :
    (host : Bool) (r : Registry) (client : String) (lifetime : Lifetime) (budget : ℕ)
    → IsWithin r
    → IsWithin (reserve host r client lifetime budget).0
unfolding reserve
reserve-IsWithin host r client lifetime budget v =
    elim (Bool-cases (is_persistent lifetime && not host)) [
      | inl refused ↦ rw (refused, reserve) v
      | inr allowed ↦ elim (Bool-cases (connection_is_open r client)) [
        | inl opened ↦
            rw (allowed, opened, reserve)
              (held-IsWithin budget (make_room (length r.entries) budget r)
                (make_room-IsWithin (length r.entries) budget r v) (room_made budget r v))
        | inr shut ↦ rw (allowed, shut, reserve) v
      ]
    ]

pub release-IsWithin : (r : Registry) (id : ℕ) → IsWithin r → IsWithin (release r id)
unfolding release
release-IsWithin r id v = elim (Option-cases (get id r.reservations)) [
  | inl absent ↦ rw (absent, release) v
  | inr (budget, found) ↦
      rw (found, release)
        (record {
          accounted = record {
            bytes =
                omega (
                  arith,
                  v.bytes,
                  total-remove {0, 0} (λ (b : ℕ). b) id budget r.reservations found,
                );
            waiting = omega (arith, v.waiting, length-remove {0, 0} id budget r.reservations found);
            distinct = v.distinct;
            numbered = Below-remove r.next_reservation id r.reservations v.numbered;
          };
          few =
              omega (arith, v.few, v.waiting, length-remove {0, 0} id budget r.reservations found);
          small = omega (arith, v.small);
        })
]

-- An entry takes over its reservation.
pub admit-IsWithin :
    (r : Registry) (requested : Bool) (token : ℕ) (client : String) (reservation : ℕ) (id : String)
    (e : Entry) {q : Registry}
    → IsWithin r
    → get reservation r.reservations ≡ some e.budget
    → get id r.entries ≡ none
    → admit r requested token client reservation id e ≡ ok q
    → IsWithin q
unfolding admit
admit-IsWithin r requested token client reservation id e {q} v held fresh done =
    subst IsWithin {x = admitted r reservation id e} (ground arith) (record {
      accounted = record {
        bytes = omega (
          arith,
          v.bytes,
          total-remove {0, 0} (λ (b : ℕ). b) reservation e.budget r.reservations held,
          total-insert {0, 0} (λ (e : Entry). e.budget) id e r.entries fresh,
        );
        waiting =
            omega (arith, v.waiting, length-remove {0, 0} reservation e.budget r.reservations held);
        distinct = Distinct-insert id e r.entries v.distinct;
        numbered = Below-remove r.next_reservation reservation r.reservations v.numbered;
      };
      few = omega (
        arith,
        v.few,
        v.waiting,
        length-remove {0, 0} reservation e.budget r.reservations held,
        length-insert {0, 0} id e r.entries fresh,
      );
      small = v.small;
    })
