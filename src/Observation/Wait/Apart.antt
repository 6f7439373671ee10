-- ===== src/Observation/Wait/Apart.antt =====
-- src/observation.rs: the calls on waits leave the events and the watches as they are.
use master_control_program.Base.{
  ℕ, ◌≡◌, refl, ◌∙◌, inl, inr, String, Bool, Option, List, [], ◌∷◌, Bool-cases, arith, ok,
}
use master_control_program.Observation.Record.{Event, Outcome, Cursor, WaitRecord}
use master_control_program.Observation.Store.{Store, contains}
use master_control_program.Observation.Wait.{
  finish_wait, admit_wait, cancel_wait, drop_waits, retire_owned, fail_waits, signal_wait,
  wait_status,
}

-- The events and the watches of two stores are the same.
pub record IsSame {V : Type 0} (s q : Store V) : Type 0 where
  pub bytes : q.bytes ≡ s.bytes
  pub events : q.events ≡ s.events
  pub watches : q.watches ≡ s.watches

module _ {V : Type 0} where
  IsSame-trans : {s q t : Store V} → IsSame s q → IsSame q t → IsSame s t
  IsSame-trans a b = record {
    bytes = b.bytes ∙ a.bytes;
    events = b.events ∙ a.events;
    watches = b.watches ∙ a.watches;
  }

  pub signal_wait-IsSame : (id : String) (s : Store V) → IsSame s (signal_wait id s)
  signal_wait-IsSame id s = elim (Bool-cases (contains id s.wait_cancels)) [
    | inl listed ↦ rw listed record { bytes = refl; events = refl; watches = refl }
    | inr absent ↦ rw absent record { bytes = refl; events = refl; watches = refl }
  ]

  pub finish_wait-IsSame :
      (s : Store V) (now : ℕ) (id : String) (outcome : Outcome) (event : Option (Event V))
      (error : Option String) (cursor : Option Cursor)
      → IsSame s (finish_wait s now id outcome event error cursor)
  unfolding finish_wait
  finish_wait-IsSame s now id outcome event error cursor = record {
    bytes = refl;
    events = refl;
    watches = refl;
  }

  pub drop_waits-IsSame : (ids : List String) (s : Store V) → IsSame s (drop_waits ids s)
  unfolding drop_waits
  drop_waits-IsSame [] s = record { bytes = refl; events = refl; watches = refl }
  drop_waits-IsSame (id ∷ ids) s =
      let i = signal_wait-IsSame id s in
      IsSame-trans record { bytes = i.bytes; events = i.events; watches = i.watches }
        (drop_waits-IsSame ids _)

  pub retire_owned-IsSame : (s : Store V) (client : String) → IsSame s (retire_owned s client)
  unfolding retire_owned
  retire_owned-IsSame s client =
      IsSame-trans record { bytes = refl; events = refl; watches = refl } (drop_waits-IsSame _ _)

  pub fail_waits-IsSame :
      (now : String → ℕ) (error : String) (ids : List String) (s : Store V)
      → IsSame s (fail_waits now error ids s)
  unfolding fail_waits
  fail_waits-IsSame now error [] s = record { bytes = refl; events = refl; watches = refl }
  fail_waits-IsSame now error (id ∷ ids) s =
      let i = signal_wait-IsSame id s in
      IsSame-trans record { bytes = i.bytes; events = i.events; watches = i.watches }
        (fail_waits-IsSame now error ids _)

  pub admit_wait-IsSame :
      (s : Store V) (closed : Bool) (r : WaitRecord V) {q : Store V}
      → admit_wait s closed r ≡ ok q
      → IsSame s q
  unfolding admit_wait
  admit_wait-IsSame s closed r {q} h = record {
    bytes = ground arith;
    events = ground arith;
    watches = ground arith;
  }

  pub cancel_wait-IsSame :
      (s : Store V) (now : ℕ) (id client : String) (forgets : Bool) {q : Store V} {r : WaitRecord V}
      → cancel_wait s now id client forgets ≡ ok (q, r)
      → IsSame s q
  unfolding cancel_wait wait_status finish_wait
  cancel_wait-IsSame s now id client forgets {q} {r} h = record {
    bytes = ground arith;
    events = ground arith;
    watches = ground arith;
  }
