-- ===== src/Observation/Watch/Life.antt =====
-- src/observation.rs: any sequence of what happens to the watches of a store.
use mathlib.Core.Path.{subst}
use master_control_program.Base.{
  find_idx?, sum_by-find_idx?, ℕ, ◌≡◌, inl, inr, refl, sym, ◌∙◌, String, Bool, false, none, some,
  List, [], ◌∷◌, arith, Bool-cases, str_eq, ok, ◌-◌, str_eq_iff,
}
use master_control_program.Base.Map.{
  string_key, get, insert, Distinct-adjust, get-adjust_inv, get-insert, Distinct-insert,
}
use master_control_program.Observation.Record.{Event, WatchInput, WatchRecord}
use master_control_program.Observation.Store.{Store, forget, cancel_control, contains, of_watch}
use master_control_program.Observation.Store.Retention.{IsCounted, IsConsistent}
use master_control_program.Observation.Store.Limits.{IsWithinLimits}
use master_control_program.Observation.Store.Forget.{forget-kept}
use master_control_program.Observation.Watch.{
  on_watch, create, request_stop, finish_stopped, asked_to_stop, now_stopped, quiesced, new_watch,
  retire_all,
}

abbrev SameCounts : (WatchRecord → WatchRecord) → Type 0
SameCounts f =
    (r : WatchRecord)
    → ((f r).retained_events ≡ r.retained_events)
      × ((f r).retained_bytes ≡ r.retained_bytes)
      × ((f r).recorded_events ≡ r.recorded_events)
      × ((f r).recorded_bytes ≡ r.recorded_bytes)
      × ((f r).retention_dropped_events ≡ r.retention_dropped_events)
      × ((f r).retention_dropped_bytes ≡ r.retention_dropped_bytes)

module _ {V : Type 0} where
  -- Counters right, limits kept.
  abbrev pub Kept : Store V → Type 0
  Kept s = IsConsistent s × IsWithinLimits s

  same-IsCounted :
      (f : WatchRecord → WatchRecord) (id : String) (events : List (Event V × ℕ)) (r : WatchRecord)
      → SameCounts f
      → IsCounted id events r
      → IsCounted id events (f r)
  same-IsCounted f id events r same c =
      let (a, b, d, e, g, h) = same r in
      record {
        retained = a ∙ c.retained;
        held_bytes = b ∙ c.held_bytes;
        recorded = omega (arith, a, d, g, c.recorded);
        recorded_bytes = omega (arith, b, e, h, c.recorded_bytes);
      }

  pub on_watch-Kept :
      (id : String) (f : WatchRecord → WatchRecord) (s : Store V)
      → SameCounts f
      → Kept s
      → Kept (on_watch id f s)
  on_watch-Kept id f s same k = (
    record {
      bytes = k.0.bytes;
      distinct = Distinct-adjust id f s.watches k.0.distinct;
      counts = λ j {r = w} held.
          (let (r, before, e) = get-adjust_inv id j f s.watches held in
            elim (Bool-cases (str_eq id j)) [
              | inl mine ↦
                  subst (IsCounted j s.events) {x = f r} {y = w} (ground (arith, e, mine))
                    (same-IsCounted f j s.events r same (k.0.counts j before))
              | inr other ↦
                  subst (IsCounted j s.events) {x = r} {y = w} (ground (arith, e, other))
                    (k.0.counts j before)
            ]);
    },
    record { few = k.1.few; small = k.1.small },
  )

  pub cancel_control-Kept : (id : String) (s : Store V) → Kept s → Kept (cancel_control id s)
  cancel_control-Kept id s k = (
    record { bytes = k.0.bytes; distinct = k.0.distinct; counts = k.0.counts },
    record { few = k.1.few; small = k.1.small },
  )

  pub request_stop-Kept :
      (s : Store V) (id reason : String) → Kept s → Kept (request_stop s id reason)
  unfolding request_stop
  request_stop-Kept s id reason k =
      cancel_control-Kept id (on_watch id (asked_to_stop reason) s)
        (on_watch-Kept id (asked_to_stop reason) s (λ r. ground arith) k)

  pub forget-Kept : (s : Store V) (id : String) → Kept s → Kept (forget s id)
  forget-Kept s id k = let f = forget-kept s id k.0 k.1 in (f.0, f.1)

  pub create-Kept :
      (s : Store V) (closed : Bool) (id owner : String) (input : WatchInput) (now duration : ℕ)
      {q : Store V}
      → find_idx? (of_watch id) s.events ≡ none
      → create s closed id owner input now duration ≡ ok q
      → Kept s
      → Kept q
  unfolding create
  create-Kept s closed id owner input now duration {q} fresh h k =
      subst Kept {x = made} {y = q} (ground arith) (
        record {
          bytes = k.0.bytes;
          distinct = Distinct-insert id new s.watches k.0.distinct;
          counts = counts;
        },
        record { few = k.1.few; small = k.1.small },
      )
    where
      new : WatchRecord
      new = new_watch id owner input now duration (record { epoch = s.epoch; id = s.next_id - 1 })

      made : Store V
      made = record s {
        watches = insert id new s.watches;
        controls = id ∷ s.controls;
        signals = insert id (record { canceled = false; finished = false }) s.signals;
      }

      new-IsCounted : IsCounted id s.events new
      new-IsCounted = record {
        retained = sym (sum_by-find_idx? (of_watch id) (λ _. 1) s.events fresh);
        held_bytes = sym (sum_by-find_idx? (of_watch id) (λ x. x.1) s.events fresh);
        recorded = refl;
        recorded_bytes = refl;
      }

      counts :
          (j : String) {r : WatchRecord}
          → get j (insert id new s.watches) ≡ some r
          → IsCounted j s.events r
      counts j {r} held = elim (Bool-cases (str_eq id j)) [
        | inl mine ↦
            subst (λ k. IsCounted k s.events r) {x = id} {y = j} ((str_eq_iff id j).0 mine)
              (subst (IsCounted id s.events) {x = new} {y = r}
                (ground (arith, get-insert id j new s.watches, held, mine)) new-IsCounted)
        | inr other ↦ k.0.counts j (ground (arith, get-insert id j new s.watches, held, other))
      ]

  pub finish_stopped-Kept :
      (s : Store V) (id : String) (now : ℕ) → Kept s → Kept (finish_stopped s id now)
  unfolding finish_stopped
  finish_stopped-Kept s id now k =
      let q = on_watch id (now_stopped now) s in
      let k' = on_watch-Kept id (now_stopped now) s (λ r. ground arith) k in
      elim (Bool-cases (contains id q.retired_watches)) [
        | inl retired ↦
            (let (a, b) = forget-Kept q id k' in
              rw (retired, finish_stopped)
                (
                  record { bytes = a.bytes; distinct = a.distinct; counts = a.counts },
                  record { few = b.few; small = b.small },
                ))
        | inr held ↦
            rw (held, finish_stopped)
              (
                record { bytes = k'.0.bytes; distinct = k'.0.distinct; counts = k'.0.counts },
                record { few = k'.1.few; small = k'.1.small },
              )
      ]

  pub retire_all-Kept : (ids : List String) (s : Store V) → Kept s → Kept (retire_all ids s)
  unfolding retire_all
  retire_all-Kept [] s k = k
  retire_all-Kept (id ∷ ids) s k =
      let q = request_stop s id "connection_disconnected" in
      let k' = request_stop-Kept s id "connection_disconnected" k in
      elim (Bool-cases (quiesced q id)) [
        | inl done ↦ rw (done, retire_all) (retire_all-Kept ids (forget q id) (forget-Kept q id k'))
        | inr busy ↦ rw (busy, retire_all) (retire_all-Kept ids q k')
      ]
