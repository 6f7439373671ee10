-- ===== src/Observation/Watch/Ended.antt =====
-- src/observation.rs: a watch that has ended stays so.
use mathlib.Core.Path.{subst}
use master_control_program.Base.{
  ℕ, zero, suc, ◌-◌, ◌≡◌, ◌⊎◌, inl, inr, sym, String, Bool, false, Option, none, some, List, [],
  ◌∷◌, length, arith, Option-cases, Bool-cases, str_eq, str_eq_iff, ok, is_some_and, find_idx?,
  get_elem?,
}
use master_control_program.Base.Map.{
  Map, string_key, get, adjust, get-adjust, get-adjust-none, get-insert, get-remove_ne,
}
use master_control_program.Observation.Record.{Event, WatchInput, WatchRecord, active}
use master_control_program.Observation.Store.{
  Store, forget, discard, discard_all, trim, discard_oldest, is_crowded, fits_watch, push, of_watch,
  counted_drop, counted_event, stop_at_limit, is_at_limit, contains,
}
use master_control_program.Observation.Store.Forget.{forget-kept}
use master_control_program.Observation.Watch.{
  create, new_watch, request_stop, finish_stopped, retire_all, asked_to_stop, now_stopped, on_watch,
  quiesced,
}
use master_control_program.Observation.Watch.Life.{
  Kept, request_stop-Kept, forget-Kept, on_watch-Kept,
}

-- The watch is forgotten, or it is not active.
abbrev pub Ended : String → Map String WatchRecord → Type 0
Ended id m =
    (get id m ≡ none) ⊎ ((r : WatchRecord) × (get id m ≡ some r) × (active r.status ≡ false))

-- A change of a record that does not make it active again.
abbrev Calm : (WatchRecord → WatchRecord) → Type 0
Calm f = (r : WatchRecord) → active r.status ≡ false → active (f r).status ≡ false

pub Ended-adjust :
    (id k : String) (f : WatchRecord → WatchRecord) (m : Map String WatchRecord)
    → Calm f
    → Ended id m
    → Ended id (adjust k f m)
Ended-adjust id k f m calm (inl gone) = inl (get-adjust-none k id f m gone)
Ended-adjust id k f m calm (inr (r, found, over)) = elim (Bool-cases (str_eq k id)) [
  | inl same ↦ inr (f r, ground (arith, get-adjust k id f m r found, same), calm r over)
  | inr other ↦ inr (r, ground (arith, get-adjust k id f m r found, other), over)
]

module _ {V : Type 0} where
  pub Ended-discard :
      (id : String) (s : Store V) (index : ℕ)
      → Ended id s.watches
      → Ended id (discard s index).watches
  unfolding discard
  Ended-discard id s index e = elim (Option-cases (get_elem? s.events index)) [
    | inl absent ↦ rw (absent, discard) e
    | inr ((event, bytes), found) ↦
        rw (found, discard)
          (Ended-adjust id event.watch_id (counted_drop event.cursor.id bytes) s.watches (λ r h. h)
            e)
  ]

  pub Ended-trim :
      (id : String) (fuel : ℕ) (k : String) (bytes : ℕ) (s : Store V)
      → Ended id s.watches
      → Ended id (trim fuel k bytes s).watches
  unfolding trim
  Ended-trim id zero k bytes s e = e
  Ended-trim id (suc fuel) k bytes s e = elim (Bool-cases (fits_watch k bytes s)) [
    | inl room ↦ rw (room, trim) e
    | inr full ↦ elim (Option-cases (find_idx? (of_watch k) s.events)) [
      | inl nothing ↦ rw (full, nothing, trim) e
      | inr (index, found) ↦
          rw (full, found, trim)
            (Ended-trim id fuel k bytes (discard s index) (Ended-discard id s index e))
    ]
  ]

  pub Ended-discard_oldest :
      (id : String) (fuel bytes : ℕ) (s : Store V)
      → Ended id s.watches
      → Ended id (discard_oldest fuel bytes s).watches
  unfolding discard_oldest
  Ended-discard_oldest id zero bytes s e = e
  Ended-discard_oldest id (suc fuel) bytes s e = elim (Bool-cases (is_crowded bytes s)) [
    | inr room ↦ rw (room, discard_oldest) e
    | inl full ↦
        rw (full, discard_oldest)
          (Ended-discard_oldest id fuel bytes (discard s 0) (Ended-discard id s 0 e))
  ]

  pub Ended-discard_all :
      (id : String) (fuel : ℕ) (k : String) (s : Store V)
      → Ended id s.watches
      → Ended id (discard_all fuel k s).watches
  unfolding discard_all
  Ended-discard_all id zero k s e = e
  Ended-discard_all id (suc fuel) k s e = elim (Option-cases (find_idx? (of_watch k) s.events)) [
    | inl nothing ↦ rw (nothing, discard_all) e
    | inr (index, found) ↦
        rw (found, discard_all)
          (Ended-discard_all id fuel k (discard s index) (Ended-discard id s index e))
  ]

  pub Ended-forget :
      (id k : String) (s : Store V) → Kept s → Ended id s.watches → Ended id (forget s k).watches
  unfolding forget
  Ended-forget id k s kept e = elim (Bool-cases (str_eq k id)) [
    | inl same ↦ inl (
        subst (λ j. get j (forget s k).watches ≡ none) ((str_eq_iff k id).0 same)
          (forget-kept s k kept.0 kept.1).2)
    | inr other ↦
        subst
          (λ (o : Option WatchRecord).
            (o ≡ none) ⊎ ((r : WatchRecord) × (o ≡ some r) × (active r.status ≡ false)))
          (sym (get-remove_ne k id (discard_all (length s.events) k s).watches other))
          (Ended-discard_all id (length s.events) k s e)
  ]

  pub Ended-push :
      (id : String) (s : Store V) (event : Event V) (bytes : ℕ)
      → Ended id s.watches
      → Ended id (push s (event, bytes)).watches
  unfolding push
  Ended-push id s event bytes e =
      let done =
        Ended-adjust id event.watch_id
          (λ r. stop_at_limit (counted_event (str_eq event.kind "gap") event.cursor.id bytes r))
          s.watches (λ r h. ground arith) e in
      elim (Bool-cases (
        is_some_and (get event.watch_id s.watches)
          (λ r. is_at_limit (counted_event (str_eq event.kind "gap") event.cursor.id bytes r)))) [
            | inl limit ↦ rw (limit, push) done
            | inr more ↦ rw (more, push) done
          ]

  pub Ended-request_stop :
      (id k reason : String) (s : Store V)
      → Ended id s.watches
      → Ended id (request_stop s k reason).watches
  unfolding request_stop
  Ended-request_stop id k reason s e =
      Ended-adjust id k (asked_to_stop reason) s.watches (λ r h. ground arith) e

  pub Ended-retire_all :
      (id : String) (ids : List String) (s : Store V)
      → Kept s
      → Ended id s.watches
      → Ended id (retire_all ids s).watches
  unfolding retire_all
  Ended-retire_all id [] s kept e = e
  Ended-retire_all id (k ∷ ids) s kept e =
      let q = request_stop s k "connection_disconnected" in
      let kept' = request_stop-Kept s k "connection_disconnected" kept in
      let e' = Ended-request_stop id k "connection_disconnected" s e in
      elim (Bool-cases (quiesced q k)) [
        | inl done ↦
            rw (done, retire_all)
              (Ended-retire_all id ids (forget q k) (forget-Kept q k kept')
                (Ended-forget id k q kept' e'))
        | inr busy ↦ rw (busy, retire_all) (Ended-retire_all id ids q kept' e')
      ]

  pub Ended-finish_stopped :
      (id k : String) (s : Store V) (now : ℕ)
      → Kept s
      → Ended id s.watches
      → Ended id (finish_stopped s k now).watches
  unfolding finish_stopped
  Ended-finish_stopped id k s now kept e =
      let q = on_watch k (now_stopped now) s in
      let kept' = on_watch-Kept k (now_stopped now) s (λ r. ground arith) kept in
      let e' = Ended-adjust id k (now_stopped now) s.watches (λ r h. ground arith) e in
      elim (Bool-cases (contains k q.retired_watches)) [
        | inl retired ↦ rw (retired, finish_stopped) (Ended-forget id k q kept' e')
        | inr held ↦ rw (held, finish_stopped) e'
      ]

  pub Ended-create :
      (id k owner : String) (s : Store V) (closed : Bool) (input : WatchInput) (now duration : ℕ)
      {q : Store V} {r : WatchRecord}
      → get k s.watches ≡ none
      → create s closed k owner input now duration ≡ ok q
      → get id s.watches ≡ some r
      → active r.status ≡ false
      → Ended id q.watches
  unfolding create
  Ended-create id k owner s closed input now duration {q} {r} fresh h found over = inr (
    r,
    ground (
      arith,
      get-insert k id
          (new_watch k owner input now duration (record { epoch = s.epoch; id = s.next_id - 1 }))
          s.watches,
      str_eq_iff k id,
    ),
    over,
  )
