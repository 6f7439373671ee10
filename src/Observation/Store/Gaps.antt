-- ===== src/Observation/Store/Gaps.antt =====
-- src/observation.rs: an event that is retained no more is covered by the `last_dropped_id` of its
-- watch, from which `read` reports a gap.
use mathlib.Core.Path.{subst}
use master_control_program.Base.{
  ℕ, zero, suc, ◌≤◌, ◌≡◌, ◌⊎◌, inl, inr, String, Bool, Option, some, List, [], ◌∷◌, ◌++◌, length,
  arith, Option-cases, Bool-cases, str_eq, str_eq_iff, get_elem?, erase_idx, find_idx?, is_some_and,
}
use master_control_program.Base.Map.{Map, string_key, get, adjust, get-adjust_inv}
use master_control_program.Observation.Record.{Event, WatchRecord, TargetIdentity, Json}
use master_control_program.Observation.Store.{
  Store, discard, of_watch, trim, discard_oldest, is_crowded, push, counted_drop, counted_event,
  stop_at_limit, fits_watch, append, sized, new_event, is_at_limit,
}

-- Every watch's last dropped cursor only grows where its record is adjusted so.
grows_adjust :
    (k : String) (f : WatchRecord → WatchRecord) (m : Map String WatchRecord) (id : String)
    {w : WatchRecord}
    → ((r : WatchRecord) → r.last_dropped_id ≤ (f r).last_dropped_id)
    → get id (adjust k f m) ≡ some w
    → (r : WatchRecord) × (get id m ≡ some r) × (r.last_dropped_id ≤ w.last_dropped_id)
grows_adjust k f m id {w} le held =
    let (r, before, e) = get-adjust_inv k id f m held in
    elim (Bool-cases (str_eq k id)) [
      | inl same ↦ (
        r,
        before,
        subst (λ (x : WatchRecord). r.last_dropped_id ≤ x.last_dropped_id) {x = f r} {y = w}
            (ground arith) (le r),
      )
      | inr other ↦ (
        r,
        before,
        subst (λ (x : WatchRecord). r.last_dropped_id ≤ x.last_dropped_id) {x = r} {y = w}
            (ground arith) (omega arith),
      )
    ]

module _ {V : Type 0} where
  -- The event with this cursor and length, of this watch, is retained.
  pub data Retained (x : Event V × ℕ) : List (Event V × ℕ) → Type 0 where
    here : {xs : List (Event V × ℕ)} → Retained x (x ∷ xs)
    there : {y : Event V × ℕ} {xs : List (Event V × ℕ)} → Retained x xs → Retained x (y ∷ xs)

  abbrev pub Dropped : Event V × ℕ → Store V → Type 0
  Dropped x s =
      (r : WatchRecord) → get x.0.watch_id s.watches ≡ some r → x.0.cursor.id ≤ r.last_dropped_id

  -- No event is lost between the two without a trace.
  pub record IsTraced (s q : Store V) : Type 0 where
    pub kept : (x : Event V × ℕ) → Retained x s.events → Retained x q.events ⊎ Dropped x q
    pub grows :
        (id : String) {r : WatchRecord}
        → get id q.watches ≡ some r
        → (r' : WatchRecord) × (get id s.watches ≡ some r')
          × (r'.last_dropped_id ≤ r.last_dropped_id)

  IsTraced-refl : (s : Store V) → IsTraced s s
  IsTraced-refl s = record { kept = λ x m. inl m; grows = λ id {r} e. (r, e, omega arith) }

  pub IsTraced-trans : {s q t : Store V} → IsTraced s q → IsTraced q t → IsTraced s t
  IsTraced-trans a b = record {
    kept = λ x m. elim (a.kept x m) [
      | inl m ↦ b.kept x m
      | inr d ↦
          inr (λ r e. (let (r', e', le) = b.grows x.0.watch_id e in omega (arith, le, d r' e')))
    ];
    grows = λ id e.
        (let (r', e', le) = b.grows id e in
          let (r'', e'', le') = a.grows id e' in (r'', e'', omega (arith, le, le')));
  }

  Retained-erase_idx :
      (x lost : Event V × ℕ) (xs : List (Event V × ℕ)) (index : ℕ)
      → get_elem? xs index ≡ some lost
      → Retained x xs
      → Retained x (erase_idx xs index) ⊎ (x ≡ lost)
  Retained-erase_idx x lost [] index e m = cc
  Retained-erase_idx x lost (y ∷ xs) zero e here = inr (ground arith)
  Retained-erase_idx x lost (y ∷ xs) zero e (there m) = inl m
  Retained-erase_idx x lost (y ∷ xs) (suc index) e here = inl here
  Retained-erase_idx x lost (y ∷ xs) (suc index) e (there m) =
      elim (Retained-erase_idx x lost xs index e m) [ inl m ↦ inl (there m) | inr e ↦ inr e ]

  Retained-append :
      (x : Event V × ℕ) (xs ys : List (Event V × ℕ)) → Retained x xs → Retained x (xs ++ ys)
  Retained-append x [] ys m = elim m [ ]
  Retained-append x (y ∷ xs) ys here = here
  Retained-append x (y ∷ xs) ys (there m) = there (Retained-append x xs ys m)

  pub discard-IsTraced : (s : Store V) (index : ℕ) → IsTraced s (discard s index)
  unfolding discard
  discard-IsTraced s index = elim (Option-cases (get_elem? s.events index)) [
    | inl absent ↦ rw (absent, discard) (IsTraced-refl s)
    | inr ((event, bytes), found) ↦
        rw (found, discard)
          (record {
            kept = λ x m. elim (Retained-erase_idx x (event, bytes) s.events index found m) [
              | inl m ↦ inl m
              | inr same ↦ inr (λ r held. dropped event bytes x r same held)
            ];
            grows = λ id held.
                grows_adjust event.watch_id (counted_drop event.cursor.id bytes) s.watches id
                  (λ r. omega arith) held;
          })
  ]
    where
      dropped :
          (event : Event V) (bytes : ℕ) (x : Event V × ℕ) (r : WatchRecord)
          → x ≡ (event, bytes)
          → get x.0.watch_id (adjust event.watch_id (counted_drop event.cursor.id bytes) s.watches)
            ≡ some r
          → x.0.cursor.id ≤ r.last_dropped_id
      dropped event bytes x r same held =
          let (r', before, e) =
            get-adjust_inv event.watch_id x.0.watch_id (counted_drop event.cursor.id bytes)
              s.watches held in
          ground (arith, same, e, str_eq_iff event.watch_id x.0.watch_id)

  trim-IsTraced :
      (fuel : ℕ) (id : String) (bytes : ℕ) (s : Store V) → IsTraced s (trim fuel id bytes s)
  unfolding trim
  trim-IsTraced zero id bytes s = IsTraced-refl s
  trim-IsTraced (suc fuel) id bytes s = elim (Bool-cases (fits_watch id bytes s)) [
    | inl room ↦ rw (room, trim) (IsTraced-refl s)
    | inr full ↦ elim (Option-cases (find_idx? (of_watch id) s.events)) [
      | inl nothing ↦ rw (full, nothing, trim) (IsTraced-refl s)
      | inr (index, found) ↦
          rw (full, found, trim)
            (IsTraced-trans (discard-IsTraced s index)
              (trim-IsTraced fuel id bytes (discard s index)))
    ]
  ]

  discard_oldest-IsTraced :
      (fuel bytes : ℕ) (s : Store V) → IsTraced s (discard_oldest fuel bytes s)
  unfolding discard_oldest
  discard_oldest-IsTraced zero bytes s = IsTraced-refl s
  discard_oldest-IsTraced (suc fuel) bytes s = elim (Bool-cases (is_crowded bytes s)) [
    | inr room ↦ rw (room, discard_oldest) (IsTraced-refl s)
    | inl full ↦
        rw (full, discard_oldest)
          (IsTraced-trans (discard-IsTraced s 0) (discard_oldest-IsTraced fuel bytes (discard s 0)))
  ]

  push-IsTraced : (s : Store V) (event : Event V) (bytes : ℕ) → IsTraced s (push s (event, bytes))
  unfolding push
  push-IsTraced s event bytes = elim (Bool-cases limited) [
    | inl limit ↦ rw (limit, push) (record { kept = kept; grows = grows })
    | inr more ↦ rw (more, push) (record { kept = kept; grows = grows })
  ]
    where
      counted : WatchRecord → WatchRecord
      counted r = counted_event (str_eq event.kind "gap") event.cursor.id bytes r

      limited : Bool
      limited = is_some_and (get event.watch_id s.watches) (λ r. is_at_limit (counted r))

      pushed : Store V
      pushed = record s {
        events = s.events ++ ((event, bytes) ∷ []);
        watches = adjust event.watch_id (λ r. stop_at_limit (counted r)) s.watches;
      }

      kept : (x : Event V × ℕ) → Retained x s.events → Retained x pushed.events ⊎ Dropped x pushed
      kept x m = inl (Retained-append x s.events ((event, bytes) ∷ []) m)

      grows :
          (id : String) {r : WatchRecord}
          → get id pushed.watches ≡ some r
          → (r' : WatchRecord) × (get id s.watches ≡ some r')
            × (r'.last_dropped_id ≤ r.last_dropped_id)
      grows id held =
          grows_adjust event.watch_id (λ r. stop_at_limit (counted r)) s.watches id
            (λ r. ground arith) held

module _ {V : Type 0} (json : Json V) where
  -- Whatever is appended, every event that was retained is retained still, or the cursor that its
  -- watch reports as dropped is no smaller than its own; and no such cursor of a watch decreases.
  pub append-IsTraced :
      (s : Store V) (now : ℕ) (id kind : String) (target : TargetIdentity) (payload : V)
      (native_timestamp : Option ℕ) {q : Store V}
      → append json s now id kind target payload native_timestamp ≡ some q
      → IsTraced s q
  unfolding append
  append-IsTraced s now id kind target payload native_timestamp {q} h =
      elim (Option-cases (get id s.watches)) [
        | inl unknown ↦ subst (IsTraced s) {x = s} {y = q} (ground arith) (IsTraced-refl s)
        | inr (r, known) ↦
            (let event = sized json r (new_event s r now id kind target payload native_timestamp) in
              let t = record s { next_id = suc s.next_id } in
              let a = trim (length t.events) id event.1 t in
              let b = discard_oldest (length a.events) event.1 a in
              subst (IsTraced s) {x = push b event} {y = q} (ground arith) (
                IsTraced-trans (numbered (IsTraced-refl s)) (
                  IsTraced-trans (trim-IsTraced (length t.events) id event.1 t) (
                    IsTraced-trans (discard_oldest-IsTraced (length a.events) event.1 a)
                      (push-IsTraced b event.0 event.1)))))
      ]
    where
      numbered : IsTraced s s → IsTraced s (record s { next_id = suc s.next_id })
      numbered t = record { kept = t.kept; grows = t.grows }
