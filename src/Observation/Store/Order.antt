-- ===== src/Observation/Store/Order.antt =====
-- src/observation.rs: the order of the retained events.
use mathlib.Core.Path.{subst}
use master_control_program.Observation.Store.Limits.{sized-le}
use master_control_program.Base.{
  ◌∙◌, ℕ, zero, suc, ◌-◌, ◌<◌, ◌≤◌, ◌≡◌, inl, inr, refl, String, List, [], ◌∷◌, ◌++◌, arith,
  Option-cases, Bool-cases, get_elem?, erase_idx, find_idx?, Bool, is_some_and, str_eq, Option,
  some, length,
}
use master_control_program.Base.Map.{string_key, get}
use master_control_program.Observation.Record.{
  Event, max_event_bytes, Json, TargetIdentity, WatchRecord,
}
use master_control_program.Observation.Store.{
  Store, discard, of_watch, trim, discard_oldest, is_crowded, fits_watch, push, is_at_limit,
  counted_event, append, gap_event, new_event, sized,
}

module _ {V : Type 0} where
  -- The cursors of the events increase, and are after `low`.
  abbrev pub Increasing : ℕ → List (Event V × ℕ) → Type 0
  Increasing low [] = Unit
  Increasing low ((event, bytes) ∷ events) =
      (low < event.cursor.id) × Increasing event.cursor.id events

  -- Every cursor is at most `top`, and every length is one that `append` records.
  abbrev pub UpTo : ℕ → List (Event V × ℕ) → Type 0
  UpTo top [] = Unit
  UpTo top ((event, bytes) ∷ events) =
      (event.cursor.id ≤ top) × (bytes ≤ max_event_bytes) × UpTo top events

-- The cursors of the retained events increase, and are behind the next.
pub record IsOrdered {V : Type 0} (s : Store V) : Type 0 where
  pub increasing : Increasing 0 s.events
  pub behind : UpTo (s.next_id - 1) s.events
  pub numbered : 0 < s.next_id

module _ {V : Type 0} where
  Increasing-le : (a b : ℕ) (xs : List (Event V × ℕ)) → a ≤ b → Increasing b xs → Increasing a xs
  Increasing-le a b [] h i = tt
  Increasing-le a b ((event, bytes) ∷ xs) h i = (omega (arith, i.0), i.1)

  Increasing-erase_idx :
      (low index : ℕ) (xs : List (Event V × ℕ))
      → Increasing low xs
      → Increasing low (erase_idx xs index)
  Increasing-erase_idx low index [] i = tt
  Increasing-erase_idx low zero ((event, bytes) ∷ xs) i =
      Increasing-le low event.cursor.id xs (omega (arith, i.0)) i.1
  Increasing-erase_idx low (suc index) ((event, bytes) ∷ xs) i =
      (i.0, Increasing-erase_idx event.cursor.id index xs i.1)

  UpTo-erase_idx :
      (top index : ℕ) (xs : List (Event V × ℕ)) → UpTo top xs → UpTo top (erase_idx xs index)
  UpTo-erase_idx top index [] u = tt
  UpTo-erase_idx top zero ((event, bytes) ∷ xs) u = u.2
  UpTo-erase_idx top (suc index) ((event, bytes) ∷ xs) u =
      (u.0, u.1, UpTo-erase_idx top index xs u.2)

  UpTo-append :
      (top : ℕ) (xs : List (Event V × ℕ)) (event : Event V) (bytes : ℕ)
      → UpTo top xs
      → event.cursor.id ≡ suc top
      → bytes ≤ max_event_bytes
      → UpTo (suc top) (xs ++ ((event, bytes) ∷ []))
  UpTo-append top [] event bytes u e b = (omega (arith, e), b, tt)
  UpTo-append top ((event', bytes') ∷ xs) event bytes u e b =
      (omega (arith, u.0), u.1, UpTo-append top xs event bytes u.2 e b)

  Increasing-append :
      (low top : ℕ) (xs : List (Event V × ℕ)) (event : Event V) (bytes : ℕ)
      → Increasing low xs
      → UpTo top xs
      → low ≤ top
      → event.cursor.id ≡ suc top
      → Increasing low (xs ++ ((event, bytes) ∷ []))
  Increasing-append low top [] event bytes i u h e = (omega (arith, e), tt)
  Increasing-append low top ((event', bytes') ∷ xs) event bytes i u h e =
      (i.0, Increasing-append event'.cursor.id top xs event bytes i.1 u.2 u.0 e)

  -- What is kept when nothing is appended.
  abbrev Ordered : ℕ → Store V → Type 0
  Ordered top s = Increasing 0 s.events × UpTo top s.events

  abbrev SameNext : Store V → Store V → Type 0
  SameNext s q = ((top : ℕ) → Ordered top s → Ordered top q) × (q.next_id ≡ s.next_id)

  discard-SameNext : (s : Store V) (index : ℕ) → SameNext s (discard s index)
  unfolding discard
  discard-SameNext s index = elim (Option-cases (get_elem? s.events index)) [
    | inl absent ↦ rw (absent, discard) ((λ top v. v), refl)
    | inr ((event, bytes), found) ↦
        rw (found, discard)
          (
            (λ top v.
                (Increasing-erase_idx 0 index s.events v.0, UpTo-erase_idx top index s.events v.1)),
            refl,
          )
  ]

  SameNext-trans : (s q t : Store V) → SameNext s q → SameNext q t → SameNext s t
  SameNext-trans s q t a b = ((λ top v. b.0 top (a.0 top v)), omega (arith, a.1, b.1))

  trim-SameNext :
      (fuel : ℕ) (id : String) (bytes : ℕ) (s : Store V) → SameNext s (trim fuel id bytes s)
  unfolding trim
  trim-SameNext zero id bytes s = ((λ top v. v), refl)
  trim-SameNext (suc fuel) id bytes s = elim (Bool-cases (fits_watch id bytes s)) [
    | inl room ↦ rw (room, trim) ((λ top v. v), refl)
    | inr full ↦ elim (Option-cases (find_idx? (of_watch id) s.events)) [
      | inl nothing ↦ rw (full, nothing, trim) ((λ top v. v), refl)
      | inr (index, found) ↦
          rw (full, found, trim)
            (SameNext-trans s (discard s index) (trim fuel id bytes (discard s index))
              (discard-SameNext s index) (trim-SameNext fuel id bytes (discard s index)))
    ]
  ]

  discard_oldest-SameNext :
      (fuel bytes : ℕ) (s : Store V) → SameNext s (discard_oldest fuel bytes s)
  unfolding discard_oldest
  discard_oldest-SameNext zero bytes s = ((λ top v. v), refl)
  discard_oldest-SameNext (suc fuel) bytes s = elim (Bool-cases (is_crowded bytes s)) [
    | inr room ↦ rw (room, discard_oldest) ((λ top v. v), refl)
    | inl full ↦
        rw (full, discard_oldest)
          (SameNext-trans s (discard s 0) (discard_oldest fuel bytes (discard s 0))
            (discard-SameNext s 0) (discard_oldest-SameNext fuel bytes (discard s 0)))
  ]

  push-IsOrdered :
      (s : Store V) (event : Event V) (bytes : ℕ)
      → Ordered (s.next_id - 2) s
      → 1 < s.next_id
      → event.cursor.id ≡ s.next_id - 1
      → bytes ≤ max_event_bytes
      → IsOrdered (push s (event, bytes))
  unfolding push
  push-IsOrdered s event bytes v n e b = elim (Bool-cases limited) [
    | inl limit ↦
        rw (limit, push)
          (record { increasing = increasing; behind = behind; numbered = omega arith })
    | inr more ↦
        rw (more, push)
          (record { increasing = increasing; behind = behind; numbered = omega arith })
  ]
    where
      limited : Bool
      limited =
          is_some_and (get event.watch_id s.watches)
            (λ r. is_at_limit (counted_event (str_eq event.kind "gap") event.cursor.id bytes r))

      increasing : Increasing 0 (s.events ++ ((event, bytes) ∷ []))
      increasing =
          Increasing-append 0 (s.next_id - 2) s.events event bytes v.0 v.1 (omega arith)
            (omega (arith, e))

      behind : UpTo (s.next_id - 1) (s.events ++ ((event, bytes) ∷ []))
      behind =
          subst (λ top. UpTo top (s.events ++ ((event, bytes) ∷ []))) {x = suc (s.next_id - 2)}
            {y = s.next_id - 1} (omega arith)
            (UpTo-append (s.next_id - 2) s.events event bytes v.1 (omega (arith, e)) b)

module _ {V : Type 0} (json : Json V) where
  -- Whatever is appended, the cursors of the retained events increase and are behind the next, and
  -- no event is longer than 65,536 bytes, if the gap in place of the event takes at most 1024.
  pub append-IsOrdered :
      (s : Store V) (now : ℕ) (id kind : String) (target : TargetIdentity) (payload : V)
      (native_timestamp : Option ℕ) {q : Store V}
      → ((r : WatchRecord)
          → get id s.watches ≡ some r
          → json.size (gap_event json (new_event s r now id kind target payload native_timestamp))
            ≤ 1024)
      → IsOrdered s
      → append json s now id kind target payload native_timestamp ≡ some q
      → IsOrdered q
  unfolding append
  append-IsOrdered s now id kind target payload native_timestamp {q} short v h =
      elim (Option-cases (get id s.watches)) [
        | inl unknown ↦ subst IsOrdered {x = s} {y = q} (ground arith) v
        | inr (r, known) ↦
            (let new = new_event s r now id kind target payload native_timestamp in
              let event = sized json r new in
              let t = record s { next_id = suc s.next_id } in
              let a = trim (length t.events) id event.1 t in
              let b = discard_oldest (length a.events) event.1 a in
              let same =
                SameNext-trans t a b (trim-SameNext (length t.events) id event.1 t)
                  (discard_oldest-SameNext (length a.events) event.1 a) in
              subst IsOrdered {x = push b event} {y = q} (ground arith) (
                push-IsOrdered b event.0 event.1
                  (subst (λ top. Ordered top b) {x = s.next_id - 1} {y = b.next_id - 2}
                    (omega (arith, same.1)) (same.0 (s.next_id - 1) (v.increasing, v.behind)))
                  (omega (arith, same.1, v.numbered)) (sized-id r new ∙ omega (arith, same.1))
                  (sized-le json r new (short r known))))
      ]
    where
      sized-id :
          (r : WatchRecord) (event : Event V) → (sized json r event).0.cursor.id ≡ event.cursor.id
      sized-id r event = ground arith
