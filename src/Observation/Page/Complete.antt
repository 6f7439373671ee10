-- ===== src/Observation/Page/Complete.antt =====
-- src/observation.rs: a page holds every event that it should.
use mathlib.Core.Path.{subst}
use master_control_program.Base.{
  ◌⊎◌, sym, inl, inr, ℕ, ◌≤◌, ◌≡◌, ◌⊎◌, inl, inr, refl, sym, ap, ◌∙◌, Bool, true, false, ◌&&◌, List,
  [], ◌∷◌, ◌++◌, leb, ltb, if◌then◌else◌, arith, Bool-cases, max,
}
use master_control_program.Observation.Record.{Event}
use master_control_program.Observation.Store.Order.{Increasing, UpTo}
use master_control_program.Observation.Page.{Scan, scan_events, skipped, taken, is_full}

module _ {V : Type 0} where
  -- The events that are wanted, after one cursor and up to another.
  abbrev pub between : (Event V → Bool) → ℕ → ℕ → List (Event V × ℕ) → List (Event V)
  between want after last [] = []
  between want after last ((event, bytes) ∷ events) =
      let rest = between want after last events in
      if ltb after event.cursor.id && (leb event.cursor.id last && want event)
      then event ∷ rest
      else rest

  append_nil : (xs : List (Event V)) → xs ++ [] ≡ xs
  append_nil [] = refl
  append_nil (x ∷ xs) = ap (◌∷◌ x) (append_nil xs)

  append_assoc : (xs ys zs : List (Event V)) → (xs ++ ys) ++ zs ≡ xs ++ (ys ++ zs)
  append_assoc [] ys zs = refl
  append_assoc (x ∷ xs) ys zs = ap (◌∷◌ x) (append_assoc xs ys zs)

  nothing_between :
      (want : Event V → Bool) (after last low : ℕ) (events : List (Event V × ℕ))
      → last ≤ low
      → Increasing low events
      → between want after last events ≡ []
  nothing_between want after last low [] h i = refl
  nothing_between want after last low ((event, bytes) ∷ events) h i =
      ground (arith, nothing_between want after last event.cursor.id events (omega arith) i.1)

  -- The four ways of one round.
  module _ (want : Event V → Bool) (limit after : ℕ) (scan : Scan V) (event : Event V) (bytes : ℕ)
      (rest : List (Event V × ℕ)) where
    scan_old :
        leb event.cursor.id after ≡ true
        → scan_events want limit after scan ((event, bytes) ∷ rest)
          ≡ scan_events want limit after scan rest
    unfolding scan_events
    scan_old old = rw (old, scan_events) refl

    scan_other :
        leb event.cursor.id after ≡ false
        → want event ≡ false
        → scan_events want limit after scan ((event, bytes) ∷ rest)
          ≡ scan_events want limit after (skipped event scan) rest
    unfolding scan_events
    scan_other new other = rw (new, other, scan_events) refl

    scan_full :
        leb event.cursor.id after ≡ false
        → want event ≡ true
        → is_full limit scan bytes ≡ true
        → scan_events want limit after scan ((event, bytes) ∷ rest)
          ≡ record scan { exhausted = false }
    unfolding scan_events
    scan_full new mine full = rw (new, mine, full, scan_events) refl

    scan_taken :
        leb event.cursor.id after ≡ false
        → want event ≡ true
        → is_full limit scan bytes ≡ false
        → scan_events want limit after scan ((event, bytes) ∷ rest)
          ≡ scan_events want limit after (taken (event, bytes) scan) rest
    unfolding scan_events
    scan_taken new mine room = rw (new, mine, room, scan_events) refl

    -- What holds of the result of each round holds of the scan.
    pub by_round :
        (P : Scan V → Type 0)
        → (leb event.cursor.id after ≡ true → P (scan_events want limit after scan rest))
        → (leb event.cursor.id after ≡ false
            → want event ≡ false
            → P (scan_events want limit after (skipped event scan) rest))
        → (leb event.cursor.id after ≡ false
            → want event ≡ true
            → is_full limit scan bytes ≡ true
            → P (record scan { exhausted = false }))
        → (leb event.cursor.id after ≡ false
            → want event ≡ true
            → is_full limit scan bytes ≡ false
            → P (scan_events want limit after (taken (event, bytes) scan) rest))
        → P (scan_events want limit after scan ((event, bytes) ∷ rest))
    by_round P a b c d = elim (Bool-cases (leb event.cursor.id after)) [
      | inl old ↦ subst P (sym (scan_old old)) (a old)
      | inr new ↦ elim (Bool-cases (want event)) [
        | inr other ↦ subst P (sym (scan_other new other)) (b new other)
        | inl mine ↦ elim (Bool-cases (is_full limit scan bytes)) [
          | inl full ↦ subst P (sym (scan_full new mine full)) (c new mine full)
          | inr room ↦ subst P (sym (scan_taken new mine room)) (d new mine room)
        ]
      ]
    ]

  pub next-scan_events :
      (want : Event V → Bool) (limit after low : ℕ) (scan : Scan V) (events : List (Event V × ℕ))
      → Increasing low events
      → scan.next ≤ max low after
      → scan.next ≤ (scan_events want limit after scan events).next
  unfolding scan_events
  next-scan_events want limit after low scan [] i h = omega arith
  next-scan_events want limit after low scan ((event, bytes) ∷ rest) i h =
      by_round want limit after scan event bytes rest (λ q. scan.next ≤ q.next)
        (λ old. next-scan_events want limit after event.cursor.id scan rest i.1 (omega arith))
        (λ new other. ground (
          arith,
          next-scan_events want limit after event.cursor.id (skipped event scan) rest i.1
              (omega arith),
        ))
        (λ new mine full. omega arith)
        (λ new mine room. ground (
          arith,
          next-scan_events want limit after event.cursor.id (taken (event, bytes) scan) rest i.1
              (omega arith),
        ))

  -- The last cursor that a scan has dealt with: `top` if it has seen all the events.
  abbrev pub reached : ℕ → Scan V → ℕ
  reached top scan = if scan.exhausted then top else scan.next

  between_skip :
      (want : Event V → Bool) (after last : ℕ) (event : Event V) (bytes : ℕ)
      (rest : List (Event V × ℕ))
      → (leb event.cursor.id after ≡ true) ⊎ (want event ≡ false)
      → between want after last ((event, bytes) ∷ rest) ≡ between want after last rest
  between_skip want after last event bytes rest h = ground arith

  between_take :
      (want : Event V → Bool) (after last : ℕ) (event : Event V) (bytes : ℕ)
      (rest : List (Event V × ℕ))
      → leb event.cursor.id after ≡ false
      → event.cursor.id ≤ last
      → want event ≡ true
      → between want after last ((event, bytes) ∷ rest) ≡ event ∷ between want after last rest
  between_take want after last event bytes rest new h mine = ground arith

  pub scan_events-between :
      (want : Event V → Bool) (limit after low top : ℕ) (scan : Scan V)
      (events : List (Event V × ℕ))
      → Increasing low events
      → UpTo top events
      → scan.next ≤ max low after
      → scan.exhausted ≡ true
      → (scan_events want limit after scan events).events
        ≡ scan.events
          ++ between want after (reached top (scan_events want limit after scan events)) events
  unfolding scan_events
  scan_events-between want limit after low top scan [] i u h x = sym (append_nil scan.events)
  scan_events-between want limit after low top scan ((event, bytes) ∷ rest) i u h x =
      by_round want limit after scan event bytes rest
        (λ q. q.events ≡ scan.events ++ between want after (reached top q) ((event, bytes) ∷ rest))
        (λ old.
          scan_events-between want limit after event.cursor.id top scan rest i.1 u.2 (omega arith) x
          ∙ ap (λ l. scan.events ++ l) (sym (between_skip want after _ event bytes rest (inl old))))
        (λ new other.
          scan_events-between want limit after event.cursor.id top (skipped event scan) rest i.1 u.2
            (omega arith) x
          ∙ ap (λ l. scan.events ++ l)
              (sym (between_skip want after _ event bytes rest (inr other))))
        (λ new mine full.
          sym (append_nil scan.events)
          ∙ ap (λ l. scan.events ++ l)
              (sym (
                nothing_between want after scan.next (max low after) ((event, bytes) ∷ rest) h
                  (ground arith))))
        (λ new mine room.
          scan_events-between want limit after event.cursor.id top (taken (event, bytes) scan) rest
            i.1 u.2 (omega arith) x
          ∙ (append_assoc scan.events (event ∷ []) _
              ∙ ap (λ l. scan.events ++ l)
                  (sym (between_take want after _ event bytes rest new (seen new) mine))))
    where
      seen :
          leb event.cursor.id after ≡ false
          → event.cursor.id
            ≤ reached top (scan_events want limit after (taken (event, bytes) scan) rest)
      seen new = ground (
        arith,
        next-scan_events want limit after event.cursor.id (taken (event, bytes) scan) rest i.1
            (omega arith),
      )
