-- ===== src/Execution/Registry/Eviction.antt =====
-- src/execution.rs: which entries `reserve` forgets.
use mathlib.Core.Path.{subst}
use mathlib.Core.Option.{some-injective}
use master_control_program.Base.{
  ℕ, zero, suc, ◌≤◌, ◌≡◌, ◌⊎◌, inl, inr, refl, String, true, false, some, none, [], ◌∷◌,
  Option-cases, Bool-cases, arith, str_eq_iff, str_eq, Option, leb, sym, leb→le, ◌∙◌, length,
}
use master_control_program.Base.Map.{
  Map, string_key, get, Distinct, get-remove_ne, Distinct-remove, All, length-remove,
}
use master_control_program.Execution.Record.{Entry, evictable}
use master_control_program.Execution.Registry.{Registry, oldest, evict, make_room, is_full}

-- Every entry that may be forgotten started no earlier than `time`.
abbrev StartedFrom : ℕ → Map String Entry → Type 0
StartedFrom time = All (λ e. (evictable e ≡ false) ⊎ (time ≤ e.info.started_at_ms))

StartedFrom-le : (s t : ℕ) (m : Map String Entry) → s ≤ t → StartedFrom t m → StartedFrom s m
StartedFrom-le s t [] h a = tt
StartedFrom-le s t ((k, e) ∷ m) h a = ground (arith, StartedFrom-le s t m)

-- No entry may be forgotten.
abbrev pub AllKept : Map String Entry → Type 0
AllKept = All (λ e. evictable e ≡ false)

oldest-none : (m : Map String Entry) → oldest m ≡ none → AllKept m
unfolding oldest
oldest-none [] h = tt
oldest-none ((k, e) ∷ m) h = ground (arith, oldest-none m)

AllKept-StartedFrom : (t : ℕ) (m : Map String Entry) → AllKept m → StartedFrom t m
AllKept-StartedFrom t [] a = tt
AllKept-StartedFrom t ((k, e) ∷ m) a = ground (arith, AllKept-StartedFrom t m)

-- An entry that may be forgotten, and no other such entry started earlier.
pub record Picked (m : Map String Entry) (id : String) (time : ℕ) : Type 0 where
  pub entry : Entry
  pub found : get id m ≡ some entry
  pub free : evictable entry ≡ true
  pub started : entry.info.started_at_ms ≡ time
  pub first : StartedFrom time m

here :
    (k : String) (e : Entry) (m : Map String Entry)
    → evictable e ≡ true
    → StartedFrom e.info.started_at_ms m
    → Picked ((k, e) ∷ m) k e.info.started_at_ms
unfolding get
here k e m f a = record {
  entry = e;
  found = ground (arith, str_eq_iff k k);
  free = f;
  started = refl;
  first = (inr (omega arith), a);
}

there :
    (k : String) (e : Entry) (m : Map String Entry) {id : String} {time : ℕ}
    → get k m ≡ none
    → (evictable e ≡ false) ⊎ (time ≤ e.info.started_at_ms)
    → Picked m id time
    → Picked ((k, e) ∷ m) id time
unfolding get
there k e m {id} absent later p = record {
  entry = p.entry;
  found = elim (Bool-cases (str_eq k id)) [
    | inl same ↦ cc (absent, p.found, (str_eq_iff k id).0 same)
    | inr other ↦ rw other p.found
  ];
  free = p.free;
  started = p.started;
  first = (later, p.first);
}

moved :
    (m : Map String Entry) {o : Option (String × ℕ)} {x y : String × ℕ}
    → o ≡ some x
    → o ≡ some y
    → Picked m x.0 x.1
    → Picked m y.0 y.1
moved m p q h = subst (λ z. Picked m z.0 z.1) (some-injective _ _ (sym p ∙ q)) h

-- What `oldest` picks among entries with distinct identifiers may be forgotten, and no other entry
-- that may be forgotten started earlier.
pub oldest-some :
    (m : Map String Entry) {x : String × ℕ} → Distinct m → oldest m ≡ some x → Picked m x.0 x.1
unfolding oldest
oldest-some [] d h = cc
oldest-some ((k, e) ∷ m) {x} d h = elim (Bool-cases (evictable e)) [
  | inl free ↦ elim (Option-cases (oldest m)) [
    | inl only ↦
        moved ((k, e) ∷ m) {x = (k, e.info.started_at_ms)} (rw (free, only)) h
          (here k e m free (AllKept-StartedFrom e.info.started_at_ms m (oldest-none m only)))
    | inr ((id, time), more) ↦ elim (Bool-cases (leb e.info.started_at_ms time)) [
      | inl sooner ↦
          moved ((k, e) ∷ m) {x = (k, e.info.started_at_ms)} (rw (free, more, sooner)) h (
            here k e m free
              (StartedFrom-le _ time m (leb→le _ time sooner) (oldest-some m d.1 more).first))
      | inr later ↦
          moved ((k, e) ∷ m) {x = (id, time)} (rw (free, more, later)) h
            (there k e m d.0 (inr (ground arith)) (oldest-some m d.1 more))
    ]
  ]
  | inr live ↦ there k e m d.0 (inl live) (oldest-some m d.1 (ground arith))
]

-- Forgetting one entry leaves the others.
get-evict_live :
    (r : Registry) (id j : String) {e picked : Entry}
    → get id r.entries ≡ some picked
    → evictable picked ≡ true
    → get j r.entries ≡ some e
    → evictable e ≡ false
    → get j (evict id r).entries ≡ some e
unfolding evict
get-evict_live r id j {e} {picked} found free here live = elim (Bool-cases (str_eq id j)) [
  | inl same ↦ cc (found, free, here, live, (str_eq_iff id j).0 same)
  | inr other ↦ rw (found, evict) (get-remove_ne id j r.entries other ∙ here)
]

pub Distinct-evict :
    (r : Registry) (id : String) → Distinct r.entries → Distinct (evict id r).entries
unfolding evict
Distinct-evict r id d = elim (Option-cases (get id r.entries)) [
  | inl absent ↦ rw (absent, evict) d
  | inr (e, found) ↦ rw (found, evict) (Distinct-remove id r.entries d)
]

-- Whatever room the loop of `reserve` makes, an entry that may not be forgotten is kept as it is,
-- if the entries have distinct identifiers.
pub make_room-keeps_live :
    (fuel budget : ℕ) (r : Registry) (id : String) {e : Entry}
    → Distinct r.entries
    → get id r.entries ≡ some e
    → evictable e ≡ false
    → get id (make_room fuel budget r).0.entries ≡ some e
unfolding make_room
make_room-keeps_live zero budget r id d found live = found
make_room-keeps_live (suc fuel) budget r id d found live = elim (Bool-cases (is_full budget r)) [
  | inr fits ↦ rw (fits, make_room) found
  | inl full ↦ elim (Option-cases (oldest r.entries)) [
    | inl nothing ↦ rw (full, nothing, make_room) found
    | inr ((old, time), more) ↦
        (let p = oldest-some r.entries d more in
          rw (full, more, make_room)
            (make_room-keeps_live fuel budget (evict old r) id (Distinct-evict r old d)
              (get-evict_live r old id p.found p.free found live) live))
  ]
]

pub length-evict :
    (r : Registry) (id : String) {e : Entry}
    → get id r.entries ≡ some e
    → suc (length (evict id r).entries) ≡ length r.entries
unfolding evict
length-evict r id {e} found = rw (found, evict) (length-remove id e r.entries found)

-- With a round for each entry, under distinct identifiers, the loop of `reserve` ends by its test:
-- there is room, or there is none and no entry may be forgotten.
pub make_room-cases :
    (fuel budget : ℕ) (r : Registry)
    → length r.entries ≤ fuel
    → Distinct r.entries
    → let (r', fits) = make_room fuel budget r in
      ((fits ≡ true) × (is_full budget r' ≡ false))
      ⊎ ((fits ≡ false) × (is_full budget r' ≡ true) × AllKept r'.entries)
unfolding make_room
make_room-cases zero budget r enough d = elim (Bool-cases (is_full budget r)) [
  | inr fits ↦ inl (rw fits refl, fits)
  | inl full ↦ inr (rw full refl, full, nothing_kept r.entries enough)
]
  where
    nothing_kept : (m : Map String Entry) → length m ≤ 0 → AllKept m
    nothing_kept [] h = tt
    nothing_kept (x ∷ m) h = absurd (omega arith)
make_room-cases (suc fuel) budget r enough d = elim (Bool-cases (is_full budget r)) [
  | inr fits ↦ rw (fits, make_room) (inl (refl, fits))
  | inl full ↦ elim (Option-cases (oldest r.entries)) [
    | inl nothing ↦ rw (full, nothing, make_room) (inr (refl, full, oldest-none r.entries nothing))
    | inr ((old, time), more) ↦
        (let p = oldest-some r.entries d more in
          rw (full, more, make_room)
            (make_room-cases fuel budget (evict old r) (omega (arith, length-evict r old p.found))
              (Distinct-evict r old d)))
  ]
]
