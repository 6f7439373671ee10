-- ===== src/Observation/Store/Forget.antt =====
-- src/observation.rs: `forget`.
use master_control_program.Base.{
  ℕ, zero, suc, ◌≤◌, ◌≡◌, inl, inr, sym, ◌∙◌, String, none, some, length, arith, Option-cases,
  Bool-cases, str_eq, str_eq_iff, find_idx?, get_elem?, get_elem?-find_idx?, length-erase_idx,
}
use master_control_program.Base.Map.{
  Map, string_key, get, remove, Distinct, Distinct-remove, get-remove_ne, get-remove_self,
}
use master_control_program.Observation.Record.{WatchRecord}
use master_control_program.Observation.Store.{Store, discard, discard_all, forget, of_watch}
use master_control_program.Observation.Store.Retention.{IsConsistent, discard-IsConsistent}
use master_control_program.Observation.Store.Limits.{IsWithinLimits}

-- What is found after a removal was there before.
get-remove_inv :
    (k j : String) (m : Map String WatchRecord) {r : WatchRecord}
    → Distinct m
    → get j (remove k m) ≡ some r
    → get j m ≡ some r
get-remove_inv k j m d h = elim (Bool-cases (str_eq k j)) [
  | inl same ↦ cc (get-remove_self k m d, h, (str_eq_iff k j).0 same)
  | inr other ↦ sym (get-remove_ne k j m other) ∙ h
]

module _ {V : Type 0} where
  discard-IsWithinLimits :
      (s : Store V) (index : ℕ) → IsWithinLimits s → IsWithinLimits (discard s index)
  unfolding discard
  discard-IsWithinLimits s index w = elim (Option-cases (get_elem? s.events index)) [
    | inl absent ↦ rw (absent, discard) w
    | inr ((event, bytes), found) ↦
        rw (found, discard)
          (record {
            few = omega (arith, w.few, length-erase_idx s.events index found);
            small = omega (arith, w.small);
          })
  ]

  discard_all-kept :
      (fuel : ℕ) (id : String) (s : Store V)
      → IsConsistent s
      → IsWithinLimits s
      → IsConsistent (discard_all fuel id s) × IsWithinLimits (discard_all fuel id s)
  unfolding discard_all
  discard_all-kept zero id s v w = (v, w)
  discard_all-kept (suc fuel) id s v w = elim (Option-cases (find_idx? (of_watch id) s.events)) [
    | inl nothing ↦ rw (nothing, discard_all) (v, w)
    | inr (index, found) ↦
        rw (found, discard_all)
          (discard_all-kept fuel id (discard s index) (discard-IsConsistent s index v)
            (discard-IsWithinLimits s index w))
  ]

  length-discard_found :
      (s : Store V) (id : String) (index : ℕ)
      → find_idx? (of_watch id) s.events ≡ some index
      → length s.events ≡ suc (length (discard s index).events)
  unfolding discard
  length-discard_found s id index h =
      let (x, found, mine) = get_elem?-find_idx? (of_watch id) s.events h in
      rw (found, discard) (length-erase_idx s.events index found)

  -- With a round for each event the loop ends by its test: no event of the watch is left.
  discard_all-none :
      (fuel : ℕ) (id : String) (s : Store V)
      → length s.events ≤ fuel
      → find_idx? (of_watch id) (discard_all fuel id s).events ≡ none
  unfolding discard_all
  discard_all-none zero id s h = elim (Option-cases (find_idx? (of_watch id) s.events)) [
    | inl nothing ↦ nothing
    | inr (index, found) ↦ absurd (omega (arith, length-discard_found s id index found))
  ]
  discard_all-none (suc fuel) id s h = elim (Option-cases (find_idx? (of_watch id) s.events)) [
    | inl nothing ↦ rw (nothing, discard_all) nothing
    | inr (index, found) ↦
        rw (found, discard_all)
          (discard_all-none fuel id (discard s index)
            (omega (arith, length-discard_found s id index found)))
  ]

  -- A watch that is forgotten is gone with all of its events, and the counters stay right and the
  -- limits kept.
  pub forget-kept :
      (s : Store V) (id : String)
      → IsConsistent s
      → IsWithinLimits s
      → IsConsistent (forget s id)
        × IsWithinLimits (forget s id)
        × (get id (forget s id).watches ≡ none)
        × (find_idx? (of_watch id) (forget s id).events ≡ none)
  unfolding forget
  forget-kept s id v w =
      let q = discard_all (length s.events) id s in
      let k = discard_all-kept (length s.events) id s v w in
      (
        record {
          bytes = k.0.bytes;
          distinct = Distinct-remove id q.watches k.0.distinct;
          counts = λ j held. k.0.counts j (get-remove_inv id j q.watches k.0.distinct held);
        },
        record { few = k.1.few; small = k.1.small },
        get-remove_self id q.watches k.0.distinct,
        discard_all-none (length s.events) id s (omega arith),
      )
