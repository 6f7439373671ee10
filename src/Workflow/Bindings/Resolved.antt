-- ===== src/Workflow/Bindings/Resolved.antt =====
-- src/workflow.rs: what `resolve` makes of arguments that `validate_bindings` accepted.
use master_control_program.Base.{
  ℕ, zero, suc, ◌≡◌, inl, inr, refl, ap, String, false, ◌||◌, List, [], ◌∷◌, is_some, Result, ok,
  err, ◌>>=◌, Bool-cases, Option-cases, arith, ok_first,
}
use master_control_program.Base.Map.{Map, string_key, get, All}
use master_control_program.Workflow.Bindings.{
  Shape, JsonValue, BindingError, object, array, text, other, unavailable, for_each, for_each_value,
  collect, collect_values, get_str, validate_binding, validate_bindings, resolve_binding, resolve,
}

-- A value, or the one error that a validated binding can end with.
abbrev pub Settles : {A : Type 0} → Result BindingError A → Type 0
Settles (ok a) = Unit
Settles (err e) = e ≡ unavailable

Settles-bind :
    {A B : Type 0} (r : Result BindingError A) (f : A → Result BindingError B)
    → Settles r
    → ((a : A) → Settles (f a))
    → Settles (r >>= f)
Settles-bind (ok a) f s k = k a
Settles-bind (err e) f s k = s

collect-Settles :
    {A : Type 0} (check : A → Result BindingError (Unit {0})) (f : A → Result BindingError A)
    (xs : List A)
    → ((x : A) → check x ≡ ok tt → Settles (f x))
    → for_each check xs ≡ ok tt
    → Settles (collect f xs)
unfolding for_each collect
collect-Settles check f [] h e = tt
collect-Settles check f (x ∷ xs) h e =
    let p = ok_first (check x) (for_each check xs) e in
    Settles-bind (f x) (λ y. collect f xs >>= λ ys. ok (y ∷ ys)) (h x p.0)
      (λ y.
        Settles-bind (collect f xs) (λ ys. ok (y ∷ ys)) (collect-Settles check f xs h p.1)
          (λ ys. tt))

collect_values-Settles :
    {V : Type 0} (check : V → Result BindingError (Unit {0})) (f : V → Result BindingError V)
    (m : Map String V)
    → ((x : V) → check x ≡ ok tt → Settles (f x))
    → for_each_value check m ≡ ok tt
    → Settles (collect_values f m)
unfolding for_each_value collect_values
collect_values-Settles check f [] h e = tt
collect_values-Settles check f ((k, x) ∷ m) h e =
    let p = ok_first (check x) (for_each_value check m) e in
    Settles-bind (f x) (λ y. collect_values f m >>= λ ys. ok ((k, y) ∷ ys)) (h x p.0)
      (λ y.
        Settles-bind (collect_values f m) (λ ys. ok ((k, y) ∷ ys))
          (collect_values-Settles check f m h p.1) (λ ys. tt))

abbrev pub AllOf : {A : Type 0} → (A → Type 0) → List A → Type 0
AllOf p [] = Unit
AllOf p (x ∷ xs) = p x × AllOf p xs

module _ {V : Type 0} (json : JsonValue V) where
  resolve_binding-Settles :
      (m : Map String V) (names : List String) (previous : Map String V)
      → validate_binding json m names ≡ ok tt
      → Settles (resolve_binding json m previous)
  unfolding validate_binding resolve_binding
  resolve_binding-Settles m names previous h = elim (Option-cases (get_str json "$step" m)) [
    | inl nameless ↦ absurd (ground (arith, ◌||◌))
    | inr (name, named) ↦ elim (Option-cases (get_str json "pointer" m)) [
      | inl nowhere ↦ absurd (ground (arith, ◌||◌))
      | inr (pointer, there) ↦
          rw (named, there, resolve_binding)
            (elim (Option-cases (get name previous)) [
              | inl absent ↦ rw absent refl
              | inr (value, found) ↦ elim (Option-cases (json.pointer value pointer)) [
                | inl missing ↦ rw (found, missing) refl
                | inr (result, present) ↦ rw (found, present) tt
              ]
            ])
    ]
  ]

  resolve_shape :
      (fuel : ℕ) (value : V) (names : List String) (previous : Map String V) (s : Shape V)
      → ((v : V)
          → validate_bindings json fuel v names ≡ ok tt
          → Settles (resolve json fuel v previous))
      → json.shape value ≡ s
      → validate_bindings json (suc fuel) value names ≡ ok tt
      → Settles (resolve json (suc fuel) value previous)
  unfolding validate_bindings resolve
  resolve_shape fuel value names previous (object m) ih e h =
      elim (Bool-cases (is_some (get "$step" m))) [
        | inl binds ↦
            rw (e, binds, resolve)
              (resolve_binding-Settles m names previous (rw (e, binds, validate_bindings) at h))
        | inr plain ↦
            rw (e, plain, resolve)
              (Settles-bind (collect_values (λ v. resolve json fuel v previous) m)
                (λ entries. ok (json.from_object entries))
                (collect_values-Settles (λ v. validate_bindings json fuel v names)
                  (λ v. resolve json fuel v previous) m ih (rw (e, plain, validate_bindings) at h))
                (λ entries. tt))
      ]
  resolve_shape fuel value names previous (array vs) ih e h =
      rw (e, resolve)
        (Settles-bind (collect (λ v. resolve json fuel v previous) vs)
          (λ items. ok (json.from_array items))
          (collect-Settles (λ v. validate_bindings json fuel v names)
            (λ v. resolve json fuel v previous) vs ih (rw (e, validate_bindings) at h))
          (λ items. tt))
  resolve_shape fuel value names previous (text t) ih e h = rw (e, resolve) tt
  resolve_shape fuel value names previous other ih e h = rw (e, resolve) tt

  -- Arguments that were validated are resolved, or end with the one error of a missing result.
  pub resolve-Settles :
      (fuel : ℕ) (value : V) (names : List String) (previous : Map String V)
      → validate_bindings json fuel value names ≡ ok tt
      → Settles (resolve json fuel value previous)
  unfolding validate_bindings
  resolve-Settles zero value names previous h = cc
  resolve-Settles (suc fuel) value names previous h =
      resolve_shape fuel value names previous (json.shape value)
        (λ v. resolve-Settles fuel v names previous) refl h

  -- A value with no binding in it, no deeper than the fuel.
  abbrev pub IsPlainShape : (V → Type 0) → Shape V → Type 0
  IsPlainShape p (object m) = (is_some (get "$step" m) ≡ false) × All p m
  IsPlainShape p (array vs) = AllOf p vs
  IsPlainShape p (text t) = Unit
  IsPlainShape p other = Unit

  abbrev pub IsPlain : ℕ → V → Type 0
  IsPlain zero value = ⊥
  IsPlain (suc fuel) value = IsPlainShape (IsPlain fuel) (json.shape value)

  collect_plain :
      (f : V → Result BindingError V) (p : V → Type 0) (vs : List V)
      → ((v : V) → p v → f v ≡ ok v)
      → AllOf p vs
      → collect f vs ≡ ok vs
  unfolding collect
  collect_plain f p [] h a = refl
  collect_plain f p (v ∷ vs) h a = rw (h v a.0, collect_plain f p vs h a.1) refl

  collect_values_plain :
      (f : V → Result BindingError V) (p : V → Type 0) (m : Map String V)
      → ((v : V) → p v → f v ≡ ok v)
      → All p m
      → collect_values f m ≡ ok m
  unfolding collect_values
  collect_values_plain f p [] h a = refl
  collect_values_plain f p ((k, v) ∷ m) h a = rw (h v a.0, collect_values_plain f p m h a.1) refl

  plain_shape :
      (fuel : ℕ) (value : V) (previous : Map String V) (s : Shape V)
      → ((v : V) → IsPlain fuel v → resolve json fuel v previous ≡ ok v)
      → json.shape value ≡ s
      → IsPlainShape (IsPlain fuel) s
      → resolve json (suc fuel) value previous ≡ ok value
  unfolding resolve
  plain_shape fuel value previous (object m) ih e p =
      rw
        (
          e,
          p.0,
          collect_values_plain (λ v. resolve json fuel v previous) (IsPlain fuel) m ih p.1,
          resolve,
        )
        (ap (λ v. ok v) (json.object_lem value m e))
  plain_shape fuel value previous (array vs) ih e p =
      rw (e, collect_plain (λ v. resolve json fuel v previous) (IsPlain fuel) vs ih p, resolve)
        (ap (λ v. ok v) (json.array_lem value vs e))
  plain_shape fuel value previous (text t) ih e p = rw (e, resolve) refl
  plain_shape fuel value previous other ih e p = rw (e, resolve) refl

  -- Arguments with no binding in them, no deeper than the fuel, are resolved to themselves.
  pub resolve-IsPlain :
      (fuel : ℕ) (value : V) (previous : Map String V)
      → IsPlain fuel value
      → resolve json fuel value previous ≡ ok value
  resolve-IsPlain zero value previous p = elim p [ ]
  resolve-IsPlain (suc fuel) value previous p =
      plain_shape fuel value previous (json.shape value) (λ v. resolve-IsPlain fuel v previous) refl
        p
