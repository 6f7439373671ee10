-- ===== src/Workflow/Bindings.antt =====
-- src/workflow.rs: `validate_bindings` and `resolve`, the results of earlier steps in the arguments of
-- a step.
pub mod Resolved
use master_control_program.Base.{
  ℕ, zero, suc, ◌≡◌, String, Bool, true, false, ◌||◌, Option, none, some, List, [], ◌∷◌, length,
  any, ◌==◌, is_some, str_eq, if◌then◌else◌, Result, ok, err, ensure, or_err, ◌>>=◌, ◌>>◌,
  starts_with,
}
use master_control_program.Base.Map.{Map, string_key, get}

-- What the code distinguishes of a JSON value: the entries of an object, the items of an array, a text,
-- or any other value.
pub data Shape (V : Type 0) : Type 0 where
  object : Map String V → Shape V
  array : List V → Shape V
  text : String → Shape V
  other : Shape V

-- The JSON library: `Value` seen by its shape, made from one, and followed along a pointer.
pub record JsonValue (V : Type 0) : Type 0 where
  pub shape : V → Shape V
  pub from_object : Map String V → V
  pub from_array : List V → V
  pub pointer : V → String → Option V
  pub object_lem : (v : V) (m : Map String V) → shape v ≡ object m → from_object m ≡ v
  pub array_lem : (v : V) (vs : List V) → shape v ≡ array vs → from_array vs ≡ v

pub data BindingError : Type 0 where
  too_deep : BindingError
  not_exact : BindingError
  not_a_name : BindingError
  unknown_step : BindingError
  not_a_pointer : BindingError
  bad_pointer : BindingError
  unavailable : BindingError

-- One more than the greatest depth, 32: the fuel is 33 less the depth of the code.
abbrev pub levels : ℕ
levels = 33

-- The loops stop at the first error.
unfoldable pub for_each :
    {A : Type 0} → (A → Result BindingError (Unit {0})) → List A → Result BindingError (Unit {0})
for_each f [] = ok tt
for_each f (x ∷ xs) = f x >> for_each f xs

unfoldable pub for_each_value :
    {V : Type 0}
    → (V → Result BindingError (Unit {0}))
    → Map String V
    → Result BindingError (Unit {0})
for_each_value f [] = ok tt
for_each_value f ((k, x) ∷ m) = f x >> for_each_value f m

unfoldable pub collect :
    {A : Type 0} → (A → Result BindingError A) → List A → Result BindingError (List A)
collect f [] = ok []
collect f (x ∷ xs) = f x >>= λ y. collect f xs >>= λ ys. ok (y ∷ ys)

unfoldable pub collect_values :
    {V : Type 0} → (V → Result BindingError V) → Map String V → Result BindingError (Map String V)
collect_values f [] = ok []
collect_values f ((k, x) ∷ m) = f x >>= λ y. collect_values f m >>= λ ys. ok ((k, y) ∷ ys)

module _ {V : Type 0} (json : JsonValue V) where
  abbrev pub as_str : V → Option String
  as_str v = elim (json.shape v) [ text s ↦ some s | other_shape ↦ none ]

  abbrev pub get_str : String → Map String V → Option String
  get_str key m = elim (get key m) [ none ↦ none | some v ↦ as_str v ]

  -- The binding of an object that has `$step`.
  unfoldable pub validate_binding : Map String V → List String → Result BindingError (Unit {0})
  validate_binding m previous =
      ensure (length m == 2) not_exact >> or_err (get_str "$step" m) not_a_name >>= λ step.
      (ensure (any (λ name. str_eq name step) previous) unknown_step
        >> or_err (get_str "pointer" m) not_a_pointer
        >>= λ pointer. ensure (str_eq pointer "" || starts_with pointer "/") bad_pointer)

  unfoldable pub validate_bindings : ℕ → V → List String → Result BindingError (Unit {0})
  validate_bindings zero value previous = err too_deep
  validate_bindings (suc fuel) value previous = elim (json.shape value) [
    | object m ↦ elim (is_some (get "$step" m)) [
      | true ↦ validate_binding m previous
      | false ↦ for_each_value (λ v. validate_bindings fuel v previous) m
    ]
    | array vs ↦ for_each (λ v. validate_bindings fuel v previous) vs
    | text s ↦ ok tt
    | other ↦ ok tt
  ]

  unfoldable pub resolve_binding : Map String V → Map String V → Result BindingError V
  resolve_binding m previous = or_err (get_str "$step" m) not_a_name >>= λ name.
      or_err (get_str "pointer" m) not_a_pointer >>= λ pointer. elim (get name previous) [
        | none ↦ err unavailable
        | some value ↦ or_err (json.pointer value pointer) unavailable
      ]

  unfoldable pub resolve : ℕ → V → Map String V → Result BindingError V
  resolve zero value previous = err too_deep
  resolve (suc fuel) value previous = elim (json.shape value) [
    | object m ↦ elim (is_some (get "$step" m)) [
      | true ↦ resolve_binding m previous
      | false ↦ collect_values (λ v. resolve fuel v previous) m >>= λ entries.
          ok (json.from_object entries)
    ]
    | array vs ↦ collect (λ v. resolve fuel v previous) vs >>= λ items. ok (json.from_array items)
    | text s ↦ ok value
    | other ↦ ok value
  ]
