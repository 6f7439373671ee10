-- ===== src/Base/Map.antt =====
-- `BTreeMap`: an association list in the order of its keys.
use Prim.Native.Nat.{ℕ, suc, ◌+◌, ◌≤◌, Ordering}
use Prim.Native.String
use Prim.Native.String.{String}
use mathlib.Core.Path.{◌≡◌, refl}
use mathlib.Core.Logic.{◌↔◌, inl, inr}
use mathlib.Core.Bool.{Bool, true, false}
use mathlib.Core.Option.{Option, none, some}
use mathlib.Core.List.{List, [], ◌∷◌, map}
use native.Mathlib.Omega.{arith}
use text.Mathlib.Text.{◌==◌ as str_eq}
use text.Mathlib.TextEquality.{eq_iff}
use master_control_program.Base.Tests.{Option-cases, if◌then◌else◌, ltb, ◌==◌, ==_iff, Bool-cases}
use master_control_program.Base.Lists.{length, sum_by}

pub record Key {ℓ} (K : Type ℓ) : Type ℓ where
  pub beq : K → K → Bool
  pub beq_iff : (a b : K) → (beq a b ≡ true) ↔ (a ≡ b)
  pub before : K → K → Bool

abbrev str_before : String → String → Bool
str_before a b = elim (String.compare a b) [ Ordering.lt ↦ true | _ ↦ false ]

instance abbrev pub string_key : Key String
string_key = record { beq = str_eq; beq_iff = eq_iff; before = str_before }

instance abbrev pub nat_key : Key ℕ
nat_key = record { beq = ◌==◌; beq_iff = ==_iff; before = ltb }

abbrev pub Map {ℓ κ} : Type ℓ → Type κ → Type (ℓ ⊔ κ)
Map K V = List (K × V)

module _ {ℓ κ} {K : Type ℓ} {V : Type κ} ⦃key : Key K⦄ where
  unfoldable pub get : K → Map K V → Option V
  get k [] = none
  get k ((j, v) ∷ m) = if key.beq j k then some v else get k m

  -- `if let Some(value) = map.get_mut(k) { *value = f(value) }`
  unfoldable pub adjust : K → (V → V) → Map K V → Map K V
  adjust k f [] = []
  adjust k f ((j, w) ∷ m) = if key.beq j k then (j, f w) ∷ m else (j, w) ∷ adjust k f m

  unfoldable pub place : K → V → Map K V → Map K V
  place k v [] = (k, v) ∷ []
  place k v ((j, w) ∷ m) = if key.before k j then (k, v) ∷ (j, w) ∷ m else (j, w) ∷ place k v m

  unfoldable pub insert : K → V → Map K V → Map K V
  insert k v m = elim (get k m) [ none ↦ place k v m | some _ ↦ adjust k (λ _. v) m ]

  unfoldable pub remove : K → Map K V → Map K V
  remove k [] = []
  remove k ((j, w) ∷ m) = let rest = remove k m in if key.beq j k then m else (j, w) ∷ rest

  abbrev pub values : Map K V → List V
  values = map (λ p. p.1)

  abbrev pub total : (V → ℕ) → Map K V → ℕ
  total f = sum_by (λ p. f p.1)

  get-place :
      (k j : K) (v : V) (m : Map K V)
      → get k m ≡ none
      → get j (place k v m) ≡ (if key.beq k j then some v else get j m)
  unfolding get place
  get-place k j v [] h = refl
  get-place k j v ((i, w) ∷ m) h =
      ground (arith, key.beq_iff k j, key.beq_iff i k, key.beq_iff i j, get-place k j v m)

  length-place : (k : K) (v : V) (m : Map K V) → length (place k v m) ≡ suc (length m)
  unfolding place
  length-place k v [] = refl
  length-place k v ((j, w) ∷ m) = ground (arith, length-place k v m)

  total-place : (f : V → ℕ) (k : K) (v : V) (m : Map K V) → total f (place k v m) ≡ total f m + f v
  unfolding place
  total-place f k v [] = omega arith
  total-place f k v ((j, w) ∷ m) = ground (arith, total-place f k v m)

  pub get-adjust :
      (k j : K) (f : V → V) (m : Map K V) (v : V)
      → get j m ≡ some v
      → get j (adjust k f m) ≡ (if key.beq k j then some (f v) else some v)
  unfolding get adjust
  get-adjust k j f [] v h = cc
  get-adjust k j f ((i, w) ∷ m) v h =
      ground (arith, key.beq_iff k j, key.beq_iff i k, key.beq_iff i j, get-adjust k j f m v)

  pub length-adjust : (k : K) (f : V → V) (m : Map K V) → length (adjust k f m) ≡ length m
  unfolding adjust
  length-adjust k f [] = refl
  length-adjust k f ((j, w) ∷ m) = ground (arith, length-adjust k f m)

  replaced :
      (k j : K) (v : V) (m : Map K V) (w : V)
      → get k m ≡ some w
      → get j (adjust k (λ _. v) m) ≡ (if key.beq k j then some v else get j m)
  unfolding get adjust
  replaced k j v [] w h = cc
  replaced k j v ((i, u) ∷ m) w h =
      ground (arith, key.beq_iff k j, key.beq_iff i k, key.beq_iff i j, replaced k j v m w)

  pub get-insert :
      (k j : K) (v : V) (m : Map K V)
      → get j (insert k v m) ≡ (if key.beq k j then some v else get j m)
  unfolding insert
  get-insert k j v m = elim (Option-cases (get k m)) [
    | inl absent ↦ rw (absent, insert) (get-place k j v m absent)
    | inr (w, e) ↦ rw (e, insert) (replaced k j v m w e)
  ]

  pub get-remove_ne : (k j : K) (m : Map K V) → key.beq k j ≡ false → get j (remove k m) ≡ get j m
  unfolding get remove
  get-remove_ne k j [] h = refl
  get-remove_ne k j ((i, w) ∷ m) h =
      ground (arith, key.beq_iff k j, key.beq_iff i k, key.beq_iff i j, get-remove_ne k j m h)

  pub get-adjust-none :
      (k j : K) (f : V → V) (m : Map K V) → get j m ≡ none → get j (adjust k f m) ≡ none
  unfolding get adjust
  get-adjust-none k j f [] h = refl
  get-adjust-none k j f ((i, w) ∷ m) h = ground (arith, key.beq_iff i k, get-adjust-none k j f m)

  -- What an adjusted map holds was held before.
  pub get-adjust_inv :
      (k j : K) (f : V → V) (m : Map K V) {w : V}
      → get j (adjust k f m) ≡ some w
      → (v : V) × (get j m ≡ some v) × (w ≡ (if key.beq k j then f v else v))
  get-adjust_inv k j f m {w} h = elim (Option-cases (get j m)) [
    | inl absent ↦ cc (get-adjust-none k j f m absent, h)
    | inr (v, found) ↦
        (let e = get-adjust k j f m v found in
          elim (Bool-cases (key.beq k j)) [
            | inl same ↦ (v, found, ground (arith, e, h, same))
            | inr other ↦ (v, found, ground (arith, e, h, other))
          ])
  ]

  pub length-insert :
      (k : K) (v : V) (m : Map K V) → get k m ≡ none → length (insert k v m) ≡ suc (length m)
  unfolding insert
  length-insert k v m h = rw (h, insert) (length-place k v m)

  pub length-insert_le : (k : K) (v : V) (m : Map K V) → length (insert k v m) ≤ suc (length m)
  unfolding insert
  length-insert_le k v m = elim (Option-cases (get k m)) [
    | inl absent ↦ rw (absent, insert) (omega (arith, length-place k v m))
    | inr (w, e) ↦ rw (e, insert) (omega (arith, length-adjust k (λ _. v) m))
  ]

  pub length-remove :
      (k : K) (v : V) (m : Map K V) → get k m ≡ some v → suc (length (remove k m)) ≡ length m
  unfolding get remove
  length-remove k v [] h = cc
  length-remove k v ((j, w) ∷ m) h = ground (arith, length-remove k v m)

  pub length-remove_le : (k : K) (m : Map K V) → length (remove k m) ≤ length m
  unfolding remove
  length-remove_le k [] = omega arith
  length-remove_le k ((j, w) ∷ m) = ground (arith, length-remove_le k m)

  pub total-insert :
      (f : V → ℕ) (k : K) (v : V) (m : Map K V)
      → get k m ≡ none
      → total f (insert k v m) ≡ total f m + f v
  unfolding insert
  total-insert f k v m h = rw (h, insert) (total-place f k v m)

  pub total-remove :
      (f : V → ℕ) (k : K) (v : V) (m : Map K V)
      → get k m ≡ some v
      → total f (remove k m) + f v ≡ total f m
  unfolding get remove
  total-remove f k v [] h = cc
  total-remove f k v ((j, w) ∷ m) h = ground (arith, total-remove f k v m)

  pub total-adjust :
      (f : V → ℕ) (k : K) (g : V → V) (m : Map K V)
      → ((v : V) → f (g v) ≡ f v)
      → total f (adjust k g m) ≡ total f m
  unfolding adjust
  total-adjust f k g [] h = refl
  total-adjust f k g ((j, w) ∷ m) h = ground (arith, h w, total-adjust f k g m h)

  -- Each key stands once.
  abbrev pub Distinct : Map K V → Type κ
  Distinct [] = Unit
  Distinct ((k, v) ∷ m) = (get k m ≡ none) × Distinct m

  Distinct-place :
      (k : K) (v : V) (m : Map K V) → get k m ≡ none → Distinct m → Distinct (place k v m)
  unfolding get place
  Distinct-place k v [] h d = (refl, tt)
  Distinct-place k v ((j, w) ∷ m) h d =
      ground (arith, key.beq_iff j k, key.beq_iff k j, Distinct-place k v m, get-place k j v m)

  pub Distinct-adjust : (k : K) (f : V → V) (m : Map K V) → Distinct m → Distinct (adjust k f m)
  unfolding adjust
  Distinct-adjust k f [] d = tt
  Distinct-adjust k f ((j, w) ∷ m) d =
      ground (arith, Distinct-adjust k f m, get-adjust-none k j f m)

  pub Distinct-insert : (k : K) (v : V) (m : Map K V) → Distinct m → Distinct (insert k v m)
  unfolding insert
  Distinct-insert k v m d = elim (Option-cases (get k m)) [
    | inl absent ↦ rw (absent, insert) (Distinct-place k v m absent d)
    | inr (w, e) ↦ rw (e, insert) (Distinct-adjust k (λ _. v) m d)
  ]

  get-remove-none : (k j : K) (m : Map K V) → get j m ≡ none → get j (remove k m) ≡ none
  unfolding get remove
  get-remove-none k j [] h = refl
  get-remove-none k j ((i, w) ∷ m) h = ground (arith, get-remove-none k j m)

  pub Distinct-remove : (k : K) (m : Map K V) → Distinct m → Distinct (remove k m)
  unfolding remove
  Distinct-remove k [] d = tt
  Distinct-remove k ((j, w) ∷ m) d = ground (arith, Distinct-remove k m, get-remove-none k j m)

  pub get-remove_self : (k : K) (m : Map K V) → Distinct m → get k (remove k m) ≡ none
  unfolding get remove
  get-remove_self k [] d = refl
  get-remove_self k ((j, w) ∷ m) d = ground (arith, key.beq_iff j k, get-remove_self k m)

-- A property of every value of a map.
module _ {ℓ κ μ} {K : Type ℓ} {V : Type κ} ⦃key : Key K⦄ (P : V → Type μ) where
  abbrev pub All : Map K V → Type μ
  All [] = Unit
  All ((j, v) ∷ m) = P v × All m
