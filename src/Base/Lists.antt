-- ===== src/Base/Lists.antt =====
-- Lists measured and cut by native numbers, under the library's names.
use Prim.Native.Nat.{ℕ, zero, suc, ◌+◌, ◌-◌, ◌≤◌, min}
use mathlib.Core.Path.{◌≡◌, refl, sym, ◌∙◌, ap}
use mathlib.Core.Bool.{Bool, true, false, ◌&&◌, ◌||◌}
use mathlib.Core.List.{List, [], ◌∷◌, ◌++◌}
use mathlib.Core.Option.{Option, none, some}
use native.Mathlib.Omega.{arith}
use mathlib.Core.Path.{subst}
use mathlib.Core.Logic.{inl, inr}
use master_control_program.Base.Tests.{Bool-cases, Option-cases, if◌then◌else◌}

module _ {ℓ} {A : Type ℓ} where
  abbrev pub length : List A → ℕ
  length [] = 0
  length (x ∷ xs) = suc (length xs)

  abbrev pub take : ℕ → List A → List A
  take zero xs = []
  take (suc n) [] = []
  take (suc n) (x ∷ xs) = x ∷ take n xs

  abbrev pub drop : ℕ → List A → List A
  drop zero xs = xs
  drop (suc n) [] = []
  drop (suc n) (x ∷ xs) = drop n xs

  abbrev pub all : (A → Bool) → List A → Bool
  all p [] = true
  all p (x ∷ xs) = p x && all p xs

  abbrev pub any : (A → Bool) → List A → Bool
  any p [] = false
  any p (x ∷ xs) = p x || any p xs

  abbrev pub keep : (A → Bool) → List A → List A
  keep p [] = []
  keep p (x ∷ xs) = let rest = keep p xs in if p x then x ∷ rest else rest

  abbrev pub sum_by : (A → ℕ) → List A → ℕ
  sum_by f [] = 0
  sum_by f (x ∷ xs) = f x + sum_by f xs

module _ {ℓ} {A : Type ℓ} where
  pub length-append : (xs ys : List A) → length (xs ++ ys) ≡ length xs + length ys
  length-append [] ys = omega arith
  length-append (x ∷ xs) ys = omega (arith, length-append xs ys)

  pub take-append-drop : (n : ℕ) (xs : List A) → take n xs ++ drop n xs ≡ xs
  take-append-drop zero xs = refl
  take-append-drop (suc n) [] = refl
  take-append-drop (suc n) (x ∷ xs) = rw (take-append-drop n xs)

  pub length-take : (n : ℕ) (xs : List A) → length (take n xs) ≡ min n (length xs)
  length-take zero xs = omega arith
  length-take (suc n) [] = omega arith
  length-take (suc n) (x ∷ xs) = omega (arith, length-take n xs)

  pub length-drop : (n : ℕ) (xs : List A) → length (drop n xs) ≡ length xs - n
  length-drop zero xs = omega arith
  length-drop (suc n) [] = omega arith
  length-drop (suc n) (x ∷ xs) = omega (arith, length-drop n xs)

  drop-nil : (n : ℕ) → drop {A = A} n [] ≡ []
  drop-nil zero = refl
  drop-nil (suc n) = refl

  pub drop-drop : (m n : ℕ) (xs : List A) → drop m (drop n xs) ≡ drop (n + m) xs
  drop-drop m zero xs = ap (λ k. drop k xs) (omega arith)
  drop-drop m (suc n) [] = drop-nil m ∙ sym (drop-nil (suc n + m))
  drop-drop m (suc n) (x ∷ xs) =
      rw (drop-drop m n xs) (ap (λ k. drop k (x ∷ xs)) {x = suc (n + m)} (omega arith))

  pub drop-append-le :
      (n : ℕ) (xs ys : List A) → n ≤ length xs → drop n (xs ++ ys) ≡ drop n xs ++ ys
  drop-append-le zero xs ys h = refl
  drop-append-le (suc n) [] ys h = absurd (omega arith)
  drop-append-le (suc n) (x ∷ xs) ys h = drop-append-le n xs ys (omega arith)

  pub drop-append-ge :
      (n : ℕ) (xs ys : List A) → length xs ≤ n → drop n (xs ++ ys) ≡ drop (n - length xs) ys
  drop-append-ge n [] ys h = ap (λ k. drop k ys) (omega arith)
  drop-append-ge zero (x ∷ xs) ys h = absurd (omega arith)
  drop-append-ge (suc n) (x ∷ xs) ys h =
      rw (drop-append-ge n xs ys (omega arith)) (ap (λ k. drop k ys) (omega arith))

  pub take-ge : (n : ℕ) (xs : List A) → length xs ≤ n → take n xs ≡ xs
  take-ge zero [] h = refl
  take-ge zero (x ∷ xs) h = absurd (omega arith)
  take-ge (suc n) [] h = refl
  take-ge (suc n) (x ∷ xs) h = ap (◌∷◌ x) (take-ge n xs (omega arith))

  pub drop-ge : (n : ℕ) (xs : List A) → length xs ≤ n → drop n xs ≡ []
  drop-ge zero [] h = refl
  drop-ge zero (x ∷ xs) h = absurd (omega arith)
  drop-ge (suc n) [] h = refl
  drop-ge (suc n) (x ∷ xs) h = drop-ge n xs (omega arith)

  pub sum_by-append : (f : A → ℕ) (xs ys : List A) → sum_by f (xs ++ ys) ≡ sum_by f xs + sum_by f ys
  sum_by-append f [] ys = omega arith
  sum_by-append f (x ∷ xs) ys = omega (arith, sum_by-append f xs ys)

abbrev pub succ_idx : Option ℕ → Option ℕ
succ_idx none = none
succ_idx (some i) = some (suc i)

module _ {ℓ} {A : Type ℓ} where
  abbrev pub get_elem? : List A → ℕ → Option A
  get_elem? [] i = none
  get_elem? (x ∷ xs) zero = some x
  get_elem? (x ∷ xs) (suc i) = get_elem? xs i

  abbrev pub erase_idx : List A → ℕ → List A
  erase_idx [] i = []
  erase_idx (x ∷ xs) zero = xs
  erase_idx (x ∷ xs) (suc i) = x ∷ erase_idx xs i

  -- `Iterator::position`
  abbrev pub find_idx? : (A → Bool) → List A → Option ℕ
  find_idx? p [] = none
  find_idx? p (x ∷ xs) = let rest = succ_idx (find_idx? p xs) in if p x then some 0 else rest

  pub sum_by-erase_idx :
      (f : A → ℕ) (xs : List A) (i : ℕ) {x : A}
      → get_elem? xs i ≡ some x
      → sum_by f xs ≡ f x + sum_by f (erase_idx xs i)
  sum_by-erase_idx f [] i h = cc
  sum_by-erase_idx f (y ∷ ys) zero h = ground arith
  sum_by-erase_idx f (y ∷ ys) (suc i) h = omega (arith, sum_by-erase_idx f ys i h)

  pub length-erase_idx :
      (xs : List A) (i : ℕ) {x : A}
      → get_elem? xs i ≡ some x
      → length xs ≡ suc (length (erase_idx xs i))
  length-erase_idx [] i h = cc
  length-erase_idx (y ∷ ys) zero h = refl
  length-erase_idx (y ∷ ys) (suc i) h = omega (arith, length-erase_idx ys i h)

  pub get_elem?-find_idx? :
      (p : A → Bool) (xs : List A) {i : ℕ}
      → find_idx? p xs ≡ some i
      → (x : A) × (get_elem? xs i ≡ some x) × (p x ≡ true)
  get_elem?-find_idx? p [] h = cc
  get_elem?-find_idx? p (y ∷ ys) {i} h = elim (Bool-cases (p y)) [
    | inl here ↦ (y, ground arith, here)
    | inr other ↦ elim (Option-cases (find_idx? p ys)) [
      | inl absent ↦ ground arith
      | inr (j, found) ↦
          (let (x, e, holds) = get_elem?-find_idx? p ys found in
            (x, subst (λ k. get_elem? (y ∷ ys) k ≡ some x) {x = suc j} (ground arith) e, holds))
    ]
  ]

  pub sum_by-find_idx? :
      (p : A → Bool) (f : A → ℕ) (xs : List A)
      → find_idx? p xs ≡ none
      → sum_by (λ x. if p x then f x else 0) xs ≡ 0
  sum_by-find_idx? p f [] h = refl
  sum_by-find_idx? p f (y ∷ ys) h = elim (Bool-cases (p y)) [
    | inl here ↦ ground arith
    | inr other ↦ elim (Option-cases (find_idx? p ys)) [
      | inl absent ↦ rw other (omega (arith, sum_by-find_idx? p f ys absent))
      | inr (j, found) ↦ ground arith
    ]
  ]

  pub sum_by-le : (f g : A → ℕ) (xs : List A) → ((x : A) → f x ≤ g x) → sum_by f xs ≤ sum_by g xs
  sum_by-le f g [] h = omega arith
  sum_by-le f g (x ∷ xs) h = omega (arith, h x, sum_by-le f g xs h)

  pub sum_by-one : (xs : List A) → sum_by (λ _. 1) xs ≡ length xs
  sum_by-one [] = refl
  sum_by-one (x ∷ xs) = omega (arith, sum_by-one xs)

module _ {ℓ} {A : Type ℓ} where
  take-nil : (n : ℕ) → take {A = A} n [] ≡ []
  take-nil zero = refl
  take-nil (suc n) = refl

  pub take-append-take-drop :
      (k j : ℕ) (xs : List A) → take k xs ++ take j (drop k xs) ≡ take (k + j) xs
  take-append-take-drop zero j xs = ap (λ n. take n xs) (omega arith)
  take-append-take-drop (suc k) j [] = take-nil j ∙ sym (take-nil (suc k + j))
  take-append-take-drop (suc k) j (x ∷ xs) =
      ap (◌∷◌ x) (take-append-take-drop k j xs)
      ∙ ap (λ n. take n (x ∷ xs)) {x = suc (k + j)} {y = suc k + j} (omega arith)
