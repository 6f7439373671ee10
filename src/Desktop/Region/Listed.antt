-- ===== src/Desktop/Region/Listed.antt =====
-- src/desktop/observation.rs: `add_region`, and what the list of regions covers.
use mathlib.Core.Path.{subst}
use mathlib.Core.Option.{some-injective}
use master_control_program.Base.{
  suc, ◌≤◌, ◌≡◌, ◌⊎◌, inl, inr, refl, Bool, true, some, List, [], ◌∷◌, length, Option-cases,
  Bool-cases, ap,
}
use master_control_program.Base.Int.{ℤ}
use master_control_program.Desktop.Region.{
  Rect, union, joins_below, extended, extend_last, envelope, max_regions,
}
use master_control_program.Desktop.Region.Cover.{
  Contains, IsInside, IsSized, union-IsInside, IsInside-union, IsInside-refl, IsInside-trans,
  extended-IsInside, IsInside-extended,
}

abbrev pub AllInside : Rect → List Rect → Type 0
AllInside bounds [] = Unit
AllInside bounds (r ∷ rs) = IsInside bounds r × AllInside bounds rs

-- Some region of the list has `c` within it.
abbrev pub Within : Rect → List Rect → Type 0
Within c [] = ⊥
Within c (r ∷ rs) = IsInside r c ⊎ Within c rs

-- Some region of the list has the point.
abbrev pub Covered : List Rect → ℤ → ℤ → Type 0
Covered [] x y = ⊥
Covered (r ∷ rs) x y = Contains r x y ⊎ Covered rs x y

-- The list lies within the bounds, has at most 256 regions, and one if they were coalesced.
pub record IsListed (bounds : Rect) (regions : List Rect) (coalesced : Bool) : Type 0 where
  pub inside : AllInside bounds regions
  pub few : length regions ≤ max_regions
  pub one : coalesced ≡ true → length regions ≡ 1

-- One region of the list, that `region` continues, has grown.
pub data Extends (region : Rect) : List Rect → List Rect → Type 0 where
  here :
      (r : Rect) (rs : List Rect)
      → joins_below region r ≡ true
      → Extends region (r ∷ rs) (extended region r ∷ rs)
  there :
      (r : Rect) (rs rest : List Rect) → Extends region rs rest → Extends region (r ∷ rs) (r ∷ rest)

pub extend_last-Extends :
    (region : Rect) (rs grown : List Rect)
    → extend_last region rs ≡ some grown
    → Extends region rs grown
unfolding extend_last
extend_last-Extends region [] grown h = cc
extend_last-Extends region (r ∷ rs) grown h = elim (Option-cases (extend_last region rs)) [
  | inl last ↦ elim (Bool-cases (joins_below region r)) [
    | inl below ↦
        subst (Extends region (r ∷ rs)) (some-injective _ _ (rw (last, below) at h))
          (here r rs below)
    | inr apart ↦ cc (last, apart, h)
  ]
  | inr (rest, more) ↦
      subst (Extends region (r ∷ rs)) (some-injective _ _ (rw more at h))
        (there r rs rest (extend_last-Extends region rs rest more))
]

pub Extends-AllInside :
    (bounds region : Rect) {rs grown : List Rect}
    → IsInside bounds region
    → Extends region rs grown
    → AllInside bounds rs
    → AllInside bounds grown
Extends-AllInside bounds region i (here r rs h) a = (extended-IsInside bounds region r h i a.0, a.1)
Extends-AllInside bounds region i (there r rs rest e) a =
    (a.0, Extends-AllInside bounds region i e a.1)

pub length-Extends :
    (region : Rect) {rs grown : List Rect} → Extends region rs grown → length grown ≡ length rs
length-Extends region (here r rs h) = refl
length-Extends region (there r rs rest e) = ap suc (length-Extends region e)

pub Within-Extends :
    (region c : Rect) {rs grown : List Rect}
    → Extends region rs grown
    → Within c rs
    → Within c grown
Within-Extends region c (here r rs h) (inl i) =
    inl (IsInside-trans (extended region r) r c (IsInside-extended region r h).1 i)
Within-Extends region c (here r rs h) (inr w) = inr w
Within-Extends region c (there r rs rest e) (inl i) = inl i
Within-Extends region c (there r rs rest e) (inr w) = inr (Within-Extends region c e w)

pub Extends-Within :
    (region : Rect) {rs grown : List Rect} → Extends region rs grown → Within region grown
Extends-Within region (here r rs h) = inl (IsInside-extended region r h).0
Extends-Within region (there r rs rest e) = inr (Extends-Within region e)

-- An envelope lies within the bounds and has the region and the whole list within it.
pub envelope-IsInside :
    (bounds region : Rect) (rs : List Rect)
    → IsSized bounds
    → IsInside bounds region
    → AllInside bounds rs
    → IsInside bounds (envelope region rs)
unfolding envelope
envelope-IsInside bounds region [] s i a = i
envelope-IsInside bounds region (r ∷ rs) s i a =
    envelope-IsInside bounds (union region r) rs s (union-IsInside bounds region r s i a.0) a.1

pub IsInside-envelope :
    (bounds region : Rect) (rs : List Rect)
    → IsSized bounds
    → IsInside bounds region
    → AllInside bounds rs
    → IsInside (envelope region rs) region
unfolding envelope
IsInside-envelope bounds region [] s i a = IsInside-refl region
IsInside-envelope bounds region (r ∷ rs) s i a =
    IsInside-trans (envelope (union region r) rs) (union region r) region
      (IsInside-envelope bounds (union region r) rs s (union-IsInside bounds region r s i a.0) a.1)
      (IsInside-union bounds region r s i a.0).0

pub Within-envelope :
    (bounds region c : Rect) (rs : List Rect)
    → IsSized bounds
    → IsInside bounds region
    → AllInside bounds rs
    → Within c rs
    → IsInside (envelope region rs) c
unfolding envelope
Within-envelope bounds region c [] s i a w = elim w [ ]
Within-envelope bounds region c (r ∷ rs) s i a (inl w) =
    let j = union-IsInside bounds region r s i a.0 in
    IsInside-trans (envelope (union region r) rs) (union region r) c
      (IsInside-envelope bounds (union region r) rs s j a.1)
      (IsInside-trans (union region r) r c (IsInside-union bounds region r s i a.0).1 w)
Within-envelope bounds region c (r ∷ rs) s i a (inr w) =
    Within-envelope bounds (union region r) c rs s (union-IsInside bounds region r s i a.0) a.1 w

pub Within-inside : (r c : Rect) (rs : List Rect) → IsInside r c → Within r rs → Within c rs
Within-inside r c [] i w = elim w [ ]
Within-inside r c (q ∷ rs) i (inl j) = inl (IsInside-trans q r c j i)
Within-inside r c (q ∷ rs) i (inr w) = inr (Within-inside r c rs i w)
