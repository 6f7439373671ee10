-- ===== src/Desktop/Region.antt =====
-- src/win32/display.rs: `Rect`; src/desktop/observation.rs: the list of changed regions.
pub mod Cover
pub mod Listed
pub mod Added
pub mod Intersect
use master_control_program.Base.{
  ℕ, ◌+◌, ◌-◌, ◌*◌, ◌%◌, ◌^◌, Bool, true, false, ◌&&◌, Option, none, some, List, [], ◌∷◌, ◌++◌,
  length, leb, ◌==◌, if◌then◌else◌, Result, ensure, not, ◌||◌, ◌>>◌, ltb,
}
use master_control_program.Base.Int.{ℤ, pos, ◌+ℤ◌, eq_ℤ, min_ℤ, max_ℤ, gap, le_ℤ, negsuc}

-- `x` and `y` are signed and `width` and `height` unsigned words of 32 bits.
pub record Rect : Type 0 where
  pub x : ℤ
  pub y : ℤ
  pub width : ℕ
  pub height : ℕ

abbrev pub right : Rect → ℤ
right r = r.x +ℤ pos r.width

abbrev pub bottom : Rect → ℤ
bottom r = r.y +ℤ pos r.height

abbrev pub max_regions : ℕ
max_regions = 256

abbrev pub u32_limit : ℕ
u32_limit = 2 ^ 32

-- The widths are differences of 64-bit numbers, cut to 32 bits.
unfoldable pub union : Rect → Rect → Rect
union l r = record {
  x = min_ℤ l.x r.x;
  y = min_ℤ l.y r.y;
  width = gap (max_ℤ (right l) (right r)) (min_ℤ l.x r.x) % u32_limit;
  height = gap (max_ℤ (bottom l) (bottom r)) (min_ℤ l.y r.y) % u32_limit;
}

abbrev pub joins_below : Rect → Rect → Bool
joins_below region previous =
    eq_ℤ previous.x region.x && (previous.width == region.width && eq_ℤ (bottom previous) region.y)

abbrev pub extended : Rect → Rect → Rect
extended region previous = record previous { height = previous.height + region.height }

-- `regions.iter_mut().rev().find(..)`: the last region that the new one continues grows.
unfoldable pub extend_last : Rect → List Rect → Option (List Rect)
extend_last region [] = none
extend_last region (previous ∷ regions) = elim (extend_last region regions) [
  | some rest ↦ some (previous ∷ rest)
  | none ↦ (if joins_below region previous then some (extended region previous ∷ regions) else none)
]

-- `.fold(region, union)`
unfoldable pub envelope : Rect → List Rect → Rect
envelope region [] = region
envelope region (r ∷ regions) = envelope (union region r) regions

-- `regions[0] = union(regions[0], region)`; there is one region once they are coalesced.
abbrev pub widen : Rect → List Rect → List Rect
widen region [] = []
widen region (r ∷ regions) = union r region ∷ regions

unfoldable pub add_region : List Rect × Bool → Rect → List Rect × Bool
add_region (regions, true) region = (widen region regions, true)
add_region (regions, false) region = elim (extend_last region regions) [
  | some extended ↦ (extended, false)
  | none ↦
      (if leb max_regions (length regions)
        then (envelope region regions ∷ [], true)
        else (regions ++ (region ∷ []), false))
]

abbrev pub i32_max : ℕ
i32_max = 2 ^ 31 - 1

-- `negsuc i32_max` is the least number of 32 bits.
abbrev pub is_i32 : ℤ → Bool
is_i32 z = le_ℤ (negsuc i32_max) z && le_ℤ z (pos i32_max)

pub data RectError : Type 0 where
  no_area : RectError
  coordinates : RectError

unfoldable pub validate_rect : Rect → Result RectError (Unit {0})
validate_rect r =
    ensure (not (r.width == 0 || r.height == 0)) RectError.no_area
    >> ensure
        (not (
          ltb i32_max r.width
          || (ltb i32_max r.height
              || (not (le_ℤ (right r) (pos i32_max)) || not (le_ℤ (bottom r) (pos i32_max))))))
        RectError.coordinates

-- The rectangle from `x` and `y` to `r` and `e`, if it has points.
unfoldable pub span : ℤ → ℤ → ℤ → ℤ → Option Rect
span x y r e =
    if not (le_ℤ r x) && not (le_ℤ e y)
    then some record { x = x; y = y; width = gap r x % u32_limit; height = gap e y % u32_limit }
    else none

abbrev pub intersect : Rect → Rect → Option Rect
intersect a b =
    span (max_ℤ a.x b.x) (max_ℤ a.y b.y) (min_ℤ (right a) (right b)) (min_ℤ (bottom a) (bottom b))
