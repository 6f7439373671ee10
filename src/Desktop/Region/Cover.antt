-- ===== src/Desktop/Region/Cover.antt =====
-- src/desktop/observation.rs: no pixel of a region is lost when regions are joined.
use master_control_program.Base.{ℕ, ◌<◌, arith, ◌%◌, ◌≡◌, true, ◌+◌, ◌&&◌}
use master_control_program.Base.Int.{ℤ, pos, ◌+ℤ◌, min_ℤ, max_ℤ, gap, ◌≤ℤ◌, ◌<ℤ◌, +ℤ_lem, eq_ℤ}
use master_control_program.Desktop.Region.{
  Rect, right, bottom, u32_limit, union, joins_below, extended,
}

-- A point of the screen in a rectangle.
pub record Contains (r : Rect) (x y : ℤ) : Type 0 where
  pub left : r.x ≤ℤ x
  pub top : r.y ≤ℤ y
  pub width : x <ℤ right r
  pub height : y <ℤ bottom r

-- A rectangle within another.
pub record IsInside (bounds r : Rect) : Type 0 where
  pub left : bounds.x ≤ℤ r.x
  pub top : bounds.y ≤ℤ r.y
  pub width : right r ≤ℤ right bounds
  pub height : bottom r ≤ℤ bottom bounds

-- Rectangles whose width and height are words.
pub record IsSized (bounds : Rect) : Type 0 where
  pub width : bounds.width < u32_limit
  pub height : bounds.height < u32_limit

pub min_ℤ-le : (a b : ℤ) → (min_ℤ a b ≤ℤ a) × (min_ℤ a b ≤ℤ b)
min_ℤ-le a b = ground arith

pub le-min_ℤ : (c a b : ℤ) → c ≤ℤ a → c ≤ℤ b → c ≤ℤ min_ℤ a b
le-min_ℤ c a b h k = ground arith

pub le-max_ℤ : (a b : ℤ) → (a ≤ℤ max_ℤ a b) × (b ≤ℤ max_ℤ a b)
le-max_ℤ a b = ground arith

pub max_ℤ-le : (c a b : ℤ) → a ≤ℤ c → b ≤ℤ c → max_ℤ a b ≤ℤ c
max_ℤ-le c a b h k = ground arith

-- Cutting the length of a span to 32 bits loses nothing of a span that is no longer.
pub span-end :
    (x e : ℤ)
    → x ≤ℤ e
    → gap e x < u32_limit
    → (x +ℤ pos (gap e x % u32_limit) ≤ℤ e) × (e ≤ℤ x +ℤ pos (gap e x % u32_limit))
span-end x e h k = (
  omega (arith, +ℤ_lem x (pos (gap e x % u32_limit))),
  omega (arith, +ℤ_lem x (pos (gap e x % u32_limit))),
)

-- One axis of a union within the bounds from `low` to `high`, `w` apart.
axis :
    (low high x y e f : ℤ) (w : ℕ)
    → w < u32_limit
    → high ≤ℤ low +ℤ pos w
    → low ≤ℤ x
    → low ≤ℤ y
    → x ≤ℤ e
    → e ≤ℤ high
    → f ≤ℤ high
    → let lo = min_ℤ x y in
      let hi = max_ℤ e f in
      (lo +ℤ pos (gap hi lo % u32_limit) ≤ℤ hi) × (hi ≤ℤ lo +ℤ pos (gap hi lo % u32_limit))
axis low high x y e f w small ends lx ly xe eh fh =
    span-end (min_ℤ x y) (max_ℤ e f) (omega (arith, (min_ℤ-le x y).0, (le-max_ℤ e f).0, xe)) (
      omega
        (arith, le-min_ℤ low x y lx ly, max_ℤ-le high e f eh fh, +ℤ_lem low (pos w), small, ends))

pub start-le : (r : Rect) → (r.x ≤ℤ right r) × (r.y ≤ℤ bottom r)
start-le r = (omega (arith, +ℤ_lem r.x (pos r.width)), omega (arith, +ℤ_lem r.y (pos r.height)))

right-union :
    (bounds a b : Rect)
    → IsSized bounds
    → IsInside bounds a
    → IsInside bounds b
    → let r = max_ℤ (right a) (right b) in (right (union a b) ≤ℤ r) × (r ≤ℤ right (union a b))
unfolding union
right-union bounds a b s i j =
    axis bounds.x (right bounds) a.x b.x (right a) (right b) bounds.width s.width (omega arith)
      i.left j.left (start-le a).0 i.width j.width

bottom-union :
    (bounds a b : Rect)
    → IsSized bounds
    → IsInside bounds a
    → IsInside bounds b
    → let r = max_ℤ (bottom a) (bottom b) in (bottom (union a b) ≤ℤ r) × (r ≤ℤ bottom (union a b))
unfolding union
bottom-union bounds a b s i j =
    axis bounds.y (bottom bounds) a.y b.y (bottom a) (bottom b) bounds.height s.height (omega arith)
      i.top j.top (start-le a).1 i.height j.height

pub union-IsInside :
    (bounds a b : Rect)
    → IsSized bounds
    → IsInside bounds a
    → IsInside bounds b
    → IsInside bounds (union a b)
unfolding union
union-IsInside bounds a b s i j = record {
  left = le-min_ℤ bounds.x a.x b.x i.left j.left;
  top = le-min_ℤ bounds.y a.y b.y i.top j.top;
  width = omega (
    arith,
    (right-union bounds a b s i j).0,
    max_ℤ-le (right bounds) (right a) (right b) i.width j.width,
  );
  height = omega (
    arith,
    (bottom-union bounds a b s i j).0,
    max_ℤ-le (bottom bounds) (bottom a) (bottom b) i.height j.height,
  );
}

-- A union has both of its rectangles within it.
pub IsInside-union :
    (bounds a b : Rect)
    → IsSized bounds
    → IsInside bounds a
    → IsInside bounds b
    → IsInside (union a b) a × IsInside (union a b) b
unfolding union
IsInside-union bounds a b s i j = (
  record {
    left = (min_ℤ-le a.x b.x).0;
    top = (min_ℤ-le a.y b.y).0;
    width = omega (arith, (right-union bounds a b s i j).1, le-max_ℤ (right a) (right b));
    height = omega (arith, (bottom-union bounds a b s i j).1, le-max_ℤ (bottom a) (bottom b));
  },
  record {
    left = (min_ℤ-le a.x b.x).1;
    top = (min_ℤ-le a.y b.y).1;
    width = omega (arith, (right-union bounds a b s i j).1, le-max_ℤ (right a) (right b));
    height = omega (arith, (bottom-union bounds a b s i j).1, le-max_ℤ (bottom a) (bottom b));
  },
)

pub IsInside-refl : (r : Rect) → IsInside r r
IsInside-refl r = record {
  left = omega arith;
  top = omega arith;
  width = omega arith;
  height = omega arith;
}

pub IsInside-trans : (a b c : Rect) → IsInside a b → IsInside b c → IsInside a c
IsInside-trans a b c i j = record {
  left = omega (arith, i.left, j.left);
  top = omega (arith, i.top, j.top);
  width = omega (arith, i.width, j.width);
  height = omega (arith, i.height, j.height);
}

eq_ℤ-≤ℤ : (a b : ℤ) → eq_ℤ a b ≡ true → (a ≤ℤ b) × (b ≤ℤ a)
eq_ℤ-≤ℤ a b h = ground arith

-- The same column and width, and the first ends where the second begins.
joins_below_iff :
    (region previous : Rect)
    → joins_below region previous ≡ true
    → (eq_ℤ previous.x region.x ≡ true)
      × (previous.width ≡ region.width)
      × (eq_ℤ (bottom previous) region.y ≡ true)
joins_below_iff region previous h =
    (ground (arith, ◌&&◌), ground (arith, ◌&&◌), ground (arith, ◌&&◌))

-- The region that another continues below grows by it, and by nothing else.
extended-bottom :
    (region previous : Rect)
    → joins_below region previous ≡ true
    → (bottom (extended region previous) ≤ℤ bottom region)
      × (bottom region ≤ℤ bottom (extended region previous))
      × (bottom previous ≤ℤ bottom (extended region previous))
extended-bottom region previous h =
    let e = eq_ℤ-≤ℤ (bottom previous) region.y (joins_below_iff region previous h).2 in
    let a = +ℤ_lem previous.y (pos previous.height) in
    let b = +ℤ_lem previous.y (pos (previous.height + region.height)) in
    let c = +ℤ_lem region.y (pos region.height) in
    (omega (arith, e, a, b, c), omega (arith, e, a, b, c), omega (arith, a, b))

pub extended-IsInside :
    (bounds region previous : Rect)
    → joins_below region previous ≡ true
    → IsInside bounds region
    → IsInside bounds previous
    → IsInside bounds (extended region previous)
extended-IsInside bounds region previous h i j = record {
  left = j.left;
  top = j.top;
  width = j.width;
  height = omega (arith, (extended-bottom region previous h).0, i.height);
}

pub IsInside-extended :
    (region previous : Rect)
    → joins_below region previous ≡ true
    → IsInside (extended region previous) region × IsInside (extended region previous) previous
IsInside-extended region previous h =
    let x = eq_ℤ-≤ℤ previous.x region.x (joins_below_iff region previous h).0 in
    let w = (joins_below_iff region previous h).1 in
    let y = eq_ℤ-≤ℤ (bottom previous) region.y (joins_below_iff region previous h).2 in
    let e = extended-bottom region previous h in
    (
      record {
        left = omega (arith, x);
        top = omega (arith, y, start-le previous);
        width = omega (
          arith,
          x,
          w,
          +ℤ_lem region.x (pos region.width),
          +ℤ_lem previous.x (pos previous.width),
        );
        height = e.1;
      },
      record { left = omega arith; top = omega arith; width = omega arith; height = e.2 },
    )
