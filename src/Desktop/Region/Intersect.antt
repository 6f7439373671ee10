-- ===== src/Desktop/Region/Intersect.antt =====
-- src/win32/display.rs: `Rect::intersect`.
use mathlib.Core.Path.{subst}
use mathlib.Core.Option.{some-injective}
use master_control_program.Base.{
  ℕ, ◌%◌, ◌<◌, ◌≡◌, ◌↔◌, inl, inr, sym, not, ◌&&◌, some, arith, Bool-cases,
}
use master_control_program.Base.Int.{ℤ, pos, ◌+ℤ◌, ◌≤ℤ◌, ◌<ℤ◌, le_ℤ, min_ℤ, max_ℤ, gap, +ℤ_lem}
use master_control_program.Desktop.Region.{Rect, right, bottom, intersect, u32_limit, span}
use master_control_program.Desktop.Region.Cover.{
  Contains, IsSized, span-end, min_ℤ-le, le-max_ℤ, max_ℤ-le,
}

-- One axis: the end of the common span.
common-end :
    (x y e f : ℤ) (w : ℕ)
    → e ≤ℤ x +ℤ pos w
    → w < u32_limit
    → let lo = max_ℤ x y in
      let hi = min_ℤ e f in
      lo <ℤ hi
      → (lo +ℤ pos (gap hi lo % u32_limit) ≤ℤ hi) × (hi ≤ℤ lo +ℤ pos (gap hi lo % u32_limit))
common-end x y e f w h s k =
    span-end (max_ℤ x y) (min_ℤ e f) (omega (arith, k))
      (omega (arith, (le-max_ℤ x y).0, (min_ℤ-le e f).0, h, s, +ℤ_lem x (pos w)))

abbrev spanned : ℤ → ℤ → ℤ → ℤ → Rect
spanned x y r e = record { x = x; y = y; width = gap r x % u32_limit; height = gap e y % u32_limit }

span-some : (x y r e : ℤ) → x <ℤ r → y <ℤ e → span x y r e ≡ some (spanned x y r e)
unfolding span
span-some x y r e h k = ground (arith, ◌&&◌, not)

some-span :
    (x y r e : ℤ) {c : Rect} → span x y r e ≡ some c → (x <ℤ r) × (y <ℤ e) × (spanned x y r e ≡ c)
unfolding span
some-span x y r e {c} h = elim (Bool-cases (not (le_ℤ r x) && not (le_ℤ e y))) [
  | inl meets ↦ (
    ground (arith, ◌&&◌, not),
    ground (arith, ◌&&◌, not),
    some-injective _ _ (rw (meets, span) at h),
  )
  | inr apart ↦ absurd (ground arith)
]

-- The end of the common span of two rectangles.
common_ends :
    (a b : Rect) (x y : ℤ)
    → IsSized a
    → let r = min_ℤ (right a) (right b) in
      let e = min_ℤ (bottom a) (bottom b) in
      let s = spanned (max_ℤ a.x b.x) (max_ℤ a.y b.y) r e in
      s.x <ℤ r → s.y <ℤ e → (right s ≤ℤ r) × (r ≤ℤ right s) × (bottom s ≤ℤ e) × (e ≤ℤ bottom s)
common_ends a b x y s h k =
    let u = common-end a.x b.x (right a) (right b) a.width (omega arith) s.width h in
    let v = common-end a.y b.y (bottom a) (bottom b) a.height (omega arith) s.height k in
    (u.0, u.1, v.0, v.1)

lt-min_ℤ : (c a b : ℤ) → c <ℤ a → c <ℤ b → c <ℤ min_ℤ a b
lt-min_ℤ c a b h k = ground arith

Contains-spanned :
    (a b : Rect) (x y : ℤ)
    → IsSized a
    → Contains a x y
    → Contains b x y
    → (c : Rect) × (intersect a b ≡ some c) × Contains c x y
Contains-spanned a b x y s p q =
    let u = max_ℤ a.x b.x in
    let v = max_ℤ a.y b.y in
    let r = min_ℤ (right a) (right b) in
    let e = min_ℤ (bottom a) (bottom b) in
    let left = max_ℤ-le x a.x b.x p.left q.left in
    let top = max_ℤ-le y a.y b.y p.top q.top in
    let w = lt-min_ℤ x (right a) (right b) p.width q.width in
    let h = lt-min_ℤ y (bottom a) (bottom b) p.height q.height in
    let i : u <ℤ r = omega (arith, left, w) in
    let j : v <ℤ e = omega (arith, top, h) in
    let k = common_ends a b x y s i j in
    (
      spanned u v r e,
      span-some u v r e i j,
      record { left = left; top = top; width = omega (arith, w, k); height = omega (arith, h, k) },
    )

spanned-Contains :
    (a b : Rect) (x y : ℤ) {c : Rect}
    → IsSized a
    → intersect a b ≡ some c
    → Contains c x y
    → Contains a x y × Contains b x y
spanned-Contains a b x y s m c =
    let u = max_ℤ a.x b.x in
    let v = max_ℤ a.y b.y in
    let r = min_ℤ (right a) (right b) in
    let e = min_ℤ (bottom a) (bottom b) in
    let (i, j, same) = some-span u v r e m in
    let d = subst (λ r. Contains r x y) (sym same) c in
    let k = common_ends a b x y s i j in
    let left = le-max_ℤ a.x b.x in
    let top = le-max_ℤ a.y b.y in
    let w = min_ℤ-le (right a) (right b) in
    let h = min_ℤ-le (bottom a) (bottom b) in
    (
      record {
        left = omega (arith, left, d.left);
        top = omega (arith, top, d.top);
        width = omega (arith, w, d.width, k);
        height = omega (arith, h, d.height, k);
      },
      record {
        left = omega (arith, left, d.left);
        top = omega (arith, top, d.top);
        width = omega (arith, w, d.width, k);
        height = omega (arith, h, d.height, k);
      },
    )

-- A point lies in two rectangles, the first of which has a width and height of 32 bits, just if
-- their intersection exists and has the point.
pub intersect_iff :
    (a b : Rect) (x y : ℤ)
    → IsSized a
    → (Contains a x y × Contains b x y) ↔ ((c : Rect) × (intersect a b ≡ some c) × Contains c x y)
intersect_iff a b x y s =
    (λ p. Contains-spanned a b x y s p.0 p.1, λ c. spanned-Contains a b x y s c.1 c.2)
