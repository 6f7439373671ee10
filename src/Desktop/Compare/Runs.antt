-- ===== src/Desktop/Compare/Runs.antt =====
-- src/desktop/observation.rs: runs of changed tiles, and the regions that they become.
use master_control_program.Base.{
  ℕ, ◌-◌, ◌≤◌, ◌≡◌, refl, ◌&&◌, arith, ok, Option, List, ◌+◌, ◌<◌, some, none, ◌⊎◌, inl, inr, ltb,
  Bool-cases, ◌*◌, true, false, [],
}
use master_control_program.Base.Int.{ℤ, pos, ◌+ℤ◌, ◌≤ℤ◌, +ℤ_lem, negsuc}
use master_control_program.Desktop.Region.{Rect, right, bottom, i32_max, add_region}
use master_control_program.Desktop.Compare.{
  region_of, to_i32, Comparison, differs, begin_run, with_region,
}
use master_control_program.Desktop.Region.Cover.{IsInside, IsSized}
use master_control_program.Desktop.Region.Listed.{Within, Within-inside, IsListed}
use master_control_program.Desktop.Region.Added.{add_region-Added}

-- The screen of one pixel of the frame.
abbrev pub cell : Rect → ℕ → ℕ → Rect
cell bounds x y = record { x = bounds.x +ℤ pos x; y = bounds.y +ℤ pos y; width = 1; height = 1 }

-- A frame whose coordinates are words of 32 bits.
pub record IsOnScreen (bounds : Rect) : Type 0 where
  pub left : negsuc i32_max ≤ℤ bounds.x
  pub top : negsuc i32_max ≤ℤ bounds.y
  pub right : right bounds ≤ℤ pos i32_max
  pub bottom : bottom bounds ≤ℤ pos i32_max

to_i32-ok : (z : ℤ) → negsuc i32_max ≤ℤ z → z ≤ℤ pos i32_max → to_i32 z ≡ ok z
to_i32-ok z l h = ground (arith, ◌&&◌)

shifted :
    (low high z : ℤ) (k w : ℕ)
    → low ≤ℤ z
    → z +ℤ pos w ≤ℤ high
    → k ≤ w
    → (low ≤ℤ z +ℤ pos k) × (z +ℤ pos k ≤ℤ high)
shifted low high z k w l h s =
    (omega (arith, +ℤ_lem z (pos k)), omega (arith, +ℤ_lem z (pos k), +ℤ_lem z (pos w)))

abbrev pub run_region : Rect → ℕ → ℕ → ℕ → ℕ → Rect
run_region bounds start end tile_y height = record {
  x = bounds.x +ℤ pos start;
  y = bounds.y +ℤ pos tile_y;
  width = end - start;
  height = height;
}

-- A run of tiles becomes the region of its pixels.
pub region_of-ok :
    (bounds : Rect) (start end tile_y height : ℕ)
    → IsOnScreen bounds
    → start ≤ bounds.width
    → tile_y ≤ bounds.height
    → region_of bounds start end tile_y height ≡ ok (run_region bounds start end tile_y height)
region_of-ok bounds start end tile_y height o s t =
    let low = negsuc i32_max in
    let high = pos i32_max in
    let x = shifted low high bounds.x start bounds.width o.left o.right s in
    let y = shifted low high bounds.y tile_y bounds.height o.top o.bottom t in
    rw (to_i32-ok (bounds.x +ℤ pos start) x.0 x.1, to_i32-ok (bounds.y +ℤ pos tile_y) y.0 y.1) refl

pub run_region-IsInside :
    (bounds : Rect) (start end tile_y height : ℕ)
    → start ≤ end
    → end ≤ bounds.width
    → tile_y + height ≤ bounds.height
    → IsInside bounds (run_region bounds start end tile_y height)
run_region-IsInside bounds start end tile_y height s e h =
    let x = +ℤ_lem bounds.x (pos start) in
    let y = +ℤ_lem bounds.y (pos tile_y) in
    record {
      left = omega (arith, x);
      top = omega (arith, y);
      width = omega (
        arith,
        x,
        +ℤ_lem bounds.x (pos bounds.width),
        +ℤ_lem (bounds.x +ℤ pos start) (pos (end - start)),
      );
      height = omega (
        arith,
        y,
        +ℤ_lem bounds.y (pos bounds.height),
        +ℤ_lem (bounds.y +ℤ pos tile_y) (pos height),
      );
    }

pub IsInside-run_region :
    (bounds : Rect) (start end tile_y height x y : ℕ)
    → start ≤ x
    → x < end
    → tile_y ≤ y
    → y < tile_y + height
    → IsInside (run_region bounds start end tile_y height) (cell bounds x y)
IsInside-run_region bounds start end tile_y height x y l r t b =
    let sx = +ℤ_lem bounds.x (pos start) in
    let sy = +ℤ_lem bounds.y (pos tile_y) in
    let cx = +ℤ_lem bounds.x (pos x) in
    let cy = +ℤ_lem bounds.y (pos y) in
    record {
      left = omega (arith, sx, cx);
      top = omega (arith, sy, cy);
      width = omega (
        arith,
        sx,
        cx,
        +ℤ_lem (bounds.x +ℤ pos x) (pos 1),
        +ℤ_lem (bounds.x +ℤ pos start) (pos (end - start)),
      );
      height = omega (
        arith,
        sy,
        cy,
        +ℤ_lem (bounds.y +ℤ pos y) (pos 1),
        +ℤ_lem (bounds.y +ℤ pos tile_y) (pos height),
      );
    }

-- The run of changed tiles holds the column, and starts before it.
abbrev pub Pending : Option ℕ → ℕ → Type 0
Pending none x = ⊥
Pending (some start) x = start ≤ x

abbrev pub RunBelow : Option ℕ → ℕ → Type 0
RunBelow none stop = Unit
RunBelow (some start) stop = start < stop

pub RunBelow-le :
    (run : Option ℕ) (stop more : ℕ) → stop ≤ more → RunBelow run stop → RunBelow run more
RunBelow-le none stop more h b = tt
RunBelow-le (some start) stop more h b = omega (arith, h, b)

-- A changed tile goes on with the run or begins one.
pub RunBelow-begin_run :
    (run : Option ℕ) (tile_x more : ℕ)
    → tile_x < more
    → RunBelow run tile_x
    → RunBelow (begin_run true tile_x run) more
RunBelow-begin_run none tile_x more h b = h
RunBelow-begin_run (some start) tile_x more h b = omega (arith, h, b)

pub Pending-begin_run :
    (run : Option ℕ) (tile_x x : ℕ) → Pending run x → Pending (begin_run true tile_x run) x
Pending-begin_run none tile_x x h = elim h [ ]
Pending-begin_run (some start) tile_x x h = h

pub begin_run-Pending :
    (run : Option ℕ) (tile_x x : ℕ)
    → tile_x ≤ x
    → RunBelow run tile_x
    → Pending (begin_run true tile_x run) x
begin_run-Pending none tile_x x h b = h
begin_run-Pending (some start) tile_x x h b = omega (arith, h, b)

module _ (previous current : List ℕ) (bounds : Rect) (tile_y height : ℕ) where
  -- The columns before `stop` are scanned: a pixel there that differs is in a region or in the run,
  -- and the regions that were there first are kept. If nothing was counted there is no region.
  pub record Scanned (first : List Rect) (stop : ℕ) (s : Comparison) : Type 0 where
    pub listed : IsListed bounds s.regions s.coalesced
    pub run : RunBelow s.run_start stop
    pub seen :
        (x y : ℕ)
        → tile_y ≤ y
        → y < tile_y + height
        → x < stop
        → differs previous current (y * bounds.width + x) ≡ true
        → Within (cell bounds x y) s.regions ⊎ Pending s.run_start x
    pub kept : (c : Rect) → Within c first → Within c s.regions
    pub idle : s.changed_pixels ≡ 0 → (s.regions ≡ []) × (s.run_start ≡ none)

  -- A run that ends before column `stop` is given up for a region.
  pub flush-Scanned :
      (first : List Rect) (start stop : ℕ) (s : Comparison)
      → IsSized bounds
      → stop ≤ bounds.width
      → tile_y + height ≤ bounds.height
      → s.run_start ≡ some start
      → Scanned first stop s
      → Scanned first stop (with_region bounds s (run_region bounds start stop tile_y height))
  flush-Scanned first start stop s z w h e i =
      let below : start < stop = (rw e at i.run) in
      let r = run_region bounds start stop tile_y height in
      let a =
        add_region-Added bounds r (s.regions, s.coalesced) z
          (run_region-IsInside bounds start stop tile_y height (omega (arith, below)) w h)
          i.listed in
      record {
        listed = a.listed;
        run = tt;
        seen = λ x y t b l d. elim (i.seen x y t b l d) [
          | inl v ↦ inl (a.kept (cell bounds x y) v)
          | inr v ↦ inl (
              Within-inside r (cell bounds x y) (add_region (s.regions, s.coalesced) r).0
                (IsInside-run_region bounds start stop tile_y height x y (rw e at v) l t b) a.held)
        ];
        kept = λ c v. a.kept c (i.kept c v);
        idle = λ n. let (_, absent) = i.idle n in cc (absent, e);
      }

  -- Columns of a tile where nothing differs are scanned with no more ado.
  pub Scanned-blank :
      (first : List Rect) (stop more : ℕ) (s : Comparison)
      → stop ≤ more
      → ((x y : ℕ)
          → tile_y ≤ y
          → y < tile_y + height
          → stop ≤ x
          → x < more
          → differs previous current (y * bounds.width + x) ≡ false)
      → Scanned first stop s
      → Scanned first more s
  Scanned-blank first stop more s le blank i = record {
    listed = i.listed;
    run = RunBelow-le s.run_start stop more le i.run;
    seen = λ x y t b l d. elim (Bool-cases (ltb x stop)) [
      | inl old ↦ i.seen x y t b (ground arith) d
      | inr new ↦ let e = blank x y t b (ground arith) l in cc (d, e)
    ];
    kept = i.kept;
    idle = i.idle;
  }

  pub Scanned-changed :
      (first : List Rect) (tile_x more pixels : ℕ) (s : Comparison)
      → tile_x < more
      → 0 < pixels
      → Scanned first tile_x s
      → Scanned first more
          record s { changed_pixels = pixels; run_start = begin_run true tile_x s.run_start }
  Scanned-changed first tile_x more pixels s h some_ i = record {
    listed = i.listed;
    run = RunBelow-begin_run s.run_start tile_x more h i.run;
    seen = λ x y t b l d. elim (Bool-cases (ltb x tile_x)) [
      | inl old ↦ elim (i.seen x y t b (ground arith) d) [
        | inl v ↦ inl v
        | inr v ↦ inr (Pending-begin_run s.run_start tile_x x v)
      ]
      | inr new ↦ inr (begin_run-Pending s.run_start tile_x x (ground arith) i.run)
    ];
    kept = i.kept;
    idle = λ n. absurd (omega (arith, n, some_));
  }

  pub Scanned-counted :
      (first : List Rect) (stop pixels : ℕ) (s : Comparison)
      → s.changed_pixels ≤ pixels
      → Scanned first stop s
      → Scanned first stop record s { changed_pixels = pixels }
  Scanned-counted first stop pixels s more i = record {
    listed = i.listed;
    run = i.run;
    seen = i.seen;
    kept = i.kept;
    idle = λ n. i.idle (omega (arith, n, more));
  }
