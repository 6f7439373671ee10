-- ===== src/Desktop/Compare/Tiles.antt =====
-- src/desktop/observation.rs: what `compare` knows after each tile of a row of tiles.
use mathlib.Core.Path.{subst}
use master_control_program.Base.{
  ℕ, ◌-◌, ◌≤◌, ◌≡◌, refl, arith, ok, List, ◌+◌, ◌<◌, none, inl, inr, min, ltb, ◌==◌, Bool-cases,
  Option-cases, Result, ◌*◌, true, false, Bool, suc, zero,
}
use master_control_program.Desktop.Region.{Rect}
use master_control_program.Desktop.Compare.{
  Comparison, differs, begin_run, with_region, end_tile, scan_at, scan_tiles, tile, CompareError,
  flush,
}
use master_control_program.Desktop.Region.Cover.{IsSized}
use master_control_program.Desktop.Compare.Count.{
  block, scan_tile-block, block-add_width, block-positive,
}
use master_control_program.Desktop.Compare.Runs.{
  Scanned, IsOnScreen, run_region, region_of-ok, flush-Scanned, Scanned-blank, Scanned-changed,
  Scanned-counted,
}

module _ (previous current : List ℕ) (bounds : Rect) (tile_y height : ℕ) where
  -- What a tile that ends before column `stop` leaves; no run goes on after the last of a row.
  pub record Tile (first : List Rect) (stop pixels : ℕ) (last : Bool)
      (r : Result CompareError Comparison) : Type 0 where
    pub after : Comparison
    pub returned : r ≡ ok after
    pub scanned : Scanned previous current bounds tile_y height first stop after
    pub counted : after.changed_pixels ≡ pixels
    pub finished : last ≡ true → after.run_start ≡ none

  flush-Tile :
      (first : List Rect) (stop : ℕ) (s : Comparison)
      → IsOnScreen bounds
      → IsSized bounds
      → stop ≤ bounds.width
      → tile_y + height ≤ bounds.height
      → Scanned previous current bounds tile_y height first stop s
      → (last : Bool) → Tile first stop s.changed_pixels last (flush bounds tile_y height stop s)
  unfolding flush
  flush-Tile first stop s o z w h i last = elim (Option-cases s.run_start) [
    | inl idle ↦
        rw (idle, flush)
          record { after = s; returned = refl; scanned = i; counted = refl; finished = λ _. idle }
    | inr (start, e) ↦
        let below : start < stop = rw e at i.run in
        rw (e, region_of-ok bounds start stop tile_y height o (omega arith) (omega arith), flush)
          record {
            after = with_region bounds s (run_region bounds start stop tile_y height);
            returned = refl;
            scanned =
                flush-Scanned previous current bounds tile_y height first start stop s z w h e i;
            counted = refl;
            finished = λ _. refl;
          }
  ]

  Tile-le :
      (first : List Rect) (stop more pixels : ℕ) (last : Bool) {r : Result CompareError Comparison}
      → stop ≤ more
      → ((x y : ℕ)
          → tile_y ≤ y
          → y < tile_y + height
          → stop ≤ x
          → x < more
          → differs previous current (y * bounds.width + x) ≡ false)
      → Tile first stop pixels last r
      → Tile first more pixels last r
  Tile-le first stop more pixels last le blank t = record {
    after = t.after;
    returned = t.returned;
    scanned =
        Scanned-blank previous current bounds tile_y height first stop more t.after le blank
          t.scanned;
    counted = t.counted;
    finished = t.finished;
  }

  -- Nothing differs in a tile whose block counts nothing.
  blank-block :
      (tile_x width x y : ℕ)
      → block previous current bounds.width tile_y height tile_x width ≡ 0
      → tile_y ≤ y
      → y < tile_y + height
      → tile_x ≤ x
      → x < tile_x + width
      → differs previous current (y * bounds.width + x) ≡ false
  blank-block tile_x width x y none_ t b l r =
      elim (Bool-cases (differs previous current (y * bounds.width + x))) [
        | inl d ↦ absurd (
            omega (
              arith,
              none_,
              block-positive previous current bounds.width tile_y height tile_x width x y t b l r d,
            ))
        | inr same ↦ same
      ]

  end_tile-changed :
      (first : List Rect) (tile_x width pixels : ℕ) (s : Comparison)
      → IsOnScreen bounds
      → IsSized bounds
      → 0 < width
      → tile_x + width ≤ bounds.width
      → tile_y + height ≤ bounds.height
      → 0 < pixels
      → Scanned previous current bounds tile_y height first tile_x s
      → Tile first (tile_x + width) pixels ((tile_x + width) == bounds.width) (
          end_tile bounds tile_y height tile_x width true
            record s { changed_pixels = pixels; run_start = begin_run true tile_x s.run_start })
  unfolding end_tile
  end_tile-changed first tile_x width pixels s o z pos_ w h some_ i =
      let q =
        Scanned-changed previous current bounds tile_y height first tile_x (tile_x + width) pixels s
          (omega arith) some_ i in
      elim (Bool-cases ((tile_x + width) == bounds.width)) [
        | inl last ↦ rw last (
            flush-Tile first (tile_x + width)
              record s { changed_pixels = pixels; run_start = begin_run true tile_x s.run_start } o
              z w h q true)
        | inr more ↦ rw more record {
          after = record s {
            changed_pixels = pixels;
            run_start = begin_run true tile_x s.run_start;
          };
          returned = refl;
          scanned = q;
          counted = refl;
          finished = λ e. cc;
        }
      ]

  pub scan_at-Tile :
      (first : List Rect) (tile_x : ℕ) (s : Comparison)
      → IsOnScreen bounds
      → IsSized bounds
      → tile_x < bounds.width
      → tile_y + height ≤ bounds.height
      → Scanned previous current bounds tile_y height first tile_x s
      → let width = min tile (bounds.width - tile_x) in
        Tile first
          (tile_x + width)
          (s.changed_pixels + block previous current bounds.width tile_y height tile_x width)
          ((tile_x + width) == bounds.width)
          (scan_at previous current bounds tile_y height tile_x s)
  unfolding scan_at end_tile
  scan_at-Tile first tile_x s o z w h i =
      let width = min tile (bounds.width - tile_x) in
      let b = block previous current bounds.width tile_y height tile_x width in
      let c =
        scan_tile-block previous current bounds tile_y tile_x width height
          (s.changed_pixels, false) in
      elim (Bool-cases (ltb 0 b)) [
        | inl changed ↦
            rw (c.0, c.1, changed)
              (end_tile-changed first tile_x width (s.changed_pixels + b) s o z (omega arith)
                (omega arith) h (ground arith) i)
        | inr same ↦
            rw (c.0, c.1, same)
              (Tile-le first tile_x (tile_x + width) (s.changed_pixels + b)
                ((tile_x + width) == bounds.width) (omega arith)
                (λ x y t b_ l r. blank-block tile_x width x y (ground arith) t b_ l r)
                (flush-Tile first tile_x record s { changed_pixels = s.changed_pixels + b } o z
                  (omega arith) h
                  (Scanned-counted previous current bounds tile_y height first tile_x
                    (s.changed_pixels + b) s (omega arith) i)
                  ((tile_x + width) == bounds.width)))
      ]

  -- What a whole row of tiles leaves: every pixel of it is counted, and those that differ are in
  -- regions.
  pub record Row (first : List Rect) (pixels : ℕ) (r : Result CompareError Comparison)
      : Type 0 where
    pub after : Comparison
    pub returned : r ≡ ok after
    pub scanned : Scanned previous current bounds tile_y height first bounds.width after
    pub counted : after.changed_pixels ≡ pixels
    pub finished : after.run_start ≡ none

  scan_tiles_past :
      (fuel tile_x : ℕ) (s : Comparison)
      → ltb tile_x bounds.width ≡ false
      → scan_tiles previous current bounds fuel tile_y height tile_x s ≡ ok s
  unfolding scan_tiles
  scan_tiles_past zero tile_x s h = refl
  scan_tiles_past (suc fuel) tile_x s h = rw (h, scan_tiles) refl

  scan_tiles_next :
      (fuel tile_x : ℕ) (s q : Comparison)
      → ltb tile_x bounds.width ≡ true
      → scan_at previous current bounds tile_y height tile_x s ≡ ok q
      → scan_tiles previous current bounds (suc fuel) tile_y height tile_x s
        ≡ scan_tiles previous current bounds fuel tile_y height (tile_x + tile) q
  unfolding scan_tiles
  scan_tiles_next fuel tile_x s q h r = rw (h, r, scan_tiles) refl

  pub scan_tiles-Row :
      (first : List Rect) (fuel tile_x : ℕ) (s : Comparison)
      → IsOnScreen bounds
      → IsSized bounds
      → tile_y + height ≤ bounds.height
      → tile_x < bounds.width
      → bounds.width ≤ tile_x + fuel
      → Scanned previous current bounds tile_y height first tile_x s
      → Row first
          (s.changed_pixels
            + block previous current bounds.width tile_y height tile_x (bounds.width - tile_x))
          (scan_tiles previous current bounds fuel tile_y height tile_x s)
  scan_tiles-Row first zero tile_x s o z h w f i = absurd (omega (arith, w, f))
  scan_tiles-Row first (suc fuel) tile_x s o z h w f i =
      let width = min tile (bounds.width - tile_x) in
      let rest = bounds.width - (tile_x + tile) in
      let t = scan_at-Tile first tile_x s o z w h i in
      let step = scan_tiles_next fuel tile_x s t.after (ground arith) t.returned in
      elim (Bool-cases (ltb (tile_x + tile) bounds.width)) [
        | inl next ↦
            let e : tile_x + width ≡ tile_x + tile = ground arith in
            let r =
              scan_tiles-Row first fuel (tile_x + tile) t.after o z h (ground arith) (omega arith)
                (rw e at t.scanned) in
            let k : tile + rest ≡ bounds.width - tile_x = ground arith in
            let l : width ≡ tile = ground arith in
            let b =
              rw k at
                (block-add_width previous current bounds.width tile_y height tile_x tile rest) in
            let d = rw l at t.counted in
            rw step (
              subst
                (λ n.
                  Row first n
                    (scan_tiles previous current bounds fuel tile_y height (tile_x + tile) t.after))
                (omega (arith, b, d)) r)
        | inr last ↦
            let e : tile_x + width ≡ bounds.width = ground arith in
            let l : width ≡ bounds.width - tile_x = ground arith in
            rw (step, scan_tiles_past fuel (tile_x + tile) t.after last)
              record {
                after = t.after;
                returned = refl;
                scanned = rw e at t.scanned;
                counted = rw l at t.counted;
                finished = t.finished (ground arith);
              }
      ]
