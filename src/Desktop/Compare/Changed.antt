-- ===== src/Desktop/Compare/Changed.antt =====
-- src/desktop/observation.rs: what `compare` knows after each row of tiles, and at its end.
use master_control_program.Base.{
  ℕ, zero, suc, ◌+◌, ◌-◌, ◌*◌, ◌≤◌, ◌<◌, ◌≡◌, inl, inr, refl, true, false, List, none, ltb, min,
  arith, Result, ok, Bool-cases, length, ◌||◌, ensure, ◌==◌, ◌&&◌, [],
}
use master_control_program.Desktop.Region.{Rect}
use master_control_program.Desktop.Region.Cover.{IsSized}
use master_control_program.Desktop.Region.Listed.{Within, IsListed}
use master_control_program.Desktop.Compare.{
  Comparison, CompareError, Look, check_operation, differs, scan_tiles, scan_rows, compare_frames,
  tile, no_changes, validate_allocation,
}
use master_control_program.Desktop.Compare.Count.{block, block-add_height}
use master_control_program.Desktop.Compare.Runs.{Scanned, cell, IsOnScreen}
use master_control_program.Desktop.Compare.Tiles.{Row, scan_tiles-Row}
use master_control_program.Base.Int.{+ℤ_lem, pos}

IsOnScreen-IsSized : (bounds : Rect) → IsOnScreen bounds → IsSized bounds
IsOnScreen-IsSized bounds o = record {
  width = omega (arith, o.left, o.right, +ℤ_lem bounds.x (pos bounds.width));
  height = omega (arith, o.top, o.bottom, +ℤ_lem bounds.y (pos bounds.height));
}

matched :
    (a b expected : ℕ)
    → a ≡ expected
    → b ≡ expected
    → ensure ((a == expected) && (b == expected)) CompareError.buffer_length ≡ ok tt
matched a b expected p c = ground (arith, ◌&&◌)

module _ (previous current : List ℕ) (bounds : Rect) where
  -- The rows before `limit` are counted, their pixels that differ are in regions, and there is no
  -- region if there are none.
  pub record Compared (limit : ℕ) (s : Comparison) : Type 0 where
    pub counted : s.changed_pixels ≡ block previous current bounds.width 0 limit 0 bounds.width
    pub listed : IsListed bounds s.regions s.coalesced
    pub seen :
        (x y : ℕ)
        → x < bounds.width
        → y < limit
        → differs previous current (y * bounds.width + x) ≡ true
        → Within (cell bounds x y) s.regions
    pub idle : s.changed_pixels ≡ 0 → s.regions ≡ []

  started :
      (tile_y height limit : ℕ) (s : Comparison)
      → Compared limit s
      → Scanned previous current bounds tile_y height s.regions 0 record s { run_start = none }
  started tile_y height limit s c = record {
    listed = c.listed;
    run = tt;
    seen = λ x y t b l d. absurd (omega (arith, l));
    kept = λ r w. w;
    idle = λ n. (c.idle n, refl);
  }

  Row-Compared :
      (tile_y height : ℕ) (s : Comparison) {r : Result CompareError Comparison}
      → Compared tile_y s
      → (row : Row previous current bounds tile_y height s.regions
          (s.changed_pixels + block previous current bounds.width tile_y height 0 bounds.width)
          r)
      → Compared (tile_y + height) row.after
  Row-Compared tile_y height s c row = record {
    counted =
        let e : 0 + tile_y ≡ tile_y = omega arith in
        let b =
          rw e at (block-add_height previous current bounds.width 0 tile_y height 0 bounds.width) in
        omega (arith, row.counted, c.counted, b);
    listed = row.scanned.listed;
    seen = λ x y l b d. elim (Bool-cases (ltb y tile_y)) [
      | inl old ↦ row.scanned.kept (cell bounds x y) (c.seen x y l (ground arith) d)
      | inr new ↦ elim (row.scanned.seen x y (ground arith) b l d) [
        | inl w ↦ w
        | inr p ↦ absurd (rw row.finished at p)
      ]
    ];
    idle = λ n. (row.scanned.idle n).0;
  }

  module _ (looks : ℕ → Look) (onscreen : IsOnScreen bounds)
      (passes : (tile_y : ℕ) → check_operation (looks tile_y) ≡ ok tt) where
    -- A frame that was compared.
    pub record Rows (r : Result CompareError Comparison) : Type 0 where
      pub after : Comparison
      pub returned : r ≡ ok after
      pub compared : Compared bounds.height after

    scan_rows_past :
        (fuel tile_y : ℕ) (s : Comparison)
        → ltb tile_y bounds.height ≡ false
        → scan_rows previous current bounds looks fuel tile_y s ≡ ok s
    unfolding scan_rows
    scan_rows_past zero tile_y s h = refl
    scan_rows_past (suc fuel) tile_y s h = rw (h, scan_rows) refl

    scan_rows_next :
        (fuel tile_y : ℕ) (s q : Comparison)
        → ltb tile_y bounds.height ≡ true
        → scan_tiles previous current bounds bounds.width tile_y
            (min tile (bounds.height - tile_y))
            0
            record s { run_start = none }
          ≡ ok q
        → scan_rows previous current bounds looks (suc fuel) tile_y s
          ≡ scan_rows previous current bounds looks fuel (tile_y + tile) q
    unfolding scan_rows
    scan_rows_next fuel tile_y s q h r = rw (h, passes tile_y, r, scan_rows) refl

    scan_rows-Rows :
        (fuel tile_y : ℕ) (s : Comparison)
        → 0 < bounds.width
        → tile_y < bounds.height
        → bounds.height ≤ tile_y + fuel
        → Compared tile_y s
        → Rows (scan_rows previous current bounds looks fuel tile_y s)
    scan_rows-Rows zero tile_y s p w f c = absurd (omega (arith, w, f))
    scan_rows-Rows (suc fuel) tile_y s p w f c =
        let height = min tile (bounds.height - tile_y) in
        let whole : bounds.width - 0 ≡ bounds.width = omega arith in
        let row = rw whole at (
          scan_tiles-Row previous current bounds tile_y height s.regions bounds.width 0
            record s { run_start = none } onscreen (IsOnScreen-IsSized bounds onscreen)
            (omega arith) p (omega arith) (started tile_y height tile_y s c)) in
        let d = Row-Compared tile_y height s c row in
        let step = scan_rows_next fuel tile_y s row.after (ground arith) row.returned in
        elim (Bool-cases (ltb (tile_y + tile) bounds.height)) [
          | inl next ↦
              let e : tile_y + height ≡ tile_y + tile = ground arith in
              rw step (
                scan_rows-Rows fuel (tile_y + tile) row.after p (ground arith) (omega arith)
                  (rw e at d))
          | inr last ↦
              let e : tile_y + height ≡ bounds.height = ground arith in
              rw (step, scan_rows_past fuel (tile_y + tile) row.after last)
                record { after = row.after; returned = refl; compared = rw e at d }
        ]

    no_changes-Compared : Compared 0 no_changes
    unfolding block
    no_changes-Compared = record {
      counted = refl;
      listed = record { inside = tt; few = omega arith; one = λ e. cc };
      seen = λ x y l b d. absurd (omega (arith, b));
      idle = λ n. refl;
    }

    pub compare_frames-Rows :
        (expected : ℕ)
        → validate_allocation bounds.width bounds.height ≡ ok expected
        → length previous ≡ expected
        → length current ≡ expected
        → Rows (compare_frames previous current bounds looks)
    unfolding compare_frames validate_allocation
    compare_frames-Rows expected v p c =
        let w : 0 < bounds.width = ground (arith, ◌||◌) in
        let h : 0 < bounds.height = ground (arith, ◌||◌) in
        rw (v, matched (length previous) (length current) expected p c, compare_frames)
          (scan_rows-Rows bounds.height 0 no_changes w h (omega arith) no_changes-Compared)
