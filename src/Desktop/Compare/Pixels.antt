-- ===== src/Desktop/Compare/Pixels.antt =====
-- src/desktop/observation.rs: `compare` against a walk of the two buffers, pixel by pixel.
use master_control_program.Base.{
  ℕ, zero, suc, ◌+◌, ◌*◌, ◌<◌, ◌≡◌, refl, sym, true, not, List, length, take, drop, arith,
  if◌then◌else◌, ok, ◌&&◌, ◌||◌, ◌∙◌, drop-drop, [],
}
use master_control_program.Desktop.Region.{Rect, is_i32, validate_rect}
use master_control_program.Desktop.Region.Listed.{Within, IsListed}
use master_control_program.Desktop.Compare.{
  Comparison, Look, check_operation, differs, same_bytes, compare_frames, validate_allocation,
}
use master_control_program.Desktop.Compare.Count.{differing, block, differing-add}
use master_control_program.Desktop.Compare.Runs.{cell, IsOnScreen}
use master_control_program.Desktop.Compare.Changed.{compare_frames-Rows}

-- How many of the first `n` pixels of two buffers differ in blue, green or red; a pixel is four
-- bytes.
unfoldable pub pixels_changed : ℕ → List ℕ → List ℕ → ℕ
pixels_changed zero previous current = 0
pixels_changed (suc n) previous current =
    (if same_bytes (take 3 previous) (take 3 current) then 0 else 1)
    + pixels_changed n (drop 4 previous) (drop 4 current)

module _ (previous current : List ℕ) where
  differing-pixels_changed :
      (i n : ℕ)
      → differing previous current i n
        ≡ pixels_changed n (drop (i * 4) previous) (drop (i * 4) current)
  unfolding differing pixels_changed differs
  differing-pixels_changed i zero = refl
  differing-pixels_changed i (suc n) =
      let e : suc i * 4 ≡ i * 4 + 4 = omega arith in
      let p = drop-drop 4 (i * 4) previous in
      let c = drop-drop 4 (i * 4) current in
      let ih = rw e at (differing-pixels_changed (suc i) n) in
      rw (p, c, sym ih) (ground (arith, not))

  block-differing :
      (stride y height : ℕ)
      → block previous current stride y height 0 stride
        ≡ differing previous current (y * stride) (height * stride)
  unfolding block differing
  block-differing stride y zero = let e : 0 * stride ≡ 0 = omega arith in rw (e, differing) refl
  block-differing stride y (suc height) =
      let e : suc height * stride ≡ stride + height * stride = omega arith in
      let f : y * stride + stride ≡ suc y * stride = omega arith in
      let z : y * stride + 0 ≡ y * stride = omega arith in
      rw
        (
          e,
          z,
          differing-add previous current (y * stride) stride (height * stride),
          block-differing stride (suc y) height,
          f,
        )
        refl

validate_rect-IsOnScreen :
    (r : Rect) → is_i32 r.x ≡ true → is_i32 r.y ≡ true → validate_rect r ≡ ok tt → IsOnScreen r
unfolding validate_rect
validate_rect-IsOnScreen r x y v = record {
  left = ground (arith, ◌&&◌);
  top = ground (arith, ◌&&◌);
  right = ground (arith, ◌||◌, not, ◌&&◌);
  bottom = ground (arith, ◌||◌, not, ◌&&◌);
}

-- What the regions of a comparison tell: they lie within the bounds, there are at most 256, and one if
-- they were coalesced; each pixel that differs lies in one of them; and there are none if no pixel
-- was counted.
pub record Marks (previous current : List ℕ) (bounds : Rect) (s : Comparison) : Type 0 where
  pub listed : IsListed bounds s.regions s.coalesced
  pub seen :
      (x y : ℕ)
      → x < bounds.width
      → y < bounds.height
      → differs previous current (y * bounds.width + x) ≡ true
      → Within (cell bounds x y) s.regions
  pub unmarked : s.changed_pixels ≡ 0 → s.regions ≡ []

module _ (previous current : List ℕ) (bounds : Rect) (looks : ℕ → Look) (expected : ℕ) where
  -- Two frames of the size of their bounds, which are accepted and have 32-bit coordinates, are
  -- compared with no error if no check stops the comparison, and the pixels that the tiles count
  -- are those of a walk over both buffers whose blue, green or red differ.
  pub compare_frames-counts :
      is_i32 bounds.x ≡ true
      → is_i32 bounds.y ≡ true
      → validate_rect bounds ≡ ok tt
      → validate_allocation bounds.width bounds.height ≡ ok expected
      → length previous ≡ expected
      → length current ≡ expected
      → ((tile_y : ℕ) → check_operation (looks tile_y) ≡ ok tt)
      → (s : Comparison) × (compare_frames previous current bounds looks ≡ ok s)
        × (s.changed_pixels ≡ pixels_changed (bounds.height * bounds.width) previous current)
  compare_frames-counts x y r v p c passes =
      let rows =
        compare_frames-Rows previous current bounds looks (validate_rect-IsOnScreen bounds x y r)
          passes expected v p c in
      let z : 0 * bounds.width ≡ 0 = omega arith in
      let b = rw z at (block-differing previous current bounds.width 0 bounds.height) in
      let d = differing-pixels_changed previous current 0 (bounds.height * bounds.width) in
      (rows.after, rows.returned, rows.compared.counted ∙ b ∙ d)

  -- Two frames of the size of their bounds, which are accepted and have 32-bit coordinates, are
  -- compared with no error if no check stops the comparison. The regions of the result lie within
  -- the bounds, there are at most 256, and one if they were coalesced; each pixel that differs lies
  -- in one of them; and there are none if no pixel was counted as different.
  pub compare_frames-Marks :
      is_i32 bounds.x ≡ true
      → is_i32 bounds.y ≡ true
      → validate_rect bounds ≡ ok tt
      → validate_allocation bounds.width bounds.height ≡ ok expected
      → length previous ≡ expected
      → length current ≡ expected
      → ((tile_y : ℕ) → check_operation (looks tile_y) ≡ ok tt)
      → (s : Comparison) × (compare_frames previous current bounds looks ≡ ok s)
        × Marks previous current bounds s
  compare_frames-Marks x y r v p c passes =
      let rows =
        compare_frames-Rows previous current bounds looks (validate_rect-IsOnScreen bounds x y r)
          passes expected v p c in
      (
        rows.after,
        rows.returned,
        record {
          listed = rows.compared.listed;
          seen = rows.compared.seen;
          unmarked = rows.compared.idle;
        },
      )
