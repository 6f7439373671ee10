-- ===== src/Tests/Desktop.antt =====
-- src/desktop/observation.rs, src/win32/display.rs: the theorems applied to frames of six pixels.
use master_control_program.Base.{
  ℕ, ◌+◌, ◌*◌, ◌≡◌, Bool, true, false, refl, List, [], ◌∷◌, none, some, ltb, ok, ◌↔◌, arith,
}
use master_control_program.Base.Int.{negsuc, ◌+ℤ◌}
use master_control_program.Desktop.Region.{Rect, intersect, validate_rect, add_region, extend_last}
use master_control_program.Desktop.Region.Cover.{Contains}
use master_control_program.Desktop.Region.Intersect.{intersect_iff}
use master_control_program.Desktop.Compare.{
  Look, Comparison, check_operation, differs, compare_frames, validate_allocation, scan_rows,
  scan_tiles, scan_at, end_tile, flush, scan_tile, scan_row,
}
use master_control_program.Desktop.Compare.Pixels.{
  pixels_changed, compare_frames-counts, compare_frames-Marks, Marks,
}
use master_control_program.Desktop.Frames.{
  CaptureFrame, StoredFrame, ComparisonStatus, Changes, observe, compatible, find_frame, unchanged,
  changes_since, retain,
}
use master_control_program.Desktop.Frames.Bounded.{IsRetained, observe-IsRetained}
use master_control_program.Desktop.Frames.Found.{observe-compares}
use master_control_program.Desktop.Frames.Later.{Observation, observe_all}

abbrev bounds : Rect
bounds = record { x = negsuc 1919; y = negsuc 199; width = 3; height = 2 }

-- Two rows of three pixels; the blue of the second pixel of the second row changes, and the alpha
-- of the last.
abbrev before : List ℕ
before =
    0 ∷ 0 ∷ 0 ∷ 0 ∷ 0 ∷ 0 ∷ 0 ∷ 0 ∷ 0 ∷ 0 ∷ 0 ∷ 0 ∷ 0 ∷ 0 ∷ 0 ∷ 0 ∷ 0 ∷ 0 ∷ 0 ∷ 0 ∷ 0 ∷ 0 ∷ 0 ∷ 0
    ∷ []

abbrev after : List ℕ
after =
    0 ∷ 0 ∷ 0 ∷ 0 ∷ 0 ∷ 0 ∷ 0 ∷ 0 ∷ 0 ∷ 0 ∷ 0 ∷ 0 ∷ 0 ∷ 0 ∷ 0 ∷ 0 ∷ 255 ∷ 0 ∷ 0 ∷ 0 ∷ 0 ∷ 0 ∷ 0
    ∷ 255 ∷ []

abbrev running : Look
running = record { canceled = false; late = false; host_stopped = false }

running-check_operation : check_operation running ≡ ok tt
unfolding check_operation
running-check_operation = refl

bounds-validate_rect : validate_rect bounds ≡ ok tt
unfolding validate_rect ◌+ℤ◌
bounds-validate_rect = refl

bounds-validate_allocation : validate_allocation bounds.width bounds.height ≡ ok 24
unfolding validate_allocation
bounds-validate_allocation = refl

changed : differs before after (1 * bounds.width + 1) ≡ true
unfolding differs
changed = refl

compare_frames-counts_example :
    (s : Comparison) × (compare_frames before after bounds (λ _. running) ≡ ok s)
    × (s.changed_pixels ≡ pixels_changed (bounds.height * bounds.width) before after)
compare_frames-counts_example =
    compare_frames-counts before after bounds (λ _. running) 24 refl refl bounds-validate_rect
      bounds-validate_allocation refl refl (λ _. running-check_operation)

compare_frames-Marks_example :
    (s : Comparison) × (compare_frames before after bounds (λ _. running) ≡ ok s)
    × Marks before after bounds s
compare_frames-Marks_example =
    compare_frames-Marks before after bounds (λ _. running) 24 refl refl bounds-validate_rect
      bounds-validate_allocation refl refl (λ _. running-check_operation)

-- One pixel of them differs, and its tile is the only region.
before-after :
    compare_frames before after bounds (λ _. running)
    ≡ ok record { changed_pixels = 1; regions = bounds ∷ []; coalesced = false; run_start = none }
unfolding compare_frames scan_rows scan_tiles scan_at end_tile flush scan_tile scan_row differs
    validate_allocation check_operation add_region extend_last ◌+ℤ◌
before-after = refl

abbrev other_bounds : Rect
other_bounds = record { x = negsuc 1918; y = negsuc 200; width = 100; height = 100 }

intersect_iff_example :
    (Contains bounds (negsuc 1918) (negsuc 199) × Contains other_bounds (negsuc 1918) (negsuc 199))
    ↔ ((c : Rect) × (intersect bounds other_bounds ≡ some c)
        × Contains c (negsuc 1918) (negsuc 199))
intersect_iff_example =
    intersect_iff bounds other_bounds (negsuc 1918) (negsuc 199)
      record { width = omega arith; height = omega arith }

abbrev eq_bool : Bool → Bool → Bool
eq_bool true b = b
eq_bool false true = false
eq_bool false false = true

abbrev frame : List ℕ → CaptureFrame Bool
frame bgra = record {
  metadata = record {
    target = true;
    session_id = 1;
    desktop = "Default";
    physical_bounds = bounds;
    scale_x = false;
    scale_y = false;
    geometry = true;
  };
  bgra = bgra;
}

abbrev no_frames : List (StoredFrame Bool)
no_frames = []

observe-IsRetained_example :
    IsRetained (observe eq_bool no_frames (frame before) none running (λ _. running) 10 11 "f1").0
observe-IsRetained_example =
    observe-IsRetained eq_bool no_frames (frame before) none running (λ _. running) 10 11 "f1"
      record { few = omega arith; small = omega arith }

no_frames-find_frame : find_frame "f1" no_frames ≡ none
unfolding find_frame
no_frames-find_frame = refl

first-observe :
    (observe eq_bool no_frames (frame before) none running (λ _. running) 10 11 "f1").1
    ≡ ok (unchanged none, true)
unfolding observe check_operation changes_since retain
first-observe = refl

same_metadata : compatible eq_bool (frame before).metadata (frame after).metadata ≡ true
unfolding compatible
same_metadata = refl

-- Another frame is observed in between.
abbrev between : List (Observation Bool)
between =
    record {
      frame = frame after;
      baseline = none;
      first = running;
      looks = λ _. running;
      now = 15;
      later = 16;
      id = "f3";
    }
    ∷ []

observe-compares_example :
    let store =
      observe_all eq_bool between
        (observe eq_bool no_frames (frame before) none running (λ _. running) 10 11 "f1").0 in
    let pixels = pixels_changed (2 * 3) before after in
    (c : Changes) × (retained : Bool) × ((observe eq_bool store
        (frame after)
        (some "f1")
        running
        (λ _. running)
        20
        21
        "f2").1
      ≡ ok (c, retained))
    × (c.status ≡ ComparisonStatus.compared)
    × (c.changed_pixels ≡ some pixels)
    × (c.changed ≡ some (ltb 0 pixels))
observe-compares_example =
    observe-compares eq_bool no_frames (frame before) (frame after) none running running
      (λ _. running) (λ _. running) 10 11 20 21 "f1" "f2" (unchanged none) between 24
      no_frames-find_frame first-observe (omega arith) (omega arith) (omega arith, tt) (omega arith)
      running-check_operation same_metadata refl refl bounds-validate_rect
      bounds-validate_allocation refl refl (λ _. running-check_operation)
