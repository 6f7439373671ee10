-- ===== src/Desktop/Compare.antt =====
-- src/desktop/observation.rs: `compare`; src/desktop.rs: `Operation::check`;
-- src/win32/screen.rs: `validate_allocation`.
pub mod Count
pub mod Runs
pub mod Tiles
pub mod Changed
pub mod Pixels
use master_control_program.Base.{
  ℕ, zero, suc, ◌+◌, ◌-◌, ◌*◌, ◌^◌, min, Bool, true, false, not, ◌&&◌, ◌||◌, Option, none, some,
  List, [], ◌∷◌, length, take, drop, ltb, leb, ◌==◌, if◌then◌else◌, is_none, Result, ok, ◌>>=◌,
  ◌>>◌, ensure,
}
use master_control_program.Base.Int.{ℤ, pos, ◌+ℤ◌}
use master_control_program.Desktop.Region.{Rect, add_region, is_i32}

pub data Stopped : Type 0 where
  canceled : Stopped
  timed_out : Stopped
  host_stopped : Stopped

pub data CompareError : Type 0 where
  dimensions : CompareError
  too_many_pixels : CompareError
  overflow : CompareError
  buffer_length : CompareError
  coordinate : CompareError
  stopped : Stopped → CompareError

-- What one call of `check` sees: the cancellation, the deadline, and the host's own checkpoint.
pub record Look : Type 0 where
  pub canceled : Bool
  pub late : Bool
  pub host_stopped : Bool

unfoldable pub check_operation : Look → Result CompareError (Unit {0})
check_operation look =
    ensure (not look.canceled) (CompareError.stopped Stopped.canceled)
    >> ensure (not look.late) (CompareError.stopped Stopped.timed_out)
    >> ensure (not look.host_stopped) (CompareError.stopped Stopped.host_stopped)

abbrev pub max_capture_pixels : ℕ
max_capture_pixels = 40_000_000

abbrev pub u16_max : ℕ
u16_max = 65535

unfoldable pub validate_allocation : ℕ → ℕ → Result CompareError ℕ
validate_allocation width height =
    ensure (not (width == 0 || (height == 0 || (ltb u16_max width || ltb u16_max height))))
      CompareError.dimensions
    >> ensure (leb (width * height) max_capture_pixels) CompareError.too_many_pixels
    >> ensure (ltb (width * height * 4) (2 ^ 64)) CompareError.overflow
    >> ok (width * height * 4)

abbrev pub tile : ℕ
tile = 32

abbrev pub same_bytes : List ℕ → List ℕ → Bool
same_bytes [] [] = true
same_bytes [] (b ∷ bs) = false
same_bytes (a ∷ xs) [] = false
same_bytes (a ∷ xs) (b ∷ bs) = (a == b) && same_bytes xs bs

-- `previous[index..index + 3] != current[index..index + 3]`, at pixel `n`.
unfoldable pub differs : List ℕ → List ℕ → ℕ → Bool
differs previous current n =
    not (same_bytes (take 3 (drop (n * 4) previous)) (take 3 (drop (n * 4) current)))

pub record Comparison : Type 0 where
  pub changed_pixels : ℕ
  pub regions : List Rect
  pub coalesced : Bool
  pub run_start : Option ℕ

abbrev pub no_changes : Comparison
no_changes = record { changed_pixels = 0; regions = []; coalesced = false; run_start = none }

module _ (previous current : List ℕ) (bounds : Rect) where
  -- The innermost loop: `n` pixels of row `y` from `x`.
  unfoldable pub scan_row : ℕ → ℕ → ℕ → ℕ × Bool → ℕ × Bool
  scan_row y x zero s = s
  scan_row y x (suc n) (changed_pixels, changed) = scan_row y (suc x) n (
      if differs previous current (y * bounds.width + x)
      then (suc changed_pixels, true)
      else (changed_pixels, changed))

  -- The rows of one tile, `height` from `y`.
  unfoldable pub scan_tile : ℕ → ℕ → ℕ → ℕ → ℕ × Bool → ℕ × Bool
  scan_tile y x width zero s = s
  scan_tile y x width (suc height) s = scan_tile (suc y) x width height (scan_row y x width s)

abbrev pub begin_run : Bool → ℕ → Option ℕ → Option ℕ
begin_run changed tile_x run = if changed && is_none run then some tile_x else run

abbrev pub to_i32 : ℤ → Result CompareError ℤ
to_i32 z = ensure (is_i32 z) CompareError.coordinate >> ok z

module _ (bounds : Rect) where
  abbrev pub region_of : ℕ → ℕ → ℕ → ℕ → Result CompareError Rect
  region_of start end tile_y height = to_i32 (bounds.x +ℤ pos start) >>= λ x.
      to_i32 (bounds.y +ℤ pos tile_y) >>= λ y.
      ok record { x = x; y = y; width = end - start; height = height }

  abbrev pub with_region : Comparison → Rect → Comparison
  with_region s region =
      let (regions, coalesced) = add_region (s.regions, s.coalesced) region in
      record s { regions = regions; coalesced = coalesced; run_start = none }

  -- A run of changed tiles that ends before column `end` becomes a region.
  unfoldable pub flush : ℕ → ℕ → ℕ → Comparison → Result CompareError Comparison
  flush tile_y height end s = elim s.run_start [
    | none ↦ ok s
    | some start ↦ region_of start end tile_y height >>= λ region. ok (with_region s region)
  ]

  unfoldable pub end_tile : ℕ → ℕ → ℕ → ℕ → Bool → Comparison → Result CompareError Comparison
  end_tile tile_y height tile_x width changed s =
      if not changed || (tile_x + width == bounds.width)
      then flush tile_y height (if changed then tile_x + width else tile_x) s
      else ok s

module _ (previous current : List ℕ) (bounds : Rect) where
  unfoldable pub scan_at : ℕ → ℕ → ℕ → Comparison → Result CompareError Comparison
  scan_at tile_y height tile_x s =
      let width = min tile (bounds.width - tile_x) in
      let (pixels, changed) =
        scan_tile previous current bounds tile_y tile_x width height (s.changed_pixels, false) in
      end_tile bounds tile_y height tile_x width changed
        record s { changed_pixels = pixels; run_start = begin_run changed tile_x s.run_start }

  -- `for tile_x in (0..bounds.width).step_by(32)`, on fuel.
  unfoldable pub scan_tiles : ℕ → ℕ → ℕ → ℕ → Comparison → Result CompareError Comparison
  scan_tiles zero tile_y height tile_x s = ok s
  scan_tiles (suc fuel) tile_y height tile_x s = elim (ltb tile_x bounds.width) [
    | false ↦ ok s
    | true ↦ scan_at tile_y height tile_x s >>= scan_tiles fuel tile_y height (tile_x + tile)
  ]

  module _ (looks : ℕ → Look) where
    -- `for tile_y in (0..bounds.height).step_by(32)`, on fuel.
    unfoldable pub scan_rows : ℕ → ℕ → Comparison → Result CompareError Comparison
    scan_rows zero tile_y s = ok s
    scan_rows (suc fuel) tile_y s = elim (ltb tile_y bounds.height) [
      | false ↦ ok s
      | true ↦
          check_operation (looks tile_y)
          >> scan_tiles bounds.width tile_y (min tile (bounds.height - tile_y)) 0
              record s { run_start = none }
          >>= scan_rows fuel (tile_y + tile)
    ]

    unfoldable pub compare_frames : Result CompareError Comparison
    compare_frames = validate_allocation bounds.width bounds.height >>= λ expected.
        ensure ((length previous == expected) && (length current == expected))
          CompareError.buffer_length
        >> scan_rows bounds.height 0 no_changes
