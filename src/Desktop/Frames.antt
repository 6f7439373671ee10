-- ===== src/Desktop/Frames.antt =====
-- src/desktop/observation.rs: `FrameStore`, the frames that later captures are compared with.
pub mod Bounded
pub mod Held
pub mod Later
pub mod Found
use master_control_program.Base.{
  ℕ, ◌+◌, ◌-◌, ◌*◌, String, Bool, true, false, not, ◌&&◌, ◌||◌, Option, none, some, List, [], ◌∷◌,
  ◌++◌, length, keep, sum_by, ltb, leb, ◌==◌, if◌then◌else◌, Result, ok, err, ◌>>=◌, ◌>>◌, str_eq,
}
use master_control_program.Base.Int.{eq_ℤ}
use master_control_program.Desktop.Region.{Rect}
use master_control_program.Desktop.Compare.{
  CompareError, Look, Comparison, check_operation, compare_frames,
}

-- The metadata that decides whether two frames can be compared. The identity of the target, the
-- floating-point scales and the monitor layout are values of a type that is only compared.
pub record CaptureMetadata (V : Type 0) : Type 0 where
  pub target : V
  pub session_id : ℕ
  pub desktop : String
  pub physical_bounds : Rect
  pub scale_x : V
  pub scale_y : V
  pub geometry : V

pub record CaptureFrame (V : Type 0) : Type 0 where
  pub metadata : CaptureMetadata V
  pub bgra : List ℕ

pub record StoredFrame (V : Type 0) : Type 0 where
  pub id : String
  pub metadata : CaptureMetadata V
  pub bgra : List ℕ
  pub inserted : ℕ

pub data ComparisonStatus : Type 0 where
  not_requested : ComparisonStatus
  compared : ComparisonStatus
  baseline_missing : ComparisonStatus
  baseline_mismatch : ComparisonStatus

pub record Changes : Type 0 where
  pub status : ComparisonStatus
  pub baseline_id : Option String
  pub gap : Bool
  pub changed : Option Bool
  pub changed_pixels : Option ℕ
  pub regions : List Rect
  pub regions_coalesced : Bool

abbrev pub max_retained_bytes : ℕ
max_retained_bytes = 64 * 1024 * 1024

abbrev pub max_frames : ℕ
max_frames = 4

-- In milliseconds.
abbrev pub retention : ℕ
retention = 120_000

abbrev pub eq_rect : Rect → Rect → Bool
eq_rect a b = eq_ℤ a.x b.x && (eq_ℤ a.y b.y && ((a.width == b.width) && (a.height == b.height)))

abbrev pub unchanged : Option String → Changes
unchanged baseline = record {
  status = not_requested;
  baseline_id = baseline;
  gap = false;
  changed = none;
  changed_pixels = none;
  regions = [];
  regions_coalesced = false;
}

abbrev pub with_gap : ComparisonStatus → Changes → Changes
with_gap status changes = record changes { status = status; gap = true }

abbrev pub with_scan : Comparison → Changes → Changes
with_scan s changes = record changes {
  status = compared;
  changed = some (ltb 0 s.changed_pixels);
  changed_pixels = some s.changed_pixels;
  regions = s.regions;
  regions_coalesced = s.coalesced;
}

module _ {V : Type 0} where
  abbrev pub pixel_bytes : StoredFrame V → ℕ
  pixel_bytes f = length f.bgra

  abbrev pub is_recent : ℕ → StoredFrame V → Bool
  is_recent now f = ltb (now - f.inserted) retention

  unfoldable pub find_frame : String → List (StoredFrame V) → Option (StoredFrame V)
  find_frame id [] = none
  find_frame id (f ∷ fs) = elim (str_eq f.id id) [ true ↦ some f | false ↦ find_frame id fs ]

  -- `while frames.len() >= MAX_FRAMES || bytes + frame.bgra.len() > MAX_RETAINED_BYTES`
  unfoldable pub pop_frames : ℕ → ℕ → List (StoredFrame V) → List (StoredFrame V)
  pop_frames size bytes [] = []
  pop_frames size bytes (f ∷ fs) =
      elim (leb max_frames (length (f ∷ fs)) || ltb max_retained_bytes (bytes + size)) [
        | true ↦ pop_frames size (bytes - pixel_bytes f) fs
        | false ↦ f ∷ fs
      ]

  abbrev pub stored : String → ℕ → CaptureFrame V → StoredFrame V
  stored id now frame = record {
    id = id;
    metadata = frame.metadata;
    bgra = frame.bgra;
    inserted = now;
  }

  unfoldable pub retain :
      String → ℕ → CaptureFrame V → List (StoredFrame V) → List (StoredFrame V) × Bool
  retain id now frame frames =
      if leb (length frame.bgra) max_retained_bytes
      then (
        pop_frames (length frame.bgra) (sum_by pixel_bytes frames) frames
            ++ (stored id now frame ∷ []),
        true,
      )
      else (frames, false)

module _ {V : Type 0} (eq : V → V → Bool) where
  unfoldable pub compatible : CaptureMetadata V → CaptureMetadata V → Bool
  compatible previous current =
      eq previous.target current.target
      && ((previous.session_id == current.session_id)
          && (str_eq previous.desktop current.desktop
              && (eq_rect previous.physical_bounds current.physical_bounds
                  && (eq previous.scale_x current.scale_x
                      && (eq previous.scale_y current.scale_y
                          && eq previous.geometry current.geometry)))))

  unfoldable pub changes_since :
      List (StoredFrame V)
      → CaptureFrame V
      → (ℕ → Look)
      → Option String
      → Result CompareError Changes
  changes_since frames frame looks none = ok (unchanged none)
  changes_since frames frame looks (some id) = elim (find_frame id frames) [
    | none ↦ ok (with_gap baseline_missing (unchanged (some id)))
    | some previous ↦
        if compatible previous.metadata frame.metadata
        then (compare_frames previous.bgra frame.bgra frame.metadata.physical_bounds looks >>= λ s.
            ok (with_scan s (unchanged (some id))))
        else ok (with_gap baseline_mismatch (unchanged (some id)))
  ]

  -- The clock is read at the start and when the frame is retained. An error leaves the store
  -- without the frames that were too old.
  unfoldable pub observe :
      List (StoredFrame V)
      → CaptureFrame V
      → Option String
      → (first : Look) → (looks : ℕ → Look) → (now later : ℕ) → (id : String)
      → List (StoredFrame V) × Result CompareError (Changes × Bool)
  observe frames frame baseline first looks now later id = elim (check_operation first) [
    | err e ↦ (frames, err e)
    | ok x ↦
        let recent = keep (is_recent now) frames in
        elim (changes_since recent frame looks baseline) [
          | err e ↦ (recent, err e)
          | ok changes ↦
              let (after, retained) = retain id later frame recent in
              (after, ok (changes, retained))
        ]
  ]
