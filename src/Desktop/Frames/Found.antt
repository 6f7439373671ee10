-- ===== src/Desktop/Frames/Found.antt =====
-- src/desktop/observation.rs: a retained frame is found again, and compared with.
use master_control_program.Base.{
  ℕ, ◌-◌, ◌*◌, ◌<◌, ◌≡◌, inl, inr, refl, String, Bool, true, ◌||◌, Option, none, some, List, [],
  ◌∷◌, length, keep, sum_by, ltb, leb, arith, Bool-cases, ok, Result-cases, ap, ◌+◌, ◌≤◌,
}
use master_control_program.Desktop.Region.{is_i32, validate_rect}
use master_control_program.Desktop.Compare.{
  Look, check_operation, Comparison, compare_frames, validate_allocation,
}
use master_control_program.Desktop.Compare.Pixels.{pixels_changed, compare_frames-counts}
use master_control_program.Desktop.Frames.{
  StoredFrame, CaptureFrame, Changes, ComparisonStatus, pixel_bytes, is_recent, pop_frames, retain,
  stored, observe, changes_since, max_retained_bytes, find_frame, compatible, retention, with_scan,
  unchanged, max_frames,
}
use master_control_program.Desktop.Frames.Held.{IsHeld, find_frame-keep_absent}
use master_control_program.Desktop.Frames.Later.{
  Observation, frame_bytes, AllSoon, observe_all, observe_all-IsHeld, IsHeld-find_frame,
}

module _ {V : Type 0} where
  find_frame-pop_frames_absent :
      (size bytes : ℕ) (id : String) (fs : List (StoredFrame V))
      → find_frame id fs ≡ none
      → find_frame id (pop_frames size bytes fs) ≡ none
  unfolding find_frame pop_frames
  find_frame-pop_frames_absent size bytes id [] h = refl
  find_frame-pop_frames_absent size bytes id (f ∷ fs) h =
      ground (arith, ◌||◌, find_frame-pop_frames_absent size (bytes - pixel_bytes f) id fs)

-- The store after a frame was retained: it holds the frame, and none after it.
retain-IsHeld :
    {V : Type 0} (id : String) (now : ℕ) (frame : CaptureFrame V) (fs : List (StoredFrame V))
    → find_frame id fs ≡ none
    → (retain id now frame fs).1 ≡ true
    → IsHeld (stored id now frame) 0 0 (retain id now frame fs).0
unfolding retain
retain-IsHeld id now frame fs h r = elim (Bool-cases (leb (length frame.bgra) max_retained_bytes)) [
  | inl fits ↦
      rw (fits, retain)
        record {
          before = pop_frames (length frame.bgra) (sum_by pixel_bytes fs) fs;
          since = [];
          splits = refl;
          fresh = find_frame-pop_frames_absent (length frame.bgra) (sum_by pixel_bytes fs) id fs h;
          count = omega arith;
          size = omega arith;
        }
  | inr large ↦ absurd (ground arith)
]

module _ {V : Type 0} (eq : V → V → Bool) where
  observe-IsHeld :
      (frames : List (StoredFrame V)) (frame : CaptureFrame V) (baseline : Option String)
      (first : Look) (looks : ℕ → Look) (now later : ℕ) (id : String) (changes : Changes)
      → find_frame id frames ≡ none
      → (observe eq frames frame baseline first looks now later id).1 ≡ ok (changes, true)
      → IsHeld
          (stored id later frame)
          0
          0
          (observe eq frames frame baseline first looks now later id).0
  unfolding observe
  observe-IsHeld frames frame baseline first looks now later id changes h r =
      let recent = keep (is_recent now) frames in
      let fresh = find_frame-keep_absent (is_recent now) id frames h in
      elim (Result-cases (check_operation first)) [
        | inl (e, stopped) ↦ absurd (ground arith)
        | inr (u, passed) ↦ elim (Result-cases (changes_since eq recent frame looks baseline)) [
          | inl (e, failed) ↦ absurd (ground arith)
          | inr (c, compared) ↦
              rw (passed, compared, observe)
                (retain-IsHeld id later frame recent fresh (ground arith))
        ]
      ]

  changes_since-compared :
      (frames : List (StoredFrame V)) (frame : CaptureFrame V) (looks : ℕ → Look) (id : String)
      (previous : StoredFrame V) (s : Comparison)
      → find_frame id frames ≡ some previous
      → compatible eq previous.metadata frame.metadata ≡ true
      → compare_frames previous.bgra frame.bgra frame.metadata.physical_bounds looks ≡ ok s
      → changes_since eq frames frame looks (some id) ≡ ok (with_scan s (unchanged (some id)))
  unfolding changes_since
  changes_since-compared frames frame looks id previous s found same compared =
      rw (found, same, compared, changes_since) refl

  observe-changes :
      (frames : List (StoredFrame V)) (frame : CaptureFrame V) (baseline : Option String)
      (first : Look) (looks : ℕ → Look) (now later : ℕ) (id : String) (changes : Changes)
      → check_operation first ≡ ok tt
      → changes_since eq (keep (is_recent now) frames) frame looks baseline ≡ ok changes
      → (observe eq frames frame baseline first looks now later id).1
        ≡ ok (changes, (retain id later frame (keep (is_recent now) frames)).1)
  unfolding observe
  observe-changes frames frame baseline first looks now later id changes passed compared =
      rw (passed, compared, observe) refl

  -- A frame that was retained under an identifier of its own, and is asked for less than 120
  -- seconds later as the baseline of a compatible frame of the same accepted size with 32-bit
  -- coordinates, after at most three more calls that each began in these 120 seconds and whose
  -- frames take at most 64 MiB with it, is compared if no check stops it: the answer counts the
  -- pixels that differ between the two buffers, and says that something changed just if there are
  -- any.
  pub observe-compares :
      (frames : List (StoredFrame V)) (frame other : CaptureFrame V) (baseline : Option String)
      (first first_again : Look) (looks looks_again : ℕ → Look)
      (now later now_again later_again : ℕ) (id id_again : String) (changes : Changes)
      (between : List (Observation V)) (expected : ℕ)
      → find_frame id frames ≡ none
      → (observe eq frames frame baseline first looks now later id).1 ≡ ok (changes, true)
      → length between < max_frames
      → length frame.bgra + sum_by frame_bytes between ≤ max_retained_bytes
      → AllSoon later between
      → now_again - later < retention
      → check_operation first_again ≡ ok tt
      → compatible eq frame.metadata other.metadata ≡ true
      → is_i32 other.metadata.physical_bounds.x ≡ true
      → is_i32 other.metadata.physical_bounds.y ≡ true
      → validate_rect other.metadata.physical_bounds ≡ ok tt
      → validate_allocation other.metadata.physical_bounds.width
          other.metadata.physical_bounds.height
        ≡ ok expected
      → length frame.bgra ≡ expected
      → length other.bgra ≡ expected
      → ((tile_y : ℕ) → check_operation (looks_again tile_y) ≡ ok tt)
      → let after =
          observe_all eq between (observe eq frames frame baseline first looks now later id).0 in
        let bounds = other.metadata.physical_bounds in
        let pixels = pixels_changed (bounds.height * bounds.width) frame.bgra other.bgra in
        (c : Changes) × (retained : Bool) × ((observe eq after other
            (some id)
            first_again
            looks_again
            now_again
            later_again
            id_again).1
          ≡ ok (c, retained))
        × (c.status ≡ ComparisonStatus.compared)
        × (c.changed_pixels ≡ some pixels)
        × (c.changed ≡ some (ltb 0 pixels))
  observe-compares frames frame other baseline first first_again looks looks_again now later
        now_again later_again id id_again changes between expected h r few small soon recent passed
        same x y v a p c passes =
      let f = stored id later frame in
      let bounds = other.metadata.physical_bounds in
      let store = (observe eq frames frame baseline first looks now later id).0 in
      let after = observe_all eq between store in
      let held =
        observe_all-IsHeld eq f between 0 0 store (omega (arith, few)) (omega (arith, small)) soon
          (observe-IsHeld frames frame baseline first looks now later id changes h r) in
      let (s, compared, counted) =
        compare_frames-counts frame.bgra other.bgra bounds looks_again expected x y v a p c
          passes in
      let kept =
        IsHeld-find_frame eq f now_again (0 + length between) (0 + sum_by frame_bytes between)
          recent held in
      let result =
        changes_since-compared (keep (is_recent now_again) after) other looks_again id f s kept same
          compared in
      (
        with_scan s (unchanged (some id)),
        (retain id_again later_again other (keep (is_recent now_again) after)).1,
        observe-changes after other (some id) first_again looks_again now_again later_again id_again
            (with_scan s (unchanged (some id))) passed result,
        refl,
        ap (λ (n : ℕ). some n) counted,
        ap (λ (n : ℕ). some (ltb 0 n)) counted,
      )
