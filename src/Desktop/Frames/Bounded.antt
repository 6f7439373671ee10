-- ===== src/Desktop/Frames/Bounded.antt =====
-- src/desktop/observation.rs: how much the frame store retains.
use master_control_program.Base.{
  ℕ, ◌+◌, ◌-◌, ◌≤◌, ◌<◌, ◌≡◌, inl, inr, String, Bool, ◌||◌, Option, List, [], ◌∷◌, length, keep,
  sum_by, leb, arith, Bool-cases, Result-cases, length-append, leb→le, sum_by-append,
}
use master_control_program.Desktop.Compare.{Look, check_operation}
use master_control_program.Desktop.Frames.{
  StoredFrame, CaptureFrame, pixel_bytes, is_recent, pop_frames, retain, stored, observe,
  changes_since, max_frames, max_retained_bytes,
}

-- At most four frames, of 64 MiB together.
pub record IsRetained {V : Type 0} (frames : List (StoredFrame V)) : Type 0 where
  pub few : length frames ≤ max_frames
  pub small : sum_by pixel_bytes frames ≤ max_retained_bytes

module _ {V : Type 0} where
  pub keep-smaller :
      (p : StoredFrame V → Bool) (fs : List (StoredFrame V))
      → (length (keep p fs) ≤ length fs) × (sum_by pixel_bytes (keep p fs) ≤ sum_by pixel_bytes fs)
  keep-smaller p [] = omega arith
  keep-smaller p (f ∷ fs) = ground (arith, keep-smaller p fs)

  pop_frames-room :
      (size : ℕ) (fs : List (StoredFrame V))
      → size ≤ max_retained_bytes
      → let rest = pop_frames size (sum_by pixel_bytes fs) fs in
        (length rest < max_frames) × (sum_by pixel_bytes rest + size ≤ max_retained_bytes)
  unfolding pop_frames
  pop_frames-room size [] h = omega arith
  pop_frames-room size (f ∷ fs) h =
      let e : pixel_bytes f + sum_by pixel_bytes fs - pixel_bytes f ≡ sum_by pixel_bytes fs =
        omega arith in
      ground (arith, ◌||◌, e, pop_frames-room size fs h)

  retain-IsRetained :
      (id : String) (now : ℕ) (frame : CaptureFrame V) (fs : List (StoredFrame V))
      → IsRetained fs
      → IsRetained (retain id now frame fs).0
  unfolding retain
  retain-IsRetained id now frame fs b =
      elim (Bool-cases (leb (length frame.bgra) max_retained_bytes)) [
        | inl fits ↦
            let room =
              pop_frames-room (length frame.bgra) fs
                (leb→le (length frame.bgra) max_retained_bytes fits) in
            let rest = pop_frames (length frame.bgra) (sum_by pixel_bytes fs) fs in
            rw (fits, retain)
              record {
                few = omega (arith, room, length-append rest (stored id now frame ∷ []));
                small =
                    omega (arith, room, sum_by-append pixel_bytes rest (stored id now frame ∷ []));
              }
        | inr large ↦ rw (large, retain) b
      ]

module _ {V : Type 0} (eq : V → V → Bool) where
  -- Whatever is observed, the store keeps at most four frames, of at most 64 MiB together.
  pub observe-IsRetained :
      (frames : List (StoredFrame V)) (frame : CaptureFrame V) (baseline : Option String)
      (first : Look) (looks : ℕ → Look) (now later : ℕ) (id : String)
      → IsRetained frames
      → IsRetained (observe eq frames frame baseline first looks now later id).0
  unfolding observe
  observe-IsRetained frames frame baseline first looks now later id b =
      elim (Result-cases (check_operation first)) [
        | inl (e, stopped) ↦ rw (stopped, observe) b
        | inr (u, passed) ↦
            let recent = keep (is_recent now) frames in
            let s = keep-smaller (is_recent now) frames in
            let c : IsRetained recent = record {
              few = omega (arith, s, b.few);
              small = omega (arith, s, b.small);
            } in
            elim (Result-cases (changes_since eq recent frame looks baseline)) [
              | inl (e, failed) ↦ rw (passed, failed, observe) c
              | inr (changes, compared) ↦
                  rw (passed, compared, observe) (retain-IsRetained id later frame recent c)
            ]
      ]
