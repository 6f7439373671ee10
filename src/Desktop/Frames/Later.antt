-- ===== src/Desktop/Frames/Later.antt =====
-- src/desktop/observation.rs: a retained frame and the calls of `observe` after it.
use master_control_program.Base.{
  ℕ, suc, ◌+◌, ◌-◌, ◌≤◌, ◌<◌, ◌≡◌, inl, inr, ◌∙◌, String, Bool, Option, none, some, List, [], ◌∷◌,
  ◌++◌, length, keep, sum_by, arith, Result-cases, ap, str_eq_iff,
}
use master_control_program.Desktop.Compare.{Look, check_operation}
use master_control_program.Desktop.Frames.{
  StoredFrame, CaptureFrame, pixel_bytes, is_recent, observe, changes_since, max_frames,
  max_retained_bytes, find_frame, retention,
}
use master_control_program.Desktop.Frames.Held.{IsHeld, IsHeld-le, keep-IsHeld, retain-IsHeld}

-- One call of `observe`: its arguments, what its checks see, its two readings of the clock and the
-- identifier that it makes.
pub record Observation (V : Type 0) : Type 0 where
  pub frame : CaptureFrame V
  pub baseline : Option String
  pub first : Look
  pub looks : ℕ → Look
  pub now : ℕ
  pub later : ℕ
  pub id : String

module _ {V : Type 0} where
  abbrev pub frame_bytes : Observation V → ℕ
  frame_bytes c = length c.frame.bgra

  -- Each call begins less than 120 seconds after the time.
  abbrev pub AllSoon : ℕ → List (Observation V) → Type 0
  AllSoon time [] = Unit
  AllSoon time (c ∷ cs) = (c.now - time < retention) × AllSoon time cs

module _ {V : Type 0} (eq : V → V → Bool) where
  -- The store after one call, and after several.
  abbrev pub observe_next : Observation V → List (StoredFrame V) → List (StoredFrame V)
  observe_next c frames =
      (observe eq frames c.frame c.baseline c.first c.looks c.now c.later c.id).0

  unfoldable pub observe_all : List (Observation V) → List (StoredFrame V) → List (StoredFrame V)
  observe_all [] frames = frames
  observe_all (c ∷ cs) frames = observe_all cs (observe_next c frames)

  observe_next-IsHeld :
      (f : StoredFrame V) (c : Observation V) (few bytes : ℕ) (frames : List (StoredFrame V))
      → suc few < max_frames
      → pixel_bytes f + (bytes + frame_bytes c) ≤ max_retained_bytes
      → c.now - f.inserted < retention
      → IsHeld f few bytes frames
      → IsHeld f (suc few) (bytes + frame_bytes c) (observe_next c frames)
  unfolding observe
  observe_next-IsHeld f c few bytes frames room small soon i =
      let wider : (gs : List (StoredFrame V))
          → IsHeld f few bytes gs
          → IsHeld f (suc few) (bytes + frame_bytes c) gs =
        λ gs. IsHeld-le f few (suc few) bytes (bytes + frame_bytes c) (omega arith) (omega arith) in
      elim (Result-cases (check_operation c.first)) [
        | inl (e, stopped) ↦ rw (observe_next, stopped, observe) (wider frames i)
        | inr (u, passed) ↦
            let recent = keep (is_recent c.now) frames in
            let j = keep-IsHeld f c.now few bytes soon i in
            elim (Result-cases (changes_since eq recent c.frame c.looks c.baseline)) [
              | inl (e, failed) ↦ rw (observe_next, passed, failed, observe) (wider recent j)
              | inr (changes, compared) ↦
                  rw (observe_next, passed, compared, observe)
                    (retain-IsHeld f c.id c.later few bytes c.frame room small j)
            ]
      ]

  pub observe_all-IsHeld :
      (f : StoredFrame V) (cs : List (Observation V)) (few bytes : ℕ)
      (frames : List (StoredFrame V))
      → few + length cs < max_frames
      → pixel_bytes f + (bytes + sum_by frame_bytes cs) ≤ max_retained_bytes
      → AllSoon f.inserted cs
      → IsHeld f few bytes frames
      → IsHeld f (few + length cs) (bytes + sum_by frame_bytes cs) (observe_all cs frames)
  unfolding observe_all
  observe_all-IsHeld f [] few bytes frames room small soon i =
      IsHeld-le f few (few + 0) bytes (bytes + 0) (omega arith) (omega arith) i
  observe_all-IsHeld f (c ∷ cs) few bytes frames room small soon i =
      let next =
        observe_next-IsHeld f c few bytes frames (omega (arith, room)) (omega (arith, small)) soon.0
          i in
      let rest =
        observe_all-IsHeld f cs (suc few) (bytes + frame_bytes c) (observe_next c frames)
          (omega (arith, room)) (omega (arith, small)) soon.1 next in
      IsHeld-le f (suc few + length cs) (few + length (c ∷ cs))
        (bytes + frame_bytes c + sum_by frame_bytes cs) (bytes + sum_by frame_bytes (c ∷ cs))
        (omega arith) (omega arith) rest

  find_frame-split :
      (f : StoredFrame V) (before since : List (StoredFrame V))
      → find_frame f.id before ≡ none
      → find_frame f.id (before ++ (f ∷ since)) ≡ some f
  unfolding find_frame
  find_frame-split f [] since h = ground (arith, str_eq_iff f.id f.id)
  find_frame-split f (g ∷ before) since h = ground (arith, find_frame-split f before since)

  -- A frame that is held is found among the recent ones.
  pub IsHeld-find_frame :
      (f : StoredFrame V) (now few bytes : ℕ) {frames : List (StoredFrame V)}
      → now - f.inserted < retention
      → IsHeld f few bytes frames
      → find_frame f.id (keep (is_recent now) frames) ≡ some f
  IsHeld-find_frame f now few bytes soon i =
      let j = keep-IsHeld f now few bytes soon i in
      ap (find_frame f.id) j.splits ∙ find_frame-split f j.before j.since j.fresh
