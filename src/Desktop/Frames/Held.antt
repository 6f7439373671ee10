-- ===== src/Desktop/Frames/Held.antt =====
-- src/desktop/observation.rs: a retained frame stays while few frames are observed after it.
use mathlib.Core.List.{append_assoc}
use master_control_program.Base.{
  ℕ, suc, ◌+◌, ◌-◌, ◌≤◌, ◌<◌, ◌≡◌, inl, inr, refl, ◌∙◌, String, Bool, true, false, none, List, [],
  ◌∷◌, ◌++◌, length, keep, sum_by, leb, ltb, arith, Bool-cases, ap, ◌||◌, length-append,
  sum_by-append,
}
use master_control_program.Desktop.Frames.{
  StoredFrame, CaptureFrame, pixel_bytes, is_recent, pop_frames, retain, stored, max_frames,
  max_retained_bytes, find_frame, retention,
}
use master_control_program.Desktop.Frames.Bounded.{keep-smaller}

module _ {V : Type 0} where
  pub find_frame-keep_absent :
      (p : StoredFrame V → Bool) (id : String) (fs : List (StoredFrame V))
      → find_frame id fs ≡ none
      → find_frame id (keep p fs) ≡ none
  unfolding find_frame
  find_frame-keep_absent p id [] h = refl
  find_frame-keep_absent p id (f ∷ fs) h = ground (arith, find_frame-keep_absent p id fs)

-- The frame is in the store, the frames before it have other identifiers, and those after it are few
-- and take few bytes.
pub record IsHeld {V : Type 0} (f : StoredFrame V) (few bytes : ℕ) (frames : List (StoredFrame V))
    : Type 0 where
  pub before : List (StoredFrame V)
  pub since : List (StoredFrame V)
  pub splits : frames ≡ before ++ (f ∷ since)
  pub fresh : find_frame f.id before ≡ none
  pub count : length since ≤ few
  pub size : sum_by pixel_bytes since ≤ bytes

module _ {V : Type 0} (f : StoredFrame V) where
  keep-append :
      (p : StoredFrame V → Bool) (before since : List (StoredFrame V))
      → p f ≡ true
      → keep p (before ++ (f ∷ since)) ≡ keep p before ++ (f ∷ keep p since)
  keep-append p [] since h = ground arith
  keep-append p (g ∷ before) since h = ground (arith, keep-append p before since h)

  pub keep-IsHeld :
      (now few bytes : ℕ) {frames : List (StoredFrame V)}
      → now - f.inserted < retention
      → IsHeld f few bytes frames
      → IsHeld f few bytes (keep (is_recent now) frames)
  keep-IsHeld now few bytes soon i =
      let s = keep-smaller (is_recent now) i.since in
      record {
        before = keep (is_recent now) i.before;
        since = keep (is_recent now) i.since;
        splits =
            ap (keep (is_recent now)) i.splits
            ∙ keep-append (is_recent now) i.before i.since (ground arith);
        fresh = find_frame-keep_absent (is_recent now) f.id i.before i.fresh;
        count = omega (arith, s, i.count);
        size = omega (arith, s, i.size);
      }

  find_frame-tail :
      (g : StoredFrame V) (gs : List (StoredFrame V))
      → find_frame f.id (g ∷ gs) ≡ none
      → find_frame f.id gs ≡ none
  unfolding find_frame
  find_frame-tail g gs h = ground arith

  pop_frames_next :
      (size : ℕ) (g : StoredFrame V) (gs : List (StoredFrame V))
      → (leb max_frames (length (g ∷ gs))
          || ltb max_retained_bytes (sum_by pixel_bytes (g ∷ gs) + size))
        ≡ true
      → pop_frames size (sum_by pixel_bytes (g ∷ gs)) (g ∷ gs)
        ≡ pop_frames size (sum_by pixel_bytes gs) gs
  unfolding pop_frames
  pop_frames_next size g gs h =
      let e : pixel_bytes g + sum_by pixel_bytes gs - pixel_bytes g ≡ sum_by pixel_bytes gs =
        omega arith in
      rw (h, e, pop_frames) refl

  pop_frames_past :
      (size : ℕ) (g : StoredFrame V) (gs : List (StoredFrame V))
      → (leb max_frames (length (g ∷ gs))
          || ltb max_retained_bytes (sum_by pixel_bytes (g ∷ gs) + size))
        ≡ false
      → pop_frames size (sum_by pixel_bytes (g ∷ gs)) (g ∷ gs) ≡ g ∷ gs
  unfolding pop_frames
  pop_frames_past size g gs h = rw (h, pop_frames) refl

  -- The loop that makes room stops at the frame at the latest.
  pop_frames-stops :
      (size : ℕ) (before since : List (StoredFrame V))
      → suc (length since) < max_frames
      → pixel_bytes f + sum_by pixel_bytes since + size ≤ max_retained_bytes
      → find_frame f.id before ≡ none
      → let frames = before ++ (f ∷ since) in
        (rest : List (StoredFrame V)) × (pop_frames size (sum_by pixel_bytes frames) frames
          ≡ rest ++ (f ∷ since))
        × (find_frame f.id rest ≡ none)
  pop_frames-stops size [] since few small fresh =
      ([], pop_frames_past size f since (ground (arith, ◌||◌)), fresh)
  pop_frames-stops size (g ∷ before) since few small fresh =
      let gs = before ++ (f ∷ since) in
      elim (Bool-cases (
        leb max_frames (length (g ∷ gs))
        || ltb max_retained_bytes (sum_by pixel_bytes (g ∷ gs) + size))) [
          | inl full ↦
              let (rest, popped, absent) =
                pop_frames-stops size before since few small (find_frame-tail g before fresh) in
              (rest, pop_frames_next size g gs full ∙ popped, absent)
          | inr room ↦ (g ∷ before, pop_frames_past size g gs room, fresh)
        ]

  pub retain-IsHeld :
      (id : String) (now few bytes : ℕ) (frame : CaptureFrame V) {frames : List (StoredFrame V)}
      → suc few < max_frames
      → pixel_bytes f + (bytes + length frame.bgra) ≤ max_retained_bytes
      → IsHeld f few bytes frames
      → IsHeld f (suc few) (bytes + length frame.bgra) (retain id now frame frames).0
  unfolding retain
  retain-IsHeld id now few bytes frame {frames} room small i =
      elim (Bool-cases (leb (length frame.bgra) max_retained_bytes)) [
        | inl fits ↦
            let new = stored id now frame in
            let (rest, popped, absent) =
              pop_frames-stops (length frame.bgra) i.before i.since (omega (arith, i.count, room))
                (omega (arith, i.size, small)) i.fresh in
            rw (fits, retain)
              record {
                before = rest;
                since = i.since ++ (new ∷ []);
                splits =
                    ap
                      (λ fs.
                        pop_frames (length frame.bgra) (sum_by pixel_bytes fs) fs ++ (new ∷ []))
                      i.splits
                    ∙ ap (λ fs. fs ++ (new ∷ [])) popped
                    ∙ append_assoc rest (f ∷ i.since) (new ∷ []);
                fresh = absent;
                count = omega (arith, i.count, length-append i.since (new ∷ []));
                size = omega (arith, i.size, sum_by-append pixel_bytes i.since (new ∷ []));
              }
        | inr large ↦
            rw (large, retain)
              record {
                before = i.before;
                since = i.since;
                splits = i.splits;
                fresh = i.fresh;
                count = omega (arith, i.count);
                size = omega (arith, i.size);
              }
      ]

  pub IsHeld-le :
      (few more bytes size : ℕ) {frames : List (StoredFrame V)}
      → few ≤ more
      → bytes ≤ size
      → IsHeld f few bytes frames
      → IsHeld f more size frames
  IsHeld-le few more bytes size l k i = record {
    before = i.before;
    since = i.since;
    splits = i.splits;
    fresh = i.fresh;
    count = omega (arith, i.count, l);
    size = omega (arith, i.size, k);
  }
