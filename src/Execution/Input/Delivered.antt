-- ===== src/Execution/Input/Delivered.antt =====
-- src/execution/input.rs: the pipe is given the bytes of a request in their order, each once.
use master_control_program.Base.{
  ℕ, zero, suc, ◌+◌, ◌-◌, ◌≤◌, ◌<◌, ◌≡◌, refl, ap, ◌∙◌, inl, inr, min, Bool, true, false, not, ◌&&◌,
  some, List, [], ◌∷◌, ◌++◌, length, take, drop, ltb, arith, Bool-cases, length-take, length-drop,
  take-append-take-drop, if◌then◌else◌,
}
use master_control_program.Execution.Input.{
  FileAnswer, accepted, refused, Pipe, Writing, chunk_bytes, offered, after_write, write_loop,
  nothing_written, input_result,
}

-- While the loop goes on, the pipe has the bytes that are counted.
pub record IsExact (bytes : List ℕ) (w : Writing) : Type 0 where
  pub counted : w.written ≤ length bytes
  pub first : w.delivered ≡ take w.written bytes
  pub certain : w.uncertain ≡ false

-- The pipe has the first bytes of the request: those that are counted, and, if the result is marked as
-- uncertain, up to one chunk more.
pub record IsDelivered (bytes : List ℕ) (w : Writing) : Type 0 where
  pub counted : w.written ≤ length bytes
  pub extra : ℕ
  pub few : extra ≤ (if w.uncertain then chunk_bytes else 0)
  pub first : w.delivered ≡ take (w.written + extra) bytes

IsExact-IsDelivered : (bytes : List ℕ) (w : Writing) → IsExact bytes w → IsDelivered bytes w
IsExact-IsDelivered bytes w i = record {
  counted = i.counted;
  extra = 0;
  few = omega arith;
  first = i.first ∙ ap (λ n. take n bytes) {x = w.written} {y = w.written + 0} (omega arith);
}

take-take : (m n : ℕ) (xs : List ℕ) → m ≤ n → take m (take n xs) ≡ take m xs
take-take zero n xs h = refl
take-take (suc m) zero xs h = absurd (omega (arith, h))
take-take (suc m) (suc n) [] h = refl
take-take (suc m) (suc n) (x ∷ xs) h = ap (λ l. x ∷ l) (take-take m n xs (omega (arith, h)))

take_both : (m n : ℕ) (xs : List ℕ) → take m (take n xs) ≡ take (min m n) xs
take_both zero n xs = ap (λ k. take k xs) {x = 0} {y = min 0 n} (omega arith)
take_both (suc m) zero xs = ap (λ k. take k xs) {x = 0} {y = min (suc m) 0} (omega arith)
take_both (suc m) (suc n) [] =
    ap (λ k. take {A = ℕ} k []) {x = suc (min m n)} {y = min (suc m) (suc n)} (omega arith)
take_both (suc m) (suc n) (x ∷ xs) =
    ap (λ l. x ∷ l) (take_both m n xs)
    ∙ ap (λ k. take k (x ∷ xs)) {x = suc (min m n)} {y = min (suc m) (suc n)} (omega arith)

-- Progress of one round.
record Moves (bytes : List ℕ) (w : Writing) (next : Writing × Bool) : Type 0 where
  pub delivered : IsDelivered bytes next.0
  pub more : next.1 ≡ true → IsExact bytes next.0 × (w.written < next.0.written)

after_write-Moves :
    (bytes : List ℕ) (canceled : Bool) (a : FileAnswer) (w : Writing)
    → ((n : ℕ) → a ≡ accepted n → n ≤ length (offered bytes w.written))
    → IsExact bytes w
    → Moves bytes w (after_write bytes canceled a w)
after_write-Moves bytes canceled (accepted zero) w fits i = record {
  delivered =
      IsExact-IsDelivered bytes (after_write bytes canceled (accepted zero) w).0
        record { counted = i.counted; first = i.first; certain = i.certain };
  more = λ e. cc;
}
after_write-Moves bytes canceled (refused taken aborted message) w fits i =
    let k = min (w.written + chunk_bytes) (length bytes) - w.written in
    record {
      delivered = record {
        counted = i.counted;
        extra = min taken k;
        few = omega arith;
        first =
            ap (λ l. l ++ take taken (offered bytes w.written)) i.first
            ∙ ap (λ l. take w.written bytes ++ l) (take_both taken k (drop w.written bytes))
            ∙ take-append-take-drop w.written (min taken k) bytes;
      };
      more = λ e. cc;
    }
after_write-Moves bytes canceled (accepted (suc n)) w fits i =
    let k = min (w.written + chunk_bytes) (length bytes) - w.written in
    let size = fits (suc n) refl in
    let l = length-take k (drop w.written bytes) in
    let d = length-drop w.written bytes in
    let exact : IsExact bytes (after_write bytes canceled (accepted (suc n)) w).0 = record {
      counted = omega (arith, size, l, d, i.counted);
      first =
          ap (λ l. l ++ take (suc n) (offered bytes w.written)) i.first
          ∙ ap (λ l. take w.written bytes ++ l)
              (take-take (suc n) k (drop w.written bytes) (omega (arith, size, l)))
          ∙ take-append-take-drop w.written (suc n) bytes;
      certain = i.certain;
    } in
    record {
      delivered =
          IsExact-IsDelivered bytes (after_write bytes canceled (accepted (suc n)) w).0 exact;
      more = λ e. (exact, omega arith);
    }

module _ (pipe : Pipe) (canceled : ℕ → Bool) (canceled_after : ℕ → Bool) where
  loop_goes :
      (fuel round : ℕ) (bytes : List ℕ) (w : Writing)
      → (ltb w.written (length bytes) && not (canceled round)) ≡ true
      → let next =
          after_write bytes
            (canceled_after round)
            (pipe.answer round (offered bytes w.written))
            w in
        next.1 ≡ true
        → write_loop pipe canceled canceled_after (suc fuel) round bytes w
          ≡ write_loop pipe canceled canceled_after fuel (suc round) bytes next.0
  unfolding write_loop
  loop_goes fuel round bytes w goes on = rw (goes, on, write_loop) refl

  loop_breaks :
      (fuel round : ℕ) (bytes : List ℕ) (w : Writing)
      → (ltb w.written (length bytes) && not (canceled round)) ≡ true
      → let next =
          after_write bytes
            (canceled_after round)
            (pipe.answer round (offered bytes w.written))
            w in
        next.1 ≡ false
        → write_loop pipe canceled canceled_after (suc fuel) round bytes w ≡ some next.0
  unfolding write_loop
  loop_breaks fuel round bytes w goes off = rw (goes, off, write_loop) refl

  loop_stops :
      (fuel round : ℕ) (bytes : List ℕ) (w : Writing)
      → (ltb w.written (length bytes) && not (canceled round)) ≡ false
      → write_loop pipe canceled canceled_after (suc fuel) round bytes w ≡ some w
  unfolding write_loop
  loop_stops fuel round bytes w stops = rw (stops, write_loop) refl

  pub write_loop-IsDelivered :
      (fuel round : ℕ) (bytes : List ℕ) (w : Writing)
      → length bytes < w.written + fuel
      → IsExact bytes w
      → (v : Writing) × (write_loop pipe canceled canceled_after fuel round bytes w ≡ some v)
        × IsDelivered bytes v
  write_loop-IsDelivered zero round bytes w f i = absurd (omega (arith, f, i.counted))
  write_loop-IsDelivered (suc fuel) round bytes w f i =
      elim (Bool-cases (ltb w.written (length bytes) && not (canceled round))) [
        | inl goes ↦
            let a = pipe.answer round (offered bytes w.written) in
            let next = after_write bytes (canceled_after round) a w in
            let m =
              after_write-Moves bytes (canceled_after round) a w
                (λ n e. pipe.fits round (offered bytes w.written) n e) i in
            elim (Bool-cases next.1) [
              | inl on ↦
                  let (exact, grew) = m.more on in
                  let r =
                    write_loop-IsDelivered fuel (suc round) bytes next.0 (omega (arith, grew, f))
                      exact in
                  (r.0, loop_goes fuel round bytes w goes on ∙ r.1, r.2)
              | inr off ↦ (next.0, loop_breaks fuel round bytes w goes off, m.delivered)
            ]
        | inr stops ↦ (w, loop_stops fuel round bytes w stops, IsExact-IsDelivered bytes w i)
      ]

  -- The loop that writes a request ends within one round more than its bytes, whatever the pipe
  -- answers and whenever it is canceled. The pipe then has the first bytes of the request: as many
  -- as the result counts and, only if the result is marked as uncertain, up to 4096 more.
  pub write_loop-ends :
      (bytes : List ℕ)
      → (v : Writing) × (write_loop pipe canceled canceled_after
            (suc (length bytes))
            0
            bytes
            nothing_written
          ≡ some v)
        × ((input_result bytes v).bytes_written ≤ length bytes)
        × (extra : ℕ) × (extra
            ≤ (if (input_result bytes v).write_completion_uncertain then chunk_bytes else 0))
        × (v.delivered ≡ take ((input_result bytes v).bytes_written + extra) bytes)
  write_loop-ends bytes =
      let (v, returned, delivered) =
        write_loop-IsDelivered (suc (length bytes)) 0 bytes nothing_written (omega arith)
          record { counted = omega arith; first = refl; certain = refl } in
      (v, returned, delivered.counted, delivered.extra, delivered.few, delivered.first)
