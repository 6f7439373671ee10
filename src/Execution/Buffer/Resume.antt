-- ===== src/Execution/Buffer/Resume.antt =====
-- src/execution/buffer.rs: a client that reads on from the cursor it was given.
use mathlib.Core.List.{append_assoc, append-nil}
use mathlib.Core.Option.{some-injective}
use mathlib.Core.Path.{subst}
use master_control_program.Base.{
  ℕ, ◌+◌, ◌≤◌, ◌≡◌, refl, sym, ap, ◌∙◌, some, List, [], ◌∷◌, ◌++◌, length, take, drop, arith, zero,
  suc, drop-append-le, drop-drop, take-append-take-drop, Option, none, inl, inr, ok, Option-cases,
  unwrap_or, length-append, length-take, length-drop,
}
use master_control_program.Execution.Base64.{Base64}
use master_control_program.Execution.Buffer.{OutputChunk, ByteBuffer, append, read, start}
use master_control_program.Execution.Buffer.Stream.{
  Shows, Represents, append-Represents, read-Shows,
}

-- Several calls of `append`, and the bytes that they are given.
unfoldable pub append_all : ByteBuffer → List (List ℕ) → Option ByteBuffer
append_all buffer [] = some buffer
append_all buffer (bytes ∷ more) = elim (append buffer bytes) [
  | none ↦ none
  | some next ↦ append_all next more
]

abbrev pub joined : List (List ℕ) → List ℕ
joined [] = []
joined (bytes ∷ more) = bytes ++ joined more

append_all-Represents :
    (buffer : ByteBuffer) (stream : List ℕ) (more : List (List ℕ)) {after : ByteBuffer}
    → append_all buffer more ≡ some after
    → Represents buffer stream
    → Represents after (stream ++ joined more)
unfolding append_all
append_all-Represents buffer stream [] {after} h r =
    subst (λ b. Represents b (stream ++ [])) {x = buffer} {y = after} (some-injective _ _ h)
      (subst (Represents buffer) (sym (append-nil stream)) r)
append_all-Represents buffer stream (bytes ∷ more) {after} h r =
    elim (Option-cases (append buffer bytes)) [
      | inl panic ↦ cc (panic, rw (append_all, panic) at h)
      | inr (next, e) ↦ subst (Represents after) (append_assoc stream bytes (joined more)) (
          append_all-Represents next (stream ++ bytes) more (rw (append_all, e) at h)
            (append-Represents r bytes e))
    ]

module _ {ℓ} {A : Type ℓ} where
  take-prefix : (n : ℕ) (xs ys : List A) → take n xs ≡ take (length (take n xs)) (xs ++ ys)
  take-prefix zero xs ys = refl
  take-prefix (suc n) [] ys = refl
  take-prefix (suc n) (x ∷ xs) ys = ap (◌∷◌ x) (take-prefix n xs ys)

  take_self : (n : ℕ) (xs : List A) → take n xs ≡ take (length (take n xs)) xs
  take_self zero xs = refl
  take_self (suc n) [] = refl
  take_self (suc n) (x ∷ xs) = ap (◌∷◌ x) (take_self n xs)

  take-append-take :
      (n m : ℕ) (xs ys : List A)
      → let k = length (take n xs) in
        take n xs ++ take m (drop k (xs ++ ys))
        ≡ take (k + length (take m (drop k (xs ++ ys)))) (xs ++ ys)
  take-append-take n m xs ys =
      let k = length (take n xs) in
      ap (λ l. l ++ take m (drop k (xs ++ ys))) (take-prefix n xs ys)
      ∙ (ap (λ l. take k (xs ++ ys) ++ l) (take_self m (drop k (xs ++ ys)))
          ∙ take-append-take-drop k (length (take m (drop k (xs ++ ys)))) (xs ++ ys))

module _ (base64 : Base64) where
  -- Two chunks, the second read from the cursor after the first when the stream had grown: if no
  -- gap is reported, they decode to consecutive bytes of the stream.
  resume_chunks :
      {stream : List ℕ} (more : List ℕ) {capacity capacity' requested n m : ℕ}
      {first second : OutputChunk}
      → Shows base64 stream capacity requested n first
      → Shows base64 (stream ++ more) capacity' first.next_cursor m second
      → second.gap_bytes ≡ 0
      → first.start_cursor ≤ length stream
      → (a : List ℕ) × (b : List ℕ) × (base64.decode first.bytes_base64 ≡ some a)
        × (base64.decode second.bytes_base64 ≡ some b)
        × (a ++ b ≡ take (length a + length b) (drop first.start_cursor (stream ++ more)))
        × (second.next_cursor ≡ first.start_cursor + (length a + length b))
  resume_chunks {stream} more {n} {m} {first} {second} f s no_gap inside = (
    take n xs,
    take m (drop second.start_cursor (stream ++ more)),
    rw f.encodes (base64.decode-encode _),
    rw s.encodes (base64.decode-encode _),
    rw (at_second, drop-append-le first.start_cursor stream more inside)
        (take-append-take n m xs more),
    omega (arith, f.next, s.next, s.skips, no_gap),
  )
    where
      xs : List ℕ
      xs = drop first.start_cursor stream

      at_second : drop second.start_cursor (stream ++ more) ≡ drop (length (take n xs)) (xs ++ more)
      at_second =
          ap (λ k. drop k (stream ++ more)) {y = first.start_cursor + length (take n xs)}
            (omega (arith, f.next, s.skips, no_gap))
          ∙ (sym (drop-drop (length (take n xs)) first.start_cursor (stream ++ more))
              ∙ ap (drop (length (take n xs)))
                  (drop-append-le first.start_cursor stream more inside))

  -- The chunk that a read returns shows the stream.
  read-ok :
      {buffer : ByteBuffer} {stream : List ℕ}
      → Represents buffer stream
      → (cursor : Option ℕ) (n : ℕ) {chunk : OutputChunk} → read base64 buffer cursor n ≡ ok chunk
      → Shows base64 stream buffer.capacity (unwrap_or cursor (start buffer)) n chunk
        × (unwrap_or cursor (start buffer) ≤ length stream)
  read-ok {buffer} {stream} r cursor n {chunk} h = elim (read-Shows base64 r cursor n) [
    | inl (inside, c, e, shows) ↦ (
      subst (Shows base64 stream buffer.capacity (unwrap_or cursor (start buffer)) n) {x = c}
          {y = chunk} (ground arith) shows,
      inside,
    )
    | inr (beyond, e) ↦ cc (e, h)
  ]

  read_inside :
      {buffer : ByteBuffer} {stream : List ℕ}
      → Represents buffer stream
      → (cursor n : ℕ) → cursor ≤ length stream
      → (chunk : OutputChunk) × (read base64 buffer (some cursor) n ≡ ok chunk)
        × Shows base64 stream buffer.capacity cursor n chunk
  read_inside r cursor n h = elim (read-Shows base64 r (some cursor) n) [
    | inl (inside, chunk, e, shows) ↦ (chunk, e, shows)
    | inr (beyond, e) ↦ absurd (omega (arith, beyond, h))
  ]

  -- A client reads a buffer that holds the last bytes of a stream, any number of appends follow,
  -- and it reads again from the cursor that it was given. If the bytes after that cursor fit the
  -- capacity, the second read succeeds and reports no gap, and the two chunks decode to consecutive
  -- bytes of the longer stream, from the start of the first to the cursor after the second.
  pub resume_reads :
      {buffer after : ByteBuffer} {stream : List ℕ} (more : List (List ℕ)) (cursor : Option ℕ)
      (n m : ℕ) {first : OutputChunk}
      → Represents buffer stream
      → read base64 buffer cursor n ≡ ok first
      → append_all buffer more ≡ some after
      → length (stream ++ joined more) ≤ first.next_cursor + after.capacity
      → (second : OutputChunk) × (read base64 after (some first.next_cursor) m ≡ ok second)
        × (second.gap_bytes ≡ 0)
        × (a : List ℕ) × (b : List ℕ) × (base64.decode first.bytes_base64 ≡ some a)
        × (base64.decode second.bytes_base64 ≡ some b)
        × (a ++ b ≡ take (length a + length b) (drop first.start_cursor (stream ++ joined more)))
        × (second.next_cursor ≡ first.start_cursor + (length a + length b))
  resume_reads {buffer} {after} {stream} more cursor n m {first} r h grown room =
      let (f, inside) = read-ok r cursor n h in
      let started : first.start_cursor ≤ length stream = omega (arith, f.from, inside) in
      let rest = drop first.start_cursor stream in
      let size = length-append stream (joined more) in
      let stays : first.next_cursor ≤ length (stream ++ joined more) =
        omega (
          arith,
          f.next,
          started,
          size,
          length-take n rest,
          length-drop first.start_cursor stream,
        ) in
      let (second, e, s) =
        read_inside (append_all-Represents buffer stream more grown r) first.next_cursor m stays in
      let no_gap : second.gap_bytes ≡ 0 = omega (arith, s.from, s.skips, room) in
      let (a, b, first_bytes, second_bytes, joins, next) =
        resume_chunks (joined more) f s no_gap started in
      (second, e, no_gap, a, b, first_bytes, second_bytes, joins, next)
