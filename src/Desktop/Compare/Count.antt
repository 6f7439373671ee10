-- ===== src/Desktop/Compare/Count.antt =====
-- src/desktop/observation.rs: how many pixels the loops of `compare` count.
use master_control_program.Base.{
  ℕ, zero, suc, ◌+◌, ◌*◌, ◌≤◌, ◌<◌, ◌≡◌, Bool, true, false, ◌||◌, List, ltb, if◌then◌else◌, arith,
  Bool-cases, ◌==◌, inl, sym, inr, ap,
}
use master_control_program.Desktop.Region.{Rect}
use master_control_program.Desktop.Compare.{differs, scan_row, scan_tile}

-- `n` pixels from pixel `i`, in the order of the buffer.
unfoldable pub differing : List ℕ → List ℕ → ℕ → ℕ → ℕ
differing previous current i zero = 0
differing previous current i (suc n) =
    (if differs previous current i then 1 else 0) + differing previous current (suc i) n

-- The pixels of `height` rows from `y`, `width` of each from `x`.
unfoldable pub block : List ℕ → List ℕ → ℕ → ℕ → ℕ → ℕ → ℕ → ℕ
block previous current stride y zero x width = 0
block previous current stride y (suc height) x width =
    differing previous current (y * stride + x) width
    + block previous current stride (suc y) height x width

module _ (previous current : List ℕ) where
  pub differing-add :
      (i m n : ℕ)
      → differing previous current i (m + n)
        ≡ differing previous current i m + differing previous current (i + m) n
  unfolding differing
  differing-add i zero n = ground arith
  differing-add i (suc m) n =
      let e : suc m + n ≡ suc (m + n) = omega arith in
      let f : i + suc m ≡ suc i + m = omega arith in
      rw (e, f) (ground (arith, differing-add (suc i) m n))

  pub scan_row-differing :
      (bounds : Rect) (y x n : ℕ) (s : ℕ × Bool)
      → let t = scan_row previous current bounds y x n s in
        let d = differing previous current (y * bounds.width + x) n in
        (t.0 ≡ s.0 + d) × (t.1 ≡ (s.1 || ltb 0 d))
  unfolding scan_row differing
  scan_row-differing bounds y x zero (pixels, changed) = ground arith
  scan_row-differing bounds y x (suc n) (pixels, true) = ground (
    arith,
    scan_row-differing bounds y (suc x) n (suc pixels, true),
    scan_row-differing bounds y (suc x) n (pixels, true),
  )
  scan_row-differing bounds y x (suc n) (pixels, false) = ground (
    arith,
    scan_row-differing bounds y (suc x) n (suc pixels, true),
    scan_row-differing bounds y (suc x) n (pixels, false),
  )

  pub scan_tile-block :
      (bounds : Rect) (y x width height : ℕ) (s : ℕ × Bool)
      → let t = scan_tile previous current bounds y x width height s in
        let b = block previous current bounds.width y height x width in
        (t.0 ≡ s.0 + b) × (t.1 ≡ (s.1 || ltb 0 b))
  unfolding scan_tile block
  scan_tile-block bounds y x width zero (pixels, changed) = ground arith
  scan_tile-block bounds y x width (suc height) (pixels, true) =
      let t = scan_row previous current bounds y x width (pixels, true) in
      ground (
        arith,
        scan_row-differing bounds y x width (pixels, true),
        scan_tile-block bounds (suc y) x width height t,
      )
  scan_tile-block bounds y x width (suc height) (pixels, false) =
      let t = scan_row previous current bounds y x width (pixels, false) in
      ground (
        arith,
        scan_row-differing bounds y x width (pixels, false),
        scan_tile-block bounds (suc y) x width height t,
      )

  pub block-add_width :
      (stride y height x m n : ℕ)
      → block previous current stride y height x (m + n)
        ≡ block previous current stride y height x m
          + block previous current stride y height (x + m) n
  unfolding block
  block-add_width stride y zero x m n = ground arith
  block-add_width stride y (suc height) x m n =
      ground
        (arith, differing-add (y * stride + x) m n, block-add_width stride (suc y) height x m n)

  pub block-add_height :
      (stride y g h x width : ℕ)
      → block previous current stride y (g + h) x width
        ≡ block previous current stride y g x width
          + block previous current stride (y + g) h x width
  unfolding block
  block-add_height stride y zero h x width = ground arith
  block-add_height stride y (suc g) h x width =
      let e : suc g + h ≡ suc (g + h) = omega arith in
      let f : y + suc g ≡ suc y + g = omega arith in
      rw (e, f) (ground (arith, block-add_height stride (suc y) g h x width))

  -- A pixel of the range that differs is counted.
  differing-positive :
      (i n k : ℕ)
      → i ≤ k
      → k < i + n
      → differs previous current k ≡ true
      → 0 < differing previous current i n
  unfolding differing
  differing-positive i zero k lo hi d = omega arith
  differing-positive i (suc n) k lo hi d = elim (Bool-cases (k == i)) [
    | inl here ↦ let e : k ≡ i = ground arith in rw (sym e) (rw d (omega arith))
    | inr later ↦
        let e = differing-positive (suc i) n k (ground arith) (omega arith) d in omega (arith, e)
  ]

  pub block-positive :
      (stride y height x width px py : ℕ)
      → y ≤ py
      → py < y + height
      → x ≤ px
      → px < x + width
      → differs previous current (py * stride + px) ≡ true
      → 0 < block previous current stride y height x width
  unfolding block
  block-positive stride y zero x width px py t b l r d = omega arith
  block-positive stride y (suc height) x width px py t b l r d = elim (Bool-cases (py == y)) [
    | inl here ↦
        let e : py ≡ y = ground arith in
        let lo : y * stride + x ≤ py * stride + px = omega (arith, ap (λ (k : ℕ). k * stride) e) in
        let hi : py * stride + px < y * stride + x + width =
          omega (arith, ap (λ (k : ℕ). k * stride) e) in
        omega (arith, differing-positive (y * stride + x) width (py * stride + px) lo hi d)
    | inr later ↦
        let e =
          block-positive stride (suc y) height x width px py (ground arith) (omega arith) l r d in
        omega (arith, e)
  ]
