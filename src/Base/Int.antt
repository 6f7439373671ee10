-- ===== src/Base/Int.antt =====
-- Integers over the native numbers, under the library's names, with what screen coordinates need.
use Prim.Native.Nat.{ℕ, suc, ◌+◌, ◌-◌, ◌≤◌, ◌<◌}
use mathlib.Core.Path.{◌≡◌}
use mathlib.Core.Bool.{Bool}
use native.Mathlib.Omega.{arith}
use master_control_program.Base.Tests.{leb, ◌==◌, if◌then◌else◌}

-- `negsuc n` is -(n + 1).
pub data ℤ : Type 0 where
  pos : ℕ → ℤ
  negsuc : ℕ → ℤ

-- An integer as the difference of two numbers.
abbrev pub above : ℤ → ℕ
above (pos n) = n
above (negsuc n) = 0

abbrev pub below : ℤ → ℕ
below (pos n) = 0
below (negsuc n) = suc n

abbrev pub difference : ℕ → ℕ → ℤ
difference a b = if leb b a then pos (a - b) else negsuc (b - suc a)

infixl 65 ◌+ℤ◌
unfoldable pub ◌+ℤ◌ : ℤ → ℤ → ℤ
a +ℤ b = difference (above a + above b) (below a + below b)

infix 50 ◌≤ℤ◌ ◌<ℤ◌
abbrev pub ◌≤ℤ◌ : ℤ → ℤ → Type 0
a ≤ℤ b = above a + below b ≤ above b + below a

abbrev pub ◌<ℤ◌ : ℤ → ℤ → Type 0
a <ℤ b = above a + below b < above b + below a

abbrev pub le_ℤ : ℤ → ℤ → Bool
le_ℤ a b = leb (above a + below b) (above b + below a)

abbrev pub eq_ℤ : ℤ → ℤ → Bool
eq_ℤ a b = (above a + below b) == (above b + below a)

abbrev pub min_ℤ : ℤ → ℤ → ℤ
min_ℤ a b = if le_ℤ a b then a else b

abbrev pub max_ℤ : ℤ → ℤ → ℤ
max_ℤ a b = if le_ℤ a b then b else a

-- `a - b` as a number, 0 where it is negative.
abbrev pub gap : ℤ → ℤ → ℕ
gap a b = above a + below b - (above b + below a)

-- The sum in terms that `omega` reads, with the operation shut.
pub +ℤ_lem : (a b : ℤ) → above (a +ℤ b) + below a + below b ≡ below (a +ℤ b) + above a + above b
unfolding ◌+ℤ◌
+ℤ_lem a b = ground arith
