-- ===== src/Execution/Utf8.antt =====
-- `str::from_utf8` and `String::from_utf8_lossy` of the standard library, over lists of bytes: a
-- maximal ill-formed part is replaced by the three bytes of U+FFFD.
use master_control_program.Base.{
  ℕ, zero, suc, ◌≡◌, refl, ap, Bool, true, false, List, [], ◌∷◌, in_range, ltb, ◌==◌, if◌then◌else◌,
}

-- What stands at the front of the bytes: a character of some more bytes, or an ill-formed part of
-- some more bytes.
pub data Front : Type 0 where
  char : ℕ → Front
  broken : ℕ → Front

abbrev continues : List ℕ → Bool
continues [] = false
continues (b ∷ _) = in_range 0x80 0xbf b

abbrev rest : List ℕ → List ℕ
rest [] = []
rest (b ∷ bs) = bs

-- The range of the second byte of a character of three or four bytes.
abbrev second_ok : ℕ → List ℕ → Bool
second_ok first [] = false
second_ok first (b ∷ _) =
    if first == 0xe0
    then in_range 0xa0 0xbf b
    else if first == 0xed
    then in_range 0x80 0x9f b
    else if first == 0xf0
    then in_range 0x90 0xbf b
    else if first == 0xf4
    then in_range 0x80 0x8f b
    else in_range 0x80 0xbf b

unfoldable pub front : ℕ → List ℕ → Front
front b bs =
    if ltb b 0x80
    then char 0
    else if in_range 0xc2 0xdf b
    then (if continues bs then char 1 else broken 0)
    else if in_range 0xe0 0xef b
    then (if second_ok b bs then (if continues (rest bs) then char 2 else broken 1) else broken 0)
    else if in_range 0xf0 0xf4 b
    then (if second_ok b bs
        then (if continues (rest bs)
            then (if continues (rest (rest bs)) then char 3 else broken 2)
            else broken 1)
        else broken 0)
    else broken 0

-- How many of the next bytes belong to what was read before: copied, or dropped.
pub data Pending : Type 0 where
  copy : ℕ → Pending
  skip : ℕ → Pending

abbrev pending : Front → Pending
pending (char n) = copy n
pending (broken n) = skip n

abbrev emit : Front → ℕ → List ℕ → List ℕ
emit (char n) b out = b ∷ out
emit (broken n) b out = 0xef ∷ 0xbf ∷ 0xbd ∷ out

lossy : Pending → List ℕ → List ℕ
unfolding front
lossy p [] = []
lossy (copy (suc n)) (b ∷ bs) = b ∷ lossy (copy n) bs
lossy (skip (suc n)) (b ∷ bs) = lossy (skip n) bs
lossy (copy zero) (b ∷ bs) = emit (front b bs) b (lossy (pending (front b bs)) bs)
lossy (skip zero) (b ∷ bs) = emit (front b bs) b (lossy (pending (front b bs)) bs)

valid : ℕ → List ℕ → Bool
unfolding front
valid n [] = true
valid (suc n) (b ∷ bs) = valid n bs
valid zero (b ∷ bs) = elim (front b bs) [ char n ↦ valid n bs | broken n ↦ false ]

unfoldable pub utf8_lossy : List ℕ → List ℕ
unfolding lossy
utf8_lossy bytes = lossy (copy 0) bytes

unfoldable pub is_utf8 : List ℕ → Bool
unfolding valid
is_utf8 bytes = valid 0 bytes

lossy-valid : (n : ℕ) (bytes : List ℕ) → valid n bytes ≡ true → lossy (copy n) bytes ≡ bytes
unfolding valid lossy
lossy-valid n [] h = refl
lossy-valid (suc n) (b ∷ bs) h = ap (◌∷◌ b) (lossy-valid n bs h)
lossy-valid zero (b ∷ bs) h = split (front b bs) h (λ n. lossy-valid n bs)
  where
    split :
        (f : Front)
        → elim f [ char n ↦ valid n bs | broken n ↦ false ] ≡ true
        → ((n : ℕ) → valid n bs ≡ true → lossy (copy n) bs ≡ bs)
        → emit f b (lossy (pending f) bs) ≡ b ∷ bs
    split (char n) h ih = ap (◌∷◌ b) (ih n h)
    split (broken n) h ih = cc

-- Well-formed text is not changed.
pub utf8_lossy-is_utf8 : (bytes : List ℕ) → is_utf8 bytes ≡ true → utf8_lossy bytes ≡ bytes
unfolding is_utf8 utf8_lossy
utf8_lossy-is_utf8 bytes h = lossy-valid 0 bytes h
