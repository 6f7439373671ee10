-- ===== src/Execution/Quote/Parsed.antt =====
-- src/execution/native.rs: a process reads a quoted argument as it was given.
use mathlib.Core.Path.{subst}
use mathlib.Core.List.{append_assoc}
use master_control_program.Base.{
  ℕ, zero, suc, ◌*◌, ◌≡◌, refl, sym, ap, ◌∙◌, inl, inr, Bool, true, false, not, ◌&&◌, ◌||◌, List,
  [], ◌∷◌, ◌++◌, any, ◌==◌, Bool-cases, arith,
}
use master_control_program.Execution.Quote.{
  space, quote, backslash, slashes, is_special, quote_loop, is_empty, quote_argument,
}

-- The text ends, or goes on with another character than a quote or a backslash.
abbrev pub IsClear : List ℕ → Type 0
IsClear [] = Unit
IsClear (c ∷ cs) = ((c == quote) ≡ false) × ((c == backslash) ≡ false)

-- The text ends, or goes on with a space.
abbrev pub IsEnd : List ℕ → Type 0
IsEnd [] = Unit
IsEnd (c ∷ cs) = (c == space) ≡ true

-- How Windows is documented to read one argument of a command line, in quotes or not: what `argument`
-- answers is the argument up to its end.
pub record CommandLine : Type 0 where
  pub argument : Bool → List ℕ → List ℕ
  pub plain :
      (quoted : Bool) (c : ℕ) (cs : List ℕ)
      → (c == quote) ≡ false
      → (c == backslash) ≡ false
      → (quoted || not (is_special c)) ≡ true
      → argument quoted (c ∷ cs) ≡ c ∷ argument quoted cs
  pub ends : (cs : List ℕ) → IsEnd cs → argument false cs ≡ []
  pub opens : (cs : List ℕ) → argument false (quote ∷ cs) ≡ argument true cs
  pub closes : (cs : List ℕ) → IsEnd cs → argument true (quote ∷ cs) ≡ argument false cs
  pub literal :
      (quoted : Bool) (n : ℕ) (cs : List ℕ)
      → IsClear cs
      → argument quoted (slashes n ++ cs) ≡ slashes n ++ argument quoted cs
  pub halved :
      (quoted : Bool) (n : ℕ) (cs : List ℕ)
      → argument quoted (slashes (n * 2) ++ (quote ∷ cs))
        ≡ slashes n ++ argument quoted (quote ∷ cs)
  pub escaped :
      (quoted : Bool) (n : ℕ) (cs : List ℕ)
      → argument quoted (slashes (n * 2) ++ (backslash ∷ quote ∷ cs))
        ≡ slashes n ++ (quote ∷ argument quoted cs)

IsEnd-IsClear : (cs : List ℕ) → IsEnd cs → IsClear cs
IsEnd-IsClear [] e = tt
IsEnd-IsClear (c ∷ cs) e = (ground arith, ground arith)

slashes-suc : (n : ℕ) (cs : List ℕ) → slashes (suc n) ++ cs ≡ slashes n ++ (backslash ∷ cs)
unfolding slashes
slashes-suc zero cs = refl
slashes-suc (suc n) cs = ap (λ l. backslash ∷ l) (slashes-suc n cs)

quote_loop_letter :
    (n c : ℕ) (cs : List ℕ)
    → (c == backslash) ≡ false
    → (c == quote) ≡ false
    → quote_loop n (c ∷ cs) ≡ slashes (n * 1) ++ (c ∷ quote_loop 0 cs)
unfolding quote_loop
quote_loop_letter n c cs other letter = rw (other, letter, quote_loop) refl

module _ (line : CommandLine) where
  quote_loop-argument :
      (n : ℕ) (cs rest : List ℕ)
      → IsEnd rest
      → line.argument true (quote_loop n cs ++ rest) ≡ slashes n ++ cs
  unfolding quote_loop slashes
  quote_loop-argument n [] rest e =
      rw
        (
          append_assoc (slashes (n * 2)) (quote ∷ []) rest,
          line.halved true n rest,
          line.closes rest e,
          line.ends rest e,
        )
        refl
  quote_loop-argument n (c ∷ cs) rest e = elim (Bool-cases (c == backslash)) [
    | inl slash ↦
        let k : backslash ≡ c = ground arith in
        subst (λ d. line.argument true (quote_loop n (d ∷ cs) ++ rest) ≡ slashes n ++ (d ∷ cs)) k
          (quote_loop-argument (suc n) cs rest e ∙ slashes-suc n cs)
    | inr other ↦ elim (Bool-cases (c == quote)) [
      | inl quotes ↦
          let k : quote ≡ c = ground arith in
          let tail = backslash ∷ quote ∷ quote_loop 0 cs in
          subst (λ d. line.argument true (quote_loop n (d ∷ cs) ++ rest) ≡ slashes n ++ (d ∷ cs)) k
            (ap (λ l. line.argument true l) (append_assoc (slashes (n * 2)) tail rest)
              ∙ line.escaped true n (quote_loop 0 cs ++ rest)
              ∙ ap (λ l. slashes n ++ (quote ∷ l)) (quote_loop-argument 0 cs rest e))
      | inr letter ↦
          let k : n * 1 ≡ n = omega arith in
          let step = quote_loop_letter n c cs other letter in
          ap (λ l. line.argument true (l ++ rest))
            (step ∙ ap (λ m. slashes m ++ (c ∷ quote_loop 0 cs)) k)
          ∙ ap (λ l. line.argument true l) (append_assoc (slashes n) (c ∷ quote_loop 0 cs) rest)
          ∙ line.literal true n (c ∷ (quote_loop 0 cs ++ rest)) (letter, other)
          ∙ ap (λ l. slashes n ++ l)
              (line.plain true c (quote_loop 0 cs ++ rest) letter other refl
                ∙ ap (λ l. c ∷ l) (quote_loop-argument 0 cs rest e))
    ]
  ]

  plain-argument :
      (n : ℕ) (cs rest : List ℕ)
      → any is_special cs ≡ false
      → IsEnd rest
      → line.argument false (slashes n ++ (cs ++ rest)) ≡ slashes n ++ cs
  unfolding slashes
  plain-argument n [] rest p e =
      line.literal false n rest (IsEnd-IsClear rest e) ∙ ap (λ l. slashes n ++ l) (line.ends rest e)
  plain-argument n (c ∷ cs) rest p e = elim (Bool-cases (c == backslash)) [
    | inl slash ↦
        let k : backslash ≡ c = ground arith in
        subst (λ d. line.argument false (slashes n ++ (d ∷ (cs ++ rest))) ≡ slashes n ++ (d ∷ cs)) k
          (ap (λ l. line.argument false l) (sym (slashes-suc n (cs ++ rest)))
            ∙ plain-argument (suc n) cs rest (ground (arith, ◌||◌)) e
            ∙ slashes-suc n cs)
    | inr other ↦
        let letter : (c == quote) ≡ false = ground (arith, ◌||◌) in
        line.literal false n (c ∷ (cs ++ rest)) (letter, other)
        ∙ ap (λ l. slashes n ++ l)
            (line.plain false c (cs ++ rest) letter other (ground (arith, ◌||◌, not))
              ∙ ap (λ l. c ∷ l) (plain-argument 0 cs rest (ground (arith, ◌||◌)) e))
  ]

  -- A process that reads its command line as Windows documents it, with the rules for quotes and
  -- backslashes that are assumed of the reader, gets an argument as it was given, if the quoted
  -- argument is followed by a space or by the end of the command line.
  pub argument-quote_argument :
      (given rest : List ℕ)
      → IsEnd rest
      → line.argument false (quote_argument given ++ rest) ≡ given
  unfolding quote_argument slashes
  argument-quote_argument given rest e =
      elim (Bool-cases (not (is_empty given) && not (any is_special given))) [
        | inl bare ↦
            rw (bare, quote_argument) (plain-argument 0 given rest (ground (arith, ◌&&◌, not)) e)
        | inr needs ↦
            rw (needs, quote_argument)
              (line.opens (quote_loop 0 given ++ rest) ∙ quote_loop-argument 0 given rest e)
      ]
