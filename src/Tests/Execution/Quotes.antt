-- ===== src/Tests/Execution/Quotes.antt =====
-- src/execution/native.rs: `quote_argument` against a reader of command lines.
use master_control_program.Base.{
  ℕ, zero, suc, ◌+◌, ◌*◌, ◌/◌, ◌%◌, ◌≡◌, refl, sym, ap, ◌∙◌, Bool, true, false, not, ◌||◌, List, [],
  ◌∷◌, ◌++◌, ◌==◌, arith, Bool-cases, inl, inr,
}
use master_control_program.Execution.Quote.{
  quote, backslash, slashes, is_special, quote_loop, quote_argument,
}
use master_control_program.Execution.Quote.Parsed.{
  CommandLine, IsClear, IsEnd, argument-quote_argument,
}

-- Reads an argument after `n` backslashes.
unfoldable read_argument : ℕ → Bool → List ℕ → List ℕ
read_argument n quoted [] = slashes n
read_argument n quoted (c ∷ cs) = elim (c == backslash) [
  | true ↦ read_argument (suc n) quoted cs
  | false ↦ elim (c == quote) [
    | true ↦ elim (n % 2 == 0) [
      | true ↦ slashes (n / 2) ++ read_argument 0 (not quoted) cs
      | false ↦ slashes (n / 2) ++ (quote ∷ read_argument 0 quoted cs)
    ]
    | false ↦ elim (quoted || not (is_special c)) [
      | true ↦ slashes n ++ (c ∷ read_argument 0 quoted cs)
      | false ↦ slashes n
    ]
  ]
]

read_argument-slashes :
    (m n : ℕ) (quoted : Bool) (cs : List ℕ)
    → read_argument m quoted (slashes n ++ cs) ≡ read_argument (m + n) quoted cs
unfolding read_argument slashes
read_argument-slashes m zero quoted cs = let e : m + 0 ≡ m = omega arith in rw e refl
read_argument-slashes m (suc n) quoted cs =
    let e : suc m + n ≡ m + suc n = omega arith in
    read_argument-slashes (suc m) n quoted cs ∙ ap (λ k. read_argument k quoted cs) e

slashes-nil : (n : ℕ) → slashes n ++ [] ≡ slashes n
unfolding slashes
slashes-nil zero = refl
slashes-nil (suc n) = ap (λ l. backslash ∷ l) (slashes-nil n)

read_argument-clear :
    (n : ℕ) (quoted : Bool) (cs : List ℕ)
    → IsClear cs
    → read_argument n quoted cs ≡ slashes n ++ read_argument 0 quoted cs
unfolding read_argument slashes
read_argument-clear n quoted [] h = sym (slashes-nil n)
read_argument-clear n quoted (c ∷ cs) h = elim (Bool-cases (quoted || not (is_special c))) [
  | inl part ↦ rw (h.1, h.0, part, read_argument) refl
  | inr done ↦ rw (h.1, h.0, done, read_argument) (sym (slashes-nil n))
]

reads_halved :
    (quoted : Bool) (n : ℕ) (cs : List ℕ)
    → read_argument (n * 2) quoted (quote ∷ cs) ≡ slashes n ++ read_argument 0 quoted (quote ∷ cs)
unfolding read_argument slashes
reads_halved quoted n cs = ground arith

reads_escaped :
    (quoted : Bool) (n : ℕ) (cs : List ℕ)
    → read_argument (suc (n * 2)) quoted (quote ∷ cs)
      ≡ slashes n ++ (quote ∷ read_argument 0 quoted cs)
unfolding read_argument
reads_escaped quoted n cs = ground arith

reads_plain :
    (quoted : Bool) (c : ℕ) (cs : List ℕ)
    → (c == quote) ≡ false
    → (c == backslash) ≡ false
    → (quoted || not (is_special c)) ≡ true
    → read_argument 0 quoted (c ∷ cs) ≡ c ∷ read_argument 0 quoted cs
unfolding read_argument slashes
reads_plain quoted c cs q b p = rw (b, q, p, read_argument) refl

reads_end : (cs : List ℕ) → IsEnd cs → read_argument 0 false cs ≡ []
unfolding read_argument slashes
reads_end [] e = refl
reads_end (c ∷ cs) e = ground (arith, ◌||◌, not)

after_slashes :
    (n : ℕ) (quoted : Bool) (cs : List ℕ)
    → read_argument 0 quoted (slashes n ++ cs) ≡ read_argument n quoted cs
after_slashes n quoted cs =
    let e : 0 + n ≡ n = omega arith in
    read_argument-slashes 0 n quoted cs ∙ ap (λ k. read_argument k quoted cs) e

reads_literal :
    (quoted : Bool) (n : ℕ) (cs : List ℕ)
    → IsClear cs
    → read_argument 0 quoted (slashes n ++ cs) ≡ slashes n ++ read_argument 0 quoted cs
reads_literal quoted n cs h = after_slashes n quoted cs ∙ read_argument-clear n quoted cs h

reads_double :
    (quoted : Bool) (n : ℕ) (cs : List ℕ)
    → read_argument 0 quoted (slashes (n * 2) ++ (quote ∷ cs))
      ≡ slashes n ++ read_argument 0 quoted (quote ∷ cs)
reads_double quoted n cs = after_slashes (n * 2) quoted (quote ∷ cs) ∙ reads_halved quoted n cs

reads_quote :
    (quoted : Bool) (n : ℕ) (cs : List ℕ)
    → read_argument 0 quoted (slashes (n * 2) ++ (backslash ∷ quote ∷ cs))
      ≡ slashes n ++ (quote ∷ read_argument 0 quoted cs)
unfolding read_argument
reads_quote quoted n cs =
    after_slashes (n * 2) quoted (backslash ∷ quote ∷ cs) ∙ reads_escaped quoted n cs

reads_open : (cs : List ℕ) → read_argument 0 false (quote ∷ cs) ≡ read_argument 0 true cs
unfolding read_argument slashes
reads_open cs = refl

reads_close :
    (cs : List ℕ) → IsEnd cs → read_argument 0 true (quote ∷ cs) ≡ read_argument 0 false cs
unfolding read_argument slashes
reads_close cs e = refl

abbrev reader : CommandLine
reader = record {
  argument = read_argument 0;
  plain = reads_plain;
  ends = reads_end;
  opens = reads_open;
  closes = reads_close;
  literal = reads_literal;
  halved = reads_double;
  escaped = reads_quote;
}

-- A path with a space that ends in a backslash, a quote, and the next argument.
argument-quote_argument_example :
    read_argument 0 false (quote_argument (67 ∷ 92 ∷ 32 ∷ 92 ∷ 34 ∷ 92 ∷ []) ++ (32 ∷ 120 ∷ []))
    ≡ 67 ∷ 92 ∷ 32 ∷ 92 ∷ 34 ∷ 92 ∷ []
argument-quote_argument_example =
    argument-quote_argument reader (67 ∷ 92 ∷ 32 ∷ 92 ∷ 34 ∷ 92 ∷ []) (32 ∷ 120 ∷ []) refl

quoted_path :
    quote_argument (67 ∷ 92 ∷ 32 ∷ 92 ∷ 34 ∷ 92 ∷ [])
    ≡ 34 ∷ 67 ∷ 92 ∷ 32 ∷ 92 ∷ 92 ∷ 92 ∷ 34 ∷ 92 ∷ 92 ∷ 34 ∷ []
unfolding quote_argument quote_loop slashes
quoted_path = refl
