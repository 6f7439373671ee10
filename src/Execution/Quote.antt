-- ===== src/Execution/Quote.antt =====
-- src/execution/native.rs: `quote_argument`, an argument in the command line of a new process.
pub mod Parsed
use master_control_program.Base.{
  ℕ, zero, suc, ◌*◌, Bool, true, false, not, ◌&&◌, ◌||◌, List, [], ◌∷◌, ◌++◌, any, ◌==◌,
  if◌then◌else◌,
}

-- Characters by their code.
abbrev pub space : ℕ
space = 32

abbrev pub tab : ℕ
tab = 9

abbrev pub quote : ℕ
quote = 34

abbrev pub backslash : ℕ
backslash = 92

-- `repeat_n('\\', n)`
unfoldable pub slashes : ℕ → List ℕ
slashes zero = []
slashes (suc n) = backslash ∷ slashes n

abbrev pub is_special : ℕ → Bool
is_special c = (c == space) || ((c == tab) || (c == quote))

-- What the loop and the two statements after it append, with `n` backslashes counted.
unfoldable pub quote_loop : ℕ → List ℕ → List ℕ
quote_loop n [] = slashes (n * 2) ++ (quote ∷ [])
quote_loop n (c ∷ cs) = elim (c == backslash) [
  | true ↦ quote_loop (suc n) cs
  | false ↦
      slashes (n * (if c == quote then 2 else 1))
      ++ ((if c == quote then backslash ∷ [] else []) ++ (c ∷ quote_loop 0 cs))
]

abbrev pub is_empty : List ℕ → Bool
is_empty [] = true
is_empty (c ∷ cs) = false

unfoldable pub quote_argument : List ℕ → List ℕ
quote_argument argument =
    if not (is_empty argument) && not (any is_special argument)
    then argument
    else quote ∷ quote_loop 0 argument
