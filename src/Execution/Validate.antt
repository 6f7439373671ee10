-- ===== src/Execution/Validate.antt =====
-- src/execution.rs: `validate_size`, `validate_start` and `input_bytes`.
use master_control_program.Base.{
  ℕ, ◌+◌, ◌-◌, ◌*◌, ◌≤◌, ◌≡◌, ◌⊎◌, inl, Bool, not, ◌&&◌, Option, none, some, List, [], ◌∷◌, length,
  any, all, sum_by, arith, leb, ltb, ◌==◌, in_range, if◌then◌else◌, unwrap_or, is_none_or, Result,
  ok, err, ensure, or_err, ◌>>=◌, ◌>>◌, refl, ◌<◌,
}
use master_control_program.Execution.Base64.{Base64, div_ceil3}
use master_control_program.Execution.Record.{
  Text, JobStartInput, ExecutionError, default_output_bytes, max_output_bytes, max_input_bytes,
  invalid_size, invalid_program, invalid_arguments, arguments_too_long, cwd_too_long,
  too_many_variables, environment_too_long, invalid_output_limit, invalid_timeout, text_and_base64,
  no_input, input_too_long, base64_too_long, bad_base64,
}

unfoldable pub validate_size : ℕ → ℕ → Result ExecutionError (Unit {0})
validate_size cols rows =
    ensure (ltb 0 cols && (ltb 0 rows && (leb cols 1000 && leb rows 1000))) invalid_size

abbrev contains_nul : Text → Bool
contains_nul = any (λ byte. byte == 0)

-- The loops that bound a total: each part has to fit in what the parts before it left.
unfoldable pub check_total : ExecutionError → ℕ → ℕ → List Text → Result ExecutionError (Unit {0})
check_total e limit used [] = ok tt
check_total e limit used (part ∷ parts) =
    ensure (leb (length part) (limit - used)) e >> check_total e limit (used + length part) parts

abbrev pub max_command_bytes : ℕ
max_command_bytes = 32767 * 4

abbrev pub max_environment_bytes : ℕ
max_environment_bytes = 1_048_576 * 4

-- The names and the values of the environment, in the order of the map.
abbrev pub env_parts : List (Text × Option Text) → List Text
env_parts [] = []
env_parts ((name, none) ∷ env) = name ∷ env_parts env
env_parts ((name, some value) ∷ env) = name ∷ value ∷ env_parts env

unfoldable pub validate_start : JobStartInput → Result ExecutionError ℕ
validate_start input = do
  ensure (ltb 0 (length input.program) && not (contains_nul input.program)) invalid_program
  ensure (leb (length input.args) 4096 && all (λ arg. not (contains_nul arg)) input.args)
      invalid_arguments
  check_total arguments_too_long max_command_bytes 0 (input.program ∷ input.args)
  ensure (is_none_or input.cwd (λ cwd. leb (length cwd) (32767 * 4))) cwd_too_long
  ensure (leb (length input.env) 1024) too_many_variables
  check_total environment_too_long max_environment_bytes 0 (env_parts input.env)
  let capacity = unwrap_or input.output_limit_bytes default_output_bytes
  ensure (in_range 1 max_output_bytes capacity) invalid_output_limit
  ensure (is_none_or input.timeout_ms (λ timeout. in_range 1 604_800_000 timeout)) invalid_timeout
  ok capacity

module _ (base64 : Base64) where
  unfoldable pub input_bytes : Option Text → Option Text → Bool → Result ExecutionError (List ℕ)
  input_bytes (some text) (some encoded) required = err text_and_base64
  input_bytes none none required = if required then err no_input else ok []
  input_bytes (some text) none required =
      ensure (leb (length text) max_input_bytes) input_too_long >> ok text
  input_bytes none (some encoded) required = do
    ensure (leb (length encoded) (div_ceil3 max_input_bytes * 4)) base64_too_long
    bytes ← or_err (base64.decode encoded) bad_base64
    ensure (leb (length bytes) max_input_bytes) input_too_long
    ok bytes

-- The loop accepts exactly the parts whose total fits.
pub check_total-cases :
    (e : ExecutionError) (limit used : ℕ) (parts : List Text)
    → used ≤ limit
    → ((check_total e limit used parts ≡ ok tt) × (used + sum_by length parts ≤ limit))
      ⊎ ((check_total e limit used parts ≡ err e) × (limit < used + sum_by length parts))
unfolding check_total
check_total-cases e limit used [] h = inl (refl, omega arith)
check_total-cases e limit used (part ∷ parts) h =
    ground (arith, check_total-cases e limit (used + length part) parts)

-- An accepted start keeps every bound on which the allocations before the process is created rest.
pub record IsBounded (input : JobStartInput) (capacity : ℕ) : Type 0 where
  pub program : 0 < length input.program
  pub command : length input.program + sum_by length input.args ≤ max_command_bytes
  pub arguments : length input.args ≤ 4096
  pub variables : length input.env ≤ 1024
  pub environment : sum_by length (env_parts input.env) ≤ max_environment_bytes
  pub chosen : capacity ≡ unwrap_or input.output_limit_bytes default_output_bytes
  pub nonempty : 1 ≤ capacity
  pub bounded : capacity ≤ max_output_bytes

-- A start that is accepted keeps the bounds on its program, command line, environment and output.
pub validate_start-IsBounded :
    (input : JobStartInput) {capacity : ℕ}
    → validate_start input ≡ ok capacity
    → IsBounded input capacity
unfolding validate_start
validate_start-IsBounded input h = ground (
  arith,
  check_total-cases arguments_too_long max_command_bytes 0 (input.program ∷ input.args),
  check_total-cases environment_too_long max_environment_bytes 0 (env_parts input.env),
)

module _ (base64 : Base64) where
  -- What goes to a process or a terminal at once is bounded.
  pub input_bytes-le :
      (text encoded : Option Text) (required : Bool) {bytes : List ℕ}
      → input_bytes base64 text encoded required ≡ ok bytes
      → length bytes ≤ max_input_bytes
  unfolding input_bytes
  input_bytes-le (some text) (some encoded) required h = cc
  input_bytes-le none none required h = ground arith
  input_bytes-le (some text) none required h = ground arith
  input_bytes-le none (some encoded) required h = ground arith

  -- At most 65,536 bytes that a client sends as base64 arrive as they are.
  pub input_bytes-encode :
      (bytes : List ℕ) (required : Bool)
      → length bytes ≤ max_input_bytes
      → input_bytes base64 none (some (base64.encode bytes)) required ≡ ok bytes
  unfolding input_bytes
  input_bytes-encode bytes required h =
      ground (arith, base64.decode-encode bytes, base64.length-encode bytes)
