-- ===== src/Execution/Base64.antt =====
-- The `base64` crate's standard engine (padded alphabet), which is not part of the repository: what
-- the program relies on is that decoding undoes encoding and that three bytes take four characters.
use master_control_program.Base.{ℕ, ◌+◌, ◌*◌, ◌/◌, ◌≡◌, List, Option, some, length}

-- `usize::div_ceil`
abbrev pub div_ceil3 : ℕ → ℕ
div_ceil3 n = (n + 2) / 3

pub record Base64 : Type 0 where
  pub encode : List ℕ → List ℕ
  pub decode : List ℕ → Option (List ℕ)
  pub decode-encode : (bytes : List ℕ) → decode (encode bytes) ≡ some bytes
  pub length-encode : (bytes : List ℕ) → length (encode bytes) ≡ div_ceil3 (length bytes) * 4
