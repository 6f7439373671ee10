-- ===== src/Tests/Execution/Encoding.antt =====
-- A stand-in for base64 that keeps what the program relies on: three bytes become four characters,
-- the first of which counts the bytes.
use master_control_program.Base.{
  ℕ, zero, suc, ◌*◌, ◌≡◌, refl, ap, List, [], ◌∷◌, Option, some, length, arith,
}
use master_control_program.Execution.Base64.{Base64, div_ceil3}

abbrev pub encode : List ℕ → List ℕ
encode [] = []
encode (a ∷ []) = 1 ∷ a ∷ 0 ∷ 0 ∷ []
encode (a ∷ b ∷ []) = 2 ∷ a ∷ b ∷ 0 ∷ []
encode (a ∷ b ∷ c ∷ bytes) = 3 ∷ a ∷ b ∷ c ∷ encode bytes

abbrev pub group : ℕ → ℕ → ℕ → ℕ → List ℕ → List ℕ
group (suc zero) a b c bytes = a ∷ []
group (suc (suc zero)) a b c bytes = a ∷ b ∷ []
group _ a b c bytes = a ∷ b ∷ c ∷ bytes

abbrev pub decode_all : List ℕ → List ℕ
decode_all (n ∷ a ∷ b ∷ c ∷ text) = group n a b c (decode_all text)
decode_all _ = []

abbrev pub decode : List ℕ → Option (List ℕ)
decode text = some (decode_all text)

decode_all-encode : (bytes : List ℕ) → decode_all (encode bytes) ≡ bytes
decode_all-encode [] = refl
decode_all-encode (a ∷ []) = refl
decode_all-encode (a ∷ b ∷ []) = refl
decode_all-encode (a ∷ b ∷ c ∷ bytes) = ap (λ l. a ∷ b ∷ c ∷ l) (decode_all-encode bytes)

pub decode-encode : (bytes : List ℕ) → decode (encode bytes) ≡ some bytes
decode-encode bytes = ap some (decode_all-encode bytes)

pub length-encode : (bytes : List ℕ) → length (encode bytes) ≡ div_ceil3 (length bytes) * 4
length-encode [] = refl
length-encode (a ∷ []) = refl
length-encode (a ∷ b ∷ []) = refl
length-encode (a ∷ b ∷ c ∷ bytes) = omega (arith, length-encode bytes)

abbrev pub encoding : Base64
encoding = record {
  encode = encode;
  decode = decode;
  decode-encode = decode-encode;
  length-encode = length-encode;
}
