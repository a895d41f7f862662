-- ===== src/Tests/Signature.antt =====
-- Runs of the encodings of src/crypto.rs.
use f2ido.Prelude.{
  ℕ, ◌≡◌, arith, some, List, [], ◌∷◌, ◌++◌, All, All-append, replicate, refl, zero, suc, ◌<◌,
}
use f2ido.Outcome.{ok}
use f2ido.Crypto.Signature.{der_encode_signature}
use f2ido.Crypto.Signature.Der.{value, read_signature, read_signature-der_encode_signature}

-- A number with its top bit set, and a small one.
abbrev first_number : List ℕ
first_number = 0x80 ∷ replicate 31 1

abbrev second_number : List ℕ
second_number = replicate 31 0 ++ 5 ∷ []

replicate_bytes : (n b : ℕ) → b < 256 → All (λ b. b < 256) (replicate n b)
replicate_bytes zero b h = tt
replicate_bytes (suc n) b h = (h, replicate_bytes n b h)

second_bytes : All (λ b. b < 256) second_number
second_bytes =
    All-append (λ b. b < 256) (replicate 31 0) (5 ∷ []) (replicate_bytes 31 0 (omega arith))
      (omega arith, tt)

read_signature-der_encode_signature_example :
    (out : List ℕ) × (der_encode_signature (first_number ++ second_number) tt ≡ ok out tt)
    × (read_signature out ≡ some (value first_number, 5))
read_signature-der_encode_signature_example =
    read_signature-der_encode_signature first_number second_number tt refl refl
      (omega arith, replicate_bytes 31 1 (omega arith)) second_bytes (omega arith) (omega arith)
