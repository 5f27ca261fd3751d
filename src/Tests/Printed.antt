-- ===== src/Tests/Printed.antt =====
-- Ten numbers, each printed as so many letters.
use pico_proving_service.Prelude.{
  ℕ, zero, suc, ◌≡◌, refl, ap, List, [], ◌∷◌, some, Text, ok, length, replicate, All, Option, ◌∙◌,
}
use pico_proving_service.Prelude.Trim.{trim_0x, is_whitespace}
use pico_proving_service.Prelude.Trim.Laws.{IsPlain}
use pico_proving_service.Onchain.{decode_gnark_proof_to_bytes}
use pico_proving_service.Onchain.Printed.{bytes_together, printed, decode-printed}
use pico_proving_service.Tests.Service.{gnark}

abbrev letters : ℕ → Text
letters n = replicate n b'a'

letters-IsPlain : (n : ℕ) → All (IsPlain b',') (letters n)
unfolding is_whitespace
letters-IsPlain zero = tt
letters-IsPlain (suc n) = ((refl, refl), letters-IsPlain n)

length-letters : (n : ℕ) → length (letters n) ≡ n
length-letters zero = refl
length-letters (suc n) = ap suc (length-letters n)

trim_0x-letters : (n : ℕ) → trim_0x (letters n) ≡ letters n
unfolding trim_0x
trim_0x-letters zero = refl
trim_0x-letters (suc zero) = refl
trim_0x-letters (suc (suc n)) = refl

letters_read : (n : ℕ) → ◌≡◌ {A = Option ℕ} (some (length (trim_0x (letters n)))) (some n)
letters_read n = ap some (ap (λ x. length x) (trim_0x-letters n) ∙ length-letters n)

abbrev ten_numbers : List ℕ
ten_numbers = 3 ∷ 1 ∷ 4 ∷ 1 ∷ 5 ∷ 9 ∷ 2 ∷ 6 ∷ 5 ∷ 3 ∷ []

decode-printed_example :
    decode_gnark_proof_to_bytes gnark (printed gnark letters ten_numbers)
    ≡ ok (bytes_together gnark ten_numbers)
decode-printed_example =
    decode-printed gnark letters ten_numbers letters-IsPlain letters_read (λ u. refl) refl
