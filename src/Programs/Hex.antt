-- ===== src/Programs/Hex.antt =====
-- Numbers in hexadecimal, as Rust's `{:064x}` prints them: with zeros in front, up to 64 digits.
use Prim.Native.Nat.{◌^◌}
use native.Mathlib.Nat.{pow-suc}
use pico_proving_service.Prelude.{
  ℕ, zero, suc, ◌+◌, ◌-◌, ◌*◌, ◌/◌, ◌%◌, ◌≤◌, ◌<◌, ◌≡◌, refl, ap, ◌∙◌, true, [], ◌∷◌, ◌++◌, Text,
  ltb, if◌then◌else◌, length, length-append, replicate, arith, Bool-cases, inl, inr,
}

unfoldable pub hex_digit : ℕ → ℕ
hex_digit d = if ltb d 10 then b'0' + d else b'a' + (d - 10)

-- The digits of `n`, in front of those that are there. `f` bounds the rounds.
hex_digits : ℕ → ℕ → Text → Text
hex_digits zero n acc = acc
hex_digits (suc f) n acc =
    let rest = hex_digits f (n / 16) (hex_digit (n % 16) ∷ acc) in
    if ltb n 16 then hex_digit n ∷ acc else rest

abbrev padded : Text → Text
padded digits = replicate (64 - length digits) b'0' ++ digits

unfoldable pub lower_hex_64 : ℕ → Text
unfolding hex_digits
lower_hex_64 n = padded (hex_digits (suc n) n [])

-- The number that a hexadecimal digit, and digits behind those already read, stand for.
abbrev pub hex_value : ℕ → ℕ
hex_value c = if ltb c b'a' then c - b'0' else c - b'a' + 10

abbrev pub hex_value_from : ℕ → Text → ℕ
hex_value_from v [] = v
hex_value_from v (c ∷ s) = hex_value_from (v * 16 + hex_value c) s

hex_value-hex_digit : (d : ℕ) → d < 16 → hex_value (hex_digit d) ≡ d
unfolding hex_digit
hex_value-hex_digit d h = ground arith

hex_digits-value :
    (f n : ℕ) (acc : Text) → n < f → hex_value_from 0 (hex_digits f n acc) ≡ hex_value_from n acc
unfolding hex_digits
hex_digits-value zero n acc h = absurd (omega arith)
hex_digits-value (suc f) n acc h = elim (Bool-cases (ltb n 16)) [
  | inl y ↦ rw y (
      ap (λ v. hex_value_from v acc)
        (let low = hex_value-hex_digit n (ground arith) in omega arith))
  | inr more ↦ rw more (
      hex_digits-value f (n / 16) (hex_digit (n % 16) ∷ acc) (ground arith)
      ∙ ap (λ v. hex_value_from v acc)
          (let low = hex_value-hex_digit (n % 16) (omega arith) in omega arith))
]

hex_digits-length :
    (f k n : ℕ) (acc : Text) → n < 16 ^ suc k → length (hex_digits f n acc) ≤ suc k + length acc
unfolding hex_digits
hex_digits-length zero k n acc h = omega arith
hex_digits-length (suc f) zero n acc h =
    let y : ltb n 16 ≡ true = ground arith in rw y (omega arith)
hex_digits-length (suc f) (suc k) n acc h = elim (Bool-cases (ltb n 16)) [
  | inl y ↦ rw y (omega arith)
  | inr more ↦ rw more (
      let next =
        hex_digits-length f k (n / 16) (hex_digit (n % 16) ∷ acc)
          (let bound : n < 16 ^ suc k * 16 = rw (← pow-suc 16 (suc k)) h in omega arith) in
      omega arith)
]

zeros-value : (k : ℕ) (s : Text) → hex_value_from 0 (replicate k b'0' ++ s) ≡ hex_value_from 0 s
zeros-value zero s = refl
zeros-value (suc k) s = zeros-value k s

length-replicate : (k c : ℕ) → length (replicate k c) ≡ k
length-replicate zero c = refl
length-replicate (suc k) c = omega (arith, length-replicate k c)

-- A number below 2 to the 253 is printed with 64 digits, which stand for it.
pub lower_hex_64_digits :
    (n : ℕ) → n < 2 ^ 253 → (length (lower_hex_64 n) ≡ 64) × (hex_value_from 0 (lower_hex_64 n) ≡ n)
unfolding lower_hex_64
lower_hex_64_digits n h =
    let s = hex_digits (suc n) n [] in
    let short : length s ≤ 64 = hex_digits-length (suc n) 63 n [] (omega arith) in
    (
      length-append (replicate (64 - length s) b'0') s
          ∙ (let zeros = length-replicate (64 - length s) b'0' in omega arith),
      zeros-value (64 - length s) s ∙ hex_digits-value (suc n) n [] (omega arith),
    )
