-- ===== src/Prelude/Strings.antt =====
-- Text as the list of its code points, and numbers printed in decimal (Rust's `to_string`).
use Prim.Native.Nat.{ℕ, zero, suc, ◌+◌, ◌-◌, ◌*◌, ◌/◌, ◌%◌, ◌<◌}
use mathlib.Core.Path.{◌≡◌}
use mathlib.Core.List.{List, [], ◌∷◌}
use native.Mathlib.Omega.{arith}
use Prim.Native.Char.{code}
use Prim.Native.String.{String}
use pico_proving_service.Prelude.Tests.{ltb, if◌then◌else◌}

abbrev pub Text : Type 0
Text = List ℕ

-- A literal.
abbrev pub text : String → Text
text String.[] = []
text (String.◌∷◌ c s) = code c ∷ text s

-- The digits of `n`, in front of those that are there. `f` bounds the rounds.
decimal : ℕ → ℕ → Text → Text
decimal zero n acc = acc
decimal (suc f) n acc =
    let rest = decimal f (n / 10) ((b'0' + n % 10) ∷ acc) in
    if ltb n 10 then (b'0' + n) ∷ acc else rest

pub to_string : ℕ → Text
unfolding decimal
to_string n = decimal (suc n) n []

-- The number that digits stand for, behind those already read.
abbrev pub value_from : ℕ → Text → ℕ
value_from v [] = v
value_from v (d ∷ ds) = value_from (v * 10 + (d - b'0')) ds

decimal-value : (f n : ℕ) (acc : Text) → n < f → value_from 0 (decimal f n acc) ≡ value_from n acc
unfolding decimal
decimal-value zero n acc h = absurd (omega arith)
decimal-value (suc f) n acc h = ground (arith, decimal-value f (n / 10) ((b'0' + n % 10) ∷ acc))

-- The rounds suffice: the digits that are printed stand for the number.
pub value-to_string : (n : ℕ) → value_from 0 (to_string n) ≡ n
unfolding to_string
value-to_string n = decimal-value (suc n) n [] (omega arith)
