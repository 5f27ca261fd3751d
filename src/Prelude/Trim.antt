-- ===== src/Prelude/Trim.antt =====
-- The operations of Rust's `str` that the program walks a text with.
pub mod Laws
use mathlib.Core.Bool.{Bool, ◌&&◌, ◌||◌}
use mathlib.Core.Option.{Option, none, some}
use mathlib.Core.List.{List, [], ◌∷◌, reverse}
use Prim.Native.Nat.{ℕ}
use pico_proving_service.Prelude.Tests.{leb, ◌==◌, if◌then◌else◌}
use pico_proving_service.Prelude.Strings.{Text}

-- The code points with the Unicode property White_Space.
unfoldable pub is_whitespace : ℕ → Bool
is_whitespace c =
    (leb 9 c && leb c 13)
    || (c == 0x20
        || (c == 0x85
            || (c == 0xa0
                || (c == 0x1680
                    || ((leb 0x2000 c && leb c 0x200a)
                        || (c == 0x2028
                            || (c == 0x2029 || (c == 0x202f || (c == 0x205f || c == 0x3000)))))))))

unfoldable pub trim_start : Text → Text
trim_start [] = []
trim_start (c ∷ s) = if is_whitespace c then trim_start s else c ∷ s

unfoldable pub trim_end : Text → Text
unfolding trim_start
trim_end s = reverse (trim_start (reverse s))

unfoldable pub trim : Text → Text
unfolding trim_end trim_start
trim s = trim_end (trim_start s)

-- `s.strip_prefix(p)`
unfoldable pub strip_prefix : Text → Text → Option Text
strip_prefix [] s = some s
strip_prefix (d ∷ p) [] = none
strip_prefix (d ∷ p) (c ∷ s) = if d == c then strip_prefix p s else none

-- `s.strip_prefix(p).unwrap_or(s)`
abbrev pub or_whole : Option Text → Text → Text
or_whole none s = s
or_whole (some t) s = t

-- `s.strip_suffix(p)` for a text `p` that reads the same backwards, such as one character
unfoldable pub strip_suffix_char : ℕ → Text → Option Text
strip_suffix_char c s = elim (strip_prefix (c ∷ []) (reverse s)) [
  | none ↦ none
  | some t ↦ some (reverse t)
]

-- The pieces of a text around a separator; there is always one.
abbrev pub extend : ℕ → List Text → List Text
extend c [] = (c ∷ []) ∷ []
extend c (w ∷ ws) = (c ∷ w) ∷ ws

unfoldable pub split : ℕ → Text → List Text
split sep [] = [] ∷ []
split sep (c ∷ s) = let rest = split sep s in if c == sep then [] ∷ rest else extend c rest

-- `s.trim_start_matches("0x")`, which takes every repetition away
unfoldable pub trim_0x : Text → Text
trim_0x [] = []
trim_0x (c ∷ []) = c ∷ []
trim_0x (c ∷ d ∷ s) = if (c == b'0') && (d == b'x') then trim_0x s else c ∷ d ∷ s
