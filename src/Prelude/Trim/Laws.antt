-- ===== src/Prelude/Trim/Laws.antt =====
-- Trimming and splitting texts of plain characters.
use mathlib.Core.Path.{◌≡◌, refl, sym, subst, ap, ap₂, ◌∙◌}
use mathlib.Core.Bool.{true, false}
use mathlib.Core.Option.{some}
use mathlib.Core.List.{
  List, [], ◌∷◌, ◌++◌, map, reverse, reverse-append, reverse-reverse, reverse-cons,
}
use Prim.Native.Nat.{ℕ}
use pico_proving_service.Prelude.Tests.{◌==◌}
use pico_proving_service.Prelude.Lists.{All, All-append}
use pico_proving_service.Prelude.Strings.{Text}
use pico_proving_service.Prelude.Trim.{
  is_whitespace, trim_start, trim_end, trim, strip_prefix, strip_suffix_char, split, extend,
}

-- Neither white space nor the separator.
abbrev pub IsPlain : ℕ → ℕ → Type 0
IsPlain sep c = (is_whitespace c ≡ false) × ((c == sep) ≡ false)

All-reverse : (P : ℕ → Type 0) (s : Text) → All P s → All P (reverse s)
All-reverse P [] h = tt
All-reverse P (c ∷ s) h =
    subst (All P) (sym (reverse-cons c s))
      (All-append P (reverse s) (c ∷ []) (All-reverse P s h.1) (h.0, tt))

module _ (sep : ℕ) where
  trim_start-plain : (s : Text) → All (IsPlain sep) s → trim_start s ≡ s
  unfolding trim_start
  trim_start-plain [] h = refl
  trim_start-plain (c ∷ s) h = rw (trim_start, h.0.0) refl

  pub trim-plain : (s : Text) → All (IsPlain sep) s → trim s ≡ s
  unfolding trim trim_end
  trim-plain s h =
      ap (λ x. reverse (trim_start (reverse x))) (trim_start-plain s h)
      ∙ ap reverse (trim_start-plain (reverse s) (All-reverse (IsPlain sep) s h))
      ∙ reverse-reverse s

  split-plain : (s : Text) → All (IsPlain sep) s → split sep s ≡ s ∷ []
  unfolding split
  split-plain [] h = refl
  split-plain (c ∷ s) h = rw (split, h.0.1) (ap (extend c) (split-plain s h.1))

  split-append :
      (s t : Text)
      → All (IsPlain sep) s
      → (sep == sep) ≡ true
      → split sep (s ++ sep ∷ t) ≡ s ∷ split sep t
  unfolding split
  split-append [] t h e = rw (split, e) refl
  split-append (c ∷ s) t h e = rw (split, h.0.1) (ap (extend c) (split-append s t h.1 e))

  -- Texts with the separator between them.
  abbrev pub joined : List Text → Text
  joined [] = []
  joined (s ∷ []) = s
  joined (s ∷ t ∷ ts) = s ++ sep ∷ joined (t ∷ ts)

  pub split-joined :
      (s : Text) (ts : List Text)
      → (sep == sep) ≡ true
      → All (All (IsPlain sep)) (s ∷ ts)
      → split sep (joined (s ∷ ts)) ≡ s ∷ ts
  split-joined s [] e h = split-plain s h.0
  split-joined s (t ∷ ts) e h =
      split-append s (joined (t ∷ ts)) h.0 e ∙ ap (λ x. s ∷ x) (split-joined t ts e h.1)

  pub map-trim : (ts : List Text) → All (All (IsPlain sep)) ts → map trim ts ≡ ts
  map-trim [] h = refl
  map-trim (t ∷ ts) h = ap₂ ◌∷◌ (trim-plain t h.0) (map-trim ts h.1)

-- A text in double quotes.
abbrev pub quoted : Text → Text
quoted s = b'"' ∷ (s ++ b'"' ∷ [])

pub trim-quoted : (s : Text) → trim (quoted s) ≡ quoted s
unfolding trim trim_end trim_start is_whitespace
trim-quoted s =
    let back : reverse (quoted s) ≡ b'"' ∷ (reverse s ++ b'"' ∷ []) =
      reverse-cons b'"' (s ++ b'"' ∷ [])
      ∙ ap (λ x. x ++ b'"' ∷ []) (reverse-append s (b'"' ∷ [])) in
    ap (λ x. reverse (trim_start x)) back ∙ ap reverse (sym back) ∙ reverse-reverse (quoted s)

pub strip_suffix-quoted : (s : Text) → strip_suffix_char b'"' (s ++ b'"' ∷ []) ≡ some s
unfolding strip_suffix_char strip_prefix
strip_suffix-quoted s =
    rw (strip_suffix_char, reverse-append s (b'"' ∷ [])) (ap some (reverse-reverse s))
