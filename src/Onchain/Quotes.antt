-- ===== src/Onchain/Quotes.antt =====
-- What the removal of the quotes in decode_gnark_proof_to_bytes of src/proving/onchain.rs leaves.
use pico_proving_service.Prelude.{
  ◌≡◌, ◌≢◌, refl, sym, ap, subst, ◌∙◌, Bool, true, false, [], ◌∷◌, ◌++◌, Option, none, some, Text,
  ◌==◌, ==_iff, if◌then◌else◌,
}
use mathlib.Core.List.{reverse, reverse-append, reverse-reverse, reverse-cons}
use pico_proving_service.Prelude.Trim.{strip_prefix, or_whole, strip_suffix_char}

-- A text without a double quote at its front, if it has one, and then without one at its end.
pub data Opened : Text → Text → Type 0 where
  with_quote : (r : Text) → Opened (b'"' ∷ r) r
  no_quote : (s : Text) → ((r : Text) → s ≢ b'"' ∷ r) → Opened s s

pub data Closed : Text → Text → Type 0 where
  with_quote : (r : Text) → Closed (r ++ b'"' ∷ []) r
  no_quote : (s : Text) → ((r : Text) → s ≢ r ++ b'"' ∷ []) → Closed s s

pub record Unquoted (s r : Text) : Type 0 where
  pub opened : Text
  pub opens : Opened s opened
  pub closes : Closed opened r

-- A quote that is found at the front is there, and one that is not found is not.
front_quote :
    (s : Text) (o : Option Text)
    → strip_prefix (b'"' ∷ []) s ≡ o
    → elim o as (λ _. Type 0) [ some r ↦ s ≡ b'"' ∷ r | none ↦ (r : Text) → s ≢ b'"' ∷ r ]
unfolding strip_prefix
front_quote [] none h = λ r e. absurd cc
front_quote [] (some r) h = absurd cc
front_quote (c ∷ s) o h = go (b'"' == c) refl o h
  where
    go :
        (b : Bool)
        → (b'"' == c) ≡ b
        → (o : Option Text) → (if b then some s else none) ≡ o
        → elim o as (λ _. Type 0) [
          | some r ↦ c ∷ s ≡ b'"' ∷ r
          | none ↦ (r : Text) → c ∷ s ≢ b'"' ∷ r
        ]
    go true y none h = absurd cc
    go true y (some r) h = let same : b'"' ≡ c = (==_iff b'"' c).0 y in let rest : s ≡ r = cc in cc
    go false n (some r) h = absurd cc
    go false n none h =
        λ r e. (let same : b'"' ≡ c = cc in let y = (==_iff b'"' c).1 same in absurd cc)

strip_prefix-Opened : (s : Text) → Opened s (or_whole (strip_prefix (b'"' ∷ []) s) s)
strip_prefix-Opened s = go (strip_prefix (b'"' ∷ []) s) refl
  where
    go : (o : Option Text) → strip_prefix (b'"' ∷ []) s ≡ o → Opened s (or_whole o s)
    go (some r) h = subst (λ x. Opened x r) (sym (front_quote s (some r) h)) (Opened.with_quote r)
    go none h = Opened.no_quote s (front_quote s none h)

-- At the end of a text the same holds of the text backwards.
strip_suffix-Closed : (s : Text) → Closed s (or_whole (strip_suffix_char b'"' s) s)
unfolding strip_suffix_char
strip_suffix-Closed s = go (strip_prefix (b'"' ∷ []) (reverse s)) refl
  where
    go :
        (o : Option Text)
        → strip_prefix (b'"' ∷ []) (reverse s) ≡ o
        → Closed s (or_whole (elim o [ none ↦ none | some t ↦ some (reverse t) ]) s)
    go (some t) h =
        let back : s ≡ reverse t ++ b'"' ∷ [] =
          sym (reverse-reverse s)
          ∙ ap reverse (front_quote (reverse s) (some t) h)
          ∙ reverse-cons b'"' t in
        subst (λ x. Closed x (reverse t)) (sym back) (Closed.with_quote (reverse t))
    go none h = Closed.no_quote s λ r e.
        front_quote (reverse s) none h (reverse r) (ap reverse e ∙ reverse-append r (b'"' ∷ []))

pub strip-Unquoted :
    (s : Text)
    → Unquoted s (
        or_whole
          (strip_suffix_char b'"' (or_whole (strip_prefix (b'"' ∷ []) s) s))
          (or_whole (strip_prefix (b'"' ∷ []) s) s))
strip-Unquoted s =
    let opened = or_whole (strip_prefix (b'"' ∷ []) s) s in
    record { opened = opened; opens = strip_prefix-Opened s; closes = strip_suffix-Closed opened }
