-- ===== src/Queue/Outputs.antt =====
-- Lookups in the outputs of the proving queue.
use mathlib.Core.Path.{ap₂}
use pico_proving_service.Prelude.{
  ℕ, Bool, Bool-cases, inl, inr, true, false, List, [], ◌∷◌, none, some, Text, ◌≡◌, ◌≢◌, refl, sym,
  ap, ◌∙◌, ◌&&◌, ◌⊎◌, arith, if◌then◌else◌,
}
use pico_proving_service.Queue.{
  ProvingKey, same_text, same_key, ProvingOutputs, output, remove_output, insert_output,
}

pub same_text_refl : (s : Text) → same_text s s ≡ true
same_text_refl [] = refl
same_text_refl (c ∷ s) = ground (arith, same_text_refl s)

pub same_text-eq : (s t : Text) → same_text s t ≡ true → s ≡ t
same_text-eq [] [] h = refl
same_text-eq [] (d ∷ t) h = cc
same_text-eq (c ∷ s) [] h = cc
same_text-eq (c ∷ s) (d ∷ t) h = grind (arith, same_text-eq s t)

pub same_key_refl : (k : ProvingKey) → same_key k k ≡ true
same_key_refl k = rw (same_text_refl k.app_id, same_text_refl k.task_id) refl

pub output-insert :
    (k : ProvingKey) (v : List ℕ) (m : ProvingOutputs) → output k (insert_output k v m) ≡ some v
unfolding output insert_output
output-insert k v m = rw (same_key_refl k) refl

pub output-remove : (k : ProvingKey) (m : ProvingOutputs) → output k (remove_output k m) ≡ none
unfolding output remove_output
output-remove k [] = refl
output-remove k ((j, v) ∷ m) = ground (arith, output-remove k m)

both : (a b : Bool) → (a && b) ≡ true → (a ≡ true) × (b ≡ true)
both true b h = (refl, h)
both false b h = cc

pub same_key-eq : (k j : ProvingKey) → same_key k j ≡ true → k ≡ j
same_key-eq k j h =
    let (a, t) = both _ _ h in
    ap₂ (λ x y. record { app_id = x; task_id = y }) (same_text-eq k.app_id j.app_id a)
      (same_text-eq k.task_id j.task_id t)

same_key-differ : (a b : ProvingKey) → a ≢ b → same_key a b ≡ false
same_key-differ a b ne = elim (Bool-cases (same_key a b)) [
  | inl y ↦ absurd (ne (same_key-eq a b y))
  | inr n ↦ n
]

output-remove_other :
    (k i : ProvingKey) (m : ProvingOutputs) → i ≢ k → output i (remove_output k m) ≡ output i m
unfolding output remove_output
output-remove_other k i [] d = refl
output-remove_other k i ((j, v) ∷ m) d = elim (Bool-cases (same_key k j)) [
  | inl y ↦
      let away : same_key i j ≡ false =
        same_key-differ i j (λ e. d (e ∙ sym (same_key-eq k j y))) in
      rw (remove_output, y, output, away) (output-remove_other k i m d)
  | inr n ↦
      rw (remove_output, n, output)
        (ap (λ o. if same_key i j then some v else o) (output-remove_other k i m d))
]

pub output-insert_other :
    (k i : ProvingKey) (v : List ℕ) (m : ProvingOutputs)
    → i ≢ k
    → output i (insert_output k v m) ≡ output i m
unfolding output insert_output
output-insert_other k i v m d = rw (same_key-differ i k d) (output-remove_other k i m d)

pub key-cases : (i k : ProvingKey) → (i ≡ k) ⊎ (i ≢ k)
key-cases i k = elim (Bool-cases (same_key i k)) [
  | inl y ↦ inl (same_key-eq i k y)
  | inr n ↦ inr (λ e. (let y = ap (λ x. same_key x k) e in let z = same_key_refl k in absurd cc))
]

-- A proof that is found after an insertion is the one inserted, or was found before.
pub output-insert_some :
    (k i : ProvingKey) (v : List ℕ) {p : List ℕ} (m : ProvingOutputs)
    → output i (insert_output k v m) ≡ some p
    → ((k ≡ i) × (v ≡ p)) ⊎ (output i m ≡ some p)
output-insert_some k i v m h = elim (key-cases i k) [
  | inl e ↦
      let found = ap (λ x. output x (insert_output k v m)) e ∙ output-insert k v m in
      inl (sym e, cc)
  | inr ne ↦ inr (sym (output-insert_other k i v m ne) ∙ h)
]

-- A removal adds nothing.
pub output-remove_some :
    (k i : ProvingKey) {p : List ℕ} (m : ProvingOutputs)
    → output i (remove_output k m) ≡ some p
    → output i m ≡ some p
output-remove_some k i m h = elim (key-cases i k) [
  | inl e ↦
      let none_left = ap (λ x. output x (remove_output k m)) e ∙ output-remove k m in absurd cc
  | inr ne ↦ sym (output-remove_other k i m ne) ∙ h
]

pub output-empty : (k : ProvingKey) → output k [] ≡ none
unfolding output
output-empty k = refl
