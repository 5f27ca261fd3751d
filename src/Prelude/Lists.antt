-- ===== src/Prelude/Lists.antt =====
-- Lists measured by native numbers, and predicates on every entry.
use Prim.Native.Nat.{ℕ, zero, suc, ◌+◌, ◌-◌, ◌≤◌}
use mathlib.Core.Option.{Option, none, some}
use mathlib.Core.Path.{◌≡◌, refl, ap, ◌∙◌}
use mathlib.Core.List.{List, [], ◌∷◌, ◌++◌}
use native.Mathlib.Nat.{suc-add}
use native.Mathlib.Omega.{arith}

module _ {ℓ} {A : Type ℓ} where
  abbrev pub length : List A → ℕ
  length [] = 0
  length (x ∷ xs) = suc (length xs)

  abbrev pub replicate : ℕ → A → List A
  replicate zero a = []
  replicate (suc n) a = a ∷ replicate n a

  abbrev pub get_elem? : List A → ℕ → Option A
  get_elem? [] i = none
  get_elem? (x ∷ xs) zero = some x
  get_elem? (x ∷ xs) (suc i) = get_elem? xs i

  pub length-append : (xs ys : List A) → length (xs ++ ys) ≡ length xs + length ys
  length-append [] ys = omega arith
  length-append (x ∷ xs) ys = omega (arith, length-append xs ys)

module _ {ℓ κ} {A : Type ℓ} where
  abbrev pub All : (A → Type κ) → List A → Type κ
  All P [] = Unit
  All P (x ∷ xs) = P x × All P xs

  pub All-append :
      (P : A → Type κ) (front back : List A) → All P front → All P back → All P (front ++ back)
  All-append P [] back f b = b
  All-append P (x ∷ front) back (f, fs) b = (f, All-append P front back fs b)

  pub All-split : (P : A → Type κ) (xs ys : List A) → All P (xs ++ ys) → All P xs × All P ys
  All-split P [] ys h = (tt, h)
  All-split P (x ∷ xs) ys h = let (l, r) = All-split P xs ys h.1 in ((h.0, l), r)

module _ {ℓ} {A : Type ℓ} where
  abbrev pub take : ℕ → List A → List A
  take zero xs = []
  take (suc n) [] = []
  take (suc n) (x ∷ xs) = x ∷ take n xs

  abbrev pub drop : ℕ → List A → List A
  drop zero xs = xs
  drop (suc n) [] = []
  drop (suc n) (x ∷ xs) = drop n xs

  take-nil : (n : ℕ) → ◌≡◌ {A = List A} (take n []) []
  take-nil zero = refl
  take-nil (suc n) = refl

  drop-nil : (n : ℕ) → ◌≡◌ {A = List A} (drop n []) []
  drop-nil zero = refl
  drop-nil (suc n) = refl

  take-append-drop : (n m : ℕ) (xs : List A) → take n xs ++ take m (drop n xs) ≡ take (n + m) xs
  take-append-drop zero m xs = ap (λ k. take k xs) (omega arith)
  take-append-drop (suc n) m [] = rw suc-add (take-nil m)
  take-append-drop (suc n) m (x ∷ xs) = rw suc-add (ap (λ t. x ∷ t) (take-append-drop n m xs))

  drop-drop : (n m : ℕ) (xs : List A) → drop m (drop n xs) ≡ drop (n + m) xs
  drop-drop zero m xs = ap (λ k. drop k xs) (omega arith)
  drop-drop (suc n) m [] = rw suc-add (drop-nil m)
  drop-drop (suc n) m (x ∷ xs) = rw suc-add (drop-drop n m xs)

  pub take_all : (xs : List A) → take (length xs) xs ≡ xs
  take_all [] = refl
  take_all (x ∷ xs) = ap (λ t. x ∷ t) (take_all xs)

  -- The entries from `a` up to and without `b`.
  abbrev pub slice : List A → ℕ → ℕ → List A
  slice xs a b = take (b - a) (drop a xs)

  -- Adjacent slices join to one.
  pub slice-append :
      (xs : List A) (a b c : ℕ) → a ≤ b → b ≤ c → slice xs a b ++ slice xs b c ≡ slice xs a c
  slice-append xs a b c h h' =
      let same : a + (b - a) ≡ b = omega arith in
      let far = drop-drop a (b - a) xs ∙ ap (λ k. drop k xs) same in
      rw (← far)
        (take-append-drop (b - a) (c - b) (drop a xs) ∙ ap (λ k. take k (drop a xs)) (omega arith))

  pub drop-get :
      (xs : List A) (k : ℕ) (r : A) (rest : List A)
      → drop k xs ≡ r ∷ rest
      → (get_elem? xs k ≡ some r) × (drop (suc k) xs ≡ rest)
  drop-get [] zero r rest h = cc
  drop-get [] (suc k) r rest h = cc
  drop-get (x ∷ xs) zero r rest h = (cc, cc)
  drop-get (x ∷ xs) (suc k) r rest h = drop-get xs k r rest h

  first_of_drop :
      (xs : List A) (k : ℕ) (r : A) → get_elem? xs k ≡ some r → take 1 (drop k xs) ≡ r ∷ []
  first_of_drop [] k r h = cc
  first_of_drop (x ∷ xs) zero r h = ground arith
  first_of_drop (x ∷ xs) (suc k) r h = first_of_drop xs k r h

  pub slice_one :
      (xs : List A) (k : ℕ) (r : A) → get_elem? xs k ≡ some r → slice xs k (suc k) ≡ r ∷ []
  slice_one xs k r h =
      let one : suc k - k ≡ 1 = omega arith in
      ap (λ n. take n (drop k xs)) one ∙ first_of_drop xs k r h
