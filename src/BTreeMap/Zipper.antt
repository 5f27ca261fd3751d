-- ===== src/BTreeMap/Zipper.antt =====
-- The operations on a map that is split at a key.
use pico_proving_service.Prelude.{ℕ, ◌≡◌, ◌≢◌, refl, [], ◌∷◌, ◌++◌, Option, none, some, arith}
use pico_proving_service.BTreeMap.{BTreeMap, get, remove, assign, last_below, first_above, or_entry}
use pico_proving_service.BTreeMap.Order.{KeysBelow, KeysAbove}

module _ {ℓ} {V : Type ℓ} where
  -- The last entry of a list.
  abbrev pub last : BTreeMap V → Option (ℕ × V)
  last [] = none
  last (e ∷ m) = or_entry (last m) e

  abbrev pub first : BTreeMap V → Option (ℕ × V)
  first [] = none
  first (e ∷ m) = some e

  module _ (k : ℕ) (v : V) (after : BTreeMap V) where
    pub last_below-split :
        (before : BTreeMap V)
        → KeysBelow k before
        → last_below k (before ++ (k, v) ∷ after) ≡ last before
    unfolding last_below
    last_below-split [] b = ground arith
    last_below-split ((j, w) ∷ m) b = ground (arith, last_below-split m b.1)

    pub assign-split :
        (before : BTreeMap V) (u : V)
        → KeysBelow k before
        → assign k u (before ++ (k, v) ∷ after) ≡ before ++ (k, u) ∷ after
    unfolding assign
    assign-split [] u b = ground arith
    assign-split ((j, w) ∷ m) u b = ground (arith, assign-split m u b.1)

    pub get-split :
        (before : BTreeMap V) → KeysBelow k before → get k (before ++ (k, v) ∷ after) ≡ some v
    unfolding get
    get-split [] b = ground arith
    get-split ((j, w) ∷ m) b = ground (arith, get-split m b.1)

    pub remove-split :
        (before : BTreeMap V)
        → KeysBelow k before
        → remove k (before ++ (k, v) ∷ after) ≡ before ++ after
    unfolding remove
    remove-split [] b = ground arith
    remove-split ((j, w) ∷ m) b = ground (arith, remove-split m b.1)

  first_above_own :
      (k : ℕ) (after : BTreeMap V) → KeysAbove k after → first_above k after ≡ first after
  unfolding first_above
  first_above_own k [] a = refl
  first_above_own k ((j, w) ∷ m) a = ground arith

  pub first_above-split :
      (k : ℕ) (v : V) (after before : BTreeMap V)
      → KeysBelow k before
      → KeysAbove k after
      → first_above k (before ++ (k, v) ∷ after) ≡ first after
  unfolding first_above
  first_above-split k v after [] b a = ground (arith, first_above_own k after a)
  first_above-split k v after ((j, w) ∷ m) b a = ground (arith, first_above-split k v after m b.1 a)

  -- A lookup of another key passes over an entry.
  pub get_without :
      (j k : ℕ) (v : V) (before after : BTreeMap V)
      → j ≢ k
      → get j (before ++ (k, v) ∷ after) ≡ get j (before ++ after)
  unfolding get
  get_without j k v [] after n = ground arith
  get_without j k v ((i, x) ∷ m) after n = ground (arith, get_without j k v m after n)

  -- So does a lookup that finds another value.
  pub get_drop :
      (j k : ℕ) (u v : V) (before after : BTreeMap V)
      → get j (before ++ (k, u) ∷ after) ≡ some v
      → u ≢ v
      → get j (before ++ after) ≡ some v
  unfolding get
  get_drop j k u v [] after h n = ground arith
  get_drop j k u v ((i, x) ∷ m) after h n = ground (arith, get_drop j k u v m after)
