-- ===== src/BTreeMap.antt =====
-- The ordered map of the Rust library that proof_tree.rs stores its nodes in, as the list of its
-- entries by rising key, with the operations that the program calls.
pub mod Order
pub mod Zipper
use pico_proving_service.Prelude.{
  ℕ, ◌≡◌, List, [], ◌∷◌, Option, none, some, ltb, ◌==◌, if◌then◌else◌,
}

abbrev pub BTreeMap {ℓ} : Type ℓ → Type ℓ
BTreeMap V = List (ℕ × V)

module _ {ℓ} {V : Type ℓ} where
  unfoldable pub get : ℕ → BTreeMap V → Option V
  get k [] = none
  get k ((j, w) ∷ m) = if k == j then some w else get k m

  -- `insert` replaces the value of a key that is present; `get` before it is what it returns.
  unfoldable pub insert : ℕ → V → BTreeMap V → BTreeMap V
  insert k v [] = (k, v) ∷ []
  insert k v ((j, w) ∷ m) =
      if ltb k j then (k, v) ∷ (j, w) ∷ m else if k == j then (k, v) ∷ m else (j, w) ∷ insert k v m

  unfoldable pub remove : ℕ → BTreeMap V → BTreeMap V
  remove k [] = []
  remove k ((j, w) ∷ m) = if k == j then m else (j, w) ∷ remove k m

  -- `*map.get_mut(&k) = v` for a key that is present
  unfoldable pub assign : ℕ → V → BTreeMap V → BTreeMap V
  assign k v [] = []
  assign k v ((j, w) ∷ m) = if k == j then (j, v) ∷ m else (j, w) ∷ assign k v m

  abbrev pub or_entry : Option (ℕ × V) → ℕ × V → Option (ℕ × V)
  or_entry none e = some e
  or_entry (some d) e = some d

  -- `map.range(..k).next_back()`
  unfoldable pub last_below : ℕ → BTreeMap V → Option (ℕ × V)
  last_below k [] = none
  last_below k ((j, w) ∷ m) = if ltb j k then or_entry (last_below k m) (j, w) else none

  -- `map.range((Bound::Excluded(k), Bound::Unbounded)).next()`
  unfoldable pub first_above : ℕ → BTreeMap V → Option (ℕ × V)
  first_above k [] = none
  first_above k ((j, w) ∷ m) = if ltb k j then some (j, w) else first_above k m
