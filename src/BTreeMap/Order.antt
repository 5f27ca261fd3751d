-- ===== src/BTreeMap/Order.antt =====
-- Keys in rising order, and what that gives for a map that is split at a key.
use pico_proving_service.Prelude.{
  ℕ, suc, ◌≤◌, ◌<◌, ◌≡◌, [], ◌∷◌, ◌++◌, some, arith, ap, inl, inr, All, ◌==◌, ==_iff, Bool-cases,
}
use pico_proving_service.BTreeMap.{BTreeMap, get}

module _ {ℓ} {V : Type ℓ} where
  -- Every key is at least the bound, and the keys rise.
  abbrev pub Rising : ℕ → BTreeMap V → Type 0
  Rising lo [] = Unit
  Rising lo ((k, v) ∷ m) = (lo ≤ k) × Rising (suc k) m

  abbrev pub KeysBelow : ℕ → BTreeMap V → Type 0
  KeysBelow b = All (λ e. e.0 < b)

  abbrev pub KeysAbove : ℕ → BTreeMap V → Type 0
  KeysAbove b = All (λ e. b < e.0)

  pub Rising-mono : (lo hi : ℕ) (m : BTreeMap V) → lo ≤ hi → Rising hi m → Rising lo m
  Rising-mono lo hi [] h r = tt
  Rising-mono lo hi ((k, v) ∷ m) h r = (omega arith, r.1)

  Rising-KeysAbove : (k : ℕ) (m : BTreeMap V) → Rising (suc k) m → KeysAbove k m
  Rising-KeysAbove k [] r = tt
  Rising-KeysAbove k ((j, v) ∷ m) r =
      (omega arith, Rising-KeysAbove k m (Rising-mono (suc k) (suc j) m (omega arith) r.1))

  Rising-lower : (lo j : ℕ) (w : V) (xs ys : BTreeMap V) → Rising lo (xs ++ (j, w) ∷ ys) → lo ≤ j
  Rising-lower lo j w [] ys r = r.0
  Rising-lower lo j w ((i, x) ∷ xs) ys r = omega (arith, Rising-lower (suc i) j w xs ys r.1)

  -- In a rising map the entries before a key are below it, and those after it are above it.
  pub Rising-middle :
      (lo j : ℕ) (w : V) (xs ys : BTreeMap V)
      → Rising lo (xs ++ (j, w) ∷ ys)
      → KeysBelow j xs × KeysAbove j ys
  Rising-middle lo j w [] ys r = (tt, Rising-KeysAbove j ys r.1)
  Rising-middle lo j w ((i, x) ∷ xs) ys r =
      let (below, above) = Rising-middle (suc i) j w xs ys r.1 in
      ((Rising-lower (suc i) j w xs ys r.1, below), above)

  -- A map around one of its keys: the entries before it and the entries after it.
  pub record Split (m : BTreeMap V) (k : ℕ) (v : V) : Type ℓ where
    pub before : BTreeMap V
    pub after : BTreeMap V
    pub whole : m ≡ before ++ (k, v) ∷ after
    pub below : KeysBelow k before
    pub above : KeysAbove k after

  get_lower : (lo k : ℕ) (m : BTreeMap V) {v : V} → Rising lo m → get k m ≡ some v → lo ≤ k
  unfolding get
  get_lower lo k [] r h = cc
  get_lower lo k ((j, w) ∷ m) {v} r h = ground (arith, get_lower (suc j) k m {v = v})

  -- A key that is present splits a rising map.
  pub Split-get : (lo k : ℕ) (m : BTreeMap V) {v : V} → Rising lo m → get k m ≡ some v → Split m k v
  unfolding get
  Split-get lo k [] r h = cc
  Split-get lo k ((j, w) ∷ m) {v} r h = elim (Bool-cases (k == j)) [
    | inl hit ↦
        let same : k ≡ j = (==_iff k j).0 hit in
        record {
          before = [];
          after = m;
          whole = ap (λ e. e ∷ m) (ground arith);
          below = tt;
          above = Rising-KeysAbove k m (rw same r.1);
        }
    | inr miss ↦
        let found : get k m ≡ some v = ground arith in
        let s = Split-get (suc j) k m r.1 found in
        record {
          before = (j, w) ∷ s.before;
          after = s.after;
          whole = ap (λ t. (j, w) ∷ t) s.whole;
          below = (get_lower (suc j) k m r.1 found, s.below);
          above = s.above;
        }
  ]
