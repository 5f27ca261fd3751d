-- ===== src/ProofTree/InitNode.antt =====
-- `init_node` for the next chunk appends a node that waits for that chunk.
use pico_proving_service.Prelude.{
  ℕ, ◌≤◌, ◌≡◌, refl, [], ◌∷◌, ◌++◌, some, none, arith, ok, panic, initialized_twice,
}
use pico_proving_service.BTreeMap.{BTreeMap, get, insert}
use pico_proving_service.BTreeMap.Order.{KeysBelow}
use pico_proving_service.ProofTree.{IndexedProof, ProofNode, init, init_node}
use pico_proving_service.ProofTree.Sets.{Nodes}
use pico_proving_service.ProofTree.Tiling.{
  Tiles, end_of, stop, Covers-bounds, Tiles-append, Tiles-advance,
}

module _ {ℓ} {V : Type ℓ} (k : ℕ) where
  get_above : (m : BTreeMap V) → KeysBelow k m → get k m ≡ none
  unfolding get
  get_above [] b = refl
  get_above ((j, w) ∷ m) b = ground (arith, get_above m b.1)

  insert_above : (v : V) (m : BTreeMap V) → KeysBelow k m → insert k v m ≡ m ++ (k, v) ∷ []
  unfolding insert
  insert_above v [] b = refl
  insert_above v ((j, w) ∷ m) b = ground (arith, insert_above v m b.1)

  pub get-snoc :
      (v : V) (i : ℕ) (m : BTreeMap V) {w : V}
      → get i m ≡ some w
      → get i (m ++ (k, v) ∷ []) ≡ some w
  unfolding get
  get-snoc v i [] h = cc
  get-snoc v i ((j, x) ∷ m) {w} h = ground (arith, get-snoc v i m {w = w})

  pub get-snoc_self : (v : V) (m : BTreeMap V) → KeysBelow k m → get k (m ++ (k, v) ∷ []) ≡ some v
  unfolding get
  get-snoc_self v [] b = ground arith
  get-snoc_self v ((j, x) ∷ m) b = ground (arith, get-snoc_self v m b.1)

module _ {ℓ} {P : Type ℓ} (Q : IndexedProof P → Type 0) where
  -- The indices of a tiling lie below its end.
  pub Tiles-KeysBelow : (lo hi : ℕ) (m : Nodes P) → Tiles Q lo m → end_of lo m ≤ hi → KeysBelow hi m
  Tiles-KeysBelow lo hi [] t h = tt
  Tiles-KeysBelow lo hi ((k, n) ∷ m) t h =
      let b = Covers-bounds Q lo k n t.0 in
      (omega (arith, Tiles-advance Q (stop k n) m t.1), Tiles-KeysBelow (stop k n) hi m t.1 h)

  -- On a tree whose nodes cover consecutive chunks, `init_node` for the chunk behind them returns,
  -- and appends a node in progress.
  pub init_node_next :
      (lo : ℕ) (m : Nodes P)
      → Tiles Q lo m
      → init_node (record { tree = m }) (end_of lo m)
        ≡ ok (record { tree = m ++ (end_of lo m, init) ∷ [] })
  unfolding init_node
  init_node_next lo m t =
      let b = Tiles-KeysBelow lo (end_of lo m) m t (omega arith) in
      rw (get_above (end_of lo m) m b, init_node, insert_above (end_of lo m) init m b)

  pub Tiles-snoc :
      (lo : ℕ) (m : Nodes P) → Tiles Q lo m → Tiles Q lo (m ++ (end_of lo m, init) ∷ [])
  Tiles-snoc lo m t = Tiles-append Q lo m ((end_of lo m, init) ∷ []) t (refl, tt)

-- An index that is present is refused.
init_node_twice {ℓ} :
    {P : Type ℓ} (m : Nodes P) (k : ℕ) {n : ProofNode P}
    → get k m ≡ some n
    → init_node (record { tree = m }) k ≡ panic initialized_twice
unfolding init_node
init_node_twice m k h = rw (h, init_node)
