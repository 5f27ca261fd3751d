-- ===== src/ProofTree/Sets.antt =====
-- What `set_proof` does, said by the shape of the tree around the index.
use pico_proving_service.Prelude.{ℕ, ◌≡◌, refl, List, [], ◌∷◌, ◌++◌, Option, none, some}
use pico_proving_service.BTreeMap.{BTreeMap}
use pico_proving_service.BTreeMap.Zipper.{last, first}
use pico_proving_service.ProofTree.{IndexedProof, ProofNode, in_progress, proved}

abbrev pub Nodes {ℓ} : Type ℓ → Type ℓ
Nodes P = BTreeMap (ProofNode P)

module _ {ℓ} {P : Type ℓ} where
  -- The entry next to the index is not a proved node.
  abbrev pub Waits : Option (ℕ × ProofNode P) → Type 0
  Waits none = Unit
  Waits (some (j, in_progress _)) = Unit
  Waits (some (j, proved _)) = ⊥

  -- `Sets m k n p m' out`: storing the proof `p` at the key `k` of `m`, where `n` stands, gives `m'`,
  -- and `out` is what is to be combined.
  pub data Sets (m : Nodes P) (k : ℕ) (n : ProofNode P) (p : IndexedProof P) (m' : Nodes P)
      : Option (List (IndexedProof P)) → Type ℓ where
    join_previous :
        (before after : Nodes P) (j : ℕ) (q : IndexedProof P)
        → m ≡ before ++ (j, proved q) ∷ (k, n) ∷ after
        → m' ≡ before ++ (k, in_progress (q ∷ p ∷ [])) ∷ after
        → Sets m k n p m' (some (q ∷ p ∷ []))
    join_next :
        (before after : Nodes P) (j : ℕ) (q : IndexedProof P)
        → Waits (last before)
        → m ≡ before ++ (k, n) ∷ (j, proved q) ∷ after
        → m' ≡ before ++ (k, in_progress (p ∷ q ∷ [])) ∷ after
        → Sets m k n p m' (some (p ∷ q ∷ []))
    keep :
        (before after : Nodes P)
        → Waits (last before)
        → Waits (first after)
        → m ≡ before ++ (k, n) ∷ after
        → m' ≡ before ++ (k, proved p) ∷ after
        → Sets m k n p m' none

  -- The tree after a join: the node at the key holds the two proofs.
  pub record Joined (m' : Nodes P) (k : ℕ) (ps : List (IndexedProof P)) : Type ℓ where
    pub left : IndexedProof P
    pub right : IndexedProof P
    pub before : Nodes P
    pub after : Nodes P
    pub pair : ps ≡ left ∷ right ∷ []
    pub whole : m' ≡ before ++ (k, in_progress (left ∷ right ∷ [])) ∷ after

  pub Sets-Joined :
      {m m' : Nodes P} {k : ℕ} {n : ProofNode P} {p : IndexedProof P} {ps : List (IndexedProof P)}
      → Sets m k n p m' (some ps)
      → Joined m' k ps
  Sets-Joined {p = p} (join_previous before after j q e e') = record {
    left = q;
    right = p;
    before = before;
    after = after;
    pair = refl;
    whole = e';
  }
  Sets-Joined {p = p} (join_next before after j q w e e') = record {
    left = p;
    right = q;
    before = before;
    after = after;
    pair = refl;
    whole = e';
  }
