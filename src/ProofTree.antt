-- ===== src/ProofTree.antt =====
-- src/proving/gateway/handler/proof_tree.rs: the map from chunk indices to the nodes of the proof
-- tree. An `Arc` is the value that it shares, and a clone is the same value.
pub mod Sets
pub mod Tiling
pub mod Pending
pub mod Stored
pub mod Whole
pub mod Others
pub mod Settled
pub mod InitNode
pub mod Open
pub mod Contract
use pico_proving_service.Prelude.{
  ℕ, ◌≡◌, List, [], ◌∷◌, Bool, true, false, Option, none, some, length, Outcome, ok, panic,
  initialized_twice, missing_node,
}
use pico_proving_service.BTreeMap.{BTreeMap, get, insert, remove, assign, last_below, first_above}

-- The second value, if there is no first: `if index_proofs.is_none()`.
abbrev pub or_try {κ} : {A : Type κ} → Option A → Option A → Option A
or_try none o = o
or_try (some a) o = some a

-- A proof with the chunk range `[start_chunk, end_chunk]` that it covers.
pub record IndexedProof {ℓ} (P : Type ℓ) : Type ℓ where
  pub inner : P
  pub start_chunk : ℕ
  pub end_chunk : ℕ

module _ {ℓ} {P : Type ℓ} where
  -- `IndexedProof::new`
  abbrev pub indexed : P → ℕ → ℕ → IndexedProof P
  indexed p s e = record { inner = p; start_chunk = s; end_chunk = e }

  -- `IndexedProof::get_inner`
  abbrev pub get_inner : IndexedProof P → P
  get_inner p = p.inner

pub data ProofNode {ℓ} (P : Type ℓ) : Type ℓ where
  in_progress : List (IndexedProof P) → ProofNode P
  proved : IndexedProof P → ProofNode P

module _ {ℓ} {P : Type ℓ} where
  -- `ProofNode::init`
  abbrev pub init : ProofNode P
  init = in_progress []

  abbrev pub is_in_progress : ProofNode P → Bool
  is_in_progress (in_progress _) = true
  is_in_progress (proved _) = false

  abbrev pub is_proved : ProofNode P → Bool
  is_proved (in_progress _) = false
  is_proved (proved _) = true

  abbrev pub proof : ProofNode P → Option (IndexedProof P)
  proof (in_progress _) = none
  proof (proved p) = some p

pub record ProofTree {ℓ} (P : Type ℓ) : Type ℓ where
  pub tree : BTreeMap (ProofNode P)

module _ {ℓ} {P : Type ℓ} where
  -- `ProofTree::default`
  abbrev pub default : ProofTree P
  default = record { tree = [] }

  abbrev pub len : ProofTree P → ℕ
  len t = length t.tree

  -- The node is inserted first, and the assertion reads what `insert` replaced.
  unfoldable pub init_node : ProofTree P → ℕ → Outcome (ProofTree P)
  init_node t index = elim (get index t.tree) [
    | none ↦ ok (record { tree = insert index init t.tree })
    | some _ ↦ panic initialized_twice
  ]

  -- The node before `index`, if proved, with the two proofs in order.
  abbrev pub with_previous :
      IndexedProof P → Option (ℕ × ProofNode P) → Option (ℕ × List (IndexedProof P))
  with_previous current (some (j, proved prev)) = some (j, prev ∷ current ∷ [])
  with_previous current _ = none

  -- The node after `index`, if proved.
  abbrev pub with_next :
      IndexedProof P → Option (ℕ × ProofNode P) → Option (ℕ × List (IndexedProof P))
  with_next current (some (j, proved next)) = some (j, current ∷ next ∷ [])
  with_next current _ = none

  -- The previous node is tried first, then the next one.
  unfoldable pub index_proofs :
      BTreeMap (ProofNode P) → ℕ → IndexedProof P → Option (ℕ × List (IndexedProof P))
  index_proofs m index current =
      or_try (with_previous current (last_below index m)) (with_next current (first_above index m))

  -- `*self.tree.get_mut(&index).unwrap() = node`
  unfoldable pub store : BTreeMap (ProofNode P) → ℕ → ProofNode P → Outcome (ProofTree P)
  store m index node = elim (get index m) [
    | none ↦ panic missing_node
    | some _ ↦ ok (record { tree = assign index node m })
  ]

  abbrev pub with_result {κ} : {A : Type κ} → Outcome (ProofTree P) → A → Outcome (ProofTree P × A)
  with_result (ok t) a = ok (t, a)
  with_result (panic e) a = panic e

  -- Removes the sibling, if there is one to combine with, and stores the new node at `index`.
  abbrev pub place :
      BTreeMap (ProofNode P)
      → ℕ
      → IndexedProof P
      → Option (ℕ × List (IndexedProof P))
      → Outcome (ProofTree P × Option (List (IndexedProof P)))
  place m index current (some (sibling, proofs)) =
      with_result (store (remove sibling m) index (in_progress proofs)) (some proofs)
  place m index current none = with_result (store m index (proved current)) none

  -- The new tree and, if a neighbour is proved, the two proofs to combine.
  unfoldable pub set_proof :
      ProofTree P → ℕ → IndexedProof P → Outcome (ProofTree P × Option (List (IndexedProof P)))
  set_proof t index current = place t.tree index current (index_proofs t.tree index current)
