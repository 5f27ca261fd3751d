-- ===== src/ProofTree/Pending.antt =====
-- How many nodes are in progress, and how the tree shrinks.
use pico_proving_service.Prelude.{
  ℕ, ◌+◌, ◌≡◌, [], ◌∷◌, ◌++◌, Option, List, some, none, arith, length, length-append,
}
use pico_proving_service.ProofTree.{IndexedProof, ProofNode, in_progress, proved}
use pico_proving_service.ProofTree.Sets.{Nodes, Sets, join_previous, join_next, keep}

module _ {ℓ} {P : Type ℓ} where
  -- 1 for a node in progress
  abbrev pub open_one : ProofNode P → ℕ
  open_one (in_progress _) = 1
  open_one (proved _) = 0

  abbrev pub pending : Nodes P → ℕ
  pending [] = 0
  pending ((k, n) ∷ m) = open_one n + pending m

  pending-append : (xs ys : Nodes P) → pending (xs ++ ys) ≡ pending xs + pending ys
  pending-append [] ys = omega arith
  pending-append ((k, n) ∷ xs) ys = omega (arith, pending-append xs ys)

  -- 1 if there is something to combine
  abbrev pub joins : Option (List (IndexedProof P)) → ℕ
  joins none = 0
  joins (some _) = 1

  -- A join takes one node away and leaves the number in progress; else that number falls by one.
  pub Sets-counts :
      {m m' : Nodes P} {k : ℕ} {n : ProofNode P} {p : IndexedProof P}
      {out : Option (List (IndexedProof P))}
      → Sets m k n p m' out
      → (length m ≡ length m' + joins out) × (pending m' + open_one n ≡ pending m + joins out)
  Sets-counts {k = k} {n} {p} (keep before after w w' e e') =
      rw (e, e')
        (omega (
          arith,
          length-append before ((k, n) ∷ after),
          length-append before ((k, proved p) ∷ after),
          pending-append before ((k, n) ∷ after),
          pending-append before ((k, proved p) ∷ after),
        ))
  Sets-counts {k = k} {n} {p} (join_previous before after j q e e') =
      rw (e, e')
        (omega (
          arith,
          length-append before ((j, proved q) ∷ (k, n) ∷ after),
          length-append before ((k, in_progress (q ∷ p ∷ [])) ∷ after),
          pending-append before ((j, proved q) ∷ (k, n) ∷ after),
          pending-append before ((k, in_progress (q ∷ p ∷ [])) ∷ after),
        ))
  Sets-counts {k = k} {n} {p} (join_next before after j q w e e') =
      rw (e, e')
        (omega (
          arith,
          length-append before ((k, n) ∷ (j, proved q) ∷ after),
          length-append before ((k, in_progress (p ∷ q ∷ [])) ∷ after),
          pending-append before ((k, n) ∷ (j, proved q) ∷ after),
          pending-append before ((k, in_progress (p ∷ q ∷ [])) ∷ after),
        ))
