-- ===== src/ProofTree/Whole.antt =====
-- A join is the last one exactly if one node is left, and then its proofs cover every chunk.
use pico_proving_service.Prelude.{
  ℕ, suc, ◌≤◌, ◌≡◌, ◌↔◌, [], ◌∷◌, ◌++◌, List, arith, length, length-append, refl, sym, subst,
}
use pico_proving_service.ProofTree.{IndexedProof, ProofNode, in_progress}
use pico_proving_service.ProofTree.Sets.{Nodes, Joined}
use pico_proving_service.ProofTree.Tiling.{Tiles, end_of, end_of-append, Tiles-split, Tiles-advance}

end_of_nothing {ℓ} : {P : Type ℓ} (lo : ℕ) (m : Nodes P) → length m ≡ 0 → end_of lo m ≡ lo
end_of_nothing lo [] h = refl
end_of_nothing lo ((k, n) ∷ m) h = absurd (omega arith)

module _ {ℓ} {P : Type ℓ} (Q : IndexedProof P → Type 0) (lo : ℕ) where
  -- What a tiling says of the two proofs of a join.
  pub record Pair (m : Nodes P) (a b : IndexedProof P) : Type 0 where
    pub adjacent : b.start_chunk ≡ suc a.end_chunk
    pub left_known : Q a
    pub right_known : Q b
    pub left_order : a.start_chunk ≤ a.end_chunk
    pub right_order : b.start_chunk ≤ b.end_chunk
    pub ends : suc b.end_chunk ≤ end_of lo m
    pub final : (length m ≡ 1) ↔ ((a.start_chunk ≡ lo) × (suc b.end_chunk ≡ end_of lo m))

  module _ (k : ℕ) (a b : IndexedProof P) where
    Tiles-Pair :
        (before after : Nodes P)
        → Tiles Q lo (before ++ (k, in_progress (a ∷ b ∷ [])) ∷ after)
        → Pair (before ++ (k, in_progress (a ∷ b ∷ [])) ∷ after) a b
    Tiles-Pair before after t =
        let node : ℕ × ProofNode P = (k, in_progress (a ∷ b ∷ [])) in
        let (l, r) = Tiles-split Q lo before (node ∷ after) t in
        let c = r.0 in
        let size = length-append before (node ∷ after) in
        let finish = end_of-append lo before (node ∷ after) in
        let low = Tiles-advance Q lo before l in
        let high = Tiles-advance Q (suc b.end_chunk) after r.1 in
        record {
          adjacent = c.1.0;
          left_known = c.0.2;
          right_known = c.1.2;
          left_order = omega arith;
          right_order = omega arith;
          ends = omega arith;
          final = (
            λ one. (
              omega (arith, end_of_nothing lo before (omega arith)),
              omega (arith, end_of_nothing (suc b.end_chunk) after (omega arith)),
            ),
            λ h. omega arith,
          );
        }

  -- The two proofs of a join under a tiling.
  pub Joined-Pair :
      (m : Nodes P) {k : ℕ} {ps : List (IndexedProof P)}
      → (j : Joined m k ps) → Tiles Q lo m
      → Pair m j.left j.right
  Joined-Pair m {k} j t =
      subst (λ x. Pair x j.left j.right) (sym j.whole)
        (Tiles-Pair k j.left j.right j.before j.after (subst (Tiles Q lo) j.whole t))
