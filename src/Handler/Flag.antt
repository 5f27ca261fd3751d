-- ===== src/Handler/Flag.antt =====
-- When a request to combine is marked as the last one.
use pico_proving_service.Prelude.{
  ℕ, suc, ◌≡◌, ◌↔◌, sym, ap, ◌∙◌, List, [], ◌∷◌, Option, none, some, ok, true, ==_iff, Text, ◌==◌,
}
use pico_proving_service.BTreeMap.{get}
use pico_proving_service.ProofTree.{IndexedProof, ProofNode, ProofTree, len}
use pico_proving_service.ProofTree.Sets.{Sets, Sets-Joined}
use pico_proving_service.ProofTree.Tiling.{Tiles, end_of, Answers, Sets-Tiles, Tiles-Rising}
use pico_proving_service.ProofTree.Whole.{Joined-Pair}
use pico_proving_service.Messages.{GatewayMsg, CombineMsg, CombineRequest, combine}
use pico_proving_service.Handler.{GatewayHandler, process}
use pico_proving_service.Handler.Answers.{Brings, process-Requested, request_for}

module _ {P R E : Type 0} (Q : IndexedProof P → Type 0) (lo : ℕ) (h h' : GatewayHandler P E) (k : ℕ)
    {n : ProofNode P} (p : IndexedProof P) {msg : GatewayMsg P R E} where
  -- While there is no embed proof, on a tree whose nodes cover consecutive chunks and for a proof
  -- of the chunks of its node, a combine request that the handler returns holds two adjacent
  -- proofs, and it is marked as the last one exactly if they cover all the chunks that the tree
  -- knows of: whether the emulation has ended does not matter.
  pub process-flag :
      (r : CombineRequest P) (id ip : Text)
      → Brings k p msg
      → h.embed_proof ≡ none
      → Tiles Q lo h.proof_tree.tree
      → get k h.proof_tree.tree ≡ some n
      → Answers Q k n p
      → process h msg ≡ ok (h', some (combine (CombineMsg.request r) id ip))
      → (a : IndexedProof P) × (b : IndexedProof P) × (r.proofs ≡ a ∷ b ∷ [])
        × (b.start_chunk ≡ suc a.end_chunk)
        × ((r.flag_complete ≡ true)
            ↔ ((a.start_chunk ≡ lo) × (suc b.end_chunk ≡ end_of lo h.proof_tree.tree)))
  process-flag r id ip b e tiles found answers run =
      let s = process-Requested lo h k p b e (Tiles-Rising Q lo h.proof_tree.tree tiles) found in
      let sent : request_for (record h { proof_tree = s.tree }) k s.combine_next
          ≡ some (combine (CombineMsg.request r) id ip) =
        (let returns = s.returns in cc) in
      go s.tree s.combine_next s.sets sent
    where
      go :
          (tree : ProofTree P) (o : Option (List (IndexedProof P)))
          → Sets h.proof_tree.tree k n p tree.tree o
          → request_for {R = R} (record h { proof_tree = tree }) k o
            ≡ some (combine (CombineMsg.request r) id ip)
          → (a : IndexedProof P) × (b : IndexedProof P) × (r.proofs ≡ a ∷ b ∷ [])
            × (b.start_chunk ≡ suc a.end_chunk)
            × ((r.flag_complete ≡ true)
                ↔ ((a.start_chunk ≡ lo) × (suc b.end_chunk ≡ end_of lo h.proof_tree.tree)))
      go tree none sets sent = cc
      go tree (some ps) sets sent =
          let same : record { flag_complete = len tree == 1; chunk_index = k; proofs = ps } ≡ r =
            cc in
          let (tiles', stop') = Sets-Tiles Q lo sets tiles answers in
          let j = Sets-Joined sets in
          let two = Joined-Pair Q lo tree.tree j tiles' in
          let one = ==_iff (len tree) 1 in
          let flag = ap (λ (x : CombineRequest P). x.flag_complete) same in
          (
            j.left,
            j.right,
            sym (ap (λ (x : CombineRequest P). x.proofs) same) ∙ j.pair,
            two.adjacent,
            (
              λ y. (let (low, high) = two.final.0 (one.0 (flag ∙ y)) in (low, high ∙ stop')),
              λ y. sym flag ∙ one.1 (two.final.1 (y.0, y.1 ∙ sym stop')),
            ),
          )
