-- ===== src/ProofTree/Contract.antt =====
-- What the gateway relies on when it stores a proof in a tree.
use mathlib.Core.Path.{subst₂}
use pico_proving_service.Prelude.{ℕ, ◌+◌, ◌≡◌, ◌≢◌, List, [], ◌∷◌, Option, some, ok}
use pico_proving_service.BTreeMap.{get}
use pico_proving_service.BTreeMap.Order.{Rising}
use pico_proving_service.ProofTree.{IndexedProof, ProofNode, in_progress, ProofTree, len, set_proof}
use pico_proving_service.ProofTree.Sets.{Sets, Sets-Joined}
use pico_proving_service.ProofTree.Stored.{set_proof-Sets}
use pico_proving_service.ProofTree.Tiling.{Tiles, end_of, Answers, Sets-Tiles, Tiles-Rising}
use pico_proving_service.ProofTree.Settled.{Settled, Sets-Settled}
use pico_proving_service.ProofTree.Pending.{joins, pending, open_one, Sets-counts}
use pico_proving_service.ProofTree.Others.{stored_node, get-Sets_self, get-Sets_other}
use pico_proving_service.ProofTree.Whole.{Pair, Joined-Pair}

module _ {P : Type 0} where
  returned-Sets :
      (lo k : ℕ) (p : IndexedProof P) (t t' : ProofTree P) {n : ProofNode P}
      {out : Option (List (IndexedProof P))}
      → Rising lo t.tree
      → get k t.tree ≡ some n
      → set_proof t k p ≡ ok (t', out)
      → Sets t.tree k n p t'.tree out
  returned-Sets lo k p t t' {n} {out} r f h =
      let s = set_proof-Sets lo k p t.tree r f in
      let same : s.result ≡ t' = (let e = s.returns in cc) in
      let same_out : s.combine ≡ out = (let e = s.returns in cc) in
      subst₂ (λ (a : ProofTree P) b. Sets t.tree k n p a.tree b) same same_out s.sets

  -- If `set_proof` returns on a tree with rising keys that holds the index, and the new keys rise,
  -- its index is found with the proof, or in progress with the proofs to combine.
  pub set_proof-get_self :
      (lo k : ℕ) (p : IndexedProof P) (t t' : ProofTree P) {n : ProofNode P}
      {out : Option (List (IndexedProof P))}
      → Rising lo t.tree
      → Rising lo t'.tree
      → get k t.tree ≡ some n
      → set_proof t k p ≡ ok (t', out)
      → get k t'.tree ≡ some (stored_node p out)
  set_proof-get_self lo k p t t' r r' f h = get-Sets_self lo (returned-Sets lo k p t t' r f h) r'

  -- If `set_proof` returns on a tree with rising keys that holds the index, every other node in
  -- progress is found as it was.
  pub set_proof-get_other :
      (lo k : ℕ) (p : IndexedProof P) (t t' : ProofTree P) {n : ProofNode P}
      {out : Option (List (IndexedProof P))} (i : ℕ) (ps : List (IndexedProof P))
      → Rising lo t.tree
      → get k t.tree ≡ some n
      → set_proof t k p ≡ ok (t', out)
      → i ≢ k
      → get i t.tree ≡ some (in_progress ps)
      → get i t'.tree ≡ some (in_progress ps)
  set_proof-get_other lo k p t t' i ps r f h d =
      get-Sets_other i ps (returned-Sets lo k p t t' r f h) d

  -- The tree after `set_proof`: it covers the same chunks, no two neighbours are proved, and
  -- the counts of its nodes and of those in progress.
  pub record Grown (Q : IndexedProof P → Type 0) (lo : ℕ) (n : ProofNode P) (t t' : ProofTree P)
      (out : Option (List (IndexedProof P))) : Type 0 where
    pub tiled : Tiles Q lo t'.tree
    pub same_end : end_of lo t'.tree ≡ end_of lo t.tree
    pub settled : Settled t'.tree
    pub shrinks : len t ≡ len t' + joins out
    pub closes : pending t'.tree + open_one n ≡ pending t.tree + joins out

  module _ (Q : IndexedProof P → Type 0) (lo k : ℕ) (p : IndexedProof P) (t : ProofTree P)
      {n : ProofNode P} (tiles : Tiles Q lo t.tree) (found : get k t.tree ≡ some n)
      (answers : Answers Q k n p) where
    Sets-Grown :
        (t' : ProofTree P) (out : Option (List (IndexedProof P)))
        → Settled t.tree
        → Sets t.tree k n p t'.tree out
        → Grown Q lo n t t' out
    Sets-Grown t' out settled sets =
        let (tiled, same_end) = Sets-Tiles Q lo sets tiles answers in
        let (shrinks, closes) = Sets-counts sets in
        record {
          tiled = tiled;
          same_end = same_end;
          settled = Sets-Settled sets settled;
          shrinks = shrinks;
          closes = closes;
        }

    -- On a tree whose nodes cover consecutive chunks, with no two proved neighbours, `set_proof`
    -- returns for an index and a proof of the chunks of its node; the new tree covers the same
    -- chunks, again with no two proved neighbours; a join takes one node away and keeps the number
    -- in progress unless the node was proved; else the count of nodes stays and a node in progress
    -- is closed.
    pub set_proof-Grown :
        Settled t.tree
        → (t' : ProofTree P) × (out : Option (List (IndexedProof P))) × (set_proof t k p
            ≡ ok (t', out))
          × Grown Q lo n t t' out
    set_proof-Grown settled =
        let s = set_proof-Sets lo k p t.tree (Tiles-Rising Q lo t.tree tiles) found in
        (s.result, s.combine, s.returns, Sets-Grown s.result s.combine settled s.sets)

    -- If `set_proof` on a tree whose nodes cover consecutive chunks, with a proof of the chunks of
    -- its node, returns proofs to combine, they are two with known contents; the second starts
    -- where the first ends; and the new tree has a single node exactly if together they cover all
    -- chunks of the tree.
    pub set_proof-Pair :
        (t' : ProofTree P) (ps : List (IndexedProof P))
        → set_proof t k p ≡ ok (t', some ps)
        → (a : IndexedProof P) × (b : IndexedProof P) × (ps ≡ a ∷ b ∷ []) × Pair Q lo t'.tree a b
    set_proof-Pair t' ps h =
        let sets = returned-Sets lo k p t t' (Tiles-Rising Q lo t.tree tiles) found h in
        let j = Sets-Joined sets in
        (j.left, j.right, j.pair, Joined-Pair Q lo t'.tree j (Sets-Tiles Q lo sets tiles answers).0)
