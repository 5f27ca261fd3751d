-- ===== src/ProofTree/Others.antt =====
-- What a lookup finds after `set_proof`: the new node at the index, and every other node in
-- progress as it was.
use pico_proving_service.Prelude.{ℕ, ◌≡◌, ◌≢◌, sym, [], ◌∷◌, ◌++◌, Option, List, some, none, ◌∙◌}
use pico_proving_service.BTreeMap.{get}
use pico_proving_service.BTreeMap.Order.{Rising, Rising-middle}
use pico_proving_service.BTreeMap.Zipper.{get-split, get_drop, get_without}
use pico_proving_service.ProofTree.{IndexedProof, ProofNode, in_progress, proved}
use pico_proving_service.ProofTree.Sets.{Nodes, Sets, join_previous, join_next, keep}

module _ {ℓ} {P : Type ℓ} where
  -- The node that is stored.
  abbrev pub stored_node : IndexedProof P → Option (List (IndexedProof P)) → ProofNode P
  stored_node p none = proved p
  stored_node p (some ps) = in_progress ps

  get_middle :
      (lo k : ℕ) (u : ProofNode P) (before after : Nodes P)
      → Rising lo (before ++ (k, u) ∷ after)
      → get k (before ++ (k, u) ∷ after) ≡ some u
  get_middle lo k u before after r =
      get-split k u after before (Rising-middle lo k u before after r).0

  -- The index holds the node that is stored.
  pub get-Sets_self :
      (lo : ℕ) {m m' : Nodes P} {k : ℕ} {n : ProofNode P} {p : IndexedProof P}
      {out : Option (List (IndexedProof P))}
      → Sets m k n p m' out
      → Rising lo m'
      → get k m' ≡ some (stored_node p out)
  get-Sets_self lo {k = k} {p = p} (keep before after w w' e e') r =
      rw e' (get_middle lo k (proved p) before after (rw e' at r))
  get-Sets_self lo {k = k} {p = p} (join_previous before after j q e e') r =
      rw e' (get_middle lo k (in_progress (q ∷ p ∷ [])) before after (rw e' at r))
  get-Sets_self lo {k = k} {p = p} (join_next before after j q w e e') r =
      rw e' (get_middle lo k (in_progress (p ∷ q ∷ [])) before after (rw e' at r))

  module _ (i : ℕ) (ps : List (IndexedProof P)) where
    replaced :
        (k : ℕ) (u : ProofNode P) (before after : Nodes P)
        → i ≢ k
        → get i (before ++ after) ≡ some (in_progress ps)
        → get i (before ++ (k, u) ∷ after) ≡ some (in_progress ps)
    replaced k u before after d h = get_without i k u before after d ∙ h

    -- Every other node in progress stays as it was.
    pub get-Sets_other :
        {m m' : Nodes P} {k : ℕ} {n : ProofNode P} {p : IndexedProof P}
        {out : Option (List (IndexedProof P))}
        → Sets m k n p m' out
        → i ≢ k
        → get i m ≡ some (in_progress ps)
        → get i m' ≡ some (in_progress ps)
    get-Sets_other {k = k} {n} {p} (keep before after w w' e e') d h = rw e' (
        replaced k (proved p) before after d (sym (get_without i k n before after d) ∙ (rw e at h)))
    get-Sets_other {k = k} {n} {p} (join_previous before after j q e e') d h =
        let open_h =
          get_drop i j (proved q) (in_progress ps) before ((k, n) ∷ after) (rw e at h) (λ c. cc) in
        rw e' (
          replaced k (in_progress (q ∷ p ∷ [])) before after d
            (sym (get_without i k n before after d) ∙ open_h))
    get-Sets_other {k = k} {n} {p} (join_next before after j q w e e') d h =
        let open_h = sym (get_without i k n before ((j, proved q) ∷ after) d) ∙ (rw e at h) in
        rw e' (
          replaced k (in_progress (p ∷ q ∷ [])) before after d
            (get_drop i j (proved q) (in_progress ps) before after open_h (λ c. cc)))
