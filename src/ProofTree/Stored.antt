-- ===== src/ProofTree/Stored.antt =====
-- `set_proof` returns on a tree that holds the index, and does what `Sets` says.
use pico_proving_service.Prelude.{
  ℕ, ◌≡◌, refl, sym, subst, ◌∙◌, List, [], ◌∷◌, ◌++◌, append_assoc, Option, none, some, ◌<◌, ok,
  All-split,
}
use pico_proving_service.BTreeMap.{get, remove}
use pico_proving_service.BTreeMap.Order.{KeysBelow, KeysAbove, Split-get, Rising, Rising-middle}
use pico_proving_service.BTreeMap.Zipper.{
  last, first, last_below-split, first_above-split, assign-split, get-split, remove-split,
}
use pico_proving_service.ProofTree.{
  IndexedProof, ProofNode, in_progress, proved, ProofTree, with_previous, with_next, or_try,
  index_proofs, store, set_proof,
}
use pico_proving_service.ProofTree.Sets.{Nodes, Waits, Sets, join_previous, join_next, keep}

module _ {ℓ} {P : Type ℓ} where
  -- A list is empty or ends in an entry.
  pub data Ends : Nodes P → Type ℓ where
    empty : Ends []
    entry : (m : Nodes P) (j : ℕ) (n : ProofNode P) → Ends (m ++ (j, n) ∷ [])

  pub ends : (m : Nodes P) → Ends m
  ends [] = empty
  ends ((j, n) ∷ m) = step (ends m)
    where
      step : {m : Nodes P} → Ends m → Ends ((j, n) ∷ m)
      step empty = entry [] j n
      step (entry m i x) = entry ((j, n) ∷ m) i x

  last-append : (m : Nodes P) (j : ℕ) (n : ProofNode P) → last (m ++ (j, n) ∷ []) ≡ some (j, n)
  last-append [] j n = refl
  last-append (e ∷ m) j n = rw (last-append m j n)

  pub record Stored (m : Nodes P) (k : ℕ) (n : ProofNode P) (p : IndexedProof P) : Type ℓ where
    pub result : ProofTree P
    pub combine : Option (List (IndexedProof P))
    pub returns : set_proof (record { tree = m }) k p ≡ ok (result, combine)
    pub sets : Sets m k n p result.tree combine

  with_previous-Waits :
      (p : IndexedProof P) (e : Option (ℕ × ProofNode P)) → Waits e → with_previous p e ≡ none
  with_previous-Waits p none w = refl
  with_previous-Waits p (some (j, in_progress _)) w = refl
  with_previous-Waits p (some (j, proved _)) w = absurd w

  with_next-Waits :
      (p : IndexedProof P) (e : Option (ℕ × ProofNode P)) → Waits e → with_next p e ≡ none
  with_next-Waits p none w = refl
  with_next-Waits p (some (j, in_progress _)) w = refl
  with_next-Waits p (some (j, proved _)) w = absurd w

  module _ (k : ℕ) (p : IndexedProof P) (n : ProofNode P) where
    module _ (before after : Nodes P) (below : KeysBelow k before) where
      store-split :
          (u : ProofNode P)
          → store (before ++ (k, n) ∷ after) k u ≡ ok (record { tree = before ++ (k, u) ∷ after })
      unfolding store
      store-split u =
          rw (get-split k n after before below, store) (rw (assign-split k n after before u below))

      index_proofs-split :
          KeysAbove k after
          → index_proofs (before ++ (k, n) ∷ after) k p
            ≡ or_try (with_previous p (last before)) (with_next p (first after))
      unfolding index_proofs
      index_proofs-split above = rw (
        last_below-split k n after before below,
        first_above-split k n after before below above,
        index_proofs,
      )

  module _ (lo k : ℕ) (p : IndexedProof P) (n : ProofNode P) where
    Stored-previous :
        (before after : Nodes P) (j : ℕ) (q : IndexedProof P)
        → Rising lo ((before ++ (j, proved q) ∷ []) ++ (k, n) ∷ after)
        → Stored ((before ++ (j, proved q) ∷ []) ++ (k, n) ∷ after) k n p
    unfolding set_proof
    Stored-previous before after j q r =
        let all = before ++ (j, proved q) ∷ [] in
        let (below, above) = Rising-middle lo k n all after r in
        let at_j = rw append_assoc at r in
        let below' = (All-split (λ e. e.0 < k) before ((j, proved q) ∷ []) below).0 in
        let removed : remove j (all ++ (k, n) ∷ after) ≡ before ++ (k, n) ∷ after =
          rw append_assoc (
            remove-split j (proved q) ((k, n) ∷ after) before
              (Rising-middle lo j (proved q) before ((k, n) ∷ after) at_j).0) in
        record {
          result = record { tree = before ++ (k, in_progress (q ∷ p ∷ [])) ∷ after };
          combine = some (q ∷ p ∷ []);
          returns = rw (
            index_proofs-split k p n all after below above,
            last-append before j (proved q),
            removed,
            store-split k p n before after below' (in_progress (q ∷ p ∷ [])),
          );
          sets =
              join_previous before after j q
                (append_assoc before ((j, proved q) ∷ []) ((k, n) ∷ after)) refl;
        }

    Stored-next :
        (before after : Nodes P) (j : ℕ) (q : IndexedProof P)
        → Waits (last before)
        → Rising lo (before ++ (k, n) ∷ (j, proved q) ∷ after)
        → Stored (before ++ (k, n) ∷ (j, proved q) ∷ after) k n p
    unfolding set_proof
    Stored-next before after j q w r =
        let (below, above) = Rising-middle lo k n before ((j, proved q) ∷ after) r in
        let regroup = append_assoc before ((k, n) ∷ []) ((j, proved q) ∷ after) in
        let removed : remove j (before ++ (k, n) ∷ (j, proved q) ∷ after)
            ≡ before ++ (k, n) ∷ after =
          subst (λ m. remove j m ≡ before ++ (k, n) ∷ after) regroup
            (remove-split j (proved q) after (before ++ (k, n) ∷ [])
                (Rising-middle lo j (proved q) (before ++ (k, n) ∷ []) after
                  (subst (Rising lo) (sym regroup) r)).0
              ∙ append_assoc before ((k, n) ∷ []) after) in
        record {
          result = record { tree = before ++ (k, in_progress (p ∷ q ∷ [])) ∷ after };
          combine = some (p ∷ q ∷ []);
          returns = rw (
            index_proofs-split k p n before ((j, proved q) ∷ after) below above,
            with_previous-Waits p (last before) w,
            removed,
            store-split k p n before after below (in_progress (p ∷ q ∷ [])),
          );
          sets = join_next before after j q w refl refl;
        }

    Stored-keep :
        (before after : Nodes P)
        → Waits (last before)
        → Waits (first after)
        → Rising lo (before ++ (k, n) ∷ after)
        → Stored (before ++ (k, n) ∷ after) k n p
    unfolding set_proof
    Stored-keep before after w w' r =
        let (below, above) = Rising-middle lo k n before after r in
        record {
          result = record { tree = before ++ (k, proved p) ∷ after };
          combine = none;
          returns = rw (
            index_proofs-split k p n before after below above,
            with_previous-Waits p (last before) w,
            with_next-Waits p (first after) w',
            store-split k p n before after below (proved p),
          );
          sets = keep before after w w' refl refl;
        }

    Stored-right :
        (before after : Nodes P)
        → Waits (last before)
        → Rising lo (before ++ (k, n) ∷ after)
        → Stored (before ++ (k, n) ∷ after) k n p
    Stored-right before [] w r = Stored-keep before [] w tt r
    Stored-right before ((j, in_progress ps) ∷ after) w r =
        Stored-keep before ((j, in_progress ps) ∷ after) w tt r
    Stored-right before ((j, proved q) ∷ after) w r = Stored-next before after j q w r

    Stored-around :
        {before : Nodes P}
        → Ends before
        → (after : Nodes P) → Rising lo (before ++ (k, n) ∷ after)
        → Stored (before ++ (k, n) ∷ after) k n p
    Stored-around empty after r = Stored-right [] after tt r
    Stored-around (entry m j (proved q)) after r = Stored-previous m after j q r
    Stored-around (entry m j (in_progress ps)) after r =
        Stored-right (m ++ (j, in_progress ps) ∷ []) after
          (rw (last-append m j (in_progress ps)) tt) r

  -- On a tree with rising keys that holds the index, `set_proof` returns, and does one of three
  -- things: it joins the proof with a proved node just before the index, else with one just after
  -- it, removing that node and holding the two proofs in order at the index, or, if neither
  -- neighbour is proved, it stores the proof and leaves the other nodes.
  pub set_proof-Sets :
      (lo k : ℕ) (p : IndexedProof P) (m : Nodes P) {n : ProofNode P}
      → Rising lo m
      → get k m ≡ some n
      → Stored m k n p
  set_proof-Sets lo k p m {n} r h =
      let s = Split-get lo k m r h in
      subst (λ t. Stored t k n p) (sym s.whole)
        (Stored-around lo k p n (ends s.before) s.after (subst (Rising lo) s.whole r))
