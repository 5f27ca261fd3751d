-- ===== src/ProofTree/Tiling.antt =====
-- The nodes of a proof tree cover consecutive chunks: each node starts where the one before it
-- ends, and its index is one of its own chunks.
use pico_proving_service.Prelude.{
  ℕ, suc, ◌+◌, length, ◌≤◌, ◌<◌, ◌≡◌, refl, sym, subst, [], ◌∷◌, ◌++◌, Option, List, arith,
}
use pico_proving_service.BTreeMap.Order.{Rising, Rising-mono}
use pico_proving_service.ProofTree.{IndexedProof, ProofNode, in_progress, proved}
use pico_proving_service.ProofTree.Sets.{Nodes, Sets, join_previous, join_next, keep}

module _ {ℓ} {P : Type ℓ} where
  -- The chunks of a node, from `first_chunk` up to and without `stop`.
  abbrev pub first_chunk : ℕ → ProofNode P → ℕ
  first_chunk k (proved p) = p.start_chunk
  first_chunk k (in_progress (a ∷ b ∷ [])) = a.start_chunk
  first_chunk k (in_progress _) = k

  abbrev pub stop : ℕ → ProofNode P → ℕ
  stop k (proved p) = suc p.end_chunk
  stop k (in_progress (a ∷ b ∷ [])) = suc b.end_chunk
  stop k (in_progress _) = suc k

  -- Where a list of nodes that starts at a chunk stops.
  abbrev pub end_of : ℕ → Nodes P → ℕ
  end_of lo [] = lo
  end_of lo ((k, n) ∷ m) = end_of (stop k n) m

  pub end_of-append : (lo : ℕ) (xs ys : Nodes P) → end_of lo (xs ++ ys) ≡ end_of (end_of lo xs) ys
  end_of-append lo [] ys = refl
  end_of-append lo ((k, n) ∷ xs) ys = end_of-append (stop k n) xs ys

-- `Q` is what is known of each proof.
module _ {ℓ} {P : Type ℓ} (Q : IndexedProof P → Type 0) where
  abbrev pub Piece : ℕ → IndexedProof P → Type 0
  Piece lo p = (p.start_chunk ≡ lo) × (lo ≤ p.end_chunk) × Q p

  abbrev pub Covers : ℕ → ℕ → ProofNode P → Type 0
  Covers lo k (proved p) = Piece lo p × (lo ≤ k) × (k ≤ p.end_chunk)
  Covers lo k (in_progress []) = k ≡ lo
  Covers lo k (in_progress (a ∷ [])) = ⊥
  Covers lo k (in_progress (a ∷ b ∷ [])) =
      Piece lo a × Piece (suc a.end_chunk) b × (lo ≤ k) × (k ≤ b.end_chunk)
  Covers lo k (in_progress (a ∷ b ∷ c ∷ ps)) = ⊥

  abbrev pub Tiles : ℕ → Nodes P → Type 0
  Tiles lo [] = Unit
  Tiles lo ((k, n) ∷ m) = Covers lo k n × Tiles (stop k n) m

  -- The proof is what the node at `k` waits for.
  abbrev pub Answers : ℕ → ProofNode P → IndexedProof P → Type 0
  Answers k n p = (p.start_chunk ≡ first_chunk k n) × (suc p.end_chunk ≡ stop k n) × Q p

  pub Covers-bounds :
      (lo k : ℕ) (n : ProofNode P)
      → Covers lo k n
      → (first_chunk k n ≡ lo) × (lo ≤ k) × (k < stop k n)
  Covers-bounds lo k (proved p) c = omega arith
  Covers-bounds lo k (in_progress []) c = omega arith
  Covers-bounds lo k (in_progress (a ∷ b ∷ [])) c = omega arith
  Covers-bounds lo k (in_progress (a ∷ [])) c = absurd c
  Covers-bounds lo k (in_progress (a ∷ b ∷ c ∷ ps)) h = absurd h

  pub Tiles-Rising : (lo : ℕ) (m : Nodes P) → Tiles lo m → Rising lo m
  Tiles-Rising lo [] t = tt
  Tiles-Rising lo ((k, n) ∷ m) t =
      let (_, low, high) = Covers-bounds lo k n t.0 in
      (low, Rising-mono (suc k) (stop k n) m high (Tiles-Rising (stop k n) m t.1))

  pub Tiles-split :
      (lo : ℕ) (xs ys : Nodes P) → Tiles lo (xs ++ ys) → Tiles lo xs × Tiles (end_of lo xs) ys
  Tiles-split lo [] ys t = (tt, t)
  Tiles-split lo ((k, n) ∷ xs) ys t = let (l, r) = Tiles-split (stop k n) xs ys t.1 in ((t.0, l), r)

  pub Tiles-append :
      (lo : ℕ) (xs ys : Nodes P) → Tiles lo xs → Tiles (end_of lo xs) ys → Tiles lo (xs ++ ys)
  Tiles-append lo [] ys l r = r
  Tiles-append lo ((k, n) ∷ xs) ys l r = (l.0, Tiles-append (stop k n) xs ys l.1 r)

  Covers-proved :
      (lo k : ℕ) (n : ProofNode P) (p : IndexedProof P)
      → Covers lo k n
      → Answers k n p
      → Covers lo k (proved p) × (stop k n ≡ suc p.end_chunk)
  Covers-proved lo k n p c a =
      let b = Covers-bounds lo k n c in
      (((omega arith, omega arith, a.2), omega arith, omega arith), omega arith)

  -- A tiling with one node replaced by others that cover the same chunks.
  replace :
      (lo : ℕ) (before old new after : Nodes P)
      → Tiles lo (before ++ (old ++ after))
      → (Tiles (end_of lo before) old → Tiles (end_of lo before) new)
      → end_of (end_of lo before) old ≡ end_of (end_of lo before) new
      → Tiles lo (before ++ (new ++ after))
        × (end_of lo (before ++ (new ++ after)) ≡ end_of lo (before ++ (old ++ after)))
  replace lo before old new after t f e =
      let mid = end_of lo before in
      let (l, r) = Tiles-split lo before (old ++ after) t in
      let (o, a) = Tiles-split mid old after r in
      (
        Tiles-append lo before (new ++ after) l
            (Tiles-append mid new after (f o) (subst (λ x. Tiles x after) e a)),
        rw (
          end_of-append lo before (new ++ after),
          end_of-append lo before (old ++ after),
          end_of-append mid new after,
          end_of-append mid old after,
          e,
        ),
      )

  -- Storing an answer keeps the tiling, and the chunks that it covers.
  pub Sets-Tiles :
      (lo : ℕ) {m m' : Nodes P} {k : ℕ} {n : ProofNode P} {p : IndexedProof P}
      {out : Option (List (IndexedProof P))}
      → Sets m k n p m' out
      → Tiles lo m
      → Answers k n p
      → Tiles lo m' × (end_of lo m' ≡ end_of lo m)
  Sets-Tiles lo {k = k} {n} {p} (keep before after w w' e e') t a =
      rw (e, e')
        (replace lo before ((k, n) ∷ []) ((k, proved p) ∷ []) after (rw e at t)
          (λ o. ((Covers-proved _ k n p o.0 a).0, tt)) (sym a.1))
  Sets-Tiles lo {k = k} {n} {p} (join_previous before after j q e e') t a =
      rw (e, e')
        (replace lo before ((j, proved q) ∷ (k, n) ∷ []) ((k, in_progress (q ∷ p ∷ [])) ∷ []) after
          (rw e at t)
          (λ o. let c = (Covers-proved _ k n p o.1.0 a).0 in ((o.0.0, c.0, omega arith, c.2), tt))
          (sym a.1))
  Sets-Tiles lo {k = k} {n} {p} (join_next before after j q w e e') t a =
      rw (e, e')
        (replace lo before ((k, n) ∷ (j, proved q) ∷ []) ((k, in_progress (p ∷ q ∷ [])) ∷ []) after
          (rw e at t)
          (λ o.
            let c = (Covers-proved _ k n p o.0 a).0 in
            ((c.0, subst (λ x. Piece x q) (sym a.1) o.1.0.0, omega arith, omega arith), tt))
          refl)

  -- Every node has a chunk of its own.
  pub Tiles-advance : (lo : ℕ) (m : Nodes P) → Tiles lo m → lo + length m ≤ end_of lo m
  Tiles-advance lo [] t = omega arith
  Tiles-advance lo ((k, n) ∷ m) t =
      let b = Covers-bounds lo k n t.0 in omega (arith, Tiles-advance (stop k n) m t.1)
