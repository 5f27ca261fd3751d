-- ===== src/ProofTree/Settled.antt =====
-- No two neighbours are proved: `set_proof` would have joined them. So a tree with nothing in
-- progress has one node at most.
use pico_proving_service.Prelude.{
  ℕ, ◌≤◌, ◌≡◌, refl, subst, [], ◌∷◌, ◌++◌, Option, List, some, none, arith, length,
}
use pico_proving_service.ProofTree.{IndexedProof, ProofNode, in_progress, proved}
use pico_proving_service.BTreeMap.Zipper.{first, last}
use pico_proving_service.ProofTree.Sets.{Nodes, Sets, join_previous, join_next, keep, Waits}
use pico_proving_service.ProofTree.Pending.{pending}

module _ {ℓ} {P : Type ℓ} where
  abbrev pub After : ProofNode P → Nodes P → Type 0
  After (in_progress _) m = Unit
  After (proved _) m = Waits (first m)

  abbrev pub Settled : Nodes P → Type 0
  Settled [] = Unit
  Settled ((k, n) ∷ m) = After n m × Settled m

  -- With nothing in progress the tree has one node at most.
  pub Settled-length : (m : Nodes P) → Settled m → pending m ≡ 0 → length m ≤ 1
  Settled-length [] s h = omega arith
  Settled-length ((k, n) ∷ []) s h = omega arith
  Settled-length ((k, in_progress _) ∷ m) s h = absurd (omega arith)
  Settled-length ((k, proved _) ∷ (j, in_progress _) ∷ m) s h = absurd (omega arith)
  Settled-length ((k, proved _) ∷ (j, proved _) ∷ m) s h = absurd s.0

  -- The last entry of one list and the first of the next are not both proved.
  abbrev pub Meets : Option (ℕ × ProofNode P) → Option (ℕ × ProofNode P) → Type 0
  Meets none e = Unit
  Meets (some (j, in_progress _)) e = Unit
  Meets (some (j, proved _)) e = Waits e

  Meets-Waits : (d e : Option (ℕ × ProofNode P)) → Waits d → Meets d e
  Meets-Waits none e w = tt
  Meets-Waits (some (j, in_progress _)) e w = tt
  Meets-Waits (some (j, proved _)) e w = absurd w

  Meets-open :
      (d : Option (ℕ × ProofNode P)) (k : ℕ) (ps : List (IndexedProof P))
      → Meets d (some (k, in_progress ps))
  Meets-open none k ps = tt
  Meets-open (some (j, in_progress _)) k ps = tt
  Meets-open (some (j, proved _)) k ps = tt

  After-Waits : (n : ProofNode P) (m : Nodes P) → Waits (first m) → After n m
  After-Waits (in_progress _) m w = tt
  After-Waits (proved _) m w = w

  After-first : (n : ProofNode P) (m m' : Nodes P) → first m ≡ first m' → After n m → After n m'
  After-first (in_progress _) m m' h a = tt
  After-first (proved _) m m' h a = subst Waits h a

  last-cons : (d e : ℕ × ProofNode P) (m : Nodes P) → last (d ∷ e ∷ m) ≡ last (e ∷ m)
  last-cons d e m = ground arith

  Settled-append :
      (xs ys : Nodes P) → Settled xs → Settled ys → Meets (last xs) (first ys) → Settled (xs ++ ys)
  Settled-append [] ys s s' h = s'
  Settled-append ((k, in_progress _) ∷ []) ys s s' h = (tt, s')
  Settled-append ((k, proved _) ∷ []) ys s s' h = (h, s')
  Settled-append ((k, n) ∷ e ∷ xs) ys s s' h =
      let met = subst (λ d. Meets d (first ys)) (last-cons (k, n) e xs) h in
      (After-first n (e ∷ xs) (e ∷ (xs ++ ys)) refl s.0, Settled-append (e ∷ xs) ys s.1 s' met)

  Settled-split : (xs ys : Nodes P) → Settled (xs ++ ys) → Settled xs × Settled ys
  Settled-split [] ys s = (tt, s)
  Settled-split ((k, n) ∷ []) ys s = ((After-Waits n [] tt, tt), s.1)
  Settled-split ((k, n) ∷ e ∷ xs) ys s =
      let (l, r) = Settled-split (e ∷ xs) ys s.1 in
      ((After-first n (e ∷ (xs ++ ys)) (e ∷ xs) refl s.0, l), r)

  -- `set_proof` leaves no two neighbours proved.
  pub Sets-Settled :
      {m m' : Nodes P} {k : ℕ} {n : ProofNode P} {p : IndexedProof P}
      {out : Option (List (IndexedProof P))}
      → Sets m k n p m' out
      → Settled m
      → Settled m'
  Sets-Settled {k = k} {n} {p} (keep before after w w' e e') s =
      let (l, r) = Settled-split before ((k, n) ∷ after) (rw e at s) in
      rw e' (
        Settled-append before ((k, proved p) ∷ after) l (w', r.1)
          (Meets-Waits (last before) (some (k, proved p)) w))
  Sets-Settled {k = k} {n} {p} (join_previous before after j q e e') s =
      let (l, r) = Settled-split before ((j, proved q) ∷ (k, n) ∷ after) (rw e at s) in
      rw e' (
        Settled-append before ((k, in_progress (q ∷ p ∷ [])) ∷ after) l (tt, r.1.1)
          (Meets-open (last before) k (q ∷ p ∷ [])))
  Sets-Settled {k = k} {n} {p} (join_next before after j q w e e') s =
      let (l, r) = Settled-split before ((k, n) ∷ (j, proved q) ∷ after) (rw e at s) in
      rw e' (
        Settled-append before ((k, in_progress (p ∷ q ∷ [])) ∷ after) l (tt, r.1.1)
          (Meets-open (last before) k (p ∷ q ∷ [])))

  -- A new node at the end is in progress.
  pub Settled-snoc :
      (m : Nodes P) (k : ℕ) (ps : List (IndexedProof P))
      → Settled m
      → Settled (m ++ (k, in_progress ps) ∷ [])
  Settled-snoc m k ps s =
      Settled-append m ((k, in_progress ps) ∷ []) s (tt, tt) (Meets-open (last m) k ps)
