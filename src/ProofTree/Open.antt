-- ===== src/ProofTree/Open.antt =====
-- Which indices are in progress: how often each one is, and that it is at most once.
use pico_proving_service.Prelude.{
  ℕ, suc, ◌+◌, ◌<◌, ◌≡◌, refl, [], ◌∷◌, ◌++◌, Option, List, some, arith, ◌==◌, if◌then◌else◌,
}
use pico_proving_service.BTreeMap.{get}
use pico_proving_service.BTreeMap.Order.{Rising}
use pico_proving_service.ProofTree.{IndexedProof, ProofNode, in_progress, proved}
use pico_proving_service.ProofTree.Sets.{Nodes, Sets, join_previous, join_next, keep}
use pico_proving_service.ProofTree.Pending.{open_one, joins, pending}

-- `n` if the numbers are the same, else 0
abbrev pub at_same : ℕ → ℕ → ℕ → ℕ
at_same i k n = if i == k then n else 0

module _ {ℓ} {P : Type ℓ} where
  -- How many nodes in progress have the index.
  abbrev pub open_at : ℕ → Nodes P → ℕ
  open_at i [] = 0
  open_at i ((k, n) ∷ m) = at_same i k (open_one n) + open_at i m

  pub open_at-append :
      (i : ℕ) (xs ys : Nodes P) → open_at i (xs ++ ys) ≡ open_at i xs + open_at i ys
  open_at-append i [] ys = omega arith
  open_at-append i ((k, n) ∷ xs) ys = omega (arith, open_at-append i xs ys)

  -- `set_proof` closes its own index, unless there is something to combine, and no other.
  pub Sets-open_at :
      (i : ℕ) {m m' : Nodes P} {k : ℕ} {n : ProofNode P} {p : IndexedProof P}
      {out : Option (List (IndexedProof P))}
      → Sets m k n p m' out
      → open_at i m' + at_same i k (open_one n) ≡ open_at i m + at_same i k (joins out)
  Sets-open_at i {k = k} {n} {p} (keep before after w w' e e') =
      rw (e, e')
        (ground (
          arith,
          open_at-append i before ((k, n) ∷ after),
          open_at-append i before ((k, proved p) ∷ after),
        ))
  Sets-open_at i {k = k} {n} {p} (join_previous before after j q e e') =
      rw (e, e')
        (ground (
          arith,
          open_at-append i before ((j, proved q) ∷ (k, n) ∷ after),
          open_at-append i before ((k, in_progress (q ∷ p ∷ [])) ∷ after),
        ))
  Sets-open_at i {k = k} {n} {p} (join_next before after j q w e e') =
      rw (e, e')
        (ground (
          arith,
          open_at-append i before ((k, n) ∷ (j, proved q) ∷ after),
          open_at-append i before ((k, in_progress (p ∷ q ∷ [])) ∷ after),
        ))

  open_at_below : (i lo : ℕ) (m : Nodes P) → Rising lo m → i < lo → open_at i m ≡ 0
  open_at_below i lo [] r h = refl
  open_at_below i lo ((k, n) ∷ m) r h = ground (arith, open_at_below i (suc k) m r.1)

  -- An index in progress is so once.
  pub open_at_found :
      (i lo : ℕ) (m : Nodes P) {ps : List (IndexedProof P)}
      → Rising lo m
      → get i m ≡ some (in_progress ps)
      → open_at i m ≡ 1
  unfolding get
  open_at_found i lo [] r h = cc
  open_at_found i lo ((k, n) ∷ m) {ps} r h =
      ground (arith, open_at_below i (suc k) m r.1, open_at_found i (suc k) m {ps = ps} r.1)

  -- If no index is in progress, no node is.
  pub pending_of_open_at : (m : Nodes P) → ((i : ℕ) → open_at i m ≡ 0) → pending m ≡ 0
  pending_of_open_at [] h = refl
  pending_of_open_at ((k, n) ∷ m) h =
      let tail = pending_of_open_at m (λ i. omega (arith, h i)) in ground (arith, h k)
