-- ===== src/System/Brought.antt =====
-- A message that brings a proof, and what the gateway sends for it.
use pico_proving_service.Prelude.{
  ℕ, ◌≡◌, refl, List, [], ◌∷◌, Option, none, some, arith, Outcome, ok, Result,
}
use pico_proving_service.ProofTree.{ProofTree, IndexedProof}
use pico_proving_service.ProofTree.Pending.{joins}
use pico_proving_service.ProofTree.Open.{at_same}
use pico_proving_service.Messages.{GatewayMsg}
use pico_proving_service.Handler.{GatewayHandler, process}
use pico_proving_service.Handler.Answers.{Brings, converted, combined, request_for}
use pico_proving_service.Gateway.{Gateway, again, worker_round, handle_result}
use pico_proving_service.System.Flight.{of_node, in_flight, Guarded}
use pico_proving_service.System.Invariant.{embeds}

module _ {P R E : Type 0} where
  -- What is sent to the workers.
  abbrev pub listed : Option (GatewayMsg P R E) → List (GatewayMsg P R E)
  listed none = []
  listed (some m) = m ∷ []

  pub Brings-of_node :
      (i : ℕ) {k : ℕ} {p : IndexedProof P} {m : GatewayMsg P R E}
      → Brings k p m
      → of_node i m ≡ at_same i k 1
  Brings-of_node i (converted id ip) = refl
  Brings-of_node i (combined id ip) = refl

  pub Brings-embeds :
      {k : ℕ} {p : IndexedProof P} {m : GatewayMsg P R E} (ms : List (GatewayMsg P R E))
      → Brings k p m
      → embeds (m ∷ ms) ≡ embeds ms
  Brings-embeds ms (converted id ip) = refl
  Brings-embeds ms (combined id ip) = refl

  pub Brings-Guarded :
      {k : ℕ} {p : IndexedProof P} {m : GatewayMsg P R E} (ms : List (GatewayMsg P R E))
      → Brings k p m
      → Guarded (m ∷ ms)
      → Guarded ms
  Brings-Guarded ms (converted id ip) g = g
  Brings-Guarded ms (combined id ip) g = g

  module _ {Err : Type 0} (prove : E → Outcome (Result Err (List ℕ))) where
    pub worker_round-process :
        (g : Gateway P E) {k : ℕ} {p : IndexedProof P} {m : GatewayMsg P R E}
        {h : GatewayHandler P E}
        → Brings k p m
        → (out : Option (List (IndexedProof P))) → process g.handler m ≡ ok (h, request_for h k out)
        → worker_round prove g (some m)
          ≡ ok (again (record g { handler = h }) (listed (request_for h k out)))
    unfolding worker_round handle_result
    worker_round-process g (converted id ip) none e = rw e
    worker_round-process g (converted id ip) (some ps) e = rw e
    worker_round-process g (combined id ip) none e = rw e
    worker_round-process g (combined id ip) (some ps) e = rw e

-- The request of a join belongs to its node.
pub listed-of_node :
    {P E : Type 0} (R : Type 0) (i : ℕ) (h : GatewayHandler P E) (k : ℕ)
    (out : Option (List (IndexedProof P)))
    → in_flight i (listed (request_for {R = R} h k out)) ≡ at_same i k (joins out)
listed-of_node R i h k none = ground arith
listed-of_node R i h k (some ps) = omega arith

abbrev pub with_tree : {P E : Type 0} → Gateway P E → ProofTree P → Gateway P E
with_tree g t = record g { handler = record (g.handler) { proof_tree = t } }
