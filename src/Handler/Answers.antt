-- ===== src/Handler/Answers.antt =====
-- A proof that answers a node in progress: what the handler makes of it.
use mathlib.Core.Option
use pico_proving_service.Prelude.{
  ℕ, ◌≡◌, ◌↔◌, refl, ◌∙◌, Bool, true, List, [], length, ◌==◌, ==_iff, to_string, Option, none, some,
  ok, ◌>>=◌, Text,
}
use pico_proving_service.BTreeMap.{get}
use pico_proving_service.BTreeMap.Order.{Rising}
use pico_proving_service.ProofTree.{IndexedProof, ProofNode, ProofTree}
use pico_proving_service.ProofTree.Sets.{Nodes, Sets, join_previous, join_next, keep}
use pico_proving_service.ProofTree.Stored.{set_proof-Sets}
use pico_proving_service.Messages.{GatewayMsg, riscv, combine, RiscvMsg, CombineMsg}
use pico_proving_service.Handler.{
  GatewayHandler, record_proof, respond, combine_request, process, dispatch,
}

module _ {P R E : Type 0} where
  -- The two messages that bring a proof, with the index of its node.
  pub data Brings (k : ℕ) (p : IndexedProof P) : GatewayMsg P R E → Type 0 where
    converted :
        (id ip : Text)
        → Brings k p (riscv (RiscvMsg.response (record { chunk_index = k; proof = p })) id ip)
    combined :
        (id ip : Text)
        → Brings k p (combine (CombineMsg.response (record { chunk_index = k; proof = p })) id ip)

  -- What is sent for the proofs to combine.
  abbrev pub request_for :
      GatewayHandler P E → ℕ → Option (List (IndexedProof P)) → Option (GatewayMsg P R E)
  request_for h k none = none
  request_for h k (some ps) = some (combine_request h k ps)

  -- The message for the proofs to combine: a combine request with them, and with the index, which is
  -- marked as the last one exactly if the tree has one node.
  pub data Asks (t : Nodes P) (k : ℕ)
      : Option (List (IndexedProof P)) → Option (GatewayMsg P R E) → Type 0 where
    nothing : Asks t k none none
    combines :
        (proofs : List (IndexedProof P)) (last : Bool)
        → (last ≡ true) ↔ (length t ≡ 1)
        → Asks t k (some proofs) (
            some (
              combine
                (CombineMsg.request
                  (record { flag_complete = last; chunk_index = k; proofs = proofs }))
                (to_string k)
                []))

  request_for-Asks :
      (h : GatewayHandler P E) (k : ℕ) (out : Option (List (IndexedProof P)))
      → Asks h.proof_tree.tree k out (request_for h k out)
  request_for-Asks h k none = nothing
  request_for-Asks h k (some proofs) =
      combines proofs (length h.proof_tree.tree == 1) (==_iff (length h.proof_tree.tree) 1)

  -- The same, with the request as the code makes it.
  pub record Requested (h : GatewayHandler P E) (k : ℕ) (n : ProofNode P) (p : IndexedProof P)
      (msg : GatewayMsg P R E) : Type 0 where
    pub tree : ProofTree P
    pub combine_next : Option (List (IndexedProof P))
    pub sets : Sets h.proof_tree.tree k n p tree.tree combine_next
    pub returns :
        process h msg
        ≡ ok (
          record h { proof_tree = tree },
          request_for (record h { proof_tree = tree }) k combine_next,
        )

  pub record Answered (h : GatewayHandler P E) (k : ℕ) (n : ProofNode P) (p : IndexedProof P)
      (msg : GatewayMsg P R E) : Type 0 where
    pub tree : ProofTree P
    pub combine_next : Option (List (IndexedProof P))
    pub sets : Sets h.proof_tree.tree k n p tree.tree combine_next
    pub sent : Option (GatewayMsg P R E)
    pub asks : Asks tree.tree k combine_next sent
    pub returns : process h msg ≡ ok (record h { proof_tree = tree }, sent)

  respond_open :
      (h : GatewayHandler P E) (k : ℕ) (n : ProofNode P) (p : IndexedProof P) {m m' : Nodes P}
      {out : Option (List (IndexedProof P))}
      → h.embed_proof ≡ none
      → Sets m k n p m' out
      → respond {R = R} h (Option.map (λ ps. (k, ps)) out) ≡ ok (h, request_for h k out)
  unfolding respond
  respond_open h k n p e (keep _ _ _ _ _ _) = rw e
  respond_open h k n p e (join_previous _ _ _ _ _ _) = rw e
  respond_open h k n p e (join_next _ _ _ _ _ _ _) = rw e

  process_proof :
      (h : GatewayHandler P E) (k : ℕ) (p : IndexedProof P) {msg : GatewayMsg P R E}
      → Brings k p msg
      → process h msg ≡ (do (h', c) ← record_proof h k p; respond h' c)
  unfolding process dispatch
  process_proof h k p (converted id ip) = refl
  process_proof h k p (combined id ip) = refl

  pub process-Requested :
      (lo : ℕ) (h : GatewayHandler P E) (k : ℕ) {n : ProofNode P} (p : IndexedProof P)
      {msg : GatewayMsg P R E}
      → Brings k p msg
      → h.embed_proof ≡ none
      → Rising lo h.proof_tree.tree
      → get k h.proof_tree.tree ≡ some n
      → Requested h k n p msg
  process-Requested lo h k {n} p b e r f =
      let s = set_proof-Sets lo k p h.proof_tree.tree r f in
      record {
        tree = s.result;
        combine_next = s.combine;
        sets = s.sets;
        returns =
            process_proof h k p b
            ∙ rw s.returns (respond_open (record h { proof_tree = s.result }) k n p e s.sets);
      }

  -- While there is no embed proof, on a tree with rising keys that holds the index, the handler
  -- returns for a riscv or a combine response: it stores the proof as `set_proof` does, and sends a
  -- combine request with the proofs to combine and with the index, if there are any, and nothing
  -- else. The request is marked as the last one exactly if the new tree has one node.
  pub process-Answered :
      (lo : ℕ) (h : GatewayHandler P E) (k : ℕ) {n : ProofNode P} (p : IndexedProof P)
      {msg : GatewayMsg P R E}
      → Brings k p msg
      → h.embed_proof ≡ none
      → Rising lo h.proof_tree.tree
      → get k h.proof_tree.tree ≡ some n
      → Answered h k n p msg
  process-Answered lo h k p b e r f =
      let a = process-Requested lo h k p b e r f in
      record {
        tree = a.tree;
        combine_next = a.combine_next;
        sets = a.sets;
        sent = request_for (record h { proof_tree = a.tree }) k a.combine_next;
        asks = request_for-Asks (record h { proof_tree = a.tree }) k a.combine_next;
        returns = a.returns;
      }
