-- ===== src/Handler.antt =====
-- src/proving/gateway/handler/mod.rs: the state of the gateway and its handlers of messages.
-- What is only logged, such as the size of the embed proof, is left out.
pub mod Answers
pub mod Flag
use mathlib.Core.Option
use pico_proving_service.Prelude.{
  ℕ, Bool, true, false, List, [], ◌∷◌, Option, none, some, Outcome, ok, panic, ◌>>=◌,
  unexpected_message, unsupported, not_two_proofs, length, ◌==◌, if◌then◌else◌, to_string,
}
use pico_proving_service.ProofTree.{IndexedProof, ProofTree, default, len, init_node, set_proof}
use pico_proving_service.Messages.{
  GatewayMsg, emulator_complete, riscv, combine, embed, exit, RiscvMsg, CombineMsg, CombineRequest,
}

pub record GatewayHandler (P E : Type 0) : Type 0 where
  pub emulator_complete : Bool
  pub proof_tree : ProofTree P
  pub embed_proof : Option E

-- The proofs to combine, with the index of the node that waits for them.
abbrev pub ToCombine : Type 0 → Type 0
ToCombine P = Option (ℕ × List (IndexedProof P))

module _ {P E : Type 0} where
  -- `GatewayHandler::new`
  abbrev pub new : GatewayHandler P E
  new = record { emulator_complete = false; proof_tree = default; embed_proof = none }

  abbrev pub complete : GatewayHandler P E → Bool
  complete h = elim h.embed_proof [ none ↦ false | some _ ↦ true ]

  abbrev pub get_embed_proof : GatewayHandler P E → Option E
  get_embed_proof h = h.embed_proof

  abbrev pub set_embed_proof : GatewayHandler P E → E → GatewayHandler P E
  set_embed_proof h e = record h { embed_proof = some e }

  -- `self.proof_tree.init_node(chunk_index)`
  abbrev pub track : GatewayHandler P E → ℕ → Outcome (GatewayHandler P E)
  track h index = do t ← init_node h.proof_tree index; ok (record h { proof_tree = t })

  -- `self.proof_tree.set_proof(chunk_index, proof).map(|proofs| (chunk_index, proofs))`
  abbrev pub record_proof :
      GatewayHandler P E → ℕ → IndexedProof P → Outcome (GatewayHandler P E × ToCombine P)
  record_proof h index p = do
    (t, proofs) ← set_proof h.proof_tree index p
    ok (record h { proof_tree = t }, Option.map (λ ps. (index, ps)) proofs)

module _ {P R E : Type 0} where
  unfoldable pub process_riscv_req :
      GatewayHandler P E
      → GatewayMsg P R E
      → Outcome (GatewayHandler P E × Option (GatewayMsg P R E))
  process_riscv_req h (riscv (RiscvMsg.request r) _ _) = do
    h' ← track h r.chunk_index
    ok (h', none)
  process_riscv_req h (riscv (RiscvMsg.response _) _ _) = panic unexpected_message
  process_riscv_req h _ = panic unsupported

  -- The `match` of `process`.
  unfoldable pub dispatch :
      GatewayHandler P E → GatewayMsg P R E → Outcome (GatewayHandler P E × ToCombine P)
  dispatch h GatewayMsg.emulator_complete = ok (record h { emulator_complete = true }, none)
  dispatch h (riscv (RiscvMsg.request r) _ _) = do h' ← track h r.chunk_index; ok (h', none)
  dispatch h (riscv (RiscvMsg.response r) _ _) = record_proof h r.chunk_index r.proof
  dispatch h (combine (CombineMsg.response r) _ _) = record_proof h r.chunk_index r.proof
  dispatch h (embed e) = ok (set_embed_proof h e, none)
  dispatch h _ = panic unsupported

  -- `flag_complete` is read off the tree after the join.
  abbrev pub combine_request : GatewayHandler P E → ℕ → List (IndexedProof P) → GatewayMsg P R E
  combine_request h index proofs =
      combine
        (CombineMsg.request
          (record { flag_complete = len h.proof_tree == 1; chunk_index = index; proofs = proofs }))
        (to_string index) []

  abbrev pub follow_up :
      GatewayHandler P E → ToCombine P → Outcome (GatewayHandler P E × Option (GatewayMsg P R E))
  follow_up h none = ok (h, none)
  follow_up h (some (index, proofs)) =
      if length proofs == 2
      then ok (h, some (combine_request h index proofs))
      else panic not_two_proofs

  -- What follows the `match` in `process`.
  unfoldable pub respond :
      GatewayHandler P E → ToCombine P → Outcome (GatewayHandler P E × Option (GatewayMsg P R E))
  respond h c = if complete h then ok (h, some exit) else follow_up h c

  unfoldable pub process :
      GatewayHandler P E
      → GatewayMsg P R E
      → Outcome (GatewayHandler P E × Option (GatewayMsg P R E))
  process h msg = do (h', c) ← dispatch h msg; respond h' c
