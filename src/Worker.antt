-- ===== src/Worker.antt =====
-- src/proving/worker/prover/mod.rs: a worker prover, which answers the requests of the gateway.
pub mod Vm
pub mod RiscvConvert
pub mod Combine
pub mod Recursion
pub mod Attests
pub mod Laws
pub mod Failures
use pico_proving_service.Prelude.{
  ℕ, Bool, true, false, List, [], ◌∷◌, Option, none, some, Outcome, ok, panic, ◌>>=◌, unsupported,
  unimplemented, Text, if◌then◌else◌, ◌++◌,
}
use pico_proving_service.ProofTree.{IndexedProof}
use pico_proving_service.Messages.{
  GatewayMsg, riscv, combine, embed, exit, request_task, RiscvMsg, CombineMsg, CombineResponse,
  EmbedResponse,
}
use Vm.{PicoVm, get_vk_root}
use RiscvConvert
use RiscvConvert.{RiscvConvertProver}
use Combine
use Recursion

-- The machines of the combine, compress and embed provers are fixed and stand in `vm`.
pub record Prover (vm : PicoVm) : Type 0 where
  pub prover_id : Text
  pub riscv_convert : RiscvConvertProver vm
  pub vk_root : List vm.Val

-- What a worker does with a message: the messages that it sends, and whether its loop goes on.
pub record Reaction (vm : PicoVm) : Type 0 where
  pub sent : List (GatewayMsg vm.MetaProof vm.EmulationRecord vm.EmbedProof)
  pub goes_on : Bool

module _ (vm : PicoVm) where
  open vm use {MetaProof, EmulationRecord, EmbedProof, ProvingKey, VerifyingKey, verify_embed}

  abbrev pub Msg : Type 0
  Msg = GatewayMsg MetaProof EmulationRecord EmbedProof

  -- `Prover::new`; of the task the keys are used.
  unfoldable pub new : Text → ProvingKey → VerifyingKey → Prover vm
  new id pk vk = record {
    prover_id = id;
    riscv_convert = RiscvConvert.new vm id pk vk;
    vk_root = get_vk_root vm;
  }

  -- `Prover::new_cuda`
  abbrev pub new_cuda : Text → ProvingKey → VerifyingKey → Outcome (Prover vm)
  new_cuda id pk vk = panic unimplemented

  -- The compress and embed phases after the final combine.
  unfoldable pub finish : CombineResponse MetaProof → Outcome (EmbedResponse EmbedProof)
  finish res = do
    compress_res ←
        Recursion.compress vm (record { chunk_index = res.chunk_index; proof = res.proof })
    Recursion.embed vm
        (record { chunk_index = compress_res.chunk_index; proof = compress_res.proof })

  abbrev pub answer : Msg → Reaction vm
  answer m = record { sent = m ∷ request_task ∷ []; goes_on = true }

  -- The embed proof is verified before it is sent; if that fails, the combine response is sent.
  unfoldable pub deliver :
      Prover vm → CombineResponse MetaProof → Text → Text → EmbedResponse EmbedProof → Reaction vm
  deliver w res id ip embed_res =
      if verify_embed embed_res.proof.inner w.riscv_convert.riscv_vk
      then record { sent = embed embed_res.proof.inner ∷ exit ∷ []; goes_on = false }
      else answer (combine (CombineMsg.response res) id ip)

  -- One round of the loop of `run`.
  unfoldable pub handle : Prover vm → Msg → Outcome (Reaction vm)
  handle w (riscv (RiscvMsg.request req) id ip) =
      let res = RiscvConvert.process vm w.riscv_convert req w.vk_root in
      ok (answer (riscv (RiscvMsg.response res) id ip))
  handle w (combine (CombineMsg.request req) id ip) = do
    res ← Combine.process vm req
    if req.flag_complete
        then (do embed_res ← finish res; ok (deliver w res id ip embed_res))
        else ok (answer (combine (CombineMsg.response res) id ip))
  handle w exit = ok (record { sent = []; goes_on = false })
  handle w _ = panic unsupported

  -- The messages received until the loop ends; it ends too when the channel is closed.
  abbrev pub serve : Prover vm → List Msg → Outcome (List Msg)
  serve w [] = ok []
  serve w (m ∷ ms) =
      let rest = serve w ms in
      do r ← handle w m; if r.goes_on then (do sent ← rest; ok (r.sent ++ sent)) else ok r.sent

  -- `ProverRunner::run`, which asks for a task first
  unfoldable pub run : Prover vm → List Msg → Outcome (List Msg)
  run w ms = do sent ← serve w ms; ok (request_task ∷ sent)
