-- ===== src/Worker/RiscvConvert.antt =====
-- src/proving/worker/prover/riscv_convert.rs: proves the record of a chunk, and converts the proof.
use pico_proving_service.Prelude.{
  ◌%◌, ◌^◌, List, Option, some, none, Text, replicate, if◌then◌else◌,
}
use pico_proving_service.ProofTree.{indexed}
use pico_proving_service.Messages.{RiscvRequest, RiscvResponse}
use pico_proving_service.Worker.Vm.{PicoVm}

-- The two machines are fixed and stand in `vm`.
pub record RiscvConvertProver (vm : PicoVm) : Type 0 where
  pub prover_id : Text
  pub riscv_shape_config : Option vm.ShapeConfig
  pub recursion_shape_config : Option vm.RecursionShapeConfig
  pub pk : vm.ProvingKey
  pub riscv_vk : vm.VerifyingKey

module _ (vm : PicoVm) where
  open vm use {MetaProof, EmulationRecord, ProvingKey, VerifyingKey, Val}

  unfoldable pub new : Text → ProvingKey → VerifyingKey → RiscvConvertProver vm
  new id pk vk = record {
    prover_id = id;
    riscv_shape_config = if vm.vk_verification_enabled then some vm.default_shape else none;
    recursion_shape_config =
        if vm.vk_verification_enabled then some vm.default_recursion_shape else none;
    pk = pk;
    riscv_vk = vk;
  }

  -- The convert machine takes the index as a `u32`.
  unfoldable pub process :
      RiscvConvertProver vm → RiscvRequest EmulationRecord → List Val → RiscvResponse MetaProof
  process w req vk_root =
      let challenger = vm.observed_by w.pk vm.challenger in
      let index = req.chunk_index in
      let is_last_chunk = vm.is_last req.emulation_record in
      let riscv_proof =
        vm.prove_record index w.pk challenger w.riscv_shape_config req.emulation_record in
      let convert_stdin =
        vm.setup_for_convert_with_index w.riscv_vk vk_root (replicate vm.digest_size vm.val_zero)
          riscv_proof w.recursion_shape_config index is_last_chunk in
      let proof = vm.prove_with_index (index % 2 ^ 32) convert_stdin in
      record { chunk_index = index; proof = indexed proof index index }
