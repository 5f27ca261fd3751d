-- ===== src/Worker/Combine.antt =====
-- src/proving/worker/prover/combine.rs: combines two adjacent proofs.
use pico_proving_service.Prelude.{
  ℕ, ◌+◌, List, some, none, Outcome, ok, panic, ◌>>=◌, too_many_proofs, out_of_bounds, not_adjacent,
  length, leb, ◌==◌, if◌then◌else◌, get_elem?,
}
use pico_proving_service.ProofTree.{indexed, get_inner}
use pico_proving_service.Messages.{CombineRequest, CombineResponse}
use pico_proving_service.Worker.Vm.{PicoVm}

-- `proofs[i]`
abbrev pub at {ℓ} : {A : Type ℓ} → List A → ℕ → Outcome A
at xs i = elim (get_elem? xs i) [ none ↦ panic out_of_bounds | some x ↦ ok x ]

module _ (vm : PicoVm) where
  open vm use {MetaProof, combine_size, prove_two}

  unfoldable pub process : CombineRequest MetaProof → Outcome (CombineResponse MetaProof)
  process req =
      if leb (length req.proofs) combine_size
      then (do
        a ← at req.proofs 0
        b ← at req.proofs 1
        if a.end_chunk + 1 == b.start_chunk
            then ok (record {
              chunk_index = req.chunk_index;
              proof =
                  indexed (prove_two (get_inner a) (get_inner b) req.flag_complete) a.start_chunk
                    b.end_chunk;
            })
            else panic not_adjacent)
      else panic too_many_proofs
