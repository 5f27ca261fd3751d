-- ===== src/Worker/Attests.antt =====
-- What the program relies on in pico_vm: a proof attests the execution records that it was made
-- from, and a recursion phase hands on what its input attests.
use pico_proving_service.Prelude.{ℕ, ◌≡◌, ◌≤◌, List, [], ◌∷◌, ◌++◌, Option, some, Bool, true}
use pico_proving_service.Worker.Vm.{PicoVm, Phase}

-- The two ways a phase is run keep what is attested.
pub record Keeps {In Out Val Rec : Type 0} (phase : Phase In Out Val) (in_ : In → List Rec)
    (out : Out → List Rec) (shape : phase.Program → phase.Program) : Type 0 where
  pub keeps_with_vk :
      (p : In) (root : List Val) (r : phase.Record)
      → let stdin = phase.add_vk_merkle_proof (phase.recursion_stdin p true root) in
        let program = shape (phase.build_with_vk stdin) in
        phase.run_with_vk program stdin ≡ some r
        → out (phase.prove (phase.setup_keys program) (phase.complement r)) ≡ in_ p
  pub keeps :
      (p : In) (root : List Val) (r : phase.Record)
      → let stdin = phase.recursion_stdin p true root in
        phase.run (phase.build stdin) stdin ≡ some r
        → out (phase.prove (phase.setup_keys (phase.build stdin)) (phase.complement r)) ≡ in_ p

pub record Attests (vm : PicoVm) : Type 0 where
  pub attested : vm.MetaProof → List vm.EmulationRecord
  pub embed_attested : vm.EmbedProof → List vm.EmulationRecord
  -- `COMBINE_SIZE` lets two proofs in
  pub room : 2 ≤ vm.combine_size
  pub convert_attests :
      (i k : ℕ) (pk : vm.ProvingKey) (vk : vm.VerifyingKey) (root zeros : List vm.Val)
      (c : vm.Challenger) (sh : Option vm.ShapeConfig) (rs : Option vm.RecursionShapeConfig)
      (last : Bool) (r : vm.EmulationRecord)
      → attested (
          vm.prove_with_index i
            (vm.setup_for_convert_with_index vk root zeros (vm.prove_record k pk c sh r) rs k last))
        ≡ r ∷ []
  pub two_attests :
      (a b : vm.MetaProof) (flag : Bool)
      → attested (vm.prove_two a b flag) ≡ attested a ++ attested b
  pub compress_keeps : Keeps vm.compress_phase attested attested vm.compress_phase.set_shape
  pub embed_keeps : Keeps vm.embed_phase attested embed_attested (λ program. program)
