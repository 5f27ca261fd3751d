-- ===== src/Worker/Vm.antt =====
-- What the worker provers call of pico_vm, which is not part of the repository: abstract types and
-- operations.
use pico_proving_service.Prelude.{ℕ, Bool, List, Option, replicate, if◌then◌else◌}

-- A recursion phase from proofs of one machine to proofs of the next: the stdin of its circuit,
-- the circuit with and without the verification of keys, the run of it, and its machine.
pub record Phase (In Out Val : Type 0) : Type 1 where
  pub Stdin : Type 0
  pub VkStdin : Type 0
  pub Program : Type 0
  pub Record : Type 0
  pub Keys : Type 0
  -- `RecursionStdin::new`, over the keys and proofs of the given proof
  pub recursion_stdin : In → (flag_complete : Bool) → List Val → Stdin
  pub add_vk_merkle_proof : Stdin → VkStdin
  pub build_with_vk : VkStdin → Program
  pub build : Stdin → Program
  pub set_shape : Program → Program
  -- the runtime on the witness stream of a stdin; `none` if it fails
  pub run_with_vk : Program → VkStdin → Option Record
  pub run : Program → Stdin → Option Record
  pub complement : Record → Record
  pub setup_keys : Program → Keys
  pub prove : Keys → Record → Out

pub record PicoVm : Type 1 where
  pub MetaProof : Type 0
  pub EmbedProof : Type 0
  pub EmulationRecord : Type 0
  pub ProvingKey : Type 0
  pub VerifyingKey : Type 0
  pub Val : Type 0
  pub Challenger : Type 0
  pub RiscvProof : Type 0
  pub ShapeConfig : Type 0
  pub RecursionShapeConfig : Type 0
  pub ConvertStdin : Type 0
  -- the static manager of verifying keys
  pub vk_verification_enabled : Bool
  pub merkle_root : List Val
  pub val_zero : Val
  pub digest_size : ℕ
  -- the riscv and convert machines
  pub is_last : EmulationRecord → Bool
  pub default_shape : ShapeConfig
  pub default_recursion_shape : RecursionShapeConfig
  pub challenger : Challenger
  pub observed_by : ProvingKey → Challenger → Challenger
  pub prove_record : ℕ → ProvingKey → Challenger → Option ShapeConfig → EmulationRecord → RiscvProof
  pub setup_for_convert_with_index :
      VerifyingKey
      → List Val
      → List Val
      → RiscvProof
      → Option RecursionShapeConfig
      → ℕ
      → Bool
      → ConvertStdin
  pub prove_with_index : ℕ → ConvertStdin → MetaProof
  -- the combine machine
  pub combine_size : ℕ
  pub prove_two : MetaProof → MetaProof → Bool → MetaProof
  -- the compress and embed machines
  pub compress_phase : Phase MetaProof MetaProof Val
  pub embed_phase : Phase MetaProof EmbedProof Val
  pub verify_embed : EmbedProof → VerifyingKey → Bool

module _ (vm : PicoVm) where
  open vm use {Val, vk_verification_enabled, merkle_root, val_zero, digest_size}

  unfoldable pub get_vk_root : List Val
  get_vk_root = if vk_verification_enabled then merkle_root else replicate digest_size val_zero
