-- ===== src/Worker/Failures.antt =====
-- The compress and embed provers panic at a failed run of their circuits alone.
use pico_proving_service.Prelude.{
  Outcome, ok, panic, ◌>>=◌, Panic, emulation_failed, Bool, true, false, if◌then◌else◌, Option,
  none, some,
}
use pico_proving_service.Messages.{CompressRequest, EmbedRequest, CombineResponse}
use pico_proving_service.Worker.{finish}
use pico_proving_service.Worker.Vm.{PicoVm, Phase}
use pico_proving_service.Worker.Recursion

-- A value, or the given panic.
pub data FailsOnly {ℓ} {A : Type ℓ} (x : Panic) : Outcome A → Type ℓ where
  returned : (a : A) → FailsOnly x (ok a)
  failed : FailsOnly x (panic x)

module _ {ℓ} {A : Type ℓ} (x : Panic) where
  pub FailsOnly->>= {κ} :
      {B : Type κ} (m : Outcome A) (f : A → Outcome B)
      → FailsOnly x m
      → ((a : A) → FailsOnly x (f a))
      → FailsOnly x (m >>= f)
  FailsOnly->>= _ f (returned a) g = g a
  FailsOnly->>= _ f failed g = failed

  pub FailsOnly-if :
      (b : Bool) (m m' : Outcome A)
      → FailsOnly x m
      → FailsOnly x m'
      → FailsOnly x (if b then m else m')
  FailsOnly-if true m m' h h' = h
  FailsOnly-if false m m' h h' = h'

unwrap_run-FailsOnly {ℓ} :
    {A : Type ℓ} (o : Option A) → FailsOnly emulation_failed (Recursion.unwrap_run o)
unwrap_run-FailsOnly none = failed
unwrap_run-FailsOnly (some r) = returned r

module _ {In Out Val : Type 0} (phase : Phase In Out Val) (stdin : phase.Stdin) where
  with_vk :
      (shape : phase.Program → phase.Program)
      → FailsOnly emulation_failed (Recursion.prove_with_vk phase shape stdin)
  unfolding Recursion.prove_with_vk
  with_vk shape = FailsOnly->>= emulation_failed _ _ (unwrap_run-FailsOnly _) (λ r. returned _)

  without_vk : FailsOnly emulation_failed (Recursion.prove_without_vk phase stdin)
  unfolding Recursion.prove_without_vk
  without_vk = FailsOnly->>= emulation_failed _ _ (unwrap_run-FailsOnly _) (λ r. returned _)

module _ (vm : PicoVm) where
  compress-FailsOnly :
      (req : CompressRequest vm.MetaProof) → FailsOnly emulation_failed (Recursion.compress vm req)
  unfolding Recursion.compress Recursion.compress_proof
  compress-FailsOnly req =
      FailsOnly->>= emulation_failed _ _
        (FailsOnly-if emulation_failed vm.vk_verification_enabled _ _
          (with_vk vm.compress_phase _ vm.compress_phase.set_shape)
          (without_vk vm.compress_phase _))
        (λ p. returned _)

  embed-FailsOnly :
      (req : EmbedRequest vm.MetaProof) → FailsOnly emulation_failed (Recursion.embed vm req)
  unfolding Recursion.embed Recursion.embed_proof
  embed-FailsOnly req =
      FailsOnly->>= emulation_failed _ _
        (FailsOnly-if emulation_failed vm.vk_verification_enabled _ _
          (with_vk vm.embed_phase _ (λ program. program)) (without_vk vm.embed_phase _))
        (λ p. returned _)

  -- The compress and embed phases after a final combine return, or panic at a failed run of a
  -- circuit.
  pub finish-FailsOnly :
      (res : CombineResponse vm.MetaProof) → FailsOnly emulation_failed (finish vm res)
  unfolding finish
  finish-FailsOnly res =
      FailsOnly->>= emulation_failed _ _ (compress-FailsOnly _) (λ c. embed-FailsOnly _)
