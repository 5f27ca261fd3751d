-- ===== src/Tests/Example.antt =====
-- A virtual machine whose proofs are the records that they attest, and a run of two chunks.
use pico_proving_service.Prelude.{
  ℕ, ◌≡◌, refl, List, [], ◌∷◌, ◌++◌, Option, some, true, false, Outcome, ok, Result, success, arith,
}
use pico_proving_service.Worker.{Prover, new}
use pico_proving_service.Worker.Vm.{PicoVm, Phase}
use pico_proving_service.Worker.Attests.{Attests, Keeps}
use pico_proving_service.Onchain.{Error}
use pico_proving_service.Task.{prover_id}

abbrev copying : Phase (List ℕ) (List ℕ) ℕ
copying = record {
  Stdin = List ℕ;
  VkStdin = List ℕ;
  Program = List ℕ;
  Record = List ℕ;
  Keys = List ℕ;
  recursion_stdin = λ p _ _. p;
  add_vk_merkle_proof = λ s. s;
  build_with_vk = λ s. s;
  build = λ s. s;
  set_shape = λ p. p;
  run_with_vk = λ _ s. some s;
  run = λ _ s. some s;
  complement = λ r. r;
  setup_keys = λ p. p;
  prove = λ _ r. r;
}

abbrev pub example_vm : PicoVm
example_vm = record {
  MetaProof = List ℕ;
  EmbedProof = List ℕ;
  EmulationRecord = ℕ;
  ProvingKey = Unit;
  VerifyingKey = Unit;
  Val = ℕ;
  Challenger = Unit;
  RiscvProof = ℕ;
  ShapeConfig = Unit;
  RecursionShapeConfig = Unit;
  ConvertStdin = ℕ;
  vk_verification_enabled = true;
  merkle_root = 5 ∷ [];
  val_zero = 0;
  digest_size = 8;
  is_last = λ _. false;
  default_shape = tt;
  default_recursion_shape = tt;
  challenger = tt;
  observed_by = λ _ c. c;
  prove_record = λ _ _ _ _ r. r;
  setup_for_convert_with_index = λ _ _ _ p _ _ _. p;
  prove_with_index = λ _ p. p ∷ [];
  combine_size = 2;
  prove_two = λ a b _. a ++ b;
  compress_phase = copying;
  embed_phase = copying;
  verify_embed = λ _ _. true;
}

pub same_record : (a b : List ℕ) → ◌≡◌ {A = Option (List ℕ)} (some a) (some b) → b ≡ a
same_record a b h = cc

abbrev copies : Keeps copying (λ p. p) (λ p. p) (λ p. p)
copies = record {
  keeps_with_vk = λ p root r h. same_record p r h;
  keeps = λ p root r h. same_record p r h;
}

abbrev pub example_attests : Attests example_vm
example_attests = record {
  attested = λ p. p;
  embed_attested = λ p. p;
  room = omega arith;
  convert_attests = λ i k pk vk root zeros c sh rs last r. refl;
  two_attests = λ a b flag. refl;
  compress_keeps = copies;
  embed_keeps = copies;
}

abbrev pub example_records : List ℕ
example_records = 70 ∷ 80 ∷ []

abbrev pub example_prover : Prover example_vm
example_prover = new example_vm (prover_id 0) tt tt

abbrev pub example_onchain : List ℕ → Outcome (Result Error (List ℕ))
example_onchain e = ok (success (1 ∷ e))
