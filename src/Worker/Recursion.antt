-- ===== src/Worker/Recursion.antt =====
-- src/proving/worker/prover/compress.rs and embed.rs: the last two recursion phases.
use pico_proving_service.Prelude.{
  true, Option, some, none, Outcome, ok, panic, ◌>>=◌, emulation_failed, if◌then◌else◌,
}
use pico_proving_service.ProofTree.{indexed, get_inner}
use pico_proving_service.Messages.{CompressRequest, CompressResponse, EmbedRequest, EmbedResponse}
use pico_proving_service.Worker.Vm.{PicoVm, Phase, get_vk_root}

-- `.unwrap()` on the result of a run
abbrev pub unwrap_run {ℓ} : {A : Type ℓ} → Option A → Outcome A
unwrap_run none = panic emulation_failed
unwrap_run (some r) = ok r

-- The two branches on `vk_verification_enabled`: the circuit with the verification of keys, whose
-- shape is set by `shape`, and the one without.
module _ {In Out Val : Type 0} (phase : Phase In Out Val) where
  unfoldable pub prove_with_vk : (phase.Program → phase.Program) → phase.Stdin → Outcome Out
  prove_with_vk shape stdin =
      let vk_stdin = phase.add_vk_merkle_proof stdin in
      let program = shape (phase.build_with_vk vk_stdin) in
      do
        r ← unwrap_run (phase.run_with_vk program vk_stdin)
        ok (phase.prove (phase.setup_keys program) (phase.complement r))

  unfoldable pub prove_without_vk : phase.Stdin → Outcome Out
  prove_without_vk stdin =
      let program = phase.build stdin in
      do
        r ← unwrap_run (phase.run program stdin)
        ok (phase.prove (phase.setup_keys program) (phase.complement r))

module _ (vm : PicoVm) where
  open vm use {MetaProof, EmbedProof, compress_phase, embed_phase, vk_verification_enabled}

  -- The machine's proof of the compress circuit, which verifies a combine proof.
  unfoldable pub compress_proof : MetaProof → Outcome MetaProof
  compress_proof proof =
      let stdin = compress_phase.recursion_stdin proof true (get_vk_root vm) in
      if vk_verification_enabled
      then prove_with_vk compress_phase compress_phase.set_shape stdin
      else prove_without_vk compress_phase stdin

  -- The range of the result is the index: it is not used any more.
  unfoldable pub compress : CompressRequest MetaProof → Outcome (CompressResponse MetaProof)
  compress req = do
    proof ← compress_proof (get_inner req.proof)
    ok (record {
      chunk_index = req.chunk_index;
      proof = indexed proof req.chunk_index req.chunk_index;
    })

  -- The machine's proof of the embed circuit, which verifies a compress proof.
  unfoldable pub embed_proof : MetaProof → Outcome EmbedProof
  embed_proof proof =
      let stdin = embed_phase.recursion_stdin proof true (get_vk_root vm) in
      if vk_verification_enabled
      then prove_with_vk embed_phase (λ program. program) stdin
      else prove_without_vk embed_phase stdin

  unfoldable pub embed : EmbedRequest MetaProof → Outcome (EmbedResponse EmbedProof)
  embed req = do
    proof ← embed_proof (get_inner req.proof)
    ok (record {
      chunk_index = req.chunk_index;
      proof = indexed proof req.chunk_index req.chunk_index;
    })
