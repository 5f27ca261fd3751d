-- ===== src/Worker/Laws.antt =====
-- What a worker prover answers.
use pico_proving_service.Prelude.{
  suc, ◌≡◌, ◌≢◌, ◌≤◌, ◌∙◌, refl, List, [], ◌∷◌, ok, panic, not_adjacent, ◌>>=◌, arith, true, Option,
  some, none, if-cases, sym, ap, >>=-eq-ok, map-eq-ok,
}
use pico_proving_service.ProofTree.{IndexedProof, indexed}
use pico_proving_service.Messages.{
  CombineRequest, CombineResponse, EmbedResponse, CompressRequest, CompressResponse, EmbedRequest,
}
use pico_proving_service.Worker.Vm.{PicoVm, Phase, get_vk_root}
use pico_proving_service.Worker.Combine
use pico_proving_service.Worker.Recursion
use pico_proving_service.Worker.{finish}
use pico_proving_service.Worker.Attests.{Attests, Keeps}

module _ (vm : PicoVm) where
  open vm use {MetaProof, prove_two}

  -- The response to a request with two adjacent proofs.
  abbrev pub joint :
      CombineRequest MetaProof
      → IndexedProof MetaProof
      → IndexedProof MetaProof
      → CombineResponse MetaProof
  joint req a b = record {
    chunk_index = req.chunk_index;
    proof = indexed (prove_two a.inner b.inner req.flag_complete) a.start_chunk b.end_chunk;
  }

  module _ (req : CombineRequest MetaProof) (a b : IndexedProof MetaProof)
      (room : 2 ≤ vm.combine_size) (pair : req.proofs ≡ a ∷ b ∷ []) where
    pub process-adjacent :
        b.start_chunk ≡ suc a.end_chunk → Combine.process vm req ≡ ok (joint req a b)
    unfolding Combine.process
    process-adjacent adj = ground arith

    -- Proofs that are not adjacent are refused.
    process_not_adjacent :
        b.start_chunk ≢ suc a.end_chunk → Combine.process vm req ≡ panic not_adjacent
    unfolding Combine.process
    process_not_adjacent far = ground arith

module _ {In Out Val Rec : Type 0} {phase : Phase In Out Val} {in_ : In → List Rec}
    {out : Out → List Rec} {shape : phase.Program → phase.Program} (k : Keeps phase in_ out shape)
    (p : In) (root : List Val) where
  ran :
      (o : Option phase.Record) (f : phase.Record → Out) {q : Out}
      → (Recursion.unwrap_run o >>= λ r. ok (f r)) ≡ ok q
      → ((r : phase.Record) → o ≡ some r → out (f r) ≡ in_ p)
      → out q ≡ in_ p
  ran none f h g = cc
  ran (some r) f {q} h g = let same : f r ≡ q = cc in ap out (sym same) ∙ g r refl

  with_vk_attested :
      {q : Out}
      → Recursion.prove_with_vk phase shape (phase.recursion_stdin p true root) ≡ ok q
      → out q ≡ in_ p
  unfolding Recursion.prove_with_vk
  with_vk_attested {q} h = ran _ _ h (k.keeps_with_vk p root)

  without_vk_attested :
      {q : Out}
      → Recursion.prove_without_vk phase (phase.recursion_stdin p true root) ≡ ok q
      → out q ≡ in_ p
  unfolding Recursion.prove_without_vk
  without_vk_attested {q} h = ran _ _ h (k.keeps p root)

module _ (vm : PicoVm) (v : Attests vm) where
  open vm use {MetaProof, EmbedProof, vk_verification_enabled}
  open v use {attested, embed_attested}

  compress_proof-attested :
      (p : MetaProof) {q : MetaProof}
      → Recursion.compress_proof vm p ≡ ok q
      → attested q ≡ attested p
  unfolding Recursion.compress_proof
  compress_proof-attested p {q} h =
      if-cases vk_verification_enabled _ _ h (with_vk_attested v.compress_keeps p (get_vk_root vm))
        (without_vk_attested v.compress_keeps p (get_vk_root vm))

  embed_proof-attested :
      (p : MetaProof) {q : EmbedProof}
      → Recursion.embed_proof vm p ≡ ok q
      → embed_attested q ≡ attested p
  unfolding Recursion.embed_proof
  embed_proof-attested p {q} h =
      if-cases vk_verification_enabled _ _ h (with_vk_attested v.embed_keeps p (get_vk_root vm))
        (without_vk_attested v.embed_keeps p (get_vk_root vm))

  compress-attested :
      (req : CompressRequest MetaProof) {r : CompressResponse MetaProof}
      → Recursion.compress vm req ≡ ok r
      → attested r.proof.inner ≡ attested req.proof.inner
  unfolding Recursion.compress
  compress-attested req {r} h =
      let index = req.chunk_index in
      let made =
        map-eq-ok (Recursion.compress_proof vm req.proof.inner)
          (λ p. record { chunk_index = index; proof = indexed p index index }) h in
      ap (λ (x : CompressResponse MetaProof). attested x.proof.inner) (sym made.2)
      ∙ compress_proof-attested req.proof.inner made.1

  embed-attested :
      (req : EmbedRequest MetaProof) {r : EmbedResponse EmbedProof}
      → Recursion.embed vm req ≡ ok r
      → embed_attested r.proof.inner ≡ attested req.proof.inner
  unfolding Recursion.embed
  embed-attested req {r} h =
      let index = req.chunk_index in
      let made =
        map-eq-ok (Recursion.embed_proof vm req.proof.inner)
          (λ p. record { chunk_index = index; proof = indexed p index index }) h in
      ap (λ (x : EmbedResponse EmbedProof). embed_attested x.proof.inner) (sym made.2)
      ∙ embed_proof-attested req.proof.inner made.1

  -- If the compress and embed phases after a final combine return an embed proof, it attests what
  -- the combined proof does, with and without the verification of keys. The recursion phases of
  -- pico_vm are taken to hand on what their input attests.
  pub finish-attested :
      (res : CombineResponse MetaProof) {e : EmbedResponse EmbedProof}
      → finish vm res ≡ ok e
      → embed_attested e.proof.inner ≡ attested res.proof.inner
  unfolding finish
  finish-attested res {e} h =
      let (c, made, rest) =
        >>=-eq-ok
          (Recursion.compress vm (record { chunk_index = res.chunk_index; proof = res.proof }))
          (λ c. Recursion.embed vm (record { chunk_index = c.chunk_index; proof = c.proof })) h in
      embed-attested (record { chunk_index = c.chunk_index; proof = c.proof }) rest
      ∙ compress-attested (record { chunk_index = res.chunk_index; proof = res.proof }) made
