-- ===== src/Task/Proved.antt =====
-- What a proof that `prove_task` returns stands for, and which tasks make it panic.
use pico_proving_service.Prelude.{
  ℕ, zero, suc, ◌≤◌, ◌≡◌, refl, sym, subst, ap, ◌∙◌, List, [], ◌∷◌, length, take, some, Bool, true,
  Outcome, ok, panic, Panic, unimplemented, codec_failed, ◌⊎◌, inl, inr, ◌<◌, arith, Result,
  success, map-eq-ok,
}
use pico_proving_service.Messages.{embed}
use pico_proving_service.Gateway.{Gateway, over, worker_round}
use pico_proving_service.Emulator.{Emulation, read_stdin}
use pico_proving_service.Worker.{Prover, Msg}
use pico_proving_service.Worker.Vm.{PicoVm}
use pico_proving_service.Worker.Attests.{Attests}
use pico_proving_service.System.{System, Reach}
use pico_proving_service.System.Reached.{worker_round-embed}
use pico_proving_service.System.Safety.{
  BytesOf, completion_sent, embed_prefix, embed_whole, embed_two_chunks,
}
use pico_proving_service.Task.{
  RecvError, await_completion, start_provers, Task, worker, Emulates, ProveTask, not_started,
  not_emulated, completed, gateway_lost,
}

module _ (vm : PicoVm) {Program Err : Type 0} (em : Emulation vm.EmulationRecord Program)
    (prove_onchain : vm.EmbedProof → Outcome (Result Err (List ℕ))) (prover_count : ℕ)
    (eager : Bool) where
  -- What stands behind the bytes of a proof: the records that the program makes on the inputs, and
  -- an embed proof of them whose on-chain proof has these bytes, or failed and left none.
  pub record Backed (v : Attests vm) (t : Task vm em prove_onchain prover_count eager)
      (bytes : List ℕ) : Type 0 where
    pub builder : em.StdinBuilder
    pub records : List vm.EmulationRecord
    pub batches : ℕ
    pub read : read_stdin em t.inputs ≡ ok builder
    pub emulates : Emulates vm em prove_onchain prover_count eager t builder records batches
    pub several : 2 ≤ length records
    pub embed_proof : vm.EmbedProof
    pub covered : ℕ
    pub within : covered ≤ length records
    pub attests : v.embed_attested embed_proof ≡ take covered records
    pub whole : eager ≡ true → v.embed_attested embed_proof ≡ records
    pub result : Result Err (List ℕ)
    pub onchain : prove_onchain embed_proof ≡ ok result
    pub bytes_of_result : BytesOf result bytes

  module _ (v : Attests vm) (t : Task vm em prove_onchain prover_count eager) where
    abbrev w : Prover vm
    w = worker vm em prove_onchain prover_count eager t

    -- The completion that the gateway sends for an embed proof.
    sent_bytes :
        (records : List vm.EmulationRecord) (s : System vm) (e : vm.EmbedProof)
        (rest : List (Msg vm)) (g : Gateway vm.MetaProof vm.EmbedProof)
        → Reach vm prove_onchain w eager prover_count records s
        → s.responses ≡ embed e ∷ rest
        → worker_round {R = vm.EmulationRecord} prove_onchain s.gateway (some (embed e))
          ≡ ok (over g)
        → (r : Result Err (List ℕ)) × (prove_onchain e ≡ ok r)
          × ((bytes : List ℕ) × BytesOf r bytes × (g.completion ≡ bytes ∷ []))
    sent_bytes records s e rest g reached h taken =
        let (r, made, _) =
          map-eq-ok (prove_onchain e) _
            (sym (worker_round-embed {R = vm.EmulationRecord} prove_onchain s.gateway e) ∙ taken) in
        let (g', taken', (bytes, of_r, sent), _, _) =
          completion_sent vm v records eager prove_onchain w prover_count s e rest r reached h
            made in
        let same : g' ≡ g = cc in (r, made, (bytes, of_r, ap (λ x. x.completion) (sym same) ∙ sent))

    pub proved-Backed :
        {o : Outcome (Result RecvError (List ℕ))} (bytes : List ℕ)
        → ProveTask vm em prove_onchain prover_count eager t o
        → o ≡ ok (success bytes)
        → Backed v t bytes
    proved-Backed bytes (not_started x h) q = absurd cc
    proved-Backed bytes (not_emulated provers x h i) q = absurd cc
    proved-Backed bytes (gateway_lost provers builder records batches s e rest x p g' a b c d f k)
          q =
        absurd cc
    proved-Backed bytes (completed provers builder records batches s e rest g p g' a b c d f k) q =
        let (r, made, (bytes', of_r, sent)) = sent_bytes records s e rest g d f k in
        let (hi, within, attests) =
          embed_prefix vm v records eager prove_onchain w prover_count s e rest d f in
        let awaited = sym (ap (await_completion p g') sent) in
        record {
          builder = builder;
          records = records;
          batches = batches;
          read = b;
          emulates = c;
          several = embed_two_chunks vm v records eager prove_onchain w prover_count s e rest d f;
          embed_proof = e;
          covered = hi;
          within = within;
          attests = attests;
          whole = λ quick.
              embed_whole vm v records eager prove_onchain w prover_count s e rest d quick f;
          result = r;
          onchain = made;
          bytes_of_result = subst (BytesOf r) (let same : bytes' ≡ bytes = cc in same) of_r;
        }

  -- A task that cannot be proved: it asks for a GPU, or its inputs are not the bytes of a stdin.
  unfoldable pub Unprovable : Task vm em prove_onchain prover_count eager → Type 0
  Unprovable t =
      ((t.use_gpu ≡ true) × (0 < prover_count)) ⊎ (read_stdin em t.inputs ≡ panic codec_failed)

  gpu-started :
      (t : Task vm em prove_onchain prover_count eager) (n : ℕ)
      → t.use_gpu ≡ true
      → 0 < n
      → start_provers vm t.use_gpu 0 n t.pk t.vk ≡ panic unimplemented
  unfolding start_provers
  gpu-started t zero gpu some_prover = absurd (omega arith)
  gpu-started t (suc n) gpu some_prover = rw gpu refl

  pub Unprovable-panics :
      (t : Task vm em prove_onchain prover_count eager) {o : Outcome (Result RecvError (List ℕ))}
      → Unprovable t
      → ProveTask vm em prove_onchain prover_count eager t o
      → (x : Panic) × (o ≡ panic x)
  unfolding Unprovable
  Unprovable-panics t u (not_started x h) = (x, refl)
  Unprovable-panics t u (not_emulated provers x h i) = (x, refl)
  Unprovable-panics t (inl (gpu, n))
        (completed provers builder records batches s e rest g p g' a b c d f k) =
      let no_start = gpu-started t prover_count gpu n in absurd cc
  Unprovable-panics t (inr bad)
        (completed provers builder records batches s e rest g p g' a b c d f k) =
      absurd cc
  Unprovable-panics t (inl (gpu, n))
        (gateway_lost provers builder records batches s e rest x p g' a b c d f k) =
      let no_start = gpu-started t prover_count gpu n in absurd cc
  Unprovable-panics t (inr bad)
        (gateway_lost provers builder records batches s e rest x p g' a b c d f k) =
      absurd cc
