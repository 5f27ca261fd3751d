-- ===== src/Task/Provable.antt =====
-- When `prove_task` can give a proof.
use pico_proving_service.Prelude.{
  ℕ, zero, suc, ◌<◌, ◌≡◌, ◌≢◌, refl, subst, take, List, [], ◌∷◌, Bool, true, false, Outcome, ok,
  panic, Result, success, emulation_failed,
}
use pico_proving_service.Messages.{CombineResponse}
use pico_proving_service.Emulator.{Emulation, read_stdin}
use pico_proving_service.Worker.{Prover, new, finish}
use pico_proving_service.Worker.Vm.{PicoVm}
use pico_proving_service.Worker.Attests.{Attests}
use pico_proving_service.System.{init, begin}
use pico_proving_service.System.Flight.{Sure}
use pico_proving_service.System.Safety.{completion_sent}
use pico_proving_service.System.Completes.{Completes, completes}
use pico_proving_service.Task.{
  prover_id, await_completion, start_provers, Task, worker, Emulates, ProveTask, completed,
}

module _ (vm : PicoVm) {Program Err : Type 0} (em : Emulation vm.EmulationRecord Program)
    (prove_onchain : vm.EmbedProof → Outcome (Result Err (List ℕ))) (prover_count : ℕ)
    (eager : Bool) (v : Attests vm) where
  -- A task on the CPU, with a prover at least and with a stdin for its inputs, on which its program
  -- makes two records at least; the recursion phases do not fail, an embed proof of all records
  -- verifies, and an on-chain proof is made, or fails, without a panic.
  pub record Provable (t : Task vm em prove_onchain prover_count eager) : Type 0 where
    pub some_prover : 0 < prover_count
    pub on_cpu : t.use_gpu ≡ false
    pub builder : em.StdinBuilder
    pub records : List vm.EmulationRecord
    pub batches : ℕ
    pub read : read_stdin em t.inputs ≡ ok builder
    pub emulates : Emulates vm em prove_onchain prover_count eager t builder records batches
    pub sure :
        Sure vm v records eager
          (worker vm em prove_onchain prover_count eager t).riscv_convert.riscv_vk
    pub finishes :
        (res : CombineResponse vm.MetaProof) (hi : ℕ)
        → v.attested res.proof.inner ≡ take hi records
        → finish vm res ≢ panic emulation_failed
    pub onchain : (e : vm.EmbedProof) → (r : Result Err (List ℕ)) × (prove_onchain e ≡ ok r)

  cpu-started :
      (use_gpu : Bool) (i n : ℕ) (pk : vm.ProvingKey) (vk : vm.VerifyingKey)
      → use_gpu ≡ false
      → (provers : List (Prover vm)) × (start_provers vm use_gpu i n pk vk ≡ ok provers)
  unfolding start_provers
  cpu-started true i n pk vk h = absurd cc
  cpu-started false i zero pk vk h = ([], refl)
  cpu-started false i (suc n) pk vk h =
      let (provers, started) = cpu-started false (suc i) n pk vk h in
      (new vm (prover_id i) pk vk ∷ provers, rw started refl)

  -- Such a task can be proved.
  pub Provable-proves :
      (t : Task vm em prove_onchain prover_count eager)
      → Provable t
      → (bytes : List ℕ) × ProveTask vm em prove_onchain prover_count eager t (ok (success bytes))
  Provable-proves t p = go (
      completes vm v p.records eager prove_onchain (worker vm em prove_onchain prover_count eager t)
        prover_count p.finishes p.some_prover (init vm prover_count p.records) begin p.sure)
    where
      go :
          Completes vm p.records eager prove_onchain
            (worker vm em prove_onchain prover_count eager t)
            prover_count
            (init vm prover_count p.records)
          → (bytes : List ℕ) × ProveTask vm em prove_onchain prover_count eager t
              (ok (success bytes))
      go (Completes.completed s e rest leads reached first) =
          let (provers, started) = cpu-started t.use_gpu 0 prover_count t.pk t.vk p.on_cpu in
          let (r, made) = p.onchain e in
          let (g, taken, (bytes, _, sent), _, _) =
            completion_sent vm v p.records eager prove_onchain
              (worker vm em prove_onchain prover_count eager t) prover_count s e rest r reached
              first made in
          (
            bytes,
            subst
                (λ c.
                  ProveTask vm em prove_onchain prover_count eager t
                    (ok (await_completion true true c)))
                sent
                (completed provers p.builder p.records p.batches s e rest g true true started p.read
                  p.emulates reached first taken),
          )
