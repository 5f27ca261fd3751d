-- ===== src/Task.antt =====
-- src/proving/mod.rs: the proving of one task from its start to its result, on top of the emulation
-- and of the run of its gateway and workers.
pub mod Proved
pub mod Provable
use pico_proving_service.Prelude.{
  ℕ, zero, suc, ◌≡◌, List, [], ◌∷◌, some, Bool, Text, Outcome, ok, panic, ◌>>=◌, Panic, Result,
  success, failure, to_string,
}
use pico_proving_service.Messages.{embed}
use pico_proving_service.Gateway.{Gateway, over, worker_round}
use pico_proving_service.Emulator.{Emulation, read_stdin, setup_witness}
use pico_proving_service.Emulator.Threads.{Records}
use pico_proving_service.Worker.{Prover, Msg, new}
use pico_proving_service.Worker.Vm.{PicoVm}
use pico_proving_service.System.{System, Reach, start_prover}
use pico_proving_service.Queue.{ProvingTask}

-- The error of a completion whose sender is dropped.
pub data RecvError : Type 0 where
  recv_error : RecvError

abbrev pub prover_id : ℕ → Text
prover_id i = b'p' ∷ b'r' ∷ b'o' ∷ b'v' ∷ b'e' ∷ b'r' ∷ b'-' ∷ to_string i

-- `completion_receiver.await?` and what follows: the waits for the provers and for the gateway end
-- at their time limit, and what they tell is logged only.
abbrev pub await_completion :
    (provers_end gateway_ends : Bool) → List (List ℕ) → Result RecvError (List ℕ)
await_completion provers_end gateway_ends [] = failure recv_error
await_completion provers_end gateway_ends (proof_bytes ∷ _) = success proof_bytes

module _ (vm : PicoVm) where
  -- The provers from number `i` on.
  unfoldable pub start_provers :
      (use_gpu : Bool) (i n : ℕ) → vm.ProvingKey → vm.VerifyingKey → Outcome (List (Prover vm))
  start_provers use_gpu i zero pk vk = ok []
  start_provers use_gpu i (suc n) pk vk = do
    prover ← start_prover vm use_gpu (prover_id i) pk vk
    provers ← start_provers use_gpu (suc i) n pk vk
    ok (prover ∷ provers)

  module _ {Program Err : Type 0} (em : Emulation vm.EmulationRecord Program)
      (prove_onchain : vm.EmbedProof → Outcome (Result Err (List ℕ))) (prover_count : ℕ)
      (eager : Bool) where
    abbrev pub Task : Type 0
    Task = ProvingTask Program vm.ProvingKey vm.VerifyingKey

    abbrev pub started : Task → Outcome (List (Prover vm))
    started t = start_provers t.use_gpu 0 prover_count t.pk t.vk

    -- A prover of the task, which stands for all of them.
    abbrev pub worker : Task → Prover vm
    worker t = new vm (prover_id 0) t.pk t.vk

    -- The records of the task's program on its stdin.
    abbrev pub Emulates : Task → em.StdinBuilder → List vm.EmulationRecord → ℕ → Type 0
    Emulates t builder records n =
        Records em (em.setup_riscv (setup_witness em t.program builder)) records n

    -- The results that `prove_task` can have: a panic at the start of a prover or at the inputs, or
    -- what comes through the completion, once the gateway takes up an embed proof: its proof, or
    -- nothing, if the gateway panics.
    pub data ProveTask (t : Task) : Outcome (Result RecvError (List ℕ)) → Type 0 where
      not_started : (x : Panic) → started t ≡ panic x → ProveTask t (panic x)
      not_emulated :
          (provers : List (Prover vm)) (x : Panic)
          → started t ≡ ok provers
          → read_stdin em t.inputs ≡ panic x
          → ProveTask t (panic x)
      completed :
          (provers : List (Prover vm)) (builder : em.StdinBuilder)
          (records : List vm.EmulationRecord) (batches : ℕ) (s : System vm) (e : vm.EmbedProof)
          (rest : List (Msg vm)) (g : Gateway vm.MetaProof vm.EmbedProof)
          (provers_end gateway_ends : Bool)
          → started t ≡ ok provers
          → read_stdin em t.inputs ≡ ok builder
          → Emulates t builder records batches
          → Reach vm prove_onchain (worker t) eager prover_count records s
          → s.responses ≡ embed e ∷ rest
          → worker_round {R = vm.EmulationRecord} prove_onchain s.gateway (some (embed e))
            ≡ ok (over g)
          → ProveTask t (ok (await_completion provers_end gateway_ends g.completion))
      gateway_lost :
          (provers : List (Prover vm)) (builder : em.StdinBuilder)
          (records : List vm.EmulationRecord) (batches : ℕ) (s : System vm) (e : vm.EmbedProof)
          (rest : List (Msg vm)) (x : Panic) (provers_end gateway_ends : Bool)
          → started t ≡ ok provers
          → read_stdin em t.inputs ≡ ok builder
          → Emulates t builder records batches
          → Reach vm prove_onchain (worker t) eager prover_count records s
          → s.responses ≡ embed e ∷ rest
          → worker_round {R = vm.EmulationRecord} prove_onchain s.gateway (some (embed e)) ≡ panic x
          → ProveTask t (ok (await_completion provers_end gateway_ends []))
