-- ===== src/System.antt =====
-- One proving task as src/proving/mod.rs sets it up: the emulator, the gateway and the worker
-- provers, joined by channels. The worker provers of a task differ in their names alone, so that one
-- of them stands for all; any of them may take any request, and answer it at any time. With no prover
-- none is answered.
pub mod Flight
pub mod Kept
pub mod Invariant
pub mod Emulated
pub mod Append
pub mod Work
pub mod Worked
pub mod Brought
pub mod Answered
pub mod Collected
pub mod Reached
pub mod Safety
pub mod Liveness
pub mod Bounded
pub mod Completes
use pico_proving_service.Prelude.{
  ◌<◌, if◌then◌else◌, Text, ℕ, List, [], ◌∷◌, ◌++◌, Outcome, ok, Result, ◌≡◌, Bool, true, some,
  replicate,
}
use pico_proving_service.Messages.{request_task}
use pico_proving_service.Gateway.{Gateway, start, Round, again, emulator_round, worker_round}
use pico_proving_service.Emulator
use pico_proving_service.Worker.{new, new_cuda, Prover, Reaction, Msg, handle}
use pico_proving_service.Worker.Vm.{PicoVm}

pub record System (vm : PicoVm) : Type 0 where
  pub gateway : Gateway vm.MetaProof vm.EmbedProof
  -- emulator to gateway
  pub emulator_queue : List (Msg vm)
  -- gateway to workers
  pub requests : List (Msg vm)
  -- workers to gateway
  pub responses : List (Msg vm)

module _ (vm : PicoVm) where
  -- A prover as a task starts it.
  abbrev pub start_prover :
      (use_gpu : Bool) → Text → vm.ProvingKey → vm.VerifyingKey → Outcome (Prover vm)
  start_prover use_gpu id pk vk = if use_gpu then new_cuda vm id pk vk else ok (new vm id pk vk)

  -- A task starts with the messages of the emulation ahead, and each worker asks for a task.
  abbrev pub init : ℕ → List vm.EmulationRecord → System vm
  init prover_count records = record {
    gateway = start;
    emulator_queue = Emulator.run records;
    requests = [];
    responses = replicate prover_count request_task;
  }

  module _ {Err : Type 0} (prove_onchain : vm.EmbedProof → Outcome (Result Err (List ℕ)))
      (w : Prover vm)
      -- whether the emulation is quicker than every worker
      (eager : Bool) (prover_count : ℕ) where
    -- A message moves. `select_biased!` takes a message of the emulator first if there is one, but
    -- the emulator may be late, so that the order is left open unless it is eager.
    pub data Step (s : System vm) : System vm → Type 0 where
      emulated :
          (m : Msg vm) (q out : List (Msg vm)) (g : Gateway vm.MetaProof vm.EmbedProof)
          → s.emulator_queue ≡ m ∷ q
          → emulator_round s.gateway (some m) ≡ ok (again g out)
          → Step s (record {
            gateway = g;
            emulator_queue = q;
            requests = s.requests ++ out;
            responses = s.responses;
          })
      worked :
          (before after : List (Msg vm)) (m : Msg vm) (r : Reaction vm)
          → 0 < prover_count
          → s.requests ≡ before ++ m ∷ after
          → handle vm w m ≡ ok r
          → Step s (record {
            gateway = s.gateway;
            emulator_queue = s.emulator_queue;
            requests = before ++ after;
            responses = s.responses ++ r.sent;
          })
      collected :
          (m : Msg vm) (rest out : List (Msg vm)) (g : Gateway vm.MetaProof vm.EmbedProof)
          → (eager ≡ true → s.emulator_queue ≡ [])
          → s.responses ≡ m ∷ rest
          → worker_round prove_onchain s.gateway (some m) ≡ ok (again g out)
          → Step s (record {
            gateway = g;
            emulator_queue = s.emulator_queue;
            requests = s.requests ++ out;
            responses = rest;
          })

    -- The states of a task while the loop of the gateway goes on.
    pub data Reach (records : List vm.EmulationRecord) : System vm → Type 0 where
      begin : Reach records (init prover_count records)
      later : {s t : System vm} → Reach records s → Step s t → Reach records t
