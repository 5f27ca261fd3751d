-- ===== src/Clients.antt =====
-- bin/test_client.rs: a client that makes one call. Reth is the client of bin/test_reth_prove.rs,
-- which has blocks proved.
pub mod Reth
pub mod Served
pub mod Rounds
pub mod Queued
pub mod Commands
use pico_proving_service.Prelude.{ℕ, List, Option, some, Bool, Text, Result, success, failure}
use pico_proving_service.Apps.{Toolchain}
use pico_proving_service.Cost.{EstimateCostResponse}
use pico_proving_service.Grpc.{
  EstimateCostRequest, RegisterAppResponse, ProveTaskRequest, GetProvingResultRequest,
}
use pico_proving_service.Programs.{Disk, read_inputs}

-- The client that tonic generates, with the state of the service that it is connected to.
pub record ProverNetworkClient : Type 1 where
  pub Service : Type 0
  pub CallError : Type 0
  pub register_app :
      Service
      → (elf : List ℕ) → (info : Option Text) → Result CallError RegisterAppResponse × Service
  pub estimate_cost :
      Service → EstimateCostRequest → Result CallError EstimateCostResponse × Service
  pub prove_task : Service → ProveTaskRequest → Result CallError (Unit {0}) × Service
  pub get_proving_result :
      Service → GetProvingResultRequest → Result CallError (Option (List ℕ)) × Service

-- What ends a client.
pub data ClientError (IoError CallError : Type 0) : Type 0 where
  io : IoError → ClientError IoError CallError
  call : CallError → ClientError IoError CallError
  codec : ClientError IoError CallError
  block_failed : ℕ → ClientError IoError CallError

pub data Command : Type 0 where
  register_app_command : (elf : Text) → (info : Option Text) → Command
  estimate_cost_command : (app_id : Text) → (inputs : Option Text) → Command
  prove_task_command : (app_id task_id : Text) → (inputs : Option Text) → (use_gpu : Bool) → Command
  get_proving_result_command : (app_id task_id : Text) → Command

-- The response that is logged.
pub data Logged : Type 0 where
  registered : RegisterAppResponse → Logged
  estimated : EstimateCostResponse → Logged
  submitted : Logged
  fetched : Option (List ℕ) → Logged

-- Work with a service that may end in an error.
abbrev pub Work : Type 0 → Type 0 → Type 0 → Type 0
Work E A S = Result E A × S

abbrev pub next : {E A B S : Type 0} → Work E A S → (A → S → Work E B S) → Work E B S
next (success a, s) f = f a s
next (failure e, s) f = (failure e, s)

-- `?` behind a call.
abbrev pub called : {I E A S : Type 0} → Result E A × S → Work (ClientError I E) A S
called (success a, s) = (success a, s)
called (failure e, s) = (failure (call e), s)

abbrev pub from_file : {I E A : Type 0} → Result I A → Result (ClientError I E) A
from_file (success a) = success a
from_file (failure e) = failure (io e)

abbrev pub prove_request :
    (app_id task_id : Text) → (inputs : Option (List ℕ)) → (use_gpu : Bool) → ProveTaskRequest
prove_request app_id task_id inputs use_gpu = record {
  app_id = app_id;
  task_id = task_id;
  inputs = inputs;
  use_gpu = some use_gpu;
}

module _ (tc : Toolchain) (disk : Disk) (client : ProverNetworkClient) where
  open disk use {Files, IoError, read}
  open client use {Service, CallError}

  -- The `main` of `test_client`, once it is connected.
  unfoldable pub test_client :
      Files → Service → Command → Work (ClientError IoError CallError) Logged Service
  test_client fs s (register_app_command elf info) =
      next (from_file (read fs elf), s)
        λ elf s.
          next (called (client.register_app s elf info)) λ res s. (success (registered res), s)
  test_client fs s (estimate_cost_command app_id inputs) =
      next (from_file (read_inputs tc disk fs inputs), s)
        λ inputs s.
          next (called (client.estimate_cost s (record { app_id = app_id; inputs = inputs })))
            λ res s. (success (estimated res), s)
  test_client fs s (prove_task_command app_id task_id inputs use_gpu) =
      next (from_file (read_inputs tc disk fs inputs), s)
        λ inputs s.
          next (called (client.prove_task s (prove_request app_id task_id inputs use_gpu)))
            λ _ s. (success submitted, s)
  test_client fs s (get_proving_result_command app_id task_id) =
      next (called (client.get_proving_result s (record { app_id = app_id; task_id = task_id })))
        λ res s. (success (fetched res), s)
