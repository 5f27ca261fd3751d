-- ===== src/Clients/Reth.antt =====
-- bin/test_reth_prove.rs: a client that registers the app of reth and asks for a proof of each of
-- the latest blocks at an interval.
use pico_proving_service.Prelude.{
  ℕ, zero, suc, ◌%◌, List, [], ◌∷◌, ◌++◌, Bool, Option, none, some, Text, Outcome, ok, panic, ◌>>=◌,
  zero_divisor, Result, success, failure, text, to_string, ◌==◌, if◌then◌else◌,
}
use pico_proving_service.Apps.{Toolchain, App, new}
use pico_proving_service.Emulator.{Emulation}
use pico_proving_service.Grpc.{EstimateCostRequest, ProveTaskRequest}
use pico_proving_service.Programs.{Disk}
use pico_proving_service.Programs.Inputs.{Writer}
use pico_proving_service.Clients.{
  ProverNetworkClient, ClientError, io, codec, block_failed, Work, next, called,
}

-- The options that matter behind the connections.
pub record Cli : Type 0 where
  pub block_interval : ℕ
  pub use_gpu : Bool
  pub estimate_cost : Bool

-- The executor of rsp, and the default builder of pico_vm.
pub record BlockExecutor (ClientInput StdinBuilder : Type 0) : Type 0 where
  pub wait_for_block : ℕ → Bool
  pub execute : ℕ → Option ClientInput
  pub default_builder : StdinBuilder

abbrev pub reth_elf_path : Text
reth_elf_path = text "fixtures/reth-elf"

-- The name of the task for a block.
abbrev pub block_task : ℕ → Text
block_task n = text "task-block-" ++ to_string n

-- The filter of the latest blocks. A remainder by zero is a panic.
abbrev pub ready : (block_interval n : ℕ) → Outcome Bool
ready zero n = panic zero_divisor
ready (suc k) n = ok (n % suc k == 0)

module _ {R Program : Type 0} (tc : Toolchain) (disk : Disk) (client : ProverNetworkClient)
    (em : Emulation R Program) (w : Writer em.StdinBuilder)
    (executor : BlockExecutor w.ClientInput em.StdinBuilder) where
  open disk use {Files, IoError, read}
  open client use {Service, CallError}

  abbrev pub Done : Type 0 → Type 0
  Done A = Work (ClientError IoError CallError) A Service

  -- The error of a registration is ignored, as the app may be registered.
  abbrev pub register_elf : Service → Result IoError (List ℕ) → Outcome (Done (App tc))
  register_elf s (failure e) = ok (failure (io e), s)
  register_elf s (success elf) = do
    app ← new tc elf none
    ok (success app, (client.register_app s elf none).1)

  abbrev pub register_reth : Files → Service → Outcome (Done (App tc))
  register_reth fs s = register_elf s (read fs reth_elf_path)

  abbrev pub option {ℓ} :
      {A : Type ℓ}
      → ClientError IoError CallError
      → Option A
      → Result (ClientError IoError CallError) A
  option e none = failure e
  option e (some a) = success a

  abbrev pub waited : ℕ → Result (ClientError IoError CallError) (Unit {0})
  waited n = if executor.wait_for_block n then success tt else failure (block_failed n)

  -- The builder with the input of a block.
  abbrev pub block_builder : w.ClientInput → em.StdinBuilder
  block_builder client_input = w.write_client_input client_input executor.default_builder

  abbrev pub block_request : Cli → (app_id : Text) → ℕ → List ℕ → ProveTaskRequest
  block_request cli app_id n inputs = record {
    app_id = app_id;
    task_id = block_task n;
    inputs = some inputs;
    use_gpu = some cli.use_gpu;
  }

  -- Its `prove_task` and `estimate_cost`, which log the response.
  abbrev pub reth_prove_task : Service → ProveTaskRequest → Done (Unit {0})
  reth_prove_task s req = next (called (client.prove_task s req)) λ _ s. (success tt, s)

  abbrev pub reth_estimate_cost : Service → EstimateCostRequest → Done (Unit {0})
  reth_estimate_cost s req = next (called (client.estimate_cost s req)) λ _ s. (success tt, s)

  abbrev pub estimate_block : Cli → (app_id : Text) → List ℕ → Service → Done (Unit {0})
  estimate_block cli app_id inputs s =
      if cli.estimate_cost
      then reth_estimate_cost s (record { app_id = app_id; inputs = some inputs })
      else (success tt, s)

  -- The request for a proof of a block, and the one for its cost.
  abbrev pub send_block : Cli → (app_id : Text) → ℕ → List ℕ → Service → Done (Unit {0})
  send_block cli app_id n inputs s =
      next (reth_prove_task s (block_request cli app_id n inputs))
        λ _ s. estimate_block cli app_id inputs s

  abbrev pub build_block : Cli → (app_id : Text) → ℕ → Option (List ℕ) → Service → Done (Unit {0})
  build_block cli app_id n bytes s =
      next (option codec bytes, s) λ inputs s. send_block cli app_id n inputs s

  abbrev pub fetch_block :
      Cli → (app_id : Text) → ℕ → Option w.ClientInput → Service → Done (Unit {0})
  fetch_block cli app_id n fetched s =
      next (option (block_failed n) fetched, s)
        λ client_input s. build_block cli app_id n (w.serialize (block_builder client_input)) s

  -- One round of the loop.
  unfoldable pub block_round : Cli → (app_id : Text) → ℕ → Service → Done (Unit {0})
  block_round cli app_id n s =
      next (waited n, s) λ _ s. fetch_block cli app_id n (executor.execute n) s

  -- Behind a round: an error ends the client.
  abbrev pub go_on :
      (Service → Outcome (Done (Unit {0}))) → Done (Unit {0}) → Outcome (Done (Unit {0}))
  go_on rest (success _, s) = rest s
  go_on rest (failure e, s) = ok (failure e, s)

  -- The loop, on the numbers of the blocks that arrive until the stream ends.
  unfoldable pub blocks : Cli → (app_id : Text) → List ℕ → Service → Outcome (Done (Unit {0}))
  blocks cli app_id [] s = ok (success tt, s)
  blocks cli app_id (n ∷ ns) s =
      let rest = blocks cli app_id ns in
      do
        wanted ← ready cli.block_interval n
        if wanted then go_on rest (block_round cli app_id n s) else rest s

  abbrev pub prove_blocks : Cli → List ℕ → Done (App tc) → Outcome (Done (Unit {0}))
  prove_blocks cli ns (failure e, s) = ok (failure e, s)
  prove_blocks cli ns (success app, s) = blocks cli app.app_id ns s

  -- The `main` of `test_reth_prove`, once it is connected.
  unfoldable pub test_reth_prove : Files → Cli → List ℕ → Service → Outcome (Done (Unit {0}))
  test_reth_prove fs cli ns s = do r ← register_reth fs s; prove_blocks cli ns r
