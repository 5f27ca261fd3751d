-- ===== src/Tests/Clients.antt =====
-- The clients with a small service.
use pico_proving_service.Prelude.{
  ℕ, refl, List, [], ◌∷◌, none, some, true, false, success, text, replicate,
}
use pico_proving_service.Apps.{new, get_app, set_app, to_row, from_row}
use pico_proving_service.Prelude.Trim.{strip_prefix}
use pico_proving_service.Cost.{estimate_cost}
use pico_proving_service.Grpc.{Task}
use pico_proving_service.Clients.{Command, prove_task_command, test_client}
use pico_proving_service.Clients.Reth.{
  Cli, BlockExecutor, reth_elf_path, block_task, block_round, blocks, test_reth_prove,
}
use pico_proving_service.Clients.Served.{Service, served}
use pico_proving_service.Clients.Queued.{Ends, test_reth_prove-Queued}
use pico_proving_service.Clients.Commands.{Queues, test_client-Queues}
use pico_proving_service.Tests.Apps.{toolchain, database, no_tables, app_row, with_app}
use pico_proving_service.Tests.Service.{estimator}
use pico_proving_service.Tests.Emulation.{emulation}
use pico_proving_service.Tests.Programs.{Paths, disk, with_file, writer, same_bytes}

abbrev cli : Cli
cli = record { block_interval = 2; use_gpu = false; estimate_cost = true }

abbrev executor : BlockExecutor (List ℕ) (List ℕ)
executor = record { wait_for_block = λ n. true; execute = λ n. some (n ∷ []); default_builder = [] }

abbrev files : Paths
files = with_file (with_file (λ _. none) reth_elf_path (7 ∷ [])) (text "in") (5 ∷ [])

abbrev no_tasks : Service toolchain database
no_tasks = record { shared = record { outputs = []; db = no_tables }; queue = [] }

-- Of the blocks 3 and 4 the second one is at the interval.
abbrev block_4 : Task toolchain database
block_4 = record {
  key = record { app_id = replicate 64 b'a'; task_id = block_task 4 };
  program = 7 ∷ [];
  pk = 7 ∷ [];
  vk = 7 ∷ [];
  inputs = some (1 ∷ 4 ∷ []);
  use_gpu = false;
}

abbrev with_task : Service toolchain database
with_task = record {
  shared = record { outputs = []; db = with_app no_tables app_row };
  queue = block_4 ∷ [];
}

test_reth_prove-Queued_example :
    Ends toolchain database disk emulation writer executor estimator
      (λ _. tt)
      (λ n. n ∷ [])
      none
      files
      cli
      (3 ∷ 4 ∷ [])
      no_tasks
      (success tt)
      with_task
test_reth_prove-Queued_example =
    test_reth_prove-Queued toolchain database disk emulation writer executor estimator (λ _. tt)
      (λ n. n ∷ []) none same_bytes files cli (3 ∷ 4 ∷ []) no_tasks with_task (success tt)
      (unfold test_reth_prove blocks block_round new get_app set_app to_row from_row strip_prefix
          estimate_cost in
        refl)

abbrev command : Command
command = prove_task_command (replicate 64 b'a') (text "t") (some (text "in")) false

test_client-Queues_example :
    Queues toolchain database disk estimator
      (λ _. tt)
      (λ n. n ∷ [])
      none
      files
      with_task
      command
      (test_client toolchain disk
        (served toolchain database estimator (λ _. tt) (λ n. n ∷ []) none)
        files
        with_task
        command)
test_client-Queues_example =
    test_client-Queues toolchain database disk estimator (λ _. tt) (λ n. n ∷ []) none files
      with_task command
