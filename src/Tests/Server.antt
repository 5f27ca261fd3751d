-- ===== src/Tests/Server.antt =====
-- A server that registers an app, proves a task for it and hands the proof out; and one whose queue
-- is ended by a task with no stdin.
use pico_proving_service.Prelude.{
  ℕ, ◌≡◌, refl, ap, ◌∙◌, subst, ◌⊎◌, inr, List, [], ◌∷◌, none, some, true, false, Outcome, ok,
  Result, success, codec_failed, arith,
}
use pico_proving_service.Prelude.Trim.{strip_prefix}
use pico_proving_service.Messages.{exit}
use pico_proving_service.Database.{FailsCleanly}
use pico_proving_service.Apps.{new, to_row, from_row, get_app}
use pico_proving_service.Queue.Outputs.{output-insert}
use pico_proving_service.Grpc.{ProveTaskRequest, Task}
use pico_proving_service.Emulator.{read_stdin}
use pico_proving_service.Task.{RecvError, completed, not_emulated, await_completion, start_provers}
use pico_proving_service.Task.Proved.{Unprovable}
use pico_proving_service.Server.{
  Server, Event, quiet, looked_up, proved, submitted, replied, checks, inserts, looks_up, submits,
  takes, proves, panics, finds, Reach, begin, later, main, stopped, proving, waiting,
}
use pico_proving_service.Server.Invariant.{Among, last}
use pico_proving_service.Server.Safety.{Proves, with_keys, Genuine, replied-Genuine}
use pico_proving_service.Server.Answered.{Replies, Provable-Replies}
use pico_proving_service.Task.Provable.{Provable}
use pico_proving_service.Tests.Run.{example_sure, example_finishes}
use pico_proving_service.Server.Halted.{Halted, Halted-for_good}
use pico_proving_service.Tests.Apps.{
  toolchain, database, database-IsDatabase, no_tables, app, app_row, with_app,
}
use pico_proving_service.Tests.Emulation.{emulation, two_records}
use pico_proving_service.Tests.Example.{
  example_vm, example_attests, example_records, example_onchain, example_prover,
}
use pico_proving_service.Tests.States.{embedded, embedded_first}
use pico_proving_service.System.Safety.{BytesOf-success, completion_sent}

database-FailsCleanly : FailsCleanly database
database-FailsCleanly = record {
  insert_failed = λ s s' row e a t h. absurd cc;
  replace_failed = λ s s' a t a' t' proof e h. absurd cc;
}

abbrev request : ProveTaskRequest
request = record {
  app_id = app.app_id;
  task_id = b'1' ∷ [];
  inputs = some (70 ∷ 80 ∷ []);
  use_gpu = none;
}

abbrev task : Task toolchain database
task = record {
  key = record { app_id = app.app_id; task_id = b'1' ∷ [] };
  program = app.program;
  pk = app.pk;
  vk = app.vk;
  inputs = some (70 ∷ 80 ∷ []);
  use_gpu = false;
}

abbrev P : Task toolchain database → Outcome (Result RecvError (List ℕ)) → Type 0
P = Proves toolchain database example_vm (λ _. tt) (λ _. tt) emulation example_onchain 1 true

abbrev proof : List ℕ
proof = 1 ∷ 70 ∷ 80 ∷ []

task_proved : P task (ok (success proof))
unfolding start_provers read_stdin
task_proved =
    let (g, over_g, (bytes, of_result, sent), _, _) =
      completion_sent example_vm example_attests example_records true example_onchain example_prover
        1 embedded.0 (70 ∷ 80 ∷ []) (exit ∷ []) (success proof) embedded.1 embedded_first refl in
    subst (λ c. P task (ok (await_completion true true c)))
      (sent ∙ ap (λ x. x ∷ []) (BytesOf-success of_result))
      (completed _ _ example_records 2 (embedded.0) (70 ∷ 80 ∷ []) (exit ∷ []) g true true refl refl
        two_records (embedded.1) embedded_first over_g)

abbrev history : List (Event toolchain database)
history =
    replied task.key (success (some proof))
    ∷ proved task proof
    ∷ quiet
    ∷ submitted request task
    ∷ looked_up request app
    ∷ quiet
    ∷ quiet
    ∷ []

handed_out :
    (s : Server toolchain database) × Reach toolchain database P
      (main toolchain database no_tables)
      history
      s
unfolding new get_app to_row from_row strip_prefix
handed_out = (
  _,
  later
      (later
        (later
          (later
            (later
              (later (later begin (checks (7 ∷ []) none app refl refl))
                (inserts [] [] app app_row refl refl))
              (looks_up request app refl))
            (submits [] [] request app (task ∷ []) refl refl))
          (takes task [] refl refl))
        (proves task proof refl task_proved))
      (finds task.key proof (output-insert task.key proof [])),
)

replied-Genuine_example :
    (database.select_proof no_tables task.key.app_id task.key.task_id ≡ success (some (some proof)))
    ⊎ Genuine toolchain database example_vm
        (λ _. tt)
        (λ _. tt)
        emulation
        example_onchain
        1
        true
        example_attests
        no_tables
        history
        handed_out.0
        task.key
        proof
replied-Genuine_example =
    replied-Genuine toolchain database example_vm (λ _. tt) (λ _. tt) emulation example_onchain 1
      true database-IsDatabase database-FailsCleanly example_attests no_tables _ handed_out.0
      task.key proof handed_out.1 last

-- A task whose inputs are no stdin.
abbrev empty_task : Task toolchain database
empty_task = record task { inputs = some [] }

abbrev busy : Server toolchain database
busy = record {
  shared = record { outputs = []; db = with_app no_tables app_row };
  queue = [];
  loop = proving empty_task;
  registering = [];
  sending = [];
  reading = [];
}

busy-Halted :
    Halted toolchain database example_vm
      (λ _. tt)
      (λ _. tt)
      emulation
      example_onchain
      1
      true
      busy.loop
unfolding Unprovable read_stdin
busy-Halted = inr refl

abbrev ended_queue : Server toolchain database
ended_queue = record busy { queue = task ∷ []; loop = stopped }

-- The next task is accepted all the same.
queue_ended :
    Reach toolchain database P busy
      (submitted request task ∷ looked_up request app ∷ quiet ∷ [])
      ended_queue
unfolding get_app from_row strip_prefix start_provers read_stdin
queue_ended =
    later
      (later
        (later begin (panics empty_task codec_failed refl (not_emulated _ codec_failed refl refl)))
        (looks_up request app refl))
      (submits [] [] request app (task ∷ []) refl refl)

Halted-for_good_example :
    Halted toolchain database example_vm
      (λ _. tt)
      (λ _. tt)
      emulation
      example_onchain
      1
      true
      stopped
    × ((k : Task toolchain database) (p : List ℕ)
        → ¬ Among {A = Event toolchain database}
            (proved k p)
            (submitted request task ∷ looked_up request app ∷ quiet ∷ []))
Halted-for_good_example =
    Halted-for_good toolchain database example_vm (λ _. tt) (λ _. tt) emulation example_onchain 1
      true busy-Halted queue_ended

-- A second task behind the first one.
abbrev next_task : Task toolchain database
next_task = record task { key = record { app_id = app.app_id; task_id = b'2' ∷ [] } }

abbrev two_queued : Server toolchain database
two_queued = record busy { queue = task ∷ next_task ∷ []; loop = waiting }

next_task-Provable : Provable example_vm emulation example_onchain 1 true example_attests (
    with_keys toolchain database example_vm
      (λ _. tt)
      (λ _. tt)
      emulation
      example_onchain
      1
      true
      next_task)
unfolding read_stdin
next_task-Provable = record {
  some_prover = omega arith;
  on_cpu = refl;
  builder = 70 ∷ 80 ∷ [];
  records = example_records;
  batches = 2;
  read = refl;
  emulates = two_records;
  sure = example_sure;
  finishes = example_finishes;
  onchain = λ e. (success (1 ∷ e), refl);
}

Provable-Replies_example :
    (proof : List ℕ) × Replies toolchain database P two_queued next_task proof
Provable-Replies_example =
    Provable-Replies toolchain database example_vm (λ _. tt) (λ _. tt) emulation example_onchain 1
      true example_attests two_queued (task ∷ []) [] next_task refl tt
      ((success proof, task_proved), tt) next_task-Provable
