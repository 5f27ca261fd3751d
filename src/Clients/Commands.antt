-- ===== src/Clients/Commands.antt =====
-- What a command of bin/test_client.rs does to the queue of the service.
use pico_proving_service.Prelude.{
  ℕ, ◌≡◌, ◌≢◌, refl, sym, ◌⊎◌, inl, inr, List, [], ◌∷◌, ◌++◌, Option, true, Text, Outcome, ok,
  panic, Result, success, failure, and_then-eq-success, ok-eq, success-eq,
}
use pico_proving_service.Database.{Database}
use pico_proving_service.Queue.{Shared}
use pico_proving_service.Cost.{Estimator, EstimateCostResponse}
use pico_proving_service.Apps.{Toolchain, App}
use pico_proving_service.Grpc.{
  Status, Task, RegisterAppResponse, find_app, prove_task, task_of, register_app,
  estimate_cost_response, get_proving_result,
}
use pico_proving_service.Programs.{Disk, read_inputs, Holds, read_inputs-Holds}
use pico_proving_service.Clients.{
  ProverNetworkClient, prove_request, ClientError, Command, register_app_command,
  estimate_cost_command, prove_task_command, get_proving_result_command, Logged, submitted,
  registered, estimated, fetched, next, called, from_file, test_client,
}
use pico_proving_service.Clients.Served.{
  Service, CallError, served, after_register, after_prove, after_estimate, after_get,
}

module _ (tc : Toolchain) (d : Database) (disk : Disk) (es : Estimator)
    (task_of_app : App tc → es.Task) (to_be_bytes_vec : ℕ → List ℕ) (max_cycles : Option ℕ) where
  abbrev S : Type 0
  S = Service tc d

  abbrev Client : ProverNetworkClient
  Client = served tc d es task_of_app to_be_bytes_vec max_cycles

  abbrev E : Type 0
  E = ClientError disk.IoError (CallError tc d)

  abbrev Ran : Type 0
  Ran = Result E Logged × S

  -- The task of a command, with the inputs of its file and the program of the app that was found.
  pub record Submits (fs : disk.Files) (s : S) (cmd : Command) (task : Task tc d) : Type 0 where
    pub app : App tc
    pub inputs : Option Text
    pub command : cmd ≡ prove_task_command task.key.app_id task.key.task_id inputs task.use_gpu
    pub inputs_read : Holds tc disk fs inputs task.inputs
    pub found : find_app tc d s.shared.db task.key.app_id ≡ ok (success app)
    pub program : task.program ≡ app.program

  -- Either nothing is submitted, and the queue is as before, or one task is behind the others.
  abbrev pub Queues : disk.Files → S → Command → Ran → Type 0
  Queues fs s cmd (r, s') =
      ((r ≢ success submitted) × (s'.queue ≡ s.queue))
      ⊎ ((task : Task tc d) × (r ≡ success submitted)
          × (s'.queue ≡ s.queue ++ task ∷ [])
          × Submits fs s cmd task)

  -- A command of `test_client` either reports that a task is submitted, and then leaves one task
  -- behind the others, with the ids and the flag of the command, the bytes of its input file, and
  -- the program of the app that is found under the id; or it reports something else or an error,
  -- and leaves the queue as it was.
  pub test_client-Queues :
      (fs : disk.Files) (s : S) (cmd : Command)
      → Queues fs s cmd (test_client tc disk Client fs s cmd)
  unfolding test_client
  test_client-Queues fs s (register_app_command elf info) = go (disk.read fs elf)
    where
      registering :
          (o : Outcome (Result (Status d.DbError) RegisterAppResponse × d.Db))
          → Queues fs s
              (register_app_command elf info)
              (next (called (after_register tc d s o)) (λ res s. (success (registered res), s)))
      registering (panic x) = inl ((λ h. cc), refl)
      registering (ok (success res, db)) = inl ((λ h. cc), refl)
      registering (ok (failure e, db)) = inl ((λ h. cc), refl)

      go :
          (o : Result disk.IoError (List ℕ))
          → Queues fs s (register_app_command elf info) (
              next
                (from_file o, s)
                (λ elf s.
                  next
                    (called (Client.register_app s elf info))
                    (λ res s. (success (registered res), s))))
      go (failure e) = inl ((λ h. cc), refl)
      go (success elf) = registering (register_app tc d s.shared.db elf info)
  test_client-Queues fs s (estimate_cost_command id inputs) = go (read_inputs tc disk fs inputs)
    where
      estimating :
          (o : Outcome (Result (Status d.DbError) EstimateCostResponse))
          → Queues fs s
              (estimate_cost_command id inputs)
              (next (called (after_estimate tc d s o)) (λ res s. (success (estimated res), s)))
      estimating (panic x) = inl ((λ h. cc), refl)
      estimating (ok (success res)) = inl ((λ h. cc), refl)
      estimating (ok (failure e)) = inl ((λ h. cc), refl)

      go :
          (o : Result disk.IoError (Option (List ℕ)))
          → Queues fs s (estimate_cost_command id inputs) (
              next
                (from_file o, s)
                (λ inputs s.
                  next
                    (called (Client.estimate_cost s (record { app_id = id; inputs = inputs })))
                    (λ res s. (success (estimated res), s))))
      go (failure e) = inl ((λ h. cc), refl)
      go (success bytes) = estimating (
          estimate_cost_response tc d es task_of_app to_be_bytes_vec s.shared.db id bytes
            max_cycles)
  test_client-Queues fs s (prove_task_command id task_id inputs use_gpu) =
      go (read_inputs tc disk fs inputs) refl
    where
      proving :
          (bytes : Option (List ℕ)) (o : Outcome (Result (Status d.DbError) (List (Task tc d))))
          → read_inputs tc disk fs inputs ≡ success bytes
          → prove_task tc d s.shared.db true s.queue (prove_request id task_id bytes use_gpu) ≡ o
          → Queues fs s
              (prove_task_command id task_id inputs use_gpu)
              (next (called (after_prove tc d s o)) (λ _ s. (success submitted, s)))
      proving bytes (panic x) read asked = inl ((λ h. cc), refl)
      proving bytes (ok (failure e)) read asked = inl ((λ h. cc), refl)
      proving bytes (ok (success queue)) read asked =
          let (app, found, there) = and_then-eq-success (find_app tc d s.shared.db id) _ asked in
          inr (
            task_of tc d (prove_request id task_id bytes use_gpu) app,
            refl,
            sym (success-eq (ok-eq there)),
            record {
              app = app;
              inputs = inputs;
              command = refl;
              inputs_read = read_inputs-Holds tc disk fs inputs bytes read;
              found = found;
              program = refl;
            },
          )

      go :
          (o : Result disk.IoError (Option (List ℕ)))
          → read_inputs tc disk fs inputs ≡ o
          → Queues fs s (prove_task_command id task_id inputs use_gpu) (
              next
                (from_file o, s)
                (λ inputs s.
                  next
                    (called (Client.prove_task s (prove_request id task_id inputs use_gpu)))
                    (λ _ s. (success submitted, s))))
      go (failure e) read = inl ((λ h. cc), refl)
      go (success bytes) read = proving bytes _ read refl
  test_client-Queues fs s (get_proving_result_command id task_id) =
      fetching (get_proving_result tc d s.shared (record { app_id = id; task_id = task_id }))
    where
      fetching :
          (o : Result (Status d.DbError) (Option (List ℕ)) × Shared d)
          → Queues fs s
              (get_proving_result_command id task_id)
              (next (called (after_get tc d s o)) (λ res s. (success (fetched res), s)))
      fetching (success p, shared) = inl ((λ h. cc), refl)
      fetching (failure e, shared) = inl ((λ h. cc), refl)
