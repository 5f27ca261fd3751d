-- ===== src/Clients/Rounds.antt =====
-- What a round of the client of bin/test_reth_prove.rs leaves in the queue of the service.
use pico_proving_service.Prelude.{
  ℕ, ◌≡◌, refl, sym, ap, ◌∙◌, ◌⊎◌, inl, inr, List, [], ◌∷◌, ◌++◌, text, to_string, Bool, true,
  false, Option, none, some, Text, Outcome, ok, panic, Result, success, failure, if◌then◌else◌,
  and_then-eq-success, ok-eq, success-eq,
}
use pico_proving_service.Database.{Database}
use pico_proving_service.Cost.{Estimator, EstimateCostResponse}
use pico_proving_service.Apps.{Toolchain, App}
use pico_proving_service.Emulator.{Emulation, read_stdin}
use pico_proving_service.Grpc.{
  ProveTaskRequest, Status, Task, find_app, prove_task, task_of, estimate_cost_response,
}
use pico_proving_service.Programs.{Disk}
use pico_proving_service.Programs.Inputs.{Writer}
use pico_proving_service.Clients.{
  ProverNetworkClient, ClientError, codec, block_failed, call, next, called,
}
use pico_proving_service.Clients.Reth.{
  Cli, BlockExecutor, block_builder, block_request, estimate_block, build_block, fetch_block,
  block_round,
}
use pico_proving_service.Clients.Served.{Service, CallError, served, after_prove, after_estimate}

module _ {R Program : Type 0} (tc : Toolchain) (d : Database) (em : Emulation R Program)
    (w : Writer em.StdinBuilder) (executor : BlockExecutor w.ClientInput em.StdinBuilder) where
  -- A task for a block: the program is the one of the app that the database has under the id of the
  -- task, and its emulation reads the input of the block.
  pub record Asks (cli : Cli) (db : d.Db) (id : Text) (n : ℕ) (task : Task tc d) : Type 0 where
    pub app : App tc
    pub client_input : w.ClientInput
    pub found : find_app tc d db id ≡ ok (success app)
    pub executed : executor.execute n ≡ some client_input
    pub key : task.key ≡ record { app_id = id; task_id = text "task-block-" ++ to_string n }
    pub program : task.program ≡ app.program
    pub keys : ◌≡◌ {A = tc.ProvingKey × tc.VerifyingKey} (task.pk, task.vk) (app.pk, app.vk)
    pub reads :
        read_stdin em task.inputs ≡ ok (w.write_client_input client_input executor.default_builder)
    pub use_gpu : task.use_gpu ≡ cli.use_gpu

module _ {R Program : Type 0} (tc : Toolchain) (d : Database) (disk : Disk)
    (em : Emulation R Program) (w : Writer em.StdinBuilder)
    (executor : BlockExecutor w.ClientInput em.StdinBuilder) (es : Estimator)
    (task_of_app : App tc → es.Task) (to_be_bytes_vec : ℕ → List ℕ) (max_cycles : Option ℕ) where
  abbrev Client : ProverNetworkClient
  Client = served tc d es task_of_app to_be_bytes_vec max_cycles

  module _ (cli : Cli) (id : Text) where
    abbrev S : Type 0
    S = Service tc d

    abbrev E : Type 0
    E = ClientError disk.IoError (CallError tc d)

    -- An estimate changes nothing.
    estimate_block-same :
        (inputs : List ℕ) (s : S)
        → (estimate_block tc disk Client em w executor cli id inputs s).1 ≡ s
    estimate_block-same inputs s = by cli.estimate_cost (
        estimate_cost_response tc d es task_of_app to_be_bytes_vec s.shared.db id (some inputs)
          max_cycles)
      where
        by :
            (b : Bool) (o : Outcome (Result (Status d.DbError) EstimateCostResponse))
            → (if b
                then next
                    (called {I = disk.IoError} (after_estimate tc d s o))
                    (λ _ s. (success tt, s))
                else (success tt, s)).1
              ≡ s
        by false o = refl
        by true (panic x) = refl
        by true (ok (failure e)) = refl
        by true (ok (success r)) = refl

    abbrev request : ℕ → List ℕ → ProveTaskRequest
    request n bytes = block_request tc disk Client em w executor cli id n bytes

    abbrev Round : Type 0
    Round = Result E (Unit {0}) × S

    -- What a round leaves: a task for the block is behind the others, or an error has ended it
    -- before.
    abbrev pub Leaves : S → ℕ → Round → Type 0
    Leaves s n (r, s') =
        (s'.shared ≡ s.shared)
        × (((task : Task tc d) × (s'.queue ≡ s.queue ++ task ∷ [])
              × Asks tc d em w executor cli s.shared.db id n task)
            ⊎ ((e : E) × (r ≡ failure e) × (s'.queue ≡ s.queue)))

    pub block_round-Leaves :
        ((b : em.StdinBuilder) (bytes : List ℕ)
          → w.serialize b ≡ some bytes
          → em.deserialize bytes ≡ some b)
        → (s : S) (n : ℕ) → Leaves s n (block_round tc disk Client em w executor cli id n s)
    unfolding block_round read_stdin
    block_round-Leaves codec_law s n = go (executor.wait_for_block n)
      where
        sent :
            (client_input : w.ClientInput) (bytes : List ℕ)
            (o : Outcome (Result (Status d.DbError) (List (Task tc d))))
            → executor.execute n ≡ some client_input
            → w.serialize (block_builder tc disk Client em w executor client_input) ≡ some bytes
            → prove_task tc d s.shared.db true s.queue (request n bytes) ≡ o
            → Leaves s n (
                next
                  (next (called (after_prove tc d s o)) (λ _ s. (success tt, s)))
                  (λ _ s. estimate_block tc disk Client em w executor cli id bytes s))
        sent ci bytes (panic x) executed made asked = (refl, inr (call none, refl, refl))
        sent ci bytes (ok (failure e)) executed made asked = (refl, inr (call (some e), refl, refl))
        sent ci bytes (ok (success queue)) executed made asked =
            let same = estimate_block-same bytes (record s { queue = queue }) in
            let (app, found, there) = and_then-eq-success (find_app tc d s.shared.db id) _ asked in
            (
              ap (λ (x : S). x.shared) same,
              inl (
                task_of tc d (request n bytes) app,
                ap (λ (x : S). x.queue) same ∙ sym (success-eq (ok-eq there)),
                record {
                  app = app;
                  client_input = ci;
                  found = found;
                  executed = executed;
                  key = refl;
                  program = refl;
                  keys = refl;
                  reads =
                      rw (codec_law (block_builder tc disk Client em w executor ci) bytes made)
                        refl;
                  use_gpu = refl;
                },
              ),
            )

        built :
            (client_input : w.ClientInput) (o : Option (List ℕ))
            → executor.execute n ≡ some client_input
            → w.serialize (block_builder tc disk Client em w executor client_input) ≡ o
            → Leaves s n (build_block tc disk Client em w executor cli id n o s)
        built ci none executed made = (refl, inr (codec, refl, refl))
        built ci (some bytes) executed made = sent ci bytes _ executed made refl

        fetched :
            (o : Option w.ClientInput)
            → executor.execute n ≡ o
            → Leaves s n (fetch_block tc disk Client em w executor cli id n o s)
        fetched none executed = (refl, inr (block_failed n, refl, refl))
        fetched (some ci) executed = built ci _ executed refl

        go :
            (b : Bool)
            → Leaves s n (
                next
                  ((if b then success tt else failure (block_failed n)), s)
                  (λ _ s. fetch_block tc disk Client em w executor cli id n (executor.execute n) s))
        go false = (refl, inr (block_failed n, refl, refl))
        go true = fetched _ refl
