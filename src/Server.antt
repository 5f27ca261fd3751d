-- ===== src/Server.antt =====
-- bin/server.rs: the running server, that is the handlers of src/grpc.rs and the loop of
-- src/proving_queue.rs over what they share. `main` keeps both ends of the channel between them, so
-- that a send to it does not fail, even if the loop has ended. The handlers of several requests run
-- at once: what one does between two waits for the database is one step. Calls that change nothing
-- are left out.
pub mod Invariant
pub mod Steady
pub mod Kept
pub mod Found
pub mod Safety
pub mod Halted
pub mod Answered
use pico_proving_service.Prelude.{
  ℕ, Bool, true, ◌≡◌, List, [], ◌∷◌, ◌++◌, Option, none, some, Text, Outcome, ok, panic, Panic,
  Result, success, failure,
}
use pico_proving_service.Database.{Database, AppRow}
use pico_proving_service.Apps.{Toolchain, App, new, to_row, get_app, inserted_app}
use pico_proving_service.Queue.{
  ProvingKey, ProvingTask, ProvingOutputs, output, remove_output, insert_output, Shared,
  store_proof_in_db,
}
use pico_proving_service.Grpc.{Status, ProveTaskRequest, find_app, task_of, send, from_row_or, Task}

-- Where the loop of the queue is: it waits for a task, proves one, has put a proof into memory and
-- is about to store it in the database, or has ended by a panic.
pub data Loop (T : Type 0) : Type 0 where
  waiting : Loop T
  proving : T → Loop T
  storing : ProvingKey → List ℕ → Loop T
  stopped : Loop T

module _ (tc : Toolchain) (d : Database) where
  pub record Server : Type 0 where
    pub shared : Shared d
    pub queue : List (Task tc d)
    pub loop : Loop (Task tc d)
    -- registrations that found no app with their id, and insert one next
    pub registering : List (App tc)
    -- requests for a proof that have found their app, and send the task next
    pub sending : List (ProveTaskRequest × App tc)
    -- requests for a result that found none in memory, and read the database next
    pub reading : List ProvingKey

  -- The start of `main`, on a database.
  abbrev pub main : d.Db → Server
  main db = record {
    shared = record { outputs = []; db = db };
    queue = [];
    loop = waiting;
    registering = [];
    sending = [];
    reading = [];
  }

  pub data Event : Type 0 where
    quiet : Event
    looked_up : ProveTaskRequest → App tc → Event
    submitted : ProveTaskRequest → Task tc d → Event
    proved : Task tc d → List ℕ → Event
    replied : ProvingKey → Result (Status d.DbError) (Option (List ℕ)) → Event

  module _ {Err : Type 0} (Proves : Task tc d → Outcome (Result Err (List ℕ)) → Type 0) where
    pub data Step (s : Server) : Event → Server → Type 0 where
      -- `set_app`, up to the lookup of the new app's id
      checks :
          (elf : List ℕ) (info : Option Text) (app : App tc)
          → new tc elf info ≡ ok app
          → get_app tc d s.shared.db app.app_id ≡ ok (success none)
          → Step s quiet (record s { registering = app ∷ s.registering })
      -- and its insertion
      inserts :
          (front after : List (App tc)) (app : App tc) (row : AppRow)
          → s.registering ≡ front ++ app ∷ after
          → to_row tc app ≡ ok row
          → Step s quiet (record s {
            shared = record (s.shared) {
              db = (inserted_app tc d app (d.insert_app s.shared.db row)).1;
            };
            registering = front ++ after;
          })
      looks_up :
          (req : ProveTaskRequest) (app : App tc)
          → find_app tc d s.shared.db req.app_id ≡ ok (success app)
          → Step s (looked_up req app) (record s { sending = (req, app) ∷ s.sending })
      submits :
          (front after : List (ProveTaskRequest × App tc)) (req : ProveTaskRequest) (app : App tc)
          (queue : List (Task tc d))
          → s.sending ≡ front ++ (req, app) ∷ after
          → send tc d true s.queue (task_of tc d req app) ≡ success queue
          → Step s
              (submitted req (task_of tc d req app))
              (record s { queue = queue; sending = front ++ after })
      takes :
          (t : Task tc d) (q : List (Task tc d))
          → s.loop ≡ waiting
          → s.queue ≡ t ∷ q
          → Step s quiet (record s { queue = q; loop = proving t })
      proves :
          (t : Task tc d) (proof : List ℕ)
          → s.loop ≡ proving t
          → Proves t (ok (success proof))
          → Step s (proved t proof) (record s {
            shared = record (s.shared) { outputs = insert_output t.key proof s.shared.outputs };
            loop = storing t.key proof;
          })
      fails :
          (t : Task tc d) (e : Err)
          → s.loop ≡ proving t
          → Proves t (ok (failure e))
          → Step s quiet (record s { loop = waiting })
      panics :
          (t : Task tc d) (x : Panic)
          → s.loop ≡ proving t
          → Proves t (panic x)
          → Step s quiet (record s { loop = stopped })
      stores :
          (key : ProvingKey) (proof : List ℕ)
          → s.loop ≡ storing key proof
          → Step s quiet (record s {
            shared = record (s.shared) { db = (store_proof_in_db d s.shared.db key proof).1 };
            loop = waiting;
          })
      finds :
          (key : ProvingKey) (proof : List ℕ)
          → output key s.shared.outputs ≡ some proof
          → Step s (replied key (success (some proof))) (record s {
            shared = record (s.shared) { outputs = remove_output key s.shared.outputs };
          })
      misses :
          (key : ProvingKey)
          → output key s.shared.outputs ≡ none
          → Step s quiet (record s { reading = key ∷ s.reading })
      reads :
          (before after : List ProvingKey) (key : ProvingKey)
          → s.reading ≡ before ++ key ∷ after
          → Step s
              (replied key (from_row_or tc d (d.select_proof s.shared.db key.app_id key.task_id)))
              (record s { reading = before ++ after })

    -- The states that a server comes to, with the events that led there, the last one first.
    pub data Reach (s : Server) : List Event → Server → Type 0 where
      begin : Reach s [] s
      later :
          {events : List Event} {event : Event} {t u : Server}
          → Reach s events t
          → Step t event u
          → Reach s (event ∷ events) u
