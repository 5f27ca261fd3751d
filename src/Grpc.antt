-- ===== src/Grpc.antt =====
-- src/grpc.rs: the handlers of the service. The transport, the compression and the logs are left
-- out; a `Status` is one of the three that the handlers return.
pub mod Results
pub mod Runs
pub mod Costs
pub mod Service
pub mod Guarded
use pico_proving_service.Prelude.{
  ℕ, Bool, true, false, List, [], ◌∷◌, ◌++◌, Option, none, some, Text, Outcome, ok, panic, ◌>>=◌,
  Result, success, failure, and_then,
}
use pico_proving_service.Database.{Database}
use pico_proving_service.Apps.{Toolchain, App, AppError, get_app, set_app}
use pico_proving_service.Queue.{
  ProvingKey, ProvingTask, ProvingOutputs, output, remove_output, Shared, pop_output,
}
use pico_proving_service.Cost.{
  Estimator, EstimateCostResponse, EstimatedInfo, PicoError, error_response, estimate_cost,
}

pub data Status (DbError : Type 0) : Type 0 where
  internal_app : AppError DbError → Status DbError
  internal_db : DbError → Status DbError
  send_failed : Status DbError
  not_found : Text → Status DbError

pub record RegisterAppResponse : Type 0 where
  pub app_id : Text

pub record ProveTaskRequest : Type 0 where
  pub app_id : Text
  pub task_id : Text
  pub inputs : Option (List ℕ)
  pub use_gpu : Option Bool

pub record GetProvingResultRequest : Type 0 where
  pub app_id : Text
  pub task_id : Text

pub record EstimateCostRequest : Type 0 where
  pub app_id : Text
  pub inputs : Option (List ℕ)

-- `map_err`, with `?` behind it
abbrev pub from_app {ℓ} : {E : Type 0} {A : Type ℓ} → Result (AppError E) A → Result (Status E) A
from_app (success a) = success a
from_app (failure e) = failure (internal_app e)

abbrev pub or_not_found {ℓ} : {E : Type 0} {A : Type ℓ} → Text → Option A → Result (Status E) A
or_not_found id none = failure (not_found id)
or_not_found id (some a) = success a

abbrev pub unwrap_or_false : Option Bool → Bool
unwrap_or_false none = false
unwrap_or_false (some b) = b

module _ (tc : Toolchain) (d : Database) where
  open d use {Db, DbError}

  abbrev pub Task : Type 0
  Task = ProvingTask tc.Program tc.ProvingKey tc.VerifyingKey

  -- The app of a request.
  abbrev pub find_app : Db → Text → Outcome (Result (Status DbError) (App tc))
  find_app s id = do
    found ← get_app tc d s id
    and_then (ok (from_app found)) λ o. ok (or_not_found id o)

  abbrev pub registered :
      Result (AppError DbError) (App tc) × Db → Result (Status DbError) RegisterAppResponse × Db
  registered (success app, s) = (success (record { app_id = app.app_id }), s)
  registered (failure e, s) = (failure (internal_app e), s)

  abbrev pub register_app :
      Db → List ℕ → Option Text → Outcome (Result (Status DbError) RegisterAppResponse × Db)
  register_app s elf info = do r ← set_app tc d s elf info; ok (registered r)

  abbrev pub task_of : ProveTaskRequest → App tc → Task
  task_of req app = record {
    key = record { app_id = req.app_id; task_id = req.task_id };
    program = app.program;
    pk = app.pk;
    vk = app.vk;
    inputs = req.inputs;
    use_gpu = unwrap_or_false req.use_gpu;
  }

  -- `self.sender.send(task)`, on the queue while its receiver is there.
  abbrev pub send : Bool → List Task → Task → Result (Status DbError) (List Task)
  send receiver queue task = elim receiver [
    | true ↦ success (queue ++ task ∷ [])
    | false ↦ failure send_failed
  ]

  -- The queue of tasks afterwards, or the error.
  abbrev pub prove_task :
      Db
      → (receiver : Bool) → List Task
      → ProveTaskRequest
      → Outcome (Result (Status DbError) (List Task))
  prove_task s receiver queue req =
      and_then (find_app s req.app_id) λ app. ok (send receiver queue (task_of req app))

  abbrev pub from_row_or :
      Result DbError (Option (Option (List ℕ))) → Result (Status DbError) (Option (List ℕ))
  from_row_or (failure e) = failure (internal_db e)
  from_row_or (success none) = success none
  from_row_or (success (some column)) = success column

  -- A proof in memory is taken out; else the one of the database is read.
  abbrev pub proof_of :
      Shared d
      → ProvingKey
      → Option (List ℕ) × ProvingOutputs
      → Result (Status DbError) (Option (List ℕ)) × Shared d
  proof_of s key (some proof, outputs) = (success (some proof), record s { outputs = outputs })
  proof_of s key (none, _) = (from_row_or (d.select_proof s.db key.app_id key.task_id), s)

  pub get_proving_result :
      Shared d → GetProvingResultRequest → Result (Status DbError) (Option (List ℕ)) × Shared d
  get_proving_result s req =
      let key : ProvingKey = record { app_id = req.app_id; task_id = req.task_id } in
      proof_of s key (pop_output key s.outputs)

  module _ (es : Estimator) (task_of_app : App tc → es.Task) (to_be_bytes_vec : ℕ → List ℕ) where
    abbrev pub cost_response : Result PicoError EstimatedInfo → EstimateCostResponse
    cost_response (success info) = record {
      err = none;
      cost = info.cost;
      pv_digest = to_be_bytes_vec info.pv_digest;
    }
    cost_response (failure e) = error_response e

    abbrev pub estimate_cost_response :
        Db
        → Text
        → Option (List ℕ)
        → Option ℕ
        → Outcome (Result (Status DbError) EstimateCostResponse)
    estimate_cost_response s id inputs max_cycles = and_then (find_app s id) λ app.
        ok (success (cost_response (estimate_cost es (task_of_app app) inputs max_cycles true)))
