-- ===== src/Clients/Served.antt =====
-- A client of the handlers of src/grpc.rs, alone with the service and with no failure of the
-- transport. A handler that panics leaves the state as it is, and the client with an error.
use pico_proving_service.Prelude.{
  ℕ, List, Option, none, some, true, Outcome, ok, panic, Result, success, failure,
}
use pico_proving_service.Database.{Database}
use pico_proving_service.Queue.{Shared}
use pico_proving_service.Cost.{Estimator, EstimateCostResponse}
use pico_proving_service.Apps.{Toolchain, App}
use pico_proving_service.Grpc.{
  Status, Task, RegisterAppResponse, register_app, prove_task, get_proving_result,
  estimate_cost_response,
}
use pico_proving_service.Clients.{ProverNetworkClient}

module _ (tc : Toolchain) (d : Database) where
  -- What the handlers share with the queue.
  pub record Service : Type 0 where
    pub shared : Shared d
    pub queue : List (Task tc d)

  -- A status, or none if the handler panicked.
  abbrev pub CallError : Type 0
  CallError = Option (Status d.DbError)

  abbrev pub after_register :
      Service
      → Outcome (Result (Status d.DbError) RegisterAppResponse × d.Db)
      → Result CallError RegisterAppResponse × Service
  after_register s (panic x) = (failure none, s)
  after_register s (ok (success r, db)) =
      (success r, record s { shared = record (s.shared) { db = db } })
  after_register s (ok (failure e, db)) =
      (failure (some e), record s { shared = record (s.shared) { db = db } })

  abbrev pub after_prove :
      Service
      → Outcome (Result (Status d.DbError) (List (Task tc d)))
      → Result CallError (Unit {0}) × Service
  after_prove s (panic x) = (failure none, s)
  after_prove s (ok (failure e)) = (failure (some e), s)
  after_prove s (ok (success queue)) = (success tt, record s { queue = queue })

  abbrev pub after_estimate :
      Service
      → Outcome (Result (Status d.DbError) EstimateCostResponse)
      → Result CallError EstimateCostResponse × Service
  after_estimate s (panic x) = (failure none, s)
  after_estimate s (ok (failure e)) = (failure (some e), s)
  after_estimate s (ok (success r)) = (success r, s)

  abbrev pub after_get :
      Service
      → Result (Status d.DbError) (Option (List ℕ)) × Shared d
      → Result CallError (Option (List ℕ)) × Service
  after_get s (success proof, shared) = (success proof, record s { shared = shared })
  after_get s (failure e, shared) = (failure (some e), record s { shared = shared })

  module _ (es : Estimator) (task_of_app : App tc → es.Task) (to_be_bytes_vec : ℕ → List ℕ)
      (max_cycles : Option ℕ) where
    abbrev pub served : ProverNetworkClient
    served = record {
      Service = Service;
      CallError = CallError;
      register_app = λ s elf info. after_register s (register_app tc d s.shared.db elf info);
      estimate_cost = λ s req. after_estimate s (
          estimate_cost_response tc d es task_of_app to_be_bytes_vec s.shared.db req.app_id
            req.inputs max_cycles);
      prove_task = λ s req. after_prove s (prove_task tc d s.shared.db true s.queue req);
      get_proving_result = λ s req. after_get s (get_proving_result tc d s.shared req);
    }
