-- ===== src/Grpc/Service.antt =====
-- src/grpc.rs: the service as it is served: the interceptor, the limit of a message, the handlers.
use pico_proving_service.Prelude.{
  ℕ, true, List, Option, Text, Outcome, ok, ◌>>=◌, Result, success, failure, leb, if◌then◌else◌,
}
use pico_proving_service.Auth.{AuthError, AuthRequest, Metadata, server_auth_interceptor}
use pico_proving_service.Database.{Database}
use pico_proving_service.Cost.{Estimator, EstimateCostResponse}
use pico_proving_service.Apps.{Toolchain, App}
use pico_proving_service.Config.{Clap, ServiceConfig, auth_config}
use pico_proving_service.Queue.{Shared}
use pico_proving_service.Grpc.{
  Status, Task, RegisterAppResponse, ProveTaskRequest, GetProvingResultRequest, register_app,
  prove_task, get_proving_result, EstimateCostRequest, estimate_cost_response,
}

-- A call that is not handled: the interceptor refuses it, its message is too long, or the handler
-- returns an error.
pub data CallError (DbError : Type 0) : Type 0 where
  unauthenticated : AuthError → CallError DbError
  too_long : CallError DbError
  status : Status DbError → CallError DbError

module _ (clap : Clap) (md : Metadata) (tc : Toolchain) (d : Database) (es : Estimator)
    (task_of_app : App tc → es.Task) (to_be_bytes_vec : ℕ → List ℕ) where
  -- `cfg` and what the service shares with the queue; the app manager has the database only, and
  -- `sender` is one end of the channel whose content is `queue`.
  pub record GrpcService : Type 0 where
    pub cfg : ServiceConfig clap
    pub shared : Shared d
    pub queue : List (Task tc d)

  abbrev pub new : ServiceConfig clap → Shared d → List (Task tc d) → GrpcService
  new cfg shared queue = record { cfg = cfg; shared = shared; queue = queue }

  pub data Call : Type 0 where
    register_app_call : List ℕ → Option Text → Call
    estimate_cost_call : EstimateCostRequest → Call
    prove_task_call : ProveTaskRequest → Call
    get_proving_result_call : GetProvingResultRequest → Call

  pub data Reply : Type 0 where
    registered_reply : RegisterAppResponse → Reply
    estimated_reply : EstimateCostResponse → Reply
    proving_reply : Reply
    result_reply : Option (List ℕ) → Reply

  abbrev Done : Type 0
  Done = Result (CallError d.DbError) Reply × GrpcService

  abbrev after_register : GrpcService → Result (Status d.DbError) RegisterAppResponse × d.Db → Done
  after_register s (success r, db) =
      (success (registered_reply r), record s { shared = record (s.shared) { db = db } })
  after_register s (failure e, db) =
      (failure (status e), record s { shared = record (s.shared) { db = db } })

  abbrev after_estimate : GrpcService → Result (Status d.DbError) EstimateCostResponse → Done
  after_estimate s (success r) = (success (estimated_reply r), s)
  after_estimate s (failure e) = (failure (status e), s)

  abbrev after_prove : GrpcService → Result (Status d.DbError) (List (Task tc d)) → Done
  after_prove s (success queue) = (success proving_reply, record s { queue = queue })
  after_prove s (failure e) = (failure (status e), s)

  abbrev after_get : GrpcService → Result (Status d.DbError) (Option (List ℕ)) × Shared d → Done
  after_get s (success proof, shared) = (success (result_reply proof), record s { shared = shared })
  after_get s (failure e, shared) = (failure (status e), record s { shared = shared })

  -- The four handlers; a panic of one is left to the transport.
  unfoldable pub handler : GrpcService → Call → Outcome Done
  handler s (register_app_call elf info) = do
    r ← register_app tc d s.shared.db elf info
    ok (after_register s r)
  handler s (estimate_cost_call req) = do
    r ←
        estimate_cost_response tc d es task_of_app to_be_bytes_vec s.shared.db req.app_id req.inputs
          s.cfg.max_emulation_cycles
    ok (after_estimate s r)
  handler s (prove_task_call req) = do
    r ← prove_task tc d s.shared.db true s.queue req
    ok (after_prove s r)
  handler s (get_proving_result_call req) = ok (after_get s (get_proving_result tc d s.shared req))

  -- `run`: the interceptor sees the metadata before the message is decoded.
  abbrev pub admitted :
      ServiceConfig clap
      → AuthRequest md.Value
      → (length : ℕ) → Result (CallError d.DbError) (Unit {0})
  admitted cfg req length = elim (server_auth_interceptor md (auth_config clap cfg) req) [
    | failure e ↦ failure (unauthenticated e)
    | success _ ↦ if leb length cfg.max_grpc_msg_size then success tt else failure too_long
  ]

  unfoldable pub serve : GrpcService → AuthRequest md.Value → (length : ℕ) → Call → Outcome Done
  serve s req length call = elim (admitted s.cfg req length) [
    | failure e ↦ ok (failure e, s)
    | success _ ↦ handler s call
  ]
