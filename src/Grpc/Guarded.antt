-- ===== src/Grpc/Guarded.antt =====
-- Who is served.
use pico_proving_service.Prelude.{ℕ, List, ◌≡◌, refl, ok, failure}
use pico_proving_service.Auth.{AuthRequest, Metadata, not_provided, not_configured}
use pico_proving_service.Database.{Database}
use pico_proving_service.Cost.{Estimator}
use pico_proving_service.Apps.{Toolchain, App}
use pico_proving_service.Config.{Clap, validate}
use pico_proving_service.Config.Laws.{validate-locked}
use pico_proving_service.Grpc.Service.{GrpcService, Call, unauthenticated, serve}

module _ (clap : Clap) (md : Metadata) (tc : Toolchain) (d : Database) (es : Estimator)
    (task_of_app : App tc → es.Task) (to_be_bytes_vec : ℕ → List ℕ) where
  open md use {Value, parse, same}

  -- If the options of a server fail to validate, every call of the four is refused for the lack of
  -- a token, and changes nothing.
  pub serve-locked :
      (s : GrpcService clap md tc d es task_of_app to_be_bytes_vec) (req : AuthRequest Value)
      (length : ℕ) (call : Call clap md tc d es task_of_app to_be_bytes_vec)
      → validate clap s.cfg ≡ failure not_provided
      → serve clap md tc d es task_of_app to_be_bytes_vec s req length call
        ≡ ok (failure (unauthenticated not_configured), s)
  unfolding serve
  serve-locked s req length call h = rw (serve, (validate-locked md clap s.cfg req).0 h) refl
