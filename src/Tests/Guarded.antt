-- ===== src/Tests/Guarded.antt =====
-- Calls with and without a token.
use pico_proving_service.Prelude.{◌≡◌, refl, [], ◌∷◌, none, some, Text, true, ok, failure}
use pico_proving_service.Auth.{
  bearer, AuthRequest, not_configured, invalid_token, server_auth_interceptor,
}
use pico_proving_service.Config.{Clap, ServiceConfig}
use pico_proving_service.Grpc.Service.{
  GrpcService, Call, unauthenticated, register_app_call, estimate_cost_call, serve,
}
use pico_proving_service.Grpc.Guarded.{serve-locked}
use pico_proving_service.Tests.Apps.{toolchain, database, shared}
use pico_proving_service.Tests.Service.{metadata, token, estimator}

abbrev clap : Clap
clap = record {
  SocketAddr = Unit;
  value = λ o. o.default_value;
  is_present = λ o. true;
  parse_addr = λ s. some tt;
  parse_usize = λ s. some 1;
  parse_u64 = λ s. none;
}

abbrev with_token : ServiceConfig clap
with_token = record {
  db_url = [];
  grpc_addr = tt;
  auth_method = bearer;
  bearer_token = some token;
  max_grpc_msg_size = 100;
  prover_count = 1;
  max_emulation_cycles = none;
}

abbrev Service : Type 0
Service = GrpcService clap metadata toolchain database estimator (λ _. tt) (λ n. n ∷ [])

abbrev guarded : Service
guarded = record { cfg = with_token; shared = shared; queue = [] }

abbrev open_ended : Service
open_ended = record guarded { cfg = record with_token { bearer_token = none } }

abbrev no_token : AuthRequest Text
no_token = record { authorization = none }

abbrev call : Call clap metadata toolchain database estimator (λ _. tt) (λ n. n ∷ [])
call = register_app_call (7 ∷ []) none

serve-locked_example :
    serve clap metadata toolchain database estimator
      (λ _. tt)
      (λ n. n ∷ [])
      open_ended
      no_token
      1
      call
    ≡ ok (failure (unauthenticated not_configured), open_ended)
serve-locked_example =
    serve-locked clap metadata toolchain database estimator (λ _. tt) (λ n. n ∷ []) open_ended
      no_token 1 call refl

-- An estimate is refused like the other calls.
estimate_refused :
    serve clap metadata toolchain database estimator
      (λ _. tt)
      (λ n. n ∷ [])
      guarded
      no_token
      1
      (estimate_cost_call (record { app_id = []; inputs = none }))
    ≡ ok (failure (unauthenticated invalid_token), guarded)
unfolding serve server_auth_interceptor
estimate_refused = refl
