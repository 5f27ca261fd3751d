-- ===== src/Tests/Costs.antt =====
-- An estimate whose emulation exceeds its cycles.
use pico_proving_service.Prelude.{
  ◌*◌, Option, ℕ, ◌≡◌, ◌↔◌, List, [], none, some, refl, ◌∷◌, true, ok, failure,
}
use pico_proving_service.Cost.{EmulationError, Estimator, estimate_cost}
use pico_proving_service.Grpc.{cost_response}
use pico_proving_service.Grpc.Costs.{
  Exceeds, Options, of_bytes, estimating, limit_error, limit_reported,
}
use pico_proving_service.Tests.Apps.{toolchain, database, app}

abbrev limited : Estimator
limited = record {
  Task = Unit;
  StdinBuilder = List ℕ;
  Stdin = List ℕ;
  Opts = Option ℕ;
  Witness = List ℕ;
  Report = ℕ;
  Count = ℕ;
  Model = ℕ;
  new_builder = [];
  deserialize = λ bytes. some bytes;
  finalize = λ b. b;
  bench_riscv_ops = none;
  with_cost_estimator = λ o. o;
  with_max_cycles = λ n o. some n;
  setup_for_riscv = λ _ s _. s;
  emulate_snapshot_pipeline = λ _. ok (failure (EmulationError.exceeded_cycle_limit 9));
  host_cycle_estimator = λ r. some (r ∷ []);
  from_json = λ _. some 1;
  estimate = λ c m. c * m;
  sha256 = λ _. 5;
}

limit_reported_example :
    Exceeds toolchain database limited (λ _. tt) (λ _. []) app none none true 9 ↔ (
      (cost_response toolchain database limited
        (λ _. tt)
        (λ _. [])
        (estimate_cost limited tt none none true)).err
      ≡ limit_error toolchain database limited (λ _. tt) (λ _. []) 9)
limit_reported_example =
    limit_reported toolchain database limited (λ _. tt) (λ _. []) app none none true 9

-- Inputs that are read, with a limit.
exceeded :
    Exceeds toolchain database limited (λ _. tt) (λ _. []) app (some (5 ∷ [])) (some 9) true 9
exceeded = record {
  builder = 5 ∷ [];
  opts = some 9;
  builds = of_bytes (5 ∷ []) (5 ∷ []) refl;
  options = Options.limited 9 estimating;
  fails = refl;
}
