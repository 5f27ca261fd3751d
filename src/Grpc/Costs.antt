-- ===== src/Grpc/Costs.antt =====
-- Which error an estimate of the cost reports.
use pico_proving_service.Prelude.{
  ℕ, ◌≡◌, ◌↔◌, refl, sym, subst, ◌∙◌, Bool, true, false, none, ok-eq, codec_failed, List, Option,
  some, Outcome, ok, panic, ◌>>=◌, Result, success, failure, ap,
}
use pico_proving_service.Cost.{
  EmulationError, other, PicoError, Estimator, ErrMsg, input_exceeded, EstimatedInfo, read_builder,
  unwrapped, estimator_opts, limited_opts, witness_of, cost_of, info_of, caught, emulated_info,
  estimate_cost,
}
use pico_proving_service.Apps.{Toolchain, App}
use pico_proving_service.Database.{Database}
use pico_proving_service.Grpc.{cost_response}

module _ (tc : Toolchain) (d : Database) (es : Estimator) (task_of_app : App tc → es.Task)
    (to_be_bytes_vec : ℕ → List ℕ) where
  abbrev pub limit_error : ℕ → Option ErrMsg
  limit_error cycles =
      some (record { code = input_exceeded; msg = PicoError.exceeded_cycle_limit cycles })

  -- The builder that the inputs are read as, and the options of the emulation.
  pub data Builds : Option (List ℕ) → es.StdinBuilder → Type 0 where
    fresh : Builds none es.new_builder
    of_bytes :
        (inputs : List ℕ) (b : es.StdinBuilder)
        → es.deserialize inputs ≡ some b
        → Builds (some inputs) b

  pub data Options : Option ℕ → Bool → es.Opts → Type 0 where
    plain : Options none false es.bench_riscv_ops
    estimating : Options none true (es.with_cost_estimator es.bench_riscv_ops)
    limited :
        (max_cycles : ℕ) {cost_estimator : Bool} {opts : es.Opts}
        → Options none cost_estimator opts
        → Options (some max_cycles) cost_estimator (es.with_max_cycles max_cycles opts)

  -- The emulation of an app on its inputs exceeds a number of cycles.
  pub record Exceeds (app : App tc) (inputs : Option (List ℕ)) (max_cycles : Option ℕ)
      (cost_estimator : Bool) (cycles : ℕ) : Type 0 where
    pub builder : es.StdinBuilder
    pub opts : es.Opts
    pub builds : Builds inputs builder
    pub options : Options max_cycles cost_estimator opts
    pub fails :
        es.emulate_snapshot_pipeline
          (es.setup_for_riscv (task_of_app app) (es.finalize builder) opts)
        ≡ ok (failure (EmulationError.exceeded_cycle_limit cycles))

  abbrev opts_of : Option ℕ → Bool → es.Opts
  opts_of max_cycles cost_estimator = limited_opts es max_cycles (estimator_opts es cost_estimator)

  opts_of-Options :
      (max_cycles : Option ℕ) (cost_estimator : Bool)
      → Options max_cycles cost_estimator (opts_of max_cycles cost_estimator)
  opts_of-Options none false = plain
  opts_of-Options none true = estimating
  opts_of-Options (some n) false = limited n plain
  opts_of-Options (some n) true = limited n estimating

  Options-unique :
      {max_cycles : Option ℕ} {cost_estimator : Bool} {opts : es.Opts}
      → Options max_cycles cost_estimator opts
      → opts ≡ opts_of max_cycles cost_estimator
  Options-unique plain = refl
  Options-unique estimating = refl
  Options-unique (limited n o) = ap (es.with_max_cycles n) (Options-unique o)

  read_builder-Builds :
      (inputs : Option (List ℕ)) (b : es.StdinBuilder)
      → read_builder es inputs ≡ ok b
      → Builds inputs b
  read_builder-Builds none b h = subst (Builds none) (ok-eq h) fresh
  read_builder-Builds (some inputs) b h = go (es.deserialize inputs) refl h
    where
      go :
          (o : Option es.StdinBuilder)
          → es.deserialize inputs ≡ o
          → unwrapped es codec_failed o ≡ ok b
          → Builds (some inputs) b
      go none e h = absurd cc
      go (some b') e h = of_bytes inputs b (e ∙ ap some (ok-eq h))

  Builds-read_builder :
      {inputs : Option (List ℕ)} {b : es.StdinBuilder}
      → Builds inputs b
      → read_builder es inputs ≡ ok b
  Builds-read_builder fresh = refl
  Builds-read_builder (of_bytes inputs b h) = rw h refl

  abbrev response : Outcome (Result PicoError EstimatedInfo) → Option ErrMsg
  response o = (cost_response tc d es task_of_app to_be_bytes_vec (caught o)).err

  -- A report of a limit is one of the emulation.
  reported :
      (cost_estimator : Bool) (cycles : ℕ) (r : Result EmulationError (List es.Report × ℕ × List ℕ))
      → response (emulated_info es cost_estimator r) ≡ limit_error cycles
      → r ≡ failure (EmulationError.exceeded_cycle_limit cycles)
  reported b cycles (failure (other e)) h = absurd cc
  reported b cycles (failure (EmulationError.exceeded_cycle_limit c)) h = cc
  reported b cycles (success (reports, total_cycles, pv_stream)) h =
      absurd (go (cost_of es b reports total_cycles) h)
    where
      go :
          (o : Outcome ℕ)
          → response (do cost ← o; ok (success (info_of es cost total_cycles pv_stream)))
            ≡ limit_error cycles
          → ⊥
      go (ok cost) h = absurd cc
      go (panic x) h = absurd cc

  emulation_reported :
      (cost_estimator : Bool) (cycles : ℕ)
      (o : Outcome (Result EmulationError (List es.Report × ℕ × List ℕ)))
      → response (o >>= λ r. emulated_info es cost_estimator r) ≡ limit_error cycles
      → o ≡ ok (failure (EmulationError.exceeded_cycle_limit cycles))
  emulation_reported b cycles (panic x) h = absurd cc
  emulation_reported b cycles (ok r) h = ap ok (reported b cycles r h)

  -- The response to an estimate of the cost reports that the input exceeds a number of cycles
  -- exactly if the emulation failed with that number, from the builder that the inputs are read as
  -- and under the given options: no other error, and no panic, is reported so.
  pub limit_reported :
      (app : App tc) (inputs : Option (List ℕ)) (max_cycles : Option ℕ) (cost_estimator : Bool)
      (cycles : ℕ)
      → Exceeds app inputs max_cycles cost_estimator cycles ↔ (
          (cost_response tc d es task_of_app to_be_bytes_vec
            (estimate_cost es (task_of_app app) inputs max_cycles cost_estimator)).err
          ≡ limit_error cycles)
  unfolding estimate_cost
  limit_reported app inputs max_cycles cost_estimator cycles = (
    λ e.
        let same = Options-unique e.options in
        let fails =
          ap
            (λ o.
              es.emulate_snapshot_pipeline
                (es.setup_for_riscv (task_of_app app) (es.finalize e.builder) o))
            (sym same)
          ∙ e.fails in
        rw (Builds-read_builder e.builds, fails) refl,
    back (read_builder es inputs) refl,
  )
    where
      back :
          (o : Outcome es.StdinBuilder)
          → read_builder es inputs ≡ o
          → response (do
            builder ← o
            r ←
                es.emulate_snapshot_pipeline
                  (witness_of es (task_of_app app) builder max_cycles cost_estimator)
            emulated_info es cost_estimator r)
            ≡ limit_error cycles
          → Exceeds app inputs max_cycles cost_estimator cycles
      back (panic x) read h = absurd cc
      back (ok builder) read h = record {
        builder = builder;
        opts = opts_of max_cycles cost_estimator;
        builds = read_builder-Builds inputs builder read;
        options = opts_of-Options max_cycles cost_estimator;
        fails = emulation_reported cost_estimator cycles _ h;
      }
