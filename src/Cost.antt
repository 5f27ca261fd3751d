-- ===== src/Cost.antt =====
-- src/cost_estimation.rs and src/error.rs: the estimation of the cost of a proof, and its errors.
use pico_proving_service.Prelude.{
  Panic, codec_failed, file_failed, no_estimator, none, true, false, text, ap, >>=-eq-ok, ℕ, ◌+◌,
  ◌%◌, ◌^◌, ◌<◌, Bool, List, [], ◌∷◌, Option, some, Text, Outcome, ok, panic, ◌>>=◌, Result,
  success, failure, ◌≡◌, subst, if◌then◌else◌, arith,
}

pub data EmulationError : Type 0 where
  exceeded_cycle_limit : ℕ → EmulationError
  other : Text → EmulationError

pub data PicoError : Type 0 where
  exceeded_cycle_limit : ℕ → PicoError
  internal_error : Text → PicoError

-- `PicoError::from(e)`
abbrev pub from_emulation_error : EmulationError → PicoError
from_emulation_error (EmulationError.exceeded_cycle_limit cycles) =
    PicoError.exceeded_cycle_limit cycles
from_emulation_error (other e) = internal_error e

pub data ErrCode : Type 0 where
  internal input_exceeded : ErrCode

pub record ErrMsg : Type 0 where
  pub code : ErrCode
  pub msg : PicoError

pub record EstimateCostResponse : Type 0 where
  pub err : Option ErrMsg
  pub cost : ℕ
  pub pv_digest : List ℕ

-- `EstimateCostResponse::from(e)`; a message is the error that it prints.
abbrev pub error_response : PicoError → EstimateCostResponse
error_response (PicoError.exceeded_cycle_limit cycles) = record {
  err = some (record { code = input_exceeded; msg = PicoError.exceeded_cycle_limit cycles });
  cost = 0;
  pv_digest = [];
}
error_response (internal_error e) = record {
  err = some (record { code = internal; msg = internal_error e });
  cost = 0;
  pv_digest = [];
}

pub record EstimatedInfo : Type 0 where
  pub cost : ℕ
  pub total_cycles : ℕ
  pub pv_digest : ℕ

-- What pico_vm, bincode and sha2 give: stdin builders and their bytes, the options of an emulation,
-- the emulation of a witness, which may panic, with its reports; the operation counts of a report, if
-- it has them; the model of a file, if it can be read, and the estimate by it; and the digest as a
-- number. `Task` is a program with its keys.
pub record Estimator : Type 1 where
  pub Task : Type 0
  pub StdinBuilder : Type 0
  pub Stdin : Type 0
  pub Opts : Type 0
  pub Witness : Type 0
  pub Report : Type 0
  pub Count : Type 0
  pub Model : Type 0
  pub new_builder : StdinBuilder
  pub deserialize : List ℕ → Option StdinBuilder
  pub finalize : StdinBuilder → Stdin
  pub bench_riscv_ops : Opts
  pub with_cost_estimator : Opts → Opts
  pub with_max_cycles : ℕ → Opts → Opts
  pub setup_for_riscv : Task → Stdin → Opts → Witness
  pub emulate_snapshot_pipeline :
      Witness → Outcome (Result EmulationError (List Report × ℕ × List ℕ))
  pub host_cycle_estimator : Report → Option (List Count)
  pub from_json : Text → Option Model
  pub estimate : Count → Model → ℕ
  pub sha256 : List ℕ → ℕ

-- `catch_unwind`: a panic is an internal error, whose text is left out.
abbrev pub caught : {A : Type 0} → Outcome (Result PicoError A) → Result PicoError A
caught (ok r) = r
caught (panic e) = failure (internal_error [])

module _ (es : Estimator) where
  open es use {Task, StdinBuilder, Stdin, Opts, Witness, Report, Count, Model}

  abbrev pub unwrapped {ℓ} : {A : Type ℓ} → Panic → Option A → Outcome A
  unwrapped x none = panic x
  unwrapped x (some a) = ok a

  -- `inputs.map_or_else(..)`
  abbrev pub read_builder : Option (List ℕ) → Outcome StdinBuilder
  read_builder none = ok es.new_builder
  read_builder (some inputs) = unwrapped codec_failed (es.deserialize inputs)

  abbrev pub estimator_opts : (cost_estimator : Bool) → Opts
  estimator_opts cost_estimator =
      if cost_estimator then es.with_cost_estimator es.bench_riscv_ops else es.bench_riscv_ops

  abbrev pub limited_opts : (max_cycles : Option ℕ) → Opts → Opts
  limited_opts none opts = opts
  limited_opts (some max_cycles) opts = es.with_max_cycles max_cycles opts

  abbrev pub witness_of : Task → StdinBuilder → Option ℕ → Bool → Witness
  witness_of task builder max_cycles cost_estimator =
      es.setup_for_riscv task (es.finalize builder)
        (limited_opts max_cycles (estimator_opts cost_estimator))

  abbrev pub sum_of : Model → List Count → ℕ
  sum_of model [] = 0
  sum_of model (c ∷ cs) = es.estimate c model + sum_of model cs

  -- The sum over the reports, each of which has counts, or the code panics.
  abbrev pub estimates : Model → List Report → Outcome ℕ
  estimates model [] = ok 0
  estimates model (r ∷ rs) =
      let rest = estimates model rs in
      do
        counts ← unwrapped no_estimator (es.host_cycle_estimator r)
        sum ← rest
        ok (sum_of model counts + sum)

  -- The sum wraps around at the width of `usize`.
  abbrev pub cost_of : (cost_estimator : Bool) → List Report → (total_cycles : ℕ) → Outcome ℕ
  cost_of true reports total_cycles = do
    model ← unwrapped file_failed (es.from_json (text "fixtures/model.json"))
    sum ← estimates model reports
    ok (sum % 2 ^ 64)
  cost_of false reports total_cycles = ok total_cycles

  -- The digest is masked to 253 bits.
  abbrev pub info_of : (cost total_cycles : ℕ) → (pv_stream : List ℕ) → EstimatedInfo
  info_of cost total_cycles pv_stream = record {
    cost = cost;
    total_cycles = total_cycles;
    pv_digest = es.sha256 pv_stream % 2 ^ 253;
  }

  abbrev pub emulated_info :
      Bool
      → Result EmulationError (List Report × ℕ × List ℕ)
      → Outcome (Result PicoError EstimatedInfo)
  emulated_info cost_estimator (failure e) = ok (failure (from_emulation_error e))
  emulated_info cost_estimator (success (reports, total_cycles, pv_stream)) = do
    cost ← cost_of cost_estimator reports total_cycles
    ok (success (info_of cost total_cycles pv_stream))

  unfoldable pub estimate_cost :
      Task → Option (List ℕ) → Option ℕ → Bool → Result PicoError EstimatedInfo
  estimate_cost task inputs max_cycles cost_estimator = caught (do
    builder ← read_builder inputs
    r ← es.emulate_snapshot_pipeline (witness_of task builder max_cycles cost_estimator)
    emulated_info cost_estimator r)

  caught-eq-success :
      {A : Type 0} (o : Outcome (Result PicoError A)) {a : A}
      → caught o ≡ success a
      → o ≡ ok (success a)
  caught-eq-success (ok r) h = ap ok h
  caught-eq-success (panic x) h = absurd cc

  -- A cost estimate that is returned has a digest below 2 to the 253.
  pub digest_bound :
      (task : es.Task) (inputs : Option (List ℕ)) (max_cycles : Option ℕ) (cost_estimator : Bool)
      (info : EstimatedInfo)
      → estimate_cost task inputs max_cycles cost_estimator ≡ success info
      → info.pv_digest < 2 ^ 253
  unfolding estimate_cost
  digest_bound task inputs max_cycles cost_estimator info h =
      let (builder, _, h1) = >>=-eq-ok (read_builder inputs) _ (caught-eq-success _ h) in
      let (r, _, h2) =
        >>=-eq-ok (es.emulate_snapshot_pipeline (witness_of task builder max_cycles cost_estimator))
          _ h1 in
      go r h2
    where
      go :
          (r : Result EmulationError (List Report × ℕ × List ℕ))
          → emulated_info cost_estimator r ≡ ok (success info)
          → info.pv_digest < 2 ^ 253
      go (failure e) h = absurd cc
      go (success (reports, total_cycles, pv_stream)) h =
          let (cost, _, made) = >>=-eq-ok (cost_of cost_estimator reports total_cycles) _ h in
          let same : info_of cost total_cycles pv_stream ≡ info = cc in
          subst (λ (x : EstimatedInfo). x.pv_digest < 2 ^ 253) same (omega arith)
