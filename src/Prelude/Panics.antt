-- ===== src/Prelude/Panics.antt =====
-- Code that may panic: an assertion, an `unwrap`, an `expect` or a `panic!` of the source.
use mathlib.Core.Path.{◌≡◌, refl}

-- The places of the source that can panic, one constructor each.
pub data Panic : Type 0 where
  initialized_twice : Panic  -- `assert!(old.is_none(), ..)` in `ProofTree::init_node`
  missing_node : Panic  -- `get_mut(&index).unwrap()` in `ProofTree::set_proof`
  unexpected_message : Panic  -- `panic!("unexpected message in process_riscv_req")`
  unsupported : Panic  -- the `panic!("unsupported")` arms
  not_two_proofs : Panic  -- `assert_eq!(proofs.len(), 2)` in `GatewayHandler::process`
  too_many_proofs : Panic  -- `assert!(proofs.len() <= COMBINE_SIZE)` in `CombineProver::process`
  out_of_bounds : Panic  -- `proofs[0]`, `proofs[1]`
  not_adjacent : Panic  -- `assert_eq!(end_a + 1, start_b, ..)` in `CombineProver::process`
  emulation_failed : Panic  -- `runtime.run().unwrap()` in the compress and embed provers
  unimplemented : Panic  -- `Prover::new_cuda`, `Prover::run_cuda`
  missing_gnark_files : Panic  -- `panic!` in `ensure_gnark_downloads`
  wrong_value_count : Panic  -- `assert_eq!(values.len(), 10, ..)` in `decode_gnark_proof_to_bytes`
  bad_hex : Panic  -- `expect("failed to convert a hex string ..")` there
  wrong_byte_count : Panic  -- `assert_eq!(bytes.len(), 320, ..)` there
  unexpected_task : Panic  -- `assert!(no_task.is_none())` in the gateway loop
  padding_failed : Panic  -- `expect("cannot padding preprocessed shape")` in `App::new`
  bad_app_id : Panic  -- `assert_eq!(app_id.len(), 66, ..)` there
  codec_failed : Panic  -- `bincode::serialize(..).unwrap()`, `bincode::deserialize(..).unwrap()`
  file_failed : Panic  -- a file of `gen_input_example` or of `EstimatorModel::from_json`
  no_estimator : Panic  -- `r.host_cycle_estimator.unwrap()` in `estimate_cost`
  program_shared : Panic  -- `expect("cannot get program")` in `App::new`
  zero_divisor : Panic  -- `header.number % cli.block_interval` in `test_reth_prove`

pub data Outcome {ℓ} (A : Type ℓ) : Type ℓ where
  ok : A → Outcome A
  panic : Panic → Outcome A

infixl 5 ◌>>=◌
abbrev pub ◌>>=◌ {ℓ κ} : {A : Type ℓ} {B : Type κ} → Outcome A → (A → Outcome B) → Outcome B
ok a >>= f = f a
panic e >>= f = panic e

-- A bind that returned: what its first part returned, and what the rest made of it.
pub >>=-eq-ok {ℓ κ} :
    {A : Type ℓ} {B : Type κ} (first : Outcome A) (rest : A → Outcome B) {end : B}
    → (first >>= rest) ≡ ok end
    → (mid : A) × (first ≡ ok mid) × (rest mid ≡ ok end)
>>=-eq-ok (panic e) rest run = cc
>>=-eq-ok (ok mid) rest run = (mid, refl, run)

pub map-eq-ok {ℓ κ} :
    {A : Type ℓ} {B : Type κ} (m : Outcome A) (f : A → B) {b : B}
    → (m >>= λ a. ok (f a)) ≡ ok b
    → (a : A) × (m ≡ ok a) × (f a ≡ b)
map-eq-ok (ok a) f h = (a, refl, cc)
map-eq-ok (panic e) f h = cc

-- A Rust `Result`, and code that may return an error or panic.
pub data Result {ℓ κ} (E : Type ℓ) (A : Type κ) : Type (ℓ ⊔ κ) where
  success : A → Result E A
  failure : E → Result E A

-- The rest of a function after `?`.
abbrev pub and_then {ℓ κ} :
    {E : Type ℓ} {A B : Type κ}
    → Outcome (Result E A)
    → (A → Outcome (Result E B))
    → Outcome (Result E B)
and_then (ok (success a)) f = f a
and_then (ok (failure e)) f = ok (failure e)
and_then (panic e) f = panic e

pub >>=-map {ℓ κ} :
    {A : Type ℓ} {B : Type κ} {C : Type κ} (m : Outcome A) (f : A → B) (g : B → Outcome C)
    → ((m >>= λ a. ok (f a)) >>= g) ≡ (m >>= λ a. g (f a))
>>=-map (ok a) f g = refl
>>=-map (panic e) f g = refl

-- The same for code that does not panic.
abbrev pub on_success {ℓ κ} :
    {E : Type ℓ} {A B : Type κ} → Result E A → (A → Result E B) → Result E B
on_success (success a) f = f a
on_success (failure e) f = failure e

pub ok-eq {ℓ} : {A : Type ℓ} {a b : A} → ◌≡◌ {A = Outcome A} (ok a) (ok b) → a ≡ b
ok-eq h = cc

pub success-eq {ℓ κ} :
    {E : Type ℓ} {A : Type κ} {a b : A} → ◌≡◌ {A = Result E A} (success a) (success b) → a ≡ b
success-eq h = cc

-- A chain of `?` that succeeded.
pub and_then-eq-success {ℓ κ} :
    {E : Type ℓ} {A B : Type κ} (first : Outcome (Result E A)) (rest : A → Outcome (Result E B))
    {end : B}
    → and_then first rest ≡ ok (success end)
    → (mid : A) × (first ≡ ok (success mid)) × (rest mid ≡ ok (success end))
and_then-eq-success (ok (success mid)) rest run = (mid, refl, run)
and_then-eq-success (ok (failure e)) rest run = cc
and_then-eq-success (panic x) rest run = cc
