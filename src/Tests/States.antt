-- ===== src/Tests/States.antt =====
-- Runs with one worker: one chunk, two chunks, and three of which the last one is late.
use pico_proving_service.Prelude.{arith, ℕ, ◌≡◌, refl, List, [], ◌∷◌, Bool, true, false}
use pico_proving_service.Prelude.{to_string}
use pico_proving_service.ProofTree.{IndexedProof, indexed}
use pico_proving_service.Worker.{Msg}
use pico_proving_service.Messages.{embed, exit, request_task, CombineMsg, RiscvMsg, riscv, combine}
use pico_proving_service.BTreeMap.{get, insert, remove, assign, last_below, first_above}
use pico_proving_service.ProofTree.{init_node, index_proofs, store, set_proof}
use pico_proving_service.Handler.{process_riscv_req, process, dispatch, respond}
use pico_proving_service.Gateway.{emulator_round, worker_round, handle_result}
use pico_proving_service.Emulator.{send_records, run}
use pico_proving_service.Worker.{new, handle, finish, deliver}
use pico_proving_service.Worker.RiscvConvert
use pico_proving_service.Worker.Combine
use pico_proving_service.Worker.Recursion
use pico_proving_service.Worker.Vm.{get_vk_root}
use pico_proving_service.System.{System, Reach, begin, later, emulated, worked, collected}
use pico_proving_service.Tests.Example.{
  example_vm, example_records, example_prover, example_onchain,
}

abbrev Reached : List ℕ → Bool → System example_vm → Type 0
Reached records eager s = Reach example_vm example_onchain example_prover eager 1 records s

-- One chunk: no message is left, and no embed proof was made.
pub one_chunk : (s : System example_vm) × Reached (70 ∷ []) true s
unfolding init_node insert get remove assign last_below first_above index_proofs store set_proof
    process_riscv_req process dispatch respond emulator_round worker_round handle_result
    send_records run new handle finish deliver RiscvConvert.new RiscvConvert.process Combine.process
    Recursion.compress Recursion.compress_proof Recursion.embed Recursion.embed_proof
    Recursion.prove_with_vk get_vk_root
one_chunk = (
  _,
  later
      (later
        (later
          (later (later (later (begin) (emulated _ _ _ _ refl refl)) (emulated _ _ _ _ refl refl))
            (collected _ _ _ _ (λ _. refl) refl refl))
          (worked [] _ _ _ (omega arith) refl refl))
        (collected _ _ _ _ (λ _. refl) refl refl))
      (collected _ _ _ _ (λ _. refl) refl refl),
)

-- Two chunks, up to the response for the second one.
pub converted : (s : System example_vm) × Reached example_records true s
unfolding init_node insert get remove assign last_below first_above index_proofs store set_proof
    process_riscv_req process dispatch respond emulator_round worker_round handle_result
    send_records run new handle finish deliver RiscvConvert.new RiscvConvert.process Combine.process
    Recursion.compress Recursion.compress_proof Recursion.embed Recursion.embed_proof
    Recursion.prove_with_vk get_vk_root
converted = (
  _,
  later
      (later
        (later
          (later
            (later
              (later
                (later (later (begin) (emulated _ _ _ _ refl refl)) (emulated _ _ _ _ refl refl))
                (emulated _ _ _ _ refl refl))
              (collected _ _ _ _ (λ _. refl) refl refl))
            (worked [] _ _ _ (omega arith) refl refl))
          (worked [] _ _ _ (omega arith) refl refl))
        (collected _ _ _ _ (λ _. refl) refl refl))
      (collected _ _ _ _ (λ _. refl) refl refl),
)

-- The task to combine them is sent.
pub combining : (s : System example_vm) × Reached example_records true s
unfolding converted init_node insert get remove assign last_below first_above index_proofs store
    set_proof process_riscv_req process dispatch respond emulator_round worker_round handle_result
    send_records run new handle finish deliver RiscvConvert.new RiscvConvert.process Combine.process
    Recursion.compress Recursion.compress_proof Recursion.embed Recursion.embed_proof
    Recursion.prove_with_vk get_vk_root
combining = (_, later (converted.1) (collected _ _ _ _ (λ _. refl) refl refl))

-- The worker's embed proof comes first.
pub embedded : (s : System example_vm) × Reached example_records true s
unfolding converted combining init_node insert get remove assign last_below first_above index_proofs
    store set_proof process_riscv_req process dispatch respond emulator_round worker_round
    handle_result send_records run new handle finish deliver RiscvConvert.new RiscvConvert.process
    Combine.process Recursion.compress Recursion.compress_proof Recursion.embed
    Recursion.embed_proof Recursion.prove_with_vk get_vk_root
embedded = (
  _,
  later (later (combining.1) (worked [] _ _ _ (omega arith) refl refl))
      (collected _ _ _ _ (λ _. refl) refl refl),
)

-- Three chunks, of which the third is late: two are combined as if they were all.
pub premature : (s : System example_vm) × Reached (70 ∷ 80 ∷ 90 ∷ []) false s
unfolding init_node insert get remove assign last_below first_above index_proofs store set_proof
    process_riscv_req process dispatch respond emulator_round worker_round handle_result
    send_records run new handle finish deliver RiscvConvert.new RiscvConvert.process Combine.process
    Recursion.compress Recursion.compress_proof Recursion.embed Recursion.embed_proof
    Recursion.prove_with_vk get_vk_root
premature = (
  _,
  later
      (later
        (later
          (later
            (later
              (later
                (later
                  (later
                    (later (later (begin) (emulated _ _ _ _ refl refl))
                      (emulated _ _ _ _ refl refl))
                    (collected _ _ _ _ (λ e. absurd cc) refl refl))
                  (worked [] _ _ _ (omega arith) refl refl))
                (worked [] _ _ _ (omega arith) refl refl))
              (collected _ _ _ _ (λ e. absurd cc) refl refl))
            (collected _ _ _ _ (λ e. absurd cc) refl refl))
          (collected _ _ _ _ (λ e. absurd cc) refl refl))
        (worked [] _ _ _ (omega arith) refl refl))
      (collected _ _ _ _ (λ e. absurd cc) refl refl),
)

pub premature_embed : premature.0.responses ≡ embed (70 ∷ 80 ∷ []) ∷ exit ∷ []
unfolding premature init_node insert get remove assign last_below first_above index_proofs store
    set_proof process_riscv_req process dispatch respond emulator_round worker_round handle_result
    send_records run new handle finish deliver RiscvConvert.new RiscvConvert.process Combine.process
    Recursion.compress Recursion.compress_proof Recursion.embed Recursion.embed_proof
    Recursion.prove_with_vk get_vk_root
premature_embed = refl

pub embedded_first : embedded.0.responses ≡ embed (70 ∷ 80 ∷ []) ∷ exit ∷ []
unfolding converted combining embedded init_node insert get remove assign last_below first_above
    index_proofs store set_proof process_riscv_req process dispatch respond emulator_round
    worker_round handle_result send_records run new handle finish deliver RiscvConvert.new
    RiscvConvert.process Combine.process Recursion.compress Recursion.compress_proof Recursion.embed
    Recursion.embed_proof Recursion.prove_with_vk get_vk_root
embedded_first = refl

abbrev pub two : List (IndexedProof (List ℕ))
two = indexed (70 ∷ []) 0 0 ∷ indexed (80 ∷ []) 1 1 ∷ []

abbrev pub combine_task : Msg example_vm
combine_task =
    combine (CombineMsg.request (record { flag_complete = true; chunk_index = 1; proofs = two }))
      (to_string 1) []

abbrev pub second_response : Msg example_vm
second_response =
    riscv (RiscvMsg.response (record { chunk_index = 1; proof = indexed (80 ∷ []) 1 1 }))
      (to_string 1) []

pub converted_first : converted.0.responses ≡ second_response ∷ request_task ∷ []
unfolding converted init_node insert get remove assign last_below first_above index_proofs store
    set_proof process_riscv_req process dispatch respond emulator_round worker_round handle_result
    send_records run new handle finish deliver RiscvConvert.new RiscvConvert.process Combine.process
    Recursion.compress Recursion.compress_proof Recursion.embed Recursion.embed_proof
    Recursion.prove_with_vk get_vk_root
converted_first = refl

pub converted_queue : converted.0.emulator_queue ≡ []
unfolding converted init_node insert get remove assign last_below first_above index_proofs store
    set_proof process_riscv_req process dispatch respond emulator_round worker_round handle_result
    send_records run new handle finish deliver RiscvConvert.new RiscvConvert.process Combine.process
    Recursion.compress Recursion.compress_proof Recursion.embed Recursion.embed_proof
    Recursion.prove_with_vk get_vk_root
converted_queue = refl

pub combining_first : combining.0.requests ≡ combine_task ∷ []
unfolding converted combining init_node insert get remove assign last_below first_above index_proofs
    store set_proof process_riscv_req process dispatch respond emulator_round worker_round
    handle_result send_records run new handle finish deliver RiscvConvert.new RiscvConvert.process
    Combine.process Recursion.compress Recursion.compress_proof Recursion.embed
    Recursion.embed_proof Recursion.prove_with_vk get_vk_root
combining_first = refl

pub one_chunk_emulator_queue : one_chunk.0.emulator_queue ≡ []
unfolding one_chunk init_node insert get remove assign last_below first_above index_proofs store
    set_proof process_riscv_req process dispatch respond emulator_round worker_round handle_result
    send_records run new handle finish deliver RiscvConvert.new RiscvConvert.process Combine.process
    Recursion.compress Recursion.compress_proof Recursion.embed Recursion.embed_proof
    Recursion.prove_with_vk get_vk_root
one_chunk_emulator_queue = refl

pub one_chunk_requests : one_chunk.0.requests ≡ []
unfolding one_chunk init_node insert get remove assign last_below first_above index_proofs store
    set_proof process_riscv_req process dispatch respond emulator_round worker_round handle_result
    send_records run new handle finish deliver RiscvConvert.new RiscvConvert.process Combine.process
    Recursion.compress Recursion.compress_proof Recursion.embed Recursion.embed_proof
    Recursion.prove_with_vk get_vk_root
one_chunk_requests = refl

pub one_chunk_responses : one_chunk.0.responses ≡ []
unfolding one_chunk init_node insert get remove assign last_below first_above index_proofs store
    set_proof process_riscv_req process dispatch respond emulator_round worker_round handle_result
    send_records run new handle finish deliver RiscvConvert.new RiscvConvert.process Combine.process
    Recursion.compress Recursion.compress_proof Recursion.embed Recursion.embed_proof
    Recursion.prove_with_vk get_vk_root
one_chunk_responses = refl
