-- ===== src/Tests/Run.antt =====
-- The theorems on a task, on the runs with one worker.
use pico_proving_service.Prelude.{◌≢◌, panic}
use pico_proving_service.Messages.{CombineResponse}
use pico_proving_service.Worker.{finish}
use pico_proving_service.Worker.Recursion
use pico_proving_service.Worker.Vm.{get_vk_root}
use pico_proving_service.Onchain.{Error}
use pico_proving_service.System.Completes.{Completes, completes}
use pico_proving_service.System.Safety.{embed_two_chunks}
use pico_proving_service.Prelude.{
  ℕ, ◌≡◌, ◌≤◌, refl, List, [], ◌∷◌, some, true, false, ok, success, arith,
}
use pico_proving_service.Prelude.{suc, ◌+◌, ◌*◌, ◌⊎◌, length, take, emulation_failed}
use pico_proving_service.Emulator.{chunk_message}
use pico_proving_service.Gateway.{start}
use pico_proving_service.Worker.{Msg}
use pico_proving_service.Worker.Failures.{FailsOnly}
use pico_proving_service.System.Flight.{Sure}
use pico_proving_service.System.Invariant.{nodes_of}
use pico_proving_service.System.Safety.{
  BytesOf, embed_whole, embed_prefix, completion_sent, collected_returns, emulated_goes_on,
  worked-FailsOnly,
}
use pico_proving_service.System.Liveness.{Next, progress, Single, still-Single}
use pico_proving_service.System.Bounded.{steps, weight, steps_bounded}
use pico_proving_service.Messages.{embed, exit, request_task}
use pico_proving_service.Gateway.{Gateway, again, over, emulator_round, worker_round}
use pico_proving_service.Emulator.{send_records, run}
use pico_proving_service.Worker.{handle}
use pico_proving_service.System.{begin, init}
use pico_proving_service.Tests.Example.{
  example_vm, example_attests, example_records, example_prover, example_onchain,
}
use pico_proving_service.Tests.States.{
  one_chunk, converted, combining, embedded, premature, premature_embed, embedded_first,
  combine_task, second_response, converted_first, converted_queue, combining_first,
  one_chunk_emulator_queue, one_chunk_requests, one_chunk_responses,
}

pub example_sure :
    Sure example_vm example_attests example_records true example_prover.riscv_convert.riscv_vk
example_sure = record { several = omega arith; verifies = λ e h. refl }

embed_whole_example : example_attests.embed_attested (70 ∷ 80 ∷ []) ≡ example_records
embed_whole_example =
    embed_whole example_vm example_attests example_records true example_onchain example_prover 1
      embedded.0 (70 ∷ 80 ∷ []) (exit ∷ []) embedded.1 refl embedded_first

completion_sent_example :
    (g : Gateway (List ℕ) (List ℕ)) × (worker_round {R = ℕ} example_onchain embedded.0.gateway
        (some (embed (70 ∷ 80 ∷ [])))
      ≡ ok (over g))
    × ((bytes : List ℕ) × BytesOf {Err = Error} (success (1 ∷ 70 ∷ 80 ∷ [])) bytes
        × (g.completion ≡ bytes ∷ []))
    × (g.has_sender ≡ false)
    × (g.handler.embed_proof ≡ some (70 ∷ 80 ∷ []))
completion_sent_example =
    completion_sent example_vm example_attests example_records true example_onchain example_prover 1
      embedded.0 (70 ∷ 80 ∷ []) (exit ∷ []) (success (1 ∷ 70 ∷ 80 ∷ [])) embedded.1 embedded_first
      refl

progress_example :
    Next example_vm example_attests example_records true example_onchain example_prover 1
      combining.0
progress_example =
    progress example_vm example_attests example_records true example_onchain example_prover 1
      (omega arith) combining.0 combining.1 example_sure

steps_bounded_example :
    steps example_vm example_attests example_records true example_onchain example_prover embedded.1
      + weight embedded.0
    ≤ 7 * suc (length example_records) + 1
steps_bounded_example =
    steps_bounded example_vm example_attests example_records true example_onchain example_prover
      embedded.1

embed_prefix_example :
    (hi : ℕ) × (hi ≤ 3)
    × (example_attests.embed_attested (70 ∷ 80 ∷ []) ≡ take hi (70 ∷ 80 ∷ 90 ∷ []))
embed_prefix_example =
    embed_prefix example_vm example_attests (70 ∷ 80 ∷ 90 ∷ []) false example_onchain example_prover
      1 premature.0 (70 ∷ 80 ∷ []) (exit ∷ []) premature.1 premature_embed

collected_returns_example :
    ((e : List ℕ) × (second_response ≡ embed e))
    ⊎ ((g : Gateway (List ℕ) (List ℕ)) × (out : List (Msg example_vm)) × (worker_round
            example_onchain converted.0.gateway
            (some second_response)
          ≡ ok (again g out)))
collected_returns_example =
    collected_returns example_vm example_attests example_records true example_onchain example_prover
      1 converted.0 second_response (request_task ∷ []) converted.1 (λ _. converted_queue)
      converted_first

emulated_goes_on_example :
    (g : Gateway (List ℕ) (List ℕ)) × (out : List (Msg example_vm)) × (emulator_round start
        (some (chunk_message 0 70))
      ≡ ok (again g out))
unfolding run send_records
emulated_goes_on_example =
    emulated_goes_on example_vm example_attests example_records true example_onchain example_prover
      1 (init example_vm 1 example_records) (chunk_message 0 70) (send_records 1 (80 ∷ [])) begin
      refl

worked-FailsOnly_example :
    FailsOnly emulation_failed (handle example_vm example_prover combine_task)
worked-FailsOnly_example =
    worked-FailsOnly example_vm example_attests example_records true example_onchain example_prover
      1 combining.0 [] [] combine_task combining.1 combining_first

still-Single_example :
    Single example_vm example_attests
      (70 ∷ [])
      true
      example_onchain
      example_prover
      1
      (nodes_of one_chunk.0)
still-Single_example =
    still-Single example_vm example_attests (70 ∷ []) true example_onchain example_prover 1
      one_chunk.0 one_chunk.1 one_chunk_emulator_queue one_chunk_requests one_chunk_responses

pub example_finishes :
    (res : CombineResponse (List ℕ)) (hi : ℕ)
    → res.proof.inner ≡ take hi example_records
    → finish example_vm res ≢ panic emulation_failed
unfolding finish Recursion.compress Recursion.compress_proof Recursion.embed Recursion.embed_proof
    Recursion.prove_with_vk get_vk_root
example_finishes res hi e h = cc

completes_example :
    Completes example_vm example_records true example_onchain example_prover 1 converted.0
completes_example =
    completes example_vm example_attests example_records true example_onchain example_prover 1
      example_finishes (omega arith) converted.0 converted.1 example_sure

embed_two_chunks_example : 2 ≤ length example_records
embed_two_chunks_example =
    embed_two_chunks example_vm example_attests example_records true example_onchain example_prover
      1 embedded.0 (70 ∷ 80 ∷ []) (exit ∷ []) embedded.1 embedded_first
