-- ===== src/Tests/Tree.antt =====
-- The proof tree, the handler and the worker on two chunks.
use pico_proving_service.Prelude.{
  ℕ, suc, ◌≡◌, ◌↔◌, refl, List, [], ◌∷◌, Option, none, some, true, false, ok, arith, to_string,
}
use pico_proving_service.BTreeMap.{get, remove, assign, last_below, first_above}
use pico_proving_service.BTreeMap.Order.{Rising}
use pico_proving_service.ProofTree.{
  IndexedProof, indexed, in_progress, proved, ProofTree, set_proof, index_proofs, store,
}
use pico_proving_service.ProofTree.Stored.{Stored, set_proof-Sets}
use pico_proving_service.ProofTree.Whole.{Pair}
use pico_proving_service.ProofTree.Contract.{
  Grown, set_proof-Grown, set_proof-Pair, set_proof-get_self, set_proof-get_other,
}
use pico_proving_service.ProofTree.Tiling.{Tiles, Answers}
use pico_proving_service.Messages.{
  GatewayMsg, riscv, combine, RiscvMsg, CombineMsg, CombineRequest, CombineResponse,
}
use pico_proving_service.Handler.{GatewayHandler, process, dispatch, respond}
use pico_proving_service.Handler.Answers.{converted, Answered, process-Answered}
use pico_proving_service.Handler.Flag.{process-flag}
use pico_proving_service.Gateway.{Gateway, start}
use pico_proving_service.Worker.{finish}
use pico_proving_service.Worker.Recursion
use pico_proving_service.Worker.Vm.{get_vk_root}
use pico_proving_service.Worker.Laws.{finish-attested}
use pico_proving_service.Tests.Example.{example_vm, example_attests}

abbrev left : IndexedProof (List ℕ)
left = indexed (70 ∷ []) 0 0

abbrev right : IndexedProof (List ℕ)
right = indexed (80 ∷ []) 1 1

abbrev half : ProofTree (List ℕ)
half = record { tree = (0, proved left) ∷ (1, in_progress []) ∷ [] }

abbrev whole : ProofTree (List ℕ)
whole = record { tree = (1, in_progress (left ∷ right ∷ [])) ∷ [] }

abbrev Anything : IndexedProof (List ℕ) → Type 0
Anything p = Unit

abbrev half_handler : GatewayHandler (List ℕ) (List ℕ)
half_handler = record { emulator_complete = false; proof_tree = half; embed_proof = none }

abbrev whole_handler : GatewayHandler (List ℕ) (List ℕ)
whole_handler = record { emulator_complete = false; proof_tree = whole; embed_proof = none }

abbrev whole_gateway : Gateway (List ℕ) (List ℕ)
whole_gateway = record start { handler = whole_handler }

abbrev last_request : CombineRequest (List ℕ)
last_request = record { flag_complete = true; chunk_index = 1; proofs = left ∷ right ∷ [] }

abbrev response : GatewayMsg (List ℕ) ℕ (List ℕ)
response = riscv (RiscvMsg.response (record { chunk_index = 1; proof = right })) (to_string 1) []

half-Rising : Rising 0 half.tree
half-Rising = (omega arith, (omega arith, tt))

whole-Rising : Rising 0 whole.tree
whole-Rising = (omega arith, tt)

half-Tiles : Tiles Anything 0 half.tree
half-Tiles = (((refl, omega arith, tt), omega arith, omega arith), (refl, tt))

right-Answers : Answers Anything 1 (in_progress []) right
right-Answers = (refl, refl, tt)

half_found : get 1 half.tree ≡ some (in_progress [])
unfolding get
half_found = refl

joined : set_proof half 1 right ≡ ok (whole, some (left ∷ right ∷ []))
unfolding set_proof index_proofs store get remove assign last_below first_above
joined = refl

-- A third chunk behind the two.
abbrev longer : ProofTree (List ℕ)
longer = record { tree = (0, proved left) ∷ (1, in_progress []) ∷ (2, in_progress []) ∷ [] }

abbrev longer_joined : ProofTree (List ℕ)
longer_joined = record { tree = (1, in_progress (left ∷ right ∷ [])) ∷ (2, in_progress []) ∷ [] }

joined_longer : set_proof longer 1 right ≡ ok (longer_joined, some (left ∷ right ∷ []))
unfolding set_proof index_proofs store get remove assign last_below first_above
joined_longer = refl

set_proof-Sets_example : Stored half.tree 1 (in_progress []) right
set_proof-Sets_example = set_proof-Sets 0 1 right half.tree half-Rising half_found

set_proof-Grown_example :
    (t' : ProofTree (List ℕ)) × (out : Option (List (IndexedProof (List ℕ)))) × (set_proof half 1
        right
      ≡ ok (t', out))
    × Grown Anything 0 (in_progress []) half t' out
set_proof-Grown_example =
    set_proof-Grown Anything 0 1 right half half-Tiles half_found right-Answers (tt, (tt, tt))

set_proof-Pair_example :
    (a : IndexedProof (List ℕ)) × (b : IndexedProof (List ℕ)) × (left ∷ right ∷ [] ≡ a ∷ b ∷ [])
    × Pair Anything 0 whole.tree a b
set_proof-Pair_example =
    set_proof-Pair Anything 0 1 right half half-Tiles half_found right-Answers whole
      (left ∷ right ∷ []) joined

set_proof-get_self_example : get 1 whole.tree ≡ some (in_progress (left ∷ right ∷ []))
set_proof-get_self_example =
    set_proof-get_self 0 1 right half whole half-Rising whole-Rising half_found joined

set_proof-get_other_example : get 2 longer_joined.tree ≡ some (in_progress [])
unfolding get
set_proof-get_other_example =
    set_proof-get_other 0 1 right longer longer_joined 2 []
      (omega arith, (omega arith, (omega arith, tt))) refl joined_longer (λ e. omega arith) refl

process-Answered_example : Answered half_handler 1 (in_progress []) right response
process-Answered_example =
    process-Answered 0 half_handler 1 right (converted (to_string 1) []) refl half-Rising half_found

answered :
    process half_handler response
    ≡ ok (whole_handler, some (combine (CombineMsg.request last_request) (to_string 1) []))
unfolding process dispatch respond set_proof index_proofs store get remove assign last_below
    first_above
answered = refl

process-flag_example :
    (a : IndexedProof (List ℕ)) × (b : IndexedProof (List ℕ)) × (left ∷ right ∷ [] ≡ a ∷ b ∷ [])
    × (b.start_chunk ≡ suc a.end_chunk)
    × ((true ≡ true) ↔ ((a.start_chunk ≡ 0) × (suc b.end_chunk ≡ 2)))
process-flag_example =
    process-flag Anything 0 half_handler whole_handler 1 right last_request (to_string 1) []
      (converted (to_string 1) []) refl half-Tiles half_found right-Answers answered

abbrev combined : CombineResponse (List ℕ)
combined = record { chunk_index = 1; proof = indexed (70 ∷ 80 ∷ []) 0 1 }

finished :
    finish example_vm combined ≡ ok (record { chunk_index = 1; proof = indexed (70 ∷ 80 ∷ []) 1 1 })
unfolding finish Recursion.compress Recursion.compress_proof Recursion.embed Recursion.embed_proof
    Recursion.prove_with_vk get_vk_root
finished = refl

finish-attested_example : example_attests.embed_attested (70 ∷ 80 ∷ []) ≡ 70 ∷ 80 ∷ []
finish-attested_example = finish-attested example_vm example_attests combined finished
