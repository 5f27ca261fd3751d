-- ===== src/System/Bounded.antt =====
-- A task takes a bounded number of steps: each one lowers a weight of its state.
use pico_proving_service.Prelude.{
  ℕ, zero, suc, ◌+◌, ◌*◌, ◌≤◌, ◌<◌, ◌≡◌, refl, subst, ap, List, [], ◌∷◌, some, Bool, All, All-split,
  length, length-append, arith, Outcome, ok, Result,
}
use pico_proving_service.ProofTree
use pico_proving_service.ProofTree.Tiling.{end_of}
use pico_proving_service.Emulator
use pico_proving_service.Emulator.{send_records, chunk_message}
use pico_proving_service.Gateway.{Gateway, again, emulator_round}
use pico_proving_service.Worker.{Prover, Msg}
use pico_proving_service.Worker.Vm.{PicoVm}
use pico_proving_service.Worker.Attests.{Attests}
use pico_proving_service.System.{
  System, init, Reach, Step, emulated, worked, collected, begin, later,
}
use pico_proving_service.System.Flight.{Fits}
use pico_proving_service.System.Invariant.{Inv, Upcoming, ahead, done, nodes_of}
use pico_proving_service.System.Emulated.{
  emulator_round-chunk, emulator_round-ended, tracked, ended,
}
use pico_proving_service.System.Work.{handle-Work}
use pico_proving_service.System.Reached.{Reach-Inv, Inv-First, First-Takes}

-- Seven for a message of the emulator, three for a node of the tree and for a task, one for a
-- message of a worker.
abbrev pub weight : {vm : PicoVm} → System vm → ℕ
weight s =
    7 * length s.emulator_queue
    + 3 * length (nodes_of s)
    + 3 * length s.requests
    + length s.responses

module _ (vm : PicoVm) (v : Attests vm) (records : List vm.EmulationRecord) (eager : Bool)
    {Err : Type 0} (prove_onchain : vm.EmbedProof → Outcome (Result Err (List ℕ)))
    (w : Prover vm) where
  open vm use {MetaProof, EmbedProof, EmulationRecord}

  abbrev vk : vm.VerifyingKey
  vk = w.riscv_convert.riscv_vk

  -- A message of the emulator adds one node and one task at most.
  emulated_growth :
      (s : System vm) (m : Msg vm) (q out : List (Msg vm)) (g : Gateway MetaProof EmbedProof)
      → Inv vm v records eager vk s
      → Upcoming vm v records eager vk (end_of 0 (nodes_of s)) (m ∷ q)
      → emulator_round s.gateway (some m) ≡ ok (again g out)
      → length g.handler.proof_tree.tree + length out ≤ length (nodes_of s) + 2
  unfolding send_records
  emulated_growth s m q out g inv (done e h) round = cc
  emulated_growth s m q out g inv (ahead [] e d h) round =
      let run = emulator_round-ended vm v records eager vk s.gateway inv.running.no_embed in
      let eg : ended vm v records eager vk s.gateway ≡ g = cc in
      let eo : [] ≡ out = cc in
      let tree = ap (λ (x : Gateway MetaProof EmbedProof). length x.handler.proof_tree.tree) eg in
      omega (arith, ap (λ (x : List (Msg vm)). length x) eo)
  emulated_growth s m q out g inv (ahead (r ∷ rest) e d h) round =
      let k = end_of 0 (nodes_of s) in
      let run = emulator_round-chunk vm v records eager vk s.gateway r inv.tiles in
      let eg : tracked vm v records eager vk s.gateway k ≡ g = cc in
      let eo : chunk_message k r ∷ [] ≡ out = cc in
      let tree = ap (λ (x : Gateway MetaProof EmbedProof). length x.handler.proof_tree.tree) eg in
      omega (
        arith,
        ap (λ (x : List (Msg vm)). length x) eo,
        length-append (nodes_of s) ((k, ProofTree.init) ∷ []),
      )

  pub Step-weight :
      {n : ℕ} {s t : System vm}
      → Inv vm v records eager vk s
      → Step vm prove_onchain w eager n s t
      → weight t < weight s
  Step-weight {s} inv (emulated m q out g e h) =
      let up = subst (Upcoming vm v records eager vk _) e inv.upcoming in
      omega (
        arith,
        ap (λ (x : List (Msg vm)). length x) e,
        length-append s.requests out,
        emulated_growth s m q out g inv up h,
      )
  Step-weight {s} inv (worked before after m r some_prover e h) =
      let fit =
        (All-split _ before (m ∷ after)
          (subst (All (Fits vm v records eager vk (nodes_of s))) e inv.flying.requests_fit)).1.0 in
      omega (
        arith,
        ap (λ (x : List (Msg vm)). length x) e,
        length-append before (m ∷ after),
        length-append before after,
        length-append s.responses r.sent,
        (handle-Work vm v records eager w (nodes_of s) m h fit).few,
      )
  Step-weight {s} inv (collected m rest out g idle e h) =
      let (k, eg, eo) =
        First-Takes vm v records eager prove_onchain w s m rest out g
          (Inv-First vm v records eager prove_onchain w s m rest inv idle e) h in
      let tree = ap (λ (x : Gateway MetaProof EmbedProof). length x.handler.proof_tree.tree) eg in
      omega (
        arith,
        ap (λ (x : List (Msg vm)). length x) e,
        ap (λ (x : List (Msg vm)). length x) eo,
        length-append s.requests out,
        k.size,
      )

  abbrev pub steps : {n : ℕ} {s : System vm} → Reach vm prove_onchain w eager n records s → ℕ
  steps begin = 0
  steps (later r step) = suc (steps r)

  length-send_records :
      (i : ℕ) (rs : List EmulationRecord)
      → length (send_records {P = MetaProof} {E = EmbedProof} i rs) ≡ suc (length rs)
  unfolding send_records
  length-send_records i [] = refl
  length-send_records i (r ∷ rs) = ap suc (length-send_records (suc i) rs)

  length-asks : (n : ℕ) → length (init vm n []).responses ≡ n
  length-asks zero = refl
  length-asks (suc n) = ap suc (length-asks n)

  -- The number of steps that lead to a state, and the weight of the state, together are at most
  -- seven for each chunk and for the end of the emulation, and one for each worker.
  pub steps_bounded :
      {prover_count : ℕ} {s : System vm}
      → (r : Reach vm prove_onchain w eager prover_count records s)
      → steps r + weight s ≤ 7 * suc (length records) + prover_count
  unfolding Emulator.run
  steps_bounded {prover_count} begin =
      omega (arith, length-send_records 0 records, length-asks prover_count)
  steps_bounded (later r step) =
      omega
        (arith, steps_bounded r, Step-weight (Reach-Inv vm v records eager prove_onchain w r) step)
