-- ===== src/System/Safety.antt =====
-- What every state of a task guarantees: which rounds return, and what the completion is.
use pico_proving_service.Prelude.{
  ℕ, ◌≤◌, ◌≡◌, refl, sym, subst, ap, ◌∙◌, List, [], ◌∷◌, ◌++◌, some, Bool, true, false, All,
  All-split, arith, length, Outcome, ok, Result, success, failure, ◌⊎◌, inl, inr, emulation_failed,
  take, take_all,
}
use pico_proving_service.Messages.{
  riscv, combine, embed, exit, close, request_task, emulator_complete, RiscvMsg, CombineMsg,
}
use pico_proving_service.Handler.{set_embed_proof}
use pico_proving_service.Gateway.{
  Gateway, again, over, worker_round, emulator_round, send_completion, bytes_or_empty,
}
use pico_proving_service.Worker.{Prover, Msg, handle}
use pico_proving_service.Worker.Vm.{PicoVm}
use pico_proving_service.Worker.Attests.{Attests}
use pico_proving_service.Worker.Failures.{
  FailsOnly, returned, FailsOnly-if, FailsOnly->>=, finish-FailsOnly,
}
use pico_proving_service.ProofTree.Sets.{Nodes}
use pico_proving_service.ProofTree.Tiling.{end_of}
use pico_proving_service.Worker.Laws.{process-adjacent}
use pico_proving_service.System.{System, Reach}
use pico_proving_service.System.Flight.{IsTask, Fits, Good}
use pico_proving_service.System.Invariant.{Inv, ahead, done, nodes_of, Upcoming}
use pico_proving_service.System.Emulated.{
  emulator_round-chunk, emulator_round-ended, tracked, ended,
}
use pico_proving_service.System.Reached.{
  First, last, goes, Inv-First, Reach-Inv, worker_round-embed,
}
use pico_proving_service.Emulator.{send_records, chunk_message}

-- The bytes that stand for the result of an on-chain proof: its own, and none for a failure.
pub data BytesOf {Err : Type 0} : Result Err (List ℕ) → List ℕ → Type 0 where
  of_proof : (bytes : List ℕ) → BytesOf (success bytes) bytes
  of_failure : (e : Err) → BytesOf (failure e) []

pub BytesOf-success :
    {Err : Type 0} {proof bytes : List ℕ}
    → BytesOf {Err = Err} (success proof) bytes
    → bytes ≡ proof
BytesOf-success (of_proof _) = refl

bytes_or_empty-BytesOf : {Err : Type 0} (r : Result Err (List ℕ)) → BytesOf r (bytes_or_empty r)
bytes_or_empty-BytesOf (success bytes) = of_proof bytes
bytes_or_empty-BytesOf (failure e) = of_failure e

module _ (vm : PicoVm) (v : Attests vm) (records : List vm.EmulationRecord) (eager : Bool)
    {Err : Type 0} (prove_onchain : vm.EmbedProof → Outcome (Result Err (List ℕ))) (w : Prover vm)
    (prover_count : ℕ) where
  open vm use {MetaProof, EmbedProof, EmulationRecord}

  abbrev vk : vm.VerifyingKey
  vk = w.riscv_convert.riscv_vk

  abbrev Reached : System vm → Type 0
  Reached s = Reach vm prove_onchain w eager prover_count records s

  -- In every state that a task reaches, the round of the gateway for the next message of the
  -- emulator returns and the loop goes on, without a panic.
  pub emulated_goes_on :
      (s : System vm) (m : Msg vm) (q : List (Msg vm))
      → Reached s
      → s.emulator_queue ≡ m ∷ q
      → (g : Gateway MetaProof EmbedProof) × (out : List (Msg vm)) × (emulator_round s.gateway
            (some m)
          ≡ ok (again g out))
  unfolding send_records
  emulated_goes_on s m q r e =
      let inv = Reach-Inv vm v records eager prove_onchain w r in
      next inv (subst (Upcoming vm v records eager vk _) e inv.upcoming)
    where
      next :
          Inv vm v records eager vk s
          → Upcoming vm v records eager vk (end_of 0 (nodes_of s)) (m ∷ q)
          → (g : Gateway MetaProof EmbedProof) × (out : List (Msg vm)) × (emulator_round s.gateway
                (some m)
              ≡ ok (again g out))
      next inv (done e h) = cc
      next inv (ahead [] e d h) = (
        ended vm v records eager vk s.gateway,
        [],
        (let same : m ≡ emulator_complete = cc in
            subst
              (λ x.
                emulator_round s.gateway (some x)
                ≡ ok (again (ended vm v records eager vk s.gateway) []))
              (sym same)
              (emulator_round-ended vm v records eager vk s.gateway inv.running.no_embed)),
      )
      next inv (ahead (x ∷ rest) e d h) =
          let k = end_of 0 (nodes_of s) in
          let same : m ≡ chunk_message k x = cc in
          (
            tracked vm v records eager vk s.gateway k,
            chunk_message k x ∷ [],
            subst
                (λ y.
                  emulator_round s.gateway (some y)
                  ≡ ok (again (tracked vm v records eager vk s.gateway k) (chunk_message k x ∷ [])))
                (sym same) (emulator_round-chunk vm v records eager vk s.gateway x inv.tiles),
          )

  -- In every state that a task reaches, the round of the gateway for the first response of a worker
  -- (for an eager emulation once its queue is empty) returns and the loop goes on, without a panic,
  -- unless the response is an embed proof.
  pub collected_returns :
      (s : System vm) (m : Msg vm) (rest : List (Msg vm))
      → Reached s
      → (eager ≡ true → s.emulator_queue ≡ [])
      → s.responses ≡ m ∷ rest
      → ((e : EmbedProof) × (m ≡ embed e))
        ⊎ ((g : Gateway MetaProof EmbedProof) × (out : List (Msg vm)) × (worker_round prove_onchain
                s.gateway
                (some m)
              ≡ ok (again g out)))
  collected_returns s m rest r idle e = split m (
      Inv-First vm v records eager prove_onchain w s m rest
        (Reach-Inv vm v records eager prove_onchain w r) idle e)
    where
      split :
          (m : Msg vm)
          → First vm v records eager prove_onchain w s rest m
          → ((e : EmbedProof) × (m ≡ embed e))
            ⊎ ((g : Gateway MetaProof EmbedProof) × (out : List (Msg vm)) × (worker_round
                    prove_onchain s.gateway
                    (some m)
                  ≡ ok (again g out)))
      split _ (last x good) = inl (x, refl)
      split m (goes t) = inr (t.gateway, t.next, t.round)

  answered-FailsOnly :
      (t : Nodes MetaProof) (m : Msg vm)
      → Fits vm v records eager vk t m
      → IsTask m
      → FailsOnly emulation_failed (handle vm w m)
  unfolding handle
  answered-FailsOnly t (riscv (RiscvMsg.request q) id ip) f k = returned _
  answered-FailsOnly t (combine (CombineMsg.request q) id ip) f k =
      rw (process-adjacent vm q f.left f.right v.room f.pair f.adjacent) (
        FailsOnly-if emulation_failed q.flag_complete _ _
          (FailsOnly->>= emulation_failed _ _ (finish-FailsOnly vm _) (λ e. returned _))
          (returned _))
  answered-FailsOnly t (riscv (RiscvMsg.response q) id ip) f k = absurd k
  answered-FailsOnly t (combine (CombineMsg.response q) id ip) f k = absurd k
  answered-FailsOnly t (embed e) f k = absurd k
  answered-FailsOnly t exit f k = absurd k
  answered-FailsOnly t request_task f k = absurd k
  answered-FailsOnly t emulator_complete f k = absurd k
  answered-FailsOnly t (close ip) f k = absurd k

  -- In every state that a task reaches, a worker that takes up any task returns, or panics at a
  -- failed run of a recursion circuit: never at the assertions on the number and the adjacency of
  -- the proofs.
  pub worked-FailsOnly :
      (s : System vm) (before after : List (Msg vm)) (m : Msg vm)
      → Reached s
      → s.requests ≡ before ++ m ∷ after
      → FailsOnly emulation_failed (handle vm w m)
  worked-FailsOnly s before after m r e =
      let f = (Reach-Inv vm v records eager prove_onchain w r).flying in
      let fit = subst (All (Fits vm v records eager vk (nodes_of s))) e f.requests_fit in
      let task = subst (All IsTask) e f.tasks in
      answered-FailsOnly (nodes_of s) m (All-split _ before (m ∷ after) fit).1.0
        (All-split _ before (m ∷ after) task).1.0

  pub embed-Good :
      (s : System vm) (e : EmbedProof) (rest : List (Msg vm))
      → Reached s
      → s.responses ≡ embed e ∷ rest
      → Good vm v records eager vk e
  embed-Good s e rest r h =
      let f = (Reach-Inv vm v records eager prove_onchain w r).flying in
      (subst (All (Fits vm v records eager vk (nodes_of s))) h f.responses_fit).0

  -- In every state that a task reaches, with no assumption on the order of messages, an embed proof
  -- that waits first for the gateway attests the execution records of the first chunks, up to some
  -- number of them.
  pub embed_prefix :
      (s : System vm) (e : EmbedProof) (rest : List (Msg vm))
      → Reached s
      → s.responses ≡ embed e ∷ rest
      → (hi : ℕ) × (hi ≤ length records) × (v.embed_attested e ≡ take hi records)
  embed_prefix s e rest r h = let g = embed-Good s e rest r h in (g.hi, g.final.within, g.exact)

  -- In every state that a task reaches, if an embed proof waits first for the gateway, then there
  -- are at least two chunks: a program of one chunk gets none.
  pub embed_two_chunks :
      (s : System vm) (e : EmbedProof) (rest : List (Msg vm))
      → Reached s
      → s.responses ≡ embed e ∷ rest
      → 2 ≤ length records
  embed_two_chunks s e rest r h =
      let g = embed-Good s e rest r h in omega (arith, g.many, g.final.within)

  -- If the emulation is quicker than every worker, then in every state that a task reaches, an
  -- embed proof that waits first for the gateway attests the execution records of all chunks, in
  -- order. The proofs of pico_vm are taken to attest what they are made from.
  pub embed_whole :
      (s : System vm) (e : EmbedProof) (rest : List (Msg vm))
      → Reached s
      → eager ≡ true
      → s.responses ≡ embed e ∷ rest
      → v.embed_attested e ≡ records
  embed_whole s e rest r quick h =
      let g = embed-Good s e rest r h in
      g.exact ∙ ap (λ n. take n records) (g.final.total quick) ∙ take_all records

  -- In every state that a task reaches, if an embed proof waits first and its on-chain proof
  -- returns a result, then the round that takes it up ends the loop, the completion has been sent
  -- exactly once, with the bytes of that result (none for a failure), the sender is gone, and the
  -- embed proof is kept.
  pub completion_sent :
      (s : System vm) (e : EmbedProof) (rest : List (Msg vm)) (r : Result Err (List ℕ))
      → Reached s
      → s.responses ≡ embed e ∷ rest
      → prove_onchain e ≡ ok r
      → (g : Gateway MetaProof EmbedProof) × (worker_round {R = EmulationRecord} prove_onchain
            s.gateway
            (some (embed e))
          ≡ ok (over g))
        × ((bytes : List ℕ) × BytesOf r bytes × (g.completion ≡ bytes ∷ []))
        × (g.has_sender ≡ false)
        × (g.handler.embed_proof ≡ some e)
  completion_sent s e rest r reached h made =
      let run = (Reach-Inv vm v records eager prove_onchain w reached).running in
      (
        send_completion (record (s.gateway) { handler = set_embed_proof s.gateway.handler e })
            (bytes_or_empty r),
        worker_round-embed prove_onchain s.gateway e ∙ (rw made refl),
        (bytes_or_empty r, bytes_or_empty-BytesOf r, rw (run.sender, run.unsent) refl),
        rw run.sender refl,
        rw run.sender refl,
      )
