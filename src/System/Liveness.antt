-- ===== src/System/Liveness.antt =====
-- What a task that stands still has proved, and how many answers it takes.
use pico_proving_service.Prelude.{
  ◌<◌, ℕ, suc, ◌≤◌, ◌≡◌, refl, subst, ap, ◌∙◌, List, [], ◌∷◌, Bool, length, arith, slice, take,
  take_all, Outcome, panic, Result, emulation_failed, inl, inr,
}
use pico_proving_service.ProofTree.{IndexedProof, in_progress, proved}
use pico_proving_service.ProofTree.Sets.{Nodes}
use pico_proving_service.ProofTree.Tiling.{Tiles, end_of}
use pico_proving_service.ProofTree.Pending.{pending}
use pico_proving_service.ProofTree.Settled.{Settled-length}
use pico_proving_service.ProofTree.Open.{open_at, pending_of_open_at}
use pico_proving_service.Emulator.{send_records}
use pico_proving_service.Worker.{Prover, Msg, Reaction, handle}
use pico_proving_service.Worker.Vm.{PicoVm}
use pico_proving_service.Worker.Attests.{Attests}
use pico_proving_service.System.{System, Reach, Step, emulated, worked, collected}
use pico_proving_service.System.Safety.{emulated_goes_on, collected_returns, worked-FailsOnly}
use pico_proving_service.Worker.Failures.{FailsOnly, returned, failed}
use pico_proving_service.Messages.{embed}
use pico_proving_service.System.Flight.{IsExact, Sure, in_flight}
use pico_proving_service.System.Invariant.{Upcoming, ahead, done, nodes_of, embeds}
use pico_proving_service.System.Reached.{Reach-Inv}

module _ (vm : PicoVm) (v : Attests vm) (records : List vm.EmulationRecord) (eager : Bool)
    {Err : Type 0} (prove_onchain : vm.EmbedProof → Outcome (Result Err (List ℕ))) (w : Prover vm)
    (prover_count : ℕ) where
  open vm use {MetaProof, EmbedProof, EmulationRecord}

  abbrev Known : IndexedProof MetaProof → Type 0
  Known = IsExact vm v records eager w.riscv_convert.riscv_vk

  -- No chunks, or one proof that attests every record.
  pub data Single : Nodes MetaProof → Type 0 where
    none_proved : length records ≡ 0 → Single []
    one_proved :
        (k : ℕ) (p : IndexedProof MetaProof)
        → p.start_chunk ≡ 0
        → suc p.end_chunk ≡ length records
        → v.attested p.inner ≡ records
        → Single ((k, proved p) ∷ [])

  -- A tree of one proof that covers every chunk, or of no chunks.
  data Still : Nodes MetaProof → Type 0 where
    nothing : length records ≡ 0 → Still []
    single :
        (k : ℕ) (p : IndexedProof MetaProof)
        → p.start_chunk ≡ 0
        → suc p.end_chunk ≡ length records
        → Known p
        → Still ((k, proved p) ∷ [])

  still :
      (t : Nodes MetaProof)
      → Tiles Known 0 t
      → length t ≤ 1
      → pending t ≡ 0
      → end_of 0 t ≡ length records
      → Still t
  still [] t h p e = nothing (omega arith)
  still ((k, proved p) ∷ []) t h _ e = single k p t.0.0.0 e t.0.0.2
  still ((k, in_progress ps) ∷ []) t h p e = absurd (omega arith)
  still (_ ∷ _ ∷ _) t h p e = absurd (omega arith)

  all_emulated :
      (hi : ℕ) → Upcoming vm v records eager w.riscv_convert.riscv_vk hi [] → hi ≡ length records
  unfolding send_records
  all_emulated hi (done e h) = h
  all_emulated hi (ahead [] e d h) = cc
  all_emulated hi (ahead (r ∷ rest) e d h) = cc

  Reach-Still :
      (s : System vm)
      → Reach vm prove_onchain w eager prover_count records s
      → s.emulator_queue ≡ []
      → s.requests ≡ []
      → s.responses ≡ []
      → Still (nodes_of s)
  Reach-Still s r e e' e'' =
      let inv = Reach-Inv vm v records eager prove_onchain w r in
      let none_open : (i : ℕ) → open_at i (nodes_of s) ≡ 0 = λ i.
        (let count = inv.flying.exactly (ap embeds e'') i in
          let zero_requests = ap (in_flight i) e' in
          let zero_responses = ap (in_flight i) e'' in omega arith) in
      let idle = pending_of_open_at (nodes_of s) none_open in
      still (nodes_of s) inv.tiles (Settled-length (nodes_of s) inv.settled idle) idle (
        all_emulated _
          (subst (Upcoming vm v records eager w.riscv_convert.riscv_vk _) e inv.upcoming))

  attests_all :
      (p : IndexedProof MetaProof)
      → p.start_chunk ≡ 0
      → suc p.end_chunk ≡ length records
      → Known p
      → v.attested p.inner ≡ records
  attests_all p low high known =
      known.exact
      ∙ ap (λ k. slice records k (suc p.end_chunk)) low
      ∙ ap (λ n. take n records) {y = length records} (omega (arith, high))
      ∙ take_all records

  as_Single : (t : Nodes MetaProof) → Still t → Single t
  as_Single _ (nothing h) = none_proved h
  as_Single _ (single k p low high known) = one_proved k p low high (attests_all p low high known)

  -- If no message is left anywhere in a state that a task reaches, then there are no chunks and the
  -- proof tree is empty, or the tree holds one proof that attests every record.
  pub still-Single :
      (s : System vm)
      → Reach vm prove_onchain w eager prover_count records s
      → s.emulator_queue ≡ []
      → s.requests ≡ []
      → s.responses ≡ []
      → Single (nodes_of s)
  still-Single s r e e' e'' = as_Single (nodes_of s) (Reach-Still s r e e' e'')

  not_Still : (t : Nodes MetaProof) → Sure vm v records eager w.riscv_convert.riscv_vk → ¬ (Still t)
  not_Still _ sure (nothing h) = omega (arith, sure.several)
  not_Still _ sure (single k p low high known) = known.part sure (low, high)

  -- What comes next.
  pub data Next (s : System vm) : Type 0 where
    steps_on : (t : System vm) → Step vm prove_onchain w eager prover_count s t → Next s
    proves : (e : EmbedProof) (rest : List (Msg vm)) → s.responses ≡ embed e ∷ rest → Next s
    fails :
        (m : Msg vm) (after : List (Msg vm))
        → s.requests ≡ m ∷ after
        → handle vm w m ≡ panic emulation_failed
        → Next s

  -- If there are at least two chunks and one prover, and an embed proof that attests every record
  -- verifies, then every state that a task reaches has a next step, or an embed proof waits first
  -- for the gateway, or the first worker task ends in a failed run of a recursion circuit.
  pub progress :
      0 < prover_count
      → (s : System vm) → Reach vm prove_onchain w eager prover_count records s
      → Sure vm v records eager w.riscv_convert.riscv_vk
      → Next s
  progress some_prover s r sure = emulate s.emulator_queue refl
    where
      answer_first :
          s.emulator_queue ≡ []
          → (out : List (Msg vm)) → s.requests ≡ out
          → s.responses ≡ []
          → Next s
      answer_first e [] e' e'' = absurd (not_Still (nodes_of s) sure (Reach-Still s r e e' e''))
      answer_first e (m ∷ after) e' e'' =
          go (handle vm w m) refl
            (worked-FailsOnly vm v records eager prove_onchain w prover_count s [] after m r e')
        where
          go :
              (o : Outcome (Reaction vm))
              → handle vm w m ≡ o
              → FailsOnly emulation_failed o
              → Next s
          go _ h (returned x) = steps_on _ (worked [] after m x some_prover e' h)
          go _ h failed = fails m after e' h

      collect : s.emulator_queue ≡ [] → (q : List (Msg vm)) → s.responses ≡ q → Next s
      collect e [] e' = answer_first e s.requests refl e'
      collect e (m ∷ rest) e' =
          elim (collected_returns vm v records eager prove_onchain w prover_count s m rest r
            (λ _. e) e') [
              | inl (x, same) ↦ proves x rest (e' ∙ ap (λ y. y ∷ rest) same)
              | inr (g, out, h) ↦ steps_on _ (collected m rest out g (λ _. e) e' h)
            ]

      emulate : (q : List (Msg vm)) → s.emulator_queue ≡ q → Next s
      emulate [] e = collect e s.responses refl
      emulate (m ∷ q) e =
          let (g, out, h) =
            emulated_goes_on vm v records eager prove_onchain w prover_count s m q r e in
          steps_on _ (emulated m q out g e h)
