-- ===== src/System/Completes.antt =====
-- A task comes to its embed proof.
use pico_proving_service.Prelude.{
  take, ℕ, zero, suc, ◌≤◌, ◌<◌, ◌≡◌, ◌≢◌, subst, List, ◌∷◌, Bool, All, arith, Outcome, ok, panic,
  Panic, Result, emulation_failed, true, false, ◌>>=◌, refl, if◌then◌else◌,
}
use pico_proving_service.ProofTree.Sets.{Nodes}
use pico_proving_service.Messages.{
  riscv, combine, embed, exit, request_task, emulator_complete, close, RiscvMsg, CombineMsg,
  CombineResponse, EmbedResponse,
}
use pico_proving_service.Worker.{Prover, Msg, Reaction, handle, finish}
use pico_proving_service.Worker.Vm.{PicoVm}
use pico_proving_service.Worker.Attests.{Attests}
use pico_proving_service.Worker.Laws.{process-adjacent}
use pico_proving_service.Worker.Failures.{FailsOnly, returned, failed, finish-FailsOnly}
use pico_proving_service.System.{System, Reach, Step, later}
use pico_proving_service.System.Flight.{Fits, Sure}
use pico_proving_service.System.Invariant.{nodes_of}
use pico_proving_service.System.Work.{joint-final}
use pico_proving_service.System.Reached.{Reach-Inv}
use pico_proving_service.System.Liveness.{Next, steps_on, proves, fails, progress}
use pico_proving_service.System.Bounded.{weight, Step-weight}

module _ (vm : PicoVm) (records : List vm.EmulationRecord) (eager : Bool) {Err : Type 0}
    (prove_onchain : vm.EmbedProof → Outcome (Result Err (List ℕ))) (w : Prover vm)
    (prover_count : ℕ) where
  open vm use {EmbedProof}

  abbrev Reached : System vm → Type 0
  Reached s = Reach vm prove_onchain w eager prover_count records s

  -- The steps of a task from one state to another.
  pub data Leads : System vm → System vm → Type 0 where
    here : {s : System vm} → Leads s s
    on :
        {s t u : System vm} → Step vm prove_onchain w eager prover_count s t → Leads t u → Leads s u

  -- Steps lead to a state with an embed proof first.
  pub data Completes (s : System vm) : Type 0 where
    completed :
        (t : System vm) (e : EmbedProof) (rest : List (Msg vm))
        → Leads s t
        → Reached t
        → t.responses ≡ embed e ∷ rest
        → Completes s

-- An outcome that fails in one way only, and not in that way, is a value.
value_of {ℓ} :
    {A : Type ℓ} (x : Panic) (o : Outcome A) → FailsOnly x o → o ≢ panic x → (a : A) × (o ≡ ok a)
value_of x _ (returned a) h = (a, refl)
value_of x _ failed h = absurd (h refl)

module _ (vm : PicoVm) (v : Attests vm) (records : List vm.EmulationRecord) (eager : Bool)
    {Err : Type 0} (prove_onchain : vm.EmbedProof → Outcome (Result Err (List ℕ))) (w : Prover vm)
    (prover_count : ℕ)
    (finishes : (res : CombineResponse vm.MetaProof) (hi : ℕ)
      → v.attested res.proof.inner ≡ take hi records
      → finish vm res ≢ panic emulation_failed) where
  open vm use {MetaProof, EmbedProof}

  finish_value :
      (res : CombineResponse MetaProof) (hi : ℕ)
      → v.attested res.proof.inner ≡ take hi records
      → (e : EmbedResponse EmbedProof) × (finish vm res ≡ ok e)
  finish_value res hi h =
      value_of emulation_failed (finish vm res) (finish-FailsOnly vm res) (finishes res hi h)

  branch :
      (b : Bool) (o : Outcome (EmbedResponse EmbedProof))
      (f : EmbedResponse EmbedProof → Reaction vm) (r : Reaction vm)
      → (b ≡ true → (e : EmbedResponse EmbedProof) × (o ≡ ok e))
      → (if b then (do x ← o; ok (f x)) else ok r) ≢ panic emulation_failed
  branch true o f r made h = let (e, same) = made refl in let g = rw same at h in absurd cc
  branch false o f r made h = cc

  -- A task that fits does not fail.
  no_failure :
      (t : Nodes MetaProof) (m : Msg vm)
      → Fits vm v records eager w.riscv_convert.riscv_vk t m
      → handle vm w m ≢ panic emulation_failed
  unfolding handle
  no_failure t (riscv (RiscvMsg.request q) id ip) f h = cc
  no_failure t (combine (CombineMsg.request q) id ip) f h =
      branch q.flag_complete _ _ _
        (λ flag.
          finish_value _ (suc f.right.end_chunk) (joint-final vm v records eager w t q f flag))
        (rw (process-adjacent vm q f.left f.right v.room f.pair f.adjacent) at h)
  no_failure t (riscv (RiscvMsg.response q) id ip) f h = cc
  no_failure t (combine (CombineMsg.response q) id ip) f h = cc
  no_failure t (embed e) f h = cc
  no_failure t exit f h = cc
  no_failure t request_task f h = cc
  no_failure t emulator_complete f h = cc
  no_failure t (close ip) f h = cc

  Step-Completes :
      {s t : System vm}
      → Step vm prove_onchain w eager prover_count s t
      → Completes vm records eager prove_onchain w prover_count t
      → Completes vm records eager prove_onchain w prover_count s
  Step-Completes step (completed t e rest l r h) = completed t e rest (on step l) r h

  go_on :
      (s : System vm)
      → Reached vm records eager prove_onchain w prover_count s
      → Next vm v records eager prove_onchain w prover_count s
      → ((t : System vm)
          → Reached vm records eager prove_onchain w prover_count t
          → weight t < weight s
          → Completes vm records eager prove_onchain w prover_count t)
      → Completes vm records eager prove_onchain w prover_count s
  go_on s r (proves e rest x) again = completed s e rest here r x
  go_on s r (fails m after x y) again =
      let f = (Reach-Inv vm v records eager prove_onchain w r).flying in
      let fit =
        subst (All (Fits vm v records eager w.riscv_convert.riscv_vk (nodes_of s))) x
          f.requests_fit in
      absurd (no_failure (nodes_of s) m fit.0 y)
  go_on s r (steps_on t step) again =
      let inv = Reach-Inv vm v records eager prove_onchain w r in
      Step-Completes step
        (again t (later r step) (Step-weight vm v records eager prove_onchain w inv step))

  -- Any number of steps is enough that bounds the weight of the state.
  Completes-from :
      0 < prover_count
      → (n : ℕ) (s : System vm) → Reached vm records eager prove_onchain w prover_count s
      → Sure vm v records eager w.riscv_convert.riscv_vk
      → weight s ≤ n
      → Completes vm records eager prove_onchain w prover_count s
  Completes-from some_prover zero s r sure h =
      go_on s r (progress vm v records eager prove_onchain w prover_count some_prover s r sure)
        (λ t rt less. absurd (omega arith))
  Completes-from some_prover (suc n) s r sure h =
      go_on s r (progress vm v records eager prove_onchain w prover_count some_prover s r sure)
        (λ t rt less. Completes-from some_prover n t rt sure (omega arith))

  -- If there are at least two chunks and one prover, an embed proof that attests every record
  -- verifies, and the compress and embed phases do not fail on a proof that attests the first
  -- records, then from every state that a task reaches, steps of the task lead to a state in which
  -- an embed proof waits first for the gateway.
  pub completes :
      0 < prover_count
      → (s : System vm) → Reached vm records eager prove_onchain w prover_count s
      → Sure vm v records eager w.riscv_convert.riscv_vk
      → Completes vm records eager prove_onchain w prover_count s
  completes some_prover s r sure = Completes-from some_prover (weight s) s r sure (omega arith)
