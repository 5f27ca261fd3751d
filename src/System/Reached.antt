-- ===== src/System/Reached.antt =====
-- The invariant of a task holds in every state that its steps lead to.
use mathlib.Core.Path.{subst₂}
use pico_proving_service.Prelude.{
  ℕ, zero, suc, ◌≡◌, refl, sym, subst, ◌∙◌, List, [], ◌∷◌, some, Bool, true, All, arith, Outcome,
  ok, panic, ◌>>=◌, Result, >>=-map,
}
use pico_proving_service.Messages.{
  riscv, combine, embed, exit, close, request_task, emulator_complete, RiscvMsg, CombineMsg,
}
use pico_proving_service.Handler.{process, dispatch, respond, set_embed_proof}
use pico_proving_service.Handler.Answers.{converted, combined}
use pico_proving_service.Gateway.{
  Gateway, Round, again, over, worker_round, handle_result, send_completion, bytes_or_empty,
}
use pico_proving_service.Emulator
use pico_proving_service.Worker.{Prover, Msg}
use pico_proving_service.Worker.Vm.{PicoVm}
use pico_proving_service.Worker.Attests.{Attests}
use pico_proving_service.System.{
  System, init, Step, emulated, worked, collected, Reach, begin, later,
}
use pico_proving_service.System.Flight.{in_flight, Guarded, Fits, Good}
use pico_proving_service.System.Invariant.{Inv, ahead, nodes_of, Upcoming}
use pico_proving_service.System.Emulated.{Inv-emulated}
use pico_proving_service.System.Worked.{Inv-worked}
use pico_proving_service.System.Collected.{Takes, taken, answer-Takes, ask-Takes}

-- The round for an embed proof is the on-chain proof of it, followed by the end of the loop with
-- the embed proof kept and the completion sent if the sender is still there.
pub worker_round-embed :
    {P R E Err : Type 0} (prove : E → Outcome (Result Err (List ℕ))) (g : Gateway P E) (e : E)
    → worker_round {R = R} prove g (some (embed e)) ≡ (
        prove e >>= λ r. ok (
          over (
            send_completion
              (record g { handler = set_embed_proof g.handler e })
              (bytes_or_empty r))))
unfolding worker_round handle_result process dispatch respond
worker_round-embed prove g e = >>=-map (prove e) bytes_or_empty _

module _ (vm : PicoVm) where
  asks_in_flight : (n i : ℕ) → in_flight i (init vm n []).responses ≡ 0
  asks_in_flight zero i = refl
  asks_in_flight (suc n) i = omega (arith, asks_in_flight n i)

  asks-Guarded : (n : ℕ) → Guarded (init vm n []).responses
  asks-Guarded zero = tt
  asks-Guarded (suc n) = asks-Guarded n

module _ (vm : PicoVm) (v : Attests vm) (records : List vm.EmulationRecord) (eager : Bool) where
  open vm use {MetaProof, EmbedProof, EmulationRecord}

  module _ (vk : vm.VerifyingKey) where
    asks_fit : (n : ℕ) → All (Fits vm v records eager vk []) (init vm n []).responses
    asks_fit zero = tt
    asks_fit (suc n) = (tt, asks_fit n)

    init-Inv : (n : ℕ) → Inv vm v records eager vk (init vm n records)
    unfolding Emulator.run
    init-Inv n = record {
      running = record { no_embed = refl; sender = refl; unsent = refl };
      tiles = tt;
      settled = tt;
      upcoming = ahead records refl refl (omega arith);
      flying = record {
        requests_fit = tt;
        tasks = tt;
        responses_fit = asks_fit n;
        at_most = λ i. omega (arith, asks_in_flight vm n i);
        exactly = λ e i. omega (arith, asks_in_flight vm n i);
        guarded = asks-Guarded vm n;
      };
    }

  module _ {Err : Type 0} (prove : EmbedProof → Outcome (Result Err (List ℕ))) (w : Prover vm) where
    abbrev vk : vm.VerifyingKey
    vk = w.riscv_convert.riscv_vk

    -- The first response is an embed proof, or the gateway takes it up and goes on.
    pub data First (s : System vm) (rest : List (Msg vm)) : Msg vm → Type 0 where
      last : (e : EmbedProof) → Good vm v records eager vk e → First s rest (embed e)
      goes : {m : Msg vm} → Takes vm v records eager vk prove s m rest → First s rest m

    pub Inv-First :
        (s : System vm) (m : Msg vm) (rest : List (Msg vm))
        → Inv vm v records eager vk s
        → (eager ≡ true → s.emulator_queue ≡ [])
        → s.responses ≡ m ∷ rest
        → First s rest m
    Inv-First s m rest inv idle e =
        go m e (subst (All (Fits vm v records eager vk (nodes_of s))) e inv.flying.responses_fit).0
          (subst Guarded e inv.flying.guarded)
      where
        go :
            (m : Msg vm)
            → s.responses ≡ m ∷ rest
            → Fits vm v records eager vk (nodes_of s) m
            → Guarded (m ∷ rest)
            → First s rest m
        go (embed x) e f g = last x f
        go request_task e f g = goes (ask-Takes vm v records eager vk prove s rest inv e)
        go (riscv (RiscvMsg.response r) id ip) e f g = goes (
            answer-Takes vm v records eager vk prove s r.chunk_index r.proof _ rest inv idle e
              (converted id ip) f)
        go (combine (CombineMsg.response r) id ip) e f g = goes (
            answer-Takes vm v records eager vk prove s r.chunk_index r.proof _ rest inv idle e
              (combined id ip) f)
        go (riscv (RiscvMsg.request r) id ip) e f g = absurd g
        go (combine (CombineMsg.request r) id ip) e f g = absurd g
        go exit e f g = absurd g
        go emulator_complete e f g = absurd g
        go (close ip) e f g = absurd g

    -- A round after which the loop goes on is one of the second kind.
    pub First-Takes :
        (s : System vm) (m : Msg vm) (rest out : List (Msg vm)) (g : Gateway MetaProof EmbedProof)
        → First s rest m
        → worker_round prove s.gateway (some m) ≡ ok (again g out)
        → (t : Takes vm v records eager vk prove s m rest) × (t.gateway ≡ g) × (t.next ≡ out)
    First-Takes s m rest out g (goes t) h = (t, cc, cc)
    First-Takes s m rest out g (last e good) h =
        absurd (ends (prove e) _ (sym (worker_round-embed prove s.gateway e) ∙ h))
      where
        ends :
            (o : Outcome (Result Err (List ℕ)))
            (f : Result Err (List ℕ) → Gateway MetaProof EmbedProof)
            → ◌≡◌ {A = Outcome (Round MetaProof EmulationRecord EmbedProof)}
                (o >>= λ r. ok (over (f r)))
                (ok (again g out))
            → ⊥
        ends (ok r) f h = cc
        ends (panic x) f h = cc

    Step-Inv :
        {n : ℕ} {s t : System vm}
        → Inv vm v records eager vk s
        → Step vm prove w eager n s t
        → Inv vm v records eager vk t
    Step-Inv {s} inv (emulated m q out g e h) =
        Inv-emulated vm v records eager vk s m q out g inv
          (subst (Upcoming vm v records eager vk _) e inv.upcoming) h
    Step-Inv {s} inv (worked before after m r some_prover e h) =
        Inv-worked vm v records eager w s before after m r inv e h
    Step-Inv {s} inv (collected m rest out g idle e h) =
        let (k, eg, eo) = First-Takes s m rest out g (Inv-First s m rest inv idle e) h in
        subst₂ (λ a b. Inv vm v records eager vk (taken vm v records eager vk s a b rest)) eg eo
          k.kept

    pub Reach-Inv :
        {n : ℕ} {s : System vm} → Reach vm prove w eager n records s → Inv vm v records eager vk s
    Reach-Inv {n} begin = init-Inv vk n
    Reach-Inv (later r step) = Step-Inv (Reach-Inv r) step
