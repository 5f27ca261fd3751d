-- ===== src/System/Worked.antt =====
-- The invariant after any answer of a worker.
use pico_proving_service.Prelude.{
  ◌≡◌, subst, List, ◌∷◌, ◌++◌, Bool, All-append, All-split, arith, ok,
}
use pico_proving_service.ProofTree.Sets.{Nodes}
use pico_proving_service.Worker.{Prover, Reaction, Msg, handle}
use pico_proving_service.Worker.Vm.{PicoVm}
use pico_proving_service.Worker.Attests.{Attests}
use pico_proving_service.System.Flight.{in_flight-append}
use pico_proving_service.System.{System}
use pico_proving_service.System.Invariant.{Inv, Flying, nodes_of}
use pico_proving_service.System.Append.{embeds-append, Guarded-append}
use pico_proving_service.System.Work.{Work, handle-Work}

module _ (vm : PicoVm) (v : Attests vm) (records : List vm.EmulationRecord) (eager : Bool)
    (w : Prover vm) where
  Flying-worked :
      (t : Nodes vm.MetaProof) (before after responses : List (Msg vm)) (m : Msg vm)
      (r : Reaction vm)
      → Work vm v records eager w t m r
      → Flying vm v records eager w.riscv_convert.riscv_vk t (before ++ m ∷ after) responses
      → Flying vm v records eager w.riscv_convert.riscv_vk t (before ++ after) (responses ++ r.sent)
  Flying-worked t before after responses m r k f =
      let (fb, fa) = All-split _ before (m ∷ after) f.requests_fit in
      let count = embeds-append responses r.sent in
      record {
        requests_fit = All-append _ before after fb fa.1;
        tasks =
            (let (tb, ta) = All-split _ before (m ∷ after) f.tasks in
              All-append _ before after tb ta.1);
        responses_fit = All-append _ responses r.sent f.responses_fit k.fit;
        at_most = λ i. omega (
          arith,
          in_flight-append i before (m ∷ after),
          in_flight-append i before after,
          in_flight-append i responses r.sent,
          f.at_most i,
          k.at_most i,
        );
        exactly = λ e i. omega (
          arith,
          in_flight-append i before (m ∷ after),
          in_flight-append i before after,
          in_flight-append i responses r.sent,
          f.exactly (omega arith) i,
          k.exactly (omega arith) i,
        );
        guarded = Guarded-append responses r.sent f.guarded k.guarded;
      }

  pub Inv-worked :
      (s : System vm) (before after : List (Msg vm)) (m : Msg vm) (r : Reaction vm)
      → Inv vm v records eager w.riscv_convert.riscv_vk s
      → s.requests ≡ before ++ m ∷ after
      → handle vm w m ≡ ok r
      → Inv vm v records eager w.riscv_convert.riscv_vk (record {
        gateway = s.gateway;
        emulator_queue = s.emulator_queue;
        requests = before ++ after;
        responses = s.responses ++ r.sent;
      })
  Inv-worked s before after m r inv e h =
      let f =
        subst (λ x. Flying vm v records eager w.riscv_convert.riscv_vk (nodes_of s) x s.responses) e
          inv.flying in
      let fit = (All-split _ before (m ∷ after) f.requests_fit).1.0 in
      record {
        running = inv.running;
        tiles = inv.tiles;
        settled = inv.settled;
        upcoming = inv.upcoming;
        flying =
            Flying-worked (nodes_of s) before after s.responses m r
              (handle-Work vm v records eager w (nodes_of s) m h fit) f;
      }
