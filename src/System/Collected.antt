-- ===== src/System/Collected.antt =====
-- The gateway takes up a message of a worker.
use pico_proving_service.Prelude.{
  ℕ, ◌+◌, ◌≡◌, refl, sym, subst, ap, ◌∙◌, List, [], ◌∷◌, ◌++◌, some, Bool, true, All-append, length,
  arith, Outcome, ok, Result,
}
use pico_proving_service.ProofTree.{IndexedProof}
use pico_proving_service.ProofTree.Tiling.{end_of, Sets-Tiles, Tiles-Rising}
use pico_proving_service.ProofTree.Pending.{Sets-counts}
use pico_proving_service.ProofTree.Settled.{Sets-Settled}
use pico_proving_service.Messages.{request_task}
use pico_proving_service.Handler.Answers.{Brings, process-Requested, request_for}
use pico_proving_service.Gateway.{Gateway, again, worker_round}
use pico_proving_service.Worker.{Msg}
use pico_proving_service.Worker.Vm.{PicoVm}
use pico_proving_service.Worker.Attests.{Attests}
use pico_proving_service.System.{System}
use pico_proving_service.System.Flight.{in_flight-append, IsExact, Due}
use pico_proving_service.System.Invariant.{Inv, Flying, Upcoming, nodes_of}
use pico_proving_service.System.Brought.{listed, with_tree, worker_round-process}
use pico_proving_service.System.Answered.{Flying-answered, Upcoming-Final, length-listed}

module _ (vm : PicoVm) (v : Attests vm) (records : List vm.EmulationRecord) (eager : Bool)
    (vk : vm.VerifyingKey) where
  open vm use {MetaProof, EmbedProof, EmulationRecord}

  -- The system once the gateway has taken up the first response.
  abbrev pub taken :
      System vm → Gateway MetaProof EmbedProof → List (Msg vm) → List (Msg vm) → System vm
  taken s g next rest = record {
    gateway = g;
    emulator_queue = s.emulator_queue;
    requests = s.requests ++ next;
    responses = rest;
  }

  module _ {Err : Type 0} (prove : EmbedProof → Outcome (Result Err (List ℕ))) where
    -- The gateway takes up a message, and the loop goes on.
    pub record Takes (s : System vm) (m : Msg vm) (rest : List (Msg vm)) : Type 0 where
      pub gateway : Gateway MetaProof EmbedProof
      pub next : List (Msg vm)
      pub round : worker_round prove s.gateway (some m) ≡ ok (again gateway next)
      pub size : length (nodes_of s) ≡ length gateway.handler.proof_tree.tree + length next
      pub kept : Inv vm v records eager vk (taken s gateway next rest)

    pub answer-Takes :
        (s : System vm) (k : ℕ) (p : IndexedProof MetaProof) (m : Msg vm) (rest : List (Msg vm))
        → Inv vm v records eager vk s
        → (eager ≡ true → s.emulator_queue ≡ [])
        → s.responses ≡ m ∷ rest
        → Brings k p m
        → Due vm v records eager vk (nodes_of s) k p
        → Takes s m rest
    answer-Takes s k p m rest inv idle e b due =
        let known = IsExact vm v records eager vk in
        let h = s.gateway.handler in
        let rising = Tiles-Rising known 0 (nodes_of s) inv.tiles in
        let a = process-Requested 0 h k p b inv.running.no_embed rising due.node in
        let (tiles', stop') = Sets-Tiles known 0 a.sets inv.tiles due.answers in
        let upcoming' =
          subst (λ x. Upcoming vm v records eager vk x s.emulator_queue) (sym stop') inv.upcoming in
        let final =
          Upcoming-Final vm v records eager vk (end_of 0 a.tree.tree) s.emulator_queue upcoming'
            idle in
        let flying = subst (Flying vm v records eager vk (nodes_of s) s.requests) e inv.flying in
        record {
          gateway = with_tree s.gateway a.tree;
          next = listed (request_for (record h { proof_tree = a.tree }) k a.combine_next);
          round = worker_round-process prove s.gateway b a.combine_next a.returns;
          size =
              (Sets-counts a.sets).0
              ∙ ap (λ n. length a.tree.tree + n)
                  (sym (
                    length-listed vm v records eager vk (record h { proof_tree = a.tree }) k
                      a.combine_next));
          kept = record {
            running = record {
              no_embed = inv.running.no_embed;
              sender = inv.running.sender;
              unsent = inv.running.unsent;
            };
            tiles = tiles';
            settled = Sets-Settled a.sets inv.settled;
            upcoming = upcoming';
            flying =
                Flying-answered vm v records eager vk k due.held p h a.tree a.combine_next a.sets
                  tiles' s.requests rest m rising b due.node final flying;
          };
        }

    -- A worker that asks for a task changes nothing.
    pub ask-Takes :
        (s : System vm) (rest : List (Msg vm))
        → Inv vm v records eager vk s
        → s.responses ≡ request_task ∷ rest
        → Takes s request_task rest
    unfolding worker_round
    ask-Takes s rest inv e =
        let flying = subst (Flying vm v records eager vk (nodes_of s) s.requests) e inv.flying in
        record {
          gateway = s.gateway;
          next = [];
          round = refl;
          size = omega arith;
          kept = record {
            running = inv.running;
            tiles = inv.tiles;
            settled = inv.settled;
            upcoming = inv.upcoming;
            flying = record {
              requests_fit = All-append _ s.requests [] flying.requests_fit tt;
              responses_fit = flying.responses_fit.1;
              tasks = All-append _ s.requests [] flying.tasks tt;
              at_most = λ i. omega (arith, in_flight-append i s.requests [], flying.at_most i);
              exactly = λ x i. omega (arith, in_flight-append i s.requests [], flying.exactly x i);
              guarded = flying.guarded;
            };
          };
        }
