-- ===== src/System/Kept.antt =====
-- What is known of a message stays true while its node does.
use pico_proving_service.Prelude.{ℕ, ◌≡◌, ◌≢◌, List, [], ◌∷◌, some, Bool, arith, All}
use pico_proving_service.BTreeMap.{get}
use pico_proving_service.ProofTree.{IndexedProof, in_progress}
use pico_proving_service.ProofTree.Sets.{Nodes}
use pico_proving_service.Messages.{
  GatewayMsg, riscv, combine, embed, exit, close, request_task, emulator_complete, RiscvMsg,
  CombineMsg,
}
use pico_proving_service.Worker.{Msg}
use pico_proving_service.Worker.Vm.{PicoVm}
use pico_proving_service.Worker.Attests.{Attests}
use pico_proving_service.System.Flight.{of_node, in_flight, Fits}

-- The message belongs to a node at an index of the given kind, or to none.
abbrev pub Away : {P R E : Type 0} → (ℕ → Type 0) → GatewayMsg P R E → Type 0
Away away (riscv (RiscvMsg.request r) _ _) = away r.chunk_index
Away away (riscv (RiscvMsg.response r) _ _) = away r.chunk_index
Away away (combine (CombineMsg.request r) _ _) = away r.chunk_index
Away away (combine (CombineMsg.response r) _ _) = away r.chunk_index
Away away _ = Unit

module _ {P R E : Type 0} where
  other : (k : ℕ) (m : GatewayMsg P R E) → of_node k m ≡ 0 → Away (λ i. i ≢ k) m
  other k (riscv (RiscvMsg.request r) _ _) h = ground arith
  other k (riscv (RiscvMsg.response r) _ _) h = ground arith
  other k (combine (CombineMsg.request r) _ _) h = ground arith
  other k (combine (CombineMsg.response r) _ _) h = ground arith
  other k (embed _) h = tt
  other k exit h = tt
  other k request_task h = tt
  other k emulator_complete h = tt
  other k (close _) h = tt

  -- If no message belongs to a node, all belong to others.
  pub others :
      (k : ℕ) (ms : List (GatewayMsg P R E)) → in_flight k ms ≡ 0 → All (Away (λ i. i ≢ k)) ms
  others k [] h = tt
  others k (m ∷ ms) h = (other k m (omega arith), others k ms (omega arith))

  any-Away : (m : GatewayMsg P R E) → Away (λ i. Unit {0}) m
  any-Away (riscv (RiscvMsg.request r) _ _) = tt
  any-Away (riscv (RiscvMsg.response r) _ _) = tt
  any-Away (combine (CombineMsg.request r) _ _) = tt
  any-Away (combine (CombineMsg.response r) _ _) = tt
  any-Away (embed _) = tt
  any-Away exit = tt
  any-Away request_task = tt
  any-Away emulator_complete = tt
  any-Away (close _) = tt

  pub All-Away : (ms : List (GatewayMsg P R E)) → All (Away (λ i. Unit {0})) ms
  All-Away [] = tt
  All-Away (m ∷ ms) = (any-Away m, All-Away ms)

module _ (vm : PicoVm) (v : Attests vm) (records : List vm.EmulationRecord) (eager : Bool)
    (vk : vm.VerifyingKey) where
  module _ (t t' : Nodes vm.MetaProof) (away : ℕ → Type 0)
      (kept : (i : ℕ) (ps : List (IndexedProof vm.MetaProof))
        → away i
        → get i t ≡ some (in_progress ps)
        → get i t' ≡ some (in_progress ps)) where
    Fits-kept :
        (m : Msg vm)
        → Away away m
        → Fits vm v records eager vk t m
        → Fits vm v records eager vk t' m
    Fits-kept (riscv (RiscvMsg.request r) _ _) a f = record {
      node = kept r.chunk_index [] a f.node;
      own = f.own;
    }
    Fits-kept (riscv (RiscvMsg.response r) _ _) a f = record {
      held = f.held;
      node = kept r.chunk_index f.held a f.node;
      answers = f.answers;
    }
    Fits-kept (combine (CombineMsg.response r) _ _) a f = record {
      held = f.held;
      node = kept r.chunk_index f.held a f.node;
      answers = f.answers;
    }
    Fits-kept (combine (CombineMsg.request r) _ _) a f = record {
      left = f.left;
      right = f.right;
      pair = f.pair;
      node = kept r.chunk_index (f.left ∷ f.right ∷ []) a f.node;
      adjacent = f.adjacent;
      left_order = f.left_order;
      right_order = f.right_order;
      left_exact = f.left_exact;
      right_exact = f.right_exact;
      whole = f.whole;
      last = f.last;
    }
    Fits-kept (embed e) a f = f
    Fits-kept exit a f = tt
    Fits-kept request_task a f = tt
    Fits-kept emulator_complete a f = tt
    Fits-kept (close _) a f = tt

    pub All-Fits :
        (ms : List (Msg vm))
        → All (Away away) ms
        → All (Fits vm v records eager vk t) ms
        → All (Fits vm v records eager vk t') ms
    All-Fits [] a f = tt
    All-Fits (m ∷ ms) a f = (Fits-kept m a.0 f.0, All-Fits ms a.1 f.1)
