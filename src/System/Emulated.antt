-- ===== src/System/Emulated.antt =====
-- The gateway takes up a message of the emulator.
use pico_proving_service.Prelude.{
  ℕ, suc, ◌+◌, ◌≡◌, refl, sym, subst, List, [], ◌∷◌, ◌++◌, none, some, Bool, true, All-append,
  length, drop, drop-get, append-nil, arith, ok,
}
use mathlib.Core.Path.{subst₂, subst₃}
use pico_proving_service.ProofTree.{init}
use pico_proving_service.ProofTree.Sets.{Nodes}
use pico_proving_service.ProofTree.Tiling.{Tiles, end_of, end_of-append}
use pico_proving_service.ProofTree.Settled.{Settled-snoc}
use pico_proving_service.ProofTree.InitNode.{
  init_node_next, Tiles-snoc, Tiles-KeysBelow, get-snoc, get-snoc_self,
}
use pico_proving_service.ProofTree.Open.{open_at, open_at-append, at_same}
use pico_proving_service.Messages.{emulator_complete}
use pico_proving_service.Handler.{process_riscv_req, process, dispatch, respond}
use pico_proving_service.Gateway.{Gateway, again, emulator_round}
use pico_proving_service.Emulator.{send_records, chunk_message}
use pico_proving_service.Worker.{Msg}
use pico_proving_service.Worker.Vm.{PicoVm}
use pico_proving_service.Worker.Attests.{Attests}
use pico_proving_service.System.{System}
use pico_proving_service.System.Flight.{in_flight, in_flight-append, IsExact, Fits}
use pico_proving_service.System.Kept.{All-Fits, All-Away}
use pico_proving_service.System.Invariant.{Inv, Flying, Upcoming, ahead, done, nodes_of}

module _ (vm : PicoVm) (v : Attests vm) (records : List vm.EmulationRecord) (eager : Bool)
    (vk : vm.VerifyingKey) where
  open vm use {MetaProof, EmbedProof, EmulationRecord}

  -- The gateway after the message of a chunk, and after the end of the emulation.
  abbrev pub tracked : Gateway MetaProof EmbedProof → ℕ → Gateway MetaProof EmbedProof
  tracked g k = record g {
    handler = record (g.handler) {
      proof_tree = record { tree = g.handler.proof_tree.tree ++ (k, init) ∷ [] };
    };
  }

  abbrev pub ended : Gateway MetaProof EmbedProof → Gateway MetaProof EmbedProof
  ended g = record g { handler = record (g.handler) { emulator_complete = true } }

  pub emulator_round-chunk :
      (g : Gateway MetaProof EmbedProof) (r : EmulationRecord)
      → Tiles (IsExact vm v records eager vk) 0 g.handler.proof_tree.tree
      → let k = end_of 0 g.handler.proof_tree.tree in
        emulator_round g (some (chunk_message k r))
        ≡ ok (again (tracked g k) (chunk_message k r ∷ []))
  unfolding emulator_round process_riscv_req
  emulator_round-chunk g r t =
      rw (init_node_next (IsExact vm v records eager vk) 0 g.handler.proof_tree.tree t)

  pub emulator_round-ended :
      (g : Gateway MetaProof EmbedProof)
      → g.handler.embed_proof ≡ none
      → emulator_round {R = EmulationRecord} g (some emulator_complete) ≡ ok (again (ended g) [])
  unfolding emulator_round process dispatch respond
  emulator_round-ended g e = rw e

  module _ (t : Nodes MetaProof) (tiles : Tiles (IsExact vm v records eager vk) 0 t) where
    abbrev next : ℕ
    next = end_of 0 t

    abbrev grown : Nodes MetaProof
    grown = t ++ (next, init) ∷ []

    Fresh_chunk :
        (r : EmulationRecord) (rest : List EmulationRecord)
        → drop next records ≡ r ∷ rest
        → Fits vm v records eager vk grown (chunk_message next r)
    Fresh_chunk r rest d = record {
      node =
          get-snoc_self next init t
            (Tiles-KeysBelow (IsExact vm v records eager vk) 0 next t tiles (omega arith));
      own = (drop-get records next r rest d).0;
    }

    Flying-chunk :
        (requests responses : List (Msg vm)) (r : EmulationRecord) (rest : List EmulationRecord)
        → drop next records ≡ r ∷ rest
        → Flying vm v records eager vk t requests responses
        → Flying vm v records eager vk grown (requests ++ chunk_message next r ∷ []) responses
    Flying-chunk requests responses r rest d f =
        let keep =
          All-Fits vm v records eager vk t grown (λ i. Unit {0})
            (λ i ps a h. get-snoc next init i t h) in
        record {
          requests_fit =
              All-append _ requests (chunk_message next r ∷ [])
                (keep requests (All-Away requests) f.requests_fit) (Fresh_chunk r rest d, tt);
          tasks = All-append _ requests (chunk_message next r ∷ []) f.tasks (tt, tt);
          responses_fit = keep responses (All-Away responses) f.responses_fit;
          at_most = λ i. omega (arith, open_new i, sent_new i, f.at_most i);
          exactly = λ e i. omega (arith, open_new i, sent_new i, f.exactly e i);
          guarded = f.guarded;
        }
      where
        open_new : (i : ℕ) → open_at i grown ≡ open_at i t + at_same i next 1
        open_new i = omega (arith, open_at-append i t ((next, init) ∷ []))

        sent_new :
            (i : ℕ)
            → in_flight i (requests ++ chunk_message next r ∷ [])
              ≡ in_flight i requests + at_same i next 1
        sent_new i = omega (arith, in_flight-append i requests (chunk_message next r ∷ []))

  abbrev pub moved :
      System vm → Gateway MetaProof EmbedProof → List (Msg vm) → List (Msg vm) → System vm
  moved s g q out = record {
    gateway = g;
    emulator_queue = q;
    requests = s.requests ++ out;
    responses = s.responses;
  }

  Inv-chunk :
      (s : System vm) (q : List (Msg vm)) (r : EmulationRecord) (rest : List EmulationRecord)
      → Inv vm v records eager vk s
      → let k = end_of 0 (nodes_of s) in
        q ≡ send_records (suc k) rest
        → drop k records ≡ r ∷ rest
        → k + suc (length rest) ≡ length records
        → Inv vm v records eager vk (moved s (tracked s.gateway k) q (chunk_message k r ∷ []))
  Inv-chunk s q r rest inv e d h = record {
    running = record {
      no_embed = inv.running.no_embed;
      sender = inv.running.sender;
      unsent = inv.running.unsent;
    };
    tiles = Tiles-snoc (IsExact vm v records eager vk) 0 (nodes_of s) inv.tiles;
    settled = Settled-snoc (nodes_of s) k [] inv.settled;
    upcoming =
        subst (λ x. Upcoming vm v records eager vk x q)
          (sym (end_of-append 0 (nodes_of s) ((k, init) ∷ [])))
          (ahead rest e (drop-get records k r rest d).1 (omega arith));
    flying = Flying-chunk (nodes_of s) inv.tiles s.requests s.responses r rest d inv.flying;
  }
    where
      k : ℕ
      k = end_of 0 (nodes_of s)

  Inv-complete :
      (s : System vm)
      → Inv vm v records eager vk s
      → end_of 0 (nodes_of s) ≡ length records
      → Inv vm v records eager vk (moved s (ended s.gateway) [] [])
  Inv-complete s inv h = record {
    running = record {
      no_embed = inv.running.no_embed;
      sender = inv.running.sender;
      unsent = inv.running.unsent;
    };
    tiles = inv.tiles;
    settled = inv.settled;
    upcoming = done refl h;
    flying =
        subst (λ x. Flying vm v records eager vk (nodes_of s) x s.responses)
          (sym (append-nil s.requests)) inv.flying;
  }

  -- The invariant after either message.
  pub Inv-emulated :
      (s : System vm) (m : Msg vm) (q out : List (Msg vm)) (g : Gateway MetaProof EmbedProof)
      → Inv vm v records eager vk s
      → Upcoming vm v records eager vk (end_of 0 (nodes_of s)) (m ∷ q)
      → emulator_round s.gateway (some m) ≡ ok (again g out)
      → Inv vm v records eager vk (moved s g q out)
  unfolding send_records
  Inv-emulated s m q out g inv (done e h) round = cc
  Inv-emulated s m q out g inv (ahead [] e d h) round =
      let run = emulator_round-ended s.gateway inv.running.no_embed in
      let eg : ended s.gateway ≡ g = cc in
      let eo : [] ≡ out = cc in
      let eq : [] ≡ q = cc in
      subst₃ (λ a b c. Inv vm v records eager vk (moved s a b c)) eg eq eo
        (Inv-complete s inv (omega arith))
  Inv-emulated s m q out g inv (ahead (r ∷ rest) e d h) round =
      let k = end_of 0 (nodes_of s) in
      let run = emulator_round-chunk s.gateway r inv.tiles in
      let eg : tracked s.gateway k ≡ g = cc in
      let eo : chunk_message k r ∷ [] ≡ out = cc in
      let eq : q ≡ send_records (suc k) rest = cc in
      subst₂ (λ a c. Inv vm v records eager vk (moved s a q c)) eg eo
        (Inv-chunk s q r rest inv eq d h)
