-- ===== src/System/Answered.antt =====
-- The messages in flight once the gateway has stored a proof.
use pico_proving_service.Prelude.{
  ℕ, ◌≡◌, refl, sym, subst, ◌∙◌, List, [], ◌∷◌, ◌++◌, Option, none, some, Bool, true, All,
  All-append, length, arith, ==_iff, ◌==◌, ◌≢◌,
}
use pico_proving_service.BTreeMap.{get}
use pico_proving_service.BTreeMap.Order.{Rising}
use pico_proving_service.ProofTree.{ProofTree, len, IndexedProof, in_progress}
use pico_proving_service.ProofTree.Sets.{Sets, Sets-Joined}
use pico_proving_service.ProofTree.Tiling.{Tiles, end_of, Tiles-Rising}
use pico_proving_service.ProofTree.Whole.{Joined-Pair}
use pico_proving_service.ProofTree.Pending.{joins}
use pico_proving_service.ProofTree.Others.{get-Sets_self, get-Sets_other}
use pico_proving_service.ProofTree.Open.{at_same, Sets-open_at, open_at_found}
use pico_proving_service.Handler.{GatewayHandler}
use pico_proving_service.Handler.Answers.{Brings, request_for}
use pico_proving_service.Emulator.{send_records}
use pico_proving_service.Worker.{Msg}
use pico_proving_service.Worker.Vm.{PicoVm}
use pico_proving_service.Worker.Attests.{Attests}
use pico_proving_service.System.Flight.{in_flight-append, IsTask, IsExact, Fits, Final, Two}
use pico_proving_service.System.Kept.{All-Fits, others}
use pico_proving_service.System.Invariant.{Flying, Upcoming, ahead, done}
use pico_proving_service.System.Brought.{
  listed, Brings-of_node, Brings-embeds, Brings-Guarded, listed-of_node,
}

module _ (vm : PicoVm) (v : Attests vm) (records : List vm.EmulationRecord) (eager : Bool)
    (vk : vm.VerifyingKey) where
  open vm use {MetaProof, EmbedProof, EmulationRecord}

  -- What the tree holds is within the records, and is all of them once the emulation is over.
  pub Upcoming-Final :
      (hi : ℕ) (q : List (Msg vm))
      → Upcoming vm v records eager vk hi q
      → (eager ≡ true → q ≡ [])
      → Final vm v records eager vk hi
  unfolding send_records
  Upcoming-Final hi q (done e h) idle = record { within = omega arith; total = λ _. h }
  Upcoming-Final hi q (ahead [] e d h) idle = record {
    within = omega arith;
    total = λ y. omega arith;
  }
  Upcoming-Final hi q (ahead (r ∷ rest) e d h) idle = record {
    within = omega arith;
    total = λ y. (let x = idle y in cc);
  }

  pub length-listed :
      (h : GatewayHandler MetaProof EmbedProof) (k : ℕ)
      (out : Option (List (IndexedProof MetaProof)))
      → length (listed (request_for {R = EmulationRecord} h k out)) ≡ joins out
  length-listed h k none = refl
  length-listed h k (some ps) = refl

  module _ (k : ℕ) (held : List (IndexedProof MetaProof)) (p : IndexedProof MetaProof)
      (h : GatewayHandler MetaProof EmbedProof) (tree : ProofTree MetaProof)
      (out : Option (List (IndexedProof MetaProof)))
      (sets : Sets h.proof_tree.tree k (in_progress held) p tree.tree out)
      (tiles' : Tiles (IsExact vm v records eager vk) 0 tree.tree) where
    abbrev next : List (Msg vm)
    next = listed (request_for (record h { proof_tree = tree }) k out)

    -- The request of a join fits the new tree.
    join_fits :
        (ps : List (IndexedProof MetaProof))
        → out ≡ some ps
        → Final vm v records eager vk (end_of 0 tree.tree)
        → Two vm v records eager vk tree.tree
            (record { flag_complete = len tree == 1; chunk_index = k; proofs = ps })
    join_fits ps e final =
        let made = subst (Sets h.proof_tree.tree k (in_progress held) p tree.tree) e sets in
        let j = Sets-Joined made in
        let two = Joined-Pair (IsExact vm v records eager vk) 0 tree.tree j tiles' in
        let self =
          get-Sets_self 0 made (Tiles-Rising (IsExact vm v records eager vk) 0 tree.tree tiles') in
        record {
          left = j.left;
          right = j.right;
          pair = j.pair;
          node = subst (λ x. get k tree.tree ≡ some (in_progress x)) j.pair self;
          adjacent = two.adjacent;
          left_order = two.left_order;
          right_order = two.right_order;
          left_exact = two.left_known;
          right_exact = two.right_known;
          whole = λ flag.
              let (low, high) = two.final.0 ((==_iff (len tree) 1).0 flag) in
              (low, subst (Final vm v records eager vk) (sym high) final);
          last = λ low high.
              (==_iff (len tree) 1).1 (two.final.1 (low, omega (arith, final.within, two.ends)));
        }

    next-Fits :
        (o : Option (List (IndexedProof MetaProof)))
        → out ≡ o
        → Final vm v records eager vk (end_of 0 tree.tree)
        → All
            (Fits vm v records eager vk tree.tree)
            (listed (request_for (record h { proof_tree = tree }) k o))
    next-Fits none e final = tt
    next-Fits (some ps) e final = (join_fits ps e final, tt)

    next_tasks :
        (o : Option (List (IndexedProof MetaProof)))
        → All IsTask
            (listed (request_for {R = EmulationRecord} (record h { proof_tree = tree }) k o))
    next_tasks none = tt
    next_tasks (some ps) = (tt, tt)

    pub Flying-answered :
        (requests rest : List (Msg vm)) (m : Msg vm)
        → Rising 0 h.proof_tree.tree
        → Brings k p m
        → get k h.proof_tree.tree ≡ some (in_progress held)
        → Final vm v records eager vk (end_of 0 tree.tree)
        → Flying vm v records eager vk h.proof_tree.tree requests (m ∷ rest)
        → Flying vm v records eager vk tree.tree (requests ++ next) rest
    Flying-answered requests rest m rising b found final f =
        let one = open_at_found k 0 h.proof_tree.tree {ps = held} rising found in
        let mine = Brings-of_node k b in
        let bound = f.at_most k in
        let self : at_same k k 1 ≡ 1 = ground arith in
        let keep_all =
          All-Fits vm v records eager vk h.proof_tree.tree tree.tree (λ i. i ≢ k)
            (λ i ps d. get-Sets_other i ps sets d) in
        record {
          requests_fit =
              All-append _ requests next
                (keep_all requests (others k requests (omega arith)) f.requests_fit)
                (next-Fits out refl final);
          tasks = All-append _ requests next f.tasks (next_tasks out);
          responses_fit = keep_all rest (others k rest (omega arith)) f.responses_fit.1;
          at_most = λ i. omega (
            arith,
            in_flight-append i requests next,
            listed-of_node EmulationRecord i (record h { proof_tree = tree }) k out,
            Sets-open_at i sets,
            Brings-of_node i b,
            f.at_most i,
          );
          exactly = λ e i. omega (
            arith,
            in_flight-append i requests next,
            listed-of_node EmulationRecord i (record h { proof_tree = tree }) k out,
            Sets-open_at i sets,
            Brings-of_node i b,
            f.exactly (Brings-embeds rest b ∙ e) i,
          );
          guarded = Brings-Guarded rest b f.guarded;
        }
