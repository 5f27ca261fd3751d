-- ===== src/System/Flight.antt =====
-- The messages between the gateway and the workers: which node each one belongs to, and what is
-- known of it.
use pico_proving_service.Prelude.{
  ℕ, suc, ◌+◌, ◌≤◌, ◌≡◌, List, [], ◌∷◌, ◌++◌, some, Bool, true, arith, length, get_elem?, slice,
  take,
}
use pico_proving_service.BTreeMap.{get}
use pico_proving_service.ProofTree.{IndexedProof, in_progress}
use pico_proving_service.ProofTree.Sets.{Nodes}
use pico_proving_service.ProofTree.Tiling.{Answers}
use pico_proving_service.ProofTree.Open.{at_same}
use pico_proving_service.Messages.{
  GatewayMsg, riscv, combine, embed, request_task, RiscvMsg, CombineMsg, RiscvRequest,
  CombineRequest,
}
use pico_proving_service.Worker.{Msg}
use pico_proving_service.Worker.Vm.{PicoVm}
use pico_proving_service.Worker.Attests.{Attests}

module _ {P R E : Type 0} where
  -- 1 if the message is a task or an answer for the node at the index
  abbrev pub of_node : ℕ → GatewayMsg P R E → ℕ
  of_node i (riscv (RiscvMsg.request r) _ _) = at_same i r.chunk_index 1
  of_node i (riscv (RiscvMsg.response r) _ _) = at_same i r.chunk_index 1
  of_node i (combine (CombineMsg.request r) _ _) = at_same i r.chunk_index 1
  of_node i (combine (CombineMsg.response r) _ _) = at_same i r.chunk_index 1
  of_node i _ = 0

  -- How many messages belong to the node at the index.
  abbrev pub in_flight : ℕ → List (GatewayMsg P R E) → ℕ
  in_flight i [] = 0
  in_flight i (m ∷ ms) = of_node i m + in_flight i ms

  pub in_flight-append :
      (i : ℕ) (xs ys : List (GatewayMsg P R E))
      → in_flight i (xs ++ ys) ≡ in_flight i xs + in_flight i ys
  in_flight-append i [] ys = omega arith
  in_flight-append i (m ∷ xs) ys = omega (arith, in_flight-append i xs ys)

  -- Up to the first embed proof there are answers and asks for a task alone: an `exit` stands
  -- behind an embed proof.
  abbrev pub Guarded : List (GatewayMsg P R E) → Type 0
  Guarded [] = Unit
  Guarded (embed _ ∷ ms) = Unit
  Guarded (request_task ∷ ms) = Guarded ms
  Guarded (riscv (RiscvMsg.response _) _ _ ∷ ms) = Guarded ms
  Guarded (combine (CombineMsg.response _) _ _ ∷ ms) = Guarded ms
  Guarded (_ ∷ ms) = ⊥

  -- What the workers take up.
  abbrev pub IsTask : GatewayMsg P R E → Type 0
  IsTask (riscv (RiscvMsg.request _) _ _) = Unit
  IsTask (combine (CombineMsg.request _) _ _) = Unit
  IsTask _ = ⊥

module _ (vm : PicoVm) (v : Attests vm) (records : List vm.EmulationRecord) (eager : Bool)
    (vk : vm.VerifyingKey) where
  open vm use {MetaProof, EmbedProof}
  open v use {attested, embed_attested}

  -- There are several chunks, and an embed proof that attests every record is found to be good.
  pub record Sure : Type 0 where
    pub several : 2 ≤ length records
    pub verifies : (e : EmbedProof) → embed_attested e ≡ records → vm.verify_embed e vk ≡ true

  abbrev pub IsWhole : IndexedProof MetaProof → Type 0
  IsWhole p = (p.start_chunk ≡ 0) × (suc p.end_chunk ≡ length records)

  -- The proof attests the records of its chunks, and if all goes well these are not all chunks: the
  -- last proof leaves its worker as an embed proof.
  pub record IsExact (p : IndexedProof MetaProof) : Type 0 where
    pub exact : attested p.inner ≡ slice records p.start_chunk (suc p.end_chunk)
    pub part : Sure → ¬ (IsWhole p)

  -- Chunks up to `hi`; all of them if the emulation is quick.
  pub record Final (hi : ℕ) : Type 0 where
    pub within : hi ≤ length records
    pub total : eager ≡ true → hi ≡ length records

  -- An answer for a node in progress.
  pub record Due (t : Nodes MetaProof) (k : ℕ) (p : IndexedProof MetaProof) : Type 0 where
    pub held : List (IndexedProof MetaProof)
    pub node : get k t ≡ some (in_progress held)
    pub answers : Answers IsExact k (in_progress held) p

  -- The two proofs of a request to combine.
  pub record Two (t : Nodes MetaProof) (r : CombineRequest MetaProof) : Type 0 where
    pub left : IndexedProof MetaProof
    pub right : IndexedProof MetaProof
    pub pair : r.proofs ≡ left ∷ right ∷ []
    pub node : get r.chunk_index t ≡ some (in_progress (left ∷ right ∷ []))
    pub adjacent : right.start_chunk ≡ suc left.end_chunk
    pub left_order : left.start_chunk ≤ left.end_chunk
    pub right_order : right.start_chunk ≤ right.end_chunk
    pub left_exact : IsExact left
    pub right_exact : IsExact right
    pub whole : r.flag_complete ≡ true → (left.start_chunk ≡ 0) × Final (suc right.end_chunk)
    pub last : left.start_chunk ≡ 0 → suc right.end_chunk ≡ length records → r.flag_complete ≡ true

  pub record Fresh (t : Nodes MetaProof) (r : RiscvRequest vm.EmulationRecord) : Type 0 where
    pub node : get r.chunk_index t ≡ some (in_progress [])
    pub own : get_elem? records r.chunk_index ≡ some r.emulation_record

  -- An embed proof attests the records of all chunks up to some number.
  pub record Good (e : EmbedProof) : Type 0 where
    pub hi : ℕ
    pub many : 2 ≤ hi
    pub final : Final hi
    pub exact : embed_attested e ≡ take hi records

  -- What is known of a message, given the nodes of the tree.
  abbrev pub Fits : Nodes MetaProof → Msg vm → Type 0
  Fits t (riscv (RiscvMsg.request r) _ _) = Fresh t r
  Fits t (riscv (RiscvMsg.response r) _ _) = Due t r.chunk_index r.proof
  Fits t (combine (CombineMsg.request r) _ _) = Two t r
  Fits t (combine (CombineMsg.response r) _ _) = Due t r.chunk_index r.proof
  Fits t (embed e) = Good e
  Fits t _ = Unit
