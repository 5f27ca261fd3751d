-- ===== src/Messages.antt =====
-- src/proving/messages: what the emulator, the gateway and the worker provers send one another.
-- `P` stands for `MetaProof<SC>`, `E` for `MetaProof<EmbedSC>`, `R` for `EmulationRecord`.
use pico_proving_service.Prelude.{ℕ, Bool, List, [], Text}
use pico_proving_service.ProofTree.{IndexedProof}

pub record RiscvRequest (R : Type 0) : Type 0 where
  pub chunk_index : ℕ
  pub emulation_record : R

pub record RiscvResponse (P : Type 0) : Type 0 where
  pub chunk_index : ℕ
  pub proof : IndexedProof P

pub data RiscvMsg (P R : Type 0) : Type 0 where
  request : RiscvRequest R → RiscvMsg P R
  response : RiscvResponse P → RiscvMsg P R

pub record CombineRequest (P : Type 0) : Type 0 where
  pub flag_complete : Bool
  pub chunk_index : ℕ
  pub proofs : List (IndexedProof P)

pub record CombineResponse (P : Type 0) : Type 0 where
  pub chunk_index : ℕ
  pub proof : IndexedProof P

pub data CombineMsg (P : Type 0) : Type 0 where
  request : CombineRequest P → CombineMsg P
  response : CombineResponse P → CombineMsg P

pub record CompressRequest (P : Type 0) : Type 0 where
  pub chunk_index : ℕ
  pub proof : IndexedProof P

pub record CompressResponse (P : Type 0) : Type 0 where
  pub chunk_index : ℕ
  pub proof : IndexedProof P

pub record EmbedRequest (P : Type 0) : Type 0 where
  pub chunk_index : ℕ
  pub proof : IndexedProof P

pub record EmbedResponse (E : Type 0) : Type 0 where
  pub chunk_index : ℕ
  pub proof : IndexedProof E

pub data GatewayMsg (P R E : Type 0) : Type 0 where
  emulator_complete : GatewayMsg P R E
  request_task : GatewayMsg P R E
  riscv : RiscvMsg P R → Text → Text → GatewayMsg P R E
  combine : CombineMsg P → Text → Text → GatewayMsg P R E
  embed : E → GatewayMsg P R E
  close : Text → GatewayMsg P R E
  exit : GatewayMsg P R E

-- `GatewayMsg::ip_addr`
abbrev pub ip_addr : {P R E : Type 0} → GatewayMsg P R E → Text
ip_addr emulator_complete = []
ip_addr request_task = []
ip_addr exit = []
ip_addr (embed _) = []
ip_addr (riscv _ _ ip) = ip
ip_addr (combine _ _ ip) = ip
ip_addr (close ip) = ip
