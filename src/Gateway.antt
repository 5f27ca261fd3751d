-- ===== src/Gateway.antt =====
-- src/proving/gateway/mod.rs: the loop of the gateway. A round takes one message of either channel;
-- `none` stands for a closed channel. The sends to the workers and of the result do not fail.
use pico_proving_service.Prelude.{
  ℕ, Bool, true, false, List, [], ◌∷◌, ◌++◌, Option, none, some, Outcome, ok, panic, ◌>>=◌,
  unsupported, unexpected_task, Result, success, failure,
}
use pico_proving_service.Messages.{
  GatewayMsg, emulator_complete, request_task, riscv, combine, embed, exit, RiscvMsg, CombineMsg,
}
use pico_proving_service.Handler.{GatewayHandler, new, get_embed_proof, process, process_riscv_req}

-- The state of the loop: the handler, whether `completion_sender` is still there, and what has been
-- sent through it.
pub record Gateway (P E : Type 0) : Type 0 where
  pub handler : GatewayHandler P E
  pub has_sender : Bool
  pub completion : List (List ℕ)

-- The loop goes on, with the messages sent to the workers, or ends.
pub data Round (P R E : Type 0) : Type 0 where
  again : Gateway P E → List (GatewayMsg P R E) → Round P R E
  over : Gateway P E → Round P R E

abbrev pub start : {P E : Type 0} → Gateway P E
start = record { handler = new; has_sender = true; completion = [] }

module _ {P R E : Type 0} where
  abbrev pub after_req :
      Gateway P E
      → GatewayMsg P R E
      → GatewayHandler P E × Option (GatewayMsg P R E)
      → Outcome (Round P R E)
  after_req g msg (h, none) = ok (again (record g { handler = h }) (msg ∷ []))
  after_req g msg (h, some _) = panic unexpected_task

  abbrev pub after_complete :
      Gateway P E → GatewayHandler P E × Option (GatewayMsg P R E) → Round P R E
  after_complete g (h, some exit) = over (record g { handler = h })
  after_complete g (h, _) = again (record g { handler = h }) []

  -- `recv(emulator_receiver)`
  unfoldable pub emulator_round : Gateway P E → Option (GatewayMsg P R E) → Outcome (Round P R E)
  emulator_round g none = ok (over g)
  emulator_round g (some (riscv (RiscvMsg.request r) id ip)) = do
    done ← process_riscv_req g.handler (riscv (RiscvMsg.request r) id ip)
    after_req g (riscv (RiscvMsg.request r) id ip) done
  emulator_round g (some emulator_complete) = do
    done ← process g.handler emulator_complete
    ok (after_complete g done)
  emulator_round g (some _) = panic unsupported

-- The bytes of a failed on-chain proof are empty.
abbrev pub bytes_or_empty : {Err : Type 0} → Result Err (List ℕ) → List ℕ
bytes_or_empty (success bytes) = bytes
bytes_or_empty (failure _) = []

-- `if let Some(sender) = completion_sender.take()`
abbrev pub send_completion : {P E : Type 0} → Gateway P E → List ℕ → Gateway P E
send_completion g bytes = elim g.has_sender [
  | true ↦ record g { has_sender = false; completion = g.completion ++ bytes ∷ [] }
  | false ↦ g
]

abbrev pub final_bytes :
    {E Err : Type 0} → (E → Outcome (Result Err (List ℕ))) → Option E → Outcome (List ℕ)
final_bytes prove none = ok []
final_bytes prove (some e) = do r ← prove e; ok (bytes_or_empty r)

module _ {P R E Err : Type 0} (prove_onchain : E → Outcome (Result Err (List ℕ))) where
  abbrev pub after_process :
      Gateway P E → GatewayHandler P E × Option (GatewayMsg P R E) → Outcome (Round P R E)
  after_process g (h, none) = ok (again (record g { handler = h }) [])
  after_process g (h, some exit) = do
    bytes ← final_bytes prove_onchain (get_embed_proof h)
    ok (over (send_completion (record g { handler = h }) bytes))
  after_process g (h, some msg) = ok (again (record g { handler = h }) (msg ∷ []))

  unfoldable pub handle_result : Gateway P E → GatewayMsg P R E → Outcome (Round P R E)
  handle_result g msg = do done ← process g.handler msg; after_process g done

  -- `recv(grpc_endpoint.receiver())`
  unfoldable pub worker_round : Gateway P E → Option (GatewayMsg P R E) → Outcome (Round P R E)
  worker_round g none = ok (over g)
  worker_round g (some (riscv (RiscvMsg.response r) id ip)) =
      handle_result g (riscv (RiscvMsg.response r) id ip)
  worker_round g (some (combine (CombineMsg.response r) id ip)) =
      handle_result g (combine (CombineMsg.response r) id ip)
  worker_round g (some (embed e)) = handle_result g (embed e)
  worker_round g (some exit) = handle_result g exit
  worker_round g (some request_task) = ok (again g [])
  worker_round g (some _) = panic unsupported
