-- ===== src/Lib.antt =====
-- The proving service: a gRPC server that registers RISC-V programs, proves runs of them with
-- pico_vm on worker provers, and hands out on-chain proofs.
--
-- How the parts work together. A client registers an app (src/app_manager.rs) and asks for a proof
-- (src/grpc.rs), which puts a task into the queue (src/proving_queue.rs). For each task
-- src/proving/mod.rs joins three parties by channels. The emulator (src/proving/emulator.rs) sends
-- the record of each chunk. The gateway (src/proving/gateway) keeps a tree of the chunks' proofs,
-- hands the work to the workers, and pairs proofs of neighbouring chunks. The workers
-- (src/proving/worker/prover) prove a chunk, or combine two proofs; the last combination is
-- compressed and embedded. The gateway then has the on-chain proof made (src/proving/onchain.rs)
-- and sends it to the queue.
--
-- Where each part is modelled:
-- - Prelude: shared names, tests, lists, text, and code that may panic (Outcome) or return an
--   error (Result). Each assertion, unwrap and panic of the code is a constructor of Panic.
-- - BTreeMap: the ordered map, as the list of its entries by rising key: get, insert, remove,
--   last_below for range(..k).next_back(), first_above for range((Excluded(k), Unbounded)).next().
-- - ProofTree: src/proving/gateway/handler/proof_tree.rs. Sets describes set_proof by the shape of
--   the tree; Tiling, Settled, Pending and Open are the measures and invariants of trees; Stored,
--   Contract, Whole, Others and InitNode are about the operations.
-- - Messages: src/proving/messages.
-- - Handler: GatewayHandler of src/proving/gateway/handler/mod.rs. process is dispatch, its match,
--   followed by respond, what comes behind it.
-- - Gateway: src/proving/gateway/mod.rs. A round of the loop takes a message of one channel; the
--   state holds the handler and the completion sender.
-- - Emulator: src/proving/emulator.rs: the stdin, the messages for the records, and (Threads) the
--   thread that makes the records with the loop that sends them on, joined by a bounded channel.
--   Delivers shows that they send what run says, in order, and Joins that they end.
-- - Worker: src/proving/worker/prover. Vm names what is called of pico_vm, RiscvConvert, Combine
--   and Recursion (compress and embed) are the provers, Attests is what is relied on of pico_vm,
--   Laws and Failures are about the phases.
-- - System: one task. Step moves one message: the gateway takes one of the emulator, a worker
--   answers any task, or the gateway takes the next one of the workers. The order is open, except
--   that an eager emulation empties its queue before the gateway hears of a worker. Invariant is
--   what holds between the steps; Emulated, Work and Worked, Brought, Answered and Collected show
--   that each kind of step keeps it; Reached, Safety, Liveness, Bounded and Completes draw the
--   conclusions.
-- - Task: prove_task of src/proving/mod.rs, from the start of the provers to the completion, on
--   top of Emulator and System. ProveTask relates a task to the results that it can have; Proved
--   has what stands behind a proof, and Provable which tasks can be proved.
-- - Onchain: src/proving/onchain.rs, with the decoding of the printed proof and a round of the
--   daemon.
-- - Auth: src/utils/auth.rs. Database: the SQL statements, as an interface with what is relied on.
--   Apps: src/app_manager.rs. Queue: src/proving_queue.rs. Cost: src/cost_estimation.rs and
--   src/error.rs. Grpc: the handlers of src/grpc.rs; Grpc.Service is the interceptor and the limit
--   in front of them. Config: src/config.rs.
-- - Server: bin/server.rs: the handlers and the loop of the queue over what they share. Step has
--   an event for each app looked up, task submitted, proof and reply; Invariant, Kept and Safety
--   follow a proof back to its task, and Found its app to the state in which it was looked up;
--   Halted shows what a task that panics ends, and Answered how a task in the queue comes to its
--   reply.
-- - Programs: the programs of bin that make ids, digests and inputs, over an abstract disk. Hex is
--   the print of a digest; Digests, Ids, Written and Dumped say what is printed and written.
-- - Clients: the test clients of bin, bin/test_client.rs and (Reth) bin/test_reth_prove.rs, over
--   the client that tonic generates; Served is such a client of the handlers. Rounds, Queued and
--   Commands say what they put into the queue.
-- - Tests: concrete inputs. States has whole runs: of one chunk, which stops with no embed proof;
--   of two; and of three, of which the third is late, so that two are finished as if they were
--   all.
--
-- Conventions. Numbers are natural numbers; an index is cut to 32 bits where the code does. No
-- function needs fuel but the decimal and the hexadecimal print, whose rounds suffice by
-- value-to_string and lower_hex_64_digits. Loops over channels are recursions over the messages
-- received. The workers of a task differ by name only, so that one stands for all; a worker that
-- has ended is not told apart from one that is idle, which allows more steps than the code has;
-- but it ends only when it has sent an embed proof, after which the task needs no step of a
-- worker. The messages that a worker sends for one task stay together. What pico_vm, bincode,
-- alloy, gnark, sqlx and tonic do is a parameter; what is relied on is a named hypothesis
-- (Attests, IsDatabase, FailsCleanly, IsCodec, ReadsBack), each with an instance in Tests.
--
-- Not modelled: logs, the transport of the server with its layers, the connections of the clients,
-- what the emulation of a program that fails does inside pico_vm, and the CUDA provers, which the
-- code leaves unimplemented.
pub mod Prelude
pub mod BTreeMap
pub mod ProofTree
pub mod Messages
pub mod Handler
pub mod Worker
pub mod Onchain
pub mod Gateway
pub mod Emulator
pub mod System
pub mod Auth
pub mod Database
pub mod Apps
pub mod Queue
pub mod Cost
pub mod Task
pub mod Grpc
pub mod Programs
pub mod Clients
pub mod Config
pub mod Server
pub mod Tests
