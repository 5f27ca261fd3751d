-- ===== src/Server/Safety.antt =====
-- Every proof that a server hands out is a proof of the program that was asked for.
use pico_proving_service.Prelude.{
  ℕ, ◌≡◌, ◌⊎◌, inl, inr, List, some, Bool, Outcome, Result, success, refl,
}
use pico_proving_service.Database.{Database, IsDatabase, FailsCleanly}
use pico_proving_service.Apps.{Toolchain}
use pico_proving_service.Queue.{ProvingKey, ProvingTask}
use pico_proving_service.Grpc.{Task}
use pico_proving_service.Emulator.{Emulation}
use pico_proving_service.Worker.Vm.{PicoVm}
use pico_proving_service.Worker.Attests.{Attests}
use pico_proving_service.Task.{RecvError, ProveTask}
use pico_proving_service.Task.Proved.{Backed, proved-Backed}
use pico_proving_service.Server.{Server, Event, replied, Reach, main}
use pico_proving_service.Server.Invariant.{Among, Made}
use pico_proving_service.Server.Found.{Found, looked_up-Found}
use pico_proving_service.Server.Kept.{Reach-Inv}

module _ (tc : Toolchain) (d : Database) (vm : PicoVm) (as_pk : tc.ProvingKey → vm.ProvingKey)
    (as_vk : tc.VerifyingKey → vm.VerifyingKey) {Err : Type 0}
    (em : Emulation vm.EmulationRecord tc.Program)
    (prove_onchain : vm.EmbedProof → Outcome (Result Err (List ℕ))) (prover_count : ℕ)
    (eager : Bool) where
  -- A task with its keys, which are of one type in the code, as those of the provers.
  abbrev pub with_keys : Task tc d → ProvingTask tc.Program vm.ProvingKey vm.VerifyingKey
  with_keys t = record {
    key = t.key;
    program = t.program;
    pk = as_pk t.pk;
    vk = as_vk t.vk;
    inputs = t.inputs;
    use_gpu = t.use_gpu;
  }

  abbrev pub Proves : Task tc d → Outcome (Result RecvError (List ℕ)) → Type 0
  Proves t = ProveTask vm em prove_onchain prover_count eager (with_keys t)

  -- A proof of a task that was asked for under the key, with what stands behind it.
  pub record Genuine (v : Attests vm) (start : d.Db) (events : List (Event tc d))
      (end : Server tc d) (key : ProvingKey) (proof : List ℕ) : Type 0 where
    pub made : Made tc d Proves start events key proof
    pub app_found : Found tc d Proves (main tc d start) events end made.sent.req made.sent.app
    pub backed : Backed vm em prove_onchain prover_count eager v (with_keys made.task) proof

  -- In every state that a server comes to from a database, a proof that it has handed out for a key
  -- was in that database under the key, or is the on-chain proof (empty, if that failed) of an
  -- embed proof for a task with the key: a request has asked for the task, which has the ids, the
  -- inputs and the flag of the request, and the program and the keys of an app that the database
  -- had for the request in an earlier state of the same run; and the embed proof attests the
  -- records, from the first one on, that the program makes on the inputs of the request: all of
  -- them, if the emulation is quicker than every worker. The database is taken to give back what it
  -- stored and to keep the rest, and the proofs of pico_vm to attest what they are made from.
  pub replied-Genuine :
      IsDatabase d
      → FailsCleanly d
      → (v : Attests vm) (start : d.Db) (events : List (Event tc d)) (s : Server tc d)
        (key : ProvingKey) (proof : List ℕ)
      → Reach tc d Proves (main tc d start) events s
      → Among (replied key (success (some proof))) events
      → (d.select_proof start key.app_id key.task_id ≡ success (some (some proof)))
        ⊎ Genuine v start events s key proof
  replied-Genuine law clean v start events s key proof r told =
      elim ((Reach-Inv tc d law clean Proves start r).told key proof told) [
        | inr old ↦ inl old
        | inl made ↦ inr (record {
          made = made;
          app_found = looked_up-Found tc d Proves made.sent.req made.sent.app r made.sent.looked;
          backed =
              proved-Backed vm em prove_onchain prover_count eager v (with_keys made.task) proof
                made.proven refl;
        })
      ]
