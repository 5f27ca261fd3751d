-- ===== src/Server/Halted.antt =====
-- A task that cannot be proved ends the loop of the queue, and with it all proving.
use pico_proving_service.Prelude.{
  ℕ, ◌≡◌, refl, ap, List, [], ◌∷◌, Bool, Outcome, Result, ◌≢◌, subst, length, arith,
}
use pico_proving_service.Database.{Database}
use pico_proving_service.Apps.{Toolchain}
use pico_proving_service.Grpc.{Task}
use pico_proving_service.Emulator.{Emulation}
use pico_proving_service.Worker.Vm.{PicoVm}
use pico_proving_service.Task.{RecvError}
use pico_proving_service.Task.Proved.{Unprovable, Unprovable-panics}
use pico_proving_service.Server.{
  Loop, waiting, proving, storing, stopped, Server, Event, proved, Step, checks, inserts, looks_up,
  submits, takes, proves, fails, panics, stores, finds, misses, reads, Reach, begin, later,
}
use pico_proving_service.Server.Invariant.{Among, last, before}
use pico_proving_service.Server.Safety.{with_keys, Proves}

module _ (tc : Toolchain) (d : Database) (vm : PicoVm) (as_pk : tc.ProvingKey → vm.ProvingKey)
    (as_vk : tc.VerifyingKey → vm.VerifyingKey) {Err : Type 0}
    (em : Emulation vm.EmulationRecord tc.Program)
    (prove_onchain : vm.EmbedProof → Outcome (Result Err (List ℕ))) (prover_count : ℕ)
    (eager : Bool) where
  -- The loop has a task that asks for a GPU or whose inputs are no stdin, or it has ended.
  abbrev pub Halted : Loop (Task tc d) → Type 0
  Halted (proving t) =
      Unprovable vm em prove_onchain prover_count eager
        (with_keys tc d vm as_pk as_vk em prove_onchain prover_count eager t)
  Halted stopped = Unit
  Halted waiting = ⊥
  Halted (storing key proof) = ⊥

  abbrev P : Task tc d → Outcome (Result RecvError (List ℕ)) → Type 0
  P = Proves tc d vm as_pk as_vk em prove_onchain prover_count eager

  -- While the loop is halted no step takes a task or proves one.
  Halted-Step :
      {s : Server tc d} {x : Event tc d} {t : Server tc d}
      → Halted s.loop
      → Step tc d P s x t
      → Halted t.loop × ((k : Task tc d) (p : List ℕ) → x ≢ proved k p)
  Halted-Step h (checks elf info app made e) = (h, λ k p e. absurd cc)
  Halted-Step h (inserts front after app row at made) = (h, λ k p e. absurd cc)
  Halted-Step h (looks_up req app e) = (h, λ k p e. absurd cc)
  Halted-Step h (submits front after req app queue at e) = (h, λ k p e. absurd cc)
  Halted-Step h (takes t q w at) = absurd (subst Halted w h)
  Halted-Step h (stores key proof at) = absurd (subst Halted at h)
  Halted-Step h (proves t proof at made) =
      let (x, e) =
        Unprovable-panics vm em prove_onchain prover_count eager
          (with_keys tc d vm as_pk as_vk em prove_onchain prover_count eager t) (subst Halted at h)
          made in
      absurd cc
  Halted-Step h (fails t err at made) =
      let (x, e) =
        Unprovable-panics vm em prove_onchain prover_count eager
          (with_keys tc d vm as_pk as_vk em prove_onchain prover_count eager t) (subst Halted at h)
          made in
      absurd cc
  Halted-Step h (panics t x at made) = (tt, λ k p e. absurd cc)
  Halted-Step h (finds key proof e) = (h, λ k p e. absurd cc)
  Halted-Step h (misses key e) = (h, λ k p e. absurd cc)
  Halted-Step h (reads front after key at) = (h, λ k p e. absurd cc)

  -- If the loop of the queue has ended by a panic, or proves a task that asks for a GPU or whose
  -- inputs are not the bytes of a stdin, then however the server goes on, the loop stays so, and no
  -- task is proved any more.
  pub Halted-for_good :
      {s : Server tc d} {events : List (Event tc d)} {t : Server tc d}
      → Halted s.loop
      → Reach tc d P s events t
      → Halted t.loop × ((k : Task tc d) (p : List ℕ) → ¬ Among (proved k p) events)
  Halted-for_good h begin = (h, λ k p m. none_yet m refl)
    where
      none_yet :
          {k : Task tc d} {p : List ℕ} {xs : List (Event tc d)}
          → Among (proved k p) xs
          → xs ≡ []
          → ⊥
      none_yet last e = let e' = ap (λ (x : List (Event tc d)). length x) e in absurd (omega arith)
      none_yet (before m) e =
          let e' = ap (λ (x : List (Event tc d)). length x) e in absurd (omega arith)
  Halted-for_good h (later {events} {event} r step) =
      let (h', silent) = Halted-for_good h r in
      let (h'', quiet_now) = Halted-Step h' step in
      (h'', λ k p m. still k p silent quiet_now m refl)
    where
      still :
          (k : Task tc d) (p : List ℕ)
          → ((k : Task tc d) (p : List ℕ) → ¬ Among (proved k p) events)
          → ((k : Task tc d) (p : List ℕ) → event ≢ proved k p)
          → {xs : List (Event tc d)} → Among (proved k p) xs
          → xs ≡ event ∷ events
          → ⊥
      still k p silent quiet_now last e = quiet_now k p (cc)
      still k p silent quiet_now (before m) e = silent k p (subst (Among (proved k p)) (cc) m)
