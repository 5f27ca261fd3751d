-- ===== src/Server/Answered.antt =====
-- A task in the queue of a running server can come to its proof.
use pico_proving_service.Prelude.{
  ℕ, ◌≡◌, refl, ◌∙◌, List, [], ◌∷◌, ◌++◌, some, Bool, All, Outcome, ok, Result, success, failure,
}
use pico_proving_service.Database.{Database}
use pico_proving_service.Apps.{Toolchain}
use pico_proving_service.Queue.{ProvingKey}
use pico_proving_service.Queue.Outputs.{output-insert}
use pico_proving_service.Grpc.{Task}
use pico_proving_service.Emulator.{Emulation}
use pico_proving_service.Worker.Vm.{PicoVm}
use pico_proving_service.Worker.Attests.{Attests}
use pico_proving_service.Task.{RecvError}
use pico_proving_service.Task.Provable.{Provable, Provable-proves}
use pico_proving_service.Server.Safety.{with_keys, Proves}
use pico_proving_service.Server.{
  Loop, waiting, proving, storing, stopped, Server, Event, replied, takes, proves, fails, stores,
  finds, Reach, begin, later,
}

module _ (tc : Toolchain) (d : Database) {Err : Type 0}
    (P : Task tc d → Outcome (Result Err (List ℕ)) → Type 0) where
  -- A task that ends without a panic.
  abbrev pub Ends : Task tc d → Type 0
  Ends t = (r : Result Err (List ℕ)) × P t (ok r)

  -- The loop comes back for a task.
  abbrev pub Returns : Loop (Task tc d) → Type 0
  Returns waiting = Unit
  Returns (proving t) = Ends t
  Returns (storing key proof) = Unit
  Returns stopped = ⊥

  Reach-append :
      {s t u : Server tc d} {xs ys : List (Event tc d)}
      → Reach tc d P s xs t
      → Reach tc d P t ys u
      → Reach tc d P s (ys ++ xs) u
  Reach-append r begin = r
  Reach-append r (later r' step) = later (Reach-append r r') step

  -- Steps lead to a state with the same queue, whose loop waits.
  abbrev Waits : Server tc d → Type 0
  Waits s =
      (events : List (Event tc d)) × (u : Server tc d) × Reach tc d P s events u
      × (u.loop ≡ waiting)
      × (u.queue ≡ s.queue)

  storing-Waits :
      (s : Server tc d) (key : ProvingKey) (proof : List ℕ) → s.loop ≡ storing key proof → Waits s
  storing-Waits s key proof h = (_, _, later begin (stores key proof h), refl, refl)

  proving-Waits : (s : Server tc d) (t : Task tc d) → s.loop ≡ proving t → Ends t → Waits s
  proving-Waits s t h (failure e, ends) = (_, _, later begin (fails t e h ends), refl, refl)
  proving-Waits s t h (success proof, ends) =
      (_, _, later (later begin (proves t proof h ends)) (stores t.key proof refl), refl, refl)

  Returns-Waits :
      (s : Server tc d) (loop : Loop (Task tc d)) → s.loop ≡ loop → Returns loop → Waits s
  Returns-Waits s waiting h r = ([], s, begin, h, refl)
  Returns-Waits s (proving t) h r = proving-Waits s t h r
  Returns-Waits s (storing key proof) h r = storing-Waits s key proof h
  Returns-Waits s stopped h r = elim r [ ]

  -- Steps lead to the reply.
  abbrev pub Replies : Server tc d → Task tc d → List ℕ → Type 0
  Replies s t proof =
      (events : List (Event tc d)) × (u : Server tc d) × Reach tc d P s
        (replied t.key (success (some proof)) ∷ events) u

  Replies-after :
      {s u : Server tc d} {events : List (Event tc d)} (t : Task tc d) (proof : List ℕ)
      → Reach tc d P s events u
      → Replies u t proof
      → Replies s t proof
  Replies-after t proof r (events', u', r') = (_, u', Reach-append r r')

  -- From a loop that waits, the task at the head.
  head-Replies :
      (s : Server tc d) (t : Task tc d) (q : List (Task tc d)) (proof : List ℕ)
      → s.loop ≡ waiting
      → s.queue ≡ t ∷ q
      → P t (ok (success proof))
      → Replies s t proof
  head-Replies s t q proof h at made = (
    _,
    _,
    later (later (later begin (takes t q h at)) (proves t proof refl made))
        (finds t.key proof (output-insert t.key proof s.shared.outputs)),
  )

  -- A task behind tasks that end.
  queued-Replies :
      (front : List (Task tc d)) (s : Server tc d) (after : List (Task tc d)) (t : Task tc d)
      (proof : List ℕ)
      → s.queue ≡ front ++ t ∷ after
      → Returns s.loop
      → All Ends front
      → P t (ok (success proof))
      → Replies s t proof
  queued-Replies [] s after t proof at returns ends made =
      let (events, u, reached, waits, kept) = Returns-Waits s s.loop refl returns in
      Replies-after t proof reached (head-Replies u t after proof waits (kept ∙ at) made)
  queued-Replies (x ∷ front) s after t proof at returns (first, ends) made =
      let (events, u, reached, waits, kept) = Returns-Waits s s.loop refl returns in
      let taken = takes x (front ++ t ∷ after) waits (kept ∙ at) in
      Replies-after t proof (later reached taken) (
        queued-Replies front (record u { queue = front ++ t ∷ after; loop = proving x }) after t
          proof refl first ends made)

module _ (tc : Toolchain) (d : Database) (vm : PicoVm) (as_pk : tc.ProvingKey → vm.ProvingKey)
    (as_vk : tc.VerifyingKey → vm.VerifyingKey) {Err : Type 0}
    (em : Emulation vm.EmulationRecord tc.Program)
    (prove_onchain : vm.EmbedProof → Outcome (Result Err (List ℕ))) (prover_count : ℕ)
    (eager : Bool) (v : Attests vm) where
  abbrev P : Task tc d → Outcome (Result RecvError (List ℕ)) → Type 0
  P = Proves tc d vm as_pk as_vk em prove_onchain prover_count eager

  -- If a task is in the queue of a server, the loop has not ended by a panic, and the task that it
  -- proves and those ahead in the queue have a result without a panic, then steps of the server
  -- lead to a reply with a proof for the key of the task. The task is taken to run on the CPU with
  -- a prover at least, and with a stdin for its inputs, on which its program makes two records at
  -- least; the compress and embed phases not to fail on a proof of the first records; an embed
  -- proof of all records to verify; and an on-chain proof to be made, or to fail, without a panic.
  pub Provable-Replies :
      (s : Server tc d) (front after : List (Task tc d)) (t : Task tc d)
      → s.queue ≡ front ++ t ∷ after
      → Returns tc d P s.loop
      → All (Ends tc d P) front
      → Provable vm em prove_onchain prover_count eager v
          (with_keys tc d vm as_pk as_vk em prove_onchain prover_count eager t)
      → (proof : List ℕ) × Replies tc d P s t proof
  Provable-Replies s front after t at returns ends p =
      let (proof, made) =
        Provable-proves vm em prove_onchain prover_count eager v
          (with_keys tc d vm as_pk as_vk em prove_onchain prover_count eager t) p in
      (proof, queued-Replies tc d P front s after t proof at returns ends made)
