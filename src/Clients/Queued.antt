-- ===== src/Clients/Queued.antt =====
-- What the client of bin/test_reth_prove.rs puts into the queue of the service.
use pico_proving_service.Prelude.{
  ℕ, zero, suc, ◌%◌, ◌≡◌, ◌≢◌, refl, sym, ap, ◌∙◌, subst, ◌⊎◌, inl, inr, List, [], ◌∷◌, ◌++◌,
  append-nil, append_assoc, Bool, true, false, Option, none, some, Text, Outcome, ok, panic, ◌>>=◌,
  Result, success, failure, ◌==◌, ==_iff, if◌then◌else◌, >>=-eq-ok, map-eq-ok, ok-eq,
}
use pico_proving_service.Database.{Database}
use pico_proving_service.Queue.{Shared}
use pico_proving_service.Cost.{Estimator}
use pico_proving_service.Apps.{Toolchain, App, new}
use pico_proving_service.Emulator.{Emulation}
use pico_proving_service.Grpc.{register_app, RegisterAppResponse, Status, Task}
use pico_proving_service.Programs.{Disk}
use pico_proving_service.Programs.Inputs.{Writer}
use pico_proving_service.Clients.{ProverNetworkClient, ClientError, io}
use pico_proving_service.Clients.Reth.{
  Cli, BlockExecutor, reth_elf_path, register_elf, block_round, ready, go_on, blocks, prove_blocks,
  test_reth_prove,
}
use pico_proving_service.Clients.Served.{after_register, Service, CallError, served}
use pico_proving_service.Clients.Rounds.{Asks, Leaves, block_round-Leaves}

-- The test for a block, if it does not panic.
ready-multiple : (k n : ℕ) (b : Bool) → ready k n ≡ ok b → (n % k == 0) ≡ b
ready-multiple zero n b h = absurd cc
ready-multiple (suc k) n b h = ok-eq h

module _ {R Program : Type 0} (tc : Toolchain) (d : Database) (disk : Disk)
    (em : Emulation R Program) (w : Writer em.StdinBuilder)
    (executor : BlockExecutor w.ClientInput em.StdinBuilder) where
  module _ (cli : Cli) (db : d.Db) (id : Text)
      (r : Result (ClientError disk.IoError (CallError tc d)) (Unit {0})) where
    -- The tasks for the blocks of a list whose numbers are multiples of the interval, in order; if
    -- the client ends in an error, for some of the first ones.
    pub data Queued : List ℕ → List (Task tc d) → Type 0 where
      ended : r ≡ success tt → Queued [] []
      cut :
          {ns : List ℕ} (e : ClientError disk.IoError (CallError tc d))
          → r ≡ failure e
          → Queued ns []
      skips :
          {n : ℕ} {ns : List ℕ} {tasks : List (Task tc d)}
          → n % cli.block_interval ≢ 0
          → Queued ns tasks
          → Queued (n ∷ ns) tasks
      asks :
          {n : ℕ} {ns : List ℕ} {task : Task tc d} {tasks : List (Task tc d)}
          → n % cli.block_interval ≡ 0
          → Asks tc d em w executor cli db id n task
          → Queued ns tasks
          → Queued (n ∷ ns) (task ∷ tasks)

module _ {R Program : Type 0} (tc : Toolchain) (d : Database) (disk : Disk)
    (em : Emulation R Program) (w : Writer em.StdinBuilder)
    (executor : BlockExecutor w.ClientInput em.StdinBuilder) (es : Estimator)
    (task_of_app : App tc → es.Task) (to_be_bytes_vec : ℕ → List ℕ) (max_cycles : Option ℕ) where
  abbrev Client : ProverNetworkClient
  Client = served tc d es task_of_app to_be_bytes_vec max_cycles

  module _ (cli : Cli) (id : Text) where
    abbrev S : Type 0
    S = Service tc d

    abbrev E : Type 0
    E = ClientError disk.IoError (CallError tc d)

    abbrev Round : Type 0
    Round = Result E (Unit {0}) × S

    -- What a loop over blocks leaves: tasks behind the others.
    abbrev Gives : S → List ℕ → Round → Type 0
    Gives s ns (r, s') =
        (tasks : List (Task tc d)) × (s'.shared ≡ s.shared)
        × (s'.queue ≡ s.queue ++ tasks)
        × Queued tc d disk em w executor cli s.shared.db id r ns tasks

    -- Behind a task for the first block.
    one_more-Gives :
        (s s1 : S) (n : ℕ) (ns : List ℕ) (task : Task tc d) (x : Round)
        → n % cli.block_interval ≡ 0
        → s1.shared ≡ s.shared
        → s1.queue ≡ s.queue ++ task ∷ []
        → Asks tc d em w executor cli s.shared.db id n task
        → Gives s1 ns x
        → Gives s (n ∷ ns) x
    one_more-Gives s s1 n ns task (r, s') mul same there asked (tasks, same', there', queued) = (
      task ∷ tasks,
      same' ∙ same,
      there' ∙ ap (λ q. q ++ tasks) there ∙ append_assoc s.queue (task ∷ []) tasks,
      asks mul asked (
          subst (λ (x : Shared d). Queued tc d disk em w executor cli x.db id r ns tasks) same
            queued),
    )

    abbrev Loop : Type 0
    Loop = S → Outcome Round

    abbrev Loops : List ℕ → Loop → Type 0
    Loops ns rest = (s : S) (x : Round) → rest s ≡ ok x → Gives s ns x

    go_on-Gives :
        (s : S) (n : ℕ) (ns : List ℕ) (rest : Loop)
        → Loops ns rest
        → n % cli.block_interval ≡ 0
        → (x y : Round)
        → Leaves tc d disk em w executor es task_of_app to_be_bytes_vec max_cycles cli id s n x
        → go_on tc disk Client em w executor rest x ≡ ok y
        → Gives s (n ∷ ns) y
    go_on-Gives s n ns rest loops mul (success _, s1) y (same, inr (e, p, there)) h = absurd cc
    go_on-Gives s n ns rest loops mul (success _, s1) y (same, inl (task, there, asked)) h =
        one_more-Gives s s1 n ns task y mul same there asked (loops s1 y h)
    go_on-Gives s n ns rest loops mul (failure e, s1) y (same, inl (task, there, asked)) h =
        subst (Gives s (n ∷ ns)) (ok-eq h) (task ∷ [], same, there, asks mul asked (cut e refl))
    go_on-Gives s n ns rest loops mul (failure e, s1) y (same, inr (_, _, there)) h =
        subst (Gives s (n ∷ ns)) (ok-eq h) ([], same, there ∙ sym (append-nil s.queue), cut e refl)

    blocks-Gives :
        ((b : em.StdinBuilder) (bytes : List ℕ)
          → w.serialize b ≡ some bytes
          → em.deserialize bytes ≡ some b)
        → (ns : List ℕ) → Loops ns (blocks tc disk Client em w executor cli id ns)
    unfolding blocks
    blocks-Gives codec_law [] s x h =
        subst (Gives s []) (ok-eq h) ([], refl, sym (append-nil s.queue), ended refl)
    blocks-Gives codec_law (n ∷ ns) s x h =
        let (b, wanted, h') = >>=-eq-ok (ready cli.block_interval n) _ h in
        by b (ready-multiple cli.block_interval n b wanted) (blocks-Gives codec_law ns) h'
      where
        by :
            (b : Bool)
            → (n % cli.block_interval == 0) ≡ b
            → Loops ns (blocks tc disk Client em w executor cli id ns)
            → (if b
                then go_on tc disk Client em w executor
                    (blocks tc disk Client em w executor cli id ns)
                    (block_round tc disk Client em w executor cli id n s)
                else blocks tc disk Client em w executor cli id ns s)
              ≡ ok x
            → Gives s (n ∷ ns) x
        by true mul loops h =
            go_on-Gives s n ns _ loops ((==_iff _ _).0 mul)
              (block_round tc disk Client em w executor cli id n s) x
              (block_round-Leaves tc d disk em w executor es task_of_app to_be_bytes_vec max_cycles
                cli id codec_law s n)
              h
        by false mul loops h =
            let (tasks, same, there, queued) = loops s x h in
            (
              tasks,
              same,
              there,
              skips (λ e. let clash : true ≡ false = sym ((==_iff _ _).1 e) ∙ mul in cc) queued,
            )

  register-queue :
      (s : Service tc d) (o : Outcome (Result (Status d.DbError) RegisterAppResponse × d.Db))
      → (after_register tc d s o).1.queue ≡ s.queue
  register-queue s (panic x) = refl
  register-queue s (ok (success r, db)) = refl
  register-queue s (ok (failure e, db)) = refl

  -- What the client leaves at its end.
  abbrev pub Ends :
      disk.Files
      → Cli
      → List ℕ
      → Service tc d
      → Result (ClientError disk.IoError (CallError tc d)) (Unit {0})
      → Service tc d
      → Type 0
  Ends fs cli ns s r s' =
      ((e : disk.IoError) × (disk.read fs reth_elf_path ≡ failure e)
        × (r ≡ failure (io e))
        × (s' ≡ s))
      ⊎ ((elf : List ℕ) × (app : App tc) × (tasks : List (Task tc d)) × (disk.read fs reth_elf_path
            ≡ success elf)
          × (new tc elf none ≡ ok app)
          × (s'.queue ≡ s.queue ++ tasks)
          × Queued tc d disk em w executor cli s'.shared.db app.app_id r ns tasks)

  -- If `test_reth_prove` ends, with success or an error, then its ELF file cannot be read, and the
  -- service is as before; or it leaves a task behind the others for each block whose number is a
  -- multiple of the interval, in order, and for some of the first ones of them if it ends in an
  -- error. The task is named `task-block-` with the number of the block, its key has the id of the
  -- app of the ELF file, its program is the one that the database has under this id, and the
  -- emulator reads the input of the block from its inputs. No other client uses the service
  -- meanwhile, and a stdin builder is taken to be read back from its bytes.
  pub test_reth_prove-Queued :
      ((b : em.StdinBuilder) (bytes : List ℕ)
        → w.serialize b ≡ some bytes
        → em.deserialize bytes ≡ some b)
      → (fs : disk.Files) (cli : Cli) (ns : List ℕ) (s s' : Service tc d)
        (r : Result (ClientError disk.IoError (CallError tc d)) (Unit {0}))
      → test_reth_prove tc disk Client em w executor fs cli ns s ≡ ok (r, s')
      → Ends fs cli ns s r s'
  unfolding test_reth_prove
  test_reth_prove-Queued codec_law fs cli ns s s' r h = go (disk.read fs reth_elf_path) refl h
    where
      go :
          (o : Result disk.IoError (List ℕ))
          → disk.read fs reth_elf_path ≡ o
          → (register_elf tc disk Client em w executor s o
              >>= prove_blocks tc disk Client em w executor cli ns)
            ≡ ok (r, s')
          → Ends fs cli ns s r s'
      go (failure e) found h =
          inl (e, found, sym (ap (λ x. x.0) (ok-eq h)), sym (ap (λ x. x.1) (ok-eq h)))
      go (success elf) found h =
          let (mid, made, rest) =
            >>=-eq-ok (register_elf tc disk Client em w executor s (success elf)) _ h in
          let (app, own, e) =
            map-eq-ok (new tc elf none) (λ app. (success app, (Client.register_app s elf none).1))
              made in
          let s1 = (Client.register_app s elf none).1 in
          let rest' =
            subst (λ x. prove_blocks tc disk Client em w executor cli ns x ≡ ok (r, s')) (sym e)
              rest in
          let (tasks, same, there, queued) =
            blocks-Gives cli app.app_id codec_law ns s1 (r, s') rest' in
          inr (
            elf,
            app,
            tasks,
            found,
            own,
            there
                ∙ ap (λ q. q ++ tasks) (register-queue s (register_app tc d s.shared.db elf none)),
            subst (λ (x : Shared d). Queued tc d disk em w executor cli x.db app.app_id r ns tasks)
                (sym same) queued,
          )
