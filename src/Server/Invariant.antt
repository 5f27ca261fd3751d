-- ===== src/Server/Invariant.antt =====
-- Where the proofs of a running server come from.
use pico_proving_service.Prelude.{
  ℕ, ◌≡◌, ◌↔◌, Bool, true, Option, none, ap, refl, ◌⊎◌, inl, inr, List, [], ◌∷◌, some, Outcome, ok,
  Result, success, All, subst,
}
use pico_proving_service.Database.{Database}
use pico_proving_service.Apps.{Toolchain, App}
use pico_proving_service.Queue.{ProvingKey, output}
use pico_proving_service.Grpc.{ProveTaskRequest, Task, task_of, unwrap_or_false}
use pico_proving_service.Server.{
  Loop, waiting, proving, storing, stopped, Server, Event, looked_up, submitted, proved, replied,
}

pub data Among {A : Type 0} (a : A) : List A → Type 0 where
  last : {xs : List A} → Among a (a ∷ xs)
  before : {x : A} {xs : List A} → Among a xs → Among a (x ∷ xs)

module _ (tc : Toolchain) (d : Database) where
  open d use {Db, DbError}

  -- A task that a request has asked for, with the app that was found for it.
  pub record Sent (events : List (Event tc d)) (t : Task tc d) : Type 0 where
    pub req : ProveTaskRequest
    pub app : App tc
    pub looked : Among (looked_up req app) events
    pub asked : Among (submitted req t) events
    pub key : t.key ≡ record { app_id = req.app_id; task_id = req.task_id }
    pub program : t.program ≡ app.program
    pub keys : ◌≡◌ {A = tc.ProvingKey × tc.VerifyingKey} (t.pk, t.vk) (app.pk, app.vk)
    pub inputs : t.inputs ≡ req.inputs
    pub on_gpu : (t.use_gpu ≡ true) ↔ (req.use_gpu ≡ some true)

  gpu_asked : (o : Option Bool) → (unwrap_or_false o ≡ true) ↔ (o ≡ some true)
  gpu_asked none = (λ h. cc, λ h. cc)
  gpu_asked (some b) = (λ h. ap some h, λ h. cc)

  -- The task of a request that has found its app.
  pub task_of-Sent :
      {events : List (Event tc d)} (req : ProveTaskRequest) (app : App tc)
      → Among (looked_up req app) events
      → Among (submitted req (task_of tc d req app)) events
      → Sent events (task_of tc d req app)
  task_of-Sent req app looked asked = record {
    req = req;
    app = app;
    looked = looked;
    asked = asked;
    key = refl;
    program = refl;
    keys = refl;
    inputs = refl;
    on_gpu = gpu_asked req.use_gpu;
  }

  -- A request with the app that was found for it.
  abbrev pub LookedUp : List (Event tc d) → ProveTaskRequest × App tc → Type 0
  LookedUp events (req, app) = Among (looked_up req app) events

  module _ {Err : Type 0} (Proves : Task tc d → Outcome (Result Err (List ℕ)) → Type 0)
      (start : Db) where
    -- A proof of a task with the key, which a request has asked for and `prove_task` has returned.
    pub record Made (events : List (Event tc d)) (key : ProvingKey) (proof : List ℕ) : Type 0 where
      pub task : Task tc d
      pub keyed : task.key ≡ key
      pub sent : Sent events task
      pub shown : Among (proved task proof) events
      pub proven : Proves task (ok (success proof))

    -- Or one that was in the database at the start.
    abbrev pub Known : List (Event tc d) → ProvingKey → List ℕ → Type 0
    Known events key proof =
        Made events key proof
        ⊎ (d.select_proof start key.app_id key.task_id ≡ success (some (some proof)))

    abbrev pub Held : List (Event tc d) → Loop (Task tc d) → Type 0
    Held events waiting = Unit
    Held events (proving t) = Sent events t
    Held events (storing key proof) = Made events key proof
    Held events stopped = Unit

    pub record Inv (events : List (Event tc d)) (s : Server tc d) : Type 0 where
      pub in_memory :
          (key : ProvingKey) (proof : List ℕ)
          → output key s.shared.outputs ≡ some proof
          → Made events key proof
      pub in_db :
          (key : ProvingKey) (proof : List ℕ)
          → d.select_proof s.shared.db key.app_id key.task_id ≡ success (some (some proof))
          → Known events key proof
      pub looked : All (LookedUp events) s.sending
      pub queued : All (Sent events) s.queue
      pub held : Held events s.loop
      pub told :
          (key : ProvingKey) (proof : List ℕ)
          → Among (replied key (success (some proof))) events
          → Known events key proof

    -- What holds stays so when more happens.
    module _ (events : List (Event tc d)) (x : Event tc d) where
      pub Sent-later : {t : Task tc d} → Sent events t → Sent (x ∷ events) t
      Sent-later k = record {
        req = k.req;
        app = k.app;
        looked = before k.looked;
        asked = before k.asked;
        key = k.key;
        program = k.program;
        keys = k.keys;
        inputs = k.inputs;
        on_gpu = k.on_gpu;
      }

      pub Made-later :
          {key : ProvingKey} {proof : List ℕ} → Made events key proof → Made (x ∷ events) key proof
      Made-later m = record {
        task = m.task;
        keyed = m.keyed;
        sent = Sent-later m.sent;
        shown = before m.shown;
        proven = m.proven;
      }

      pub Known-later :
          {key : ProvingKey} {proof : List ℕ}
          → Known events key proof
          → Known (x ∷ events) key proof
      Known-later (inl m) = inl (Made-later m)
      Known-later (inr h) = inr h

      pub Queued-later : (q : List (Task tc d)) → All (Sent events) q → All (Sent (x ∷ events)) q
      Queued-later [] h = tt
      Queued-later (t ∷ q) h = (Sent-later h.0, Queued-later q h.1)

      pub LookedUp-later :
          (q : List (ProveTaskRequest × App tc))
          → All (LookedUp events) q
          → All (LookedUp (x ∷ events)) q
      LookedUp-later [] h = tt
      LookedUp-later (_ ∷ q) h = (before h.0, LookedUp-later q h.1)

      pub Held-later : (l : Loop (Task tc d)) → Held events l → Held (x ∷ events) l
      Held-later waiting h = tt
      Held-later (proving t) h = Sent-later h
      Held-later (storing key proof) h = Made-later h
      Held-later stopped h = tt

      -- A step that replies with no proof, and one that replies with a known one.
      pub Told-later :
          ((key : ProvingKey) (proof : List ℕ)
            → Among (replied key (success (some proof))) events
            → Known events key proof)
          → ((key : ProvingKey) (proof : List ℕ)
              → x ≡ replied key (success (some proof))
              → Known (x ∷ events) key proof)
          → (key : ProvingKey) (proof : List ℕ)
          → Among (replied key (success (some proof))) (x ∷ events)
          → Known (x ∷ events) key proof
      Told-later old new key proof m = go m refl
        where
          go :
              {xs : List (Event tc d)}
              → Among (replied key (success (some proof))) xs
              → xs ≡ x ∷ events
              → Known (x ∷ events) key proof
          go last h = new key proof (cc)
          go (before m) h =
              Known-later
                (old key proof (subst (Among (replied key (success (some proof)))) (cc) m))
