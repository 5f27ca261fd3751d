-- ===== src/Server/Steady.antt =====
-- What a step of a running server leaves as it was, and what a store in the database adds.
use pico_proving_service.Prelude.{
  ℕ, ◌≡◌, ◌≢◌, refl, sym, ap, ◌∙◌, ◌⊎◌, inl, inr, List, [], ◌∷◌, Option, none, some, Outcome,
  Result, success, failure, All, subst,
}
use mathlib.Core.Path.{ap₂}
use pico_proving_service.Database.{Database, IsDatabase, FailsCleanly}
use pico_proving_service.Apps.{Toolchain, App}
use pico_proving_service.Queue.{ProvingKey, output}
use pico_proving_service.Queue.Outputs.{output-empty, key-cases}
use pico_proving_service.Grpc.{ProveTaskRequest, from_row_or, Task}
use pico_proving_service.Grpc.Results.{parts_differ}
use pico_proving_service.Server.{Loop, Server, main, Event, replied}
use pico_proving_service.Server.Invariant.{
  Among, last, Sent, LookedUp, Made, Known, Held, Inv, Made-later, Known-later, Queued-later,
  LookedUp-later, Held-later, Told-later,
}

module _ (tc : Toolchain) (d : Database) (law : IsDatabase d) (clean : FailsCleanly d) where
  open d use {Db, DbError}

  -- A proof in the database after a store is the one stored, or was there before.
  pub stored-proof :
      (s : Db) (key k : ProvingKey) (proof : List ℕ) {p : List ℕ}
      (o : Result DbError (Unit {0}) × Db)
      → d.replace_proof s key.app_id key.task_id proof ≡ o
      → d.select_proof o.1 k.app_id k.task_id ≡ success (some (some p))
      → ((key ≡ k) × (proof ≡ p)) ⊎ (d.select_proof s k.app_id k.task_id ≡ success (some (some p)))
  stored-proof s key k proof (failure e, s') h found =
      inr (sym (clean.replace_failed s s' _ _ k.app_id k.task_id proof e h) ∙ found)
  stored-proof s key k proof (success _, s') h found = elim (key-cases k key) [
    | inr ne ↦ inr (
        sym (
          law.replace_other s s' _ _ k.app_id k.task_id proof (success tt) h
            (parts_differ k key ne))
        ∙ found)
    | inl e ↦
        let there =
          ap₂ (d.select_proof s') (ap (λ (x : ProvingKey). x.app_id) e)
            (ap (λ (x : ProvingKey). x.task_id) e)
          ∙ law.replaced s s' key.app_id key.task_id proof h in
        inl (sym e, same_proof there found)
  ]
    where
      same_proof :
          {x : Result DbError (Option (Option (List ℕ)))} {a b : List ℕ}
          → x ≡ success (some (some a))
          → x ≡ success (some (some b))
          → a ≡ b
      same_proof h h' = cc

  pub from_row-some :
      (x : Result DbError (Option (Option (List ℕ)))) (p : List ℕ)
      → from_row_or tc d x ≡ success (some p)
      → x ≡ success (some (some p))
  from_row-some (failure e) p h = absurd cc
  from_row-some (success none) p h = absurd cc
  from_row-some (success (some none)) p h = absurd cc
  from_row-some (success (some (some q))) p h = cc

  module _ {Err : Type 0} (Proves : Task tc d → Outcome (Result Err (List ℕ)) → Type 0)
      (start : Db) where
    abbrev pub I : List (Event tc d) → Server tc d → Type 0
    I events s = Inv tc d Proves start events s

    pub main-Inv : I [] (main tc d start)
    main-Inv = record {
      in_memory = λ key proof h. (let no_proof = output-empty key in absurd cc);
      in_db = λ key proof h. inr h;
      looked = tt;
      queued = tt;
      held = tt;
      told = λ key proof m. none_yet m refl;
    }
      where
        none_yet : {A : Type 0} {x : Event tc d} {xs : List (Event tc d)} → Among x xs → xs ≡ [] → A
        none_yet last h = absurd cc
        none_yet (Among.before m) h = absurd cc

    -- What a step leaves as it was, after its event.
    module _ {events : List (Event tc d)} {s : Server tc d} (inv : I events s)
        (x : Event tc d) where
      pub memory_kept :
          (k : ProvingKey) (p : List ℕ)
          → output k s.shared.outputs ≡ some p
          → Made tc d Proves start (x ∷ events) k p
      memory_kept k p o = Made-later tc d Proves start events x (inv.in_memory k p o)

      pub db_kept :
          (k : ProvingKey) (p : List ℕ)
          → d.select_proof s.shared.db k.app_id k.task_id ≡ success (some (some p))
          → Known tc d Proves start (x ∷ events) k p
      db_kept k p o = Known-later tc d Proves start events x (inv.in_db k p o)

      pub queue_kept : All (Sent tc d (x ∷ events)) s.queue
      queue_kept = Queued-later tc d Proves start events x s.queue inv.queued

      pub sending_kept : All (LookedUp tc d (x ∷ events)) s.sending
      sending_kept = LookedUp-later tc d Proves start events x s.sending inv.looked

      pub loop_kept : Held tc d Proves start (x ∷ events) s.loop
      loop_kept = Held-later tc d Proves start events x s.loop inv.held

      pub told_kept :
          ((k : ProvingKey) (p : List ℕ)
            → x ≡ replied k (success (some p))
            → Known tc d Proves start (x ∷ events) k p)
          → (k : ProvingKey) (p : List ℕ) → Among (replied k (success (some p))) (x ∷ events)
          → Known tc d Proves start (x ∷ events) k p
      told_kept = Told-later tc d Proves start events x inv.told

    -- A step with no reply that leaves the proofs where they are.
    pub quietly :
        {events : List (Event tc d)} {s : Server tc d}
        → I events s
        → (x : Event tc d) → ((k : ProvingKey) (p : List ℕ) → x ≢ replied k (success (some p)))
        → (queue : List (Task tc d)) → All (Sent tc d (x ∷ events)) queue
        → (loop : Loop (Task tc d)) → Held tc d Proves start (x ∷ events) loop
        → (registering : List (App tc)) (sending : List (ProveTaskRequest × App tc))
        → All (LookedUp tc d (x ∷ events)) sending
        → (reading : List ProvingKey)
        → I (x ∷ events) (record {
          shared = s.shared;
          queue = queue;
          loop = loop;
          registering = registering;
          sending = sending;
          reading = reading;
        })
    quietly inv x silent queue queued loop held registering sending looked reading = record {
      in_memory = memory_kept inv x;
      in_db = db_kept inv x;
      looked = looked;
      queued = queued;
      held = held;
      told = told_kept inv x (λ k p h. absurd (silent k p h));
    }

    pub reply-Known :
        {events : List (Event tc d)} (y : Event tc d) (key k : ProvingKey) (proof p : List ℕ)
        → ◌≡◌ {A = Event tc d} (replied key (success (some proof))) (replied k (success (some p)))
        → Known tc d Proves start (y ∷ events) key proof
        → Known tc d Proves start (y ∷ events) k p
    reply-Known {events} y key k proof p h known =
        let e : key ≡ k = cc in
        let e' : proof ≡ p = cc in
        subst (λ z. Known tc d Proves start (y ∷ events) z p) e
          (subst (Known tc d Proves start (y ∷ events) key) e' known)
