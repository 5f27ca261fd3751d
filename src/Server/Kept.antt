-- ===== src/Server/Kept.antt =====
-- Every step of a running server keeps track of where its proofs come from.
use pico_proving_service.Prelude.{
  ℕ, ◌≡◌, refl, sym, ◌∙◌, inl, inr, List, [], ◌∷◌, ◌++◌, some, Outcome, Result, success, All,
  All-split, All-append, subst,
}
use pico_proving_service.Database.{Database, IsDatabase, FailsCleanly}
use pico_proving_service.Apps.{Toolchain}
use pico_proving_service.Apps.Kept.{inserted-Same}
use pico_proving_service.Queue.Outputs.{output-insert_some, output-remove_some}
use pico_proving_service.Grpc.{from_row_or, task_of, Task}
use pico_proving_service.Server.{
  waiting, proving, stopped, Server, main, Event, quiet, looked_up, replied, proved, submitted,
  Step, checks, inserts, looks_up, submits, takes, proves, fails, panics, stores, finds, misses,
  reads, Reach, begin, later,
}
use pico_proving_service.Server.Invariant.{last, Sent, task_of-Sent, LookedUp, Made, Known, Held}
use pico_proving_service.Server.Steady.{
  I, stored-proof, from_row-some, main-Inv, memory_kept, db_kept, queue_kept, sending_kept,
  loop_kept, told_kept, quietly, reply-Known,
}

module _ (tc : Toolchain) (d : Database) (law : IsDatabase d) (clean : FailsCleanly d)
    {Err : Type 0} (Proves : Task tc d → Outcome (Result Err (List ℕ)) → Type 0)
    (start : d.Db) where
  Step-Inv :
      {events : List (Event tc d)} {s : Server tc d} {x : Event tc d} {t : Server tc d}
      → I tc d law clean Proves start events s
      → Step tc d Proves s x t
      → I tc d law clean Proves start (x ∷ events) t
  Step-Inv {s} inv (checks elf info app made unknown) =
      quietly tc d law clean Proves start inv quiet (λ k p h. absurd cc) s.queue
        (queue_kept tc d law clean Proves start inv quiet) s.loop
        (loop_kept tc d law clean Proves start inv quiet) _ s.sending
        (sending_kept tc d law clean Proves start inv quiet) s.reading
  Step-Inv {s} inv (inserts front after app row at made) = record {
    in_memory = memory_kept tc d law clean Proves start inv quiet;
    in_db = λ k p o. db_kept tc d law clean Proves start inv quiet k p (
        sym (
          inserted-Same tc d law clean k.app_id k.task_id s.shared.db app row
            (d.insert_app s.shared.db row) refl)
        ∙ o);
    looked = sending_kept tc d law clean Proves start inv quiet;
    queued = queue_kept tc d law clean Proves start inv quiet;
    held = loop_kept tc d law clean Proves start inv quiet;
    told = told_kept tc d law clean Proves start inv quiet (λ k p h. absurd cc);
  }
  Step-Inv {s} inv (looks_up req app found) =
      let x = looked_up req app in
      quietly tc d law clean Proves start inv x (λ k p h. absurd cc) s.queue
        (queue_kept tc d law clean Proves start inv x) s.loop
        (loop_kept tc d law clean Proves start inv x) s.registering _
        (last, sending_kept tc d law clean Proves start inv x) s.reading
  Step-Inv {events} {s} inv (submits front after req app queue at sent) =
      let x = submitted req (task_of tc d req app) in
      let (old, (found, rest)) = All-split (LookedUp tc d (x ∷ events)) front ((req, app) ∷ after) (
        subst (All (LookedUp tc d (x ∷ events))) at
          (sending_kept tc d law clean Proves start inv x)) in
      let asked = task_of-Sent tc d req app found last in
      let same : s.queue ++ task_of tc d req app ∷ [] ≡ queue = cc in
      record {
        in_memory = memory_kept tc d law clean Proves start inv x;
        in_db = db_kept tc d law clean Proves start inv x;
        looked = All-append (LookedUp tc d (x ∷ events)) front after old rest;
        queued = subst (All (Sent tc d (x ∷ events))) same (
            All-append (Sent tc d (x ∷ events)) s.queue _
              (queue_kept tc d law clean Proves start inv x) (asked, tt));
        held = loop_kept tc d law clean Proves start inv x;
        told = told_kept tc d law clean Proves start inv x (λ k p h. absurd cc);
      }
  Step-Inv {events} {s} inv (takes t q w at) =
      let all =
        subst (All (Sent tc d (quiet ∷ events))) at
          (queue_kept tc d law clean Proves start inv quiet) in
      quietly tc d law clean Proves start inv quiet (λ k p h. absurd cc) q all.1 (proving t) all.0
        s.registering s.sending (sending_kept tc d law clean Proves start inv quiet) s.reading
  Step-Inv {events} {s} inv (proves t proof at made) =
      let x = proved t proof in
      let shown : Made tc d Proves start (x ∷ events) t.key proof = record {
        task = t;
        keyed = refl;
        sent =
            subst (Held tc d Proves start (x ∷ events)) at
              (loop_kept tc d law clean Proves start inv x);
        shown = last;
        proven = made;
      } in
      record {
        in_memory = λ k p o. elim (output-insert_some t.key k proof s.shared.outputs o) [
          | inl (e, e') ↦
              subst (λ y. Made tc d Proves start (x ∷ events) y p) e
                (subst (Made tc d Proves start (x ∷ events) t.key) e' shown)
          | inr old ↦ memory_kept tc d law clean Proves start inv x k p old
        ];
        in_db = db_kept tc d law clean Proves start inv x;
        looked = sending_kept tc d law clean Proves start inv x;
        queued = queue_kept tc d law clean Proves start inv x;
        held = shown;
        told = told_kept tc d law clean Proves start inv x (λ k p h. absurd cc);
      }
  Step-Inv {s} inv (fails t e at made) =
      quietly tc d law clean Proves start inv quiet (λ k p h. absurd cc) s.queue
        (queue_kept tc d law clean Proves start inv quiet) waiting tt s.registering s.sending
        (sending_kept tc d law clean Proves start inv quiet) s.reading
  Step-Inv {s} inv (panics t x at made) =
      quietly tc d law clean Proves start inv quiet (λ k p h. absurd cc) s.queue
        (queue_kept tc d law clean Proves start inv quiet) stopped tt s.registering s.sending
        (sending_kept tc d law clean Proves start inv quiet) s.reading
  Step-Inv {events} {s} inv (stores key proof at) =
      let shown =
        subst (Held tc d Proves start (quiet ∷ events)) at
          (loop_kept tc d law clean Proves start inv quiet) in
      record {
        in_memory = memory_kept tc d law clean Proves start inv quiet;
        in_db = λ k p o. elim (stored-proof tc d law clean s.shared.db key k proof _ refl o) [
          | inl (e, e') ↦ inl (
              subst (λ y. Made tc d Proves start (quiet ∷ events) y p) e
                (subst (Made tc d Proves start (quiet ∷ events) key) e' shown))
          | inr old ↦ db_kept tc d law clean Proves start inv quiet k p old
        ];
        looked = sending_kept tc d law clean Proves start inv quiet;
        queued = queue_kept tc d law clean Proves start inv quiet;
        held = tt;
        told = told_kept tc d law clean Proves start inv quiet (λ k p h. absurd cc);
      }
  Step-Inv {events} {s} inv (finds key proof o) =
      let x = replied key (success (some proof)) in
      record {
        in_memory = λ k p o'.
            memory_kept tc d law clean Proves start inv x k p
              (output-remove_some key k s.shared.outputs o');
        in_db = db_kept tc d law clean Proves start inv x;
        looked = sending_kept tc d law clean Proves start inv x;
        queued = queue_kept tc d law clean Proves start inv x;
        held = loop_kept tc d law clean Proves start inv x;
        told = told_kept tc d law clean Proves start inv x λ k p h.
            reply-Known tc d law clean Proves start x key k proof p h
              (inl (memory_kept tc d law clean Proves start inv x key proof o));
      }
  Step-Inv {s} inv (misses key h) =
      quietly tc d law clean Proves start inv quiet (λ k p h. absurd cc) s.queue
        (queue_kept tc d law clean Proves start inv quiet) s.loop
        (loop_kept tc d law clean Proves start inv quiet) s.registering s.sending
        (sending_kept tc d law clean Proves start inv quiet) _
  Step-Inv {events} {s} inv (reads front after key at) =
      let row = d.select_proof s.shared.db key.app_id key.task_id in
      let x = replied key (from_row_or tc d row) in
      record {
        in_memory = memory_kept tc d law clean Proves start inv x;
        in_db = db_kept tc d law clean Proves start inv x;
        looked = sending_kept tc d law clean Proves start inv x;
        queued = queue_kept tc d law clean Proves start inv x;
        held = loop_kept tc d law clean Proves start inv x;
        told = told_kept tc d law clean Proves start inv x λ k p h.
            let e : key ≡ k = cc in
            let found : from_row_or tc d row ≡ success (some p) = cc in
            subst (λ y. Known tc d Proves start (x ∷ events) y p) e
              (db_kept tc d law clean Proves start inv x key p
                (from_row-some tc d law clean row p found));
      }

  pub Reach-Inv :
      {events : List (Event tc d)} {s : Server tc d}
      → Reach tc d Proves (main tc d start) events s
      → I tc d law clean Proves start events s
  Reach-Inv begin = main-Inv tc d law clean Proves start
  Reach-Inv (later r step) = Step-Inv (Reach-Inv r) step
