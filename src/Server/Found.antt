-- ===== src/Server/Found.antt =====
-- Where in the run of a server the app of a request was found.
use pico_proving_service.Prelude.{
  ◌≡◌, refl, ap, List, [], ◌∷◌, ◌++◌, Outcome, ok, Result, success, ℕ, subst,
}
use pico_proving_service.Database.{Database}
use pico_proving_service.Apps.{Toolchain, App}
use pico_proving_service.Grpc.{ProveTaskRequest, Task, find_app}
use pico_proving_service.Server.{
  Server, Event, looked_up, Step, checks, inserts, looks_up, submits, takes, proves, fails, panics,
  stores, finds, misses, reads, Reach, begin, later,
}
use pico_proving_service.Server.Invariant.{Among, last, before}

module _ (tc : Toolchain) (d : Database) {Err : Type 0}
    (P : Task tc d → Outcome (Result Err (List ℕ)) → Type 0) where
  -- A state that a run has passed through, in which the database had the app for the request.
  pub record Found (start : Server tc d) (events : List (Event tc d)) (end : Server tc d)
      (req : ProveTaskRequest) (app : App tc) : Type 0 where
    pub at : Server tc d
    pub earlier : List (Event tc d)
    pub since : List (Event tc d)
    pub reached : Reach tc d P start earlier at
    pub goes_on : Reach tc d P at since end
    pub in_all : events ≡ since ++ earlier
    pub found : find_app tc d at.shared.db req.app_id ≡ ok (success app)

  Step-found :
      {s t : Server tc d} {x : Event tc d} (req : ProveTaskRequest) (app : App tc)
      → Step tc d P s x t
      → x ≡ looked_up req app
      → find_app tc d s.shared.db req.app_id ≡ ok (success app)
  Step-found {s} req app (looks_up req' app' found) e =
      let same : req' ≡ req = cc in
      let same_app : app' ≡ app = cc in
      subst (λ a. find_app tc d s.shared.db req.app_id ≡ ok (success a)) same_app
        (subst (λ (r : ProveTaskRequest). find_app tc d s.shared.db r.app_id ≡ ok (success app'))
          same found)
  Step-found req app (checks _ _ _ _ _) e = absurd cc
  Step-found req app (inserts _ _ _ _ _ _) e = absurd cc
  Step-found req app (submits _ _ _ _ _ _ _) e = absurd cc
  Step-found req app (takes _ _ _ _) e = absurd cc
  Step-found req app (proves _ _ _ _) e = absurd cc
  Step-found req app (fails _ _ _ _) e = absurd cc
  Step-found req app (panics _ _ _ _) e = absurd cc
  Step-found req app (stores _ _ _) e = absurd cc
  Step-found req app (finds _ _ _) e = absurd cc
  Step-found req app (misses _ _) e = absurd cc
  Step-found req app (reads _ _ _ _) e = absurd cc

  none_yet : {A : Type 0} {x : Event tc d} {xs : List (Event tc d)} → Among x xs → xs ≡ [] → A
  none_yet last h = absurd cc
  none_yet (before m) h = absurd cc

  -- An app that a run has looked up was in the database at that time.
  pub looked_up-Found :
      {start end : Server tc d} {events : List (Event tc d)} (req : ProveTaskRequest) (app : App tc)
      → Reach tc d P start events end
      → Among (looked_up req app) events
      → Found start events end req app
  looked_up-Found req app begin m = none_yet m refl
  looked_up-Found {start} {end} req app (later {events} {event} {t} r step) m =
      go m refl (looked_up-Found req app r)
    where
      go :
          {xs : List (Event tc d)}
          → Among (looked_up req app) xs
          → xs ≡ event ∷ events
          → (Among (looked_up req app) events → Found start events t req app)
          → Found start (event ∷ events) end req app
      go last h earlier_on = record {
        at = t;
        earlier = events;
        since = event ∷ [];
        reached = r;
        goes_on = later begin step;
        in_all = refl;
        found = Step-found req app step (cc);
      }
      go (before m') h earlier_on =
          let f = earlier_on (subst (Among (looked_up req app)) (cc) m') in
          record {
            at = f.at;
            earlier = f.earlier;
            since = event ∷ f.since;
            reached = f.reached;
            goes_on = later f.goes_on step;
            in_all = ap (λ xs. event ∷ xs) f.in_all;
            found = f.found;
          }
