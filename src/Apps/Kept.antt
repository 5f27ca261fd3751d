-- ===== src/Apps/Kept.antt =====
-- What a registration leaves alone: the proofs.
use pico_proving_service.Prelude.{◌≡◌, Text, Result, success, failure}
use pico_proving_service.Database.{Database, IsDatabase, FailsCleanly}
use pico_proving_service.Apps.{Toolchain, App, inserted_app}

module _ (tc : Toolchain) (d : Database) (law : IsDatabase d) (clean : FailsCleanly d)
    (a t : Text) where
  open d use {Db, DbError}

  abbrev pub Same : Db → Db → Type 0
  Same s s' = d.select_proof s' a t ≡ d.select_proof s a t

  pub inserted-Same :
      (s : Db) (app : App tc) (row : _) (o : Result DbError (Unit {0}) × Db)
      → d.insert_app s row ≡ o
      → Same s (inserted_app tc d app o).1
  inserted-Same s app row (success _, s') h = law.insert_keeps s s' row a t h
  inserted-Same s app row (failure e, s') h = clean.insert_failed s s' row e a t h
