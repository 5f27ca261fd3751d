-- ===== src/Database.antt =====
-- The SQL statements of src/app_manager.rs, src/proving_queue.rs and src/grpc.rs: what the program
-- calls of the database, with what it relies on. The tables are those of migrations/.
use pico_proving_service.Prelude.{
  ℕ, ◌≡◌, ◌≢◌, ◌⊎◌, List, Option, some, Text, Result, success, failure,
}

-- A row of the table `apps`.
pub record AppRow : Type 0 where
  pub app_id : Text
  pub program : List ℕ
  pub pk : List ℕ
  pub vk : List ℕ
  pub info : Option Text

pub record Database : Type 1 where
  pub Db : Type 0
  pub DbError : Type 0
  -- `SELECT .. FROM apps WHERE app_id = ?`
  pub select_app : Db → Text → Result DbError (Option AppRow)
  -- `INSERT INTO apps ..`
  pub insert_app : Db → AppRow → Result DbError (Unit {0}) × Db
  -- `SELECT proof FROM proofs WHERE app_id = ? AND task_id = ?`, whose column may be null
  pub select_proof : Db → Text → Text → Result DbError (Option (Option (List ℕ)))
  -- `INSERT OR REPLACE INTO proofs ..`
  pub replace_proof : Db → Text → Text → List ℕ → Result DbError (Unit {0}) × Db

-- A statement that succeeds is seen by the selections after it; one that fails changes nothing.
pub record IsDatabase (d : Database) : Type 0 where
  pub inserted :
      (s s' : d.Db) (row : AppRow)
      → d.insert_app s row ≡ (success tt, s')
      → d.select_app s' row.app_id ≡ success (some row)
  pub insert_keeps :
      (s s' : d.Db) (row : AppRow) (a t : Text)
      → d.insert_app s row ≡ (success tt, s')
      → d.select_proof s' a t ≡ d.select_proof s a t
  pub replaced :
      (s s' : d.Db) (a t : Text) (proof : List ℕ)
      → d.replace_proof s a t proof ≡ (success tt, s')
      → d.select_proof s' a t ≡ success (some (some proof))
  pub replace_other :
      (s s' : d.Db) (a t a' t' : Text) (proof : List ℕ) (r : Result d.DbError (Unit {0}))
      → d.replace_proof s a t proof ≡ (r, s')
      → (a' ≢ a) ⊎ (t' ≢ t)
      → d.select_proof s' a' t' ≡ d.select_proof s a' t'

-- A statement that fails leaves the table of the proofs as it was.
pub record FailsCleanly (d : Database) : Type 0 where
  pub insert_failed :
      (s s' : d.Db) (row : AppRow) (e : d.DbError) (a t : Text)
      → d.insert_app s row ≡ (failure e, s')
      → d.select_proof s' a t ≡ d.select_proof s a t
  pub replace_failed :
      (s s' : d.Db) (a t a' t' : Text) (proof : List ℕ) (e : d.DbError)
      → d.replace_proof s a t proof ≡ (failure e, s')
      → d.select_proof s' a' t' ≡ d.select_proof s a' t'
