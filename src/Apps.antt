-- ===== src/Apps.antt =====
-- src/app_manager.rs: the registered applications.
pub mod Registered
pub mod Kept
use pico_proving_service.Prelude.{
  ℕ, Bool, List, [], ◌∷◌, Option, none, some, Text, Outcome, ok, panic, ◌>>=◌, Result, success,
  failure, and_then, drop, length, ◌==◌, Panic, if◌then◌else◌, padding_failed, program_shared,
  bad_app_id, codec_failed,
}
use pico_proving_service.Prelude.Trim.{strip_prefix, or_whole}
use pico_proving_service.Database.{AppRow, Database}

-- What pico_vm and bincode give. The compiler may panic, and `Arc::get_mut` gives a program that it
-- has made if nothing else shares it. A length counts the characters, which are all ASCII.
pub record Toolchain : Type 1 where
  pub Program : Type 0
  pub ProvingKey : Type 0
  pub VerifyingKey : Type 0
  pub compile : List ℕ → Outcome Program
  pub get_mut : Program → Option Program
  pub vk_verification_enabled : Bool
  pub padding_preprocessed_shape : Program → Option Program
  pub setup_keys : Program → ProvingKey × VerifyingKey
  pub hash_str_via_bn254 : VerifyingKey → Text
  pub serialize_program : Program → Option (List ℕ)
  pub serialize_pk : ProvingKey → Option (List ℕ)
  pub serialize_vk : VerifyingKey → Option (List ℕ)
  pub deserialize_program : List ℕ → Option Program
  pub deserialize_pk : List ℕ → Option ProvingKey
  pub deserialize_vk : List ℕ → Option VerifyingKey

pub data AppError (DbError : Type 0) : Type 0 where
  already_exists : Text → AppError DbError
  db : DbError → AppError DbError

abbrev pub or_panic {ℓ} : {A : Type ℓ} → Panic → Option A → Outcome A
or_panic e none = panic e
or_panic e (some a) = ok a

abbrev pub from_db {ℓ} : {E : Type 0} {A : Type ℓ} → Result E A → Result (AppError E) A
from_db (success a) = success a
from_db (failure e) = failure (db e)

abbrev pub hex_prefix : Text
hex_prefix = b'0' ∷ b'x' ∷ []

module _ (tc : Toolchain) where
  open tc use {Program, ProvingKey, VerifyingKey}

  pub record App : Type 0 where
    pub app_id : Text
    pub program : Program
    pub pk : ProvingKey
    pub vk : VerifyingKey
    pub info : Option Text

  abbrev pub padded : Program → Outcome Program
  padded p =
      if tc.vk_verification_enabled
      then (do
        p ← or_panic program_shared (tc.get_mut p)
        or_panic padding_failed (tc.padding_preprocessed_shape p))
      else ok p

  -- `App::new`
  unfoldable pub new : List ℕ → Option Text → Outcome App
  new elf info = do
    compiled ← tc.compile elf
    program ← padded compiled
    let (pk, vk) = tc.setup_keys program
    let app_id = tc.hash_str_via_bn254 vk
    if length app_id == 66
        then ok
            (record { app_id = drop 2 app_id; program = program; pk = pk; vk = vk; info = info })
        else panic bad_app_id

  -- `AppRow::from(app)`
  unfoldable pub to_row : App → Outcome AppRow
  to_row app = do
    program ← or_panic codec_failed (tc.serialize_program app.program)
    pk ← or_panic codec_failed (tc.serialize_pk app.pk)
    vk ← or_panic codec_failed (tc.serialize_vk app.vk)
    ok (record { app_id = app.app_id; program = program; pk = pk; vk = vk; info = app.info })

  -- `App::from(row)`
  unfoldable pub from_row : AppRow → Outcome App
  from_row row = do
    program ← or_panic codec_failed (tc.deserialize_program row.program)
    pk ← or_panic codec_failed (tc.deserialize_pk row.pk)
    vk ← or_panic codec_failed (tc.deserialize_vk row.vk)
    ok (record { app_id = row.app_id; program = program; pk = pk; vk = vk; info = row.info })

  module _ (d : Database) where
    open d use {Db, DbError}

    -- `row.map(Into::into)`
    abbrev pub read_row : Option AppRow → Outcome (Result (AppError DbError) (Option App))
    read_row none = ok (success none)
    read_row (some row) = do app ← from_row row; ok (success (some app))

    unfoldable pub get_app : Db → Text → Outcome (Result (AppError DbError) (Option App))
    get_app s id =
        let id = or_whole (strip_prefix hex_prefix id) id in
        and_then (ok (from_db (d.select_app s id))) read_row

    -- The last part of `set_app`.
    abbrev pub inserted_app :
        App → Result DbError (Unit {0}) × Db → Result (AppError DbError) App × Db
    inserted_app app (success _, s) = (success app, s)
    inserted_app app (failure e, s) = (failure (db e), s)

    abbrev pub insert_new :
        Db
        → App
        → Result (AppError DbError) (Option App)
        → Outcome (Result (AppError DbError) App × Db)
    insert_new s app (failure e) = ok (failure e, s)
    insert_new s app (success (some _)) = ok (failure (already_exists app.app_id), s)
    insert_new s app (success none) = do
      row ← to_row app
      ok (inserted_app app (d.insert_app s row))

    unfoldable pub set_app :
        Db → List ℕ → Option Text → Outcome (Result (AppError DbError) App × Db)
    set_app s elf info = do app ← new elf info; known ← get_app s app.app_id; insert_new s app known
