-- ===== src/Programs/Ids.antt =====
-- The id that `gen_app_id` prints is one under which the app is found.
use pico_proving_service.Prelude.{
  ℕ, ◌≡◌, sym, ap, ◌∙◌, List, ◌++◌, Option, none, some, Text, ok, ◌>>=◌, Result, success, failure,
  and_then-eq-success, >>=-eq-ok, map-eq-ok, ok-eq, success-eq, ◌==◌, length, if-cases_eq, drop,
  subst,
}
use pico_proving_service.Database.{Database, IsDatabase}
use pico_proving_service.Apps.{
  Toolchain, App, AppError, padded, new, to_row, get_app, set_app, hex_prefix, insert_new,
  inserted_app,
}
use pico_proving_service.Apps.Registered.{IsCodec, get_app-set_app}
use pico_proving_service.Programs.{Disk, from_io, from_io-success, gen_app_id}

module _ (tc : Toolchain) where
  -- The id of an app is a hash of the verifying key of its padded program.
  new-hash :
      (elf : List ℕ) (info : Option Text) (app : App tc)
      → new tc elf info ≡ ok app
      → (program : tc.Program) × ((tc.compile elf >>= padded tc) ≡ ok program)
        × (app.app_id ≡ drop 2 (tc.hash_str_via_bn254 (tc.setup_keys program).1))
  unfolding new
  new-hash elf info app h =
      let (compiled, c, h') = >>=-eq-ok (tc.compile elf) _ h in
      let (program, p, rest) = >>=-eq-ok (padded tc compiled) _ h' in
      (
        program,
        ap (λ o. o >>= padded tc) c ∙ p,
        if-cases_eq (length (tc.hash_str_via_bn254 (tc.setup_keys program).1) == 66) _ _ rest
            (λ _ made. sym (ap (λ (x : App tc). x.app_id) (ok-eq made))) (λ _ made. absurd cc),
      )

  -- So it does not depend on the information.
  new-app_id :
      (elf : List ℕ) (i j : Option Text) (a b : App tc)
      → new tc elf i ≡ ok a
      → new tc elf j ≡ ok b
      → a.app_id ≡ b.app_id
  new-app_id elf i j a b h h' =
      let (program, p, e) = new-hash elf i a h in
      let (program', p', e') = new-hash elf j b h' in
      let same : program ≡ program' = cc in
      e ∙ ap (λ x. drop 2 (tc.hash_str_via_bn254 (tc.setup_keys x).1)) same ∙ sym e'

  module _ (d : Database) where
    open d use {Db, DbError}

    -- The app of a registration is a new one.
    set_app-new :
        (s s' : Db) (elf : List ℕ) (info : Option Text) (app : App tc)
        → set_app tc d s elf info ≡ ok (success app, s')
        → new tc elf info ≡ ok app
    unfolding set_app
    set_app-new s s' elf info app h =
        let (app', made, h') = >>=-eq-ok (new tc elf info) _ h in
        let (known, asked, h'') = >>=-eq-ok (get_app tc d s app'.app_id) _ h' in
        made ∙ ap ok (go app' known h'')
      where
        inserted :
            (app' : App tc) (o : Result DbError (Unit {0}) × Db)
            → inserted_app tc d app' o ≡ (success app, s')
            → app' ≡ app
        inserted app' (success _, t) h = cc
        inserted app' (failure e, t) h = absurd cc

        go :
            (app' : App tc) (known : Result (AppError DbError) (Option (App tc)))
            → insert_new tc d s app' known ≡ ok (success app, s')
            → app' ≡ app
        go app' (failure e) h = absurd cc
        go app' (success (some _)) h = absurd cc
        go app' (success none) h =
            let (row, made, e) =
              map-eq-ok (to_row tc app') (λ row. inserted_app tc d app' (d.insert_app s row)) h in
            inserted app' (d.insert_app s row) e

    -- If an app is registered with success, and `gen_app_id` prints an id for a file with the same
    -- bytes, then the app, with all its parts, is found under the id. The database is taken to give
    -- back what it stored, and serialized values to be read back.
    pub get_app-gen_app_id :
        (disk : Disk)
        → IsCodec tc
        → IsDatabase d
        → (fs : disk.Files) (path : Text) (s s' : Db) (elf : List ℕ) (info : Option Text)
          (app : App tc) (id : Text)
        → disk.read fs path ≡ success elf
        → set_app tc d s elf info ≡ ok (success app, s')
        → gen_app_id tc disk fs path ≡ ok (success id)
        → get_app tc d s' id ≡ ok (success (some app))
    unfolding gen_app_id
    get_app-gen_app_id disk codec law fs path s s' elf info app id read set printed =
        let (elf', read', h) = and_then-eq-success (ok (from_io (disk.read fs path))) _ printed in
        let same_elf : elf' ≡ elf =
          success-eq (sym (from_io-success (disk.read fs path) (ok-eq read')) ∙ read) in
        let (app', made, h') =
          map-eq-ok (new tc elf' none) (λ a. success (hex_prefix ++ a.app_id)) h in
        let made' = subst (λ x. new tc x none ≡ ok app') same_elf made in
        let ids = new-app_id elf none info app' app made' (set_app-new s s' elf info app set) in
        subst (λ x. get_app tc d s' x ≡ ok (success (some app)))
          (ap (λ x. hex_prefix ++ x) (sym ids) ∙ success-eq h')
          (get_app-set_app tc d codec law s s' elf info app set)
