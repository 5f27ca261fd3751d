-- ===== src/Apps/Registered.antt =====
-- What a registered application can rely on.
use pico_proving_service.Prelude.{
  ℕ, ◌+◌, ◌≡◌, refl, sym, subst, ap, ◌∙◌, List, [], ◌∷◌, ◌++◌, Option, none, some, Text, ok, Panic,
  ok-eq, Result, success, failure, drop, length, arith, ==_iff, if-cases_eq, >>=-eq-ok, map-eq-ok,
  ◌==◌,
}
use pico_proving_service.Prelude.Trim.{strip_prefix}
use pico_proving_service.Database.{AppRow, Database, IsDatabase}
use pico_proving_service.Apps.{
  Toolchain, AppError, hex_prefix, App, padded, new, to_row, from_row, get_app, set_app, insert_new,
  or_panic, inserted_app,
}

-- A value that is serialized is read back.
pub record IsCodec (tc : Toolchain) : Type 0 where
  pub program :
      (p : tc.Program) (b : List ℕ)
      → tc.serialize_program p ≡ some b
      → tc.deserialize_program b ≡ some p
  pub pk :
      (p : tc.ProvingKey) (b : List ℕ) → tc.serialize_pk p ≡ some b → tc.deserialize_pk b ≡ some p
  pub vk :
      (p : tc.VerifyingKey) (b : List ℕ) → tc.serialize_vk p ≡ some b → tc.deserialize_vk b ≡ some p

or_panic-eq-ok {ℓ} :
    {A : Type ℓ} (e : Panic) (o : Option A) {a : A} → or_panic e o ≡ ok a → o ≡ some a
or_panic-eq-ok e none h = cc
or_panic-eq-ok e (some b) h = cc

length-drop_two : {A : Type 0} (xs : List A) (n : ℕ) → length xs ≡ n + 2 → length (drop 2 xs) ≡ n
length-drop_two [] n h = absurd (omega arith)
length-drop_two (x ∷ []) n h = absurd (omega arith)
length-drop_two (x ∷ y ∷ xs) n h = omega arith

-- A text behind `0x` is what is left of the whole.
strip_hex : (id : Text) → strip_prefix hex_prefix (hex_prefix ++ id) ≡ some id
unfolding strip_prefix
strip_hex id = refl

module _ (tc : Toolchain) where
  -- The id of a new app has 64 characters.
  pub length-app_id :
      (elf : List ℕ) (info : Option Text) (app : App tc)
      → new tc elf info ≡ ok app
      → length app.app_id ≡ 64
  unfolding new
  length-app_id elf info app h =
      let (compiled, _, h') = >>=-eq-ok (tc.compile elf) _ h in
      let (program, _, rest) = >>=-eq-ok (padded tc compiled) _ h' in
      let hash = tc.hash_str_via_bn254 (tc.setup_keys program).1 in
      if-cases_eq (length hash == 66) _ _ rest
        (λ size made.
          let same : drop 2 hash ≡ app.app_id = ap (λ (x : App tc). x.app_id) (ok-eq made) in
          sym (ap (λ x. length x) same)
          ∙ length-drop_two hash 64 ((==_iff (length hash) 66).0 size))
        (λ _ made. absurd cc)

  to_row-app_id : (app : App tc) (row : AppRow) → to_row tc app ≡ ok row → row.app_id ≡ app.app_id
  unfolding to_row
  to_row-app_id app row h =
      let (program, _, h') = >>=-eq-ok (or_panic _ (tc.serialize_program app.program)) _ h in
      let (pk, _, h'') = >>=-eq-ok (or_panic _ (tc.serialize_pk app.pk)) _ h' in
      let (vk, _, h''') = >>=-eq-ok (or_panic _ (tc.serialize_vk app.vk)) _ h'' in
      sym (ap (λ (x : AppRow). x.app_id) (ok-eq h'''))

  -- If an app is turned into a row, the row is turned back into the same app. Serialized values are
  -- taken to be read back.
  pub from_row-to_row :
      IsCodec tc → (app : App tc) (row : AppRow) → to_row tc app ≡ ok row → from_row tc row ≡ ok app
  unfolding to_row from_row
  from_row-to_row codec app row h =
      let (program, ep, h') = >>=-eq-ok (or_panic _ (tc.serialize_program app.program)) _ h in
      let (pk, ek, h'') = >>=-eq-ok (or_panic _ (tc.serialize_pk app.pk)) _ h' in
      let (vk, ev, h''') = >>=-eq-ok (or_panic _ (tc.serialize_vk app.vk)) _ h'' in
      let made : record {
        app_id = app.app_id;
        program = program;
        pk = pk;
        vk = vk;
        info = app.info;
      }
          ≡ row =
        cc in
      subst (λ r. from_row tc r ≡ ok app) made
        (rw
          (
            codec.program app.program program (or_panic-eq-ok _ _ ep),
            codec.pk app.pk pk (or_panic-eq-ok _ _ ek),
            codec.vk app.vk vk (or_panic-eq-ok _ _ ev),
          )
          refl)

  -- Looking an app up by an id with `0x` in front gives what the id without it gives, if that does
  -- not start with `0x` itself.
  pub get_app-hex :
      (d : Database) (s : d.Db) (id : Text)
      → strip_prefix hex_prefix id ≡ none
      → get_app tc d s (hex_prefix ++ id) ≡ get_app tc d s id
  unfolding get_app
  get_app-hex d s id bare = rw (get_app, strip_hex id, bare) refl

  module _ (d : Database) (codec : IsCodec tc) (law : IsDatabase d) where
    open d use {Db, DbError}

    inserted_once :
        (s' : Db) (app app' : App tc) (o : Result DbError (Unit {0}) × Db)
        → inserted_app tc d app' o ≡ (success app, s')
        → (o ≡ (success tt, s')) × (app' ≡ app)
    inserted_once s' app app' (success _, s) h = (cc, cc)
    inserted_once s' app app' (failure e, s) h = absurd cc

    get_row :
        (s : Db) (app : App tc) (row : AppRow)
        → to_row tc app ≡ ok row
        → d.select_app s app.app_id ≡ success (some row)
        → get_app tc d s (hex_prefix ++ app.app_id) ≡ ok (success (some app))
    unfolding get_app
    get_row s app row made found =
        rw (get_app, strip_hex app.app_id, found, from_row-to_row codec app row made) refl

    -- An app that is registered with success is found, with all its parts, under its id with `0x`
    -- in front. The database is taken to give back what it stored, and serialized values to be read
    -- back.
    pub get_app-set_app :
        (s s' : Db) (elf : List ℕ) (info : Option Text) (app : App tc)
        → set_app tc d s elf info ≡ ok (success app, s')
        → get_app tc d s' (hex_prefix ++ app.app_id) ≡ ok (success (some app))
    unfolding set_app
    get_app-set_app s s' elf info app h =
        let (app', made, h') = >>=-eq-ok (new tc elf info) _ h in
        let (known, asked, h'') = >>=-eq-ok (get_app tc d s app'.app_id) _ h' in go app' known h''
      where
        go :
            (app' : App tc) (known : Result (AppError DbError) (Option (App tc)))
            → insert_new tc d s app' known ≡ ok (success app, s')
            → get_app tc d s' (hex_prefix ++ app.app_id) ≡ ok (success (some app))
        go app' (failure e) h = absurd cc
        go app' (success (some _)) h = absurd cc
        go app' (success none) h =
            let (row, made, e) =
              map-eq-ok (to_row tc app') (λ row. inserted_app tc d app' (d.insert_app s row)) h in
            let (ins, same) = inserted_once s' app app' (d.insert_app s row) e in
            let made' = subst (λ x. to_row tc x ≡ ok row) same made in
            get_row s' app row made' (
              subst (λ id. d.select_app s' id ≡ success (some row)) (to_row-app_id app row made')
                (law.inserted s s' row ins))
