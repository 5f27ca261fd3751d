-- ===== src/Tests/Apps.antt =====
-- The service around the proofs, on a small database and tool chain.
use pico_proving_service.Grpc.Runs.{run-other, run-delivered}
use pico_proving_service.Queue.{run}
use pico_proving_service.Prelude.{
  ℕ, ◌≡◌, ◌≢◌, refl, sym, ap, ◌∙◌, List, [], ◌∷◌, ◌++◌, Option, none, some, false, Outcome, ok,
  Text, Result, success, replicate, if◌then◌else◌, inl, inr, ◌⊎◌, Bool-cases,
}
use pico_proving_service.Prelude.Trim.{strip_prefix}
use pico_proving_service.Database.{AppRow, Database, IsDatabase}
use pico_proving_service.Apps.{Toolchain, App, new, to_row, get_app, set_app, hex_prefix}
use pico_proving_service.Apps.Registered.{IsCodec, get_app-hex}
use pico_proving_service.Queue.{
  ProvingKey, ProvingTask, Shared, round, same_text, output, remove_output, insert_output,
}
use pico_proving_service.Queue.Outputs.{same_text_refl, same_text-eq}
use pico_proving_service.Grpc.{get_proving_result}
use pico_proving_service.Grpc.Results.{asking, delivered}

abbrev pub toolchain : Toolchain
toolchain = record {
  Program = List ℕ;
  ProvingKey = List ℕ;
  VerifyingKey = List ℕ;
  compile = λ elf. ok elf;
  get_mut = λ p. some p;
  vk_verification_enabled = false;
  padding_preprocessed_shape = λ p. none;
  setup_keys = λ p. (p, p);
  hash_str_via_bn254 = λ _. hex_prefix ++ replicate 64 b'a';
  serialize_program = λ p. some p;
  serialize_pk = λ p. some p;
  serialize_vk = λ p. some p;
  deserialize_program = λ p. some p;
  deserialize_pk = λ p. some p;
  deserialize_vk = λ p. some p;
}

pub toolchain-IsCodec : IsCodec toolchain
toolchain-IsCodec = record { program = λ p b h. cc; pk = λ p b h. cc; vk = λ p b h. cc }

-- The tables as functions of their keys.
pub record Tables : Type 0 where
  pub apps : Text → Option AppRow
  pub proofs : Text → Text → Option (Option (List ℕ))

abbrev pub with_app : Tables → AppRow → Tables
with_app s row = record s { apps = λ id. if same_text id row.app_id then some row else s.apps id }

abbrev pub with_proof : Tables → Text → Text → List ℕ → Tables
with_proof s a t proof = record s {
  proofs = λ a' t'.
      if same_text a' a
      then (if same_text t' t then some (some proof) else s.proofs a' t')
      else s.proofs a' t';
}

abbrev pub database : Database
database = record {
  Db = Tables;
  DbError = Unit;
  select_app = λ s id. success (s.apps id);
  insert_app = λ s row. (success tt, with_app s row);
  select_proof = λ s a t. success (s.proofs a t);
  replace_proof = λ s a t proof. (success tt, with_proof s a t proof);
}

second :
    {s s' : Tables} {r r' : Result (Unit {0}) (Unit {0})}
    → ◌≡◌ {A = Result (Unit {0}) (Unit {0}) × Tables} (r, s) (r', s')
    → s ≡ s'
second h = ap (λ (x : Result (Unit {0}) (Unit {0}) × Tables). x.1) h

pub differs : (a b : Text) → a ≢ b → same_text a b ≡ false
differs a b ne = elim (Bool-cases (same_text a b)) [
  | inl y ↦ absurd (ne (same_text-eq a b y))
  | inr n ↦ n
]

proof_kept :
    (s : Tables) (a t a' t' : Text) (proof : List ℕ)
    → (a' ≢ a) ⊎ (t' ≢ t)
    → (with_proof s a t proof).proofs a' t' ≡ s.proofs a' t'
proof_kept s a t a' t' proof (inl ne) = rw (differs a' a ne) refl
proof_kept s a t a' t' proof (inr ne) = elim (Bool-cases (same_text a' a)) [
  | inl y ↦ rw (y, differs t' t ne) refl
  | inr n ↦ rw n refl
]

pub database-IsDatabase : IsDatabase database
database-IsDatabase = record {
  inserted = λ s s' row h.
      ap (λ (x : Tables). success (x.apps row.app_id)) (sym (second h))
      ∙ rw (same_text_refl row.app_id) refl;
  insert_keeps = λ s s' row a t h. ap (λ (x : Tables). success (x.proofs a t)) (sym (second h));
  replaced = λ s s' a t proof h.
      ap (λ (x : Tables). success (x.proofs a t)) (sym (second h))
      ∙ rw (same_text_refl a, same_text_refl t) refl;
  replace_other = λ s s' a t a' t' proof r h ne.
      ap (λ (x : Tables). success (x.proofs a' t')) (sym (second h))
      ∙ ap success (proof_kept s a t a' t' proof ne);
}

abbrev pub no_tables : Tables
no_tables = record { apps = λ _. none; proofs = λ _ _. none }

abbrev pub app : App toolchain
app = record { app_id = replicate 64 b'a'; program = 7 ∷ []; pk = 7 ∷ []; vk = 7 ∷ []; info = none }

abbrev pub app_row : AppRow
app_row = record {
  app_id = replicate 64 b'a';
  program = 7 ∷ [];
  pk = 7 ∷ [];
  vk = 7 ∷ [];
  info = none;
}

new-app : new toolchain (7 ∷ []) none ≡ ok app
unfolding new
new-app = refl

pub set_first :
    set_app toolchain database no_tables (7 ∷ []) none
    ≡ ok (success app, with_app no_tables app_row)
unfolding set_app new get_app to_row strip_prefix
set_first = refl

app-to_row : to_row toolchain app ≡ ok app_row
unfolding to_row
app-to_row = refl

bare_id : strip_prefix hex_prefix app.app_id ≡ none
unfolding strip_prefix
bare_id = refl

get_app-hex_example :
    get_app toolchain database (with_app no_tables app_row) (hex_prefix ++ app.app_id)
    ≡ get_app toolchain database (with_app no_tables app_row) app.app_id
get_app-hex_example = get_app-hex toolchain database (with_app no_tables app_row) app.app_id bare_id

abbrev key : ProvingKey
key = record { app_id = app.app_id; task_id = b'1' ∷ [] }

abbrev hex_key : ProvingKey
hex_key = record { app_id = hex_prefix ++ app.app_id; task_id = b'1' ∷ [] }

abbrev task : ProvingTask (List ℕ) (List ℕ) (List ℕ)
task = record {
  key = hex_key;
  program = app.program;
  pk = app.pk;
  vk = app.vk;
  inputs = none;
  use_gpu = false;
}

abbrev pub shared : Shared database
shared = record { outputs = []; db = no_tables }

abbrev proving : ProvingTask (List ℕ) (List ℕ) (List ℕ) → Outcome (Result (Unit {0}) (List ℕ))
proving t = ok (success t.program)

abbrev shared_after : Shared database
shared_after = record {
  outputs = (hex_key, 7 ∷ []) ∷ [];
  db = with_proof no_tables hex_key.app_id hex_key.task_id (7 ∷ []);
}

round_once : round database proving shared task ≡ ok shared_after
unfolding round insert_output remove_output
round_once = refl

delivered_example :
    (s' : Shared database) × (s'' : Shared database) × (round database proving shared task ≡ ok s')
    × (output hex_key s'.outputs ≡ some (7 ∷ []))
    × (get_proving_result toolchain database s' (asking hex_key) ≡ (success (some (7 ∷ [])), s''))
    × (output hex_key s''.outputs ≡ none)
    × (database.select_proof s''.db hex_key.app_id hex_key.task_id ≡ success (some (some (7 ∷ []))))
    × (get_proving_result toolchain database s'' (asking hex_key) ≡ (success (some (7 ∷ [])), s''))
delivered_example =
    delivered toolchain database proving database-IsDatabase shared task (7 ∷ [])
      (with_proof no_tables hex_key.app_id hex_key.task_id (7 ∷ [])) refl refl

hex_differs : key ≢ hex_key
hex_differs h = (let e = ap (λ (k : ProvingKey). same_text k.app_id key.app_id) h in absurd cc)

abbrev next_task : ProvingTask (List ℕ) (List ℕ) (List ℕ)
next_task = record task { key = key }

abbrev shared_last : Shared database
shared_last = record {
  outputs = (key, 7 ∷ []) ∷ (hex_key, 7 ∷ []) ∷ [];
  db = with_proof shared_after.db key.app_id key.task_id (7 ∷ []);
}

run_both : run database proving shared (task ∷ next_task ∷ []) ≡ ok shared_last
unfolding run round insert_output remove_output
run_both = refl

run_next : run database proving shared_after (next_task ∷ []) ≡ ok shared_last
unfolding run round insert_output remove_output
run_next = refl

run-delivered_example :
    (get_proving_result toolchain database shared_last (asking hex_key)).0 ≡ success (some (7 ∷ []))
run-delivered_example =
    run-delivered toolchain database proving database-IsDatabase shared shared_last task
      (next_task ∷ []) (7 ∷ []) run_both refl ((λ h. hex_differs (sym h)), tt)

run-other_example :
    (get_proving_result toolchain database shared_last (asking hex_key)).0
    ≡ (get_proving_result toolchain database shared_after (asking hex_key)).0
run-other_example =
    run-other toolchain database proving database-IsDatabase shared_after shared_last
      (next_task ∷ []) hex_key run_next ((λ h. hex_differs (sym h)), tt)
