-- ===== src/Grpc/Results.antt =====
-- The result of a task, from the queue to the client.
use pico_proving_service.Prelude.{
  ℕ, List, [], Option, none, some, Outcome, ok, Result, success, failure, ◌≡◌, ◌≢◌, refl, sym, ap,
  ◌∙◌, ◌⊎◌, inl, inr, Bool-cases, map-eq-ok,
}
use mathlib.Core.Path.{ap₂}
use pico_proving_service.Database.{Database, IsDatabase}
use pico_proving_service.Queue.{
  ProvingKey, ProvingTask, output, remove_output, Shared, round, store_result, same_text,
}
use pico_proving_service.Queue.Outputs.{
  output-insert, output-remove, output-insert_other, same_text-eq, same_text_refl,
}
use pico_proving_service.Apps.{Toolchain}
use pico_proving_service.Grpc.{GetProvingResultRequest, get_proving_result, from_row_or, proof_of}

abbrev pub asking : ProvingKey → GetProvingResultRequest
asking k = record { app_id = k.app_id; task_id = k.task_id }

pub parts_differ : (k j : ProvingKey) → k ≢ j → (k.app_id ≢ j.app_id) ⊎ (k.task_id ≢ j.task_id)
parts_differ k j d = elim (Bool-cases (same_text k.app_id j.app_id)) [
  | inl y ↦ inr (λ t.
      d (ap₂ (λ a b. record { app_id = a; task_id = b }) (same_text-eq k.app_id j.app_id y) t))
  | inr n ↦
      inl (λ e. (let r = ap (λ x. same_text k.app_id x) e in let q = same_text_refl k.app_id in cc))
]

module _ (tc : Toolchain) (d : Database) where
  open d use {DbError}

  pub from_memory :
      (s : Shared d) (k : ProvingKey) (proof : List ℕ)
      → output k s.outputs ≡ some proof
      → get_proving_result tc d s (asking k)
        ≡ (success (some proof), record s { outputs = remove_output k s.outputs })
  unfolding get_proving_result
  from_memory s k proof h = rw (get_proving_result, h) refl

  from_db :
      (s : Shared d) (k : ProvingKey)
      → output k s.outputs ≡ none
      → get_proving_result tc d s (asking k)
        ≡ (from_row_or tc d (d.select_proof s.db k.app_id k.task_id), s)
  unfolding get_proving_result
  from_db s k h = rw (get_proving_result, h) refl

  module _ {Program Pk Vk Err : Type 0}
      (prove_task : ProvingTask Program Pk Vk → Outcome (Result Err (List ℕ)))
      (law : IsDatabase d) where
    pub round-success :
        (s : Shared d) (task : ProvingTask Program Pk Vk) (proof : List ℕ)
        → prove_task task ≡ ok (success proof)
        → round d prove_task s task ≡ ok (store_result d {Err = Err} s task.key (success proof))
    unfolding round
    round-success s task proof h = rw h refl

    -- If a task is proved and its proof stored in the database, then the queue's round returns and
    -- the proof is in memory; the next request for the result gets it and takes it out of memory;
    -- it is still in the database, and the request after that gets it too and changes nothing. The
    -- database is taken to give back what it stored.
    pub delivered :
        (s : Shared d) (task : ProvingTask Program Pk Vk) (proof : List ℕ) (db' : d.Db)
        → prove_task task ≡ ok (success proof)
        → d.replace_proof s.db task.key.app_id task.key.task_id proof ≡ (success tt, db')
        → (s' : Shared d) × (s'' : Shared d) × (round d prove_task s task ≡ ok s')
          × (output task.key s'.outputs ≡ some proof)
          × (get_proving_result tc d s' (asking task.key) ≡ (success (some proof), s''))
          × (output task.key s''.outputs ≡ none)
          × (d.select_proof s''.db task.key.app_id task.key.task_id ≡ success (some (some proof)))
          × (get_proving_result tc d s'' (asking task.key) ≡ (success (some proof), s''))
    delivered s task proof db' h stored =
        let s' : Shared d = store_result d {Err = Err} s task.key (success proof) in
        let s'' : Shared d = record s' { outputs = remove_output task.key s'.outputs } in
        let same : s'.db ≡ db' = ap (λ (x : Result DbError (Unit {0}) × d.Db). x.1) stored in
        let row =
          ap (λ x. d.select_proof x task.key.app_id task.key.task_id) same
          ∙ law.replaced s.db db' task.key.app_id task.key.task_id proof stored in
        (
          s',
          s'',
          round-success s task proof h,
          output-insert task.key proof s.outputs,
          from_memory s' task.key proof (output-insert task.key proof s.outputs),
          output-remove task.key s'.outputs,
          row,
          from_db s'' task.key (output-remove task.key s'.outputs)
              ∙ ap (λ x. (from_row_or tc d x, s'')) row,
        )

    reply_of :
        (s : Shared d) (k : ProvingKey) (o : Option (List ℕ))
        → output k s.outputs ≡ o
        → (get_proving_result tc d s (asking k)).0 ≡ (proof_of tc d s k (o, [])).0
    reply_of s k none h = ap (λ x. x.0) (from_db s k h)
    reply_of s k (some proof) h = ap (λ x. x.0) (from_memory s k proof h)

    stored_other :
        (s : Shared d) (key k : ProvingKey) (r : Result Err (List ℕ))
        → k ≢ key
        → (get_proving_result tc d (store_result d s key r) (asking k)).0
          ≡ (get_proving_result tc d s (asking k)).0
    stored_other s key k (failure e) ne = refl
    stored_other s key k (success proof) ne =
        let s' : Shared d = store_result d {Err = Err} s key (success proof) in
        let memory = output-insert_other key k proof s.outputs ne in
        let row =
          law.replace_other s.db s'.db key.app_id key.task_id k.app_id k.task_id proof
            (d.replace_proof s.db key.app_id key.task_id proof).0 refl (parts_differ k key ne) in
        reply_of s' k (output k s.outputs) memory
        ∙ same_reply s s' k (output k s.outputs) row
        ∙ sym (reply_of s k (output k s.outputs) refl)
      where
        same_reply :
            (s s' : Shared d) (k : ProvingKey) (o : Option (List ℕ))
            → d.select_proof s'.db k.app_id k.task_id ≡ d.select_proof s.db k.app_id k.task_id
            → (proof_of tc d s' k (o, [])).0 ≡ (proof_of tc d s k (o, [])).0
        same_reply s s' k none row = ap (λ x. from_row_or tc d x) row
        same_reply s s' k (some p) row = refl

    -- If a round of the queue returns, the reply for any other key than its task's is the one that
    -- it was before, whether or not the task and the database succeeded. The database is taken to
    -- keep the other rows.
    pub round-other :
        (s s' : Shared d) (task : ProvingTask Program Pk Vk) (k : ProvingKey)
        → round d prove_task s task ≡ ok s'
        → k ≢ task.key
        → (get_proving_result tc d s' (asking k)).0 ≡ (get_proving_result tc d s (asking k)).0
    unfolding round
    round-other s s' task k h ne =
        let (r, _, same) = map-eq-ok (prove_task task) (store_result d s task.key) h in
        ap (λ x. (get_proving_result tc d x (asking k)).0) (sym same)
        ∙ stored_other s task.key k r ne
