-- ===== src/Grpc/Runs.antt =====
-- The results of the tasks of a queue, over its whole loop.
use pico_proving_service.Prelude.{
  ℕ, List, [], ◌∷◌, some, Outcome, ok, Result, success, ◌≡◌, ◌≢◌, ap, ◌∙◌, All, >>=-eq-ok, sym,
}
use pico_proving_service.Database.{Database, IsDatabase}
use pico_proving_service.Queue.{ProvingKey, ProvingTask, Shared, round, run, store_result}
use pico_proving_service.Queue.Outputs.{output-insert}
use pico_proving_service.Apps.{Toolchain}
use pico_proving_service.Grpc.{get_proving_result}
use pico_proving_service.Grpc.Results.{asking, round-other, round-success, from_memory}

module _ (tc : Toolchain) (d : Database) {Program Pk Vk Err : Type 0}
    (prove_task : ProvingTask Program Pk Vk → Outcome (Result Err (List ℕ)))
    (law : IsDatabase d) where
  -- No task has the key.
  abbrev pub NoneHas : ProvingKey → List (ProvingTask Program Pk Vk) → Type 0
  NoneHas k tasks = All (λ t. k ≢ t.key) tasks

  -- If the queue's loop returns on tasks none of which has a key, the reply for the key is the one
  -- that it was before, whether or not the tasks and the database succeeded. The database is taken
  -- to keep the other rows.
  pub run-other :
      (s s' : Shared d) (tasks : List (ProvingTask Program Pk Vk)) (k : ProvingKey)
      → run d prove_task s tasks ≡ ok s'
      → NoneHas k tasks
      → (get_proving_result tc d s' (asking k)).0 ≡ (get_proving_result tc d s (asking k)).0
  unfolding run
  run-other s s' [] k h away =
      let same : s ≡ s' = cc in ap (λ x. (get_proving_result tc d x (asking k)).0) (sym same)
  run-other s s' (task ∷ tasks) k h away =
      let (s1, first, rest) = >>=-eq-ok (round d prove_task s task) _ h in
      run-other s1 s' tasks k rest away.1 ∙ round-other tc d prove_task law s s1 task k first away.0

  -- If the queue's loop returns on a task and the tasks after it, the task is proved, and no later
  -- task has its key, then the reply for its key is its proof, whether or not the database stored
  -- it.
  pub run-delivered :
      (s s' : Shared d) (task : ProvingTask Program Pk Vk)
      (tasks : List (ProvingTask Program Pk Vk)) (proof : List ℕ)
      → run d prove_task s (task ∷ tasks) ≡ ok s'
      → prove_task task ≡ ok (success proof)
      → NoneHas task.key tasks
      → (get_proving_result tc d s' (asking task.key)).0 ≡ success (some proof)
  unfolding run
  run-delivered s s' task tasks proof h made away =
      let (s1, first, rest) = >>=-eq-ok (round d prove_task s task) _ h in
      let done = round-success tc d prove_task law s task proof made in
      let same : store_result d {Err = Err} s task.key (success proof) ≡ s1 = cc in
      run-other s1 s' tasks task.key rest away
      ∙ ap (λ x. (get_proving_result tc d x (asking task.key)).0) (sym same)
      ∙ ap (λ x. x.0)
          (from_memory tc d (store_result d {Err = Err} s task.key (success proof)) task.key proof
            (output-insert task.key proof s.outputs))
