-- ===== src/Queue.antt =====
-- src/proving_queue.rs: the queue of proving tasks, and the map of the outputs. What is only logged,
-- the failures among it, is left out.
pub mod Outputs
use pico_proving_service.Prelude.{
  ℕ, Bool, true, false, List, [], ◌∷◌, Option, none, some, Text, Outcome, ok, panic, ◌>>=◌, Result,
  success, failure, ◌==◌, ◌&&◌, if◌then◌else◌,
}
use pico_proving_service.Database.{Database}

pub record ProvingKey : Type 0 where
  pub app_id : Text
  pub task_id : Text

pub record ProvingTask (Program Pk Vk : Type 0) : Type 0 where
  pub key : ProvingKey
  pub program : Program
  pub pk : Pk
  pub vk : Vk
  pub inputs : Option (List ℕ)
  pub use_gpu : Bool

abbrev pub same_text : Text → Text → Bool
same_text [] [] = true
same_text [] (d ∷ ds) = false
same_text (c ∷ cs) [] = false
same_text (c ∷ cs) (d ∷ ds) = (c == d) && same_text cs ds

-- The derived equality of keys.
abbrev pub same_key : ProvingKey → ProvingKey → Bool
same_key k j = same_text k.app_id j.app_id && same_text k.task_id j.task_id

-- `ProvingOutputs`, as the list of its entries.
abbrev pub ProvingOutputs : Type 0
ProvingOutputs = List (ProvingKey × List ℕ)

pub output : ProvingKey → ProvingOutputs → Option (List ℕ)
output k [] = none
output k ((j, v) ∷ m) = if same_key k j then some v else output k m

unfoldable pub remove_output : ProvingKey → ProvingOutputs → ProvingOutputs
remove_output k [] = []
remove_output k ((j, v) ∷ m) =
    let rest = remove_output k m in if same_key k j then rest else (j, v) ∷ rest

unfoldable pub insert_output : ProvingKey → List ℕ → ProvingOutputs → ProvingOutputs
unfolding remove_output
insert_output k v m = (k, v) ∷ remove_output k m

-- `ProvingQueue::pop_output`, and the `remove` of `get_proving_result`.
abbrev pub pop_output : ProvingKey → ProvingOutputs → Option (List ℕ) × ProvingOutputs
pop_output k m = (output k m, remove_output k m)

module _ (d : Database) where
  -- What the queue and the service share.
  pub record Shared : Type 0 where
    pub outputs : ProvingOutputs
    pub db : d.Db

  abbrev pub store_proof_in_db : d.Db → ProvingKey → List ℕ → Result d.DbError (Unit {0}) × d.Db
  store_proof_in_db s key proof = d.replace_proof s key.app_id key.task_id proof

  -- What the loop does with a result; a failure of the database is logged only.
  abbrev pub store_result : {Err : Type 0} → Shared → ProvingKey → Result Err (List ℕ) → Shared
  store_result s key (success proof) = record {
    outputs = insert_output key proof s.outputs;
    db = (store_proof_in_db s.db key proof).1;
  }
  store_result s key (failure e) = s

  module _ {Program Pk Vk Err : Type 0}
      (prove_task : ProvingTask Program Pk Vk → Outcome (Result Err (List ℕ))) where
    -- A round of the loop. A panic ends it.
    unfoldable pub round : Shared → ProvingTask Program Pk Vk → Outcome Shared
    round s task = do result ← prove_task task; ok (store_result s task.key result)

    -- The loop, up to the end of the channel.
    unfoldable pub run : Shared → List (ProvingTask Program Pk Vk) → Outcome Shared
    run s [] = ok s
    run s (task ∷ tasks) = do s' ← round s task; run s' tasks
