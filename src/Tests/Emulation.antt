-- ===== src/Tests/Emulation.antt =====
-- An emulation of two batches of one record each, and its two threads.
use pico_proving_service.Prelude.{
  ℕ, ◌+◌, ◌*◌, ◌≤◌, ◌≡◌, refl, List, [], ◌∷◌, ◌++◌, Option, none, some, Bool, true, false, arith,
}
use pico_proving_service.Messages.{GatewayMsg}
use pico_proving_service.Emulator.{Emulation, chunk_message, run}
use pico_proving_service.Emulator.Threads.{
  Threads, sending, begin_with, batch, send, next, receive, Reach, here, later, Records, stop, more,
}
use pico_proving_service.Emulator.Delivers.{steps, sent_in_order}
use pico_proving_service.Emulator.Joins.{Joins, joins}

-- One record in each batch; the last batch has none behind it.
abbrev one_each : List ℕ → List ℕ × Bool × List ℕ
one_each [] = ([], true, [])
one_each (x ∷ []) = (x ∷ [], true, [])
one_each (x ∷ y ∷ xs) = (x ∷ [], false, y ∷ xs)

-- A stdin is some bytes, but not none at all.
abbrev not_empty : List ℕ → Option (List ℕ)
not_empty [] = none
not_empty (x ∷ xs) = some (x ∷ xs)

abbrev pub emulation : Emulation ℕ (List ℕ)
emulation = record {
  StdinBuilder = List ℕ;
  Keys = Unit {0};
  Witness = List ℕ;
  Emulator = List ℕ;
  new_builder = [];
  deserialize = not_empty;
  setup_keys = λ _. tt;
  setup_for_riscv = λ program builder keys. builder;
  chunk_batch_size = λ _. none;
  setup_riscv = λ witness. witness;
  next_record_batch = one_each;
}

pub two_records : Records emulation (70 ∷ 80 ∷ []) (70 ∷ 80 ∷ []) 2
two_records = more {rs = 70 ∷ []} refl (stop refl)

abbrev Example : Type 0
Example = Threads (List ℕ) ℕ (List ℕ) (List ℕ)

-- The second record is on its way when the first one is taken out.
abbrev half_way : Example
half_way = record {
  emulator = sending [] true [];
  channel = 80 ∷ [];
  chunk_index = 1;
  sent = chunk_message 0 70 ∷ [];
  joined = false;
}

half_way_reached : Reach emulation 2 (begin_with emulation (70 ∷ 80 ∷ [])) half_way
half_way_reached =
    later
      (later
        (later
          (later
            (later (later here (batch _ _ _ _ refl refl))
              (send 70 [] false (80 ∷ []) refl (omega arith)))
            (next _ refl))
          (batch _ _ _ _ refl refl))
        (send 80 [] true [] refl (omega arith)))
      (receive 70 (80 ∷ []) refl refl)

sent_in_order_example :
    (1 ≤ 2)
    × (steps emulation 2 (70 ∷ 80 ∷ []) half_way_reached ≤ 2 * 2 + 2 * 2 + 1)
    × ((rest : List (GatewayMsg (List ℕ) ℕ (List ℕ))) × (chunk_message 0 70 ∷ [] ++ rest
          ≡ run (70 ∷ 80 ∷ []))
        × (false ≡ true → rest ≡ []))
sent_in_order_example =
    sent_in_order emulation 2 (70 ∷ 80 ∷ []) half_way (70 ∷ 80 ∷ []) 2 two_records half_way_reached

joins_example : Joins emulation 2 (70 ∷ 80 ∷ []) half_way
joins_example =
    joins emulation 2 (70 ∷ 80 ∷ []) half_way (70 ∷ 80 ∷ []) 2 two_records (omega arith)
      half_way_reached
