-- ===== src/Emulator.antt =====
-- src/proving/emulator.rs: the messages of an emulation, one for each record, by rising chunk
-- index, and the stdin that it starts from. Threads has the thread that makes the records and the
-- loop that sends them on.
pub mod Threads
pub mod Delivers
pub mod Joins
use pico_proving_service.Prelude.{
  ℕ, suc, ◌*◌, ◌%◌, ◌^◌, Bool, List, [], ◌∷◌, Option, none, some, Outcome, ok, panic, to_string,
  codec_failed,
}
use pico_proving_service.Messages.{GatewayMsg, emulator_complete, riscv, RiscvMsg}

-- What pico_vm and bincode give: the stdin of a program, its witness, and the emulator on it. A
-- batch is the records that it hands to the callback, with the `done` of its report.
pub record Emulation (R Program : Type 0) : Type 1 where
  pub StdinBuilder : Type 0
  pub Keys : Type 0
  pub Witness : Type 0
  pub Emulator : Type 0
  pub new_builder : StdinBuilder
  pub deserialize : List ℕ → Option StdinBuilder
  pub setup_keys : Program → Keys
  pub setup_for_riscv : Program → StdinBuilder → Keys → Witness
  pub chunk_batch_size : Witness → Option ℕ
  pub setup_riscv : Witness → Emulator
  pub next_record_batch : Emulator → List R × Bool × Emulator

module _ {P R E : Type 0} where
  abbrev pub chunk_message : ℕ → R → GatewayMsg P R E
  chunk_message index r =
      riscv (RiscvMsg.request (record { chunk_index = index; emulation_record = r }))
        (to_string index) []

  -- The loop over the records, from a chunk index on, and the message behind it.
  unfoldable pub send_records : ℕ → List R → List (GatewayMsg P R E)
  send_records index [] = emulator_complete ∷ []
  send_records index (r ∷ rs) = chunk_message index r ∷ send_records (suc index) rs

  unfoldable pub run : List R → List (GatewayMsg P R E)
  unfolding send_records
  run records = send_records 0 records

module _ {R Program : Type 0} (em : Emulation R Program) where
  open em use {StdinBuilder, Witness}

  abbrev or_codec_failed : Option StdinBuilder → Outcome StdinBuilder
  or_codec_failed none = panic codec_failed
  or_codec_failed (some builder) = ok builder

  -- The inputs of a task, which are the bytes of a stdin builder.
  unfoldable pub read_stdin : Option (List ℕ) → Outcome StdinBuilder
  read_stdin none = ok em.new_builder
  read_stdin (some inputs) = or_codec_failed (em.deserialize inputs)

  abbrev pub setup_witness : Program → StdinBuilder → Witness
  setup_witness program builder = em.setup_for_riscv program builder (em.setup_keys program)

  abbrev batch_size_or : Option ℕ → ℕ
  batch_size_or none = 64
  batch_size_or (some n) = n

  -- The room of the channel between the two threads; the product is one of `u32`.
  abbrev pub channel_capacity : Witness → ℕ
  channel_capacity witness = 4 * batch_size_or (em.chunk_batch_size witness) % 2 ^ 32
