-- ===== src/Emulator/Threads.antt =====
-- The two threads of an emulation in src/proving/emulator.rs: one makes the records, batch by batch,
-- and sends each into a bounded channel; the other takes them out and sends them to the gateway,
-- whose channel is open, since the caller holds both of its ends. A channel with no room, which a
-- batch size of zero asks for, hands records over without holding them, and is not modelled.
use pico_proving_service.Prelude.{ℕ, suc, ◌<◌, ◌≡◌, List, [], ◌∷◌, ◌++◌, Bool, true, false, length}
use pico_proving_service.Messages.{GatewayMsg, emulator_complete}
use pico_proving_service.Emulator.{Emulation, chunk_message}

-- The emulator thread: at the head of its loop, with records of a batch to send and the `done` of
-- its report, or behind the loop, where `record_sender` is dropped.
pub data Thread (R Em : Type 0) : Type 0 where
  batching : Em → Thread R Em
  sending : List R → Bool → Em → Thread R Em
  ended : Em → Thread R Em

pub record Threads (P R E Em : Type 0) : Type 0 where
  pub emulator : Thread R Em
  -- the bounded channel
  pub channel : List R
  pub chunk_index : ℕ
  -- what the gateway has been sent
  pub sent : List (GatewayMsg P R E)
  -- whether the loop over the records has ended and the thread is joined
  pub joined : Bool

module _ {P R E Program : Type 0} (em : Emulation R Program) where
  open em use {Emulator, next_record_batch}

  abbrev pub begin_with : Emulator → Threads P R E Emulator
  begin_with e = record {
    emulator = batching e;
    channel = [];
    chunk_index = 0;
    sent = [];
    joined = false;
  }

  module _ (capacity : ℕ) where
    -- Either thread moves. A send waits for room, a receipt for a record or for the drop of the
    -- sender.
    pub data Step (s : Threads P R E Emulator) : Threads P R E Emulator → Type 0 where
      batch :
          (e e' : Emulator) (rs : List R) (done : Bool)
          → s.emulator ≡ batching e
          → next_record_batch e ≡ (rs, done, e')
          → Step s (record s { emulator = sending rs done e' })
      send :
          (r : R) (rs : List R) (done : Bool) (e : Emulator)
          → s.emulator ≡ sending (r ∷ rs) done e
          → length s.channel < capacity
          → Step s (record s { emulator = sending rs done e; channel = s.channel ++ r ∷ [] })
      next :
          (e : Emulator)
          → s.emulator ≡ sending [] false e
          → Step s (record s { emulator = batching e })
      end :
          (e : Emulator) → s.emulator ≡ sending [] true e → Step s (record s { emulator = ended e })
      receive :
          (r : R) (rs : List R)
          → s.joined ≡ false
          → s.channel ≡ r ∷ rs
          → Step s (record s {
            channel = rs;
            chunk_index = suc s.chunk_index;
            sent = s.sent ++ chunk_message s.chunk_index r ∷ [];
          })
      join :
          (e : Emulator)
          → s.joined ≡ false
          → s.emulator ≡ ended e
          → s.channel ≡ []
          → Step s (record s { sent = s.sent ++ emulator_complete ∷ []; joined = true })

    pub data Reach (s : Threads P R E Emulator) : Threads P R E Emulator → Type 0 where
      here : Reach s s
      later : {t u : Threads P R E Emulator} → Reach s t → Step t u → Reach s u

module _ {R Program : Type 0} (em : Emulation R Program) where
  open em use {Emulator, next_record_batch}

  -- The records that an emulator makes in its batches, and the number of these, up to the batch
  -- whose report says that it is done.
  pub data Records : Emulator → List R → ℕ → Type 0 where
    stop : {e e' : Emulator} {rs : List R} → next_record_batch e ≡ (rs, true, e') → Records e rs 1
    more :
        {e e' : Emulator} {rs rest : List R} {n : ℕ}
        → next_record_batch e ≡ (rs, false, e')
        → Records e' rest n
        → Records e (rs ++ rest) (suc n)
