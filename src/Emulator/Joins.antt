-- ===== src/Emulator/Joins.antt =====
-- The two threads of an emulation come to an end: neither waits for the other for ever.
use pico_proving_service.Prelude.{
  ℕ, zero, suc, ◌<◌, ◌≡◌, refl, sym, ap, subst, List, [], ◌∷◌, true, false, length, arith,
  Bool-cases, inl, inr,
}
use pico_proving_service.Emulator.{Emulation, run}
use pico_proving_service.Emulator.Threads.{
  Thread, batching, sending, ended, Threads, begin_with, Step, batch, send, next, end, receive,
  join, Reach, here, later, Records,
}
use pico_proving_service.Emulator.Delivers.{Inv, weight, unjoined, Step-Inv, Reach-Inv}

module _ {P R E Program : Type 0} (em : Emulation R Program) (capacity : ℕ) where
  open em use {Emulator, next_record_batch}

  -- A thread can move: the loop takes a record if there is one, and else the channel has room.
  moves :
      (s : Threads P R E Emulator)
      → 0 < capacity
      → s.joined ≡ false
      → (t : Threads P R E Emulator) × Step em capacity s t
  moves s room unended = go s.emulator s.channel refl refl
    where
      go :
          (th : Thread R Emulator) (ch : List R)
          → s.emulator ≡ th
          → s.channel ≡ ch
          → (t : Threads P R E Emulator) × Step em capacity s t
      go th (r ∷ rs) at waits = (_, receive r rs unended waits)
      go (batching e) [] at waits = (_, batch e _ _ _ at refl)
      go (sending (r ∷ rs) done e) [] at waits =
          (_, send r rs done e at (subst (λ x. length x < capacity) (sym waits) room))
      go (sending [] true e) [] at waits = (_, end e at)
      go (sending [] false e) [] at waits = (_, next e at)
      go (ended e) [] at waits = (_, join e unended at waits)

  first :
      {s t u : Threads P R E Emulator}
      → Step em capacity s t
      → Reach em capacity t u
      → Reach em capacity s u
  first step here = later here step
  first step (later r step') = later (first step r) step'

  module _ (all : List R) where
    -- The threads can be led to the end.
    pub Joins : Threads P R E Emulator → Type 0
    Joins s =
        (t : Threads P R E Emulator) × Reach em capacity s t
        × (t.joined ≡ true)
        × (t.sent ≡ run all)

    leads :
        (k : ℕ) (s : Threads P R E Emulator)
        → 0 < capacity
        → (inv : Inv em capacity all s) → weight em capacity all inv ≡ k
        → Joins s
    unfolding Joins
    leads zero s room inv w = elim (Bool-cases s.joined) [
      | inl y ↦ (s, here, y, inv.whole y)
      | inr u ↦ let one = ap unjoined u in absurd (omega arith)
    ]
    leads (suc k) s room inv w = elim (Bool-cases s.joined) [
      | inl y ↦ (s, here, y, inv.whole y)
      | inr u ↦
          let (t, step) = moves s room u in
          let (inv', less) = Step-Inv em capacity all inv step in
          let (last, r, y, whole) = leads k t room inv' (omega arith) in
          (last, first step r, y, whole)
    ]

    -- If the emulation makes the records in some batches and the channel has room for one, then
    -- from every state that the two threads reach, steps lead to a state in which the thread is
    -- joined and the messages for all records have been sent, in order.
    pub joins :
        (s : Threads P R E Emulator) (e : Emulator) (n : ℕ)
        → Records em e all n
        → 0 < capacity
        → Reach em capacity (begin_with em e) s
        → Joins s
    joins s e n made room r =
        let (inv, count) = Reach-Inv em capacity all e n made r in
        leads (weight em capacity all inv) s room inv refl
