-- ===== src/Emulator/Delivers.antt =====
-- What the two threads of an emulation send to the gateway, whatever their order.
use pico_proving_service.Prelude.{
  ℕ, suc, ◌+◌, ◌*◌, ◌≤◌, ◌≡◌, refl, sym, ap, subst, ◌∙◌, List, [], ◌∷◌, ◌++◌, Bool, true, false,
  length, length-append, append_assoc, append-nil, arith, Bool-cases, inl, inr,
}
use pico_proving_service.Messages.{GatewayMsg}
use pico_proving_service.Emulator.{Emulation, chunk_message, send_records, run}
use pico_proving_service.Emulator.Threads.{
  Thread, batching, sending, ended, Threads, begin_with, Step, batch, send, next, end, receive,
  join, Reach, here, later, Records, stop, more,
}

abbrev pub unjoined : Bool → ℕ
unjoined true = 0
unjoined false = 1

module _ {R Program : Type 0} (em : Emulation R Program) where
  open em use {Emulator, next_record_batch}

  -- The records that the emulator thread has still to send, and its batches to come.
  abbrev pub Left : Thread R Emulator → List R → ℕ → Type 0
  Left (batching e) left n = Records em e left n
  Left (sending rs false e) left n = (rest : List R) × (left ≡ rs ++ rest) × Records em e rest n
  Left (sending rs true e) left n = (left ≡ rs) × (n ≡ 0)
  Left (ended e) left n = (left ≡ []) × (n ≡ 0)

  -- The steps that the emulator thread takes beside its sends.
  abbrev pub turns : Thread R Emulator → ℕ → ℕ
  turns (batching e) n = 2 * n
  turns (sending rs false e) n = 2 * n + 1
  turns (sending rs true e) n = 1
  turns (ended e) n = 0

  batch-Left :
      {e e' : Emulator} {rs : List R} (done : Bool) {left : List R} {n : ℕ}
      → next_record_batch e ≡ (rs, done, e')
      → Records em e left n
      → (n' : ℕ) × Left (sending rs done e') left n' × (suc (turns (sending rs done e') n') ≡ 2 * n)
  batch-Left true made (stop h) = (0, (cc, refl), refl)
  batch-Left false made (stop h) = absurd cc
  batch-Left true made (more h r) = absurd cc
  batch-Left false made (more {rest} {n} h r) =
      (n, (rest, ap (λ x. x ++ rest) (cc), subst (λ x. Records em x rest n) (cc) r), omega arith)

  send-Left :
      (r : R) (rs : List R) (done : Bool) (e : Emulator) {left : List R} (n : ℕ)
      → Left (sending (r ∷ rs) done e) left n
      → (left' : List R) × (left ≡ r ∷ left')
        × (Left (sending rs done e) left' n
            × (turns (sending rs done e) n ≡ turns (sending (r ∷ rs) done e) n))
  send-Left r rs true e n (same, zeros) = (rs, same, ((refl, zeros), refl))
  send-Left r rs false e n (rest, same, made) = (rs ++ rest, same, ((rest, refl, made), refl))

module _ {P R E Program : Type 0} (em : Emulation R Program) (capacity : ℕ) (all : List R) where
  open em use {Emulator, next_record_batch}

  pub record Inv (s : Threads P R E Emulator) : Type 0 where
    pub left : List R
    pub batches : ℕ
    pub lefts : Left em s.emulator left batches
    pub bounded : length s.channel ≤ capacity
    pub split :
        s.joined ≡ false → s.sent ++ send_records s.chunk_index (s.channel ++ left) ≡ run all
    pub whole : s.joined ≡ true → s.sent ≡ run all

  -- The steps to come.
  abbrev pub weight : {s : Threads P R E Emulator} → Inv s → ℕ
  weight {s} inv =
      2 * length inv.left + length s.channel + turns em s.emulator inv.batches + unjoined s.joined

  pub begin-Inv : (e : Emulator) (n : ℕ) → Records em e all n → Inv (begin_with em e)
  unfolding run
  begin-Inv e n r = record {
    left = all;
    batches = n;
    lefts = r;
    bounded = omega arith;
    split = λ _. refl;
    whole = λ h. cc;
  }

  -- The invariant of the next state, whose weight is less by one.
  abbrev pub Kept : {s : Threads P R E Emulator} → Inv s → Threads P R E Emulator → Type 0
  Kept inv t = (inv' : Inv t) × (suc (weight inv') ≡ weight inv)

  pub Step-Inv : {s t : Threads P R E Emulator} (inv : Inv s) → Step em capacity s t → Kept inv t
  unfolding send_records
  Step-Inv {s} inv (batch e e' rs done at made) =
      let lefts = subst (λ x. Left em x inv.left inv.batches) at inv.lefts in
      let (n, lefts', fewer) = batch-Left em done made lefts in
      let before = ap (λ x. turns em x inv.batches) at in
      (
        record {
          left = inv.left;
          batches = n;
          lefts = lefts';
          bounded = inv.bounded;
          split = inv.split;
          whole = inv.whole;
        },
        omega arith,
      )
  Step-Inv {s} inv (send r rs done e at room) =
      let lefts = subst (λ x. Left em x inv.left inv.batches) at inv.lefts in
      let (left, same, lefts') = send-Left em r rs done e inv.batches lefts in
      let before = ap (λ x. turns em x inv.batches) at in
      let shorter = ap length same in
      let longer = length-append s.channel (r ∷ []) in
      (
        record {
          left = left;
          batches = inv.batches;
          lefts = lefts'.0;
          bounded = omega arith;
          split = λ u.
              ap (λ x. s.sent ++ send_records s.chunk_index x)
                (append_assoc s.channel (r ∷ []) left ∙ ap (λ x. s.channel ++ x) (sym same))
              ∙ inv.split u;
          whole = inv.whole;
        },
        omega (arith, lefts'.1),
      )
  Step-Inv {s} inv (next e at) =
      let (rest, same, r) = subst (λ x. Left em x inv.left inv.batches) at inv.lefts in
      let before = ap (λ x. turns em x inv.batches) at in
      (
        record {
          left = inv.left;
          batches = inv.batches;
          lefts = subst (λ x. Records em e x inv.batches) (sym same) r;
          bounded = inv.bounded;
          split = inv.split;
          whole = inv.whole;
        },
        omega arith,
      )
  Step-Inv {s} inv (end e at) =
      let (same, zeros) = subst (λ x. Left em x inv.left inv.batches) at inv.lefts in
      let before = ap (λ x. turns em x inv.batches) at in
      (
        record {
          left = inv.left;
          batches = inv.batches;
          lefts = (same, zeros);
          bounded = inv.bounded;
          split = inv.split;
          whole = inv.whole;
        },
        omega arith,
      )
  Step-Inv {s} inv (receive r rs unended at) =
      let shorter = ap length at in
      (
        record {
          left = inv.left;
          batches = inv.batches;
          lefts = inv.lefts;
          bounded = omega (arith, inv.bounded);
          split = λ u.
              append_assoc s.sent (chunk_message s.chunk_index r ∷ []) _
              ∙ ap (λ x. s.sent ++ send_records s.chunk_index (x ++ inv.left)) (sym at)
              ∙ inv.split unended;
          whole = λ u. absurd cc;
        },
        omega arith,
      )
  Step-Inv {s} inv (join e unended at drained) =
      let (same, zeros) = subst (λ x. Left em x inv.left inv.batches) at inv.lefts in
      let before = ap (λ x. turns em x inv.batches) at in
      let waiting = ap unjoined unended in
      (
        record {
          left = inv.left;
          batches = inv.batches;
          lefts = inv.lefts;
          bounded = inv.bounded;
          split = λ u. absurd cc;
          whole = λ u.
              ap (λ x. s.sent ++ send_records s.chunk_index x)
                (sym same ∙ ap (λ x. x ++ inv.left) (sym drained))
              ∙ inv.split unended;
        },
        omega arith,
      )

  pub steps : {s t : Threads P R E Emulator} → Reach em capacity s t → ℕ
  steps here = 0
  steps (later r step) = suc (steps r)

  -- Every state that the threads reach, with the steps that led to it.
  pub Reach-Inv :
      (e : Emulator) (n : ℕ) {s : Threads P R E Emulator}
      → Records em e all n
      → (r : Reach em capacity (begin_with em e) s)
      → (inv : Inv s) × (steps r + weight inv ≡ 2 * length all + 2 * n + 1)
  unfolding steps begin-Inv
  Reach-Inv e n made here = (begin-Inv e n made, omega arith)
  Reach-Inv e n made (later r step) =
      let (inv, count) = Reach-Inv e n made r in
      let (inv', less) = Step-Inv inv step in (inv', omega arith)

  -- If the emulation makes the records in some batches, then in every state that its two threads
  -- reach, whatever their order, the channel is within its capacity, the messages sent to the
  -- gateway are the first ones of those for the records in order, and all of them once the thread
  -- is joined; and the number of steps so far is at most twice the records and the batches, and
  -- one.
  pub sent_in_order :
      (s : Threads P R E Emulator) (e : Emulator) (n : ℕ)
      → Records em e all n
      → (r : Reach em capacity (begin_with em e) s)
      → (length s.channel ≤ capacity)
        × (steps r ≤ 2 * length all + 2 * n + 1)
        × ((rest : List (GatewayMsg P R E)) × (s.sent ++ rest ≡ run all)
            × (s.joined ≡ true → rest ≡ []))
  sent_in_order s e n made r =
      let (inv, count) = Reach-Inv e n made r in
      (
        inv.bounded,
        omega (arith, count),
        elim (Bool-cases s.joined) [
          | inl y ↦ ([], append-nil s.sent ∙ inv.whole y, λ _. refl)
          | inr u ↦ (_, inv.split u, λ y. absurd cc)
        ],
      )
