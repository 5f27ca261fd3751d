-- ===== src/Programs/Written.antt =====
-- What is in the files that the programs have written.
use pico_proving_service.Prelude.{
  ℕ, ◌≡◌, refl, List, [], Option, none, some, Text, ok, Result, success, failure,
}
use pico_proving_service.Emulator.{Emulation, read_stdin}
use pico_proving_service.Programs.{Disk, ProgramError, from_io, from_io-success, codec}
use pico_proving_service.Programs.Inputs.{Writer, ReadsBack, Done, next, try, option, normalize}

module _ {R Program : Type 0} (disk : Disk) (em : Emulation R Program) (w : Writer em.StdinBuilder)
    (files : ReadsBack disk) where
  open disk use {Files, IoError, read, write}

  next-eq-success :
      {A B : Type 0} (r : Result (ProgramError IoError) A) (fs : Files)
      (f : A → Files → Done disk em w B) {b : B} {fs' : Files}
      → next disk em w (r, fs) f ≡ (success b, fs')
      → (a : A) × (r ≡ success a) × (f a fs ≡ (success b, fs'))
  next-eq-success (success a) fs f h = (a, refl, h)
  next-eq-success (failure e) fs f h = absurd cc

  try-eq-success :
      {A : Type 0} (p : Result IoError A × Files) {a : A} {fs' : Files}
      → try disk em w p ≡ (success a, fs')
      → p ≡ (success a, fs')
  try-eq-success (success a, fs) h = cc
  try-eq-success (failure e, fs) h = absurd cc

  pub option-eq-success :
      {A : Type 0} (e : ProgramError IoError) (o : Option A) {a : A}
      → option disk em w e o ≡ success a
      → o ≡ some a
  option-eq-success e none h = absurd cc
  option-eq-success e (some b) h = cc

  -- If `normalize_reth_inputs` succeeds, then the output file holds the bytes from which the
  -- emulator of the service reads the stdin builder with the client input of the input file. A file
  -- is taken to be read back as it was written, and a stdin builder to be read back from its bytes.
  pub read_stdin-normalize :
      ((b : em.StdinBuilder) (bytes : List ℕ)
        → w.serialize b ≡ some bytes
        → em.deserialize bytes ≡ some b)
      → (fs fs' : Files) (input output : Text)
      → normalize disk em w fs input output ≡ (success tt, fs')
      → (old bytes : List ℕ) × (client_input : w.ClientInput) × (read fs input ≡ success old)
        × (w.deserialize_client_input old ≡ some client_input)
        × (read fs' output ≡ success bytes)
        × (read_stdin em (some bytes) ≡ ok (w.write_client_input client_input em.new_builder))
  unfolding normalize read_stdin
  read_stdin-normalize codec_law fs fs' input output h =
      let (old, found, h1) = next-eq-success (from_io (read fs input)) fs _ h in
      let (client_input, known, h2) =
        next-eq-success (option disk em w codec (w.deserialize_client_input old)) fs _ h1 in
      let (_, _, h3) =
        next-eq-success (from_io (write fs output []).0) (write fs output []).1 _ h2 in
      let fs1 = (write fs output []).1 in
      let builder = w.write_client_input client_input em.new_builder in
      let (bytes, made, h4) =
        next-eq-success (option disk em w codec (w.serialize builder)) fs1 _ h3 in
      (
        old,
        bytes,
        client_input,
        from_io-success (read fs input) found,
        option-eq-success codec (w.deserialize_client_input old) known,
        files.written fs1 fs' output bytes (try-eq-success (write fs1 output bytes) h4),
        rw (codec_law builder bytes (option-eq-success codec (w.serialize builder) made)) refl,
      )
