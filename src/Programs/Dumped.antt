-- ===== src/Programs/Dumped.antt =====
-- What bin/gen_reth_inputs.rs leaves in its directory.
use pico_proving_service.Prelude.{
  ℕ, ◌≡◌, ◌≢◌, refl, ap, ◌∙◌, List, [], ◌∷◌, drop, arith, Option, none, some, Text, Outcome, ok,
  panic, Result, success, failure, text, to_string, ◌++◌,
}
use pico_proving_service.Apps.{Toolchain, App}
use pico_proving_service.Cost.{Estimator, EstimatedInfo}
use pico_proving_service.Emulator.{Emulation, read_stdin}
use pico_proving_service.Programs.{Disk, ProgramError, from_io-success, codec, execution}
use pico_proving_service.Programs.Digests.{Prints, generate_pv_digest-Prints}
use pico_proving_service.Programs.Inputs.{
  Writer, ReadsBack, try, option, generate_inputs, input_path, pv_digest_path, write_digest,
  gen_reth_inputs, run_next, finished, Ran,
}
use pico_proving_service.Programs.Written.{option-eq-success}

abbrev pub first : Text → ℕ
first [] = 0
first (c ∷ s) = c

module _ {R Program : Type 0} (disk : Disk) (em : Emulation R Program) (w : Writer em.StdinBuilder)
    (files : ReadsBack disk) where
  open disk use {Files, IoError, read, write}

  -- The inputs of a block are read by the emulator.
  generate_inputs-eq-success :
      ((b : em.StdinBuilder) (bytes : List ℕ)
        → w.serialize b ≡ some bytes
        → em.deserialize bytes ≡ some b)
      → (n : ℕ) (inputs : List ℕ) → generate_inputs disk em w n ≡ success inputs
      → (client_input : w.ClientInput) × (w.execute n ≡ some client_input)
        × (read_stdin em (some inputs) ≡ ok (w.write_client_input client_input em.new_builder))
  unfolding read_stdin
  generate_inputs-eq-success codec_law n inputs h = go (w.execute n) refl h
    where
      go :
          (o : Option w.ClientInput)
          → w.execute n ≡ o
          → (elim o [
            | none ↦ failure execution
            | some input ↦
                option disk em w codec (w.serialize (w.write_client_input input em.new_builder))
          ])
            ≡ success inputs
          → (client_input : w.ClientInput) × (w.execute n ≡ some client_input)
            × (read_stdin em (some inputs) ≡ ok (w.write_client_input client_input em.new_builder))
      go none executed h = absurd cc
      go (some input) executed h =
          let builder = w.write_client_input input em.new_builder in
          (
            input,
            executed,
            rw
                (codec_law builder inputs
                  (option-eq-success disk em w files codec (w.serialize builder) h))
                refl,
          )

  -- The two files of a block are two.
  paths-differ : (dir : Text) (n : ℕ) → input_path disk em w dir n ≢ pv_digest_path disk em w dir n
  paths-differ dir n h =
      let same =
        files.joined dir (text "reth_input_" ++ (to_string n ++ text ".bin"))
          (text "reth_pv_digest_" ++ (to_string n ++ text ".bin")) h in
      let clash : ◌≡◌ {A = ℕ} b'i' b'p' = ap (λ x. first (drop 5 x)) same in omega arith

  module _ (tc : Toolchain) (es : Estimator) (task_of_app : App tc → es.Task) where
    run_next-eq-success :
        {A : Type 0} (r : Result (ProgramError IoError) A) (fs fs' : Files)
        (f : A → Files → Ran disk em w tc es task_of_app)
        → run_next disk em w tc es task_of_app (r, fs) f ≡ (ok (success tt), fs')
        → (a : A) × (r ≡ success a) × (f a fs ≡ (ok (success tt), fs'))
    run_next-eq-success (success a) fs fs' f h = (a, refl, h)
    run_next-eq-success (failure e) fs fs' f h = absurd cc

    digest-eq-success :
        (dir : Text) (n : ℕ) (fs fs' : Files) (o : Outcome (Result (ProgramError IoError) Text))
        → write_digest disk em w tc es task_of_app dir n fs o ≡ (ok (success tt), fs')
        → (line : Text) × (o ≡ ok (success line))
          × (write fs (pv_digest_path disk em w dir n) line ≡ (success tt, fs'))
    digest-eq-success dir n fs fs' (panic x) h = absurd cc
    digest-eq-success dir n fs fs' (ok (failure e)) h = absurd cc
    digest-eq-success dir n fs fs' (ok (success line)) h =
        (line, refl, wrote (write fs (pv_digest_path disk em w dir n) line) h)
      where
        wrote :
            (p : Result IoError (Unit {0}) × Files)
            → finished disk em w tc es task_of_app (try disk em w p) ≡ (ok (success tt), fs')
            → p ≡ (success tt, fs')
        wrote (success tt, fs1) h = cc
        wrote (failure e, fs1) h = absurd cc

    -- If `gen_reth_inputs` succeeds for a block, and the ELF file is not the file of the digest,
    -- then one file of its directory holds the bytes from which the emulator of the service reads
    -- the stdin builder with the input of the block, and another the print of the digest of an
    -- estimate for the app of the ELF file on those bytes. Files are taken to be read back as they
    -- were written and to be kept by writes to others, and a stdin builder to be read back from its
    -- bytes.
    pub gen_reth_inputs-Writes :
        ((b : em.StdinBuilder) (bytes : List ℕ)
          → w.serialize b ≡ some bytes
          → em.deserialize bytes ≡ some b)
        → (fs fs' : Files) (n : ℕ) (elf_path dir : Text) → elf_path ≢ pv_digest_path disk em w dir n
        → gen_reth_inputs disk em w tc es task_of_app fs n elf_path dir ≡ (ok (success tt), fs')
        → (inputs line elf : List ℕ) × (client_input : w.ClientInput) × (info : EstimatedInfo)
          × (w.execute n ≡ some client_input)
          × (read fs' (input_path disk em w dir n) ≡ success inputs)
          × (read_stdin em (some inputs) ≡ ok (w.write_client_input client_input em.new_builder))
          × (read fs' (pv_digest_path disk em w dir n) ≡ success line)
          × (read fs' elf_path ≡ success elf)
          × Prints tc disk es task_of_app elf (some inputs) info line
    unfolding gen_reth_inputs
    gen_reth_inputs-Writes codec_law fs fs' n elf_path dir apart h =
        let (_, _, h1) =
          run_next-eq-success (try disk em w (disk.create_dir_all fs dir)).0
            (disk.create_dir_all fs dir).1 fs' _ h in
        let fs1 = (disk.create_dir_all fs dir).1 in
        let (inputs, made, h2) = run_next-eq-success (generate_inputs disk em w n) fs1 fs' _ h1 in
        let (client_input, executed, reads) = generate_inputs-eq-success codec_law n inputs made in
        let path = input_path disk em w dir n in
        let (_, wrote, h3) =
          run_next-eq-success (try disk em w (write fs1 path inputs)).0 (write fs1 path inputs).1
            fs' _ h2 in
        let fs2 = (write fs1 path inputs).1 in
        let (line, digest, last) = digest-eq-success dir n fs2 fs' _ h3 in
        let (elf, elf_read, (info, prints)) =
          generate_pv_digest-Prints tc disk es task_of_app fs2 elf_path inputs line digest in
        (
          inputs,
          line,
          elf,
          client_input,
          info,
          executed,
          files.kept fs2 fs' (pv_digest_path disk em w dir n) path line last (paths-differ dir n)
              ∙ files.written fs1 fs2 path inputs
                  (ap (λ r. (r, fs2)) (from_io-success (write fs1 path inputs).0 wrote)),
          reads,
          files.written fs2 fs' (pv_digest_path disk em w dir n) line last,
          files.kept fs2 fs' (pv_digest_path disk em w dir n) elf_path line last apart ∙ elf_read,
          prints,
        )
