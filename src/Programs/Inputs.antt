-- ===== src/Programs/Inputs.antt =====
-- The programs of bin that write inputs: the stdin of a program, as the bytes of its builder.
use pico_proving_service.Prelude.{
  ℕ, ◌≡◌, ◌≢◌, List, [], ◌∷◌, ◌++◌, Bool, false, Option, none, some, Text, Outcome, ok, panic,
  codec_failed, file_failed, Result, success, failure, text, to_string,
}
use pico_proving_service.Apps.{Toolchain, App, hex_prefix}
use pico_proving_service.Cost.{Estimator}
use pico_proving_service.Emulator.{Emulation}
use pico_proving_service.Programs.{
  Disk, ProgramError, codec, execution, from_io, generate_pv_digest,
}

-- The writes to a stdin builder, the codec of builders and of the inputs of an Ethereum client, and
-- hexadecimal text, as pico_vm, bincode, rsp and hex give them. An integer literal of the source is
-- an `i32` if nothing else is said.
pub record Writer (B : Type 0) : Type 1 where
  pub ClientInput : Type 0
  pub write_bool : Bool → B → B
  pub write_u32 : ℕ → B → B
  pub write_str : Text → B → B
  pub write_i32s : List ℕ → B → B
  pub write_client_input : ClientInput → B → B
  pub serialize : B → Option (List ℕ)
  pub deserialize_client_input : List ℕ → Option ClientInput
  pub hex_encode : List ℕ → Text
  -- the inputs of a block, executed over RPC
  pub execute : ℕ → Option ClientInput

-- A file that is written is read back, and the other files are kept; different files of a directory
-- have different paths.
pub record ReadsBack (disk : Disk) : Type 0 where
  pub written :
      (fs fs' : disk.Files) (path : Text) (bytes : List ℕ)
      → disk.write fs path bytes ≡ (success tt, fs')
      → disk.read fs' path ≡ success bytes
  pub kept :
      (fs fs' : disk.Files) (path other : Text) (bytes : List ℕ)
      → disk.write fs path bytes ≡ (success tt, fs')
      → other ≢ path
      → disk.read fs' other ≡ disk.read fs other
  pub joined : (dir file other : Text) → disk.join dir file ≡ disk.join dir other → file ≡ other

module _ {R Program : Type 0} (disk : Disk) (em : Emulation R Program)
    (w : Writer em.StdinBuilder) where
  open disk use {Files, IoError, read, write}

  -- What a program has done: its result, and the files.
  abbrev pub Done : Type 0 → Type 0
  Done A = Result (ProgramError IoError) A × Files

  abbrev pub next : {A B : Type 0} → Done A → (A → Files → Done B) → Done B
  next (success a, fs) f = f a fs
  next (failure e, fs) f = (failure e, fs)

  abbrev pub try : {A : Type 0} → Result IoError A × Files → Done A
  try (r, fs) = (from_io r, fs)

  abbrev pub option {ℓ} :
      {A : Type ℓ} → ProgramError IoError → Option A → Result (ProgramError IoError) A
  option e none = failure e
  option e (some a) = success a

  -- `normalize_reth_inputs`: the output is created before the builder is written to it.
  unfoldable pub normalize : Files → (input output : Text) → Done (Unit {0})
  normalize fs input output =
      next (from_io (read fs input), fs)
        λ bytes fs.
          next (option codec (w.deserialize_client_input bytes), fs)
            λ client_input fs.
              let stdin_builder = w.write_client_input client_input em.new_builder in
              next (try (write fs output [])) λ _ fs.
                next (option codec (w.serialize stdin_builder), fs)
                  λ bytes fs. try (write fs output bytes)

  -- A file of `gen_input_example`, and the line that is printed; every error ends it.
  abbrev written_or_panic : Text → Result IoError (Unit {0}) × Files → Outcome Text × Files
  written_or_panic line (success _, fs) = (ok line, fs)
  written_or_panic line (failure e, fs) = (panic file_failed, fs)

  abbrev dumped : Files → (path : Text) → Option (List ℕ) → Outcome Text × Files
  dumped fs path none = (panic codec_failed, fs)
  dumped fs path (some input) =
      written_or_panic (hex_prefix ++ w.hex_encode input) (write fs path input)

  abbrev pub dump : Files → (path : Text) → em.StdinBuilder → Outcome Text × Files
  dump fs path builder = dumped fs path (w.serialize builder)

  abbrev pub generate_bool_input : Files → Outcome Text × Files
  generate_bool_input fs = dump fs (text "bool_input.bin") (w.write_bool false em.new_builder)

  abbrev pub generate_u32_input : Files → Outcome Text × Files
  generate_u32_input fs = dump fs (text "u32_input.bin") (w.write_u32 100 em.new_builder)

  abbrev pub generate_string_input : Files → Outcome Text × Files
  generate_string_input fs =
      dump fs (text "str_input.bin") (w.write_str (text "dummy string") em.new_builder)

  abbrev pub generate_bytes_input : Files → Outcome Text × Files
  generate_bytes_input fs =
      dump fs (text "bytes_input.bin") (w.write_i32s (1 ∷ 2 ∷ 3 ∷ 4 ∷ []) em.new_builder)

  abbrev then : Outcome Text × Files → (Files → Outcome Text × Files) → Outcome Text × Files
  then (ok line, fs) f = f fs
  then (panic x, fs) f = (panic x, fs)

  -- Its `main`, with the last line.
  unfoldable pub gen_input_example : Files → Outcome Text × Files
  gen_input_example fs =
      then (then (then (generate_bool_input fs) generate_u32_input) generate_string_input)
        generate_bytes_input

  -- `generate_inputs` of `gen_reth_inputs`
  abbrev pub generate_inputs : ℕ → Result (ProgramError IoError) (List ℕ)
  generate_inputs block_number = elim (w.execute block_number) [
    | none ↦ failure execution
    | some input ↦ option codec (w.serialize (w.write_client_input input em.new_builder))
  ]

  abbrev pub input_path : Text → ℕ → Text
  input_path dir n = disk.join dir (text "reth_input_" ++ (to_string n ++ text ".bin"))

  abbrev pub pv_digest_path : Text → ℕ → Text
  pv_digest_path dir n = disk.join dir (text "reth_pv_digest_" ++ (to_string n ++ text ".bin"))

  module _ (tc : Toolchain) (es : Estimator) (task_of_app : App tc → es.Task) where
    abbrev pub Ran : Type 0
    Ran = Outcome (Result (ProgramError IoError) (Unit {0})) × Files

    abbrev pub run_next : {A : Type 0} → Done A → (A → Files → Ran) → Ran
    run_next (success a, fs) f = f a fs
    run_next (failure e, fs) f = (ok (failure e), fs)

    abbrev pub finished : Done (Unit {0}) → Ran
    finished (r, fs) = (ok r, fs)

    abbrev pub write_digest :
        (dir : Text) (block_number : ℕ) → Files → Outcome (Result (ProgramError IoError) Text) → Ran
    write_digest dir n fs (panic x) = (panic x, fs)
    write_digest dir n fs (ok (failure e)) = (ok (failure e), fs)
    write_digest dir n fs (ok (success digest)) =
        finished (try (write fs (pv_digest_path dir n) digest))

    -- The `main` of `gen_reth_inputs`. If the digest cannot be made, the inputs stay written.
    unfoldable pub gen_reth_inputs : Files → (block_number : ℕ) (elf dir : Text) → Ran
    gen_reth_inputs fs n elf dir = run_next (try (disk.create_dir_all fs dir)) λ _ fs.
        run_next (generate_inputs n, fs)
          λ inputs fs.
            run_next (try (write fs (input_path dir n) inputs)) λ _ fs.
              write_digest dir n fs (generate_pv_digest tc disk es task_of_app fs elf inputs)
