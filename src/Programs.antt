-- ===== src/Programs.antt =====
-- The command-line programs of bin that make ids, digests and inputs for the service.
pub mod Hex
pub mod Digests
pub mod Inputs
pub mod Ids
pub mod Written
pub mod Dumped
use pico_proving_service.Prelude.{
  ℕ, ◌≡◌, refl, subst, List, ◌++◌, false, Option, none, some, Text, Outcome, ok, ◌>>=◌, Result,
  success, failure, and_then,
}
use pico_proving_service.Apps.{Toolchain, App, new, hex_prefix}
use pico_proving_service.Cost.{Estimator, EstimatedInfo, PicoError, estimate_cost}
use Hex.{lower_hex_64}

-- The file system, and the paths that the programs join.
pub record Disk : Type 1 where
  pub Files : Type 0
  pub IoError : Type 0
  pub read : Files → Text → Result IoError (List ℕ)
  pub write : Files → Text → List ℕ → Result IoError (Unit {0}) × Files
  pub create_dir_all : Files → Text → Result IoError (Unit {0}) × Files
  pub join : Text → Text → Text

-- The errors that end a program.
pub data ProgramError (IoError : Type 0) : Type 0 where
  io : IoError → ProgramError IoError
  codec : ProgramError IoError
  estimate : PicoError → ProgramError IoError
  execution : ProgramError IoError

abbrev pub from_io {ℓ} : {I : Type 0} {A : Type ℓ} → Result I A → Result (ProgramError I) A
from_io (success a) = success a
from_io (failure e) = failure (io e)

pub from_io-success {ℓ} :
    {I : Type 0} {A : Type ℓ} (r : Result I A) {a : A} → from_io r ≡ success a → r ≡ success a
from_io-success (success b) h = cc
from_io-success (failure e) h = cc

abbrev pub from_estimate :
    {I : Type 0} → Result PicoError EstimatedInfo → Result (ProgramError I) EstimatedInfo
from_estimate (success info) = success info
from_estimate (failure e) = failure (estimate e)

module _ (tc : Toolchain) (disk : Disk) where
  open disk use {Files, IoError, read}

  -- `gen_app_id`, with the id that it prints.
  unfoldable pub gen_app_id : Files → (elf : Text) → Outcome (Result (ProgramError IoError) Text)
  gen_app_id fs elf =
      and_then (ok (from_io (read fs elf)))
        λ bytes. (do app ← new tc bytes none; ok (success (hex_prefix ++ app.app_id)))

  -- `if let Some(file_path) = cli.inputs`
  abbrev pub read_inputs : Files → Option Text → Result IoError (Option (List ℕ))
  read_inputs fs none = success none
  read_inputs fs (some path) = elim (read fs path) [
    | success bytes ↦ success (some bytes)
    | failure e ↦ failure e
  ]

  -- The inputs that a program is given: none, or the bytes of a file.
  pub data Holds (fs : Files) : Option Text → Option (List ℕ) → Type 0 where
    no_file : Holds fs none none
    of_file :
        (path : Text) (bytes : List ℕ)
        → read fs path ≡ success bytes
        → Holds fs (some path) (some bytes)

  pub read_inputs-Holds :
      (fs : Files) (path : Option Text) (inputs : Option (List ℕ))
      → read_inputs fs path ≡ success inputs
      → Holds fs path inputs
  read_inputs-Holds fs none inputs h = subst (Holds fs none) (cc) no_file
  read_inputs-Holds fs (some path) inputs h = go (read fs path) refl h
    where
      go :
          (o : Result IoError (List ℕ))
          → read fs path ≡ o
          → ◌≡◌ {A = Result IoError (Option (List ℕ))}
              (elim o [ success bytes ↦ success (some bytes) | failure e ↦ failure e ])
              (success inputs)
          → Holds fs (some path) inputs
      go (success bytes) found h =
          let same : some bytes ≡ inputs = cc in
          subst (Holds fs (some path)) same (of_file path bytes found)
      go (failure e) found h = absurd cc

  module _ (es : Estimator) (task_of_app : App tc → es.Task) where
    -- The emulation of an app on its inputs, and the digest as it is printed.
    abbrev pub estimated : App tc → Option (List ℕ) → Result (ProgramError IoError) EstimatedInfo
    estimated app inputs = from_estimate (estimate_cost es (task_of_app app) inputs none false)

    abbrev pub printed_digest : EstimatedInfo → Text
    printed_digest info = hex_prefix ++ lower_hex_64 info.pv_digest

    -- `gen_common_pv_digest`, with the cycles and the digest that it prints.
    unfoldable pub gen_common_pv_digest :
        Files
        → (elf : Text) → (inputs : Option Text) → Outcome (Result (ProgramError IoError) (ℕ × Text))
    gen_common_pv_digest fs elf inputs = and_then (ok (from_io (read fs elf))) λ elf_bytes.
        and_then (ok (from_io (read_inputs fs inputs))) λ input_bytes. (do
          app ← new tc elf_bytes none
          and_then (ok (estimated app input_bytes))
              λ info. ok (success (info.total_cycles, printed_digest info)))

    -- `generate_pv_digest` of `gen_reth_inputs`
    unfoldable pub generate_pv_digest :
        Files → (elf : Text) → (inputs : List ℕ) → Outcome (Result (ProgramError IoError) Text)
    generate_pv_digest fs elf inputs = and_then (ok (from_io (read fs elf))) λ elf_bytes. (do
      app ← new tc elf_bytes none
      and_then (ok (estimated app (some inputs))) λ info. ok (success (printed_digest info)))
