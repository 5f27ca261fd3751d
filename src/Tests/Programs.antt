-- ===== src/Tests/Programs.antt =====
-- The programs on a small disk.
use pico_proving_service.Prelude.{
  ℕ, ◌≡◌, refl, sym, ap, ◌∙◌, List, [], ◌∷◌, ◌++◌, Option, none, some, Text, ok, Result, success,
  failure, text, replicate, arith, if◌then◌else◌,
}
use pico_proving_service.Apps.{new, get_app, hex_prefix}
use pico_proving_service.Queue.{same_text}
use pico_proving_service.Queue.Outputs.{same_text_refl}
use pico_proving_service.Cost.{EstimatedInfo, estimate_cost}
use pico_proving_service.Emulator.{read_stdin}
use pico_proving_service.Programs.{
  Disk, gen_app_id, gen_common_pv_digest, generate_pv_digest, Holds,
}
use pico_proving_service.Programs.Hex.{lower_hex_64}
use pico_proving_service.Programs.Digests.{Prints, gen_common_pv_digest-Prints}
use pico_proving_service.Programs.Ids.{get_app-gen_app_id}
use pico_proving_service.Programs.Inputs.{
  Writer, ReadsBack, normalize, input_path, pv_digest_path, gen_reth_inputs,
}
use pico_proving_service.Programs.Dumped.{first, gen_reth_inputs-Writes}
use pico_proving_service.Programs.Written.{read_stdin-normalize}
use pico_proving_service.Tests.Apps.{
  toolchain, toolchain-IsCodec, database, database-IsDatabase, no_tables, app, app_row, with_app,
  set_first, differs,
}
use pico_proving_service.Tests.Service.{estimator}
use pico_proving_service.Tests.Emulation.{emulation}

-- Files as a function of their paths.
abbrev found : Option (List ℕ) → Result (Unit {0}) (List ℕ)
found none = failure tt
found (some bytes) = success bytes

abbrev pub Paths : Type 0
Paths = Text → Option (List ℕ)

abbrev pub with_file : Paths → Text → List ℕ → Paths
with_file fs path bytes = λ p. if same_text p path then some bytes else fs p

abbrev pub disk : Disk
disk = record {
  Files = Paths;
  IoError = Unit;
  read = λ fs path. found (fs path);
  write = λ fs path bytes. (success tt, with_file fs path bytes);
  create_dir_all = λ fs path. (success tt, fs);
  join = λ dir file. dir ++ file;
}

-- What an append has in common with another behind the same list.
append-cancel : (front a b : Text) → front ++ a ≡ front ++ b → a ≡ b
append-cancel [] a b h = h
append-cancel (x ∷ front) a b h = append-cancel front a b (cc)

disk-ReadsBack : ReadsBack disk
disk-ReadsBack = record {
  written = λ fs fs' path bytes h.
      ap (λ (x : Result (Unit {0}) (Unit {0}) × Paths). found (x.1 path)) (sym h)
      ∙ rw (same_text_refl path) refl;
  kept = λ fs fs' path other bytes h apart.
      ap (λ (x : Result (Unit {0}) (Unit {0}) × Paths). found (x.1 other)) (sym h)
      ∙ rw (differs other path apart) refl;
  joined = append-cancel;
}

abbrev elf_path : Text
elf_path = text "elf"

-- The ELF file, and an input.
abbrev files : Paths
files = with_file (with_file (λ _. none) elf_path (7 ∷ [])) (text "in") (5 ∷ [])

get_app-gen_app_id_example :
    get_app toolchain database (with_app no_tables app_row) (hex_prefix ++ replicate 64 b'a')
    ≡ ok (success (some app))
get_app-gen_app_id_example =
    get_app-gen_app_id toolchain database disk toolchain-IsCodec database-IsDatabase files elf_path
      no_tables (with_app no_tables app_row) (7 ∷ []) none app (hex_prefix ++ replicate 64 b'a')
      refl set_first (unfold gen_app_id new in refl)

abbrev info : EstimatedInfo
info = record { cost = 9; total_cycles = 9; pv_digest = 5 }

gen_common_pv_digest-Prints_example :
    (elf : List ℕ) × (bytes : Option (List ℕ)) × (disk.read files elf_path ≡ success elf)
    × Holds toolchain disk files (some (text "in")) bytes
    × ((info : EstimatedInfo) × Prints toolchain disk estimator
          (λ _. tt)
          elf
          bytes
          info
          (hex_prefix ++ lower_hex_64 5)
        × (info.total_cycles ≡ 9))
gen_common_pv_digest-Prints_example =
    gen_common_pv_digest-Prints toolchain disk estimator (λ _. tt) files elf_path (some (text "in"))
      9 (hex_prefix ++ lower_hex_64 5) (unfold gen_common_pv_digest new estimate_cost in refl)

abbrev pub writer : Writer (List ℕ)
writer = record {
  ClientInput = List ℕ;
  write_bool = λ b builder. builder;
  write_u32 = λ n builder. n ∷ builder;
  write_str = λ s builder. s ++ builder;
  write_i32s = λ s builder. s ++ builder;
  write_client_input = λ s builder. 1 ∷ s;
  serialize = emulation.deserialize;
  deserialize_client_input = λ bytes. some bytes;
  hex_encode = λ bytes. bytes;
  execute = λ n. some (n ∷ []);
}

pub same_bytes :
    (b bytes : List ℕ) → writer.serialize b ≡ some bytes → emulation.deserialize bytes ≡ some b
same_bytes [] bytes h = absurd cc
same_bytes (x ∷ b) bytes h = let e : bytes ≡ x ∷ b = cc in ap emulation.deserialize e

abbrev normalized : Paths
normalized = with_file (with_file files (text "out") []) (text "out") (1 ∷ 5 ∷ [])

read_stdin-normalize_example :
    (old bytes : List ℕ) × (client_input : List ℕ) × (disk.read files (text "in") ≡ success old)
    × (writer.deserialize_client_input old ≡ some client_input)
    × (disk.read normalized (text "out") ≡ success bytes)
    × (read_stdin emulation (some bytes) ≡ ok (1 ∷ client_input))
read_stdin-normalize_example =
    read_stdin-normalize disk emulation writer disk-ReadsBack same_bytes files normalized
      (text "in") (text "out") (unfold normalize in refl)

abbrev dir : Text
dir = text "dump/"

abbrev dumped : Paths
dumped =
    with_file (with_file files (input_path disk emulation writer dir 4) (1 ∷ 4 ∷ []))
      (pv_digest_path disk emulation writer dir 4) (hex_prefix ++ lower_hex_64 5)

gen_reth_inputs-Writes_example :
    (inputs line elf client_input : List ℕ) × (info : EstimatedInfo) × (writer.execute 4
      ≡ some client_input)
    × (disk.read dumped (input_path disk emulation writer dir 4) ≡ success inputs)
    × (read_stdin emulation (some inputs) ≡ ok (1 ∷ client_input))
    × (disk.read dumped (pv_digest_path disk emulation writer dir 4) ≡ success line)
    × (disk.read dumped elf_path ≡ success elf)
    × Prints toolchain disk estimator (λ _. tt) elf (some inputs) info line
gen_reth_inputs-Writes_example =
    gen_reth_inputs-Writes disk emulation writer disk-ReadsBack toolchain estimator (λ _. tt)
      same_bytes files dumped 4 elf_path dir
      (λ h. let clash : ◌≡◌ {A = ℕ} b'e' b'd' = ap first h in omega arith)
      (unfold gen_reth_inputs generate_pv_digest new estimate_cost in refl)
