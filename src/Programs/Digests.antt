-- ===== src/Programs/Digests.antt =====
-- The digests that the programs print.
use pico_proving_service.Prelude.{
  ℕ, ◌≡◌, List, Option, none, some, Text, ◌++◌, ok, Result, success, failure, length,
  and_then-eq-success, >>=-eq-ok, false, subst, refl, ok-eq,
}
use pico_proving_service.Apps.{Toolchain, App, new, hex_prefix}
use pico_proving_service.Cost.{Estimator, EstimatedInfo, estimate_cost, digest_bound}
use pico_proving_service.Programs.{
  Disk, from_io, from_io-success, from_estimate, read_inputs, Holds, read_inputs-Holds, estimated,
  printed_digest, gen_common_pv_digest, generate_pv_digest,
}
use pico_proving_service.Programs.Hex.{lower_hex_64, hex_value_from, lower_hex_64_digits}

module _ (tc : Toolchain) (disk : Disk) (es : Estimator) (task_of_app : App tc → es.Task) where
  open disk use {Files, IoError}

  -- What a printed digest stands for: an estimate for the app of some bytes, and 64 digits.
  pub record Prints (elf : List ℕ) (inputs : Option (List ℕ)) (info : EstimatedInfo) (line : Text)
      : Type 0 where
    pub app : App tc
    pub digits : Text
    pub made : new tc elf none ≡ ok app
    pub estimate : estimate_cost es (task_of_app app) inputs none false ≡ success info
    pub prefixed : line ≡ hex_prefix ++ digits
    pub count : length digits ≡ 64
    pub stands_for : hex_value_from 0 digits ≡ info.pv_digest

  estimate_of :
      (r : Result _ EstimatedInfo) (info : EstimatedInfo)
      → from_estimate {I = IoError} r ≡ success info
      → r ≡ success info
  estimate_of (success i) info h = cc
  estimate_of (failure e) info h = absurd cc

  printed :
      (elf : List ℕ) (inputs : Option (List ℕ)) (app : App tc) (info : EstimatedInfo)
      → new tc elf none ≡ ok app
      → estimated tc disk es task_of_app app inputs ≡ success info
      → Prints elf inputs info (printed_digest tc disk es task_of_app info)
  printed elf inputs app info made h =
      let e = estimate_of (estimate_cost es (task_of_app app) inputs none false) info h in
      let (count, value) =
        lower_hex_64_digits info.pv_digest
          (digest_bound es (task_of_app app) inputs none false info e) in
      record {
        app = app;
        digits = lower_hex_64 info.pv_digest;
        made = made;
        estimate = e;
        prefixed = refl;
        count = count;
        stands_for = value;
      }

  pub generate_pv_digest-Prints :
      (fs : Files) (path : Text) (inputs : List ℕ) (line : Text)
      → generate_pv_digest tc disk es task_of_app fs path inputs ≡ ok (success line)
      → (elf : List ℕ) × (disk.read fs path ≡ success elf)
        × ((info : EstimatedInfo) × Prints elf (some inputs) info line)
  unfolding generate_pv_digest
  generate_pv_digest-Prints fs path inputs line h =
      let (elf, read, h') = and_then-eq-success (ok (from_io (disk.read fs path))) _ h in
      let (app, made, h'') = >>=-eq-ok (new tc elf none) _ h' in
      let (info, estimate, h''') =
        and_then-eq-success (ok (estimated tc disk es task_of_app app (some inputs))) _ h'' in
      (
        elf,
        from_io-success (disk.read fs path) (ok-eq read),
        (
          info,
          subst (Prints elf (some inputs) info) (cc)
              (printed elf (some inputs) app info made (ok-eq estimate)),
        ),
      )

  -- If `gen_common_pv_digest` prints a number of cycles and a digest, then an estimate for the app
  -- of the ELF file on the inputs has these cycles, and the digest is printed as `0x` and 64
  -- hexadecimal digits that stand for the digest of the estimate.
  pub gen_common_pv_digest-Prints :
      (fs : Files) (path : Text) (inputs : Option Text) (cycles : ℕ) (line : Text)
      → gen_common_pv_digest tc disk es task_of_app fs path inputs ≡ ok (success (cycles, line))
      → (elf : List ℕ) × (bytes : Option (List ℕ)) × (disk.read fs path ≡ success elf)
        × Holds tc disk fs inputs bytes
        × ((info : EstimatedInfo) × Prints elf bytes info line × (info.total_cycles ≡ cycles))
  unfolding gen_common_pv_digest
  gen_common_pv_digest-Prints fs path inputs cycles line h =
      let (elf, read, h1) = and_then-eq-success (ok (from_io (disk.read fs path))) _ h in
      let (bytes, read', h2) =
        and_then-eq-success (ok (from_io (read_inputs tc disk fs inputs))) _ h1 in
      let (app, made, h3) = >>=-eq-ok (new tc elf none) _ h2 in
      let (info, estimate, h4) =
        and_then-eq-success (ok (estimated tc disk es task_of_app app bytes)) _ h3 in
      (
        elf,
        bytes,
        from_io-success (disk.read fs path) (ok-eq read),
        read_inputs-Holds tc disk fs inputs bytes
            (from_io-success (read_inputs tc disk fs inputs) (ok-eq read')),
        (
          info,
          subst (Prints elf bytes info) (cc) (printed elf bytes app info made (ok-eq estimate)),
          cc,
        ),
      )
