-- ===== src/Tests/Service.antt =====
-- The on-chain proof, the tokens and the cost estimation, on small inputs.
use pico_proving_service.Prelude.{◌*◌, Option, List, zero, suc, ok, success}
use pico_proving_service.Prelude.Trim.{
  strip_prefix, split, trim, trim_start, trim_end, is_whitespace, trim_0x, strip_suffix_char,
}
use pico_proving_service.Onchain.{bytes_of, unquote}
use pico_proving_service.Onchain.{
  prove_embed_onchain, ensure_gnark_downloads, build_onchain_witness_json,
}
use pico_proving_service.Prelude.{
  ℕ, ◌≡◌, refl, [], ◌∷◌, ◌++◌, none, some, true, ok, Text, success, failure, length, replicate,
}
use pico_proving_service.Onchain.{Gnark, external, decode_gnark_proof_to_bytes}
use pico_proving_service.Onchain.Decode.{Decodes, decode-Decodes}
use pico_proving_service.Auth.{
  Metadata, AuthConfig, AuthRequest, bearer, bearer_prefix, server_auth_interceptor,
  client_auth_interceptor,
}
use pico_proving_service.Auth.Laws.{client-server}
use pico_proving_service.Queue.{same_text}
use pico_proving_service.Queue.Outputs.{same_text_refl}
use pico_proving_service.Cost.{Estimator, estimate_cost}

-- Numbers of 32 bytes, read off the length of a text.
abbrev pub gnark : Gnark (Unit {0})
gnark = record {
  U256 = ℕ;
  from_str_radix_16 = λ t. some (length t);
  to_be_bytes_vec = λ n. replicate 31 0 ++ n ∷ [];
  VerifyingKey = Unit;
  InnerProof = Unit;
  vks = λ _. [];
  proofs = λ _. [];
  witness_json = λ _ _. [];
  file_exists = λ _. true;
  gnark_prover_running = true;
  recreate_gnark_prover = failure external;
  send_gnark_prove_task = λ _. failure external;
}

-- Ten values in quotes.
abbrev proof_text : Text
proof_text =
    b'"' ∷ b'1' ∷ b',' ∷ b'2' ∷ b',' ∷ b'3' ∷ b',' ∷ b'4' ∷ b',' ∷ b'5' ∷ b',' ∷ b'6' ∷ b',' ∷ b'7'
    ∷ b',' ∷ b'8' ∷ b',' ∷ b'9' ∷ b',' ∷ b'0' ∷ b'"' ∷ []

decode-Decodes_example : Decodes gnark proof_text (decode_gnark_proof_to_bytes gnark proof_text)
decode-Decodes_example = decode-Decodes gnark (λ u. refl) proof_text

-- Header values are the texts themselves.
abbrev pub metadata : Metadata
metadata = record { Value = Text; parse = λ t. some t; same = same_text }

abbrev pub token : Text
token = b'k' ∷ b'e' ∷ b'y' ∷ []

abbrev config : AuthConfig
config = record { auth_method = bearer; bearer_token = some token }

abbrev authorized : AuthRequest Text
authorized = record { authorization = some (bearer_prefix ++ token) }

client_made :
    client_auth_interceptor metadata config (record { authorization = none }) ≡ success authorized
unfolding client_auth_interceptor
client_made = refl

client-server_example : server_auth_interceptor metadata config authorized ≡ success authorized
client-server_example =
    client-server metadata config (record { authorization = none }) authorized same_text_refl
      client_made

abbrev pub estimator : Estimator
estimator = record {
  Task = Unit;
  StdinBuilder = List ℕ;
  Stdin = List ℕ;
  Opts = Option ℕ;
  Witness = List ℕ;
  Report = ℕ;
  Count = ℕ;
  Model = ℕ;
  new_builder = [];
  deserialize = λ bytes. some bytes;
  finalize = λ b. b;
  bench_riscv_ops = none;
  with_cost_estimator = λ o. o;
  with_max_cycles = λ n o. some n;
  setup_for_riscv = λ _ s _. s;
  emulate_snapshot_pipeline = λ _. ok (success (3 ∷ 4 ∷ [], 9, []));
  host_cycle_estimator = λ r. some (r ∷ []);
  from_json = λ _. some 1;
  estimate = λ c m. c * m;
  sha256 = λ _. 5;
}

estimated :
    estimate_cost estimator tt none none true
    ≡ success (record { cost = 7; total_cycles = 9; pv_digest = 5 })
unfolding estimate_cost
estimated = refl

-- A gnark prover that answers.
abbrev answering : Gnark (Unit {0})
answering = record gnark {
  vks = λ _. tt ∷ [];
  proofs = λ _. tt ∷ [];
  send_gnark_prove_task = λ _. success proof_text;
}

abbrev value_bytes : ℕ → List ℕ
value_bytes n = replicate 31 0 ++ n ∷ []

abbrev ones : ℕ → List ℕ
ones zero = []
ones (suc n) = value_bytes 1 ++ ones n

abbrev proof_bytes : List ℕ
proof_bytes = ones 10

proved_onchain : prove_embed_onchain answering tt ≡ ok (success proof_bytes)
unfolding prove_embed_onchain ensure_gnark_downloads build_onchain_witness_json
    decode_gnark_proof_to_bytes bytes_of unquote split trim trim_start trim_end is_whitespace
    strip_prefix strip_suffix_char trim_0x
proved_onchain = refl
