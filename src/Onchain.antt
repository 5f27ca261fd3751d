-- ===== src/Onchain.antt =====
-- src/proving/onchain.rs: the on-chain proof by the dockerized gnark prover.
pub mod Quotes
pub mod Decode
pub mod Returned
pub mod Printed
use pico_proving_service.Prelude.{
  ℕ, Bool, true, false, List, [], ◌∷◌, ◌++◌, Option, none, some, Outcome, ok, panic, ◌>>=◌, Text,
  Result, success, failure, and_then, missing_gnark_files, wrong_value_count, bad_hex,
  wrong_byte_count, length, ◌==◌, if◌then◌else◌, map, not, ◌&&◌,
}
use pico_proving_service.Prelude.Trim.{
  trim, strip_prefix, or_whole, strip_suffix_char, split, trim_0x,
}

-- Errors are opaque but for those that this file makes.
pub data Error : Type 0 where
  no_vks no_inner_proofs external : Error

-- What is called outside the repository: the U256 of alloy, the gnark tools of pico_perf and the
-- circuit builder of pico_vm. `E` stands for `MetaProof<EmbedSC>`.
pub record Gnark (E : Type 0) : Type 1 where
  pub U256 : Type 0
  pub from_str_radix_16 : Text → Option U256
  pub to_be_bytes_vec : U256 → List ℕ
  pub VerifyingKey : Type 0
  pub InnerProof : Type 0
  pub vks : E → List VerifyingKey
  pub proofs : E → List InnerProof
  -- the constraints and the witness of an `OnchainStdin` with `flag_complete: true`, printed
  pub witness_json : VerifyingKey → InnerProof → Text
  pub file_exists : Text → Bool
  pub gnark_prover_running : Bool
  pub recreate_gnark_prover : Result Error (Unit {0})
  pub send_gnark_prove_task : Text → Result Error Text

abbrev pub first_or {ℓ} : {A : Type ℓ} → Error → List A → Result Error A
first_or e [] = failure e
first_or e (x ∷ xs) = success x

abbrev vm_pk : Text
vm_pk = b'v' ∷ b'm' ∷ b'_' ∷ b'p' ∷ b'k' ∷ []

abbrev vm_vk : Text
vm_vk = b'v' ∷ b'm' ∷ b'_' ∷ b'v' ∷ b'k' ∷ []

abbrev vm_ccs : Text
vm_ccs = b'v' ∷ b'm' ∷ b'_' ∷ b'c' ∷ b'c' ∷ b's' ∷ []

module _ {E : Type 0} (g : Gnark E) where
  open g use {U256, from_str_radix_16, to_be_bytes_vec, file_exists}

  -- The bytes of every value, in order.
  unfoldable pub bytes_of : List Text → Outcome (List ℕ)
  bytes_of [] = ok []
  bytes_of (s ∷ ss) =
      let rest = bytes_of ss in
      elim (from_str_radix_16 (trim_0x s)) [
        | none ↦ panic bad_hex
        | some u ↦ (do bs ← rest; ok (to_be_bytes_vec u ++ bs))
      ]

  -- The text without white space and without a double quote at either end.
  unfoldable pub unquote : Text → Text
  unquote t =
      let s = trim t in
      let s = or_whole (strip_prefix (b'"' ∷ []) s) s in or_whole (strip_suffix_char b'"' s) s

  unfoldable pub decode_gnark_proof_to_bytes : Text → Outcome (List ℕ)
  decode_gnark_proof_to_bytes proof_text =
      let values = map trim (split b',' (unquote proof_text)) in
      if length values == 10
      then (do
        bytes ← bytes_of values
        if length bytes == 320 then ok bytes else panic wrong_byte_count)
      else panic wrong_value_count

  unfoldable pub ensure_gnark_downloads : Outcome (Result Error (Unit {0}))
  ensure_gnark_downloads =
      if file_exists vm_pk && (file_exists vm_vk && file_exists vm_ccs)
      then ok (success tt)
      else panic missing_gnark_files

  unfoldable pub build_onchain_witness_json : E → Result Error Text
  build_onchain_witness_json embed_proof = elim (first_or no_vks (g.vks embed_proof)) [
    | failure e ↦ failure e
    | success vk ↦ elim (first_or no_inner_proofs (g.proofs embed_proof)) [
      | failure e ↦ failure e
      | success proof ↦ success (g.witness_json vk proof)
    ]
  ]

  abbrev pub ensure_running : Result Error (Unit {0})
  ensure_running = if not g.gnark_prover_running then g.recreate_gnark_prover else success tt

  unfoldable pub prove_embed_onchain : E → Outcome (Result Error (List ℕ))
  prove_embed_onchain embed_proof = and_then ensure_gnark_downloads λ _.
      and_then (ok ensure_running) λ _.
        and_then (ok (build_onchain_witness_json embed_proof)) λ json.
          and_then (ok (g.send_gnark_prove_task json))
            λ proof_text. do bytes ← decode_gnark_proof_to_bytes proof_text; ok (success bytes)

  -- A round of the loop of `start_onchain_daemon`: what comes of the call that recreates the prover,
  -- if it is made, is ignored. The missing of a file panics, which ends the thread.
  unfoldable pub daemon_round : Outcome (Option (Result Error (Unit {0})))
  daemon_round = do
    _ ← ensure_gnark_downloads
    ok (if not g.gnark_prover_running then some g.recreate_gnark_prover else none)

-- `ONCHAIN_DAEMON.set(()).is_ok()`: whether the call starts the thread, and the lock behind it.
abbrev pub start_onchain_daemon : (lock : Option (Unit {0})) → Bool × Option (Unit {0})
start_onchain_daemon none = (true, some tt)
start_onchain_daemon (some _) = (false, some tt)
