-- ===== src/Onchain/Returned.antt =====
-- What an on-chain proof that is returned is known to be.
use pico_proving_service.Prelude.{
  ℕ, ◌≡◌, sym, ap, ◌∙◌, List, Outcome, ok, success, length, and_then-eq-success, map-eq-ok, ok-eq,
  Text,
}
use pico_proving_service.Onchain.{
  Gnark, prove_embed_onchain, ensure_gnark_downloads, ensure_running, build_onchain_witness_json,
  decode_gnark_proof_to_bytes,
}
use pico_proving_service.Onchain.Decode.{Decodes, decoded, bad_count, bad_value, decode-Decodes}

module _ {E : Type 0} (g : Gnark E) where
  decoded_length :
      (t : Text) (o : Outcome (List ℕ)) (bs : List ℕ) → Decodes g t o → o ≡ ok bs → length bs ≡ 320
  decoded_length t _ bs (decoded inner cs _ _ _ size) h = ap (λ x. length x) (sym (ok-eq h)) ∙ size
  decoded_length t _ bs (bad_count _ _ _) h = absurd cc
  decoded_length t _ bs (bad_value _ _ _ _) h = absurd cc

  -- If every number is written in 32 bytes, an on-chain proof that is returned has 320 bytes.
  pub length-prove_embed_onchain :
      (embed_proof : E) (bs : List ℕ)
      → ((u : g.U256) → length (g.to_be_bytes_vec u) ≡ 32)
      → prove_embed_onchain g embed_proof ≡ ok (success bs)
      → length bs ≡ 320
  unfolding prove_embed_onchain
  length-prove_embed_onchain embed_proof bs width h =
      let (_, files, h1) = and_then-eq-success (ensure_gnark_downloads g) _ h in
      let (_, runs, h2) = and_then-eq-success (ok (ensure_running g)) _ h1 in
      let (json, built, h3) =
        and_then-eq-success (ok (build_onchain_witness_json g embed_proof)) _ h2 in
      let (text, sent, h4) = and_then-eq-success (ok (g.send_gnark_prove_task json)) _ h3 in
      let (cs, decodes, same) = map-eq-ok (decode_gnark_proof_to_bytes g text) success h4 in
      let bytes : cs ≡ bs = cc in
      decoded_length text _ bs (decode-Decodes g width text) (decodes ∙ ap ok bytes)
