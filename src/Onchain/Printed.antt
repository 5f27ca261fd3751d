-- ===== src/Onchain/Printed.antt =====
-- A printed proof is decoded to the bytes of its ten values.
use pico_proving_service.Prelude.{
  ℕ, ◌*◌, ◌≡◌, refl, ap, ◌∙◌, List, [], ◌∷◌, ◌++◌, some, Text, ok, length, length-append, arith,
  map, All, ==_iff,
}
use pico_proving_service.Prelude.Trim.{trim, split, trim_0x, strip_prefix}
use pico_proving_service.Prelude.Trim.Laws.{
  IsPlain, joined, split-joined, map-trim, quoted, trim-quoted, strip_suffix-quoted,
}
use pico_proving_service.Onchain.{Gnark, bytes_of, unquote, decode_gnark_proof_to_bytes}
use pico_proving_service.Onchain.Decode.{values_of}

module _ {E : Type 0} (g : Gnark E) where
  open g use {U256, to_be_bytes_vec, from_str_radix_16}

  -- The bytes of numbers, one behind the other.
  abbrev pub bytes_together : List U256 → List ℕ
  bytes_together [] = []
  bytes_together (u ∷ us) = to_be_bytes_vec u ++ bytes_together us

  unquote-quoted : (s : Text) → unquote g (quoted s) ≡ s
  unfolding unquote strip_prefix
  unquote-quoted s = rw (unquote, trim-quoted s, strip_prefix, strip_suffix-quoted s) refl

  module _ (print : U256 → Text) where
    -- The text of a proof with the given values.
    abbrev pub printed : List U256 → Text
    printed us = quoted (joined b',' (map print us))

    All-IsPlain :
        (us : List U256)
        → ((u : U256) → All (IsPlain b',') (print u))
        → All (All (IsPlain b',')) (map print us)
    All-IsPlain [] plain = tt
    All-IsPlain (u ∷ us) plain = (plain u, All-IsPlain us plain)

    values_of-printed :
        (u : U256) (us : List U256)
        → ((u : U256) → All (IsPlain b',') (print u))
        → values_of g (printed (u ∷ us)) ≡ map print (u ∷ us)
    values_of-printed u us plain =
        let all = All-IsPlain (u ∷ us) plain in
        ap (λ s. map trim (split b',' s)) (unquote-quoted (joined b',' (map print (u ∷ us))))
        ∙ ap (map trim) (split-joined b',' (print u) (map print us) refl all)
        ∙ map-trim b',' (map print (u ∷ us)) all

    bytes_of-print :
        (us : List U256)
        → ((u : U256) → from_str_radix_16 (trim_0x (print u)) ≡ some u)
        → bytes_of g (map print us) ≡ ok (bytes_together us)
    unfolding bytes_of
    bytes_of-print [] read = refl
    bytes_of-print (u ∷ us) read = rw (bytes_of, read u, bytes_of-print us read) refl

    length-bytes_together :
        (us : List U256)
        → ((u : U256) → length (to_be_bytes_vec u) ≡ 32)
        → length (bytes_together us) ≡ 32 * length us
    length-bytes_together [] width = omega arith
    length-bytes_together (u ∷ us) width = omega (
      arith,
      length-append (to_be_bytes_vec u) (bytes_together us),
      width u,
      length-bytes_together us width,
    )

    length-map : (us : List U256) → length (map print us) ≡ length us
    length-map [] = refl
    length-map (u ∷ us) = omega (arith, length-map us)

    -- If numbers are printed with no white space and no commas, are read back from the print, and
    -- are written in 32 bytes, then decoding the quoted text of ten printed numbers with commas
    -- between them returns the bytes of the ten numbers in order.
    pub decode-printed :
        (us : List U256)
        → ((u : U256) → All (IsPlain b',') (print u))
        → ((u : U256) → from_str_radix_16 (trim_0x (print u)) ≡ some u)
        → ((u : U256) → length (to_be_bytes_vec u) ≡ 32)
        → length us ≡ 10
        → decode_gnark_proof_to_bytes g (printed us) ≡ ok (bytes_together us)
    unfolding decode_gnark_proof_to_bytes
    decode-printed [] plain read width ten = absurd (omega arith)
    decode-printed (u ∷ us) plain read width ten =
        let count = (==_iff (length (map print (u ∷ us))) 10).1 (length-map (u ∷ us) ∙ ten) in
        let size =
          (==_iff (length (bytes_together (u ∷ us))) 320).1
            (omega (arith, length-bytes_together (u ∷ us) width)) in
        rw
          (
            decode_gnark_proof_to_bytes,
            values_of-printed u us plain,
            count,
            bytes_of-print (u ∷ us) read,
            size,
          )
          refl
