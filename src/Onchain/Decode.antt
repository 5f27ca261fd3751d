-- ===== src/Onchain/Decode.antt =====
-- How the printed gnark proof is decoded.
use pico_proving_service.Prelude.{
  ℕ, ◌*◌, ◌≡◌, ◌≢◌, refl, sym, ◌∙◌, Bool-cases, inl, inr, List, [], ◌∷◌, ◌++◌, Option, none, some,
  Text, Outcome, ok, panic, ◌>>=◌, length, length-append, arith, map, ◌==◌, ==_iff,
  wrong_byte_count, wrong_value_count, bad_hex, if◌then◌else◌,
}
use pico_proving_service.Prelude.Trim.{trim, split, trim_0x}
use pico_proving_service.Onchain.Quotes.{Unquoted, strip-Unquoted}
use pico_proving_service.Onchain.{Gnark, bytes_of, unquote, decode_gnark_proof_to_bytes}

length-map : {A B : Type 0} (f : A → B) (xs : List A) → length (map f xs) ≡ length xs
length-map f [] = refl
length-map f (x ∷ xs) = omega (arith, length-map f xs)

module _ {E : Type 0} (g : Gnark E) where
  open g use {U256, to_be_bytes_vec, from_str_radix_16}

  -- The values of a proof text.
  abbrev pub values_of : Text → List Text
  values_of t = map trim (split b',' (unquote g t))

  -- The numbers that texts stand for, and the bytes of the numbers, one behind the other.
  pub data Bytes : List Text → List ℕ → Type 0 where
    none_left : Bytes [] []
    reads :
        (s : Text) {ss : List Text} (u : U256) {bs : List ℕ}
        → from_str_radix_16 (trim_0x s) ≡ some u
        → Bytes ss bs
        → Bytes (s ∷ ss) (to_be_bytes_vec u ++ bs)

  -- A text among others that is no number.
  pub data NoHex : List Text → Type 0 where
    here : {s : Text} {ss : List Text} → from_str_radix_16 (trim_0x s) ≡ none → NoHex (s ∷ ss)
    there : {s : Text} {ss : List Text} → NoHex ss → NoHex (s ∷ ss)

  -- What the decoding of a list of values comes to.
  data Decoded (ss : List Text) : Outcome (List ℕ) → Type 0 where
    bytes : (bs : List ℕ) → Bytes ss bs → length bs ≡ 32 * length ss → Decoded ss (ok bs)
    no_hex : NoHex ss → Decoded ss (panic bad_hex)

  -- The ten values are what stands between commas, without white space around them, in the trimmed
  -- text without a quote at its front and at its end.
  pub data Decodes (t : Text) : Outcome (List ℕ) → Type 0 where
    decoded :
        (inner : Text) (bs : List ℕ)
        → Unquoted (trim t) inner
        → length (split b',' inner) ≡ 10
        → Bytes (map trim (split b',' inner)) bs
        → length bs ≡ 320
        → Decodes t (ok bs)
    bad_count :
        (inner : Text)
        → Unquoted (trim t) inner
        → length (split b',' inner) ≢ 10
        → Decodes t (panic wrong_value_count)
    bad_value :
        (inner : Text)
        → Unquoted (trim t) inner
        → length (split b',' inner) ≡ 10
        → NoHex (map trim (split b',' inner))
        → Decodes t (panic bad_hex)

  unquote-Unquoted : (t : Text) → Unquoted (trim t) (unquote g t)
  unfolding unquote
  unquote-Unquoted t = strip-Unquoted (trim t)

  module _ (width : (u : U256) → length (to_be_bytes_vec u) ≡ 32) where
    bytes_of-Decoded : (ss : List Text) → Decoded ss (bytes_of g ss)
    unfolding bytes_of
    bytes_of-Decoded [] = bytes [] none_left (omega arith)
    bytes_of-Decoded (s ∷ ss) = go (from_str_radix_16 (trim_0x s)) refl (bytes_of-Decoded ss)
      where
        go :
            (o : Option U256) {rest : Outcome (List ℕ)}
            → from_str_radix_16 (trim_0x s) ≡ o
            → Decoded ss rest
            → Decoded (s ∷ ss) (elim o [
              | none ↦ panic bad_hex
              | some u ↦ (do bs ← rest; ok (to_be_bytes_vec u ++ bs))
            ])
        go none e r = no_hex (here e)
        go (some u) e (no_hex h) = no_hex (there h)
        go (some u) e (bytes bs b h) =
            bytes (to_be_bytes_vec u ++ bs) (reads s u e b)
              (omega (arith, length-append (to_be_bytes_vec u) bs, width u))

    -- If every number is written in 32 bytes, decoding a printed gnark proof gives 320 bytes, which
    -- are those of its ten values in order, or panics because there are not ten values, or because
    -- one of the ten is no hexadecimal number: the check of the byte count never fails. The values
    -- are what stands between the commas, without white space around each, of the trimmed text
    -- without a double quote at its front and at its end.
    pub decode-Decodes : (t : Text) → Decodes t (decode_gnark_proof_to_bytes g t)
    unfolding decode_gnark_proof_to_bytes
    decode-Decodes t = elim (Bool-cases (length (values_of t) == 10)) [
      | inl y ↦
          rw (decode_gnark_proof_to_bytes, y)
            (ten ((==_iff (length (values_of t)) 10).0 y) (bytes_of g (values_of t))
              (bytes_of-Decoded (values_of t)))
      | inr n ↦
          rw (decode_gnark_proof_to_bytes, n)
            (bad_count (unquote g t) (unquote-Unquoted t) (λ e.
              (let y =
                  (==_iff (length (values_of t)) 10).1
                    (length-map trim (split b',' (unquote g t)) ∙ e) in
                cc)))
    ]
      where
        ten :
            length (values_of t) ≡ 10
            → (o : Outcome (List ℕ)) → Decoded (values_of t) o
            → Decodes t (o >>= λ bs. if length bs == 320 then ok bs else panic wrong_byte_count)
        ten count _ (no_hex h) =
            bad_value (unquote g t) (unquote-Unquoted t)
              (sym (length-map trim (split b',' (unquote g t))) ∙ count) h
        ten count _ (bytes bs b size) =
            let full : length bs ≡ 320 = omega arith in
            rw ((==_iff (length bs) 320).1 full) (
              decoded (unquote g t) bs (unquote-Unquoted t)
                (sym (length-map trim (split b',' (unquote g t))) ∙ count) b full)
