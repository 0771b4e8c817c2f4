-- ===== src/Nitro/Verifier.antt =====
-- crates/nitro-attestation/src/lib.rs, `Verifier`: the signature of a document under its leaf certificate, and
-- the whole verification.
use pzd.Base.{
  ℕ, Option, none, some, List, [], ◌∷◌, ◌++◌, ◌>>=◌, ◌>>◌, Bool, false, Bytes, codes, ◌==◌,
}
use pzd.Base.Int.{ℤ, negsuc}
use pzd.Base.Result.{Result, ok, err, guard, map_err}
use pzd.Nitro.Formats.{Formats, Algorithm, assigned}
use pzd.Nitro.Attestation.{
  NitroError, cose, cert_chain, signature, missing, VerifiedAttestation, assert_measurement_matches,
  assert_fresh,
}
use pzd.Nitro.Chain.{verify_chain}
use pzd.Nitro.Document.{parse}

-- ES384 is the algorithm -35 of COSE.
abbrev pub es384 : Algorithm
es384 = assigned (negsuc 34)

abbrev pub is_es384 : Option Algorithm → Bool
is_es384 (some (assigned (negsuc n))) = n == 34
is_es384 other = false

module _ (F : Formats) where
  unfoldable pub verify_cose_signature : F.CoseSign1 → Bytes → Result NitroError (Unit {0})
  verify_cose_signature doc leaf_der = do
    guard (is_es384 (F.alg doc))
        (cose (codes "protected header alg must be ES384, got " ++ F.debug_alg (F.alg doc)))
    cert ← map_err (F.certificate_from_der leaf_der) (λ e. cert_chain (codes "leaf: " ++ e))
    vk ←
        map_err (F.verifying_key_from_sec1 (F.subject_public_key cert))
          (λ e. cose (codes "spki not P-384: " ++ e))
    sig ←
        map_err (F.signature_from_slice (F.cose_signature doc))
          (λ e. cose (codes "sig parse: " ++ e))
    guard (F.verify vk (F.tbs_data doc []) sig) signature

  abbrev pub leaf_of : List Bytes → Result NitroError (Bytes × List Bytes)
  leaf_of [] = err (missing (codes "leaf certificate"))
  leaf_of (leaf ∷ cabundle) = ok (leaf, cabundle)

  unfoldable pub verify_signature :
      Option ℕ → Bytes → VerifiedAttestation → Bytes → Result NitroError (Unit {0})
  unfolding verify_chain verify_cose_signature
  verify_signature clock doc_bytes parsed aws_root_pem = do
    doc ← map_err (F.cose_from_slice doc_bytes) cose
    certs ← leaf_of parsed.certificate_chain
    verify_chain F clock certs.0 certs.1 aws_root_pem
    verify_cose_signature doc certs.0

  -- The pin of the measurement, if one is given.
  unfoldable pub pin_pcr0 : VerifiedAttestation → Option Bytes → Result NitroError (Unit {0})
  unfolding assert_measurement_matches
  pin_pcr0 parsed none = ok tt
  pin_pcr0 parsed (some pcr0) = assert_measurement_matches parsed pcr0

  unfoldable pub parse_and_verify :
      Option ℕ → Bytes → Bytes → ℤ → ℤ → Option Bytes → Result NitroError VerifiedAttestation
  unfolding parse verify_signature assert_fresh pin_pcr0
  parse_and_verify clock doc_bytes aws_root_pem now_ms max_skew_secs expected_pcr0_hex = do
    parsed ← parse F doc_bytes
    verify_signature clock doc_bytes parsed aws_root_pem
    assert_fresh parsed now_ms max_skew_secs
    pin_pcr0 parsed expected_pcr0_hex
    ok parsed
