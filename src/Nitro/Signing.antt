-- ===== src/Nitro/Signing.antt =====
-- When one certificate is valid, and when another one signed it.
use pzd.Base.{ℕ, ◌≤◌, ◌≡◌, ◌↔◌, arith, refl, true, some, Bytes}
use pzd.Base.Result.{ok, ok_or, map_err, >>=-inv, ok_or-inv, guard-inv, map_err-inv}
use pzd.Nitro.Formats.{Formats}
use pzd.Nitro.Chain.{verify_cert_validity, verify_cert_signature}

module _ (F : Formats) where
  -- A certificate that is valid at a time.
  abbrev pub ValidAt : ℕ → F.Certificate → Type 0
  ValidAt now cert = (F.not_before cert ≤ now) × (now ≤ F.not_after cert)

  pub verify_cert_validity_iff :
      (cert : F.Certificate) (now : ℕ) (label : Bytes)
      → (verify_cert_validity F cert now label ≡ ok tt) ↔ ValidAt now cert
  unfolding verify_cert_validity
  verify_cert_validity_iff cert now label = ground arith

  -- A certificate whose signature verifies under the key of another.
  pub record SignedBy (issuer cert : F.Certificate) : Type 0 where
    pub key : F.VerifyingKey
    pub signed : Bytes
    pub bits : Bytes
    pub sig : F.Signature
    pub has_key : F.verifying_key_from_sec1 (F.subject_public_key issuer) ≡ ok key
    pub has_signed : F.tbs_der cert ≡ ok signed
    pub has_bits : F.cert_signature cert ≡ some bits
    pub has_sig : F.signature_from_der bits ≡ ok sig
    pub verifies : F.verify key signed sig ≡ true

  pub verify_cert_signature_iff :
      (cert issuer : F.Certificate) (label : Bytes)
      → (verify_cert_signature F cert issuer label ≡ ok tt) ↔ SignedBy issuer cert
  unfolding verify_cert_signature
  verify_cert_signature_iff cert issuer label = (
    (λ h.
        let (key, e1, h1) =
          >>=-inv (map_err (F.verifying_key_from_sec1 (F.subject_public_key issuer)) _) _ _ h in
        let (signed, e2, h2) = >>=-inv (map_err (F.tbs_der cert) _) _ _ h1 in
        let (bits, e3, h3) = >>=-inv (ok_or (F.cert_signature cert) _) _ _ h2 in
        let (sig, e4, h4) = >>=-inv (map_err (F.signature_from_der bits) _) _ _ h3 in
        record {
          key = key;
          signed = signed;
          bits = bits;
          sig = sig;
          has_key = map_err-inv _ _ _ e1;
          has_signed = map_err-inv _ _ _ e2;
          has_bits = ok_or-inv _ _ _ e3;
          has_sig = map_err-inv _ _ _ e4;
          verifies = guard-inv _ _ _ h4;
        }),
    (λ s. rw (s.has_key, s.has_signed, s.has_bits, s.has_sig, s.verifies) refl),
  )
