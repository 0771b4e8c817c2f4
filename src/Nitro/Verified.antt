-- ===== src/Nitro/Verified.antt =====
-- What the verification of a document shows of it.
use pzd.Base.{
  ℕ, ◌≡◌, ◌↔◌, arith, refl, sym, ap, ◌∙◌, true, Option, none, some, List, [], ◌∷◌, map, Bytes,
  codes, ==_iff, and_parts, if◌then◌else◌, ◌==◌,
}
use mathlib.Core.Path.{subst}
use pzd.Base.Int.{ℤ, pos, negsuc}
use pzd.Base.Result.{Result, ok, err, guard, map_err, >>=-inv, guard-inv, map_err-inv, ok-injective}
use pzd.Nitro.Formats.{Formats, Algorithm, assigned, private_use, text}
use pzd.Nitro.Attestation.{
  NitroError, cose, missing, pcr_mismatch, VerifiedAttestation, get_pcr, lower,
  eq_ignore_ascii_case, assert_measurement_matches, assert_fresh,
}
use pzd.Nitro.Chain.{verify_chain}
use pzd.Nitro.Pool.{Distinct}
use pzd.Nitro.Trust.{Trusted, verify_chain_iff}
use pzd.Nitro.Document.{parse}
use pzd.Nitro.Verifier.{
  es384, is_es384, verify_cose_signature, leaf_of, verify_signature, pin_pcr0, parse_and_verify,
}

pub eq_ignore_ascii_case_iff :
    (a b : Bytes) → (eq_ignore_ascii_case a b ≡ true) ↔ (map lower a ≡ map lower b)
unfolding eq_ignore_ascii_case
eq_ignore_ascii_case_iff [] [] = (λ h. refl, λ h. refl)
eq_ignore_ascii_case_iff [] (b ∷ bs) = (λ h. absurd (cc), λ h. absurd (cc))
eq_ignore_ascii_case_iff (a ∷ s) [] = (λ h. absurd (cc), λ h. absurd (cc))
eq_ignore_ascii_case_iff (a ∷ s) (b ∷ t) =
    let ih = eq_ignore_ascii_case_iff s t in
    let e = ==_iff (lower a) (lower b) in
    (
      (λ h.
          let (p, q) = and_parts (lower a == lower b) (eq_ignore_ascii_case s t) h in
          let p' = e.0 p in let q' = ih.0 q in cc),
      λ h.
          let p : lower a ≡ lower b = cc in
          let q : map lower s ≡ map lower t = cc in rw (e.1 p, ih.1 q) refl,
    )

-- The register 0 of a document holds the expected text, in capital or small letters.
abbrev pub Measures : Bytes → VerifiedAttestation → Type 0
Measures expected a =
    (got : Bytes) × (get_pcr 0 a.pcrs ≡ some got) × (map lower got ≡ map lower expected)

pub assert_measurement_matches_iff :
    (a : VerifiedAttestation) (expected : Bytes)
    → (assert_measurement_matches a expected ≡ ok tt) ↔ Measures expected a
unfolding assert_measurement_matches
assert_measurement_matches_iff a expected = matched (get_pcr 0 a.pcrs)
  where
    verdict : Option Bytes → Result NitroError (Unit {0})
    verdict o = elim o [
      | some got ↦
          if eq_ignore_ascii_case got expected then ok tt else err (pcr_mismatch expected got)
      | none ↦ err (missing (codes "PCR0"))
    ]

    matched :
        (o : Option Bytes)
        → (verdict o ≡ ok tt)
          ↔ ((got : Bytes) × (o ≡ some got) × (map lower got ≡ map lower expected))
    matched none = (λ h. absurd (cc), λ (g, e, m). absurd (cc))
    matched (some got) = (
      (λ h. (got, refl, (eq_ignore_ascii_case_iff got expected).0 (same got h))),
      λ (g, e, m).
          let e' : g ≡ got = cc in
          let m' : map lower got ≡ map lower expected = ap (map lower) (sym e') ∙ m in
          rw ((eq_ignore_ascii_case_iff got expected).1 m') refl,
    )
      where
        same : (got : Bytes) → verdict (some got) ≡ ok tt → eq_ignore_ascii_case got expected ≡ true
        same got h = ground arith

module _ (F : Formats) where
  -- The signature of a document under the key of a leaf, with the algorithm ES384.
  pub record Signed (doc_bytes leaf_der : Bytes) : Type 0 where
    pub doc : F.CoseSign1
    pub leaf : F.Certificate
    pub key : F.VerifyingKey
    pub sig : F.Signature
    pub is_doc : F.cose_from_slice doc_bytes ≡ ok doc
    pub is_es384 : F.alg doc ≡ some es384
    pub is_leaf : F.certificate_from_der leaf_der ≡ ok leaf
    pub has_key : F.verifying_key_from_sec1 (F.subject_public_key leaf) ≡ ok key
    pub has_sig : F.signature_from_slice (F.cose_signature doc) ≡ ok sig
    pub verifies : F.verify key (F.tbs_data doc []) sig ≡ true

  is_es384_iff : (o : Option Algorithm) → (is_es384 o ≡ true) ↔ (o ≡ some es384)
  is_es384_iff none = (λ h. absurd (cc), λ h. absurd (cc))
  is_es384_iff (some (assigned (pos n))) = (λ h. absurd (cc), λ h. absurd (cc))
  is_es384_iff (some (assigned (negsuc n))) =
      ((λ h. ap (λ n. some (assigned (negsuc n))) ((==_iff n 34).0 h)), λ h. (==_iff n 34).1 (cc))
  is_es384_iff (some (private_use n)) = (λ h. absurd (cc), λ h. absurd (cc))
  is_es384_iff (some (text t)) = (λ h. absurd (cc), λ h. absurd (cc))

  verify_cose_signature-inv :
      (doc_bytes leaf_der : Bytes) (doc : F.CoseSign1)
      → F.cose_from_slice doc_bytes ≡ ok doc
      → verify_cose_signature F doc leaf_der ≡ ok tt
      → Signed doc_bytes leaf_der
  unfolding verify_cose_signature
  verify_cose_signature-inv doc_bytes leaf_der doc e h =
      let (u, e1, h1) = >>=-inv (guard (is_es384 (F.alg doc)) _) _ _ h in
      let (leaf, e2, h2) = >>=-inv (map_err (F.certificate_from_der leaf_der) _) _ _ h1 in
      let (key, e3, h3) =
        >>=-inv (map_err (F.verifying_key_from_sec1 (F.subject_public_key leaf)) _) _ _ h2 in
      let (sig, e4, h4) =
        >>=-inv (map_err (F.signature_from_slice (F.cose_signature doc)) _) _ _ h3 in
      record {
        doc = doc;
        leaf = leaf;
        key = key;
        sig = sig;
        is_doc = e;
        is_es384 = (is_es384_iff _).0 (guard-inv _ _ _ e1);
        is_leaf = map_err-inv _ _ _ e2;
        has_key = map_err-inv _ _ _ e3;
        has_sig = map_err-inv _ _ _ e4;
        verifies = guard-inv _ _ _ h4;
      }

  -- What a caller may rely on.
  pub record Verified (clock : Option ℕ) (doc_bytes root_pem : Bytes) (now_ms max_skew_secs : ℤ)
      (expected : Option Bytes) (a : VerifiedAttestation) : Type 0 where
    pub leaf_der : Bytes
    pub cabundle : List Bytes
    pub now : ℕ
    pub parsed : parse F doc_bytes ≡ ok a
    pub has_chain : a.certificate_chain ≡ leaf_der ∷ cabundle
    pub has_clock : clock ≡ some now
    pub trusted : Trusted F now leaf_der cabundle root_pem
    pub signed : Signed doc_bytes leaf_der
    pub fresh : assert_fresh a now_ms max_skew_secs ≡ ok tt
    pub measured : (pcr0 : Bytes) → expected ≡ some pcr0 → Measures pcr0 a

  leaf_of-inv :
      (certs : List Bytes) (p : Bytes × List Bytes) → leaf_of F certs ≡ ok p → certs ≡ p.0 ∷ p.1
  leaf_of-inv [] p h = absurd (cc)
  leaf_of-inv (leaf ∷ cabundle) p h =
      ap (λ (p : Bytes × List Bytes). p.0 ∷ p.1) (ok-injective _ _ h)

  pin_pcr0_iff :
      (a : VerifiedAttestation) (expected : Option Bytes)
      → (pin_pcr0 F a expected ≡ ok tt) ↔ ((pcr0 : Bytes) → expected ≡ some pcr0 → Measures pcr0 a)
  unfolding pin_pcr0
  pin_pcr0_iff a none = (λ h pcr0 e. absurd (cc), λ m. refl)
  pin_pcr0_iff a (some p) = (
    (λ h pcr0 e.
        let e' : p ≡ pcr0 = cc in
        subst (λ q. Measures q a) e' ((assert_measurement_matches_iff a p).0 h)),
    λ m. (assert_measurement_matches_iff a p).1 (m p refl),
  )

  -- A document that is verified is the attestation that it is parsed to; its leaf certificate is trusted
  -- at the clock's time under the pinned root, the key of the leaf signed the document with ES384, and the
  -- attestation is fresh and holds the expected measurement if one is given.
  pub parse_and_verify-Verified :
      (clock : Option ℕ) (doc_bytes root_pem : Bytes) (now_ms max_skew_secs : ℤ)
      (expected : Option Bytes) (a : VerifiedAttestation)
      → parse_and_verify F clock doc_bytes root_pem now_ms max_skew_secs expected ≡ ok a
      → Verified clock doc_bytes root_pem now_ms max_skew_secs expected a
  unfolding parse_and_verify verify_signature
  parse_and_verify-Verified clock doc_bytes root_pem now_ms max_skew_secs expected a h =
      let (b, e1, h1) = >>=-inv (parse F doc_bytes) _ _ h in
      let (u, e2, h2) = >>=-inv (verify_signature F clock doc_bytes b root_pem) _ _ h1 in
      let (v, e3, h3) = >>=-inv (assert_fresh b now_ms max_skew_secs) _ _ h2 in
      let (w, e4, h4) = >>=-inv (pin_pcr0 F b expected) _ _ h3 in
      let (doc, f1, g1) = >>=-inv (map_err (F.cose_from_slice doc_bytes) cose) _ _ e2 in
      let (certs, f2, g2) = >>=-inv (leaf_of F b.certificate_chain) _ _ g1 in
      let (x, f3, g3) = >>=-inv (verify_chain F clock certs.0 certs.1 root_pem) _ _ g2 in
      let (now, has_clock, trusted) = (verify_chain_iff F clock certs.0 certs.1 root_pem).0 f3 in
      subst (Verified clock doc_bytes root_pem now_ms max_skew_secs expected) (ok-injective _ _ h4)
        (record {
          leaf_der = certs.0;
          cabundle = certs.1;
          now = now;
          parsed = e1;
          has_chain = leaf_of-inv _ _ f2;
          has_clock = has_clock;
          trusted = trusted;
          signed = verify_cose_signature-inv doc_bytes certs.0 doc (map_err-inv _ _ _ f1) g3;
          fresh = e3;
          measured = (pin_pcr0_iff b expected).0 e4;
        })

  -- A document is verified if its leaf certificate is trusted at the clock's time under the pinned root by a
  -- bundle whose certificates have different subjects, the key of the leaf signed the document with ES384,
  -- and the attestation that it is parsed to is fresh and holds the expected measurement if one is given.
  pub Verified-parse_and_verify :
      (clock : Option ℕ) (doc_bytes root_pem : Bytes) (now_ms max_skew_secs : ℤ)
      (expected : Option Bytes) (a : VerifiedAttestation)
      (v : Verified clock doc_bytes root_pem now_ms max_skew_secs expected a)
      → Distinct F v.trusted.pool
      → parse_and_verify F clock doc_bytes root_pem now_ms max_skew_secs expected ≡ ok a
  unfolding parse_and_verify verify_signature verify_cose_signature
  Verified-parse_and_verify clock doc_bytes root_pem now_ms max_skew_secs expected a v d =
      rw
        (
          v.parsed,
          v.signed.is_doc,
          v.has_chain,
          (verify_chain_iff F clock v.leaf_der v.cabundle root_pem).1 v.now v.trusted v.has_clock d,
          (is_es384_iff _).1 v.signed.is_es384,
          v.signed.is_leaf,
          v.signed.has_key,
          v.signed.has_sig,
          v.signed.verifies,
          v.fresh,
          (pin_pcr0_iff a expected).1 v.measured,
        )
        refl
