-- ===== src/Enclave/Refusals.antt =====
-- What a refusal says: which check of `process_and_delete` failed, and whether the input had been read.
use pzd.Base.{
  ◌≡◌, ◌≢◌, true, false, Bool, none, some, [], length, Bytes, codes, bytes_eq, bytes_eq_refl,
  bytes_eq_sound, ==_iff, ◌==◌, ◌++◌, ap, ◌∙◌,
}
use pzd.Base.Result.{err, ok_or, guard, unwrap_or, ok_or-inv, guard-inv}
use pzd.Base.Fails.{Fails, Fails->>=, Fails-ok_or, Fails-guard, Fails-map_err}
use pzd.Policy.{Policy, evaluate}
use pzd.Policy.Denied.{Denied, evaluate-Denied}
use pzd.Enclave.Crates.{Crates, InferenceRequest}
use pzd.Enclave.Admit.{Refusal, admit, open_request, check_plaintext, channel_cipher, call_upstream}
use pzd.Enclave.Admission.{Opens, Committed, open_request-Opens}

module _ (C : Crates) where
  -- The hex parts of a request decode, to a public key of 32 bytes and a nonce of 24.
  pub record Decodes (req : InferenceRequest) : Type 0 where
    pub client_pub : Bytes
    pub ciphertext : Bytes
    pub nonce_bytes : Bytes
    pub has_client_pub : C.hex_decode req.client_pub_hex ≡ some client_pub
    pub has_ciphertext : C.hex_decode req.ciphertext_hex ≡ some ciphertext
    pub has_nonce : C.hex_decode req.nonce_hex ≡ some nonce_bytes
    pub length_client_pub : length client_pub ≡ 32
    pub length_nonce : length nonce_bytes ≡ 24

  -- The refusal of a request that was parsed.
  abbrev pub refusal : InferenceRequest → Bool → Bytes → Refusal
  refusal req wiped code = record {
    code = code;
    commitment = req.commitment_hex;
    processor = unwrap_or req.processor_id (codes "gateway");
    input_wiped = wiped;
  }

  -- What is wrong with a request, by the refusal that stands for it.
  pub data Refused (channel_sk : Bytes) (policy : Policy) (body : Bytes) : Refusal → Type 0 where
    malformed :
        C.parse_request body ≡ none
        → Refused channel_sk policy body (record {
          code = codes "malformed_request";
          commitment = [];
          processor = codes "gateway";
          input_wiped = false;
        })
    garbled :
        (req : InferenceRequest)
        → C.parse_request body ≡ some req
        → ¬ Decodes req
        → Refused channel_sk policy body (refusal req false (codes "channel_decrypt_failed"))
    keyless :
        (req : InferenceRequest)
        → C.parse_request body ≡ some req
        → (d : Decodes req) → channel_cipher C channel_sk d.client_pub ≡ none
        → Refused channel_sk policy body (refusal req false (codes "channel_key_derivation_failed"))
    undecrypted :
        (req : InferenceRequest)
        → C.parse_request body ≡ some req
        → (d : Decodes req) (cipher : C.Cipher)
        → channel_cipher C channel_sk d.client_pub ≡ some cipher
        → C.decrypt cipher d.nonce_bytes d.ciphertext [] ≡ none
        → Refused channel_sk policy body (refusal req false (codes "channel_decrypt_failed"))
    unsalted :
        (req : InferenceRequest) (plaintext : Bytes)
        → C.parse_request body ≡ some req
        → Opens C channel_sk req plaintext
        → C.hex_decode req.commitment_salt_hex ≡ none
        → Refused channel_sk policy body (refusal req true (codes "invalid_commitment_salt"))
    mismatched :
        (req : InferenceRequest) (plaintext salt : Bytes)
        → C.parse_request body ≡ some req
        → Opens C channel_sk req plaintext
        → C.hex_decode req.commitment_salt_hex ≡ some salt
        → C.hex_encode (C.sha.digest (plaintext ++ salt ++ req.commitment_context))
          ≢ req.commitment_hex
        → Refused channel_sk policy body (refusal req true (codes "commitment_mismatch"))
    denied :
        (req : InferenceRequest) (plaintext code : Bytes)
        → C.parse_request body ≡ some req
        → Opens C channel_sk req plaintext
        → Committed C req plaintext
        → Denied policy plaintext (unwrap_or req.processor_id (codes "gateway")) code
        → Refused channel_sk policy body (refusal req true code)

  module _ (channel_sk : Bytes) (policy : Policy) (body : Bytes) (req : InferenceRequest)
      (parsed : C.parse_request body ≡ some req) where
    open_request-Refused :
        Fails
          (Refused channel_sk policy body)
          (open_request C channel_sk req (unwrap_or req.processor_id (codes "gateway")))
    unfolding open_request
    open_request-Refused =
        let P = Refused channel_sk policy body in
        Fails->>= P (ok_or (C.hex_decode req.client_pub_hex) _) _
          (Fails-ok_or P _ _
            (λ n. garbled req parsed (λ d. let e = d.has_client_pub in absurd (cc))))
          (λ client_pub e1.
            Fails->>= P (ok_or (C.hex_decode req.ciphertext_hex) _) _
              (Fails-ok_or P _ _
                (λ n. garbled req parsed (λ d. let e = d.has_ciphertext in absurd (cc))))
              (λ ciphertext e2.
                Fails->>= P (ok_or (C.hex_decode req.nonce_hex) _) _
                  (Fails-ok_or P _ _
                    (λ n. garbled req parsed (λ d. let e = d.has_nonce in absurd (cc))))
                  (λ nonce e3.
                    let p1 : C.hex_decode req.client_pub_hex ≡ some client_pub =
                      ok_or-inv _ _ _ e1 in
                    let p2 : C.hex_decode req.ciphertext_hex ≡ some ciphertext =
                      ok_or-inv _ _ _ e2 in
                    let p3 : C.hex_decode req.nonce_hex ≡ some nonce = ok_or-inv _ _ _ e3 in
                    Fails->>= P (guard (length client_pub == 32) _) _
                      (Fails-guard P _ _
                        (λ f. garbled req parsed (λ d. long_key client_pub p1 d f)))
                      (λ u e4.
                        Fails->>= P (guard (length nonce == 24) _) _
                          (Fails-guard P _ _
                            (λ f. garbled req parsed (λ d. long_nonce nonce p3 d f)))
                          (λ v e5.
                            let d : Decodes req = record {
                              client_pub = client_pub;
                              ciphertext = ciphertext;
                              nonce_bytes = nonce;
                              has_client_pub = p1;
                              has_ciphertext = p2;
                              has_nonce = p3;
                              length_client_pub =
                                  (==_iff (length client_pub) 32).0 (guard-inv _ _ _ e4);
                              length_nonce = (==_iff (length nonce) 24).0 (guard-inv _ _ _ e5);
                            } in
                            Fails->>= P (ok_or (channel_cipher C channel_sk client_pub) _) _
                              (Fails-ok_or P _ _ (λ n. keyless req parsed d n))
                              (λ cipher e6.
                                Fails-ok_or P _ _ (λ n.
                                  undecrypted req parsed d cipher (ok_or-inv _ _ _ e6) n)))))))
      where
        long_key :
            (b : Bytes)
            → C.hex_decode req.client_pub_hex ≡ some b
            → (d : Decodes req) → (length b == 32) ≡ false
            → ⊥
        long_key b e d f =
            let e' = d.has_client_pub in
            let same : b ≡ d.client_pub = cc in
            let t = (==_iff (length b) 32).1 (ap length same ∙ d.length_client_pub) in absurd (cc)

        long_nonce :
            (b : Bytes)
            → C.hex_decode req.nonce_hex ≡ some b
            → (d : Decodes req) → (length b == 24) ≡ false
            → ⊥
        long_nonce b e d f =
            let e' = d.has_nonce in
            let same : b ≡ d.nonce_bytes = cc in
            let t = (==_iff (length b) 24).1 (ap length same ∙ d.length_nonce) in absurd (cc)

    check_plaintext-Refused :
        (plaintext : Bytes)
        → Opens C channel_sk req plaintext
        → Fails
            (Refused channel_sk policy body)
            (check_plaintext C policy req (unwrap_or req.processor_id (codes "gateway")) plaintext)
    unfolding check_plaintext
    check_plaintext-Refused plaintext opened =
        let P = Refused channel_sk policy body in
        Fails->>= P (ok_or (C.hex_decode req.commitment_salt_hex) _) _
          (Fails-ok_or P _ _ (λ n. unsalted req plaintext parsed opened n))
          (λ salt e1.
            let has_salt : C.hex_decode req.commitment_salt_hex ≡ some salt = ok_or-inv _ _ _ e1 in
            let hash : Bytes =
              C.hex_encode (C.sha.digest (plaintext ++ salt ++ req.commitment_context)) in
            Fails->>= P (guard (bytes_eq hash req.commitment_hex) _) _
              (Fails-guard P (bytes_eq hash req.commitment_hex) _
                (λ f. mismatched req plaintext salt parsed opened has_salt (differs hash f)))
              (λ u e2. Fails-map_err P (evaluate policy plaintext _) _ (λ code h.
                denied req plaintext code parsed opened
                  (record {
                    salt = salt;
                    has_salt = has_salt;
                    matches = bytes_eq_sound _ _ (guard-inv _ _ _ e2);
                  })
                  (evaluate-Denied policy plaintext _ code h))))
      where
        differs :
            (hash : Bytes) → bytes_eq hash req.commitment_hex ≡ false → hash ≢ req.commitment_hex
        differs hash f e =
            let t : bytes_eq hash req.commitment_hex ≡ true =
              ap (λ b. bytes_eq b req.commitment_hex) e ∙ bytes_eq_refl req.commitment_hex in
            absurd (cc)

  -- A refused request fails the check that its code stands for, and passes those before it: it is no request,
  -- its hex parts do not decode to their lengths, there is no cipher of the shared key, the cipher does not
  -- decrypt it, its salt is not hex, the commitment is not the hash of the plaintext with salt and
  -- context, or the policy denies it with this reason. The input is reported as wiped exactly from the salt on,
  -- and behind the parsing the refusal has the commitment and the processor of the request.
  pub admit-Refused :
      (channel_sk : Bytes) (policy : Policy) (body : Bytes) (r : Refusal)
      → admit C channel_sk policy body ≡ err r
      → Refused channel_sk policy body r
  unfolding admit call_upstream
  admit-Refused channel_sk policy body =
      let P = Refused channel_sk policy body in
      Fails->>= P (ok_or (C.parse_request body) _) _ (Fails-ok_or P _ _ (λ n. malformed n))
        (λ req e1.
          let parsed : C.parse_request body ≡ some req = ok_or-inv _ _ _ e1 in
          let processor = unwrap_or req.processor_id (codes "gateway") in
          Fails->>= P (open_request C channel_sk req processor) _
            (open_request-Refused channel_sk policy body req parsed)
            (λ plaintext e2.
              let opened = open_request-Opens C channel_sk req processor plaintext e2 in
              Fails->>= P (check_plaintext C policy req processor plaintext) _
                (check_plaintext-Refused channel_sk policy body req parsed plaintext opened)
                (λ u e3 r h. absurd (cc))))
