-- ===== src/Enclave/Admission.antt =====
-- Which requests the enclave admits, and what a refusal says of the input.
use pzd.Base.{
  ◌≡◌, ◌↔◌, true, some, [], ◌++◌, length, Bytes, codes, refl, sym, ap, ◌∙◌, bytes_eq, bytes_eq_refl,
  bytes_eq_sound, ==_iff, ◌==◌, ◌>>=◌,
}
use mathlib.Core.Path.{subst}
use pzd.Json.{Value}
use pzd.Base.Result.{
  >>=-inv, Result, ok, ok_or, guard, unwrap_or, map_err, ok-injective, map_err-inv, guard-inv,
  ok_or-inv,
}
use pzd.Policy.{Policy}
use pzd.Policy.Evaluate.{Allowed, evaluate_iff}
use pzd.Enclave.Crates.{Crates, InferenceRequest}
use pzd.Enclave.Admit.{
  Admitted, admit, open_request, check_plaintext, channel_cipher, call_upstream,
}

module _ (C : Crates) where
  -- The channel opens a request: its hex parts decode to a public key of 32 bytes, a nonce of 24 and a
  -- ciphertext that the cipher of the shared key decrypts to the plaintext.
  pub record Opens (channel_sk : Bytes) (req : InferenceRequest) (plaintext : Bytes) : Type 0 where
    pub client_pub : Bytes
    pub ciphertext : Bytes
    pub nonce_bytes : Bytes
    pub cipher : C.Cipher
    pub has_client_pub : C.hex_decode req.client_pub_hex ≡ some client_pub
    pub has_ciphertext : C.hex_decode req.ciphertext_hex ≡ some ciphertext
    pub has_nonce : C.hex_decode req.nonce_hex ≡ some nonce_bytes
    pub length_client_pub : length client_pub ≡ 32
    pub length_nonce : length nonce_bytes ≡ 24
    pub has_cipher : channel_cipher C channel_sk client_pub ≡ some cipher
    pub decrypts : C.decrypt cipher nonce_bytes ciphertext [] ≡ some plaintext

  pub open_request-Opens :
      (channel_sk : Bytes) (req : InferenceRequest) (processor plaintext : Bytes)
      → open_request C channel_sk req processor ≡ ok plaintext
      → Opens channel_sk req plaintext
  unfolding open_request
  open_request-Opens channel_sk req processor plaintext h =
      let (client_pub, e1, h1) = >>=-inv (ok_or (C.hex_decode req.client_pub_hex) _) _ _ h in
      let (ciphertext, e2, h2) = >>=-inv (ok_or (C.hex_decode req.ciphertext_hex) _) _ _ h1 in
      let (nonce_bytes, e3, h3) = >>=-inv (ok_or (C.hex_decode req.nonce_hex) _) _ _ h2 in
      let (u, e4, h4) = >>=-inv (guard (length client_pub == 32) _) _ _ h3 in
      let (v, e5, h5) = >>=-inv (guard (length nonce_bytes == 24) _) _ _ h4 in
      let (cipher, e6, h6) = >>=-inv (ok_or (channel_cipher C channel_sk client_pub) _) _ _ h5 in
      record {
        client_pub = client_pub;
        ciphertext = ciphertext;
        nonce_bytes = nonce_bytes;
        cipher = cipher;
        has_client_pub = ok_or-inv _ _ _ e1;
        has_ciphertext = ok_or-inv _ _ _ e2;
        has_nonce = ok_or-inv _ _ _ e3;
        length_client_pub = (==_iff (length client_pub) 32).0 (guard-inv _ _ _ e4);
        length_nonce = (==_iff (length nonce_bytes) 24).0 (guard-inv _ _ _ e5);
        has_cipher = ok_or-inv _ _ _ e6;
        decrypts = ok_or-inv _ _ _ h6;
      }

  pub Opens-open_request :
      (channel_sk : Bytes) (req : InferenceRequest) (processor plaintext : Bytes)
      → Opens channel_sk req plaintext
      → open_request C channel_sk req processor ≡ ok plaintext
  unfolding open_request
  Opens-open_request channel_sk req processor plaintext o =
      rw
        (
          o.has_client_pub,
          o.has_ciphertext,
          o.has_nonce,
          (==_iff (length o.client_pub) 32).1 o.length_client_pub,
          (==_iff (length o.nonce_bytes) 24).1 o.length_nonce,
          o.has_cipher,
          o.decrypts,
        )
        refl

  -- The commitment is the hash of the plaintext, the salt and the context.
  pub record Committed (req : InferenceRequest) (plaintext : Bytes) : Type 0 where
    pub salt : Bytes
    pub has_salt : C.hex_decode req.commitment_salt_hex ≡ some salt
    pub matches :
        C.hex_encode (C.sha.digest (plaintext ++ salt ++ req.commitment_context))
        ≡ req.commitment_hex

  pub check_plaintext_iff :
      (policy : Policy) (req : InferenceRequest) (processor plaintext : Bytes)
      → (check_plaintext C policy req processor plaintext ≡ ok tt)
        ↔ (Committed req plaintext × Allowed policy plaintext processor)
  unfolding check_plaintext
  check_plaintext_iff policy req processor plaintext = (
    (λ h.
        let (salt, e1, h1) = >>=-inv (ok_or (C.hex_decode req.commitment_salt_hex) _) _ _ h in
        let (u, e2, h2) =
          >>=-inv
            (guard
              (bytes_eq (C.hex_encode (C.sha.digest (plaintext ++ salt ++ req.commitment_context)))
                req.commitment_hex)
              _)
            _ _ h1 in
        (
          record {
            salt = salt;
            has_salt = ok_or-inv _ _ _ e1;
            matches = bytes_eq_sound _ _ (guard-inv _ _ _ e2);
          },
          (evaluate_iff policy plaintext processor).0 (map_err-inv _ _ _ h2),
        )),
    λ (c, a).
        let same : bytes_eq
              (C.hex_encode (C.sha.digest (plaintext ++ c.salt ++ req.commitment_context)))
              req.commitment_hex
            ≡ true =
          ap (λ t. bytes_eq t req.commitment_hex) c.matches ∙ bytes_eq_refl req.commitment_hex in
        rw (c.has_salt, same, (evaluate_iff policy plaintext processor).1 a) refl,
  )

  -- What the enclave asks of a request, said without the code's checks.
  pub record Admissible (channel_sk : Bytes) (policy : Policy) (body : Bytes) (a : Admitted)
      : Type 0 where
    pub plaintext : Bytes
    pub parses : C.parse_request body ≡ some a.req
    pub processes : a.processor ≡ unwrap_or a.req.processor_id (codes "gateway")
    pub opens : Opens channel_sk a.req plaintext
    pub committed : Committed a.req plaintext
    pub allowed : Allowed policy plaintext a.processor
    pub upstream : call_upstream C plaintext ≡ ok a.upstream_resp

  admit-run :
      (channel_sk : Bytes) (policy : Policy) (body plaintext : Bytes) (req : InferenceRequest)
      (resp : Value)
      → C.parse_request body ≡ some req
      → open_request C channel_sk req (unwrap_or req.processor_id (codes "gateway")) ≡ ok plaintext
      → check_plaintext C policy req (unwrap_or req.processor_id (codes "gateway")) plaintext
        ≡ ok tt
      → call_upstream C plaintext ≡ ok resp
      → admit C channel_sk policy body
        ≡ ok (record {
          req = req;
          processor = unwrap_or req.processor_id (codes "gateway");
          upstream_resp = resp;
        })
  unfolding admit
  admit-run channel_sk policy body plaintext req resp e1 e2 e3 e4 =
      rw (e1, e2, e3)
        (ap
          (λ (answer : Result Bytes Value).
            map_err answer (λ e. record {
              code = codes "upstream_failed";
              commitment = req.commitment_hex;
              processor = unwrap_or req.processor_id (codes "gateway");
              input_wiped = true;
            })
            >>= λ upstream_resp. ok (record {
              req = req;
              processor = unwrap_or req.processor_id (codes "gateway");
              upstream_resp = upstream_resp;
            }))
          e4)

  admit-Admissible :
      (channel_sk : Bytes) (policy : Policy) (body : Bytes) (a : Admitted)
      → admit C channel_sk policy body ≡ ok a
      → Admissible channel_sk policy body a
  unfolding admit
  admit-Admissible channel_sk policy body a h =
      let (req, e1, h1) = >>=-inv (ok_or (C.parse_request body) _) _ _ h in
      let processor : Bytes = unwrap_or req.processor_id (codes "gateway") in
      let (plaintext, e2, h2) = >>=-inv (open_request C channel_sk req processor) _ _ h1 in
      let (u, e3, h3) = >>=-inv (check_plaintext C policy req processor plaintext) _ _ h2 in
      let (resp, e4, h4) = >>=-inv (map_err (call_upstream C plaintext) _) _ _ h3 in
      let (committed, allowed) = (check_plaintext_iff policy req processor plaintext).0 e3 in
      subst (Admissible channel_sk policy body) (ok-injective _ _ h4) (record {
        plaintext = plaintext;
        parses = ok_or-inv _ _ _ e1;
        processes = refl;
        opens = open_request-Opens channel_sk req processor plaintext e2;
        committed = committed;
        allowed = allowed;
        upstream = map_err-inv _ _ _ e4;
      })

  Admissible-admit :
      (channel_sk : Bytes) (policy : Policy) (body : Bytes) (a : Admitted)
      → Admissible channel_sk policy body a
      → admit C channel_sk policy body ≡ ok a
  Admissible-admit channel_sk policy body a d =
      let same : (unwrap_or a.req.processor_id (codes "gateway")) ≡ a.processor = sym d.processes in
      let opened =
        Opens-open_request channel_sk a.req (unwrap_or a.req.processor_id (codes "gateway"))
          d.plaintext d.opens in
      let checked =
        (check_plaintext_iff policy a.req (unwrap_or a.req.processor_id (codes "gateway"))
            d.plaintext).1
          (d.committed, subst (Allowed policy d.plaintext) d.processes d.allowed) in
      admit-run channel_sk policy body d.plaintext a.req a.upstream_resp d.parses opened checked
        d.upstream
      ∙ ap (λ p. ok (record { req = a.req; processor = p; upstream_resp = a.upstream_resp })) same

  -- A request is admitted exactly if it parses, the channel opens it to a plaintext, its commitment
  -- is the hash of that plaintext with its salt and context, the policy allows the plaintext for its
  -- processor, and what is admitted is the request with the model's answer to the plaintext.
  pub admit_iff :
      (channel_sk : Bytes) (policy : Policy) (body : Bytes) (a : Admitted)
      → (admit C channel_sk policy body ≡ ok a) ↔ Admissible channel_sk policy body a
  admit_iff channel_sk policy body a =
      (admit-Admissible channel_sk policy body a, Admissible-admit channel_sk policy body a)
