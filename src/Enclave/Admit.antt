-- ===== src/Enclave/Admit.antt =====
-- services/pzdr-enclave/src/main.rs, `process_and_delete` up to the answer of the model: the checks of a
-- request in their order, and `call_upstream`. Each early return is an `err` with what it hands to `fail`.
use pzd.Base.{
  ◌/◌, ◌>>=◌, ◌>>◌, Bool, true, false, Option, none, some, [], ◌∷◌, ◌++◌, length, take, Bytes,
  codes, bytes_eq, ◌==◌,
}
use pzd.Base.Result.{Result, ok, ok_or, guard, map_err, unwrap_or}
use pzd.Json.{Value, json, ◌↦:◌, string, number}
use pzd.Base.Text.{decimal}
use pzd.Policy.{Policy, evaluate}
use pzd.Enclave.Crates.{Crates, InferenceRequest}

-- The arguments of a call of `fail`.
pub record Refusal : Type 0 where
  pub code : Bytes
  pub commitment : Bytes
  pub processor : Bytes
  pub input_wiped : Bool

-- What the rest of the handler uses of an admitted request.
pub record Admitted : Type 0 where
  pub req : InferenceRequest
  pub processor : Bytes
  pub upstream_resp : Value

module _ (C : Crates) where
  unfoldable pub call_upstream : Bytes → Result Bytes Value
  call_upstream plaintext = ok (
      json (
        (codes "model" ↦: string (codes "mock-claude-sonnet-4.5"))
        ∷ (codes "response"
            ↦: string (
                codes "[mock] processed "
                ++ decimal (length plaintext)
                ++ codes " bytes: "
                ++ take 32 (C.hex_encode (C.sha.digest plaintext))))
        ∷ (codes "input_tokens" ↦: number (length plaintext / 4))
        ∷ (codes "output_tokens" ↦: number 16)
        ∷ []))

  -- The key of the channel that the request's public key opens, and the cipher of the key.
  unfoldable pub channel_cipher : Bytes → Bytes → Option C.Cipher
  channel_cipher channel_sk client_pub =
      elim (C.hkdf_expand (codes "pzdr-channel-v1") (C.diffie_hellman channel_sk client_pub)
        (codes "channel-aead") 32) [ none ↦ none | some aead_key ↦ C.new_cipher aead_key ]

  -- The plaintext of a request, or the refusal.
  unfoldable pub open_request : Bytes → InferenceRequest → Bytes → Result Refusal Bytes
  unfolding channel_cipher
  open_request channel_sk req processor = do
    client_pub ←
        ok_or (C.hex_decode req.client_pub_hex) (unreadable (codes "channel_decrypt_failed"))
    ciphertext ←
        ok_or (C.hex_decode req.ciphertext_hex) (unreadable (codes "channel_decrypt_failed"))
    nonce_bytes ← ok_or (C.hex_decode req.nonce_hex) (unreadable (codes "channel_decrypt_failed"))
    guard (length client_pub == 32) (unreadable (codes "channel_decrypt_failed"))
    guard (length nonce_bytes == 24) (unreadable (codes "channel_decrypt_failed"))
    cipher ←
        ok_or (channel_cipher channel_sk client_pub)
          (unreadable (codes "channel_key_derivation_failed"))
    ok_or (C.decrypt cipher nonce_bytes ciphertext []) (unreadable (codes "channel_decrypt_failed"))
    where
      unreadable : Bytes → Refusal
      unreadable code = record {
        code = code;
        commitment = req.commitment_hex;
        processor = processor;
        input_wiped = false;
      }

  -- The checks of the plaintext: the commitment and the policy.
  unfoldable pub check_plaintext :
      Policy → InferenceRequest → Bytes → Bytes → Result Refusal (Unit {0})
  check_plaintext policy req processor plaintext = do
    salt ← ok_or (C.hex_decode req.commitment_salt_hex) (refuse (codes "invalid_commitment_salt"))
    guard
        (bytes_eq (C.hex_encode (C.sha.digest (plaintext ++ salt ++ req.commitment_context)))
          req.commitment_hex)
        (refuse (codes "commitment_mismatch"))
    map_err (evaluate policy plaintext processor) refuse
    where
      refuse : Bytes → Refusal
      refuse code = record {
        code = code;
        commitment = req.commitment_hex;
        processor = processor;
        input_wiped = true;
      }

  -- The checks of one request, and the model's answer.
  unfoldable pub admit : Bytes → Policy → Bytes → Result Refusal Admitted
  admit channel_sk policy body = do
    req ← ok_or (C.parse_request body) (record {
      code = codes "malformed_request";
      commitment = [];
      processor = codes "gateway";
      input_wiped = false;
    })
    let processor = unwrap_or req.processor_id (codes "gateway")
    plaintext ← open_request channel_sk req processor
    check_plaintext policy req processor plaintext
    upstream_resp ← map_err (call_upstream plaintext) (λ e. record {
      code = codes "upstream_failed";
      commitment = req.commitment_hex;
      processor = processor;
      input_wiped = true;
    })
    ok (record { req = req; processor = processor; upstream_resp = upstream_resp })
