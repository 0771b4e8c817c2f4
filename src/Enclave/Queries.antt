-- ===== src/Enclave/Queries.antt =====
-- services/pzdr-enclave/src/main.rs, the handlers that read: `publish_attestation`, `ledger_root`,
-- `ledger_proof`, `ledger_consistency`, and `EnclaveState::new`.
use pzd.Base.{ℕ, List, Option, none, some, [], ◌∷◌, Bytes, codes}
use pzd.Json.{Value, string, array, json, ◌↦:◌}
use pzd.Ledger.{Hash, new, leaf_at, inclusion_path, consistency_path, root_at, size, root}
use pzd.Policy.{default_v1}
use pzd.Enclave.Crates.{Crates}
use pzd.Enclave.Wire.{
  AttestationOut, checkpoint_value, canonical_json, encode_hashes, receipt_value,
}
use pzd.Enclave.Machine.{EnclaveState, Act, pure, ◌>>=◌, try, current, now_secs, sign_checkpoint}

module _ (C : Crates) where
  -- The state at boot, from the two seeds and the public key of the channel key.
  unfoldable pub boot : Bytes → Bytes → Bytes → EnclaveState
  boot channel_sk channel_pk proof_sk = record {
    channel_sk = channel_sk;
    channel_pk = channel_pk;
    proof_sk = proof_sk;
    counter = 0;
    ledger = new;
    policy = default_v1;
  }

  -- The call of the security module.
  unfoldable pub attest : Bytes → Bytes → Act C Bytes
  attest user_data pubkey m =
      let (r, w) = C.generate_attestation (some user_data) none (some pubkey) m.world in
      (r, record m { world = w })

  -- The user data of the document: both public keys.
  pub binding : EnclaveState → Value
  binding self = json (
      (codes "format" ↦: string (codes "pzdr-attestation-binding/v1"))
      ∷ (codes "channel_public_key_hex" ↦: string (C.hex_encode self.channel_pk))
      ∷ (codes "proof_verifier_key_hex" ↦: string (C.hex_encode (C.verifying_key self.proof_sk)))
      ∷ [])

  unfoldable pub attested : EnclaveState → Bytes → Act C AttestationOut
  attested self doc = do
    timestamp ← now_secs C
    pure (record {
      nitro_attestation_b64 = C.base64_encode doc;
      measurement = C.expected_pcr0;
      channel_public_key_hex = C.hex_encode self.channel_pk;
      proof_verifier_key_hex = C.hex_encode (C.verifying_key self.proof_sk);
      binding_format = codes "pzdr-attestation-binding/v1";
      tee_backend = codes "aws-nitro";
      compute_tier = codes "tier1_cpu_enclave_only";
      timestamp = timestamp;
    })

  unfoldable pub publish_attestation : Act C AttestationOut
  unfolding attest attested
  publish_attestation = do
    self ← current C
    user_data ← try (canonical_json C (binding self))
    doc ← attest user_data self.channel_pk
    attested self doc

  unfoldable pub ledger_root : Act C Value
  ledger_root = do
    self ← current C
    checkpoint ← sign_checkpoint C (size self.ledger) (root C.sha self.ledger)
    pure (json ((codes "checkpoint" ↦: checkpoint_value checkpoint) ∷ []))

  -- The two `?` on the leaf and on the path.
  unfoldable pub proof_answer :
      EnclaveState → ℕ → Option Hash → Option (List Hash) → Act C (Option Value)
  proof_answer self idx none path = pure none
  proof_answer self idx (some leaf) none = pure none
  proof_answer self idx (some leaf) (some path) = do
    checkpoint ← sign_checkpoint C (size self.ledger) (root C.sha self.ledger)
    pure (some (receipt_value C idx leaf path checkpoint))

  unfoldable pub ledger_proof : ℕ → Act C (Option Value)
  unfolding proof_answer
  ledger_proof idx = do
    self ← current C
    proof_answer self idx (leaf_at self.ledger idx) (inclusion_path C.sha self.ledger idx)

  -- The two `?` on the old root and on the path.
  unfoldable pub consistency_answer :
      EnclaveState → ℕ → Option Hash → Option (List Hash) → Act C (Option Value)
  consistency_answer self from_size none path = pure none
  consistency_answer self from_size (some from_root) none = pure none
  consistency_answer self from_size (some from_root) (some path) = do
    from_checkpoint ← sign_checkpoint C from_size from_root
    to_checkpoint ← sign_checkpoint C (size self.ledger) (root C.sha self.ledger)
    pure (
        some (
          json (
            (codes "from_checkpoint" ↦: checkpoint_value from_checkpoint)
            ∷ (codes "to_checkpoint" ↦: checkpoint_value to_checkpoint)
            ∷ (codes "consistency_path" ↦: array (encode_hashes C path))
            ∷ [])))

  unfoldable pub ledger_consistency : ℕ → Act C (Option Value)
  unfolding consistency_answer
  ledger_consistency from_size = do
    self ← current C
    consistency_answer self from_size (root_at C.sha self.ledger from_size)
        (consistency_path C.sha self.ledger from_size)
