-- ===== src/Enclave/Session.antt =====
-- services/pzdr-enclave/src/main.rs, `process_and_delete`, `fail` and `append_proof`: one session.
use pzd.Base.{ℕ, ◌+◌, ◌%◌, ◌^◌, Bool, true, false, Option, none, some, [], ◌∷◌, Bytes, codes}
use pzd.Base.Result.{Result, ok, err, ok_or}
use pzd.Json.{Value, bool, number, string, json, ◌↦:◌, field, as_str, as_u64}
use pzd.Ledger.{append, leaf_at, inclusion_path, size, root}
use pzd.Enclave.Crates.{Crates}
use pzd.Enclave.Wire.{
  ProofStatement, SignedProof, statement_value, proof_value, canonical_json, policy_hash,
  receipt_value,
}
use pzd.Enclave.Machine.{
  EnclaveState, Act, pure, ◌>>=◌, try, current, now_secs, random_hex, elapsed_us, instant_now,
  fetch_add, sign_checkpoint,
}
use pzd.Enclave.Admit.{Admitted, Refusal, admit}

abbrev pub and_then {ℓ κ} : {A : Type ℓ} {B : Type κ} → Option A → (A → Option B) → Option B
and_then none f = none
and_then (some a) f = f a

-- The ids and the clock of a statement.
pub record Stamp : Type 0 where
  pub proof_id : Bytes
  pub session_id : Bytes
  pub counter : ℕ
  pub timestamp : ℕ

module _ (C : Crates) where
  pub policy_decision : EnclaveState → Bool → Bytes → Bytes → Bytes → Value
  policy_decision s allow reason tenant processor = json (
      (codes "allow" ↦: bool allow)
      ∷ (codes "reason" ↦: string reason)
      ∷ (codes "policy_id" ↦: string s.policy.policy_id)
      ∷ (codes "policy_version" ↦: number s.policy.policy_version)
      ∷ (codes "policy_hash" ↦: string (policy_hash C s.policy))
      ∷ (codes "tenant" ↦: string tenant)
      ∷ (codes "processor" ↦: string processor)
      ∷ [])

  pub zeroization_report : Bool → Bool → Value
  zeroization_report input_wiped response_returned = json (
      (codes "input_buffer_wiped" ↦: bool input_wiped)
      ∷ (codes "response_buffer_wiped" ↦: bool false)
      ∷ (codes "response_buffer_returned" ↦: bool response_returned)
      ∷ [])

  -- The statement of a session that succeeds.
  unfoldable pub success_statement :
      EnclaveState → Admitted → Bytes → Bytes → Stamp → ProofStatement
  success_statement s a tenant result_hash stamp = record {
    proof_id = stamp.proof_id;
    proof_version = 3;
    schema_url = codes "pzdr://proof/v3";
    session_id = stamp.session_id;
    tenant_id = tenant;
    counter = stamp.counter;
    timestamp = stamp.timestamp;
    commitment_hex = a.req.commitment_hex;
    processor_id = a.processor;
    upstream_model = and_then (field (codes "model") a.upstream_resp) as_str;
    upstream_tokens_in = and_then (field (codes "input_tokens") a.upstream_resp) as_u64;
    upstream_tokens_out = and_then (field (codes "output_tokens") a.upstream_resp) as_u64;
    measurement = C.expected_pcr0;
    channel_public_key_hex = C.hex_encode s.channel_pk;
    proof_verifier_key_hex = C.hex_encode (C.verifying_key s.proof_sk);
    tee_backend = codes "aws-nitro";
    compute_tier = codes "tier1_cpu_enclave_only";
    proof_mode = codes "attestation";
    success = true;
    error_code = none;
    policy_decision = policy_decision s true (codes "allowed") tenant a.processor;
    zeroization_report = zeroization_report true true;
    result_hash_hex = some result_hash;
    output_governance = json (
        (codes "retention_policy" ↦: string (codes "returned-only"))
        ∷ (codes "expires_at" ↦: number stamp.timestamp)
        ∷ []);
    failure_detail = none;
  }

  -- The statement of `fail`.
  unfoldable pub failure_statement : EnclaveState → Refusal → Bytes → Stamp → ProofStatement
  failure_statement s r tenant stamp = record {
    proof_id = stamp.proof_id;
    proof_version = 3;
    schema_url = codes "pzdr://proof/v3";
    session_id = stamp.session_id;
    tenant_id = tenant;
    counter = stamp.counter;
    timestamp = stamp.timestamp;
    commitment_hex = r.commitment;
    processor_id = r.processor;
    upstream_model = none;
    upstream_tokens_in = none;
    upstream_tokens_out = none;
    measurement = C.expected_pcr0;
    channel_public_key_hex = C.hex_encode s.channel_pk;
    proof_verifier_key_hex = C.hex_encode (C.verifying_key s.proof_sk);
    tee_backend = codes "aws-nitro";
    compute_tier = codes "tier1_cpu_enclave_only";
    proof_mode = codes "attestation";
    success = false;
    error_code = some r.code;
    policy_decision = policy_decision s false r.code tenant r.processor;
    zeroization_report = zeroization_report r.input_wiped false;
    result_hash_hex = none;
    output_governance = json [];
    failure_detail = some (json ((codes "code" ↦: string r.code) ∷ []));
  }

  -- `self.proof_sk.sign(&canonical_json(&stmt)?)` and the proof that carries the signature.
  unfoldable pub sign_proof : ProofStatement → Act C SignedProof
  sign_proof stmt = do
    self ← current C
    canonical ← try (canonical_json C (statement_value stmt))
    pure (record {
      statement = stmt;
      signer_key_id = codes "enclave-proof-v1";
      signature_b64 = C.base64_encode (C.sign self.proof_sk canonical);
    })

  -- `ledger.append`, on the locked ledger of `self`.
  unfoldable pub append_entry : Bytes → Act C ℕ
  append_entry entry m =
      let (ledger, index) = append C.sha m.state.ledger entry in
      (ok index, record m { state = record m.state { ledger = ledger } })

  unfoldable pub append_proof : SignedProof → Act C Value
  unfolding append_entry
  append_proof proof = do
    entry ← try (canonical_json C (proof_value proof))
    index ← append_entry entry
    self ← current C
    leaf ← try (ok_or (leaf_at self.ledger index) (codes "appended leaf missing"))
    path ← try (ok_or (inclusion_path C.sha self.ledger index) (codes "inclusion path missing"))
    checkpoint ← sign_checkpoint C (size self.ledger) (root C.sha self.ledger)
    pure (receipt_value C index leaf path checkpoint)

  -- The draws of `fail` in their order: the counter, the two ids, the clock.
  unfoldable pub failure_stamp : Act C Stamp
  failure_stamp = do
    old ← fetch_add C
    proof_id ← random_hex C 16
    session_id ← random_hex C 16
    timestamp ← now_secs C
    pure (record {
      proof_id = proof_id;
      session_id = session_id;
      counter = (old + 1) % 2 ^ 64;
      timestamp = timestamp;
    })

  -- The draws of a session that succeeds: the counter, the clock, the two ids.
  unfoldable pub success_stamp : Act C Stamp
  success_stamp = do
    old ← fetch_add C
    timestamp ← now_secs C
    proof_id ← random_hex C 16
    session_id ← random_hex C 16
    pure (record {
      proof_id = proof_id;
      session_id = session_id;
      counter = (old + 1) % 2 ^ 64;
      timestamp = timestamp;
    })

  unfoldable pub fail : Refusal → Bytes → ℕ → Act C Value
  unfolding failure_stamp sign_proof append_proof
  fail r tenant t0 = do
    stamp ← failure_stamp
    self ← current C
    proof ← sign_proof (failure_statement self r tenant stamp)
    receipt ← append_proof proof
    total ← elapsed_us C t0
    pure (
        json (
          (codes "ok" ↦: bool false)
          ∷ (codes "error" ↦: string r.code)
          ∷ (codes "proof" ↦: proof_value proof)
          ∷ (codes "receipt" ↦: receipt)
          ∷ (codes "timings_us" ↦: json ((codes "total" ↦: number total) ∷ []))
          ∷ []))

  -- The handler behind the model's answer.
  unfoldable pub finish : Admitted → Bytes → ℕ → Act C Value
  unfolding success_stamp sign_proof append_proof
  finish a tenant t0 = do
    result_bytes ← try (C.to_vec a.upstream_resp)
    stamp ← success_stamp
    self ← current C
    proof ←
        sign_proof
          (success_statement self a tenant (C.hex_encode (C.sha.digest result_bytes)) stamp)
    receipt ← append_proof proof
    total ← elapsed_us C t0
    pure (
        json (
          (codes "ok" ↦: bool true)
          ∷ (codes "model_response" ↦: a.upstream_resp)
          ∷ (codes "proof" ↦: proof_value proof)
          ∷ (codes "receipt" ↦: receipt)
          ∷ (codes "timings_us" ↦: json ((codes "total" ↦: number total) ∷ []))
          ∷ []))

  -- The handler where the checks have ended.
  unfoldable pub settle : Result Refusal Admitted → Bytes → ℕ → Act C Value
  unfolding fail finish
  settle (err r) tenant t0 = fail r tenant t0
  settle (ok a) tenant t0 = finish a tenant t0

  unfoldable pub process_and_delete : Bytes → Bytes → Act C Value
  unfolding settle
  process_and_delete body tenant = do
    t0 ← instant_now C
    self ← current C
    settle (admit C self.channel_sk self.policy body) tenant t0
