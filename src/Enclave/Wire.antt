-- ===== src/Enclave/Wire.antt =====
-- services/pzdr-enclave/src/main.rs, the structures that the enclave signs and sends, each with the
-- object that its derived `Serialize` makes of it, and policy.rs, `policy_hash`.
use pzd.Base.{ℕ, Bool, Option, none, some, List, [], ◌∷◌, ◌≡◌, map, Bytes, codes}
use pzd.Base.Result.{Result, ok, err}
use pzd.Json.{
  Value, null, bool, number, string, array, Items, nil, item, json, struct, ◌↦:◌, sort_keys,
}
use pzd.Ledger.{Hash}
use pzd.Policy.{Policy}
use pzd.Enclave.Crates.{Crates}

pub record ProofStatement : Type 0 where
  pub proof_id : Bytes
  pub proof_version : ℕ
  pub schema_url : Bytes
  pub session_id : Bytes
  pub tenant_id : Bytes
  pub counter : ℕ
  pub timestamp : ℕ
  pub commitment_hex : Bytes
  pub processor_id : Bytes
  pub upstream_model : Option Bytes
  pub upstream_tokens_in : Option ℕ
  pub upstream_tokens_out : Option ℕ
  pub measurement : Bytes
  pub channel_public_key_hex : Bytes
  pub proof_verifier_key_hex : Bytes
  pub tee_backend : Bytes
  pub compute_tier : Bytes
  pub proof_mode : Bytes
  pub success : Bool
  pub error_code : Option Bytes
  pub policy_decision : Value
  pub zeroization_report : Value
  pub result_hash_hex : Option Bytes
  pub output_governance : Value
  pub failure_detail : Option Value

pub record SignedProof : Type 0 where
  pub statement : ProofStatement
  pub signer_key_id : Bytes
  pub signature_b64 : Bytes

pub record CheckpointStatement : Type 0 where
  pub size : ℕ
  pub root_hex : Bytes
  pub timestamp : ℕ

pub record SignedCheckpoint : Type 0 where
  pub size : ℕ
  pub root_hex : Bytes
  pub timestamp : ℕ
  pub checkpoint_signature_b64 : Bytes

pub record AttestationOut : Type 0 where
  pub nitro_attestation_b64 : Bytes
  pub measurement : Bytes
  pub channel_public_key_hex : Bytes
  pub proof_verifier_key_hex : Bytes
  pub binding_format : Bytes
  pub tee_backend : Bytes
  pub compute_tier : Bytes
  pub timestamp : ℕ

-- An absent field is written as `null`.
pub optional {ℓ} : {A : Type ℓ} → (A → Value) → Option A → Value
optional f none = null
optional f (some a) = f a

pub strings : List Bytes → Items
strings [] = nil
strings (s ∷ ss) = item (string s) (strings ss)

pub statement_value : ProofStatement → Value
statement_value s = json (
    (codes "proof_id" ↦: string s.proof_id)
    ∷ (codes "proof_version" ↦: number s.proof_version)
    ∷ (codes "schema_url" ↦: string s.schema_url)
    ∷ (codes "session_id" ↦: string s.session_id)
    ∷ (codes "tenant_id" ↦: string s.tenant_id)
    ∷ (codes "counter" ↦: number s.counter)
    ∷ (codes "timestamp" ↦: number s.timestamp)
    ∷ (codes "commitment_hex" ↦: string s.commitment_hex)
    ∷ (codes "processor_id" ↦: string s.processor_id)
    ∷ (codes "upstream_model" ↦: optional string s.upstream_model)
    ∷ (codes "upstream_tokens_in" ↦: optional number s.upstream_tokens_in)
    ∷ (codes "upstream_tokens_out" ↦: optional number s.upstream_tokens_out)
    ∷ (codes "measurement" ↦: string s.measurement)
    ∷ (codes "channel_public_key_hex" ↦: string s.channel_public_key_hex)
    ∷ (codes "proof_verifier_key_hex" ↦: string s.proof_verifier_key_hex)
    ∷ (codes "tee_backend" ↦: string s.tee_backend)
    ∷ (codes "compute_tier" ↦: string s.compute_tier)
    ∷ (codes "proof_mode" ↦: string s.proof_mode)
    ∷ (codes "success" ↦: bool s.success)
    ∷ (codes "error_code" ↦: optional string s.error_code)
    ∷ (codes "policy_decision" ↦: s.policy_decision)
    ∷ (codes "zeroization_report" ↦: s.zeroization_report)
    ∷ (codes "result_hash_hex" ↦: optional string s.result_hash_hex)
    ∷ (codes "output_governance" ↦: s.output_governance)
    ∷ (codes "failure_detail" ↦: optional (λ v. v) s.failure_detail)
    ∷ [])

pub proof_value : SignedProof → Value
proof_value p = json (
    (codes "statement" ↦: statement_value p.statement)
    ∷ (codes "signer_key_id" ↦: string p.signer_key_id)
    ∷ (codes "signature_b64" ↦: string p.signature_b64)
    ∷ [])

pub checkpoint_statement_value : CheckpointStatement → Value
checkpoint_statement_value c = json (
    (codes "size" ↦: number c.size)
    ∷ (codes "root_hex" ↦: string c.root_hex)
    ∷ (codes "timestamp" ↦: number c.timestamp)
    ∷ [])

pub checkpoint_value : SignedCheckpoint → Value
checkpoint_value c = json (
    (codes "size" ↦: number c.size)
    ∷ (codes "root_hex" ↦: string c.root_hex)
    ∷ (codes "timestamp" ↦: number c.timestamp)
    ∷ (codes "checkpoint_signature_b64" ↦: string c.checkpoint_signature_b64)
    ∷ [])

-- `to_vec(&att)`, of the structure itself.
pub attestation_value : AttestationOut → Value
attestation_value a = struct (
    (codes "nitro_attestation_b64" ↦: string a.nitro_attestation_b64)
    ∷ (codes "measurement" ↦: string a.measurement)
    ∷ (codes "channel_public_key_hex" ↦: string a.channel_public_key_hex)
    ∷ (codes "proof_verifier_key_hex" ↦: string a.proof_verifier_key_hex)
    ∷ (codes "binding_format" ↦: string a.binding_format)
    ∷ (codes "tee_backend" ↦: string a.tee_backend)
    ∷ (codes "compute_tier" ↦: string a.compute_tier)
    ∷ (codes "timestamp" ↦: number a.timestamp)
    ∷ [])

pub policy_value : Policy → Value
policy_value p = json (
    (codes "policy_id" ↦: string p.policy_id)
    ∷ (codes "policy_version" ↦: number p.policy_version)
    ∷ (codes "default" ↦: string p.default)
    ∷ (codes "max_input_bytes" ↦: number p.max_input_bytes)
    ∷ (codes "deny_markers" ↦: array (strings p.deny_markers))
    ∷ (codes "deny_patterns_pii" ↦: array (strings p.deny_patterns_pii))
    ∷ (codes "allowed_processors" ↦: array (strings p.allowed_processors))
    ∷ [])

module _ (C : Crates) where
  pub canonical_json : Value → Result Bytes Bytes
  unfolding sort_keys
  canonical_json v = C.to_vec (sort_keys v)

  -- `unwrap_or_default` of the canonical form.
  pub bytes_or_default : Result Bytes Bytes → Bytes
  bytes_or_default (ok b) = b
  bytes_or_default (err e) = []

  pub policy_hash : Policy → Bytes
  unfolding bytes_or_default
  policy_hash p = C.hex_encode (C.sha.digest (bytes_or_default (canonical_json (policy_value p))))

  -- `hashes.iter().map(hex::encode).collect()`
  pub encode_hashes : List Hash → Items
  unfolding strings
  encode_hashes hashes = strings (map C.hex_encode hashes)

  -- Rendering a value cannot fail.
  pub canonical_json-answers : (v : Value) → (b : Bytes) × (canonical_json v ≡ ok b)
  unfolding canonical_json
  canonical_json-answers v = C.to_vec-answers (sort_keys v)

  -- The receipt of a leaf.
  pub receipt_value : ℕ → Hash → List Hash → SignedCheckpoint → Value
  unfolding encode_hashes
  receipt_value index leaf path checkpoint = json (
      (codes "index" ↦: number index)
      ∷ (codes "leaf_hash_hex" ↦: string (C.hex_encode leaf))
      ∷ (codes "audit_path" ↦: array (encode_hashes path))
      ∷ (codes "checkpoint" ↦: checkpoint_value checkpoint)
      ∷ [])
