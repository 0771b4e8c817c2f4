-- ===== src/Nitro/Formats.antt =====
-- What crates/nitro-attestation/src/lib.rs takes from the crates that it calls: the decoders of COSE, CBOR
-- and X.509, ECDSA on P-384, hex and base64. A decoder gives what it read or the debug print of its error.
use pzd.Base.{ℕ, ◌≡◌, ◌↔◌, Bool, true, Option, List, Bytes}
use pzd.Base.Int.{ℤ}
use pzd.Base.Result.{Result}

-- The algorithm that a COSE header declares: an assigned number, a private one, or a text.
pub data Algorithm : Type 0 where
  assigned : ℤ → Algorithm
  private_use : ℤ → Algorithm
  text : Bytes → Algorithm

-- What the code reads of an extension, whose identifier is in dotted decimals.
pub record Extension : Type 0 where
  pub extn_id : Bytes
  pub extn_value : Bytes

pub record BasicConstraints : Type 0 where
  pub ca : Bool
  pub path_len_constraint : Option ℕ

-- What the code reads of a key usage.
pub record KeyUsage : Type 0 where
  pub key_cert_sign : Bool

pub record Formats : Type 1 where
  -- Names of X.509, with the equality that is derived and their print.
  pub Name : Type 0
  pub name_eq : Name → Name → Bool
  pub name_eq_iff : (a b : Name) → (name_eq a b ≡ true) ↔ (a ≡ b)
  pub show_name : Name → Bytes
  -- What the code reads of a certificate: its names, its validity in seconds, the raw bits of its key,
  -- its extensions, the encoding of its signed part, and its signature, which is `none` with unused bits.
  pub Certificate : Type 0
  pub issuer : Certificate → Name
  pub subject : Certificate → Name
  pub not_before : Certificate → ℕ
  pub not_after : Certificate → ℕ
  pub subject_public_key : Certificate → Bytes
  pub extensions : Certificate → Option (List Extension)
  pub tbs_der : Certificate → Result Bytes Bytes
  pub cert_signature : Certificate → Option Bytes
  pub certificate_from_der : Bytes → Result Bytes Certificate
  pub basic_constraints_from_der : Bytes → Result Bytes BasicConstraints
  pub key_usage_from_der : Bytes → Result Bytes KeyUsage
  -- ECDSA on P-384 with SHA-384.
  pub VerifyingKey : Type 0
  pub Signature : Type 0
  pub verifying_key_from_sec1 : Bytes → Result Bytes VerifyingKey
  pub signature_from_der : Bytes → Result Bytes Signature
  pub signature_from_slice : Bytes → Result Bytes Signature
  pub verify : VerifyingKey → Bytes → Signature → Bool
  -- COSE_Sign1: the declared algorithm, the payload, the signature, and the bytes that are signed.
  pub CoseSign1 : Type 0
  pub cose_from_slice : Bytes → Result Bytes CoseSign1
  pub alg : CoseSign1 → Option Algorithm
  pub payload : CoseSign1 → Option Bytes
  pub cose_signature : CoseSign1 → Bytes
  pub tbs_data : CoseSign1 → Bytes → Bytes
  pub debug_alg : Option Algorithm → Bytes
  -- CBOR values by their accessors.
  pub Cbor : Type 0
  pub cbor_from_reader : Bytes → Result Bytes Cbor
  pub as_text : Cbor → Option Bytes
  pub as_integer : Cbor → Option ℤ
  pub as_bytes : Cbor → Option Bytes
  pub as_array : Cbor → Option (List Cbor)
  pub as_map : Cbor → Option (List (Cbor × Cbor))
  pub hex_encode : Bytes → Bytes
  pub base64_decode : Bytes → Option Bytes
