-- ===== src/Enclave/Crates.antt =====
-- What services/pzdr-enclave/src/main.rs takes from the crates it calls, from the build and from the
-- machine it runs on, with the documented behaviour that it relies on.
use pzd.Base.{ℕ, ◌≡◌, Bool, true, Option, Bytes}
use pzd.Base.Result.{Result, ok}
use pzd.Json.{Value, Map}
use pzd.Ledger.{Sha256}

-- The requests as `serde` reads them.
pub record InferenceRequest : Type 0 where
  pub client_pub_hex : Bytes
  pub ciphertext_hex : Bytes
  pub nonce_hex : Bytes
  pub commitment_hex : Bytes
  pub commitment_salt_hex : Bytes
  pub commitment_context : Bytes
  pub processor_id : Option Bytes

pub record VsockEnvelope : Type 0 where
  pub method : Bytes
  pub path : Bytes
  pub headers : Map
  pub body_b64 : Bytes

pub record Crates : Type 1 where
  pub sha : Sha256
  pub hex_encode : Bytes → Bytes
  pub hex_decode : Bytes → Option Bytes
  pub base64_encode : Bytes → Bytes
  pub base64_decode : Bytes → Option Bytes
  -- x25519: the secret key and the public key to the shared secret.
  pub diffie_hellman : Bytes → Bytes → Bytes
  -- HKDF-SHA-256: the salt, the secret, the info and the number of bytes.
  pub hkdf_expand : Bytes → Bytes → Bytes → ℕ → Option Bytes
  -- XChaCha20-Poly1305: the cipher of a key, and a decryption by nonce, message and extra data.
  pub Cipher : Type 0
  pub new_cipher : Bytes → Option Cipher
  pub decrypt : Cipher → Bytes → Bytes → Bytes → Option Bytes
  -- Ed25519.
  pub verifying_key : Bytes → Bytes
  pub sign : Bytes → Bytes → Bytes
  pub verify : Bytes → Bytes → Bytes → Bool
  pub verify-sign : (sk msg : Bytes) → verify (verifying_key sk) msg (sign sk msg) ≡ true
  -- `serde_json::to_vec`, which does not fail on a `Value`, and the readers of a request and of an
  -- envelope.
  pub to_vec : Value → Result Bytes Bytes
  pub to_vec-answers : (v : Value) → (b : Bytes) × (to_vec v ≡ ok b)
  pub parse_request : Bytes → Option InferenceRequest
  pub parse_envelope : Bytes → Option VsockEnvelope
  -- `format!("{e:?}")` of an error.
  pub debug_error : Bytes → Bytes
  -- The machine: its clocks in seconds and in microseconds, and its random numbers.
  pub World : Type 0
  pub read_clock : World → ℕ × World
  pub read_instant : World → ℕ × World
  pub fill_bytes : ℕ → World → Bytes × World
  -- The security module: user data, nonce and public key to an attestation document.
  pub generate_attestation :
      Option Bytes → Option Bytes → Option Bytes → World → Result Bytes Bytes × World
  -- `PZDR_EXPECTED_PCR0` at build time.
  pub expected_pcr0 : Bytes
