-- ===== src/Nitro/Toy.antt =====
-- Small stand-ins for the formats: three certificates, and one payload.
use pzd.Base.{
  ℕ, ◌+◌, Bool, true, false, Option, none, some, List, [], ◌∷◌, ◌++◌, Bytes, codes, bytes_eq, ◌==◌,
  ==_iff, if◌then◌else◌,
}
use pzd.Base.Int.{ℤ, pos}
use pzd.Base.Result.{Result, ok, err}
use pzd.Nitro.Device.{Driver, random}
use pzd.Nitro.Formats.{Formats, Extension}
use pzd.Nitro.Verifier.{es384}
use pzd.Nitro.Attestation.{VerifiedAttestation}

-- A certificate by the numbers of its subject and its issuer.
pub record Toy : Type 0 where
  pub subject : ℕ
  pub issuer : ℕ
  pub ca : Bool

abbrev pub toy_leaf : Toy
toy_leaf = record { subject = 1; issuer = 2; ca = false }

abbrev pub toy_middle : Toy
toy_middle = record { subject = 2; issuer = 3; ca = true }

abbrev pub toy_root : Toy
toy_root = record { subject = 3; issuer = 3; ca = true }

abbrev pub toy_from_der : Bytes → Result Bytes Toy
toy_from_der (b ∷ []) =
    if b == 1
    then ok toy_leaf
    else if b == 2
    then ok toy_middle
    else if b == 3
    then ok toy_root
    else err (codes "Certificate")
toy_from_der other = err (codes "Certificate")

abbrev pub toy_extensions : Toy → Option (List Extension)
toy_extensions c =
    if c.ca
    then some (
        record { extn_id = codes "2.5.29.19"; extn_value = 1 ∷ [] }
        ∷ record { extn_id = codes "2.5.29.15"; extn_value = 1 ∷ [] }
        ∷ [])
    else none

-- The values of the one payload, by number.
abbrev pub toy_text : ℕ → Option Bytes
toy_text n =
    if n == 1
    then some (codes "module_id")
    else if n == 2
    then some (codes "digest")
    else if n == 3
    then some (codes "timestamp")
    else if n == 4
    then some (codes "pcrs")
    else if n == 5
    then some (codes "certificate")
    else if n == 6
    then some (codes "cabundle")
    else if n == 11
    then some (codes "i-0abc")
    else if n == 12
    then some (codes "SHA384")
    else none

abbrev pub toy_bytes : ℕ → Option Bytes
toy_bytes n =
    if n == 15
    then some (1 ∷ [])
    else if n == 17
    then some (3 ∷ [])
    else if n == 18
    then some (2 ∷ [])
    else if n == 22
    then some (codes "AB")
    else none

abbrev pub toy_map : ℕ → Option (List (ℕ × ℕ))
toy_map n =
    if n == 0
    then some ((1, 11) ∷ (2, 12) ∷ (3, 13) ∷ (4, 14) ∷ (5, 15) ∷ (6, 16) ∷ [])
    else if n == 14
    then some ((21, 22) ∷ [])
    else none

abbrev pub toy_integer : ℕ → Option ℤ
toy_integer n = if n == 13 then some (pos 1_000_000) else if n == 21 then some (pos 0) else none

abbrev pub toy : Formats
toy = record {
  Name = ℕ;
  name_eq = λ a b. a == b;
  name_eq_iff = ==_iff;
  show_name = λ n. n ∷ [];
  Certificate = Toy;
  issuer = λ c. c.issuer;
  subject = λ c. c.subject;
  not_before = λ c. 900;
  not_after = λ c. 2_000;
  subject_public_key = λ c. c.subject ∷ [];
  extensions = toy_extensions;
  tbs_der = λ c. ok (c.subject ∷ []);
  cert_signature = λ c. some (c.issuer ∷ c.subject ∷ []);
  certificate_from_der = toy_from_der;
  basic_constraints_from_der = λ b. ok (record { ca = true; path_len_constraint = some 1 });
  key_usage_from_der = λ b. ok (record { key_cert_sign = true });
  VerifyingKey = Bytes;
  Signature = Bytes;
  verifying_key_from_sec1 = λ b. ok b;
  signature_from_der = λ b. ok b;
  signature_from_slice = λ b. ok b;
  verify = λ key message sig. bytes_eq sig (key ++ message);
  CoseSign1 = Bytes;
  cose_from_slice = λ b. ok b;
  alg = λ doc. some es384;
  payload = λ doc. some doc;
  cose_signature = λ doc. 1 ∷ doc;
  tbs_data = λ doc aad. doc;
  debug_alg = λ a. [];
  Cbor = ℕ;
  cbor_from_reader = λ b. ok 0;
  as_text = toy_text;
  as_integer = toy_integer;
  as_bytes = toy_bytes;
  as_array = λ n. if n == 16 then some (17 ∷ 18 ∷ []) else none;
  as_map = toy_map;
  hex_encode = λ b. b;
  base64_decode = λ b. some (3 ∷ []);
}

abbrev pub toy_attestation : VerifiedAttestation
toy_attestation = record {
  module_id = codes "i-0abc";
  digest = codes "SHA384";
  pcrs = (0, codes "AB") ∷ [];
  user_data = none;
  nonce = none;
  public_key = none;
  timestamp_ms = pos 1_000_000;
  certificate_chain = (1 ∷ []) ∷ (3 ∷ []) ∷ (2 ∷ []) ∷ [];
}

-- A module that answers with three bytes at a time.
abbrev pub toy_driver : Driver
toy_driver = record {
  World = ℕ;
  nsm_init = λ w. (pos 3, w);
  nsm_exit = λ fd w. w;
  nsm_process_request = λ fd request w. (random (w ∷ w ∷ w ∷ []), w + 1);
  show = λ n. [];
}
