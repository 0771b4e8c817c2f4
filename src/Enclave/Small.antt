-- ===== src/Enclave/Small.antt =====
-- Small stand-ins for the crates, and requests.
use pzd.Base.{
  ◌%◌, ℕ, zero, suc, ◌+◌, ◌*◌, ◌%◌, ◌≡◌, Option, none, some, [], ◌∷◌, ◌++◌, length, refl, take,
  Bytes, codes, bytes_eq, bytes_eq_refl,
}
use pzd.Base.Result.{ok}
use pzd.Json.{
  Value, Map, empty, entry, null, bool, number, other_number, string, array, object, Items, nil,
  item,
}
use pzd.Enclave.Crates.{Crates, InferenceRequest, VsockEnvelope}
use pzd.Enclave.Machine.{Machine}
use pzd.Enclave.Session.{process_and_delete}
use pzd.Enclave.Queries.{boot}

abbrev pub zeros : ℕ → Bytes
zeros zero = []
zeros (suc n) = 0 ∷ zeros n

abbrev pub fold : ℕ → Bytes → ℕ
fold acc [] = acc
fold acc (b ∷ bs) = fold ((acc * 31 + b) % 65521) bs

abbrev pub padded : Bytes → Bytes
padded b = fold 7 b ∷ zeros 31

abbrev pub padded-32 : (b : Bytes) → length (padded b) ≡ 32
padded-32 b = refl

-- The text of a value, without escapes.
abbrev mutual
  pub render : Value → Bytes
  render null = codes "null"
  render (bool b) = codes "b"
  render (number n) = n ∷ []
  render (other_number t) = t
  render (string s) = b'"' ∷ (s ++ (b'"' ∷ []))
  render (array a) = b'[' ∷ render_items a
  render (object m) = b'{' ∷ render_map m

  render_items : Items → Bytes
  render_items nil = b']' ∷ []
  render_items (item v vs) = render v ++ (b',' ∷ render_items vs)

  render_map : Map → Bytes
  render_map empty = b'}' ∷ []
  render_map (entry k v m) = k ++ (b':' ∷ (render v ++ (b',' ∷ render_map m)))

abbrev pub request : InferenceRequest
request = record {
  client_pub_hex = zeros 32;
  ciphertext_hex = codes "hello";
  nonce_hex = zeros 24;
  commitment_hex = padded (codes "hello" ++ codes "salt" ++ codes "ctx");
  commitment_salt_hex = codes "salt";
  commitment_context = codes "ctx";
  processor_id = none;
}

abbrev pub parse : Bytes → Option InferenceRequest
parse [] = none
parse (b ∷ bs) = some request

-- The envelope of a lookup.
abbrev pub lookup : VsockEnvelope
lookup = record {
  method = codes "GET";
  path = codes "/v1/ledger/proof/0";
  headers = empty;
  body_b64 = [];
}

abbrev pub small : Crates
small = record {
  sha = record { digest = padded; length-digest = padded-32 };
  hex_encode = λ b. b;
  hex_decode = λ b. some b;
  base64_encode = λ b. b;
  base64_decode = λ b. some b;
  diffie_hellman = λ sk pk. sk;
  hkdf_expand = λ salt secret info n. some (take n secret);
  Cipher = Bytes;
  new_cipher = λ k. some k;
  decrypt = λ k nonce msg aad. some msg;
  verifying_key = λ sk. sk;
  sign = λ sk msg. sk ++ msg;
  verify = λ pk msg sig. bytes_eq sig (pk ++ msg);
  verify-sign = λ sk msg. bytes_eq_refl (sk ++ msg);
  to_vec = λ v. ok (render v);
  to_vec-answers = λ v. (render v, refl);
  parse_request = parse;
  parse_envelope = λ b. some lookup;
  debug_error = λ b. b;
  World = ℕ;
  read_clock = λ w. (w, suc w);
  read_instant = λ w. (w, suc w);
  fill_bytes = λ n w. (zeros n, suc w);
  generate_attestation = λ u n p w. (ok (codes "doc"), w);
  expected_pcr0 = codes "pcr0";
}

abbrev pub started : Machine small
started = record { state = boot small (codes "csk") (codes "cpk") (codes "psk"); world = 1000 }

abbrev pub later_machine : Machine small
later_machine = (process_and_delete small (codes "x") (codes "demo") started).1

abbrev pub envelope : VsockEnvelope
envelope = record {
  method = codes "POST";
  path = codes "/v1/gateway/inference";
  headers = empty;
  body_b64 = codes "x";
}

abbrev pub root_query : VsockEnvelope
root_query = record {
  method = codes "GET";
  path = codes "/v1/ledger/root";
  headers = empty;
  body_b64 = [];
}
