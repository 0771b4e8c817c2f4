-- ===== src/Enclave/Dispatch.antt =====
-- services/pzdr-enclave/src/main.rs, `dispatch`, `json_resp` and `handle_conn`: the choice of a handler
-- by method and path, and the answer to one connection.
use pzd.Base.Text.{starts_with}
use pzd.Base.{
  ℕ, zero, suc, ◌+◌, ◌-◌, ◌*◌, ◌^◌, false, ◌&&◌, Option, none, some, [], ◌∷◌, length, drop, Bytes,
  codes, bytes_eq, ltb, leb, ◌==◌, if◌then◌else◌,
}
use pzd.Base.Result.{Result, ok, err, unwrap_or, ok_or}
use pzd.Json.{
  Value, Map, empty, bool, number, string, object, insert, get, as_str, json, struct, ◌↦:◌,
}
use pzd.Enclave.Crates.{Crates, VsockEnvelope}
use pzd.Enclave.Wire.{AttestationOut, attestation_value}
use pzd.Enclave.Machine.{Act, pure, ◌>>=◌, try}
use pzd.Enclave.Session.{process_and_delete, and_then}
use pzd.Enclave.Queries.{publish_attestation, ledger_root, ledger_proof, ledger_consistency}
use pzd.Frames.{read_framed, write_framed}

pub record VsockResponse : Type 0 where
  pub status : ℕ
  pub headers : Map
  pub body_b64 : Bytes

-- `trim_start_matches`, which takes the prefix off as often as it stands there; the length of the path
-- is enough rounds.
unfoldable pub trim_loop : ℕ → Bytes → Bytes → Bytes
unfolding starts_with
trim_loop zero prefix path = path
trim_loop (suc fuel) prefix path =
    let rest = trim_loop fuel prefix (drop (length prefix) path) in
    if starts_with prefix path then rest else path

unfoldable pub trim_start_matches : Bytes → Bytes → Bytes
unfolding trim_loop
trim_start_matches prefix path = trim_loop (length path) prefix path

-- `parse::<usize>`: decimal digits that stay below 2^64, behind an optional `+`.
unfoldable pub parse_digits : ℕ → Bytes → Option ℕ
parse_digits acc [] = some acc
parse_digits acc (c ∷ cs) =
    let acc' = acc * 10 + (c - b'0') in
    let rest = parse_digits acc' cs in
    if leb b'0' c && leb c b'9' then (if ltb acc' (2 ^ 64) then rest else none) else none

-- One digit at least.
unfoldable pub parse_number : Bytes → Option ℕ
unfolding parse_digits
parse_number [] = none
parse_number (c ∷ cs) = parse_digits 0 (c ∷ cs)

unfoldable pub parse_usize : Bytes → Option ℕ
unfolding parse_number
parse_usize [] = none
parse_usize (c ∷ cs) = if c == b'+' then parse_number cs else parse_number (c ∷ cs)

-- The result of a handler as a value, for the `match` on it.
unfoldable pub attempt : {C : Crates} {A : Type 0} → Act C A → Act C (Result Bytes A)
attempt act m = let (r, m') = act m in (ok r, m')

abbrev pub attestation : Bytes
attestation = codes "/v1/attestation"

abbrev pub inference : Bytes
inference = codes "/v1/gateway/inference"

abbrev pub root_path : Bytes
root_path = codes "/v1/ledger/root"

abbrev pub proof_prefix : Bytes
proof_prefix = codes "/v1/ledger/proof/"

abbrev pub consistency_prefix : Bytes
consistency_prefix = codes "/v1/ledger/consistency/"

module _ (C : Crates) where
  unfoldable pub json_resp : ℕ → Value → VsockResponse
  json_resp status v = record {
    status = status;
    headers = insert (codes "content-type") (string (codes "application/json")) empty;
    body_b64 = C.base64_encode (elim (C.to_vec v) [ ok body ↦ body | err e ↦ codes "{}" ]);
  }

  unfoldable pub error_resp : ℕ → Bytes → VsockResponse
  unfolding json_resp
  error_resp status message = json_resp status (json ((codes "error" ↦: string message) ∷ []))

  pub tenant_of : VsockEnvelope → Bytes
  tenant_of env = unwrap_or (and_then (get (codes "x-tenant-id") env.headers) as_str) (codes "demo")

  -- The body of a request, empty where it is not base64.
  pub body_of : VsockEnvelope → Bytes
  body_of env = unwrap_or (C.base64_decode env.body_b64) []

  pub attestation_resp : Result Bytes AttestationOut → VsockResponse
  attestation_resp (ok att) = json_resp 200 (attestation_value att)
  attestation_resp (err e) = error_resp 500 (C.debug_error e)

  unfoldable pub serve_attestation : Act C VsockResponse
  unfolding attempt attestation_resp
  serve_attestation = do r ← attempt (publish_attestation C); pure (attestation_resp r)

  unfoldable pub inference_resp : Result Bytes Value → VsockResponse
  inference_resp (ok v) = json_resp 200 v
  inference_resp (err e) =
      json_resp 500
        (json ((codes "ok" ↦: bool false) ∷ (codes "error" ↦: string (C.debug_error e)) ∷ []))

  unfoldable pub serve_inference : VsockEnvelope → Act C VsockResponse
  unfolding attempt tenant_of body_of inference_resp
  serve_inference env = do
    r ← attempt (process_and_delete C (body_of env) (tenant_of env))
    pure (inference_resp r)

  unfoldable pub serve_root : Act C VsockResponse
  unfolding json_resp
  serve_root = do v ← ledger_root C; pure (json_resp 200 v)

  unfoldable pub found_or : VsockResponse → Option Value → VsockResponse
  found_or missing none = missing
  found_or missing (some v) = json_resp 200 v

  -- The answer at the number that stands behind the prefix.
  unfoldable pub serve_index : Option ℕ → Act C VsockResponse
  unfolding found_or error_resp
  serve_index none = pure (error_resp 400 (codes "invalid_ledger_index"))
  serve_index (some idx) = do
    found ← ledger_proof C idx
    pure (found_or (error_resp 404 (codes "ledger_index_not_found")) found)

  unfoldable pub serve_size : Option ℕ → Act C VsockResponse
  unfolding found_or error_resp
  serve_size none = pure (error_resp 400 (codes "invalid_tree_size"))
  serve_size (some from_size) = do
    found ← ledger_consistency C from_size
    pure (found_or (error_resp 400 (codes "invalid_tree_size")) found)

  unfoldable pub serve_proof : Bytes → Act C VsockResponse
  unfolding parse_usize trim_start_matches serve_index
  serve_proof path = serve_index (parse_usize (trim_start_matches proof_prefix path))

  unfoldable pub serve_consistency : Bytes → Act C VsockResponse
  unfolding parse_usize trim_start_matches serve_size
  serve_consistency path = serve_size (parse_usize (trim_start_matches consistency_prefix path))

  unfoldable pub dispatch : VsockEnvelope → Act C VsockResponse
  unfolding starts_with serve_attestation serve_inference serve_root serve_proof serve_consistency
      json_resp
  dispatch env =
      let is_get = bytes_eq env.method (codes "GET") in
      if is_get && bytes_eq env.path attestation
      then serve_attestation
      else if bytes_eq env.method (codes "POST") && bytes_eq env.path inference
      then serve_inference env
      else if is_get && bytes_eq env.path root_path
      then serve_root
      else if is_get && starts_with proof_prefix env.path
      then serve_proof env.path
      else if is_get && starts_with consistency_prefix env.path
      then serve_consistency env.path
      else pure (
          json_resp 404 (
            json (
              (codes "error" ↦: string (codes "not found"))
              ∷ (codes "method" ↦: string env.method)
              ∷ (codes "path" ↦: string env.path)
              ∷ [])))

  -- `to_vec(&resp)`, of the structure itself.
  unfoldable pub response_value : VsockResponse → Value
  response_value r = struct (
      (codes "status" ↦: number r.status)
      ∷ (codes "headers" ↦: object r.headers)
      ∷ (codes "body_b64" ↦: string r.body_b64)
      ∷ [])

  -- The bytes of the connection to the bytes of the answer.
  unfoldable pub handle_conn : Bytes → Act C Bytes
  unfolding dispatch response_value
  handle_conn stream = do
    (bytes, rest) ← try (read_framed stream)
    env ← try (ok_or (C.parse_envelope bytes) (codes "json"))
    resp ← dispatch env
    resp_bytes ← try (C.to_vec (response_value resp))
    pure (write_framed resp_bytes)
