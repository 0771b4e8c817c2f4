-- ===== src/Proxy/Forward.antt =====
-- crates/vsock-parent-proxy/src/main.rs: `do_forward` with its metrics and errors, and the handlers that
-- call it. What the enclave's end of the vsock does is a function of the bytes that the proxy wrote.
use pzd.Base.{
  ℕ, ◌+◌, ◌*◌, ◌>>=◌, ◌&&◌, Option, none, some, List, [], ◌∷◌, ◌++◌, Bytes, codes, ltb, leb,
  if◌then◌else◌,
}
use mathlib.Core.Option
use pzd.Base.Result.{Result, ok, err, ok_or, unwrap_or}
use pzd.Base.Text.{decimal}
use pzd.Json.{Value, Map, empty, entry, string, object, insert, as_str, json, struct, ◌↦:◌}
use pzd.Frames.{read_exact, from_be_bytes, write_framed}
use pzd.Enclave.Crates.{Crates, VsockEnvelope}
use pzd.Enclave.Dispatch.{VsockResponse, attestation, inference, root_path}
use pzd.Proxy.{proof_route, consistency_route}

-- What the proxy takes from axum, http and serde besides the enclave's crates.
pub record Web : Type 0 where
  -- The text of a header's value, if it is one, and the header that http makes of two texts, if it takes them:
  -- it keeps a name in small letters.
  pub to_str : Bytes → Option Bytes
  pub header : Bytes → Bytes → Option (Bytes × Bytes)
  pub parse_response : Bytes → Option VsockResponse

pub record AppState : Type 0 where
  pub cid : ℕ
  pub port : ℕ

-- The counters, and the latencies in milliseconds that were observed, the last one first.
pub record Metrics : Type 0 where
  pub requests : ℕ
  pub errors : ℕ
  pub latency_ms : List ℕ

-- The other end: nobody, a connection that breaks while it is written to, or one that answers with bytes
-- and ends.
pub data Peer : Type 0 where
  unreachable : Peer
  broken : Bytes → Peer
  replies : Bytes → Peer

pub data AppError : Type 0 where
  upstream : Bytes → AppError
  timeout : AppError

pub record HttpResponse : Type 0 where
  pub status : ℕ
  pub headers : List (Bytes × Bytes)
  pub body : Bytes

-- How a handler ends; `unwrap` on a response that the builder refuses panics.
pub data Reply : Type 0 where
  http : HttpResponse → Reply
  failed : AppError → Reply
  panicked : Reply

-- The proxy's `read_framed`, whose error says the length.
unfoldable pub read_reply : Bytes → Result Bytes (Bytes × Bytes)
unfolding read_exact from_be_bytes decimal
read_reply s = do
  (len_buf, rest) ← read_exact 4 s
  let len = from_be_bytes len_buf
  if ltb (64 * 1024 * 1024) len then err (too_large len) else read_exact len rest
  where
    too_large : ℕ → Bytes
    too_large len = codes "vsock frame too large: " ++ decimal len

-- `to_vec(&envelope)`, of the structure itself.
unfoldable pub envelope_value : VsockEnvelope → Value
envelope_value env = struct (
    (codes "method" ↦: string env.method)
    ∷ (codes "path" ↦: string env.path)
    ∷ (codes "headers" ↦: object env.headers)
    ∷ (codes "body_b64" ↦: string env.body_b64)
    ∷ [])

module _ (C : Crates) (W : Web) where
  -- The loop over the headers: the ones with a text, the last one of a name.
  unfoldable pub header_map : Map → List (Bytes × Bytes) → Map
  header_map m [] = m
  header_map m ((name, value) ∷ headers) = elim (W.to_str value) [
    | none ↦ header_map m headers
    | some s ↦ header_map (insert name (string s) m) headers
  ]

  unfoldable pub envelope_of : Bytes → Bytes → List (Bytes × Bytes) → Bytes → VsockEnvelope
  unfolding header_map
  envelope_of method path headers body = record {
    method = method;
    path = path;
    headers = header_map empty headers;
    body_b64 = C.base64_encode body;
  }

  -- The future that `timeout` waits for.
  unfoldable pub exchange : AppState → Peer → Result Bytes VsockResponse
  unfolding read_reply decimal
  exchange state unreachable =
      err (codes "vsock connect cid=" ++ decimal state.cid ++ codes " port=" ++ decimal state.port)
  exchange state (broken e) = err e
  exchange state (replies stream) = do
    (resp_bytes, rest) ← read_reply stream
    ok_or (W.parse_response resp_bytes) (codes "decode VsockResponse")

  -- The headers of a response whose values are texts.
  unfoldable pub text_headers : Map → List (Bytes × Bytes)
  text_headers empty = []
  text_headers (entry k v m) =
      let rest = text_headers m in elim (as_str v) [ none ↦ rest | some s ↦ (k, s) ∷ rest ]

  -- `builder.header` on each of them.
  unfoldable pub built_headers : List (Bytes × Bytes) → Option (List (Bytes × Bytes))
  built_headers [] = some []
  built_headers ((k, s) ∷ headers) =
      let rest = built_headers headers in
      elim (W.header k s) [ none ↦ none | some header ↦ Option.map (◌∷◌ header) rest ]

  -- `builder.body`, and the panic where the builder has an error.
  abbrev pub built : VsockResponse → Option (List (Bytes × Bytes)) → Reply
  built resp none = panicked
  built resp (some headers) = http (record {
    status = resp.status;
    headers = headers;
    body = unwrap_or (C.base64_decode resp.body_b64) [];
  })

  -- `Response::builder`, which takes a status from 100 to 999.
  unfoldable pub reconstruct : VsockResponse → Reply
  unfolding text_headers built_headers
  reconstruct resp =
      if leb 100 resp.status && leb resp.status 999
      then built resp (built_headers (text_headers resp.headers))
      else panicked

  abbrev count_error : Metrics → Metrics
  count_error m = record m { errors = m.errors + 1 }

  -- The match on the result of the round trip, where `none` is the end of the time.
  unfoldable pub reply_of : AppState → Option Peer → Metrics → Reply × Metrics
  unfolding exchange reconstruct
  reply_of state none m = (failed timeout, count_error m)
  reply_of state (some peer) m = elim (exchange state peer) [
    | ok resp ↦ (reconstruct resp, m)
    | err e ↦ (failed (upstream e), count_error m)
  ]

  -- The rest of `do_forward` behind the writing of the envelope, whose error is not counted.
  unfoldable pub forward_bytes :
      AppState → (Bytes → Option Peer) → ℕ → Metrics → Result Bytes Bytes → Reply × Metrics
  unfolding write_framed reply_of
  forward_bytes state network elapsed_ms m (ok req_bytes) =
      reply_of state (network (write_framed req_bytes))
        (record m { latency_ms = elapsed_ms ∷ m.latency_ms })
  forward_bytes state network elapsed_ms m (err e) = (failed (upstream e), m)

  -- The bytes written to the outcome at the other end, and how long that took.
  unfoldable pub do_forward :
      AppState
      → (Bytes → Option Peer)
      → ℕ
      → Bytes
      → Bytes
      → List (Bytes × Bytes)
      → Bytes
      → Metrics
      → Reply × Metrics
  unfolding envelope_of envelope_value forward_bytes
  do_forward state network elapsed_ms method path headers body metrics =
      forward_bytes state network elapsed_ms (record metrics { requests = metrics.requests + 1 })
        (C.to_vec (envelope_value (envelope_of method path headers body)))

  -- A status with `axum::Json` of what a value was written to.
  abbrev pub json_parts : ℕ → Result Bytes Bytes → HttpResponse
  json_parts status (ok b) = record {
    status = status;
    headers = (codes "content-type", codes "application/json") ∷ [];
    body = b;
  }
  json_parts status (err e) = record {
    status = 500;
    headers = (codes "content-type", codes "text/plain; charset=utf-8") ∷ [];
    body = e;
  }

  unfoldable pub json_response : ℕ → Value → HttpResponse
  json_response status v = json_parts status (C.to_vec v)

  -- `into_response` of an error.
  unfoldable pub error_response : AppError → HttpResponse
  unfolding json_response
  error_response (upstream s) =
      json_response 502
        (json ((codes "error" ↦: string (codes "upstream")) ∷ (codes "detail" ↦: string s) ∷ []))
  error_response timeout =
      json_response 504 (json ((codes "error" ↦: string (codes "enclave_timeout")) ∷ []))

  -- The requests that the router sends to the enclave.
  pub data Route : Type 0 where
    forward_attestation : Route
    forward_inference : Route
    forward_ledger_root : Route
    forward_path : ℕ → Route
    forward_consistency : ℕ → Route

  unfoldable pub method_of : Route → Bytes
  method_of forward_inference = codes "POST"
  method_of other = codes "GET"

  unfoldable pub path_of : Route → Bytes
  unfolding proof_route consistency_route
  path_of forward_attestation = attestation
  path_of forward_inference = inference
  path_of forward_ledger_root = root_path
  path_of (forward_path idx) = proof_route idx
  path_of (forward_consistency from_size) = consistency_route from_size

  unfoldable pub forward :
      AppState
      → (Bytes → Option Peer)
      → ℕ
      → Route
      → List (Bytes × Bytes)
      → Bytes
      → Metrics
      → Reply × Metrics
  unfolding do_forward method_of path_of
  forward state network elapsed_ms route headers body metrics =
      do_forward state network elapsed_ms (method_of route) (path_of route) headers body metrics
