-- ===== src/Proxy/Tally.antt =====
-- What the proxy answers to requests that come one after another, and what its counters say of them.
use pzd.Base.{ℕ, ◌+◌, ◌≤◌, ◌<◌, ◌≡◌, ◌⊎◌, Option, none, some, List, [], ◌∷◌, Bytes}
use pzd.Base.Result.{ok, err, unwrap_or}
use pzd.Frames.{write_framed}
use pzd.Enclave.Crates.{Crates}
use pzd.Enclave.Dispatch.{VsockResponse}
use pzd.Proxy.Forward.{
  Web, AppState, Metrics, Peer, upstream, timeout, Reply, http, failed, panicked, Route, forward,
  method_of, path_of, envelope_value, envelope_of, exchange, text_headers, built_headers,
  error_response,
}

module _ (C : Crates) (W : Web) where
  -- A request to the proxy, with what the other end makes of the bytes it gets, and how long that takes.
  pub record Call : Type 0 where
    pub network : Bytes → Option Peer
    pub elapsed_ms : ℕ
    pub route : Route C W
    pub headers : List (Bytes × Bytes)
    pub body : Bytes

  pub forward_all : AppState → List Call → Metrics → List Reply × Metrics
  unfolding forward
  forward_all state [] m = ([], m)
  forward_all state (c ∷ cs) m =
      let (reply, m1) = forward C W state c.network c.elapsed_ms c.route c.headers c.body m in
      let (replies, m2) = forward_all state cs m1 in (reply ∷ replies, m2)

  -- How many replies are errors of the proxy.
  abbrev pub error_of : Reply → ℕ
  error_of (http r) = 0
  error_of (failed e) = 1
  error_of panicked = 0

  abbrev pub errors_of : List Reply → ℕ
  errors_of [] = 0
  errors_of (r ∷ rs) = error_of r + errors_of rs

  -- The latencies of some requests in front of earlier ones, the last one first.
  abbrev pub observed : List Call → List ℕ → List ℕ
  observed [] earlier = earlier
  observed (c ∷ cs) earlier = observed cs (c.elapsed_ms ∷ earlier)

  -- What http makes of the enclave's response: the response, or a panic where it takes the status or a header not.
  pub data Presented (resp : VsockResponse) : Reply → Type 0 where
    passed :
        (headers : List (Bytes × Bytes))
        → 100 ≤ resp.status
        → resp.status ≤ 999
        → built_headers C W (text_headers C W resp.headers) ≡ some headers
        → Presented resp (
            http (record {
              status = resp.status;
              headers = headers;
              body = unwrap_or (C.base64_decode resp.body_b64) [];
            }))
    bad_status : (resp.status < 100) ⊎ (999 < resp.status) → Presented resp panicked
    bad_header : built_headers C W (text_headers C W resp.headers) ≡ none → Presented resp panicked

  -- The reply to what the other end made of the request.
  pub data Answer (state : AppState) : Option Peer → Reply → Type 0 where
    presented :
        (peer : Peer) (resp : VsockResponse) (reply : Reply)
        → exchange C W state peer ≡ ok resp
        → Presented resp reply
        → Answer state (some peer) reply
    bad_gateway :
        (peer : Peer) (e : Bytes)
        → exchange C W state peer ≡ err e
        → (error_response C W (upstream e)).status ≡ 502
        → Answer state (some peer) (failed (upstream e))
    gateway_timeout : (error_response C W timeout).status ≡ 504 → Answer state none (failed timeout)

  abbrev pub Answers : AppState → List Call → List Reply → Type 0
  Answers state [] [] = Unit
  Answers state [] (r ∷ rs) = ⊥
  Answers state (c ∷ cs) [] = ⊥
  Answers state (c ∷ cs) (r ∷ rs) =
      ((req_bytes : Bytes) × (C.to_vec (
            envelope_value
              (envelope_of C W (method_of C W c.route) (path_of C W c.route) c.headers c.body))
          ≡ ok req_bytes)
        × Answer state (c.network (write_framed req_bytes)) r)
      × Answers state cs rs
