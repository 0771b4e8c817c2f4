-- ===== src/Proxy/Accounts.antt =====
-- What the proxy answers and counts for one request.
use pzd.Base.{ℕ, ◌+◌, ◌≡◌, refl, sym, ap, ◌∙◌, Option, none, some, List, ◌∷◌, Bytes}
use mathlib.Core.Path.{subst}
use pzd.Base.Result.{Result, ok, err}
use pzd.Frames.{write_framed}
use pzd.Json.{Value}
use pzd.Enclave.Crates.{Crates}
use pzd.Enclave.Dispatch.{VsockResponse}
use pzd.Proxy.Forward.{
  Web, AppState, Metrics, Peer, upstream, timeout, Reply, failed, json_parts, json_response,
  forward_bytes, envelope_value, envelope_of, exchange, reconstruct, reply_of, do_forward,
  error_response,
}

module _ (C : Crates) (W : Web) where
  -- The answer to a round trip with the counts behind it: the response of the enclave, or an error that is
  -- counted, with status 504 if the time ran out and 502 otherwise.
  pub data Accounted (state : AppState) (errors : ℕ) : Option Peer → Reply × Metrics → Type 0 where
    answered :
        (peer : Peer) (resp : VsockResponse) (after : Metrics)
        → exchange C W state peer ≡ ok resp
        → after.errors ≡ errors
        → Accounted state errors (some peer) (reconstruct C W resp, after)
    refused :
        (peer : Peer) (e : Bytes) (after : Metrics)
        → exchange C W state peer ≡ err e
        → after.errors ≡ errors + 1
        → (error_response C W (upstream e)).status ≡ 502
        → Accounted state errors (some peer) (failed (upstream e), after)
    late :
        (after : Metrics)
        → after.errors ≡ errors + 1
        → (error_response C W timeout).status ≡ 504
        → Accounted state errors none (failed timeout, after)

  json_response-status : (n : ℕ) (v : Value) → (json_response C W n v).status ≡ n
  unfolding json_response
  json_response-status n v =
      let (b, e) = C.to_vec-answers v in ap (λ r. (json_parts C W n r).status) e

  upstream_status : (e : Bytes) → (error_response C W (upstream e)).status ≡ 502
  unfolding error_response
  upstream_status e = json_response-status 502 _

  timeout_status : (error_response C W timeout).status ≡ 504
  unfolding error_response
  timeout_status = json_response-status 504 _

  reply_of-Accounted :
      (state : AppState) (o : Option Peer) (m : Metrics)
      → Accounted state m.errors o (reply_of C W state o m)
  unfolding reply_of
  reply_of-Accounted state none m = late _ refl timeout_status
  reply_of-Accounted state (some peer) m = settled (exchange C W state peer) refl
    where
      settled :
          (r : Result Bytes VsockResponse)
          → exchange C W state peer ≡ r
          → Accounted state m.errors (some peer) (elim r [
            | ok resp ↦ (reconstruct C W resp, m)
            | err e ↦ (failed (upstream e), record m { errors = m.errors + 1 })
          ])
      settled (ok resp) h = answered peer resp m h refl
      settled (err e) h = refused peer e _ h refl (upstream_status e)

  reply_of_keeps :
      (state : AppState) (o : Option Peer) (m : Metrics)
      → ((reply_of C W state o m).1.requests ≡ m.requests)
        × ((reply_of C W state o m).1.latency_ms ≡ m.latency_ms)
  unfolding reply_of
  reply_of_keeps state none m = (refl, refl)
  reply_of_keeps state (some peer) m = kept (exchange C W state peer)
    where
      kept :
          (r : Result Bytes VsockResponse)
          → let out : Reply × Metrics = elim r [
            | ok resp ↦ (reconstruct C W resp, m)
            | err e ↦ (failed (upstream e), record m { errors = m.errors + 1 })
          ] in
            (out.1.requests ≡ m.requests) × (out.1.latency_ms ≡ m.latency_ms)
      kept (ok resp) = (refl, refl)
      kept (err e) = (refl, refl)

  pub do_forward-Accounted :
      (state : AppState) (network : Bytes → Option Peer) (elapsed_ms : ℕ) (method path : Bytes)
      (headers : List (Bytes × Bytes)) (body : Bytes) (before : Metrics)
      → let out = do_forward C W state network elapsed_ms method path headers body before in
        (req_bytes : Bytes) × (C.to_vec (envelope_value (envelope_of C W method path headers body))
          ≡ ok req_bytes)
        × (out.1.requests ≡ before.requests + 1)
        × (out.1.latency_ms ≡ elapsed_ms ∷ before.latency_ms)
        × Accounted state before.errors (network (write_framed req_bytes)) out
  unfolding do_forward forward_bytes
  do_forward-Accounted state network elapsed_ms method path headers body before =
      let (req_bytes, e) =
        C.to_vec-answers (envelope_value (envelope_of C W method path headers body)) in
      let counted : Metrics = record before { requests = before.requests + 1 } in
      let (r, l) =
        reply_of_keeps state (network (write_framed req_bytes))
          (record counted { latency_ms = elapsed_ms ∷ before.latency_ms }) in
      let sent = ap (forward_bytes C W state network elapsed_ms counted) e in
      (
        req_bytes,
        e,
        ap (λ (out : Reply × Metrics). out.1.requests) sent ∙ r,
        ap (λ (out : Reply × Metrics). out.1.latency_ms) sent ∙ l,
        subst (Accounted state before.errors (network (write_framed req_bytes))) (sym sent)
            (reply_of-Accounted state _ _),
      )
