-- ===== src/Proxy/Lookup.antt =====
-- The proof of one entry of the log, asked for over HTTP.
use pzd.Base.{
  ℕ, ◌≤◌, ◌<◌, ◌^◌, ◌≡◌, refl, sym, ap, ◌∙◌, true, Option, none, some, List, [], ◌∷◌, Bytes, codes,
  arith, leb,
}
use pzd.Base.Result.{Result, ok, ok-injective}
use pzd.Base.Text.{starts_with}
use pzd.Json.{Value, string, insert, json, ◌↦:◌, as_str}
use pzd.Ledger.{Hash, size, root, leaf_at, verify_inclusion}
use pzd.Ledger.Split.{Fits}
use pzd.Enclave.Crates.{Crates, VsockEnvelope}
use pzd.Enclave.Wire.{SignedCheckpoint, receipt_value}
use pzd.Enclave.Machine.{Machine, >>=-ok, pure}
use pzd.Enclave.Queries.{ledger_proof}
use pzd.Enclave.Dispatch.{
  VsockResponse, dispatch, json_resp, error_resp, found_or, serve_proof, serve_index,
}
use pzd.Enclave.Receipts.{Vouches, moved}
use pzd.Enclave.Answers.{ledger_proof_lem}
use pzd.Proxy.{proof_route}
use pzd.Proxy.Paths.{parse_usize-path}
use pzd.Proxy.Forward.{
  Web, AppState, Metrics, Reply, http, envelope_of, reconstruct, text_headers, built_headers,
  forward_path, method_of, path_of, forward,
}
use pzd.Proxy.EndToEnd.{Carried, enclave_network, counted, do_forward-dispatch}

-- The path of an entry starts with the prefix, and is none of the others.
module _ (C : Crates) (W : Web) where
  dispatch-serve_proof :
      (env : VsockEnvelope) (m : Machine C) (idx : ℕ)
      → env.method ≡ codes "GET"
      → env.path ≡ proof_route idx
      → dispatch C env m ≡ serve_proof C (proof_route idx) m
  unfolding dispatch proof_route starts_with
  dispatch-serve_proof env m idx e1 e2 = rw (e1, e2) refl

  dispatch-serve_index :
      (env : VsockEnvelope) (m : Machine C) (idx : ℕ)
      → env.method ≡ codes "GET"
      → env.path ≡ proof_route idx
      → idx < 2 ^ 64
      → dispatch C env m ≡ serve_index C (some idx) m
  unfolding serve_proof
  dispatch-serve_index env m idx e1 e2 h =
      dispatch-serve_proof env m idx e1 e2 ∙ ap (λ o. serve_index C o m) (parse_usize-path idx h).0

  serve_index-some :
      (idx : ℕ) (m m' : Machine C) (found : Option Value)
      → ledger_proof C idx m ≡ (ok found, m')
      → serve_index C (some idx) m
        ≡ (ok (found_or C (error_resp C 404 (codes "ledger_index_not_found")) found), m')
  unfolding serve_index
  serve_index-some idx m m' found e =
      >>=-ok (ledger_proof C idx)
        (λ found. pure (found_or C (error_resp C 404 (codes "ledger_index_not_found")) found)) m m'
        found e

  -- A response over HTTP with JSON in it.
  abbrev pub http_json : ℕ → Bytes → Reply
  http_json status body = http (record {
    status = status;
    headers = (codes "content-type", codes "application/json") ∷ [];
    body = body;
  })

  -- What the proxy relies on to rebuild a response: base64 is read as it was written, and the header is one that
  -- a response may have.
  pub record Rebuilds : Type 0 where
    pub decodes : (b : Bytes) → C.base64_decode (C.base64_encode b) ≡ some b
    pub accepts :
        W.header (codes "content-type") (codes "application/json")
        ≡ some (codes "content-type", codes "application/json")

  reconstruct-json_resp :
      (n : ℕ) (v : Value) (b : Bytes)
      → Rebuilds
      → 100 ≤ n
      → n ≤ 999
      → C.to_vec v ≡ ok b
      → reconstruct C W (json_resp C n v) ≡ http_json n b
  unfolding reconstruct json_resp text_headers built_headers insert as_str
  reconstruct-json_resp n v b r low high e =
      let l : leb 100 n ≡ true = ground arith in
      let u : leb n 999 ≡ true = ground arith in rw (l, u, r.accepts, e, r.decodes b) refl

  -- The response to a lookup, by what the log has found.
  served_response :
      (env : VsockEnvelope) (m m' : Machine C) (idx : ℕ) (found : Option Value)
      (resp : VsockResponse)
      → dispatch C env m ≡ serve_index C (some idx) m
      → (dispatch C env m).0 ≡ ok resp
      → ledger_proof C idx m ≡ (ok found, m')
      → resp ≡ found_or C (error_resp C 404 (codes "ledger_index_not_found")) found
  served_response env m m' idx found resp served a q = ok-injective _ _ (
      sym a
      ∙ ap (λ (out : Result Bytes VsockResponse × Machine C). out.0)
          (served ∙ serve_index-some idx m m' found q))

  -- The answer to an entry that is in the log.
  pub record Proved (m : Machine C) (idx : ℕ) (answer : Reply) : Type 0 where
    pub leaf : Hash
    pub path : List Hash
    pub checkpoint : SignedCheckpoint
    pub body : Bytes
    pub answers : answer ≡ http_json 200 body
    pub is_receipt : C.to_vec (receipt_value C idx leaf path checkpoint) ≡ ok body
    pub is_leaf : leaf_at m.state.ledger idx ≡ some leaf
    pub vouches :
        Vouches C m.state.proof_sk (size m.state.ledger) (root C.sha m.state.ledger) checkpoint
    pub verifies :
        Fits (size m.state.ledger)
        → verify_inclusion C.sha leaf idx (size m.state.ledger) path (root C.sha m.state.ledger)
          ≡ true

  -- A `GET` of /v1/ledger/proof/ with a number, at the proxy in front of an enclave: for an entry of the log the answer
  -- has status 200 and a receipt with its leaf, a signed checkpoint of the log and an audit path that
  -- the verifier accepts; for any other number below 2^64 it has status 404. No error is counted.
  pub forward_path_lem :
      (m : Machine C) (state : AppState) (elapsed_ms idx : ℕ) (headers : List (Bytes × Bytes))
      (body : Bytes) (before : Metrics)
      → idx < 2 ^ 64
      → Rebuilds
      → Carried C W m (envelope_of C W (codes "GET") (proof_route idx) headers body)
      → let out =
          forward C W state
            (enclave_network C W m)
            elapsed_ms
            (forward_path idx)
            headers
            body
            before in
        (out.1 ≡ counted C W elapsed_ms before)
        × (idx < size m.state.ledger → Proved m idx out.0)
        × (size m.state.ledger ≤ idx → (b : Bytes) × (out.0 ≡ http_json 404 b))
  unfolding forward method_of path_of envelope_of found_or error_resp
  forward_path_lem m state elapsed_ms idx headers body before h r c =
      let env = envelope_of C W (codes "GET") (proof_route idx) headers body in
      let (resp, a, e) =
        do_forward-dispatch C W m state elapsed_ms (codes "GET") (proof_route idx) headers body
          before c in
      let served = dispatch-serve_index env m idx refl refl h in
      (
        ap (λ (out : Reply × Metrics). out.1) e,
        (λ below.
            let (leaf, path, cp, w, q, l, v, fine) = (ledger_proof_lem C idx m).0 below in
            let value = receipt_value C idx leaf path cp in
            let (b, t) = C.to_vec-answers value in
            let is_resp : resp ≡ json_resp C 200 value =
              served_response env m (moved C m w) idx (some value) resp served a q in
            record {
              leaf = leaf;
              path = path;
              checkpoint = cp;
              body = b;
              answers =
                  ap (λ (out : Reply × Metrics). out.0) e
                  ∙ ap (reconstruct C W) is_resp
                  ∙ reconstruct-json_resp 200 value b r (omega arith) (omega arith) t;
              is_receipt = t;
              is_leaf = l;
              vouches = v;
              verifies = fine;
            }),
        λ above.
            let value = json ((codes "error" ↦: string (codes "ledger_index_not_found")) ∷ []) in
            let (b, t) = C.to_vec-answers value in
            let is_resp : resp ≡ json_resp C 404 value =
              served_response env m m idx none resp served a ((ledger_proof_lem C idx m).1 above) in
            (
              b,
              ap (λ (out : Reply × Metrics). out.0) e
                  ∙ ap (reconstruct C W) is_resp
                  ∙ reconstruct-json_resp 404 value b r (omega arith) (omega arith) t,
            ),
      )
