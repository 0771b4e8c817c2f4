-- ===== src/Proxy/EndToEnd.antt =====
-- The proxy in front of the enclave: a request over HTTP, its envelope and frame, the handler behind them, and
-- the way back.
use pzd.Base.{
  ℕ, ◌+◌, ◌*◌, ◌≤◌, ◌≡◌, refl, sym, ap, ◌∙◌, Option, some, List, [], ◌∷◌, ◌++◌, append-nil, length,
  Bytes, codes, ltb, Bool, true, false, if◌then◌else◌, ◌>>=◌,
}
use pzd.Base.Result.{Result, ok, err, >>=-inv}
use pzd.Base.Text.{decimal}
use pzd.Frames.{read_framed, read_exact, from_be_bytes, write_framed}
use pzd.Frames.RoundTrip.{read_framed-write_framed}
use pzd.Enclave.Crates.{Crates, VsockEnvelope}
use pzd.Enclave.Machine.{Machine, try, pure, >>=-ok, ◌>>=◌ as act_bind}
use pzd.Enclave.Dispatch.{VsockResponse, dispatch, handle_conn, response_value}
use pzd.Enclave.Requests.{Served, session, query, dispatch-Served}
use pzd.Proxy.Forward.{
  Web, AppState, Metrics, Peer, replies, failed, upstream, envelope_value, envelope_of, exchange,
  read_reply, reconstruct, reply_of, forward_bytes, do_forward,
}

-- The proxy's reader of frames agrees with the enclave's on what both read.
read_reply-read_framed :
    (s : Bytes) (p : Bytes × Bytes) → read_framed s ≡ ok p → read_reply s ≡ ok p
unfolding read_reply read_framed
read_reply-read_framed s p h =
    let (q, e, h1) = >>=-inv (read_exact 4 s) _ _ h in
    ap
      (λ (r : Result Bytes (Bytes × Bytes)). r >>= λ q.
        if ltb (64 * 1024 * 1024) (from_be_bytes q.0)
        then err (codes "vsock frame too large: " ++ decimal (from_be_bytes q.0))
        else read_exact (from_be_bytes q.0) q.1)
      e
    ∙ relabel _ _ (ltb (64 * 1024 * 1024) (from_be_bytes q.0)) _ h1
  where
    relabel :
        {A : Type 0} {p : A} (x y : Bytes) (b : Bool) (r : Result Bytes A)
        → (if b then err x else r) ≡ ok p
        → (if b then err y else r) ≡ ok p
    relabel x y true r h = absurd (cc)
    relabel x y false r h = h

-- A whole frame is read back.
read_frame : (b : Bytes) → length b ≤ 64 * 1024 * 1024 → read_framed (write_framed b) ≡ ok (b, [])
read_frame b h =
    ap read_framed (sym (append-nil (write_framed b))) ∙ (read_framed-write_framed b []).0 h

module _ (C : Crates) (W : Web) where
  -- What a connection of the enclave writes, and nothing if it ends with an error.
  abbrev written : Result Bytes Bytes → Bytes
  written (ok b) = b
  written (err e) = []

  -- The enclave of a machine at the other end.
  unfoldable pub enclave_network : Machine C → Bytes → Option Peer
  unfolding handle_conn
  enclave_network m stream = some (replies (written (handle_conn C stream m).0))

  Served-answers :
      (env : VsockEnvelope) (m : Machine C) (p : Result Bytes VsockResponse × Machine C)
      → Served C env m p
      → (resp : VsockResponse) × (p.0 ≡ ok resp)
  Served-answers env m p (session here m' r e) = (_, refl)
  Served-answers env m p (query other resp w) = (resp, refl)

  handle_conn-dispatch :
      (m m' : Machine C) (env : VsockEnvelope) (resp : VsockResponse) (req_bytes resp_bytes : Bytes)
      → length req_bytes ≤ 64 * 1024 * 1024
      → C.parse_envelope req_bytes ≡ some env
      → dispatch C env m ≡ (ok resp, m')
      → C.to_vec (response_value C resp) ≡ ok resp_bytes
      → handle_conn C (write_framed req_bytes) m ≡ (ok (write_framed resp_bytes), m')
  unfolding handle_conn
  handle_conn-dispatch m m' env resp req_bytes resp_bytes h e1 e2 e3 =
      rw (read_frame req_bytes h, e1)
        (>>=-ok (dispatch C env)
            (λ resp. act_bind (try (C.to_vec (response_value C resp))) (λ b. pure (write_framed b)))
            m m' resp e2
          ∙ rw e3 refl)

  exchange_frame :
      (state : AppState) (resp : VsockResponse) (resp_bytes : Bytes)
      → length resp_bytes ≤ 64 * 1024 * 1024
      → W.parse_response resp_bytes ≡ some resp
      → exchange C W state (replies (write_framed resp_bytes)) ≡ ok resp
  unfolding exchange
  exchange_frame state resp resp_bytes h e =
      rw
        (
          read_reply-read_framed (write_framed resp_bytes) (resp_bytes, [])
              (read_frame resp_bytes h),
          e,
        )
        refl

  reply_of-ok :
      (state : AppState) (peer : Peer) (m : Metrics) (resp : VsockResponse)
      → exchange C W state peer ≡ ok resp
      → reply_of C W state (some peer) m ≡ (reconstruct C W resp, m)
  unfolding reply_of
  reply_of-ok state peer m resp e =
      ap
        (λ (r : Result Bytes VsockResponse). elim r [
          | ok resp ↦ (reconstruct C W resp, m)
          | err x ↦ (failed (upstream x), record m { errors = m.errors + 1 })
        ])
        e

  -- An envelope and the enclave's answer to it are read as they were written, and take at most 64 MiB
  -- each.
  pub record Carried (m : Machine C) (env : VsockEnvelope) : Type 0 where
    pub req_bytes : Bytes
    pub is_written : C.to_vec (envelope_value env) ≡ ok req_bytes
    pub is_read : C.parse_envelope req_bytes ≡ some env
    pub is_small : length req_bytes ≤ 64 * 1024 * 1024
    pub comes_back :
        (resp : VsockResponse) (resp_bytes : Bytes)
        → (dispatch C env m).0 ≡ ok resp
        → C.to_vec (response_value C resp) ≡ ok resp_bytes
        → (length resp_bytes ≤ 64 * 1024 * 1024) × (W.parse_response resp_bytes ≡ some resp)

  -- The counts behind a request that was answered.
  abbrev pub counted : ℕ → Metrics → Metrics
  counted elapsed_ms before = record before {
    requests = before.requests + 1;
    latency_ms = elapsed_ms ∷ before.latency_ms;
  }

  -- A request to the proxy is answered as `dispatch` answers its envelope on the machine of the enclave: the
  -- proxy gives the response that is rebuilt from that answer and counts no error, if the envelope and the
  -- answer are read as they were written and take at most 64 MiB each.
  pub do_forward-dispatch :
      (m : Machine C) (state : AppState) (elapsed_ms : ℕ) (method path : Bytes)
      (headers : List (Bytes × Bytes)) (body : Bytes) (before : Metrics)
      → Carried m (envelope_of C W method path headers body)
      → (resp : VsockResponse) × ((dispatch C (envelope_of C W method path headers body) m).0
          ≡ ok resp)
        × (do_forward C W state (enclave_network m) elapsed_ms method path headers body before
            ≡ (reconstruct C W resp, counted elapsed_ms before))
  unfolding do_forward forward_bytes enclave_network
  do_forward-dispatch m state elapsed_ms method path headers body before c =
      let env = envelope_of C W method path headers body in
      let (resp, a) = Served-answers env m (dispatch C env m) (dispatch-Served C env m) in
      let (resp_bytes, e) = C.to_vec-answers (response_value C resp) in
      let (small, read) = c.comes_back resp resp_bytes a e in
      let handled =
        handle_conn-dispatch m (dispatch C env m).1 env resp c.req_bytes resp_bytes c.is_small
          c.is_read (ap (λ r. (r, (dispatch C env m).1)) a) e in
      (
        resp,
        a,
        ap
              (forward_bytes C W state (enclave_network m) elapsed_ms
                (record before { requests = before.requests + 1 }))
              c.is_written
            ∙ ap
                (λ (out : Result Bytes Bytes × Machine C).
                  reply_of C W state (some (replies (written out.0))) (counted elapsed_ms before))
                handled
            ∙ reply_of-ok state (replies (write_framed resp_bytes)) (counted elapsed_ms before) resp
                (exchange_frame state resp resp_bytes small read),
      )
