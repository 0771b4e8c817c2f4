-- ===== src/Enclave/Requests.antt =====
-- `dispatch` of main.rs on every request.
use pzd.Base.Text.{starts_with}
use pzd.Base.{
  ℕ, ◌≡◌, arith, Bool, true, false, ◌&&◌, Option, none, some, [], ◌∷◌, Bytes, codes, refl, sym, ap,
  ◌∙◌, bytes_eq, bytes_eq_refl, bytes_eq_sound, and_parts, if◌then◌else◌,
}
use mathlib.Core.Path.{subst}
use native.Mathlib.Decide.{dec_lt}
use pzd.Base.Result.{Result, ok}
use pzd.Json.{json, ◌↦:◌}
use pzd.Ledger.{size, root}
use pzd.Enclave.Crates.{Crates, VsockEnvelope}
use pzd.Enclave.Machine.{Machine, Act, pure, try, ◌>>=◌, >>=-ok, current, now_secs, sign_checkpoint}
use pzd.Enclave.Admit.{admit}
use pzd.Enclave.Wire.{canonical_json, checkpoint_value}
use pzd.Enclave.Queries.{
  publish_attestation, attest, attested, binding, ledger_root, ledger_proof, ledger_consistency,
}
use pzd.Enclave.Dispatch.{
  VsockResponse, attempt, json_resp, dispatch, serve_attestation, serve_inference, serve_root,
  serve_proof, serve_consistency, serve_index, serve_size, inference_resp, attestation_resp,
  root_path, attestation, body_of, tenant_of, inference, proof_prefix, consistency_prefix,
}
use pzd.Enclave.Session.{process_and_delete}
use pzd.Enclave.Receipts.{moved, sign_checkpoint-answers}
use pzd.Enclave.Recorded.{Recorded, process_and_delete-Recorded}
use pzd.Enclave.Answers.{ledger_proof_lem, ledger_consistency_lem}
use pzd.Enclave.Quiet.{Quiet, Still, >>=-Quiet, >>=-Still, attempt-Quiet, pure-Quiet}

-- The request of a session.
abbrev pub IsInference : VsockEnvelope → Type 0
IsInference env = (env.method ≡ codes "POST") × (env.path ≡ inference)

module _ (C : Crates) where
  publish_attestation-Still : Still (publish_attestation C)
  unfolding publish_attestation attest attested current now_secs
  publish_attestation-Still m =
      >>=-Still (try (canonical_json C (binding C m.state)))
        (λ user_data. do doc ← attest C user_data m.state.channel_pk; attested C m.state doc)
        (λ n. refl)
        (λ user_data.
          >>=-Still (attest C user_data m.state.channel_pk) (attested C m.state) (λ n. refl)
            (λ doc n. refl))
        m

  serve_attestation-Quiet : Quiet (serve_attestation C)
  unfolding serve_attestation
  serve_attestation-Quiet =
      >>=-Quiet (attempt (publish_attestation C)) _
        (attempt-Quiet (publish_attestation C) publish_attestation-Still)
        (λ r. pure-Quiet (attestation_resp C r))

  ledger_root-Quiet : Quiet (ledger_root C)
  unfolding ledger_root current
  ledger_root-Quiet m =
      let (cp, w, e, v) =
        sign_checkpoint-answers C (size m.state.ledger) (root C.sha m.state.ledger) m in
      (
        json ((codes "checkpoint" ↦: checkpoint_value cp) ∷ []),
        w,
        >>=-ok (sign_checkpoint C (size m.state.ledger) (root C.sha m.state.ledger))
            (λ checkpoint. pure (json ((codes "checkpoint" ↦: checkpoint_value checkpoint) ∷ []))) m
            (moved C m w) cp e,
      )

  serve_root-Quiet : Quiet (serve_root C)
  unfolding serve_root
  serve_root-Quiet =
      >>=-Quiet (ledger_root C) (λ v. pure (json_resp C 200 v)) ledger_root-Quiet
        (λ v. pure-Quiet _)

  ledger_proof-Quiet : (idx : ℕ) → Quiet (ledger_proof C idx)
  ledger_proof-Quiet idx m = elim (dec_lt idx (size m.state.ledger)) [
    | yes below ↦
        let (leaf, path, cp, w, e, l, v, fine) = (ledger_proof_lem C idx m).0 below in (_, w, e)
    | no above ↦ (none, m.world, (ledger_proof_lem C idx m).1 (omega arith))
  ]

  ledger_consistency-Quiet : (n : ℕ) → Quiet (ledger_consistency C n)
  ledger_consistency-Quiet n m = elim (dec_lt (size m.state.ledger) n) [
    | no upto ↦
        let (r, path, cp, cq, w, e, old, v, v', fine) =
          (ledger_consistency_lem C n m).0 (omega arith) in
        (_, w, e)
    | yes above ↦ (none, m.world, (ledger_consistency_lem C n m).1 above)
  ]

  serve_index-Quiet : (o : Option ℕ) → Quiet (serve_index C o)
  unfolding serve_index
  serve_index-Quiet none = pure-Quiet _
  serve_index-Quiet (some idx) =
      >>=-Quiet (ledger_proof C idx) _ (ledger_proof-Quiet idx) (λ found. pure-Quiet _)

  serve_size-Quiet : (o : Option ℕ) → Quiet (serve_size C o)
  unfolding serve_size
  serve_size-Quiet none = pure-Quiet _
  serve_size-Quiet (some n) =
      >>=-Quiet (ledger_consistency C n) _ (ledger_consistency-Quiet n) (λ found. pure-Quiet _)

  serve_proof-Quiet : (path : Bytes) → Quiet (serve_proof C path)
  unfolding serve_proof
  serve_proof-Quiet path = serve_index-Quiet _

  serve_consistency-Quiet : (path : Bytes) → Quiet (serve_consistency C path)
  unfolding serve_consistency
  serve_consistency-Quiet path = serve_size-Quiet _

  -- What a request does: a session that is answered with its value, or an answer that leaves the state.
  pub data Served (env : VsockEnvelope) (m : Machine C)
      : Result Bytes VsockResponse × Machine C → Type 0 where
    session :
        IsInference env
        → (m' : Machine C)
        → (r : Recorded C
            (admit C m.state.channel_sk m.state.policy (body_of C env))
            (tenant_of C env)
            m.state
            (process_and_delete C (body_of C env) (tenant_of C env) m))
        → m'.state ≡ (process_and_delete C (body_of C env) (tenant_of C env) m).1.state
        → Served env m (ok (json_resp C 200 r.answer), m')
    query :
        ¬ IsInference env
        → (resp : VsockResponse) (w : C.World) → Served env m (ok resp, moved C m w)

  if-cases :
      {A : Type 0} (P : A → Type 0) (b : Bool) (x y : A)
      → (b ≡ true → P x)
      → (b ≡ false → P y)
      → P (if b then x else y)
  if-cases P true x y f g = f refl
  if-cases P false x y f g = g refl

  query-Served :
      (env : VsockEnvelope) (m : Machine C) (act : Act C VsockResponse)
      → ¬ IsInference env
      → Quiet act
      → Served env m (act m)
  query-Served env m act other q =
      let (resp, w, e) = q m in subst (Served env m) (sym e) (query other resp w)

  session-Served :
      (env : VsockEnvelope) (m : Machine C)
      → IsInference env
      → Served env m (serve_inference C env m)
  unfolding serve_inference attempt inference_resp
  session-Served env m here =
      let out = process_and_delete C (body_of C env) (tenant_of C env) m in
      let r = process_and_delete-Recorded C (body_of C env) (tenant_of C env) m in
      subst (λ o. Served env m (ok (inference_resp C o), out.1)) (sym r.answers)
        (session here out.1 r refl)

  get_other :
      (env : VsockEnvelope) (b : Bool)
      → (bytes_eq env.method (codes "GET") && b) ≡ true
      → ¬ IsInference env
  get_other env b h (post, path) =
      let e : env.method ≡ codes "GET" =
        bytes_eq_sound env.method (codes "GET") (and_parts _ b h).0 in
      let clash : codes "POST" ≡ codes "GET" = sym post ∙ e in absurd (cc)

  -- Every request is answered. A `POST` of the inference path is a session, answered with status 200 and
  -- the session's value, also where its body is malformed or it is refused; any other request, well-formed or not, leaves the keys, the counter, the log
  -- and the policy as they were.
  pub dispatch-Served : (env : VsockEnvelope) (m : Machine C) → Served env m (dispatch C env m)
  unfolding dispatch
  dispatch-Served env m =
      if-cases P (bytes_eq env.method (codes "GET") && bytes_eq env.path attestation) _ _
        (λ h. query-Served env m _ (get_other env _ h) serve_attestation-Quiet)
        (λ f.
          if-cases P (bytes_eq env.method (codes "POST") && bytes_eq env.path inference) _ _
            (λ h.
              let (a, b) = and_parts _ _ h in
              session-Served env m (bytes_eq_sound _ _ a, bytes_eq_sound _ _ b))
            (λ no.
              let other : ¬ IsInference env = not_inference no in
              if-cases P (bytes_eq env.method (codes "GET") && bytes_eq env.path root_path) _ _
                (λ h. query-Served env m _ other serve_root-Quiet)
                (λ g.
                  if-cases P
                    (bytes_eq env.method (codes "GET") && starts_with proof_prefix env.path) _ _
                    (λ h. query-Served env m _ other (serve_proof-Quiet env.path))
                    (λ k.
                      if-cases P
                        (bytes_eq env.method (codes "GET")
                          && starts_with consistency_prefix env.path)
                        _ _ (λ h. query-Served env m _ other (serve_consistency-Quiet env.path))
                        (λ l. query other _ m.world)))))
    where
      P : Act C VsockResponse → Type 0
      P act = Served env m (act m)

      not_inference :
          (bytes_eq env.method (codes "POST") && bytes_eq env.path inference) ≡ false
          → ¬ IsInference env
      not_inference f (a, b) =
          let x : bytes_eq env.method (codes "POST") ≡ true =
            ap (λ t. bytes_eq t (codes "POST")) a ∙ bytes_eq_refl (codes "POST") in
          let y : bytes_eq env.path inference ≡ true =
            ap (λ t. bytes_eq t inference) b ∙ bytes_eq_refl inference in
          ground arith
