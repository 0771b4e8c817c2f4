-- ===== src/Enclave/Halves.antt =====
-- The two halves of a session in services/pzdr-enclave/src/main.rs: up to `counter.fetch_add` with the
-- statement that carries the number, and from the signature to the append under the lock.
use pzd.Base.{ℕ, ◌+◌, ◌%◌, ◌^◌, ◌≡◌, true, false, [], ◌∷◌, Bytes, codes, refl, sym}
use mathlib.Core.Path.{Path, ◌∙◌}
use pzd.Base.Result.{Result, ok, err}
use pzd.Json.{Value, json, ◌↦:◌, bool, string, number}
use pzd.Ledger.{append}
use pzd.Enclave.Crates.{Crates}
use pzd.Enclave.Wire.{
  ProofStatement, SignedProof, statement_value, proof_value, canonical_json-answers,
}
use pzd.Enclave.Machine.{
  Machine, Act, pure, ◌>>=◌, >>=-ok, try, current, now_secs, random_hex, elapsed_us, fetch_add,
}
use pzd.Enclave.Admit.{Admitted, Refusal}
use pzd.Enclave.Session.{
  Stamp, sign_proof, append_proof, failure_stamp, success_stamp, failure_statement,
  success_statement, fail, finish, settle,
}
use pzd.Enclave.Receipts.{Vouched, Receipt, append_proof-answers}

module _ (C : Crates) where
  -- `fail` or the successful session up to its statement.
  unfoldable pub begin : Result Refusal Admitted → Bytes → Act C ProofStatement
  unfolding failure_stamp success_stamp
  begin (err r) tenant = do
    stamp ← failure_stamp C
    self ← current C
    pure (failure_statement C self r tenant stamp)
  begin (ok a) tenant = do
    result_bytes ← try (C.to_vec a.upstream_resp)
    stamp ← success_stamp C
    self ← current C
    pure (success_statement C self a tenant (C.hex_encode (C.sha.digest result_bytes)) stamp)

  unfoldable pub complete : ProofStatement → Act C (SignedProof × Value)
  unfolding sign_proof append_proof
  complete stmt = do
    proof ← sign_proof C stmt
    receipt ← append_proof C proof
    pure (proof, receipt)

  -- The answer of a session.
  unfoldable pub answer_of : Result Refusal Admitted → SignedProof → Value → ℕ → Value
  answer_of (err r) proof receipt total = json (
      (codes "ok" ↦: bool false)
      ∷ (codes "error" ↦: string r.code)
      ∷ (codes "proof" ↦: proof_value proof)
      ∷ (codes "receipt" ↦: receipt)
      ∷ (codes "timings_us" ↦: json ((codes "total" ↦: number total) ∷ []))
      ∷ [])
  answer_of (ok a) proof receipt total = json (
      (codes "ok" ↦: bool true)
      ∷ (codes "model_response" ↦: a.upstream_resp)
      ∷ (codes "proof" ↦: proof_value proof)
      ∷ (codes "receipt" ↦: receipt)
      ∷ (codes "timings_us" ↦: json ((codes "total" ↦: number total) ∷ []))
      ∷ [])

  -- What is left of it behind the append.
  unfoldable pub close : Result Refusal Admitted → ℕ → SignedProof × Value → Act C Value
  unfolding answer_of
  close v t0 (proof, receipt) = do total ← elapsed_us C t0; pure (answer_of v proof receipt total)

  -- The machine with the next number of a session.
  abbrev pub counted : Machine C → C.World → Machine C
  counted m w = record {
    state = record m.state { counter = (m.state.counter + 1) % 2 ^ 64 };
    world = w;
  }

  complete->>= :
      {A : Type 0} (stmt : ProofStatement) (g : SignedProof × Value → Act C A) (m : Machine C)
      → (complete stmt >>= g) m
        ≡ (sign_proof C stmt >>= λ proof. (append_proof C proof >>= λ receipt. g (proof, receipt)))
            m
  unfolding complete
  complete->>= {A = A} stmt g m = signed (sign_proof C stmt m)
    where
      recorded :
          (proof : SignedProof) (p : Result Bytes Value × Machine C)
          → Path
              (Result Bytes A × Machine C)
              (let q : Result Bytes (SignedProof × Value) × Machine C = elim p.0 [
                | ok r ↦ (ok (proof, r), p.1)
                | err e ↦ (err e, p.1)
              ] in
                elim q.0 [ ok a ↦ g a q.1 | err e ↦ (err e, q.1) ])
              (elim p.0 [ ok r ↦ g (proof, r) p.1 | err e ↦ (err e, p.1) ])
      recorded proof (ok r, m') = refl
      recorded proof (err e, m') = refl

      signed :
          (p : Result Bytes SignedProof × Machine C)
          → Path
              (Result Bytes A × Machine C)
              (let q : Result Bytes (SignedProof × Value) × Machine C = elim p.0 [
                | ok proof ↦ (append_proof C proof >>= λ receipt. pure (proof, receipt)) p.1
                | err e ↦ (err e, p.1)
              ] in
                elim q.0 [ ok a ↦ g a q.1 | err e ↦ (err e, q.1) ])
              (elim p.0 [
                | ok proof ↦ (append_proof C proof >>= λ receipt. g (proof, receipt)) p.1
                | err e ↦ (err e, p.1)
              ])
      signed (ok proof, m') = recorded proof (append_proof C proof m')
      signed (err e, m') = refl

  -- The first half, alone and at the front of the whole session.
  begin-run :
      (v : Result Refusal Admitted) (tenant : Bytes) (t0 : ℕ) (m : Machine C)
      → (stmt : ProofStatement) × (w : C.World) × (begin v tenant m ≡ (ok stmt, counted m w))
        × (settle C v tenant t0 m
            ≡ (sign_proof C stmt >>= λ proof.
                  (append_proof C proof >>= λ receipt. close v t0 (proof, receipt)))
                (counted m w))
        × (stmt.counter ≡ (m.state.counter + 1) % 2 ^ 64)
  unfolding settle fail finish begin failure_stamp success_stamp fetch_add random_hex now_secs
      current answer_of close failure_statement success_statement
  begin-run (err r) tenant t0 m =
      let (b1, w1) = C.fill_bytes 16 m.world in
      let (b2, w2) = C.fill_bytes 16 w1 in
      let (t, w3) = C.read_clock w2 in
      let stamp : Stamp = record {
        proof_id = C.hex_encode b1;
        session_id = C.hex_encode b2;
        counter = (m.state.counter + 1) % 2 ^ 64;
        timestamp = t;
      } in
      let stmt : ProofStatement = failure_statement C (counted m w3).state r tenant stamp in
      (stmt, w3, refl, refl, refl)
  begin-run (ok a) tenant t0 m =
      let (bytes, e) = C.to_vec-answers a.upstream_resp in
      let (t, w1) = C.read_clock m.world in
      let (b1, w2) = C.fill_bytes 16 w1 in
      let (b2, w3) = C.fill_bytes 16 w2 in
      let stamp : Stamp = record {
        proof_id = C.hex_encode b1;
        session_id = C.hex_encode b2;
        counter = (m.state.counter + 1) % 2 ^ 64;
        timestamp = t;
      } in
      let stmt : ProofStatement =
        success_statement C (counted m w3).state a tenant (C.hex_encode (C.sha.digest bytes))
          stamp in
      (stmt, w3, rw e refl, rw e refl, refl)

  -- A session is its first half, its second half, and the reading of the clock for the answer.
  pub settle-halves :
      (v : Result Refusal Admitted) (tenant : Bytes) (t0 : ℕ) (m : Machine C)
      → settle C v tenant t0 m ≡ (begin v tenant >>= λ stmt. (complete stmt >>= close v t0)) m
  settle-halves v tenant t0 m =
      let (stmt, w, begun, whole, c) = begin-run v tenant t0 m in
      whole
      ∙ sym (complete->>= stmt (close v t0) (counted m w))
      ∙ sym (
          >>=-ok (begin v tenant) (λ stmt. complete stmt >>= close v t0) m (counted m w) stmt begun)

  -- The first half answers: it takes the next number, and its statement carries it.
  pub begin-answers :
      (v : Result Refusal Admitted) (tenant : Bytes) (m : Machine C)
      → (stmt : ProofStatement) × (w : C.World) × (begin v tenant m ≡ (ok stmt, counted m w))
        × (stmt.counter ≡ (m.state.counter + 1) % 2 ^ 64)
  begin-answers v tenant m =
      let (stmt, w, begun, whole, c) = begin-run v tenant 0 m in (stmt, w, begun, c)

  -- The second half answers: it signs the statement and appends the signed proof.
  pub complete-answers :
      (stmt : ProofStatement) (m : Machine C)
      → (proof : SignedProof) × (receipt : Value) × (w : C.World) × (r : Receipt C m.state.proof_sk
          m.state.ledger proof receipt)
        × (complete stmt m ≡ (
          ok (proof, receipt),
          record {
            state = record m.state { ledger = (append C.sha m.state.ledger r.entry).0 };
            world = w;
          },
        ))
        × (proof.statement ≡ stmt)
        × Vouched C m.state.proof_sk (statement_value proof.statement) proof.signature_b64
  unfolding complete sign_proof current
  complete-answers stmt m =
      let (bytes, e) = canonical_json-answers C (statement_value stmt) in
      let proof : SignedProof = record {
        statement = stmt;
        signer_key_id = codes "enclave-proof-v1";
        signature_b64 = C.base64_encode (C.sign m.state.proof_sk bytes);
      } in
      let (receipt, w, r, e') = append_proof-answers C proof m in
      (
        proof,
        receipt,
        w,
        r,
        rw e (>>=-ok (append_proof C proof) (λ receipt. pure (proof, receipt)) m _ receipt e'),
        refl,
        record {
          canonical = bytes;
          signature = C.sign m.state.proof_sk bytes;
          is_canonical = e;
          encoded = refl;
          accepted = C.verify-sign m.state.proof_sk bytes;
        },
      )
