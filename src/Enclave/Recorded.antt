-- ===== src/Enclave/Recorded.antt =====
-- What a session leaves behind: `process_and_delete` on every branch.
use pzd.Base.{
  ℕ, ◌+◌, ◌^◌, ◌%◌, ◌≡◌, Bool, true, false, none, some, [], ◌∷◌, Bytes, codes, refl, sym, ap, ◌∙◌,
  bytes_eq,
}
use mathlib.Core.Path.{subst}
use pzd.Base.Result.{Result, ok, err}
use pzd.Json.{Value, json, field, ◌↦:◌, bool, string, number}
use pzd.Ledger.{append}
use pzd.Enclave.Crates.{Crates}
use pzd.Enclave.Wire.{ProofStatement, SignedProof, statement_value, proof_value}
use pzd.Enclave.Machine.{
  EnclaveState, Machine, current, now_secs, random_hex, instant_now, fetch_add,
}
use pzd.Enclave.Admit.{Admitted, Refusal, admit}
use pzd.Enclave.Session.{
  Stamp, failure_stamp, success_stamp, failure_statement, success_statement, zeroization_report,
  fail, finish, settle, process_and_delete,
}
use pzd.Enclave.Receipts.{Vouched, Receipt}
use pzd.Enclave.Concluded.{Concluded, conclude-answers}

module _ (C : Crates) where
  -- What the statement of a session says of its end: the code of a refusal or the model's answer, and
  -- whether the input was read and wiped.
  abbrev pub Concludes : Result Refusal Admitted → ProofStatement → Type 0
  Concludes (err r) stmt =
      (stmt.success ≡ false)
      × (stmt.error_code ≡ some r.code)
      × (stmt.commitment_hex ≡ r.commitment)
      × (stmt.processor_id ≡ r.processor)
      × (stmt.zeroization_report ≡ zeroization_report C r.input_wiped false)
      × (stmt.result_hash_hex ≡ none)
  Concludes (ok a) stmt =
      (stmt.success ≡ true)
      × (stmt.error_code ≡ none)
      × (stmt.commitment_hex ≡ a.req.commitment_hex)
      × (stmt.processor_id ≡ a.processor)
      × (stmt.zeroization_report ≡ zeroization_report C true true)
      × ((bytes : Bytes) × (C.to_vec a.upstream_resp ≡ ok bytes)
          × (stmt.result_hash_hex ≡ some (C.hex_encode (C.sha.digest bytes))))

  abbrev pub succeeds : Result Refusal Admitted → Bool
  succeeds (err r) = false
  succeeds (ok a) = true

  -- One session: it answers with a signed proof of its end and a receipt, it counts one up, and the log
  -- grows by the proof.
  pub record Recorded (verdict : Result Refusal Admitted) (tenant : Bytes) (s : EnclaveState)
      (out : Result Bytes Value × Machine C) : Type 0 where
    pub answer : Value
    pub proof : SignedProof
    pub receipt : Value
    pub answers : out.0 ≡ ok answer
    pub shows_ok : field (codes "ok") answer ≡ some (bool (succeeds verdict))
    pub shows_proof : field (codes "proof") answer ≡ some (proof_value proof)
    pub shows_receipt : field (codes "receipt") answer ≡ some receipt
    pub concludes : Concludes verdict proof.statement
    pub for_tenant : proof.statement.tenant_id ≡ tenant
    pub numbered : proof.statement.counter ≡ (s.counter + 1) % 2 ^ 64
    pub signed : Vouched C s.proof_sk (statement_value proof.statement) proof.signature_b64
    pub received : Receipt C s.proof_sk s.ledger proof receipt
    pub left : out.1.state ≡ record s {
      counter = (s.counter + 1) % 2 ^ 64;
      ledger = (append C.sha s.ledger received.entry).0;
    }

  -- The machine with the next number of a session.
  abbrev counted : Machine C → C.World → Machine C
  counted m w = record {
    state = record m.state { counter = (m.state.counter + 1) % 2 ^ 64 };
    world = w;
  }

  -- An answer of a session holds its flag, its proof and its receipt.
  record Shows (flag : Bool) (answer : SignedProof → Value → ℕ → Value) : Type 0 where
    ok_field :
        (p : SignedProof) (r : Value) (t : ℕ) → field (codes "ok") (answer p r t) ≡ some (bool flag)
    proof_field :
        (p : SignedProof) (r : Value) (t : ℕ)
        → field (codes "proof") (answer p r t) ≡ some (proof_value p)
    receipt_field :
        (p : SignedProof) (r : Value) (t : ℕ) → field (codes "receipt") (answer p r t) ≡ some r

  Concluded-Recorded :
      (verdict : Result Refusal Admitted) (tenant : Bytes) (m : Machine C) (w : C.World)
      (stmt : ProofStatement) (answer : SignedProof → Value → ℕ → Value)
      (out : Result Bytes Value × Machine C)
      → Concluded C stmt answer (counted m w) out
      → Shows (succeeds verdict) answer
      → Concludes verdict stmt
      → stmt.tenant_id ≡ tenant
      → stmt.counter ≡ (m.state.counter + 1) % 2 ^ 64
      → Recorded verdict tenant m.state out
  Concluded-Recorded verdict tenant m w stmt answer out c shows ends owner counts = record {
    answer = answer c.proof c.receipt c.total;
    proof = c.proof;
    receipt = c.receipt;
    answers = ap (λ o. o.0) c.runs;
    shows_ok = shows.ok_field c.proof c.receipt c.total;
    shows_proof = shows.proof_field c.proof c.receipt c.total;
    shows_receipt = shows.receipt_field c.proof c.receipt c.total;
    concludes = subst (Concludes verdict) (sym c.states) ends;
    for_tenant = ap (λ s. s.tenant_id) c.states ∙ owner;
    numbered = ap (λ s. s.counter) c.states ∙ counts;
    signed = c.signed;
    received = c.received;
    left = ap (λ o. o.1.state) c.runs;
  }

  fail-Recorded :
      (r : Refusal) (tenant : Bytes) (t0 : ℕ) (m : Machine C)
      → Recorded (err r) tenant m.state (fail C r tenant t0 m)
  unfolding fail failure_stamp fetch_add random_hex now_secs current json field failure_statement
      bytes_eq
  fail-Recorded r tenant t0 m =
      let (b1, w1) = C.fill_bytes 16 m.world in
      let (b2, w2) = C.fill_bytes 16 w1 in
      let (t, w3) = C.read_clock w2 in
      let stamp : Stamp = record {
        proof_id = C.hex_encode b1;
        session_id = C.hex_encode b2;
        counter = (m.state.counter + 1) % 2 ^ 64;
        timestamp = t;
      } in
      let stmt : ProofStatement = failure_statement C (counted m w3).state r tenant stamp in
      let answer : SignedProof → Value → ℕ → Value = λ proof receipt total. json (
        (codes "ok" ↦: bool false)
        ∷ (codes "error" ↦: string r.code)
        ∷ (codes "proof" ↦: proof_value proof)
        ∷ (codes "receipt" ↦: receipt)
        ∷ (codes "timings_us" ↦: json ((codes "total" ↦: number total) ∷ []))
        ∷ []) in
      Concluded-Recorded (err r) tenant m w3 stmt answer _
        (conclude-answers C stmt t0 answer (counted m w3))
        (record {
          ok_field = λ p v n. refl;
          proof_field = λ p v n. refl;
          receipt_field = λ p v n. refl;
        })
        (refl, refl, refl, refl, refl, refl) refl refl

  finish-Recorded :
      (a : Admitted) (tenant : Bytes) (t0 : ℕ) (m : Machine C)
      → Recorded (ok a) tenant m.state (finish C a tenant t0 m)
  unfolding finish success_stamp fetch_add random_hex now_secs current json field success_statement
      bytes_eq
  finish-Recorded a tenant t0 m =
      let (bytes, e) = C.to_vec-answers a.upstream_resp in
      let (t, w1) = C.read_clock m.world in
      let (b1, w2) = C.fill_bytes 16 w1 in
      let (b2, w3) = C.fill_bytes 16 w2 in
      let stamp : Stamp = record {
        proof_id = C.hex_encode b1;
        session_id = C.hex_encode b2;
        counter = (m.state.counter + 1) % 2 ^ 64;
        timestamp = t;
      } in
      let stmt : ProofStatement =
        success_statement C (counted m w3).state a tenant (C.hex_encode (C.sha.digest bytes))
          stamp in
      let answer : SignedProof → Value → ℕ → Value = λ proof receipt total. json (
        (codes "ok" ↦: bool true)
        ∷ (codes "model_response" ↦: a.upstream_resp)
        ∷ (codes "proof" ↦: proof_value proof)
        ∷ (codes "receipt" ↦: receipt)
        ∷ (codes "timings_us" ↦: json ((codes "total" ↦: number total) ∷ []))
        ∷ []) in
      rw e (
        Concluded-Recorded (ok a) tenant m w3 stmt answer _
          (conclude-answers C stmt t0 answer (counted m w3))
          (record {
            ok_field = λ p v n. refl;
            proof_field = λ p v n. refl;
            receipt_field = λ p v n. refl;
          })
          (refl, refl, refl, refl, refl, (bytes, e, refl)) refl refl)

  settle-Recorded :
      (v : Result Refusal Admitted) (tenant : Bytes) (t0 : ℕ) (m : Machine C)
      → Recorded v tenant m.state (settle C v tenant t0 m)
  unfolding settle
  settle-Recorded (err r) tenant t0 m = fail-Recorded r tenant t0 m
  settle-Recorded (ok a) tenant t0 m = finish-Recorded a tenant t0 m

  -- Every session, whatever its body, answers and leaves one record: it counts one up (mod 2^64), its
  -- statement carries the new number, its tenant, and either the code, the commitment and the wiping
  -- of the refused request or the hash of the model's answer, the statement's signature is accepted under the
  -- enclave's proof key, the log grows by exactly the canonical proof, and the answer shows the flag,
  -- the proof and its receipt. Nothing else of the state changes.
  pub process_and_delete-Recorded :
      (body tenant : Bytes) (m : Machine C)
      → Recorded
          (admit C m.state.channel_sk m.state.policy body)
          tenant
          m.state
          (process_and_delete C body tenant m)
  unfolding process_and_delete instant_now current
  process_and_delete-Recorded body tenant m =
      settle-Recorded (admit C m.state.channel_sk m.state.policy body) tenant
        (C.read_instant m.world).0 (record { state = m.state; world = (C.read_instant m.world).1 })
