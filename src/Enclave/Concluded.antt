-- ===== src/Enclave/Concluded.antt =====
-- The tail of a session: its proof is signed and appended.
use pzd.Base.{ℕ, ◌-◌, ◌^◌, ◌%◌, ◌≡◌, Bytes, codes, refl}
use pzd.Base.Result.{Result, ok}
use pzd.Json.{Value}
use pzd.Ledger.{append}
use pzd.Enclave.Crates.{Crates}
use pzd.Enclave.Wire.{ProofStatement, SignedProof, statement_value, canonical_json-answers}
use pzd.Enclave.Machine.{Machine, Act, pure, ◌>>=◌, >>=-ok, current, elapsed_us}
use pzd.Enclave.Session.{sign_proof, append_proof}
use pzd.Enclave.Receipts.{Vouched, Receipt, append_proof-answers}

module _ (C : Crates) where
  -- The tail that `fail` and a successful session share.
  abbrev pub conclude : ProofStatement → ℕ → (SignedProof → Value → ℕ → Value) → Act C Value
  conclude stmt t0 answer = do
    proof ← sign_proof C stmt
    receipt ← append_proof C proof
    total ← elapsed_us C t0
    pure (answer proof receipt total)

  pub record Concluded (stmt : ProofStatement) (answer : SignedProof → Value → ℕ → Value)
      (m : Machine C) (out : Result Bytes Value × Machine C) : Type 0 where
    pub proof : SignedProof
    pub receipt : Value
    pub total : ℕ
    pub w : C.World
    pub states : proof.statement ≡ stmt
    pub signed : Vouched C m.state.proof_sk (statement_value proof.statement) proof.signature_b64
    pub received : Receipt C m.state.proof_sk m.state.ledger proof receipt
    pub runs : out ≡ (
      ok (answer proof receipt total),
      record {
        state = record m.state { ledger = (append C.sha m.state.ledger received.entry).0 };
        world = w;
      },
    )

  pub conclude-answers :
      (stmt : ProofStatement) (t0 : ℕ) (answer : SignedProof → Value → ℕ → Value) (m : Machine C)
      → Concluded stmt answer m (conclude stmt t0 answer m)
  unfolding sign_proof elapsed_us current
  conclude-answers stmt t0 answer m =
      let (bytes, e) = canonical_json-answers C (statement_value stmt) in
      let proof : SignedProof = record {
        statement = stmt;
        signer_key_id = codes "enclave-proof-v1";
        signature_b64 = C.base64_encode (C.sign m.state.proof_sk bytes);
      } in
      let (receipt, w, r, e') = append_proof-answers C proof m in
      record {
        proof = proof;
        receipt = receipt;
        total = ((C.read_instant w).0 - t0) % 2 ^ 64;
        w = (C.read_instant w).1;
        states = refl;
        signed = record {
          canonical = bytes;
          signature = C.sign m.state.proof_sk bytes;
          is_canonical = e;
          encoded = refl;
          accepted = C.verify-sign m.state.proof_sk bytes;
        };
        received = r;
        runs = rw e (
            >>=-ok (append_proof C proof)
              (λ receipt. do total ← elapsed_us C t0; pure (answer proof receipt total)) m _ receipt
              e');
      }
