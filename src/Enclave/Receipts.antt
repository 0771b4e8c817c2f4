-- ===== src/Enclave/Receipts.antt =====
-- What the enclave signs, and the receipt of an appended proof.
use pzd.Base.{ℕ, ◌+◌, ◌<◌, ◌≡◌, arith, true, List, some, Bytes, refl, sym, ap, ◌∙◌}
use mathlib.Core.Path.{subst}
use pzd.Base.Result.{ok}
use pzd.Json.{Value}
use pzd.Ledger.{
  Hash, TransparencyLog, leaf_hash, append, size, root, leaf_at, inclusion_path, verify_inclusion,
}
use pzd.Ledger.Split.{Fits}
use pzd.Ledger.Log.{append_lem, queries_answer}
use pzd.Ledger.Verify.{verify_inclusion-inclusion_path}
use pzd.Enclave.Crates.{Crates}
use pzd.Enclave.Wire.{
  SignedProof, CheckpointStatement, SignedCheckpoint, checkpoint_statement_value, proof_value,
  canonical_json, canonical_json-answers, receipt_value,
}
use pzd.Enclave.Machine.{Machine, pure, sign_checkpoint, current, now_secs, >>=-ok}
use pzd.Enclave.Session.{append_proof, append_entry}

module _ (C : Crates) where
  -- The signature, in base64, is one of the value's canonical form, which the public key of `sk` accepts.
  pub record Vouched (sk : Bytes) (v : Value) (signature_b64 : Bytes) : Type 0 where
    pub canonical : Bytes
    pub signature : Bytes
    pub is_canonical : canonical_json C v ≡ ok canonical
    pub encoded : signature_b64 ≡ C.base64_encode signature
    pub accepted : C.verify (C.verifying_key sk) canonical signature ≡ true

  -- A checkpoint of `n` leaves with root `r`, signed with `sk`.
  pub record Vouches (sk : Bytes) (n : ℕ) (r : Hash) (cp : SignedCheckpoint) : Type 0 where
    pub sized : cp.size ≡ n
    pub rooted : cp.root_hex ≡ C.hex_encode r
    pub vouched :
        Vouched sk
          (checkpoint_statement_value
            (record { size = n; root_hex = C.hex_encode r; timestamp = cp.timestamp }))
          cp.checkpoint_signature_b64

  -- Nothing but the machine's world differs.
  abbrev pub moved : Machine C → C.World → Machine C
  moved m w = record { state = m.state; world = w }

  pub sign_checkpoint-answers :
      (n : ℕ) (r : Hash) (m : Machine C)
      → (cp : SignedCheckpoint) × (w : C.World) × (sign_checkpoint C n r m ≡ (ok cp, moved m w))
        × Vouches m.state.proof_sk n r cp
  unfolding sign_checkpoint current now_secs
  sign_checkpoint-answers n r m =
      let t = (C.read_clock m.world).0 in
      let w = (C.read_clock m.world).1 in
      let st : CheckpointStatement = record {
        size = n;
        root_hex = C.hex_encode r;
        timestamp = t;
      } in
      let (bytes, e) = canonical_json-answers C (checkpoint_statement_value st) in
      let sig = C.sign m.state.proof_sk bytes in
      let cp : SignedCheckpoint = record {
        size = n;
        root_hex = C.hex_encode r;
        timestamp = t;
        checkpoint_signature_b64 = C.base64_encode sig;
      } in
      (
        cp,
        w,
        rw e refl,
        record {
          sized = refl;
          rooted = refl;
          vouched = record {
            canonical = bytes;
            signature = sig;
            is_canonical = e;
            encoded = refl;
            accepted = C.verify-sign m.state.proof_sk bytes;
          };
        },
      )

  -- The receipt of a proof that was appended to `log`: its place, its leaf, an audit path and a signed
  -- checkpoint of the new log, to which the path leads.
  pub record Receipt (sk : Bytes) (log : TransparencyLog) (proof : SignedProof) (receipt : Value)
      : Type 0 where
    pub entry : Bytes
    pub path : List Hash
    pub checkpoint : SignedCheckpoint
    pub is_entry : canonical_json C (proof_value proof) ≡ ok entry
    pub is_receipt : receipt ≡ receipt_value C (size log) (leaf_hash C.sha entry) path checkpoint
    pub vouches : Vouches sk (size log + 1) (root C.sha (append C.sha log entry).0) checkpoint
    pub verifies :
        Fits (size log + 1)
        → verify_inclusion C.sha
            (leaf_hash C.sha entry)
            (size log)
            (size log + 1)
            path
            (root C.sha (append C.sha log entry).0)
          ≡ true

  -- The run of `append_proof`, from what its queries answer.
  append_proof-run :
      (proof : SignedProof) (m : Machine C) (entry : Bytes) (log : TransparencyLog) (index : ℕ)
      (leaf : Hash) (path : List Hash) (cp : SignedCheckpoint) (w : C.World)
      → canonical_json C (proof_value proof) ≡ ok entry
      → append C.sha m.state.ledger entry ≡ (log, index)
      → leaf_at log index ≡ some leaf
      → inclusion_path C.sha log index ≡ some path
      → sign_checkpoint C
          (size log)
          (root C.sha log)
          (record { state = record m.state { ledger = log }; world = m.world })
        ≡ (ok cp, record { state = record m.state { ledger = log }; world = w })
      → append_proof C proof m ≡ (
        ok (receipt_value C index leaf path cp),
        record { state = record m.state { ledger = log }; world = w },
      )
  unfolding append_proof append_entry current
  append_proof-run proof m entry log index leaf path cp w e a l p s =
      rw (e, a, l, p)
        (>>=-ok (sign_checkpoint C (size log) (root C.sha log))
          (λ checkpoint. pure (receipt_value C index leaf path checkpoint)) _ _ cp s)

  pub append_proof-answers :
      (proof : SignedProof) (m : Machine C)
      → (receipt : Value) × (w : C.World) × (r : Receipt m.state.proof_sk m.state.ledger proof
          receipt)
        × (append_proof C proof m ≡ (
          ok receipt,
          record {
            state = record m.state { ledger = (append C.sha m.state.ledger r.entry).0 };
            world = w;
          },
        ))
  append_proof-answers proof m =
      let (entry, e) = canonical_json-answers C (proof_value proof) in
      let log : TransparencyLog = (append C.sha m.state.ledger entry).0 in
      let (at, grown, leaf, roots, leaves) = append_lem C.sha m.state.ledger entry in
      let below : size m.state.ledger < size log = omega (arith, grown) in
      let (path, p) = ((queries_answer C.sha log (size m.state.ledger)).0 below).1 in
      let leaf' : leaf_at log (size m.state.ledger) ≡ some (leaf_hash C.sha entry) =
        ap (leaf_at log) (sym at) ∙ leaf in
      let m1 : Machine C = record { state = record m.state { ledger = log }; world = m.world } in
      let (cp, w, s, v) = sign_checkpoint-answers (size log) (root C.sha log) m1 in
      let index : ℕ = size m.state.ledger in
      (
        receipt_value C index (leaf_hash C.sha entry) path cp,
        w,
        record {
          entry = entry;
          path = path;
          checkpoint = cp;
          is_entry = e;
          is_receipt = refl;
          vouches = subst (λ n. Vouches m.state.proof_sk n (root C.sha log) cp) grown v;
          verifies = λ fits.
              subst
                (λ n.
                  verify_inclusion C.sha (leaf_hash C.sha entry) index n path (root C.sha log)
                  ≡ true)
                grown
                (verify_inclusion-inclusion_path C.sha log index (leaf_hash C.sha entry) path
                  (subst Fits (sym grown) fits) leaf' p);
        },
        append_proof-run proof m entry log index (leaf_hash C.sha entry) path cp w e
            (ap (λ i. (log, i)) at) leaf' p s,
      )
