-- ===== src/Enclave/Answers.antt =====
-- What the enclave's queries of the log answer: the audit path of a leaf and the proof between two sizes,
-- with the checkpoints to check them against.
use pzd.Base.{ℕ, ◌≤◌, ◌<◌, ◌≡◌, true, List, [], ◌∷◌, none, some, codes, refl, ◌∙◌}
use pzd.Base.Result.{ok}
use pzd.Json.{Value, array, json, ◌↦:◌}
use pzd.Ledger.{
  Hash, size, root, leaf_at, root_at, inclusion_path, consistency_path, verify_inclusion,
  verify_consistency,
}
use pzd.Ledger.Split.{Fits}
use pzd.Ledger.Log.{queries_answer}
use pzd.Ledger.Verify.{verify_inclusion-inclusion_path, verify_consistency-consistency_path}
use pzd.Enclave.Crates.{Crates}
use pzd.Enclave.Wire.{SignedCheckpoint, checkpoint_value, receipt_value, encode_hashes}
use pzd.Enclave.Machine.{Machine, pure, ◌>>=◌, >>=-ok, current, sign_checkpoint}
use pzd.Enclave.Queries.{ledger_proof, ledger_consistency}
use pzd.Enclave.Receipts.{Vouches, moved, sign_checkpoint-answers}

module _ (C : Crates) where
  ledger_proof-run :
      (idx : ℕ) (m : Machine C) (leaf : Hash) (path : List Hash) (cp : SignedCheckpoint)
      (w : C.World)
      → leaf_at m.state.ledger idx ≡ some leaf
      → inclusion_path C.sha m.state.ledger idx ≡ some path
      → sign_checkpoint C (size m.state.ledger) (root C.sha m.state.ledger) m ≡ (ok cp, moved C m w)
      → ledger_proof C idx m ≡ (ok (some (receipt_value C idx leaf path cp)), moved C m w)
  unfolding ledger_proof current
  ledger_proof-run idx m leaf path cp w l p s =
      rw (l, p)
        (>>=-ok (sign_checkpoint C (size m.state.ledger) (root C.sha m.state.ledger))
          (λ checkpoint. pure (some (receipt_value C idx leaf path checkpoint))) m _ cp s)

  ledger_proof-none :
      (idx : ℕ) (m : Machine C)
      → leaf_at m.state.ledger idx ≡ none
      → ledger_proof C idx m ≡ (ok none, m)
  unfolding ledger_proof current
  ledger_proof-none idx m l = rw l refl

  -- An index below the size of the log is answered with its leaf, an audit path and a signed checkpoint
  -- of the log, against which the verifier accepts the path while the log has fewer than 2^58 leaves.
  -- Any other index is answered with nothing. The state stays as it was.
  pub ledger_proof_lem :
      (idx : ℕ) (m : Machine C)
      → (idx < size m.state.ledger
          → (leaf : Hash) × (path : List Hash) × (cp : SignedCheckpoint) × (w : C.World)
            × (ledger_proof C idx m ≡ (ok (some (receipt_value C idx leaf path cp)), moved C m w))
            × (leaf_at m.state.ledger idx ≡ some leaf)
            × Vouches C m.state.proof_sk (size m.state.ledger) (root C.sha m.state.ledger) cp
            × (Fits (size m.state.ledger)
                → verify_inclusion C.sha leaf idx
                    (size m.state.ledger)
                    path
                    (root C.sha m.state.ledger)
                  ≡ true))
        × (size m.state.ledger ≤ idx → ledger_proof C idx m ≡ (ok none, m))
  ledger_proof_lem idx m =
      let log = m.state.ledger in
      let (inside, outside, old, beyond) = queries_answer C.sha log idx in
      (
        (λ below.
            let ((leaf, l), (path, p)) = inside below in
            let (cp, w, s, v) = sign_checkpoint-answers C (size log) (root C.sha log) m in
            (
              leaf,
              path,
              cp,
              w,
              ledger_proof-run idx m leaf path cp w l p s,
              l,
              v,
              λ fits. verify_inclusion-inclusion_path C.sha log idx leaf path fits l p,
            )),
        λ above. ledger_proof-none idx m (outside above).0,
      )

  -- The answer with two checkpoints and the proof between them.
  abbrev pub consistency_value : SignedCheckpoint → SignedCheckpoint → List Hash → Value
  consistency_value from_checkpoint to_checkpoint path = json (
      (codes "from_checkpoint" ↦: checkpoint_value from_checkpoint)
      ∷ (codes "to_checkpoint" ↦: checkpoint_value to_checkpoint)
      ∷ (codes "consistency_path" ↦: array (encode_hashes C path))
      ∷ [])

  ledger_consistency-run :
      (n : ℕ) (m : Machine C) (r : Hash) (path : List Hash) (cp cq : SignedCheckpoint)
      (w v : C.World)
      → root_at C.sha m.state.ledger n ≡ some r
      → consistency_path C.sha m.state.ledger n ≡ some path
      → sign_checkpoint C n r m ≡ (ok cp, moved C m w)
      → sign_checkpoint C (size m.state.ledger) (root C.sha m.state.ledger) (moved C m w)
        ≡ (ok cq, moved C m v)
      → ledger_consistency C n m ≡ (ok (some (consistency_value cp cq path)), moved C m v)
  unfolding ledger_consistency current
  ledger_consistency-run n m r path cp cq w v e p s t =
      rw (e, p)
        (>>=-ok (sign_checkpoint C n r)
            (λ from_checkpoint. do
              to_checkpoint ← sign_checkpoint C (size m.state.ledger) (root C.sha m.state.ledger)
              pure (some (consistency_value from_checkpoint to_checkpoint path)))
            m _ cp s
          ∙ >>=-ok (sign_checkpoint C (size m.state.ledger) (root C.sha m.state.ledger))
              (λ to_checkpoint. pure (some (consistency_value cp to_checkpoint path))) (moved C m w)
              _ cq t)

  ledger_consistency-none :
      (n : ℕ) (m : Machine C)
      → root_at C.sha m.state.ledger n ≡ none
      → ledger_consistency C n m ≡ (ok none, m)
  unfolding ledger_consistency current
  ledger_consistency-none n m e = rw e refl

  -- A size up to the log's is answered with a signed checkpoint of that size, one of the log as it is,
  -- and a proof that the verifier accepts between them while the log has fewer than 2^58 leaves. Any
  -- other size is answered with nothing. The state stays as it was.
  pub ledger_consistency_lem :
      (n : ℕ) (m : Machine C)
      → (n ≤ size m.state.ledger
          → (r : Hash) × (path : List Hash) × (cp : SignedCheckpoint) × (cq : SignedCheckpoint)
            × (w : C.World) × (ledger_consistency C n m
                ≡ (ok (some (consistency_value cp cq path)), moved C m w))
            × (root_at C.sha m.state.ledger n ≡ some r)
            × Vouches C m.state.proof_sk n r cp
            × Vouches C m.state.proof_sk (size m.state.ledger) (root C.sha m.state.ledger) cq
            × (Fits (size m.state.ledger)
                → verify_consistency C.sha n r
                    (size m.state.ledger)
                    (root C.sha m.state.ledger)
                    path
                  ≡ true))
        × (size m.state.ledger < n → ledger_consistency C n m ≡ (ok none, m))
  ledger_consistency_lem n m =
      let log = m.state.ledger in
      let (inside, outside, old, beyond) = queries_answer C.sha log n in
      (
        (λ upto.
            let ((r, e), (path, p)) = old upto in
            let (cp, w, s, v) = sign_checkpoint-answers C n r m in
            let (cq, w', t, v') =
              sign_checkpoint-answers C (size log) (root C.sha log) (moved C m w) in
            (
              r,
              path,
              cp,
              cq,
              w',
              ledger_consistency-run n m r path cp cq w w' e p s t,
              e,
              v,
              v',
              λ fits. verify_consistency-consistency_path C.sha log n r path fits e p,
            )),
        λ above. ledger_consistency-none n m (beyond above).0,
      )
