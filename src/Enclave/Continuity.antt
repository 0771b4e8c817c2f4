-- ===== src/Enclave/Continuity.antt =====
-- What a client that knows an earlier state of the log gets from the enclave after other requests.
use mathlib.Core.Path.{subst}
use pzd.Base.{ℕ, ◌^◌, ◌<◌, ◌≡◌, arith, true, List, some, sym, ◌∙◌}
use pzd.Base.Result.{ok}
use pzd.Ledger.{Hash, size, root, leaf_at, verify_inclusion, verify_consistency}
use pzd.Ledger.Split.{Fits}
use pzd.Ledger.Log.{root_at-size}
use pzd.Enclave.Crates.{Crates, VsockEnvelope}
use pzd.Enclave.Wire.{SignedCheckpoint, receipt_value}
use pzd.Enclave.Machine.{EnclaveState, Machine}
use pzd.Enclave.Queries.{ledger_proof, ledger_consistency}
use pzd.Enclave.Receipts.{Vouches, moved}
use pzd.Enclave.Answers.{consistency_value, ledger_proof_lem, ledger_consistency_lem}
use pzd.Enclave.Sessions.{Later, sessions, serve_all, serve_all-Later}

module _ (C : Crates) where
  -- The state was one of which the machine can prove that its log continues it: from the size and root that the
  -- log had then, under the same key.
  pub record Continues (s : EnclaveState) (m : Machine C) : Type 0 where
    pub path : List Hash
    pub from_checkpoint : SignedCheckpoint
    pub to_checkpoint : SignedCheckpoint
    pub world : C.World
    pub answers :
        ledger_consistency C (size s.ledger) m
        ≡ (ok (some (consistency_value C from_checkpoint to_checkpoint path)), moved C m world)
    pub vouches_from : Vouches C s.proof_sk (size s.ledger) (root C.sha s.ledger) from_checkpoint
    pub vouches_to :
        Vouches C s.proof_sk (size m.state.ledger) (root C.sha m.state.ledger) to_checkpoint
    pub verifies :
        verify_consistency C.sha
          (size s.ledger)
          (root C.sha s.ledger)
          (size m.state.ledger)
          (root C.sha m.state.ledger)
          path
        ≡ true

  -- A leaf of that state that the machine can prove to be in its log, where it was.
  pub record Includes (s : EnclaveState) (m : Machine C) (idx : ℕ) : Type 0 where
    pub leaf : Hash
    pub path : List Hash
    pub checkpoint : SignedCheckpoint
    pub world : C.World
    pub was_leaf : leaf_at s.ledger idx ≡ some leaf
    pub answers :
        ledger_proof C idx m
        ≡ (ok (some (receipt_value C idx leaf path checkpoint)), moved C m world)
    pub vouches : Vouches C s.proof_sk (size m.state.ledger) (root C.sha m.state.ledger) checkpoint
    pub verifies :
        verify_inclusion C.sha leaf idx (size m.state.ledger) path (root C.sha m.state.ledger)
        ≡ true

  Later-Continues :
      (k : ℕ) (s : EnclaveState) (m : Machine C)
      → Later C k s m.state
      → Fits (size m.state.ledger)
      → Continues s m
  Later-Continues k s m l fits =
      let (r, path, cp, cq, w, answers, e, from, to, verifies) =
        (ledger_consistency_lem C (size s.ledger) m).0 (omega (arith, l.grown)) in
      let then : some r ≡ some (root C.sha s.ledger) =
        sym e ∙ l.kept (size s.ledger) (omega arith) ∙ root_at-size C.sha s.ledger in
      let same : r ≡ root C.sha s.ledger = cc in
      record {
        path = path;
        from_checkpoint = cp;
        to_checkpoint = cq;
        world = w;
        answers = answers;
        vouches_from =
            subst (λ sk. Vouches C sk (size s.ledger) (root C.sha s.ledger) cp) l.same_keys.1
              (subst (λ r. Vouches C m.state.proof_sk (size s.ledger) r cp) same from);
        vouches_to =
            subst (λ sk. Vouches C sk (size m.state.ledger) (root C.sha m.state.ledger) cq)
              l.same_keys.1 to;
        verifies = rw (sym same) (verifies fits);
      }

  Later-Includes :
      (k : ℕ) (s : EnclaveState) (m : Machine C) (idx : ℕ)
      → Later C k s m.state
      → Fits (size m.state.ledger)
      → idx < size s.ledger
      → Includes s m idx
  Later-Includes k s m idx l fits below =
      let (leaf, path, cp, w, answers, e, vouches, verifies) =
        (ledger_proof_lem C idx m).0 (omega (arith, l.grown)) in
      record {
        leaf = leaf;
        path = path;
        checkpoint = cp;
        world = w;
        was_leaf = sym (l.same_leaves idx below) ∙ e;
        answers = answers;
        vouches =
            subst (λ sk. Vouches C sk (size m.state.ledger) (root C.sha m.state.ledger) cp)
              l.same_keys.1 vouches;
        verifies = verifies fits;
      }

  -- Whatever requests come between, while the log has fewer than 2^58 leaves: asked for the size that the log
  -- had before them, the enclave answers with checkpoints of the log then and now, signed with the same key,
  -- and a proof between them that the verifier accepts from the old root; and each leaf that the log had
  -- is answered at its index, with a path that the verifier accepts against the log now.
  pub serve_all-Continues :
      (envs : List VsockEnvelope) (m : Machine C)
      → m.state.counter < 2 ^ 64
      → Fits (size (serve_all C envs m).state.ledger)
      → Continues m.state (serve_all C envs m)
        × ((idx : ℕ) → idx < size m.state.ledger → Includes m.state (serve_all C envs m) idx)
  serve_all-Continues envs m h fits =
      let later = serve_all-Later C envs m h in
      (
        Later-Continues (sessions envs) m.state (serve_all C envs m) later fits,
        λ idx. Later-Includes (sessions envs) m.state (serve_all C envs m) idx later fits,
      )
