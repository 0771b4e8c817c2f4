-- ===== src/Enclave/Interleaving.antt =====
-- The runs of Enclave/Steps: what is true in every one of them, and the run of a session that no other one
-- interrupts.
use mathlib.Core.Path.{subst}
use pzd.Base.{ℕ, suc, ◌^◌, ◌<◌, ◌≡◌, arith, [], ◌∷◌, ◌++◌, Bytes, refl, sym, ap, ◌∙◌}
use pzd.Base.Result.{Result, ok}
use pzd.Json.{Value}
use pzd.Ledger.{append}
use pzd.Ledger.Log.{size-new}
use pzd.Enclave.Crates.{Crates}
use pzd.Enclave.Wire.{ProofStatement, SignedProof}
use pzd.Enclave.Machine.{Machine, ◌>>=◌, >>=-ok, current, instant_now, elapsed_us}
use pzd.Enclave.Admit.{admit}
use pzd.Enclave.Session.{process_and_delete}
use pzd.Enclave.Queries.{boot}
use pzd.Enclave.Receipts.{moved}
use pzd.Enclave.Halves.{
  begin, complete, close, counted, begin-answers, complete-answers, settle-halves,
}
use pzd.Enclave.Steps.{
  Shared, Reach, booted, begins, completes, elsewhere, Numbered, begins-Numbered,
  completes-Numbered, carriers,
}

module _ (C : Crates) where
  reached : (k : ℕ) (s : Shared C) → Reach C k s → k < 2 ^ 64 → Numbered C k s
  unfolding carriers boot
  reached _ _ (booted a b c w) h = record {
    counts = refl;
    leaves = size-new;
    total = omega arith;
    once = λ n p q. absurd (omega arith);
    never = λ n p. omega arith;
    logged = λ j x g. absurd (cc);
  }
  reached _ _ (begins k s body tenant stmt m r e) h =
      let (stmt', w, e', c) =
        begin-answers C (admit C s.machine.state.channel_sk s.machine.state.policy body) tenant
          s.machine in
      let both : Path (Result Bytes ProofStatement × Machine C) (ok stmt, m)
          (ok stmt', counted C s.machine w) =
        sym e ∙ e' in
      let same : m ≡ counted C s.machine w = ap (λ p. p.1) both in
      let ok' : Path (Result Bytes ProofStatement) (ok stmt) (ok stmt') = ap (λ p. p.0) both in
      let stated : stmt ≡ stmt' = cc in
      subst
        (λ m.
          Numbered C (suc k)
            (record { machine = m; begun = stmt ∷ s.begun; recorded = s.recorded }))
        (sym same)
        (begins-Numbered C k s stmt w (reached k s r (omega arith)) h
          (ap (λ x. x.counter) stated ∙ c))
  reached _ _ (completes k s before after stmt out m r e f) h =
      let (proof, receipt, w, rc, f', states, signed) = complete-answers C stmt s.machine in
      let same = ap (λ (p : Result Bytes (SignedProof × Value) × Machine C). p.1) (sym f ∙ f') in
      subst
        (λ m.
          Numbered C k
            (record { machine = m; begun = before ++ after; recorded = s.recorded ++ (stmt ∷ []) }))
        (sym same)
        (completes-Numbered C k s before after stmt proof rc.entry w (reached k s r h) e states
          signed rc.is_entry)
  reached _ _ (elsewhere k s w r) h =
      let i = reached k s r h in
      record {
        counts = i.counts;
        leaves = i.leaves;
        total = i.total;
        once = i.once;
        never = i.never;
        logged = i.logged;
      }

  -- The run of a whole session, which no other one interrupts.
  session-Reach :
      (k : ℕ) (s : Shared C)
      → Reach C k s
      → (body tenant : Bytes)
      → (t : Shared C) × Reach C (suc k) t
        × ((process_and_delete C body tenant s.machine).1 ≡ t.machine)
        × (t.begun ≡ s.begun)
  unfolding process_and_delete instant_now current close elapsed_us
  session-Reach k s r body tenant =
      let (t0, w0) = C.read_instant s.machine.world in
      let m0 = moved C s.machine w0 in
      let v = admit C s.machine.state.channel_sk s.machine.state.policy body in
      let (stmt, w, e, c) = begin-answers C v tenant m0 in
      let m1 = counted C m0 w in
      let (proof, receipt, w2, rc, f, states, signed) = complete-answers C stmt m1 in
      let m2 : Machine C = record {
        state = record m1.state { ledger = (append C.sha m1.state.ledger rc.entry).0 };
        world = w2;
      } in
      let run =
        settle-halves C v tenant t0 m0
        ∙ >>=-ok (begin C v tenant) (λ stmt. complete C stmt >>= close C v t0) m0 m1 stmt e
        ∙ >>=-ok (complete C stmt) (close C v t0) m1 m2 (proof, receipt) f in
      (
        record {
          machine = moved C m2 (C.read_instant w2).1;
          begun = s.begun;
          recorded = s.recorded ++ (stmt ∷ []);
        },
        elsewhere (suc k) _ (C.read_instant w2).1 (
            completes (suc k) _ [] s.begun stmt (proof, receipt) m2
              (begins k _ body tenant stmt m1 (elsewhere k s w0 r) e) refl f),
        ap (λ (p : Result Bytes Value × Machine C). p.1) run,
        refl,
      )

  -- However the halves of the sessions interleave, while fewer than 2^64 numbers were taken: the counter is how
  -- many were, every number from 1 to the counter is in exactly one statement of a session that is between its
  -- halves or has appended, and no greater one in any, and the log has exactly the leaves of the signed proofs of
  -- the statements that were appended, in their order. A session that no other one interrupts is a run of its
  -- two halves, and leaves the machine that `process_and_delete` leaves.
  pub Reach-Numbered :
      (k : ℕ) (s : Shared C)
      → Reach C k s
      → k < 2 ^ 64
      → Numbered C k s
        × ((body tenant : Bytes)
            → (t : Shared C) × Reach C (suc k) t
              × ((process_and_delete C body tenant s.machine).1 ≡ t.machine)
              × (t.begun ≡ s.begun))
  Reach-Numbered k s r h = (reached k s r h, session-Reach k s r)
