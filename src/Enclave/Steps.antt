-- ===== src/Enclave/Steps.antt =====
-- services/pzdr-enclave/src/main.rs, `tokio::spawn` of the sessions: other sessions may run between the two
-- halves of a session, of which one takes the number from the counter and the other appends the signed
-- statement to the log under its lock. A run is a sequence of such halves of any sessions, and of steps that
-- leave the state as it was: readings of the clock, random numbers, queries.
use mathlib.Core.Path.{subst}
use native.Mathlib.Decide.{dec_lt}
use pzd.Base.{
  ℕ, suc, ◌+◌, ◌%◌, ◌^◌, ◌≤◌, ◌<◌, ◌≡◌, arith, List, [], ◌∷◌, ◌++◌, length, length-append, Bytes,
  some, sym, ap, ◌∙◌, ◌==◌, if◌then◌else◌, get_elem?, get_elem?-append_left, get_elem?-append_right,
  get_elem?-none,
}
use pzd.Base.Result.{ok}
use pzd.Json.{Value}
use pzd.Ledger.{size, leaf_at, leaf_hash, append}
use pzd.Ledger.Log.{append_lem}
use pzd.Enclave.Crates.{Crates}
use pzd.Enclave.Wire.{ProofStatement, SignedProof, statement_value, proof_value, canonical_json}
use pzd.Enclave.Machine.{Machine, EnclaveState}
use pzd.Enclave.Admit.{admit}
use pzd.Enclave.Queries.{boot}
use pzd.Enclave.Receipts.{moved, Vouched}
use pzd.Enclave.Halves.{begin, complete, counted}

-- How many statements carry a number.
unfoldable pub carriers : ℕ → List ProofStatement → ℕ
carriers n [] = 0
carriers n (s ∷ ss) = (if n == s.counter then 1 else 0) + carriers n ss

carriers-append :
    (n : ℕ) (xs ys : List ProofStatement) → carriers n (xs ++ ys) ≡ carriers n xs + carriers n ys
unfolding carriers
carriers-append n [] ys = omega arith
carriers-append n (k ∷ xs) ys = omega (arith, carriers-append n xs ys)

module _ (C : Crates) where
  -- The machine, the statements of the sessions between their halves, and those of the sessions that have
  -- appended, in their order.
  pub record Shared : Type 0 where
    pub machine : Machine C
    pub begun : List ProofStatement
    pub recorded : List ProofStatement

  -- The runs in which `k` sessions took a number.
  pub data Reach : ℕ → Shared → Type 0 where
    booted :
        (channel_sk channel_pk proof_sk : Bytes) (w : C.World)
        → Reach 0 (record {
          machine = record { state = boot C channel_sk channel_pk proof_sk; world = w };
          begun = [];
          recorded = [];
        })
    begins :
        (k : ℕ) (s : Shared) (body tenant : Bytes) (stmt : ProofStatement) (m : Machine C)
        → Reach k s
        → begin C (admit C s.machine.state.channel_sk s.machine.state.policy body) tenant s.machine
          ≡ (ok stmt, m)
        → Reach (suc k) (record { machine = m; begun = stmt ∷ s.begun; recorded = s.recorded })
    completes :
        (k : ℕ) (s : Shared) (before after : List ProofStatement) (stmt : ProofStatement)
        (out : SignedProof × Value) (m : Machine C)
        → Reach k s
        → s.begun ≡ before ++ (stmt ∷ after)
        → complete C stmt s.machine ≡ (ok out, m)
        → Reach k
            (record { machine = m; begun = before ++ after; recorded = s.recorded ++ (stmt ∷ []) })
    elsewhere :
        (k : ℕ) (s : Shared) (w : C.World)
        → Reach k s
        → Reach k (record { machine = moved C s.machine w; begun = s.begun; recorded = s.recorded })

  -- A leaf of the log is that of the statement's proof, which the enclave signed.
  pub record Logged (st : EnclaveState) (i : ℕ) (stmt : ProofStatement) : Type 0 where
    pub proof : SignedProof
    pub entry : Bytes
    pub states : proof.statement ≡ stmt
    pub signed : Vouched C st.proof_sk (statement_value proof.statement) proof.signature_b64
    pub is_entry : canonical_json C (proof_value proof) ≡ ok entry
    pub is_leaf : leaf_at st.ledger i ≡ some (leaf_hash C.sha entry)

  -- `k` numbers were given out, each from 1 to `k` to one statement, and the log has a leaf for each statement that
  -- was recorded, in their order, and no other.
  pub record Numbered (k : ℕ) (s : Shared) : Type 0 where
    pub counts : s.machine.state.counter ≡ k
    pub leaves : size s.machine.state.ledger ≡ length s.recorded
    pub total : length s.begun + length s.recorded ≡ k
    pub once : (n : ℕ) → 0 < n → n ≤ k → carriers n s.begun + carriers n s.recorded ≡ 1
    pub never : (n : ℕ) → k < n → carriers n s.begun + carriers n s.recorded ≡ 0
    pub logged :
        (i : ℕ) (stmt : ProofStatement)
        → get_elem? s.recorded i ≡ some stmt
        → Logged s.machine.state i stmt

  pub begins-Numbered :
      (k : ℕ) (s : Shared) (stmt : ProofStatement) (w : C.World)
      → Numbered k s
      → suc k < 2 ^ 64
      → stmt.counter ≡ (s.machine.state.counter + 1) % 2 ^ 64
      → Numbered (suc k) (record {
        machine = counted C s.machine w;
        begun = stmt ∷ s.begun;
        recorded = s.recorded;
      })
  unfolding carriers
  begins-Numbered k s stmt w i h c =
      let counts = i.counts in
      let number : stmt.counter ≡ suc k = omega (arith, c, counts) in
      record {
        counts = omega (arith, counts);
        leaves = i.leaves;
        total = omega (arith, i.total);
        once = λ n p q. ground (arith, number, i.once n p, i.never n);
        never = λ n p. ground (arith, number, i.never n);
        logged = λ j x e.
            let l = i.logged j x e in
            record {
              proof = l.proof;
              entry = l.entry;
              states = l.states;
              signed = l.signed;
              is_entry = l.is_entry;
              is_leaf = l.is_leaf;
            };
      }

  pub completes-Numbered :
      (k : ℕ) (s : Shared) (before after : List ProofStatement) (stmt : ProofStatement)
      (proof : SignedProof) (entry : Bytes) (w : C.World)
      → Numbered k s
      → s.begun ≡ before ++ (stmt ∷ after)
      → proof.statement ≡ stmt
      → Vouched C s.machine.state.proof_sk (statement_value proof.statement) proof.signature_b64
      → canonical_json C (proof_value proof) ≡ ok entry
      → Numbered k (record {
        machine = record {
          state = record s.machine.state { ledger = (append C.sha s.machine.state.ledger entry).0 };
          world = w;
        };
        begun = before ++ after;
        recorded = s.recorded ++ (stmt ∷ []);
      })
  unfolding carriers
  completes-Numbered k s before after stmt proof entry w i e states signed is_entry =
      let (at, grown, leaf, roots, leaves) = append_lem C.sha s.machine.state.ledger entry in
      let total' : length (before ++ (stmt ∷ after)) + length s.recorded ≡ k =
        ap (λ p. length p + length s.recorded) (sym e) ∙ i.total in
      let carried : (x : ℕ)
          → carriers x (before ++ after) + carriers x (s.recorded ++ (stmt ∷ []))
            ≡ carriers x s.begun + carriers x s.recorded =
        λ x. omega (
          arith,
          ap (carriers x) e,
          carriers-append x before (stmt ∷ after),
          carriers-append x before after,
          carriers-append x s.recorded (stmt ∷ []),
        ) in
      record {
        counts = i.counts;
        leaves = omega (arith, grown, i.leaves, length-append s.recorded (stmt ∷ []));
        total = omega (
          arith,
          total',
          length-append before (stmt ∷ after),
          length-append before after,
          length-append s.recorded (stmt ∷ []),
        );
        once = λ x p q. carried x ∙ i.once x p q;
        never = λ x p. carried x ∙ i.never x p;
        logged = λ j x g. elim (dec_lt j (length s.recorded)) [
          | yes below ↦
              let l =
                i.logged j x (sym (get_elem?-append_left s.recorded (stmt ∷ []) j below) ∙ g) in
              record {
                proof = l.proof;
                entry = l.entry;
                states = l.states;
                signed = l.signed;
                is_entry = l.is_entry;
                is_leaf = leaves j (omega (arith, i.leaves)) ∙ l.is_leaf;
              }
          | no above ↦ elim (dec_lt (length s.recorded) j) [
            | yes beyond ↦
                let none_there =
                  get_elem?-none (s.recorded ++ (stmt ∷ [])) j
                    (omega (arith, length-append s.recorded (stmt ∷ []))) in
                absurd (cc)
            | no within ↦
                let here : j ≡ length s.recorded = omega arith in
                let there : get_elem? (s.recorded ++ (stmt ∷ [])) j ≡ some stmt =
                  subst (λ n. get_elem? (s.recorded ++ (stmt ∷ [])) n ≡ some stmt) (sym here)
                    (get_elem?-append_right s.recorded stmt []) in
                let same : stmt ≡ x = cc in
                record {
                  proof = proof;
                  entry = entry;
                  states = states ∙ same;
                  signed = signed;
                  is_entry = is_entry;
                  is_leaf =
                      subst
                        (λ n.
                          leaf_at (append C.sha s.machine.state.ledger entry).0 n
                          ≡ some (leaf_hash C.sha entry))
                        (at ∙ i.leaves ∙ sym here) leaf;
                }
          ]
        ];
      }
