-- ===== src/Enclave/SplitRuns.antt =====
-- A run in which the second of two sessions appends before the first.
use pzd.Base.{◌≡◌, ◌%◌, ◌^◌, ◌+◌, arith, [], ◌∷◌, Bytes, codes, refl}
use pzd.Base.Result.{Result, ok}
use pzd.Json.{Value}
use pzd.Ledger.{append}
use pzd.Enclave.Wire.{ProofStatement, SignedProof}
use pzd.Enclave.Machine.{Machine}
use pzd.Enclave.Admit.{Admitted, Refusal, admit}
use pzd.Enclave.Session.{process_and_delete}
use pzd.Enclave.Halves.{begin, complete, begin-answers, complete-answers}
use pzd.Enclave.Steps.{Shared, Reach, booted, begins, completes, Numbered}
use pzd.Enclave.Interleaving.{Reach-Numbered}
use pzd.Enclave.Small.{small, started}

-- The checks of a request, and the half of a session that takes the number.
abbrev checked : Machine small → Result Refusal Admitted
checked m = admit small m.state.channel_sk m.state.policy (codes "x")

abbrev stated : Machine small → ProofStatement
stated m = (begin-answers small (checked m) (codes "demo") m).0

abbrev after_begin : Machine small → Machine small
after_begin m = record {
  state = record m.state { counter = (m.state.counter + 1) % 2 ^ 64 };
  world = (begin-answers small (checked m) (codes "demo") m).1;
}

abbrev shared_0 : Shared small
shared_0 = record { machine = started; begun = []; recorded = [] }

abbrev shared_1 : Shared small
shared_1 = record {
  machine = after_begin shared_0.machine;
  begun = stated shared_0.machine ∷ [];
  recorded = [];
}

abbrev shared_2 : Shared small
shared_2 = record {
  machine = after_begin shared_1.machine;
  begun = stated shared_1.machine ∷ shared_1.begun;
  recorded = [];
}

abbrev after_complete : ProofStatement → Machine small → Machine small
after_complete stmt m =
    let (proof, receipt, w, r, f, states, signed) = complete-answers small stmt m in
    record {
      state = record m.state { ledger = (append small.sha m.state.ledger r.entry).0 };
      world = w;
    }

abbrev signed_out : ProofStatement → Machine small → SignedProof × Value
signed_out stmt m =
    let (proof, receipt, w, r, f, states, signed) = complete-answers small stmt m in
    (proof, receipt)

abbrev shared_3 : Shared small
shared_3 = record {
  machine = after_complete (stated shared_1.machine) shared_2.machine;
  begun = shared_1.begun;
  recorded = stated shared_1.machine ∷ [];
}

begin_runs :
    (m : Machine small) → begin small (checked m) (codes "demo") m ≡ (ok (stated m), after_begin m)
begin_runs m = let (stmt, w, e, c) = begin-answers small (checked m) (codes "demo") m in e

complete_runs :
    (stmt : ProofStatement) (m : Machine small)
    → complete small stmt m ≡ (ok (signed_out stmt m), after_complete stmt m)
complete_runs stmt m =
    let (proof, receipt, w, r, f, states, signed) = complete-answers small stmt m in f

Reach-Numbered_example :
    Numbered small 2 shared_3
    × ((body tenant : Bytes)
        → (t : Shared small) × Reach small 3 t
          × ((process_and_delete small body tenant shared_3.machine).1 ≡ t.machine)
          × (t.begun ≡ shared_3.begun))
Reach-Numbered_example =
    Reach-Numbered small 2 shared_3
      (completes 2 shared_2 [] shared_1.begun (stated shared_1.machine)
        (signed_out (stated shared_1.machine) shared_2.machine) shared_3.machine
        (begins 1 shared_1 (codes "x") (codes "demo") (stated shared_1.machine) shared_2.machine
          (begins 0 shared_0 (codes "x") (codes "demo") (stated shared_0.machine) shared_1.machine
            (booted (codes "csk") (codes "cpk") (codes "psk") 1000) (begin_runs shared_0.machine))
          (begin_runs shared_1.machine))
        refl (complete_runs (stated shared_1.machine) shared_2.machine))
      (omega arith)
