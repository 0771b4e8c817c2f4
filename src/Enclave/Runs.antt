-- ===== src/Enclave/Runs.antt =====
-- Runs of the enclave and the theorems there.
use pzd.Base.{
  ℕ, ◌≤◌, ◌<◌, ◌≡◌, ◌↔◌, arith, true, false, none, some, List, [], ◌∷◌, refl, codes, bytes_eq,
}
use pzd.Base.Result.{ok}
use pzd.Json.{null}
use pzd.Ledger.{Hash, size, root, leaf_at, root_at, verify_inclusion, verify_consistency}
use pzd.Ledger.Split.{Fits}
use pzd.Policy.{default_v1}
use pzd.Enclave.Wire.{SignedCheckpoint, receipt_value}
use pzd.Enclave.Admit.{Admitted, Refusal, admit}
use pzd.Enclave.Session.{process_and_delete}
use pzd.Enclave.Queries.{boot, ledger_proof, ledger_consistency}
use pzd.Enclave.Dispatch.{dispatch}
use pzd.Enclave.Receipts.{Vouches, moved}
use pzd.Enclave.Recorded.{Recorded, process_and_delete-Recorded}
use pzd.Enclave.Admission.{Admissible, admit_iff}
use pzd.Enclave.Refusals.{Refused, admit-Refused}
use pzd.Enclave.Answers.{consistency_value, ledger_proof_lem, ledger_consistency_lem}
use pzd.Enclave.Requests.{Served, dispatch-Served}
use pzd.Enclave.Sessions.{Later, sessions, serve_all, serve_all-Later}
use pzd.Enclave.Continuity.{Continues, Includes, serve_all-Continues}
use pzd.Ledger.Log.{size-new}
use pzd.Enclave.Machine.{Machine}
use pzd.Enclave.Sessions.{is_session}
use pzd.Enclave.Small.{request, small, started, later_machine, envelope, root_query}

process_and_delete-Recorded_example :
    Recorded small
      (admit small (codes "csk") default_v1 (codes "x"))
      (codes "demo")
      started.state
      (process_and_delete small (codes "x") (codes "demo") started)
unfolding boot
process_and_delete-Recorded_example =
    process_and_delete-Recorded small (codes "x") (codes "demo") started

abbrev admitted : Admitted
admitted = record { req = request; processor = codes "gateway"; upstream_resp = null }

admit_iff_example :
    (admit small (codes "csk") default_v1 (codes "x") ≡ ok admitted)
    ↔ Admissible small (codes "csk") default_v1 (codes "x") admitted
admit_iff_example = admit_iff small (codes "csk") default_v1 (codes "x") admitted

abbrev malformed : Refusal
malformed = record {
  code = codes "malformed_request";
  commitment = [];
  processor = codes "gateway";
  input_wiped = false;
}

admit-Refused_example : Refused small (codes "csk") default_v1 [] malformed
unfolding admit
admit-Refused_example = admit-Refused small (codes "csk") default_v1 [] malformed refl

dispatch-Served_example : Served small envelope started (dispatch small envelope started)
dispatch-Served_example = dispatch-Served small envelope started

serve_all-Later_example :
    Later small
      (sessions (envelope ∷ root_query ∷ envelope ∷ []))
      started.state
      (serve_all small (envelope ∷ root_query ∷ envelope ∷ []) started).state
unfolding boot
serve_all-Later_example =
    serve_all-Later small (envelope ∷ root_query ∷ envelope ∷ []) started (omega arith)

-- The enclave after one session.
abbrev warm : Machine small
warm = serve_all small (envelope ∷ []) started

serve_all-Continues_example :
    Continues small warm.state (serve_all small (root_query ∷ envelope ∷ []) warm)
    × ((idx : ℕ)
        → idx < size warm.state.ledger
        → Includes small warm.state (serve_all small (root_query ∷ envelope ∷ []) warm) idx)
unfolding sessions is_session boot bytes_eq
serve_all-Continues_example =
    serve_all-Continues small (root_query ∷ envelope ∷ []) warm (omega (arith, first.counted))
      (omega (arith, first.grown, second.grown, empty))
  where
    first : Later small 1 started.state warm.state
    first = serve_all-Later small (envelope ∷ []) started (omega arith)

    second : Later small 1 warm.state (serve_all small (root_query ∷ envelope ∷ []) warm).state
    second = serve_all-Later small (root_query ∷ envelope ∷ []) warm (omega (arith, first.counted))

    empty : size started.state.ledger ≡ 0
    empty = size-new

ledger_proof_lem_example :
    (0 < size later_machine.state.ledger
      → (leaf : Hash) × (path : List Hash) × (cp : SignedCheckpoint) × (w : ℕ) × (ledger_proof small
            0 later_machine
          ≡ (ok (some (receipt_value small 0 leaf path cp)), moved small later_machine w))
        × (leaf_at later_machine.state.ledger 0 ≡ some leaf)
        × Vouches small later_machine.state.proof_sk
            (size later_machine.state.ledger)
            (root small.sha later_machine.state.ledger)
            cp
        × (Fits (size later_machine.state.ledger)
            → verify_inclusion small.sha leaf 0
                (size later_machine.state.ledger)
                path
                (root small.sha later_machine.state.ledger)
              ≡ true))
    × (size later_machine.state.ledger ≤ 0
        → ledger_proof small 0 later_machine ≡ (ok none, later_machine))
ledger_proof_lem_example = ledger_proof_lem small 0 later_machine

ledger_consistency_lem_example :
    (1 ≤ size later_machine.state.ledger
      → (r : Hash) × (path : List Hash) × (cp : SignedCheckpoint) × (cq : SignedCheckpoint)
        × (w : ℕ) × (ledger_consistency small 1 later_machine
            ≡ (ok (some (consistency_value small cp cq path)), moved small later_machine w))
        × (root_at small.sha later_machine.state.ledger 1 ≡ some r)
        × Vouches small later_machine.state.proof_sk 1 r cp
        × Vouches small later_machine.state.proof_sk
            (size later_machine.state.ledger)
            (root small.sha later_machine.state.ledger)
            cq
        × (Fits (size later_machine.state.ledger)
            → verify_consistency small.sha 1 r
                (size later_machine.state.ledger)
                (root small.sha later_machine.state.ledger)
                path
              ≡ true))
    × (size later_machine.state.ledger < 1
        → ledger_consistency small 1 later_machine ≡ (ok none, later_machine))
ledger_consistency_lem_example = ledger_consistency_lem small 1 later_machine
