-- ===== src/Proxy/Runs.antt =====
-- The paths of small numbers.
use pzd.Base.{
  [], ◌*◌, take, length-take, ◌≤◌, ◌<◌, length, Bytes, ap, ◌≡◌, arith, some, none, refl, codes,
}
use pzd.Enclave.Dispatch.{parse_usize, trim_start_matches, proof_prefix, consistency_prefix}
use mathlib.Core.Path.{subst}
use pzd.Base.Result.{Result, ok, err, ok-injective}
use pzd.Base.Text.{decimal}
use pzd.Json.{Value, empty}
use pzd.Ledger.{size}
use pzd.Enclave.Dispatch.{VsockResponse, dispatch, response_value}
use pzd.Enclave.Machine.{Machine}
use pzd.Enclave.Crates.{Crates}
use pzd.Enclave.Small.{small, lookup, later_machine, render}
use pzd.Proxy.Forward.{
  Web, AppState, Metrics, envelope_value, envelope_of, header_map, reconstruct, do_forward, forward,
  forward_path,
}
use pzd.Proxy.EndToEnd.{Carried, counted, enclave_network, do_forward-dispatch}
use pzd.Proxy.Lookup.{Rebuilds, Proved, http_json, forward_path_lem}
use pzd.Proxy.{proof_route, consistency_route}
use pzd.Proxy.Paths.{parse_usize-path}

reads_plus : parse_usize (codes "+7") ≡ some 7
unfolding parse_usize
reads_plus = refl

refuses_text : parse_usize (codes "7a") ≡ none
unfolding parse_usize
refuses_text = refl

parse_usize-path_example :
    (parse_usize (trim_start_matches proof_prefix (proof_route 1042)) ≡ some 1042)
    × (parse_usize (trim_start_matches consistency_prefix (consistency_route 1042)) ≡ some 1042)
parse_usize-path_example = parse_usize-path 1042 (omega arith)

-- The enclave's answer to the lookup of its first entry.
abbrev response_of : Result Bytes VsockResponse → VsockResponse
response_of (ok r) = r
response_of (err e) = record { status = 0; headers = empty; body_b64 = [] }

-- An encoder whose texts end after four kilobytes.
abbrev curt : Crates
curt = record small {
  to_vec = λ v. ok (take 4096 (render v));
  to_vec-answers = λ v. (take 4096 (render v), refl);
}

-- A machine with one entry in its log.
abbrev machine : Machine curt
machine = record { state = later_machine.state; world = 2_000 }

found : VsockResponse
found = response_of (dispatch curt lookup machine).0

small_web : Web
unfolding found
small_web = record {
  to_str = λ b. some b;
  header = λ k v. some (k, v);
  parse_response = λ b. some found;
}

gateway : AppState
gateway = record { cid = 16; port = 5000 }

idle : Metrics
idle = record { requests = 41; errors = 2; latency_ms = [] }

curt_small : (v : Value) → length (take 4096 (render v)) ≤ 64 * 1024 * 1024
curt_small v = omega (arith, length-take 4096 (render v))

lookup_Carried :
    Carried curt small_web machine (envelope_of curt small_web (codes "GET") (proof_route 0) [] [])
unfolding small_web found proof_route decimal envelope_of header_map envelope_value
lookup_Carried = record {
  req_bytes = take 4096 (render (envelope_value lookup));
  is_written = refl;
  is_read = refl;
  is_small = curt_small (envelope_value lookup);
  comes_back = λ resp b a e. (
    subst (λ b. length b ≤ 64 * 1024 * 1024) (ok-injective _ _ e)
        (curt_small (response_value curt resp)),
    ap (λ r. some (response_of r)) a,
  );
}

do_forward-dispatch_example :
    (resp : VsockResponse) × ((dispatch curt
        (envelope_of curt small_web (codes "GET") (proof_route 0) [] [])
        machine).0
      ≡ ok resp)
    × (do_forward curt small_web gateway
          (enclave_network curt small_web machine)
          3
          (codes "GET")
          (proof_route 0)
          []
          []
          idle
        ≡ (reconstruct curt small_web resp, counted curt small_web 3 idle))
do_forward-dispatch_example =
    do_forward-dispatch curt small_web machine gateway 3 (codes "GET") (proof_route 0) [] [] idle
      lookup_Carried

small_Rebuilds : Rebuilds curt small_web
unfolding small_web
small_Rebuilds = record { decodes = λ b. refl; accepts = refl }

forward_path_lem_example :
    let out =
      forward curt small_web gateway
        (enclave_network curt small_web machine)
        3
        (forward_path 0)
        []
        []
        idle in
    (out.1 ≡ counted curt small_web 3 idle)
    × (0 < size machine.state.ledger → Proved curt small_web machine 0 out.0)
    × (size machine.state.ledger ≤ 0 → (b : Bytes) × (out.0 ≡ http_json curt small_web 404 b))
forward_path_lem_example =
    forward_path_lem curt small_web machine gateway 3 0 [] [] idle (omega arith) small_Rebuilds
      lookup_Carried
