-- ===== src/Policy/Runs.antt =====
-- Runs of policy.rs on the inputs of its unit tests, and the theorems there.
use pzd.Base.{◌≤◌, ◌<◌, ◌≡◌, ◌≢◌, ◌↔◌, ◌⊎◌, true, [], length, refl, Bytes, codes, bytes_eq, All}
use pzd.Base.Result.{ok, err}
use pzd.Policy.{default_v1, contains, looks_like_ssn, looks_like_pan, evaluate}
use pzd.Policy.Contains.{Occurs}
use pzd.Policy.Ssn.{Follows, template, looks_like_ssn_iff}
use pzd.Policy.Pan.{HasPan, looks_like_pan_iff}
use pzd.Policy.Evaluate.{Allowed, Among, HasSsn, Hit, evaluate_iff, evaluate_reasons}

abbrev gateway : Bytes
gateway = codes "gateway"

allows_clean : evaluate default_v1 (codes "summarize the maintenance log") gateway ≡ ok tt
unfolding default_v1 evaluate contains looks_like_ssn looks_like_pan bytes_eq
allows_clean = refl

denies_marker :
    evaluate default_v1 (codes "<RESTRICTED> x") gateway ≡ err (codes "restricted_marker")
unfolding default_v1 evaluate contains looks_like_ssn looks_like_pan bytes_eq
denies_marker = refl

denies_ssn : evaluate default_v1 (codes "ssn 123-45-6789") gateway ≡ err (codes "pii_detected")
unfolding default_v1 evaluate contains looks_like_ssn looks_like_pan bytes_eq
denies_ssn = refl

denies_pan : evaluate default_v1 (codes "pan 4111111111111111") gateway ≡ err (codes "pii_detected")
unfolding default_v1 evaluate contains looks_like_ssn looks_like_pan bytes_eq
denies_pan = refl

denies_processor :
    evaluate default_v1 (codes "hi") (codes "rogue") ≡ err (codes "processor_not_allowed")
unfolding default_v1 evaluate bytes_eq
denies_processor = refl

looks_like_ssn_iff_example :
    (looks_like_ssn (codes "ssn 123-45-6789") ≡ true)
    ↔ ((w : Bytes) × (length w ≡ 11) × Follows template w × Occurs w (codes "ssn 123-45-6789"))
looks_like_ssn_iff_example = looks_like_ssn_iff (codes "ssn 123-45-6789")

looks_like_pan_iff_example :
    (looks_like_pan (codes "pan 4111111111111111") ≡ true) ↔ HasPan (codes "pan 4111111111111111")
looks_like_pan_iff_example = looks_like_pan_iff (codes "pan 4111111111111111")

evaluate_iff_example :
    (evaluate default_v1 (codes "hello") gateway ≡ ok tt)
    ↔ Allowed default_v1 (codes "hello") gateway
evaluate_iff_example = evaluate_iff default_v1 (codes "hello") gateway

evaluate_reasons_example :
    (¬ Among gateway default_v1.allowed_processors
      → evaluate default_v1 (codes "hi") gateway ≡ err (codes "processor_not_allowed"))
    × (Among gateway default_v1.allowed_processors
        → default_v1.max_input_bytes < length (codes "hi")
        → evaluate default_v1 (codes "hi") gateway ≡ err (codes "input_too_large"))
    × (Among gateway default_v1.allowed_processors
        → length (codes "hi") ≤ default_v1.max_input_bytes
        → Hit default_v1.deny_markers (codes "hi")
        → evaluate default_v1 (codes "hi") gateway ≡ err (codes "restricted_marker"))
    × (Among gateway default_v1.allowed_processors
        → length (codes "hi") ≤ default_v1.max_input_bytes
        → All (λ marker. marker ≢ [] → ¬ Occurs marker (codes "hi")) default_v1.deny_markers
        → HasSsn (codes "hi") ⊎ HasPan (codes "hi")
        → evaluate default_v1 (codes "hi") gateway ≡ err (codes "pii_detected"))
evaluate_reasons_example = evaluate_reasons default_v1 (codes "hi") gateway
