-- ===== src/Policy/Denied.antt =====
-- Which denial of `evaluate` comes of which failing.
use pzd.Base.{
  ◌≤◌, ◌<◌, ◌≡◌, ◌≢◌, ◌⊎◌, inl, inr, arith, true, [], ◌||◌, length, Bytes, codes, bytes_eq, All,
  ltb, Bool-cases,
}
use pzd.Base.Fails.{Fails, Fails-if, Fails-err}
use pzd.Policy.{Policy, any, marked, looks_like_ssn, looks_like_pan, evaluate}
use pzd.Policy.Contains.{Occurs}
use pzd.Policy.Ssn.{looks_like_ssn_iff}
use pzd.Policy.Pan.{HasPan, looks_like_pan_iff}
use pzd.Policy.Evaluate.{Among, HasSsn, Hit, any_iff, marked_iff, marked-Hit}

module _ (p : Policy) (plaintext processor : Bytes) where
  -- What is wrong with a request, by the reason that stands for it.
  pub data Denied : Bytes → Type 0 where
    unknown : ¬ Among processor p.allowed_processors → Denied (codes "processor_not_allowed")
    large :
        Among processor p.allowed_processors
        → p.max_input_bytes < length plaintext
        → Denied (codes "input_too_large")
    restricted :
        Among processor p.allowed_processors
        → length plaintext ≤ p.max_input_bytes
        → Hit p.deny_markers plaintext
        → Denied (codes "restricted_marker")
    personal :
        Among processor p.allowed_processors
        → length plaintext ≤ p.max_input_bytes
        → All (λ marker. marker ≢ [] → ¬ Occurs marker plaintext) p.deny_markers
        → HasSsn plaintext ⊎ HasPan plaintext
        → Denied (codes "pii_detected")

  pub evaluate-Denied : Fails Denied (evaluate p plaintext processor)
  unfolding evaluate
  evaluate-Denied =
      Fails-if Denied (any (λ q. bytes_eq q processor) p.allowed_processors) _ _
        (λ known.
          let among = (any_iff processor p.allowed_processors).0 known in
          Fails-if Denied (ltb p.max_input_bytes (length plaintext)) _ _
            (λ over. Fails-err Denied _ (large among (ground arith)))
            (λ under.
              let fits : length plaintext ≤ p.max_input_bytes = ground arith in
              Fails-if Denied (marked p.deny_markers plaintext) _ _
                (λ hit.
                  Fails-err Denied _
                    (restricted among fits (marked-Hit p.deny_markers plaintext hit)))
                (λ clean.
                  let unmarked = (marked_iff p.deny_markers plaintext).0 clean in
                  Fails-if Denied (looks_like_ssn plaintext || looks_like_pan plaintext) _ _
                    (λ found. Fails-err Denied _ (personal among fits unmarked (either found)))
                    (λ f e h. absurd (cc)))))
        (λ f.
          Fails-err Denied _
            (unknown (λ a. let t = (any_iff processor p.allowed_processors).1 a in absurd (cc))))
    where
      either :
          (looks_like_ssn plaintext || looks_like_pan plaintext) ≡ true
          → HasSsn plaintext ⊎ HasPan plaintext
      either found = elim (Bool-cases (looks_like_ssn plaintext)) [
        | inl ssn ↦ inl ((looks_like_ssn_iff plaintext).0 ssn)
        | inr none ↦ inr ((looks_like_pan_iff plaintext).0 (ground arith))
      ]
