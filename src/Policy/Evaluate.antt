-- ===== src/Policy/Evaluate.antt =====
-- `evaluate` of policy.rs: what it allows, and which reason it gives.
use pzd.Base.{
  ◌≤◌, ◌<◌, ◌≡◌, ◌≢◌, ◌↔◌, ◌⊎◌, inl, inr, arith, Bool, true, false, ◌||◌, List, [], ◌∷◌, length,
  refl, Bytes, codes, bytes_eq, bytes_eq_refl, bytes_eq_sound, Bool-cases, All,
}
use pzd.Base.Result.{ok, err}
use pzd.Policy.{Policy, any, contains, marked, looks_like_ssn, looks_like_pan, evaluate}
use pzd.Policy.Contains.{Occurs, contains_iff}
use pzd.Policy.Ssn.{Follows, template, looks_like_ssn_iff}
use pzd.Policy.Pan.{HasPan, looks_like_pan_iff}

-- One of the texts is `t`.
abbrev pub Among : Bytes → List Bytes → Type 0
Among t [] = ⊥
Among t (x ∷ xs) = (x ≡ t) ⊎ Among t xs

-- Eleven bytes in a row have the form of a social security number.
abbrev pub HasSsn : Bytes → Type 0
HasSsn text = (w : Bytes) × (length w ≡ 11) × Follows template w × Occurs w text

-- What the policy asks of a request, said without the code's tests.
pub record Allowed (p : Policy) (plaintext processor : Bytes) : Type 0 where
  pub known_processor : Among processor p.allowed_processors
  pub fits : length plaintext ≤ p.max_input_bytes
  pub unmarked : All (λ marker. marker ≢ [] → ¬ Occurs marker plaintext) p.deny_markers
  pub no_ssn : ¬ HasSsn plaintext
  pub no_pan : ¬ HasPan plaintext

pub any_iff : (t : Bytes) (xs : List Bytes) → (any (λ q. bytes_eq q t) xs ≡ true) ↔ Among t xs
unfolding any
any_iff t [] = (λ h. absurd (cc), λ h. absurd h)
any_iff t (x ∷ xs) = (
  (λ h. elim (Bool-cases (bytes_eq x t)) [
    | inl same ↦ inl (bytes_eq_sound x t same)
    | inr other ↦ inr ((any_iff t xs).0 (ground arith))
  ]),
  elim [
    | inl same ↦ rw same (ground (arith, bytes_eq_refl t))
    | inr later ↦ let rest = (any_iff t xs).1 later in ground arith
  ],
)

pub marked_iff :
    (markers : List Bytes) (text : Bytes)
    → (marked markers text ≡ false) ↔ All (λ marker. marker ≢ [] → ¬ Occurs marker text) markers
unfolding marked
marked_iff [] text = (λ h. tt, λ h. refl)
marked_iff (m ∷ ms) text = (
  (λ h. (
    (λ ne o. let hit = (contains_iff text m).1 (ne, o) in ground arith),
    (marked_iff ms text).0 (ground arith),
  )),
  λ h. elim (Bool-cases (contains text m)) [
    | inl hit ↦ let (ne, o) = (contains_iff text m).0 hit in absurd (h.0 ne o)
    | inr miss ↦ let rest = (marked_iff ms text).1 h.1 in ground arith
  ],
)

-- Some marker that is not empty stands in the text.
abbrev pub Hit : List Bytes → Bytes → Type 0
Hit [] text = ⊥
Hit (m ∷ ms) text = ((m ≢ []) × Occurs m text) ⊎ Hit ms text

Hit-marked : (ms : List Bytes) (text : Bytes) → Hit ms text → marked ms text ≡ true
unfolding marked
Hit-marked [] text h = absurd h
Hit-marked (m ∷ ms) text (inl here) = let t = (contains_iff text m).1 here in ground arith
Hit-marked (m ∷ ms) text (inr later) = let t = Hit-marked ms text later in ground arith

pub marked-Hit : (ms : List Bytes) (text : Bytes) → marked ms text ≡ true → Hit ms text
unfolding marked
marked-Hit [] text h = absurd (cc)
marked-Hit (m ∷ ms) text h = elim (Bool-cases (contains text m)) [
  | inl hit ↦ inl ((contains_iff text m).0 hit)
  | inr miss ↦ inr (marked-Hit ms text (ground arith))
]

pub not_true : (b : Bool) → ¬ (b ≡ true) → b ≡ false
not_true true h = absurd (h refl)
not_true false h = refl

module _ (p : Policy) (plaintext processor : Bytes) where
  -- The policy allows a request exactly if its processor is on the list, the text is no longer than
  -- the limit, none of the deny markers (an empty one aside) stands in it, and it holds neither the
  -- form of a social security number nor a bare run of sixteen digits.
  pub evaluate_iff : (evaluate p plaintext processor ≡ ok tt) ↔ Allowed p plaintext processor
  unfolding evaluate
  evaluate_iff = (allowed, passes)
    where
      allowed : evaluate p plaintext processor ≡ ok tt → Allowed p plaintext processor
      allowed h = record {
        known_processor = (any_iff processor p.allowed_processors).0 (ground arith);
        fits = ground arith;
        unmarked = (marked_iff p.deny_markers plaintext).0 (ground arith);
        no_ssn = λ s. let t = (looks_like_ssn_iff plaintext).1 s in ground arith;
        no_pan = λ s. let t = (looks_like_pan_iff plaintext).1 s in ground arith;
      }

      passes : Allowed p plaintext processor → evaluate p plaintext processor ≡ ok tt
      passes a =
          let known = (any_iff processor p.allowed_processors).1 a.known_processor in
          let clean = (marked_iff p.deny_markers plaintext).1 a.unmarked in
          let ssn =
            not_true (looks_like_ssn plaintext)
              (λ t. a.no_ssn ((looks_like_ssn_iff plaintext).0 t)) in
          let pan =
            not_true (looks_like_pan plaintext)
              (λ t. a.no_pan ((looks_like_pan_iff plaintext).0 t)) in
          ground (arith, a.fits)

  -- A denied request gets the reason of the first check that it fails: an unknown processor, then a
  -- text over the limit, then a marker in the text, then the form of a social security number or a
  -- bare run of sixteen digits.
  pub evaluate_reasons :
      (¬ Among processor p.allowed_processors
        → evaluate p plaintext processor ≡ err (codes "processor_not_allowed"))
      × (Among processor p.allowed_processors
          → p.max_input_bytes < length plaintext
          → evaluate p plaintext processor ≡ err (codes "input_too_large"))
      × (Among processor p.allowed_processors
          → length plaintext ≤ p.max_input_bytes
          → Hit p.deny_markers plaintext
          → evaluate p plaintext processor ≡ err (codes "restricted_marker"))
      × (Among processor p.allowed_processors
          → length plaintext ≤ p.max_input_bytes
          → All (λ marker. marker ≢ [] → ¬ Occurs marker plaintext) p.deny_markers
          → HasSsn plaintext ⊎ HasPan plaintext
          → evaluate p plaintext processor ≡ err (codes "pii_detected"))
  unfolding evaluate
  evaluate_reasons = (
    (λ unknown.
        let f =
          not_true (any (λ q. bytes_eq q processor) p.allowed_processors)
            (λ t. unknown ((any_iff processor p.allowed_processors).0 t)) in
        ground arith),
    (λ among large. let t = (any_iff processor p.allowed_processors).1 among in ground arith),
    (λ among fits hit.
        let t = (any_iff processor p.allowed_processors).1 among in
        let m = Hit-marked p.deny_markers plaintext hit in ground arith),
    λ among fits clean pii.
        let t = (any_iff processor p.allowed_processors).1 among in
        let m = (marked_iff p.deny_markers plaintext).1 clean in
        let found = pii_found pii in ground arith,
  )
    where
      pii_found :
          HasSsn plaintext ⊎ HasPan plaintext
          → (looks_like_ssn plaintext || looks_like_pan plaintext) ≡ true
      pii_found (inl ssn) = let t = (looks_like_ssn_iff plaintext).1 ssn in ground arith
      pii_found (inr pan) = let t = (looks_like_pan_iff plaintext).1 pan in ground arith
