-- ===== src/Policy.antt =====
-- services/pzdr-enclave/src/policy.rs: the default-deny policy of the enclave. A text is the list of
-- its bytes. A counter over a slice stays below its length and cannot wrap.
pub mod Contains
pub mod Ssn
pub mod Pan
pub mod Evaluate
pub mod Denied
mod Runs
use pzd.Base.{
  ℕ, zero, suc, ◌+◌, Bool, true, false, ◌&&◌, ◌||◌, List, [], ◌∷◌, length, take, Bytes, codes,
  bytes_eq, ltb, leb, ◌==◌, if◌then◌else◌,
}
use pzd.Base.Result.{Result, ok, err}

pub record Policy : Type 0 where
  pub policy_id : Bytes
  pub policy_version : ℕ
  pub default : Bytes
  pub max_input_bytes : ℕ
  pub deny_markers : List Bytes
  pub deny_patterns_pii : List Bytes
  pub allowed_processors : List Bytes

unfoldable pub default_v1 : Policy
default_v1 = record {
  policy_id = codes "pzdr-default";
  policy_version = 1;
  default = codes "deny";
  max_input_bytes = 100_000;
  deny_markers = codes "<RESTRICTED" ∷ [];
  deny_patterns_pii = codes "\\b\\d{3}-\\d{2}-\\d{4}\\b" ∷ codes "\\b\\d{16}\\b" ∷ [];
  allowed_processors = codes "gateway" ∷ [];
}

-- `slice.windows(n)`: every run of `n` neighbours, from the left.
pub windows : ℕ → Bytes → List Bytes
windows n [] = []
windows n (b ∷ bs) =
    let rest = windows n bs in if ltb (length (b ∷ bs)) n then [] else take n (b ∷ bs) ∷ rest

-- `iter().any(test)`
pub any {ℓ} : {A : Type ℓ} → (A → Bool) → List A → Bool
any test [] = false
any test (x ∷ xs) = test x || any test xs

pub is_ascii_digit : ℕ → Bool
is_ascii_digit c = leb b'0' c && leb c b'9'

pub contains : Bytes → Bytes → Bool
unfolding any windows
contains haystack needle =
    if length needle == 0 || ltb (length haystack) (length needle)
    then false
    else any (λ w. bytes_eq w needle) (windows (length needle) haystack)

-- `w[i]` for an index in range.
abbrev pub byte_at : Bytes → ℕ → ℕ
byte_at [] i = 0
byte_at (b ∷ bs) zero = b
byte_at (b ∷ bs) (suc i) = byte_at bs i

pub ssn_window : Bytes → Bool
unfolding is_ascii_digit
ssn_window w =
    let d = λ (i : ℕ). is_ascii_digit (byte_at w i) in
    d 0
    && d 1
    && d 2
    && byte_at w 3 == b'-'
    && d 4
    && d 5
    && byte_at w 6 == b'-'
    && d 7
    && d 8
    && d 9
    && d 10

pub looks_like_ssn : Bytes → Bool
unfolding any windows ssn_window
looks_like_ssn b = any ssn_window (windows 11 b)

-- The loop with its counter `run`.
pub pan_loop : ℕ → Bytes → Bool
pan_loop run [] = run == 16
pan_loop run (c ∷ cs) =
    let more = pan_loop (run + 1) cs in
    let over = pan_loop 0 cs in if is_ascii_digit c then more else if run == 16 then true else over

pub looks_like_pan : Bytes → Bool
unfolding pan_loop is_ascii_digit
looks_like_pan b = pan_loop 0 b

-- `for marker in &self.deny_markers`
pub marked : List Bytes → Bytes → Bool
marked [] plaintext = false
marked (marker ∷ markers) plaintext =
    if contains plaintext marker then true else marked markers plaintext

unfoldable pub evaluate : Policy → Bytes → Bytes → Result Bytes (Unit {0})
unfolding any marked
evaluate p plaintext processor =
    if any (λ q. bytes_eq q processor) p.allowed_processors
    then (if ltb p.max_input_bytes (length plaintext)
        then err (codes "input_too_large")
        else (if marked p.deny_markers plaintext
            then err (codes "restricted_marker")
            else (if looks_like_ssn plaintext || looks_like_pan plaintext
                then err (codes "pii_detected")
                else ok tt)))
    else err (codes "processor_not_allowed")
