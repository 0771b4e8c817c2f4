-- ===== src/Proxy/Paths.antt =====
-- The number in a path, as the proxy writes it and as the enclave reads it.
use pzd.Base.Text.{starts_with}
use pzd.Base.Text.{digits, decimal}
use pzd.Base.{
  ℕ, zero, suc, ◌+◌, ◌-◌, ◌*◌, ◌/◌, ◌%◌, ◌^◌, ◌≤◌, ◌<◌, ◌≡◌, arith, true, false, some, [], ◌∷◌,
  ◌++◌, length, take, drop, Bytes, bytes_eq, bytes_eq_refl, refl, sym, ap, ◌∙◌, ◌==◌,
}
use native.Mathlib.Decide.{dec_lt}
use pzd.Enclave.Dispatch.{
  trim_loop, trim_start_matches, parse_digits, parse_number, parse_usize, proof_prefix,
  consistency_prefix,
}
use pzd.Proxy.{proof_route, consistency_route}

parse_digits-snoc :
    (acc v d : ℕ) (xs : Bytes)
    → parse_digits acc xs ≡ some v
    → d < 10
    → v * 10 + d < 2 ^ 64
    → parse_digits acc (xs ++ ((b'0' + d) ∷ [])) ≡ some (v * 10 + d)
unfolding parse_digits
parse_digits-snoc acc v d [] h small fits = ground arith
parse_digits-snoc acc v d (c ∷ xs) h small fits =
    ground (arith, parse_digits-snoc (acc * 10 + (c - b'0')) v d xs)

parse_digits-digits : (fuel n : ℕ) → n ≤ fuel → n < 2 ^ 64 → parse_digits 0 (digits fuel n) ≡ some n
unfolding digits parse_digits
parse_digits-digits zero n le fits = ground arith
parse_digits-digits (suc fuel) n le fits = elim (dec_lt n 10) [
  | yes one ↦ ground arith
  | no more ↦
      let many : (n / 10 == 0) ≡ false = ground arith in
      let rest = parse_digits-digits fuel (n / 10) (omega arith) (omega arith) in
      let all =
        parse_digits-snoc 0 (n / 10) (n % 10) (digits fuel (n / 10)) rest (omega arith)
          (omega arith) in
      rw many (all ∙ ap some (omega arith))
]

-- The first byte of a number is a digit.
first-digit :
    (fuel n : ℕ) → (c : ℕ) × (s : Bytes) × (digits fuel n ≡ c ∷ s) × (b'0' ≤ c) × (c ≤ b'9')
unfolding digits
first-digit zero n = (b'0' + n % 10, [], refl, omega arith, omega arith)
first-digit (suc fuel) n = elim (dec_lt n 10) [
  | yes one ↦
      let few : (n / 10 == 0) ≡ true = ground arith in
      (b'0' + n % 10, [], rw few refl, omega arith, omega arith)
  | no more ↦
      let many : (n / 10 == 0) ≡ false = ground arith in
      let (c, s, e, lo, hi) = first-digit fuel (n / 10) in
      (c, s ++ ((b'0' + n % 10) ∷ []), rw (many, e) refl, lo, hi)
]

parse_usize-decimal : (n : ℕ) → n < 2 ^ 64 → parse_usize (decimal n) ≡ some n
unfolding parse_usize parse_number decimal
parse_usize-decimal n fits =
    let (c, s, e, lo, hi) = first-digit n n in
    let digit : (c == b'+') ≡ false = ground arith in
    let all : parse_digits 0 (c ∷ s) ≡ some n =
      ap (parse_digits 0) (sym e) ∙ parse_digits-digits n n (omega arith) fits in
    rw (e, digit) all

trim_loop-stop :
    (fuel : ℕ) (prefix path : Bytes)
    → starts_with prefix path ≡ false
    → trim_loop fuel prefix path ≡ path
unfolding trim_loop
trim_loop-stop zero prefix path h = refl
trim_loop-stop (suc fuel) prefix path h = rw h refl

starts_with-digit : (p s : Bytes) (c : ℕ) → b'0' ≤ c → starts_with (b'/' ∷ p) (c ∷ s) ≡ false
unfolding starts_with bytes_eq
starts_with-digit p s c lo = ground arith

take-append : (xs ys : Bytes) → take (length xs) (xs ++ ys) ≡ xs
take-append [] ys = refl
take-append (x ∷ xs) ys = ap (◌∷◌ x) (take-append xs ys)

drop-append : (xs ys : Bytes) → drop (length xs) (xs ++ ys) ≡ ys
drop-append [] ys = refl
drop-append (x ∷ xs) ys = drop-append xs ys

-- A prefix that starts with a slash is taken off once from before a number.
trim_start_matches-digit :
    (p s : Bytes) (c : ℕ) → b'0' ≤ c → trim_start_matches (b'/' ∷ p) ((b'/' ∷ p) ++ (c ∷ s)) ≡ c ∷ s
unfolding trim_start_matches trim_loop starts_with
trim_start_matches-digit p s c lo =
    let prefix : Bytes = b'/' ∷ p in
    let here : bytes_eq (take (length prefix) (prefix ++ (c ∷ s))) prefix ≡ true =
      ap (λ t. bytes_eq t prefix) (take-append prefix (c ∷ s)) ∙ bytes_eq_refl prefix in
    rw (here, drop-append p (c ∷ s))
      (trim_loop-stop (length (p ++ (c ∷ s))) prefix (c ∷ s) (starts_with-digit p s c lo))

-- For every u64 the enclave reads from the proxy's two paths the number that the proxy wrote there.
pub parse_usize-path :
    (n : ℕ)
    → n < 2 ^ 64
    → (parse_usize (trim_start_matches proof_prefix (proof_route n)) ≡ some n)
      × (parse_usize (trim_start_matches consistency_prefix (consistency_route n)) ≡ some n)
unfolding proof_route consistency_route decimal
parse_usize-path n fits =
    let (c, s, e, lo, hi) = first-digit n n in
    let read : parse_usize (c ∷ s) ≡ some n = ap parse_usize (sym e) ∙ parse_usize-decimal n fits in
    (
      ap (λ ds. parse_usize (trim_start_matches proof_prefix (proof_prefix ++ ds))) e
          ∙ ap parse_usize (trim_start_matches-digit (drop 1 proof_prefix) s c lo)
          ∙ read,
      ap (λ ds. parse_usize (trim_start_matches consistency_prefix (consistency_prefix ++ ds))) e
          ∙ ap parse_usize (trim_start_matches-digit (drop 1 consistency_prefix) s c lo)
          ∙ read,
    )
