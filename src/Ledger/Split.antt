-- ===== src/Ledger/Split.antt =====
-- `split` of transparency.rs: the largest power of two below the number of leaves.
use pzd.Base.{
  ℕ, zero, suc, ◌+◌, ◌*◌, ◌/◌, ◌%◌, ◌^◌, ◌≤◌, ◌<◌, ◌≡◌, inl, inr, arith, ltb, Bool-cases, ltb→lt,
  pow2-suc, pow2_pos, pow2_mono, ap, ◌∙◌,
}
use native.Mathlib.Decide.{dec_lt}
use pzd.Ledger.{split_loop, split}

-- A slice of 32-byte hashes has at most 2^58 of them: its size in bytes is at most isize::MAX.
abbrev pub Fits : ℕ → Type 0
Fits n = n < 2 ^ 58

-- `k` is the power of two next to `n` from above.
abbrev Covers : ℕ → ℕ → Type 0
Covers n k = (j : ℕ) × (k ≡ 2 ^ j) × (n ≤ 2 ^ j) × (2 ^ j < n * 2)

exponent_small : (i n : ℕ) → Fits n → 2 ^ i < n → i < 58
exponent_small i n h p = elim (dec_lt i 58) [
  | yes small ↦ small
  | no large ↦ absurd (omega (arith, pow2_mono 58 i (omega arith)))
]

split_loop-Covers :
    (f i n k : ℕ)
    → Fits n
    → i + f ≡ 64
    → 1 ≤ f
    → k ≡ 2 ^ i
    → 2 ^ i < n * 2
    → Covers n (split_loop f n k)
unfolding split_loop
split_loop-Covers zero i n k h e g q p = absurd (omega arith)
split_loop-Covers (suc f) i n k h e g q p = elim (Bool-cases (ltb k n)) [
  | inr done ↦ rw done (i, q, ground arith, p)
  | inl more ↦
      let lt : 2 ^ i < n = omega (arith, ltb→lt k n more) in
      let small : i < 58 = exponent_small i n h lt in
      rw more (
        split_loop-Covers f (suc i) n (k * 2 % 2 ^ 64) h (omega arith) (omega arith)
          (omega (arith, pow2-suc i)) (omega (arith, pow2-suc i)))
]

split-Covers :
    (n k : ℕ) → 2 ≤ n → Covers n k → (j : ℕ) × (k / 2 ≡ 2 ^ j) × (2 ^ j < n) × (n ≤ 2 ^ j * 2)
split-Covers n k h (zero, q, c, p) = absurd (omega arith)
split-Covers n k h (suc j, q, c, p) =
    (j, omega (arith, pow2-suc j), omega (arith, pow2-suc j), omega (arith, pow2-suc j))

-- From two leaves on, `split` is a power of two below the size, and twice it is not.
pub split_lem :
    (n : ℕ) → 2 ≤ n → Fits n → (j : ℕ) × (split n ≡ 2 ^ j) × (2 ^ j < n) × (n ≤ 2 ^ j * 2)
unfolding split
split_lem n h fits =
    split-Covers n (split_loop 64 n 1) h
      (split_loop-Covers 64 0 n 1 fits (omega arith) (omega arith) (omega arith) (omega arith))

-- Only one power of two lies there.
pow2_unique : (i j n : ℕ) → 2 ^ i < n → n ≤ 2 ^ i * 2 → 2 ^ j < n → n ≤ 2 ^ j * 2 → 2 ^ i ≡ 2 ^ j
pow2_unique i j n a b c d = elim (dec_lt i j) [
  | yes lt ↦ absurd (omega (arith, pow2_mono (suc i) j lt, pow2-suc i))
  | no ge ↦ elim (dec_lt j i) [
    | yes lt ↦ absurd (omega (arith, pow2_mono (suc j) i lt, pow2-suc j))
    | no le ↦ ap (λ (e : ℕ). 2 ^ e) (let e : i ≡ j = omega arith in e)
  ]
]

pub split_unique : (j n : ℕ) → Fits n → 2 ^ j < n → n ≤ 2 ^ j * 2 → split n ≡ 2 ^ j
split_unique j n fits lo hi =
    let (i, e, p, q) = split_lem n (omega (arith, pow2_pos j)) fits in
    e ∙ pow2_unique i j n p q lo hi

pub split_bounds : (n : ℕ) → 2 ≤ n → Fits n → (1 ≤ split n) × (split n < n)
split_bounds n h fits =
    let (j, e, p, q) = split_lem n h fits in (omega (arith, pow2_pos j), omega arith)

-- For every log of two leaves or more, `split` is a power of two below its size, and every other
-- power of two below the size is at most as large.
pub split_largest :
    (n : ℕ)
    → 2 ≤ n
    → Fits n
    → ((j : ℕ) × (split n ≡ 2 ^ j)) × (split n < n) × ((i : ℕ) → 2 ^ i < n → 2 ^ i ≤ split n)
split_largest n h fits = ((found.0, found.1), omega (arith, found.1, found.2), largest)
  where
    found : (j : ℕ) × (split n ≡ 2 ^ j) × (2 ^ j < n) × (n ≤ 2 ^ j * 2)
    found = split_lem n h fits

    largest : (i : ℕ) → 2 ^ i < n → 2 ^ i ≤ split n
    largest i below = elim (dec_lt found.0 i) [
      | yes lt ↦
          absurd (omega (arith, pow2_mono (suc found.0) i lt, pow2-suc found.0, found.3, below))
      | no ge ↦ omega (arith, pow2_mono i found.0 (omega arith), found.1)
    ]
