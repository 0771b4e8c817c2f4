-- ===== src/Base/Power.antt =====
-- Powers of two at a variable exponent.
use Prim.Native.Nat.{ℕ, zero, suc, ◌+◌, ◌-◌, ◌/◌, ◌*◌, ◌^◌, ◌≤◌, ◌<◌}
use mathlib.Core.Path.{◌≡◌, ap}
use native.Mathlib.Nat.{pow-suc}
use native.Mathlib.Decide.{dec_lt}
use native.Mathlib.Omega.{arith}

pub pow2-suc : (j : ℕ) → 2 ^ suc j ≡ 2 ^ j * 2
pow2-suc j = pow-suc 2 j

pub pow2_pos : (j : ℕ) → 1 ≤ 2 ^ j
pow2_pos zero = omega arith
pow2_pos (suc j) = omega (arith, pow2-suc j, pow2_pos j)

pub lt-pow2 : (j : ℕ) → j < 2 ^ j
lt-pow2 zero = omega arith
lt-pow2 (suc j) = omega (arith, pow2-suc j, lt-pow2 j)

pub pow2_mono : (i j : ℕ) → i ≤ j → 2 ^ i ≤ 2 ^ j
pow2_mono zero j h = pow2_pos j
pow2_mono (suc i) zero h = absurd (omega arith)
pow2_mono (suc i) (suc j) h = omega (arith, pow2-suc i, pow2-suc j, pow2_mono i j (omega arith))

-- A multiple of a power of two, with one factor taken out.
pub mul-pow2-suc : (x j : ℕ) → x * 2 ^ suc j ≡ x * 2 ^ j * 2
mul-pow2-suc x j = omega (arith, ap (λ (t : ℕ). x * t) (pow2-suc j))

-- Division by a power of two in steps: `s` at one level comes from `s'` at the level below.
pub halve :
    (j s r t : ℕ)
    → t ≡ s * 2 ^ suc j + r
    → r < 2 ^ suc j
    → (s' : ℕ) × (r' : ℕ) × (t ≡ s' * 2 ^ j + r') × (r' < 2 ^ j) × (s' / 2 ≡ s)
halve j s r t e h = elim (dec_lt r (2 ^ j)) [
  | yes low ↦ (s * 2, r, omega (arith, mul-pow2-suc s j), low, omega arith)
  | no high ↦ (
    s * 2 + 1,
    r - 2 ^ j,
    omega (arith, mul-pow2-suc s j),
    omega (arith, pow2-suc j),
    omega arith,
  )
]

pub mul-pow2-add : (a d j e : ℕ) → d + j ≡ e → a * 2 ^ e ≡ a * 2 ^ d * 2 ^ j
mul-pow2-add a d zero e h = let h' : e ≡ d = omega arith in rw h' (omega arith)
mul-pow2-add a d (suc j) zero h = absurd (omega arith)
mul-pow2-add a d (suc j) (suc e) h =
    omega (arith, mul-pow2-suc a e, mul-pow2-suc (a * 2 ^ d) j, mul-pow2-add a d j e (omega arith))

-- The exponents are in the order of the powers.
pub exponent-lt : (i j : ℕ) → 2 ^ i < 2 ^ j → i < j
exponent-lt i j h = elim (dec_lt i j) [
  | yes lt ↦ lt
  | no ge ↦ absurd (omega (arith, pow2_mono j i (omega arith)))
]
