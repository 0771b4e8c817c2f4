-- ===== src/Base/Bits.antt =====
-- The test `m & (m - 1) == 0` on a number.
use Prim.Native.Nat.{
  ℕ, zero, suc, ◌+◌, ◌-◌, ◌*◌, ◌/◌, ◌%◌, ◌^◌, ◌≤◌, min, bit_and, bit_and-bitwise, digits,
}
use mathlib.Core.Path.{◌≡◌, refl, sym, ap, ◌∙◌}
use native.Mathlib.Decide.{ℕ_discrete}
use native.Mathlib.Nat.{le_refl}
use native.Mathlib.Omega.{arith}
use pzd.Base.Power.{pow2-suc, pow2_pos}

-- The digits of the conjunction, with at least as much fuel as the first number asks for.
abbrev common : ℕ → ℕ → ℕ → ℕ
common = digits (λ b. 0) min

common-zero : (k b : ℕ) → common k 0 b ≡ 0
common-zero zero b = refl
common-zero (suc k) b = refl

common_fuel : (k n a b : ℕ) → a ≤ k → a ≤ n → common k a b ≡ common n a b
common_fuel k n zero b p q = common-zero k b ∙ sym (common-zero n b)
common_fuel zero n (suc a) b p q = absurd (omega arith)
common_fuel (suc k) zero (suc a) b p q = absurd (omega arith)
common_fuel (suc k) (suc n) (suc a) b p q =
    ap (λ (t : ℕ). t * 2 + min (suc a % 2) (b % 2))
      (common_fuel k n (suc a / 2) (b / 2) (omega arith) (omega arith))

-- The conjunction by its lowest digit.
bit_and_low : (a b : ℕ) → bit_and a b ≡ bit_and (a / 2) (b / 2) * 2 + min (a % 2) (b % 2)
bit_and_low zero b = simp bit_and-bitwise (omega arith)
bit_and_low (suc a) b = simp bit_and-bitwise (
    ap (λ (t : ℕ). t * 2 + min (suc a % 2) (b % 2))
      (common_fuel a (suc a / 2) (suc a / 2) (b / 2) (omega arith) (le_refl _)))

bit_and_self : (fuel a : ℕ) → a ≤ fuel → bit_and a a ≡ a
bit_and_self zero a h = let z : a ≡ 0 = omega arith in rw z refl
bit_and_self (suc fuel) zero h = refl
bit_and_self (suc fuel) (suc a) h =
    omega (arith, bit_and_low (suc a) (suc a), bit_and_self fuel (suc a / 2) (omega arith))

pub bit_and-pow2 : (i : ℕ) → bit_and (2 ^ i) (2 ^ i - 1) ≡ 0
bit_and-pow2 zero = refl
bit_and-pow2 (suc i) =
    let half : 2 ^ suc i / 2 ≡ 2 ^ i = omega (arith, pow2-suc i) in
    let half' : (2 ^ suc i - 1) / 2 ≡ 2 ^ i - 1 = omega (arith, pow2-suc i, pow2_pos i) in
    let low : 2 ^ suc i % 2 ≡ 0 = omega (arith, pow2-suc i) in
    let ih : bit_and (2 ^ suc i / 2) ((2 ^ suc i - 1) / 2) ≡ 0 =
      rw (half, half') (bit_and-pow2 i) in
    omega (arith, bit_and_low (2 ^ suc i) (2 ^ suc i - 1))

pub pow2-bit_and : (fuel m : ℕ) → m ≤ fuel → 1 ≤ m → bit_and m (m - 1) ≡ 0 → (i : ℕ) × (m ≡ 2 ^ i)
pow2-bit_and zero m h pos e = absurd (omega arith)
pow2-bit_and (suc fuel) m h pos e = elim (ℕ_discrete (m % 2) 0) [
  | yes even ↦
      let down : (m - 1) / 2 ≡ m / 2 - 1 = omega arith in
      let e' : bit_and (m / 2) (m / 2 - 1) ≡ 0 =
        omega (arith, bit_and_low m (m - 1), ap (bit_and (m / 2)) down) in
      let (i, q) = pow2-bit_and fuel (m / 2) (omega arith) (omega arith) e' in
      (suc i, omega (arith, pow2-suc i))
  | no odd ↦
      let down : (m - 1) / 2 ≡ m / 2 = omega arith in
      (
        0,
        omega (
          arith,
          bit_and_low m (m - 1),
          ap (bit_and (m / 2)) down,
          bit_and_self (m / 2) (m / 2) (le_refl _),
        ),
      )
]
