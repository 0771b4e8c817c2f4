-- ===== src/Ledger/Climb.antt =====
-- The rounds of the verifiers' loops, by where a node stands: a left child, a right child, or the
-- last node of its level.
use pzd.Base.{
  ℕ, zero, suc, ◌+◌, ◌*◌, ◌/◌, ◌%◌, ◌^◌, ◌≤◌, ◌<◌, ◌≡◌, ◌≢◌, arith, List, [], ◌∷◌, ◌++◌, refl,
  pow2-suc, pow2_pos, mul-pow2-suc,
}
use pzd.Ledger.{
  Sha256, Hash, Walk, node_hash, strip_zeros, strip_ones, inclusion_step, inclusion_loop,
}

-- An odd number is left as it is.
pub strip_zeros_odd : (fuel a s : ℕ) → strip_zeros fuel (a * 2 + 1) s ≡ (a * 2 + 1, s)
unfolding strip_zeros
strip_zeros_odd zero a s = refl
strip_zeros_odd (suc fuel) a s = ground arith

pub odd_pos : (a i : ℕ) → 1 ≤ (a * 2 + 1) * 2 ^ i
odd_pos a zero = omega arith
odd_pos a (suc i) = omega (arith, mul-pow2-suc (a * 2 + 1) i, odd_pos a i)

-- The zeros behind an odd number go.
pub strip_zeros_all :
    (fuel i a f : ℕ)
    → f ≡ (a * 2 + 1) * 2 ^ i
    → i ≤ fuel
    → strip_zeros fuel f f ≡ (a * 2 + 1, a * 2 + 1)
unfolding strip_zeros
strip_zeros_all fuel zero a f e h =
    let e' : f ≡ a * 2 + 1 = omega arith in rw e' (strip_zeros_odd fuel a (a * 2 + 1))
strip_zeros_all zero (suc i) a f e h = absurd (omega arith)
strip_zeros_all (suc fuel) (suc i) a f e h =
    let e' : f ≡ (a * 2 + 1) * 2 ^ i * 2 = omega (arith, mul-pow2-suc (a * 2 + 1) i) in
    let half : f / 2 ≡ (a * 2 + 1) * 2 ^ i = omega arith in
    let pos : 1 ≤ (a * 2 + 1) * 2 ^ i = odd_pos a i in
    ground (arith, strip_zeros_all fuel i a (f / 2) half)

pub exponent-le : (a i : ℕ) → i ≤ (a * 2 + 1) * 2 ^ i
exponent-le a zero = omega arith
exponent-le a (suc i) = omega (arith, mul-pow2-suc (a * 2 + 1) i, exponent-le a i, odd_pos a i)

-- The last ones of `a * 2 ^ suc j + (2 ^ j - 1)` are its `j` lowest digits.
pub strip_ones_all :
    (fuel j a s f t r : ℕ)
    → f + 1 ≡ a * 2 ^ suc j + 2 ^ j
    → t ≡ s * 2 ^ j + r
    → r < 2 ^ j
    → j ≤ fuel
    → strip_ones fuel f t ≡ (a * 2, s)
unfolding strip_ones
strip_ones_all zero zero a s f t r e q h l = ground arith
strip_ones_all (suc fuel) zero a s f t r e q h l = ground arith
strip_ones_all zero (suc j) a s f t r e q h l = absurd (omega arith)
strip_ones_all (suc fuel) (suc j) a s f t r e q h l =
    let fe : f / 2 + 1 ≡ a * 2 ^ suc j + 2 ^ j =
      omega (arith, mul-pow2-suc a (suc j), pow2-suc j, pow2_pos j) in
    let odd : f % 2 ≡ 1 = omega (arith, mul-pow2-suc a (suc j), pow2-suc j, pow2_pos j) in
    let te : t / 2 ≡ s * 2 ^ j + r / 2 = omega (arith, mul-pow2-suc s j) in
    ground
      (arith, strip_ones_all fuel j a s (f / 2) (t / 2) (r / 2) fe te (omega (arith, pow2-suc j)))

module _ (H : Sha256) where
  pub inclusion_loop-append :
      (w : Walk) (xs ys : List Hash)
      → inclusion_loop H w (xs ++ ys) ≡ inclusion_loop H (inclusion_loop H w xs) ys
  unfolding inclusion_loop
  inclusion_loop-append w [] ys = refl
  inclusion_loop-append w (x ∷ xs) ys = inclusion_loop-append (inclusion_step H w x) xs ys

  pub inclusion_loop_one :
      (w : Walk) (x : Hash) → inclusion_loop H w (x ∷ []) ≡ inclusion_step H w x
  unfolding inclusion_loop
  inclusion_loop_one w x = refl

  module _ (a f : ℕ) (h c : Hash) where
    pub inclusion_step_left :
        (s : ℕ)
        → f ≡ a * 2
        → s ≢ f
        → inclusion_step H (record { f_n = f; s_n = s; h = h }) c
          ≡ record { f_n = a; s_n = s / 2; h = node_hash H h c }
    unfolding inclusion_step
    inclusion_step_left s e ne = ground arith

    pub inclusion_step_right :
        (s : ℕ)
        → f ≡ a * 2 + 1
        → inclusion_step H (record { f_n = f; s_n = s; h = h }) c
          ≡ record { f_n = a; s_n = s / 2; h = node_hash H c h }
    unfolding inclusion_step
    inclusion_step_right s e = ground (arith, strip_zeros_odd f a s)

    pub inclusion_step_last :
        (i : ℕ)
        → f ≡ (a * 2 + 1) * 2 ^ i
        → inclusion_step H (record { f_n = f; s_n = f; h = h }) c
          ≡ record { f_n = a; s_n = a; h = node_hash H c h }
    unfolding inclusion_step
    inclusion_step_last i e = ground (arith, strip_zeros_all f i a f e, exponent-le a i)
