-- ===== src/Ledger/Flags.antt =====
-- What the flag of `subproof` does: it leaves out the root of the old tree, where that root is a
-- node of the new one.
use pzd.Base.{
  ℕ, zero, suc, ◌^◌, ◌≤◌, ◌<◌, ◌≡◌, ◌≢◌, arith, true, false, List, [], ◌∷◌, ◌++◌, length, ap, ◌∙◌,
  sym, refl, take, take_all, take-take, pow2-suc, pow2_pos, pow2_mono, exponent-lt,
}
use native.Mathlib.Decide.{dec_lt}
use pzd.Ledger.{Sha256, Hash, split, mth, subproof}
use pzd.Ledger.Split.{Fits, split_lem}
use pzd.Ledger.Tree.{front, back, length-front}
use pzd.Ledger.Subproof.{subproof_whole, subproof-front, subproof-back}

module _ (H : Sha256) where
  -- An old tree of a power of two leaves is full, and its root is the seed.
  pub subproof_full :
      (fuel i m : ℕ) (leaves : List Hash)
      → length leaves ≤ fuel
      → Fits (length leaves)
      → m ≡ 2 ^ i
      → m ≤ length leaves
      → subproof H m leaves false ≡ mth H (take m leaves) ∷ subproof H m leaves true
  subproof_full zero i m leaves fuel fits pow below = absurd (omega (arith, pow2_pos i))
  subproof_full (suc d) i m leaves fuel fits pow below = elim (dec_lt m (length leaves)) [
    | no whole ↦
        let e : m ≡ length leaves = omega arith in
        rw
          (
            e,
            subproof_whole H leaves false (omega (arith, pow2_pos i)),
            subproof_whole H leaves true (omega (arith, pow2_pos i)),
            take_all (length leaves) leaves (omega arith),
          )
          refl
    | yes part ↦
        let pos : 1 ≤ m = omega (arith, pow2_pos i) in
        let two : 2 ≤ length leaves = omega arith in
        let (jj, k, lo, hi) = split_lem (length leaves) two fits in
        let (fl, p, q) = length-front leaves two fits in
        let le : i < suc jj = exponent-lt i (suc jj) (omega (arith, pow2-suc jj)) in
        let fit : m ≤ split (length leaves) = omega (arith, pow2_mono i jj (omega arith)) in
        rw
          (
            subproof-front H m leaves false pos part fits fit,
            subproof-front H m leaves true pos part fits fit,
            ← (take-take m _ leaves fit),
          )
          (ap (λ xs. xs ++ (mth H (back leaves) ∷ []))
            (subproof_full d i m (front leaves) (omega arith) (omega arith) pow (omega arith)))
  ]

  -- Any other old root is no node of the new tree, and the flag makes no difference.
  pub subproof_part :
      (fuel m : ℕ) (leaves : List Hash)
      → length leaves ≤ fuel
      → Fits (length leaves)
      → 1 ≤ m
      → m < length leaves
      → ((i : ℕ) → m ≢ 2 ^ i)
      → subproof H m leaves true ≡ subproof H m leaves false
  subproof_part zero m leaves fuel fits pos below odd = absurd (omega arith)
  subproof_part (suc d) m leaves fuel fits pos below odd =
      let two : 2 ≤ length leaves = omega arith in
      let (jj, k, lo, hi) = split_lem (length leaves) two fits in
      let (fl, p, q) = length-front leaves two fits in
      elim (dec_lt (split (length leaves)) m) [
        | yes right ↦
            subproof-back H m leaves true below fits p right
            ∙ sym (subproof-back H m leaves false below fits p right)
        | no left ↦
            let ne : m ≢ 2 ^ jj = odd jj in
            rw
              (
                subproof-front H m leaves true pos below fits (omega arith),
                subproof-front H m leaves false pos below fits (omega arith),
              )
              (ap (λ xs. xs ++ (mth H (back leaves) ∷ []))
                (subproof_part d m (front leaves) (omega arith) (omega arith) pos (omega arith)
                  odd))
      ]
