-- ===== src/Ledger/Subproof.antt =====
-- `subproof` of transparency.rs by its split points, and the two values of its flag.
use pzd.Base.{
  ℕ, zero, suc, ◌-◌, ◌≤◌, ◌<◌, ◌≡◌, arith, ◌==◌, Bool-cases, false, Bool, List, [], ◌∷◌, ◌++◌,
  length, if◌then◌else◌, inl, inr,
}
use pzd.Ledger.{Sha256, Hash, split, mth, subproof_rec, subproof}
use pzd.Ledger.Split.{Fits}
use pzd.Ledger.Tree.{front, back, length-front, length-back}

module _ (H : Sha256) where
  subproof_fuel :
      (f g : ℕ) (m : ℕ) (leaves : List Hash) (b : Bool)
      → 1 ≤ m
      → m ≤ length leaves
      → Fits (length leaves)
      → length leaves ≤ f
      → length leaves ≤ g
      → subproof_rec H f m leaves b ≡ subproof_rec H g m leaves b
  unfolding subproof_rec
  subproof_fuel zero g m leaves b l h fits p q = absurd (omega arith)
  subproof_fuel (suc f) zero m leaves b l h fits p q = absurd (omega arith)
  subproof_fuel (suc f) (suc g) m leaves b l h fits p q = elim (Bool-cases (m == length leaves)) [
    | inl whole ↦ rw whole
    | inr part ↦
        let (e, lo, hi) = length-front leaves (ground arith) fits in
        let e' = length-back leaves in
        ground (
          arith,
          subproof_fuel f g m (front leaves) b,
          subproof_fuel f g (m - split (length leaves)) (back leaves) false,
        )
  ]

  pub subproof_whole :
      (leaves : List Hash) (b : Bool)
      → 1 ≤ length leaves
      → subproof H (length leaves) leaves b ≡ (if b then [] else mth H leaves ∷ [])
  unfolding subproof
  subproof_whole [] b h = absurd (omega arith)
  subproof_whole (x ∷ r) b h = ground arith

  pub subproof-front :
      (m : ℕ) (leaves : List Hash) (b : Bool)
      → 1 ≤ m
      → m < length leaves
      → Fits (length leaves)
      → m ≤ split (length leaves)
      → subproof H m leaves b ≡ subproof H m (front leaves) b ++ (mth H (back leaves) ∷ [])
  unfolding subproof
  subproof-front m [] b l h fits p = absurd (omega arith)
  subproof-front m (x ∷ r) b l h fits p =
      let (e, lo, hi) = length-front (x ∷ r) (omega arith) fits in
      ground (arith, subproof_fuel (length r) (length (front (x ∷ r))) m (front (x ∷ r)) b)

  pub subproof-back :
      (m : ℕ) (leaves : List Hash) (b : Bool)
      → m < length leaves
      → Fits (length leaves)
      → 1 ≤ split (length leaves)
      → split (length leaves) < m
      → subproof H m leaves b
        ≡ subproof H (m - split (length leaves)) (back leaves) false ++ (mth H (front leaves) ∷ [])
  unfolding subproof
  subproof-back m [] b h fits o p = absurd (omega arith)
  subproof-back m (x ∷ r) b h fits o p =
      let e' = length-back (x ∷ r) in
      ground (
        arith,
        subproof_fuel (length r) (length (back (x ∷ r))) (m - split (length (x ∷ r))) (back (x ∷ r))
            false,
      )
