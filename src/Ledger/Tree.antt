-- ===== src/Ledger/Tree.antt =====
-- The recursions of transparency.rs without their fuel: `mth`, `inclusion` and `subproof` by their
-- split points.
use pzd.Base.{
  ℕ, zero, suc, ◌-◌, ◌≤◌, ◌<◌, ◌≡◌, arith, ◌==◌, Bool-cases, List, [], ◌∷◌, ◌++◌, length, take,
  drop, length-take, length-drop, refl, inl, inr,
}
use mathlib.Core.Path.{ap₂}
use pzd.Ledger.{Sha256, Hash, split, node_hash, mth_rec, mth, inclusion_rec, inclusion}
use pzd.Ledger.Split.{Fits, split_bounds}

-- The two parts of a slice at its split point.
abbrev pub front : List Hash → List Hash
front leaves = take (split (length leaves)) leaves

abbrev pub back : List Hash → List Hash
back leaves = drop (split (length leaves)) leaves

pub length-front :
    (leaves : List Hash)
    → 2 ≤ length leaves
    → Fits (length leaves)
    → (length (front leaves) ≡ split (length leaves))
      × (1 ≤ split (length leaves))
      × (split (length leaves) < length leaves)
length-front leaves h fits =
    let (lo, hi) = split_bounds (length leaves) h fits in
    (omega (arith, length-take (split (length leaves)) leaves), lo, hi)

pub length-back :
    (leaves : List Hash) → length (back leaves) ≡ length leaves - split (length leaves)
length-back leaves = length-drop (split (length leaves)) leaves

module _ (H : Sha256) where
  mth_fuel :
      (f g : ℕ) (leaves : List Hash)
      → Fits (length leaves)
      → length leaves ≤ f
      → length leaves ≤ g
      → mth_rec H f leaves ≡ mth_rec H g leaves
  unfolding mth_rec
  mth_fuel f g [] fits p q = refl
  mth_fuel f g (x ∷ []) fits p q = refl
  mth_fuel zero g (x ∷ y ∷ r) fits p q = absurd (omega arith)
  mth_fuel (suc f) zero (x ∷ y ∷ r) fits p q = absurd (omega arith)
  mth_fuel (suc f) (suc g) (x ∷ y ∷ r) fits p q =
      let (e, lo, hi) = length-front (x ∷ y ∷ r) (omega arith) fits in
      let e' = length-back (x ∷ y ∷ r) in
      ap₂ (node_hash H) (mth_fuel f g (front (x ∷ y ∷ r)) (omega arith) (omega arith) (omega arith))
        (mth_fuel f g (back (x ∷ y ∷ r)) (omega arith) (omega arith) (omega arith))

  -- From two leaves on, the root joins the roots of the two parts.
  pub mth-node :
      (leaves : List Hash)
      → 2 ≤ length leaves
      → Fits (length leaves)
      → mth H leaves ≡ node_hash H (mth H (front leaves)) (mth H (back leaves))
  unfolding mth
  mth-node [] h fits = absurd (omega arith)
  mth-node (x ∷ []) h fits = absurd (omega arith)
  mth-node (x ∷ y ∷ r) h fits =
      let (e, lo, hi) = length-front (x ∷ y ∷ r) (omega arith) fits in
      let e' = length-back (x ∷ y ∷ r) in
      ap₂ (node_hash H)
        (mth_fuel (suc (length r)) (length (front (x ∷ y ∷ r))) (front (x ∷ y ∷ r)) (omega arith)
          (omega arith) (omega arith))
        (mth_fuel (suc (length r)) (length (back (x ∷ y ∷ r))) (back (x ∷ y ∷ r)) (omega arith)
          (omega arith) (omega arith))

  pub mth_single : (x : Hash) → mth H (x ∷ []) ≡ x
  unfolding mth
  mth_single x = refl

  inclusion_fuel :
      (f g : ℕ) (leaves : List Hash) (m : ℕ)
      → m < length leaves
      → Fits (length leaves)
      → length leaves ≤ f
      → length leaves ≤ g
      → inclusion_rec H f leaves m ≡ inclusion_rec H g leaves m
  unfolding inclusion_rec
  inclusion_fuel zero g leaves m h fits p q = absurd (omega arith)
  inclusion_fuel (suc f) zero leaves m h fits p q = absurd (omega arith)
  inclusion_fuel (suc f) (suc g) leaves m h fits p q = elim (Bool-cases (length leaves == 1)) [
    | inl one ↦ rw one
    | inr more ↦
        let (e, lo, hi) = length-front leaves (ground arith) fits in
        let e' = length-back leaves in
        ground (
          arith,
          inclusion_fuel f g (front leaves) m,
          inclusion_fuel f g (back leaves) (m - split (length leaves)),
        )
  ]

  pub inclusion-single : (x : Hash) → inclusion H (x ∷ []) 0 ≡ []
  unfolding inclusion
  inclusion-single x = refl

  pub inclusion-front :
      (leaves : List Hash) (m : ℕ)
      → 2 ≤ length leaves
      → Fits (length leaves)
      → m < split (length leaves)
      → inclusion H leaves m ≡ inclusion H (front leaves) m ++ (mth H (back leaves) ∷ [])
  unfolding inclusion
  inclusion-front [] m h fits p = absurd (omega arith)
  inclusion-front (x ∷ r) m h fits p =
      let (e, lo, hi) = length-front (x ∷ r) h fits in
      ground (arith, inclusion_fuel (length r) (length (front (x ∷ r))) (front (x ∷ r)) m)

  pub inclusion-back :
      (leaves : List Hash) (m : ℕ)
      → 2 ≤ length leaves
      → Fits (length leaves)
      → split (length leaves) ≤ m
      → m < length leaves
      → inclusion H leaves m
        ≡ inclusion H (back leaves) (m - split (length leaves)) ++ (mth H (front leaves) ∷ [])
  unfolding inclusion
  inclusion-back [] m h fits p q = absurd (omega arith)
  inclusion-back (x ∷ r) m h fits p q =
      let (e, lo, hi) = length-front (x ∷ r) h fits in
      let e' = length-back (x ∷ r) in
      ground (
        arith,
        inclusion_fuel (length r) (length (back (x ∷ r))) (back (x ∷ r))
            (m - split (length (x ∷ r))),
      )
