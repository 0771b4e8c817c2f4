-- ===== src/Ledger/Leaves.antt =====
-- Logs of one root have the same leaves, and of the same leaves the same entries.
use pzd.Base.{
  ℕ, zero, suc, ◌≤◌, ◌≡◌, ◌⊎◌, inl, inr, arith, List, [], ◌∷◌, ◌++◌, length, ap, ◌∙◌, sym, refl,
  All, take-append-drop, All-take, All-drop, Bytes,
}
use mathlib.Core.Path.{ap₂}
use pzd.Ledger.{Sha256, Hash, split, leaf_hash, mth}
use pzd.Ledger.Split.{Fits}
use pzd.Ledger.Tree.{front, back, length-front, length-back, mth-node, mth_single}
use pzd.Ledger.Collision.{IsHash, Collision, node_hash_binds, leaf_hash_binds}
use pzd.Ledger.TwinBinding.{mth-IsHash}
use pzd.Ledger.Audit.{leaves_of}

module _ (H : Sha256) where
  -- Two logs of one size and one root have the same leaves.
  pub mth_binds :
      (fuel : ℕ) (xs ys : List Hash)
      → length xs ≤ fuel
      → length xs ≡ length ys
      → Fits (length xs)
      → All IsHash xs
      → All IsHash ys
      → mth H xs ≡ mth H ys
      → (xs ≡ ys) ⊎ Collision H
  mth_binds fuel [] [] h l fits ax ay e = inl refl
  mth_binds fuel [] (y ∷ ys) h l fits ax ay e = absurd (omega arith)
  mth_binds fuel (x ∷ xs) [] h l fits ax ay e = absurd (omega arith)
  mth_binds fuel (x ∷ []) (y ∷ []) h l fits ax ay e =
      inl (ap (λ v. v ∷ []) (sym (mth_single H x) ∙ e ∙ mth_single H y))
  mth_binds fuel (x ∷ []) (y ∷ z ∷ ys) h l fits ax ay e = absurd (omega arith)
  mth_binds fuel (x ∷ z ∷ xs) (y ∷ []) h l fits ax ay e = absurd (omega arith)
  mth_binds zero (x ∷ u ∷ xs) (y ∷ v ∷ ys) h l fits ax ay e = absurd (omega arith)
  mth_binds (suc d) (x ∷ u ∷ xs) (y ∷ v ∷ ys) h l fits ax ay e =
      let a = x ∷ u ∷ xs in
      let b = y ∷ v ∷ ys in
      let (fa, la, ha) = length-front a (omega arith) fits in
      let (fb, lb, hb) = length-front b (omega arith) (omega arith) in
      let ba = length-back a in
      let bb = length-back b in
      let k : split (length a) ≡ split (length b) = ap split l in
      elim (node_hash_binds H (mth H (front a)) (mth H (back a)) (mth H (front b)) (mth H (back b))
        (mth-IsHash H (length a) (front a) (omega arith) (omega arith) (omega arith)
          (All-take IsHash _ a ax))
        (mth-IsHash H (length a) (front b) (omega arith) (omega arith) (omega arith)
          (All-take IsHash _ b ay))
        (sym (mth-node H a (omega arith) fits) ∙ e ∙ mth-node H b (omega arith) (omega arith))) [
          | inr found ↦ inr found
          | inl (p, q) ↦
              both
                (mth_binds d (front a) (front b) (omega arith) (omega arith) (omega arith)
                  (All-take IsHash _ a ax) (All-take IsHash _ b ay) p)
                (mth_binds d (back a) (back b) (omega arith) (omega arith) (omega arith)
                  (All-drop IsHash _ a ax) (All-drop IsHash _ b ay) q)
        ]
    where
      both :
          (front (x ∷ u ∷ xs) ≡ front (y ∷ v ∷ ys)) ⊎ Collision H
          → (back (x ∷ u ∷ xs) ≡ back (y ∷ v ∷ ys)) ⊎ Collision H
          → (x ∷ u ∷ xs ≡ y ∷ v ∷ ys) ⊎ Collision H
      both (inr found) q = inr found
      both (inl p) (inr found) = inr found
      both (inl p) (inl q) =
          inl
            (sym (take-append-drop _ (x ∷ u ∷ xs)) ∙ ap₂ ◌++◌ p q ∙ take-append-drop _ (y ∷ v ∷ ys))

  pub leaves_bind : (es ds : List Bytes) → leaves_of H es ≡ leaves_of H ds → (es ≡ ds) ⊎ Collision H
  unfolding leaves_of
  leaves_bind [] [] e = inl refl
  leaves_bind [] (d ∷ ds) e = absurd (omega (arith, ap length e))
  leaves_bind (a ∷ es) [] e = absurd (omega (arith, ap length e))
  leaves_bind (a ∷ es) (d ∷ ds) e =
      elim (leaf_hash_binds H a d (let q : leaf_hash H a ≡ leaf_hash H d = cc in q)) [
        | inr found ↦ inr found
        | inl p ↦ elim (leaves_bind es ds (let q : leaves_of H es ≡ leaves_of H ds = cc in q)) [
          | inl q ↦ inl (ap₂ ◌∷◌ p q)
          | inr found ↦ inr found
        ]
      ]
