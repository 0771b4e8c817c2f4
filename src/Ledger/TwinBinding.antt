-- ===== src/Ledger/TwinBinding.antt =====
-- `verify_consistency` and the root of the prefix of the old size.
use pzd.Base.{
  ℕ, zero, suc, ◌-◌, ◌/◌, ◌%◌, ◌≤◌, ◌≡◌, ◌≢◌, ◌⊎◌, inl, inr, arith, true, false, Bool, ◌||◌, List,
  [], ◌∷◌, length, ap, ◌∙◌, sym, Option, none, some, refl, All, Bool-cases, ◌==◌, if◌then◌else◌,
  All-take, All-drop, All-append,
}
use native.Mathlib.Decide.{dec_lt, ℕ_discrete}
use pzd.Ledger.{
  Sha256, Hash, TwinWalk, split, node_hash, mth, subproof, strip_zeros, consistency_step,
  consistency_loop,
}
use pzd.Ledger.Split.{Fits}
use pzd.Ledger.Tree.{front, back, length-front, length-back, mth-node, mth_single}
use pzd.Ledger.Subproof.{subproof_whole, subproof-front, subproof-back}
use pzd.Ledger.Twin.{twin}
use pzd.Ledger.Collision.{IsHash, Collision, node_hash_binds, node_hash-IsHash}

abbrev pub turns_right : ℕ → ℕ → Bool
turns_right f s = f % 2 == 1 || f == s

-- Where a round leaves the two numbers, whatever the hashes are.
abbrev pub climb : ℕ → ℕ → ℕ × ℕ
climb f s =
    if turns_right f s
    then ((strip_zeros f f s).0 / 2, (strip_zeros f f s).1 / 2)
    else (f / 2, s / 2)

module _ (H : Sha256) where
  pub mth-IsHash :
      (fuel : ℕ) (leaves : List Hash)
      → length leaves ≤ fuel
      → 1 ≤ length leaves
      → Fits (length leaves)
      → All IsHash leaves
      → IsHash (mth H leaves)
  mth-IsHash fuel [] h pos fits all = absurd (omega arith)
  mth-IsHash fuel (x ∷ []) h pos fits all = rw (mth_single H x) all.0
  mth-IsHash fuel (x ∷ y ∷ r) h pos fits all =
      rw (mth-node H (x ∷ y ∷ r) (omega arith) fits) (node_hash-IsHash H _ _)

  step_zero : (f : ℕ) (fr sr c : Hash) → consistency_step H (twin f 0 fr sr) c ≡ none
  unfolding consistency_step
  step_zero f fr sr c = refl

  loop_zero :
      (f s : ℕ) (fr sr c : Hash) (cs : List Hash) (w : TwinWalk)
      → s ≡ 0
      → consistency_loop H (twin f s fr sr) (c ∷ cs) ≡ some w
      → ⊥
  unfolding consistency_loop
  loop_zero f s fr sr c cs w z e = none≢some (rw (z, step_zero f fr sr c, consistency_loop) at e)
    where
      none≢some : none ≡ some w → ⊥
      none≢some q = cc

  loop_right :
      (f s : ℕ) (fr sr c : Hash) (cs : List Hash)
      → s ≢ 0
      → turns_right f s ≡ true
      → consistency_loop H (twin f s fr sr) (c ∷ cs)
        ≡ consistency_loop H
            (twin (climb f s).0 (climb f s).1 (node_hash H c fr) (node_hash H c sr))
            cs
  unfolding consistency_loop
  loop_right f s fr sr c cs nz right =
      ap (λ (o : Option TwinWalk). elim o [ none ↦ none | some v ↦ consistency_loop H v cs ])
        (let e : consistency_step H (twin f s fr sr) c
              ≡ some (twin (climb f s).0 (climb f s).1 (node_hash H c fr) (node_hash H c sr)) =
            unfold consistency_step in ground arith in
          e)

  loop_left :
      (f s : ℕ) (fr sr c : Hash) (cs : List Hash)
      → s ≢ 0
      → turns_right f s ≡ false
      → consistency_loop H (twin f s fr sr) (c ∷ cs)
        ≡ consistency_loop H (twin (climb f s).0 (climb f s).1 fr (node_hash H sr c)) cs
  unfolding consistency_loop
  loop_left f s fr sr c cs nz left =
      ap (λ (o : Option TwinWalk). elim o [ none ↦ none | some v ↦ consistency_loop H v cs ])
        (let e : consistency_step H (twin f s fr sr) c
              ≡ some (twin (climb f s).0 (climb f s).1 fr (node_hash H sr c)) =
            unfold consistency_step in ground arith in
          e)

  -- Two proofs that lead from the same place to the same new root, both to the top of the tree.
  pub loops_bind :
      (xs ys : List Hash) (f s : ℕ) (fr sr fr' sr' : Hash) (w w' : TwinWalk)
      → All IsHash xs
      → All IsHash ys
      → IsHash sr
      → IsHash sr'
      → consistency_loop H (twin f s fr sr) xs ≡ some w
      → consistency_loop H (twin f s fr' sr') ys ≡ some w'
      → w.s_n ≡ 0
      → w'.s_n ≡ 0
      → w.sr ≡ w'.sr
      → ((xs ≡ ys) × (sr ≡ sr')) ⊎ Collision H
  unfolding consistency_loop
  loops_bind [] [] f s fr sr fr' sr' w w' ax ay hs hs' e e' z z' q = inl (refl, ground arith)
  loops_bind [] (y ∷ ys) f s fr sr fr' sr' w w' ax ay hs hs' e e' z z' q =
      absurd (loop_zero f s fr' sr' y ys w' (ground arith) e')
  loops_bind (x ∷ xs) [] f s fr sr fr' sr' w w' ax ay hs hs' e e' z z' q =
      absurd (loop_zero f s fr sr x xs w (ground arith) e)
  loops_bind (x ∷ xs) (y ∷ ys) f s fr sr fr' sr' w w' ax ay hs hs' e e' z z' q =
      elim (ℕ_discrete s 0) [
        | yes top ↦ absurd (loop_zero f s fr sr x xs w top e)
        | no nz ↦ elim (Bool-cases (turns_right f s)) [
          | inl right ↦ joined_right (
              loops_bind xs ys _ _ _ _ _ _ w w' ax.1 ay.1 (node_hash-IsHash H x sr)
                (node_hash-IsHash H y sr') (sym (loop_right f s fr sr x xs nz right) ∙ e)
                (sym (loop_right f s fr' sr' y ys nz right) ∙ e') z z' q)
          | inr left ↦ joined_left (
              loops_bind xs ys _ _ _ _ _ _ w w' ax.1 ay.1 (node_hash-IsHash H sr x)
                (node_hash-IsHash H sr' y) (sym (loop_left f s fr sr x xs nz left) ∙ e)
                (sym (loop_left f s fr' sr' y ys nz left) ∙ e') z z' q)
        ]
      ]
    where
      joined_right :
          ((xs ≡ ys) × (node_hash H x sr ≡ node_hash H y sr')) ⊎ Collision H
          → ((x ∷ xs ≡ y ∷ ys) × (sr ≡ sr')) ⊎ Collision H
      joined_right (inr found) = inr found
      joined_right (inl (tails, heads)) = elim (node_hash_binds H x sr y sr' ax.0 ay.0 heads) [
        | inl (a, b) ↦ inl (cc, b)
        | inr found ↦ inr found
      ]

      joined_left :
          ((xs ≡ ys) × (node_hash H sr x ≡ node_hash H sr' y)) ⊎ Collision H
          → ((x ∷ xs ≡ y ∷ ys) × (sr ≡ sr')) ⊎ Collision H
      joined_left (inr found) = inr found
      joined_left (inl (tails, heads)) = elim (node_hash_binds H sr x sr' y hs hs' heads) [
        | inl (a, b) ↦ inl (cc, a)
        | inr found ↦ inr found
      ]

  -- Every element of an honest proof is a hash.
  pub subproof-IsHash :
      (fuel m : ℕ) (leaves : List Hash) (b : Bool)
      → length leaves ≤ fuel
      → 1 ≤ m
      → m ≤ length leaves
      → Fits (length leaves)
      → All IsHash leaves
      → All IsHash (subproof H m leaves b)
  subproof-IsHash zero m leaves b fuel pos below fits all = absurd (omega arith)
  subproof-IsHash (suc d) m leaves b fuel pos below fits all = elim (dec_lt m (length leaves)) [
    | no whole ↦
        let e : m ≡ length leaves = omega arith in
        rw (e, subproof_whole H leaves b (omega arith)) (whole_proof b)
    | yes part ↦
        let (fl, p, q) = length-front leaves (omega arith) fits in
        let bl = length-back leaves in
        let af = All-take IsHash (split (length leaves)) leaves all in
        let ab = All-drop IsHash (split (length leaves)) leaves all in
        elim (dec_lt (split (length leaves)) m) [
          | yes right ↦ rw (subproof-back H m leaves b part fits p right) (
              All-append IsHash _ _
                (subproof-IsHash d (m - split (length leaves)) (back leaves) false (omega arith)
                  (omega arith) (omega arith) (omega arith) ab)
                (mth-IsHash d (front leaves) (omega arith) (omega arith) (omega arith) af, tt))
          | no left ↦ rw (subproof-front H m leaves b pos part fits (omega arith)) (
              All-append IsHash _ _
                (subproof-IsHash d m (front leaves) b (omega arith) pos (omega arith) (omega arith)
                  af)
                (mth-IsHash d (back leaves) (omega arith) (omega arith) (omega arith) ab, tt))
        ]
  ]
    where
      whole_proof : (b : Bool) → All IsHash (if b then [] else mth H leaves ∷ [])
      whole_proof true = tt
      whole_proof false = (mth-IsHash (suc d) leaves fuel (omega arith) fits all, tt)
