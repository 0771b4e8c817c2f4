-- ===== src/Ledger/Inclusion.antt =====
-- `verify_inclusion` of transparency.rs on the audit paths that `inclusion` builds.
use pzd.Base.{
  ℕ, zero, suc, ◌+◌, ◌-◌, ◌*◌, ◌/◌, ◌^◌, ◌≤◌, ◌<◌, ◌≡◌, ◌≢◌, arith, true, List, [], ◌∷◌, ◌++◌,
  length, ap, ◌∙◌, some, get_elem?, get_elem?-take, get_elem?-drop, refl, pow2-suc, pow2_pos,
  mul-pow2-suc, mul-pow2-add, exponent-lt, halve, bytes_eq_refl,
}
use native.Mathlib.Decide.{dec_lt}
use pzd.Ledger.{
  Sha256, Hash, Walk, split, node_hash, mth, inclusion, inclusion_step, inclusion_loop,
  verify_inclusion,
}
use pzd.Ledger.Split.{Fits, split_lem, split_unique}
use pzd.Ledger.Tree.{
  front, back, length-front, length-back, mth-node, mth_single, inclusion-single, inclusion-front,
  inclusion-back,
}
use pzd.Ledger.Climb.{
  inclusion_loop-append, inclusion_loop_one, inclusion_step_left, inclusion_step_right,
  inclusion_step_last,
}

abbrev pub walk : ℕ → ℕ → Hash → Walk
walk f s h = record { f_n = f; s_n = s; h = h }

module _ (H : Sha256) where
  -- One more element at the end of the path.
  loop_last :
      (f s : ℕ) (h c : Hash) (xs : List Hash) {w u : Walk}
      → inclusion_loop H (walk f s h) xs ≡ w
      → inclusion_step H w c ≡ u
      → inclusion_loop H (walk f s h) (xs ++ (c ∷ [])) ≡ u
  loop_last f s h c xs e q =
      inclusion_loop-append H (walk f s h) xs (c ∷ [])
      ∙ ap (λ v. inclusion_loop H v (c ∷ [])) e
      ∙ inclusion_loop_one H _ c
      ∙ q

  -- The same under a left child, and under a right child.
  loop_left :
      (f t : ℕ) (h c : Hash) (xs : List Hash) {a s s' : ℕ} {l : Hash}
      → inclusion_loop H (walk f t h) xs ≡ walk (a * 2) s' l
      → s' ≢ a * 2
      → s' / 2 ≡ s
      → inclusion_loop H (walk f t h) (xs ++ (c ∷ [])) ≡ walk a s (node_hash H l c)
  loop_left f t h c xs {a} {s} {s'} {l} e ne up =
      loop_last f t h c xs e
        (inclusion_step_left H a (a * 2) l c s' refl ne ∙ ap (λ v. walk a v (node_hash H l c)) up)

  loop_right :
      (f t : ℕ) (h c : Hash) (xs : List Hash) {a s s' : ℕ} {l : Hash}
      → inclusion_loop H (walk f t h) xs ≡ walk (a * 2 + 1) s' l
      → s' / 2 ≡ s
      → inclusion_loop H (walk f t h) (xs ++ (c ∷ [])) ≡ walk a s (node_hash H c l)
  loop_right f t h c xs {a} {s} {s'} {l} e up =
      loop_last f t h c xs e
        (inclusion_step_right H a (a * 2 + 1) l c s' refl ∙ ap (λ v. walk a v (node_hash H c l)) up)

  pub single_leaf :
      (leaves : List Hash) (m : ℕ) (leaf : Hash)
      → length leaves ≡ 1
      → get_elem? leaves m ≡ some leaf
      → (m ≡ 0) × (inclusion H leaves m ≡ []) × (mth H leaves ≡ leaf)
  single_leaf [] m leaf e g = absurd (omega arith)
  single_leaf (x ∷ y ∷ r) m leaf e g = absurd (omega arith)
  single_leaf (x ∷ []) (suc m) leaf e g = cc
  single_leaf (x ∷ []) zero leaf e g = (refl, inclusion-single H x, mth_single H x ∙ ground arith)

  -- Under a full subtree that does not touch the right edge every level is one plain step.
  pub inclusion_full :
      (j a s r m f t : ℕ) (leaves : List Hash) (leaf : Hash)
      → length leaves ≡ 2 ^ j
      → Fits (length leaves)
      → m < 2 ^ j
      → a < s
      → r < 2 ^ j
      → f ≡ a * 2 ^ j + m
      → t ≡ s * 2 ^ j + r
      → get_elem? leaves m ≡ some leaf
      → inclusion_loop H (walk f t leaf) (inclusion H leaves m) ≡ walk a s (mth H leaves)
  inclusion_full zero a s r m f t leaves leaf size fits below left low fe te g =
      let (me, pe, re) = single_leaf leaves m leaf size g in
      let fe' : f ≡ a = omega arith in
      let te' : t ≡ s = omega arith in rw (pe, re, fe', te') (unfold inclusion_loop in refl)
  inclusion_full (suc j) a s r m f t leaves leaf size fits below left low fe te g =
      let two : 2 ≤ length leaves = omega (arith, pow2-suc j, pow2_pos j) in
      let k : split (length leaves) ≡ 2 ^ j =
        split_unique j (length leaves) fits (omega (arith, pow2-suc j, pow2_pos j))
          (omega (arith, pow2-suc j)) in
      let (fl, lo, hi) = length-front leaves two fits in
      let bl = length-back leaves in
      let (s', r', te', low', up) = halve j s r t te low in
      elim (dec_lt m (2 ^ j)) [
        | yes inside ↦
            rw (inclusion-front H leaves m two fits (omega arith), mth-node H leaves two fits)
              (loop_left f t leaf (mth H (back leaves)) (inclusion H (front leaves) m)
                (inclusion_full j (a * 2) s' r' m f t (front leaves) leaf (omega arith)
                  (omega arith) inside (omega arith) low' (omega (arith, mul-pow2-suc a j)) te'
                  (get_elem?-take _ m leaves (omega arith) ∙ g))
                (omega arith) up)
        | no outside ↦
            rw
              (
                inclusion-back H leaves m two fits (omega arith) (omega arith),
                mth-node H leaves two fits,
              )
              (loop_right f t leaf (mth H (front leaves))
                (inclusion H (back leaves) (m - split (length leaves)))
                (inclusion_full j (a * 2 + 1) s' r' (m - split (length leaves)) f t (back leaves)
                  leaf (omega (arith, pow2-suc j)) (omega arith) (omega (arith, pow2-suc j))
                  (omega arith) low' (omega (arith, mul-pow2-suc a j)) te'
                  (get_elem?-drop _ (m - split (length leaves)) m leaves (omega arith) ∙ g))
                up)
      ]

  -- Along the right edge of the tree the two numbers meet, and stay equal up to zeros.
  pub inclusion_edge :
      (fuel j a m f t : ℕ) (leaves : List Hash) (leaf : Hash)
      → length leaves ≤ fuel
      → length leaves ≤ 2 ^ j
      → Fits (length leaves)
      → m < length leaves
      → f ≡ a * 2 ^ j + m
      → t + 1 ≡ a * 2 ^ j + length leaves
      → get_elem? leaves m ≡ some leaf
      → (i : ℕ) × (inclusion_loop H (walk f t leaf) (inclusion H leaves m)
          ≡ walk (a * 2 ^ i) (a * 2 ^ i) (mth H leaves))
  inclusion_edge zero j a m f t leaves leaf fuel size fits below fe te g = absurd (omega arith)
  inclusion_edge (suc n) j a m f t leaves leaf fuel size fits below fe te g =
      elim (dec_lt 1 (length leaves)) [
        | no one ↦
            let (me, pe, re) = single_leaf leaves m leaf (omega arith) g in
            let fe' : f ≡ a * 2 ^ j = omega arith in
            let te' : t ≡ a * 2 ^ j = omega arith in
            (j, rw (pe, re, fe', te') (unfold inclusion_loop in refl))
        | yes two ↦
            let (jj, k, lo, hi) = split_lem (length leaves) two fits in
            let (fl, p, q) = length-front leaves two fits in
            let bl = length-back leaves in
            let up : jj < j = exponent-lt jj j (omega arith) in
            let d : ℕ = j - suc jj in
            let b : ℕ = a * 2 ^ d in
            let shift : a * 2 ^ j ≡ b * 2 ^ suc jj = mul-pow2-add a d (suc jj) j (omega arith) in
            (
              d,
              elim (dec_lt m (split (length leaves))) [
                | yes inside ↦
                    rw (inclusion-front H leaves m two fits inside, mth-node H leaves two fits)
                      (loop_left f t leaf (mth H (back leaves)) (inclusion H (front leaves) m)
                        (inclusion_full jj (b * 2) (b * 2 + 1)
                          (length leaves - split (length leaves) - 1) m f t (front leaves) leaf
                          (omega arith) (omega arith) (omega arith) (omega arith)
                          (omega (arith, pow2-suc jj)) (omega (arith, mul-pow2-suc b jj))
                          (omega (arith, mul-pow2-suc b jj)) (get_elem?-take _ m leaves inside ∙ g))
                        (omega arith) (omega arith))
                | no outside ↦
                    let (i, e) =
                      inclusion_edge n jj (b * 2 + 1) (m - split (length leaves)) f t (back leaves)
                        leaf (omega arith) (omega arith) (omega arith) (omega arith)
                        (omega (arith, mul-pow2-suc b jj)) (omega (arith, mul-pow2-suc b jj))
                        (get_elem?-drop _ (m - split (length leaves)) m leaves (omega arith) ∙ g) in
                    rw
                      (
                        inclusion-back H leaves m two fits (omega arith) below,
                        mth-node H leaves two fits,
                      )
                      (loop_last f t leaf (mth H (front leaves))
                        (inclusion H (back leaves) (m - split (length leaves))) e
                        (inclusion_step_last H b ((b * 2 + 1) * 2 ^ i) _ _ i refl))
              ],
            )
      ]

  -- For every log of fewer than 2^58 leaves and every index in it, the verifier accepts the leaf at
  -- that index with the audit path that the log hands out, against the log's root.
  pub verify_inclusion-inclusion :
      (leaves : List Hash) (m : ℕ) (leaf : Hash)
      → Fits (length leaves)
      → get_elem? leaves m ≡ some leaf
      → m < length leaves
      → verify_inclusion H leaf m (length leaves) (inclusion H leaves m) (mth H leaves) ≡ true
  unfolding verify_inclusion
  verify_inclusion-inclusion leaves m leaf fits g below =
      let (i, e) =
        inclusion_edge (length leaves) 58 0 m m (length leaves - 1) leaves leaf (omega arith)
          (omega arith) fits below (omega arith) (omega arith) g in
      ground (arith, e, bytes_eq_refl (mth H leaves))
