-- ===== src/Ledger/Binding.antt =====
-- `verify_inclusion` and the leaf of the log at the index.
use pzd.Base.{
  ℕ, zero, suc, ◌+◌, ◌-◌, ◌*◌, ◌^◌, ◌≤◌, ◌<◌, ◌≡◌, inl, inr, arith, List, [], ◌∷◌, ◌++◌, length, ap,
  ◌∙◌, sym, refl, All, All-drop, All-left, All-right, length-append, get_elem?-some, mul-pow2-suc,
  mul-pow2-add, exponent-lt, pow2-suc, pow2_pos,
}
use mathlib.Core.Path.{subst}
use native.Mathlib.Decide.{dec_lt}
use pzd.Ledger.{Sha256, Hash, Walk, split, node_hash, mth, inclusion, inclusion_loop}
use pzd.Ledger.Split.{Fits, split_lem, split_unique}
use pzd.Ledger.Tree.{front, back, length-front, length-back, inclusion-front, inclusion-back}
use pzd.Ledger.Climb.{inclusion_loop-append, inclusion_loop_one, inclusion_step_last}
use pzd.Ledger.Inclusion.{walk, inclusion_edge, single_leaf}
use pzd.Ledger.Collision.{IsHash, Collision}
use pzd.Ledger.Trace.{loop_trace, rights}
use pzd.Ledger.Overlong.{IsLeaf, here, Over-deep, Over-loop, Over-rights, root_parts, leaf_root}

-- A list from its last element.
abbrev pub Snoc : List Hash → Type 0
Snoc xs = (ys : List Hash) × (y : Hash) × (xs ≡ ys ++ (y ∷ []))

pub last_of : (x : Hash) (xs : List Hash) → Snoc (x ∷ xs)
last_of x [] = ([], x, refl)
last_of x (y ∷ ys) = let (zs, z, e) = last_of y ys in (x ∷ zs, z, ap (◌∷◌ x) e)

last_of_length : (n : ℕ) (xs : List Hash) → length xs ≡ suc n → Snoc xs
last_of_length n [] e = absurd (omega arith)
last_of_length n (x ∷ xs) e = last_of x xs

module _ (H : Sha256) where
  -- The audit path under a full subtree has its height.
  length-inclusion_full :
      (j m : ℕ) (leaves : List Hash)
      → length leaves ≡ 2 ^ j
      → Fits (length leaves)
      → m < 2 ^ j
      → length (inclusion H leaves m) ≡ j
  length-inclusion_full zero m leaves size fits below =
      let (x, g) = get_elem?-some leaves m (omega arith) in
      let (e, p, r) = single_leaf H leaves m x size g in rw p refl
  length-inclusion_full (suc j) m leaves size fits below =
      let two : 2 ≤ length leaves = omega (arith, pow2-suc j, pow2_pos j) in
      let k : split (length leaves) ≡ 2 ^ j =
        split_unique j (length leaves) fits (omega (arith, pow2-suc j, pow2_pos j))
          (omega (arith, pow2-suc j)) in
      let (fl, lo, hi) = length-front leaves two fits in
      let bl = length-back leaves in
      elim (dec_lt m (2 ^ j)) [
        | yes inside ↦
            let ih = length-inclusion_full j m (front leaves) (omega arith) (omega arith) inside in
            rw (inclusion-front H leaves m two fits (omega arith)) (
              omega
                (arith, length-append (inclusion H (front leaves) m) (mth H (back leaves) ∷ [])))
        | no outside ↦
            let ih =
              length-inclusion_full j (m - split (length leaves)) (back leaves)
                (omega (arith, pow2-suc j)) (omega arith) (omega (arith, pow2-suc j)) in
            rw (inclusion-back H leaves m two fits (omega arith) (omega arith)) (
              omega (
                arith,
                length-append (inclusion H (back leaves) (m - split (length leaves)))
                    (mth H (front leaves) ∷ []),
              ))
      ]

  pub rights-append :
      (xs : List Hash) (h c : Hash) → rights H h (xs ++ (c ∷ [])) ≡ node_hash H c (rights H h xs)
  unfolding rights
  rights-append [] h c = refl
  rights-append (x ∷ xs) h c = rights-append xs (node_hash H x h) c

  pub walk-eta : (w : Walk) (f s : ℕ) → w.f_n ≡ f → w.s_n ≡ s → w ≡ walk f s w.h
  walk-eta w f s p q = λ i. record { f_n = p i; s_n = q i; h = w.h }

  -- The last round of a path along the right edge, whatever its elements are.
  edge_round :
      (xs ys : List Hash) (x : Hash) (f t b i : ℕ) (h leaf : Hash) (r : Hash)
      → length xs ≡ length ys
      → inclusion_loop H (walk f t leaf) ys ≡ walk ((b * 2 + 1) * 2 ^ i) ((b * 2 + 1) * 2 ^ i) r
      → (inclusion_loop H (walk f t h) (xs ++ (x ∷ []))).h
        ≡ node_hash H x (inclusion_loop H (walk f t h) xs).h
  edge_round xs ys x f t b i h leaf r l e =
      let (p, q) = loop_trace H xs ys f t h leaf l in
      let v : ℕ = (b * 2 + 1) * 2 ^ i in
      let w =
        walk-eta (inclusion_loop H (walk f t h) xs) v v (p ∙ ap (λ u. u.f_n) e)
          (q ∙ ap (λ u. u.s_n) e) in
      ap (λ u. u.h)
        (inclusion_loop-append H (walk f t h) xs (x ∷ [])
          ∙ ap (λ u. inclusion_loop H u (x ∷ [])) w
          ∙ inclusion_loop_one H _ x
          ∙ inclusion_step_last H b v _ x i refl)

  regroup :
      (xs : List Hash) (u : Hash) (xs' ys ys' : List Hash) (x c : Hash) (f t : ℕ) (h r : Hash)
      → xs ≡ xs' ++ (x ∷ [])
      → x ∷ ys ≡ ys' ++ (c ∷ [])
      → (inclusion_loop H (walk f t h) (xs' ++ (x ∷ []))).h ≡ node_hash H x u
      → rights H (inclusion_loop H (walk f t h) xs).h ys ≡ r
      → node_hash H c (rights H u ys') ≡ r
  regroup xs u xs' ys ys' x c f t h r ex ey round e =
      sym (rights-append ys' u c)
      ∙ ap (rights H u) (sym ey)
      ∙ unfold rights in
        ap (λ v. rights H v ys) (sym round ∙ ap (λ v. (inclusion_loop H (walk f t h) v).h) (sym ex))
        ∙ e

  -- Under a left child the path alone is longer than the other part is deep.
  overlong_front :
      (jj m f t : ℕ) (leaves xs ys : List Hash) (h : Hash)
      → 2 ≤ length leaves
      → Fits (length leaves)
      → m < split (length leaves)
      → split (length leaves) ≡ 2 ^ jj
      → length leaves ≤ 2 ^ jj * 2
      → All (IsLeaf H) leaves
      → All IsHash xs
      → All IsHash ys
      → IsHash h
      → length xs ≡ length (inclusion H leaves m)
      → rights H (inclusion_loop H (walk f t h) xs).h ys ≡ mth H (back leaves)
      → Collision H
  overlong_front jj m f t leaves xs ys h two fits inside k hi all ax ay hh l e =
      let (fl, p, q) = length-front leaves two fits in
      let bl = length-back leaves in
      let height : length xs ≡ suc jj = omega (
        arith,
        ap length (inclusion-front H leaves m two fits inside),
        length-append (inclusion H (front leaves) m) (mth H (back leaves) ∷ []),
        length-inclusion_full jj m (front leaves) (omega arith) (omega arith) (omega arith),
      ) in
      Over-deep H h jj (back leaves) (All-drop (IsLeaf H) _ leaves all) (omega arith) (omega arith)
        (omega arith) (omega arith)
        (Over-rights H ys (length xs) (length xs + length ys) h _ refl ay
          (Over-loop H xs f t 0 (length xs) h h (omega arith) ax hh here))
        e

  -- A path that goes on behind the top of the tree ends below a leaf.
  pub overlong :
      (fuel j a m f t : ℕ) (leaves xs ys : List Hash) (c h : Hash)
      → length leaves ≤ fuel
      → length leaves ≤ 2 ^ j
      → Fits (length leaves)
      → m < length leaves
      → f ≡ a * 2 ^ j + m
      → t + 1 ≡ a * 2 ^ j + length leaves
      → All (IsLeaf H) leaves
      → All IsHash xs
      → All IsHash ys
      → IsHash c
      → IsHash h
      → length xs ≡ length (inclusion H leaves m)
      → node_hash H c (rights H (inclusion_loop H (walk f t h) xs).h ys) ≡ mth H leaves
      → Collision H
  overlong zero j a m f t leaves xs ys c h fuel size fits below fe te all ax ay hc hh l e =
      absurd (omega arith)
  overlong (suc d) j a m f t leaves xs ys c h fuel size fits below fe te all ax ay hc hh l e =
      elim (dec_lt 1 (length leaves)) [
        | no one ↦ leaf_root H leaves c _ (omega arith) all e
        | yes two ↦ elim (root_parts H leaves c _ two fits all hc e) [
          | inr found ↦ found
          | inl (x, y) ↦
              let (jj, k, lo, hi) = split_lem (length leaves) two fits in
              let (fl, p, q) = length-front leaves two fits in
              let bl = length-back leaves in
              elim (dec_lt m (split (length leaves))) [
                | yes inside ↦
                    overlong_front jj m f t leaves xs ys h two fits inside k hi all ax ay hh l y
                | no outside ↦
                    let up : jj < j = exponent-lt jj j (omega arith) in
                    let b : ℕ = a * 2 ^ (j - suc jj) in
                    let shift : a * 2 ^ j ≡ b * 2 ^ suc jj =
                      mul-pow2-add a (j - suc jj) (suc jj) j (omega arith) in
                    let m' : ℕ = m - split (length leaves) in
                    let size' : length xs ≡ suc (length (inclusion H (back leaves) m')) = omega (
                      arith,
                      ap length (inclusion-back H leaves m two fits (omega arith) below),
                      length-append (inclusion H (back leaves) m') (mth H (front leaves) ∷ []),
                    ) in
                    let (xs', x1, ex) = last_of_length _ xs size' in
                    let (ys', c', ey) = last_of x1 ys in
                    let (leaf, g) = get_elem?-some (back leaves) m' (omega arith) in
                    let (i, er) =
                      inclusion_edge H (length leaves) jj (b * 2 + 1) m' f t (back leaves) leaf
                        (omega arith) (omega arith) (omega arith) (omega arith)
                        (omega (arith, mul-pow2-suc b jj)) (omega (arith, mul-pow2-suc b jj)) g in
                    let l' : length xs' ≡ length (inclusion H (back leaves) m') =
                      omega (arith, ap length ex, length-append xs' (x1 ∷ [])) in
                    let ax' : All IsHash (xs' ++ (x1 ∷ [])) = subst (All IsHash) ex ax in
                    let h1 : IsHash x1 = (All-right IsHash xs' (x1 ∷ []) ax').0 in
                    let ay' : All IsHash (ys' ++ (c' ∷ [])) = subst (All IsHash) ey (h1, ay) in
                    overlong d jj (b * 2 + 1) m' f t (back leaves) xs' ys' c' h (omega arith)
                      (omega arith) (omega arith) (omega arith) (omega (arith, mul-pow2-suc b jj))
                      (omega (arith, mul-pow2-suc b jj)) (All-drop (IsLeaf H) _ leaves all)
                      (All-left IsHash xs' (x1 ∷ []) ax') (All-left IsHash ys' (c' ∷ []) ay')
                      (All-right IsHash ys' (c' ∷ []) ay').0 hh l'
                      (regroup xs (inclusion_loop H (walk f t h) xs').h xs' ys ys' x1 c' f t h _ ex
                        ey (edge_round xs' (inclusion H (back leaves) m') x1 f t b i h leaf _ l' er)
                        y)
              ]
        ]
      ]
