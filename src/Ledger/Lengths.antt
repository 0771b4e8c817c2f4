-- ===== src/Ledger/Lengths.antt =====
-- The loop of `verify_inclusion` and the length of an audit path.
use pzd.Base.{
  ℕ, zero, suc, ◌-◌, ◌*◌, ◌/◌, ◌^◌, ◌≤◌, ◌<◌, ◌≡◌, ◌≢◌, inl, inr, arith, List, [], ◌∷◌, ◌++◌,
  length, ap, ◌∙◌, sym, some, take, drop, take-append-drop, length-take, length-append, get_elem?,
  get_elem?-some, get_elem?-take, get_elem?-drop, pow2_pos, Bool-cases, All, All-take, All-drop,
  All-append,
}
use native.Mathlib.Decide.{dec_lt}
use pzd.Ledger.{Sha256, Hash, split, mth, inclusion, strip_zeros, inclusion_loop}
use pzd.Ledger.Split.{Fits, split_lem}
use pzd.Ledger.Tree.{front, back, length-front, length-back, inclusion-front, inclusion-back}
use pzd.Ledger.Climb.{inclusion_loop-append}
use pzd.Ledger.Inclusion.{walk, inclusion_edge, inclusion_full, single_leaf}
use pzd.Ledger.Collision.{IsHash}
use pzd.Ledger.TwinBinding.{turns_right, climb, mth-IsHash}
use pzd.Ledger.Trace.{loop_nil, loop_cons, loop_trace, loop_rights, joined}
use pzd.Ledger.Binding.{walk-eta}

strip_zeros_order : (n f s : ℕ) → f ≤ s → (strip_zeros n f s).0 ≤ (strip_zeros n f s).1
unfolding strip_zeros
strip_zeros_order zero f s h = h
strip_zeros_order (suc n) f s h = ground (arith, strip_zeros_order n (f / 2) (s / 2) (omega arith))

climb_order : (f s : ℕ) → f ≤ s → (climb f s).0 ≤ (climb f s).1
climb_order f s h = elim (Bool-cases (turns_right f s)) [
  | inl right ↦ rw right (omega (arith, strip_zeros_order f f s h))
  | inr left ↦ rw left (omega arith)
]

module _ (H : Sha256) where
  loop_order :
      (xs : List Hash) (f s : ℕ) (h : Hash)
      → f ≤ s
      → (inclusion_loop H (walk f s h) xs).f_n ≤ (inclusion_loop H (walk f s h) xs).s_n
  loop_order [] f s h p = rw (loop_nil H (walk f s h)) p
  loop_order (x ∷ xs) f s h p = rw (loop_cons H f s h x xs) (
      loop_order xs (climb f s).0 (climb f s).1 (joined H (turns_right f s) h x)
        (climb_order f s p))

  -- The last round of an audit path starts below the top.
  last_round :
      (leaves : List Hash) (m : ℕ) (leaf : Hash)
      → 2 ≤ length leaves
      → Fits (length leaves)
      → m < length leaves
      → get_elem? leaves m ≡ some leaf
      → (ys : List Hash) × (c : Hash) × (inclusion H leaves m ≡ ys ++ (c ∷ []))
        × ((inclusion_loop H (walk m (length leaves - 1) leaf) ys).s_n ≢ 0)
  last_round leaves m leaf two fits below g =
      let (jj, k, lo, hi) = split_lem (length leaves) two fits in
      let (fl, p, q) = length-front leaves two fits in
      let bl = length-back leaves in
      elim (dec_lt m (split (length leaves))) [
        | yes inside ↦ (
          inclusion H (front leaves) m,
          mth H (back leaves),
          inclusion-front H leaves m two fits inside,
          nonzero _ 1 (omega arith) (
              ap (λ w. w.s_n)
                (inclusion_full H jj 0 1 (length leaves - split (length leaves) - 1) m m
                  (length leaves - 1) (front leaves) leaf (omega arith) (omega arith) (omega arith)
                  (omega arith) (omega arith) (omega arith) (omega arith)
                  (get_elem?-take _ m leaves inside ∙ g))),
        )
        | no outside ↦
            let (i, e) =
              inclusion_edge H (length leaves) jj 1 (m - split (length leaves)) m
                (length leaves - 1) (back leaves) leaf (omega arith) (omega arith) (omega arith)
                (omega arith) (omega arith) (omega arith)
                (get_elem?-drop _ (m - split (length leaves)) m leaves (omega arith) ∙ g) in
            (
              inclusion H (back leaves) (m - split (length leaves)),
              mth H (front leaves),
              inclusion-back H leaves m two fits (omega arith) below,
              nonzero _ (1 * 2 ^ i) (omega (arith, pow2_pos i)) (ap (λ w. w.s_n) e),
            )
      ]
    where
      nonzero : (s v : ℕ) → 1 ≤ v → s ≡ v → s ≢ 0
      nonzero s v h e z = omega arith

  -- Once at the top, the loop stays there.
  stays_at_top :
      (xs : List Hash) (q f s : ℕ) (h : Hash)
      → f ≤ s
      → (inclusion_loop H (walk f s h) (take q xs)).s_n ≡ 0
      → (inclusion_loop H (walk f s h) xs).s_n ≡ 0
  stays_at_top xs q f s h p z =
      let v = inclusion_loop H (walk f s h) (take q xs) in
      let top : v ≡ walk 0 0 v.h =
        walk-eta H v 0 0 (let o : v.f_n ≤ v.s_n = loop_order (take q xs) f s h p in omega arith)
          z in
      ap (λ u. u.s_n)
        (ap (inclusion_loop H (walk f s h)) (sym (take-append-drop q xs))
          ∙ inclusion_loop-append H (walk f s h) (take q xs) (drop q xs)
          ∙ ap (λ u. inclusion_loop H u (drop q xs)) top
          ∙ loop_rights H (drop q xs) v.h)

  -- A path that is shorter than the audit path does not reach the top.
  pub short_path :
      (leaves : List Hash) (m : ℕ) (leaf h : Hash) (path : List Hash)
      → Fits (length leaves)
      → m < length leaves
      → get_elem? leaves m ≡ some leaf
      → length path < length (inclusion H leaves m)
      → (inclusion_loop H (walk m (length leaves - 1) h) path).s_n ≢ 0
  short_path leaves m leaf h path fits below g short z = elim (dec_lt 1 (length leaves)) [
    | no one ↦
        let (e, p, r) = single_leaf H leaves m leaf (omega arith) g in
        absurd (omega (arith, ap length p))
    | yes two ↦
        let (ys, c, e, below_top) = last_round leaves m leaf two fits below g in
        let n = length path in
        let l : length path ≡ length (take n ys) =
          omega (arith, length-take n ys, ap length e, length-append ys (c ∷ [])) in
        below_top (
          stays_at_top ys n m (length leaves - 1) leaf (omega arith)
            (sym (loop_trace H path (take n ys) m (length leaves - 1) h leaf l).1 ∙ z))
  ]

  -- Every element of an audit path is a hash.
  pub inclusion-IsHash :
      (fuel m : ℕ) (leaves : List Hash)
      → length leaves ≤ fuel
      → m < length leaves
      → Fits (length leaves)
      → All IsHash leaves
      → All IsHash (inclusion H leaves m)
  inclusion-IsHash zero m leaves fuel below fits all = absurd (omega arith)
  inclusion-IsHash (suc d) m leaves fuel below fits all = elim (dec_lt 1 (length leaves)) [
    | no one ↦
        let (x, g) = get_elem?-some leaves m below in
        let (e, p, r) = single_leaf H leaves m x (omega arith) g in rw p tt
    | yes two ↦
        let (fl, p, q) = length-front leaves two fits in
        let bl = length-back leaves in
        let af = All-take IsHash (split (length leaves)) leaves all in
        let ab = All-drop IsHash (split (length leaves)) leaves all in
        elim (dec_lt m (split (length leaves))) [
          | yes inside ↦ rw (inclusion-front H leaves m two fits inside) (
              All-append IsHash _ _
                (inclusion-IsHash d m (front leaves) (omega arith) (omega arith) (omega arith) af)
                (mth-IsHash H d (back leaves) (omega arith) (omega arith) (omega arith) ab, tt))
          | no outside ↦ rw (inclusion-back H leaves m two fits (omega arith) below) (
              All-append IsHash _ _
                (inclusion-IsHash d (m - split (length leaves)) (back leaves) (omega arith)
                  (omega arith) (omega arith) ab)
                (mth-IsHash H d (front leaves) (omega arith) (omega arith) (omega arith) af, tt))
        ]
  ]
