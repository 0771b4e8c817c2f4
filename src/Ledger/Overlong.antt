-- ===== src/Ledger/Overlong.antt =====
-- `verify_inclusion` on paths that are longer than the audit path, which the code does not bound.
use pzd.Base.{
  ℕ, zero, suc, ◌+◌, ◌^◌, ◌≤◌, ◌<◌, ◌≡◌, ◌⊎◌, inl, inr, arith, true, false, Bool, List, [], ◌∷◌,
  length, ◌∙◌, sym, All, Bytes, All-take, All-drop, exponent-lt, pow2_mono,
}
use mathlib.Core.Path.{subst}
use native.Mathlib.Decide.{dec_lt}
use pzd.Ledger.{Sha256, Hash, leaf_hash, node_hash, mth, inclusion_loop}
use pzd.Ledger.Split.{Fits, split_lem}
use pzd.Ledger.Tree.{front, back, length-front, length-back, mth-node, mth_single}
use pzd.Ledger.Inclusion.{walk}
use pzd.Ledger.Collision.{
  IsHash, Collision, node_hash_binds, leaf_hash-IsHash, leaf_hash-ne-node_hash,
}
use pzd.Ledger.TwinBinding.{turns_right, climb, mth-IsHash}
use pzd.Ledger.Trace.{joined, loop_nil, loop_cons, rights, joined-IsHash}

module _ (H : Sha256) where
  -- A leaf of the log is the hash of an entry.
  abbrev pub IsLeaf : Hash → Type 0
  IsLeaf x = (e : Bytes) × (x ≡ leaf_hash H e)

  pub All-IsHash : (xs : List Hash) → All IsLeaf xs → All IsHash xs
  All-IsHash [] all = tt
  All-IsHash (x ∷ xs) ((e, q), all) = (rw q (leaf_hash-IsHash H e), All-IsHash xs all)

  -- `v` lies `k` rounds over `h`.
  pub data Over (h : Hash) : ℕ → Hash → Type 0 where
    here : Over h 0 h
    under_right :
        {k : ℕ} {u : Hash} (c : Hash) → IsHash c → Over h k u → Over h (suc k) (node_hash H c u)
    under_left :
        {k : ℕ} {u : Hash} (c : Hash) → IsHash u → Over h k u → Over h (suc k) (node_hash H u c)

  pub leaf_root :
      (leaves : List Hash) (l r : Hash)
      → length leaves ≡ 1
      → All IsLeaf leaves
      → node_hash H l r ≡ mth H leaves
      → Collision H
  leaf_root [] l r size all e = absurd (omega arith)
  leaf_root (x ∷ y ∷ rest) l r size all e = absurd (omega arith)
  leaf_root (x ∷ []) l r size ((a, q), all) e =
      leaf_hash-ne-node_hash H a l r (sym q ∙ sym (mth_single H x) ∙ sym e)

  -- A root joins the roots of the two parts only.
  pub root_parts :
      (leaves : List Hash) (l r : Hash)
      → 2 ≤ length leaves
      → Fits (length leaves)
      → All IsLeaf leaves
      → IsHash l
      → node_hash H l r ≡ mth H leaves
      → ((l ≡ mth H (front leaves)) × (r ≡ mth H (back leaves))) ⊎ Collision H
  root_parts leaves l r two fits all p e =
      let (fl, lo, hi) = length-front leaves two fits in
      node_hash_binds H l r (mth H (front leaves)) (mth H (back leaves)) p
        (mth-IsHash H (length leaves) (front leaves) (omega arith) (omega arith) (omega arith)
          (All-take IsHash _ leaves (All-IsHash leaves all)))
        (e ∙ mth-node H leaves two fits)

  -- A tree of at most 2^j leaves is no deeper than j.
  pub Over-deep :
      (h : Hash) (j : ℕ) (leaves : List Hash) {k : ℕ} {u : Hash}
      → All IsLeaf leaves
      → 1 ≤ length leaves
      → length leaves ≤ 2 ^ j
      → Fits (length leaves)
      → j < k
      → Over h k u
      → u ≡ mth H leaves
      → Collision H
  Over-deep h j leaves all pos size fits deep here e = absurd (omega arith)
  Over-deep h zero leaves all pos size fits deep (under_right c p o) e =
      leaf_root leaves c _ (omega arith) all e
  Over-deep h zero leaves all pos size fits deep (under_left c p o) e =
      leaf_root leaves _ c (omega arith) all e
  Over-deep h (suc j) leaves all pos size fits deep (under_right {u = u} c p o) e =
      elim (dec_lt 1 (length leaves)) [
        | no one ↦ leaf_root leaves c u (omega arith) all e
        | yes two ↦ elim (root_parts leaves c u two fits all p e) [
          | inr found ↦ found
          | inl (x, y) ↦
              let (jj, k, lo, hi) = split_lem (length leaves) two fits in
              let (fl, l1, l2) = length-front leaves two fits in
              let bl = length-back leaves in
              let lt : jj < suc j = exponent-lt jj (suc j) (omega arith) in
              Over-deep h j (back leaves) (All-drop IsLeaf _ leaves all) (omega arith)
                (omega (arith, pow2_mono jj j (omega arith))) (omega arith) (omega arith) o y
        ]
      ]
  Over-deep h (suc j) leaves all pos size fits deep (under_left {u = u} c p o) e =
      elim (dec_lt 1 (length leaves)) [
        | no one ↦ leaf_root leaves u c (omega arith) all e
        | yes two ↦ elim (root_parts leaves u c two fits all p e) [
          | inr found ↦ found
          | inl (x, y) ↦
              let (jj, k, lo, hi) = split_lem (length leaves) two fits in
              let (fl, l1, l2) = length-front leaves two fits in
              let lt : jj < suc j = exponent-lt jj (suc j) (omega arith) in
              Over-deep h j (front leaves) (All-take IsLeaf _ leaves all) (omega arith)
                (omega (arith, pow2_mono jj j (omega arith))) (omega arith) (omega arith) o x
        ]
      ]

  Over-joined :
      (b : Bool) (h u c : Hash) (k : ℕ)
      → IsHash u
      → IsHash c
      → Over h k u
      → Over h (suc k) (joined H b u c)
  Over-joined true h u c k p q o = under_right c q o
  Over-joined false h u c k p q o = under_left c p o

  pub Over-loop :
      (xs : List Hash) (f s k n : ℕ) (h u : Hash)
      → k + length xs ≡ n
      → All IsHash xs
      → IsHash u
      → Over h k u
      → Over h n (inclusion_loop H (walk f s u) xs).h
  Over-loop [] f s k n h u e all p o =
      let e' : k ≡ n = omega arith in rw (loop_nil H (walk f s u)) (subst (λ i. Over h i u) e' o)
  Over-loop (x ∷ xs) f s k n h u e all p o = rw (loop_cons H f s u x xs) (
      Over-loop xs (climb f s).0 (climb f s).1 (suc k) n h _ (omega arith) all.1
        (joined-IsHash H (turns_right f s) u x) (Over-joined (turns_right f s) h u x k p all.0 o))

  pub Over-rights :
      (xs : List Hash) (k n : ℕ) (h u : Hash)
      → k + length xs ≡ n
      → All IsHash xs
      → Over h k u
      → Over h n (rights H u xs)
  unfolding rights
  Over-rights [] k n h u e all o = let e' : k ≡ n = omega arith in subst (λ i. Over h i u) e' o
  Over-rights (x ∷ xs) k n h u e all o =
      Over-rights xs (suc k) n h (node_hash H x u) (omega arith) all.1 (under_right x all.0 o)
