-- ===== src/Ledger/Log.antt =====
-- The operations of `TransparencyLog`: appending, and what the queries answer before and after.
use pzd.Base.{
  ℕ, zero, suc, ◌+◌, ◌≤◌, ◌<◌, ◌≡◌, inl, inr, arith, List, [], ◌∷◌, ◌++◌, length, ap, none, some,
  refl, take, take_all, length-append, Bytes, get_elem?-append_left, get_elem?-append_right,
  get_elem?-none, get_elem?-some, Option-cases,
}
use pzd.Ledger.{
  Sha256, Hash, TransparencyLog, new, leaf_hash, mth, inclusion, size, leaf_at, append, root,
  root_at, inclusion_path, consistency_path,
}

pub size-new : size new ≡ 0
unfolding size new
size-new = refl

module _ (H : Sha256) where
  take-append_left : (n : ℕ) (xs ys : List Hash) → n ≤ length xs → take n (xs ++ ys) ≡ take n xs
  take-append_left zero xs ys h = refl
  take-append_left (suc n) [] ys h = absurd (omega arith)
  take-append_left (suc n) (x ∷ xs) ys h = ap (◌∷◌ x) (take-append_left n xs ys (omega arith))

  -- Appending returns the old size as the index, where the log then holds the entry's leaf hash, and
  -- grows the log by one. At every size up to the old one the root is answered as before, and so is
  -- the leaf at every index below it.
  pub append_lem :
      (log : TransparencyLog) (entry : Bytes)
      → let (log', idx) = append H log entry in
        (idx ≡ size log)
        × (size log' ≡ size log + 1)
        × (leaf_at log' idx ≡ some (leaf_hash H entry))
        × ((n : ℕ) → n ≤ size log → root_at H log' n ≡ root_at H log n)
        × ((i : ℕ) → i < size log → leaf_at log' i ≡ leaf_at log i)
  unfolding append size leaf_at root_at
  append_lem log entry = (
    refl,
    omega (arith, length-append log.leaves (leaf_hash H entry ∷ [])),
    get_elem?-append_right log.leaves (leaf_hash H entry) [],
    (λ n h. ground (
      arith,
      length-append log.leaves (leaf_hash H entry ∷ []),
      take-append_left n log.leaves (leaf_hash H entry ∷ []) h,
    )),
    λ i h. get_elem?-append_left log.leaves (leaf_hash H entry ∷ []) i h,
  )

  pub root_at-size : (log : TransparencyLog) → root_at H log (size log) ≡ some (root H log)
  unfolding root_at size root
  root_at-size log = ground (arith, take_all (length log.leaves) log.leaves)

  -- The queries answer on their whole range and refuse outside of it: a leaf and an audit path below
  -- the size, and an old root and a consistency proof up to the size.
  pub queries_answer :
      (log : TransparencyLog) (i : ℕ)
      → (i < size log
          → ((leaf : Hash) × (leaf_at log i ≡ some leaf))
            × ((path : List Hash) × (inclusion_path H log i ≡ some path)))
        × (size log ≤ i → (leaf_at log i ≡ none) × (inclusion_path H log i ≡ none))
        × (i ≤ size log
            → ((r : Hash) × (root_at H log i ≡ some r))
              × ((proof : List Hash) × (consistency_path H log i ≡ some proof)))
        × (size log < i → (root_at H log i ≡ none) × (consistency_path H log i ≡ none))
  unfolding size leaf_at inclusion_path root_at consistency_path
  queries_answer log i = (
    (λ h. (get_elem?-some log.leaves i h, (inclusion H log.leaves i, ground arith))),
    (λ h. (get_elem?-none log.leaves i h, ground arith)),
    (λ h. ((mth H (take i log.leaves), ground arith), answer h)),
    λ h. (ground arith, ground arith),
  )
    where
      answer : i ≤ length log.leaves → (proof : List Hash) × (consistency_path H log i ≡ some proof)
      answer h = elim (Option-cases (consistency_path H log i)) [
        | inl e ↦ absurd (ground arith)
        | inr found ↦ found
      ]
