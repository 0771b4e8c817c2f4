-- ===== src/Ledger/Consistency.antt =====
-- What the loop of `verify_consistency` recomputes from the proof of `subproof`.
use pzd.Base.{
  ℕ, zero, suc, ◌+◌, ◌-◌, ◌*◌, ◌/◌, ◌^◌, ◌≤◌, ◌<◌, ◌≡◌, ◌≢◌, arith, false, List, [], ◌∷◌, ◌++◌,
  length, ap, ◌∙◌, sym, some, refl, take, drop, take_all, take-take, drop-take, length-take,
  pow2-suc, pow2_pos, lt-pow2, mul-pow2-suc, mul-pow2-add, exponent-lt, halve,
}
use mathlib.Core.Path.{ap₂, subst}
use native.Mathlib.Decide.{dec_lt}
use pzd.Ledger.{
  Sha256, Hash, TwinWalk, split, node_hash, mth, subproof, strip_ones, consistency_step,
  consistency_loop,
}
use pzd.Ledger.Split.{Fits, split_lem, split_unique}
use pzd.Ledger.Tree.{front, back, length-front, length-back, mth-node}
use pzd.Ledger.Subproof.{subproof_whole, subproof-front, subproof-back}
use pzd.Ledger.Climb.{strip_ones_all}
use pzd.Ledger.Twin.{twin, twin_last, twin_step_left, twin_step_right, twin_step_last}

module _ (H : Sha256) where
  -- A prefix that reaches into the second part has the same first part.
  pub mth-take-back :
      (jj m : ℕ) (leaves : List Hash)
      → Fits (length leaves)
      → split (length leaves) ≡ 2 ^ jj
      → length leaves ≤ 2 ^ jj * 2
      → 2 ^ jj < m
      → m ≤ length leaves
      → mth H (take m leaves)
        ≡ node_hash H
            (mth H (front leaves))
            (mth H (take (m - split (length leaves)) (back leaves)))
  mth-take-back jj m leaves fits k size lo hi =
      let len : length (take m leaves) ≡ m = omega (arith, length-take m leaves) in
      let k' : split (length (take m leaves)) ≡ split (length leaves) =
        split_unique jj _ (omega arith) (omega arith) (omega arith) ∙ sym k in
      let head : front (take m leaves) ≡ front leaves =
        ap (λ n. take n (take m leaves)) k' ∙ take-take _ m leaves (omega arith) in
      let rest : back (take m leaves) ≡ take (m - split (length leaves)) (back leaves) =
        ap (λ n. drop n (take m leaves)) k' ∙ drop-take _ m leaves in
      mth-node H (take m leaves) (omega (arith, pow2_pos jj)) (omega arith)
      ∙ ap₂ (λ l r. node_hash H (mth H l) (mth H r)) head rest

  -- Where the loop starts, with the seed in both hashes; `n` is the old size.
  abbrev start : ℕ → ℕ → ℕ → Hash → TwinWalk
  start n f t seed = twin (strip_ones n f t).0 (strip_ones n f t).1 seed seed

  -- A proof, with its seed in front, leads the loop to the state `w`.
  unfoldable pub Leads : (n f t : ℕ) → List Hash → TwinWalk → Type 0
  Leads n f t proof w =
      (seed : Hash) × (rest : List Hash) × (proof ≡ seed ∷ rest)
      × (consistency_loop H (start n f t seed) rest ≡ some w)

  module _ (n f t : ℕ) where
    Leads-last :
        (c : Hash) (proof whole : List Hash) (v u : TwinWalk)
        → whole ≡ proof ++ (c ∷ [])
        → consistency_step H v c ≡ some u
        → Leads n f t proof v
        → Leads n f t whole u
    unfolding Leads
    Leads-last c proof whole v u split step (seed, rest, e, q) = (
      seed,
      rest ++ (c ∷ []),
      split ∙ ap (λ xs. xs ++ (c ∷ [])) e,
      twin_last H (start n f t seed) c rest q step,
    )

    -- A full subtree whose last old leaf is the end of a left child: the proof is its root alone.
    Leads-seed :
        (j b s r m : ℕ) (leaves : List Hash)
        → f + 1 ≡ b * 2 * 2 ^ j + m
        → f + 1 ≡ n
        → t ≡ s * 2 ^ j + r
        → r < 2 ^ j
        → m ≡ 2 ^ j
        → length leaves ≡ m
        → Leads n f t
            (subproof H m leaves false)
            (twin (b * 2) s (mth H (take m leaves)) (mth H leaves))
    unfolding Leads consistency_loop
    Leads-seed j b s r m leaves fe ne te low full size = (
      mth H leaves,
      [],
      (let e : m ≡ length leaves = sym size in
          rw e (subproof_whole H leaves false (omega (arith, pow2_pos j)))),
      rw (strip, take_all m leaves (omega arith)) refl,
    )
      where
        strip : strip_ones n f t ≡ (b * 2, s)
        strip =
            strip_ones_all n j b s f t r (omega (arith, mul-pow2-suc b j)) te low
              (omega (arith, lt-pow2 j))

    Leads-front :
        (m a s s' : ℕ) (leaves : List Hash)
        → 1 ≤ m
        → 2 ≤ length leaves
        → Fits (length leaves)
        → m ≤ split (length leaves)
        → s' ≢ a * 2
        → s' ≢ 0
        → s' / 2 ≡ s
        → Leads n f t
            (subproof H m (front leaves) false)
            (twin (a * 2) s' (mth H (take m (front leaves))) (mth H (front leaves)))
        → Leads n f t (subproof H m leaves false) (twin a s (mth H (take m leaves)) (mth H leaves))
    Leads-front m a s s' leaves pos two fits p ne nz up prior =
        let (fl, lo, hi) = length-front leaves two fits in
        let same : take m (front leaves) ≡ take m leaves = take-take m _ leaves p in
        rw (mth-node H leaves two fits, ← same)
          (Leads-last (mth H (back leaves)) (subproof H m (front leaves) false) _ _ _
            (subproof-front H m leaves false pos (omega arith) fits p)
            (twin_step_left H a (a * 2) _ _ _ s s' refl ne nz up) prior)

    Leads-back :
        (jj m : ℕ) (leaves : List Hash) (v u : TwinWalk)
        → Fits (length leaves)
        → split (length leaves) ≡ 2 ^ jj
        → length leaves ≤ 2 ^ jj * 2
        → 2 ^ jj < m
        → m < length leaves
        → consistency_step H v (mth H (front leaves)) ≡ some u
        → Leads n f t (subproof H (m - split (length leaves)) (back leaves) false) v
        → Leads n f t (subproof H m leaves false) u
    Leads-back jj m leaves v u fits k size lo hi step prior =
        Leads-last (mth H (front leaves))
          (subproof H (m - split (length leaves)) (back leaves) false) (subproof H m leaves false) v
          u (subproof-back H m leaves false hi fits (omega (arith, pow2_pos jj)) (omega arith)) step
          prior

    -- An old size that ends inside a full subtree.
    Leads-inside :
        (j a s r m : ℕ) (leaves : List Hash)
        → length leaves ≡ 2 ^ j
        → Fits (length leaves)
        → 1 ≤ m
        → m < 2 ^ j
        → a < s
        → r < 2 ^ j
        → f + 1 ≡ a * 2 ^ j + m
        → f + 1 ≡ n
        → t ≡ s * 2 ^ j + r
        → Leads n f t (subproof H m leaves false) (twin a s (mth H (take m leaves)) (mth H leaves))
    Leads-inside zero a s r m leaves size fits pos below left low fe ne te = absurd (omega arith)
    Leads-inside (suc j) a s r m leaves size fits pos below left low fe ne te =
        let two : 2 ≤ length leaves = omega (arith, pow2-suc j, pow2_pos j) in
        let k : split (length leaves) ≡ 2 ^ j =
          split_unique j (length leaves) fits (omega (arith, pow2-suc j, pow2_pos j))
            (omega (arith, pow2-suc j)) in
        let (fl, lo, hi) = length-front leaves two fits in
        let bl = length-back leaves in
        let (s', r', te', low', up) = halve j s r t te low in
        elim (dec_lt (2 ^ j) m) [
          | yes outside ↦
              rw
                (
                  mth-take-back j m leaves fits k (omega (arith, pow2-suc j)) outside (omega arith),
                  mth-node H leaves two fits,
                )
                (Leads-back j m leaves _ _ fits k (omega (arith, pow2-suc j)) outside (omega arith)
                  (twin_step_right H a (a * 2 + 1) _ _ _ s s' refl (omega arith) up)
                  (Leads-inside j (a * 2 + 1) s' r' (m - split (length leaves)) (back leaves)
                    (omega (arith, pow2-suc j)) (omega arith) (omega arith)
                    (omega (arith, pow2-suc j)) (omega arith) low' (omega (arith, mul-pow2-suc a j))
                    ne te'))
          | no inside ↦
              Leads-front m a s s' leaves pos two fits (omega arith) (omega arith) (omega arith) up
                (elim (dec_lt m (2 ^ j)) [
                  | yes part ↦
                      Leads-inside j (a * 2) s' r' m (front leaves) (omega arith) (omega arith) pos
                        part (omega arith) low' (omega (arith, mul-pow2-suc a j)) ne te'
                  | no whole ↦
                      Leads-seed j a s' r' m (front leaves) (omega (arith, mul-pow2-suc a j)) ne te'
                        low' (omega arith) (omega arith)
                ])
        ]

    -- Along the right edge of the tree.
    Leads-edge :
        (fuel j a m : ℕ) (leaves : List Hash)
        → length leaves ≤ fuel
        → length leaves ≤ 2 ^ j
        → Fits (length leaves)
        → 1 ≤ m
        → m < length leaves
        → f + 1 ≡ a * 2 ^ j + m
        → f + 1 ≡ n
        → t + 1 ≡ a * 2 ^ j + length leaves
        → (i : ℕ) × Leads n f t
            (subproof H m leaves false)
            (twin (a * 2 ^ i) (a * 2 ^ i) (mth H (take m leaves)) (mth H leaves))
    Leads-edge zero j a m leaves fuel size fits pos below fe ne te = absurd (omega arith)
    Leads-edge (suc d) j a m leaves fuel size fits pos below fe ne te =
        let two : 2 ≤ length leaves = omega arith in
        let (jj, k, lo, hi) = split_lem (length leaves) two fits in
        let (fl, p, q) = length-front leaves two fits in
        let bl = length-back leaves in
        let up : jj < j = exponent-lt jj j (omega arith) in
        let b : ℕ = a * 2 ^ (j - suc jj) in
        let shift : a * 2 ^ j ≡ b * 2 ^ suc jj =
          mul-pow2-add a (j - suc jj) (suc jj) j (omega arith) in
        (
          j - suc jj,
          elim (dec_lt (2 ^ jj) m) [
            | yes outside ↦
                let (i, prior) =
                  Leads-edge d jj (b * 2 + 1) (m - split (length leaves)) (back leaves)
                    (omega arith) (omega arith) (omega arith) (omega arith) (omega arith)
                    (omega (arith, mul-pow2-suc b jj)) ne (omega (arith, mul-pow2-suc b jj)) in
                rw
                  (
                    mth-take-back jj m leaves fits k hi outside (omega arith),
                    mth-node H leaves two fits,
                  )
                  (Leads-back jj m leaves _ _ fits k hi outside below
                    (twin_step_last H b ((b * 2 + 1) * 2 ^ i) _ _ _ i
                      (refl {a = (b * 2 + 1) * 2 ^ i}))
                    prior)
            | no inside ↦
                Leads-front m b b (b * 2 + 1) leaves pos two fits (omega arith) (omega arith)
                  (omega arith) (omega arith)
                  (elim (dec_lt m (2 ^ jj)) [
                    | yes part ↦
                        Leads-inside jj (b * 2) (b * 2 + 1)
                          (length leaves - split (length leaves) - 1) m (front leaves) (omega arith)
                          (omega arith) pos part (omega arith) (omega (arith, pow2-suc jj))
                          (omega (arith, mul-pow2-suc b jj)) ne (omega (arith, mul-pow2-suc b jj))
                    | no whole ↦
                        Leads-seed jj b (b * 2 + 1) (length leaves - split (length leaves) - 1) m
                          (front leaves) (omega (arith, mul-pow2-suc b jj)) ne
                          (omega (arith, mul-pow2-suc b jj)) (omega (arith, pow2-suc jj))
                          (omega arith) (omega arith)
                  ])
          ],
        )

  at_top :
      (proof : List Hash) (m : ℕ) (leaves : List Hash)
      → ((i : ℕ) × Leads m
            (m - 1)
            (length leaves - 1)
            proof
            (twin (0 * 2 ^ i) (0 * 2 ^ i) (mth H (take m leaves)) (mth H leaves)))
      → Leads m (m - 1) (length leaves - 1) proof (twin 0 0 (mth H (take m leaves)) (mth H leaves))
  at_top proof m leaves (i, e) =
      let z : 0 * 2 ^ i ≡ 0 = omega arith in
      subst
        (λ v.
          Leads m (m - 1) (length leaves - 1) proof
            (twin v v (mth H (take m leaves)) (mth H leaves)))
        z e

  -- From an old size `m` below the size, the proof leads to both roots at the top of the tree.
  pub Leads-top :
      (m : ℕ) (leaves : List Hash)
      → Fits (length leaves)
      → 1 ≤ m
      → m < length leaves
      → Leads m
          (m - 1)
          (length leaves - 1)
          (subproof H m leaves false)
          (twin 0 0 (mth H (take m leaves)) (mth H leaves))
  Leads-top m leaves fits pos below = at_top _ m leaves (
      Leads-edge m (m - 1) (length leaves - 1) (length leaves) 58 0 m leaves (omega arith)
        (omega arith) fits pos below (omega arith) (omega arith) (omega arith))
