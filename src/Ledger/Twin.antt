-- ===== src/Ledger/Twin.antt =====
-- The rounds of the loop of `verify_consistency`, which recomputes the old root beside the new one.
use pzd.Base.{
  ℕ, ◌+◌, ◌*◌, ◌/◌, ◌^◌, ◌≡◌, ◌≢◌, arith, List, [], ◌∷◌, ◌++◌, ap, ◌∙◌, none, some, Option-cases,
  inl, inr,
}
use pzd.Ledger.{Sha256, Hash, TwinWalk, node_hash, consistency_step, consistency_loop}
use pzd.Ledger.Climb.{strip_zeros_odd, strip_zeros_all, exponent-le, odd_pos}

abbrev pub twin : ℕ → ℕ → Hash → Hash → TwinWalk
twin f s fr sr = record { f_n = f; s_n = s; fr = fr; sr = sr }

none≢some : {u : TwinWalk} → none ≡ some u → ⊥
none≢some e = cc

module _ (H : Sha256) where
  consistency_loop-append :
      (w : TwinWalk) (xs ys : List Hash) {u : TwinWalk}
      → consistency_loop H w xs ≡ some u
      → consistency_loop H w (xs ++ ys) ≡ consistency_loop H u ys
  unfolding consistency_loop
  consistency_loop-append w [] ys {u} e = let q : w ≡ u = cc in ap (λ v. consistency_loop H v ys) q
  consistency_loop-append w (x ∷ xs) ys {u} e = elim (Option-cases (consistency_step H w x)) [
    | inl q ↦ absurd (none≢some (rw (q, consistency_loop) at e))
    | inr (v, q) ↦
        rw (q, consistency_loop) (consistency_loop-append v xs ys (rw (q, consistency_loop) at e))
  ]

  consistency_loop_one :
      (w : TwinWalk) (x : Hash) {u : TwinWalk}
      → consistency_step H w x ≡ some u
      → consistency_loop H w (x ∷ []) ≡ some u
  unfolding consistency_loop
  consistency_loop_one w x e = rw (e, consistency_loop)

  pub twin_last :
      (w : TwinWalk) (c : Hash) (xs : List Hash) {v u : TwinWalk}
      → consistency_loop H w xs ≡ some v
      → consistency_step H v c ≡ some u
      → consistency_loop H w (xs ++ (c ∷ [])) ≡ some u
  twin_last w c xs e q = consistency_loop-append w xs (c ∷ []) e ∙ consistency_loop_one _ c q

  module _ (a f : ℕ) (fr sr c : Hash) where
    pub twin_step_left :
        (s s' : ℕ)
        → f ≡ a * 2
        → s' ≢ f
        → s' ≢ 0
        → s' / 2 ≡ s
        → consistency_step H (twin f s' fr sr) c ≡ some (twin a s fr (node_hash H sr c))
    unfolding consistency_step
    twin_step_left s s' e ne pos up = ground arith

    pub twin_step_right :
        (s s' : ℕ)
        → f ≡ a * 2 + 1
        → s' ≢ 0
        → s' / 2 ≡ s
        → consistency_step H (twin f s' fr sr) c
          ≡ some (twin a s (node_hash H c fr) (node_hash H c sr))
    unfolding consistency_step
    twin_step_right s s' e pos up = ground (arith, strip_zeros_odd f a s')

    pub twin_step_last :
        (i : ℕ)
        → f ≡ (a * 2 + 1) * 2 ^ i
        → consistency_step H (twin f f fr sr) c
          ≡ some (twin a a (node_hash H c fr) (node_hash H c sr))
    unfolding consistency_step
    twin_step_last i e = ground (arith, strip_zeros_all f i a f e, exponent-le a i, odd_pos a i)
