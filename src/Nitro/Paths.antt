-- ===== src/Nitro/Paths.antt =====
-- The loop that builds the chain: how it ends, what it builds, and that the order of the bundle does not
-- matter to it.
use pzd.Base.{
  ℕ, zero, suc, ◌≤◌, ◌≡◌, arith, refl, sym, ap, ◌∙◌, Bool, true, false, Option, none, some, List,
  [], ◌∷◌, ◌>>=◌, length, if◌then◌else◌,
}
use mathlib.Core.Path.{subst}
use mathlib.Core.List.Permᴰ
use mathlib.Core.List.{Permᴰ}
use pzd.Base.Result.{Result, ok, err}
use pzd.Nitro.Formats.{Formats}
use pzd.Nitro.Attestation.{NitroError}
use pzd.Nitro.Chain.{remove_issuer, chain_loop, build_chain, no_issuer}
use pzd.Nitro.Pool.{
  length-Permᴰ, Distinct, Distinct-Permᴰ, Matches, remove_issuer-Permᴰ, Taken, remove_issuer-Taken,
}

module _ (F : Formats) where
  abbrev Found : Type 0
  Found = Option (F.Certificate × List F.Certificate)

  -- A round of the loop, with the rest of it.
  abbrev pub round :
      (F.Certificate → List F.Certificate → Result NitroError (List F.Certificate))
      → ℕ
      → F.Certificate
      → Bool
      → Found
      → Result NitroError (List F.Certificate)
  round loop idx cert done found = elim done [
    | true ↦ ok (cert ∷ [])
    | false ↦ elim found [
      | none ↦ err (no_issuer F idx cert)
      | some (next, rest) ↦ loop next rest >>= λ chain. ok (cert ∷ chain)
    ]
  ]

  pub chain_loop-suc :
      (k idx : ℕ) (root cert : F.Certificate) (pool : List F.Certificate)
      → chain_loop F (suc k) root idx cert pool
        ≡ round
            (chain_loop F k root (suc idx))
            idx
            cert
            (F.name_eq (F.issuer cert) (F.subject root))
            (remove_issuer F (F.issuer cert) pool)
  unfolding chain_loop
  chain_loop-suc k idx root cert pool = refl

  -- A round is the same with another rest that answers alike on what was found.
  round_eq :
      (f g : F.Certificate → List F.Certificate → Result NitroError (List F.Certificate)) (idx : ℕ)
      (cert : F.Certificate) (done : Bool) (o : Found)
      → ((next : F.Certificate) (rest : List F.Certificate)
          → o ≡ some (next, rest)
          → f next rest ≡ g next rest)
      → round f idx cert done o ≡ round g idx cert done o
  round_eq f g idx cert true o h = refl
  round_eq f g idx cert false none h = refl
  round_eq f g idx cert false (some (next, rest)) h =
      ap (λ r. r >>= λ chain. ok (cert ∷ chain)) (h next rest refl)

  -- What was found leaves a smaller pool.
  found_shorter :
      (name : F.Name) (pool : List F.Certificate) (next : F.Certificate) (rest : List F.Certificate)
      → remove_issuer F name pool ≡ some (next, rest)
      → suc (length rest) ≡ length pool
  found_shorter name pool next rest e =
      let t : Taken F name pool (some (next, rest)) =
        subst (Taken F name pool) e (remove_issuer-Taken F name pool) in
      length-Permᴰ t.1

  chain_loop_empty :
      (k idx : ℕ) (root cert : F.Certificate)
      → chain_loop F 0 root idx cert [] ≡ chain_loop F (suc k) root idx cert []
  unfolding chain_loop remove_issuer
  chain_loop_empty k idx root cert = ended (F.name_eq (F.issuer cert) (F.subject root))
    where
      ended :
          (done : Bool)
          → (if done then ok (cert ∷ []) else err (no_issuer F idx cert))
            ≡ round (chain_loop F k root (suc idx)) idx cert done none
      ended true = refl
      ended false = refl

  -- From as many rounds on as the pool has certificates, the number of rounds does not matter.
  pub chain_loop_ends :
      (k m idx : ℕ) (root cert : F.Certificate) (pool : List F.Certificate)
      → length pool ≤ k
      → length pool ≤ m
      → chain_loop F k root idx cert pool ≡ chain_loop F m root idx cert pool
  chain_loop_ends zero zero idx root cert pool p q = refl
  chain_loop_ends zero (suc m) idx root cert [] p q = chain_loop_empty m idx root cert
  chain_loop_ends zero (suc m) idx root cert (c ∷ pool) p q = absurd (omega arith)
  chain_loop_ends (suc k) zero idx root cert [] p q = sym (chain_loop_empty k idx root cert)
  chain_loop_ends (suc k) zero idx root cert (c ∷ pool) p q = absurd (omega arith)
  chain_loop_ends (suc k) (suc m) idx root cert pool p q =
      chain_loop-suc k idx root cert pool
      ∙ round_eq _ _ idx cert _ _ (λ next rest e.
        let shorter = found_shorter (F.issuer cert) pool next rest e in
        chain_loop_ends k m (suc idx) root next rest (omega arith) (omega arith))
      ∙ sym (chain_loop-suc m idx root cert pool)

  -- The loop as it stands in the source, with no bound: the chain is built by rounds until the root issued
  -- its last certificate or no issuer is found, and `build_chain` gives what that loop ends with.
  pub build_chain-round :
      (root leaf : F.Certificate) (pool : List F.Certificate) (rounds : ℕ)
      → length pool ≤ rounds
      → (build_chain F root leaf pool ≡ chain_loop F rounds root 0 leaf pool)
        × (build_chain F root leaf pool
            ≡ round
                (chain_loop F rounds root 1)
                0
                leaf
                (F.name_eq (F.issuer leaf) (F.subject root))
                (remove_issuer F (F.issuer leaf) pool))
  unfolding build_chain
  build_chain-round root leaf pool rounds h = (
    chain_loop_ends (length pool) rounds 0 root leaf pool (omega arith) h,
    chain_loop_ends (length pool) (suc rounds) 0 root leaf pool (omega arith) (omega arith)
        ∙ chain_loop-suc rounds 0 root leaf pool,
  )

  round_order :
      (f : F.Certificate → List F.Certificate → Result NitroError (List F.Certificate)) (idx : ℕ)
      (cert : F.Certificate) (done : Bool) (o p : Found)
      → Matches F o p
      → ((next : F.Certificate) (xs ys : List F.Certificate)
          → o ≡ some (next, xs)
          → Permᴰ xs ys
          → f next xs ≡ f next ys)
      → round f idx cert done o ≡ round f idx cert done p
  round_order f idx cert true o p m h = refl
  round_order f idx cert false none none m h = refl
  round_order f idx cert false none (some p) m h = absurd m
  round_order f idx cert false (some o) none m h = absurd m
  round_order f idx cert false (some (c, xs)) (some (d, ys)) m h =
      ap (λ r. r >>= λ chain. ok (cert ∷ chain)) (h c xs ys refl m.1 ∙ ap (λ c. f c ys) m.0)

  pub found-Distinct :
      (name : F.Name) (pool : List F.Certificate) (next : F.Certificate) (rest : List F.Certificate)
      → Distinct F pool
      → remove_issuer F name pool ≡ some (next, rest)
      → Distinct F rest
  found-Distinct name pool next rest d e =
      let t : Taken F name pool (some (next, rest)) =
        subst (Taken F name pool) e (remove_issuer-Taken F name pool) in
      (Distinct-Permᴰ F (Permᴰ.symm t.1) d).1

  chain_loop_order :
      (k idx : ℕ) (root cert : F.Certificate) {xs ys : List F.Certificate}
      → Permᴰ xs ys
      → Distinct F xs
      → chain_loop F k root idx cert xs ≡ chain_loop F k root idx cert ys
  unfolding chain_loop
  chain_loop_order zero idx root cert p d = refl
  chain_loop_order (suc k) idx root cert {xs} p d =
      round_order (chain_loop F k root (suc idx)) idx cert _ _ _
        (remove_issuer-Permᴰ F (F.issuer cert) p d)
        (λ next xs' ys' e p'.
          chain_loop_order k (suc idx) root next p'
            (found-Distinct (F.issuer cert) xs next xs' d e))

  -- In whatever order a bundle comes whose certificates have different subjects, the chain that is built, or
  -- the error, is the same.
  pub build_chain_order :
      (root leaf : F.Certificate) {xs ys : List F.Certificate}
      → Permᴰ xs ys
      → Distinct F xs
      → build_chain F root leaf xs ≡ build_chain F root leaf ys
  unfolding build_chain
  build_chain_order root leaf {xs} {ys} p d =
      chain_loop_order (length xs) 0 root leaf p d
      ∙ ap (λ n. chain_loop F n root 0 leaf ys) (length-Permᴰ p)
