-- ===== src/Nitro/Route.antt =====
-- The chains that the loop builds: routes from the leaf to an issuer with the root's name.
use pzd.Base.{
  ℕ, zero, suc, ◌≤◌, ◌≡◌, arith, refl, sym, ap, ◌∙◌, Bool, true, false, Option, none, some, List,
  [], ◌∷◌, ◌++◌, ◌>>=◌, length, if◌then◌else◌,
}
use mathlib.Core.Path.{subst}
use mathlib.Core.Logic.{◌≢◌}
use mathlib.Core.List.Permᴰ
use mathlib.Core.List.{Permᴰ}
use pzd.Base.Result.{Result, ok, err, >>=-inv, ok-injective}
use pzd.Nitro.Formats.{Formats}
use pzd.Nitro.Attestation.{NitroError}
use pzd.Nitro.Chain.{remove_issuer, chain_loop, build_chain, no_issuer}
use pzd.Nitro.Pool.{
  length-Permᴰ, Distinct, Distinct-Permᴰ, Matches, remove_issuer-Permᴰ, Taken, remove_issuer-Taken,
}
use pzd.Nitro.Paths.{round, found-Distinct}

module _ (F : Formats) where
  -- Each certificate has its issuer behind it, and the root's name is the issuer of the last one only.
  pub data Steps (root : F.Certificate) : F.Certificate → List F.Certificate → Type 0 where
    last : {c : F.Certificate} → F.issuer c ≡ F.subject root → Steps root c []
    issued_by :
        {c d : F.Certificate} {ds : List F.Certificate}
        → F.issuer c ≢ F.subject root
        → F.subject d ≡ F.issuer c
        → Steps root d ds
        → Steps root c (d ∷ ds)

  -- A route of certificates that are drawn from the pool, each at most once.
  pub record Route (root leaf : F.Certificate) (pool chain : List F.Certificate) : Type 0 where
    pub picked : List F.Certificate
    pub spare : List F.Certificate
    pub from_leaf : chain ≡ leaf ∷ picked
    pub steps : Steps root leaf picked
    pub drawn : Permᴰ (picked ++ spare) pool

  name_ne :
      (c root : F.Certificate)
      → F.name_eq (F.issuer c) (F.subject root) ≡ false
      → F.issuer c ≢ F.subject root
  name_ne c root e s = let t = (F.name_eq_iff (F.issuer c) (F.subject root)).1 s in cc

  stopped :
      (root cert : F.Certificate) (pool chain : List F.Certificate)
      → F.name_eq (F.issuer cert) (F.subject root) ≡ true
      → Path (Result NitroError (List F.Certificate)) (ok (cert ∷ [])) (ok chain)
      → Route root cert pool chain
  stopped root cert pool chain e h = record {
    picked = [];
    spare = pool;
    from_leaf = sym (ok-injective _ _ h);
    steps = last ((F.name_eq_iff _ _).0 e);
    drawn = Permᴰ.refl pool;
  }

  round-Route :
      (loop : F.Certificate → List F.Certificate → Result NitroError (List F.Certificate)) (idx : ℕ)
      (root cert : F.Certificate) (pool chain : List F.Certificate) (done : Bool)
      (o : Option (F.Certificate × List F.Certificate))
      → F.name_eq (F.issuer cert) (F.subject root) ≡ done
      → Taken F (F.issuer cert) pool o
      → ((next : F.Certificate) (rest chain' : List F.Certificate)
          → loop next rest ≡ ok chain'
          → Route root next rest chain')
      → round F loop idx cert done o ≡ ok chain
      → Route root cert pool chain
  round-Route loop idx root cert pool chain true o e t ih h = stopped root cert pool chain e h
  round-Route loop idx root cert pool chain false none e t ih h = absurd (cc)
  round-Route loop idx root cert pool chain false (some (next, rest)) e t ih h =
      let (chain', e1, h1) = >>=-inv (loop next rest) _ _ h in
      let r = ih next rest chain' e1 in
      record {
        picked = next ∷ r.picked;
        spare = r.spare;
        from_leaf = sym (ok-injective _ _ h1) ∙ ap (◌∷◌ cert) r.from_leaf;
        steps = issued_by (name_ne cert root e) t.0 r.steps;
        drawn = Permᴰ.trans (Permᴰ.cons refl r.drawn) t.1;
      }

  chain_loop-Route :
      (k idx : ℕ) (root cert : F.Certificate) (pool chain : List F.Certificate)
      → chain_loop F k root idx cert pool ≡ ok chain
      → Route root cert pool chain
  unfolding chain_loop
  chain_loop-Route zero idx root cert pool chain h =
      only (F.name_eq (F.issuer cert) (F.subject root)) refl h
    where
      only :
          (done : Bool)
          → F.name_eq (F.issuer cert) (F.subject root) ≡ done
          → (if done then ok (cert ∷ []) else err (no_issuer F idx cert)) ≡ ok chain
          → Route root cert pool chain
      only true e h = stopped root cert pool chain e h
      only false e h = absurd (cc)
  chain_loop-Route (suc k) idx root cert pool chain h =
      round-Route (chain_loop F k root (suc idx)) idx root cert pool chain _ _ refl
        (remove_issuer-Taken F (F.issuer cert) pool)
        (λ next rest chain' e. chain_loop-Route k (suc idx) root next rest chain' e) h

  -- The lookup of the issuer that stands first in some order of a pool with different subjects.
  remove_issuer_first :
      (name : F.Name) (d : F.Certificate) (ds pool : List F.Certificate)
      → F.subject d ≡ name
      → Permᴰ (d ∷ ds) pool
      → Distinct F pool
      → (rest : List F.Certificate) × (remove_issuer F name pool ≡ some (d, rest)) × Permᴰ ds rest
  unfolding remove_issuer
  remove_issuer_first name d ds pool s p u = found (remove_issuer F name pool) refl (
      subst
        (λ b.
          Matches F
            (elim b [
              | true ↦ some (d, ds)
              | false ↦ elim (remove_issuer F name ds) [
                | none ↦ none
                | some (c, r) ↦ some (c, d ∷ r)
              ]
            ])
            (remove_issuer F name pool))
        ((F.name_eq_iff _ _).1 s)
        (remove_issuer-Permᴰ F name p (Distinct-Permᴰ F (Permᴰ.symm p) u)))
    where
      found :
          (o : Option (F.Certificate × List F.Certificate))
          → remove_issuer F name pool ≡ o
          → Matches F (some (d, ds)) o
          → (rest : List F.Certificate) × (remove_issuer F name pool ≡ some (d, rest))
            × Permᴰ ds rest
      found none e m = absurd m
      found (some (c, r)) e m = (r, e ∙ ap (λ c. some (c, r)) (sym m.0), m.1)

  Steps-chain_loop :
      (k idx : ℕ) (root cert : F.Certificate) (picked spare pool : List F.Certificate)
      → Steps root cert picked
      → Permᴰ (picked ++ spare) pool
      → Distinct F pool
      → length pool ≤ k
      → chain_loop F k root idx cert pool ≡ ok (cert ∷ picked)
  unfolding chain_loop
  Steps-chain_loop zero idx root cert [] spare pool (last e) p d f =
      ap (λ b. if b then ok (cert ∷ []) else err (no_issuer F idx cert)) ((F.name_eq_iff _ _).1 e)
  Steps-chain_loop (suc k) idx root cert [] spare pool (last e) p d f =
      ap
        (λ b.
          round F (chain_loop F k root (suc idx)) idx cert b (remove_issuer F (F.issuer cert) pool))
        ((F.name_eq_iff _ _).1 e)
  Steps-chain_loop zero idx root cert (c ∷ picked) spare pool (issued_by n e s) p d f =
      absurd (omega (arith, length-Permᴰ p))
  Steps-chain_loop (suc k) idx root cert (c ∷ picked) spare pool (issued_by n e s) p d f =
      let (rest, found, q) = remove_issuer_first (F.issuer cert) c (picked ++ spare) pool e p d in
      let shorter = length-Permᴰ p in
      let shorter' = length-Permᴰ q in
      let next : chain_loop F k root (suc idx) c rest ≡ ok (c ∷ picked) =
        Steps-chain_loop k (suc idx) root c picked spare rest s q
          (found-Distinct F (F.issuer cert) pool c rest d found) (omega arith) in
      ap
        (λ b.
          round F (chain_loop F k root (suc idx)) idx cert b (remove_issuer F (F.issuer cert) pool))
        (differ (F.name_eq (F.issuer cert) (F.subject root)) refl n)
      ∙ ap (round F (chain_loop F k root (suc idx)) idx cert false) found
      ∙ ap (λ r. r >>= λ chain. ok (cert ∷ chain)) next
    where
      differ :
          (b : Bool)
          → F.name_eq (F.issuer cert) (F.subject root) ≡ b
          → F.issuer cert ≢ F.subject root
          → b ≡ false
      differ true e n = absurd (n ((F.name_eq_iff _ _).0 e))
      differ false e n = refl

  -- What the loop builds is a route, and if the subjects in the pool are different, it builds every route
  -- that there is.
  pub build_chain_iff :
      (root leaf : F.Certificate) (pool chain : List F.Certificate)
      → (build_chain F root leaf pool ≡ ok chain → Route root leaf pool chain)
        × (Distinct F pool → Route root leaf pool chain → build_chain F root leaf pool ≡ ok chain)
  unfolding build_chain
  build_chain_iff root leaf pool chain = (
    chain_loop-Route (length pool) 0 root leaf pool chain,
    λ d r.
        Steps-chain_loop (length pool) 0 root leaf r.picked r.spare pool r.steps r.drawn d
          (omega arith)
        ∙ ap ok (sym r.from_leaf),
  )
