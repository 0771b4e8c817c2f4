-- ===== src/Nitro/Pool.antt =====
-- The lookup of an issuer in the pool: what it takes, and that it does not see the order of a pool in
-- which no two certificates have the same subject.
use pzd.Base.{
  suc, ◌≡◌, refl, sym, ap, ◌∙◌, Bool, true, false, Option, none, some, List, [], ◌∷◌, All, length,
}
use mathlib.Core.Path.{subst}
use mathlib.Core.Logic.{◌≢◌}
use mathlib.Core.List.Permᴰ
use mathlib.Core.List.{Permᴰ}
use pzd.Nitro.Formats.{Formats}
use pzd.Nitro.Chain.{remove_issuer}

module _ {A : Type 0} where
  pub length-Permᴰ : {xs ys : List A} → Permᴰ xs ys → length xs ≡ length ys
  length-Permᴰ Permᴰ.nil = refl
  length-Permᴰ (Permᴰ.cons e p) = ap suc (length-Permᴰ p)
  length-Permᴰ (Permᴰ.swap e f) = refl
  length-Permᴰ (Permᴰ.trans p q) = length-Permᴰ p ∙ length-Permᴰ q

  pub All-Permᴰ : (P : A → Type 0) {xs ys : List A} → Permᴰ xs ys → All P xs → All P ys
  All-Permᴰ P Permᴰ.nil h = tt
  All-Permᴰ P (Permᴰ.cons e p) h = (subst P e h.0, All-Permᴰ P p h.1)
  All-Permᴰ P (Permᴰ.swap e f) h = (subst P f h.1.0, (subst P e h.0, h.1.1))
  All-Permᴰ P (Permᴰ.trans p q) h = All-Permᴰ P q (All-Permᴰ P p h)

module _ (F : Formats) where
  abbrev pub Differs : F.Certificate → F.Certificate → Type 0
  Differs c d = F.subject c ≢ F.subject d

  -- No two certificates have the same subject.
  abbrev pub Distinct : List F.Certificate → Type 0
  Distinct [] = Unit
  Distinct (c ∷ pool) = All (Differs c) pool × Distinct pool

  pub Distinct-Permᴰ : {xs ys : List F.Certificate} → Permᴰ xs ys → Distinct xs → Distinct ys
  Distinct-Permᴰ Permᴰ.nil d = tt
  Distinct-Permᴰ (Permᴰ.cons {l₂ = l₂} e p) d =
      (subst (λ c. All (Differs c) l₂) e (All-Permᴰ (Differs _) p d.0), Distinct-Permᴰ p d.1)
  Distinct-Permᴰ (Permᴰ.swap {a} {b} {b' = b'} {l = l} e f) d =
      let swapped : Distinct (b ∷ a ∷ l) = ((λ s. d.0.0 (sym s), d.1.0), (d.0.1, d.1.1)) in
      subst (λ c. Distinct (c ∷ b' ∷ l)) f (subst (λ c. Distinct (b ∷ c ∷ l)) e swapped)
  Distinct-Permᴰ (Permᴰ.trans p q) d = Distinct-Permᴰ q (Distinct-Permᴰ p d)

  -- The same certificate, and rests in some order.
  abbrev pub Matches :
      Option (F.Certificate × List F.Certificate)
      → Option (F.Certificate × List F.Certificate)
      → Type 0
  Matches none none = Unit
  Matches none (some q) = ⊥
  Matches (some p) none = ⊥
  Matches (some p) (some q) = (p.0 ≡ q.0) × Permᴰ p.1 q.1

  Matches-trans :
      (o p q : Option (F.Certificate × List F.Certificate))
      → Matches o p
      → Matches p q
      → Matches o q
  Matches-trans none none none m n = tt
  Matches-trans none none (some q) m n = absurd n
  Matches-trans none (some p) q m n = absurd m
  Matches-trans (some o) none q m n = absurd m
  Matches-trans (some o) (some p) none m n = absurd n
  Matches-trans (some o) (some p) (some q) m n = (m.0 ∙ n.0, Permᴰ.trans m.1 n.1)

  abbrev Found : Type 0
  Found = Option (F.Certificate × List F.Certificate)

  -- A certificate that is not the one that is looked for stays in the pool.
  abbrev keep : F.Certificate → Found → Found
  keep c found = elim found [ none ↦ none | some (d, rest) ↦ some (d, c ∷ rest) ]

  Matches-keep : (c : F.Certificate) (o p : Found) → Matches o p → Matches (keep c o) (keep c p)
  Matches-keep c none none m = tt
  Matches-keep c none (some p) m = absurd m
  Matches-keep c (some o) none m = absurd m
  Matches-keep c (some (d, r)) (some (d', r')) m = (m.0, Permᴰ.cons refl m.1)

  -- One step of the lookup.
  abbrev step : Bool → F.Certificate → List F.Certificate → Found → Found
  step same c pool found = elim same [ true ↦ some (c, pool) | false ↦ keep c found ]

  Matches-step :
      (same : Bool) (c : F.Certificate) (xs ys : List F.Certificate) (o p : Found)
      → Permᴰ xs ys
      → Matches o p
      → Matches (step same c xs o) (step same c ys p)
  Matches-step true c xs ys o p r m = (refl, r)
  Matches-step false c xs ys o p r m = Matches-keep c o p m

  Matches-swap :
      (same same' : Bool) (c d : F.Certificate) (pool : List F.Certificate) (o : Found)
      → ¬ ((same ≡ true) × (same' ≡ true))
      → Matches
          (step same c (d ∷ pool) (step same' d pool o))
          (step same' d (c ∷ pool) (step same c pool o))
  Matches-swap true true c d pool o n = absurd (n (refl, refl))
  Matches-swap true false c d pool o n = (refl, Permᴰ.refl _)
  Matches-swap false true c d pool o n = (refl, Permᴰ.refl _)
  Matches-swap false false c d pool none n = tt
  Matches-swap false false c d pool (some (e, r)) n = (refl, Permᴰ.swap refl refl)

  pub remove_issuer-Permᴰ :
      (name : F.Name) {xs ys : List F.Certificate}
      → Permᴰ xs ys
      → Distinct xs
      → Matches (remove_issuer F name xs) (remove_issuer F name ys)
  unfolding remove_issuer
  remove_issuer-Permᴰ name Permᴰ.nil d = tt
  remove_issuer-Permᴰ name (Permᴰ.cons {a} {l₁ = l₁} {l₂ = l₂} e p) d =
      subst (λ c. Matches (remove_issuer F name (a ∷ l₁)) (remove_issuer F name (c ∷ l₂))) e
        (Matches-step (F.name_eq (F.subject a) name) a l₁ l₂ _ _ p (remove_issuer-Permᴰ name p d.1))
  remove_issuer-Permᴰ name (Permᴰ.swap {a} {b} {b' = b'} {l = l} e f) d =
      subst (λ c. Matches (remove_issuer F name (a ∷ b ∷ l)) (remove_issuer F name (c ∷ b' ∷ l))) f
        (subst (λ c. Matches (remove_issuer F name (a ∷ b ∷ l)) (remove_issuer F name (b ∷ c ∷ l)))
          e
          (Matches-swap (F.name_eq (F.subject a) name) (F.name_eq (F.subject b) name) a b l
            (remove_issuer F name l)
            (λ (s, t). d.0.0 ((F.name_eq_iff _ _).0 s ∙ sym ((F.name_eq_iff _ _).0 t)))))
  remove_issuer-Permᴰ name (Permᴰ.trans p q) d =
      Matches-trans _ _ _ (remove_issuer-Permᴰ name p d)
        (remove_issuer-Permᴰ name q (Distinct-Permᴰ p d))

  -- What a lookup finds has the name, and was in the pool with the rest.
  abbrev pub Taken : F.Name → List F.Certificate → Found → Type 0
  Taken name pool none = All (λ c. F.subject c ≢ name) pool
  Taken name pool (some (c, rest)) = (F.subject c ≡ name) × Permᴰ (c ∷ rest) pool

  pub remove_issuer-Taken :
      (name : F.Name) (pool : List F.Certificate) → Taken name pool (remove_issuer F name pool)
  unfolding remove_issuer
  remove_issuer-Taken name [] = tt
  remove_issuer-Taken name (c ∷ pool) =
      taken (F.name_eq (F.subject c) name) refl (remove_issuer F name pool)
        (remove_issuer-Taken name pool)
    where
      taken :
          (same : Bool)
          → F.name_eq (F.subject c) name ≡ same
          → (o : Found) → Taken name pool o
          → Taken name (c ∷ pool) (step same c pool o)
      taken true e o t = ((F.name_eq_iff _ _).0 e, Permᴰ.refl _)
      taken false e none t = ((λ s. let y = (F.name_eq_iff (F.subject c) name).1 s in cc), t)
      taken false e (some (d, r)) t =
          (t.0, Permᴰ.trans (Permᴰ.swap refl refl) (Permᴰ.cons refl t.1))
