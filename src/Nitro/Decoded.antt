-- ===== src/Nitro/Decoded.antt =====
-- What `decode_pool` makes of a bundle.
use pzd.Base.{ℕ, suc, ◌≡◌, ◌↔◌, refl, ap, ◌∙◌, List, [], ◌∷◌, Bytes}
use pzd.Base.Result.{ok, map_err, >>=-inv, map_err-inv}
use pzd.Nitro.Formats.{Formats}
use pzd.Nitro.Chain.{decode_pool}

module _ (F : Formats) where
  -- Encodings and what they encode, one by one.
  abbrev pub Decoded : List Bytes → List F.Certificate → Type 0
  Decoded [] [] = Unit
  Decoded [] (c ∷ pool) = ⊥
  Decoded (der ∷ ders) [] = ⊥
  Decoded (der ∷ ders) (c ∷ pool) = (F.certificate_from_der der ≡ ok c) × Decoded ders pool

  pub decode_pool_iff :
      (i : ℕ) (ders : List Bytes) (pool : List F.Certificate)
      → (decode_pool F i ders ≡ ok pool) ↔ Decoded ders pool
  unfolding decode_pool
  decode_pool_iff i [] [] = (λ h. tt, λ h. refl)
  decode_pool_iff i [] (c ∷ pool) = (λ h. cc, λ h. absurd h)
  decode_pool_iff i (der ∷ ders) [] = (
    (λ h.
        let (c, e1, h1) = >>=-inv (map_err (F.certificate_from_der der) _) _ _ h in
        let (cs, e2, h2) = >>=-inv (decode_pool F (suc i) ders) _ _ h1 in cc),
    λ h. absurd h,
  )
  decode_pool_iff i (der ∷ ders) (d ∷ pool) = (
    (λ h.
        let (c, e1, h1) = >>=-inv (map_err (F.certificate_from_der der) _) _ _ h in
        let (cs, e2, h2) = >>=-inv (decode_pool F (suc i) ders) _ _ h1 in
        let same : c ≡ d = cc in
        let same' : cs ≡ pool = cc in
        (
          map_err-inv _ _ _ e1 ∙ ap ok same,
          (decode_pool_iff (suc i) ders pool).0 (e2 ∙ ap ok same'),
        )),
    λ (e, h). rw (e, (decode_pool_iff (suc i) ders pool).1 h) refl,
  )
