-- ===== src/Nitro/Order.antt =====
-- The order in which a document carries the certificates of its bundle.
use pzd.Base.{ℕ, ◌≡◌, refl, sym, ap, ◌∙◌, Option, List, [], ◌∷◌, ◌>>=◌, Bytes, codes}
use mathlib.Core.List.{Permᴰ}
use pzd.Base.Result.{Result, >>=-cong, ok_or, map_err}
use pzd.Nitro.Formats.{Formats}
use pzd.Nitro.Attestation.{NitroError, cert_chain}
use pzd.Nitro.Chain.{check_chain, read_root, verify_path, verify_chain, verify_cert_validity}
use pzd.Nitro.Pool.{Distinct}
use pzd.Nitro.Paths.{build_chain_order}
use pzd.Nitro.Decoded.{Decoded, decode_pool_iff}

module _ (F : Formats) where
  Decoded-Permᴰ :
      {xs ys : List Bytes} (pool : List F.Certificate)
      → Permᴰ xs ys
      → Decoded F xs pool
      → (pool' : List F.Certificate) × Decoded F ys pool' × Permᴰ pool pool'
  Decoded-Permᴰ [] Permᴰ.nil d = ([], tt, Permᴰ.nil)
  Decoded-Permᴰ (c ∷ pool) Permᴰ.nil d = absurd d
  Decoded-Permᴰ [] (Permᴰ.cons e p) d = absurd d
  Decoded-Permᴰ (c ∷ pool) (Permᴰ.cons e p) (d, ds) =
      let (pool', ds', q) = Decoded-Permᴰ pool p ds in
      (c ∷ pool', (ap F.certificate_from_der (sym e) ∙ d, ds'), Permᴰ.cons refl q)
  Decoded-Permᴰ [] (Permᴰ.swap e f) d = absurd d
  Decoded-Permᴰ (c ∷ []) (Permᴰ.swap e f) d = absurd d.1
  Decoded-Permᴰ (c ∷ c' ∷ pool) (Permᴰ.swap e f) d = (
    c' ∷ c ∷ pool,
    (ap F.certificate_from_der (sym f) ∙ d.1.0, (ap F.certificate_from_der (sym e) ∙ d.0, d.1.1)),
    Permᴰ.swap refl refl,
  )
  Decoded-Permᴰ pool (Permᴰ.trans p q) d =
      let (pool', d', r) = Decoded-Permᴰ pool p d in
      let (pool'', d'', r') = Decoded-Permᴰ pool' q d' in (pool'', d'', Permᴰ.trans r r')

  verify_path_order :
      (clock : Option ℕ) (root leaf : F.Certificate) {pool pool' : List F.Certificate}
      → Permᴰ pool pool'
      → Distinct F pool
      → verify_path F clock root leaf pool ≡ verify_path F clock root leaf pool'
  unfolding verify_path
  verify_path_order clock root leaf p u =
      ap
        (λ (r : Result NitroError (List F.Certificate)). r >>= λ chain.
          (ok_or clock (cert_chain (codes "system clock before unix epoch")) >>= λ now.
          (check_chain F root now 0 chain >>= λ v.
          verify_cert_validity F root now (codes "pinned AWS root"))))
        (build_chain_order F root leaf p u)

  -- The verdict on a chain, with its error, is the same in whatever order the document carries its bundle, if
  -- the certificates of the bundle can be read and have different subjects.
  pub verify_chain_order :
      (clock : Option ℕ) (leaf_der root_pem : Bytes) {xs ys : List Bytes}
      (pool : List F.Certificate)
      → Permᴰ xs ys
      → Decoded F xs pool
      → Distinct F pool
      → verify_chain F clock leaf_der xs root_pem ≡ verify_chain F clock leaf_der ys root_pem
  unfolding verify_chain
  verify_chain_order clock leaf_der root_pem {xs} {ys} pool p d u =
      let (pool', d', q) = Decoded-Permᴰ pool p d in
      rw ((decode_pool_iff F 0 xs pool).1 d, (decode_pool_iff F 0 ys pool').1 d')
        (>>=-cong (map_err (F.certificate_from_der leaf_der) _) _ _
          λ leaf. >>=-cong (read_root F root_pem) _ _ λ root. verify_path_order clock root leaf q u)
