-- ===== src/Nitro/Trust.antt =====
-- What a chain that is verified is: a route from the leaf to the pinned root on which each certificate is
-- valid, and signed by the next one, which may issue it.
use pzd.Base.{ℕ, suc, ◌≡◌, arith, refl, sym, Option, none, some, List, drop, Bytes, codes}
use mathlib.Core.Path.{subst}
use pzd.Base.Result.{ok, map_err, >>=-inv, map_err-inv}
use pzd.Nitro.Formats.{Formats}
use pzd.Nitro.Chain.{
  decode_pool, next_of, build_chain, check_chain, read_root, verify_path, verify_chain,
}
use pzd.Nitro.Signing.{ValidAt, verify_cert_validity_iff}
use pzd.Nitro.Pool.{Distinct}
use pzd.Nitro.Route.{Route, build_chain_iff}
use pzd.Nitro.Decoded.{Decoded, decode_pool_iff}
use pzd.Nitro.Links.{Link, check_chain_iff, Links, Linked-Links, Links-Linked}

module _ (F : Formats) where
  -- A leaf that is trusted at a time under the root of a PEM file.
  pub record Trusted (now : ℕ) (leaf_der : Bytes) (cabundle : List Bytes) (root_pem : Bytes)
      : Type 0 where
    pub leaf : F.Certificate
    pub pool : List F.Certificate
    pub root : F.Certificate
    pub chain : List F.Certificate
    pub is_leaf : F.certificate_from_der leaf_der ≡ ok leaf
    pub is_pool : Decoded F cabundle pool
    pub is_root : read_root F root_pem ≡ ok root
    pub route : Route F root leaf pool chain
    pub links : Links F now root chain
    pub root_valid : ValidAt F now root

  verify_chain-Trusted :
      (now : ℕ) (leaf_der : Bytes) (cabundle : List Bytes) (root_pem : Bytes)
      → verify_chain F (some now) leaf_der cabundle root_pem ≡ ok tt
      → Trusted now leaf_der cabundle root_pem
  unfolding verify_chain verify_path
  verify_chain-Trusted now leaf_der cabundle root_pem h =
      let (leaf, e1, h1) = >>=-inv (map_err (F.certificate_from_der leaf_der) _) _ _ h in
      let (pool, e2, h2) = >>=-inv (decode_pool F 0 cabundle) _ _ h1 in
      let (root, e3, h3) = >>=-inv (read_root F root_pem) _ _ h2 in
      let (chain, e4, h4) = >>=-inv (build_chain F root leaf pool) _ _ h3 in
      let (u, e5, h5) = >>=-inv (check_chain F root now 0 chain) _ _ h4 in
      record {
        leaf = leaf;
        pool = pool;
        root = root;
        chain = chain;
        is_leaf = map_err-inv _ _ _ e1;
        is_pool = (decode_pool_iff F 0 cabundle pool).0 e2;
        is_root = e3;
        route = (build_chain_iff F root leaf pool chain).0 e4;
        links = λ i cert g.
            Linked-Links F now root 0 chain ((check_chain_iff F now root 0 chain).0 e5) i i cert
              (omega arith) g;
        root_valid = (verify_cert_validity_iff F root now (codes "pinned AWS root")).0 h5;
      }

  Trusted-verify_chain :
      (now : ℕ) (leaf_der : Bytes) (cabundle : List Bytes) (root_pem : Bytes)
      (t : Trusted now leaf_der cabundle root_pem)
      → Distinct F t.pool
      → verify_chain F (some now) leaf_der cabundle root_pem ≡ ok tt
  unfolding verify_chain verify_path
  Trusted-verify_chain now leaf_der cabundle root_pem t d =
      rw
        (
          t.is_leaf,
          (decode_pool_iff F 0 cabundle t.pool).1 t.is_pool,
          t.is_root,
          (build_chain_iff F t.root t.leaf t.pool t.chain).1 d t.route,
          (check_chain_iff F now t.root 0 t.chain).1 (
              Links-Linked F now t.root 0 t.chain (λ i j cert e g.
                let e' : i ≡ j = omega arith in
                subst (λ k. Link F now k cert (next_of t.root (drop (suc i) t.chain))) e'
                  (t.links i cert g))),
        )
        ((verify_cert_validity_iff F t.root now (codes "pinned AWS root")).1 t.root_valid)

  no_clock :
      (leaf_der : Bytes) (cabundle : List Bytes) (root_pem : Bytes)
      → verify_chain F none leaf_der cabundle root_pem ≡ ok tt
      → (now : ℕ) × (none ≡ some now) × Trusted now leaf_der cabundle root_pem
  unfolding verify_chain verify_path
  no_clock leaf_der cabundle root_pem h =
      let (leaf, e1, h1) = >>=-inv (map_err (F.certificate_from_der leaf_der) _) _ _ h in
      let (pool, e2, h2) = >>=-inv (decode_pool F 0 cabundle) _ _ h1 in
      let (root, e3, h3) = >>=-inv (read_root F root_pem) _ _ h2 in
      let (chain, e4, h4) = >>=-inv (build_chain F root leaf pool) _ _ h3 in absurd (cc)

  -- A chain that is verified leads from the leaf through certificates of the bundle, each taken at most once, to
  -- the pinned root: every certificate on it is valid now, names the next one as its issuer and is signed
  -- by it, the next one may issue it with as many CAs as lie below, and the root is valid. If the
  -- certificates of the bundle have different subjects, every such chain is verified. Without a clock
  -- behind 1970 none is.
  pub verify_chain_iff :
      (clock : Option ℕ) (leaf_der : Bytes) (cabundle : List Bytes) (root_pem : Bytes)
      → (verify_chain F clock leaf_der cabundle root_pem ≡ ok tt
          → (now : ℕ) × (clock ≡ some now) × Trusted now leaf_der cabundle root_pem)
        × ((now : ℕ) (t : Trusted now leaf_der cabundle root_pem)
            → clock ≡ some now
            → Distinct F t.pool
            → verify_chain F clock leaf_der cabundle root_pem ≡ ok tt)
  verify_chain_iff none leaf_der cabundle root_pem =
      (no_clock leaf_der cabundle root_pem, λ now t e d. absurd (cc))
  verify_chain_iff (some clock) leaf_der cabundle root_pem = (
    (λ h. (clock, refl, verify_chain-Trusted clock leaf_der cabundle root_pem h)),
    λ now t e d.
        let same : clock ≡ now = cc in
        subst (λ k. verify_chain F (some k) leaf_der cabundle root_pem ≡ ok tt) (sym same)
          (Trusted-verify_chain now leaf_der cabundle root_pem t d),
  )
