-- ===== src/Nitro/Links.antt =====
-- What the loop of `verify_chain` over the chain asks of each certificate on it.
use pzd.Base.{
  ℕ, zero, suc, ◌+◌, ◌≡◌, ◌↔◌, arith, refl, some, List, [], ◌∷◌, ◌++◌, drop, get_elem?, codes,
}
use mathlib.Core.Path.{subst}
use pzd.Base.Result.{ok, guard, >>=-inv, guard-inv}
use pzd.Nitro.Formats.{Formats}
use pzd.Nitro.Chain.{
  next_of, chain_label, check_chain, assert_ca_constraints, verify_cert_signature,
  verify_cert_validity,
}
use pzd.Nitro.Issuing.{MayIssue, assert_ca_constraints_iff}
use pzd.Nitro.Signing.{SignedBy, ValidAt, verify_cert_validity_iff, verify_cert_signature_iff}

module _ (F : Formats) where
  -- The certificate of a number in the chain, and the next one.
  pub record Link (now idx : ℕ) (cert issuer : F.Certificate) : Type 0 where
    pub valid : ValidAt F now cert
    pub named : F.issuer cert ≡ F.subject issuer
    pub may_issue : MayIssue F idx issuer
    pub signed : SignedBy F issuer cert

  abbrev pub Linked : ℕ → F.Certificate → ℕ → List F.Certificate → Type 0
  Linked now root idx [] = Unit
  Linked now root idx (cert ∷ chain) =
      Link now idx cert (next_of root chain) × Linked now root (suc idx) chain

  pub check_chain_iff :
      (now : ℕ) (root : F.Certificate) (idx : ℕ) (chain : List F.Certificate)
      → (check_chain F root now idx chain ≡ ok tt) ↔ Linked now root idx chain
  unfolding check_chain
  check_chain_iff now root idx [] = (λ h. tt, λ h. refl)
  check_chain_iff now root idx (cert ∷ chain) = (
    (λ h.
        let (u, e1, h1) = >>=-inv (verify_cert_validity F cert now (chain_label idx)) _ _ h in
        let (v, e2, h2) =
          >>=-inv (guard (F.name_eq (F.issuer cert) (F.subject (next_of root chain))) _) _ _ h1 in
        let (w, e3, h3) =
          >>=-inv
            (assert_ca_constraints F (next_of root chain) idx
              (codes "issuer of " ++ chain_label idx))
            _ _ h2 in
        let (x, e4, h4) =
          >>=-inv (verify_cert_signature F cert (next_of root chain) (chain_label idx)) _ _ h3 in
        (
          record {
            valid = (verify_cert_validity_iff F cert now (chain_label idx)).0 e1;
            named = (F.name_eq_iff _ _).0 (guard-inv _ _ _ e2);
            may_issue =
                (assert_ca_constraints_iff F _ idx (codes "issuer of " ++ chain_label idx)).0 e3;
            signed = (verify_cert_signature_iff F cert _ (chain_label idx)).0 e4;
          },
          (check_chain_iff now root (suc idx) chain).0 h4,
        )),
    (λ (l, ls).
        rw
          (
            (verify_cert_validity_iff F cert now (chain_label idx)).1 l.valid,
            (F.name_eq_iff (F.issuer cert) (F.subject (next_of root chain))).1 l.named,
            (assert_ca_constraints_iff F (next_of root chain) idx
                  (codes "issuer of " ++ chain_label idx)).1
                l.may_issue,
            (verify_cert_signature_iff F cert (next_of root chain) (chain_label idx)).1 l.signed,
          )
          ((check_chain_iff now root (suc idx) chain).1 ls)),
  )

  -- The links by their numbers.
  abbrev pub Links : ℕ → F.Certificate → List F.Certificate → Type 0
  Links now root chain =
      (i : ℕ) (cert : F.Certificate)
      → get_elem? chain i ≡ some cert
      → Link now i cert (next_of root (drop (suc i) chain))

  pub Linked-Links :
      (now : ℕ) (root : F.Certificate) (idx : ℕ) (chain : List F.Certificate)
      → Linked now root idx chain
      → (i j : ℕ) (cert : F.Certificate) → idx + i ≡ j
      → get_elem? chain i ≡ some cert
      → Link now j cert (next_of root (drop (suc i) chain))
  Linked-Links now root idx [] l i j cert e h = absurd (cc)
  Linked-Links now root idx (c ∷ chain) l zero j cert e h =
      let e' : idx ≡ j = omega arith in
      let h' : c ≡ cert = cc in
      subst (λ k. Link now k cert (next_of root chain)) e'
        (subst (λ d. Link now idx d (next_of root chain)) h' l.0)
  Linked-Links now root idx (c ∷ chain) l (suc i) j cert e h =
      Linked-Links now root (suc idx) chain l.1 i j cert (omega arith) h

  pub Links-Linked :
      (now : ℕ) (root : F.Certificate) (idx : ℕ) (chain : List F.Certificate)
      → ((i j : ℕ) (cert : F.Certificate)
          → idx + i ≡ j
          → get_elem? chain i ≡ some cert
          → Link now j cert (next_of root (drop (suc i) chain)))
      → Linked now root idx chain
  Links-Linked now root idx [] l = tt
  Links-Linked now root idx (c ∷ chain) l = (
    l 0 idx c (omega arith) refl,
    Links-Linked now root (suc idx) chain (λ i j cert e h. l (suc i) j cert (omega arith) h),
  )
