-- ===== src/Nitro/Issuing.antt =====
-- What the checks of one certificate ask: that it may issue others, that it is valid now, and that another
-- one signed it.
use pzd.Base.{
  ℕ, ◌≤◌, ◌≡◌, ◌↔◌, ◌⊎◌, inl, inr, arith, refl, sym, ap, ◌∙◌, Bool, true, false, not, ◌||◌, Option,
  none, some, List, [], ◌∷◌, All, Any, Bytes, bytes_eq, bytes_eq_sound, bytes_eq_refl,
}
use pzd.Base.Result.{
  Result, ok, ok_or, guard, map_err, >>=-inv, ok_or-inv, guard-inv, map_err-inv, ok-injective,
}
use pzd.Nitro.Formats.{Formats, Extension, BasicConstraints, KeyUsage}
use pzd.Nitro.Attestation.{NitroError}
use pzd.Nitro.Chain.{
  basic_constraints, key_usage, over, require_ca, require_cert_sign, check_basic_constraints,
  check_key_usage, check_extensions, assert_ca_constraints,
}

-- A limit that is not there, or not below the number.
abbrev pub Within : Option ℕ → ℕ → Type 0
Within none n = Unit
Within (some limit) n = n ≤ limit

over-Within : (o : Option ℕ) (n : ℕ) → (not (over o n) ≡ true) ↔ Within o n
over-Within none n = (λ h. tt, λ h. refl)
over-Within (some limit) n = ground arith

abbrev pub IsConstraints : Extension → Type 0
IsConstraints ext = ext.extn_id ≡ basic_constraints

module _ (F : Formats) where
  -- Basic constraints of a CA with so many CAs below it.
  pub record Constrains (n : ℕ) (ext : Extension) : Type 0 where
    pub bc : BasicConstraints
    pub decoded : F.basic_constraints_from_der ext.extn_value ≡ ok bc
    pub is_ca : bc.ca ≡ true
    pub within : Within bc.path_len_constraint n

  -- A key usage that permits to sign certificates.
  pub record Permits (ext : Extension) : Type 0 where
    pub usage : KeyUsage
    pub decoded : F.key_usage_from_der ext.extn_value ≡ ok usage
    pub signs : usage.key_cert_sign ≡ true

  -- What the two extensions that count must say, if this is one of them.
  abbrev pub Fine : ℕ → Extension → Type 0
  Fine n ext = (IsConstraints ext → Constrains n ext) × (ext.extn_id ≡ key_usage → Permits ext)

  -- A certificate that may issue one with so many CAs below it.
  pub record MayIssue (n : ℕ) (cert : F.Certificate) : Type 0 where
    pub exts : List Extension
    pub has_exts : F.extensions cert ≡ some exts
    pub fine : All (Fine n) exts
    pub constrained : Any IsConstraints exts

  is_id : (a b : Bytes) → bytes_eq a b ≡ false → ¬ (a ≡ b)
  is_id a b f e = let t : bytes_eq a b ≡ true = ap (bytes_eq a) (sym e) ∙ bytes_eq_refl a in cc

  require_ca-inv :
      (n : ℕ) (label : Bytes) (ext : Extension) (b : Bool)
      → require_ca F n label ext ≡ ok b
      → (b ≡ true) × Constrains n ext
  unfolding require_ca
  require_ca-inv n label ext b h =
      let (bc, e1, h1) = >>=-inv (map_err (F.basic_constraints_from_der ext.extn_value) _) _ _ h in
      let (u, e2, h2) = >>=-inv (guard bc.ca _) _ _ h1 in
      let (v, e3, h3) = >>=-inv (guard (not (over bc.path_len_constraint n)) _) _ _ h2 in
      (
        sym (ok-injective _ _ h3),
        record {
          bc = bc;
          decoded = map_err-inv _ _ _ e1;
          is_ca = guard-inv _ _ _ e2;
          within = (over-Within _ _).0 (guard-inv _ _ _ e3);
        },
      )

  Constrains-require_ca :
      (n : ℕ) (label : Bytes) (ext : Extension)
      → Constrains n ext
      → require_ca F n label ext ≡ ok true
  unfolding require_ca
  Constrains-require_ca n label ext c =
      rw (c.decoded, c.is_ca, (over-Within c.bc.path_len_constraint n).1 c.within) refl

  -- The test of the basic constraints, on an extension that has them and on another.
  check_basic_constraints_iff :
      (n : ℕ) (label : Bytes) (ext : Extension) (b : Bool)
      → (check_basic_constraints F n label ext ≡ ok b)
        ↔ ((b ≡ bytes_eq ext.extn_id basic_constraints) × (IsConstraints ext → Constrains n ext))
  unfolding check_basic_constraints
  check_basic_constraints_iff n label ext b = split (bytes_eq ext.extn_id basic_constraints) refl
    where
      split :
          (same : Bool)
          → bytes_eq ext.extn_id basic_constraints ≡ same
          → (Path
              (Result NitroError Bool)
              (elim same [ false ↦ ok false | true ↦ require_ca F n label ext ])
              (ok b))
            ↔ ((b ≡ same) × (IsConstraints ext → Constrains n ext))
      split true t = (
        (λ h. let (e, c) = require_ca-inv n label ext b h in (e, λ i. c)),
        (λ (e, c). Constrains-require_ca n label ext (c (bytes_eq_sound _ _ t)) ∙ ap ok (sym e)),
      )
      split false f = (
        (λ h. (sym (ok-injective _ _ h), λ i. absurd (is_id _ _ f i))),
        (λ (e, c). ap ok (sym e)),
      )

  check_key_usage_iff :
      (label : Bytes) (ext : Extension)
      → (check_key_usage F label ext ≡ ok tt) ↔ (ext.extn_id ≡ key_usage → Permits ext)
  unfolding check_key_usage require_cert_sign
  check_key_usage_iff label ext = split (bytes_eq ext.extn_id key_usage) refl
    where
      split :
          (same : Bool)
          → bytes_eq ext.extn_id key_usage ≡ same
          → (Path
              (Result NitroError (Unit {0}))
              (elim same [ false ↦ ok tt | true ↦ require_cert_sign F label ext ])
              (ok tt))
            ↔ (ext.extn_id ≡ key_usage → Permits ext)
      split true t = (
        (λ h i.
            let (usage, e1, h1) = >>=-inv (map_err (F.key_usage_from_der ext.extn_value) _) _ _ h in
            record { usage = usage; decoded = map_err-inv _ _ _ e1; signs = guard-inv _ _ _ h1 }),
        (λ p. let q = p (bytes_eq_sound _ _ t) in rw (q.decoded, q.signs) refl),
      )
      split false f = ((λ h i. absurd (is_id _ _ f i)), (λ p. refl))

  or_true : (b : Bool) → (b || true) ≡ true
  or_true b = ground arith

  check_extensions_iff :
      (n : ℕ) (label : Bytes) (valid : Bool) (exts : List Extension)
      → (check_extensions F n label valid exts ≡ ok tt)
        ↔ (All (Fine n) exts × ((valid ≡ true) ⊎ Any IsConstraints exts))
  unfolding check_extensions
  check_extensions_iff n label valid [] = (
    (λ h. (tt, inl (guard-inv _ _ _ h))),
    (λ (a, o). elim o [ inl v ↦ rw v refl | inr x ↦ absurd x ]),
  )
  check_extensions_iff n label valid (ext ∷ exts) = (
    (λ h.
        let (b, e1, h1) = >>=-inv (check_basic_constraints F n label ext) _ _ h in
        let (u, e2, h2) = >>=-inv (check_key_usage F label ext) _ _ h1 in
        let (eb, c) = (check_basic_constraints_iff n label ext b).0 e1 in
        let (fine, o) = (check_extensions_iff n label (b || valid) exts).0 h2 in
        (((c, (check_key_usage_iff label ext).0 e2), fine), found b eb o)),
    (λ (fine, o).
        rw
          (
            (check_basic_constraints_iff n label ext (bytes_eq ext.extn_id basic_constraints)).1
                (refl, fine.0.0),
            (check_key_usage_iff label ext).1 fine.0.1,
          )
          ((check_extensions_iff n label (bytes_eq ext.extn_id basic_constraints || valid) exts).1
            (fine.1, marked o))),
  )
    where
      found :
          (b : Bool)
          → b ≡ bytes_eq ext.extn_id basic_constraints
          → ((b || valid) ≡ true) ⊎ Any IsConstraints exts
          → (valid ≡ true) ⊎ (IsConstraints ext ⊎ Any IsConstraints exts)
      found true e o = inr (inl (bytes_eq_sound _ _ (sym e)))
      found false e (inl v) = inl v
      found false e (inr x) = inr (inr x)

      marked :
          (valid ≡ true) ⊎ (IsConstraints ext ⊎ Any IsConstraints exts)
          → ((bytes_eq ext.extn_id basic_constraints || valid) ≡ true) ⊎ Any IsConstraints exts
      marked (inl v) = inl (rw v (or_true _))
      marked (inr (inl i)) = inl (rw (i, bytes_eq_refl basic_constraints) refl)
      marked (inr (inr x)) = inr x

  -- The check of an issuer accepts a certificate exactly if it has extensions, its basic constraints are there
  -- and each says that it is a CA with room for so many below it, and a key usage, if there is one,
  -- permits to sign certificates.
  pub assert_ca_constraints_iff :
      (cert : F.Certificate) (n : ℕ) (label : Bytes)
      → (assert_ca_constraints F cert n label ≡ ok tt) ↔ MayIssue n cert
  unfolding assert_ca_constraints
  assert_ca_constraints_iff cert n label = (
    (λ h.
        let (exts, e1, h1) = >>=-inv (ok_or (F.extensions cert) _) _ _ h in
        let (fine, o) = (check_extensions_iff n label false exts).0 h1 in
        record {
          exts = exts;
          has_exts = ok_or-inv _ _ _ e1;
          fine = fine;
          constrained = elim o [ inl v ↦ absurd (cc) | inr x ↦ x ];
        }),
    (λ m.
        rw m.has_exts ((check_extensions_iff n label false m.exts).1 (m.fine, inr m.constrained))),
  )
