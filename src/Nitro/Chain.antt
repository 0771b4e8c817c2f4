-- ===== src/Nitro/Chain.antt =====
-- crates/nitro-attestation/src/lib.rs, `verify_chain` and the checks of one certificate in it.
use pzd.Base.{
  ℕ, zero, suc, Bool, true, false, ◌||◌, not, Option, none, some, List, [], ◌∷◌, ◌++◌, ◌>>=◌, ◌>>◌,
  length, Bytes, codes, bytes_eq, ltb, if◌then◌else◌,
}
use pzd.Base.Result.{Result, ok, err, ok_or, guard, map_err}
use pzd.Base.Text.{decimal, is_utf8}
use pzd.Nitro.Formats.{Formats, Extension}
use pzd.Nitro.Attestation.{NitroError, cert_chain}
use pzd.Nitro.Armor.{decode_vec}

-- The label of a certificate in the chain.
unfoldable pub chain_label : ℕ → Bytes
unfolding decimal
chain_label idx = codes "chain cert " ++ decimal idx

-- The bytes of an em dash.
abbrev dash : Bytes
dash = 0xE2 ∷ 0x80 ∷ 0x94 ∷ []

abbrev pub key_usage : Bytes
key_usage = codes "2.5.29.15"

abbrev pub basic_constraints : Bytes
basic_constraints = codes "2.5.29.19"

-- `is_some_and` of a limit that a number is above.
abbrev pub over : Option ℕ → ℕ → Bool
over none n = false
over (some limit) n = ltb limit n

-- The certificate behind the first one of a chain, or the root.
abbrev pub next_of : {A : Type 0} → A → List A → A
next_of root [] = root
next_of root (c ∷ cs) = c

module _ (F : Formats) where
  -- The two tests of `assert_ca_constraints` on one extension, each behind the test of the identifier: whether
  -- it says that its certificate is a CA, and that it may sign certificates.
  unfoldable pub require_ca : ℕ → Bytes → Extension → Result NitroError Bool
  require_ca subordinate_ca_count label ext = do
    bc ←
        map_err (F.basic_constraints_from_der ext.extn_value)
          (λ e. cert_chain (label ++ codes ": bad BasicConstraints: " ++ e))
    guard bc.ca (cert_chain (label ++ codes ": BasicConstraints present but cA=FALSE"))
    guard (not (over bc.path_len_constraint subordinate_ca_count))
        (cert_chain (label ++ codes ": pathLenConstraint exceeded"))
    ok true

  unfoldable pub check_basic_constraints : ℕ → Bytes → Extension → Result NitroError Bool
  unfolding bytes_eq require_ca
  check_basic_constraints subordinate_ca_count label ext =
      elim (bytes_eq ext.extn_id basic_constraints) [
        | false ↦ ok false
        | true ↦ require_ca subordinate_ca_count label ext
      ]

  unfoldable pub require_cert_sign : Bytes → Extension → Result NitroError (Unit {0})
  require_cert_sign label ext = do
    usage ←
        map_err (F.key_usage_from_der ext.extn_value)
          (λ e. cert_chain (label ++ codes ": bad KeyUsage: " ++ e))
    guard usage.key_cert_sign
        (cert_chain (label ++ codes ": KeyUsage does not permit certificate signing"))

  unfoldable pub check_key_usage : Bytes → Extension → Result NitroError (Unit {0})
  unfolding bytes_eq require_cert_sign
  check_key_usage label ext = elim (bytes_eq ext.extn_id key_usage) [
    | false ↦ ok tt
    | true ↦ require_cert_sign label ext
  ]

  -- The loop over the extensions, with `basic_constraints_valid`.
  unfoldable pub check_extensions : ℕ → Bytes → Bool → List Extension → Result NitroError (Unit {0})
  unfolding check_basic_constraints check_key_usage
  check_extensions subordinate_ca_count label valid [] = guard valid (
      cert_chain
        (label ++ codes ": BasicConstraints extension missing " ++ dash ++ codes " not a CA"))
  check_extensions subordinate_ca_count label valid (ext ∷ exts) =
      check_basic_constraints subordinate_ca_count label ext >>= λ is_ca.
      (check_key_usage label ext >>= λ u.
      check_extensions subordinate_ca_count label (is_ca || valid) exts)

  unfoldable pub assert_ca_constraints : F.Certificate → ℕ → Bytes → Result NitroError (Unit {0})
  unfolding check_extensions
  assert_ca_constraints cert subordinate_ca_count label = do
    exts ← ok_or (F.extensions cert) (cert_chain (label ++ codes ": no extensions, cannot be a CA"))
    check_extensions subordinate_ca_count label false exts

  unfoldable pub verify_cert_validity : F.Certificate → ℕ → Bytes → Result NitroError (Unit {0})
  verify_cert_validity cert now_unix_secs label =
      if ltb now_unix_secs (F.not_before cert) || ltb (F.not_after cert) now_unix_secs
      then err (cert_chain (label ++ codes " not valid at current time"))
      else ok tt

  unfoldable pub verify_cert_signature :
      F.Certificate → F.Certificate → Bytes → Result NitroError (Unit {0})
  verify_cert_signature cert issuer label = do
    verifying_key ←
        map_err (F.verifying_key_from_sec1 (F.subject_public_key issuer))
          (λ e. cert_chain (label ++ codes " issuer SPKI not P-384: " ++ e))
    tbs_der ← map_err (F.tbs_der cert) (λ e. cert_chain (label ++ codes " tbs der: " ++ e))
    signature_bytes ←
        ok_or (F.cert_signature cert) (cert_chain (label ++ codes " signature has unused bits"))
    signature ←
        map_err (F.signature_from_der signature_bytes)
          (λ e. cert_chain (label ++ codes " signature der: " ++ e))
    guard (F.verify verifying_key tbs_der signature)
        (cert_chain (label ++ codes " signature verification failed"))

  -- The certificates of the bundle, decoded in order.
  unfoldable pub decode_pool : ℕ → List Bytes → Result NitroError (List F.Certificate)
  unfolding decimal
  decode_pool i [] = ok []
  decode_pool i (der ∷ ders) =
      map_err (F.certificate_from_der der)
        (λ e. cert_chain (codes "cabundle cert " ++ decimal i ++ codes ": " ++ e))
      >>= λ cert. (decode_pool (suc i) ders >>= λ certs. ok (cert ∷ certs))

  -- The first candidate with the subject, and the pool without it: `position` and `remove`.
  unfoldable pub remove_issuer :
      F.Name → List F.Certificate → Option (F.Certificate × List F.Certificate)
  remove_issuer name [] = none
  remove_issuer name (c ∷ pool) = elim (F.name_eq (F.subject c) name) [
    | true ↦ some (c, pool)
    | false ↦ elim (remove_issuer name pool) [ none ↦ none | some (d, rest) ↦ some (d, c ∷ rest) ]
  ]

  abbrev pub no_issuer : ℕ → F.Certificate → NitroError
  no_issuer idx cert = cert_chain (
      codes "no issuer found for chain cert "
      ++ decimal idx
      ++ codes ": issuer="
      ++ F.show_name (F.issuer cert))

  -- The loop that builds the chain from its last certificate `cert`, of the number `idx`. A round takes one
  -- certificate out of the pool, so the number of rounds is at most the length of the pool.
  unfoldable pub chain_loop :
      ℕ
      → F.Certificate
      → ℕ
      → F.Certificate
      → List F.Certificate
      → Result NitroError (List F.Certificate)
  unfolding remove_issuer
  chain_loop zero root idx cert pool =
      if F.name_eq (F.issuer cert) (F.subject root)
      then ok (cert ∷ [])
      else err (no_issuer idx cert)
  chain_loop (suc rounds) root idx cert pool = elim (F.name_eq (F.issuer cert) (F.subject root)) [
    | true ↦ ok (cert ∷ [])
    | false ↦ elim (remove_issuer (F.issuer cert) pool) [
      | none ↦ err (no_issuer idx cert)
      | some (next, rest) ↦
          chain_loop rounds root (suc idx) next rest >>= λ chain. ok (cert ∷ chain)
    ]
  ]

  unfoldable pub build_chain :
      F.Certificate → F.Certificate → List F.Certificate → Result NitroError (List F.Certificate)
  unfolding chain_loop
  build_chain root leaf pool = chain_loop (length pool) root 0 leaf pool

  -- The loop over the chain.
  unfoldable pub check_chain :
      F.Certificate → ℕ → ℕ → List F.Certificate → Result NitroError (Unit {0})
  unfolding verify_cert_validity assert_ca_constraints verify_cert_signature chain_label
  check_chain root now idx [] = ok tt
  check_chain root now idx (cert ∷ chain) = verify_cert_validity cert now (chain_label idx) >>= λ u.
      (guard (F.name_eq (F.issuer cert) (F.subject (next_of root chain))) (
          cert_chain (
            codes "issuer/subject mismatch at chain index "
            ++ decimal idx
            ++ codes ": issuer="
            ++ F.show_name (F.issuer cert)
            ++ codes " subject="
            ++ F.show_name (F.subject (next_of root chain))))
        >>= λ v.
            (assert_ca_constraints (next_of root chain) idx (codes "issuer of " ++ chain_label idx)
              >>= λ w.
                  (verify_cert_signature cert (next_of root chain) (chain_label idx) >>= λ x.
                  check_chain root now (suc idx) chain)))

  -- The root from its PEM file.
  unfoldable pub read_root : Bytes → Result NitroError F.Certificate
  unfolding is_utf8 decode_vec
  read_root root_pem = do
    guard (is_utf8 root_pem) (cert_chain (codes "root not utf-8"))
    pem ←
        map_err (decode_vec F root_pem) (λ e. cert_chain (codes "root pem: \"" ++ e ++ codes "\""))
    map_err (F.certificate_from_der pem.1) (λ e. cert_chain (codes "root: " ++ e))

  -- The rest of `verify_chain`, on the certificates.
  unfoldable pub verify_path :
      Option ℕ → F.Certificate → F.Certificate → List F.Certificate → Result NitroError (Unit {0})
  unfolding build_chain check_chain verify_cert_validity
  verify_path clock root leaf pool = do
    chain ← build_chain root leaf pool
    now ← ok_or clock (cert_chain (codes "system clock before unix epoch"))
    check_chain root now 0 chain
    verify_cert_validity root now (codes "pinned AWS root")

  -- The clock has the seconds since 1970, or nothing if it stands before.
  unfoldable pub verify_chain : Option ℕ → Bytes → List Bytes → Bytes → Result NitroError (Unit {0})
  unfolding decode_pool read_root verify_path
  verify_chain clock leaf_der cabundle root_pem = do
    leaf ← map_err (F.certificate_from_der leaf_der) (λ e. cert_chain (codes "leaf: " ++ e))
    pool ← decode_pool 0 cabundle
    root ← read_root root_pem
    verify_path clock root leaf pool
