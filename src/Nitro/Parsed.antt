-- ===== src/Nitro/Parsed.antt =====
-- Which attestation a document is parsed to, and which documents are parsed.
use pzd.Base.{ℕ, ◌≡◌, refl, sym, ap, ◌∙◌, Option, none, some, [], ◌∷◌, All, Bytes, codes}
use mathlib.Core.Path.{subst}
use pzd.Base.Int.{ℤ}
use pzd.Base.Result.{ok, ok_or, map_err, >>=-inv, ok_or-inv, map_err-inv, ok-injective}
use pzd.Nitro.Formats.{Formats}
use pzd.Nitro.Attestation.{cbor, cose, get_pcr, VerifiedAttestation}
use pzd.Nitro.Document.{
  Fields, no_fields, timestamp_of, chain_of, read_fields, attestation_of, parse, set_field,
}
use pzd.Nitro.Parsing.{
  Entries, folded, bundle_of, pcr_of, read_fields-folded, read_fields-text, module_id-set,
  digest-set, timestamp-set, cert-set, public_key-set, user_data-set, nonce-set, cabundle-set,
  pcrs-set,
}

module _ (F : Formats) where
  -- The text, and the bytes, of the last entry of a key.
  abbrev pub last_text : Bytes → Entries F → Option Bytes
  last_text κ = folded F κ (λ v d. F.as_text v) none

  abbrev pub last_bytes : Bytes → Entries F → Option Bytes
  last_bytes κ = folded F κ (λ v d. F.as_bytes v) none

  abbrev pub last_timestamp : Entries F → Option ℤ
  last_timestamp = folded F (codes "timestamp") (λ v d. timestamp_of F v) none

  -- What an attestation says of the entries of a payload.
  pub record ReadFrom (entries : Entries F) (a : VerifiedAttestation) : Type 0 where
    pub module_id : last_text (codes "module_id") entries ≡ some a.module_id
    pub digest : last_text (codes "digest") entries ≡ some a.digest
    pub timestamp_ms : last_timestamp entries ≡ some a.timestamp_ms
    pub public_key : a.public_key ≡ last_bytes (codes "public_key") entries
    pub user_data : a.user_data ≡ last_bytes (codes "user_data") entries
    pub nonce : a.nonce ≡ last_bytes (codes "nonce") entries
    pub pcrs : (i : ℕ) → get_pcr i a.pcrs ≡ folded F (codes "pcrs") (pcr_of F i) none entries
    pub certificate_chain :
        a.certificate_chain
        ≡ chain_of F
            (last_bytes (codes "certificate") entries)
            (folded F (codes "cabundle") (bundle_of F) [] entries)

  -- The entries of the payload of a document.
  pub record Payload (doc_bytes : Bytes) (entries : Entries F) : Type 0 where
    pub doc : F.CoseSign1
    pub payload : Bytes
    pub value : F.Cbor
    pub is_doc : F.cose_from_slice doc_bytes ≡ ok doc
    pub has_payload : F.payload doc ≡ some payload
    pub is_value : F.cbor_from_reader payload ≡ ok value
    pub is_map : F.as_map value ≡ some entries

  attestation_of-ReadFrom :
      (entries : Entries F) (s : Fields) (a : VerifiedAttestation)
      → read_fields F no_fields entries ≡ ok s
      → attestation_of F s ≡ ok a
      → ReadFrom entries a
  unfolding attestation_of get_pcr
  attestation_of-ReadFrom entries s a r h =
      let (m, e1, h1) = >>=-inv (ok_or s.module_id _) _ _ h in
      let (d, e2, h2) = >>=-inv (ok_or s.digest _) _ _ h1 in
      let (t, e3, h3) = >>=-inv (ok_or s.timestamp _) _ _ h2 in
      subst (ReadFrom entries) (ok-injective _ _ h3) (record {
        module_id =
            sym (
              read_fields-folded F (λ s. s.module_id) (codes "module_id") (λ v d. F.as_text v)
                (module_id-set F) entries no_fields s r)
            ∙ ok_or-inv _ _ _ e1;
        digest =
            sym (
              read_fields-folded F (λ s. s.digest) (codes "digest") (λ v d. F.as_text v)
                (digest-set F) entries no_fields s r)
            ∙ ok_or-inv _ _ _ e2;
        timestamp_ms =
            sym (
              read_fields-folded F (λ s. s.timestamp) (codes "timestamp") (λ v d. timestamp_of F v)
                (timestamp-set F) entries no_fields s r)
            ∙ ok_or-inv _ _ _ e3;
        public_key =
            read_fields-folded F (λ s. s.public_key) (codes "public_key") (λ v d. F.as_bytes v)
              (public_key-set F) entries no_fields s r;
        user_data =
            read_fields-folded F (λ s. s.user_data) (codes "user_data") (λ v d. F.as_bytes v)
              (user_data-set F) entries no_fields s r;
        nonce =
            read_fields-folded F (λ s. s.nonce) (codes "nonce") (λ v d. F.as_bytes v) (nonce-set F)
              entries no_fields s r;
        pcrs = λ i.
            read_fields-folded F (λ s. get_pcr i s.pcrs) (codes "pcrs") (pcr_of F i) (pcrs-set F i)
              entries no_fields s r;
        certificate_chain =
            ap (λ c. chain_of F c s.cabundle)
              (read_fields-folded F (λ s. s.cert) (codes "certificate") (λ v d. F.as_bytes v)
                (cert-set F) entries no_fields s r)
            ∙ ap (chain_of F (last_bytes (codes "certificate") entries)) (
                read_fields-folded F (λ s. s.cabundle) (codes "cabundle") (bundle_of F)
                  (cabundle-set F) entries no_fields s r);
      })

  -- The keys of the entries are texts.
  abbrev pub Keyed : Entries F → Type 0
  Keyed entries = All (λ (e : F.Cbor × F.Cbor). (key : Bytes) × (F.as_text e.0 ≡ some key)) entries

  read_fields_total :
      (entries : Entries F) (s : Fields)
      → Keyed entries
      → (s' : Fields) × (read_fields F s entries ≡ ok s')
  unfolding read_fields
  read_fields_total [] s k = (s, refl)
  read_fields_total ((k, v) ∷ es) s ((key, e), keyed) =
      let (s', h) = read_fields_total es (set_field F s key v) keyed in
      (s', read_fields-text F s k key v es e ∙ h)

  -- A document that is parsed has a payload with a map in it, and the attestation says of each key what the
  -- last entry of that key says: its text, bytes or number, or nothing if that entry has another type. The
  -- bundle has the byte strings of all its arrays in order behind the certificate, and a register has the
  -- last measurement of its number.
  pub parse-ReadFrom :
      (doc_bytes : Bytes) (a : VerifiedAttestation)
      → parse F doc_bytes ≡ ok a
      → (entries : Entries F) × Payload doc_bytes entries × ReadFrom entries a
  unfolding parse
  parse-ReadFrom doc_bytes a h =
      let (doc, e1, h1) = >>=-inv (map_err (F.cose_from_slice doc_bytes) cose) _ _ h in
      let (payload, e2, h2) = >>=-inv (ok_or (F.payload doc) _) _ _ h1 in
      let (value, e3, h3) = >>=-inv (map_err (F.cbor_from_reader payload) cbor) _ _ h2 in
      let (entries, e4, h4) = >>=-inv (ok_or (F.as_map value) _) _ _ h3 in
      let (s, e5, h5) = >>=-inv (read_fields F no_fields entries) _ _ h4 in
      (
        entries,
        record {
          doc = doc;
          payload = payload;
          value = value;
          is_doc = map_err-inv _ _ _ e1;
          has_payload = ok_or-inv _ _ _ e2;
          is_value = map_err-inv _ _ _ e3;
          is_map = ok_or-inv _ _ _ e4;
        },
        attestation_of-ReadFrom entries s a e5 h5,
      )

  -- A document is parsed if its payload is a map whose keys are texts and whose last entries of
  -- `module_id`, `digest` and `timestamp` are two texts and a number.
  pub parse_answers :
      (doc_bytes : Bytes) (entries : Entries F) (module_id digest : Bytes) (timestamp : ℤ)
      → Payload doc_bytes entries
      → Keyed entries
      → last_text (codes "module_id") entries ≡ some module_id
      → last_text (codes "digest") entries ≡ some digest
      → last_timestamp entries ≡ some timestamp
      → (a : VerifiedAttestation) × (parse F doc_bytes ≡ ok a)
  unfolding parse attestation_of
  parse_answers doc_bytes entries module_id digest timestamp p keyed m d t =
      let (s, r) = read_fields_total entries no_fields keyed in
      let m' : s.module_id ≡ some module_id =
        read_fields-folded F (λ s. s.module_id) (codes "module_id") (λ v d. F.as_text v)
          (module_id-set F) entries no_fields s r
        ∙ m in
      let d' : s.digest ≡ some digest =
        read_fields-folded F (λ s. s.digest) (codes "digest") (λ v d. F.as_text v) (digest-set F)
          entries no_fields s r
        ∙ d in
      let t' : s.timestamp ≡ some timestamp =
        read_fields-folded F (λ s. s.timestamp) (codes "timestamp") (λ v d. timestamp_of F v)
          (timestamp-set F) entries no_fields s r
        ∙ t in
      (
        record {
          module_id = module_id;
          digest = digest;
          pcrs = s.pcrs;
          user_data = s.user_data;
          nonce = s.nonce;
          public_key = s.public_key;
          timestamp_ms = timestamp;
          certificate_chain = chain_of F s.cert s.cabundle;
        },
        rw (p.is_doc, p.has_payload, p.is_value, p.is_map, r, m', d', t') refl,
      )
