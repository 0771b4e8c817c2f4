-- ===== src/Nitro/Document.antt =====
-- crates/nitro-attestation/src/lib.rs, `Verifier::parse`: the payload of a document, key by key.
use pzd.Base.{◌>>=◌, Option, none, some, List, [], ◌∷◌, ◌++◌, Bytes, codes, bytes_eq, if◌then◌else◌}
use pzd.Base.Int.{ℤ, as_usize, as_i64}
use pzd.Base.Result.{Result, ok, err, ok_or, map_err}
use pzd.Nitro.Formats.{Formats}
use pzd.Nitro.Attestation.{NitroError, cbor, cose, missing, PcrMap, insert_pcr, VerifiedAttestation}

-- The variables of the loop over the payload.
pub record Fields : Type 0 where
  pub module_id : Option Bytes
  pub digest : Option Bytes
  pub timestamp : Option ℤ
  pub pcrs : PcrMap
  pub cert : Option Bytes
  pub cabundle : List Bytes
  pub public_key : Option Bytes
  pub user_data : Option Bytes
  pub nonce : Option Bytes

abbrev pub no_fields : Fields
no_fields = record {
  module_id = none;
  digest = none;
  timestamp = none;
  pcrs = [];
  cert = none;
  cabundle = [];
  public_key = none;
  user_data = none;
  nonce = none;
}

module _ (F : Formats) where
  unfoldable pub timestamp_of : F.Cbor → Option ℤ
  unfolding as_i64
  timestamp_of v = elim (F.as_integer v) [ none ↦ none | some n ↦ some (as_i64 n) ]

  -- One entry of the map of measurements: it counts if it has a number and bytes.
  unfoldable pub read_pcr : PcrMap → F.Cbor × F.Cbor → PcrMap
  unfolding insert_pcr as_usize
  read_pcr pcrs (idx_v, bytes_v) = elim (F.as_integer idx_v) [
    | none ↦ pcrs
    | some idx ↦ elim (F.as_bytes bytes_v) [
      | none ↦ pcrs
      | some bytes ↦ insert_pcr (as_usize idx) (F.hex_encode bytes) pcrs
    ]
  ]

  unfoldable pub read_pcrs : PcrMap → List (F.Cbor × F.Cbor) → PcrMap
  unfolding read_pcr
  read_pcrs pcrs [] = pcrs
  read_pcrs pcrs (e ∷ es) = read_pcrs (read_pcr pcrs e) es

  unfoldable pub read_bundle : List Bytes → List F.Cbor → List Bytes
  read_bundle bundle [] = bundle
  read_bundle bundle (v ∷ vs) =
      let rest = read_bundle bundle vs in
      elim (F.as_bytes v) [ none ↦ rest | some b ↦ read_bundle (bundle ++ (b ∷ [])) vs ]

  -- The match on the key of an entry.
  unfoldable pub set_field : Fields → Bytes → F.Cbor → Fields
  unfolding timestamp_of read_pcrs read_bundle bytes_eq
  set_field s key v =
      if bytes_eq key (codes "module_id")
      then record s { module_id = F.as_text v }
      else if bytes_eq key (codes "digest")
      then record s { digest = F.as_text v }
      else if bytes_eq key (codes "timestamp")
      then record s { timestamp = timestamp_of v }
      else if bytes_eq key (codes "pcrs")
      then elim (F.as_map v) [ none ↦ s | some m ↦ record s { pcrs = read_pcrs s.pcrs m } ]
      else if bytes_eq key (codes "certificate")
      then record s { cert = F.as_bytes v }
      else if bytes_eq key (codes "cabundle")
      then elim (F.as_array v) [
        | none ↦ s
        | some a ↦ record s { cabundle = read_bundle s.cabundle a }
      ]
      else if bytes_eq key (codes "public_key")
      then record s { public_key = F.as_bytes v }
      else if bytes_eq key (codes "user_data")
      then record s { user_data = F.as_bytes v }
      else if bytes_eq key (codes "nonce")
      then record s { nonce = F.as_bytes v }
      else s

  unfoldable pub read_fields : Fields → List (F.Cbor × F.Cbor) → Result NitroError Fields
  unfolding set_field
  read_fields s [] = ok s
  read_fields s ((k, v) ∷ es) = elim (F.as_text k) [
    | none ↦ err (cbor (codes "non-text key in payload"))
    | some key ↦ read_fields (set_field s key v) es
  ]

  abbrev pub chain_of : Option Bytes → List Bytes → List Bytes
  chain_of none cabundle = cabundle
  chain_of (some c) cabundle = c ∷ cabundle

  unfoldable pub attestation_of : Fields → Result NitroError VerifiedAttestation
  attestation_of s = do
    module_id ← ok_or s.module_id (missing (codes "module_id"))
    digest ← ok_or s.digest (missing (codes "digest"))
    timestamp ← ok_or s.timestamp (missing (codes "timestamp"))
    ok (record {
      module_id = module_id;
      digest = digest;
      pcrs = s.pcrs;
      user_data = s.user_data;
      nonce = s.nonce;
      public_key = s.public_key;
      timestamp_ms = timestamp;
      certificate_chain = chain_of s.cert s.cabundle;
    })

  unfoldable pub parse : Bytes → Result NitroError VerifiedAttestation
  unfolding read_fields attestation_of
  parse doc_bytes = do
    doc ← map_err (F.cose_from_slice doc_bytes) cose
    payload ← ok_or (F.payload doc) (missing (codes "payload"))
    value ← map_err (F.cbor_from_reader payload) cbor
    entries ← ok_or (F.as_map value) (cbor (codes "payload not a map"))
    fields ← read_fields no_fields entries
    attestation_of fields
