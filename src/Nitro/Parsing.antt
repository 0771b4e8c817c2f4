-- ===== src/Nitro/Parsing.antt =====
-- What the loop over a document's payload reads: the last entry of a key, the measurements that the
-- entries name, and the bundle of certificates.
use pzd.Base.{
  ℕ, ◌≡◌, refl, sym, ap, ◌∙◌, arith, Bool, false, Option, none, some, List, [], ◌∷◌, ◌++◌,
  append-nil, append_assoc, inl, inr, Bytes, codes, bytes_eq, bytes_eq_sound, Bool-cases,
  Option-cases, ◌==◌, if◌then◌else◌,
}
use mathlib.Core.Path.{subst}
use pzd.Base.Int.{as_usize}
use pzd.Base.Result.{ok, err}
use pzd.Nitro.Formats.{Formats}
use pzd.Nitro.Attestation.{cbor, PcrMap, insert_pcr, get_pcr}
use pzd.Nitro.Document.{
  Fields, timestamp_of, read_pcr, read_pcrs, read_bundle, set_field, read_fields,
}

get_pcr-insert_pcr :
    (i j : ℕ) (b : Bytes) (m : PcrMap)
    → get_pcr i (insert_pcr j b m) ≡ (if i == j then some b else get_pcr i m)
unfolding get_pcr insert_pcr
get_pcr-insert_pcr i j b [] = ground arith
get_pcr-insert_pcr i j b ((k, c) ∷ m) = ground (arith, get_pcr-insert_pcr i j b m)

module _ (F : Formats) where
  abbrev pub Entries : Type 0
  Entries = List (F.Cbor × F.Cbor)

  abbrev pub is_key : Bytes → F.Cbor → Bool
  is_key κ k = elim (F.as_text k) [ none ↦ false | some key ↦ bytes_eq key κ ]

  -- A projection of the fields that the entries of one key set, and no other entry.
  abbrev pub SetBy : {B : Type 0} → (Fields → B) → Bytes → (F.Cbor → B → B) → Type 0
  SetBy π κ read =
      (s : Fields) (key : Bytes) (v : F.Cbor)
      → π (set_field F s key v) ≡ (if bytes_eq key κ then read v (π s) else π s)

  -- The entries of one key, each read over what the ones before it gave.
  unfoldable pub folded : {B : Type 0} → Bytes → (F.Cbor → B → B) → B → Entries → B
  folded κ read d [] = d
  folded κ read d ((k, v) ∷ es) = folded κ read (if is_key κ k then read v d else d) es

  -- One entry with a text as its key.
  pub read_fields-text :
      (s : Fields) (k : F.Cbor) (key : Bytes) (v : F.Cbor) (es : Entries)
      → F.as_text k ≡ some key
      → read_fields F s ((k, v) ∷ es) ≡ read_fields F (set_field F s key v) es
  unfolding read_fields
  read_fields-text s k key v es e =
      ap
        (λ (o : Option Bytes). elim o [
          | none ↦ err (cbor (codes "non-text key in payload"))
          | some key ↦ read_fields F (set_field F s key v) es
        ])
        e

  read_fields-stuck :
      (s : Fields) (k v : F.Cbor) (es : Entries)
      → F.as_text k ≡ none
      → read_fields F s ((k, v) ∷ es) ≡ err (cbor (codes "non-text key in payload"))
  unfolding read_fields
  read_fields-stuck s k v es e =
      ap
        (λ (o : Option Bytes). elim o [
          | none ↦ err (cbor (codes "non-text key in payload"))
          | some key ↦ read_fields F (set_field F s key v) es
        ])
        e

  pub read_fields-folded :
      {B : Type 0} (π : Fields → B) (κ : Bytes) (read : F.Cbor → B → B)
      → SetBy π κ read
      → (es : Entries) (s s' : Fields) → read_fields F s es ≡ ok s'
      → π s' ≡ folded κ read (π s) es
  unfolding read_fields folded
  read_fields-folded π κ read set [] s s' h = ap π (sym (cc))
  read_fields-folded π κ read set ((k, v) ∷ es) s s' h = elim (Option-cases (F.as_text k)) [
    | inl e ↦ absurd (let stuck = read_fields-stuck s k v es e in cc)
    | inr (key, e) ↦
        let same : π (set_field F s key v) ≡ (if is_key κ k then read v (π s) else π s) =
          set s key v
          ∙ sym (
              ap
                (λ (o : Option Bytes).
                  if elim o [ none ↦ false | some key ↦ bytes_eq key κ ] then read v (π s) else π s)
                e) in
        read_fields-folded π κ read set es _ s' (sym (read_fields-text s k key v es e) ∙ h)
        ∙ ap (λ d. folded κ read d es) same
  ]

  set_by :
      {B : Type 0} (π : Fields → B) (κ : Bytes) (read : F.Cbor → B → B)
      → ((s : Fields) (v : F.Cbor) → π (set_field F s κ v) ≡ read v (π s))
      → ((s : Fields) (key : Bytes) (v : F.Cbor)
          → bytes_eq key κ ≡ false
          → π (set_field F s key v) ≡ π s)
      → SetBy π κ read
  set_by π κ read hit miss s key v = elim (Bool-cases (bytes_eq key κ)) [
    | inl t ↦ rw t (
        subst (λ key. π (set_field F s key v) ≡ read v (π s)) (sym (bytes_eq_sound key κ t))
          (hit s v))
    | inr f ↦ rw f (miss s key v f)
  ]

  -- The byte strings of an array.
  unfoldable pub byte_strings : List F.Cbor → List Bytes
  byte_strings [] = []
  byte_strings (v ∷ vs) = elim (F.as_bytes v) [
    | none ↦ byte_strings vs
    | some b ↦ b ∷ byte_strings vs
  ]

  read_bundle-append :
      (bundle : List Bytes) (vs : List F.Cbor) → read_bundle F bundle vs ≡ bundle ++ byte_strings vs
  unfolding read_bundle byte_strings
  read_bundle-append bundle [] = sym (append-nil bundle)
  read_bundle-append bundle (v ∷ vs) =
      joined (read_bundle-append bundle vs) (λ b. read_bundle-append (bundle ++ (b ∷ [])) vs)
        (F.as_bytes v)
    where
      joined :
          read_bundle F bundle vs ≡ bundle ++ byte_strings vs
          → ((b : Bytes)
              → read_bundle F (bundle ++ (b ∷ [])) vs ≡ (bundle ++ (b ∷ [])) ++ byte_strings vs)
          → (o : Option Bytes)
          → (elim o [
            | none ↦ read_bundle F bundle vs
            | some b ↦ read_bundle F (bundle ++ (b ∷ [])) vs
          ])
            ≡ bundle ++ (elim o [ none ↦ byte_strings vs | some b ↦ b ∷ byte_strings vs ])
      joined here there none = here
      joined here there (some b) = there b ∙ append_assoc bundle (b ∷ []) (byte_strings vs)

  -- The bundle with the byte strings of one more array.
  abbrev pub bundle_of : F.Cbor → List Bytes → List Bytes
  bundle_of v bundle = elim (F.as_array v) [ none ↦ bundle | some a ↦ bundle ++ byte_strings a ]

  -- What the entries of one map of measurements say of one register, over what it was before.
  unfoldable pub pcr_in : ℕ → Option Bytes → List (F.Cbor × F.Cbor) → Option Bytes
  pcr_in i d [] = d
  pcr_in i d ((idx_v, bytes_v) ∷ es) =
      pcr_in i
        (elim (F.as_integer idx_v) [
          | none ↦ d
          | some idx ↦ elim (F.as_bytes bytes_v) [
            | none ↦ d
            | some bytes ↦ if i == as_usize idx then some (F.hex_encode bytes) else d
          ]
        ])
        es

  get_pcr-read_pcr :
      (i : ℕ) (m : PcrMap) (e : F.Cbor × F.Cbor)
      → get_pcr i (read_pcr F m e) ≡ pcr_in i (get_pcr i m) (e ∷ [])
  unfolding read_pcr pcr_in
  get_pcr-read_pcr i m (k, v) = grind (arith, get_pcr-insert_pcr)

  get_pcr-read_pcrs :
      (i : ℕ) (es : List (F.Cbor × F.Cbor)) (m : PcrMap)
      → get_pcr i (read_pcrs F m es) ≡ pcr_in i (get_pcr i m) es
  unfolding read_pcrs pcr_in
  get_pcr-read_pcrs i [] m = refl
  get_pcr-read_pcrs i (e ∷ es) m =
      get_pcr-read_pcrs i es (read_pcr F m e) ∙ ap (λ d. pcr_in i d es) (get_pcr-read_pcr i m e)

  abbrev pub pcr_of : ℕ → F.Cbor → Option Bytes → Option Bytes
  pcr_of i v d = elim (F.as_map v) [ none ↦ d | some m ↦ pcr_in i d m ]

  pub module_id-set : SetBy (λ s. s.module_id) (codes "module_id") (λ v d. F.as_text v)
  unfolding set_field
  module_id-set =
      set_by (λ s. s.module_id) (codes "module_id") (λ v d. F.as_text v) (λ s v. refl)
        (λ s key v f. ground arith)

  pub digest-set : SetBy (λ s. s.digest) (codes "digest") (λ v d. F.as_text v)
  unfolding set_field
  digest-set =
      set_by (λ s. s.digest) (codes "digest") (λ v d. F.as_text v) (λ s v. refl)
        (λ s key v f. ground arith)

  pub timestamp-set : SetBy (λ s. s.timestamp) (codes "timestamp") (λ v d. timestamp_of F v)
  unfolding set_field
  timestamp-set =
      set_by (λ s. s.timestamp) (codes "timestamp") (λ v d. timestamp_of F v) (λ s v. refl)
        (λ s key v f. ground arith)

  pub cert-set : SetBy (λ s. s.cert) (codes "certificate") (λ v d. F.as_bytes v)
  unfolding set_field
  cert-set =
      set_by (λ s. s.cert) (codes "certificate") (λ v d. F.as_bytes v) (λ s v. refl)
        (λ s key v f. ground arith)

  pub public_key-set : SetBy (λ s. s.public_key) (codes "public_key") (λ v d. F.as_bytes v)
  unfolding set_field
  public_key-set =
      set_by (λ s. s.public_key) (codes "public_key") (λ v d. F.as_bytes v) (λ s v. refl)
        (λ s key v f. ground arith)

  pub user_data-set : SetBy (λ s. s.user_data) (codes "user_data") (λ v d. F.as_bytes v)
  unfolding set_field
  user_data-set =
      set_by (λ s. s.user_data) (codes "user_data") (λ v d. F.as_bytes v) (λ s v. refl)
        (λ s key v f. ground arith)

  pub nonce-set : SetBy (λ s. s.nonce) (codes "nonce") (λ v d. F.as_bytes v)
  unfolding set_field
  nonce-set =
      set_by (λ s. s.nonce) (codes "nonce") (λ v d. F.as_bytes v) (λ s v. refl)
        (λ s key v f. ground arith)

  pub cabundle-set : SetBy (λ s. s.cabundle) (codes "cabundle") bundle_of
  unfolding set_field
  cabundle-set =
      set_by (λ s. s.cabundle) (codes "cabundle") bundle_of
        (λ s v. grind (arith, read_bundle-append)) (λ s key v f. ground arith)

  pub pcrs-set : (i : ℕ) → SetBy (λ s. get_pcr i s.pcrs) (codes "pcrs") (pcr_of i)
  unfolding set_field
  pcrs-set i =
      set_by (λ s. get_pcr i s.pcrs) (codes "pcrs") (pcr_of i)
        (λ s v. grind (arith, get_pcr-read_pcrs)) (λ s key v f. ground arith)
