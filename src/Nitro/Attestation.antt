-- ===== src/Nitro/Attestation.antt =====
-- crates/nitro-attestation/src/lib.rs: `NitroError`, and `VerifiedAttestation` with the checks on one.
use pzd.Base.{
  ℕ, ◌+◌, Bool, true, false, ◌&&◌, Option, none, some, List, [], ◌∷◌, Bytes, codes, ◌==◌, leb, ltb,
  if◌then◌else◌,
}
use pzd.Base.Int.{ℤ, pos, negsuc, ◌-ℤ◌, abs, quot, as_i64}
use pzd.Base.Result.{Result, ok, err}

pub data NitroError : Type 0 where
  cbor : Bytes → NitroError
  cose : Bytes → NitroError
  cert_chain : Bytes → NitroError
  signature : NitroError
  -- The expected value and the one that was found.
  pcr_mismatch : Bytes → Bytes → NitroError
  -- The time of the document in seconds, and the skew.
  expired : ℤ → ℤ → NitroError
  nsm : Bytes → NitroError
  missing : Bytes → NitroError

-- A `BTreeMap` from numbers, as its entries in order.
abbrev pub PcrMap : Type 0
PcrMap = List (ℕ × Bytes)

unfoldable pub insert_pcr : ℕ → Bytes → PcrMap → PcrMap
insert_pcr i b [] = (i, b) ∷ []
insert_pcr i b ((j, c) ∷ m) =
    let rest = insert_pcr i b m in
    if ltb i j then (i, b) ∷ (j, c) ∷ m else if i == j then (i, b) ∷ m else (j, c) ∷ rest

unfoldable pub get_pcr : ℕ → PcrMap → Option Bytes
get_pcr i [] = none
get_pcr i ((j, c) ∷ m) = let rest = get_pcr i m in if i == j then some c else rest

pub record VerifiedAttestation : Type 0 where
  pub module_id : Bytes
  pub digest : Bytes
  pub pcrs : PcrMap
  pub user_data : Option Bytes
  pub nonce : Option Bytes
  pub public_key : Option Bytes
  pub timestamp_ms : ℤ
  pub certificate_chain : List Bytes

unfoldable pub measurement_pcr0 : VerifiedAttestation → Option Bytes
unfolding get_pcr
measurement_pcr0 a = get_pcr 0 a.pcrs

unfoldable pub channel_public_key : VerifiedAttestation → Option Bytes
channel_public_key a = a.public_key

-- `eq_ignore_ascii_case`: the capital letters stand 32 before the small ones.
unfoldable pub lower : ℕ → ℕ
lower c = if leb b'A' c && leb c b'Z' then c + 32 else c

unfoldable pub eq_ignore_ascii_case : Bytes → Bytes → Bool
unfolding lower
eq_ignore_ascii_case [] [] = true
eq_ignore_ascii_case [] (b ∷ bs) = false
eq_ignore_ascii_case (a ∷ as') [] = false
eq_ignore_ascii_case (a ∷ as') (b ∷ bs) = lower a == lower b && eq_ignore_ascii_case as' bs

unfoldable pub assert_measurement_matches :
    VerifiedAttestation → Bytes → Result NitroError (Unit {0})
unfolding get_pcr eq_ignore_ascii_case
assert_measurement_matches a expected = elim (get_pcr 0 a.pcrs) [
  | some got ↦ if eq_ignore_ascii_case got expected then ok tt else err (pcr_mismatch expected got)
  | none ↦ err (missing (codes "PCR0"))
]

-- `now_ms - self.timestamp_ms` on i64, in seconds.
unfoldable pub delta_secs : VerifiedAttestation → ℤ → ℤ
unfolding ◌-ℤ◌ quot as_i64
delta_secs a now_ms = quot (as_i64 (now_ms -ℤ a.timestamp_ms)) 1000

-- `>` on a number that is not negative and an i64.
unfoldable pub exceeds : ℕ → ℤ → Bool
exceeds d (pos n) = ltb n d
exceeds d (negsuc n) = true

unfoldable pub assert_fresh : VerifiedAttestation → ℤ → ℤ → Result NitroError (Unit {0})
unfolding delta_secs quot exceeds
assert_fresh a now_ms max_skew_secs =
    if exceeds (abs (delta_secs a now_ms)) max_skew_secs
    then err (expired (quot a.timestamp_ms 1000) max_skew_secs)
    else ok tt
