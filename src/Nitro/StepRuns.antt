-- ===== src/Nitro/StepRuns.antt =====
-- Runs of the steps of the verifier and of the security module, and the theorems there.
use pzd.Base.{ℕ, ◌*◌, ◌≤◌, ◌<◌, ◌≡◌, ◌↔◌, arith, refl, true, false, some, [], ◌∷◌, codes}
use pzd.Base.Int.{pos, negsuc}
use pzd.Base.Result.{Result, ok, err}
use mathlib.Core.Path.{subst}
use mathlib.Core.List.{Permᴰ}
use pzd.Nitro.Attestation.{VerifiedAttestation, assert_fresh}
use pzd.Nitro.Issuing.{MayIssue}
use pzd.Base.Text.{starts_with}
use pzd.Base.Int.{◌-ℤ◌, quot}
use pzd.Nitro.Attestation.{expired}
use pzd.Nitro.Freshness.{assert_fresh_iff}
use pzd.Nitro.Chain.{remove_issuer, chain_loop, build_chain, verify_chain, assert_ca_constraints}
use pzd.Nitro.Paths.{round, build_chain-round}
use pzd.Nitro.Order.{verify_chain_order}
use pzd.Nitro.Issuing.{assert_ca_constraints_iff}
use pzd.Nitro.Parsing.{Entries}
use pzd.Nitro.Parsed.{Payload, ReadFrom, parse-ReadFrom}
use pzd.Nitro.Armor.{decode_vec}
use pzd.Base.Lined.{text_of}
use pzd.Nitro.Pem.{decode_vec_lem}
use pzd.Base.{length, Bytes}
use pzd.Nitro.Attestation.{NitroError}
use pzd.Nitro.Device.{EnclaveSelf, random_bytes}
use pzd.Nitro.Entropy.{Gives, Sized, random_bytes_ends}
use pzd.Nitro.Runs.{toy_parsed, toy_pool, toy-Distinct}
use pzd.Nitro.Toy.{toy_driver, toy, toy_leaf, toy_middle, toy_root, toy_attestation}

assert_ca_constraints_iff_example :
    (assert_ca_constraints toy toy_root 1 (codes "issuer") ≡ ok tt) ↔ MayIssue toy 1 toy_root
assert_ca_constraints_iff_example = assert_ca_constraints_iff toy toy_root 1 (codes "issuer")

verify_chain_order_example :
    verify_chain toy (some 1_000) (1 ∷ []) ((3 ∷ []) ∷ (2 ∷ []) ∷ []) (codes "root")
    ≡ verify_chain toy (some 1_000) (1 ∷ []) ((2 ∷ []) ∷ (3 ∷ []) ∷ []) (codes "root")
verify_chain_order_example =
    verify_chain_order toy (some 1_000) (1 ∷ []) (codes "root") toy_pool (Permᴰ.swap refl refl)
      (refl, (refl, tt)) toy-Distinct

build_chain-round_example :
    (build_chain toy toy_root toy_leaf toy_pool ≡ chain_loop toy 9 toy_root 0 toy_leaf toy_pool)
    × (build_chain toy toy_root toy_leaf toy_pool
        ≡ round toy
            (chain_loop toy 9 toy_root 1)
            0
            toy_leaf
            false
            (some (toy_middle, toy_root ∷ [])))
unfolding remove_issuer
build_chain-round_example = build_chain-round toy toy_root toy_leaf toy_pool 9 (omega arith)

parse-ReadFrom_example :
    (entries : Entries toy) × Payload toy (codes "doc") entries
    × ReadFrom toy entries toy_attestation
parse-ReadFrom_example = parse-ReadFrom toy (codes "doc") toy_attestation toy_parsed

-- The difference wraps for the smallest i64, and the document is not fresh.
abbrev old_attestation : VerifiedAttestation
old_attestation = record toy_attestation { timestamp_ms = negsuc 9223372036854775807 }

assert_fresh_iff_example :
    ((assert_fresh old_attestation (pos 1_700_000_000_000) (pos 300) ≡ ok tt)
      ↔ (9223373736854775808 < 301 * 1000))
    × ((assert_fresh old_attestation (pos 1_700_000_000_000) (pos 300)
          ≡ err (expired (quot (negsuc 9223372036854775807) 1000) (pos 300)))
        ↔ (301 * 1000 ≤ 9223373736854775808))
unfolding ◌-ℤ◌
assert_fresh_iff_example =
    assert_fresh_iff old_attestation 1_700_000_000_000 300 (omega arith) (omega arith) (omega arith)

decode_vec_lem_example :
    decode_vec toy (
      text_of true (
        codes "-----BEGIN CERTIFICATE-----"
        ∷ codes "MIIC"
        ∷ codes "-----END CERTIFICATE-----"
        ∷ []))
    ≡ ok (codes "CERTIFICATE", 3 ∷ [])
unfolding starts_with
decode_vec_lem_example =
    decode_vec_lem toy true (codes "-----BEGIN CERTIFICATE-----")
      (codes "-----END CERTIFICATE-----") (codes "MIIC" ∷ []) (ground arith) refl (refl, tt) refl

toy_device : EnclaveSelf
toy_device = record { fd = pos 3 }

random_bytes_ends_example :
    (r : Result NitroError Bytes) × (w' : ℕ) × (random_bytes toy_driver 32 toy_device 32 7
      ≡ some (r, w'))
    × Sized toy_driver toy_device 32 r
random_bytes_ends_example = random_bytes_ends toy_driver gives toy_device 32 7
  where
    gives : (w : ℕ) → Gives toy_driver w
    gives w fd r e = let e' : w ∷ w ∷ w ∷ [] ≡ r = cc in subst (λ r. 1 ≤ length r) e' (omega arith)
