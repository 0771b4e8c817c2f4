-- ===== src/Metering/Keys.antt =====
-- The idempotency key of lib.rs and the parts that are hashed into it.
use pzd.Base.{
  ℕ, ◌^◌, ◌<◌, ◌≡◌, ◌⊎◌, inl, inr, arith, List, [], ◌∷◌, ◌++◌, length, All, Bytes, refl, sym, ap,
  ◌∙◌,
}
use pzd.Ledger.{Sha256}
use pzd.Ledger.Collision.{Collision, append-eq, digest_binds}
use pzd.Frames.{from_be_bytes}
use pzd.Metering.{length_bytes, hashed_parts, stable_idempotency_key}

from_be_bytes-length_bytes : (n : ℕ) → n < 2 ^ 64 → from_be_bytes (length_bytes n) ≡ n
unfolding from_be_bytes length_bytes
from_be_bytes-length_bytes n h = omega arith

length-length_bytes : (n m : ℕ) → length (length_bytes n) ≡ length (length_bytes m)
unfolding length_bytes
length-length_bytes n m = refl

abbrev pub Short : List Bytes → Type 0
Short parts = All (λ part. length part < 2 ^ 64) parts

hashed_parts-injective :
    (ps qs : List Bytes)
    → length ps ≡ length qs
    → Short ps
    → Short qs
    → hashed_parts ps ≡ hashed_parts qs
    → ps ≡ qs
unfolding hashed_parts
hashed_parts-injective [] [] l hp hq e = refl
hashed_parts-injective [] (q ∷ qs) l hp hq e = absurd (omega arith)
hashed_parts-injective (p ∷ ps) [] l hp hq e = absurd (omega arith)
hashed_parts-injective (p ∷ ps) (q ∷ qs) l hp hq e =
    let (a, r) =
      append-eq (length_bytes (length p)) (length_bytes (length q)) (p ++ hashed_parts ps)
        (q ++ hashed_parts qs) (length-length_bytes (length p) (length q)) e in
    let same : length p ≡ length q =
      sym (from_be_bytes-length_bytes (length p) hp.0)
      ∙ ap from_be_bytes a
      ∙ from_be_bytes-length_bytes (length q) hq.0 in
    let (b, s) = append-eq p q (hashed_parts ps) (hashed_parts qs) same r in
    let rest = hashed_parts-injective ps qs (omega arith) hp.1 hq.1 s in cc

module _ (H : Sha256) (hex_encode : Bytes → Bytes) where
  pub stable_idempotency_key_binds :
      ((a b : Bytes) → hex_encode a ≡ hex_encode b → a ≡ b)
      → (ps qs : List Bytes) → length ps ≡ length qs
      → Short ps
      → Short qs
      → stable_idempotency_key H hex_encode ps ≡ stable_idempotency_key H hex_encode qs
      → (ps ≡ qs) ⊎ Collision H
  unfolding stable_idempotency_key
  stable_idempotency_key_binds inj ps qs l hp hq e =
      elim (digest_binds H (hashed_parts ps) (hashed_parts qs) (inj _ _ e)) [
        | inl same ↦ inl (hashed_parts-injective ps qs l hp hq same)
        | inr c ↦ inr c
      ]
