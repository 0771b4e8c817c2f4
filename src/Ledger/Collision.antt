-- ===== src/Ledger/Collision.antt =====
-- The hashes of transparency.rs and their parts, up to a collision of SHA-256.
use pzd.Base.{
  ℕ, ◌≡◌, ◌≢◌, ◌⊎◌, inl, inr, arith, true, false, [], ◌∷◌, ◌++◌, length, refl, Bytes, bytes_eq,
  bytes_eq_refl, bytes_eq_sound, Bool-cases,
}
use pzd.Ledger.{Sha256, Hash, leaf_hash, node_hash}

-- A `[u8; 32]`.
abbrev pub IsHash : Hash → Type 0
IsHash h = length h ≡ 32

abbrev pub Collision : Sha256 → Type 0
Collision H = (a : Bytes) × (b : Bytes) × (a ≢ b) × (H.digest a ≡ H.digest b)

cons-eq : (x y : ℕ) (xs ys : Bytes) → x ∷ xs ≡ y ∷ ys → (x ≡ y) × (xs ≡ ys)
cons-eq x y xs ys e = ground arith

pub append-eq : (a b c d : Bytes) → length a ≡ length b → a ++ c ≡ b ++ d → (a ≡ b) × (c ≡ d)
append-eq [] [] c d l e = (refl, e)
append-eq [] (y ∷ b) c d l e = absurd (omega arith)
append-eq (x ∷ a) [] c d l e = absurd (omega arith)
append-eq (x ∷ a) (y ∷ b) c d l e =
    let (p, q) = cons-eq x y _ _ e in let (r, s) = append-eq a b c d (omega arith) q in (cc, s)

module _ (H : Sha256) where
  pub digest_binds : (a b : Bytes) → H.digest a ≡ H.digest b → (a ≡ b) ⊎ Collision H
  digest_binds a b e = elim (Bool-cases (bytes_eq a b)) [
    | inl same ↦ inl (bytes_eq_sound a b same)
    | inr other ↦ inr (a, b, differ other, e)
  ]
    where
      differ : bytes_eq a b ≡ false → a ≢ b
      differ other q = let t : bytes_eq a b ≡ true = rw q (bytes_eq_refl b) in cc

  pub node_hash_binds :
      (l r l' r' : Hash)
      → IsHash l
      → IsHash l'
      → node_hash H l r ≡ node_hash H l' r'
      → ((l ≡ l') × (r ≡ r')) ⊎ Collision H
  unfolding node_hash
  node_hash_binds l r l' r' p q e = elim (digest_binds (1 ∷ (l ++ r)) (1 ∷ (l' ++ r')) e) [
    | inl same ↦ inl (append-eq l l' r r' (omega arith) (cons-eq 1 1 _ _ same).1)
    | inr found ↦ inr found
  ]

  pub leaf_hash_binds : (a b : Bytes) → leaf_hash H a ≡ leaf_hash H b → (a ≡ b) ⊎ Collision H
  unfolding leaf_hash
  leaf_hash_binds a b e = elim (digest_binds (0 ∷ a) (0 ∷ b) e) [
    | inl same ↦ inl (cons-eq 0 0 a b same).1
    | inr found ↦ inr found
  ]

  -- The prefix bytes keep leaves and inner nodes apart.
  pub leaf_hash-ne-node_hash :
      (a : Bytes) (l r : Hash) → leaf_hash H a ≡ node_hash H l r → Collision H
  unfolding leaf_hash node_hash
  leaf_hash-ne-node_hash a l r e = (0 ∷ a, 1 ∷ (l ++ r), (λ q. apart (cons-eq 0 1 a _ q).0), e)
    where
      apart : ◌≡◌ {A = ℕ} 0 1 → ⊥
      apart q = omega arith

  pub node_hash-IsHash : (l r : Hash) → IsHash (node_hash H l r)
  unfolding node_hash
  node_hash-IsHash l r = H.length-digest _

  pub leaf_hash-IsHash : (a : Bytes) → IsHash (leaf_hash H a)
  unfolding leaf_hash
  leaf_hash-IsHash a = H.length-digest _
