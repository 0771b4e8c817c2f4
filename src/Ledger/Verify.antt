-- ===== src/Ledger/Verify.antt =====
-- The verifiers of transparency.rs on the answers of the log.
use Prim.Native.Nat.{bit_and}
use pzd.Base.{
  ℕ, ◌-◌, ◌^◌, ◌≤◌, ◌<◌, ◌≡◌, arith, true, false, List, ◌∷◌, length, sym, some, take, take_all, inl,
  inr, bytes_eq_refl, ◌==◌, if◌then◌else◌, Bool-cases, ==_iff,
}
use pzd.Base.Bits.{bit_and-pow2, pow2-bit_and}
use native.Mathlib.Decide.{dec_lt}
use pzd.Ledger.{
  Sha256, Hash, TransparencyLog, mth, inclusion, subproof, size, root, root_at, leaf_at,
  inclusion_path, consistency_path, verify_inclusion, verify_consistency, consistency_run,
}
use pzd.Ledger.Split.{Fits}
use pzd.Ledger.Inclusion.{verify_inclusion-inclusion}
use pzd.Ledger.Twin.{twin}
use pzd.Ledger.Consistency.{Leads, Leads-top}
use pzd.Ledger.Flags.{subproof_full, subproof_part}

module _ (H : Sha256) where
  -- For every log of fewer than 2^58 entries, whatever index it is asked for: where it answers with
  -- a leaf and an audit path, the verifier accepts both against the log's size and root.
  pub verify_inclusion-inclusion_path :
      (log : TransparencyLog) (idx : ℕ) (leaf : Hash) (path : List Hash)
      → Fits (size log)
      → leaf_at log idx ≡ some leaf
      → inclusion_path H log idx ≡ some path
      → verify_inclusion H leaf idx (size log) path (root H log) ≡ true
  unfolding size leaf_at inclusion_path root
  verify_inclusion-inclusion_path log idx leaf path fits l p =
      elim (dec_lt idx (length log.leaves)) [
        | yes below ↦
            let e : path ≡ inclusion H log.leaves idx = ground arith in
            rw e (verify_inclusion-inclusion H log.leaves idx leaf fits l below)
        | no above ↦ absurd (ground arith)
      ]

  -- The list that the loop reads is the proof with its seed in front.
  seeded :
      (m : ℕ) (leaves : List Hash)
      → Fits (length leaves)
      → 1 ≤ m
      → m < length leaves
      → (if bit_and m (m - 1) == 0
          then mth H (take m leaves) ∷ subproof H m leaves true
          else subproof H m leaves true)
        ≡ subproof H m leaves false
  seeded m leaves fits pos below = elim (Bool-cases (bit_and m (m - 1) == 0)) [
    | inl pow ↦
        let (i, e) = pow2-bit_and m m (omega arith) pos ((==_iff _ _).0 pow) in
        rw pow (sym (subproof_full H (length leaves) i m leaves (omega arith) fits e (omega arith)))
    | inr odd ↦ rw odd (
        subproof_part H (length leaves) m leaves (omega arith) fits pos below
          (λ i e. no_power m i odd e))
  ]
    where
      no_power : (m i : ℕ) → (bit_and m (m - 1) == 0) ≡ false → m ≡ 2 ^ i → ⊥
      no_power m i odd e = let z : bit_and m (m - 1) ≡ 0 = rw e (bit_and-pow2 i) in ground arith

  run_accepts :
      (m : ℕ) (proof : List Hash) (second_size : ℕ) (r q : Hash)
      → Leads H m (m - 1) (second_size - 1) proof (twin 0 0 r q)
      → consistency_run H m second_size proof r q ≡ true
  unfolding consistency_run Leads
  run_accepts m proof second_size r q (seed, rest, e, loop) =
      rw (e, consistency_run, loop) (ground (arith, bytes_eq_refl r, bytes_eq_refl q))

  -- For every log of fewer than 2^58 entries and every old size: where the log answers with the old
  -- root and a consistency proof, the verifier accepts them against the log's size and root.
  pub verify_consistency-consistency_path :
      (log : TransparencyLog) (m : ℕ) (r : Hash) (proof : List Hash)
      → Fits (size log)
      → root_at H log m ≡ some r
      → consistency_path H log m ≡ some proof
      → verify_consistency H m r (size log) (root H log) proof ≡ true
  unfolding size root_at consistency_path root verify_consistency
  verify_consistency-consistency_path log m r proof fits old p =
      elim (dec_lt m (length log.leaves)) [
        | no above ↦ ground (arith, take_all m log.leaves, bytes_eq_refl (mth H log.leaves))
        | yes below ↦ elim (dec_lt 0 m) [
          | no first ↦ ground arith
          | yes pos ↦
              let re : r ≡ mth H (take m log.leaves) = ground arith in
              let pe : proof ≡ subproof H m log.leaves true = ground arith in
              rw (re, pe)
                (ground (
                  arith,
                  seeded m log.leaves fits pos below,
                  run_accepts m _ (length log.leaves) _ _ (Leads-top H m log.leaves fits pos below),
                ))
        ]
      ]
