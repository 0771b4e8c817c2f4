-- ===== src/Ledger/History.antt =====
-- What an accepted consistency proof says of the log's history.
use Prim.Native.Nat.{bit_and}
use pzd.Base.{
  ℕ, zero, suc, ◌-◌, ◌≤◌, ◌<◌, ◌≡◌, ◌⊎◌, inl, inr, arith, true, false, Bool, List, [], ◌∷◌, length,
  ap, ◌∙◌, sym, refl, All, some, none, Option, take, take_all, length-take, Bytes, bytes_eq_sound,
  ◌==◌, if◌then◌else◌,
}
use mathlib.Core.Path.{subst, ap₂}
use native.Mathlib.Decide.{dec_lt}
use pzd.Ledger.{
  Sha256, Hash, TwinWalk, split, new, size, root, leaf_hash, mth, verify_consistency,
  consistency_run, consistency_loop, consistency_verdict, strip_ones,
}
use pzd.Ledger.Split.{Fits}
use pzd.Ledger.Twin.{twin}
use pzd.Ledger.Consistency.{Leads, Leads-top}
use pzd.Ledger.Collision.{IsHash, Collision}
use pzd.Ledger.TwinBinding.{loops_bind, subproof-IsHash, mth-IsHash}
use pzd.Ledger.Overlong.{All-IsHash}
use pzd.Ledger.Audit.{record_all, record_all-leaves, leaves_of, leaves_of-IsLeaf, length-leaves_of}
use pzd.Ledger.Leaves.{mth_binds, leaves_bind}

module _ (H : Sha256) where
  -- What an accepting run says of the loop.
  run_accepted :
      (m n : ℕ) (pr : List Hash) (r q : Hash)
      → consistency_run H m n pr r q ≡ true
      → (seed : Hash) × (rest : List Hash) × (w : TwinWalk) × (pr ≡ seed ∷ rest)
        × (consistency_loop H
              (twin (strip_ones m (m - 1) (n - 1)).0 (strip_ones m (m - 1) (n - 1)).1 seed seed)
              rest
            ≡ some w)
        × (w.fr ≡ r)
        × (w.sr ≡ q)
        × (w.s_n ≡ 0)
  unfolding consistency_run
  run_accepted m n [] r q ok = absurd (cc)
  run_accepted m n (seed ∷ rest) r q ok = loop_accepted (consistency_loop H _ rest) refl ok
    where
      loop_accepted :
          (o : Option TwinWalk)
          → consistency_loop H
              (twin (strip_ones m (m - 1) (n - 1)).0 (strip_ones m (m - 1) (n - 1)).1 seed seed)
              rest
            ≡ o
          → consistency_verdict H o r q ≡ true
          → (s : Hash) × (t : List Hash) × (w : TwinWalk) × (seed ∷ rest ≡ s ∷ t)
            × (consistency_loop H
                  (twin (strip_ones m (m - 1) (n - 1)).0 (strip_ones m (m - 1) (n - 1)).1 s s)
                  t
                ≡ some w)
            × (w.fr ≡ r)
            × (w.sr ≡ q)
            × (w.s_n ≡ 0)
      loop_accepted none e ok = absurd (cc)
      loop_accepted (some w) e ok = (
        seed,
        rest,
        w,
        refl,
        e,
        bytes_eq_sound w.fr r (ground arith),
        bytes_eq_sound w.sr q (ground arith),
        ground arith,
      )

  -- The old root that an accepted proof leads to is the root of the first leaves.
  run_binds :
      (m : ℕ) (leaves pr : List Hash) (r : Hash)
      → Fits (length leaves)
      → 1 ≤ m
      → m < length leaves
      → All IsHash leaves
      → All IsHash pr
      → consistency_run H m (length leaves) pr r (mth H leaves) ≡ true
      → (r ≡ mth H (take m leaves)) ⊎ Collision H
  unfolding Leads
  run_binds m leaves pr r fits pos below al ap' ok =
      let (seed, rest, w, split, loop, er, es, ez) =
        run_accepted m (length leaves) pr r (mth H leaves) ok in
      let (seed', rest', split', loop') = Leads-top H m leaves fits pos below in
      let a : All IsHash (seed ∷ rest) = subst (All IsHash) split ap' in
      let a' : All IsHash (seed' ∷ rest') = subst (All IsHash) split' (
        subproof-IsHash H (length leaves) m leaves false (omega arith) pos (omega arith) fits al) in
      elim (loops_bind H rest rest' _ _ seed seed seed' seed' w _ a.1 a'.1 a.0 a'.0 loop loop' ez
        refl es) [
          | inr found ↦ inr found
          | inl (q, p) ↦
              let f = (strip_ones m (m - 1) (length leaves - 1)).0 in
              let s = (strip_ones m (m - 1) (length leaves - 1)).1 in
              let same : some w ≡ some (twin 0 0 (mth H (take m leaves)) (mth H leaves)) =
                sym loop ∙ ap₂ (λ v l. consistency_loop H (twin f s v v) l) p q ∙ loop' in
              inl (sym er ∙ fr_eq w (twin 0 0 (mth H (take m leaves)) (mth H leaves)) same)
        ]
    where
      fr_eq : (w v : TwinWalk) → some w ≡ some v → w.fr ≡ v.fr
      fr_eq w v e = cc

  leaves-take : (m : ℕ) (es : List Bytes) → take m (leaves_of H es) ≡ leaves_of H (take m es)
  unfolding leaves_of
  leaves-take zero es = refl
  leaves-take (suc m) [] = refl
  leaves-take (suc m) (e ∷ es) = ap (◌∷◌ (leaf_hash H e)) (leaves-take m es)

  roots_bind :
      (es ds : List Bytes)
      → length es ≡ length ds
      → Fits (length es)
      → mth H (leaves_of H es) ≡ mth H (leaves_of H ds)
      → (es ≡ ds) ⊎ Collision H
  roots_bind es ds l fits e =
      let le = length-leaves_of H es in
      let ld = length-leaves_of H ds in
      elim (mth_binds H (length es) (leaves_of H es) (leaves_of H ds) (omega arith) (omega arith)
        (omega arith) (All-IsHash H _ (leaves_of-IsLeaf H es))
        (All-IsHash H _ (leaves_of-IsLeaf H ds)) e) [
          | inr found ↦ inr found
          | inl q ↦ leaves_bind H es ds q
        ]

  -- The verdict by the two sizes.
  verdict_cases :
      (m n : ℕ) (r q : Hash) (proof : List Hash)
      → verify_consistency H m r n q proof ≡ true
      → All IsHash proof
      → (m ≤ n)
        × (m ≡ n → r ≡ q)
        × (IsHash r
            → 1 ≤ m
            → m < n
            → (pr : List Hash) × All IsHash pr × (consistency_run H m n pr r q ≡ true))
  unfolding verify_consistency
  verdict_cases m n r q proof ok hp = (
    ground arith,
    λ e. bytes_eq_sound r q (ground arith),
    λ hr pos below. (
      (if bit_and m (m - 1) == 0 then r ∷ proof else proof),
      pr_hashes hr (bit_and m (m - 1) == 0),
      ground arith,
    ),
  )
    where
      pr_hashes : IsHash r → (b : Bool) → All IsHash (if b then r ∷ proof else proof)
      pr_hashes hr true = (hr, hp)
      pr_hashes hr false = hp

  history_binds :
      (es ds : List Bytes) (proof : List Hash)
      → Fits (length ds)
      → 1 ≤ length es
      → All IsHash proof
      → verify_consistency H
          (length (leaves_of H es))
          (mth H (leaves_of H es))
          (length (leaves_of H ds))
          (mth H (leaves_of H ds))
          proof
        ≡ true
      → (take (length es) ds ≡ es) ⊎ Collision H
  history_binds es ds proof fits pos hp ok =
      let le = length-leaves_of H es in
      let ld = length-leaves_of H ds in
      let m = length (leaves_of H es) in
      let ae = All-IsHash H _ (leaves_of-IsLeaf H es) in
      let ad = All-IsHash H _ (leaves_of-IsLeaf H ds) in
      let (order, whole, part) = verdict_cases m _ _ _ proof ok hp in
      elim (dec_lt m (length (leaves_of H ds))) [
        | no equal ↦ elim (roots_bind es ds (omega arith) (omega arith) (whole (omega arith))) [
          | inl q ↦ inl (take_all (length es) ds (omega arith) ∙ sym q)
          | inr found ↦ inr found
        ]
        | yes below ↦
            let (pr, hpr, run) =
              part (mth-IsHash H m (leaves_of H es) (omega arith) (omega arith) (omega arith) ae)
                (omega arith) below in
            let same : take m (leaves_of H ds) ≡ leaves_of H (take (length es) ds) =
              ap (λ k. take k (leaves_of H ds)) le ∙ leaves-take (length es) ds in
            elim (run_binds m (leaves_of H ds) pr _ (omega arith) (omega arith) below ad hpr run) [
              | inr found ↦ inr found
              | inl q ↦
                  elim (roots_bind (take (length es) ds) es
                    (omega (arith, length-take (length es) ds))
                    (omega (arith, length-take (length es) ds)) (sym (q ∙ ap (mth H) same))) [
                      | inl p ↦ inl p
                      | inr found ↦ inr found
                    ]
            ]
      ]

  -- For two lists of entries, recorded in two empty logs, the second of fewer than 2^58: whenever the
  -- verifier accepts some proof of 32-byte hashes from the size and root of the first log to those of
  -- the second, the first list is a prefix of the second, or SHA-256 has a collision, which is given.
  pub verify_consistency-binds :
      (es ds : List Bytes) (proof : List Hash)
      → Fits (length ds)
      → All IsHash proof
      → (let old = record_all H new es in
          let log = record_all H new ds in
          verify_consistency H (size old) (root H old) (size log) (root H log) proof ≡ true)
      → (take (length es) ds ≡ es) ⊎ Collision H
  unfolding size root new
  verify_consistency-binds [] ds proof fits hp ok = inl refl
  verify_consistency-binds (e ∷ es) ds proof fits hp ok =
      history_binds (e ∷ es) ds proof fits (omega arith) hp (
        subst
          (λ l.
            verify_consistency H (length l) (mth H l) (length (leaves_of H ds))
              (mth H (leaves_of H ds)) proof
            ≡ true)
          (record_all-leaves H new (e ∷ es))
          (subst
            (λ l.
              verify_consistency H (size (record_all H new (e ∷ es)))
                (root H (record_all H new (e ∷ es))) (length l) (mth H l) proof
              ≡ true)
            (record_all-leaves H new ds) ok))
