-- ===== src/Ledger/Audit.antt =====
-- What an auditor who checks answers of the log with the verifiers of transparency.rs may conclude.
use pzd.Base.{
  ℕ, zero, suc, ◌-◌, ◌*◌, ◌^◌, ◌<◌, ◌≡◌, ◌⊎◌, inl, inr, arith, true, List, [], ◌∷◌, ◌++◌, length,
  ap, ◌∙◌, sym, refl, All, some, take, drop, take-append-drop, length-take, All-left, All-right,
  get_elem?, Bytes, bytes_eq_sound, min, append-nil, append_assoc,
}
use mathlib.Core.Path.{subst}
use native.Mathlib.Decide.{dec_lt}
use pzd.Ledger.{
  Sha256, Hash, TransparencyLog, new, append, size, root, leaf_hash, mth, inclusion, inclusion_loop,
  verify_inclusion,
}
use pzd.Ledger.Split.{Fits}
use pzd.Ledger.Climb.{inclusion_loop-append}
use pzd.Ledger.Inclusion.{walk, inclusion_edge}
use pzd.Ledger.Collision.{IsHash, Collision, leaf_hash_binds, leaf_hash-IsHash}
use pzd.Ledger.Trace.{loop_binds, loop_trace, loop_rights, rights}
use pzd.Ledger.Overlong.{IsLeaf, All-IsHash}
use pzd.Ledger.Binding.{overlong, walk-eta, last_of, rights-append}
use pzd.Ledger.Lengths.{short_path, inclusion-IsHash}

module _ (H : Sha256) where
  -- The log after the entries have been appended one by one.
  unfoldable pub record_all : TransparencyLog → List Bytes → TransparencyLog
  record_all log [] = log
  record_all log (e ∷ es) = record_all (append H log e).0 es

  unfoldable pub leaves_of : List Bytes → List Hash
  leaves_of [] = []
  leaves_of (e ∷ es) = leaf_hash H e ∷ leaves_of es

  pub record_all-leaves :
      (log : TransparencyLog) (es : List Bytes)
      → (record_all log es).leaves ≡ log.leaves ++ leaves_of es
  unfolding record_all leaves_of append
  record_all-leaves log [] = sym (append-nil log.leaves)
  record_all-leaves log (e ∷ es) =
      record_all-leaves (append H log e).0 es
      ∙ append_assoc log.leaves (leaf_hash H e ∷ []) (leaves_of es)

  pub leaves_of-IsLeaf : (es : List Bytes) → All (IsLeaf H) (leaves_of es)
  unfolding leaves_of
  leaves_of-IsLeaf [] = tt
  leaves_of-IsLeaf (e ∷ es) = ((e, refl), leaves_of-IsLeaf es)

  pub length-leaves_of : (es : List Bytes) → length (leaves_of es) ≡ length es
  unfolding leaves_of
  length-leaves_of [] = refl
  length-leaves_of (e ∷ es) = ap suc (length-leaves_of es)

  -- The leaf at an index is the hash of the entry there.
  pub leaves_of-get :
      (es : List Bytes) (m : ℕ)
      → m < length es
      → (e : Bytes) × (get_elem? es m ≡ some e)
        × (get_elem? (leaves_of es) m ≡ some (leaf_hash H e))
  unfolding leaves_of
  leaves_of-get [] m h = absurd (omega arith)
  leaves_of-get (e ∷ es) zero h = (e, refl, refl)
  leaves_of-get (e ∷ es) (suc m) h = leaves_of-get es m (omega arith)

  module _ (leaves : List Hash) (m : ℕ) (leaf h : Hash) (path : List Hash)
      (fits : Fits (length leaves)) (below : m < length leaves) (g : get_elem? leaves m ≡ some leaf)
      (all : All (IsLeaf H) leaves) (paths : All IsHash path) (hh : IsHash h)
      (hl : IsHash leaf) where
    -- The run of the loop on the log's own audit path ends at the top.
    honest :
        inclusion_loop H (walk m (length leaves - 1) leaf) (inclusion H leaves m)
        ≡ walk 0 0 (mth H leaves)
    honest =
        let (i, e) =
          inclusion_edge H (length leaves) 58 0 m m (length leaves - 1) leaves leaf (omega arith)
            (omega arith) fits below (omega arith) (omega arith) g in
        let z : 0 * 2 ^ i ≡ 0 = omega arith in e ∙ ap (λ v. walk v v (mth H leaves)) z

    same_length :
        length path ≡ length (inclusion H leaves m)
        → (inclusion_loop H (walk m (length leaves - 1) h) path).h ≡ mth H leaves
        → (h ≡ leaf) ⊎ Collision H
    same_length l e =
        loop_binds H path (inclusion H leaves m) m (length leaves - 1) h leaf l paths
          (inclusion-IsHash H (length leaves) m leaves (omega arith) below fits
            (All-IsHash H leaves all))
          hh hl (e ∙ sym (ap (λ w. w.h) honest))

    -- Behind the top the loop only joins on the left.
    long_path :
        (xs zs : List Hash) (z : Hash)
        → path ≡ xs ++ (z ∷ zs)
        → length xs ≡ length (inclusion H leaves m)
        → (inclusion_loop H (walk m (length leaves - 1) h) path).h ≡ mth H leaves
        → Collision H
    long_path xs zs z split l e =
        let v = inclusion_loop H (walk m (length leaves - 1) h) xs in
        let (p, q) = loop_trace H xs (inclusion H leaves m) m (length leaves - 1) h leaf l in
        let top : v ≡ walk 0 0 v.h =
          walk-eta H v 0 0 (p ∙ ap (λ w. w.f_n) honest) (q ∙ ap (λ w. w.s_n) honest) in
        let (ys, c, ey) = last_of z zs in
        let hashes : All IsHash (xs ++ (z ∷ zs)) = subst (All IsHash) split paths in
        let tail : All IsHash (ys ++ (c ∷ [])) =
          subst (All IsHash) ey (All-right IsHash xs (z ∷ zs) hashes) in
        overlong H (length leaves) 58 0 m m (length leaves - 1) leaves xs ys c h (omega arith)
          (omega arith) fits below (omega arith) (omega arith) all
          (All-left IsHash xs (z ∷ zs) hashes) (All-left IsHash ys (c ∷ []) tail)
          (All-right IsHash ys (c ∷ []) tail).0 hh l
          (sym (rights-append H ys v.h c)
            ∙ ap (rights H v.h) (sym ey)
            ∙ sym (ap (λ w. w.h) (loop_rights H (z ∷ zs) v.h))
            ∙ sym (ap (λ w. (inclusion_loop H w (z ∷ zs)).h) top)
            ∙ sym
                (ap (λ w. w.h) (inclusion_loop-append H (walk m (length leaves - 1) h) xs (z ∷ zs)))
            ∙ sym (ap (λ w. (inclusion_loop H (walk m (length leaves - 1) h) w).h) split)
            ∙ e)

    accepted_binds :
        (inclusion_loop H (walk m (length leaves - 1) h) path).h ≡ mth H leaves
        → (inclusion_loop H (walk m (length leaves - 1) h) path).s_n ≡ 0
        → (h ≡ leaf) ⊎ Collision H
    accepted_binds e z =
        let n = length (inclusion H leaves m) in
        elim (dec_lt (length path) n) [
          | yes short ↦ absurd (short_path H leaves m leaf h path fits below g short z)
          | no enough ↦
              rest (drop n path) (take-append-drop n path) (omega (arith, length-take n path))
                (length-take n path)
        ]
      where
        rest :
            (zs : List Hash)
            → take (length (inclusion H leaves m)) path ++ zs ≡ path
            → length (take (length (inclusion H leaves m)) path) ≡ length (inclusion H leaves m)
            → length (take (length (inclusion H leaves m)) path)
              ≡ min (length (inclusion H leaves m)) (length path)
            → (h ≡ leaf) ⊎ Collision H
        rest [] q l k = same_length (ap length (sym q ∙ append-nil _) ∙ l) e
        rest (y ∷ ys) q l k = inr (long_path _ ys y (sym q) l e)

  -- What an accepting verdict says of the loop.
  accepted :
      (leaf : Hash) (m n : ℕ) (path : List Hash) (r : Hash)
      → verify_inclusion H leaf m n path r ≡ true
      → (m < n)
        × ((inclusion_loop H (walk m (n - 1) leaf) path).h ≡ r)
        × ((inclusion_loop H (walk m (n - 1) leaf) path).s_n ≡ 0)
  unfolding verify_inclusion
  accepted leaf m n path r ok =
      let w = inclusion_loop H (walk m (n - 1) leaf) path in
      (ground arith, bytes_eq_sound w.h r (ground arith), ground arith)

  -- For every list of fewer than 2^58 entries that is recorded in an empty log: whenever the verifier
  -- accepts an entry's leaf hash at an index, with whatever path of 32-byte hashes, against the log's
  -- size and root, the entry recorded at that index is this entry, or SHA-256 has a collision, which
  -- is given.
  pub verify_inclusion-binds :
      (entries : List Bytes) (entry : Bytes) (m : ℕ) (path : List Hash)
      → Fits (length entries)
      → All IsHash path
      → (let log = record_all new entries in
          verify_inclusion H (leaf_hash H entry) m (size log) path (root H log) ≡ true)
      → (get_elem? entries m ≡ some entry) ⊎ Collision H
  unfolding size root new
  verify_inclusion-binds entries entry m path fits paths ok =
      let leaves = leaves_of entries in
      let same = record_all-leaves new entries in
      let ok' : verify_inclusion H (leaf_hash H entry) m (length leaves) path (mth H leaves)
          ≡ true =
        subst (λ l. verify_inclusion H (leaf_hash H entry) m (length l) path (mth H l) ≡ true) same
          ok in
      let (below, root_eq, top) =
        accepted (leaf_hash H entry) m (length leaves) path (mth H leaves) ok' in
      let len = length-leaves_of entries in
      let (e, g, gl) = leaves_of-get entries m (omega arith) in
      elim (accepted_binds leaves m (leaf_hash H e) (leaf_hash H entry) path (omega arith) below gl
        (leaves_of-IsLeaf entries) paths (leaf_hash-IsHash H entry) (leaf_hash-IsHash H e) root_eq
        top) [
          | inr found ↦ inr found
          | inl eq ↦ elim (leaf_hash_binds H entry e eq) [
            | inl q ↦ inl (g ∙ ap some (sym q))
            | inr found ↦ inr found
          ]
        ]
