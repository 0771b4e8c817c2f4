-- ===== src/Ledger/Trace.antt =====
-- The numbers of the loop of `verify_inclusion`, apart from its hash, and two paths of one length.
use pzd.Base.{
  ℕ, ◌≡◌, ◌⊎◌, inl, inr, arith, true, false, Bool, List, [], ◌∷◌, length, ap, refl, All, Bool-cases,
  if◌then◌else◌,
}
use pzd.Ledger.{Sha256, Hash, Walk, node_hash, strip_zeros, inclusion_step, inclusion_loop}
use pzd.Ledger.Collision.{IsHash, Collision, node_hash_binds, node_hash-IsHash}
use pzd.Ledger.TwinBinding.{turns_right, climb}
use pzd.Ledger.Inclusion.{walk}

module _ (H : Sha256) where
  abbrev pub joined : Bool → Hash → Hash → Hash
  joined right h c = if right then node_hash H c h else node_hash H h c

  pub step_climb :
      (f s : ℕ) (h c : Hash)
      → inclusion_step H (walk f s h) c
        ≡ walk (climb f s).0 (climb f s).1 (joined (turns_right f s) h c)
  unfolding inclusion_step
  step_climb f s h c = elim (Bool-cases (turns_right f s)) [
    | inl right ↦ rw right (ground arith)
    | inr left ↦ rw left (ground arith)
  ]

  pub loop_nil : (w : Walk) → inclusion_loop H w [] ≡ w
  unfolding inclusion_loop
  loop_nil w = refl

  pub loop_cons :
      (f s : ℕ) (h x : Hash) (xs : List Hash)
      → inclusion_loop H (walk f s h) (x ∷ xs)
        ≡ inclusion_loop H (walk (climb f s).0 (climb f s).1 (joined (turns_right f s) h x)) xs
  unfolding inclusion_loop
  loop_cons f s h x xs = ap (λ w. inclusion_loop H w xs) (step_climb f s h x)

  pub joined-IsHash : (b : Bool) (h c : Hash) → IsHash (joined b h c)
  joined-IsHash true h c = node_hash-IsHash H c h
  joined-IsHash false h c = node_hash-IsHash H h c

  pub loop-IsHash :
      (xs : List Hash) (f s : ℕ) (h : Hash) → IsHash h → IsHash (inclusion_loop H (walk f s h) xs).h
  loop-IsHash [] f s h p = rw (loop_nil (walk f s h)) p
  loop-IsHash (x ∷ xs) f s h p =
      rw (loop_cons f s h x xs)
        (loop-IsHash xs (climb f s).0 (climb f s).1 _ (joined-IsHash (turns_right f s) h x))

  pub loop_trace :
      (xs ys : List Hash) (f s : ℕ) (h h' : Hash)
      → length xs ≡ length ys
      → ((inclusion_loop H (walk f s h) xs).f_n ≡ (inclusion_loop H (walk f s h') ys).f_n)
        × ((inclusion_loop H (walk f s h) xs).s_n ≡ (inclusion_loop H (walk f s h') ys).s_n)
  loop_trace [] [] f s h h' l = rw (loop_nil (walk f s h), loop_nil (walk f s h')) (refl, refl)
  loop_trace [] (y ∷ ys) f s h h' l = absurd (omega arith)
  loop_trace (x ∷ xs) [] f s h h' l = absurd (omega arith)
  loop_trace (x ∷ xs) (y ∷ ys) f s h h' l =
      rw (loop_cons f s h x xs, loop_cons f s h' y ys)
        (loop_trace xs ys (climb f s).0 (climb f s).1 _ _ (omega arith))

  joined_binds :
      (b : Bool) (h h' c c' : Hash)
      → IsHash h
      → IsHash h'
      → IsHash c
      → IsHash c'
      → joined b h c ≡ joined b h' c'
      → ((h ≡ h') × (c ≡ c')) ⊎ Collision H
  joined_binds true h h' c c' p p' q q' e = elim (node_hash_binds H c h c' h' q q' e) [
    | inl (a, b) ↦ inl (b, a)
    | inr found ↦ inr found
  ]
  joined_binds false h h' c c' p p' q q' e = node_hash_binds H h c h' c' p p' e

  pub loop_binds :
      (xs ys : List Hash) (f s : ℕ) (h h' : Hash)
      → length xs ≡ length ys
      → All IsHash xs
      → All IsHash ys
      → IsHash h
      → IsHash h'
      → (inclusion_loop H (walk f s h) xs).h ≡ (inclusion_loop H (walk f s h') ys).h
      → (h ≡ h') ⊎ Collision H
  loop_binds [] [] f s h h' l ax ay p p' e =
      inl (rw (loop_nil (walk f s h), loop_nil (walk f s h')) at e)
  loop_binds [] (y ∷ ys) f s h h' l ax ay p p' e = absurd (omega arith)
  loop_binds (x ∷ xs) [] f s h h' l ax ay p p' e = absurd (omega arith)
  loop_binds (x ∷ xs) (y ∷ ys) f s h h' l ax ay p p' e =
      elim (loop_binds xs ys (climb f s).0 (climb f s).1 _ _ (omega arith) ax.1 ay.1
        (joined-IsHash (turns_right f s) h x) (joined-IsHash (turns_right f s) h' y)
        (rw (loop_cons f s h x xs, loop_cons f s h' y ys) at e)) [
          | inr found ↦ inr found
          | inl same ↦ elim (joined_binds (turns_right f s) h h' x y p p' ax.0 ay.0 same) [
            | inl (a, b) ↦ inl a
            | inr found ↦ inr found
          ]
        ]

  -- At the top of the tree the numbers stay 0, and every further element goes to the left.
  unfoldable pub rights : Hash → List Hash → Hash
  rights h [] = h
  rights h (c ∷ cs) = rights (node_hash H c h) cs

  pub loop_rights :
      (cs : List Hash) (h : Hash) → inclusion_loop H (walk 0 0 h) cs ≡ walk 0 0 (rights h cs)
  unfolding rights strip_zeros
  loop_rights [] h = loop_nil (walk 0 0 h)
  loop_rights (c ∷ cs) h = rw (loop_cons 0 0 h c cs) (loop_rights cs (node_hash H c h))
