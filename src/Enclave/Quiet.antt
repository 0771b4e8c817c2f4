-- ===== src/Enclave/Quiet.antt =====
-- Steps of the enclave that leave its state as it was.
use pzd.Base.{◌≡◌, Bytes, refl, ap, ◌∙◌}
use pzd.Base.Result.{Result, ok, err}
use pzd.Enclave.Crates.{Crates}
use pzd.Enclave.Machine.{EnclaveState, Machine, Act, pure, ◌>>=◌, >>=-ok}
use pzd.Enclave.Dispatch.{attempt}
use pzd.Enclave.Receipts.{moved}

module _ {C : Crates} where
  -- The step answers, and only the machine's world differs behind it.
  abbrev pub Quiet : {A : Type 0} → Act C A → Type 0
  Quiet {A} act = (m : Machine C) → (a : A) × (w : C.World) × (act m ≡ (ok a, moved C m w))

  -- The step leaves the state as it was, whether it answers or not.
  abbrev pub Still : {A : Type 0} → Act C A → Type 0
  Still act = (m : Machine C) → (act m).1.state ≡ m.state

  pub >>=-Quiet :
      {A B : Type 0} (act : Act C A) (f : A → Act C B)
      → Quiet act
      → ((a : A) → Quiet (f a))
      → Quiet (act >>= f)
  >>=-Quiet act f q t m =
      let (a, w, e) = q m in
      let (b, v, e') = t a (moved C m w) in (b, v, >>=-ok act f m (moved C m w) a e ∙ e')

  pub >>=-Still :
      {A B : Type 0} (act : Act C A) (f : A → Act C B)
      → Still act
      → ((a : A) → Still (f a))
      → Still (act >>= f)
  >>=-Still {A = A} {B = B} act f s t m = go (act m) (s m)
    where
      go :
          (p : Result Bytes A × Machine C)
          → p.1.state ≡ m.state
          → Path EnclaveState
              (elim p.0 as (λ r. Result Bytes B × Machine C) [
                | ok a ↦ f a p.1
                | err e ↦ (err e, p.1)
              ]).1.state
              m.state
      go (ok a, m') e = t a m' ∙ e
      go (err x, m') e = e

  pub attempt-Quiet : {A : Type 0} (act : Act C A) → Still act → Quiet (attempt act)
  unfolding attempt
  attempt-Quiet act s m = (
    (act m).0,
    (act m).1.world,
    ap (λ st. (ok (act m).0, record { state = st; world = (act m).1.world })) (s m),
  )

  pub pure-Quiet : {A : Type 0} (a : A) → Quiet (pure a)
  pure-Quiet a m = (a, m.world, refl)
