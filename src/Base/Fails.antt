-- ===== src/Base/Fails.antt =====
-- What holds of every error that a chain of results can end in.
use mathlib.Core.Path.{◌≡◌, refl, subst}
use mathlib.Core.Bool.{Bool, true, false}
use mathlib.Core.Option.{Option, none, some}
use pzd.Base.Logic.{if◌then◌else◌}
use pzd.Base.Result.{Result, ok, err, ◌>>=◌, ok_or, guard, map_err}

-- Every error of the result satisfies `P`.
abbrev pub Fails : {E A : Type 0} → (E → Type 0) → Result E A → Type 0
Fails {E} P m = (e : E) → m ≡ err e → P e

module _ {E : Type 0} (P : E → Type 0) where
  pub Fails->>= :
      {A B : Type 0} (m : Result E A) (f : A → Result E B)
      → Fails P m
      → ((a : A) → m ≡ ok a → Fails P (f a))
      → Fails P (m >>= f)
  Fails->>= (ok a) f s t = λ e h. t a refl e h
  Fails->>= (err x) f s t = λ e h. s e (cc)

  pub Fails-ok_or : {A : Type 0} (o : Option A) (x : E) → (o ≡ none → P x) → Fails P (ok_or o x)
  Fails-ok_or none x p e h = subst P (cc) (p refl)
  Fails-ok_or (some a) x p e h = absurd (cc)

  pub Fails-guard : (b : Bool) (x : E) → (b ≡ false → P x) → Fails P (guard b x)
  Fails-guard true x p e h = absurd (cc)
  Fails-guard false x p e h = subst P (cc) (p refl)

  pub Fails-err : {A : Type 0} (x : E) → P x → Fails {A = A} P (err x)
  Fails-err x p e h = subst P (cc) p

  pub Fails-if :
      {A : Type 0} (b : Bool) (x y : Result E A)
      → (b ≡ true → Fails P x)
      → (b ≡ false → Fails P y)
      → Fails P (if b then x else y)
  Fails-if true x y s t = s refl
  Fails-if false x y s t = t refl

  pub Fails-map_err :
      {F A : Type 0} (r : Result F A) (f : F → E) → Fails (λ e. P (f e)) r → Fails P (map_err r f)
  Fails-map_err (ok a) f s e h = absurd (cc)
  Fails-map_err (err x) f s e h = subst P (cc) (s x refl)
