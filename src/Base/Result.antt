-- ===== src/Base/Result.antt =====
-- Rust's `Result`, with `?` as bind.
use mathlib.Core.Path.{◌≡◌, Path, refl}
use mathlib.Core.Bool.{Bool, true, false}
use mathlib.Core.Option.{Option, none, some}

pub data Result {ℓ κ} (E : Type ℓ) (A : Type κ) : Type (ℓ ⊔ κ) where
  ok : A → Result E A
  err : E → Result E A

infixl 5 ◌>>=◌ ◌>>◌
abbrev pub ◌>>=◌ {ℓ κ μ} :
    {E : Type ℓ} {A : Type κ} {B : Type μ} → Result E A → (A → Result E B) → Result E B
ok a >>= f = f a
err e >>= f = err e

abbrev pub ◌>>◌ {ℓ κ μ} :
    {E : Type ℓ} {A : Type κ} {B : Type μ} → Result E A → Result E B → Result E B
m >> k = m >>= λ _. k

-- A chain that ends well went well at its first step.
pub >>=-inv :
    {E A B : Type 0} (m : Result E A) (f : A → Result E B) (b : B)
    → (m >>= f) ≡ ok b
    → (a : A) × (m ≡ ok a) × (f a ≡ ok b)
>>=-inv (ok a) f b h = (a, refl, h)
>>=-inv (err e) f b h = absurd (cc)

abbrev pub ok_or {ℓ κ} : {E : Type ℓ} {A : Type κ} → Option A → E → Result E A
ok_or none e = err e
ok_or (some a) e = ok a

-- An early return behind a failed test.
abbrev pub guard {ℓ} : {E : Type ℓ} → Bool → E → Result E (Unit {0})
guard true e = ok tt
guard false e = err e

abbrev pub map_err {ℓ κ μ} :
    {E : Type ℓ} {F : Type κ} {A : Type μ} → Result E A → (E → F) → Result F A
map_err (ok a) f = ok a
map_err (err e) f = err (f e)

-- `unwrap_or` on an option.
abbrev pub unwrap_or {ℓ} : {A : Type ℓ} → Option A → A → A
unwrap_or none a = a
unwrap_or (some b) a = b

pub ok_or-inv : {E A : Type 0} (o : Option A) (e : E) (a : A) → ok_or o e ≡ ok a → o ≡ some a
ok_or-inv none e a h = absurd (cc)
ok_or-inv (some b) e a h = cc

pub guard-inv : {E : Type 0} (b : Bool) (e : E) (u : Unit {0}) → guard b e ≡ ok u → b ≡ true
guard-inv true e u h = refl
guard-inv false e u h = absurd (cc)

pub map_err-inv :
    {E F A : Type 0} (r : Result E A) (f : E → F) (a : A) → map_err r f ≡ ok a → r ≡ ok a
map_err-inv (ok b) f a h = cc
map_err-inv (err e) f a h = absurd (cc)

pub ok-injective : {E A : Type 0} (a b : A) → Path (Result E A) (ok a) (ok b) → a ≡ b
ok-injective a b h = cc

-- Chains with continuations that agree.
pub >>=-cong :
    {E A B : Type 0} (m : Result E A) (f g : A → Result E B)
    → ((a : A) → f a ≡ g a)
    → (m >>= f) ≡ (m >>= g)
>>=-cong (ok a) f g h = h a
>>=-cong (err e) f g h = refl
