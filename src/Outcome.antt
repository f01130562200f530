-- ===== src/Outcome.antt =====
-- Results of fallible code: a value, an error that the code returns, or a panic (an index out of
-- range, `unreachable!`, `expect`), which stops the firmware.
use madmax_artiq_zynq.Base.{Bool, true, false, ◌≡◌, refl}

pub data Outcome (E A : Type 0) : Type 0 where
  ok : A → Outcome E A
  err : E → Outcome E A
  panic : Outcome E A

infixl 5 ◌>>=◌ ◌>>◌
abbrev pub ◌>>=◌ : {E A B : Type 0} → Outcome E A → (A → Outcome E B) → Outcome E B
ok a >>= f = f a
err e >>= f = err e
panic >>= f = panic

-- `From::from` on the error, which `?` applies.
abbrev pub map_err : {E F A : Type 0} → (E → F) → Outcome E A → Outcome F A
map_err f (ok a) = ok a
map_err f (err e) = err (f e)
map_err f panic = panic

-- Neither error nor panic.
abbrev pub IsOk : {E A : Type 0} → Outcome E A → Type 0
IsOk {E} {A} o = (a : A) × (o ≡ ok a)

abbrev pub ◌>>◌ : {E B : Type 0} → Outcome E (Unit {0}) → Outcome E B → Outcome E B
m >> k = m >>= λ _. k

-- An early return with an error unless the test holds.
abbrev pub guard : {E : Type 0} → Bool → E → Outcome E (Unit {0})
guard true e = ok tt
guard false e = err e

-- What a chain that returns has done.
pub ok_inv :
    {E A B : Type 0} (o : Outcome E A) (f : A → Outcome E B) (b : B)
    → (o >>= f) ≡ ok b
    → (a : A) × (o ≡ ok a) × (f a ≡ ok b)
ok_inv (ok a) f b e = (a, refl, e)
ok_inv (err x) f b e = absurd (cc e)
ok_inv panic f b e = absurd (cc e)

pub ok_injective : {E A : Type 0} {a b : A} → ◌≡◌ {A = Outcome E A} (ok a) (ok b) → a ≡ b
ok_injective e = cc e

-- If the call returns, the value is such.
abbrev pub Ensures : {E A : Type 0} → (A → Type 0) → Outcome E A → Type 0
Ensures P (ok a) = P a
Ensures P (err e) = Unit {0}
Ensures P panic = Unit {0}

pub Ensures-bind :
    {E A B : Type 0} (Q : A → Type 0) (P : B → Type 0) (o : Outcome E A) (f : A → Outcome E B)
    → Ensures Q o
    → ((a : A) → Q a → Ensures P (f a))
    → Ensures P (o >>= f)
Ensures-bind Q P (ok a) f q p = p a q
Ensures-bind Q P (err e) f q p = tt
Ensures-bind Q P panic f q p = tt

pub Ensures-any : {E A : Type 0} (o : Outcome E A) → Ensures (λ _. Unit {0}) o
Ensures-any (ok a) = tt
Ensures-any (err e) = tt
Ensures-any panic = tt
