-- ===== src/Outcome.antt =====
-- `Result<A, E>` with a third case for a panic, which no caller in the modelled code catches.
use freenet_git.Prelude.{◌≡◌, refl, Option, none, some, arith}

pub data Result {ℓ} (E : Type 0) (A : Type ℓ) : Type ℓ where
  ok : A → Result E A
  err : E → Result E A
  panic : Result E A

infixl 5 ◌>>=◌ ◌>>◌
abbrev pub ◌>>=◌ {ℓ κ} :
    {E : Type 0} {A : Type ℓ} {B : Type κ} → Result E A → (A → Result E B) → Result E B
ok a >>= f = f a
err e >>= f = err e
panic >>= f = panic

abbrev pub ◌>>◌ {κ} : {E : Type 0} {B : Type κ} → Result E (Unit {0}) → Result E B → Result E B
m >> k = m >>= λ _. k

-- `expect`: the value, or a panic.
abbrev pub expect {ℓ} : {E : Type 0} {A : Type ℓ} → Option A → Result E A
expect none = panic
expect (some a) = ok a

-- `ok_or(e)?`.
abbrev pub ok_or {ℓ} : {E : Type 0} {A : Type ℓ} → E → Option A → Result E A
ok_or e none = err e
ok_or e (some a) = ok a

-- `map_err`.
abbrev pub map_err {ℓ} : {E F : Type 0} {A : Type ℓ} → (E → F) → Result E A → Result F A
map_err f (ok a) = ok a
map_err f (err e) = err (f e)
map_err f panic = panic

-- A chain succeeds only where each step does.
pub >>=-ok :
    {E A B : Type 0} (first : Result E A) (next : A → Result E B) (out : B)
    → (first >>= next) ≡ ok out
    → (x : A) × (first ≡ ok x) × (next x ≡ ok out)
>>=-ok (ok x) next out h = (x, refl, h)
>>=-ok (err e) next out h = absurd (ground arith)
>>=-ok panic next out h = absurd (ground arith)

pub map_err-ok :
    {E F A : Type 0} (f : E → F) (m : Result E A) (a : A) → map_err f m ≡ ok a → m ≡ ok a
map_err-ok f (ok a) b h = ground arith
map_err-ok f (err e) b h = absurd (ground arith)
map_err-ok f panic b h = absurd (ground arith)

pub ok_injective : {E A : Type 0} (a b : A) (m : Result E A) → m ≡ ok a → m ≡ ok b → a ≡ b
ok_injective a b m h g = ground arith
