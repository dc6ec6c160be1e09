-- ===== src/Base/Results.antt =====
-- Errors as values. A `ClientError` is shown to the client; any other error is internal. A Go
-- panic is a third outcome.
use mathlib.Core.Path.{◌≡◌, refl}
use mathlib.Core.Logic.{◌⊎◌, inl, inr}
use mathlib.Core.Bool.{Bool, true, false}
use mathlib.Core.Option.{Option, none, some}
use chihaya.Base.Tests.{if◌then◌else◌}
use chihaya.Base.ByteStrings.{Bytes}

pub data Error : Type 0 where
  client_error : Bytes → Error
  internal_error : Bytes → Error

pub data Result {ℓ} (A : Type ℓ) : Type ℓ where
  ok : A → Result A
  err : Error → Result A
  panic : Result A

infixl 5 ◌>>=◌
abbrev pub ◌>>=◌ {ℓ κ} : {B : Type κ} {A : Type ℓ} → Result A → (A → Result B) → Result B
panic >>= k = panic
err why >>= k = err why
ok x >>= k = k x

-- `if !test { return err }`
abbrev pub guard : Bool → Error → Result (Unit {0})
guard false why = err why
guard true why = ok tt

infixl 5 ◌>>◌
abbrev pub ◌>>◌ {ℓ} : {A : Type ℓ} → Result (Unit {0}) → Result A → Result A
step >> rest = step >>= λ _. rest

-- `if !test { panic }`
abbrev pub assert : Bool → Result (Unit {0})
assert true = ok tt
assert false = panic

-- An index or a map read that panics when nothing is there.
abbrev pub or_panic {ℓ} : {A : Type ℓ} → Option A → Result A
or_panic none = panic
or_panic (some a) = ok a

pub >>=-eq-ok {ℓ κ} :
    {A : Type ℓ} {B : Type κ} (r : Result A) (k : A → Result B) {y : B}
    → (r >>= k) ≡ ok y
    → (x : A) × (r ≡ ok x) × (k x ≡ ok y)
>>=-eq-ok panic k h = cc
>>=-eq-ok (err why) k h = cc
>>=-eq-ok (ok x) k h = (x, refl, h)

pub ok-injective {ℓ} : {A : Type ℓ} {a b : A} → ok a ≡ ok b → a ≡ b
ok-injective e = cc

-- A test that guards a result has passed if the result is there.
pub if-eq-ok {ℓ} :
    {A : Type ℓ} (b : Bool) {a c : A} (e : Error)
    → (if b then ok a else err e) ≡ ok c
    → (b ≡ true) × (a ≡ c)
if-eq-ok true e h = (refl, ok-injective h)
if-eq-ok false e h = cc

pub Result-cases {ℓ} :
    {A : Type ℓ} (r : Result A)
    → ((a : A) × (r ≡ ok a)) ⊎ (((e : Error) × (r ≡ err e)) ⊎ (r ≡ panic))
Result-cases (ok a) = inl (a, refl)
Result-cases (err e) = inr (inl (e, refl))
Result-cases panic = inr (inr refl)

pub >>=_assoc {ℓ κ μ} :
    {A : Type ℓ} {B : Type κ} {C : Type μ} (m : Result A) (f : A → Result B) (g : B → Result C)
    → (m >>= λ a. f a >>= g) ≡ (m >>= f >>= g)
>>=_assoc (ok a) f g = refl
>>=_assoc (err e) f g = refl
>>=_assoc panic f g = refl

pub else-eq-ok {ℓ} :
    {A : Type ℓ} (b : Bool) (e : Error) {m : Result A} {c : A}
    → (if b then err e else m) ≡ ok c
    → (b ≡ false) × (m ≡ ok c)
else-eq-ok true e h = cc
else-eq-ok false e h = (refl, h)
