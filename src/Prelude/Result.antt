-- ===== src/Prelude/Result.antt =====
-- C++ exceptions as values: the class that is thrown is kept, its message is not.
use mathlib.Core.Path.{◌≡◌, refl}
use mathlib.Core.Logic.{◌⊎◌, inl, inr}
use mathlib.Core.Bool.{Bool, true, false}

pub data Error : Type 0 where
  invalid_argument logic_error runtime_error overflow_error : Error

pub data Result {ℓ} (A : Type ℓ) : Type ℓ where
  err : Error → Result A
  ok : A → Result A

-- What follows a call, unless the call throws.
infixl 5 ◌>>=◌ ◌>>◌
abbrev pub ◌>>=◌ {ℓ κ} : {A : Type ℓ} {B : Type κ} → Result A → (A → Result B) → Result B
err thrown >>= rest = err thrown
ok value >>= rest = rest value

module _ {ℓ κ} {A : Type ℓ} {B : Type κ} where
  -- If a call and what follows it succeed, the call did.
  pub >>=-eq-ok :
      (call : Result A) (rest : A → Result B) {b : B}
      → (call >>= rest) ≡ ok b
      → (value : A) × (call ≡ ok value) × (rest value ≡ ok b)
  >>=-eq-ok (err thrown) rest e = cc
  >>=-eq-ok (ok value) rest e = (value, refl, e)

abbrev pub ◌>>◌ {κ} : {B : Type κ} → Result (Unit {0}) → Result B → Result B
call >> rest = call >>= (λ _. rest)

-- if (test) throw e;
abbrev pub throw_if : Bool → Error → Result (Unit {0})
throw_if false e = ok tt
throw_if true e = err e

pub Result-cases {ℓ} :
    {A : Type ℓ} (r : Result A) → ((a : A) × (r ≡ ok a)) ⊎ ((e : Error) × (r ≡ err e))
Result-cases (ok a) = inl (a, refl)
Result-cases (err e) = inr (e, refl)

-- What a computation ends in: `Q` holds of its value, or `E` of what it throws.
abbrev pub Yields {ℓ κ} : {A : Type ℓ} → (A → Type κ) → (Error → Type κ) → Result A → Type κ
Yields Q E (ok a) = Q a
Yields Q E (err e) = E e

pub Yields-bind {ℓ κ μ} :
    {A : Type ℓ} {B : Type μ} {Q : A → Type κ} (R : B → Type κ) (E : Error → Type κ) (m : Result A)
    (f : A → Result B)
    → Yields Q E m
    → ((a : A) → Q a → Yields R E (f a))
    → Yields R E (m >>= f)
Yields-bind R E (ok a) f h k = k a h
Yields-bind R E (err e) f h k = h

pub Yields-imp {ℓ κ} :
    {A : Type ℓ} {Q R : A → Type κ} (E : Error → Type κ) (m : Result A)
    → Yields Q E m
    → ((a : A) → Q a → R a)
    → Yields R E m
Yields-imp E (ok a) h k = k a h
Yields-imp E (err e) h k = h

-- A call whose value is all that is known of it.
pub Yields-call :
    {A : Type 0} (E : Error → Type 0) (m : Result A)
    → ((e : Error) → m ≡ err e → E e)
    → Yields (λ a. m ≡ ok a) E m
Yields-call E (ok a) h = refl
Yields-call E (err e) h = h e refl

pub Yields-throw_if :
    (E : Error → Type 0) (test : Bool) (e : Error)
    → (test ≡ true → E e)
    → Yields (λ u. test ≡ false) E (throw_if test e)
Yields-throw_if E true e h = h refl
Yields-throw_if E false e h = refl

pub Yields-throws {ℓ κ} :
    {A : Type ℓ} (Q : A → Type κ) (E F : Error → Type κ) (m : Result A)
    → ((e : Error) → E e → F e)
    → Yields Q E m
    → Yields Q F m
Yields-throws Q E F (ok a) k h = h
Yields-throws Q E F (err e) k h = k e h

pub ok-injective {ℓ} : {A : Type ℓ} (a b : A) → ok a ≡ ok b → a ≡ b
ok-injective a b e = cc
