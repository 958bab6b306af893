-- ===== src/Prelude/Loop.antt =====
-- `while` loops whose body may return, throw or go on. A loop runs on fuel, and `none` means that the
-- fuel ran out; `iterate-Ends` shows, from a measure that falls, that it does not.
use Prim.Native.Nat.{ℕ, zero, suc, ◌<◌}
use mathlib.Core.Path.{◌≡◌, refl}
use mathlib.Core.Logic.{◌⊎◌, inl, inr}
use mathlib.Core.Option.{Option, none, some}
use native.Mathlib.Omega.{arith}
use llamacodelab.Prelude.Result.{Error, Result, ok, err, Yields}

-- How a round ends: with the next state, or with the value that the function returns.
pub data Flow {ℓ κ} (S : Type ℓ) (R : Type κ) : Type (ℓ ⊔ κ) where
  continue : S → Flow S R
  return : R → Flow S R

module _ {ℓ κ} {S : Type ℓ} {R : Type κ} where
  abbrev pub settle : (S → Option (Result R)) → Result (Flow S R) → Option (Result R)
  settle next (err e) = some (err e)
  settle next (ok (return r)) = some (ok r)
  settle next (ok (continue t)) = next t

  unfoldable pub iterate : ℕ → (S → Result (Flow S R)) → S → Option (Result R)
  iterate zero body s = none
  iterate (suc fuel) body s = settle (λ t. iterate fuel body t) (body s)

-- The loop ended: `Q` holds of what it returned, or `E` of what it threw.
abbrev pub Ends {ℓ} : {R : Type ℓ} → (R → Type 0) → (Error → Type 0) → Option (Result R) → Type 0
Ends Q E none = ⊥
Ends Q E (some (ok r)) = Q r
Ends Q E (some (err e)) = E e

-- A loop that ends returns or throws.
pub Ends-cases {ℓ} :
    {R : Type ℓ} (Q : R → Type 0) (E : Error → Type 0) (o : Option (Result R))
    → Ends Q E o
    → ((r : R) × (o ≡ some (ok r)) × Q r) ⊎ ((e : Error) × (o ≡ some (err e)) × E e)
Ends-cases Q E none h = absurd h
Ends-cases Q E (some (ok r)) h = inl (r, refl, h)
Ends-cases Q E (some (err e)) h = inr (e, refl, h)

pub Ends-Yields {ℓ} :
    {R : Type ℓ} (Q : R → Type 0) (E : Error → Type 0) (r : Result R)
    → Yields Q E r
    → Ends Q E (some r)
Ends-Yields Q E (ok a) h = h
Ends-Yields Q E (err e) h = h

pub Ends-imp {ℓ} :
    {R : Type ℓ} (P Q : R → Type 0) (E : Error → Type 0) (o : Option (Result R))
    → ((r : R) → P r → Q r)
    → Ends P E o
    → Ends Q E o
Ends-imp P Q E none k h = h
Ends-imp P Q E (some (ok r)) k h = k r h
Ends-imp P Q E (some (err e)) k h = h

pub Ends-throws {ℓ} :
    {R : Type ℓ} (Q : R → Type 0) (E F : Error → Type 0) (o : Option (Result R))
    → ((e : Error) → E e → F e)
    → Ends Q E o
    → Ends Q F o
Ends-throws Q E F none k h = h
Ends-throws Q E F (some (ok r)) k h = h
Ends-throws Q E F (some (err e)) k h = k e h

-- One round keeps the invariant and lowers the measure, or ends the loop as `Q` and `E` say.
abbrev pub Round {ℓ κ} :
    {S : Type ℓ} {R : Type κ}
    → (S → Type 0)
    → (S → ℕ)
    → ℕ
    → (R → Type 0)
    → (Error → Type 0)
    → Result (Flow S R)
    → Type 0
Round P measure m Q E (ok (continue t)) = P t × (measure t < m)
Round P measure m Q E (ok (return r)) = Q r
Round P measure m Q E (err e) = E e

module _ {ℓ κ} {S : Type ℓ} {R : Type κ} (P : S → Type 0) (measure : S → ℕ) (Q : R → Type 0)
    (E : Error → Type 0) (body : S → Result (Flow S R))
    (keeps : (s : S) → P s → Round P measure (measure s) Q E (body s)) where
  settle-Ends :
      (m : ℕ) (next : S → Option (Result R))
      → ((t : S) → P t → measure t < m → Ends Q E (next t))
      → (r : Result (Flow S R)) → Round P measure m Q E r
      → Ends Q E (settle next r)
  settle-Ends m next h (err e) k = k
  settle-Ends m next h (ok (return r)) k = k
  settle-Ends m next h (ok (continue t)) k = h t k.0 k.1

  -- With fuel above the measure the loop ends, by a return or by an exception.
  pub iterate-Ends : (fuel : ℕ) (s : S) → measure s < fuel → P s → Ends Q E (iterate fuel body s)
  unfolding iterate
  iterate-Ends zero s m h = absurd (omega arith)
  iterate-Ends (suc fuel) s m h =
      settle-Ends (measure s) (λ t. iterate fuel body t)
        (λ t p below. iterate-Ends fuel t (omega arith) p) (body s) (keeps s h)
