-- ===== src/Prelude/Sort.antt =====
-- `std::sort` with a comparator `before`, and `resize` to the first entries. The standard fixes the
-- result where the comparator orders the entries strictly; insertion sort gives it.
use Prim.Native.Nat.{ℕ, zero, suc}
use mathlib.Core.Path.{◌≡◌, refl}
use mathlib.Core.Logic.{◌⊎◌, inl, inr}
use mathlib.Core.Bool.{Bool, true}
use mathlib.Core.List.{List, [], ◌∷◌, Perm}
use mathlib.Core.List.Perm
use native.Mathlib.Omega.{arith}
use llamacodelab.Prelude.Tests.{if◌then◌else◌, Bool-cases}
use llamacodelab.Prelude.Lists.{length, take, drop, All, All-take, All-drop}

-- The entries of a list are pairwise related, in the list's order.
abbrev pub AllPairs : {A : Type 0} → (A → A → Type 0) → List A → Type 0
AllPairs R [] = Unit {0}
AllPairs R (x ∷ xs) = All (R x) xs × AllPairs R xs

module _ {A : Type 0} (before : A → A → Bool) where
  unfoldable pub insert_sorted : A → List A → List A
  insert_sorted x [] = x ∷ []
  insert_sorted x (y ∷ ys) = if before x y then x ∷ y ∷ ys else y ∷ insert_sorted x ys

  unfoldable pub sort : List A → List A
  unfolding insert_sorted
  sort [] = []
  sort (x ∷ xs) = insert_sorted x (sort xs)

  -- Each entry is before all that follow it.
  abbrev pub IsOrdered : List A → Type 0
  IsOrdered = AllPairs (λ x y. before x y ≡ true)

  insert_sorted-perm : (x : A) (xs : List A) → Perm (insert_sorted x xs) (x ∷ xs)
  unfolding insert_sorted
  insert_sorted-perm x [] = Perm.refl _
  insert_sorted-perm x (y ∷ ys) = elim (Bool-cases (before x y)) [
    | inl e ↦ rw e (Perm.refl _)
    | inr e ↦ rw e (Perm.trans (Perm.cons y (insert_sorted-perm x ys)) (Perm.swap x y ys))
  ]

  pub sort-perm : (xs : List A) → Perm (sort xs) xs
  unfolding sort
  sort-perm [] = Perm.nil
  sort-perm (x ∷ xs) = Perm.trans (insert_sorted-perm x (sort xs)) (Perm.cons x (sort-perm xs))

  length-insert_sorted : (x : A) (xs : List A) → length (insert_sorted x xs) ≡ suc (length xs)
  unfolding insert_sorted
  length-insert_sorted x [] = refl
  length-insert_sorted x (y ∷ ys) = ground (arith, length-insert_sorted x ys)

  pub length-sort : (xs : List A) → length (sort xs) ≡ length xs
  unfolding sort
  length-sort [] = refl
  length-sort (x ∷ xs) = omega (arith, length-insert_sorted x (sort xs), length-sort xs)

  All-insert_sorted :
      (P : A → Type 0) (x : A) (xs : List A) → P x → All P xs → All P (insert_sorted x xs)
  unfolding insert_sorted
  All-insert_sorted P x [] p h = (p, tt)
  All-insert_sorted P x (y ∷ ys) p h = elim (Bool-cases (before x y)) [
    | inl e ↦ rw e (p, h)
    | inr e ↦ rw e (h.0, All-insert_sorted P x ys p h.1)
  ]

  pub All-sort : (P : A → Type 0) (xs : List A) → All P xs → All P (sort xs)
  unfolding sort
  All-sort P [] h = tt
  All-sort P (x ∷ xs) h = All-insert_sorted P x (sort xs) h.0 (All-sort P xs h.1)

  -- On the entries that meet `P` the comparator is transitive, and decides between any two that
  -- are `Apart`.
  pub record Orders (P : A → Type 0) (Apart : A → A → Type 0) : Type 0 where
    pub total : (x y : A) → P x → P y → Apart x y → (before x y ≡ true) ⊎ (before y x ≡ true)
    pub trans :
        (x y z : A) → P x → P y → P z → before x y ≡ true → before y z ≡ true → before x z ≡ true

  module _ {P : A → Type 0} {Apart : A → A → Type 0} (o : Orders P Apart) where
    All-trans :
        (x y : A) (zs : List A)
        → P x
        → P y
        → All P zs
        → before x y ≡ true
        → All (λ z. before y z ≡ true) zs
        → All (λ z. before x z ≡ true) zs
    All-trans x y [] px py pz b h = tt
    All-trans x y (z ∷ zs) px py pz b h =
        (o.trans x y z px py pz.0 b h.0, All-trans x y zs px py pz.1 b h.1)

    insert_sorted-IsOrdered :
        (x : A) (ys : List A)
        → P x
        → All P ys
        → All (Apart x) ys
        → IsOrdered ys
        → IsOrdered (insert_sorted x ys)
    unfolding insert_sorted
    insert_sorted-IsOrdered x [] px py a h = (tt, tt)
    insert_sorted-IsOrdered x (y ∷ ys) px py a h = elim (Bool-cases (before x y)) [
      | inl e ↦ rw e ((e, All-trans x y ys px py.0 py.1 e h.0), h)
      | inr e ↦ rw e (
        All-insert_sorted (λ z. before y z ≡ true) x ys
            (elim (o.total x y px py.0 a.0) [ inl f ↦ cc | inr f ↦ f ]) h.0,
        insert_sorted-IsOrdered x ys px py.1 a.1 h.1,
      )
    ]

    pub sort-IsOrdered : (xs : List A) → All P xs → AllPairs Apart xs → IsOrdered (sort xs)
    unfolding sort
    sort-IsOrdered [] h a = tt
    sort-IsOrdered (x ∷ xs) h a =
        insert_sorted-IsOrdered x (sort xs) h.0 (All-sort P xs h.1) (All-sort (Apart x) xs a.0)
          (sort-IsOrdered xs h.1 a.1)

pub AllPairs-take :
    {A : Type 0} (R : A → A → Type 0) (n : ℕ) (xs : List A) → AllPairs R xs → AllPairs R (take n xs)
AllPairs-take R zero xs h = tt
AllPairs-take R (suc n) [] h = tt
AllPairs-take R (suc n) (x ∷ xs) h = (All-take (R x) n xs h.0, AllPairs-take R n xs h.1)

-- The first `n` come before all the others.
pub AllPairs-split :
    {A : Type 0} (R : A → A → Type 0) (n : ℕ) (xs : List A)
    → AllPairs R xs
    → All (λ x. All (R x) (drop n xs)) (take n xs)
AllPairs-split R zero xs h = tt
AllPairs-split R (suc n) [] h = tt
AllPairs-split R (suc n) (x ∷ xs) h = (All-drop (R x) n xs h.0, AllPairs-split R n xs h.1)
