-- ===== src/Prelude/Assoc.antt =====
-- std::unordered_map with numbers for keys, as an association list in the order of insertion. The
-- order in which the source iterates is not specified, and no theorem depends on this one.
use Prim.Native.Nat.{ℕ}
use mathlib.Core.Path.{◌≡◌, refl, ap₂, subst, ◌∙◌}
use mathlib.Core.Logic.{◌≢◌, inl, inr}
use mathlib.Core.List.{List, [], ◌∷◌, Mem, mem-cons, mem-cons_of_mem}
use mathlib.Core.Option
use mathlib.Core.Option.{Option, none, some, some-injective}
use mathlib.Core.Logic.Or
use native.Mathlib.Omega.{arith}
use llamacodelab.Prelude.Tests.{◌==◌, ==_iff, ==-ne, Bool-cases, if◌then◌else◌}
use llamacodelab.Prelude.Lists.{All}
use llamacodelab.Prelude.Sort.{AllPairs}

abbrev pub Assoc : Type 0 → Type 0
Assoc V = List (ℕ × V)

-- No key occurs twice.
abbrev pub DistinctKeys : {V : Type 0} → Assoc V → Type 0
DistinctKeys = AllPairs (λ e f. e.0 ≢ f.0)

module _ {V : Type 0} where
  unfoldable pub find : ℕ → Assoc V → Option V
  find k [] = none
  find k ((j, v) ∷ m) = if j == k then some v else find k m

  -- m[k] = v, and insert_or_assign
  unfoldable pub assign : ℕ → V → Assoc V → Assoc V
  assign k v [] = (k, v) ∷ []
  assign k v ((j, w) ∷ m) = if j == k then (k, v) ∷ m else (j, w) ∷ assign k v m

  -- emplace: an entry that is there stays
  unfoldable pub emplace : ℕ → V → Assoc V → Assoc V
  emplace k v [] = (k, v) ∷ []
  emplace k v ((j, w) ∷ m) = if j == k then (j, w) ∷ m else (j, w) ∷ emplace k v m

  unfoldable pub erase : ℕ → Assoc V → Assoc V
  erase k [] = []
  erase k ((j, w) ∷ m) = if j == k then m else (j, w) ∷ erase k m

  pub find-assign :
      (k j : ℕ) (v : V) (m : Assoc V)
      → find j (assign k v m) ≡ (if k == j then some v else find j m)
  unfolding find assign
  find-assign k j v [] = refl
  find-assign k j v ((i, w) ∷ m) = ground (arith, find-assign k j v m)

  pub find-assign_self : (k : ℕ) (v : V) (m : Assoc V) → find k (assign k v m) ≡ some v
  find-assign_self k v m = find-assign k k v m ∙ rw ((==_iff k k).1 refl)

  pub find-assign_ne : (k j : ℕ) (v : V) (m : Assoc V) → k ≢ j → find j (assign k v m) ≡ find j m
  find-assign_ne k j v m h = find-assign k j v m ∙ rw (==-ne k j h)

  pub All-assign :
      (P : ℕ × V → Type 0) (k : ℕ) (v : V) (m : Assoc V) → P (k, v) → All P m → All P (assign k v m)
  unfolding assign
  All-assign P k v [] p h = (p, tt)
  All-assign P k v ((j, w) ∷ m) p h = ground (arith, All-assign P k v m)

  pub assign-DistinctKeys :
      (k : ℕ) (v : V) (m : Assoc V) → DistinctKeys m → DistinctKeys (assign k v m)
  unfolding assign
  assign-DistinctKeys k v [] h = (tt, tt)
  assign-DistinctKeys k v ((j, w) ∷ m) h = elim (Bool-cases (j == k)) [
    | inl e ↦ rw e (subst (λ i. All (λ (f : ℕ × V). i ≢ f.0) m) ((==_iff j k).0 e) h.0, h.1)
    | inr e ↦ rw e (
      All-assign (λ f. j ≢ f.0) k v m (λ (p : j ≡ k). cc (e, (==_iff j k).1 p)) h.0,
      assign-DistinctKeys k v m h.1,
    )
  ]

  find-none : (i k : ℕ) (m : Assoc V) → i ≡ k → All (λ (f : ℕ × V). i ≢ f.0) m → find k m ≡ none
  unfolding find
  find-none i k [] e h = refl
  find-none i k ((j, w) ∷ m) e h = ground (arith, find-none i k m e h.1, h.0)

  pub find-erase :
      (k j : ℕ) (m : Assoc V)
      → DistinctKeys m
      → find j (erase k m) ≡ (if k == j then none else find j m)
  unfolding find erase
  find-erase k j [] d = ground arith
  find-erase k j ((i, w) ∷ m) d = elim (Bool-cases (i == k)) [
    | inl e ↦ rw e (ground (arith, λ (p : i ≡ j). find-none i j m p d.0))
    | inr e ↦ rw e (ground (arith, find-erase k j m d.1))
  ]

  All-erase : (P : ℕ × V → Type 0) (k : ℕ) (m : Assoc V) → All P m → All P (erase k m)
  unfolding erase
  All-erase P k [] h = tt
  All-erase P k ((j, w) ∷ m) h = elim (Bool-cases (j == k)) [
    | inl e ↦ rw e h.1
    | inr e ↦ rw e (h.0, All-erase P k m h.1)
  ]

  pub erase-DistinctKeys : (k : ℕ) (m : Assoc V) → DistinctKeys m → DistinctKeys (erase k m)
  unfolding erase
  erase-DistinctKeys k [] d = tt
  erase-DistinctKeys k ((j, w) ∷ m) d = elim (Bool-cases (j == k)) [
    | inl e ↦ rw e d.1
    | inr e ↦ rw e (All-erase (λ f. j ≢ f.0) k m d.0, erase-DistinctKeys k m d.1)
  ]

  pub find-emplace :
      (k j : ℕ) (v : V) (m : Assoc V)
      → find j (emplace k v m) ≡ (if k == j then some (Option.get_or (find j m) v) else find j m)
  unfolding find emplace
  find-emplace k j v [] = ground arith
  find-emplace k j v ((i, w) ∷ m) = ground (arith, find-emplace k j v m)

  pub All-emplace :
      (P : ℕ × V → Type 0) (k : ℕ) (v : V) (m : Assoc V)
      → P (k, v)
      → All P m
      → All P (emplace k v m)
  unfolding emplace
  All-emplace P k v [] p h = (p, tt)
  All-emplace P k v ((j, w) ∷ m) p h = elim (Bool-cases (j == k)) [
    | inl e ↦ rw e h
    | inr e ↦ rw e (h.0, All-emplace P k v m p h.1)
  ]

  pub emplace-DistinctKeys :
      (k : ℕ) (v : V) (m : Assoc V) → DistinctKeys m → DistinctKeys (emplace k v m)
  unfolding emplace
  emplace-DistinctKeys k v [] h = (tt, tt)
  emplace-DistinctKeys k v ((j, w) ∷ m) h = elim (Bool-cases (j == k)) [
    | inl e ↦ rw e h
    | inr e ↦ rw e (
      All-emplace (λ f. j ≢ f.0) k v m (λ (p : j ≡ k). cc (e, (==_iff j k).1 p)) h.0,
      emplace-DistinctKeys k v m h.1,
    )
  ]

module _ {V : Type 0} where
  -- Each entry of a map is the one that its key finds, and what a key finds is an entry.
  weaken :
      (j : ℕ) (w : V) (m n : Assoc V)
      → All (λ (e : ℕ × V). j ≢ e.0) n
      → All (λ (e : ℕ × V). find e.0 m ≡ some e.1) n
      → All (λ (e : ℕ × V). find e.0 ((j, w) ∷ m) ≡ some e.1) n
  unfolding find
  weaken j w m [] d h = tt
  weaken j w m ((k, v) ∷ n) d h = (rw (==-ne j k d.0) h.0, weaken j w m n d.1 h.1)

  pub find_entries : (m : Assoc V) → DistinctKeys m → All (λ (e : ℕ × V). find e.0 m ≡ some e.1) m
  unfolding find
  find_entries [] d = tt
  find_entries ((j, w) ∷ m) d = (rw ((==_iff j j).1 refl), weaken j w m m d.0 (find_entries m d.1))

  pub mem-find : (k : ℕ) (v : V) (m : Assoc V) → find k m ≡ some v → Mem (k, v) m
  unfolding find
  mem-find k v [] e = absurd (ground arith)
  mem-find k v ((j, w) ∷ m) e = elim (Bool-cases (j == k)) [
    | inl q ↦ mem-cons.1 (Or.inl (ground arith))
    | inr q ↦ mem-cons_of_mem _ (mem-find k v m (rw q at e))
  ]

pub All-find :
    {V : Type 0} (P : ℕ × V → Type 0) (k : ℕ) (v : V) (m : Assoc V)
    → All P m
    → find k m ≡ some v
    → P (k, v)
unfolding find
All-find P k v [] h e = absurd (ground arith)
All-find P k v ((j, w) ∷ m) h e = elim (Bool-cases (j == k)) [
  | inl q ↦ subst P (ap₂ (λ i x. (i, x)) ((==_iff j k).0 q) (some-injective w v (rw q at e))) h.0
  | inr q ↦ All-find P k v m h.1 (rw q at e)
]

pub ruleset map_laws = (find-assign, find-emplace)
