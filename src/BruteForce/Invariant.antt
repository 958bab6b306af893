-- ===== src/BruteForce/Invariant.antt =====
-- The map of places is the inverse of the array of ids, and the index is a finite map from ids to
-- vectors: `stored` is that view, and `upsert` and `erase` are its update and its removal.
use llamacodelab.Prelude.{
  ℕ, zero, suc, ◌<◌, true, ◌&&◌, Option, none, some, List, [], ◌∷◌, ◌++◌, length, get_elem?, set,
  take, if◌then◌else◌, ◌==◌, ltb, false, ◌≡◌, ◌≢◌, refl, sym, ◌∙◌, arith, All, All-append, ◌⊎◌, inl,
  inr, Option-cases, Bool-cases, ==_iff,
}
use llamacodelab.Prelude.Result.{ok, err, invalid_argument}
use llamacodelab.Prelude.Assoc
use llamacodelab.Prelude.Assoc.{
  Assoc, DistinctKeys, find-assign, find-emplace, find-erase, assign-DistinctKeys,
  erase-DistinctKeys, emplace-DistinctKeys,
}
use llamacodelab.Domain.{Floats}
use llamacodelab.Similarity.{Embedding, is_finite_embedding}
use llamacodelab.BruteForce.{VectorRecord, BruteForceIndex, set_values, put, upsert}

module _ {A B : Type 0} (p : A → B) where
  -- A field of the entry at a place.
  unfoldable pub column : List A → ℕ → Option B
  column [] i = none
  column (r ∷ rs) zero = some (p r)
  column (r ∷ rs) (suc i) = column rs i

  pub column_bound : (rs : List A) (i : ℕ) {b : B} → column rs i ≡ some b → i < length rs
  unfolding column
  column_bound [] i e = cc
  column_bound (r ∷ rs) zero e = omega arith
  column_bound (r ∷ rs) (suc i) e = omega (arith, column_bound rs i e)

  pub column-append :
      (rs : List A) (r : A) (i : ℕ)
      → column (rs ++ r ∷ []) i ≡ (if i == length rs then some (p r) else column rs i)
  unfolding column
  column-append [] r zero = refl
  column-append [] r (suc i) = ground arith
  column-append (q ∷ rs) r zero = ground arith
  column-append (q ∷ rs) r (suc i) = ground (arith, column-append rs r i)

  pub column-set :
      (rs : List A) (i : ℕ) (r : A) (j : ℕ)
      → column (set rs i r) j ≡ (if i == j && ltb i (length rs) then some (p r) else column rs j)
  unfolding column
  column-set [] i r j = ground arith
  column-set (q ∷ rs) zero r zero = ground arith
  column-set (q ∷ rs) zero r (suc j) = ground arith
  column-set (q ∷ rs) (suc i) r zero = ground arith
  column-set (q ∷ rs) (suc i) r (suc j) = ground (arith, column-set rs i r j)

  pub column-take :
      (rs : List A) (m i : ℕ) → column (take m rs) i ≡ (if ltb i m then column rs i else none)
  unfolding column
  column-take rs zero i = ground arith
  column-take [] (suc m) i = ground arith
  column-take (q ∷ rs) (suc m) zero = ground arith
  column-take (q ∷ rs) (suc m) (suc i) = ground (arith, column-take rs m i)

  pub column-get :
      (rs : List A) (i : ℕ) (r : A) → get_elem? rs i ≡ some r → column rs i ≡ some (p r)
  unfolding column
  column-get [] i r e = cc
  column-get (q ∷ rs) zero r e = ground arith
  column-get (q ∷ rs) (suc i) r e = column-get rs i r e

module _ (f : Floats) where
  abbrev pub ids : VectorRecord f → ℕ
  ids r = r.id

  abbrev pub values : VectorRecord f → Embedding f
  values r = r.values

  -- The id, and the vector, at a place.
  abbrev pub id_at : List (VectorRecord f) → ℕ → Option ℕ
  id_at = column ids

  abbrev pub values_at : List (VectorRecord f) → ℕ → Option (Embedding f)
  values_at = column values

  module _ (v : Embedding f) where
    id_at-set_values :
        (i : ℕ) (rs : List (VectorRecord f)) (j : ℕ) → id_at (set_values f i v rs) j ≡ id_at rs j
    unfolding column set_values
    id_at-set_values i [] j = refl
    id_at-set_values zero (r ∷ rs) zero = refl
    id_at-set_values zero (r ∷ rs) (suc j) = ground arith
    id_at-set_values (suc i) (r ∷ rs) zero = refl
    id_at-set_values (suc i) (r ∷ rs) (suc j) = id_at-set_values i rs j

    values_at-set_values :
        (i : ℕ) (rs : List (VectorRecord f)) (j : ℕ)
        → values_at (set_values f i v rs) j
          ≡ (if i == j && ltb i (length rs) then some v else values_at rs j)
    unfolding column set_values
    values_at-set_values i [] j = ground arith
    values_at-set_values zero (r ∷ rs) zero = ground arith
    values_at-set_values zero (r ∷ rs) (suc j) = ground arith
    values_at-set_values (suc i) (r ∷ rs) zero = ground arith
    values_at-set_values (suc i) (r ∷ rs) (suc j) = ground (arith, values_at-set_values i rs j)

  -- A record that the index may hold.
  abbrev pub IsShaped : ℕ → VectorRecord f → Type 0
  IsShaped dim r = (length r.values ≡ dim) × (is_finite_embedding f r.values ≡ true)

  pub record IsValid (x : BruteForceIndex f) : Type 0 where
    pub distinct : DistinctKeys x.positions
    pub placed : (id i : ℕ) → Assoc.find id x.positions ≡ some i → id_at x.records i ≡ some id
    pub indexed : (id i : ℕ) → id_at x.records i ≡ some id → Assoc.find id x.positions ≡ some i
    pub shaped : All (IsShaped x.dim) x.records

  -- The vector of an id.
  unfoldable pub stored : BruteForceIndex f → ℕ → Option (Embedding f)
  stored x id = elim (Assoc.find id x.positions) [ none ↦ none | some i ↦ values_at x.records i ]

  All-set_values :
      (dim i : ℕ) (v : Embedding f) (rs : List (VectorRecord f))
      → length v ≡ dim
      → is_finite_embedding f v ≡ true
      → All (IsShaped dim) rs
      → All (IsShaped dim) (set_values f i v rs)
  unfolding set_values
  All-set_values dim i v [] l n h = tt
  All-set_values dim zero v (r ∷ rs) l n h = ((l, n), h.1)
  All-set_values dim (suc i) v (r ∷ rs) l n h = (h.0, All-set_values dim i v rs l n h.1)

  abbrev new_record : ℕ → Embedding f → VectorRecord f
  new_record id v = record { id = id; values = v }

  module _ (id : ℕ) (v : Embedding f) (x : BruteForceIndex f) (valid : IsValid x)
      (long : length v ≡ x.dim) (finite : is_finite_embedding f v ≡ true) where
    replaced : ℕ → BruteForceIndex f
    replaced p = record x { records = set_values f p v x.records }

    appended : BruteForceIndex f
    appended = record x {
      records = x.records ++ new_record id v ∷ [];
      positions = Assoc.emplace id (length x.records) x.positions;
    }

    replaced-IsValid : (p : ℕ) → IsValid (replaced p)
    unfolding replaced
    replaced-IsValid p = record {
      distinct = valid.distinct;
      placed = λ j i e. id_at-set_values v p x.records i ∙ valid.placed j i e;
      indexed = λ j i e. valid.indexed j i (sym (id_at-set_values v p x.records i) ∙ e);
      shaped = All-set_values x.dim p v x.records long finite valid.shaped;
    }

    appended-IsValid : Assoc.find id x.positions ≡ none → IsValid appended
    unfolding appended
    appended-IsValid fresh = record {
      distinct = emplace-DistinctKeys id (length x.records) x.positions valid.distinct;
      placed = λ j i e. ground (
        arith,
        valid.placed j i,
        find-emplace id j (length x.records) x.positions,
        λ (p : id_at x.records i ≡ some j). column_bound ids x.records i p,
        column-append ids x.records (new_record id v) i,
      );
      indexed = λ j i e. ground (
        arith,
        valid.indexed j i,
        find-emplace id j (length x.records) x.positions,
        column-append ids x.records (new_record id v) i,
      );
      shaped = All-append (IsShaped x.dim) x.records _ valid.shaped ((long, finite), tt);
    }

    put-IsValid : IsValid (put f id v x)
    unfolding put replaced appended
    put-IsValid = elim (Option-cases (Assoc.find id x.positions)) [
      | inl e ↦ rw (e, put) (appended-IsValid e)
      | inr (p, e) ↦ rw (e, put) (replaced-IsValid p)
    ]

    stored-appended :
        (j : ℕ)
        → Assoc.find id x.positions ≡ none
        → stored appended j ≡ (if id == j then some v else stored x j)
    unfolding appended stored
    stored-appended j fresh = elim (Option-cases (Assoc.find j x.positions)) [
      | inl e ↦ ground (
        arith,
        find-emplace id j (length x.records) x.positions,
        column-append values x.records (new_record id v) (length x.records),
      )
      | inr (i, e) ↦ ground (
        arith,
        find-emplace id j (length x.records) x.positions,
        column-append values x.records (new_record id v) i,
        column_bound ids x.records i (valid.placed j i e),
      )
    ]

    stored-replaced :
        (j p : ℕ)
        → Assoc.find id x.positions ≡ some p
        → stored (replaced p) j ≡ (if id == j then some v else stored x j)
    unfolding replaced stored
    stored-replaced j p old = elim (Option-cases (Assoc.find j x.positions)) [
      | inl e ↦ ground arith
      | inr (i, e) ↦ ground (
        arith,
        values_at-set_values v p x.records i,
        valid.placed j i e,
        valid.placed id p old,
        column_bound ids x.records i (valid.placed j i e),
      )
    ]

    stored-put : (j : ℕ) → stored (put f id v x) j ≡ (if id == j then some v else stored x j)
    unfolding put replaced appended
    stored-put j = elim (Option-cases (Assoc.find id x.positions)) [
      | inl e ↦ rw (e, put) (stored-appended j e)
      | inr (p, e) ↦ rw (e, put) (stored-replaced j p e)
    ]

  put-dim : (id : ℕ) (v : Embedding f) (x : BruteForceIndex f) → (put f id v x).dim ≡ x.dim
  unfolding put
  put-dim id v x = elim (Option-cases (Assoc.find id x.positions)) [
    | inl e ↦ rw (e, put)
    | inr (p, e) ↦ rw (e, put)
  ]

  -- On a valid index, `upsert` of a finite vector of the index's dimension succeeds, keeps the index
  -- valid, stores the vector under the given id and leaves those of all other ids; `upsert` of a
  -- vector of another length, or of one that is not finite, throws invalid_argument.
  pub upsert_lem :
      (id : ℕ) (v : Embedding f) (x : BruteForceIndex f)
      → IsValid x
      → ((length v ≡ x.dim)
          × (is_finite_embedding f v ≡ true)
          × ((y : BruteForceIndex f) × (upsert f id v x ≡ ok y)
              × IsValid y
              × (y.dim ≡ x.dim)
              × ((j : ℕ) → stored y j ≡ (if id == j then some v else stored x j))))
        ⊎ (((length v ≢ x.dim) ⊎ (is_finite_embedding f v ≡ false))
            × (upsert f id v x ≡ err invalid_argument))
  unfolding upsert
  upsert_lem id v x valid = elim (Bool-cases (length v == x.dim)) [
    | inr e ↦ inr (inl (λ long. cc (e, (==_iff _ _).1 long)), rw e)
    | inl e ↦ elim (Bool-cases (is_finite_embedding f v)) [
      | inr n ↦ inr (inr n, rw e (rw n))
      | inl n ↦
          let long : length v ≡ x.dim = (==_iff _ _).0 e in
          inl (
            long,
            n,
            (
              put f id v x,
              rw e (rw n),
              put-IsValid id v x valid long n,
              put-dim id v x,
              stored-put id v x valid long n,
            ),
          )
    ]
  ]
