-- ===== src/BruteForce/Removal.antt =====
-- `erase` keeps the map of places inverse to the array, and removes one id from the view.
use llamacodelab.Prelude.{
  ℕ, ◌-◌, ◌<◌, none, some, length, length-set, get_elem?, set, take, if◌then◌else◌, ◌==◌, ◌≡◌,
  arith, All-take, All-set, inl, inr, Option-cases, Bool-cases, ==_iff, get_elem?-lt, All-get_elem?,
}
use llamacodelab.Prelude.Assoc
use llamacodelab.Prelude.Assoc.{
  DistinctKeys, find-assign, find-erase, assign-DistinctKeys, erase-DistinctKeys,
}
use llamacodelab.Domain.{Floats}
use llamacodelab.BruteForce.{VectorRecord, BruteForceIndex, drop_last, move_last, remove_at, erase}
use llamacodelab.BruteForce.Invariant.{
  column_bound, column-set, column-take, column-get, ids, values, id_at, IsShaped, IsValid, stored,
}

module _ (f : Floats) (id index : ℕ) (x : BruteForceIndex f) (valid : IsValid f x)
    (found : Assoc.find id x.positions ≡ some index) where
  index_bound : index < length x.records
  index_bound = column_bound (ids f) x.records index (valid.placed id index found)

  -- The last record is the one that goes.
  shortened : BruteForceIndex f
  shortened = record x {
    records = take (length x.records - 1) x.records;
    positions = Assoc.erase id x.positions;
  }

  module _ (at_end : index ≡ length x.records - 1) where
    shortened-IsValid : IsValid f shortened
    unfolding shortened
    shortened-IsValid = record {
      distinct = erase-DistinctKeys id x.positions valid.distinct;
      placed = λ j i e. ground (
        arith,
        find-erase id j x.positions valid.distinct,
        column-take (ids f) x.records (length x.records - 1) i,
        valid.placed j i,
        valid.placed id index found,
        λ (p : id_at f x.records i ≡ some j). column_bound (ids f) x.records i p,
      );
      indexed = λ j i e. ground (
        arith,
        find-erase id j x.positions valid.distinct,
        column-take (ids f) x.records (length x.records - 1) i,
        valid.indexed j i,
        found,
      );
      shaped = All-take (IsShaped f x.dim) (length x.records - 1) x.records valid.shaped;
    }

    stored-shortened : (j : ℕ) → stored f shortened j ≡ (if id == j then none else stored f x j)
    unfolding shortened stored
    stored-shortened j = elim (Option-cases (Assoc.find j x.positions)) [
      | inl e ↦ ground (arith, find-erase id j x.positions valid.distinct)
      | inr (i, e) ↦ ground (
        arith,
        find-erase id j x.positions valid.distinct,
        column-take (values f) x.records (length x.records - 1) i,
        valid.placed j i e,
        valid.placed id index found,
        column_bound (ids f) x.records i (valid.placed j i e),
      )
    ]

  -- The last record takes the place of the one that goes.
  filled : VectorRecord f → BruteForceIndex f
  filled m = record x {
    records = take (length (set x.records index m) - 1) (set x.records index m);
    positions = Assoc.erase id (Assoc.assign m.id index x.positions);
  }

  module _ (m : VectorRecord f) (inside : index < length x.records - 1)
      (last : get_elem? x.records (length x.records - 1) ≡ some m) where
    abbrev moved_positions : Assoc.Assoc ℕ
    moved_positions = Assoc.assign m.id index x.positions

    moved-DistinctKeys : DistinctKeys moved_positions
    moved-DistinctKeys = assign-DistinctKeys m.id index x.positions valid.distinct

    filled-IsValid : IsValid f (filled m)
    unfolding filled
    filled-IsValid = record {
      distinct = erase-DistinctKeys id moved_positions moved-DistinctKeys;
      placed = λ j i e. ground (
        arith,
        find-erase id j moved_positions moved-DistinctKeys,
        find-assign m.id j index x.positions,
        column-take (ids f) (set x.records index m) (length (set x.records index m) - 1) i,
        length-set x.records index m,
        column-set (ids f) x.records index m i,
        column-get (ids f) x.records (length x.records - 1) m last,
        valid.placed j i,
        valid.placed id index found,
        λ (p : id_at f x.records i ≡ some j). column_bound (ids f) x.records i p,
      );
      indexed = λ j i e. ground (
        arith,
        find-erase id j moved_positions moved-DistinctKeys,
        find-assign m.id j index x.positions,
        column-take (ids f) (set x.records index m) (length (set x.records index m) - 1) i,
        length-set x.records index m,
        column-set (ids f) x.records index m i,
        valid.indexed m.id (length x.records - 1)
            (column-get (ids f) x.records (length x.records - 1) m last),
        valid.indexed j i,
        found,
      );
      shaped = All-take (IsShaped f x.dim) _ (set x.records index m) (
          All-set (IsShaped f x.dim) x.records index m valid.shaped
            (All-get_elem? (IsShaped f x.dim) x.records _ m valid.shaped last));
    }

    stored-filled : (j : ℕ) → stored f (filled m) j ≡ (if id == j then none else stored f x j)
    unfolding filled stored
    stored-filled j = elim (Option-cases (Assoc.find j x.positions)) [
      | inl e ↦ ground (
        arith,
        find-erase id j moved_positions moved-DistinctKeys,
        find-assign m.id j index x.positions,
        valid.indexed m.id (length x.records - 1)
            (column-get (ids f) x.records (length x.records - 1) m last),
      )
      | inr (i, e) ↦ ground (
        arith,
        find-erase id j moved_positions moved-DistinctKeys,
        find-assign m.id j index x.positions,
        valid.indexed m.id (length x.records - 1)
            (column-get (ids f) x.records (length x.records - 1) m last),
        column-take (values f) (set x.records index m) (length (set x.records index m) - 1) i,
        column-take (values f) (set x.records index m) (length (set x.records index m) - 1) index,
        length-set x.records index m,
        column-set (values f) x.records index m i,
        column-set (values f) x.records index m index,
        column-get (values f) x.records (length x.records - 1) m last,
        column-get (ids f) x.records (length x.records - 1) m last,
        valid.placed j i e,
        valid.placed id index found,
        column_bound (ids f) x.records i (valid.placed j i e),
      )
    ]

-- `erase` keeps the index valid, and removes the given id alone.
pub erase_lem :
    (f : Floats) (id : ℕ) (x : BruteForceIndex f)
    → IsValid f x
    → IsValid f (erase f id x)
      × ((j : ℕ) → stored f (erase f id x) j ≡ (if id == j then none else stored f x j))
unfolding erase remove_at
erase_lem f id x valid = elim (Option-cases (Assoc.find id x.positions)) [
  | inl e ↦ rw (e, erase) (valid, λ j. unfold stored in ground arith)
  | inr (index, e) ↦ elim (Bool-cases (index == (length x.records - 1))) [
    | inl at_end ↦
        let p : index ≡ length x.records - 1 = (==_iff _ _).0 at_end in
        rw (e, erase)
          (rw at_end (
            unfold shortened drop_last in
            (shortened-IsValid f id index x valid e p, stored-shortened f id index x valid e p)))
    | inr inner ↦
        let lt : index < length x.records - 1 = ground (arith, index_bound f id index x valid e) in
        let (m, last) = get_elem?-lt x.records (length x.records - 1) (omega arith) in
        rw (e, erase)
          (rw inner (
            rw (last, move_last)
              (unfold filled drop_last move_last in
                (
                  filled-IsValid f id index x valid e m lt last,
                  stored-filled f id index x valid e m lt last,
                ))))
  ]
]
