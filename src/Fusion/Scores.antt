-- ===== src/Fusion/Scores.antt =====
-- The score of a chunk: the sum, in order, of what its places in the rankings contribute.
use llamacodelab.Prelude.{
  ℕ, ◌+◌, ◌%◌, ◌^◌, ◌≡◌, refl, ◌≢◌, ◌∙◌, Option, none, some, List, [], ◌∷◌, ◌++◌, if◌then◌else◌,
  ◌==◌, sym, ap, subst, inl, inr, Bool-cases, Option-cases, ==_iff,
}
use llamacodelab.Prelude.Assoc.{Assoc, find, find-assign_self, find-assign_ne}
use llamacodelab.Domain.{Floats, SearchHit}
use llamacodelab.Fusion.{add_score, contribution, accumulate, accumulate_lists}

module _ (f : Floats) where
  open f use {Float, zero_f, one_f, less, add, divide, of_nat}

  -- What the places of `id` in one list contribute.
  unfoldable pub places : ℕ → ℕ → ℕ → List (SearchHit f) → List Float
  places rank_constant id index [] = []
  places rank_constant id index (hit ∷ hits) =
      let rest = places rank_constant id (index + 1) hits in
      if hit.chunk_id == id
      then divide one_f (of_nat ((rank_constant + index + 1) % 2 ^ 64)) ∷ rest
      else rest

  unfoldable pub all_places : ℕ → ℕ → List (List (SearchHit f)) → List Float
  all_places rank_constant id [] = []
  all_places rank_constant id (hits ∷ lists) =
      places rank_constant id 0 hits ++ all_places rank_constant id lists

  -- A sum from the left on; `none` is no entry.
  unfoldable pub sum_onto : Option Float → List Float → Option Float
  sum_onto s [] = s
  sum_onto none (x ∷ xs) = sum_onto (some (add zero_f x)) xs
  sum_onto (some s) (x ∷ xs) = sum_onto (some (add s x)) xs

  pub sum_onto-append :
      (s : Option Float) (xs ys : List Float) → sum_onto s (xs ++ ys) ≡ sum_onto (sum_onto s xs) ys
  unfolding sum_onto
  sum_onto-append s [] ys = refl
  sum_onto-append none (x ∷ xs) ys = sum_onto-append (some (add zero_f x)) xs ys
  sum_onto-append (some s) (x ∷ xs) ys = sum_onto-append (some (add s x)) xs ys

  pub find-add_score_self :
      (id : ℕ) (x : Float) (scores : Assoc Float)
      → find id (add_score f id x scores) ≡ sum_onto (find id scores) (x ∷ [])
  unfolding add_score sum_onto
  find-add_score_self id x scores = elim (Option-cases (find id scores)) [
    | inl e ↦ rw (e, add_score) (find-assign_self id (add zero_f x) scores)
    | inr (s, e) ↦ rw (e, add_score) (find-assign_self id (add s x) scores)
  ]

  pub find-add_score_ne :
      (id j : ℕ) (x : Float) (scores : Assoc Float)
      → id ≢ j
      → find j (add_score f id x scores) ≡ find j scores
  unfolding add_score
  find-add_score_ne id j x scores ne = elim (Option-cases (find id scores)) [
    | inl e ↦ rw (e, add_score) (find-assign_ne id j (add zero_f x) scores ne)
    | inr (s, e) ↦ rw (e, add_score) (find-assign_ne id j (add s x) scores ne)
  ]

  find-accumulate :
      (rank_constant index : ℕ) (hits : List (SearchHit f)) (scores : Assoc Float) (id : ℕ)
      → find id (accumulate f rank_constant index hits scores)
        ≡ sum_onto (find id scores) (places rank_constant id index hits)
  unfolding accumulate places contribution
  find-accumulate rank_constant index [] scores id = unfold sum_onto in refl
  find-accumulate rank_constant index (hit ∷ hits) scores id =
      let x = contribution f rank_constant index in
      let rest =
        find-accumulate rank_constant (index + 1) hits (add_score f hit.chunk_id x scores) id in
      let more = places rank_constant id (index + 1) hits in
      elim (Bool-cases (hit.chunk_id == id)) [
        | inl e ↦ rw e (
            rest
            ∙ ap (λ s. sum_onto s more)
                (subst
                  (λ j.
                    find j (add_score f hit.chunk_id x scores) ≡ sum_onto (find j scores) (x ∷ []))
                  ((==_iff _ _).0 e) (find-add_score_self hit.chunk_id x scores))
            ∙ sym (sum_onto-append (find id scores) (x ∷ []) more))
        | inr e ↦ rw e (
            rest
            ∙ ap (λ s. sum_onto s more)
                (find-add_score_ne hit.chunk_id id x scores (λ p. cc (e, (==_iff _ _).1 p))))
      ]

  find-accumulate_lists :
      (rank_constant : ℕ) (lists : List (List (SearchHit f))) (scores : Assoc Float) (id : ℕ)
      → find id (accumulate_lists f rank_constant lists scores)
        ≡ sum_onto (find id scores) (all_places rank_constant id lists)
  unfolding accumulate_lists all_places
  find-accumulate_lists rank_constant [] scores id = unfold sum_onto in refl
  find-accumulate_lists rank_constant (hits ∷ lists) scores id =
      find-accumulate_lists rank_constant lists (accumulate f rank_constant 0 hits scores) id
      ∙ ap (λ s. sum_onto s (all_places rank_constant id lists))
          (find-accumulate rank_constant 0 hits scores id)
      ∙ sym (sum_onto-append (find id scores) (places rank_constant id 0 hits) _)

  -- The entry of `id` is the sum of what all its places contribute, and there is none where `id` is
  -- in no list.
  pub find-scores :
      (rank_constant : ℕ) (lists : List (List (SearchHit f))) (id : ℕ)
      → find id (accumulate_lists f rank_constant lists [])
        ≡ sum_onto none (all_places rank_constant id lists)
  unfolding find
  find-scores rank_constant lists id = find-accumulate_lists rank_constant lists [] id
