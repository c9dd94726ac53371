-- ===== src/Selector/Best.antt =====
-- `BestSelectorMatchIndices` returns the most specific matching selectors.
use cartographer.Prelude.{
  ℕ, zero, suc, ◌≤◌, ◌+◌, ◌≡◌, refl, ap, ◌↔◌, ◌⊎◌, inl, inr, Bool, true, String, max, Option, none,
  some, List, [], ◌∷◌, ◌++◌, get_elem?, arith,
}
use native.Mathlib.Decide.{dec_le}
use cartographer.Prelude.Dict.{Dict}
use cartographer.Prelude.Result.{Result, ok, err, ◌>>=◌, Result-cases}
use cartographer.Selector.{
  Selectable, LabelSelector, Selector, SelectorError, IndexedError, match_score, best_loop,
  best_selector_match_indices,
}
use cartographer.Selector.Scores.{
  top, positions, one_pass, one_pass_lem, listed, listed-positions, All-le-top, top-ge,
}

abbrev map_option {ℓ κ} : {A : Type ℓ} {B : Type κ} → (A → B) → Option A → Option B
map_option f none = none
map_option f (some a) = some (f a)

top_attained :
    (high : ℕ) (ss : List (Option ℕ))
    → (top high ss ≡ high) ⊎ ((j : ℕ) × (get_elem? ss j ≡ some (some (top high ss))))
unfolding top
top_attained high [] = inl refl
top_attained high (none ∷ rest) = elim (top_attained high rest) [
  | inl e ↦ inl e
  | inr (j, e) ↦ inr (suc j, e)
]
top_attained high (some score ∷ rest) = elim (top_attained (max high score) rest) [
  | inl e ↦ new_top e (dec_le score high)
  | inr (j, e) ↦ inr (suc j, e)
]
  where
    new_top :
        top (max high score) rest ≡ max high score
        → Dec (score ≤ high)
        → (top (max high score) rest ≡ high)
          ⊎ ((j : ℕ) × (get_elem? (some score ∷ rest) j ≡ some (some (top (max high score) rest))))
    new_top e (yes p) = inl (omega arith)
    new_top e (no p) = inr (0, ap (λ t. some (some t)) (omega arith))

module _ {Obj : Type 0} (sel : Selectable Obj)
    (as_selector : LabelSelector → Result String (Dict String → Bool)) (obj : Obj) where
  -- The score of each selector, or the first error with its index.
  pub scores : ℕ → List Selector → Result IndexedError (List (Option ℕ))
  scores idx [] = ok []
  scores idx (s ∷ rest) = elim (match_score sel as_selector obj s) [
    | err e ↦ err (record { error = e; selecting_object_index = idx })
    | ok v ↦ (scores (suc idx) rest >>= λ vs. ok (v ∷ vs))
  ]

  module _ (idx : ℕ) (s : Selector) (rest : List Selector)
      (ih : (high : ℕ) (best : List ℕ)
        → best_loop sel as_selector obj (suc idx) rest high best
          ≡ (scores (suc idx) rest >>= λ ss. ok (one_pass (suc idx) ss high best))) where
    best_loop-scores_step :
        (r : Result SelectorError (Option ℕ))
        → match_score sel as_selector obj s ≡ r
        → (high : ℕ) (best : List ℕ)
        → best_loop sel as_selector obj idx (s ∷ rest) high best
          ≡ (scores idx (s ∷ rest) >>= λ ss. ok (one_pass idx ss high best))
    unfolding best_loop scores one_pass
    best_loop-scores_step (err e) m high best = ground arith
    best_loop-scores_step (ok none) m high best = ground (arith, ih high best)
    best_loop-scores_step (ok (some score)) m high best =
        ground (arith, ih high best, ih high (best ++ idx ∷ []), ih score (idx ∷ []))

  best_loop-scores :
      (sels : List Selector) (idx high : ℕ) (best : List ℕ)
      → best_loop sel as_selector obj idx sels high best
        ≡ (scores idx sels >>= λ ss. ok (one_pass idx ss high best))
  unfolding best_loop scores one_pass
  best_loop-scores [] idx high best = refl
  best_loop-scores (s ∷ rest) idx high best =
      best_loop-scores_step idx s rest (best_loop-scores rest (suc idx))
        (match_score sel as_selector obj s) refl high best

  one_pass-eq-positions : (ss : List (Option ℕ)) → one_pass 0 ss 1 [] ≡ positions (top 1 ss) 0 ss
  one_pass-eq-positions ss = ground (arith, one_pass_lem 0 ss 1 [])

  -- The one-pass loop returns what two passes do: the error of the first selector that has one,
  -- or the positions, in order, of the highest score that is at least 1.
  pub best_selector_match_indices-two_pass :
      (sels : List Selector)
      → best_selector_match_indices sel as_selector obj sels
        ≡ (scores 0 sels >>= λ ss. ok (positions (top 1 ss) 0 ss))
  unfolding best_selector_match_indices
  best_selector_match_indices-two_pass sels = elim (Result-cases (scores 0 sels)) [
    | inl (ss, e) ↦ ground (arith, best_loop-scores sels 0 1 [], one_pass-eq-positions ss)
    | inr (e', e) ↦ ground (arith, best_loop-scores sels 0 1 [])
  ]

  -- The score of the selector at an index.
  abbrev pub score_at : List Selector → ℕ → Option (Result SelectorError (Option ℕ))
  score_at sels i = map_option (match_score sel as_selector obj) (get_elem? sels i)

  pub scores-cons :
      (s : Selector) (rest : List Selector) (idx : ℕ) (ss : List (Option ℕ))
      → scores idx (s ∷ rest) ≡ ok ss
      → (v : Option ℕ) × (vs : List (Option ℕ)) × (match_score sel as_selector obj s ≡ ok v)
        × (scores (suc idx) rest ≡ ok vs)
        × (ss ≡ v ∷ vs)
  unfolding scores
  scores-cons s rest idx ss h = elim (Result-cases (match_score sel as_selector obj s)) [
    | inl (v, m) ↦ elim (Result-cases (scores (suc idx) rest)) [
      | inl (vs, e) ↦ (v, vs, m, e, ground arith)
      | inr (e', e) ↦ absurd (ground arith)
    ]
    | inr (e', m) ↦ absurd (ground arith)
  ]

  pub scores-nil : (idx : ℕ) → scores idx [] ≡ ok []
  unfolding scores
  scores-nil idx = refl

  -- An error is that of the first selector, or of a later one.
  pub scores-cons_err :
      (s : Selector) (rest : List Selector) (idx : ℕ) (e : IndexedError)
      → scores idx (s ∷ rest) ≡ err e
      → ((match_score sel as_selector obj s ≡ err e.error) × (e.selecting_object_index ≡ idx))
        ⊎ (scores (suc idx) rest ≡ err e)
  unfolding scores
  scores-cons_err s rest idx e h = elim (Result-cases (match_score sel as_selector obj s)) [
    | inl (v, m) ↦ elim (Result-cases (scores (suc idx) rest)) [
      | inl (vs, r) ↦ absurd (ground arith)
      | inr (e', r) ↦ inr (ground arith)
    ]
    | inr (e', m) ↦ inl (ground arith, ground arith)
  ]

  scores-score_at :
      (sels : List Selector) (idx : ℕ) (ss : List (Option ℕ)) (i : ℕ)
      → scores idx sels ≡ ok ss
      → score_at sels i ≡ map_option ok (get_elem? ss i)
  unfolding scores
  scores-score_at [] idx ss i h = ground arith
  scores-score_at (s ∷ rest) idx ss zero h =
      let (v, vs, m, later, split) = scores-cons s rest idx ss h in rw split (rw m)
  scores-score_at (s ∷ rest) idx ss (suc i) h =
      let (v, vs, m, later, split) = scores-cons s rest idx ss h in
      rw split (scores-score_at rest (suc idx) vs i later)

  -- A selector that matches with a score of at least 1, and that no matching one exceeds.
  pub record IsMostSpecific (sels : List Selector) (i : ℕ) : Type 0 where
    pub score : ℕ
    pub matching : score_at sels i ≡ some (ok (some score))
    pub positive : 1 ≤ score
    pub highest : (j t : ℕ) → score_at sels j ≡ some (ok (some t)) → t ≤ score

  module _ (sels : List Selector) (ss : List (Option ℕ)) (e : scores 0 sels ≡ ok ss) where
    score_found : (j t : ℕ) → get_elem? ss j ≡ some (some t) → score_at sels j ≡ some (ok (some t))
    score_found j t h = ground (arith, scores-score_at sels 0 ss j e)

    score_sought : (j t : ℕ) → score_at sels j ≡ some (ok (some t)) → get_elem? ss j ≡ some (some t)
    score_sought j t h = ground (arith, scores-score_at sels 0 ss j e)

    top-IsMostSpecific : (i : ℕ) → get_elem? ss i ≡ some (some (top 1 ss)) → IsMostSpecific sels i
    top-IsMostSpecific i h = record {
      score = top 1 ss;
      matching = score_found i (top 1 ss) h;
      positive = top-ge 1 ss;
      highest = λ j t m. All-le-top 1 ss j t (score_sought j t m);
    }

    IsMostSpecific-top : (i : ℕ) → IsMostSpecific sels i → get_elem? ss i ≡ some (some (top 1 ss))
    IsMostSpecific-top i b = elim (top_attained 1 ss) [
      | inl low ↦ ground (arith, own, le_top)
      | inr (j, at) ↦
          ground (arith, own, le_top, b.highest j (top 1 ss) (score_found j (top 1 ss) at))
    ]
      where
        own : get_elem? ss i ≡ some (some b.score)
        own = score_sought i b.score b.matching

        le_top : b.score ≤ top 1 ss
        le_top = All-le-top 1 ss i b.score own

    positions-IsMostSpecific :
        (i : ℕ) → (listed i (positions (top 1 ss) 0 ss) ≡ true) ↔ IsMostSpecific sels i
    positions-IsMostSpecific i =
        let here : 0 + i ≡ i = omega arith in
        let found = rw here at (listed-positions (top 1 ss) 0 ss i) in
        (λ h. top-IsMostSpecific i (found.0 h), λ b. found.1 (IsMostSpecific-top i b))

  -- Where the selection succeeds, an index is returned exactly if its selector matches with a score of
  -- at least 1, and no other selector matches with a higher one.
  pub best_selector_match_indices-IsMostSpecific :
      (sels : List Selector) (r : List ℕ)
      → best_selector_match_indices sel as_selector obj sels ≡ ok r
      → (i : ℕ) → (listed i r ≡ true) ↔ IsMostSpecific sels i
  best_selector_match_indices-IsMostSpecific sels r h i = elim (Result-cases (scores 0 sels)) [
    | inl (ss, e) ↦
        let found = positions-IsMostSpecific sels ss e i in
        let same : r ≡ positions (top 1 ss) 0 ss =
          ground (arith, best_selector_match_indices-two_pass sels) in
        rw same found
    | inr (e', e) ↦ absurd (ground (arith, best_selector_match_indices-two_pass sels))
  ]
