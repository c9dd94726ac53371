-- ===== src/Selector/Choice.antt =====
-- pkg/repository/selector_matcher.go: the blueprints whose selector matches an object best.
use cartographer.Prelude.{
  ℕ, zero, suc, eqb, ap, if◌then◌else◌, ◌+◌, ◌≡◌, refl, ◌∙◌, ◌⊎◌, inl, inr, Bool, String, Option,
  none, some, List, [], ◌∷◌, map, get_elem?, arith, length,
}
use cartographer.Prelude.Dict.{Dict}
use cartographer.Prelude.Result.{Result, ok, err, Result-cases}
use cartographer.Selector.{
  Selectable, FieldSelectorRequirement, LabelRequirement, LabelSelector, Selector, SelectorError,
  IndexedError, match_score, best_selector_match_indices,
}
use cartographer.Selector.Scores.{top, positions}
use cartographer.Selector.Best.{
  scores, scores-cons, scores-cons_err, scores-nil, best_selector_match_indices-two_pass,
}

-- v1alpha1.LegacySelector
pub record LegacySelector : Type 0 where
  pub selector : Dict String
  pub selector_match_expressions : List LabelRequirement
  pub selector_match_fields : List FieldSelectorRequirement

-- The `SelectingObject` interface: a supply chain or a delivery.
pub record SelectingObject : Type 0 where
  pub kind : String
  pub name : String
  pub selectors : LegacySelector

unfoldable pub legacy_selector_to_selector : LegacySelector → Selector
legacy_selector_to_selector legacy = record {
  label_selector = record {
    match_labels = legacy.selector;
    match_expressions = legacy.selector_match_expressions;
  };
  match_fields = legacy.selector_match_fields;
}

unfoldable pub selecting_objects_selectors : List SelectingObject → List Selector
unfolding legacy_selector_to_selector
selecting_objects_selectors objects = map (λ o. legacy_selector_to_selector o.selectors) objects

-- "error handling selectors … of [kind/name]"
pub record SelectionError : Type 0 where
  pub target_kind : String
  pub target_name : String
  pub cause : SelectorError

-- `objects[i]` for each index; an index out of range panics, `none`.
unfoldable pub select_all {ℓ} : {A : Type ℓ} → List A → List ℕ → Option (List A)
select_all xs [] = some []
select_all xs (i ∷ is) = elim (get_elem? xs i) [
  | none ↦ none
  | some x ↦ elim (select_all xs is) [ none ↦ none | some ys ↦ some (x ∷ ys) ]
]

abbrev found {ℓ} : {A : Type ℓ} → Option (List A) → Option (Result SelectionError (List A))
found none = none
found (some xs) = some (ok xs)

abbrev blame :
    Option SelectingObject → SelectorError → Option (Result SelectionError (List SelectingObject))
blame none e = none
blame (some o) e = some (err (record { target_kind = o.kind; target_name = o.name; cause = e }))

module _ {Obj : Type 0} (sel : Selectable Obj)
    (as_selector : LabelSelector → Result String (Dict String → Bool)) where
  -- `none` is a panic.
  pub best_selector_match :
      Obj → List SelectingObject → Option (Result SelectionError (List SelectingObject))
  unfolding selecting_objects_selectors select_all
  best_selector_match obj objects =
      elim (best_selector_match_indices sel as_selector obj (selecting_objects_selectors objects)) [
        | err e ↦ blame (get_elem? objects e.selecting_object_index) e.error
        | ok indices ↦ found (select_all objects indices)
      ]

-- The objects whose selectors have a score.
pub pick {ℓ} : {A : Type ℓ} → ℕ → List A → List (Option ℕ) → List A
pick score [] ss = []
pick score (x ∷ xs) [] = []
pick score (x ∷ xs) (none ∷ ss) = pick score xs ss
pick score (x ∷ xs) (some s ∷ ss) =
    let rest = pick score xs ss in if eqb s score then x ∷ rest else rest

shift :
    {A : Type 0} (all : List A) (x : A) (xs : List A) (idx : ℕ)
    → ((i : ℕ) → get_elem? all (idx + i) ≡ get_elem? (x ∷ xs) i)
    → (i : ℕ) → get_elem? all (suc idx + i) ≡ get_elem? xs i
shift all x xs idx same i = let e : suc idx + i ≡ idx + suc i = omega arith in rw e (same (suc i))

module _ {A : Type 0} (all : List A) (score : ℕ) where
  pub select_all-positions :
      (xs : List A) (idx : ℕ) (ss : List (Option ℕ))
      → length ss ≡ length xs
      → ((i : ℕ) → get_elem? all (idx + i) ≡ get_elem? xs i)
      → select_all all (positions score idx ss) ≡ some (pick score xs ss)
  unfolding positions select_all pick
  select_all-positions [] idx [] h same = refl
  select_all-positions (x ∷ xs) idx [] h same = refl
  select_all-positions [] idx (s ∷ ss) h same = absurd (omega arith)
  select_all-positions (x ∷ xs) idx (none ∷ ss) h same =
      select_all-positions xs (suc idx) ss (omega arith) (shift all x xs idx same)
  select_all-positions (x ∷ xs) idx (some s ∷ ss) h same =
      ground (
        arith,
        select_all-positions xs (suc idx) ss (omega arith) (shift all x xs idx same),
        same 0,
      )

module _ {Obj : Type 0} (sel : Selectable Obj)
    (as_selector : LabelSelector → Result String (Dict String → Bool)) (obj : Obj) where
  pub length-scores :
      (sels : List Selector) (idx : ℕ) (ss : List (Option ℕ))
      → scores sel as_selector obj idx sels ≡ ok ss
      → length ss ≡ length sels
  length-scores [] idx ss h = ground (arith, scores-nil sel as_selector obj idx)
  length-scores (s ∷ rest) idx ss h =
      let (v, vs, m, later, split) = scores-cons sel as_selector obj s rest idx ss h in
      rw split (ap suc (length-scores rest (suc idx) vs later))

  -- The selector that a failed selection names is there, and is in error.
  pub record Culprit (sels : List Selector) (idx : ℕ) (e : IndexedError) : Type 0 where
    pub at : ℕ
    pub index : e.selecting_object_index ≡ idx + at
    pub selector : Selector
    pub there : get_elem? sels at ≡ some selector
    pub fails : match_score sel as_selector obj selector ≡ err e.error

  pub scores-Culprit :
      (sels : List Selector) (idx : ℕ) (e : IndexedError)
      → scores sel as_selector obj idx sels ≡ err e
      → Culprit sels idx e
  scores-Culprit [] idx e h = absurd (ground (arith, scores-nil sel as_selector obj idx))
  scores-Culprit (s ∷ rest) idx e h = elim (scores-cons_err sel as_selector obj s rest idx e h) [
    | inl (m, i) ↦ record { at = 0; index = omega arith; selector = s; there = refl; fails = m }
    | inr later ↦
        let c = scores-Culprit rest (suc idx) e later in
        record {
          at = suc c.at;
          index = omega (arith, c.index);
          selector = c.selector;
          there = c.there;
          fails = c.fails;
        }
  ]

  -- The selection succeeded: it returns the objects whose selectors have the highest score.
  pub record IsSelected (objects : List SelectingObject)
      (r : Option (Result SelectionError (List SelectingObject))) : Type 0 where
    pub all_scores : List (Option ℕ)
    pub scored : scores sel as_selector obj 0 (selecting_objects_selectors objects) ≡ ok all_scores
    pub result : r ≡ some (ok (pick (top 1 all_scores) objects all_scores))

  -- The selection failed: the error names an object whose own selector is in error.
  pub record IsBlamed (objects : List SelectingObject)
      (r : Option (Result SelectionError (List SelectingObject))) : Type 0 where
    pub at : ℕ
    pub object : SelectingObject
    pub error : SelectorError
    pub there : get_elem? objects at ≡ some object
    pub fails :
        match_score sel as_selector obj (legacy_selector_to_selector object.selectors) ≡ err error
    pub result :
        r
        ≡ some
            (err (record { target_kind = object.kind; target_name = object.name; cause = error }))

  selector_of_object :
      (objects : List SelectingObject) (i : ℕ) (s : Selector)
      → get_elem? (selecting_objects_selectors objects) i ≡ some s
      → (o : SelectingObject) × (get_elem? objects i ≡ some o)
        × (legacy_selector_to_selector o.selectors ≡ s)
  unfolding selecting_objects_selectors
  selector_of_object [] i s h = absurd (ground arith)
  selector_of_object (o ∷ os) zero s h = (o, refl, ground arith)
  selector_of_object (o ∷ os) (suc i) s h = selector_of_object os i s h

  length-selectors :
      (objects : List SelectingObject)
      → length (selecting_objects_selectors objects) ≡ length objects
  unfolding selecting_objects_selectors
  length-selectors [] = refl
  length-selectors (o ∷ os) = ap suc (length-selectors os)

  -- The selection never panics. Either every selector has a score, and the objects with the
  -- highest one, which is at least 1, are returned in their order; or the error names the kind and
  -- the name of an object whose selector is in error.
  pub best_selector_match_total :
      (objects : List SelectingObject)
      → IsSelected objects (best_selector_match sel as_selector obj objects)
        ⊎ IsBlamed objects (best_selector_match sel as_selector obj objects)
  unfolding best_selector_match
  best_selector_match_total objects =
      let sels = selecting_objects_selectors objects in
      elim (Result-cases (scores sel as_selector obj 0 sels)) [
        | inl (ss, e) ↦
            let chosen =
              select_all-positions objects (top 1 ss) objects 0 ss
                (length-scores sels 0 ss e ∙ length-selectors objects)
                (λ i. ap (get_elem? objects) (omega arith)) in
            inl (record {
              all_scores = ss;
              scored = e;
              result =
                  ground
                    (arith, best_selector_match_indices-two_pass sel as_selector obj sels, chosen);
            })
        | inr (x, e) ↦
            let c = scores-Culprit sels 0 x e in
            let (o, there, same) = selector_of_object objects c.at c.selector c.there in
            let two : best_selector_match_indices sel as_selector obj sels ≡ err x =
              ground (arith, best_selector_match_indices-two_pass sel as_selector obj sels) in
            let here : get_elem? objects x.selecting_object_index ≡ some o =
              ap (get_elem? objects) (omega (arith, c.index)) ∙ there in
            inr (record {
              at = c.at;
              object = o;
              error = x.error;
              there = there;
              fails = rw same c.fails;
              result = ground arith;
            })
      ]
