-- ===== src/Realizer/Options.antt =====
-- Which template realizes a resource.
use cartographer.Prelude.{
  ℕ, zero, suc, ◌≡◌, ◌≢◌, sym, subst, refl, ap, ◌∙◌, ◌⊎◌, inl, inr, Bool, String, Option, some,
  List, [], ◌∷◌, map, get_elem?, length, arith,
}
use cartographer.Prelude.Dict.{Dict}
use cartographer.Prelude.Result.{Result, ok, err, Result-cases}
use cartographer.Selector.{
  Selectable, LabelSelector, Selector, SelectorError, match_score, best_selector_match_indices,
}
use cartographer.Selector.Scores.{top}
use cartographer.Selector.Best.{scores, best_selector_match_indices-two_pass}
use cartographer.Selector.Choice.{pick, select_all-positions, length-scores, scores-Culprit}
use cartographer.Validation.{TemplateOption}
use cartographer.Realizer.{
  OptionError, resolve_template_option, template_options_match, only_one, choose_from, unresolved,
  find_matching_template_option,
}

selectors : List TemplateOption → List Selector
selectors options = map (λ (o : TemplateOption). o.selector) options

length-selectors : (options : List TemplateOption) → length (selectors options) ≡ length options
unfolding selectors
length-selectors [] = refl
length-selectors (o ∷ os) = ap suc (length-selectors os)

option_at :
    (options : List TemplateOption) (i : ℕ) (s : Selector)
    → get_elem? (selectors options) i ≡ some s
    → (o : TemplateOption) × (get_elem? options i ≡ some o) × (o.selector ≡ s)
unfolding selectors
option_at [] i s h = absurd (ground arith)
option_at (o ∷ os) zero s h = (o, refl, ground arith)
option_at (o ∷ os) (suc i) s h = option_at os i s h

-- A single option is chosen; with none or several, the error names them all.
unfoldable pub IsChoice : List TemplateOption → Option (Result OptionError TemplateOption) → Type 0
IsChoice best r =
    ((o : TemplateOption) × (best ≡ o ∷ []) × (r ≡ some (ok o)))
    ⊎ (length best ≢ 1)
      × (r ≡ some (err (template_options_match (map (λ (o : TemplateOption). o.name) best))))

only_one-IsChoice : (best : List TemplateOption) → IsChoice best (some (only_one best))
unfolding IsChoice only_one
only_one-IsChoice [] = inr (λ h. absurd (ground (arith, h)), refl)
only_one-IsChoice (o ∷ []) = inl (o, refl, refl)
only_one-IsChoice (o ∷ p ∷ os) = inr (λ h. absurd (ground (arith, h)), refl)

module _ {Obj : Type 0} (sel : Selectable Obj)
    (as_selector : LabelSelector → Result String (Dict String → Bool)) (owner : Obj) where
  -- Every selector has a score: the single option with the highest one is chosen, if it is single.
  pub record IsResolved (options : List TemplateOption)
      (r : Option (Result OptionError TemplateOption)) : Type 0 where
    pub all_scores : List (Option ℕ)
    pub scored :
        scores sel as_selector owner 0 (map (λ (o : TemplateOption). o.selector) options)
        ≡ ok all_scores
    pub result : IsChoice (pick (top 1 all_scores) options all_scores) r

  -- A selector is in error: the error names its option.
  pub record IsUnresolved (options : List TemplateOption)
      (r : Option (Result OptionError TemplateOption)) : Type 0 where
    pub at : ℕ
    pub option : TemplateOption
    pub error : SelectorError
    pub there : get_elem? options at ≡ some option
    pub fails : match_score sel as_selector owner option.selector ≡ err error
    pub result : r ≡ some (err (resolve_template_option option.name error))

  -- The choice among template options never panics. Where every selector has a score, the option
  -- with the highest one, which is at least 1, is chosen if there is just one, and else the error
  -- names all that have it; where a selector is in error, the error names the option of that selector.
  pub find_matching_template_option_total :
      (options : List TemplateOption)
      → IsResolved options (find_matching_template_option sel as_selector options owner)
        ⊎ IsUnresolved options (find_matching_template_option sel as_selector options owner)
  unfolding find_matching_template_option choose_from unresolved selectors
  find_matching_template_option_total options =
      let sels = selectors options in
      elim (Result-cases (scores sel as_selector owner 0 sels)) [
        | inl (ss, e) ↦
            let chosen =
              select_all-positions options (top 1 ss) options 0 ss
                (length-scores sel as_selector owner sels 0 ss e ∙ length-selectors options)
                (λ i. ap (get_elem? options) (omega arith)) in
            inl (record {
              all_scores = ss;
              scored = e;
              result =
                  subst (IsChoice (pick (top 1 ss) options ss))
                    (sym (
                      ground (
                        arith,
                        best_selector_match_indices-two_pass sel as_selector owner sels,
                        chosen,
                      )))
                    (only_one-IsChoice (pick (top 1 ss) options ss));
            })
        | inr (x, e) ↦
            let c = scores-Culprit sel as_selector owner sels 0 x e in
            let (o, there, same) = option_at options c.at c.selector c.there in
            let two : best_selector_match_indices sel as_selector owner sels ≡ err x =
              ground (arith, best_selector_match_indices-two_pass sel as_selector owner sels) in
            let here : get_elem? options x.selecting_object_index ≡ some o =
              ap (get_elem? options) (omega (arith, c.index)) ∙ there in
            inr (record {
              at = c.at;
              option = o;
              error = x.error;
              there = there;
              fails = rw same c.fails;
              result = ground arith;
            })
      ]
