-- ===== src/Statuses/Settled.antt =====
-- A resource that is realized again as before leaves its status as it is.
use cartographer.Prelude.{
  ℕ, suc, ◌≡◌, refl, sym, ap, ap₂, ◌∙◌, Bool, false, Option, none, some, List, [], ◌∷◌, ◌==◌, All,
  eq_refl, arith, length,
}
use cartographer.Conditions.{Condition, positive, Manager, Addition, Finalized, finalize, add_all}
use cartographer.Conditions.Summary.{gathered}
use cartographer.Conditions.Stable.{retime, IsDistinct}
use cartographer.Conditions.Stable.Repeat.{finalize_again}
use cartographer.Statuses.{
  RealizedResource, ResourceStatus, resource_submitted_condition, additions, create_conditions,
  first_conditions, previous_conditions, new_resource_statuses, is_changed, add, complete,
  get_current, same_resource, RealizedResource-discrete,
}
use cartographer.Prelude.Json.{deep_equal_iff}

times : (ℕ → ℕ) → ℕ → List Condition → List ℕ
times clock i [] = []
times clock i (c ∷ cs) = clock i ∷ times clock (suc i) cs

retime-additions :
    (clock clock' : ℕ → ℕ) (i : ℕ) (cs : List Condition)
    → retime (times clock' i cs) (additions clock i cs) ≡ additions clock' i cs
unfolding retime times additions
retime-additions clock clock' i [] = refl
retime-additions clock clock' i (c ∷ cs) =
    ap (λ as'. record { now = clock' i; condition = c; polarity = positive } ∷ as')
      (retime-additions clock clock' (suc i) cs)

-- The additions of a resource without an error.
unfoldable pub additions_of : (ℕ → ℕ) → Bool → List Condition → List Addition
additions_of clock is_pass_through further =
    additions clock 0 (resource_submitted_condition is_pass_through ∷ further)

module _ {Error : Type 0} (add_conditions_func : Bool → Error → Manager → Manager) where
  create_conditions-gathered :
      (clock : ℕ → ℕ) (previous : Option ResourceStatus) (is_pass_through : Bool)
      (further : List Condition)
      → create_conditions add_conditions_func clock previous none is_pass_through further
        ≡ finalize (clock (suc (length further))) (
            gathered "Ready"
              (previous_conditions previous)
              (additions_of clock is_pass_through further))
  unfolding create_conditions first_conditions additions_of additions add_all
  create_conditions-gathered clock previous is_pass_through further = refl

  abbrev pub realized :
      (ℕ → ℕ) → RealizedResource → Option ResourceStatus → Bool → List Condition → ResourceStatus
  realized clock resource previous is_pass_through further = record {
    realized_resource = resource;
    conditions =
        (create_conditions add_conditions_func clock previous none is_pass_through
          further).conditions;
  }

  module _ (clock clock' : ℕ → ℕ) (resource : RealizedResource) (is_pass_through : Bool)
      (further : List Condition) (previous : Option ResourceStatus)
      (distinct : IsDistinct (additions_of clock is_pass_through further))
      (apart : All
        (λ b. (b.condition.type == "Ready") ≡ false)
        (additions_of clock is_pass_through further)) where
    abbrev status : ResourceStatus
    status = realized clock resource previous is_pass_through further

    made_again :
        ((create_conditions add_conditions_func clock'
            (some status)
            none
            is_pass_through
            further).conditions
          ≡ status.conditions)
        × ((create_conditions add_conditions_func clock'
              (some status)
              none
              is_pass_through
              further).changed
            ≡ false)
    unfolding previous_conditions additions_of additions
    made_again =
        let now = clock (suc (length further)) in
        let submitted : Addition = record {
          now = clock 0;
          condition = resource_submitted_condition is_pass_through;
          polarity = positive;
        } in
        let again =
          finalize_again "Ready" (previous_conditions previous) submitted
            (additions clock 1 further) now distinct apart
            (times clock' 0 (resource_submitted_condition is_pass_through ∷ further))
            (clock' (suc (length further))) in
        let moved =
          retime-additions clock clock' 0
            (resource_submitted_condition is_pass_through ∷ further) in
        let first = create_conditions-gathered clock previous is_pass_through further in
        let second = create_conditions-gathered clock' (some status) is_pass_through further in
        let joined =
          second
          ∙ ap₂ (λ ps adds. finalize (clock' (suc (length further))) (gathered "Ready" ps adds))
              (ap (λ (f : Finalized). f.conditions) first) (sym moved) in
        (
          ap (λ (f : Finalized). f.conditions) joined
              ∙ again.0
              ∙ sym (ap (λ (f : Finalized). f.conditions) first),
          ap (λ (f : Finalized). f.changed) joined ∙ again.1,
        )

    -- A resource that is realized without an error, and then again as the same resource with the
    -- same further conditions, keeps its conditions, times included, and no change is reported; the
    -- types of its conditions are all different, and none is the type of the summary.
    pub realized_again :
        (get_current (
            add add_conditions_func clock' resource none is_pass_through further (
              new_resource_statuses
                (realized clock resource previous is_pass_through further ∷ [])))
          ≡ realized clock resource previous is_pass_through further ∷ [])
        × (is_changed (
              add add_conditions_func clock' resource none is_pass_through further (
                new_resource_statuses
                  (realized clock resource previous is_pass_through further ∷ [])))
            ≡ false)
    unfolding add complete new_resource_statuses get_current is_changed same_resource
    realized_again =
        let (same, quiet) = made_again in
        ground (
          arith,
          same,
          quiet,
          eq_refl resource.name,
          (deep_equal_iff RealizedResource-discrete resource resource).1 refl,
        )
