-- ===== src/Statuses/Tests.antt =====
-- Runs of the statuses, with one resource that is submitted and healthy.
use cartographer.Prelude.{
  ℕ, ◌≡◌, refl, Bool, false, none, some, [], ◌∷◌, ◌↔◌, ◌==◌, All, String, if◌then◌else◌,
}
use cartographer.Conditions.{Condition, status_true, Manager}
use cartographer.Conditions.Stable.{IsDistinct}
use cartographer.Statuses.{
  RealizedResource, new_resource_statuses, is_changed, get_current, get_previous_resource_status,
  create_conditions, add, resource_submitted_condition, additions,
}
use cartographer.Statuses.Changes.{IsSettled, is_changed-IsSettled}
use cartographer.Statuses.Record.{current_of, current_of-add}
use cartographer.Statuses.Settled.{additions_of, realized, realized_again}

abbrev on_error : Bool → String → Manager → Manager
on_error is_owner e m = m

abbrev healthy : Condition
healthy = record {
  type = "Healthy";
  status = status_true;
  observed_generation = 0;
  last_transition_time = 0;
  reason = "OutputsAvailable";
  message = "";
}

abbrev image : RealizedResource
image = record {
  name = "image";
  stamped_ref = none;
  template_ref = none;
  inputs = none;
  outputs = none;
}

abbrev morning : ℕ → ℕ
morning i = i

abbrev evening : ℕ → ℕ
evening i = 100

distinct : IsDistinct (additions_of morning false (healthy ∷ []))
unfolding additions_of additions resource_submitted_condition
distinct = ((refl, tt), (tt, tt))

apart : All (λ b. (b.condition.type == "Ready") ≡ false) (additions_of morning false (healthy ∷ []))
unfolding additions_of additions resource_submitted_condition
apart = (refl, (refl, tt))

realized_again_example :
    (get_current (
        add on_error evening image none false
          (healthy ∷ [])
          (new_resource_statuses (realized on_error morning image none false (healthy ∷ []) ∷ [])))
      ≡ realized on_error morning image none false (healthy ∷ []) ∷ [])
    × (is_changed (
          add on_error evening image none false (healthy ∷ []) (
            new_resource_statuses (realized on_error morning image none false (healthy ∷ []) ∷ [])))
        ≡ false)
realized_again_example =
    realized_again on_error morning evening image false (healthy ∷ []) none distinct apart

is_changed-IsSettled_example :
    (is_changed (add on_error morning image none false [] []) ≡ false)
    ↔ All IsSettled (add on_error morning image none false [] [])
is_changed-IsSettled_example = is_changed-IsSettled (add on_error morning image none false [] [])

current_of-add_example :
    (current_of "image" (add on_error morning image none false (healthy ∷ []) []) ≡ (
      if image.name == "image"
      then some (record {
        realized_resource = image;
        conditions =
            (create_conditions on_error morning
              (get_previous_resource_status image.name [])
              none
              false
              (healthy ∷ [])).conditions;
      })
      else current_of "image" []))
    × (get_previous_resource_status "image"
          (add on_error morning image none false (healthy ∷ []) [])
        ≡ get_previous_resource_status "image" [])
current_of-add_example = current_of-add on_error morning image none false (healthy ∷ []) [] "image"
