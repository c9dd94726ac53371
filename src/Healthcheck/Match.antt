-- ===== src/Healthcheck/Match.antt =====
-- What a multi match decides.
use cartographer.Prelude.{
  ◌≡◌, Bool, ◌&&◌, ◌||◌, Option, none, some, List, [], ◌∷◌, any, all, is_some, arith, if◌then◌else◌,
  String, Option-cases, inl, inr,
}
use cartographer.Selector.{Selectable}
use cartographer.Conditions.{Status, status_true, status_false, status_unknown, Condition}
use cartographer.Validation.Template.{
  ConditionRequirement, HealthMatchField, HealthMatchRule, MultiMatchHealthRule,
}
use cartographer.Healthcheck.{
  Reading, condition_match, field_match, any_field, any_condition, any_unhealthy_match_condition,
  all_fields, all_conditions, all_healthy_match_condition, multi_match_condition, healthy_condition,
  message_for_matching_field_requirement, condition_message,
}

abbrev pub status_of : Option Condition → Option Status
status_of none = none
status_of (some c) = some c.status

module _ {Obj : Type 0} (sel : Selectable Obj) (reading : Reading Obj) (obj : Obj) where
  -- One requirement is met, or all of them are.
  abbrev pub meets_any : HealthMatchRule → Bool
  meets_any rule =
      any (λ r. is_some (condition_match sel reading r obj)) rule.match_conditions
      || any (λ f. field_match sel reading f obj) rule.match_fields

  abbrev pub meets_all : HealthMatchRule → Bool
  meets_all rule =
      all (λ r. is_some (condition_match sel reading r obj)) rule.match_conditions
      && all (λ f. field_match sel reading f obj) rule.match_fields

  any_field-status :
      (fs : List HealthMatchField)
      → status_of (any_field sel reading fs obj)
        ≡ (if any (λ f. field_match sel reading f obj) fs then some status_false else none)
  unfolding any_field healthy_condition
  any_field-status [] = ground arith
  any_field-status (f ∷ fs) = ground (arith, any_field-status fs)

  any_condition-status :
      (rs : List ConditionRequirement) (fs : List HealthMatchField)
      → status_of (any_condition sel reading rs fs obj) ≡ (
          if any (λ r. is_some (condition_match sel reading r obj)) rs
            || any (λ f. field_match sel reading f obj) fs
          then some status_false
          else none)
  unfolding any_condition healthy_condition
  any_condition-status [] fs = ground (arith, any_field-status fs)
  any_condition-status (r ∷ rs) fs = ground (arith, any_condition-status rs fs)

  all_fields-status :
      (fs : List HealthMatchField) (reason message : String)
      → status_of (all_fields sel reading fs obj reason message)
        ≡ (if all (λ f. field_match sel reading f obj) fs then some status_true else none)
  unfolding all_fields healthy_condition
  all_fields-status [] reason message = ground arith
  all_fields-status (f ∷ fs) reason message = ground (
    arith,
    all_fields-status fs reason message,
    all_fields-status fs "MatchedField" (message_for_matching_field_requirement sel reading f obj),
  )

  all_conditions-status :
      (rs : List ConditionRequirement) (fs : List HealthMatchField) (reason message : String)
      → status_of (all_conditions sel reading rs fs obj reason message) ≡ (
          if all (λ r. is_some (condition_match sel reading r obj)) rs
            && all (λ f. field_match sel reading f obj) fs
          then some status_true
          else none)
  unfolding all_conditions
  all_conditions-status [] fs reason message = ground (arith, all_fields-status fs reason message)
  all_conditions-status (r ∷ rs) fs reason message =
      elim (Option-cases (condition_match sel reading r obj)) [
        | inl e ↦ ground arith
        | inr (c, e) ↦ ground (
          arith,
          all_conditions-status rs fs reason message,
          all_conditions-status rs fs "MatchedCondition" (condition_message sel reading c),
        )
      ]

  -- A multi match is False where any unhealthy requirement is met; else True where all healthy ones
  -- are; else Unknown.
  pub multi_match_condition-status :
      (m : MultiMatchHealthRule)
      → (multi_match_condition sel reading m obj).status ≡ (
          if meets_any m.unhealthy
          then status_false
          else if meets_all m.healthy
          then status_true
          else status_unknown)
  unfolding multi_match_condition any_unhealthy_match_condition all_healthy_match_condition
      healthy_condition
  multi_match_condition-status m = ground (
    arith,
    any_condition-status m.unhealthy.match_conditions m.unhealthy.match_fields,
    all_conditions-status m.healthy.match_conditions m.healthy.match_fields "" "",
  )
