-- ===== src/Healthcheck/Agreement.antt =====
-- The two readings of a health rule agree.
use cartographer.Prelude.{◌≡◌, Option, some, arith}
use cartographer.Prelude.Result.{ok}
use cartographer.Selector.{Selectable}
use cartographer.Statuses.{RealizedResource}
use cartographer.Validation.Template.{
  HealthRule, validate_health_rule, HasOneForm, always, single, multi,
  validate_health_rule-HasOneForm,
}
use cartographer.Healthcheck.{
  Reading, determine_health_condition, determine_stamped_object_health, health_of_stamped,
  healthy_condition,
}

module _ {Obj : Type 0} (sel : Selectable Obj) (reading : Reading Obj) where
  of_form :
      (rule : HealthRule) (resource : Option RealizedResource) (obj : Obj)
      → HasOneForm rule
      → determine_stamped_object_health sel reading (some rule) (some obj)
        ≡ some (determine_health_condition sel reading (some rule) resource (some obj)).status
  unfolding determine_stamped_object_health determine_health_condition health_of_stamped
      healthy_condition
  of_form rule resource obj (always a s m) = ground arith
  of_form rule resource obj (single a s m) = ground arith
  of_form rule resource obj (multi r a s m u h) = ground arith

  -- For a health rule that admission accepts and a stamped object, the health of the object is found
  -- without a panic, and is the status of the condition that the resource gets.
  pub determine_stamped_object_health_agrees :
      (rule : HealthRule) (resource : Option RealizedResource) (obj : Obj)
      → validate_health_rule rule ≡ ok tt
      → determine_stamped_object_health sel reading (some rule) (some obj)
        ≡ some (determine_health_condition sel reading (some rule) resource (some obj)).status
  determine_stamped_object_health_agrees rule resource obj h =
      of_form rule resource obj (validate_health_rule-HasOneForm rule h)
