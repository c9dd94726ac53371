-- ===== src/Healthcheck/Tests.antt =====
-- Runs of the health check, on objects that are their status.
use cartographer.Prelude.{ℕ, ◌≡◌, refl, false, none, some, List, [], ◌∷◌, String, if◌then◌else◌}
use cartographer.Prelude.Json.{Json, null, object, field, end}
use cartographer.Prelude.Result.{ok}
use cartographer.Selector.{Selectable}
use cartographer.Conditions.{Condition, Status, status_true, status_false, status_unknown}
use cartographer.Statuses.{RealizedResource, ResourceStatus}
use cartographer.Validation.Template.{
  HealthRule, MultiMatchHealthRule, HealthMatchRule, validate_health_rule, validate_multi_match,
}
use cartographer.Healthcheck.{
  Reading, multi_match_condition, determine_health_condition, determine_stamped_object_health,
  owner_health_condition,
}
use cartographer.Healthcheck.Agreement.{determine_stamped_object_health_agrees}
use cartographer.Healthcheck.Match.{meets_any, meets_all, multi_match_condition-status}
use cartographer.Healthcheck.Owner.{IsOwnerHealth, owner_health_condition_total}

abbrev condition : String → Status → Condition
condition type status = record {
  type = type;
  status = status;
  observed_generation = 0;
  last_transition_time = 0;
  reason = "";
  message = "";
}

abbrev by_status : Selectable Json
by_status = record { get_labels = λ o. []; evaluate = λ path o. ok (o ∷ []) }

-- Every object that has conditions is built.
abbrev reading : Reading Json
reading = record {
  status = λ o. o;
  decode_conditions = λ v. some (condition "Built" status_true ∷ []);
  show = λ v. "value";
}

abbrev built : Json
built = object (field "conditions" null end)

abbrev rule_of : Status → HealthMatchRule
rule_of status = record {
  match_conditions = record { type = "Built"; status = status } ∷ [];
  match_fields = [];
}

abbrev matching : MultiMatchHealthRule
matching = record { healthy = rule_of status_true; unhealthy = rule_of status_false }

abbrev rule : HealthRule
rule = record { always_healthy = false; single_condition_type = ""; multi_match = some matching }

rule_passes : validate_health_rule rule ≡ ok tt
unfolding validate_health_rule validate_multi_match
rule_passes = refl

determine_stamped_object_health_agrees_example :
    determine_stamped_object_health by_status reading (some rule) (some built)
    ≡ some (determine_health_condition by_status reading (some rule) none (some built)).status
determine_stamped_object_health_agrees_example =
    determine_stamped_object_health_agrees by_status reading rule none built rule_passes

multi_match_condition-status_example :
    (multi_match_condition by_status reading matching built).status ≡ (
      if meets_any by_status reading built matching.unhealthy
      then status_false
      else if meets_all by_status reading built matching.healthy
      then status_true
      else status_unknown)
multi_match_condition-status_example = multi_match_condition-status by_status reading built matching

abbrev image : RealizedResource
image = record {
  name = "image";
  stamped_ref = none;
  template_ref = none;
  inputs = none;
  outputs = none;
}

abbrev statuses : List ResourceStatus
statuses =
    record { realized_resource = image; conditions = condition "Healthy" status_false ∷ [] } ∷ []

abbrev clock : ℕ → ℕ
clock i = i

owner_health_condition_total_example :
    (c : Condition) × (owner_health_condition clock statuses [] ≡ some c) × IsOwnerHealth statuses c
owner_health_condition_total_example = owner_health_condition_total clock statuses []
