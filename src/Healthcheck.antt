-- ===== src/Healthcheck.antt =====
-- pkg/realizer/healthcheck/healthcheck.go, with pkg/utils/unstructured.go and the conditions of
-- pkg/conditions/resource_conditions.go: the health of a stamped object, and of an owner. The object
-- itself, the decoding of its conditions and the printing of a value are parameters.
pub mod Owner
pub mod Match
pub mod Agreement
mod Tests
use Prim.Native.String.{◌++◌ as ◌+++◌}
use cartographer.Prelude.{
  ℕ, suc, String, Bool, true, false, not, ◌&&◌, ◌||◌, Option, none, some, List, [], ◌∷◌, ◌++◌,
  length, is_nil, is_some, ◌==◌, if◌then◌else◌,
}
use cartographer.Prelude.Json.{Json, null, object, Fields, end, field, deep_equal, text}
use cartographer.Prelude.Result.{Result, ok, err}
use cartographer.Eval.{EvalError, evaluate_json_path}
use cartographer.Selector.{Selectable, MatchError, matches}
use cartographer.Conditions.{
  Status, status_true, status_false, status_unknown, other_status, Condition, is_true, is_false,
  new_condition_manager, add_all, finalize,
}
use cartographer.Statuses.{
  ObjectReference, RealizedResource, ResourceStatus, Status-discrete, additions, Output,
}
use cartographer.Validation.Template.{
  ConditionRequirement, HealthMatchField, HealthMatchRule, MultiMatchHealthRule, HealthRule,
}

-- utils.ConditionList.ConditionWithType
unfoldable pub condition_with_type : String → List Condition → Option Condition
condition_with_type type [] = none
condition_with_type type (c ∷ cs) =
    let rest = condition_with_type type cs in if c.type == type then some c else rest

-- The constructors of pkg/conditions/resource_conditions.go.
unfoldable pub healthy_condition : Status → (reason message : String) → Condition
healthy_condition status reason message = record {
  type = "Healthy";
  status = status;
  observed_generation = 0;
  last_transition_time = 0;
  reason = reason;
  message = message;
}

single_condition_match : Status → (name message : String) → Condition
unfolding healthy_condition
single_condition_match status name message = healthy_condition status (name +++ "Condition") message

unfoldable pub is_cluster_template : Option ObjectReference → Bool
is_cluster_template none = false
is_cluster_template (some r) = r.kind == "ClusterTemplate" && r.api_version == "carto.run/v1alpha1"

status_text : Status → String
status_text status_true = "True"
status_text status_false = "False"
status_text status_unknown = "Unknown"
status_text (other_status s) = s

unfoldable pub same_status : Status → Status → Bool
same_status = deep_equal Status-discrete

-- The health conditions of the resources that have one.
unfoldable pub resource_healths : List ResourceStatus → List Condition
resource_healths [] = []
resource_healths (s ∷ rest) = elim (condition_with_type "Healthy" s.conditions) [
  | none ↦ resource_healths rest
  | some c ↦ c ∷ resource_healths rest
]

-- `result[len(result)-1]`; `none` is the panic on an empty slice.
unfoldable pub last : List Condition → Option Condition
last [] = none
last (c ∷ []) = some c
last (c ∷ d ∷ cs) = last (d ∷ cs)

one_or_none : Option Condition → List Condition
one_or_none none = []
one_or_none (some c) = c ∷ []

with_rule_reason : Option Condition → Option Condition
with_rule_reason none = none
with_rule_reason (some c) = some (record c { reason = "HealthyConditionRule" })

unfoldable pub owner_health_condition :
    (ℕ → ℕ) → List ResourceStatus → List Condition → Option Condition
unfolding one_or_none with_rule_reason
owner_health_condition clock statuses previous =
    let known = one_or_none (condition_with_type "Healthy" previous) in
    let healths = resource_healths statuses in
    let m = add_all (additions clock 0 healths) (new_condition_manager "ResourcesHealthy" known) in
    with_rule_reason (last (finalize (clock (length healths)) m).conditions)

-- UnstructuredContent()["status"], null where there is none; the conditions that encoding/json makes
-- of a value, if it can; and `%v`.
pub record Reading (Obj : Type 0) : Type 0 where
  pub status : Obj → Json
  pub decode_conditions : Json → Option (List Condition)
  pub show : Json → String

field_of : String → Fields → Json
field_of key end = null
field_of key (field k v fs) = let rest = field_of key fs in if k == key then v else rest

or_no_conditions : Option (List Condition) → List Condition
or_no_conditions none = []
or_no_conditions (some cs) = cs

module _ {Obj : Type 0} (sel : Selectable Obj) (reading : Reading Obj) where
  conditions_in : Json → List Condition
  unfolding field_of or_no_conditions
  conditions_in (object fs) =
      or_no_conditions (reading.decode_conditions (field_of "conditions" fs))
  conditions_in _ = []

  -- utils.ExtractConditions
  unfoldable pub extract_conditions : Obj → List Condition
  unfolding conditions_in
  extract_conditions obj = conditions_in (reading.status obj)

  single_of : String → Option Condition → Condition
  unfolding single_condition_match
  single_of type none =
      single_condition_match status_unknown type
        ("condition with type [" +++ (type +++ "] not found on resource status"))
  single_of type (some c) =
      if is_false c.status || is_true c.status
      then single_condition_match c.status type c.message
      else single_condition_match status_unknown type c.message

  unfoldable pub single_condition_type_condition : String → Obj → Condition
  unfolding single_of
  single_condition_type_condition type obj =
      single_of type (condition_with_type type (extract_conditions obj))

  shown : String → Result EvalError Json → String
  shown failure (ok v) = reading.show v
  shown failure (err e) = failure

  unfoldable pub message_for_matching_field_requirement : HealthMatchField → Obj → String
  unfolding shown
  message_for_matching_field_requirement req obj =
      let value =
        shown "<error retrieving field value>"
          (evaluate_json_path sel.evaluate req.requirement.key obj) in
      let message =
        shown ("unknown, error retrieving message path [" +++ (req.message_path +++ "]"))
          (evaluate_json_path sel.evaluate req.message_path obj) in
      "field value: " +++ (value +++ (", message: " +++ message))

  -- The condition of a requirement's type, where it has the required status.
  required : ConditionRequirement → Option Condition → Option Condition
  required req none = none
  required req (some c) = if same_status c.status req.status then some c else none

  unfoldable pub condition_match : ConditionRequirement → Obj → Option Condition
  unfolding required
  condition_match req obj = required req (condition_with_type req.type (extract_conditions obj))

  is_match : Result MatchError Bool → Bool
  is_match (ok b) = b
  is_match (err e) = false

  unfoldable pub field_match : HealthMatchField → Obj → Bool
  unfolding is_match
  field_match req obj = is_match (matches sel req.requirement obj)

  condition_message : Condition → String
  unfolding status_text
  condition_message c =
      "condition status: " +++ (status_text c.status +++ (", message: " +++ c.message))

  any_field : List HealthMatchField → Obj → Option Condition
  unfolding healthy_condition
  any_field [] obj = none
  any_field (f ∷ fs) obj =
      let rest = any_field fs obj in
      if field_match f obj
      then some (
          healthy_condition status_false "MatchedField"
            (message_for_matching_field_requirement f obj))
      else rest

  any_condition : List ConditionRequirement → List HealthMatchField → Obj → Option Condition
  unfolding healthy_condition condition_message any_field
  any_condition [] fields obj = any_field fields obj
  any_condition (r ∷ rs) fields obj = elim (condition_match r obj) [
    | some c ↦ some (healthy_condition status_false "MatchedCondition" (condition_message c))
    | none ↦ any_condition rs fields obj
  ]

  unfoldable pub any_unhealthy_match_condition : HealthMatchRule → Obj → Option Condition
  unfolding any_condition
  any_unhealthy_match_condition rule obj = any_condition rule.match_conditions rule.match_fields obj

  -- The loops of `allHealthyMatchCondition` carry `firstReason` and `message`.
  all_fields : List HealthMatchField → Obj → (reason message : String) → Option Condition
  unfolding healthy_condition
  all_fields [] obj reason message = some (healthy_condition status_true reason message)
  all_fields (f ∷ fs) obj reason message =
      let first = all_fields fs obj "MatchedField" (message_for_matching_field_requirement f obj) in
      let later = all_fields fs obj reason message in
      if not (field_match f obj) then none else if reason == "" then first else later

  all_conditions :
      List ConditionRequirement
      → List HealthMatchField
      → Obj
      → (reason message : String) → Option Condition
  unfolding all_fields condition_message
  all_conditions [] fields obj reason message = all_fields fields obj reason message
  all_conditions (r ∷ rs) fields obj reason message = elim (condition_match r obj) [
    | none ↦ none
    | some c ↦
        let first = all_conditions rs fields obj "MatchedCondition" (condition_message c) in
        let later = all_conditions rs fields obj reason message in
        if reason == "" then first else later
  ]

  unfoldable pub all_healthy_match_condition : HealthMatchRule → Obj → Option Condition
  unfolding all_conditions
  all_healthy_match_condition rule obj =
      all_conditions rule.match_conditions rule.match_fields obj "" ""

  unfoldable pub multi_match_condition : MultiMatchHealthRule → Obj → Condition
  multi_match_condition m obj = elim (any_unhealthy_match_condition m.unhealthy obj) [
    | some c ↦ c
    | none ↦ elim (all_healthy_match_condition m.healthy obj) [
      | some c ↦ c
      | none ↦ healthy_condition status_unknown "NoMatchesFulfilled" ""
    ]
  ]

  has_outputs : Option (List Output) → Bool
  has_outputs none = false
  has_outputs (some outputs) = not (is_nil outputs)

  health_without_rule : Option RealizedResource → Condition
  unfolding has_outputs
  health_without_rule none = healthy_condition status_unknown "NoResource" ""
  health_without_rule (some r) =
      if has_outputs r.outputs
      then healthy_condition status_true "OutputsAvailable" ""
      else if is_cluster_template r.template_ref
      then (if is_some r.stamped_ref
          then healthy_condition status_true "AlwaysHealthy" ""
          else healthy_condition status_unknown "NoStampedObject" "")
      else healthy_condition status_unknown "OutputNotAvailable" ""

  health_of_stamped : HealthRule → Obj → Condition
  health_of_stamped rule obj =
      if rule.always_healthy
      then healthy_condition status_true "AlwaysHealthy" ""
      else if not (rule.single_condition_type == "")
      then single_condition_type_condition rule.single_condition_type obj
      else elim rule.multi_match [
        | some m ↦ multi_match_condition m obj
        | none ↦ healthy_condition status_unknown "Unknown" ""
      ]

  unfoldable pub determine_health_condition :
      Option HealthRule → Option RealizedResource → Option Obj → Condition
  unfolding health_without_rule health_of_stamped
  determine_health_condition none resource stamped = health_without_rule resource
  determine_health_condition (some rule) resource (some obj) = health_of_stamped rule obj
  determine_health_condition (some rule) resource none =
      if rule.always_healthy
      then healthy_condition status_unknown "NoStampedObject" ""
      else healthy_condition status_unknown "Unknown" ""

  -- A rule without any of the three forms dereferences nil: `none` is that panic.
  unfoldable pub determine_stamped_object_health : Option HealthRule → Option Obj → Option Status
  determine_stamped_object_health rule none = some status_unknown
  determine_stamped_object_health none (some obj) = some status_true
  determine_stamped_object_health (some rule) (some obj) =
      if rule.always_healthy
      then some status_true
      else if not (rule.single_condition_type == "")
      then some (single_condition_type_condition rule.single_condition_type obj).status
      else elim rule.multi_match [
        | some m ↦ some (multi_match_condition m obj).status
        | none ↦ none
      ]
