-- ===== src/Submitted.antt =====
-- pkg/conditions: owner_conditions.go, workload_conditions.go and deliverable_conditions.go, what an
-- error of a resource says in the conditions. The text of an error is the parameter `text`.
pub mod Reasons
pub mod Runs
mod Tests
use Prim.Native.String.{◌++◌ as ◌+++◌}
use cartographer.Prelude.{
  ℕ, String, Bool, true, false, not, Option, none, some, List, [], ◌∷◌, ◌==◌, if◌then◌else◌,
}
use cartographer.Conditions.{
  Status, status_true, status_false, status_unknown, Condition, Manager, positive, add_positive,
}
use cartographer.Repository.Cache.{Unstructured}
use cartographer.Realizer.{OptionError, resolve_template_option, template_options_match}
use cartographer.Stamp.{
  StampError, json_path_error, observed_generation_error, no_value, no_match,
  deployment_failed_condition_met, empty_object, no_deployment, input_not_found,
}
use cartographer.Errors.{
  RetrieveOutputError, ResourceError, get_template_error, stamp_error, apply_stamped_object_error,
  list_created_objects_error, retrieve_output_error, template_option_error, wrapped, plain,
  json_path_expression,
}

unfoldable pub get_condition_type : Bool → String
get_condition_type is_owner = if is_owner then "ResourcesSubmitted" else "ResourceSubmitted"

unfoldable pub condition : String → Status → (reason message : String) → Condition
condition type status reason message = record {
  type = type;
  status = status;
  observed_generation = 0;
  last_transition_time = 0;
  reason = reason;
  message = message;
}

unfoldable pub resources_submitted_condition : Bool → Condition
resources_submitted_condition is_owner =
    condition (get_condition_type is_owner) status_true "ResourceSubmissionComplete" ""

-- The conditions of `reason` whose message is the text of an error.
unfoldable pub failure_condition : String → Bool → String → Condition
failure_condition reason is_owner message =
    condition (get_condition_type is_owner) status_false reason message

unfoldable pub template_object_retrieval_failure_condition : Bool → String → Condition
template_object_retrieval_failure_condition = failure_condition "TemplateObjectRetrievalFailure"

unfoldable pub template_stamp_failure_condition : Bool → String → Condition
template_stamp_failure_condition = failure_condition "TemplateStampFailure"

unfoldable pub template_rejected_by_api_server_condition : Bool → String → Condition
template_rejected_by_api_server_condition = failure_condition "TemplateRejectedByAPIServer"

unfoldable pub blueprints_failed_to_list_created_objects_condition : Bool → String → Condition
blueprints_failed_to_list_created_objects_condition = failure_condition "FailedToListCreatedObjects"

unfoldable pub unknown_resource_error_condition : Bool → String → Condition
unknown_resource_error_condition = failure_condition "UnknownError"

unfoldable pub resolve_template_options_error_condition : Bool → String → Condition
resolve_template_options_error_condition = failure_condition "ResolveTemplateOptionsError"

unfoldable pub template_options_match_error_condition : Bool → String → Condition
template_options_match_error_condition = failure_condition "TemplateOptionsMatchError"

pub namespace_message : String → String
namespace_message namespace =
    if not (namespace == "") then " in namespace [" +++ (namespace +++ "]") else ""

value_message : (start expression middle qualified : String) → Unstructured → String → String
unfolding namespace_message
value_message start expression middle qualified obj ending =
    start
    +++ (expression
        +++ (middle
            +++ (qualified
                +++ ("/"
                    +++ (obj.name +++ ("]" +++ (namespace_message obj.namespace +++ ending)))))))

path_message : Status → String → String → Unstructured → String
unfolding value_message
path_message status_true expression qualified obj =
    value_message "cannot read value [" expression "] from healthy object [" qualified obj
      ", contact Platform Eng"
path_message status_false expression qualified obj =
    value_message "cannot read value [" expression "] from unhealthy object [" qualified obj
      ", examine object, particularly whether it is receiving proper inputs"
path_message _ expression qualified obj =
    value_message "waiting to read value [" expression "] from object [" qualified obj ""

unfoldable pub missing_value_at_path_condition :
    Bool → Unstructured → (expression qualified_resource : String) → Status → Condition
unfolding path_message
missing_value_at_path_condition is_owner obj expression qualified health =
    condition (get_condition_type is_owner) status_unknown "MissingValueAtPath"
      (path_message health expression qualified obj)

unfoldable pub missing_pass_through_input_condition : (input resource : String) → Condition
missing_pass_through_input_condition input resource =
    condition "SupplyChainReady" status_false "PassThrough"
      ("unable to find passthrough [" +++ (input +++ ("] in [" +++ (resource +++ "]"))))

missing_of : Bool → RetrieveOutputError → Option Unstructured → Condition
missing_of is_owner e none =
    missing_pass_through_input_condition e.pass_through_input e.qualified_resource
missing_of is_owner e (some obj) =
    missing_value_at_path_condition is_owner obj (json_path_expression e) e.qualified_resource
      e.healthy

-- A missing value of a stamped object, or of an input that is to be passed on.
unfoldable pub missing_value_condition : Bool → RetrieveOutputError → Condition
unfolding missing_of
missing_value_condition is_owner e = missing_of is_owner e e.stamped_object

unfoldable pub option_condition : Bool → OptionError → String → Condition
option_condition is_owner (resolve_template_option name cause) message =
    resolve_template_options_error_condition is_owner message
option_condition is_owner (template_options_match names) message =
    template_options_match_error_condition is_owner message

-- The conditions of a deployment's errors are of the owner's type in either place.
unfoldable pub template_stamp_failure_by_observed_generation_condition : String → Condition
template_stamp_failure_by_observed_generation_condition resource_name =
    condition "ResourcesSubmitted" status_false "TemplateStampFailure" (
      "resource ["
      +++ (resource_name
          +++ "] cannot satisfy observedCompletion without observedGeneration in object status"))

unfoldable pub deployment_condition_not_met_condition : (resource_name cause : String) → Condition
deployment_condition_not_met_condition resource_name cause =
    condition "ResourcesSubmitted" status_unknown "ConditionNotMet"
      ("resource [" +++ (resource_name +++ ("] condition not met: " +++ cause)))

unfoldable pub deployment_failed_condition_met_condition :
    (resource_name cause : String) → Condition
deployment_failed_condition_met_condition resource_name cause =
    condition "ResourcesSubmitted" status_false "FailedConditionMet"
      ("resource [" +++ (resource_name +++ ("] failed condition met: " +++ cause)))

module _ (text : ResourceError → String) (text_of_cause : StampError → String) where
  -- The condition that the two type switches have in common, but for a RetrieveOutputError.
  common_condition : Bool → ResourceError → Condition
  common_condition is_owner (get_template_error cause r t b) =
      template_object_retrieval_failure_condition is_owner (text (get_template_error cause r t b))
  common_condition is_owner (stamp_error cause r t k b) =
      template_stamp_failure_condition is_owner (text (stamp_error cause r t k b))
  common_condition is_owner (apply_stamped_object_error cause obj r b) =
      template_rejected_by_api_server_condition is_owner
        (text (apply_stamped_object_error cause obj r b))
  common_condition is_owner (template_option_error e r b) =
      option_condition is_owner e (text (template_option_error e r b))
  common_condition is_owner e = unknown_resource_error_condition is_owner (text e)

  unfoldable pub workload_condition : Bool → ResourceError → Condition
  unfolding common_condition
  workload_condition is_owner (list_created_objects_error cause namespace labels) =
      blueprints_failed_to_list_created_objects_condition is_owner
        (text (list_created_objects_error cause namespace labels))
  workload_condition is_owner (retrieve_output_error e) = missing_value_condition is_owner e
  workload_condition is_owner e = common_condition is_owner e

  retrieve_condition : Bool → RetrieveOutputError → StampError → Condition
  retrieve_condition is_owner e (observed_generation_error cause) =
      template_stamp_failure_by_observed_generation_condition e.resource_name
  retrieve_condition is_owner e (deployment_failed_condition_met c) =
      deployment_failed_condition_met_condition e.resource_name (text_of_cause e.cause)
  retrieve_condition is_owner e (no_value path cause) =
      deployment_condition_not_met_condition e.resource_name (text_of_cause e.cause)
  retrieve_condition is_owner e (no_match expected actual) =
      deployment_condition_not_met_condition e.resource_name (text_of_cause e.cause)
  retrieve_condition is_owner e (json_path_error expression cause) =
      missing_value_condition is_owner e
  retrieve_condition is_owner e _ =
      unknown_resource_error_condition is_owner (text (retrieve_output_error e))

  unfoldable pub deliverable_condition : Bool → ResourceError → Condition
  unfolding common_condition retrieve_condition
  deliverable_condition is_owner (retrieve_output_error e) = retrieve_condition is_owner e e.cause
  deliverable_condition is_owner e = common_condition is_owner e

  -- `now` is the time of the addition.
  unfoldable pub add_condition_for_resource_submitted_workload :
      ℕ → Bool → ResourceError → Manager → Manager
  add_condition_for_resource_submitted_workload now is_owner e m =
      add_positive now (workload_condition is_owner e) m

  unfoldable pub add_condition_for_resource_submitted_deliverable :
      ℕ → Bool → ResourceError → Manager → Manager
  add_condition_for_resource_submitted_deliverable now is_owner e m =
      add_positive now (deliverable_condition is_owner e) m
