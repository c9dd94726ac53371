-- ===== src/Submitted/Runs.antt =====
-- pkg/conditions/runnable_conditions.go and blueprint_conditions.go, and of
-- pkg/controllers/runnable_reconciler.go the condition of an error and whether it is retried.
use Prim.Native.String.{◌++◌ as ◌+++◌}
use cartographer.Prelude.{String, Bool, true, false, not, List, [], ◌∷◌, ◌==◌, if◌then◌else◌}
use cartographer.Conditions.{status_true, status_false, status_unknown, Condition}
use cartographer.Repository.Cache.{Unstructured}
use cartographer.Repository.{RepoError}
use cartographer.Runnable.Realize.{
  RunnableError, runnable_get_run_template_error, runnable_resolve_selector_error,
  runnable_stamp_error, runnable_apply_stamped_object_error, list_created_objects_error,
  runnable_retrieve_output_error,
}
use cartographer.Submitted.{condition, namespace_message}

unfoldable pub run_template_ready_condition : Condition
run_template_ready_condition = condition "RunTemplateReady" status_true "Ready" ""

unfoldable pub run_failure_condition : (reason message : String) → Condition
run_failure_condition reason message = condition "RunTemplateReady" status_false reason message

unfoldable pub run_template_missing_condition : String → Condition
run_template_missing_condition = run_failure_condition "RunTemplateNotFound"

unfoldable pub stamped_object_rejected_by_api_server_condition : String → Condition
stamped_object_rejected_by_api_server_condition =
    run_failure_condition "StampedObjectRejectedByAPIServer"

unfoldable pub failed_to_list_created_objects_condition : String → Condition
failed_to_list_created_objects_condition = run_failure_condition "FailedToListCreatedObjects"

unfoldable pub runnable_service_account_not_found_condition : String → Condition
runnable_service_account_not_found_condition = run_failure_condition "ServiceAccountError"

unfoldable pub runnable_service_account_token_error_condition : String → Condition
runnable_service_account_token_error_condition = run_failure_condition "ServiceAccountTokenError"

unfoldable pub runnable_template_stamp_failure_condition : String → Condition
runnable_template_stamp_failure_condition = run_failure_condition "TemplateStampFailure"

unfoldable pub unknown_error_condition : String → Condition
unknown_error_condition = run_failure_condition "UnknownError"

unfoldable pub client_builder_error_condition : String → Condition
client_builder_error_condition = run_failure_condition "ClientBuilderError"

-- The name of an object, or the name that the server generates one from.
unfoldable pub name_or_generated : Unstructured → String
name_or_generated obj = if obj.name == "" then obj.generate_name else obj.name

unfoldable pub output_path_not_satisfied_condition :
    Unstructured → (qualified_resource message : String) → Condition
output_path_not_satisfied_condition obj qualified message =
    run_failure_condition "OutputPathNotSatisfied" (
      "waiting to read value from resource ["
      +++ (qualified
          +++ ("/"
              +++ (name_or_generated obj
                  +++ ("]" +++ (namespace_message obj.namespace +++ (": " +++ message)))))))

unfoldable pub stamped_object_condition_unknown : Condition
stamped_object_condition_unknown = condition "StampedObjectCondition" status_unknown "Unknown" ""

unfoldable pub stamped_object_condition_known : Condition → Condition
stamped_object_condition_known c =
    condition "StampedObjectCondition" c.status "SucceededCondition" c.message

unfoldable pub join : List String → String
join [] = ""
join (name ∷ []) = name
join (name ∷ next ∷ names) = name +++ (", " +++ join (next ∷ names))

unfoldable pub templates_not_found_condition : List String → Condition
templates_not_found_condition names =
    condition "TemplatesReady" status_false "TemplatesNotFound"
      ("did not find the template of the resource(s) [" +++ (join names +++ "]"))

unfoldable pub templates_found_condition : Condition
templates_found_condition = condition "TemplatesReady" status_true "Ready" ""

-- The condition of an error with its text.
unfoldable pub runnable_condition : String → RunnableError → Condition
runnable_condition message (runnable_get_run_template_error cause template) =
    run_template_missing_condition message
runnable_condition message (runnable_resolve_selector_error cause selector) =
    runnable_template_stamp_failure_condition message
runnable_condition message (runnable_stamp_error cause template) =
    runnable_template_stamp_failure_condition message
runnable_condition message (runnable_apply_stamped_object_error cause obj template) =
    stamped_object_rejected_by_api_server_condition message
runnable_condition message (list_created_objects_error cause namespace labels) =
    failed_to_list_created_objects_condition message
runnable_condition message (runnable_retrieve_output_error cause obj template qualified) =
    output_path_not_satisfied_condition obj qualified message

-- The errors that are marked as unhandled, and so retried.
unfoldable pub is_retried : (RepoError → Bool) → RunnableError → Bool
is_retried is_forbidden (runnable_get_run_template_error cause template) = true
is_retried is_forbidden (runnable_apply_stamped_object_error cause obj template) =
    not (is_forbidden cause)
is_retried is_forbidden (list_created_objects_error cause namespace labels) = true
is_retried is_forbidden (runnable_resolve_selector_error cause selector) = false
is_retried is_forbidden (runnable_stamp_error cause template) = false
is_retried is_forbidden (runnable_retrieve_output_error cause obj template qualified) = false
