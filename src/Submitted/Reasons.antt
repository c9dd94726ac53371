-- ===== src/Submitted/Reasons.antt =====
-- What the conditions say of an error.
use cartographer.Prelude.{String, ◌==◌, ◌≡◌, refl, Bool, true, false, Option, none, some}
use cartographer.Conditions.{is_true}
use cartographer.Repository.Cache.{Unstructured}
use cartographer.Realizer.{
  OwnerResource, Outputs, OptionError, resolve_template_option, template_options_match,
  get_template_name_from_resource,
}
use cartographer.Repository.{RepoError}
use cartographer.Stamp.{
  StampError, json_path_error, observed_generation_error, no_value, no_match,
  deployment_failed_condition_met, empty_object, no_deployment, input_not_found,
}
use cartographer.Errors.{
  RetrieveOutputError, ResourceError, get_template_error, stamp_error, apply_stamped_object_error,
  list_created_objects_error, retrieve_output_error, template_option_error, wrapped, plain,
  is_unhandled_error_type,
}
use cartographer.Prelude.Result.{err}
use cartographer.Repository.{State}
use cartographer.Component.{ResourceRealizer, Attempt, failed}
use cartographer.Component.Do.{option_failure, with_choice, do_resource}
use cartographer.Submitted.{
  condition, failure_condition, template_object_retrieval_failure_condition,
  template_stamp_failure_condition, template_rejected_by_api_server_condition,
  blueprints_failed_to_list_created_objects_condition, unknown_resource_error_condition,
  resolve_template_options_error_condition, template_options_match_error_condition, missing_of,
  missing_pass_through_input_condition, missing_value_at_path_condition, missing_value_condition,
  option_condition, template_stamp_failure_by_observed_generation_condition,
  deployment_condition_not_met_condition, deployment_failed_condition_met_condition,
  common_condition, retrieve_condition, workload_condition, deliverable_condition,
}

module _ (text : ResourceError → String) (text_of_cause : StampError → String)
    (is_owner : Bool) where
  missing_of-status :
      (e : RetrieveOutputError) (obj : Option Unstructured)
      → is_true (missing_of is_owner e obj).status ≡ false
  unfolding missing_of missing_pass_through_input_condition missing_value_at_path_condition
      condition
  missing_of-status e none = refl
  missing_of-status e (some obj) = refl

  retrieve_condition-status :
      (e : RetrieveOutputError) (cause : StampError)
      → is_true (retrieve_condition text text_of_cause is_owner e cause).status ≡ false
  unfolding retrieve_condition missing_value_condition unknown_resource_error_condition
      failure_condition condition template_stamp_failure_by_observed_generation_condition
      deployment_condition_not_met_condition deployment_failed_condition_met_condition
  retrieve_condition-status e (json_path_error expression cause) =
      missing_of-status e e.stamped_object
  retrieve_condition-status e (observed_generation_error cause) = refl
  retrieve_condition-status e (no_value path cause) = refl
  retrieve_condition-status e (no_match expected actual) = refl
  retrieve_condition-status e (deployment_failed_condition_met c) = refl
  retrieve_condition-status e empty_object = refl
  retrieve_condition-status e no_deployment = refl
  retrieve_condition-status e (input_not_found name) = refl

  -- The condition of an error is never true, for a workload and for a deliverable.
  pub error_condition-status :
      (e : ResourceError)
      → (is_true (workload_condition text text_of_cause is_owner e).status ≡ false)
        × (is_true (deliverable_condition text text_of_cause is_owner e).status ≡ false)
  unfolding workload_condition deliverable_condition common_condition failure_condition condition
      option_condition missing_value_condition template_object_retrieval_failure_condition
      template_stamp_failure_condition template_rejected_by_api_server_condition
      blueprints_failed_to_list_created_objects_condition unknown_resource_error_condition
      resolve_template_options_error_condition template_options_match_error_condition
  error_condition-status (get_template_error cause r t b) = (refl, refl)
  error_condition-status (stamp_error cause r t k b) = (refl, refl)
  error_condition-status (apply_stamped_object_error cause obj r b) = (refl, refl)
  error_condition-status (list_created_objects_error cause namespace labels) = (refl, refl)
  error_condition-status (retrieve_output_error e) =
      (missing_of-status e e.stamped_object, retrieve_condition-status e e.cause)
  error_condition-status (template_option_error (resolve_template_option n c) r b) = (refl, refl)
  error_condition-status (template_option_error (template_options_match ns) r b) = (refl, refl)
  error_condition-status (wrapped s e) = (refl, refl)
  error_condition-status (plain s) = (refl, refl)

option_reason :
    (text : ResourceError → String) (text_of_cause : StampError → String) (is_owner : Bool)
    (e : OptionError) (resource_name blueprint_name : String)
    → ((workload_condition text text_of_cause is_owner
          (template_option_error e resource_name blueprint_name)).reason
        == "UnknownError")
      ≡ false
unfolding workload_condition common_condition option_condition failure_condition condition
    resolve_template_options_error_condition template_options_match_error_condition
option_reason text text_of_cause is_owner (resolve_template_option n c) r b = refl
option_reason text text_of_cause is_owner (template_options_match ns) r b = refl

-- Where the choice of a template option fails, Do returns an error whose condition says UnknownError,
-- for a workload and for a deliverable, and which is retried: Do wraps the error of the option, and
-- the type switches do not look below the wrapping. The option's error itself has another condition
-- for a workload, and is not retried.
pub option_failure-reason :
    (text : ResourceError → String) (text_of_cause : StampError → String)
    (is_forbidden : RepoError → Bool) (is_owner : Bool) {World Owner : Type 0}
    (r : ResourceRealizer World Owner) (resource : OwnerResource) (blueprint_name : String)
    (outputs : Outputs) (s : State World) (e : OptionError)
    → get_template_name_from_resource r.selectable r.as_selector resource r.owner ≡ some (err e)
    → (a : Attempt) × (failure : ResourceError) × (do_resource r resource blueprint_name outputs s
        ≡ some (a, s))
      × (a.error ≡ some failure)
      × ((workload_condition text text_of_cause is_owner failure).reason ≡ "UnknownError")
      × ((deliverable_condition text text_of_cause is_owner failure).reason ≡ "UnknownError")
      × (is_unhandled_error_type is_forbidden failure ≡ true)
      × (((workload_condition text text_of_cause is_owner
              (template_option_error e resource.name blueprint_name)).reason
            == "UnknownError")
          ≡ false)
      × (is_unhandled_error_type is_forbidden (template_option_error e resource.name blueprint_name)
          ≡ false)
unfolding do_resource with_choice workload_condition deliverable_condition common_condition
    failure_condition condition unknown_resource_error_condition option_failure
    is_unhandled_error_type failed
option_failure-reason text text_of_cause is_forbidden is_owner r resource blueprint_name outputs s e
      h =
    (
      failed none false "" (option_failure r resource blueprint_name outputs e),
      option_failure r resource blueprint_name outputs e,
      rw (h) refl,
      refl,
      refl,
      refl,
      refl,
      option_reason text text_of_cause is_owner e resource.name blueprint_name,
      refl,
    )
