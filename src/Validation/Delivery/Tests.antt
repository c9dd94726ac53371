-- ===== src/Validation/Delivery/Tests.antt =====
-- A run of the admission of a ClusterDelivery, where the libraries refuse nothing.
use cartographer.Prelude.{refl, true, none, some, [], ◌∷◌}
use cartographer.Prelude.Result.{ok}
use cartographer.Validation.{
  Rules, for_each, labels_check, validate_legacy_selector, validate_resource_options,
  pass_through_count,
}
use cartographer.Validation.Options.{Passes}
use cartographer.Validation.SupplyChain.{has_no_selector, unique_options, validate_template_ref}
use cartographer.Validation.Delivery.Accepted.{
  IsAcceptedDelivery, validate_new_state-IsAcceptedDelivery,
}
use cartographer.Validation.Delivery.{
  Delivery, DeliveryResource, validate_new_state, validate_params, unique_names, check_options,
  check_template_ref, check_pass_throughs, check_receiver, check_config,
  validate_deployment_passed_to_proper_receivers,
  validate_deployment_template_did_not_receive_config,
}

abbrev rules : Rules
rules = record {
  valid_paths = [];
  valid_prefixes = [];
  as_selector = λ s. ok (λ labels. true);
  parse_jsonpath = λ path. ok tt;
}

abbrev deployed : DeliveryResource
deployed = record {
  name = "deployer";
  template_ref = record { kind = "ClusterDeploymentTemplate"; name = "kapp"; options = [] };
  params = [];
  sources = [];
  deployment = some "source";
  configs = none;
}

abbrev delivery : Delivery
delivery = record {
  selectors = record {
    selector = ("app", "web") ∷ [];
    selector_match_expressions = [];
    selector_match_fields = [];
  };
  params = [];
  resources = deployed ∷ [];
}

delivery-Passes : Passes (validate_new_state rules delivery)
unfolding validate_new_state has_no_selector validate_params validate_legacy_selector unique_names
    check_options unique_options check_template_ref validate_template_ref validate_resource_options
    check_pass_throughs validate_deployment_passed_to_proper_receivers check_receiver check_config
    validate_deployment_template_did_not_receive_config for_each pass_through_count labels_check
delivery-Passes = refl

validate_new_state-IsAcceptedDelivery_example : IsAcceptedDelivery rules delivery
validate_new_state-IsAcceptedDelivery_example =
    validate_new_state-IsAcceptedDelivery rules delivery delivery-Passes
