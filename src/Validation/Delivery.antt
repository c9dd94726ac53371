-- ===== src/Validation/Delivery.antt =====
-- pkg/apis/v1alpha1, cluster_delivery_webhook.go: the admission of a ClusterDelivery. A missing
-- `configs` is `none`, since the code compares it with nil.
pub mod Accepted
mod Tests
use cartographer.Prelude.{
  ℕ, suc, ◌≡◌, refl, String, Bool, true, false, not, ◌&&◌, ◌||◌, Option, none, some, List, [], ◌∷◌,
  length, is_nil, any, ltb, ◌==◌, eq_refl, All, is_some, arith, if◌then◌else◌,
}
use cartographer.Prelude.Result.{Result, ok, err, ◌>>=◌, ◌>>◌, reject, map_err}
use cartographer.Params.{BlueprintParam}
use cartographer.Selector.Choice.{LegacySelector}
use cartographer.Validation.{
  ValidationError, no_selector, in_resource, duplicate_resource, unknown_kind, unknown_pass_through,
  deployment_missing, deployment_unexpected, config_unexpected, Check, for_each, TemplateOption,
  Rules, validate_legacy_selector,
}
use cartographer.Validation.Options.{Passes, >>_iff, reject_iff, for_each_iff, All-map}
use cartographer.Validation.SupplyChain.{
  ResourceReference, TemplateReference, check_param, validate_template_ref,
  is_pass_through_input_found, unique_options, has_no_selector,
}

pub record DeliveryResource : Type 0 where
  pub name : String
  pub template_ref : TemplateReference
  pub params : List BlueprintParam
  pub sources : List ResourceReference
  pub deployment : Option String
  pub configs : Option (List ResourceReference)

pub record Delivery : Type 0 where
  pub selectors : LegacySelector
  pub params : List BlueprintParam
  pub resources : List DeliveryResource

abbrev pub is_deployment : DeliveryResource → Bool
is_deployment r = r.template_ref.kind == "ClusterDeploymentTemplate"

check_receiver : DeliveryResource → Check
check_receiver r = do
  reject (is_deployment r && not (is_some r.deployment)) (deployment_missing r.name)
  reject (is_some r.deployment && not (is_deployment r)) (deployment_unexpected r.name)

unfoldable pub validate_deployment_passed_to_proper_receivers : Delivery → Check
unfolding check_receiver
validate_deployment_passed_to_proper_receivers d = for_each check_receiver d.resources

unfoldable pub unique_names : List String → List DeliveryResource → Check
unique_names seen [] = ok tt
unique_names seen (r ∷ rs) =
    let rest = unique_names (r.name ∷ seen) rs in
    if any (λ n. n == r.name) seen then err (duplicate_resource r.name) else rest

check_config : DeliveryResource → Check
check_config r = reject (is_deployment r && is_some r.configs) (config_unexpected r.name)

unfoldable pub validate_deployment_template_did_not_receive_config : Delivery → Check
unfolding check_config
validate_deployment_template_did_not_receive_config d = for_each check_config d.resources

check_resource_params : DeliveryResource → Check
check_resource_params r = map_err (in_resource r.name) (for_each check_param r.params)

unfoldable pub validate_params : Delivery → Check
unfolding check_resource_params
validate_params d = for_each check_param d.params >> for_each check_resource_params d.resources

or_nil : Option (List ResourceReference) → List ResourceReference
or_nil none = []
or_nil (some refs) = refs

pass_through_inputs : DeliveryResource → Option (List ResourceReference)
unfolding or_nil
pass_through_inputs r =
    if r.template_ref.kind == "ClusterSourceTemplate"
    then some r.sources
    else if r.template_ref.kind == "ClusterConfigTemplate"
    then some (or_nil r.configs)
    else none

check_pass_through : DeliveryResource → TemplateOption → Check
unfolding pass_through_inputs
check_pass_through r o =
    if not (o.pass_through == "")
    then elim (pass_through_inputs r) [
      | none ↦ err (in_resource r.name (unknown_kind r.template_ref.kind))
      | some refs ↦
          reject (not (is_pass_through_input_found refs o.pass_through))
            (in_resource r.name (unknown_pass_through o.pass_through))
    ]
    else ok tt

check_template_ref : Rules → DeliveryResource → Check
check_template_ref rules r =
    map_err (in_resource r.name) (validate_template_ref rules r.template_ref)

check_options : DeliveryResource → Check
check_options r = unique_options r.name [] r.template_ref.options

check_pass_throughs : DeliveryResource → Check
unfolding check_pass_through
check_pass_throughs r = for_each (check_pass_through r) r.template_ref.options

unfoldable pub validate_new_state : Rules → Delivery → Check
unfolding check_pass_throughs check_template_ref check_options
validate_new_state rules d = do
  reject (has_no_selector d.selectors) no_selector
  validate_params d
  validate_legacy_selector rules d.selectors
  unique_names [] d.resources
  for_each check_options d.resources
  for_each (check_template_ref rules) d.resources
  for_each check_pass_throughs d.resources
  validate_deployment_passed_to_proper_receivers d
  validate_deployment_template_did_not_receive_config d
