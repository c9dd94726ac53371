-- ===== src/Validation/Delivery/Accepted.antt =====
-- What a ClusterDelivery that is accepted satisfies.
use cartographer.Prelude.{◌≡◌, true, false, not, ◌&&◌, List, [], ◌∷◌, All, is_some, arith}
use cartographer.Prelude.Result.{ok, ◌>>◌, reject}
use cartographer.Params.{validate}
use cartographer.Validation.{
  no_selector, in_resource, deployment_missing, deployment_unexpected, config_unexpected, for_each,
  Rules, validate_legacy_selector,
}
use cartographer.Validation.Options.{Passes, >>_iff, reject_iff, map_err_iff, for_each_iff, All-map}
use cartographer.Validation.SupplyChain.{check_param, validate_template_ref, has_no_selector}
use cartographer.Validation.SupplyChain.Accepted.{
  IsValidRef, validate_template_ref-IsValidRef, check_param_iff,
}
use cartographer.Validation.Delivery.{
  DeliveryResource, Delivery, is_deployment, check_receiver, check_config, check_resource_params,
  check_template_ref, check_options, check_pass_throughs, unique_names, validate_params,
  validate_new_state, validate_deployment_passed_to_proper_receivers,
  validate_deployment_template_did_not_receive_config,
}

-- A resource has a deployment exactly if its template is a ClusterDeploymentTemplate, and then it
-- has no configs.
pub record IsProperReceiver (r : DeliveryResource) : Type 0 where
  pub deployment : is_some r.deployment ≡ is_deployment r
  pub configs : is_deployment r ≡ true → is_some r.configs ≡ false

receiver-IsProper :
    (r : DeliveryResource)
    → Passes (check_receiver r)
    → Passes (check_config r)
    → IsProperReceiver r
unfolding check_receiver check_config
receiver-IsProper r h k =
    let c1 = reject (is_deployment r && not (is_some r.deployment)) (deployment_missing r.name) in
    let c2 =
      reject (is_some r.deployment && not (is_deployment r)) (deployment_unexpected r.name) in
    let (p1, p2) = (>>_iff c1 c2).0 h in
    let b1 =
      (reject_iff (is_deployment r && not (is_some r.deployment)) (deployment_missing r.name)).0
        p1 in
    let b2 =
      (reject_iff (is_some r.deployment && not (is_deployment r)) (deployment_unexpected r.name)).0
        p2 in
    let b3 = (reject_iff (is_deployment r && is_some r.configs) (config_unexpected r.name)).0 k in
    record { deployment = ground arith; configs = λ d. ground arith }

All-both :
    (rs : List DeliveryResource)
    → All (λ r. Passes (check_receiver r)) rs
    → All (λ r. Passes (check_config r)) rs
    → All IsProperReceiver rs
All-both [] h k = tt
All-both (r ∷ rs) h k = (receiver-IsProper r h.0 k.0, All-both rs h.1 k.1)

-- What acceptance guarantees the realizer.
pub record IsAcceptedDelivery (rules : Rules) (d : Delivery) : Type 0 where
  pub selected : has_no_selector d.selectors ≡ false
  pub params : All (λ p. validate p ≡ ok tt) d.params
  pub resource_params : All (λ r. All (λ p. validate p ≡ ok tt) r.params) d.resources
  pub refs : All (λ r. IsValidRef rules r.template_ref) d.resources
  pub receivers : All IsProperReceiver d.resources

resource_params-valid :
    (r : DeliveryResource)
    → Passes (check_resource_params r)
    → All (λ p. validate p ≡ ok tt) r.params
unfolding check_resource_params
resource_params-valid r q = All-map r.params check_param_iff (
    (for_each_iff check_param r.params).0
      ((map_err_iff (in_resource r.name) (for_each check_param r.params)).0 q))

check_template_ref-IsValidRef :
    (rules : Rules) (r : DeliveryResource)
    → Passes (check_template_ref rules r)
    → IsValidRef rules r.template_ref
unfolding check_template_ref
check_template_ref-IsValidRef rules r h =
    validate_template_ref-IsValidRef rules r.template_ref
      ((map_err_iff (in_resource r.name) (validate_template_ref rules r.template_ref)).0 h)

-- An accepted delivery has a selector, parameters with exactly one value, and resources each with a
-- template or at least two valid options; exactly the resources with a ClusterDeploymentTemplate
-- receive a deployment, and those receive no configs.
pub validate_new_state-IsAcceptedDelivery :
    (rules : Rules) (d : Delivery)
    → Passes (validate_new_state rules d)
    → IsAcceptedDelivery rules d
unfolding validate_params validate_new_state validate_deployment_passed_to_proper_receivers
    validate_deployment_template_did_not_receive_config
validate_new_state-IsAcceptedDelivery rules d h =
    let receivers = for_each check_receiver d.resources in
    let configs = for_each check_config d.resources in
    let pass_throughs = for_each check_pass_throughs d.resources in
    let refs = for_each (check_template_ref rules) d.resources in
    let options = for_each check_options d.resources in
    let from_options = options >> (refs >> (pass_throughs >> (receivers >> configs))) in
    let legacy = validate_legacy_selector rules d.selectors in
    let names = unique_names [] d.resources in
    let selector = reject (has_no_selector d.selectors) no_selector in
    let (p1, h1) =
      (>>_iff selector (validate_params d >> (legacy >> (names >> from_options)))).0 h in
    let (p2, h2) = (>>_iff (validate_params d) (legacy >> (names >> from_options))).0 h1 in
    let (p3, h3) = (>>_iff legacy (names >> from_options)).0 h2 in
    let (p4, h4) = (>>_iff names from_options).0 h3 in
    let (p5, h5) = (>>_iff options (refs >> (pass_throughs >> (receivers >> configs)))).0 h4 in
    let (p6, h6) = (>>_iff refs (pass_throughs >> (receivers >> configs))).0 h5 in
    let (p7, h7) = (>>_iff pass_throughs (receivers >> configs)).0 h6 in
    let (p8, p9) = (>>_iff receivers configs).0 h7 in
    let (q1, q2) =
      (>>_iff (for_each check_param d.params) (for_each check_resource_params d.resources)).0 p2 in
    record {
      selected = (reject_iff (has_no_selector d.selectors) no_selector).0 p1;
      params = All-map d.params check_param_iff ((for_each_iff check_param d.params).0 q1);
      resource_params =
          All-map d.resources resource_params-valid
            ((for_each_iff check_resource_params d.resources).0 q2);
      refs =
          All-map d.resources (check_template_ref-IsValidRef rules)
            ((for_each_iff (check_template_ref rules) d.resources).0 p6);
      receivers =
          All-both d.resources ((for_each_iff check_receiver d.resources).0 p8)
            ((for_each_iff check_config d.resources).0 p9);
    }
