-- ===== src/Validation/SupplyChain.antt =====
-- pkg/apis/v1alpha1, cluster_supply_chain_webhook.go: the admission of a ClusterSupplyChain.
pub mod Accepted
use cartographer.Prelude.{
  ℕ, suc, String, Bool, true, false, not, ◌&&◌, ◌||◌, Option, none, some, List, [], ◌∷◌, length,
  is_nil, any, ltb, eqb, ◌==◌, if◌then◌else◌,
}
use cartographer.Prelude.Result.{Result, ok, err, ◌>>=◌, ◌>>◌, reject, map_err}
use cartographer.Params.{BlueprintParam, validate}
use cartographer.Selector.Choice.{LegacySelector}
use cartographer.Validation.{
  ValidationError, no_selector, invalid_param, in_resource, duplicate_resource, duplicate_option,
  name_and_options, name_nor_options, single_option, unknown_kind, unknown_pass_through,
  unknown_resource, wrong_kind, Check, for_each, TemplateOption, Rules, validate_legacy_selector,
  validate_resource_options,
}

pub record ResourceReference : Type 0 where
  pub name : String
  pub resource : String

pub record TemplateReference : Type 0 where
  pub kind : String
  pub name : String
  pub options : List TemplateOption

pub record SupplyChainResource : Type 0 where
  pub name : String
  pub template_ref : TemplateReference
  pub params : List BlueprintParam
  pub sources : List ResourceReference
  pub images : List ResourceReference
  pub configs : List ResourceReference

-- The spec of a ClusterSupplyChain.
pub record SupplyChain : Type 0 where
  pub selectors : LegacySelector
  pub params : List BlueprintParam
  pub resources : List SupplyChainResource

unfoldable pub check_param : BlueprintParam → Check
check_param p = map_err invalid_param (validate p)

unfoldable pub check_resource_params : SupplyChainResource → Check
check_resource_params r = map_err (in_resource r.name) (for_each check_param r.params)

unfoldable pub validate_params : SupplyChain → Check
validate_params c = for_each check_param c.params >> for_each check_resource_params c.resources

-- The loops with a map of the names seen so far; `seen` is that map.
unfoldable pub unique_resources : List String → List SupplyChainResource → Check
unique_resources seen [] = ok tt
unique_resources seen (r ∷ rs) =
    let rest = unique_resources (r.name ∷ seen) rs in
    if any (λ n. n == r.name) seen then err (duplicate_resource r.name) else rest

unfoldable pub unique_options : String → List String → List TemplateOption → Check
unique_options resource seen [] = ok tt
unique_options resource seen (o ∷ os) =
    let rest = unique_options resource (o.name ∷ seen) os in
    if any (λ n. n == o.name) seen then err (duplicate_option o.name resource) else rest

unfoldable pub validate_template_ref : Rules → TemplateReference → Check
validate_template_ref rules ref = do
  reject (not (ref.name == "") && ltb 0 (length ref.options)) name_and_options
  if ref.name == "" && ltb (length ref.options) 2
      then (if eqb (length ref.options) 1 then err single_option else err name_nor_options)
      else ok tt
  validate_resource_options rules ref.options

unfoldable pub check_template_ref : Rules → SupplyChainResource → Check
check_template_ref rules r =
    map_err (in_resource r.name) (validate_template_ref rules r.template_ref)

unfoldable pub is_pass_through_input_found : List ResourceReference → String → Bool
is_pass_through_input_found refs pass_through = any (λ r. r.name == pass_through) refs

-- The inputs that a kind of template passes through, if it is one of the three.
unfoldable pub pass_through_inputs : SupplyChainResource → Option (List ResourceReference)
pass_through_inputs r =
    if r.template_ref.kind == "ClusterSourceTemplate"
    then some r.sources
    else if r.template_ref.kind == "ClusterImageTemplate"
    then some r.images
    else if r.template_ref.kind == "ClusterConfigTemplate"
    then some r.configs
    else none

unfoldable pub check_pass_through : SupplyChainResource → TemplateOption → Check
unfolding pass_through_inputs is_pass_through_input_found
check_pass_through r o =
    if not (o.pass_through == "")
    then elim (pass_through_inputs r) [
      | none ↦ err (in_resource r.name (unknown_kind r.template_ref.kind))
      | some refs ↦
          reject (not (is_pass_through_input_found refs o.pass_through))
            (in_resource r.name (unknown_pass_through o.pass_through))
    ]
    else ok tt

unfoldable pub get_resource_by_name : String → List SupplyChainResource → Option SupplyChainResource
get_resource_by_name name [] = none
get_resource_by_name name (r ∷ rs) = if r.name == name then some r else get_resource_by_name name rs

unfoldable pub check_resource_ref : SupplyChain → String → ResourceReference → Check
check_resource_ref c target_kind ref = elim (get_resource_by_name ref.resource c.resources) [
  | none ↦ err (unknown_resource ref.name ref.resource)
  | some r ↦
      reject (not (r.template_ref.kind == target_kind)) (wrong_kind r.name ref.name target_kind)
]

unfoldable pub validate_resource_refs : SupplyChain → List ResourceReference → String → Check
validate_resource_refs c references target_kind =
    for_each (check_resource_ref c target_kind) references

unfoldable pub check_inputs : SupplyChain → SupplyChainResource → Check
check_inputs c r = do
  map_err (in_resource r.name) (validate_resource_refs c r.sources "ClusterSourceTemplate")
  map_err (in_resource r.name) (validate_resource_refs c r.images "ClusterImageTemplate")
  map_err (in_resource r.name) (validate_resource_refs c r.configs "ClusterConfigTemplate")

unfoldable pub has_no_selector : LegacySelector → Bool
has_no_selector s =
    is_nil s.selector && is_nil s.selector_match_expressions && is_nil s.selector_match_fields

-- ValidateCreate and ValidateUpdate are this check; ValidateDelete accepts.
unfoldable pub validate_new_state : Rules → SupplyChain → Check
validate_new_state rules c = do
  reject (has_no_selector c.selectors) no_selector
  validate_params c
  validate_legacy_selector rules c.selectors
  unique_resources [] c.resources
  for_each (λ r. unique_options r.name [] r.template_ref.options) c.resources
  for_each (check_template_ref rules) c.resources
  for_each (λ r. for_each (check_pass_through r) r.template_ref.options) c.resources
  for_each (check_inputs c) c.resources
