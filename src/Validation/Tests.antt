-- ===== src/Validation/Tests.antt =====
-- Runs of the admission checks, where the libraries refuse nothing.
use cartographer.Prelude.{false, refl, true, none, some, List, [], ◌∷◌}
use cartographer.Prelude.Json.{text, deep_equal}
use cartographer.Prelude.Result.{ok}
use cartographer.Params.{BlueprintParam, validate, both_values_set, neither_value_set}
use cartographer.Selector.{Selector, op_exists}
use cartographer.Selector.Choice.{LegacySelector}
use cartographer.Validation.{
  Rules, TemplateOption, for_each, valid_path, values_check, validate_requirement, labels_check,
  validate_field_selector_requirements, validate_selector, validate_legacy_selector,
  validate_option, validate_resource_options, distinct_selectors, pass_through_count, agree_on,
  same_labels, same_selector, Expressions-discrete, Fields-discrete, Value-discrete,
  SelectorNils-discrete, SelectorNils,
}
use cartographer.Validation.Options.{
  Passes, AreValidOptions, validate_resource_options-AreValidOptions,
}
use cartographer.Validation.SupplyChain.{
  SupplyChainResource, SupplyChain, check_param, check_resource_params, validate_params,
  unique_resources, unique_options, validate_template_ref, check_template_ref, check_pass_through,
  get_resource_by_name, check_resource_ref, validate_resource_refs, check_inputs, has_no_selector,
  validate_new_state,
}
use cartographer.Validation.SupplyChain.Accepted.{IsAccepted, validate_new_state-IsAccepted}
use cartographer.Validation.Template.{TemplateSpec, HealthRule, RetentionPolicy}

abbrev rules : Rules
rules = record {
  valid_paths = "spec.image" ∷ [];
  valid_prefixes = "spec.params" ∷ [];
  as_selector = λ s. ok (λ labels. true);
  parse_jsonpath = λ path. ok tt;
}

abbrev no_fields : SelectorNils
no_fields = record {
  match_labels = false;
  match_expressions = true;
  match_fields = true;
  values = [];
}

abbrev no_labels : SelectorNils
no_labels = record {
  match_labels = true;
  match_expressions = true;
  match_fields = false;
  values = true ∷ [];
}

abbrev by_field : Selector
by_field = record {
  label_selector = record { match_labels = []; match_expressions = [] };
  match_fields = record { key = "spec.image"; operator = op_exists; values = [] } ∷ [];
}

abbrev by_label : Selector
by_label = record {
  label_selector = record { match_labels = ("app", "web") ∷ []; match_expressions = [] };
  match_fields = [];
}

abbrev options : List TemplateOption
options =
    record { name = "kpack"; pass_through = ""; selector = by_label; nils = no_fields }
    ∷ record { name = ""; pass_through = "source"; selector = by_field; nils = no_labels }
    ∷ []

options_pass : Passes (validate_resource_options rules options)
unfolding validate_resource_options validate_option validate_selector
    validate_field_selector_requirements validate_requirement valid_path distinct_selectors
    pass_through_count for_each values_check labels_check deep_equal same_selector same_labels
    agree_on Expressions-discrete Fields-discrete Value-discrete SelectorNils-discrete
    cartographer.Prelude.Dict.lookup
options_pass = refl

validate_resource_options-AreValidOptions_example : AreValidOptions rules options
validate_resource_options-AreValidOptions_example =
    validate_resource_options-AreValidOptions rules options options_pass

abbrev own_selector : LegacySelector
own_selector = record {
  selector = ("app", "web") ∷ [];
  selector_match_expressions = [];
  selector_match_fields = [];
}

abbrev branch : BlueprintParam
branch = record { name = "branch"; value = some (text "main"); default_value = none }

abbrev source : SupplyChainResource
source = record {
  name = "source";
  template_ref = record { kind = "ClusterSourceTemplate"; name = "git"; options = [] };
  params = branch ∷ [];
  sources = [];
  images = [];
  configs = [];
}

abbrev built : SupplyChainResource
built = record {
  name = "image";
  template_ref = record { kind = "ClusterImageTemplate"; name = "kpack"; options = [] };
  params = [];
  sources = record { name = "source"; resource = "source" } ∷ [];
  images = [];
  configs = [];
}

abbrev chain : SupplyChain
chain = record { selectors = own_selector; params = branch ∷ []; resources = source ∷ built ∷ [] }

chain-Passes : Passes (validate_new_state rules chain)
unfolding validate_new_state has_no_selector validate_params check_param check_resource_params
    validate_legacy_selector unique_resources unique_options check_template_ref
    validate_template_ref validate_resource_options check_pass_through check_inputs
    validate_resource_refs check_resource_ref get_resource_by_name for_each pass_through_count
    validate both_values_set neither_value_set labels_check
chain-Passes = refl

validate_new_state-IsAccepted_example : IsAccepted rules chain
validate_new_state-IsAccepted_example = validate_new_state-IsAccepted rules chain chain-Passes

abbrev always_healthy : HealthRule
always_healthy = record { always_healthy = true; single_condition_type = ""; multi_match = none }

abbrev policy : RetentionPolicy
policy = record { max_failed_runs = 1; max_successful_runs = 1 }

abbrev mutable_template : TemplateSpec
mutable_template = record {
  template = none;
  ytt = "#@ load()";
  health_rule = some always_healthy;
  lifecycle = "mutable";
  retention_policy = some policy;
}
