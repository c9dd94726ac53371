-- ===== src/Validation.antt =====
-- pkg/apis/v1alpha1, common_validations.go: the checks that the admission webhooks share. The label
-- selectors of Kubernetes and the jsonpath parser are parameters.
pub mod Options
pub mod SupplyChain
pub mod Delivery
pub mod Template
mod Tests
use package.text.Mathlib.Text.{starts_with}
use cartographer.Prelude.{
  ℕ, suc, ◌+◌, String, Bool, true, false, not, ◌&&◌, ◌||◌, Option, none, some, List, [], ◌∷◌, ◌++◌,
  length, is_nil, any, is_some, ltb, ◌==◌, if◌then◌else◌,
}
use cartographer.Prelude.Dict.{Dict, lookup}
use cartographer.Prelude.Json.{String-discrete, deep_equal}
use cartographer.Prelude.Result.{Result, ok, err, ◌>>=◌, ◌>>◌, reject, map_err}
use cartographer.Selector.{
  Operator, op_in, op_not_in, op_exists, op_does_not_exist, other_op, FieldSelectorRequirement,
  LabelRequirement, LabelSelector, Selector,
}
use cartographer.Selector.Choice.{LegacySelector}

-- An error for each message, and the wrappings around it.
pub data ValidationError : Type 0 where
  too_many_pass_throughs : ℕ → ValidationError
  option_name_and_pass_through option_neither : ValidationError
  in_option : String → ValidationError → ValidationError
  duplicate_selector : String → String → ValidationError
  empty_selector : ValidationError
  match_labels_not_valid match_expressions_not_valid : String → ValidationError
  values_not_allowed values_required invalid_operator : Operator → ValidationError
  key_not_a_valid_path : String → ValidationError
  invalid_jsonpath : String → String → ValidationError
  no_selector : ValidationError
  invalid_param : String → ValidationError
  in_resource : String → ValidationError → ValidationError
  duplicate_resource : String → ValidationError
  duplicate_option : String → String → ValidationError
  name_and_options name_nor_options single_option : ValidationError
  unknown_kind : String → ValidationError
  unknown_pass_through : String → ValidationError
  unknown_resource : String → String → ValidationError
  wrong_kind : String → String → String → ValidationError
  deployment_missing deployment_unexpected config_unexpected : String → ValidationError

abbrev pub Check : Type 0
Check = Result ValidationError (Unit {0})

-- `for … { if err := check(x); err != nil { return err } }`
unfoldable pub for_each {ℓ} : {A : Type ℓ} → (A → Check) → List A → Check
for_each check [] = ok tt
for_each check (x ∷ xs) = check x >> for_each check xs

-- Which of a selector's map and slices are nil, with the values of each requirement, those of the
-- expressions first. A selector reads a nil one as an empty one; only reflect.DeepEqual tells them
-- apart.
pub record SelectorNils : Type 0 where
  pub match_labels : Bool
  pub match_expressions : Bool
  pub match_fields : Bool
  pub values : List Bool

pub record TemplateOption : Type 0 where
  pub name : String
  pub pass_through : String
  pub selector : Selector
  pub nils : SelectorNils

unfoldable pub Value-discrete : Discrete (Option String)
Value-discrete = hlevel String-discrete

unfoldable pub Expressions-discrete : Discrete (List LabelRequirement)
Expressions-discrete = hlevel String-discrete

unfoldable pub Fields-discrete : Discrete (List FieldSelectorRequirement)
Fields-discrete = hlevel String-discrete

unfoldable pub SelectorNils-discrete : Discrete SelectorNils
SelectorNils-discrete = hlevel Value-discrete

-- "validPaths" and "validPrefixes", and what the two libraries answer.
pub record Rules : Type 0 where
  pub valid_paths : List String
  pub valid_prefixes : List String
  pub as_selector : LabelSelector → Result String (Dict String → Bool)
  pub parse_jsonpath : String → Result String (Unit {0})

unfoldable pub pass_through_count : List TemplateOption → ℕ
pass_through_count [] = 0
pass_through_count (o ∷ os) =
    let rest = pass_through_count os in if not (o.pass_through == "") then suc rest else rest

-- The name by which a message calls an option.
abbrev pub called : TemplateOption → String
called o = if o.name == "" then "passThrough" else o.name

-- Whether two maps have the same value at each of the keys.
unfoldable pub agree_on : Dict String → Dict String → Dict String → Bool
agree_on [] m n = true
agree_on ((k, v) ∷ keys) m n =
    deep_equal Value-discrete (lookup k m) (lookup k n) && agree_on keys m n

-- reflect.DeepEqual on two maps of strings, where both or neither are nil.
unfoldable pub same_labels : Dict String → Dict String → Bool
same_labels m n = agree_on (m ++ n) m n

-- reflect.DeepEqual on two selectors
unfoldable pub same_selector : TemplateOption → TemplateOption → Bool
same_selector o p =
    let s = o.selector in
    let t = p.selector in
    same_labels s.label_selector.match_labels t.label_selector.match_labels
    && deep_equal Expressions-discrete s.label_selector.match_expressions
        t.label_selector.match_expressions
    && deep_equal Fields-discrete s.match_fields t.match_fields
    && deep_equal SelectorNils-discrete o.nils p.nils

unfoldable pub distinct_selectors : TemplateOption → TemplateOption → Check
distinct_selectors o p =
    reject (not (o.name == p.name) && same_selector o p) (duplicate_selector (called o) (called p))

module _ (rules : Rules) where
  unfoldable pub valid_path : String → Bool
  valid_path path =
      any (λ p. p == path) rules.valid_paths || any (starts_with path) rules.valid_prefixes

  -- The switch on the operator.
  values_check : Operator → List String → Check
  values_check op_exists values = reject (not (is_nil values)) (values_not_allowed op_exists)
  values_check op_does_not_exist values =
      reject (not (is_nil values)) (values_not_allowed op_does_not_exist)
  values_check op_in values = reject (is_nil values) (values_required op_in)
  values_check op_not_in values = reject (is_nil values) (values_required op_not_in)
  values_check (other_op o) values = err (invalid_operator (other_op o))

  unfoldable pub validate_requirement : FieldSelectorRequirement → Check
  unfolding values_check
  validate_requirement req = do
    values_check req.operator req.values
    reject (not (valid_path req.key)) (key_not_a_valid_path req.key)
    map_err (invalid_jsonpath req.key) (rules.parse_jsonpath req.key)

  unfoldable pub validate_field_selector_requirements : List FieldSelectorRequirement → Check
  validate_field_selector_requirements = for_each validate_requirement

  labels_check : (String → ValidationError) → LabelSelector → Check
  labels_check wrap s = elim (rules.as_selector s) [ ok test ↦ ok tt | err e ↦ err (wrap e) ]

  unfoldable pub validate_selector : Selector → Check
  unfolding labels_check
  validate_selector s = do
    reject
        (is_nil s.label_selector.match_labels
          && is_nil s.label_selector.match_expressions
          && is_nil s.match_fields)
        empty_selector
    labels_check match_labels_not_valid
        (record { match_labels = s.label_selector.match_labels; match_expressions = [] })
    labels_check match_expressions_not_valid
        (record { match_labels = []; match_expressions = s.label_selector.match_expressions })
    if not (is_nil s.match_fields)
        then validate_field_selector_requirements s.match_fields
        else ok tt

  unfoldable pub validate_legacy_selector : LegacySelector → Check
  unfolding labels_check
  validate_legacy_selector s = do
    labels_check match_labels_not_valid
        (record { match_labels = s.selector; match_expressions = [] })
    labels_check match_expressions_not_valid
        (record { match_labels = []; match_expressions = s.selector_match_expressions })
    if not (is_nil s.selector_match_fields)
        then validate_field_selector_requirements s.selector_match_fields
        else ok tt

  unfoldable pub validate_option : TemplateOption → Check
  validate_option o = do
    reject (not (o.name == "") && not (o.pass_through == "")) option_name_and_pass_through
    reject (o.name == "" && o.pass_through == "") option_neither
    map_err (in_option (called o)) (validate_selector o.selector)

  unfoldable pub validate_resource_options : List TemplateOption → Check
  validate_resource_options options = do
    reject (ltb 1 (pass_through_count options))
        (too_many_pass_throughs (pass_through_count options))
    for_each validate_option options
    for_each (λ o. for_each (distinct_selectors o) options) options
