-- ===== src/Validation/Template.antt =====
-- pkg/apis/v1alpha1, common_validations.go: the checks of a template's spec and of its health rule.
-- Decoding the raw template is the parameter `decode`, which gives the object's namespace.
use cartographer.Prelude.{
  ℕ, ◌+◌, ◌≡◌, inl, inr, String, Bool, true, false, not, ◌&&◌, Option, none, some, List, is_nil,
  is_some, arith, eqb, ltb, ◌==◌, if◌then◌else◌, Bool-cases, Option-cases,
}
use cartographer.Prelude.Result.{Result, ok, err, ◌>>◌, reject}
use cartographer.Selector.{FieldSelectorRequirement}
use cartographer.Conditions.{Status}

pub record ConditionRequirement : Type 0 where
  pub type : String
  pub status : Status

pub record HealthMatchField : Type 0 where
  pub requirement : FieldSelectorRequirement
  pub message_path : String

pub record HealthMatchRule : Type 0 where
  pub match_conditions : List ConditionRequirement
  pub match_fields : List HealthMatchField

pub record MultiMatchHealthRule : Type 0 where
  pub healthy : HealthMatchRule
  pub unhealthy : HealthMatchRule

pub record HealthRule : Type 0 where
  pub always_healthy : Bool
  pub single_condition_type : String
  pub multi_match : Option MultiMatchHealthRule

pub record RetentionPolicy : Type 0 where
  pub max_failed_runs : ℕ
  pub max_successful_runs : ℕ

-- v1alpha1.TemplateSpec; an empty `ytt` is not set.
pub record TemplateSpec : Type 0 where
  pub template : Option String
  pub ytt : String
  pub health_rule : Option HealthRule
  pub lifecycle : String
  pub retention_policy : Option RetentionPolicy

pub data TemplateError : Type 0 where
  no_template both_templates sets_namespace retention_on_mutable : TemplateError
  not_an_object : String → TemplateError
  no_health_rule many_health_rules empty_unhealthy empty_healthy : TemplateError

abbrev pub Check : Type 0
Check = Result TemplateError (Unit {0})

abbrev pub is_empty_rule : HealthMatchRule → Bool
is_empty_rule r = is_nil r.match_conditions && is_nil r.match_fields

unfoldable pub validate_multi_match : MultiMatchHealthRule → Check
validate_multi_match m = do
  reject (is_empty_rule m.unhealthy) empty_unhealthy
  reject (is_empty_rule m.healthy) empty_healthy

abbrev one_if : Bool → ℕ
one_if true = 1
one_if false = 0

unfoldable pub validate_health_rule : HealthRule → Check
validate_health_rule r =
    let rules =
      one_if r.always_healthy
      + one_if (not (r.single_condition_type == ""))
      + one_if (is_some r.multi_match) in
    if eqb rules 0
    then err no_health_rule
    else if ltb 1 rules
    then err many_health_rules
    else elim r.multi_match [ none ↦ ok tt | some m ↦ validate_multi_match m ]

module _ (decode : String → Result String String) where
  decoded : Option String → Check
  decoded none = ok tt
  decoded (some raw) = elim (decode raw) [
    | err e ↦ err (not_an_object e)
    | ok namespace ↦ reject (not (namespace == "")) sets_namespace
  ]

  -- The health rule's answer is returned as it is, before the lifecycle is looked at.
  after_decoding : TemplateSpec → Check
  after_decoding t = elim t.health_rule [
    | some r ↦ validate_health_rule r
    | none ↦ reject (is_some t.retention_policy && t.lifecycle == "mutable") retention_on_mutable
  ]

  unfoldable pub validate_template_spec : TemplateSpec → Check
  unfolding decoded after_decoding
  validate_template_spec t = do
    reject (not (is_some t.template) && t.ytt == "") no_template
    reject (is_some t.template && not (t.ytt == "")) both_templates
    decoded t.template
    after_decoding t

-- Exactly one of the three forms of a health rule.
pub data HasOneForm (r : HealthRule) : Type 0 where
  always :
      r.always_healthy ≡ true
      → (r.single_condition_type == "") ≡ true
      → r.multi_match ≡ none
      → HasOneForm r
  single :
      r.always_healthy ≡ false
      → (r.single_condition_type == "") ≡ false
      → r.multi_match ≡ none
      → HasOneForm r
  multi :
      (m : MultiMatchHealthRule)
      → r.always_healthy ≡ false
      → (r.single_condition_type == "") ≡ true
      → r.multi_match ≡ some m
      → is_empty_rule m.unhealthy ≡ false
      → is_empty_rule m.healthy ≡ false
      → HasOneForm r

-- A health rule that is accepted has exactly one of its three forms, and a multi match has
-- requirements on both sides.
pub validate_health_rule-HasOneForm :
    (r : HealthRule) → validate_health_rule r ≡ ok tt → HasOneForm r
unfolding validate_health_rule validate_multi_match
validate_health_rule-HasOneForm r h = elim (Bool-cases r.always_healthy) [
  | inl a ↦ always a (ground arith) (ground arith)
  | inr a ↦ elim (Option-cases r.multi_match) [
    | inl n ↦ single a (ground arith) n
    | inr (m, e) ↦ multi m a (ground arith) e (ground arith) (ground arith)
  ]
]
