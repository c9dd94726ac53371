-- ===== src/Templates.antt =====
-- pkg/templates/reader.go and the readers of the five kinds of template, over the template objects of
-- pkg/apis/v1alpha1. A reader is what its methods return.
pub mod Interpolator
pub mod Stamper
pub mod Stamped
mod Tests
use cartographer.Prelude.{
  String, Bool, true, false, not, ◌&&◌, Option, none, some, List, is_some, ◌==◌, if◌then◌else◌,
}
use cartographer.Validation.Template.{TemplateSpec, HealthRule, RetentionPolicy}

pub record SourceTemplateSpec : Type 0 where
  pub template_spec : TemplateSpec
  pub url_path : String
  pub revision_path : String

pub record ImageTemplateSpec : Type 0 where
  pub template_spec : TemplateSpec
  pub image_path : String

pub record ConfigTemplateSpec : Type 0 where
  pub template_spec : TemplateSpec
  pub config_path : String

pub record ObservedMatch : Type 0 where
  pub input : String
  pub output : String

-- v1alpha1.Condition: a key and the value that it is to have.
pub record KeyValue : Type 0 where
  pub key : String
  pub value : String

pub record ObservedCompletion : Type 0 where
  pub succeeded_condition : KeyValue
  pub failed_condition : Option KeyValue

pub record DeploymentSpec : Type 0 where
  pub template_spec : TemplateSpec
  pub observed_matches : List ObservedMatch
  pub observed_completion : Option ObservedCompletion

-- A client.Object, as far as the code tells its dynamic types apart.
pub data TemplateObject : Type 0 where
  cluster_source_template : SourceTemplateSpec → TemplateObject
  cluster_image_template : ImageTemplateSpec → TemplateObject
  cluster_config_template : ConfigTemplateSpec → TemplateObject
  cluster_deployment_template : DeploymentSpec → TemplateObject
  cluster_template : TemplateSpec → TemplateObject
  other_object : TemplateObject

pub data Lifecycle : Type 0 where
  mutable immutable tekton : Lifecycle

unfoldable pub is_immutable : Lifecycle → Bool
is_immutable mutable = false
is_immutable immutable = true
is_immutable tekton = true

unfoldable pub convert_lifecycle : String → Lifecycle
convert_lifecycle lifecycle =
    if lifecycle == "immutable"
    then immutable
    else if lifecycle == "tekton"
    then tekton
    else mutable

pub record Reader : Type 0 where
  pub resource_template : TemplateSpec
  pub health_rule : Option HealthRule
  pub is_ytt_template : Bool
  pub lifecycle : Lifecycle
  pub retention_policy : RetentionPolicy

unfoldable pub get_health_rule : TemplateSpec → Option HealthRule
get_health_rule t =
    if not (is_some t.health_rule) && t.lifecycle == "tekton"
    then some
        (record { always_healthy = false; single_condition_type = "Succeeded"; multi_match = none })
    else t.health_rule

unfoldable pub get_retention_policy : TemplateSpec → RetentionPolicy
get_retention_policy t = elim t.retention_policy [
  | none ↦ record { max_failed_runs = 10; max_successful_runs = 10 }
  | some policy ↦ policy
]

unfoldable pub new_cluster_template_reader : TemplateSpec → Reader
new_cluster_template_reader t = record {
  resource_template = t;
  health_rule = get_health_rule t;
  is_ytt_template = not (t.ytt == "");
  lifecycle = convert_lifecycle t.lifecycle;
  retention_policy = get_retention_policy t;
}

-- The readers of the other kinds differ in the spec that holds the template.
unfoldable pub new_cluster_source_template_reader : SourceTemplateSpec → Reader
new_cluster_source_template_reader t = new_cluster_template_reader t.template_spec

unfoldable pub new_cluster_image_template_reader : ImageTemplateSpec → Reader
new_cluster_image_template_reader t = new_cluster_template_reader t.template_spec

unfoldable pub new_cluster_config_template_reader : ConfigTemplateSpec → Reader
new_cluster_config_template_reader t = new_cluster_template_reader t.template_spec

unfoldable pub new_cluster_deployment_template_reader : DeploymentSpec → Reader
new_cluster_deployment_template_reader t = new_cluster_template_reader t.template_spec

unfoldable pub new_reader_from_api : TemplateObject → Option Reader
new_reader_from_api (cluster_source_template t) = some (new_cluster_source_template_reader t)
new_reader_from_api (cluster_image_template t) = some (new_cluster_image_template_reader t)
new_reader_from_api (cluster_config_template t) = some (new_cluster_config_template_reader t)
new_reader_from_api (cluster_deployment_template t) =
    some (new_cluster_deployment_template_reader t)
new_reader_from_api (cluster_template t) = some (new_cluster_template_reader t)
new_reader_from_api other_object = none
