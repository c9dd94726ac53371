-- ===== src/Stamp.antt =====
-- pkg/stamp: reader.go and errors.go, how an output is read from a stamped object or passed on from
-- an input. The JSONPath evaluation of an object is the parameter `evaluate`; a result is `none`
-- where Go's comparison of two interface values panics.
pub mod Ready
mod Tests
use cartographer.Prelude.{
  String, Bool, true, false, Option, none, some, List, [], ◌∷◌, ◌==◌, if◌then◌else◌,
}
use cartographer.Prelude.Dict.{Dict, lookup}
use cartographer.Prelude.Json.{Json, null, interface_eq, equals_text}
use cartographer.Prelude.Result.{Result, ok, err}
use cartographer.Eval.{EvalError, is_does_not_exist, evaluate_json_path}
use cartographer.Templates.{
  SourceTemplateSpec, ImageTemplateSpec, ConfigTemplateSpec, DeploymentSpec, ObservedMatch,
  KeyValue, ObservedCompletion, TemplateObject, cluster_source_template, cluster_image_template,
  cluster_config_template, cluster_deployment_template, cluster_template, other_object,
}
use cartographer.Realizer.{Output, Source, SourceInput, ImageInput, ConfigInput}

-- What the getters of an input generator return.
pub record PassThroughInput : Type 0 where
  pub get_sources : Dict SourceInput
  pub get_images : Dict ImageInput
  pub get_configs : Dict ConfigInput
  pub get_deployment : Option SourceInput

-- JsonPathError has its expression, and no cause where there is no object.
pub data StampError : Type 0 where
  json_path_error : (expression : String) → Option EvalError → StampError
  observed_generation_error : EvalError → StampError
  no_value : (path : String) → EvalError → StampError
  no_match : (expected actual : Json) → StampError
  deployment_failed_condition_met : KeyValue → StampError
  empty_object no_deployment : StampError
  input_not_found : String → StampError

pub data Outputter : Type 0 where
  source_output_reader : SourceTemplateSpec → Outputter
  image_output_reader : ImageTemplateSpec → Outputter
  config_output_reader : ConfigTemplateSpec → Outputter
  deployment_pass_through_reader : PassThroughInput → Option DeploymentSpec → Outputter
  no_output_reader : Outputter
  source_pass_through_reader image_pass_through_reader config_pass_through_reader :
      String → PassThroughInput → Outputter

unfoldable pub new_pass_through_reader : String → String → PassThroughInput → Option Outputter
new_pass_through_reader kind name inputs =
    if kind == "ClusterSourceTemplate"
    then some (source_pass_through_reader name inputs)
    else if kind == "ClusterImageTemplate"
    then some (image_pass_through_reader name inputs)
    else if kind == "ClusterConfigTemplate"
    then some (config_pass_through_reader name inputs)
    else if kind == "ClusterTemplate"
    then some no_output_reader
    else if kind == "ClusterDeploymentTemplate"
    then some (deployment_pass_through_reader inputs none)
    else none

unfoldable pub new_reader : TemplateObject → PassThroughInput → Option Outputter
new_reader (cluster_source_template t) inputs = some (source_output_reader t)
new_reader (cluster_image_template t) inputs = some (image_output_reader t)
new_reader (cluster_config_template t) inputs = some (config_output_reader t)
new_reader (cluster_deployment_template t) inputs =
    some (deployment_pass_through_reader inputs (some t))
new_reader (cluster_template t) inputs = some no_output_reader
new_reader other_object inputs = none

abbrev pub only_source : Json → Json → Output
only_source url revision = record {
  source = some (record { url = url; revision = revision });
  image = null;
  config = null;
}

abbrev pub only_image : Json → Output
only_image value = record { source = none; image = value; config = null }

abbrev pub only_config : Json → Output
only_config value = record { source = none; image = null; config = value }

abbrev pub no_output : Output
no_output = record { source = none; image = null; config = null }

-- The outcome of a reader; `none` is a panic.
abbrev pub Outcome : Type 0 → Type 0
Outcome A = Option (Result StampError A)

abbrev pub fail : {A : Type 0} → StampError → Outcome A
fail e = some (err e)

-- `if a != b { return e }`, for two interface values
abbrev pub unless_equal : Option Bool → StampError → Outcome (Unit {0}) → Outcome (Unit {0})
unless_equal none e rest = none
unless_equal (some true) e rest = rest
unless_equal (some false) e rest = fail e

-- Two paths are evaluated, and their values compared before what comes next.
unfoldable pub unless_match :
    (input output : Result EvalError Json)
    → (EvalError → StampError)
    → (EvalError → StampError)
    → (Json → Json → StampError)
    → Outcome (Unit {0})
    → Outcome (Unit {0})
unless_match (err e) output on_input on_output differ rest = fail (on_input e)
unless_match (ok v) (err e) on_input on_output differ rest = fail (on_output e)
unless_match (ok v) (ok w) on_input on_output differ rest =
    unless_equal (interface_eq v w) (differ v w) rest

unfoldable pub has_succeeded : KeyValue → Result EvalError Json → Outcome (Unit {0})
has_succeeded c (err e) = fail (no_value c.key e)
has_succeeded c (ok observed) =
    if equals_text observed c.value
    then some (ok tt)
    else fail (no_match (Json.text c.value) observed)

unless_failed : KeyValue → Json → Result StampError (Unit {0})
unless_failed c observed =
    if equals_text observed c.value then err (deployment_failed_condition_met c) else ok tt

-- The value of a key that is not there is nil, and it is compared as the others are.
unfoldable pub has_not_failed : KeyValue → Result EvalError Json → Result StampError (Unit {0})
unfolding unless_failed
has_not_failed c (ok observed) = unless_failed c observed
has_not_failed c (err e) =
    if is_does_not_exist e then unless_failed c null else err (json_path_error c.key (some e))

unfoldable pub pass_deployment : Outcome (Unit {0}) → Option SourceInput → Outcome Output
pass_deployment none deployment = none
pass_deployment (some (err e)) deployment = fail e
pass_deployment (some (ok u)) none = fail no_deployment
pass_deployment (some (ok u)) (some d) = some (ok (only_source d.url d.revision))

module _ {Obj : Type 0} (evaluate : String → Obj → Result String (List Json)) where
  json_path : String → Obj → Result StampError Json
  json_path path obj = elim (evaluate_json_path evaluate path obj) [
    | ok v ↦ ok v
    | err e ↦ err (json_path_error path (some e))
  ]

  unfoldable pub read_source : SourceTemplateSpec → Option Obj → Result StampError Output
  unfolding json_path
  read_source t none = err (json_path_error t.url_path none)
  read_source t (some obj) = elim (json_path t.url_path obj) [
    | err e ↦ err e
    | ok url ↦ elim (json_path t.revision_path obj) [
      | err e ↦ err e
      | ok revision ↦ ok (only_source url revision)
    ]
  ]

  unfoldable pub read_config : ConfigTemplateSpec → Option Obj → Result StampError Output
  unfolding json_path
  read_config t none = err (json_path_error t.config_path none)
  read_config t (some obj) = elim (json_path t.config_path obj) [
    | err e ↦ err e
    | ok value ↦ ok (only_config value)
  ]

  unfoldable pub read_image : ImageTemplateSpec → Option Obj → Result StampError Output
  unfolding json_path
  read_image t none = err (json_path_error t.image_path none)
  read_image t (some obj) = elim (json_path t.image_path obj) [
    | err e ↦ err e
    | ok value ↦ ok (only_image value)
  ]

  -- The loop over the observed matches.
  unfoldable pub observed_matches_ready : List ObservedMatch → Obj → Outcome (Unit {0})
  observed_matches_ready [] obj = some (ok tt)
  observed_matches_ready (m ∷ ms) obj =
      unless_match (evaluate_json_path evaluate m.input obj)
        (evaluate_json_path evaluate m.output obj) (no_value m.input) (no_value m.output) no_match
        (observed_matches_ready ms obj)

  unfoldable pub succeeded : KeyValue → Obj → Outcome (Unit {0})
  succeeded c obj = has_succeeded c (evaluate_json_path evaluate c.key obj)

  unfoldable pub not_failed : Option KeyValue → Obj → Result StampError (Unit {0})
  not_failed none obj = ok tt
  not_failed (some c) obj = has_not_failed c (evaluate_json_path evaluate c.key obj)

  unfoldable pub conditions_ready : ObservedCompletion → Obj → Outcome (Unit {0})
  conditions_ready c obj = elim (not_failed c.failed_condition obj) [
    | err e ↦ fail e
    | ok u ↦ succeeded c.succeeded_condition obj
  ]

  unfoldable pub observed_completion_ready : ObservedCompletion → Obj → Outcome (Unit {0})
  observed_completion_ready c obj =
      unless_match (evaluate_json_path evaluate "metadata.generation" obj)
        (evaluate_json_path evaluate "status.observedGeneration" obj)
        (λ e. json_path_error "metadata.generation" (some e)) observed_generation_error no_match
        (conditions_ready c obj)

  ready_by : Option ObservedCompletion → List ObservedMatch → Obj → Outcome (Unit {0})
  ready_by (some c) ms obj = observed_completion_ready c obj
  ready_by none ms obj = observed_matches_ready ms obj

  unfoldable pub output_ready : Option DeploymentSpec → Obj → Outcome (Unit {0})
  unfolding ready_by
  output_ready none obj = some (ok tt)
  output_ready (some t) obj = ready_by t.observed_completion t.observed_matches obj

  unfoldable pub read_deployment :
      PassThroughInput → Option DeploymentSpec → Option Obj → Outcome Output
  read_deployment inputs t none = fail empty_object
  read_deployment inputs t (some obj) = pass_deployment (output_ready t obj) inputs.get_deployment

  unfoldable pub pass_through :
      {A : Type 0} → (A → Output) → String → Dict A → Result StampError Output
  pass_through give name inputs = elim (lookup name inputs) [
    | none ↦ err (input_not_found name)
    | some v ↦ ok (give v)
  ]

  unfoldable pub output : Outputter → Option Obj → Outcome Output
  unfolding pass_through
  output (source_output_reader t) obj = some (read_source t obj)
  output (image_output_reader t) obj = some (read_image t obj)
  output (config_output_reader t) obj = some (read_config t obj)
  output (deployment_pass_through_reader inputs t) obj = read_deployment inputs t obj
  output no_output_reader obj = some (ok no_output)
  output (source_pass_through_reader name inputs) obj =
      some
        (pass_through (λ (s : SourceInput). only_source s.url s.revision) name inputs.get_sources)
  output (image_pass_through_reader name inputs) obj =
      some (pass_through (λ (i : ImageInput). only_image i.image) name inputs.get_images)
  output (config_pass_through_reader name inputs) obj =
      some (pass_through (λ (c : ConfigInput). only_config c.config) name inputs.get_configs)
