-- ===== src/Runnable/Outputs.antt =====
-- pkg/templates/cluster_run_template.go: the outputs of the latest successful run. The JSONPath
-- evaluation is the parameter `evaluate`, and json.Marshal of a value `marshal`.
use cartographer.Prelude.{
  ℕ, String, Bool, false, Option, none, some, List, [], ◌∷◌, ltb, if◌then◌else◌,
}
use cartographer.Prelude.Dict.{Dict, insert}
use cartographer.Prelude.Json.{Json, equals_text}
use cartographer.Prelude.Result.{Result, ok, err}
use cartographer.Validation.Template.{TemplateSpec}
use cartographer.Repository.Cache.{Unstructured}
use cartographer.Eval.{EvalError, evaluate_json_path}

-- v1alpha1.ClusterRunTemplate; its outputs are the path of each key.
pub record RunTemplate : Type 0 where
  pub name : String
  pub template : String
  pub outputs : Dict String

pub data RunOutputError : Type 0 where
  evaluate_path_failed : (path : String) → EvalError → RunOutputError
  marshal_failed : (key cause : String) → RunOutputError

-- The raw JSON of each output.
abbrev pub RunOutputs : Type 0
RunOutputs = Dict String

pub record LatestOutput : Type 0 where
  pub outputs : RunOutputs
  pub source : Option Unstructured
  pub error : Option RunOutputError

abbrev pub success_status_path : String
success_status_path = "status.conditions[?(@.type==\"Succeeded\")].status"

unfoldable pub get_resource_template : RunTemplate → TemplateSpec
get_resource_template t = record {
  template = some t.template;
  ytt = "";
  health_rule = none;
  lifecycle = "";
  retention_policy = none;
}

module _ (evaluate : String → Unstructured → Result String (List Json))
    (marshal : Json → Result String String) where
  unfoldable pub is_successful : Unstructured → Bool
  is_successful obj = elim (evaluate_json_path evaluate success_status_path obj) [
    | err e ↦ false
    | ok status ↦ equals_text status "True"
  ]

  -- The loop's variables are `latestTime` and `latestMatchingObject`.
  unfoldable pub latest_successful :
      List Unstructured → ℕ → Option Unstructured → Option Unstructured
  latest_successful [] latest found = found
  latest_successful (o ∷ os) latest found =
      let skip = latest_successful os latest found in
      let take = latest_successful os o.creation_timestamp (some o) in
      if is_successful o then (if ltb latest o.creation_timestamp then take else skip) else skip

  unfoldable pub get_latest_successful_object : List Unstructured → Option Unstructured
  get_latest_successful_object objects = latest_successful objects 0 none

  -- The value of one key, or what went wrong.
  unfoldable pub output_at : String → String → Unstructured → Result RunOutputError String
  output_at key path obj = elim (evaluate_json_path evaluate path obj) [
    | err e ↦ err (evaluate_path_failed path e)
    | ok value ↦ elim (marshal value) [ err e ↦ err (marshal_failed key e) | ok raw ↦ ok raw ]
  ]

  -- The loop goes on after an error, and the last error stands.
  unfoldable pub outputs_of_object :
      Dict String
      → Unstructured
      → Option RunOutputError
      → RunOutputs
      → Option RunOutputError × RunOutputs
  outputs_of_object [] obj e outputs = (e, outputs)
  outputs_of_object ((key, path) ∷ rest) obj e outputs = elim (output_at key path obj) [
    | err e' ↦ outputs_of_object rest obj (some e') outputs
    | ok raw ↦ outputs_of_object rest obj e (insert key raw outputs)
  ]

  unfoldable pub get_outputs_of_single_object :
      RunTemplate → Unstructured → Option RunOutputError × RunOutputs
  get_outputs_of_single_object t obj = outputs_of_object t.outputs obj none []

  unfoldable pub output_of_latest : RunTemplate → Option Unstructured → LatestOutput
  output_of_latest t none = record { outputs = []; source = none; error = none }
  output_of_latest t (some obj) =
      let found = get_outputs_of_single_object t obj in
      record { outputs = found.1; source = some obj; error = found.0 }

  unfoldable pub get_latest_successful_output : RunTemplate → List Unstructured → LatestOutput
  get_latest_successful_output t objects = output_of_latest t (get_latest_successful_object objects)
