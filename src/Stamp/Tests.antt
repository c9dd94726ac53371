-- ===== src/Stamp/Tests.antt =====
-- Runs of a deployment's reader, on objects that map a path to its value.
use cartographer.Prelude.{◌≡◌, refl, ◌↔◌, String, Option, none, some, List, [], ◌∷◌}
use cartographer.Prelude.Dict.{Dict, lookup}
use cartographer.Prelude.Json.{Json, number, text, equals_text, interface_eq}
use cartographer.Prelude.Result.{Result, ok}
use cartographer.Eval.{evaluate_json_path, single, ensure_valid_wrapping, has_suffix}
use cartographer.Validation.Template.{TemplateSpec}
use cartographer.Templates.{DeploymentSpec}
use cartographer.Realizer.{Output, SourceInput}
use cartographer.Stamp.{
  PassThroughInput, deployment_pass_through_reader, only_source, output, read_deployment,
  pass_deployment, output_ready, observed_completion_ready, conditions_ready, not_failed,
  has_not_failed, succeeded, has_succeeded, unless_match,
}
use cartographer.Stamp.Ready.{IsReady, output-IsReady}

abbrev one_or_none : Option Json → List Json
one_or_none none = []
one_or_none (some v) = v ∷ []

abbrev at_path : String → Dict Json → Result String (List Json)
at_path path obj = ok (one_or_none (lookup path obj))

abbrev deployed : Dict Json
deployed =
    ("{.metadata.generation}", number "2")
    ∷ ("{.status.observedGeneration}", number "2")
    ∷ ("{.status.ready}", text "True")
    ∷ []

abbrev spec : TemplateSpec
spec = record {
  template = none;
  ytt = "#! ytt";
  health_rule = none;
  lifecycle = "mutable";
  retention_policy = none;
}

abbrev when_ready : DeploymentSpec
when_ready = record {
  template_spec = spec;
  observed_matches = [];
  observed_completion = some (record {
    succeeded_condition = record { key = "status.ready"; value = "True" };
    failed_condition = some (record { key = "status.failed"; value = "True" });
  });
}

abbrev inputs : PassThroughInput
inputs = record {
  get_sources = [];
  get_images = [];
  get_configs = [];
  get_deployment = some (record { url = text "https://git"; revision = text "main"; name = "" });
}

abbrev source_output : Output
source_output = only_source (text "https://git") (text "main")

ready_run :
    output at_path (deployment_pass_through_reader inputs (some when_ready)) (some deployed)
    ≡ some (ok source_output)
unfolding output read_deployment pass_deployment output_ready observed_completion_ready
    conditions_ready not_failed has_not_failed succeeded has_succeeded unless_match
    evaluate_json_path single ensure_valid_wrapping has_suffix interface_eq equals_text lookup
ready_run = refl

output-IsReady_example :
    (output at_path (deployment_pass_through_reader inputs (some when_ready)) (some deployed)
      ≡ some (ok source_output))
    ↔ (IsReady at_path deployed (some when_ready)
        × ((d : SourceInput) × (inputs.get_deployment ≡ some d)
            × (source_output ≡ only_source d.url d.revision)))
output-IsReady_example = output-IsReady at_path deployed inputs (some when_ready) source_output
