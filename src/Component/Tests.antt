-- ===== src/Component/Tests.antt =====
-- Runs of Do, on a cluster with one template and a server that keeps what is written.
use cartographer.Prelude.{◌≡◌, true, String, none, some, List, [], ◌∷◌}
use cartographer.Prelude.Dict.{Dict}
use cartographer.Prelude.Json.{null, text}
use cartographer.Prelude.Result.{ok, err}
use cartographer.Repository.Cache.{Unstructured, new_cache}
use cartographer.Repository.{Client, State, not_found}
use cartographer.Templates.{TemplateObject, cluster_image_template}
use cartographer.Realizer.{OwnerResource, TemplateChoice, Outputs}
use cartographer.Stamp.{only_source}
use cartographer.Component.{
  Attempt, ResourceRealizer, new_input_generator, pass_through_of, do_passthrough,
}
use cartographer.Component.Do.{do_resource}
use cartographer.Component.Branches.{IsDone, do_resource-IsDone}
use cartographer.Component.PassThrough.{passed_output, do_passthrough_lem}

abbrev image : Unstructured
image = record {
  api_version = "kpack.io/v1alpha2";
  kind = "Image";
  namespace = "dev";
  name = "web";
  generate_name = "";
  resource_version = "";
  creation_timestamp = 0;
  labels = [];
  spec = some (text "tag");
  others = null;
}

abbrev server : Client (List Unstructured)
server = record {
  get = λ o w. err not_found;
  list = λ o labels w. ok w;
  create = λ o w. (ok o, o ∷ w);
  patch = λ old o w. (ok o, w);
  delete = λ o w. (ok tt, w);
}

abbrev kpack : TemplateObject
kpack = cluster_image_template (record {
  template_spec = record {
    template = some "{}";
    ytt = "";
    health_rule = none;
    lifecycle = "mutable";
    retention_policy = none;
  };
  image_path = "status.latestImage";
})

abbrev realizer : ResourceRealizer (List Unstructured) (Dict String)
realizer = record {
  owner = ("app", "web") ∷ [];
  selectable = record { get_labels = λ o. o; evaluate = λ path o. ok [] };
  as_selector = λ s. ok (λ l. true);
  system_repo = λ kind name w. ok kpack;
  owner_repo = server;
  stamp = λ template resource outputs labels. ok image;
  resource_labeler = λ resource template. [];
  stamped = record { get_labels = λ o. o.labels; evaluate = λ path o. ok (text "web@sha" ∷ []) };
  reading = record { status = λ o. null; decode_conditions = λ v. none; show = λ v. "value" };
  sort = λ before objects. objects;
  mapper = λ o. none;
}

abbrev build : OwnerResource
build = record {
  template_ref = record { kind = "ClusterImageTemplate"; name = "kpack" };
  template_options = [];
  params = [];
  name = "image";
  sources = [];
  images = [];
  configs = [];
  deployment = none;
}

abbrev empty_cluster : State (List Unstructured)
empty_cluster = record { world = []; cache = new_cache; events = [] }

do_resource-IsDone_example :
    IsDone empty_cluster (do_resource realizer build "web-chain" [] empty_cluster)
do_resource-IsDone_example = do_resource-IsDone empty_cluster realizer build "web-chain" []

abbrev fetch : OwnerResource
fetch = record build {
  template_ref = record { kind = "ClusterSourceTemplate"; name = "" };
  sources = record { name = "code"; resource = "source" } ∷ [];
}

abbrev outputs : Outputs
outputs = ("source", some (only_source (text "https://git") (text "main"))) ∷ []

abbrev pass_code : TemplateChoice
pass_code = record {
  template_name = "";
  pass_through = true;
  template_option = some (record {
    name = "";
    pass_through = "code";
    selector = record {
      label_selector = record { match_labels = []; match_expressions = [] };
      match_fields = [];
    };
    nils = record {
      match_labels = true;
      match_expressions = true;
      match_fields = true;
      values = [];
    };
  });
}

do_passthrough_lem_example :
    (a : Attempt) × (do_passthrough realizer fetch "web-chain" pass_code
        (new_input_generator fetch outputs)
      ≡ some a)
    × (a.output
        ≡ passed_output "ClusterSourceTemplate"
            (pass_through_of pass_code.template_option)
            (new_input_generator fetch outputs))
do_passthrough_lem_example =
    do_passthrough_lem realizer fetch "web-chain" pass_code (new_input_generator fetch outputs)
