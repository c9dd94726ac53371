-- ===== src/Realize/Tests.antt =====
-- Runs of the realizer's loop, with a realizer of one resource that counts its calls.
use cartographer.Prelude.{
  ℕ, zero, suc, ◌≡◌, refl, true, false, String, Option, none, some, List, [], ◌∷◌, inl,
}
use cartographer.Prelude.Json.{null, text}
use cartographer.Prelude.Result.{ok, err}
use cartographer.Conditions.{Condition, status_true}
use cartographer.Statuses.{ResourceStatus, new_resource_statuses}
use cartographer.Realizer.{Output, Outputs, OwnerResource}
use cartographer.Stamp.{only_image, only_source}
use cartographer.Errors.{plain}
use cartographer.Prelude.Dict.{Dict}
use cartographer.Repository.Cache.{new_cache}
use cartographer.Repository.{State, not_found}
use cartographer.Component.{Attempt, ResourceRealizer}
use cartographer.Component.Do.{do_resource}
use cartographer.Realize.{Rendering, generate_realized_resource}
use cartographer.Realize.Loop.{Realizing, realized_resource, realize}
use cartographer.Realize.Loop.Recorded.{attempts, IsRealized, realize-IsRealized}
use cartographer.Realize.Kept.{generate_again, realized_resource-pass_through}

abbrev rendering : Rendering
rendering = record { marshal = λ v. ok "value"; shorten = λ s n. s; sha256 = λ s. s }

abbrev healthy : Condition
healthy = record {
  type = "Healthy";
  status = status_true;
  observed_generation = 0;
  last_transition_time = 0;
  reason = "AlwaysHealthy";
  message = "";
}

abbrev passing : Output → Attempt
passing o = record {
  template = none;
  stamped_object = none;
  output = some o;
  is_pass_through = true;
  template_name = "";
  error = none;
}

abbrev failing : Attempt
failing = record {
  template = none;
  stamped_object = none;
  output = none;
  is_pass_through = false;
  template_name = "";
  error = some (plain "no template");
}

-- The first call passes an input through, and the later ones fail.
abbrev call : ℕ → Attempt
call zero = passing (only_source (text "https://git") (text "main"))
call (suc n) = failing

abbrev realizing : Realizing ℕ
realizing = record {
  run = λ resource outputs n. some (call n, suc n);
  healthy_condition_evaluator = λ rule resource stamped. healthy;
  add_conditions_func = λ now is_owner e m. m;
  rendering = rendering;
  qualified = λ o. some "images.kpack.io";
}

abbrev resource_of : String → OwnerResource
resource_of name = record {
  template_ref = record { kind = "ClusterSourceTemplate"; name = "git" };
  template_options = [];
  params = [];
  name = name;
  sources = [];
  images = [];
  configs = [];
  deployment = none;
}

abbrev previous : ResourceStatus
previous = record {
  realized_resource = record {
    name = "source";
    stamped_ref = none;
    template_ref = none;
    inputs = none;
    outputs = none;
  };
  conditions = [];
}

abbrev chain : List OwnerResource
chain = resource_of "source" ∷ resource_of "image" ∷ []

abbrev clock : ℕ → ℕ → ℕ
clock i k = 100

realize-IsRealized_example :
    IsRealized realizing
      (attempts realizing.run chain [] 0)
      (realize realizing clock chain (new_resource_statuses (previous ∷ [])) 0)
realize-IsRealized_example = realize-IsRealized realizing clock chain (previous ∷ []) 0

-- A resource whose option passes its source through, for every workload that has the label.
abbrev fetch : OwnerResource
fetch = record (resource_of "source") {
  template_options =
      record {
        name = "";
        pass_through = "code";
        selector = record {
          label_selector = record { match_labels = ("app", "web") ∷ []; match_expressions = [] };
          match_fields = [];
        };
        nils = record {
          match_labels = false;
          match_expressions = true;
          match_fields = true;
          values = [];
        };
      }
      ∷ [];
  sources = record { name = "code"; resource = "code" } ∷ [];
}

abbrev realizer : ResourceRealizer (Dict String) (Dict String)
realizer = record {
  owner = ("app", "web") ∷ [];
  selectable = record { get_labels = λ o. o; evaluate = λ path o. ok [] };
  as_selector = λ s. ok (λ l. true);
  system_repo = λ kind name w. err not_found;
  owner_repo = record {
    get = λ o w. err not_found;
    list = λ o labels w. ok [];
    create = λ o w. (ok o, w);
    patch = λ old o w. (ok o, w);
    delete = λ o w. (ok tt, w);
  };
  stamp = λ template resource outputs labels. err "no template";
  resource_labeler = λ resource template. [];
  stamped = record { get_labels = λ o. o.labels; evaluate = λ path o. ok [] };
  reading = record { status = λ o. null; decode_conditions = λ v. none; show = λ v. "" };
  sort = λ before objects. objects;
  mapper = λ o. none;
}

abbrev code : Outputs
code = ("code", some (only_source (text "https://git") (text "v2"))) ∷ []

abbrev empty_cluster : State (Dict String)
empty_cluster = record { world = []; cache = new_cache; events = [] }

abbrev passed_code : Attempt
passed_code = passing (only_source (text "https://git") (text "v2"))

code_is_passed :
    do_resource realizer fetch "web-chain" code empty_cluster ≡ some (passed_code, empty_cluster)
unfolding do_resource cartographer.Realizer.get_template_name_from_resource
    cartographer.Realizer.find_matching_template_option
    cartographer.Selector.best_selector_match_indices cartographer.Selector.match_score
    cartographer.Selector.matches_all_fields cartographer.Selector.Choice.select_all
    cartographer.Component.Do.with_choice cartographer.Component.Do.do_chosen
    cartographer.Component.do_passthrough cartographer.Stamp.new_pass_through_reader
    cartographer.Component.retrieved cartographer.Stamp.output cartographer.Prelude.Dict.lookup
    cartographer.Component.new_input_generator cartographer.Realizer.get_sources
    cartographer.Realizer.collect cartographer.Realizer.get_source cartographer.Prelude.Dict.insert
code_is_passed = refl

realized_resource-pass_through_example :
    ((realized_resource realizing 5 fetch passed_code (some previous)).resource
      ≡ previous.realized_resource)
    × ((realized_resource realizing 5 fetch passed_code (some previous)).events ≡ [])
realized_resource-pass_through_example =
    realized_resource-pass_through realizer "web-chain" code empty_cluster empty_cluster realizing 5
      fetch passed_code previous code_is_passed (inl refl)

abbrev image : Option Output
image = some (only_image (text "web@sha"))

generate_again_example :
    generate_realized_resource rendering
      (λ o. none)
      9
      (resource_of "image")
      none
      none
      image
      (some (
        generate_realized_resource rendering
          (λ o. none)
          5
          (resource_of "image")
          none
          none
          image
          none
          true
          ""))
      true
      ""
    ≡ generate_realized_resource rendering
        (λ o. none)
        5
        (resource_of "image")
        none
        none
        image
        none
        true
        ""
generate_again_example =
    generate_again rendering (λ o. none) 5 9 (resource_of "image") none none image none true ""
