-- ===== src/Realizer/Tests.antt =====
-- Runs of the inputs and of the choice of a template, for an owner with one label.
use cartographer.Prelude.{true, false, ◌⊎◌, String, Bool, true, none, some, List, [], ◌∷◌}
use cartographer.Prelude.Dict.{Dict}
use cartographer.Prelude.Json.{text, null}
use cartographer.Prelude.Result.{Result, ok}
use cartographer.Selector.{Selectable, LabelSelector, Selector}
use cartographer.Validation.{SelectorNils, TemplateOption}
use cartographer.Realizer.{Outputs, OwnerResource, find_matching_template_option}
use cartographer.Realizer.Options.{IsResolved, IsUnresolved, find_matching_template_option_total}

abbrev git : Outputs
git =
    (
      "source",
      some (record {
        source = some (record { url = text "https://git"; revision = text "main" });
        image = null;
        config = null;
      }),
    )
    ∷ []

abbrev by_label : Selector
by_label = record {
  label_selector = record { match_labels = ("app", "web") ∷ []; match_expressions = [] };
  match_fields = [];
}

abbrev nils : SelectorNils
nils = record { match_labels = false; match_expressions = true; match_fields = true; values = [] }

abbrev options : List TemplateOption
options = record { name = "kpack"; pass_through = ""; selector = by_label; nils = nils } ∷ []

abbrev image : OwnerResource
image = record {
  template_ref = record { kind = "ClusterImageTemplate"; name = "" };
  template_options = options;
  params = [];
  name = "image";
  sources = record { name = "code"; resource = "source" } ∷ [];
  images = [];
  configs = [];
  deployment = none;
}

abbrev labels : Selectable (Dict String)
labels = record { get_labels = λ o. o; evaluate = λ path o. ok [] }

abbrev any_labels : LabelSelector → Result String (Dict String → Bool)
any_labels s = ok (λ l. true)

abbrev owner : Dict String
owner = ("app", "web") ∷ []

find_matching_template_option_total_example :
    IsResolved labels any_labels owner options
      (find_matching_template_option labels any_labels options owner)
    ⊎ IsUnresolved labels any_labels owner options
        (find_matching_template_option labels any_labels options owner)
find_matching_template_option_total_example =
    find_matching_template_option_total labels any_labels owner options
