-- ===== src/Selector/Tests.antt =====
-- Runs of the selection, on objects that are a set of labels and have one field, `spec.url`.
use cartographer.Prelude.{
  ◌≡◌, refl, ◌↔◌, ◌⊎◌, String, Bool, true, List, [], ◌∷◌, ◌==◌, if◌then◌else◌, is_nil, not, ◌||◌,
  All, All,
}
use cartographer.Prelude.Dict.{Dict}
use cartographer.Prelude.Json.{text, equals_text}
use cartographer.Prelude.Result.{Result, ok}
use cartographer.Eval.{ensure_valid_wrapping, has_suffix, evaluate_json_path, single}
use cartographer.Selector.{
  op_in, op_exists, FieldSelectorRequirement, LabelSelector, Selector, Selectable, matches,
  matches_value, matches_all_fields, match_score, match_result, best_loop,
  best_selector_match_indices,
}
use cartographer.Selector.Scores.{listed}
use cartographer.Selector.Best.{IsMostSpecific, best_selector_match_indices-IsMostSpecific}
use cartographer.Selector.Fields.{Holds, matches_all_fields-Holds}
use cartographer.Selector.Choice.{
  SelectingObject, best_selector_match, best_selector_match_total, IsSelected, IsBlamed,
}

-- The labels of the object are its text.
abbrev by_text : Selectable (Dict String)
by_text = record {
  get_labels = λ o. o;
  evaluate = λ path o. if path == "{.spec.url}" then ok (text "git" ∷ []) else ok [];
}

-- The labels that a selector names are there.
abbrev has_labels : LabelSelector → Result String (Dict String → Bool)
has_labels s = ok (λ labels. is_nil s.match_labels || not (is_nil labels))

abbrev workload : Dict String
workload = ("app", "web") ∷ []

abbrev by_label : Selector
by_label = record {
  label_selector = record { match_labels = ("app", "web") ∷ []; match_expressions = [] };
  match_fields = [];
}

abbrev url_is_git : FieldSelectorRequirement
url_is_git = record { key = "spec.url"; operator = op_in; values = "git" ∷ [] }

abbrev url_exists : FieldSelectorRequirement
url_exists = record { key = "spec.url"; operator = op_exists; values = [] }

abbrev by_both : Selector
by_both = record by_label { match_fields = url_is_git ∷ [] }

abbrev by_either : List Selector
by_either = by_label ∷ by_both ∷ []

second : best_selector_match_indices by_text has_labels workload by_either ≡ ok (1 ∷ [])
unfolding best_selector_match_indices best_loop match_score matches_all_fields matches match_result
    matches_value evaluate_json_path single ensure_valid_wrapping has_suffix equals_text
second = refl

best_selector_match_indices-IsMostSpecific_example :
    (listed 1 (1 ∷ []) ≡ true) ↔ IsMostSpecific by_text has_labels workload by_either 1
best_selector_match_indices-IsMostSpecific_example =
    best_selector_match_indices-IsMostSpecific by_text has_labels workload by_either (1 ∷ []) second
      1

matches_all_fields-Holds_example :
    (matches_all_fields by_text workload (url_is_git ∷ url_exists ∷ []) ≡ ok true)
    ↔ All (Holds by_text workload) (url_is_git ∷ url_exists ∷ [])
matches_all_fields-Holds_example =
    matches_all_fields-Holds by_text workload (url_is_git ∷ url_exists ∷ [])

abbrev chain : SelectingObject
chain = record {
  kind = "ClusterSupplyChain";
  name = "web";
  selectors = record {
    selector = ("app", "web") ∷ [];
    selector_match_expressions = [];
    selector_match_fields = url_exists ∷ [];
  };
}

best_selector_match_total_example :
    IsSelected by_text has_labels workload
      (chain ∷ [])
      (best_selector_match by_text has_labels workload (chain ∷ []))
    ⊎ IsBlamed by_text has_labels workload
        (chain ∷ [])
        (best_selector_match by_text has_labels workload (chain ∷ []))
best_selector_match_total_example =
    best_selector_match_total by_text has_labels workload (chain ∷ [])
