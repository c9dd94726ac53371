-- ===== src/Submitted/Tests.antt =====
-- The conditions of some errors.
use cartographer.Prelude.{◌≡◌, refl, ◌==◌, true, false, String, Bool, none, some, [], ◌∷◌}
use cartographer.Prelude.Dict.{Dict}
use cartographer.Prelude.Json.{null}
use cartographer.Prelude.Result.{ok, err}
use cartographer.Conditions.{other_status, is_true}
use cartographer.Repository.Cache.{new_cache}
use cartographer.Repository.{State, Client, RepoError, not_found}
use cartographer.Realizer.{
  OwnerResource, OptionError, template_options_match, get_template_name_from_resource,
}
use cartographer.Stamp.{StampError, input_not_found}
use cartographer.Errors.{
  ResourceError, retrieve_output_error, template_option_error, is_unhandled_error_type,
}
use cartographer.Component.{ResourceRealizer, Attempt}
use cartographer.Component.Do.{do_resource}
use cartographer.Submitted.{workload_condition, deliverable_condition}
use cartographer.Submitted.Reasons.{error_condition-status, option_failure-reason}

abbrev error_text : ResourceError → String
error_text e = "error"

abbrev cause_text : StampError → String
cause_text e = "cause"

abbrev no_input : ResourceError
no_input = retrieve_output_error (record {
  cause = input_not_found "code";
  resource_name = "source";
  stamped_object = none;
  blueprint_name = "web-chain";
  qualified_resource = "";
  pass_through_input = "code";
  healthy = other_status "";
})

error_condition-status_example :
    (is_true (workload_condition error_text cause_text false no_input).status ≡ false)
    × (is_true (deliverable_condition error_text cause_text false no_input).status ≡ false)
error_condition-status_example = error_condition-status error_text cause_text false no_input

abbrev server : Client (Dict String)
server = record {
  get = λ o w. err not_found;
  list = λ o labels w. ok [];
  create = λ o w. (ok o, w);
  patch = λ old o w. (ok o, w);
  delete = λ o w. (ok tt, w);
}

abbrev realizer : ResourceRealizer (Dict String) (Dict String)
realizer = record {
  owner = [];
  selectable = record { get_labels = λ o. o; evaluate = λ path o. ok [] };
  as_selector = λ s. ok (λ l. true);
  system_repo = λ kind name w. err not_found;
  owner_repo = server;
  stamp = λ template resource outputs labels. err "no template";
  resource_labeler = λ resource template. [];
  stamped = record { get_labels = λ o. o.labels; evaluate = λ path o. ok [] };
  reading = record { status = λ o. null; decode_conditions = λ v. none; show = λ v. "" };
  sort = λ before objects. objects;
  mapper = λ o. none;
}

abbrev image : OwnerResource
image = record {
  template_ref = record { kind = "ClusterImageTemplate"; name = "" };
  template_options =
      record {
        name = "kpack";
        pass_through = "";
        selector = record {
          label_selector = record { match_labels = []; match_expressions = [] };
          match_fields = [];
        };
        nils = record {
          match_labels = true;
          match_expressions = true;
          match_fields = true;
          values = [];
        };
      }
      ∷ [];
  params = [];
  name = "image";
  sources = [];
  images = [];
  configs = [];
  deployment = none;
}

abbrev empty_cluster : State (Dict String)
empty_cluster = record { world = []; cache = new_cache; events = [] }

abbrev never : RepoError → Bool
never e = false

abbrev none_matches : OptionError
none_matches = template_options_match []

no_choice :
    get_template_name_from_resource realizer.selectable realizer.as_selector image realizer.owner
    ≡ some (err none_matches)
unfolding get_template_name_from_resource cartographer.Realizer.find_matching_template_option
    cartographer.Selector.best_selector_match_indices cartographer.Selector.match_score
    cartographer.Selector.matches_all_fields cartographer.Selector.Choice.select_all
no_choice = refl

option_failure-reason_example :
    (a : Attempt) × (failure : ResourceError) × (do_resource realizer image "web-chain" []
        empty_cluster
      ≡ some (a, empty_cluster))
    × (a.error ≡ some failure)
    × ((workload_condition error_text cause_text false failure).reason ≡ "UnknownError")
    × ((deliverable_condition error_text cause_text false failure).reason ≡ "UnknownError")
    × (is_unhandled_error_type never failure ≡ true)
    × (((workload_condition error_text cause_text false
            (template_option_error none_matches "image" "web-chain")).reason
          == "UnknownError")
        ≡ false)
    × (is_unhandled_error_type never (template_option_error none_matches "image" "web-chain")
        ≡ false)
option_failure-reason_example =
    option_failure-reason error_text cause_text never false realizer image "web-chain" []
      empty_cluster none_matches no_choice
