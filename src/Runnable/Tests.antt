-- ===== src/Runnable/Tests.antt =====
-- Runs of the clean-up, on two successful objects and a policy that retains one, and of a runnable
-- whose template has one output.
use cartographer.Prelude.Dict.{IsMap}
use cartographer.Prelude.{subst, ap, ℕ, ◌≡◌, none, some, List, [], ◌∷◌, refl, String}
use cartographer.Prelude.Json.{null}
use cartographer.Prelude.Result.{Result, ok, err}
use cartographer.Conditions.{status_true}
use cartographer.Validation.Template.{RetentionPolicy}
use cartographer.Repository.Cache.{Unstructured, new_cache}
use cartographer.Repository.{Client, State, not_found, ApiError}
use cartographer.Prelude.Json.{text, object, end}
use cartographer.Templates.Stamper.{UnstructuredMethods, OwnerReference}
use cartographer.Runnable.Outputs.{RunTemplate, get_outputs_of_single_object}
use cartographer.Runnable.Realize.{Runnable, Realizer, TemplatingContext, realize_runnable}
use cartographer.Runnable.Written.{HaveDistinctKeys, IsRealized, realize_runnable-IsRealized}
use cartographer.Runnable.Read.{IsRead, get_outputs_of_single_object-IsRead}
use cartographer.Runnable.{
  ExaminedObject, cleanup_runnable_stamped_objects, get_latest_successful_obj_from_examined_object,
}
use cartographer.Runnable.Cleanup.{
  delete_all, IsRetained, cleanup_runnable_stamped_objects-IsRetained,
}
use cartographer.Runnable.Latest.{IsSuccess, AreUpTo, time_of, get_latest_successful_obj_lem}

-- A server that counts the deletions.
abbrev server : Client (List Unstructured)
server = record {
  get = λ o w. err not_found;
  list = λ o labels w. ok [];
  create = λ o w. (ok o, w);
  patch = λ old o w. (ok o, w);
  delete = λ o w. (ok tt, o ∷ w);
}

abbrev run : String → ℕ → ExaminedObject
run name at = record {
  stamped_object = record {
    api_version = "tekton.dev/v1";
    kind = "TaskRun";
    namespace = "dev";
    name = name;
    generate_name = "";
    resource_version = "";
    creation_timestamp = at;
    labels = [];
    spec = none;
    others = null;
  };
  health = status_true;
}

abbrev runs : List ExaminedObject
runs = run "second" 20 ∷ run "first" 10 ∷ []

abbrev policy : RetentionPolicy
policy = record { max_failed_runs = 1; max_successful_runs = 1 }

abbrev untouched : State (List Unstructured)
untouched = record { world = []; cache = new_cache; events = [] }

cleanup_runnable_stamped_objects-IsRetained_example :
    (gone : List ExaminedObject) × (cleanup_runnable_stamped_objects server
        (λ before es. es)
        runs
        policy
        untouched
      ≡ delete_all server gone untouched)
    × IsRetained policy runs gone
cleanup_runnable_stamped_objects-IsRetained_example =
    cleanup_runnable_stamped_objects-IsRetained server (λ before es. es) runs policy untouched

get_latest_successful_obj_lem_example :
    AreUpTo (time_of (get_latest_successful_obj_from_examined_object runs)) runs
    × ((o : Unstructured)
        → get_latest_successful_obj_from_examined_object runs ≡ some o
        → IsSuccess o runs)
get_latest_successful_obj_lem_example = get_latest_successful_obj_lem runs

abbrev methods : UnstructuredMethods Unstructured
methods = record {
  set_unstructured_content = λ fs. (run "third" 30).stamped_object;
  get_namespace = λ o. o.namespace;
  set_namespace = λ n o. record o { namespace = n };
  get_labels = λ o. o.labels;
  set_labels = λ ls o. record o { labels = ls };
  get_owner_references = λ o. [];
  set_owner_references = λ (refs : List OwnerReference) o. o;
}

abbrev task_run : Runnable
task_run = record {
  object = record {
    api_version = "carto.run/v1alpha1";
    kind = "Runnable";
    uid = "1";
    name = "tests";
    namespace = "dev";
  };
  run_template_kind = "";
  run_template_name = "tekton";
  selector = none;
  inputs = [];
  service_account_name = "";
  retention_policy = policy;
  status_outputs = none;
}

abbrev tekton : RunTemplate
tekton = record { name = "tekton"; template = "{}"; outputs = ("url", "status.url") ∷ [] }

abbrev context : TemplatingContext
context = record { runnable = task_run; selected = none }

abbrev realizer : Realizer (List Unstructured)
realizer = record {
  system_repo = λ name w. ok tekton;
  runnable_repo = server;
  discovery = λ version. ok [];
  stamper = record {
    templating_context = context;
    owner = task_run.object;
    labels = [];
    evaluate = λ path c. ok (text "value" ∷ []);
    marshal = λ v. ok "{}";
    unmarshal = λ raw. ok (object end);
    executor = λ template start_tag end_tag f. ok template;
    ytt = λ template c. err "no ytt";
    show = λ n. "0";
    methods = methods;
  };
  evaluate = λ path o. ok (text "value" ∷ []);
  selectable = record { get_labels = λ o. o.labels; evaluate = λ path o. ok (text "True" ∷ []) };
  reading = record { status = λ o. null; decode_conditions = λ v. none; show = λ v. "value" };
  sort = λ before es. es;
  qualified_resource = λ o. none;
}

distinct_keys : HaveDistinctKeys realizer task_run untouched
unfolding cartographer.Prelude.Dict.lookup
distinct_keys template h = subst (λ (t : RunTemplate). IsMap t.outputs) (template_of h) (refl, tt)
  where
    name_of : Result ApiError RunTemplate → RunTemplate
    name_of (ok t) = t
    name_of (err e) = template

    template_of : Path (Result ApiError RunTemplate) (ok tekton) (ok template) → tekton ≡ template
    template_of e = ap name_of e

realize_runnable-IsRealized_example :
    IsRealized realizer
      (record task_run { run_template_kind = "ClusterRunTemplate" })
      untouched
      (realize_runnable realizer task_run untouched)
realize_runnable-IsRealized_example =
    realize_runnable-IsRealized realizer task_run untouched distinct_keys

get_outputs_of_single_object-IsRead_example :
    IsRead realizer.evaluate realizer.stamper.marshal
      (run "first" 10).stamped_object
      tekton.outputs
      (get_outputs_of_single_object realizer.evaluate realizer.stamper.marshal tekton
        (run "first" 10).stamped_object)
unfolding cartographer.Prelude.Dict.lookup
get_outputs_of_single_object-IsRead_example =
    get_outputs_of_single_object-IsRead realizer.evaluate realizer.stamper.marshal
      (run "first" 10).stamped_object tekton (refl, tt)
