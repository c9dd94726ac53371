-- ===== src/Runnable/Realize.antt =====
-- pkg/realizer/runnable/realizer.go, and the errors of pkg/errors/runnable_errors.go. The template
-- of the run, the discovery of API resources, the stamper's libraries and the REST mapping are
-- parameters; the texts of the errors are left out.
use cartographer.Prelude.{
  String, Bool, true, false, not, ◌&&◌, Option, none, some, List, [], ◌∷◌, ◌==◌, eqb, length,
  if◌then◌else◌,
}
use cartographer.Prelude.Dict.{Dict, lookup}
use cartographer.Prelude.Json.{Json, null}
use cartographer.Prelude.Result.{Result, ok, err}
use cartographer.Selector.{Selectable}
use cartographer.Healthcheck.{Reading, determine_stamped_object_health}
use cartographer.Validation.Template.{HealthRule, RetentionPolicy}
use cartographer.Repository.Cache.{Unstructured}
use cartographer.Repository.{
  ApiError, Client, State, RepoError, list_unstructured, ensure_immutable_object_exists_on_cluster,
}
use cartographer.Templates.Stamper.{Owner, Stamper, TemplateError, stamp}
use cartographer.Runnable.{Sort, ExaminedObject, cleanup_runnable_stamped_objects}
use cartographer.Runnable.Outputs.{
  RunTemplate, RunOutputs, RunOutputError, LatestOutput, get_resource_template,
  get_latest_successful_output,
}

-- v1alpha1.ResourceSelector
pub record ResourceSelector : Type 0 where
  pub api_version : String
  pub kind : String
  pub matching_labels : Dict String

-- v1alpha1.Runnable; the outputs of its status are `none` where they are nil.
pub record Runnable : Type 0 where
  pub object : Owner
  pub run_template_kind : String
  pub run_template_name : String
  pub selector : Option ResourceSelector
  pub inputs : Dict Json
  pub service_account_name : String
  pub retention_policy : RetentionPolicy
  pub status_outputs : Option RunOutputs

pub record TemplatingContext : Type 0 where
  pub runnable : Runnable
  pub selected : Option Unstructured

-- An entry of metav1.APIResourceList
pub record ApiResource : Type 0 where
  pub kind : String
  pub namespaced : Bool

pub data SelectorFailure : Type 0 where
  discovery_failed : String → SelectorFailure
  listing_failed : RepoError → SelectorFailure
  no_object multiple_objects : SelectorFailure

pub data RunnableError : Type 0 where
  runnable_get_run_template_error : ApiError → (template : String) → RunnableError
  runnable_resolve_selector_error : SelectorFailure → Option ResourceSelector → RunnableError
  runnable_stamp_error : TemplateError → (template : String) → RunnableError
  runnable_apply_stamped_object_error :
      RepoError → Unstructured → (template : String) → RunnableError
  list_created_objects_error : RepoError → (namespace : String) → Dict String → RunnableError
  runnable_retrieve_output_error :
      RunOutputError → Unstructured → (template qualified_resource : String) → RunnableError

-- What Realize returns, and the object in which it tells of a new output.
pub record Realization : Type 0 where
  pub stamped_object : Option Unstructured
  pub outputs : Option RunOutputs
  pub new_output_in : Option Unstructured
  pub error : Option RunnableError

pub record Realizer (World : Type 0) : Type 0 where
  pub system_repo : String → World → Result ApiError RunTemplate
  pub runnable_repo : Client World
  pub discovery : String → Result String (List ApiResource)
  pub stamper : Stamper TemplatingContext Unstructured
  pub evaluate : String → Unstructured → Result String (List Json)
  pub selectable : Selectable Unstructured
  pub reading : Reading Unstructured
  pub sort : Sort
  pub qualified_resource : Unstructured → Option String

-- The first API resource of the kind decides; without one, the objects are not namespaced.
unfoldable pub is_namespaced : String → List ApiResource → Bool
is_namespaced kind [] = false
is_namespaced kind (a ∷ rs) =
    let rest = is_namespaced kind rs in if a.kind == kind then a.namespaced else rest

-- The kind and the namespace that are listed.
abbrev pub listed_kind : ResourceSelector → String → Unstructured
listed_kind selector namespace = record {
  api_version = selector.api_version;
  kind = selector.kind;
  namespace = namespace;
  name = "";
  generate_name = "";
  resource_version = "";
  creation_timestamp = 0;
  labels = [];
  spec = none;
  others = null;
}

unfoldable pub only_object :
    Result RepoError (List Unstructured) → Result SelectorFailure (Option Unstructured)
only_object (err e) = err (listing_failed e)
only_object (ok []) = err no_object
only_object (ok (obj ∷ [])) = ok (some obj)
only_object (ok (obj ∷ obj' ∷ objs)) = err multiple_objects

-- reflect.DeepEqual, where the second map is not nil.
unfoldable pub all_at : RunOutputs → RunOutputs → Bool
all_at [] n = true
all_at ((k, v) ∷ m) n =
    let rest = all_at m n in
    elim (lookup k n) [ none ↦ false | some w ↦ if v == w then rest else false ]

unfoldable pub same_outputs : Option RunOutputs → RunOutputs → Bool
same_outputs none n = false
same_outputs (some m) n = eqb (length m) (length n) && all_at m n

abbrev pub run_health_rule : HealthRule
run_health_rule = record {
  always_healthy = false;
  single_condition_type = "Succeeded";
  multi_match = none;
}

abbrev pub stopped : Option Unstructured → RunnableError → Realization
stopped obj e = record {
  stamped_object = obj;
  outputs = none;
  new_output_in = none;
  error = some e;
}

unfoldable pub qualified_or_logged : Option String → String
qualified_or_logged (some name) = name
qualified_or_logged none =
    "could not fetch - see logs for 'failed to retrieve qualified resource name'"

-- Without outputs, those of the status are kept.
unfoldable pub outputs_or_status : Runnable → RunOutputs → Option RunOutputs
outputs_or_status runnable [] = runnable.status_outputs
outputs_or_status runnable (o ∷ os) = some (o ∷ os)

unfoldable pub new_output : Runnable → Unstructured → LatestOutput → Option Unstructured
new_output runnable stamped latest = elim latest.source [
  | none ↦ none
  | some source ↦
      if not (same_outputs runnable.status_outputs latest.outputs) then some stamped else none
]

module _ {World : Type 0} (r : Realizer World) where
  unfoldable pub resolve_selector :
      Option ResourceSelector → String → State World → Result SelectorFailure (Option Unstructured)
  resolve_selector none namespace s = ok none
  resolve_selector (some selector) namespace s = elim (r.discovery selector.api_version) [
    | err e ↦ err (discovery_failed e)
    | ok resources ↦ only_object (
        list_unstructured r.runnable_repo
          (listed_kind selector (if is_namespaced selector.kind resources then namespace else ""))
          selector.matching_labels s)
  ]

  -- StamperBuilder, with the libraries of the realizer's stamper.
  unfoldable pub stamper_builder :
      Runnable → TemplatingContext → Dict String → Stamper TemplatingContext Unstructured
  stamper_builder runnable context labels = record r.stamper {
    templating_context = context;
    owner = runnable.object;
    labels = labels;
  }

  -- The loop over the listed objects; `none` is a panic.
  unfoldable pub examine_runs : List Unstructured → Option (List ExaminedObject)
  examine_runs [] = some []
  examine_runs (obj ∷ objs) =
      elim (determine_stamped_object_health r.selectable r.reading (some run_health_rule)
        (some obj)) [
          | none ↦ none
          | some health ↦ elim (examine_runs objs) [
            | none ↦ none
            | some rest ↦ some (record { stamped_object = obj; health = health } ∷ rest)
          ]
        ]

  module _ (runnable : Runnable) where
    unfoldable pub latest_realized : Unstructured → LatestOutput → Realization
    latest_realized stamped latest = elim latest.error [
      | some e ↦ stopped (some stamped) (
          runnable_retrieve_output_error e stamped runnable.run_template_name
            (qualified_or_logged (r.qualified_resource stamped)))
      | none ↦ record {
        stamped_object = some stamped;
        outputs = outputs_or_status runnable latest.outputs;
        new_output_in = new_output runnable stamped latest;
        error = none;
      }
    ]

    unfoldable pub cleaned_up :
        RunTemplate
        → Unstructured
        → List Unstructured
        → State World
        → Option (List ExaminedObject)
        → Option (Realization × State World)
    cleaned_up template stamped all s none = none
    cleaned_up template stamped all s (some runs) = some (
      latest_realized stamped
          (get_latest_successful_output r.evaluate r.stamper.marshal template all),
      cleanup_runnable_stamped_objects r.runnable_repo r.sort runs runnable.retention_policy s,
    )

    unfoldable pub runs_listed :
        RunTemplate
        → Dict String
        → Unstructured
        → State World
        → Result RepoError (List Unstructured)
        → Option (Realization × State World)
    runs_listed template labels stamped s (err e) =
        some (stopped (some stamped) (list_created_objects_error e stamped.namespace labels), s)
    runs_listed template labels stamped s (ok all) =
        cleaned_up template stamped all s (examine_runs all)

    -- An object that the write leaves as it is stamped is named in the error.
    unfoldable pub run_applied :
        RunTemplate
        → Dict String
        → Unstructured
        → Result RepoError Unstructured × State World
        → Option (Realization × State World)
    run_applied template labels submitted (err e, s) = some (
      stopped none (runnable_apply_stamped_object_error e submitted runnable.run_template_name),
      s,
    )
    run_applied template labels submitted (ok stamped, s) =
        runs_listed template labels stamped s (list_unstructured r.runnable_repo stamped labels s)

    unfoldable pub run_stamped :
        RunTemplate
        → Dict String
        → Result TemplateError Unstructured
        → State World
        → Option (Realization × State World)
    run_stamped template labels (err e) s =
        some (stopped none (runnable_stamp_error e runnable.run_template_name), s)
    run_stamped template labels (ok obj) s = run_applied template labels obj (
        ensure_immutable_object_exists_on_cluster r.runnable_repo obj
          (("carto.run/runnable-name", runnable.object.name) ∷ []) s)

    unfoldable pub run_labels : RunTemplate → Dict String
    run_labels template =
        ("carto.run/runnable-name", runnable.object.name)
        ∷ ("carto.run/run-template-name", template.name)
        ∷ []

    unfoldable pub run_selected :
        RunTemplate
        → Result SelectorFailure (Option Unstructured)
        → State World
        → Option (Realization × State World)
    run_selected template (err e) s =
        some (stopped none (runnable_resolve_selector_error e runnable.selector), s)
    run_selected template (ok selected) s =
        let labels = run_labels template in
        let stamper =
          stamper_builder runnable (record { runnable = runnable; selected = selected }) labels in
        run_stamped template labels (stamp stamper (get_resource_template template)) s

    unfoldable pub run_with :
        Result ApiError RunTemplate → State World → Option (Realization × State World)
    run_with (err e) s =
        some (stopped none (runnable_get_run_template_error e runnable.run_template_name), s)
    run_with (ok template) s =
        run_selected template (resolve_selector runnable.selector runnable.object.namespace s) s

  -- The kind of the template is set first.
  unfoldable pub realize_runnable : Runnable → State World → Option (Realization × State World)
  realize_runnable runnable s =
      run_with (record runnable { run_template_kind = "ClusterRunTemplate" })
        (r.system_repo runnable.run_template_name s.world) s
