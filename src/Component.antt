-- ===== src/Component.antt =====
-- pkg/realizer/component.go: the realizer of a resource, and a resource whose input is passed
-- through. The client, the stamping of a template, the labels, the sort and the REST mapping are the
-- fields of the realizer.
pub mod Apply
pub mod Do
pub mod Branches
pub mod PassThrough
mod Tests
use Prim.Native.String.{◌++◌ as ◌+++◌}
use cartographer.Prelude.{
  String, Bool, true, false, Option, none, some, List, [], ◌∷◌, ◌==◌, if◌then◌else◌,
}
use cartographer.Prelude.Dict.{Dict}
use cartographer.Prelude.Result.{Result, ok, err}
use cartographer.Selector.{Selectable, LabelSelector}
use cartographer.Conditions.{other_status}
use cartographer.Healthcheck.{Reading, determine_stamped_object_health}
use cartographer.Repository.Cache.{Unstructured}
use cartographer.Repository.{
  ApiError, Client, State, RepoError, list_unstructured, ensure_mutable_object_exists_on_cluster,
  ensure_immutable_object_exists_on_cluster,
}
use cartographer.Repository.Templates.{GetError, invalid_kind, failed_to_get, get_template}
use cartographer.Validation.{TemplateOption}
use cartographer.Validation.Template.{HealthRule}
use cartographer.Runnable.{
  Sort, ExaminedObject, cleanup_runnable_stamped_objects,
  get_latest_successful_obj_from_examined_object,
}
use cartographer.Realizer.{
  Output, Outputs, OwnerResource, get_sources, get_images, get_configs, get_deployment,
  TemplateChoice, get_template_name_from_resource,
}
use cartographer.Templates.{TemplateObject, Reader, is_immutable, new_reader_from_api}
use cartographer.Stamp.{
  PassThroughInput, Outputter, Outcome, new_pass_through_reader, new_reader, output,
}
use cartographer.Errors.{
  ResourceError, get_template_error, stamp_error, apply_stamped_object_error,
  list_created_objects_error, retrieve_output_error, template_option_error, wrapped, plain,
}

-- meta.RESTMapping
pub record GroupResource : Type 0 where
  pub group : String
  pub resource : String

-- What Do returns.
pub record Attempt : Type 0 where
  pub template : Option Reader
  pub stamped_object : Option Unstructured
  pub output : Option Output
  pub is_pass_through : Bool
  pub template_name : String
  pub error : Option ResourceError

-- resourceRealizer, with the mapper. `stamp` makes the context of the template and stamps it.
pub record ResourceRealizer (World Owner : Type 0) : Type 0 where
  pub owner : Owner
  pub selectable : Selectable Owner
  pub as_selector : LabelSelector → Result String (Dict String → Bool)
  pub system_repo : (kind name : String) → World → Result ApiError TemplateObject
  pub owner_repo : Client World
  pub stamp : Reader → OwnerResource → Outputs → Dict String → Result String Unstructured
  pub resource_labeler : OwnerResource → Reader → Dict String
  pub stamped : Selectable Unstructured
  pub reading : Reading Unstructured
  pub sort : Sort
  pub mapper : Unstructured → Option GroupResource

unfoldable pub new_input_generator : OwnerResource → Outputs → PassThroughInput
new_input_generator resource outputs = record {
  get_sources = get_sources resource outputs;
  get_images = get_images resource outputs;
  get_configs = get_configs resource outputs;
  get_deployment = get_deployment resource outputs;
}

qualified : Option GroupResource → Option String
qualified none = none
qualified (some m) = some (if m.group == "" then m.resource else m.resource +++ ("." +++ m.group))

-- utils.GetQualifiedResource; `none` where the mapper has no mapping.
unfoldable pub get_qualified_resource :
    (Unstructured → Option GroupResource) → Unstructured → Option String
unfolding qualified
get_qualified_resource mapper obj = qualified (mapper obj)

unfoldable pub qualified_or_failed : Option String → String
qualified_or_failed (some name) = name
qualified_or_failed none =
    "could not fetch - see the log line for 'failed to retrieve qualified resource name'"

unfoldable pub get_error_text : GetError → String
get_error_text (invalid_kind kind) = kind
get_error_text (failed_to_get e) = e

-- An attempt that has no object and no output.
unfoldable pub failed : Option Reader → Bool → String → ResourceError → Attempt
failed template pass_through name e = record {
  template = template;
  stamped_object = none;
  output = none;
  is_pass_through = pass_through;
  template_name = name;
  error = some e;
}

-- The PassThrough of a zero option is empty.
unfoldable pub pass_through_of : Option TemplateOption → String
pass_through_of none = ""
pass_through_of (some o) = o.pass_through

module _ {World Owner : Type 0} (r : ResourceRealizer World Owner) (resource : OwnerResource)
    (blueprint_name : String) (choice : TemplateChoice) where
  -- The ends of the branches: what the reader returned; `none` is a panic.
  unfoldable pub retrieved :
      Option Reader → Option Unstructured → (qualified : String) → Outcome Output → Option Attempt
  unfolding pass_through_of
  retrieved template stamped qualified none = none
  retrieved template stamped qualified (some (ok o)) = some (record {
    template = template;
    stamped_object = stamped;
    output = some o;
    is_pass_through = choice.pass_through;
    template_name = choice.template_name;
    error = none;
  })
  retrieved template stamped qualified (some (err e)) = some (record {
    template = template;
    stamped_object = stamped;
    output = none;
    is_pass_through = choice.pass_through;
    template_name = choice.template_name;
    error = some (
        retrieve_output_error (record {
          cause = e;
          resource_name = resource.name;
          stamped_object = stamped;
          blueprint_name = blueprint_name;
          qualified_resource = qualified;
          pass_through_input = pass_through_of choice.template_option;
          healthy = other_status "";
        }));
  })

  unfoldable pub do_passthrough : PassThroughInput → Option Attempt
  unfolding pass_through_of
  do_passthrough inputs =
      elim (new_pass_through_reader resource.template_ref.kind
        (pass_through_of choice.template_option) inputs) [
          | none ↦ some (
              failed none choice.pass_through choice.template_name (
                wrapped "failed to create new stamp pass through reader"
                  (plain "kind does not match a known template")))
          | some reader ↦ retrieved none none "" (output r.stamped.evaluate reader none)
        ]
