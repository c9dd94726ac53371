-- ===== src/Component/Do.antt =====
-- pkg/realizer/component.go: Do.
use cartographer.Prelude.{String, false, Option, none, some, if◌then◌else◌}
use cartographer.Prelude.Dict.{Dict}
use cartographer.Prelude.Result.{Result, ok, err}
use cartographer.Repository.Cache.{Unstructured}
use cartographer.Repository.{State}
use cartographer.Repository.Templates.{GetError, invalid_kind, failed_to_get, get_template}
use cartographer.Realizer.{
  Outputs, OwnerResource, OptionError, TemplateChoice, get_template_name_from_resource,
}
use cartographer.Templates.{TemplateObject, Reader, is_immutable, new_reader_from_api}
use cartographer.Stamp.{Outputter, new_reader}
use cartographer.Errors.{
  ResourceError, get_template_error, stamp_error, template_option_error, wrapped, plain,
}
use cartographer.Component.{Attempt, ResourceRealizer, new_input_generator, failed, do_passthrough}
use cartographer.Component.Apply.{do_mutable, do_immutable}

unfoldable pub get_error_text : GetError → String
get_error_text (invalid_kind kind) = kind
get_error_text (failed_to_get e) = e

module _ {World Owner : Type 0} (r : ResourceRealizer World Owner) (resource : OwnerResource)
    (blueprint_name : String) (outputs : Outputs) where
  module _ (choice : TemplateChoice) (s : State World) where
    unfoldable pub ended : Option Reader → ResourceError → Option (Attempt × State World)
    ended template e = some (failed template choice.pass_through choice.template_name e, s)

    unfoldable pub with_reader :
        Reader → Dict String → Unstructured → Option Outputter → Option (Attempt × State World)
    unfolding ended
    with_reader template labels obj none = ended none (
        wrapped "failed to create new stamp reader"
          (plain "template does not match a known template"))
    with_reader template labels obj (some reader) =
        if is_immutable template.lifecycle
        then do_immutable r resource blueprint_name choice template reader labels obj s
        else do_mutable r resource blueprint_name choice template reader obj s

    unfoldable pub stamped_with :
        TemplateObject
        → Reader
        → Dict String
        → Result String Unstructured
        → Option (Attempt × State World)
    unfolding ended with_reader
    stamped_with object template labels (err e) =
        ended (some template) (
          stamp_error e resource.name choice.template_name resource.template_ref.kind
            blueprint_name)
    stamped_with object template labels (ok obj) =
        with_reader template labels obj (new_reader object (new_input_generator resource outputs))

    unfoldable pub with_template : TemplateObject → Option Reader → Option (Attempt × State World)
    unfolding ended stamped_with
    with_template object none = ended none (
        wrapped "failed to get cluster template" (plain "resource does not match a known template"))
    with_template object (some template) =
        let labels = r.resource_labeler resource template in
        stamped_with object template labels (r.stamp template resource outputs labels)

    -- A template that is not on the cluster is a nil object, of no known type.
    unfoldable pub with_object :
        Result GetError (Option TemplateObject) → Option (Attempt × State World)
    unfolding ended with_template get_error_text
    with_object (err e) =
        ended none
          (get_template_error (get_error_text e) resource.name choice.template_name blueprint_name)
    with_object (ok none) = ended none (
        wrapped "failed to get cluster template" (plain "resource does not match a known template"))
    with_object (ok (some object)) = with_template object (new_reader_from_api object)

    unfoldable pub do_template : Option (Attempt × State World)
    unfolding with_object
    do_template = with_object (
        get_template (λ kind name. r.system_repo kind name s.world) choice.template_name
          resource.template_ref.kind)

    unfoldable pub passed : Option Attempt → Option (Attempt × State World)
    passed none = none
    passed (some a) = some (a, s)

    unfoldable pub do_chosen : Option (Attempt × State World)
    unfolding passed
    do_chosen =
        if choice.pass_through
        then passed
            (do_passthrough r resource blueprint_name choice (new_input_generator resource outputs))
        else do_template

  -- Both callers wrap the error of an option.
  unfoldable pub option_failure : OptionError → ResourceError
  option_failure e = wrapped "get template name from resource" (
      wrapped "find matching template option"
        (template_option_error e resource.name blueprint_name))

  unfoldable pub with_choice :
      State World → Option (Result OptionError TemplateChoice) → Option (Attempt × State World)
  unfolding option_failure
  with_choice s none = none
  with_choice s (some (err e)) = some (failed none false "" (option_failure e), s)
  with_choice s (some (ok choice)) = do_chosen choice s

  -- The results of Do, and the state it leaves; `none` is a panic.
  unfoldable pub do_resource : State World → Option (Attempt × State World)
  unfolding with_choice
  do_resource s =
      with_choice s (get_template_name_from_resource r.selectable r.as_selector resource r.owner)
