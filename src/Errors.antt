-- ===== src/Errors.antt =====
-- pkg/errors: the errors of realizing a resource, and which of them the reconcilers retry. The texts
-- of the errors are left out, and of a cause only what the code reads is kept.
use cartographer.Prelude.{String, Bool, true, false, not, Option, none, some, if◌then◌else◌}
use cartographer.Prelude.Dict.{Dict}
use cartographer.Conditions.{Status}
use cartographer.Repository.Cache.{Unstructured}
use cartographer.Repository.{RepoError}
use cartographer.Realizer.{OptionError}
use cartographer.Stamp.{StampError, json_path_error}

pub record RetrieveOutputError : Type 0 where
  pub cause : StampError
  pub resource_name : String
  pub stamped_object : Option Unstructured
  pub blueprint_name : String
  pub qualified_resource : String
  pub pass_through_input : String
  pub healthy : Status

-- `wrapped` is fmt.Errorf with `%w`, and `plain` an error without a type of its own.
pub data ResourceError : Type 0 where
  get_template_error : (cause resource_name template_name blueprint_name : String) → ResourceError
  stamp_error :
      (cause resource_name template_name template_kind blueprint_name : String) → ResourceError
  apply_stamped_object_error :
      (cause : RepoError) → Unstructured → (resource_name blueprint_name : String) → ResourceError
  list_created_objects_error :
      (cause : RepoError) → (namespace : String) → Dict String → ResourceError
  retrieve_output_error : RetrieveOutputError → ResourceError
  template_option_error : OptionError → (resource_name blueprint_name : String) → ResourceError
  wrapped : String → ResourceError → ResourceError
  plain : String → ResourceError

-- `errors.As(err, &typedErr)` for a RetrieveOutputError, also below a wrapping.
unfoldable pub as_retrieve_output_error : ResourceError → Option RetrieveOutputError
as_retrieve_output_error (retrieve_output_error e) = some e
as_retrieve_output_error (wrapped text e) = as_retrieve_output_error e
as_retrieve_output_error _ = none

abbrev pub no_jsonpath_context : String
no_jsonpath_context = "<no jsonpath context>"

-- Only a JsonPathError has an expression.
unfoldable pub json_path_expression : RetrieveOutputError → String
json_path_expression e = elim e.cause [
  | json_path_error expression cause ↦ expression
  | _ ↦ no_jsonpath_context
]

module _ (is_forbidden : RepoError → Bool) where
  -- The type switch looks at the error itself, and not below a wrapping.
  unfoldable pub is_unhandled_error_type : ResourceError → Bool
  is_unhandled_error_type (get_template_error cause resource template blueprint) = true
  is_unhandled_error_type (apply_stamped_object_error cause obj resource blueprint) =
      not (is_forbidden cause)
  is_unhandled_error_type (stamp_error cause resource template kind blueprint) = false
  is_unhandled_error_type (retrieve_output_error e) = false
  is_unhandled_error_type (template_option_error e resource blueprint) = false
  is_unhandled_error_type _ = true

-- What the reconciler gets: an error that is marked as unhandled, or the error as it was.
pub data Wrapped : Type 0 where
  unhandled_error : ResourceError → Wrapped
  handled_error : ResourceError → Wrapped

unfoldable pub wrap_unhandled_error : (RepoError → Bool) → ResourceError → Wrapped
wrap_unhandled_error is_forbidden e =
    if is_unhandled_error_type is_forbidden e then unhandled_error e else handled_error e

unfoldable pub is_unhandled_error : Wrapped → Bool
is_unhandled_error (unhandled_error e) = true
is_unhandled_error (handled_error e) = false
