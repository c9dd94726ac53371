-- ===== src/Repository/Templates.antt =====
-- GetTemplate of pkg/repository/repository.go, with GetAPITemplate of pkg/apis/v1alpha1/common.go.
-- The typed read of a template is the parameter `get`, by its kind and name.
use cartographer.Prelude.{String, Bool, ◌||◌, Option, none, some, ◌==◌, if◌then◌else◌}
use cartographer.Prelude.Result.{Result, ok, err}
use cartographer.Templates.{TemplateObject}
use cartographer.Repository.{ApiError, not_found, other_error}

pub data GetError : Type 0 where
  invalid_kind : String → GetError
  failed_to_get : String → GetError

unfoldable pub is_template_kind : String → Bool
is_template_kind kind =
    kind == "ClusterSourceTemplate"
    || kind == "ClusterImageTemplate"
    || kind == "ClusterConfigTemplate"
    || kind == "ClusterTemplate"
    || kind == "ClusterDeploymentTemplate"

-- A template that is not there is nil, and no error.
found_template : Result ApiError TemplateObject → Result GetError (Option TemplateObject)
found_template (ok t) = ok (some t)
found_template (err not_found) = ok none
found_template (err (other_error e)) = err (failed_to_get e)

unfoldable pub get_template :
    ((kind name : String) → Result ApiError TemplateObject)
    → (name kind : String) → Result GetError (Option TemplateObject)
unfolding found_template
get_template get name kind =
    if is_template_kind kind then found_template (get kind name) else err (invalid_kind kind)
