-- ===== src/Realizer.antt =====
-- pkg/realizer: inputs.go and outputs.go, what a resource takes from those before it; and of
-- component.go the choice of a resource's template. A value of an output is decoded JSON, and the
-- values of a resource that is not there are nil.
pub mod Inputs
pub mod Options
mod Tests
use cartographer.Prelude.{
  ℕ, String, Bool, true, false, not, Option, none, some, List, [], ◌∷◌, map, get_elem?, is_nil,
  ◌==◌, if◌then◌else◌,
}
use cartographer.Prelude.Dict.{Dict, insert, lookup}
use cartographer.Prelude.Json.{Json, null, is_null}
use cartographer.Prelude.Result.{Result, ok, err}
use cartographer.Params.{BlueprintParam}
use cartographer.Selector.{
  Selectable, LabelSelector, Selector, SelectorError, best_selector_match_indices,
}
use cartographer.Selector.Choice.{select_all}
use cartographer.Validation.{TemplateOption}
use cartographer.Validation.SupplyChain.{ResourceReference}

-- templates.Source
pub record Source : Type 0 where
  pub url : Json
  pub revision : Json

-- templates.Output
pub record Output : Type 0 where
  pub source : Option Source
  pub image : Json
  pub config : Json

-- The map holds pointers, which may be nil.
abbrev pub Outputs : Type 0
Outputs = Dict (Option Output)

unfoldable pub add_output : String → Option Output → Outputs → Outputs
add_output = insert

-- `o[resourceName]`
unfoldable pub output_of : Outputs → String → Option Output
output_of outputs name = elim (lookup name outputs) [ none ↦ none | some o ↦ o ]

source_of : Option Output → Option Source
source_of none = none
source_of (some o) = o.source

image_of : Option Output → Json
image_of none = null
image_of (some o) = o.image

config_of : Option Output → Json
config_of none = null
config_of (some o) = o.config

unfoldable pub get_source : Outputs → String → Option Source
unfolding source_of output_of
get_source outputs name = source_of (output_of outputs name)

unfoldable pub get_image : Outputs → String → Json
unfolding image_of output_of
get_image outputs name = image_of (output_of outputs name)

unfoldable pub get_config : Outputs → String → Json
unfolding config_of output_of
get_config outputs name = config_of (output_of outputs name)

-- v1alpha1.TemplateReference
pub record TemplateReference : Type 0 where
  pub kind : String
  pub name : String

pub record OwnerResource : Type 0 where
  pub template_ref : TemplateReference
  pub template_options : List TemplateOption
  pub params : List BlueprintParam
  pub name : String
  pub sources : List ResourceReference
  pub images : List ResourceReference
  pub configs : List ResourceReference
  pub deployment : Option String

pub record SourceInput : Type 0 where
  pub url : Json
  pub revision : Json
  pub name : String

pub record ImageInput : Type 0 where
  pub image : Json
  pub name : String

pub record ConfigInput : Type 0 where
  pub config : Json
  pub name : String

-- `if value != nil`
not_null : Json → Option Json
not_null value = if is_null value then none else some value

map_some {ℓ κ} : {A : Type ℓ} {B : Type κ} → (A → B) → Option A → Option B
map_some f none = none
map_some f (some a) = some (f a)

-- What a reference gives, if its resource has the output.
unfoldable pub source_input : Outputs → ResourceReference → Option SourceInput
unfolding map_some
source_input outputs ref =
    map_some (λ (s : Source). record { url = s.url; revision = s.revision; name = ref.name })
      (get_source outputs ref.resource)

unfoldable pub image_input : Outputs → ResourceReference → Option ImageInput
unfolding map_some not_null
image_input outputs ref =
    map_some (λ v. record { image = v; name = ref.name })
      (not_null (get_image outputs ref.resource))

unfoldable pub config_input : Outputs → ResourceReference → Option ConfigInput
unfolding map_some not_null
config_input outputs ref =
    map_some (λ v. record { config = v; name = ref.name })
      (not_null (get_config outputs ref.resource))

-- The loop of the three getters of an InputGenerator.
unfoldable pub collect {ℓ} :
    {A : Type ℓ} → (ResourceReference → Option A) → List ResourceReference → Dict A → Dict A
collect give [] inputs = inputs
collect give (ref ∷ refs) inputs = elim (give ref) [
  | none ↦ collect give refs inputs
  | some v ↦ collect give refs (insert ref.name v inputs)
]

unfoldable pub get_sources : OwnerResource → Outputs → Dict SourceInput
unfolding source_input
get_sources resource outputs = collect (source_input outputs) resource.sources []

unfoldable pub get_images : OwnerResource → Outputs → Dict ImageInput
unfolding image_input
get_images resource outputs = collect (image_input outputs) resource.images []

unfoldable pub get_configs : OwnerResource → Outputs → Dict ConfigInput
unfolding config_input
get_configs resource outputs = collect (config_input outputs) resource.configs []

-- The name of a deployment's input is left empty.
unfoldable pub get_deployment : OwnerResource → Outputs → Option SourceInput
unfolding map_some
get_deployment resource outputs = elim resource.deployment [
  | none ↦ none
  | some name ↦
      map_some (λ (s : Source). record { url = s.url; revision = s.revision; name = "" })
        (get_source outputs name)
]

-- ResolveTemplateOptionError and TemplateOptionsMatchError
pub data OptionError : Type 0 where
  resolve_template_option : (option_name : String) → SelectorError → OptionError
  template_options_match : (option_names : List String) → OptionError

-- The results of GetTemplateNameFromResource; a zero TemplateOption is `none`.
pub record TemplateChoice : Type 0 where
  pub template_name : String
  pub pass_through : Bool
  pub template_option : Option TemplateOption

-- Exactly one option is wanted.
unfoldable pub only_one : List TemplateOption → Result OptionError TemplateOption
only_one [] = err (template_options_match [])
only_one (o ∷ []) = ok o
only_one (o ∷ p ∷ os) =
    err (template_options_match (map (λ (q : TemplateOption). q.name) (o ∷ p ∷ os)))

choose_from : Option (List TemplateOption) → Option (Result OptionError TemplateOption)
unfolding only_one
choose_from none = none
choose_from (some os) = some (only_one os)

unresolved : Option TemplateOption → SelectorError → Option (Result OptionError TemplateOption)
unresolved none e = none
unresolved (some o) e = some (err (resolve_template_option o.name e))

choice_of : Option (Result OptionError TemplateOption) → Option (Result OptionError TemplateChoice)
choice_of none = none
choice_of (some (err e)) = some (err e)
choice_of (some (ok o)) = some (
    ok (record {
      template_name = if o.pass_through == "" then o.name else "";
      pass_through = not (o.pass_through == "");
      template_option = some o;
    }))

module _ {Obj : Type 0} (sel : Selectable Obj)
    (as_selector : LabelSelector → Result String (Dict String → Bool)) where
  -- An index out of range panics: `none`.
  unfoldable pub find_matching_template_option :
      List TemplateOption → Obj → Option (Result OptionError TemplateOption)
  unfolding choose_from unresolved
  find_matching_template_option options owner =
      elim (best_selector_match_indices sel as_selector owner
        (map (λ (o : TemplateOption). o.selector) options)) [
          | err e ↦ unresolved (get_elem? options e.selecting_object_index) e.error
          | ok indices ↦ choose_from (select_all options indices)
        ]

  unfoldable pub get_template_name_from_resource :
      OwnerResource → Obj → Option (Result OptionError TemplateChoice)
  unfolding choice_of
  get_template_name_from_resource resource owner =
      if not (is_nil resource.template_options)
      then choice_of (find_matching_template_option resource.template_options owner)
      else some (
          ok (record {
            template_name = resource.template_ref.name;
            pass_through = false;
            template_option = none;
          }))
