-- ===== src/Realize.antt =====
-- pkg/realizer/realizer.go: generateRealizedResource and what it calls, the record of a resource that
-- has been realized. yaml.Marshal, ShortenString and the hexadecimal sha256 are the parameter
-- `Rendering`, and `now` is what time.Now returns.
pub mod Loop
pub mod Kept
pub mod Resources
mod Tests
use Prim.Native.String.{◌++◌ as ◌+++◌}
use cartographer.Prelude.{
  ℕ, String, Bool, true, false, not, Option, none, some, List, [], ◌∷◌, ◌++◌, map, is_some, ◌==◌,
  if◌then◌else◌,
}
use cartographer.Prelude.Json.{Json, is_null}
use cartographer.Prelude.Result.{Result, ok, err}
use cartographer.Statuses.{ObjectReference, StampedRef, Input, RealizedResource}
use cartographer.Statuses
use cartographer.Repository.Cache.{Unstructured}
use cartographer.Validation.SupplyChain.{ResourceReference}
use cartographer.Realizer.{Output, Source, OwnerResource}
use cartographer.Templates.{Reader}

pub record Rendering : Type 0 where
  pub marshal : Json → Result String String
  pub shorten : String → ℕ → String
  pub sha256 : String → String

abbrev pub StatusOutput : Type 0
StatusOutput = Statuses.Output

abbrev preview_character_limit : ℕ
preview_character_limit = 1024

-- The time is zero until getOutputs sets it.
output_of_bytes : Rendering → String → Result String String → Result String StatusOutput
output_of_bytes r name (err e) = err e
output_of_bytes r name (ok bytes) = ok (record {
  name = name;
  preview = r.shorten bytes preview_character_limit;
  digest = "sha256:" +++ r.sha256 bytes;
  last_transition_time = 0;
})

unfoldable pub build_one_output : Rendering → String → Json → Result String StatusOutput
unfolding output_of_bytes
build_one_output r name value = output_of_bytes r name (r.marshal value)

one_output : Result String StatusOutput → Result String (Option (List StatusOutput))
one_output (err e) = err e
one_output (ok o) = ok (some (o ∷ []))

two_outputs :
    (first second : Result String StatusOutput) → Result String (Option (List StatusOutput))
two_outputs (err e) second = err e
two_outputs (ok o) (err e) = err e
two_outputs (ok o) (ok p) = ok (some (o ∷ p ∷ []))

-- A nil slice is `none`.
outputs_of : Rendering → Option Source → Json → Json → Result String (Option (List StatusOutput))
unfolding one_output two_outputs
outputs_of r (some source) image config =
    two_outputs (build_one_output r "url" source.url)
      (build_one_output r "revision" source.revision)
outputs_of r none image config =
    if not (is_null image)
    then one_output (build_one_output r "image" image)
    else if not (is_null config)
    then one_output (build_one_output r "config" config)
    else ok none

unfoldable pub generate_resource_output :
    Rendering → Option Output → Result String (Option (List StatusOutput))
unfolding outputs_of
generate_resource_output r none = ok none
generate_resource_output r (some o) = outputs_of r o.source o.image o.config

-- The first previous output of the name keeps its time, if it has the digest.
unfoldable pub transition_time : ℕ → StatusOutput → List StatusOutput → ℕ
transition_time now o [] = now
transition_time now o (p ∷ ps) =
    let later = transition_time now o ps in
    if p.name == o.name
    then (if p.digest == o.digest then p.last_transition_time else now)
    else later

unfoldable pub or_empty {ℓ} : {A : Type ℓ} → Option (List A) → List A
or_empty none = []
or_empty (some xs) = xs

set_times : ℕ → List StatusOutput → List StatusOutput → List StatusOutput
set_times now previous outputs =
    map (λ (o : StatusOutput). record o { last_transition_time = transition_time now o previous })
      outputs

outputs_or_previous :
    ℕ
    → Option (List StatusOutput)
    → Result String (Option (List StatusOutput))
    → Option (List StatusOutput)
unfolding set_times
outputs_or_previous now previous (err e) = previous
outputs_or_previous now previous (ok none) = none
outputs_or_previous now previous (ok (some outputs)) =
    some (set_times now (or_empty previous) outputs)

-- Outputs that cannot be made are those of the previous resource.
unfoldable pub get_outputs :
    Rendering → ℕ → Option (List StatusOutput) → Option Output → Option (List StatusOutput)
unfolding outputs_or_previous
get_outputs r now previous output =
    outputs_or_previous now previous (generate_resource_output r output)

-- The slice is appended to, from nil.
nil_if_empty {ℓ} : {A : Type ℓ} → List A → Option (List A)
nil_if_empty [] = none
nil_if_empty (x ∷ xs) = some (x ∷ xs)

input_of : ResourceReference → Input
input_of reference = record { name = reference.resource }

deployment_input : Option String → List Input
deployment_input none = []
deployment_input (some resource) = record { name = resource } ∷ []

unfoldable pub inputs_of : OwnerResource → Option (List Input)
unfolding nil_if_empty input_of deployment_input
inputs_of resource = nil_if_empty (
    map input_of resource.sources
    ++ map input_of resource.images
    ++ deployment_input resource.deployment
    ++ map input_of resource.configs)

unfoldable pub reference : (kind namespace name api_version : String) → ObjectReference
reference kind namespace name api_version = record {
  kind = kind;
  namespace = namespace;
  name = name;
  uid = "";
  api_version = api_version;
  resource_version = "";
  field_path = "";
}

resource_name_or_failure : Option String → String
resource_name_or_failure (some name) = name
resource_name_or_failure none =
    "could not fetch - see logs for 'failed to retrieve qualified resource name'"

stamped_ref_of : (Unstructured → Option String) → Option Unstructured → Option StampedRef
unfolding resource_name_or_failure
stamped_ref_of qualified none = none
stamped_ref_of qualified (some obj) = some (record {
  object_reference = some (reference obj.kind obj.namespace obj.name obj.api_version);
  resource = resource_name_or_failure (qualified obj);
})

unfoldable pub previous_outputs : Option RealizedResource → Option (List StatusOutput)
previous_outputs none = none
previous_outputs (some previous) = previous.outputs

template_ref_of : OwnerResource → String → Option Reader → Option ObjectReference
template_ref_of resource template_name none = none
template_ref_of resource template_name (some template) =
    some (reference resource.template_ref.kind "" template_name "carto.run/v1alpha1")

-- `qualified` is utils.GetQualifiedResource with the realizer's mapper.
unfoldable pub generate_realized_resource :
    Rendering
    → (Unstructured → Option String)
    → ℕ
    → OwnerResource
    → Option Reader
    → Option Unstructured
    → Option Output
    → Option RealizedResource
    → Bool
    → String
    → RealizedResource
unfolding stamped_ref_of template_ref_of
generate_realized_resource r qualified now resource template stamped output previous pass name =
    let outputs = get_outputs r now (previous_outputs previous) output in
    record {
      name = resource.name;
      stamped_ref = stamped_ref_of qualified stamped;
      template_ref = template_ref_of resource name template;
      inputs = inputs_of resource;
      outputs = if is_some template then outputs else if pass then outputs else none;
    }
