-- ===== src/Realizer/Inputs.antt =====
-- Which inputs a resource gets.
use cartographer.Prelude.{
  String, ◌≡◌, refl, Option, none, some, List, [], ◌∷◌, ◌==◌, arith, if◌then◌else◌, Option-cases,
  inl, inr,
}
use cartographer.Prelude.Dict.{Dict, insert, lookup, lookup-insert}
use cartographer.Validation.SupplyChain.{ResourceReference}
use cartographer.Realizer.{
  Outputs, OwnerResource, source_input, image_input, config_input, collect, get_sources, get_images,
  get_configs,
}

-- What the last reference of a name gives that gives anything, or the value before.
unfoldable pub last_given {ℓ} :
    {A : Type ℓ}
    → (ResourceReference → Option A)
    → String
    → List ResourceReference
    → Option A
    → Option A
last_given give k [] before = before
last_given give k (ref ∷ refs) before =
    last_given give k refs
      (elim (give ref) [ none ↦ before | some v ↦ if ref.name == k then some v else before ])

lookup-collect {ℓ} :
    {A : Type ℓ} (give : ResourceReference → Option A) (k : String) (refs : List ResourceReference)
    (inputs : Dict A)
    → lookup k (collect give refs inputs) ≡ last_given give k refs (lookup k inputs)
unfolding collect last_given
lookup-collect give k [] inputs = refl
lookup-collect give k (ref ∷ refs) inputs = elim (Option-cases (give ref)) [
  | inl e ↦ ground (arith, lookup-collect give k refs inputs)
  | inr (v, e) ↦ ground (
    arith,
    lookup-collect give k refs (insert ref.name v inputs),
    lookup-insert ref.name k v inputs,
  )
]

-- The source, image and config inputs of a resource: an input is there under a name exactly where a
-- reference of the name points to a resource that has the output, and the last such one counts.
pub inputs_lem :
    (resource : OwnerResource) (outputs : Outputs) (k : String)
    → (lookup k (get_sources resource outputs)
        ≡ last_given (source_input outputs) k resource.sources none)
      × (lookup k (get_images resource outputs)
          ≡ last_given (image_input outputs) k resource.images none)
      × (lookup k (get_configs resource outputs)
          ≡ last_given (config_input outputs) k resource.configs none)
unfolding get_sources get_images get_configs lookup
inputs_lem resource outputs k = (
  lookup-collect (source_input outputs) k resource.sources [],
  lookup-collect (image_input outputs) k resource.images [],
  lookup-collect (config_input outputs) k resource.configs [],
)
