-- ===== src/Component/PassThrough.antt =====
-- What an input gives that is passed through.
use cartographer.Prelude.{
  String, ◌≡◌, refl, ap, Bool, true, false, Option, none, some, ◌==◌, if◌then◌else◌, Option-cases,
  inl, inr, arith,
}
use cartographer.Prelude.Dict.{Dict, lookup}
use cartographer.Prelude.Result.{Result, ok, err}
use cartographer.Realizer.{
  Output, OwnerResource, SourceInput, ImageInput, ConfigInput, TemplateChoice,
}
use cartographer.Stamp.{
  StampError, PassThroughInput, Outputter, only_source, only_image, only_config, no_output,
  new_pass_through_reader, source_pass_through_reader, image_pass_through_reader,
  config_pass_through_reader, no_output_reader, deployment_pass_through_reader, read_deployment,
  pass_through, output,
}
use cartographer.Errors.{wrapped, plain}
use cartographer.Component.{
  Attempt, ResourceRealizer, pass_through_of, failed, retrieved, do_passthrough,
}

given {ℓ} : {A : Type ℓ} → (A → Output) → Option A → Option Output
given give none = none
given give (some a) = some (give a)

-- The output of the input of a name, by the kind of the template that is passed by.
unfoldable pub passed_output : String → String → PassThroughInput → Option Output
unfolding given
passed_output kind name inputs =
    if kind == "ClusterSourceTemplate"
    then given (λ (s : SourceInput). only_source s.url s.revision) (lookup name inputs.get_sources)
    else if kind == "ClusterImageTemplate"
    then given (λ (i : ImageInput). only_image i.image) (lookup name inputs.get_images)
    else if kind == "ClusterConfigTemplate"
    then given (λ (c : ConfigInput). only_config c.config) (lookup name inputs.get_configs)
    else if kind == "ClusterTemplate"
    then some no_output
    else none

output_in : Result StampError Output → Option Output
output_in (ok o) = some o
output_in (err e) = none

module _ {World Owner : Type 0} (r : ResourceRealizer World Owner) (resource : OwnerResource)
    (blueprint_name : String) (choice : TemplateChoice) where
  -- The attempt that a reader leads to has the output.
  Leads : Option Outputter → Option Output → Type 0
  Leads reader o =
      (a : Attempt) × (elim reader [
        | none ↦ some (
            failed none choice.pass_through choice.template_name (
              wrapped "failed to create new stamp pass through reader"
                (plain "kind does not match a known template")))
        | some reader ↦
            retrieved r resource blueprint_name choice none none ""
              (output r.stamped.evaluate reader none)
      ]
        ≡ some a)
      × (a.output ≡ o)

  if-Leads :
      (b : Bool) (x y : Option Outputter) (u v : Option Output)
      → Leads x u
      → Leads y v
      → Leads (if b then x else y) (if b then u else v)
  if-Leads true x y u v h k = h
  if-Leads false x y u v h k = k

  if-same :
      (b : Bool) (x y : Option Outputter)
      → Leads x none
      → Leads y none
      → Leads (if b then x else y) none
  if-same true x y h k = h
  if-same false x y h k = k

  none-Leads : Leads none none
  unfolding Leads failed
  none-Leads = (_, refl, refl)

  output-Leads :
      (reader : Outputter) (res : Result StampError Output) (o : Option Output)
      → output r.stamped.evaluate reader none ≡ some res
      → output_in res ≡ o
      → Leads (some reader) o
  unfolding Leads retrieved output_in
  output-Leads reader (ok p) o e k =
      (_, ap (retrieved r resource blueprint_name choice none none "") e, k)
  output-Leads reader (err p) o e k =
      (_, ap (retrieved r resource blueprint_name choice none none "") e, k)

  sources-Leads :
      {A : Type 0} (give : A → Output) (name : String) (inputs : Dict A) (reader : Outputter)
      → output r.stamped.evaluate reader none
        ≡ some (pass_through r.stamped.evaluate give name inputs)
      → Leads (some reader) (given give (lookup name inputs))
  unfolding pass_through given output_in
  sources-Leads give name inputs reader e = elim (Option-cases (lookup name inputs)) [
    | inl h ↦ output-Leads reader _ _ e (ground (arith, h))
    | inr (a, h) ↦ output-Leads reader _ _ e (ground (arith, h))
  ]

  -- Passing an input through never panics: its output is that of the input of the option's name for
  -- a source, image or config template, an empty one for a ClusterTemplate, and there is none for any
  -- other kind, so that the input of a ClusterDeploymentTemplate is never passed through.
  pub do_passthrough_lem :
      (inputs : PassThroughInput)
      → (a : Attempt) × (do_passthrough r resource blueprint_name choice inputs ≡ some a)
        × (a.output
            ≡ passed_output resource.template_ref.kind
                (pass_through_of choice.template_option)
                inputs)
  unfolding do_passthrough passed_output new_pass_through_reader Leads output output_in given
      read_deployment
  do_passthrough_lem inputs =
      let name = pass_through_of choice.template_option in
      let kind = resource.template_ref.kind in
      if-Leads (kind == "ClusterSourceTemplate") _ _ _ _
        (sources-Leads _ name inputs.get_sources (source_pass_through_reader name inputs) refl)
        (if-Leads (kind == "ClusterImageTemplate") _ _ _ _
          (sources-Leads _ name inputs.get_images (image_pass_through_reader name inputs) refl)
          (if-Leads (kind == "ClusterConfigTemplate") _ _ _ _
            (sources-Leads _ name inputs.get_configs (config_pass_through_reader name inputs) refl)
            (if-Leads (kind == "ClusterTemplate") _ _ _ _
              (output-Leads no_output_reader _ _ refl refl)
              (if-same (kind == "ClusterDeploymentTemplate") _ _
                (output-Leads (deployment_pass_through_reader inputs none) _ _ refl refl)
                none-Leads))))
