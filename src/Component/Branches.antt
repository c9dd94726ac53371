-- ===== src/Component/Branches.antt =====
-- What Do returns, on every branch.
use cartographer.Prelude.{
  String, ◌≡◌, refl, Bool, true, false, not, Option, none, some, List, arith, is_some,
  if◌then◌else◌,
}
use cartographer.Prelude.Dict.{Dict}
use cartographer.Prelude.Result.{Result, ok, err}
use cartographer.Repository.Cache.{Unstructured}
use cartographer.Repository.{State, RepoError, list_unstructured}
use cartographer.Repository.Templates.{GetError}
use cartographer.Runnable.{ExaminedObject}
use cartographer.Realizer.{
  Output, Outputs, OwnerResource, OptionError, TemplateChoice, get_template_name_from_resource,
}
use cartographer.Templates.{TemplateObject, Reader, is_immutable, new_reader_from_api}
use cartographer.Stamp.{Outputter, Outcome, new_pass_through_reader, output}
use cartographer.Errors.{ResourceError, wrapped, plain}
use cartographer.Component.{
  Attempt, ResourceRealizer, pass_through_of, new_input_generator, failed, retrieved,
  do_passthrough,
}
use cartographer.Component.Apply.{
  with_state, not_applied, mutable_applied, do_mutable, examined, listed, immutable_applied,
  do_immutable,
}
use cartographer.Component.Do.{
  ended, with_reader, stamped_with, with_template, with_object, do_template, passed, do_chosen,
  with_choice, do_resource,
}

-- An attempt has either an output or an error, and its object comes with a template; one that passes
-- an input through has neither of these.
unfoldable pub IsAttempt : Attempt → Type 0
IsAttempt a =
    (is_some a.output ≡ not (is_some a.error))
    × (is_some a.stamped_object ≡ true → is_some a.template ≡ true)
    × (a.is_pass_through ≡ true → (is_some a.stamped_object ≡ false) × (is_some a.template ≡ false))

module _ {World : Type 0} (before : State World) where
  -- A run that does not panic makes an attempt; passing an input through leaves the state alone.
  unfoldable pub IsDone : Option (Attempt × State World) → Type 0
  IsDone none = Unit {0}
  IsDone (some (a, after)) = IsAttempt a × (a.is_pass_through ≡ true → after ≡ before)

  if-IsDone :
      (b : Bool) (x y : Option (Attempt × State World))
      → (b ≡ true → IsDone x)
      → (b ≡ false → IsDone y)
      → IsDone (if b then x else y)
  if-IsDone true x y h k = h refl
  if-IsDone false x y h k = k refl

  module _ {Owner : Type 0} (r : ResourceRealizer World Owner) (resource : OwnerResource)
      (blueprint_name : String) (choice : TemplateChoice)
      (templated : choice.pass_through ≡ false) where
    impossible {ℓ} : {A : Type ℓ} → choice.pass_through ≡ true → A
    impossible h = let no : ⊥ = ground arith in absurd no

    retrieved-IsDone :
        (template : Reader) (obj : Unstructured) (qualified : String) (o : Outcome Output)
        (after : State World)
        → IsDone (
            with_state r resource blueprint_name choice after
              (retrieved r resource blueprint_name choice (some template) (some obj) qualified o))
    unfolding IsDone IsAttempt with_state retrieved
    retrieved-IsDone template obj qualified none after = tt
    retrieved-IsDone template obj qualified (some (ok o)) after =
        ((refl, λ h. refl, impossible), impossible)
    retrieved-IsDone template obj qualified (some (err e)) after =
        ((refl, λ h. refl, impossible), impossible)

    failed-IsDone :
        (template : Option Reader) (e : ResourceError) (after : State World)
        → IsDone (some (failed template choice.pass_through choice.template_name e, after))
    unfolding IsDone IsAttempt failed
    failed-IsDone template e after = ((refl, λ h. ground arith, impossible), impossible)

    mutable_applied-IsDone :
        (template : Reader) (reader : Outputter) (obj : Unstructured)
        (applied : Result RepoError Unstructured × State World)
        → IsDone (mutable_applied r resource blueprint_name choice template reader obj applied)
    unfolding mutable_applied not_applied
    mutable_applied-IsDone template reader obj (err e, after) =
        failed-IsDone (some template) _ after
    mutable_applied-IsDone template reader obj (ok made, after) =
        retrieved-IsDone template made _ _ after

    examined-IsDone :
        (template : Reader) (reader : Outputter) (obj : Unstructured) (s : State World)
        (objects : Option (List ExaminedObject))
        → IsDone (examined r resource blueprint_name choice template reader obj s objects)
    unfolding examined IsDone
    examined-IsDone template reader obj s none = tt
    examined-IsDone template reader obj s (some objects) = retrieved-IsDone template obj _ _ _

    immutable_applied-IsDone :
        (template : Reader) (reader : Outputter) (labels : Dict String) (obj : Unstructured)
        (applied : Result RepoError Unstructured × State World)
        → IsDone
            (immutable_applied r resource blueprint_name choice template reader labels obj applied)
    unfolding immutable_applied not_applied
    immutable_applied-IsDone template reader labels obj (err e, after) =
        failed-IsDone (some template) _ after
    immutable_applied-IsDone template reader labels obj (ok made, after) =
        listed_all (list_unstructured r.owner_repo made labels after)
      where
        listed_all :
            (l : Result RepoError (List Unstructured))
            → IsDone (listed r resource blueprint_name choice template reader labels made after l)
        listed_all (err e) = failed-IsDone (some template) _ after
        listed_all (ok objects) = examined-IsDone template reader made after _

    module _ (outputs : Outputs) (s : State World) where
      with_reader-IsDone :
          (template : Reader) (labels : Dict String) (obj : Unstructured) (o : Option Outputter)
          → IsDone (with_reader r resource blueprint_name outputs choice s template labels obj o)
      unfolding with_reader ended do_immutable do_mutable
      with_reader-IsDone template labels obj none = failed-IsDone none _ s
      with_reader-IsDone template labels obj (some reader) =
          if-IsDone (is_immutable template.lifecycle) _ _
            (λ h. immutable_applied-IsDone template reader labels obj _)
            (λ h. mutable_applied-IsDone template reader obj _)

      with_object-IsDone :
          (object : Result GetError (Option TemplateObject))
          → IsDone (with_object r resource blueprint_name outputs choice s object)
      unfolding with_object ended
      with_object-IsDone (err e) = failed-IsDone none _ s
      with_object-IsDone (ok none) = failed-IsDone none _ s
      with_object-IsDone (ok (some object)) = with_known (new_reader_from_api object)
        where
          with_stamped :
              (template : Reader) (labels : Dict String) (made : Result String Unstructured)
              → IsDone (
                  stamped_with r resource blueprint_name outputs choice s object template labels
                    made)
          with_stamped template labels (err e) = failed-IsDone (some template) _ s
          with_stamped template labels (ok obj) = with_reader-IsDone template labels obj _

          with_known :
              (template : Option Reader)
              → IsDone (with_template r resource blueprint_name outputs choice s object template)
          with_known none = failed-IsDone none _ s
          with_known (some template) = with_stamped template _ _

  module _ {Owner : Type 0} (r : ResourceRealizer World Owner) (resource : OwnerResource)
      (blueprint_name : String) (outputs : Outputs) where
    passed-IsDone :
        (choice : TemplateChoice)
        → choice.pass_through ≡ true
        → IsDone (
            passed r resource blueprint_name outputs choice before (
              do_passthrough r resource blueprint_name choice
                (new_input_generator resource outputs)))
    unfolding passed do_passthrough IsDone IsAttempt failed retrieved
    passed-IsDone choice h = with_known (
        new_pass_through_reader resource.template_ref.kind (pass_through_of choice.template_option)
          (new_input_generator resource outputs))
      where
        with_outcome :
            (o : Outcome Output)
            → IsDone (
                passed r resource blueprint_name outputs choice before
                  (retrieved r resource blueprint_name choice none none "" o))
        with_outcome none = tt
        with_outcome (some (ok o)) = ((refl, λ k. ground arith, λ k. (refl, refl)), λ k. refl)
        with_outcome (some (err e)) = ((refl, λ k. ground arith, λ k. (refl, refl)), λ k. refl)

        with_known :
            (reader : Option Outputter)
            → IsDone (
                passed r resource blueprint_name outputs choice before (elim reader [
                  | none ↦ some (
                      failed none choice.pass_through choice.template_name (
                        wrapped "failed to create new stamp pass through reader"
                          (plain "kind does not match a known template")))
                  | some reader ↦
                      retrieved r resource blueprint_name choice none none ""
                        (output r.stamped.evaluate reader none)
                ]))
        with_known none = ((refl, λ k. ground arith, λ k. (refl, refl)), λ k. refl)
        with_known (some reader) = with_outcome (output r.stamped.evaluate reader none)

    do_chosen-IsDone :
        (choice : TemplateChoice)
        → IsDone (do_chosen r resource blueprint_name outputs choice before)
    unfolding do_chosen do_template
    do_chosen-IsDone choice =
        if-IsDone choice.pass_through _ _ (passed-IsDone choice)
          (λ h. with_object-IsDone r resource blueprint_name choice h outputs before _)

    -- Where Do does not panic, it returns an output or an error and never both, an object only
    -- together with its template, and for an input that is passed through neither of the two; in
    -- that case it leaves the cluster, the cache and the events as they were.
    pub do_resource-IsDone : IsDone (do_resource r resource blueprint_name outputs before)
    unfolding do_resource with_choice IsDone IsAttempt failed
    do_resource-IsDone =
        chosen (get_template_name_from_resource r.selectable r.as_selector resource r.owner)
      where
        chosen :
            (c : Option (Result OptionError TemplateChoice))
            → IsDone (with_choice r resource blueprint_name outputs before c)
        chosen none = tt
        chosen (some (err e)) = ((refl, λ k. ground arith, λ k. ground arith), λ k. refl)
        chosen (some (ok choice)) = do_chosen-IsDone choice
