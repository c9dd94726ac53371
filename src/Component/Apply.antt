-- ===== src/Component/Apply.antt =====
-- pkg/realizer/component.go: doMutable and doImmutable, how a stamped object is applied and read. The
-- object of an apply error is the one that was stamped.
use cartographer.Prelude.{String, Option, none, some, List, [], ◌∷◌}
use cartographer.Prelude.Dict.{Dict}
use cartographer.Prelude.Result.{Result, ok, err}
use cartographer.Healthcheck.{determine_stamped_object_health}
use cartographer.Repository.Cache.{Unstructured}
use cartographer.Repository.{
  State, RepoError, list_unstructured, ensure_mutable_object_exists_on_cluster,
  ensure_immutable_object_exists_on_cluster,
}
use cartographer.Validation.Template.{HealthRule}
use cartographer.Runnable.{
  ExaminedObject, less, cleanup_runnable_stamped_objects,
  get_latest_successful_obj_from_examined_object,
}
use cartographer.Realizer.{OwnerResource, TemplateChoice}
use cartographer.Templates.{Reader}
use cartographer.Stamp.{Outputter, output}
use cartographer.Errors.{apply_stamped_object_error, list_created_objects_error}
use cartographer.Component.{
  Attempt, ResourceRealizer, get_qualified_resource, qualified_or_failed, failed, retrieved,
}

module _ {World Owner : Type 0} (r : ResourceRealizer World Owner) (resource : OwnerResource)
    (blueprint_name : String) (choice : TemplateChoice) where
  unfoldable pub with_state : State World → Option Attempt → Option (Attempt × State World)
  with_state s none = none
  with_state s (some a) = some (a, s)

  unfoldable pub not_applied : Reader → RepoError → Unstructured → Attempt
  not_applied template e obj =
      failed (some template) choice.pass_through choice.template_name
        (apply_stamped_object_error e obj resource.name blueprint_name)

  unfoldable pub mutable_applied :
      Reader
      → Outputter
      → Unstructured
      → Result RepoError Unstructured × State World
      → Option (Attempt × State World)
  unfolding not_applied with_state
  mutable_applied template reader submitted (err e, s) = some (not_applied template e submitted, s)
  mutable_applied template reader submitted (ok obj, s) = with_state s (
      retrieved r resource blueprint_name choice (some template) (some obj)
        (qualified_or_failed (get_qualified_resource r.mapper obj))
        (output r.stamped.evaluate reader (some obj)))

  unfoldable pub do_mutable :
      Reader → Outputter → Unstructured → State World → Option (Attempt × State World)
  unfolding mutable_applied
  do_mutable template reader obj s =
      mutable_applied template reader obj
        (ensure_mutable_object_exists_on_cluster r.owner_repo obj s)

  -- The loop over the listed objects.
  unfoldable pub examine : Option HealthRule → List Unstructured → Option (List ExaminedObject)
  examine rule [] = some []
  examine rule (obj ∷ objs) =
      elim (determine_stamped_object_health r.stamped r.reading rule (some obj)) [
        | none ↦ none
        | some health ↦ elim (examine rule objs) [
          | none ↦ none
          | some rest ↦ some (record { stamped_object = obj; health = health } ∷ rest)
        ]
      ]

  -- The object whose resource is named in an error.
  unfoldable pub or_stamped : Unstructured → Option Unstructured → Unstructured
  or_stamped obj none = obj
  or_stamped obj (some latest) = latest

  -- The clean-up sorts the slice, which is then searched for the latest successful object.
  unfoldable pub examined :
      Reader
      → Outputter
      → Unstructured
      → State World
      → Option (List ExaminedObject)
      → Option (Attempt × State World)
  unfolding with_state or_stamped
  examined template reader obj s none = none
  examined template reader obj s (some objects) =
      let cleaned =
        cleanup_runnable_stamped_objects r.owner_repo r.sort objects template.retention_policy s in
      let latest = get_latest_successful_obj_from_examined_object (r.sort less objects) in
      with_state cleaned (
        retrieved r resource blueprint_name choice (some template) (some obj)
          (qualified_or_failed (get_qualified_resource r.mapper (or_stamped obj latest)))
          (output r.stamped.evaluate reader latest))

  unfoldable pub listed :
      Reader
      → Outputter
      → Dict String
      → Unstructured
      → State World
      → Result RepoError (List Unstructured)
      → Option (Attempt × State World)
  unfolding examined
  listed template reader labels obj s (err e) = some (
    failed (some template) choice.pass_through choice.template_name
        (list_created_objects_error e obj.namespace labels),
    s,
  )
  listed template reader labels obj s (ok objects) =
      examined template reader obj s (examine template.health_rule objects)

  unfoldable pub immutable_applied :
      Reader
      → Outputter
      → Dict String
      → Unstructured
      → Result RepoError Unstructured × State World
      → Option (Attempt × State World)
  unfolding not_applied listed
  immutable_applied template reader labels submitted (err e, s) =
      some (not_applied template e submitted, s)
  immutable_applied template reader labels submitted (ok obj, s) =
      listed template reader labels obj s (list_unstructured r.owner_repo obj labels s)

  unfoldable pub do_immutable :
      Reader → Outputter → Dict String → Unstructured → State World → Option (Attempt × State World)
  unfolding immutable_applied
  do_immutable template reader labels obj s =
      immutable_applied template reader labels obj
        (ensure_immutable_object_exists_on_cluster r.owner_repo obj labels s)
