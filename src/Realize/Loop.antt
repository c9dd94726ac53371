-- ===== src/Realize/Loop.antt =====
-- pkg/realizer/realizer.go: Realize, the loop over the resources of a blueprint. The realizer of one
-- resource, over a state of its own, the health evaluator and the clock are parameters; a call of
-- the `clock` has the number of the resource and the number of the call.
pub mod Recorded
use native.Mathlib.Decide.{ℕ_discrete}
use cartographer.Prelude.{
  ℕ, suc, String, Bool, true, false, not, ◌&&◌, ◌||◌, Option, none, some, List, [], ◌∷◌, ◌++◌, any,
  is_some, ◌==◌, if◌then◌else◌,
}
use cartographer.Prelude.Json.{String-discrete, deep_equal}
use cartographer.Conditions.{Status, status_unknown, Condition, Manager}
use cartographer.Healthcheck.{condition_with_type}
use cartographer.Statuses.{
  RealizedResource, ResourceStatus, StatusEntry, get_current, conditions_for_resource_named,
  get_previous_resource_status, changed_condition_types, add,
}
use cartographer.Repository.Cache.{Unstructured}
use cartographer.Validation.Template.{HealthRule}
use cartographer.Realizer.{Outputs, OwnerResource, add_output}
use cartographer.Templates.{Reader}
use cartographer.Errors.{
  ResourceError, RetrieveOutputError, retrieve_output_error, as_retrieve_output_error,
}
use cartographer.Component.{Attempt}
use cartographer.Realize.{Rendering, StatusOutput, previous_outputs, generate_realized_resource}

-- The events of the owner; the object of an event may be nil.
pub data RealizeEvent : Type 0 where
  passed_through_a_new_output : (resource_name : String) → RealizeEvent
  found_a_new_output : Option Unstructured → (resource_name : String) → RealizeEvent
  healthy_status_changed : Option Unstructured → (resource_name : String) → Status → RealizeEvent

-- What Realize calls: `run` is ResourceRealizer.Do, where `none` is a panic.
pub record Realizing (S : Type 0) : Type 0 where
  pub run : OwnerResource → Outputs → S → Option (Attempt × S)
  pub healthy_condition_evaluator :
      Option HealthRule → Option RealizedResource → Option Unstructured → Condition
  pub add_conditions_func : ℕ → Bool → ResourceError → Manager → Manager
  pub rendering : Rendering
  pub qualified : Unstructured → Option String

pub record Realized : Type 0 where
  pub resource : RealizedResource
  pub conditions : List Condition
  pub events : List RealizeEvent

unfoldable pub realized_of : Option ResourceStatus → Option RealizedResource
realized_of none = none
realized_of (some s) = some s.realized_resource

one_if_some : Option Condition → List Condition
one_if_some none = []
one_if_some (some c) = c ∷ []

unfoldable pub Outputs-discrete : Discrete (Option (List StatusOutput))
Outputs-discrete = hlevel (String-discrete, ℕ_discrete)

unfoldable pub same_outputs : Option (List StatusOutput) → Option (List StatusOutput) → Bool
same_outputs = deep_equal Outputs-discrete

-- A RetrieveOutputError learns the health of the resource, and loses what wraps it.
with_health : Status → ResourceError → Option RetrieveOutputError → ResourceError
with_health health e none = e
with_health health e (some typed) = retrieve_output_error (record typed { healthy = health })

unfoldable pub add_health : List Condition → Option ResourceError → Option ResourceError
unfolding with_health
add_health conditions none = none
add_health [] (some e) = some e
add_health (c ∷ cs) (some e) = some (with_health c.status e (as_retrieve_output_error e))

-- The variables of Realize, with the state of the realizer of a resource.
pub record Progress (S : Type 0) : Type 0 where
  pub outputs : Outputs
  pub statuses : List StatusEntry
  pub first_error : Option ResourceError
  pub events : List RealizeEvent
  pub state : S

health_of : Option Condition → Status
health_of none = status_unknown
health_of (some c) = c.status

-- The event of a health that has changed.
health_events : Option Unstructured → String → List StatusEntry → List RealizeEvent
unfolding health_of
health_events stamped name statuses =
    let current = conditions_for_resource_named name (get_current statuses) in
    if any (λ t. t == "Healthy") (changed_condition_types name statuses)
    then healthy_status_changed stamped name (health_of (condition_with_type "Healthy" current))
      ∷ []
    else []

or_first : Option ResourceError → Option ResourceError → Option ResourceError
or_first none e = e
or_first (some first) e = some first

module _ {S : Type 0} (r : Realizing S) where
  evaluated : Option Reader → RealizedResource → Option Unstructured → List Condition
  evaluated none resource stamped = []
  evaluated (some template) resource stamped =
      r.healthy_condition_evaluator template.health_rule (some resource) stamped ∷ []

  output_event : Attempt → Option (List StatusOutput) → RealizedResource → List RealizeEvent
  output_event a previous resource =
      if not (same_outputs previous resource.outputs)
      then (if a.is_pass_through
          then passed_through_a_new_output resource.name
          else found_a_new_output a.stamped_object resource.name)
        ∷ []
      else []

  generated : ℕ → OwnerResource → Attempt → Option RealizedResource → Realized
  unfolding evaluated output_event
  generated now resource a previous =
      let realized =
        generate_realized_resource r.rendering r.qualified now resource a.template a.stamped_object
          a.output previous a.is_pass_through a.template_name in
      record {
        resource = realized;
        conditions = evaluated a.template realized a.stamped_object;
        events = output_event a (previous_outputs previous) realized;
      }

  -- Without an object or a template, the previous status is kept, if there is one.
  unfoldable pub realized_resource : ℕ → OwnerResource → Attempt → Option ResourceStatus → Realized
  unfolding generated one_if_some
  realized_resource now resource a none = generated now resource a none
  realized_resource now resource a (some previous) =
      if not (is_some a.stamped_object) || not (is_some a.template)
      then record {
        resource = previous.realized_resource;
        conditions = one_if_some (condition_with_type "Healthy" previous.conditions);
        events = [];
      }
      else generated now resource a (some previous.realized_resource)

  -- One round of the loop, after Do. The clock's first call is getOutputs's.
  unfoldable pub recorded :
      (ℕ → ℕ) → OwnerResource → Attempt → List StatusEntry → Realized × List StatusEntry
  recorded clock resource a statuses =
      let done =
        realized_resource (clock 0) resource a
          (get_previous_resource_status resource.name statuses) in
      let error = add_health done.conditions a.error in
      (
        done,
        add (r.add_conditions_func (clock 1)) (λ k. clock (suc (suc k))) done.resource error
            a.is_pass_through done.conditions statuses,
      )

  progressed : (ℕ → ℕ) → OwnerResource → Progress S → Attempt × S → Progress S
  unfolding health_events or_first
  progressed clock resource p (a, s) =
      let (done, statuses) = recorded clock resource a p.statuses in
      record {
        outputs = add_output resource.name a.output p.outputs;
        statuses = statuses;
        first_error = or_first p.first_error (add_health done.conditions a.error);
        events =
            p.events ++ done.events ++ health_events a.stamped_object done.resource.name statuses;
        state = s;
      }

  unfoldable pub step : (ℕ → ℕ) → OwnerResource → Progress S → Option (Progress S)
  unfolding progressed
  step clock resource p = elim (r.run resource p.outputs p.state) [
    | none ↦ none
    | some done ↦ some (progressed clock resource p done)
  ]

  realize_from : (ℕ → ℕ → ℕ) → ℕ → List OwnerResource → Progress S → Option (Progress S)
  realize_from clock i [] p = some p
  realize_from clock i (resource ∷ resources) p = elim (step (clock i) resource p) [
    | none ↦ none
    | some p' ↦ realize_from clock (suc i) resources p'
  ]

  unfoldable pub realize :
      (ℕ → ℕ → ℕ) → List OwnerResource → List StatusEntry → S → Option (Progress S)
  unfolding realize_from
  realize clock resources statuses s =
      realize_from clock 0 resources
        (record { outputs = []; statuses = statuses; first_error = none; events = []; state = s })
