-- ===== src/Statuses.antt =====
-- pkg/realizer/statuses/resource_statuses.go: the statuses of a blueprint's resources, the previous
-- ones and those of this reconciliation. The pointers of the slice are never shared, so an entry is
-- a value. `addConditionsFunc` and its errors are parameters; time.Now gives the times of a clock.
pub mod Changes
pub mod Record
pub mod Settled
mod Tests
use native.Mathlib.Decide.{ℕ_discrete}
use cartographer.Prelude.{
  ℕ, suc, ◌+◌, String, Bool, true, false, not, ◌||◌, Option, none, some, List, [], ◌∷◌, ◌++◌, map,
  length, is_some, ◌==◌, if◌then◌else◌,
}
use cartographer.Prelude.Json.{String-discrete, deep_equal}
use cartographer.Conditions.{
  Status, status_true, status_unknown, Condition, positive, Manager, new_condition_manager,
  Addition, add_all, Finalized, finalize,
}

-- corev1.ObjectReference
pub record ObjectReference : Type 0 where
  pub kind : String
  pub namespace : String
  pub name : String
  pub uid : String
  pub api_version : String
  pub resource_version : String
  pub field_path : String

pub record StampedRef : Type 0 where
  pub object_reference : Option ObjectReference
  pub resource : String

pub record Input : Type 0 where
  pub name : String

pub record Output : Type 0 where
  pub name : String
  pub preview : String
  pub digest : String
  pub last_transition_time : ℕ

-- A nil slice is `none`: reflect.DeepEqual tells it from an empty one.
pub record RealizedResource : Type 0 where
  pub name : String
  pub stamped_ref : Option StampedRef
  pub template_ref : Option ObjectReference
  pub inputs : Option (List Input)
  pub outputs : Option (List Output)

pub record ResourceStatus : Type 0 where
  pub realized_resource : RealizedResource
  pub conditions : List Condition

unfoldable pub RealizedResource-discrete : Discrete RealizedResource
RealizedResource-discrete = hlevel (String-discrete, ℕ_discrete)

unfoldable pub Status-discrete : Discrete Status
Status-discrete = hlevel String-discrete

-- `resourceStatus`, an entry of `resourceStatuses.statuses`
pub record StatusEntry : Type 0 where
  pub name : String
  pub previous : Option ResourceStatus
  pub current : Option ResourceStatus
  pub conditions_changed : Bool

unfoldable pub new_resource_statuses : List ResourceStatus → List StatusEntry
new_resource_statuses previous =
    map
      (λ (s : ResourceStatus). record {
        name = s.realized_resource.name;
        previous = some s;
        current = none;
        conditions_changed = false;
      })
      previous

unfoldable pub conditions_for_resource_named : String → List ResourceStatus → List Condition
conditions_for_resource_named name [] = []
conditions_for_resource_named name (s ∷ rsl) =
    let rest = conditions_for_resource_named name rsl in
    if s.realized_resource.name == name then s.conditions else rest

same_resource : Option ResourceStatus → Option ResourceStatus → Bool
same_resource none previous = false
same_resource (some current) none = false
same_resource (some current) (some previous) =
    deep_equal RealizedResource-discrete current.realized_resource previous.realized_resource

unfoldable pub is_changed : List StatusEntry → Bool
unfolding same_resource
is_changed [] = false
is_changed (s ∷ rest) =
    not (is_some s.current)
    || not (is_some s.previous)
    || s.conditions_changed
    || not (same_resource s.current s.previous)
    || is_changed rest

unfoldable pub get_current : List StatusEntry → List ResourceStatus
get_current [] = []
get_current (s ∷ rest) = elim s.current [
  | none ↦ get_current rest
  | some current ↦ current ∷ get_current rest
]

unfoldable pub get_previous_resource_status : String → List StatusEntry → Option ResourceStatus
get_previous_resource_status name [] = none
get_previous_resource_status name (s ∷ rest) =
    let later = get_previous_resource_status name rest in
    if s.name == name then s.previous else later

previous_conditions : Option ResourceStatus → List Condition
previous_conditions none = []
previous_conditions (some s) = s.conditions

-- conditions.ResourceSubmittedCondition
unfoldable pub resource_submitted_condition : Bool → Condition
resource_submitted_condition is_pass_through = record {
  type = "ResourceSubmitted";
  status = status_true;
  observed_generation = 0;
  last_transition_time = 0;
  reason = if is_pass_through then "PassThrough" else "ResourceSubmissionComplete";
  message = "";
}

-- The positive additions of conditions, the first at the time `clock i`.
unfoldable pub additions : (ℕ → ℕ) → ℕ → List Condition → List Addition
additions clock i [] = []
additions clock i (c ∷ cs) =
    record { now = clock i; condition = c; polarity = positive } ∷ additions clock (suc i) cs

-- The loop of `ChangedConditionTypes` over the previous conditions.
status_changed : List Condition → Condition → Bool
status_changed [] new = not (deep_equal Status-discrete new.status status_unknown)
status_changed (p ∷ ps) new =
    let rest = status_changed ps new in
    if p.type == new.type then not (deep_equal Status-discrete p.status new.status) else rest

unfoldable pub condition_changed : Option ResourceStatus → Condition → Bool
unfolding status_changed previous_conditions
condition_changed previous new = status_changed (previous_conditions previous) new

changed_types : Option ResourceStatus → List Condition → List String
changed_types previous [] = []
changed_types previous (c ∷ cs) =
    let rest = changed_types previous cs in
    if condition_changed previous c then c.type ∷ rest else rest

current_conditions : Option ResourceStatus → List Condition
current_conditions none = []
current_conditions (some s) = s.conditions

unfoldable pub changed_condition_types : String → List StatusEntry → List String
unfolding changed_types current_conditions
changed_condition_types name [] = []
changed_condition_types name (s ∷ rest) =
    let later = changed_condition_types name rest in
    if s.name == name
    then changed_types s.previous (current_conditions s.current) ++ later
    else later

module _ {Error : Type 0} (add_conditions_func : Bool → Error → Manager → Manager) where
  -- An error adds its own conditions.
  first_conditions : (ℕ → ℕ) → Option Error → Bool → Manager → Manager
  first_conditions clock none is_pass_through m =
      add_all (additions clock 0 (resource_submitted_condition is_pass_through ∷ [])) m
  first_conditions clock (some e) is_pass_through m = add_conditions_func false e m

  unfoldable pub create_conditions :
      (ℕ → ℕ) → Option ResourceStatus → Option Error → Bool → List Condition → Finalized
  unfolding first_conditions previous_conditions
  create_conditions clock previous error is_pass_through further =
      let m = new_condition_manager "Ready" (previous_conditions previous) in
      let m' = first_conditions clock error is_pass_through m in
      finalize (clock (suc (length further))) (add_all (additions clock 1 further) m')

  complete :
      (ℕ → ℕ) → RealizedResource → Option Error → Bool → List Condition → StatusEntry → StatusEntry
  complete clock resource error is_pass_through further s =
      let made = create_conditions clock s.previous error is_pass_through further in
      record s {
        current = some (record { realized_resource = resource; conditions = made.conditions });
        conditions_changed = made.changed;
      }

  -- The first entry of the name is completed; without one, a new entry is appended.
  unfoldable pub add :
      (ℕ → ℕ)
      → RealizedResource
      → Option Error
      → Bool
      → List Condition
      → List StatusEntry
      → List StatusEntry
  unfolding complete
  add clock resource error is_pass_through further [] =
      complete clock resource error is_pass_through further (record {
        name = resource.name;
        previous = none;
        current = none;
        conditions_changed = false;
      })
      ∷ []
  add clock resource error is_pass_through further (s ∷ rest) =
      let later = add clock resource error is_pass_through further rest in
      if s.name == resource.name
      then complete clock resource error is_pass_through further s ∷ rest
      else s ∷ later
