-- ===== src/Conditions.antt =====
-- pkg/conditions/condition_manager.go: conditions gathered in a reconciliation, summed up in a
-- top-level one. Each call of metav1.Now is an argument.
pub mod Summary
pub mod Carry
pub mod Stable
mod Tests
use native.Mathlib.Decide.{ℕ_discrete}
use cartographer.Prelude.{
  ℕ, ◌≡◌, ◌↔◌, String, Bool, true, false, not, ◌&&◌, ◌||◌, List, [], ◌∷◌, ◌++◌, ◌==◌, if◌then◌else◌,
}
use cartographer.Prelude.Json.{String-discrete, deep_equal}

-- metav1.ConditionStatus, a string
pub data Status : Type 0 where
  status_true status_false status_unknown : Status
  other_status : String → Status

-- metav1.Condition; a time is a number.
pub record Condition : Type 0 where
  pub type : String
  pub status : Status
  pub observed_generation : ℕ
  pub last_transition_time : ℕ
  pub reason : String
  pub message : String

pub data Polarity : Type 0 where
  positive negative : Polarity

unfoldable pub Condition-discrete : Discrete Condition
Condition-discrete = hlevel (String-discrete, ℕ_discrete)

abbrev pub is_true : Status → Bool
is_true status_true = true
is_true _ = false

abbrev pub is_false : Status → Bool
is_false status_false = true
is_false _ = false

abbrev pub is_unknown : Status → Bool
is_unknown status_unknown = true
is_unknown _ = false

pub record Manager : Type 0 where
  pub previous_conditions : List Condition
  pub conditions : List Condition
  pub top_level_type : String
  pub status : Status
  pub changed : Bool
  pub reason : String
  pub message : String

unfoldable pub new_condition_manager : String → List Condition → Manager
new_condition_manager top_level_type previous = record {
  previous_conditions = previous;
  conditions = [];
  top_level_type = top_level_type;
  status = status_true;
  changed = false;
  reason = "";
  message = "";
}

-- Positive and False, or negative and True
abbrev pub is_failing : Status → Polarity → Bool
is_failing status_false positive = true
is_failing status_true negative = true
is_failing _ _ = false

-- The first `if` of `Add`.
sum_up : Condition → Polarity → Manager → Manager
sum_up condition polarity c =
    if is_failing condition.status polarity
    then record c { status = status_false; reason = condition.reason; message = condition.message }
    else if is_unknown condition.status && is_true c.status
    then record c {
      status = status_unknown;
      reason = condition.reason;
      message = condition.message;
    }
    else c

-- The variables of the loop over the previous conditions.
pub record Carried : Type 0 where
  pub condition : Condition
  pub is_new_condition : Bool
  pub changed : Bool

-- Equal, but for the time of the last transition
abbrev pub same_content : Condition → Condition → Bool
same_content previous condition =
    deep_equal Condition-discrete previous
      (record condition { last_transition_time = previous.last_transition_time })

carry_one : Condition → Carried → Carried
carry_one previous c =
    if previous.type == c.condition.type
    then if not (same_content previous c.condition)
      then record c { is_new_condition = false; changed = true }
      else record c {
        condition = record c.condition { last_transition_time = previous.last_transition_time };
        is_new_condition = false;
      }
    else c

pub carry : List Condition → Carried → Carried
carry [] c = c
carry (p ∷ ps) c = carry ps (carry_one p c)

unfoldable pub add : ℕ → Condition → Polarity → Manager → Manager
unfolding sum_up carry carry_one
add now condition polarity c =
    let stamped : Condition = record condition { last_transition_time = now } in
    let summed = sum_up stamped polarity c in
    let carried =
      carry c.previous_conditions
        (record { condition = stamped; is_new_condition = true; changed = c.changed }) in
    record summed {
      changed = carried.changed || carried.is_new_condition;
      conditions = c.conditions ++ carried.condition ∷ [];
    }

unfoldable pub is_successful : Manager → Bool
is_successful c = not (is_false c.status)

abbrev pub add_positive : ℕ → Condition → Manager → Manager
add_positive now condition = add now condition positive

abbrev pub add_negative : ℕ → Condition → Manager → Manager
add_negative now condition = add now condition negative

-- The conditions and whether they changed, and the manager that is left.
pub record Finalized : Type 0 where
  pub conditions : List Condition
  pub changed : Bool
  pub manager : Manager

abbrev pub ready : Manager → Manager
ready c = if is_true c.status then record c { reason = "Ready" } else c

unfoldable pub top_level : ℕ → Manager → Condition
top_level now c = record {
  type = c.top_level_type;
  status = c.status;
  observed_generation = 0;
  last_transition_time = now;
  reason = c.reason;
  message = c.message;
}

unfoldable pub finalize : ℕ → Manager → Finalized
unfolding top_level
finalize now c = elim c.conditions [
  | [] ↦ record {
    conditions =
        record {
          type = c.top_level_type;
          status = status_unknown;
          observed_generation = 0;
          last_transition_time = now;
          reason = "Unknown";
          message = "";
        }
        ∷ [];
    changed = true;
    manager = record c { status = status_false };
  }
  | d ∷ ds ↦
      let c' = add_positive now (top_level now (ready c)) (ready c) in
      record { conditions = c'.conditions; changed = c'.changed; manager = c' }
]

-- An addition, with the time at which it is made.
pub record Addition : Type 0 where
  pub now : ℕ
  pub condition : Condition
  pub polarity : Polarity

unfoldable pub add_all : List Addition → Manager → Manager
add_all [] c = c
add_all (a ∷ as') c = add_all as' (add a.now a.condition a.polarity c)
