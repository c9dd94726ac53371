-- ===== src/Selector.antt =====
-- pkg/selector: which selectors match an object, and which of them are the most specific.
-- metav1.LabelSelectorAsSelector is the parameter `as_selector`: a label selector is refused, or
-- becomes a test of the object's labels.
pub mod Fields
pub mod Scores
pub mod Best
pub mod Choice
mod Tests
use cartographer.Prelude.{
  ℕ, suc, ◌+◌, ◌++◌, String, Bool, true, false, not, ◌&&◌, ◌||◌, Option, none, some, List, [], ◌∷◌,
  length, ltb, eqb, is_some, any, if◌then◌else◌,
}
use cartographer.Prelude.Dict.{Dict}
use cartographer.Prelude.Json.{Json, null, equals_text, is_null}
use cartographer.Prelude.Result.{Result, ok, err, ◌>>=◌}
use cartographer.Eval.{EvalError, is_does_not_exist, evaluate_json_path}

-- FieldSelectorOperator is a string: the four known ones, and any other.
pub data Operator : Type 0 where
  op_in op_not_in op_exists op_does_not_exist : Operator
  other_op : String → Operator

pub record FieldSelectorRequirement : Type 0 where
  pub key : String
  pub operator : Operator
  pub values : List String

-- metav1.LabelSelectorRequirement
pub record LabelRequirement : Type 0 where
  pub key : String
  pub operator : String
  pub values : List String

pub record LabelSelector : Type 0 where
  pub match_labels : Dict String
  pub match_expressions : List LabelRequirement

-- The Go type embeds the LabelSelector.
pub record Selector : Type 0 where
  pub label_selector : LabelSelector
  pub match_fields : List FieldSelectorRequirement

pub data MatchError : Type 0 where
  eval_error : EvalError → MatchError
  invalid_operator : String → MatchError

-- `err.(eval.JsonPathDoesNotExistError)` on an error of `Matches`
abbrev pub is_missing : MatchError → Bool
is_missing (eval_error e) = is_does_not_exist e
is_missing (invalid_operator o) = false

abbrev pub is_op_does_not_exist : Operator → Bool
is_op_does_not_exist op_does_not_exist = true
is_op_does_not_exist _ = false

-- The switch of `Matches`.
unfoldable pub matches_value : Operator → List String → Json → Result MatchError Bool
matches_value op_in values actual = ok (any (equals_text actual) values)
matches_value op_not_in values actual = ok (not (any (equals_text actual) values))
matches_value op_exists values actual = ok (not (is_null actual))
matches_value op_does_not_exist values actual = ok (is_null actual)
matches_value (other_op o) values actual = err (invalid_operator o)

-- A missing path is no error for `DoesNotExist`: the value is then nil.
match_result : Operator → List String → Result EvalError Json → Result MatchError Bool
unfolding matches_value
match_result op values (ok actual) = matches_value op values actual
match_result op values (err e) =
    if not (is_does_not_exist e) || not (is_op_does_not_exist op)
    then err (eval_error e)
    else matches_value op values null

pub data SelectorError : Type 0 where
  invalid_labels : String → SelectorError
  field_error : MatchError → SelectorError

-- selectorMatchError
pub record IndexedError : Type 0 where
  pub error : SelectorError
  pub selecting_object_index : ℕ

-- What the matcher reads of an object: its labels, and the values at its paths.
pub record Selectable (Obj : Type 0) : Type 0 where
  pub get_labels : Obj → Dict String
  pub evaluate : String → Obj → Result String (List Json)

module _ {Obj : Type 0} (sel : Selectable Obj) where
  unfoldable pub matches : FieldSelectorRequirement → Obj → Result MatchError Bool
  unfolding match_result
  matches req context =
      match_result req.operator req.values (evaluate_json_path sel.evaluate req.key context)

  -- The loop stops at the first requirement that does not match. A missing path is no error.
  unfoldable pub matches_all_fields : Obj → List FieldSelectorRequirement → Result MatchError Bool
  matches_all_fields source [] = ok true
  matches_all_fields source (req ∷ reqs) = elim (matches req source) [
    | err e ↦ if is_missing e then ok false else err e
    | ok false ↦ ok false
    | ok true ↦ matches_all_fields source reqs
  ]

  module _ (as_selector : LabelSelector → Result String (Dict String → Bool)) where
    abbrev pub add_field_score : Selector → Bool → Option ℕ
    add_field_score s true = some (
        length s.label_selector.match_labels
        + length s.label_selector.match_expressions
        + length s.match_fields)
    add_field_score s false = none

    -- The body of the loop up to "decision time": no score where the selector does not match.
    unfoldable pub match_score : Obj → Selector → Result SelectorError (Option ℕ)
    match_score obj s = elim (as_selector s.label_selector) [
      | err e ↦ err (invalid_labels e)
      | ok test ↦
          if not (test (sel.get_labels obj))
          then ok none
          else elim (matches_all_fields obj s.match_fields) [
            | err e ↦ err (field_error e)
            | ok matched ↦ ok (add_field_score s matched)
          ]
    ]

    -- The loop's variables are `highWaterMark` and `mostSpecificMatchingSelectors`.
    pub best_loop :
        Obj → ℕ → List Selector → (high : ℕ) (best : List ℕ) → Result IndexedError (List ℕ)
    best_loop obj idx [] high best = ok best
    best_loop obj idx (s ∷ rest) high best = elim (match_score obj s) [
      | err e ↦ err (record { error = e; selecting_object_index = idx })
      | ok none ↦ best_loop obj (suc idx) rest high best
      | ok (some score) ↦
          let same = best_loop obj (suc idx) rest high (best ++ idx ∷ []) in
          let higher = best_loop obj (suc idx) rest score (idx ∷ []) in
          let lower = best_loop obj (suc idx) rest high best in
          if eqb score high then same else if ltb high score then higher else lower
    ]

    unfoldable pub best_selector_match_indices : Obj → List Selector → Result IndexedError (List ℕ)
    unfolding best_loop
    best_selector_match_indices obj selectors = best_loop obj 0 selectors 1 []
