-- ===== src/Templates/Interpolator.antt =====
-- pkg/templates/interpolator.go: a text of a template, with its tags replaced by values of the context.
-- The jsonpath evaluation, the JSON encoding and fasttemplate's executor are parameters; what a tag
-- writes is the text that is appended.
use Prim.Native.String.{String}
use cartographer.Prelude.{ℕ, suc, Bool, ◌&&◌, List, ◌==◌, eqb, if◌then◌else◌}
use cartographer.Prelude.Json.{Json, null, text}
use cartographer.Prelude.Result.{Result, ok, err}
use cartographer.Eval.{EvalError, has_prefix, has_suffix, evaluate_json_path}

pub data InterpolateError : Type 0 where
  evaluation_failed : (tag : String) → EvalError → InterpolateError
  nil_value : (tag : String) → InterpolateError
  marshal_failed : String → InterpolateError
  executor_failed : String → InterpolateError

-- `f(w, tag)` of a template
abbrev pub TagFunc : Type 0
TagFunc = String → Result InterpolateError String

abbrev pub TemplateExecutor : Type 0
TemplateExecutor = (template start_tag end_tag : String) → TagFunc → Result InterpolateError String

-- strings.Count(s, "$("), whose occurrences do not overlap.
unfoldable pub count_start_tags : String → ℕ
count_start_tags String.[] = 0
count_start_tags (String.◌∷◌ c s) =
    let rest = count_start_tags s in if has_prefix (String.◌∷◌ c s) "$(" then suc rest else rest

unfoldable pub is_single_tag : String → Bool
is_single_tag template =
    has_prefix template "$(" && has_suffix template ")$" && eqb (count_start_tags template) 1

-- strings.TrimSuffix(s, ")$")
trim_end_tag : String → String
trim_end_tag String.[] = ""
trim_end_tag (String.◌∷◌ c s) =
    let rest = String.◌∷◌ c (trim_end_tag s) in if String.◌∷◌ c s == ")$" then "" else rest

drop_char : String → String
drop_char String.[] = ""
drop_char (String.◌∷◌ c s) = s

-- strings.TrimPrefix(s, "$(")
trim_start_tag : String → String
unfolding drop_char
trim_start_tag s = if has_prefix s "$(" then drop_char (drop_char s) else s

module _ {Context : Type 0} (evaluate : String → Context → Result String (List Json))
    (marshal : Json → Result String String) (context : Context) where
  written : String → Json → Result InterpolateError String
  written tag (text s) = ok s
  written tag null = err (nil_value tag)
  written tag v = elim (marshal v) [ ok s ↦ ok s | err e ↦ err (marshal_failed e) ]

  unfoldable pub interpolate_tag : TagFunc
  unfolding written
  interpolate_tag tag = elim (evaluate_json_path evaluate tag context) [
    | err e ↦ err (evaluation_failed tag e)
    | ok v ↦ written tag v
  ]

  -- A text that is one tag gives the value itself, whatever its type.
  unfoldable pub interpolate_leaf_node : TemplateExecutor → String → Result InterpolateError Json
  unfolding trim_end_tag trim_start_tag
  interpolate_leaf_node executor template =
      if is_single_tag template
      then (elim (evaluate_json_path evaluate (trim_start_tag (trim_end_tag template)) context) [
        | err e ↦ err (evaluation_failed template e)
        | ok v ↦ ok v
      ])
      else (elim (executor template "$(" ")$" interpolate_tag) [
        | err e ↦ err e
        | ok s ↦ ok (text s)
      ])
