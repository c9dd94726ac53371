-- ===== src/Eval.antt =====
-- pkg/eval: evaluation of a jsonpath that must name exactly one value. The jsonpath library that
-- `utils.SinglePathEvaluate` calls is the parameter `evaluate`; its errors are texts.
mod Laws
mod Tests
use Prim.Native.String.{◌++◌ as ◌+++◌}
use package.text.Mathlib.Text.{starts_with}
use cartographer.Prelude.{
  ℕ, String, ◌≡◌, Bool, true, false, not, ◌||◌, List, [], ◌∷◌, ◌==◌, if◌then◌else◌,
}
use cartographer.Prelude.Json.{Json}
use cartographer.Prelude.Result.{Result, ok, err}

pub data EvalError : Type 0 where
  empty_path : EvalError
  evaluate_failed : String → EvalError
  too_many_results : String → EvalError
  path_does_not_exist : String → EvalError

-- `err.(eval.JsonPathDoesNotExistError)`
abbrev pub is_does_not_exist : EvalError → Bool
is_does_not_exist (path_does_not_exist path) = true
is_does_not_exist _ = false

-- strings.HasPrefix and strings.HasSuffix
abbrev pub has_prefix : String → String → Bool
has_prefix = starts_with

unfoldable pub has_suffix : String → String → Bool
has_suffix String.[] t = String.[] == t
has_suffix (String.◌∷◌ c s) t = String.◌∷◌ c s == t || has_suffix s t

wrap_front : String → String
wrap_front path =
    if not (has_prefix path "{.")
    then (if not (has_prefix path ".") then "{." +++ path else "{" +++ path)
    else path

wrap_back : String → String
wrap_back path = if not (has_suffix path "}") then path +++ "}" else path

unfoldable pub ensure_valid_wrapping : String → String
unfolding wrap_front wrap_back
ensure_valid_wrapping path = wrap_back (wrap_front path)

module _ {Obj : Type 0} (evaluate : String → Obj → Result String (List Json)) where
  -- exactly one result
  unfoldable pub single : String → Result String (List Json) → Result EvalError Json
  single path (err e) = err (evaluate_failed e)
  single path (ok []) = err (path_does_not_exist path)
  single path (ok (v ∷ [])) = ok v
  single path (ok (v ∷ w ∷ vs)) = err (too_many_results path)

  unfoldable pub evaluate_json_path : String → Obj → Result EvalError Json
  unfolding single
  evaluate_json_path path obj =
      if path == "" then err empty_path else single path (evaluate (ensure_valid_wrapping path) obj)
