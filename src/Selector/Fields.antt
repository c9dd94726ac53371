-- ===== src/Selector/Fields.antt =====
-- When an object satisfies field requirements.
use cartographer.Prelude.{
  String, ◌≡◌, refl, sym, not, ap, subst, ◌∙◌, ◌≢◌, ◌↔◌, ◌⊎◌, inl, inr, Bool, true, false, List, [],
  ◌∷◌, ◌==◌, any, All, arith,
}
use cartographer.Prelude.Json.{Json, null, text, equals_text, is_null}
use cartographer.Prelude.Result.{Result, ok, err}
use cartographer.Eval.{EvalError, path_does_not_exist, evaluate_json_path}
use cartographer.Selector.{
  Operator, op_in, op_not_in, op_exists, op_does_not_exist, other_op, FieldSelectorRequirement,
  Selectable, match_result, matches, matches_all_fields,
}

-- What an operator asks of the value at its key: `In` a text among the values, `NotIn` a value that
-- is none of them, `Exists` a value that is not null, `DoesNotExist` null or no value.
abbrev pub HoldsAt : Operator → List String → Result EvalError Json → Type 0
HoldsAt op_in vs r = (v : String) × (r ≡ ok (text v)) × (any (λ w. v == w) vs ≡ true)
HoldsAt op_not_in vs r =
    (j : Json) × (r ≡ ok j) × ((v : String) → j ≡ text v → any (λ w. v == w) vs ≡ false)
HoldsAt op_exists vs r = (j : Json) × (r ≡ ok j) × (j ≢ null)
HoldsAt op_does_not_exist vs r = (r ≡ ok null) ⊎ ((p : String) × (r ≡ err (path_does_not_exist p)))
HoldsAt (other_op o) vs r = ⊥

any_text : (v : String) (vs : List String) → any (equals_text (text v)) vs ≡ any (λ w. v == w) vs
unfolding equals_text
any_text v [] = refl
any_text v (w ∷ ws) = rw (any_text v ws)

any_not_text :
    (j : Json) (vs : List String) → ((v : String) → j ≢ text v) → any (equals_text j) vs ≡ false
unfolding equals_text
any_not_text j [] h = refl
any_not_text (text v) (w ∷ ws) h = absurd (h v refl)
any_not_text null (w ∷ ws) h = any_not_text null ws h
any_not_text j (w ∷ ws) h = any_not_text j ws h

abbrev Among : String → List String → Bool → Type 0
Among v vs b = any (λ w. v == w) vs ≡ b

from_text : (P : String → Type 0) {u v : String} → text u ≡ text v → P v → P u
from_text P {u} {v} e h = let same : u ≡ v = cc in subst P (sym same) h

in_iff :
    (j : Json) (vs : List String)
    → (any (equals_text j) vs ≡ true) ↔ ((v : String) × (j ≡ text v) × Among v vs true)
in_iff (text u) vs = (
  λ h. (u, refl, sym (any_text u vs) ∙ h),
  λ (v, e, m). any_text u vs ∙ from_text (λ w. Among w vs true) e m,
)
in_iff null vs = (λ h. ground (arith, any_not_text null vs (λ v e. cc)), λ (v, e, m). cc)
in_iff j vs = (λ h. ground (arith, any_not_text j vs (λ v e. cc)), λ (v, e, m). cc)

not_in_iff :
    (j : Json) (vs : List String)
    → (any (equals_text j) vs ≡ false) ↔ ((v : String) → j ≡ text v → Among v vs false)
not_in_iff (text u) vs = (
  λ h v e. from_text (λ w. Among w vs false) (sym e) (sym (any_text u vs) ∙ h),
  λ h. any_text u vs ∙ h u refl,
)
not_in_iff null vs = (λ h v e. cc, λ h. any_not_text null vs (λ v e. cc))
not_in_iff j vs = (λ h v e. cc, λ h. any_not_text j vs (λ v e. cc))

is_null_lem : (j : Json) → (is_null j ≡ true) ↔ (j ≡ null)
unfolding is_null
is_null_lem null = (λ h. refl, λ h. refl)
is_null_lem (text v) = (λ h. cc, λ h. cc)
is_null_lem j = (λ h. cc, λ h. cc)

ok_injective : {j k : Json} → ◌≡◌ {A = Result EvalError Json} (ok j) (ok k) → j ≡ k
ok_injective e = cc

module _ (vs : List String) where
  value-HoldsAt :
      (op : Operator) (j : Json) → (match_result op vs (ok j) ≡ ok true) ↔ HoldsAt op vs (ok j)
  unfolding match_result
  value-HoldsAt op_in j = (
    λ h. let (v, e, m) = (in_iff j vs).0 (ground arith) in (v, ap ok e, m),
    λ (v, e, m). ap ok ((in_iff j vs).1 (v, ok_injective e, m)),
  )
  value-HoldsAt op_not_in j = (
    λ h. (j, refl, (not_in_iff j vs).0 (ground arith)),
    λ (k, e, m). ap (λ b. ok (not b)) ((not_in_iff j vs).1 (λ v p. m v (sym (ok_injective e) ∙ p))),
  )
  value-HoldsAt op_exists j = (
    λ h. (j, refl, λ e. ground (arith, (is_null_lem j).1 e)),
    λ (k, e, m). ground (arith, (is_null_lem j).0, λ (p : j ≡ null). m (sym (ok_injective e) ∙ p)),
  )
  value-HoldsAt op_does_not_exist j = (
    λ h. inl (ap ok ((is_null_lem j).0 (ground arith))),
    λ h. elim h [
      | inl e ↦ ap ok ((is_null_lem j).1 (ok_injective e))
      | inr (p, e) ↦ absurd (ground arith)
    ],
  )
  value-HoldsAt (other_op o) j = (λ h. ground arith, λ h. absurd h)

  error-HoldsAt :
      (op : Operator) (e : EvalError)
      → (match_result op vs (err e) ≡ ok true) ↔ HoldsAt op vs (err e)
  unfolding match_result is_null
  error-HoldsAt op_in e = (λ h. ground arith, λ h. ground arith)
  error-HoldsAt op_not_in e = (λ h. ground arith, λ h. ground arith)
  error-HoldsAt op_exists e = (λ h. ground arith, λ h. ground arith)
  error-HoldsAt op_does_not_exist (path_does_not_exist p) = (λ h. inr (p, refl), λ h. refl)
  error-HoldsAt op_does_not_exist e = (λ h. ground arith, λ h. ground arith)
  error-HoldsAt (other_op o) e = (λ h. ground arith, λ h. absurd h)

module _ {Obj : Type 0} (sel : Selectable Obj) (obj : Obj) where
  abbrev pub Holds : FieldSelectorRequirement → Type 0
  Holds req = HoldsAt req.operator req.values (evaluate_json_path sel.evaluate req.key obj)

  -- A requirement matches exactly where it holds.
  matches-Holds : (req : FieldSelectorRequirement) → (matches sel req obj ≡ ok true) ↔ Holds req
  unfolding matches
  matches-Holds req = result req.operator (evaluate_json_path sel.evaluate req.key obj)
    where
      result :
          (op : Operator) (r : Result EvalError Json)
          → (match_result op req.values r ≡ ok true) ↔ HoldsAt op req.values r
      result op (ok j) = value-HoldsAt req.values op j
      result op (err e) = error-HoldsAt req.values op e

  -- The requirements of a selector match exactly where each one holds.
  pub matches_all_fields-Holds :
      (reqs : List FieldSelectorRequirement)
      → (matches_all_fields sel obj reqs ≡ ok true) ↔ All Holds reqs
  unfolding matches_all_fields
  matches_all_fields-Holds [] = (λ h. tt, λ h. refl)
  matches_all_fields-Holds (req ∷ reqs) =
      let one = matches-Holds req in
      let rest = matches_all_fields-Holds reqs in
      (
        λ h. (one.0 (ground arith), rest.0 (ground arith)),
        λ (h, hs). ground (arith, one.1 h, rest.1 hs),
      )
