-- ===== src/Stamp/Ready.antt =====
-- When a deployment's output is passed on.
use cartographer.Prelude.{
  String, ◌≡◌, refl, ◌↔◌, ◌⊎◌, inl, inr, true, false, Option, none, some, List, [], ◌∷◌, arith, ap,
  sym, ◌∙◌, subst, eq_refl, Option-cases,
}
use cartographer.Prelude.Json.{
  Json, null, boolean, number, text, array, object, interface_eq, interface_eq_lem, equals_text,
  equals_text_lem,
}
use cartographer.Prelude.Result.{Result, ok, err, Result-cases}
use cartographer.Eval.{EvalError, path_does_not_exist, evaluate_json_path}
use cartographer.Templates.{DeploymentSpec, ObservedMatch, KeyValue, ObservedCompletion}
use cartographer.Realizer.{Output, SourceInput}
use cartographer.Stamp.{
  PassThroughInput, StampError, deployment_pass_through_reader, only_source, Outcome, unless_match,
  has_succeeded, has_not_failed, unless_failed, no_value, no_match, observed_matches_ready,
  succeeded, not_failed, conditions_ready, observed_completion_ready, ready_by, json_path_error,
  observed_generation_error, output_ready, read_deployment, pass_deployment, output,
}

-- A value that Go can compare with another of its type.
unfoldable pub IsScalar : Json → Type 0
IsScalar (array items) = ⊥
IsScalar (object fields) = ⊥
IsScalar _ = Unit {0}

interface_eq-IsScalar : (a b : Json) → interface_eq a b ≡ some true → IsScalar a
unfolding interface_eq IsScalar
interface_eq-IsScalar null b h = tt
interface_eq-IsScalar (boolean a) b h = tt
interface_eq-IsScalar (number a) b h = tt
interface_eq-IsScalar (text a) b h = tt
interface_eq-IsScalar (array a) (array b) h = ground arith
interface_eq-IsScalar (object a) (object b) h = ground arith
interface_eq-IsScalar _ _ h = ground arith

interface_eq-same : (a : Json) → IsScalar a → interface_eq a a ≡ some true
unfolding interface_eq IsScalar
interface_eq-same null h = refl
interface_eq-same (boolean true) h = refl
interface_eq-same (boolean false) h = refl
interface_eq-same (number a) h = ap some (eq_refl a)
interface_eq-same (text a) h = ap some (eq_refl a)
interface_eq-same (array a) h = absurd h
interface_eq-same (object a) h = absurd h

value_of : Result EvalError Json → Json
value_of (ok v) = v
value_of (err e) = null

-- The comparison lets on exactly where both paths give one scalar.
unless_match_iff :
    (r s : Result EvalError Json) (f g : EvalError → StampError) (h : Json → Json → StampError)
    (rest : Outcome (Unit {0}))
    → (unless_match r s f g h rest ≡ some (ok tt))
      ↔ (((v : Json) × IsScalar v × (r ≡ ok v) × (s ≡ ok v)) × (rest ≡ some (ok tt)))
unfolding unless_match value_of
unless_match_iff (err e) s f g h rest = (λ p. ground arith, λ q. ground arith)
unless_match_iff (ok v) (err e) f g h rest = (λ p. ground arith, λ q. ground arith)
unless_match_iff (ok v) (ok w) f g h rest = (
  λ p. elim (Option-cases (interface_eq v w)) [
    | inl i ↦ ground arith
    | inr (true, i) ↦
        let same : v ≡ w = interface_eq_lem v w i in
        ((v, interface_eq-IsScalar v w i, refl, ap ok (sym same)), ground (arith, i))
    | inr (false, i) ↦ ground arith
  ],
  λ ((x, c, a, b), k).
      let same : v ≡ w = ap value_of a ∙ sym (ap value_of b) in
      let i : interface_eq v w ≡ some true =
        rw same (interface_eq-same w (subst IsScalar (sym (ap value_of b)) c)) in
      ground (arith, i),
)

has_succeeded_iff :
    (c : KeyValue) (r : Result EvalError Json)
    → (has_succeeded c r ≡ some (ok tt)) ↔ (r ≡ ok (text c.value))
unfolding has_succeeded value_of equals_text
has_succeeded_iff c (err e) = (λ p. ground arith, λ p. ground arith)
has_succeeded_iff c (ok v) = (
  λ p. ap ok (equals_text_lem v c.value (ground arith)),
  λ p. let i : v ≡ text c.value = ap value_of p in ground (arith, eq_refl c.value),
)

has_not_failed_iff :
    (c : KeyValue) (r : Result EvalError Json)
    → (has_not_failed c r ≡ ok tt) ↔ (
        ((v : Json) × (r ≡ ok v) × (equals_text v c.value ≡ false))
        ⊎ ((p : String) × (r ≡ err (path_does_not_exist p))))
unfolding has_not_failed unless_failed value_of equals_text
has_not_failed_iff c (err (path_does_not_exist p)) = (λ h. inr (p, refl), λ h. refl)
has_not_failed_iff c (err e) = (λ h. ground arith, λ h. ground arith)
has_not_failed_iff c (ok v) = (
  λ h. inl (v, refl, ground arith),
  λ h. elim h [
    | inl (w, a, b) ↦ let i : v ≡ w = ap value_of a in ground (arith, i)
    | inr (p, a) ↦ ground arith
  ],
)

output_in : Output → Outcome Output → Output
output_in o (some (ok p)) = p
output_in o _ = o

pass_deployment_iff :
    (ready : Outcome (Unit {0})) (deployment : Option SourceInput) (o : Output)
    → (pass_deployment ready deployment ≡ some (ok o)) ↔ (
        (ready ≡ some (ok tt))
        × ((d : SourceInput) × (deployment ≡ some d) × (o ≡ only_source d.url d.revision)))
unfolding pass_deployment output_in
pass_deployment_iff none deployment o = (λ h. ground arith, λ h. ground arith)
pass_deployment_iff (some (err e)) deployment o = (λ h. ground arith, λ h. ground arith)
pass_deployment_iff (some (ok u)) none o = (λ h. ground arith, λ h. ground arith)
pass_deployment_iff (some (ok u)) (some d) o =
    (λ h. (refl, (d, refl, sym (ap (output_in o) h))), λ (h, (x, i, k)). grind arith)

module _ {Obj : Type 0} (evaluate : String → Obj → Result String (List Json)) (obj : Obj) where
  -- The path gives the value.
  unfoldable pub Gives : String → Json → Type 0
  Gives path v = evaluate_json_path evaluate path obj ≡ ok v

  -- The two paths give one value.
  unfoldable pub Match : String → String → Type 0
  Match input output = (v : Json) × IsScalar v × Gives input v × Gives output v

  unfoldable pub AllMatch : List ObservedMatch → Type 0
  AllMatch [] = Unit {0}
  AllMatch (m ∷ ms) = Match m.input m.output × AllMatch ms

  -- The path gives another value than the one that means failure, or does not exist.
  unfoldable pub NotFailed : Option KeyValue → Type 0
  NotFailed none = Unit {0}
  NotFailed (some c) =
      ((v : Json) × Gives c.key v × (equals_text v c.value ≡ false))
      ⊎ ((p : String) × (evaluate_json_path evaluate c.key obj ≡ err (path_does_not_exist p)))

  unfoldable pub IsComplete : ObservedCompletion → Type 0
  IsComplete c =
      Match "metadata.generation" "status.observedGeneration"
      × NotFailed c.failed_condition
      × Gives c.succeeded_condition.key (text c.succeeded_condition.value)

  -- The completion counts where there is one, and the matches otherwise.
  unfoldable pub IsReadyBy : Option ObservedCompletion → List ObservedMatch → Type 0
  IsReadyBy (some c) ms = IsComplete c
  IsReadyBy none ms = AllMatch ms

  unfoldable pub IsReady : Option DeploymentSpec → Type 0
  IsReady none = Unit {0}
  IsReady (some t) = IsReadyBy t.observed_completion t.observed_matches

  observed_matches_ready_iff :
      (ms : List ObservedMatch)
      → (observed_matches_ready evaluate ms obj ≡ some (ok tt)) ↔ AllMatch ms
  unfolding observed_matches_ready AllMatch Match Gives
  observed_matches_ready_iff [] = (λ h. tt, λ h. refl)
  observed_matches_ready_iff (m ∷ ms) =
      let ih = observed_matches_ready_iff ms in
      let here =
        unless_match_iff (evaluate_json_path evaluate m.input obj)
          (evaluate_json_path evaluate m.output obj) (no_value m.input) (no_value m.output) no_match
          (observed_matches_ready evaluate ms obj) in
      (λ h. let k = here.0 h in (k.0, ih.0 k.1), λ (k, ks). here.1 (k, ih.1 ks))

  not_failed_iff : (c : Option KeyValue) → (not_failed evaluate c obj ≡ ok tt) ↔ NotFailed c
  unfolding not_failed NotFailed Gives
  not_failed_iff none = (λ h. tt, λ h. refl)
  not_failed_iff (some c) = has_not_failed_iff c (evaluate_json_path evaluate c.key obj)

  conditions_ready_iff :
      (c : ObservedCompletion)
      → (conditions_ready evaluate c obj ≡ some (ok tt)) ↔ (
          NotFailed c.failed_condition
          × Gives c.succeeded_condition.key (text c.succeeded_condition.value))
  unfolding conditions_ready Gives succeeded
  conditions_ready_iff c =
      let failed = not_failed_iff c.failed_condition in
      let good =
        has_succeeded_iff c.succeeded_condition
          (evaluate_json_path evaluate c.succeeded_condition.key obj) in
      elim (Result-cases (not_failed evaluate c.failed_condition obj)) [
        | inl (u, h) ↦ (
          λ p. (failed.0 h, good.0 (ground (arith, h, p))),
          λ (p, q). ground (arith, h, good.1 q),
        )
        | inr (e, h) ↦ (λ p. ground arith, λ (p, q). ground (arith, failed.1 p))
      ]

  ready_by_iff :
      (c : Option ObservedCompletion) (ms : List ObservedMatch)
      → (ready_by evaluate c ms obj ≡ some (ok tt)) ↔ IsReadyBy c ms
  unfolding ready_by IsReadyBy IsComplete Match Gives observed_completion_ready
  ready_by_iff none ms = observed_matches_ready_iff ms
  ready_by_iff (some c) ms =
      let generations =
        unless_match_iff (evaluate_json_path evaluate "metadata.generation" obj)
          (evaluate_json_path evaluate "status.observedGeneration" obj)
          (λ e. json_path_error "metadata.generation" (some e)) observed_generation_error no_match
          (conditions_ready evaluate c obj) in
      let rest = conditions_ready_iff c in
      (
        λ h. let k = generations.0 h in let r = rest.0 k.1 in (k.0, r.0, r.1),
        λ (k, p, q). generations.1 (k, rest.1 (p, q)),
      )

  output_ready_iff :
      (t : Option DeploymentSpec) → (output_ready evaluate t obj ≡ some (ok tt)) ↔ IsReady t
  unfolding output_ready IsReady
  output_ready_iff none = (λ h. tt, λ h. refl)
  output_ready_iff (some t) = ready_by_iff t.observed_completion t.observed_matches

  -- The reader of a deployment returns an output exactly where the stamped object is ready, by its
  -- generations and conditions or by all the observed matches, and there is a deployment input; the
  -- output is then that input's source.
  pub output-IsReady :
      (inputs : PassThroughInput) (t : Option DeploymentSpec) (o : Output)
      → (output evaluate (deployment_pass_through_reader inputs t) (some obj) ≡ some (ok o)) ↔ (
          IsReady t
          × ((d : SourceInput) × (inputs.get_deployment ≡ some d)
              × (o ≡ only_source d.url d.revision)))
  unfolding output read_deployment
  output-IsReady inputs t o =
      let ready = output_ready_iff t in
      let passed = pass_deployment_iff (output_ready evaluate t obj) inputs.get_deployment o in
      (λ h. let k = passed.0 h in (ready.0 k.0, k.1), λ (k, d). passed.1 (ready.1 k, d))
