-- ===== src/Validation/Options.antt =====
-- What the shared checks accept.
use cartographer.Prelude.{
  ◌≤◌, ◌++◌, String, ◌≡◌, refl, ap, ◌↔◌, ◌⊎◌, Bool, true, false, not, ◌&&◌, List, [], ◌∷◌, All,
  arith, ◌==◌, ltb,
}
use cartographer.Prelude.Dict.{Dict, lookup}
use cartographer.Prelude.Json.{deep_equal_iff}
use cartographer.Prelude.Result.{Result, ok, err, ◌>>◌, reject, map_err}
use cartographer.Validation.{
  ValidationError, Check, for_each, TemplateOption, Value-discrete, Expressions-discrete,
  Fields-discrete, SelectorNils-discrete, agree_on, same_labels, same_selector, Rules,
  validate_selector, pass_through_count, called, validate_option, distinct_selectors,
  validate_resource_options,
}

abbrev pub Passes : Check → Type 0
Passes c = c ≡ ok tt

pub >>_iff : (c d : Check) → Passes (c >> d) ↔ (Passes c × Passes d)
>>_iff (ok u) d = (λ h. (ap ok refl, h), λ h. h.1)
>>_iff (err e) d = (λ h. absurd (ground arith), λ h. absurd (ground (arith, h.0)))

pub reject_iff : (b : Bool) (e : ValidationError) → Passes (reject b e) ↔ (b ≡ false)
reject_iff true e = (λ h. absurd (ground arith), λ h. cc)
reject_iff false e = (λ h. refl, λ h. refl)

pub map_err_iff :
    {E : Type 0} (f : E → ValidationError) (c : Result E (Unit {0}))
    → Passes (map_err f c) ↔ (c ≡ ok tt)
map_err_iff f (ok u) = (λ h. refl, λ h. refl)
map_err_iff f (err e) = (λ h. absurd (ground arith), λ h. absurd (ground arith))

pub for_each_iff {ℓ} :
    {A : Type ℓ} (check : A → Check) (xs : List A)
    → Passes (for_each check xs) ↔ All (λ x. Passes (check x)) xs
unfolding for_each
for_each_iff check [] = (λ h. tt, λ h. refl)
for_each_iff check (x ∷ xs) =
    let both = >>_iff (check x) (for_each check xs) in
    let rest = for_each_iff check xs in
    (λ h. ((both.0 h).0, rest.0 (both.0 h).1), λ h. both.1 (h.0, rest.1 h.1))

pub All-map {ℓ κ μ} :
    {A : Type ℓ} {P : A → Type κ} {Q : A → Type μ} (xs : List A)
    → ((x : A) → P x → Q x)
    → All P xs
    → All Q xs
All-map [] f h = tt
All-map (x ∷ xs) f h = (f x h.0, All-map xs f h.1)

-- An option that names a template or a pass-through, never both, by a selector that is valid.
pub record IsValidOption (rules : Rules) (o : TemplateOption) : Type 0 where
  pub one_of :
      ((o.name == "") ≡ false) × ((o.pass_through == "") ≡ true)
      ⊎ ((o.name == "") ≡ true) × ((o.pass_through == "") ≡ false)
  pub selector : Passes (validate_selector rules o.selector)

validate_option-IsValidOption :
    (rules : Rules) (o : TemplateOption) → Passes (validate_option rules o) → IsValidOption rules o
unfolding validate_option
validate_option-IsValidOption rules o h =
    let c1 =
      reject (not (o.name == "") && not (o.pass_through == ""))
        ValidationError.option_name_and_pass_through in
    let c2 = reject (o.name == "" && o.pass_through == "") ValidationError.option_neither in
    let c3 = map_err (ValidationError.in_option (called o)) (validate_selector rules o.selector) in
    let (p1, rest) = (>>_iff c1 (c2 >> c3)).0 h in
    let (p2, p3) = (>>_iff c2 c3).0 rest in
    let b1 = (reject_iff _ _).0 p1 in
    let b2 = (reject_iff _ _).0 p2 in
    record { one_of = ground arith; selector = (map_err_iff _ _).0 p3 }

-- Two selectors that ask for the same: the same labels in any order, the same expressions and
-- fields, and the same of them nil.
pub record AskTheSame (o p : TemplateOption) : Type 0 where
  pub labels :
      (k : String)
      → lookup k o.selector.label_selector.match_labels
        ≡ lookup k p.selector.label_selector.match_labels
  pub expressions :
      o.selector.label_selector.match_expressions ≡ p.selector.label_selector.match_expressions
  pub fields : o.selector.match_fields ≡ p.selector.match_fields
  pub nils : o.nils ≡ p.nils

-- Options of different names have different selectors.
abbrev pub AreApart : TemplateOption → TemplateOption → Type 0
AreApart o p = (o.name == p.name) ≡ false → ¬ AskTheSame o p

agree_on_all :
    (keys m n : Dict String) → ((k : String) → lookup k m ≡ lookup k n) → agree_on keys m n ≡ true
unfolding agree_on
agree_on_all [] m n h = refl
agree_on_all ((k, v) ∷ keys) m n h = ground (
  arith,
  (deep_equal_iff Value-discrete (lookup k m) (lookup k n)).1 (h k),
  agree_on_all keys m n h,
)

AskTheSame-same_selector : (o p : TemplateOption) → AskTheSame o p → same_selector o p ≡ true
unfolding same_selector same_labels
AskTheSame-same_selector o p same =
    let m = o.selector.label_selector.match_labels in
    let n = p.selector.label_selector.match_labels in
    let labels : agree_on (m ++ n) m n ≡ true = agree_on_all (m ++ n) m n same.labels in
    ground (
      arith,
      labels,
      (deep_equal_iff Expressions-discrete _ _).1 same.expressions,
      (deep_equal_iff Fields-discrete _ _).1 same.fields,
      (deep_equal_iff SelectorNils-discrete _ _).1 same.nils,
    )

distinct_selectors-AreApart :
    (o p : TemplateOption) → Passes (distinct_selectors o p) → AreApart o p
unfolding distinct_selectors
distinct_selectors-AreApart o p h ne same =
    let b = (reject_iff _ _).0 h in ground (arith, AskTheSame-same_selector o p same)

pub record AreValidOptions (rules : Rules) (options : List TemplateOption) : Type 0 where
  pub one_pass_through : pass_through_count options ≤ 1
  pub each : All (IsValidOption rules) options
  pub apart : All (λ o. All (AreApart o) options) options

-- Options that pass the check: at most one is a pass-through, each names a template or a
-- pass-through but not both and has a valid selector, and options of different names have
-- selectors that differ in their labels, in their expressions or fields, or in what of them is nil.
pub validate_resource_options-AreValidOptions :
    (rules : Rules) (options : List TemplateOption)
    → Passes (validate_resource_options rules options)
    → AreValidOptions rules options
unfolding validate_resource_options
validate_resource_options-AreValidOptions rules options h =
    let n = pass_through_count options in
    let c1 = reject (ltb 1 n) (ValidationError.too_many_pass_throughs n) in
    let c2 = for_each (validate_option rules) options in
    let c3 = for_each (λ o. for_each (distinct_selectors o) options) options in
    let (p1, rest) = (>>_iff c1 (c2 >> c3)).0 h in
    let (p2, p3) = (>>_iff c2 c3).0 rest in
    let few = (reject_iff (ltb 1 n) _).0 p1 in
    record {
      one_pass_through = ground arith;
      each = All-map options (validate_option-IsValidOption rules) ((for_each_iff _ options).0 p2);
      apart =
          All-map options
            (λ o q. All-map options (distinct_selectors-AreApart o) ((for_each_iff _ options).0 q))
            ((for_each_iff _ options).0 p3);
    }
