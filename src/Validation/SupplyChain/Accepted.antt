-- ===== src/Validation/SupplyChain/Accepted.antt =====
-- What a ClusterSupplyChain that is accepted satisfies.
use cartographer.Prelude.{
  ◌≡◌, String, true, false, not, ◌&&◌, ◌⊎◌, inl, inr, some, List, [], ◌∷◌, ◌<◌, length, any, All,
  arith, ◌==◌, eq_iff, ltb, eqb, if◌then◌else◌, Option-cases, Bool-cases,
}
use cartographer.Prelude.Result.{ok, err, ◌>>◌, reject}
use cartographer.Params.{BlueprintParam, validate}
use cartographer.Validation.{
  name_and_options, name_nor_options, single_option, invalid_param, in_resource, Check, for_each,
  Rules, validate_resource_options,
}
use cartographer.Validation.Options.{
  Passes, >>_iff, reject_iff, map_err_iff, for_each_iff, AreValidOptions,
  validate_resource_options-AreValidOptions, All-map,
}
use cartographer.Validation.SupplyChain.{
  ResourceReference, TemplateReference, SupplyChainResource, SupplyChain, check_param,
  check_resource_params, validate_params, unique_resources, unique_options, validate_template_ref,
  check_template_ref, check_pass_through, get_resource_by_name, check_resource_ref,
  validate_resource_refs, check_inputs, has_no_selector, validate_new_state,
}

-- No two resources have one name.
abbrev pub HasUniqueNames : List SupplyChainResource → Type 0
HasUniqueNames [] = Unit
HasUniqueNames (r ∷ rs) = All (λ s. (r.name == s.name) ≡ false) rs × HasUniqueNames rs

unseen :
    (seen : List String) (rs : List SupplyChainResource) (n : String)
    → any (λ m. m == n) seen ≡ true
    → Passes (unique_resources seen rs)
    → All (λ s. (n == s.name) ≡ false) rs
unfolding unique_resources
unseen seen [] n h p = tt
unseen seen (r ∷ rs) n h p = elim (Bool-cases (any (λ m. m == r.name) seen)) [
  | inl e ↦ absurd (ground arith)
  | inr e ↦ (
    elim (Bool-cases (n == r.name)) [
      | inl s ↦ absurd (ground (arith, eq_iff n r.name))
      | inr s ↦ s
    ],
    unseen (r.name ∷ seen) rs n (ground arith) (ground arith),
  )
]

unique_resources-HasUniqueNames :
    (seen : List String) (rs : List SupplyChainResource)
    → Passes (unique_resources seen rs)
    → HasUniqueNames rs
unfolding unique_resources
unique_resources-HasUniqueNames seen [] p = tt
unique_resources-HasUniqueNames seen (r ∷ rs) p =
    let later : Passes (unique_resources (r.name ∷ seen) rs) = ground arith in
    (
      unseen (r.name ∷ seen) rs r.name (ground (arith, eq_iff r.name r.name)) later,
      unique_resources-HasUniqueNames (r.name ∷ seen) rs later,
    )

-- A reference names a resource whose template has a kind.
abbrev pub Resolves : SupplyChain → String → ResourceReference → Type 0
Resolves c kind ref =
    (r : SupplyChainResource) × (get_resource_by_name ref.resource c.resources ≡ some r)
    × ((r.template_ref.kind == kind) ≡ true)

check_resource_ref-Resolves :
    (c : SupplyChain) (kind : String) (ref : ResourceReference)
    → Passes (check_resource_ref c kind ref)
    → Resolves c kind ref
unfolding check_resource_ref
check_resource_ref-Resolves c kind ref h =
    elim (Option-cases (get_resource_by_name ref.resource c.resources)) [
      | inl e ↦ absurd (ground arith)
      | inr (r, e) ↦ (r, e, ground arith)
    ]

pub record HasResolvedInputs (c : SupplyChain) (r : SupplyChainResource) : Type 0 where
  pub sources : All (Resolves c "ClusterSourceTemplate") r.sources
  pub images : All (Resolves c "ClusterImageTemplate") r.images
  pub configs : All (Resolves c "ClusterConfigTemplate") r.configs

check_inputs-HasResolvedInputs :
    (c : SupplyChain) (r : SupplyChainResource) → Passes (check_inputs c r) → HasResolvedInputs c r
unfolding check_inputs validate_resource_refs
check_inputs-HasResolvedInputs c r h =
    let (s, rest) = (>>_iff _ _).0 h in
    let (i, k) = (>>_iff _ _).0 rest in
    record {
      sources =
          All-map r.sources (check_resource_ref-Resolves c "ClusterSourceTemplate")
            ((for_each_iff _ r.sources).0 ((map_err_iff _ _).0 s));
      images =
          All-map r.images (check_resource_ref-Resolves c "ClusterImageTemplate")
            ((for_each_iff _ r.images).0 ((map_err_iff _ _).0 i));
      configs =
          All-map r.configs (check_resource_ref-Resolves c "ClusterConfigTemplate")
            ((for_each_iff _ r.configs).0 ((map_err_iff _ _).0 k));
    }

-- A template reference has a name and no options, or no name and at least two valid options.
pub record IsValidRef (rules : Rules) (ref : TemplateReference) : Type 0 where
  pub one_of :
      ((ref.name == "") ≡ false) × (length ref.options ≡ 0)
      ⊎ ((ref.name == "") ≡ true) × (1 < length ref.options)
  pub options : AreValidOptions rules ref.options

exactly_one :
    (rules : Rules) (ref : TemplateReference)
    → (not (ref.name == "") && ltb 0 (length ref.options)) ≡ false
    → Passes (
        if ref.name == "" && ltb (length ref.options) 2
        then (if eqb (length ref.options) 1 then err single_option else err name_nor_options)
        else ok tt)
    → ((ref.name == "") ≡ false) × (length ref.options ≡ 0)
      ⊎ ((ref.name == "") ≡ true) × (1 < length ref.options)
exactly_one rules ref h k = ground arith

pub validate_template_ref-IsValidRef :
    (rules : Rules) (ref : TemplateReference)
    → Passes (validate_template_ref rules ref)
    → IsValidRef rules ref
unfolding validate_template_ref
validate_template_ref-IsValidRef rules ref h =
    let b1 = not (ref.name == "") && ltb 0 (length ref.options) in
    let c1 = reject b1 name_and_options in
    let c2 : Check =
      if ref.name == "" && ltb (length ref.options) 2
      then (if eqb (length ref.options) 1 then err single_option else err name_nor_options)
      else ok tt in
    let c3 = validate_resource_options rules ref.options in
    let (p1, rest) = (>>_iff c1 (c2 >> c3)).0 h in
    let (p2, p3) = (>>_iff c2 c3).0 rest in
    record {
      one_of = exactly_one rules ref ((reject_iff b1 name_and_options).0 p1) p2;
      options = validate_resource_options-AreValidOptions rules ref.options p3;
    }

check_template_ref-IsValidRef :
    (rules : Rules) (r : SupplyChainResource)
    → Passes (check_template_ref rules r)
    → IsValidRef rules r.template_ref
unfolding check_template_ref
check_template_ref-IsValidRef rules r h =
    validate_template_ref-IsValidRef rules r.template_ref
      ((map_err_iff (in_resource r.name) (validate_template_ref rules r.template_ref)).0 h)

pub check_param_iff : (p : BlueprintParam) → Passes (check_param p) → validate p ≡ ok tt
unfolding check_param
check_param_iff p h = (map_err_iff invalid_param (validate p)).0 h

-- What acceptance guarantees the realizer.
pub record IsAccepted (rules : Rules) (c : SupplyChain) : Type 0 where
  pub selected : has_no_selector c.selectors ≡ false
  pub params : All (λ p. validate p ≡ ok tt) c.params
  pub resource_params : All (λ r. All (λ p. validate p ≡ ok tt) r.params) c.resources
  pub unique : HasUniqueNames c.resources
  pub refs : All (λ r. IsValidRef rules r.template_ref) c.resources
  pub inputs : All (HasResolvedInputs c) c.resources

-- An accepted supply chain has a selector, parameters with exactly one value, resources of
-- different names, each with a template or at least two valid options, and whose inputs come from
-- resources of the chain that have the kind for the input.
pub validate_new_state-IsAccepted :
    (rules : Rules) (c : SupplyChain) → Passes (validate_new_state rules c) → IsAccepted rules c
unfolding validate_new_state validate_params check_resource_params
validate_new_state-IsAccepted rules c h =
    let options = for_each (λ r. unique_options r.name [] r.template_ref.options) c.resources in
    let pass_throughs =
      for_each (λ r. for_each (check_pass_through r) r.template_ref.options) c.resources in
    let refs = for_each (check_template_ref rules) c.resources in
    let inputs = for_each (check_inputs c) c.resources in
    let (p1, h1) = (>>_iff _ _).0 h in
    let (p2, h2) = (>>_iff _ _).0 h1 in
    let (p3, h3) = (>>_iff _ _).0 h2 in
    let (p4, h4) = (>>_iff _ _).0 h3 in
    let (p5, h5) = (>>_iff options (refs >> (pass_throughs >> inputs))).0 h4 in
    let (p6, h6) = (>>_iff refs (pass_throughs >> inputs)).0 h5 in
    let (p7, p8) = (>>_iff pass_throughs inputs).0 h6 in
    let (q1, q2) = (>>_iff _ _).0 p2 in
    record {
      selected = (reject_iff _ _).0 p1;
      params = All-map c.params check_param_iff ((for_each_iff check_param c.params).0 q1);
      resource_params =
          All-map c.resources
            (λ r q. All-map r.params check_param_iff (
              (for_each_iff check_param r.params).0
                ((map_err_iff (in_resource r.name) (for_each check_param r.params)).0 q)))
            ((for_each_iff check_resource_params c.resources).0 q2);
      unique = unique_resources-HasUniqueNames [] c.resources p4;
      refs =
          All-map c.resources (check_template_ref-IsValidRef rules)
            ((for_each_iff (check_template_ref rules) c.resources).0 p6);
      inputs =
          All-map c.resources (check_inputs-HasResolvedInputs c)
            ((for_each_iff (check_inputs c) c.resources).0 p8);
    }
