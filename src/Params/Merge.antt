-- ===== src/Params/Merge.antt =====
-- Which value a parameter gets.
use cartographer.Prelude.{
  String, ◌≡◌, refl, Bool, true, false, Option, none, some, List, [], ◌∷◌, ◌==◌, eq_iff, arith, All,
  is_some, Option-cases, inl, inr, if◌then◌else◌,
}
use cartographer.Prelude.Dict.{Dict, insert, lookup, lookup-insert}
use cartographer.Prelude.Json.{Json}
use cartographer.Prelude.Result.{ok}
use cartographer.Params.{
  TemplateParam, OwnerParam, BlueprintParam, validate, Merged, owner_can_override, add_defaults,
  defaults_of, override_one, override_all, override_by_owner, ParamMerger, merge,
}

-- The value of the last parameter of a name, or the value before.
unfoldable pub last_default : String → List TemplateParam → Option Json → Option Json
last_default k [] before = before
last_default k (p ∷ ps) before =
    last_default k ps (if p.name == k then some p.default_value else before)

unfoldable pub last_owner : String → List OwnerParam → Option Json → Option Json
last_owner k [] before = before
last_owner k (p ∷ ps) before = last_owner k ps (if p.name == k then some p.value else before)

unfoldable pub last_blueprint :
    String → List BlueprintParam → Option BlueprintParam → Option BlueprintParam
last_blueprint k [] before = before
last_blueprint k (p ∷ ps) before = last_blueprint k ps (if p.name == k then some p else before)

-- The template's default for a key.
unfoldable pub default_of : String → Option (List TemplateParam) → Option Json
unfolding last_default
default_of k none = none
default_of k (some ps) = last_default k ps none

-- A value set by the blueprint is final. Otherwise the owner's value comes before the blueprint's
-- default, and that before the template's. The resource's parameters stand behind the blueprint's.
unfoldable pub resolve : Option BlueprintParam → Option Json → Option Json → Option Json
resolve none owner default = elim owner [ some v ↦ some v | none ↦ default ]
resolve (some p) owner default = elim p.value [
  | some v ↦ some v
  | none ↦ elim owner [ some v ↦ some v | none ↦ p.default_value ]
]

add_defaults-lookup :
    (k : String) (ps : List TemplateParam) (m : Dict Json)
    → lookup k (add_defaults ps m) ≡ last_default k ps (lookup k m)
unfolding add_defaults last_default
add_defaults-lookup k [] m = refl
add_defaults-lookup k (p ∷ ps) m = rw (
  add_defaults-lookup k ps (insert p.name p.default_value m),
  lookup-insert p.name k p.default_value m,
)

override_by_owner-lookup :
    (k : String) (prot : Dict Bool) (ps : List OwnerParam) (m : Dict Json)
    → lookup k (override_by_owner prot ps m)
      ≡ (if owner_can_override prot k then last_owner k ps (lookup k m) else lookup k m)
unfolding override_by_owner last_owner
override_by_owner-lookup k prot [] m = ground arith
override_by_owner-lookup k prot (p ∷ ps) m = ground (
  arith,
  override_by_owner-lookup k prot ps
      (if owner_can_override prot p.name then insert p.name p.value m else m),
  lookup-insert p.name k p.value m,
  eq_iff p.name k,
)

module _ (k : String) where
  -- What a parameter of the key's name, if there is one, makes of the value before.
  abbrev value_of : Option BlueprintParam → Option Json → Option Json
  value_of none before = before
  value_of (some p) before = elim p.value [ some v ↦ some v | none ↦ p.default_value ]

  abbrev protection : Option BlueprintParam → Option Bool
  protection none = none
  protection (some p) = some (is_some p.value)

  record Tracks (p : Option BlueprintParam) (before : Option Json) (m : Merged) : Type 0 where
    value : lookup k m.params ≡ value_of p before
    shield : lookup k m.protected ≡ protection p

  abbrev nearer : BlueprintParam → Option BlueprintParam → Option BlueprintParam
  nearer p last = if p.name == k then some p else last

  override_one-Tracks :
      (p : BlueprintParam) (last : Option BlueprintParam) (before : Option Json) (m : Merged)
      → validate p ≡ ok tt
      → Tracks last before m
      → (m' : Merged) × (override_one p m ≡ some m') × Tracks (nearer p last) before m'
  unfolding override_one
  override_one-Tracks p last before m ok_p t = elim (Option-cases p.value) [
    | inr (v, e) ↦ (
      record { params = insert p.name v m.params; protected = insert p.name true m.protected },
      ground arith,
      record {
        value = ground (arith, lookup-insert p.name k v m.params, t.value);
        shield = ground (arith, lookup-insert p.name k true m.protected, t.shield);
      },
    )
    | inl e ↦ elim (Option-cases p.default_value) [
      | inr (d, e') ↦ (
        record { params = insert p.name d m.params; protected = insert p.name false m.protected },
        ground arith,
        record {
          value = ground (arith, lookup-insert p.name k d m.params, t.value);
          shield = ground (arith, lookup-insert p.name k false m.protected, t.shield);
        },
      )
      | inl e' ↦ absurd (unfold validate in ground arith)
    ]
  ]

  override_all-Tracks :
      (ps : List BlueprintParam) (last : Option BlueprintParam) (before : Option Json) (m : Merged)
      → All (λ p. validate p ≡ ok tt) ps
      → Tracks last before m
      → (m' : Merged) × (override_all ps m ≡ some m') × Tracks (last_blueprint k ps last) before m'
  unfolding override_all last_blueprint
  override_all-Tracks [] last before m valid t = (m, refl, t)
  override_all-Tracks (p ∷ ps) last before m valid t =
      let (m1, e1, t1) = override_one-Tracks p last before m valid.0 t in
      let (m2, e2, t2) = override_all-Tracks ps (nearer p last) before m1 valid.1 t1 in
      (m2, rw (e1, override_all) e2, t2)

  defaults-lookup : (ps : Option (List TemplateParam)) → lookup k (defaults_of ps) ≡ default_of k ps
  unfolding defaults_of default_of lookup
  defaults-lookup none = refl
  defaults-lookup (some ps) = add_defaults-lookup k ps []

  last_owner-or :
      (ps : List OwnerParam) (before : Option Json)
      → last_owner k ps before ≡ elim (last_owner k ps none) [ some v ↦ some v | none ↦ before ]
  unfolding last_owner
  last_owner-or [] before = refl
  last_owner-or (p ∷ ps) before =
      ground (arith, last_owner-or ps before, last_owner-or ps (some p.value))

  resolved :
      (last : Option BlueprintParam) (before : Option Json) (m : Merged)
      → Tracks last before m
      → (ps : List OwnerParam)
      → lookup k (override_by_owner m.protected ps m.params)
        ≡ resolve last (last_owner k ps none) before
  unfolding resolve owner_can_override
  resolved none before m t ps = ground (
    arith,
    override_by_owner-lookup k m.protected ps m.params,
    last_owner-or ps before,
    t.value,
    t.shield,
  )
  resolved (some p) before m t ps = ground (
    arith,
    override_by_owner-lookup k m.protected ps m.params,
    last_owner-or ps p.default_value,
    t.value,
    t.shield,
  )

  -- Where every blueprint and resource parameter sets exactly one of its two values, the merge does
  -- not panic. With p the last parameter of a key among the resource's, or else among the
  -- blueprint's, the key gets the value that p sets; else the owner's last value; else the default of
  -- p. Without such a parameter it gets the owner's last value, or else the template's last default.
  pub merge-resolve :
      (p : ParamMerger) (template_params : Option (List TemplateParam))
      → All (λ b. validate b ≡ ok tt) p.blueprint_params
      → All (λ b. validate b ≡ ok tt) p.resource_params
      → (m : Dict Json) × (merge p template_params ≡ some m)
        × (lookup k m
            ≡ resolve
                (last_blueprint k p.resource_params (last_blueprint k p.blueprint_params none))
                (last_owner k p.owner_params none)
                (default_of k template_params))
  unfolding merge lookup
  merge-resolve p template_params blue res =
      let start : Merged = record { params = defaults_of template_params; protected = [] } in
      let before = default_of k template_params in
      let begin : Tracks none before start = record {
        value = defaults-lookup template_params;
        shield = refl;
      } in
      let (m1, e1, t1) = override_all-Tracks p.blueprint_params none before start blue begin in
      let blueprint = last_blueprint k p.blueprint_params none in
      let (m2, e2, t2) = override_all-Tracks p.resource_params blueprint before m1 res t1 in
      (
        override_by_owner m2.protected p.owner_params m2.params,
        ground arith,
        resolved (last_blueprint k p.resource_params blueprint) before m2 t2 p.owner_params,
      )
