-- ===== src/Params.antt =====
-- pkg/realizer/params.go: the parameters of a template, merged from the template's defaults, the
-- blueprint, its resource and the owner. A JSON value is kept as decoded.
pub mod Merge
mod Tests
use cartographer.Prelude.{
  String, Bool, true, false, not, ◌||◌, ◌&&◌, Option, none, some, List, [], ◌∷◌, is_some,
  if◌then◌else◌,
}
use cartographer.Prelude.Dict.{Dict, insert, lookup}
use cartographer.Prelude.Json.{Json}
use cartographer.Prelude.Result.{Result, ok, err}

pub record TemplateParam : Type 0 where
  pub name : String
  pub default_value : Json

pub record OwnerParam : Type 0 where
  pub name : String
  pub value : Json

-- One of `value` and `default_value` is to be set.
pub record BlueprintParam : Type 0 where
  pub name : String
  pub value : Option Json
  pub default_value : Option Json

unfoldable pub both_values_set : BlueprintParam → Bool
both_values_set p = is_some p.default_value && is_some p.value

unfoldable pub neither_value_set : BlueprintParam → Bool
neither_value_set p = not (is_some p.default_value) && not (is_some p.value)

-- BlueprintParam.validate: the error names the parameter.
unfoldable pub validate : BlueprintParam → Result String (Unit {0})
unfolding both_values_set neither_value_set
validate p = if both_values_set p || neither_value_set p then err p.name else ok tt

-- `newParams` and `protectedFromOwnerOverride`
pub record Merged : Type 0 where
  pub params : Dict Json
  pub protected : Dict Bool

owner_can_override : Dict Bool → String → Bool
owner_can_override is_protected key = elim (lookup key is_protected) [
  | none ↦ true
  | some protected ↦ not protected
]

add_defaults : List TemplateParam → Dict Json → Dict Json
add_defaults [] params = params
add_defaults (p ∷ ps) params = add_defaults ps (insert p.name p.default_value params)

-- One round of the loops over blueprint and resource parameters. With neither value set the code
-- dereferences nil: `none` is that panic.
override_one : BlueprintParam → Merged → Option Merged
override_one p m = elim p.value [
  | some v ↦
      some
        (record { params = insert p.name v m.params; protected = insert p.name true m.protected })
  | none ↦ elim p.default_value [
    | some d ↦
        some (record {
          params = insert p.name d m.params;
          protected = insert p.name false m.protected;
        })
    | none ↦ none
  ]
]

override_all : List BlueprintParam → Merged → Option Merged
override_all [] m = some m
override_all (p ∷ ps) m = elim (override_one p m) [ none ↦ none | some m' ↦ override_all ps m' ]

override_by_owner : Dict Bool → List OwnerParam → Dict Json → Dict Json
override_by_owner protected [] params = params
override_by_owner protected (p ∷ ps) params =
    override_by_owner protected ps
      (if owner_can_override protected p.name then insert p.name p.value params else params)

pub record ParamMerger : Type 0 where
  pub resource_params : List BlueprintParam
  pub blueprint_params : List BlueprintParam
  pub owner_params : List OwnerParam

-- `if templateParams != nil`
defaults_of : Option (List TemplateParam) → Dict Json
unfolding add_defaults
defaults_of none = []
defaults_of (some ps) = add_defaults ps []

-- `none` for a nil `templateParams`. The result `none` is a panic.
pub merge : ParamMerger → Option (List TemplateParam) → Option (Dict Json)
unfolding defaults_of override_all override_by_owner override_one owner_can_override
merge p template_params =
    let start : Merged = record { params = defaults_of template_params; protected = [] } in
    elim (override_all p.blueprint_params start) [
      | none ↦ none
      | some m ↦ elim (override_all p.resource_params m) [
        | none ↦ none
        | some m' ↦ some (override_by_owner m'.protected p.owner_params m'.params)
      ]
    ]
