-- ===== src/Params/Tests.antt =====
-- A run of the merge: the blueprint's default gives way to the owner's value.
use cartographer.Prelude.{◌≡◌, refl, Option, none, some, List, [], ◌∷◌}
use cartographer.Prelude.Dict.{Dict, lookup}
use cartographer.Prelude.Json.{Json, text}
use cartographer.Prelude.Result.{ok}
use cartographer.Params.{
  TemplateParam, BlueprintParam, ParamMerger, validate, merge, both_values_set, neither_value_set,
}
use cartographer.Params.Merge.{resolve, last_blueprint, last_owner, default_of, merge-resolve}

abbrev registry : BlueprintParam
registry = record { name = "registry"; value = none; default_value = some (text "local") }

abbrev branch : BlueprintParam
branch = record { name = "branch"; value = some (text "main"); default_value = none }

abbrev merger : ParamMerger
merger = record {
  resource_params = branch ∷ [];
  blueprint_params = registry ∷ [];
  owner_params = record { name = "registry"; value = text "remote" } ∷ [];
}

abbrev defaults : Option (List TemplateParam)
defaults = some (record { name = "branch"; default_value = text "dev" } ∷ [])

registry_is_valid : validate registry ≡ ok tt
unfolding validate both_values_set neither_value_set
registry_is_valid = refl

branch_is_valid : validate branch ≡ ok tt
unfolding validate both_values_set neither_value_set
branch_is_valid = refl

owner_wins :
    resolve
      (last_blueprint "registry" (branch ∷ []) (last_blueprint "registry" (registry ∷ []) none))
      (last_owner "registry" merger.owner_params none)
      (default_of "registry" defaults)
    ≡ some (text "remote")
unfolding resolve last_blueprint last_owner default_of
owner_wins = refl

merge-resolve_example :
    (m : Dict Json) × (merge merger defaults ≡ some m)
    × (lookup "registry" m
        ≡ resolve
            (last_blueprint "registry"
              (branch ∷ [])
              (last_blueprint "registry" (registry ∷ []) none))
            (last_owner "registry" merger.owner_params none)
            (default_of "registry" defaults))
merge-resolve_example =
    merge-resolve "registry" merger defaults (registry_is_valid, tt) (branch_is_valid, tt)
