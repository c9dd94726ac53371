-- ===== src/Templates/Tests.antt =====
-- Runs of the stamper, on an object that keeps its parts in fields and a context of one value.
use cartographer.Prelude.{◌≡◌, refl, String, none, some, List, [], ◌∷◌}
use cartographer.Prelude.Dict.{Dict, insert}
use cartographer.Prelude.Json.{text, object, Fields, end, field}
use cartographer.Prelude.Result.{ok, err}
use cartographer.Validation.Template.{TemplateSpec}
use cartographer.Templates.Interpolator.{TemplateExecutor, count_start_tags}
use cartographer.Templates.Stamper.{
  OwnerReference, UnstructuredMethods, Stamper, insert_all, owner_reference, merge_labels,
  set_owner, apply, apply_template, finished, stamp,
}
use cartographer.Templates.Stamped.{
  SettersSet, IsOwned, AreUntagged, LeavesUntagged, stamp-IsOwned, apply_template-AreUntagged,
}

record Plain : Type 0 where
  pub namespace : String
  pub labels : Dict String
  pub owner_references : List OwnerReference
  pub content : Fields

abbrev methods : UnstructuredMethods Plain
methods = record {
  set_unstructured_content =
      λ fs. record { namespace = ""; labels = []; owner_references = []; content = fs };
  get_namespace = λ o. o.namespace;
  set_namespace = λ n o. record o { namespace = n };
  get_labels = λ o. o.labels;
  set_labels = λ ls o. record o { labels = ls };
  get_owner_references = λ o. o.owner_references;
  set_owner_references = λ rs o. record o { owner_references = rs };
}

setters : SettersSet methods
setters = record {
  namespace_set = λ n o. refl;
  namespace_kept = λ rs o. refl;
  namespace_kept_by_labels = λ ls o. refl;
  references_set = λ rs o. refl;
  references_kept_by_labels = λ ls o. refl;
  labels_set = λ ls o k. refl;
  labels_kept = λ n rs o. refl;
}

-- Replaces nothing: the texts of these runs have no tag beside others.
abbrev executor : TemplateExecutor
executor template start_tag end_tag f = ok template

abbrev image : Fields
image = field "kind" (text "Image") (field "spec" (object (field "tag" (text "web") end)) end)

abbrev stamper : Stamper (Dict String) Plain
stamper = record {
  templating_context = ("app", "web") ∷ [];
  owner = record {
    api_version = "carto.run/v1alpha1";
    kind = "Workload";
    uid = "1";
    name = "web";
    namespace = "dev";
  };
  labels = ("carto.run/workload-name", "web") ∷ [];
  evaluate = λ path context. ok (text "value" ∷ []);
  marshal = λ v. ok "{}";
  unmarshal = λ raw. ok (object image);
  executor = executor;
  ytt = λ template context. err "no ytt";
  show = λ n. "0";
  methods = methods;
}

abbrev template : TemplateSpec
template = record {
  template = some "{}";
  ytt = "";
  health_rule = none;
  lifecycle = "mutable";
  retention_policy = none;
}

leaves : LeavesUntagged executor
unfolding LeavesUntagged
leaves t f h = refl

abbrev applied : Plain
applied = methods.set_unstructured_content image

abbrev stamped : Plain
stamped = record applied {
  namespace = "dev";
  labels = ("carto.run/workload-name", "web") ∷ [];
  owner_references = owner_reference stamper.owner ∷ [];
}

no_tags : AreUntagged image
unfolding AreUntagged count_start_tags
no_tags = (refl, ((refl, tt), tt))

apply_template-AreUntagged_example : apply_template stamper "{}" ≡ ok applied
apply_template-AreUntagged_example =
    apply_template-AreUntagged stamper leaves "{}" image refl no_tags

stamped_run : stamp stamper template ≡ ok stamped
unfolding stamp apply finished set_owner merge_labels insert_all insert
stamped_run = rw (apply_template-AreUntagged stamper leaves "{}" image refl no_tags)

stamp-IsOwned_example :
    (made : Plain) × (apply stamper template.template template.ytt ≡ ok made)
    × IsOwned stamper made stamped
stamp-IsOwned_example = stamp-IsOwned stamper setters template stamped stamped_run
