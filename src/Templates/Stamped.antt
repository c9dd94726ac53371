-- ===== src/Templates/Stamped.antt =====
-- What a stamped object is.
use cartographer.Prelude.{
  ℕ, suc, String, ◌≡◌, refl, ap, ◌∙◌, ◌⊎◌, subst, Option, some, List, [], ◌∷◌, ◌++◌, inl, inr,
  arith, ◌==◌, eq_iff, if◌then◌else◌, Bool-cases,
}
use cartographer.Prelude.Dict.{Dict, insert, lookup, lookup-insert}
use cartographer.Prelude.Json.{
  Json, null, boolean, number, text, array, object, Items, nil, cons, Fields, end, field,
}
use cartographer.Prelude.Result.{Result, ok, err, Result-cases}
use cartographer.Validation.Template.{TemplateSpec}
use cartographer.Templates.Interpolator.{
  TagFunc, TemplateExecutor, count_start_tags, is_single_tag, interpolate_tag,
  interpolate_leaf_node,
}
use cartographer.Templates.Stamper.{
  OwnerReference, UnstructuredMethods, Stamper, PathStack, TemplateError, insert_all,
  owner_reference, evaluated_leaf, recursively_evaluate_templates, evaluate_fields, evaluate_items,
  key_component, index_component, apply_template, as_object, merge_labels, set_owner, apply,
  finished, stamp,
}

-- A setter of unstructured.Unstructured sets its part, and leaves the others.
pub record SettersSet {Obj : Type 0} (u : UnstructuredMethods Obj) : Type 0 where
  pub namespace_set : (n : String) (o : Obj) → u.get_namespace (u.set_namespace n o) ≡ n
  pub namespace_kept :
      (rs : List OwnerReference) (o : Obj)
      → u.get_namespace (u.set_owner_references rs o) ≡ u.get_namespace o
  pub namespace_kept_by_labels :
      (ls : Dict String) (o : Obj) → u.get_namespace (u.set_labels ls o) ≡ u.get_namespace o
  pub references_set :
      (rs : List OwnerReference) (o : Obj)
      → u.get_owner_references (u.set_owner_references rs o) ≡ rs
  pub references_kept_by_labels :
      (ls : Dict String) (o : Obj)
      → u.get_owner_references (u.set_labels ls o) ≡ u.get_owner_references o
  pub labels_set :
      (ls : Dict String) (o : Obj) (k : String)
      → lookup k (u.get_labels (u.set_labels ls o)) ≡ lookup k ls
  pub labels_kept :
      (n : String) (rs : List OwnerReference) (o : Obj)
      → u.get_labels (u.set_owner_references rs (u.set_namespace n o)) ≡ u.get_labels o

-- The last value of a key, or the one before.
unfoldable pub last_value : String → Dict String → Option String → Option String
last_value k [] before = before
last_value k ((l, v) ∷ rest) before = last_value k rest (if l == k then some v else before)

lookup-insert_all :
    (k : String) (more labels : Dict String)
    → lookup k (insert_all more labels) ≡ last_value k more (lookup k labels)
unfolding insert_all last_value
lookup-insert_all k [] labels = refl
lookup-insert_all k ((l, v) ∷ rest) labels =
    lookup-insert_all k rest (insert l v labels)
    ∙ ap (last_value k rest) (lookup-insert l k v labels)

module _ {Context Obj : Type 0} (s : Stamper Context Obj) where
  -- The object of the owner: in its namespace, controlled by it alone, and with the labels.
  unfoldable pub IsOwned : Obj → Obj → Type 0
  IsOwned made obj =
      ((s.methods.get_namespace made ≡ "") ⊎ (s.methods.get_namespace made ≡ s.owner.namespace))
      × (s.methods.get_namespace obj ≡ s.owner.namespace)
      × (s.methods.get_owner_references obj ≡ owner_reference s.owner ∷ [])
      × ((k : String)
          → lookup k (s.methods.get_labels obj)
            ≡ last_value k s.labels (lookup k (s.methods.get_labels made)))

  set_owner-IsOwned :
      SettersSet s.methods
      → (made : Obj)
      → (s.methods.get_namespace made ≡ "") ⊎ (s.methods.get_namespace made ≡ s.owner.namespace)
      → IsOwned made (set_owner s made)
  unfolding set_owner merge_labels IsOwned
  set_owner-IsOwned laws made h = (
    h,
    laws.namespace_kept_by_labels _ _ ∙ laws.namespace_kept _ _ ∙ laws.namespace_set _ _,
    laws.references_kept_by_labels _ _ ∙ laws.references_set _ _,
    λ k.
        laws.labels_set _ _ k
        ∙ lookup-insert_all k s.labels _
        ∙ ap (λ ls. last_value k s.labels (lookup k ls)) (laws.labels_kept _ _ made),
  )

  finished-IsOwned :
      SettersSet s.methods → (made obj : Obj) → finished s made ≡ ok obj → IsOwned made obj
  unfolding finished
  finished-IsOwned laws made obj h =
      let namespace = s.methods.get_namespace made in
      elim (Bool-cases (namespace == "")) [
        | inl e ↦
            subst (IsOwned made) (made_obj (ground (arith, h, e)))
              (set_owner-IsOwned laws made (inl ((eq_iff namespace "").0 e)))
        | inr e ↦ elim (Bool-cases (namespace == s.owner.namespace)) [
          | inl o ↦
              subst (IsOwned made) (made_obj (ground (arith, h, e, o)))
                (set_owner-IsOwned laws made (inr ((eq_iff namespace s.owner.namespace).0 o)))
          | inr o ↦ ground arith
        ]
      ]
    where
      object_in : Result TemplateError Obj → Obj
      object_in (ok o) = o
      object_in (err e) = obj

      made_obj :
          Path (Result TemplateError Obj) (ok (set_owner s made)) (ok obj) → set_owner s made ≡ obj
      made_obj e = ap object_in e

  -- An object is only stamped into the namespace of the owner: a template that sets another one is
  -- refused. The object has the owner as its single, controlling owner reference, and the labels of
  -- the stamper over those of the template.
  pub stamp-IsOwned :
      SettersSet s.methods
      → (t : TemplateSpec) (obj : Obj) → stamp s t ≡ ok obj
      → (made : Obj) × (apply s t.template t.ytt ≡ ok made) × IsOwned made obj
  unfolding stamp
  stamp-IsOwned laws t obj h = elim (Result-cases (apply s t.template t.ytt)) [
    | inl (made, e) ↦ (made, e, finished-IsOwned laws made obj (ground (arith, e, h)))
    | inr (e, p) ↦ ground arith
  ]

unfoldable mutual
  -- A value without a tag.
  pub IsUntagged : Json → Type 0
  IsUntagged (text t) = count_start_tags t ≡ 0
  IsUntagged (object fs) = AreUntagged fs
  IsUntagged (array xs) = AllUntagged xs
  IsUntagged _ = Unit {0}

  pub AreUntagged : Fields → Type 0
  AreUntagged end = Unit {0}
  AreUntagged (field k v fs) = IsUntagged v × AreUntagged fs

  pub AllUntagged : Items → Type 0
  AllUntagged nil = Unit {0}
  AllUntagged (cons v xs) = IsUntagged v × AllUntagged xs

-- fasttemplate leaves a text as it is that has no start tag.
unfoldable pub LeavesUntagged : TemplateExecutor → Type 0
LeavesUntagged executor =
    (t : String) (f : TagFunc) → count_start_tags t ≡ 0 → executor t "$(" ")$" f ≡ ok t

module _ {Context Obj : Type 0} (s : Stamper Context Obj) (leaves : LeavesUntagged s.executor) where
  leaf-untagged :
      (t : String)
      → count_start_tags t ≡ 0
      → interpolate_leaf_node s.evaluate s.marshal s.templating_context s.executor t ≡ ok (text t)
  unfolding interpolate_leaf_node is_single_tag LeavesUntagged
  leaf-untagged t h =
      ground (arith, h, leaves t (interpolate_tag s.evaluate s.marshal s.templating_context) h)

  mutual
    unfolding recursively_evaluate_templates evaluate_fields evaluate_items evaluated_leaf
        IsUntagged AreUntagged AllUntagged

    evaluate-untagged :
        (v : Json) (stack : PathStack)
        → IsUntagged v
        → recursively_evaluate_templates s v stack ≡ ok v
    evaluate-untagged null stack h = refl
    evaluate-untagged (boolean b) stack h = refl
    evaluate-untagged (number n) stack h = refl
    evaluate-untagged (text t) stack h = rw (leaf-untagged t h)
    evaluate-untagged (array xs) stack h = rw (evaluate_items-untagged xs 0 stack h)
    evaluate-untagged (object fs) stack h = rw (evaluate_fields-untagged fs stack h)

    evaluate_fields-untagged :
        (fs : Fields) (stack : PathStack) → AreUntagged fs → evaluate_fields s fs stack ≡ ok fs
    evaluate_fields-untagged end stack h = refl
    evaluate_fields-untagged (field k v fs) stack h =
        rw (evaluate-untagged v (stack ++ key_component k ∷ []) h.0)
          (rw (evaluate_fields-untagged fs stack h.1))

    evaluate_items-untagged :
        (xs : Items) (i : ℕ) (stack : PathStack)
        → AllUntagged xs
        → evaluate_items s xs i stack ≡ ok xs
    evaluate_items-untagged nil i stack h = refl
    evaluate_items-untagged (cons v xs) i stack h =
        rw (evaluate-untagged v (stack ++ index_component i ∷ []) h.0)
          (rw (evaluate_items-untagged xs (suc i) stack h.1))

  -- Where the executor leaves a text without a start tag as it is, an object without tags is applied
  -- as it was written, whatever the context.
  pub apply_template-AreUntagged :
      (raw : String) (fs : Fields)
      → s.unmarshal raw ≡ ok (object fs)
      → AreUntagged fs
      → apply_template s raw ≡ ok (s.methods.set_unstructured_content fs)
  unfolding apply_template as_object IsUntagged
  apply_template-AreUntagged raw fs h plain =
      rw (h, apply_template) (rw (evaluate-untagged (object fs) [] plain))
