-- ===== src/Templates/Stamper.antt =====
-- pkg/templates/stamper.go: the object that a template is stamped to. Decoding JSON, running ytt and
-- the getters and setters of unstructured.Unstructured are parameters. A map is evaluated in the
-- order of its list of fields.
use Prim.Native.String.{◌++◌ as ◌+++◌}
use cartographer.Prelude.{
  ℕ, suc, String, Bool, true, false, not, ◌&&◌, Option, none, some, List, [], ◌∷◌, ◌++◌, ◌==◌,
  if◌then◌else◌,
}
use cartographer.Prelude.Dict.{Dict, insert}
use cartographer.Prelude.Json.{
  Json, null, boolean, number, text, array, object, Items, nil, cons, Fields, end, field,
}
use cartographer.Prelude.Result.{Result, ok, err, ◌>>=◌}
use cartographer.Validation.Template.{TemplateSpec}
use cartographer.Templates.Interpolator.{InterpolateError, TemplateExecutor, interpolate_leaf_node}

pub data PathComponent : Type 0 where
  key_component : String → PathComponent
  index_component : ℕ → PathComponent

-- pathStack, its top last.
abbrev pub PathStack : Type 0
PathStack = List PathComponent

path_text : (ℕ → String) → Bool → PathStack → String
path_text show skip_dot [] = ""
path_text show skip_dot (index_component n ∷ rest) =
    (if skip_dot then "" else ".") +++ (("[" +++ (show n +++ "]")) +++ path_text show true rest)
path_text show skip_dot (key_component k ∷ rest) =
    (if skip_dot then "" else ".") +++ (k +++ path_text show false rest)

-- pathStack.string; `show` prints a decimal number.
unfoldable pub path_string : (ℕ → String) → PathStack → String
unfolding path_text
path_string show stack = path_text show true stack

pub data TemplateError : Type 0 where
  interpolation_failed : (path : String) → InterpolateError → TemplateError
  unmarshal_failed : String → TemplateError
  not_a_map : Json → TemplateError
  ytt_failed : String → TemplateError
  unknown_template cannot_set_namespace : TemplateError

pub record OwnerReference : Type 0 where
  pub api_version : String
  pub kind : String
  pub uid : String
  pub name : String
  pub block_owner_deletion : Bool
  pub controller : Bool

-- The metadata of the owner.
pub record Owner : Type 0 where
  pub api_version : String
  pub kind : String
  pub uid : String
  pub name : String
  pub namespace : String

-- unstructured.Unstructured; nil labels are an empty map.
pub record UnstructuredMethods (Obj : Type 0) : Type 0 where
  pub set_unstructured_content : Fields → Obj
  pub get_namespace : Obj → String
  pub set_namespace : String → Obj → Obj
  pub get_labels : Obj → Dict String
  pub set_labels : Dict String → Obj → Obj
  pub get_owner_references : Obj → List OwnerReference
  pub set_owner_references : List OwnerReference → Obj → Obj

pub record Stamper (Context Obj : Type 0) : Type 0 where
  pub templating_context : Context
  pub owner : Owner
  pub labels : Dict String
  pub evaluate : String → Context → Result String (List Json)
  pub marshal : Json → Result String String
  pub unmarshal : String → Result String Json
  pub executor : TemplateExecutor
  pub ytt : String → Context → Result String Obj
  pub show : ℕ → String
  pub methods : UnstructuredMethods Obj

unfoldable pub insert_all : Dict String → Dict String → Dict String
insert_all [] labels = labels
insert_all ((k, v) ∷ rest) labels = insert_all rest (insert k v labels)

unfoldable pub owner_reference : Owner → OwnerReference
owner_reference o = record {
  api_version = o.api_version;
  kind = o.kind;
  uid = o.uid;
  name = o.name;
  block_owner_deletion = true;
  controller = true;
}

module _ {Context Obj : Type 0} (s : Stamper Context Obj) where
  unfoldable pub evaluated_leaf :
      PathStack → Result InterpolateError Json → Result TemplateError Json
  evaluated_leaf stack (ok v) = ok v
  evaluated_leaf stack (err e) = err (interpolation_failed (path_string s.show stack) e)

  unfoldable mutual
    unfolding evaluated_leaf

    pub recursively_evaluate_templates : Json → PathStack → Result TemplateError Json
    recursively_evaluate_templates (text t) stack =
        evaluated_leaf stack
          (interpolate_leaf_node s.evaluate s.marshal s.templating_context s.executor t)
    recursively_evaluate_templates (object fs) stack =
        evaluate_fields fs stack >>= λ fs'. ok (object fs')
    recursively_evaluate_templates (array xs) stack =
        evaluate_items xs 0 stack >>= λ xs'. ok (array xs')
    recursively_evaluate_templates null stack = ok null
    recursively_evaluate_templates (boolean b) stack = ok (boolean b)
    recursively_evaluate_templates (number n) stack = ok (number n)

    pub evaluate_fields : Fields → PathStack → Result TemplateError Fields
    evaluate_fields end stack = ok end
    evaluate_fields (field k v fs) stack =
        recursively_evaluate_templates v (stack ++ key_component k ∷ []) >>= λ v'.
        evaluate_fields fs stack >>= λ fs'. ok (field k v' fs')

    pub evaluate_items : Items → ℕ → PathStack → Result TemplateError Items
    evaluate_items nil i stack = ok nil
    evaluate_items (cons v xs) i stack =
        recursively_evaluate_templates v (stack ++ index_component i ∷ []) >>= λ v'.
        evaluate_items xs (suc i) stack >>= λ xs'. ok (cons v' xs')

  unfoldable pub as_object : Json → Result TemplateError Obj
  as_object (object fs) = ok (s.methods.set_unstructured_content fs)
  as_object v = err (not_a_map v)

  unfoldable pub apply_template : String → Result TemplateError Obj
  unfolding as_object
  apply_template raw = elim (s.unmarshal raw) [
    | err e ↦ err (unmarshal_failed e)
    | ok template ↦ recursively_evaluate_templates template [] >>= as_object
  ]

  unfoldable pub apply_ytt : String → Result TemplateError Obj
  apply_ytt template = elim (s.ytt template s.templating_context) [
    | err e ↦ err (ytt_failed e)
    | ok obj ↦ ok obj
  ]

  unfoldable pub merge_labels : Obj → Obj
  merge_labels obj = s.methods.set_labels (insert_all s.labels (s.methods.get_labels obj)) obj

  unfoldable pub apply : Option String → String → Result TemplateError Obj
  apply (some raw) ytt = apply_template raw
  apply none ytt = if not (ytt == "") then apply_ytt ytt else err unknown_template

  unfoldable pub set_owner : Obj → Obj
  set_owner obj = merge_labels (
      s.methods.set_owner_references (owner_reference s.owner ∷ [])
        (s.methods.set_namespace s.owner.namespace obj))

  -- Another namespace than the owner's is refused.
  unfoldable pub finished : Obj → Result TemplateError Obj
  finished obj =
      let namespace = s.methods.get_namespace obj in
      if not (namespace == "") && not (namespace == s.owner.namespace)
      then err cannot_set_namespace
      else ok (set_owner obj)

  unfoldable pub stamp : TemplateSpec → Result TemplateError Obj
  stamp t = apply t.template t.ytt >>= finished
