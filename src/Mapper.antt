-- ===== src/Mapper.antt =====
-- pkg/mapper/map_functions.go: the requests for the owners that a changed object concerns. The API
-- server's reads are the parameter `MapperClient`; an error of one is logged. The tracker forgets the
-- watches that have expired, so it is passed on; `clock` is the time at which the look-up of a key
-- comes to a watcher. The three copies of the functions, for workloads, deliverables and runnables,
-- differ in their names.
pub mod Bindings
pub mod Requests
pub mod Owners
mod Tests
use cartographer.Prelude.{
  ℕ, String, Bool, true, false, not, ◌&&◌, Option, none, some, List, [], ◌∷◌, ◌++◌, ◌==◌,
  if◌then◌else◌,
}
use cartographer.Prelude.Result.{Result, ok, err}
use cartographer.Tracker.{
  NamespacedName, GroupVersionKind, Key, Tracker, LookupResult, new_key, lookup_tracked,
}

-- corev1.ServiceAccount; its zero value has empty names.
abbrev pub ServiceAccount : Type 0
ServiceAccount = NamespacedName

-- rbacv1.Subject
pub record Subject : Type 0 where
  pub api_group : String
  pub kind : String
  pub name : String
  pub namespace : String

-- rbacv1.RoleRef
pub record RoleRef : Type 0 where
  pub api_group : String
  pub kind : String
  pub name : String

-- rbacv1.RoleBinding, or a ClusterRoleBinding
pub record Binding : Type 0 where
  pub role_ref : RoleRef
  pub subjects : List Subject

-- A client.Object, as far as the casts tell the types apart.
pub data RbacObject : Type 0 where
  role_binding : Binding → RbacObject
  cluster_role_binding : Binding → RbacObject
  role : NamespacedName → RbacObject
  cluster_role : (name : String) → RbacObject
  other_object : RbacObject

-- `object_kinds` is Scheme().ObjectKinds, with whether the object is unversioned.
pub record MapperClient : Type 0 where
  pub list_owners : Result String (List NamespacedName)
  pub list_role_bindings : (namespace : Option String) → Result String (List Binding)
  pub list_cluster_role_bindings : Result String (List Binding)
  pub get_service_account : NamespacedName → Result String ServiceAccount
  pub object_kinds : ServiceAccount → Result String (List GroupVersionKind × Bool)

-- The kind that addGVK sets; `none` is its error.
unfoldable pub add_gvk : Result String (List GroupVersionKind × Bool) → Option GroupVersionKind
add_gvk (err e) = none
add_gvk (ok (gvks, true)) = none
add_gvk (ok ([], false)) = none
add_gvk (ok (gvk ∷ [], false)) = some gvk
add_gvk (ok (gvk ∷ other ∷ gvks, false)) = none

unfoldable pub is_service_account : Subject → Bool
is_service_account s = s.api_group == "" && s.kind == "ServiceAccount"

service_account_key : Subject → NamespacedName
service_account_key s = record {
  namespace = if not (s.namespace == "") then s.namespace else "default";
  name = s.name;
}

or_zero : Result String ServiceAccount → ServiceAccount
or_zero (ok a) = a
or_zero (err e) = record { namespace = ""; name = "" }

unfoldable pub refers_to : (kind name : String) → Binding → Bool
refers_to kind name b =
    b.role_ref.api_group == "" && b.role_ref.kind == kind && b.role_ref.name == name

unfoldable pub no_requests : Tracker → LookupResult
no_requests t = record { items = []; tracker = t }

-- `requests = append(requests, …)`
unfoldable pub appended : LookupResult → (Tracker → LookupResult) → LookupResult
appended first next =
    let second = next first.tracker in
    record { items = first.items ++ second.items; tracker = second.tracker }

module _ (cl : MapperClient) (key_string : Key → String) (clock : Key → NamespacedName → ℕ) where
  -- ClusterSupplyChainToWorkloadRequests and ClusterDeliveryToDeliverableRequests: every owner.
  unfoldable pub blueprint_to_requests : List NamespacedName
  blueprint_to_requests = elim cl.list_owners [ ok owners ↦ owners | err e ↦ [] ]

  -- The account is appended even where it could not be read: it is then the zero value.
  unfoldable pub get_service_accounts : List Subject → List ServiceAccount
  unfolding service_account_key or_zero
  get_service_accounts [] = []
  get_service_accounts (s ∷ subjects) =
      let rest = get_service_accounts subjects in
      if is_service_account s
      then or_zero (cl.get_service_account (service_account_key s)) ∷ rest
      else rest

  unfoldable pub service_account_to_requests : ServiceAccount → Tracker → LookupResult
  service_account_to_requests a t = elim (add_gvk (cl.object_kinds a)) [
    | none ↦ no_requests t
    | some gvk ↦ let key = new_key gvk a in lookup_tracked key_string (clock key) key t
  ]

  unfoldable pub for_accounts : List ServiceAccount → Tracker → LookupResult
  for_accounts [] t = no_requests t
  for_accounts (a ∷ rest) t = appended (service_account_to_requests a t) (for_accounts rest)

  unfoldable pub subjects_to_requests : List Subject → Tracker → LookupResult
  subjects_to_requests subjects t = for_accounts (get_service_accounts subjects) t

  unfoldable pub role_binding_to_requests : RbacObject → Tracker → LookupResult
  role_binding_to_requests (role_binding b) t = subjects_to_requests b.subjects t
  role_binding_to_requests _ t = no_requests t

  unfoldable pub cluster_role_binding_to_requests : RbacObject → Tracker → LookupResult
  cluster_role_binding_to_requests (cluster_role_binding b) t = subjects_to_requests b.subjects t
  cluster_role_binding_to_requests _ t = no_requests t

  -- The loops over the bindings that were listed.
  unfoldable pub for_bindings :
      (Binding → Tracker → LookupResult)
      → (kind name : String) → List Binding
      → Tracker
      → LookupResult
  for_bindings requests kind name [] t = no_requests t
  for_bindings requests kind name (b ∷ bs) t =
      let skip = for_bindings requests kind name bs t in
      let take = appended (requests b t) (for_bindings requests kind name bs) in
      if refers_to kind name b then take else skip

  unfoldable pub for_role_bindings : String → String → List Binding → Tracker → LookupResult
  for_role_bindings = for_bindings (λ b. role_binding_to_requests (role_binding b))

  unfoldable pub listed_to_requests : String → Result String (List Binding) → Tracker → LookupResult
  listed_to_requests name (err e) t = no_requests t
  listed_to_requests name (ok bindings) t = for_role_bindings "Role" name bindings t

  unfoldable pub role_to_requests : RbacObject → Tracker → LookupResult
  role_to_requests (role r) t =
      listed_to_requests r.name (cl.list_role_bindings (some r.namespace)) t
  role_to_requests _ t = no_requests t

  -- An error of the second list drops the requests of the first, whose look-ups were made.
  unfoldable pub then_role_bindings : String → LookupResult → LookupResult
  then_role_bindings name first = elim (cl.list_role_bindings none) [
    | err e ↦ no_requests first.tracker
    | ok bindings ↦ appended first (for_role_bindings "ClusterRole" name bindings)
  ]

  unfoldable pub cluster_role_to_requests : RbacObject → Tracker → LookupResult
  cluster_role_to_requests (cluster_role name) t = elim cl.list_cluster_role_bindings [
    | err e ↦ no_requests t
    | ok bindings ↦ then_role_bindings name (
        for_bindings (λ b. cluster_role_binding_to_requests (cluster_role_binding b)) "ClusterRole"
          name bindings t)
  ]
  cluster_role_to_requests _ t = no_requests t
