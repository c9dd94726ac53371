-- ===== src/Mapper/Tests.antt =====
-- Runs of the mapper, on a cluster with one role binding.
use cartographer.Prelude.{List, ℕ, ◌≡◌, refl, All, false, String, [], ◌∷◌, ◌++◌}
use cartographer.Prelude.Result.{ok}
use cartographer.Tracker.{NamespacedName, Key, Tracker}
use cartographer.Mapper.{
  Subject, Binding, role, cluster_role, MapperClient, no_requests, role_to_requests,
  cluster_role_to_requests,
}
use cartographer.Mapper.Requests.{AreBound, AreRequested, role_to_requests_lem}
use cartographer.Mapper.Bindings.{bindings_or_none, NamesGroup, role_to_requests-group}

abbrev binding_of : String → Binding
binding_of group = record {
  role_ref = record { api_group = group; kind = "Role"; name = "builder" };
  subjects =
      record { api_group = ""; kind = "ServiceAccount"; name = "sa"; namespace = "dev" } ∷ [];
}

abbrev cluster_with : String → MapperClient
cluster_with group = record {
  list_owners = ok [];
  list_role_bindings = λ namespace. ok (binding_of group ∷ []);
  list_cluster_role_bindings = ok [];
  get_service_account = λ key. ok key;
  object_kinds =
      λ a. ok (record { group = ""; version = "v1"; kind = "ServiceAccount" } ∷ [], false);
}

abbrev key_text : Key → String
key_text k = k.namespaced_name.name

abbrev noon : Key → NamespacedName → ℕ
noon k o = 12

abbrev builder : NamespacedName
builder = record { namespace = "dev"; name = "builder" }

abbrev watched : Tracker
watched = record {
  mapping = ("sa", (record { namespace = "dev"; name = "web" }, 20) ∷ []) ∷ [];
  lease_duration = 10;
}

role_to_requests_lem_example :
    ((ss : List Subject) × AreBound "Role" "builder" (binding_of "" ∷ []) ss
      × AreRequested
          (cluster_with "")
          key_text
          noon
          ss
          watched
          (role_to_requests (cluster_with "") key_text noon (role builder) watched))
    × (xs : List Subject) × (ys : List Subject) × AreBound "ClusterRole" "builder" [] xs
    × AreBound "ClusterRole" "builder" (binding_of "" ∷ []) ys
    × AreRequested
        (cluster_with "")
        key_text
        noon
        (xs ++ ys)
        watched
        (cluster_role_to_requests (cluster_with "") key_text noon (cluster_role "builder") watched)
unfolding bindings_or_none
role_to_requests_lem_example =
    role_to_requests_lem (cluster_with "") key_text noon builder "builder" (binding_of "" ∷ []) []
      watched refl refl

abbrev rbac : String
rbac = "rbac.authorization.k8s.io"

named : All NamesGroup (binding_of rbac ∷ [])
unfolding NamesGroup
named = (refl, tt)

role_to_requests-group_example :
    (role_to_requests (cluster_with rbac) key_text noon (role builder) watched
      ≡ no_requests watched)
    × (cluster_role_to_requests (cluster_with rbac) key_text noon (cluster_role "builder") watched
        ≡ no_requests watched)
role_to_requests-group_example =
    role_to_requests-group (cluster_with rbac) key_text noon builder "builder"
      (binding_of rbac ∷ []) (binding_of rbac ∷ []) [] watched refl refl refl tt named named
