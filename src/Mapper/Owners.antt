-- ===== src/Mapper/Owners.antt =====
-- pkg/mapper/map_functions.go: the copies of the functions for deliverables and for runnables.
use cartographer.Prelude.{ℕ, String, List}
use cartographer.Tracker.{NamespacedName, Key, Tracker, LookupResult}
use cartographer.Mapper.{
  ServiceAccount, RbacObject, MapperClient, blueprint_to_requests, service_account_to_requests,
  role_binding_to_requests, cluster_role_binding_to_requests, role_to_requests,
  cluster_role_to_requests,
}

module _ (cl : MapperClient) (key_string : Key → String) (clock : Key → NamespacedName → ℕ) where
  abbrev pub cluster_delivery_to_deliverable_requests : List NamespacedName
  cluster_delivery_to_deliverable_requests = blueprint_to_requests cl key_string clock

  abbrev pub service_account_to_deliverable_requests : ServiceAccount → Tracker → LookupResult
  service_account_to_deliverable_requests = service_account_to_requests cl key_string clock

  abbrev pub role_binding_to_deliverable_requests : RbacObject → Tracker → LookupResult
  role_binding_to_deliverable_requests = role_binding_to_requests cl key_string clock

  abbrev pub cluster_role_binding_to_deliverable_requests : RbacObject → Tracker → LookupResult
  cluster_role_binding_to_deliverable_requests =
      cluster_role_binding_to_requests cl key_string clock

  abbrev pub role_to_deliverable_requests : RbacObject → Tracker → LookupResult
  role_to_deliverable_requests = role_to_requests cl key_string clock

  abbrev pub cluster_role_to_deliverable_requests : RbacObject → Tracker → LookupResult
  cluster_role_to_deliverable_requests = cluster_role_to_requests cl key_string clock

  abbrev pub service_account_to_runnable_requests : ServiceAccount → Tracker → LookupResult
  service_account_to_runnable_requests = service_account_to_requests cl key_string clock

  abbrev pub role_binding_to_runnable_requests : RbacObject → Tracker → LookupResult
  role_binding_to_runnable_requests = role_binding_to_requests cl key_string clock

  abbrev pub cluster_role_binding_to_runnable_requests : RbacObject → Tracker → LookupResult
  cluster_role_binding_to_runnable_requests = cluster_role_binding_to_requests cl key_string clock

  abbrev pub role_to_runnable_requests : RbacObject → Tracker → LookupResult
  role_to_runnable_requests = role_to_requests cl key_string clock

  abbrev pub cluster_role_to_runnable_requests : RbacObject → Tracker → LookupResult
  cluster_role_to_runnable_requests = cluster_role_to_requests cl key_string clock
