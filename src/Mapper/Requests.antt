-- ===== src/Mapper/Requests.antt =====
-- Whom a role concerns, told by relations.
use cartographer.Prelude.{
  ℕ, String, ◌≡◌, ◌≢◌, refl, sym, ap, subst, ◌∙◌, ◌⊎◌, inl, inr, Bool, true, false, none, some,
  List, [], ◌∷◌, ◌++◌, ◌==◌, ◌&&◌, arith, Bool-cases, eq_iff, eq_refl,
}
use cartographer.Prelude.Result.{Result, ok, err, Result-cases}
use cartographer.Tracker.{
  NamespacedName, GroupVersionKind, Key, Tracker, LookupResult, new_key, lookup_tracked,
}
use cartographer.Mapper.{
  ServiceAccount, Subject, RoleRef, Binding, role, cluster_role, MapperClient, add_gvk,
  is_service_account, service_account_key, or_zero, refers_to, get_service_accounts, no_requests,
  appended, service_account_to_requests, for_accounts, subjects_to_requests, role_to_requests,
  cluster_role_to_requests,
}
use cartographer.Mapper.Bindings.{bound_subjects, bindings_or_none, role_to_requests-bound_subjects}

-- The subjects of the bindings to a role of no API group, in order.
pub data AreBound (kind name : String) : List Binding → List Subject → Type 0 where
  no_bindings : AreBound kind name [] []
  bound :
      {b : Binding} {bs : List Binding} {ss : List Subject}
      → b.role_ref ≡ record { api_group = ""; kind = kind; name = name }
      → AreBound kind name bs ss
      → AreBound kind name (b ∷ bs) (b.subjects ++ ss)
  unbound :
      {b : Binding} {bs : List Binding} {ss : List Subject}
      → b.role_ref ≢ record { api_group = ""; kind = kind; name = name }
      → AreBound kind name bs ss
      → AreBound kind name (b ∷ bs) ss

abbrev pub IsServiceAccount : Subject → Type 0
IsServiceAccount s = (s.api_group ≡ "") × (s.kind ≡ "ServiceAccount")

-- A subject without a namespace is in the default one.
abbrev pub InNamespace : Subject → String → Type 0
InNamespace s namespace =
    ((s.namespace ≡ "") × (namespace ≡ "default")) ⊎ (s.namespace ≢ "") × (namespace ≡ s.namespace)

module _ (cl : MapperClient) where
  -- The account of a subject, or the zero value where it cannot be read.
  pub record IsAccount (s : Subject) (a : ServiceAccount) : Type 0 where
    pub namespace : String
    pub in_namespace : InNamespace s namespace
    pub read :
        (cl.get_service_account (record { namespace = namespace; name = s.name }) ≡ ok a)
        ⊎ (e : String) × (cl.get_service_account (record { namespace = namespace; name = s.name })
            ≡ err e)
          × (a ≡ record { namespace = ""; name = "" })

  -- The accounts of the subjects that are service accounts, in order.
  pub data AreAccounts : List Subject → List ServiceAccount → Type 0 where
    no_subjects : AreAccounts [] []
    account :
        {s : Subject} {a : ServiceAccount} {ss : List Subject} {accounts : List ServiceAccount}
        → IsServiceAccount s
        → IsAccount s a
        → AreAccounts ss accounts
        → AreAccounts (s ∷ ss) (a ∷ accounts)
    no_account :
        {s : Subject} {ss : List Subject} {accounts : List ServiceAccount}
        → ¬ IsServiceAccount s
        → AreAccounts ss accounts
        → AreAccounts (s ∷ ss) accounts

  refers_to-true :
      (kind name : String) (b : Binding)
      → refers_to kind name b ≡ true
      → b.role_ref ≡ record { api_group = ""; kind = kind; name = name }
  unfolding refers_to
  refers_to-true kind name b h =
      let g : b.role_ref.api_group ≡ "" = (eq_iff b.role_ref.api_group "").0 (ground (arith, h)) in
      let k : b.role_ref.kind ≡ kind = (eq_iff b.role_ref.kind kind).0 (ground (arith, h)) in
      let n : b.role_ref.name ≡ name = (eq_iff b.role_ref.name name).0 (ground (arith, h)) in
      λ i. record { api_group = g i; kind = k i; name = n i }

  refers_to-false :
      (kind name : String) (b : Binding)
      → refers_to kind name b ≡ false
      → b.role_ref ≢ record { api_group = ""; kind = kind; name = name }
  unfolding refers_to
  refers_to-false kind name b h e =
      let all = ap (λ (r : RoleRef). r.api_group == "" && r.kind == kind && r.name == name) e in
      ground (arith, h, all, eq_refl "", eq_refl kind, eq_refl name)

  bound_subjects-AreBound :
      (kind name : String) (bs : List Binding) → AreBound kind name bs (bound_subjects kind name bs)
  unfolding bound_subjects
  bound_subjects-AreBound kind name [] = no_bindings
  bound_subjects-AreBound kind name (b ∷ bs) = elim (Bool-cases (refers_to kind name b)) [
    | inl h ↦
        rw (h, bound_subjects)
          (bound (refers_to-true kind name b h) (bound_subjects-AreBound kind name bs))
    | inr h ↦
        rw (h, bound_subjects)
          (unbound (refers_to-false kind name b h) (bound_subjects-AreBound kind name bs))
  ]

  read-IsAccount :
      (s : Subject) → IsAccount s (or_zero (cl.get_service_account (service_account_key s)))
  unfolding service_account_key or_zero
  read-IsAccount s =
      let namespace = (service_account_key s).namespace in
      record {
        namespace = namespace;
        in_namespace = elim (Bool-cases (s.namespace == "")) [
          | inl e ↦ inl ((eq_iff s.namespace "").0 e, ground (arith, e))
          | inr n ↦ inr (λ e. ground (arith, n, (eq_iff s.namespace "").1 e), ground (arith, n))
        ];
        read = elim (Result-cases (cl.get_service_account (service_account_key s))) [
          | inl (a, e) ↦ inl (e ∙ sym (ap (λ r. ok (or_zero r)) e))
          | inr (x, e) ↦ inr (x, e, ap or_zero e)
        ];
      }

  get_service_accounts-AreAccounts :
      (key_string : Key → String) (clock : Key → NamespacedName → ℕ) (ss : List Subject)
      → AreAccounts ss (get_service_accounts cl key_string clock ss)
  unfolding get_service_accounts is_service_account
  get_service_accounts-AreAccounts key_string clock [] = no_subjects
  get_service_accounts-AreAccounts key_string clock (s ∷ ss) =
      elim (Bool-cases (is_service_account s)) [
        | inl h ↦
            rw (h, get_service_accounts)
              (account
                (
                  (eq_iff s.api_group "").0 (ground (arith, h)),
                  (eq_iff s.kind "ServiceAccount").0 (ground (arith, h)),
                )
                (read-IsAccount s) (get_service_accounts-AreAccounts key_string clock ss))
        | inr h ↦
            rw (h, get_service_accounts)
              (no_account
                (λ both. ground (
                  arith,
                  h,
                  (eq_iff s.api_group "").1 both.0,
                  (eq_iff s.kind "ServiceAccount").1 both.1,
                ))
                (get_service_accounts-AreAccounts key_string clock ss))
      ]

  module _ (key_string : Key → String) (clock : Key → NamespacedName → ℕ) where
    -- The look-up of an account of a kind.
    abbrev pub watchers : GroupVersionKind → ServiceAccount → Tracker → LookupResult
    watchers gvk a t = lookup_tracked key_string (clock (new_key gvk a)) (new_key gvk a) t

    -- The watchers of each account in turn; one whose kind is not known, or not certain, is passed
    -- over.
    pub data AreLookedUp : List ServiceAccount → Tracker → LookupResult → Type 0 where
      no_accounts : {t : Tracker} → AreLookedUp [] t (record { items = []; tracker = t })
      looked_up :
          {a : ServiceAccount} {accounts : List ServiceAccount} {t : Tracker} {r : LookupResult}
          (gvk : GroupVersionKind)
          → cl.object_kinds a ≡ ok (gvk ∷ [], false)
          → AreLookedUp accounts (watchers gvk a t).tracker r
          → AreLookedUp
              (a ∷ accounts)
              t
              (record { items = (watchers gvk a t).items ++ r.items; tracker = r.tracker })
      passed_over :
          {a : ServiceAccount} {accounts : List ServiceAccount} {t : Tracker} {r : LookupResult}
          → ((gvk : GroupVersionKind) → cl.object_kinds a ≢ ok (gvk ∷ [], false))
          → AreLookedUp accounts t r
          → AreLookedUp (a ∷ accounts) t r

    account-AreLookedUp :
        (a : ServiceAccount) (accounts : List ServiceAccount) (t : Tracker)
        (k : Result String (List GroupVersionKind × Bool))
        → cl.object_kinds a ≡ k
        → ((u : Tracker) → AreLookedUp accounts u (for_accounts cl key_string clock accounts u))
        → AreLookedUp (a ∷ accounts) t (
            appended
              (service_account_to_requests cl key_string clock a t)
              (for_accounts cl key_string clock accounts))
    unfolding service_account_to_requests appended add_gvk no_requests
    account-AreLookedUp a accounts t (err e) h rest =
        rw (h, service_account_to_requests)
          (passed_over (λ gvk same. ground (arith, h, same)) (rest t))
    account-AreLookedUp a accounts t (ok (gvks, true)) h rest =
        rw (h, service_account_to_requests)
          (passed_over (λ gvk same. ground (arith, h, same)) (rest t))
    account-AreLookedUp a accounts t (ok ([], false)) h rest =
        rw (h, service_account_to_requests)
          (passed_over (λ gvk same. ground (arith, h, same)) (rest t))
    account-AreLookedUp a accounts t (ok (gvk ∷ [], false)) h rest =
        rw (h, service_account_to_requests) (looked_up gvk h (rest (watchers gvk a t).tracker))
    account-AreLookedUp a accounts t (ok (gvk ∷ other ∷ gvks, false)) h rest =
        rw (h, service_account_to_requests)
          (passed_over (λ gvk' same. ground (arith, h, same)) (rest t))

    for_accounts-AreLookedUp :
        (accounts : List ServiceAccount) (t : Tracker)
        → AreLookedUp accounts t (for_accounts cl key_string clock accounts t)
    unfolding for_accounts no_requests
    for_accounts-AreLookedUp [] t = no_accounts
    for_accounts-AreLookedUp (a ∷ accounts) t =
        account-AreLookedUp a accounts t _ refl (for_accounts-AreLookedUp accounts)

    -- The requests for the subjects of some bindings.
    pub record AreRequested (subjects : List Subject) (t : Tracker) (r : LookupResult)
        : Type 0 where
      pub accounts : List ServiceAccount
      pub accounted : AreAccounts subjects accounts
      pub requested : AreLookedUp accounts t r

    subjects_to_requests-AreRequested :
        (subjects : List Subject) (t : Tracker)
        → AreRequested subjects t (subjects_to_requests cl key_string clock subjects t)
    unfolding subjects_to_requests
    subjects_to_requests-AreRequested subjects t = record {
      accounts = get_service_accounts cl key_string clock subjects;
      accounted = get_service_accounts-AreAccounts key_string clock subjects;
      requested = for_accounts-AreLookedUp (get_service_accounts cl key_string clock subjects) t;
    }

    -- A role gives the requests for the service accounts, in order, among the subjects of those
    -- bindings in its namespace whose reference is to it, with an empty API group; a cluster role,
    -- where both lists can be read, those for the subjects of such cluster role bindings and then of
    -- such bindings of all namespaces. An account is read from its subject's namespace or the default
    -- one, and is the zero value where it cannot be. The requests are its watchers, where the account
    -- has a single kind.
    pub role_to_requests_lem :
        (r : NamespacedName) (name : String) (bs cs : List Binding) (t : Tracker)
        → cl.list_cluster_role_bindings ≡ ok cs
        → cl.list_role_bindings none ≡ ok bs
        → ((ss : List Subject) × AreBound "Role" r.name
              (bindings_or_none (cl.list_role_bindings (some r.namespace)))
              ss
            × AreRequested ss t (role_to_requests cl key_string clock (role r) t))
          × (xs : List Subject) × (ys : List Subject) × AreBound "ClusterRole" name cs xs
          × AreBound "ClusterRole" name bs ys
          × AreRequested
              (xs ++ ys)
              t
              (cluster_role_to_requests cl key_string clock (cluster_role name) t)
    role_to_requests_lem r name bs cs t hc hb =
        let same = role_to_requests-bound_subjects cl key_string clock r name bs cs t hc hb in
        let own = bindings_or_none (cl.list_role_bindings (some r.namespace)) in
        let ss = bound_subjects "Role" r.name own in
        let xs = bound_subjects "ClusterRole" name cs in
        let ys = bound_subjects "ClusterRole" name bs in
        (
          (
            ss,
            bound_subjects-AreBound "Role" r.name own,
            subst (AreRequested ss t) (sym same.0) (subjects_to_requests-AreRequested ss t),
          ),
          xs,
          ys,
          bound_subjects-AreBound "ClusterRole" name cs,
          bound_subjects-AreBound "ClusterRole" name bs,
          subst (AreRequested (xs ++ ys) t) (sym same.1)
              (subjects_to_requests-AreRequested (xs ++ ys) t),
        )
