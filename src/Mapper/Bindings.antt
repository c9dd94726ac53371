-- ===== src/Mapper/Bindings.antt =====
-- Whom a role concerns.
use cartographer.Prelude.{
  ℕ, String, ◌≡◌, refl, sym, ap, ap₂, ◌∙◌, false, none, some, List, [], ◌∷◌, ◌++◌, append_assoc,
  arith, All, inl, inr, ◌==◌, if◌then◌else◌, Bool-cases,
}
use cartographer.Prelude.Result.{Result, ok, err}
use cartographer.Tracker.{NamespacedName, Key, Tracker, LookupResult}
use cartographer.Mapper.{
  ServiceAccount, Subject, Binding, role_binding, cluster_role_binding, role, cluster_role,
  MapperClient, refers_to, get_service_accounts, no_requests, appended, service_account_to_requests,
  for_accounts, subjects_to_requests, role_binding_to_requests, cluster_role_binding_to_requests,
  for_bindings, for_role_bindings, role_to_requests, listed_to_requests, then_role_bindings,
  cluster_role_to_requests,
}

-- The subjects of the bindings that refer to the role, in order.
unfoldable pub bound_subjects : (kind name : String) → List Binding → List Subject
bound_subjects kind name [] = []
bound_subjects kind name (b ∷ bs) =
    let rest = bound_subjects kind name bs in
    if refers_to kind name b then b.subjects ++ rest else rest

unfoldable pub bindings_or_none : Result String (List Binding) → List Binding
bindings_or_none (ok bs) = bs
bindings_or_none (err e) = []

appended_assoc :
    (a : LookupResult) (f g : Tracker → LookupResult)
    → appended (appended a f) g ≡ appended a (λ t. appended (f t) g)
unfolding appended
appended_assoc a f g =
    ap (λ xs. record { items = xs; tracker = (g (f a.tracker).tracker).tracker })
      (append_assoc a.items (f a.tracker).items (g (f a.tracker).tracker).items)

appended-next :
    (a : LookupResult) (f g : Tracker → LookupResult)
    → f a.tracker ≡ g a.tracker
    → appended a f ≡ appended a g
unfolding appended
appended-next a f g e =
    ap (λ (r : LookupResult). record { items = a.items ++ r.items; tracker = r.tracker }) e

-- The binding's reference names an API group.
unfoldable pub NamesGroup : Binding → Type 0
NamesGroup b = (b.role_ref.api_group == "") ≡ false

nobody-bound :
    (kind name : String) (bs : List Binding) → All NamesGroup bs → bound_subjects kind name bs ≡ []
unfolding bound_subjects refers_to NamesGroup
nobody-bound kind name [] h = refl
nobody-bound kind name (b ∷ bs) h = ground (arith, h.0, nobody-bound kind name bs h.1)

module _ (cl : MapperClient) (key_string : Key → String) (clock : Key → NamespacedName → ℕ) where
  get_service_accounts-append :
      (xs ys : List Subject)
      → get_service_accounts cl key_string clock (xs ++ ys)
        ≡ get_service_accounts cl key_string clock xs ++ get_service_accounts cl key_string clock ys
  unfolding get_service_accounts
  get_service_accounts-append [] ys = refl
  get_service_accounts-append (x ∷ xs) ys = ground (arith, get_service_accounts-append xs ys)

  for_accounts-append :
      (xs ys : List ServiceAccount) (t : Tracker)
      → for_accounts cl key_string clock (xs ++ ys) t
        ≡ appended (for_accounts cl key_string clock xs t) (for_accounts cl key_string clock ys)
  unfolding for_accounts appended no_requests
  for_accounts-append [] ys t = refl
  for_accounts-append (x ∷ xs) ys t =
      let run = for_accounts cl key_string clock in
      let first = service_account_to_requests cl key_string clock x t in
      let ih = for_accounts-append xs ys first.tracker in
      appended-next first (run (xs ++ ys)) (λ u. appended (run xs u) (run ys)) ih
      ∙ sym (appended_assoc first (run xs) (run ys))

  subjects-append :
      (xs ys : List Subject) (t : Tracker)
      → subjects_to_requests cl key_string clock (xs ++ ys) t
        ≡ appended
            (subjects_to_requests cl key_string clock xs t)
            (subjects_to_requests cl key_string clock ys)
  unfolding subjects_to_requests
  subjects-append xs ys t =
      ap (λ as'. for_accounts cl key_string clock as' t) (get_service_accounts-append xs ys)
      ∙ for_accounts-append _ _ t

  nothing-subjects : (t : Tracker) → no_requests t ≡ subjects_to_requests cl key_string clock [] t
  unfolding subjects_to_requests get_service_accounts for_accounts
  nothing-subjects t = refl

  for_bindings_lem :
      (requests : Binding → Tracker → LookupResult)
      → ((b : Binding) (t : Tracker)
          → requests b t ≡ subjects_to_requests cl key_string clock b.subjects t)
      → (kind name : String) (bs : List Binding) (t : Tracker)
      → for_bindings cl key_string clock requests kind name bs t
        ≡ subjects_to_requests cl key_string clock (bound_subjects kind name bs) t
  unfolding for_bindings bound_subjects
  for_bindings_lem requests same kind name [] t = nothing-subjects t
  for_bindings_lem requests same kind name (b ∷ bs) t = elim (Bool-cases (refers_to kind name b)) [
    | inl h ↦
        let go = subjects_to_requests cl key_string clock in
        let rest = bound_subjects kind name bs in
        rw (h, for_bindings, bound_subjects)
          (appended-next (requests b t) (for_bindings cl key_string clock requests kind name bs)
              (go rest) (for_bindings_lem requests same kind name bs (requests b t).tracker)
            ∙ ap (λ a. appended a (go rest)) (same b t)
            ∙ sym (subjects-append b.subjects rest t))
    | inr h ↦ rw (h, for_bindings, bound_subjects) (for_bindings_lem requests same kind name bs t)
  ]

  role_bindings_lem :
      (kind name : String) (bs : List Binding) (t : Tracker)
      → for_role_bindings cl key_string clock kind name bs t
        ≡ subjects_to_requests cl key_string clock (bound_subjects kind name bs) t
  unfolding for_role_bindings role_binding_to_requests
  role_bindings_lem kind name bs t =
      for_bindings_lem (λ b. role_binding_to_requests cl key_string clock (role_binding b))
        (λ b u. refl) kind name bs t

  listed_lem :
      (name : String) (l : Result String (List Binding)) (t : Tracker)
      → listed_to_requests cl key_string clock name l t
        ≡ subjects_to_requests cl key_string clock
            (bound_subjects "Role" name (bindings_or_none l))
            t
  unfolding listed_to_requests bindings_or_none bound_subjects
  listed_lem name (err e) t = nothing-subjects t
  listed_lem name (ok bs) t = role_bindings_lem "Role" name bs t

  pub role_to_requests-bound_subjects :
      (r : NamespacedName) (name : String) (bs cs : List Binding) (t : Tracker)
      → cl.list_cluster_role_bindings ≡ ok cs
      → cl.list_role_bindings none ≡ ok bs
      → (role_to_requests cl key_string clock (role r) t
          ≡ subjects_to_requests cl key_string clock
              (bound_subjects "Role" r.name
                (bindings_or_none (cl.list_role_bindings (some r.namespace))))
              t)
        × (cluster_role_to_requests cl key_string clock (cluster_role name) t
            ≡ subjects_to_requests cl key_string clock
                (bound_subjects "ClusterRole" name cs ++ bound_subjects "ClusterRole" name bs)
                t)
  unfolding role_to_requests cluster_role_to_requests then_role_bindings
      cluster_role_binding_to_requests subjects_to_requests get_service_accounts for_accounts
      service_account_to_requests
  role_to_requests-bound_subjects r name bs cs t hc hb = (
    listed_lem r.name (cl.list_role_bindings (some r.namespace)) t,
    rw (hc, cluster_role_to_requests)
        (rw (hb, then_role_bindings)
          (appended-next clusters (for_role_bindings cl key_string clock "ClusterRole" name bs)
              (go (bound_subjects "ClusterRole" name bs))
              (role_bindings_lem "ClusterRole" name bs clusters.tracker)
            ∙ ap (λ a. appended a (go (bound_subjects "ClusterRole" name bs)))
                (for_bindings_lem requests (λ b u. refl) "ClusterRole" name cs t)
            ∙ sym (
                subjects-append (bound_subjects "ClusterRole" name cs)
                  (bound_subjects "ClusterRole" name bs) t))),
  )
    where
      go : List Subject → Tracker → LookupResult
      go = subjects_to_requests cl key_string clock

      requests : Binding → Tracker → LookupResult
      requests b = cluster_role_binding_to_requests cl key_string clock (cluster_role_binding b)

      clusters : LookupResult
      clusters = for_bindings cl key_string clock requests "ClusterRole" name cs t

  -- Where the references of all bindings name an API group, as those of role bindings do that the
  -- API server has accepted, a changed role or cluster role concerns nobody: there are no requests,
  -- and the tracker is not even looked up.
  pub role_to_requests-group :
      (r : NamespacedName) (name : String) (bs rs cs : List Binding) (t : Tracker)
      → cl.list_cluster_role_bindings ≡ ok cs
      → cl.list_role_bindings none ≡ ok bs
      → cl.list_role_bindings (some r.namespace) ≡ ok rs
      → All NamesGroup cs
      → All NamesGroup bs
      → All NamesGroup rs
      → (role_to_requests cl key_string clock (role r) t ≡ no_requests t)
        × (cluster_role_to_requests cl key_string clock (cluster_role name) t ≡ no_requests t)
  unfolding bindings_or_none
  role_to_requests-group r name bs rs cs t hc hb hr gc gb gr =
      let all = role_to_requests-bound_subjects r name bs cs t hc hb in
      let go = λ (subjects : List Subject). subjects_to_requests cl key_string clock subjects t in
      (
        all.0
            ∙ ap (λ l. go (bound_subjects "Role" r.name (bindings_or_none l))) hr
            ∙ ap go (nobody-bound "Role" r.name rs gr)
            ∙ sym (nothing-subjects t),
        all.1
            ∙ ap₂ (λ xs ys. go (xs ++ ys)) (nobody-bound "ClusterRole" name cs gc)
                (nobody-bound "ClusterRole" name bs gb)
            ∙ sym (nothing-subjects t),
      )
