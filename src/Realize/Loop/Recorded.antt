-- ===== src/Realize/Loop/Recorded.antt =====
-- The loop over the resources, against the list of its attempts.
use cartographer.Prelude.{
  ℕ, suc, String, ◌≡◌, refl, sym, ap, ◌∙◌, Bool, true, false, not, ◌||◌, Option, none, some, List,
  [], ◌∷◌, inl, inr, any, arith, eq_iff, ◌==◌, if◌then◌else◌, is_some, Bool-cases, Option-cases,
}
use cartographer.Conditions.{Condition}
use cartographer.Statuses.{
  ResourceStatus, StatusEntry, get_previous_resource_status, new_resource_statuses,
}
use cartographer.Statuses.Record.{current_of, current_of-add}
use cartographer.Realizer.{Outputs, OwnerResource, add_output}
use cartographer.Errors.{ResourceError}
use cartographer.Component.{Attempt}
use cartographer.Realize.{generate_realized_resource}
use cartographer.Realize.Loop.{
  Realizing, Progress, add_health, generated, realized_resource, recorded, progressed, step,
  realize_from, realize, or_first,
}

unfoldable pub after_attempt :
    {S : Type 0}
    → OwnerResource × Attempt
    → Option (List (OwnerResource × Attempt) × S)
    → Option (List (OwnerResource × Attempt) × S)
after_attempt a none = none
after_attempt a (some (rest, s)) = some (a ∷ rest, s)

-- The attempts that a list of resources makes, each with the outputs of those before it.
module _ {S : Type 0} (run : OwnerResource → Outputs → S → Option (Attempt × S)) where
  unfoldable pub attempts :
      List OwnerResource → Outputs → S → Option (List (OwnerResource × Attempt) × S)
  attempts [] outputs s = some ([], s)
  attempts (resource ∷ resources) outputs s = elim (run resource outputs s) [
    | none ↦ none
    | some (a, s') ↦
        after_attempt (resource, a)
          (attempts resources (add_output resource.name a.output outputs) s')
  ]

unfoldable pub has_failed : OwnerResource × Attempt → Bool
has_failed (resource, a) = is_some a.error

unfoldable pub is_named : String → OwnerResource × Attempt → Bool
is_named name (resource, a) = resource.name == name

-- The previous status under a name is of the resource of that name.
unfoldable pub IsNamed : List StatusEntry → Type 0
IsNamed es =
    (name : String) (s : ResourceStatus)
    → get_previous_resource_status name es ≡ some s
    → s.realized_resource.name ≡ name

new_resource_statuses-IsNamed :
    (previous : List ResourceStatus) → IsNamed (new_resource_statuses previous)
unfolding IsNamed new_resource_statuses get_previous_resource_status
new_resource_statuses-IsNamed [] name s h = ground arith
new_resource_statuses-IsNamed (t ∷ previous) name s h =
    elim (Bool-cases (t.realized_resource.name == name)) [
      | inl same ↦
          let i : some t ≡ some s = ground (arith, h) in
          grind (arith, (eq_iff t.realized_resource.name name).0 same, i)
      | inr differ ↦ new_resource_statuses-IsNamed previous name s (ground (arith, h))
    ]

is_some_if {ℓ} :
    {A : Type ℓ} (b : Bool) (a : A) (o : Option A)
    → is_some (if b then some a else o) ≡ (b || is_some o)
is_some_if true a o = refl
is_some_if false a o = refl

is_some-or_first : (e f : Option ResourceError) → is_some (or_first e f) ≡ (is_some e || is_some f)
unfolding or_first
is_some-or_first none f = refl
is_some-or_first (some e) f = refl

is_some-add_health :
    (cs : List Condition) (e : Option ResourceError) → is_some (add_health cs e) ≡ is_some e
unfolding add_health
is_some-add_health cs none = refl
is_some-add_health [] (some e) = refl
is_some-add_health (c ∷ cs) (some e) = refl

current_of-new_resource_statuses :
    (k : String) (previous : List ResourceStatus)
    → current_of k (new_resource_statuses previous) ≡ none
unfolding current_of new_resource_statuses
current_of-new_resource_statuses k [] = refl
current_of-new_resource_statuses k (s ∷ previous) =
    ground (arith, current_of-new_resource_statuses k previous)

module _ {S : Type 0} (r : Realizing S) where
  realized_resource-name :
      (now : ℕ) (resource : OwnerResource) (a : Attempt) (previous : Option ResourceStatus)
      → ((s : ResourceStatus) → previous ≡ some s → s.realized_resource.name ≡ resource.name)
      → (realized_resource r now resource a previous).resource.name ≡ resource.name
  unfolding realized_resource generated generate_realized_resource
  realized_resource-name now resource a none h = refl
  realized_resource-name now resource a (some s) h =
      elim (Bool-cases (not (is_some a.stamped_object) || not (is_some a.template))) [
        | inl b ↦ ground (arith, h s refl)
        | inr b ↦ ground arith
      ]

  -- A round sets the current status of its resource, and changes no other and no previous status.
  recorded_lem :
      (clock : ℕ → ℕ) (resource : OwnerResource) (a : Attempt) (es : List StatusEntry)
      → IsNamed es
      → IsNamed (recorded r clock resource a es).1
        × ((k : String)
            → is_some (current_of k (recorded r clock resource a es).1)
              ≡ ((resource.name == k) || is_some (current_of k es)))
  unfolding recorded IsNamed
  recorded_lem clock resource a es named =
      let done =
        realized_resource r (clock 0) resource a (get_previous_resource_status resource.name es) in
      let name =
        realized_resource-name (clock 0) resource a (get_previous_resource_status resource.name es)
          (named resource.name) in
      let added =
        current_of-add (r.add_conditions_func (clock 1)) (λ k. clock (suc (suc k))) done.resource
          (add_health done.conditions a.error) a.is_pass_through done.conditions es in
      (
        λ k s h. named k s (sym (added k).1 ∙ h),
        λ k.
            ap is_some (added k).0
            ∙ is_some_if (done.resource.name == k) _ (current_of k es)
            ∙ ap (λ n. (n == k) || is_some (current_of k es)) name,
      )

  -- What the loop leaves, of the attempts that it has made.
  Recorded : Progress S → Option (List (OwnerResource × Attempt) × S) → Option (Progress S) → Type 0
  Recorded p none none = Unit {0}
  Recorded p (some (as', s)) (some p') =
      (p'.state ≡ s)
      × (is_some p'.first_error ≡ (is_some p.first_error || any has_failed as'))
      × ((k : String)
          → is_some (current_of k p'.statuses)
            ≡ (is_some (current_of k p.statuses) || any (is_named k) as'))
  Recorded p _ _ = ⊥

  -- One more attempt before the others.
  Recorded-after :
      (p p' : Progress S) (resource : OwnerResource) (a : Attempt)
      → is_some p'.first_error ≡ (is_some p.first_error || is_some a.error)
      → ((k : String)
          → is_some (current_of k p'.statuses)
            ≡ ((resource.name == k) || is_some (current_of k p.statuses)))
      → (made : Option (List (OwnerResource × Attempt) × S)) (end : Option (Progress S))
      → Recorded p' made end
      → Recorded p (after_attempt (resource, a) made) end
  unfolding Recorded after_attempt has_failed is_named
  Recorded-after p p' resource a e c none none h = tt
  Recorded-after p p' resource a e c none (some q) h = absurd h
  Recorded-after p p' resource a e c (some m) none h = absurd h
  Recorded-after p p' resource a e c (some (m, s)) (some q) h =
      (h.0, ground (arith, e, h.1), λ k. ground (arith, c k, h.2 k))

  progressed-first_error :
      (clock : ℕ → ℕ) (resource : OwnerResource) (p : Progress S) (a : Attempt) (s : S)
      → is_some (progressed r clock resource p (a, s)).first_error
        ≡ (is_some p.first_error || is_some a.error)
  unfolding progressed or_first
  progressed-first_error clock resource p a s =
      let conditions = (recorded r clock resource a p.statuses).0.conditions in
      is_some-or_first p.first_error (add_health conditions a.error)
      ∙ ap (λ b. is_some p.first_error || b) (is_some-add_health conditions a.error)

  realize_from-Recorded :
      (clock : ℕ → ℕ → ℕ) (i : ℕ) (resources : List OwnerResource) (p : Progress S)
      → IsNamed p.statuses
      → Recorded p (attempts r.run resources p.outputs p.state) (realize_from r clock i resources p)
  unfolding Recorded realize_from attempts step
  realize_from-Recorded clock i [] p named = (refl, ground arith, λ k. ground arith)
  realize_from-Recorded clock i (resource ∷ resources) p named =
      elim (Option-cases (r.run resource p.outputs p.state)) [
        | inl e ↦ rw (e, attempts, realize_from, step) tt
        | inr ((a, s), e) ↦
            let p' = progressed r (clock i) resource p (a, s) in
            let kept = recorded_lem (clock i) resource a p.statuses named in
            rw (e, attempts, realize_from, step)
              (Recorded-after p p' resource a (progressed-first_error (clock i) resource p a s)
                kept.1 _ _ (realize_from-Recorded clock (suc i) resources p' kept.0))
      ]

  -- What a run of the loop leaves, of the attempts that were made.
  unfoldable pub IsRealized :
      Option (List (OwnerResource × Attempt) × S) → Option (Progress S) → Type 0
  IsRealized none none = Unit {0}
  IsRealized (some (made, s)) (some p) =
      (p.state ≡ s)
      × (is_some p.first_error ≡ any has_failed made)
      × ((k : String) → is_some (current_of k p.statuses) ≡ any (is_named k) made)
  IsRealized _ _ = ⊥

  Recorded-IsRealized :
      (p : Progress S)
      → p.first_error ≡ none
      → ((k : String) → current_of k p.statuses ≡ none)
      → (made : Option (List (OwnerResource × Attempt) × S)) (end : Option (Progress S))
      → Recorded p made end
      → IsRealized made end
  unfolding Recorded IsRealized
  Recorded-IsRealized p e c none none h = tt
  Recorded-IsRealized p e c none (some q) h = absurd h
  Recorded-IsRealized p e c (some m) none h = absurd h
  Recorded-IsRealized p e c (some (m, s)) (some q) h =
      (h.0, ground (arith, e, h.1), λ k. ground (arith, c k, h.2 k))

  -- Realizing the resources of a blueprint makes one attempt of each, in order, with the outputs of
  -- the attempts before it. It panics where one of them does, and otherwise leaves the state of the
  -- last one; it returns an error exactly where some attempt has one, and a resource then has a
  -- current status exactly where an attempt was of it.
  pub realize-IsRealized :
      (clock : ℕ → ℕ → ℕ) (resources : List OwnerResource) (previous : List ResourceStatus) (s : S)
      → IsRealized
          (attempts r.run resources [] s)
          (realize r clock resources (new_resource_statuses previous) s)
  unfolding realize
  realize-IsRealized clock resources previous s =
      Recorded-IsRealized
        (record {
          outputs = [];
          statuses = new_resource_statuses previous;
          first_error = none;
          events = [];
          state = s;
        })
        refl (λ k. current_of-new_resource_statuses k previous) _ _
        (realize_from-Recorded clock 0 resources _ (new_resource_statuses-IsNamed previous))
