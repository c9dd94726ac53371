-- ===== src/Repository/Writes.antt =====
-- When an object is written.
use cartographer.Prelude.{
  ◌≡◌, refl, ◌∙◌, ap, ap₂, sym, subst, ◌⊎◌, inl, inr, Option, none, some, [], ◌∷◌, ◌++◌, arith,
  Option-cases,
}
use cartographer.Prelude.Json.{Json}
use cartographer.Prelude.Result.{Result, ok, err, Result-cases}
use cartographer.Repository.Cache.{
  Unstructured, unchanged_since_cached, unchanged_since_cached-set, unchanged_since_cached-IsHit,
  set,
}
use cartographer.Repository.{
  ApiError, Client, State, RepoError, get_unstructured, create_unstructured, patch_unstructured,
  created_with, patched_with, Event, created, patched, ensure_mutable_object_exists_on_cluster,
}

some_injective : {x y : Unstructured} → some x ≡ some y → x ≡ y
some_injective e = cc

ok_injective :
    {x y : Option Unstructured}
    → ◌≡◌ {A = Result RepoError (Option Unstructured)} (ok x) (ok y)
    → x ≡ y
ok_injective e = cc

module _ {World : Type 0} (cl : Client World) where
  abbrev pub ensure : Unstructured → State World → Result RepoError Unstructured × State World
  ensure = ensure_mutable_object_exists_on_cluster cl

  -- What the server was asked, and the event that tells of it: an object that is not there is
  -- created, and one that is there is patched, under the resource version that it has.
  pub data IsSent (obj result : Unstructured) (before : State World) (after : World)
      : Event → Type 0 where
    sent_create :
        get_unstructured cl obj before ≡ ok none
        → cl.create obj before.world ≡ (ok result, after)
        → IsSent obj result before after (created result)
    sent_patch :
        (existing : Unstructured)
        → get_unstructured cl obj before ≡ ok (some existing)
        → cl.patch existing
            (record obj { resource_version = existing.resource_version })
            before.world
          ≡ (ok result, after)
        → IsSent obj result before after (patched result)

  -- After a write, the server has the object, and the cache holds what was submitted and what the
  -- server made of it.
  pub record IsWritten (obj result : Unstructured) (s s' : State World) : Type 0 where
    pub event : Event
    pub sent : IsSent obj result s s'.world event
    pub cached : s'.cache ≡ set obj result "" s.cache
    pub recorded : s'.events ≡ s.events ++ event ∷ []

  created_with-IsWritten :
      (obj result : Unstructured) (s s' : State World) (r : Result ApiError Unstructured × World)
      → get_unstructured cl obj s ≡ ok none
      → cl.create obj s.world ≡ r
      → created_with cl obj "" s r ≡ (ok result, s')
      → IsWritten obj result s s'
  unfolding created_with
  created_with-IsWritten obj result s s' (err e, w) gone made h =
      absurd (ground (arith, ap (λ p. p.0) h))
  created_with-IsWritten obj result s s' (ok o, w) gone made h =
      let same : o ≡ result = ground (arith, ap (λ p. p.0) h) in
      let state = ap (λ p. p.1) h in
      record {
        cached =
            sym (ap (λ (t : State World). t.cache) state) ∙ ap (λ q. set obj q "" s.cache) same;
        event = created result;
        sent =
            sent_create gone
              (made ∙ ap₂ (λ x y. (ok x, y)) same (ap (λ (t : State World). t.world) state));
        recorded =
            sym (ap (λ (t : State World). t.events) state)
            ∙ ap (λ q. s.events ++ created q ∷ []) same;
      }

  patched_with-IsWritten :
      (obj result existing : Unstructured) (s s' : State World)
      (r : Result ApiError Unstructured × World)
      → get_unstructured cl obj s ≡ ok (some existing)
      → cl.patch existing (record obj { resource_version = existing.resource_version }) s.world ≡ r
      → patched_with cl obj s r ≡ (ok result, s')
      → IsWritten obj result s s'
  unfolding patched_with
  patched_with-IsWritten obj result existing s s' (err e, w) there made h =
      absurd (ground (arith, ap (λ p. p.0) h))
  patched_with-IsWritten obj result existing s s' (ok o, w) there made h =
      let same : o ≡ result = ground (arith, ap (λ p. p.0) h) in
      let state = ap (λ p. p.1) h in
      record {
        cached =
            sym (ap (λ (t : State World). t.cache) state) ∙ ap (λ q. set obj q "" s.cache) same;
        event = patched result;
        sent =
            sent_patch existing there
              (made ∙ ap₂ (λ x y. (ok x, y)) same (ap (λ (t : State World). t.world) state));
        recorded =
            sym (ap (λ (t : State World). t.events) state)
            ∙ ap (λ q. s.events ++ patched q ∷ []) same;
      }

  -- The object is on the cluster, and the cache shows that nothing is to be written.
  pub record IsCached (obj result : Unstructured) (s s' : State World) : Type 0 where
    pub unchanged : s' ≡ s
    pub there : get_unstructured cl obj s ≡ ok (some result)
    pub hit : unchanged_since_cached obj result s.cache ≡ some result

  found_cases :
      (obj result : Unstructured) (s s' : State World) (found : Option Unstructured)
      → get_unstructured cl obj s ≡ ok found
      → ensure obj s ≡ (ok result, s')
      → IsCached obj result s s' ⊎ IsWritten obj result s s'
  unfolding ensure_mutable_object_exists_on_cluster create_unstructured patch_unstructured
  found_cases obj result s s' none g h =
      let h' = rw (g, ensure_mutable_object_exists_on_cluster) at h in
      inr (created_with-IsWritten obj result s s' (cl.create obj s.world) g refl h')
  found_cases obj result s s' (some existing) g h =
      elim (Option-cases (unchanged_since_cached obj existing s.cache)) [
        | inl miss ↦
            let h' = rw (g, miss, ensure_mutable_object_exists_on_cluster) at h in
            let versioned : Unstructured = record obj {
              resource_version = existing.resource_version;
            } in
            inr (
              patched_with-IsWritten obj result existing s s' (cl.patch existing versioned s.world)
                g refl h')
        | inr (hit, e) ↦
            let h' = rw (g, e, ensure_mutable_object_exists_on_cluster) at h in
            let (same, spec) = unchanged_since_cached-IsHit obj existing s.cache hit e in
            let returned : hit ≡ result = ground (arith, ap (λ p. p.0) h') in
            let is : existing ≡ result = sym same ∙ returned in
            inl (record {
              unchanged = sym (ap (λ p. p.1) h');
              there = g ∙ ap (λ x. ok (some x)) is;
              hit =
                  subst (λ x. unchanged_since_cached obj x s.cache ≡ some x) is (e ∙ ap some same);
            })
      ]

  -- A mutable object that is ensured with success either was a hit in the cache, and then nothing
  -- at all changed, or was written: created where the server had none, and else patched under the
  -- resource version of the one that it had. Then the server's new state is that of the write, the
  -- cache holds the submitted object with the one that the server returned, and one event tells of it.
  pub ensure_mutable_object_cases :
      (obj result : Unstructured) (s s' : State World)
      → ensure obj s ≡ (ok result, s')
      → IsCached obj result s s' ⊎ IsWritten obj result s s'
  unfolding ensure_mutable_object_exists_on_cluster
  ensure_mutable_object_cases obj result s s' h = elim (Result-cases (get_unstructured cl obj s)) [
    | inr (e, g) ↦
        absurd
          (ground (arith, ap (λ p. p.0) (rw (g, ensure_mutable_object_exists_on_cluster) at h)))
    | inl (found, g) ↦ found_cases obj result s s' found g h
  ]

  ensure_hit :
      (obj existing : Unstructured) (s : State World)
      → get_unstructured cl obj s ≡ ok (some existing)
      → unchanged_since_cached obj existing s.cache ≡ some existing
      → ensure obj s ≡ (ok existing, s)
  unfolding ensure_mutable_object_exists_on_cluster
  ensure_hit obj existing s g e = rw (g, e, ensure_mutable_object_exists_on_cluster)

  -- Once a mutable object is ensured, ensuring it again writes nothing, as long as the server has
  -- the object with the spec that it returned: no write, no event, no change to the cache.
  pub ensure_mutable_object_again :
      (obj result existing : Unstructured) (spec : Json) (s s' : State World)
      → ensure obj s ≡ (ok result, s')
      → result.spec ≡ some spec
      → get_unstructured cl obj s' ≡ ok (some existing)
      → existing.spec ≡ some spec
      → ensure obj s' ≡ (ok existing, s')
  ensure_mutable_object_again obj result existing spec s s' h r g e =
      elim (ensure_mutable_object_cases obj result s s' h) [
        | inl c ↦
            let same : result ≡ existing =
              some_injective
                (ok_injective (sym c.there ∙ ap (get_unstructured cl obj) (sym c.unchanged) ∙ g)) in
            let hit = subst (λ x. unchanged_since_cached obj x s.cache ≡ some x) same c.hit in
            ensure_hit obj existing s' g (
              ap (λ (t : State World). unchanged_since_cached obj existing t.cache) c.unchanged
              ∙ hit)
        | inr w ↦ ensure_hit obj existing s' g (
            ap (unchanged_since_cached obj existing) w.cached
            ∙ unchanged_since_cached-set obj result existing spec s.cache r e)
      ]
