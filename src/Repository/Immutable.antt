-- ===== src/Repository/Immutable.antt =====
-- When an immutable object is written.
use cartographer.Prelude.{
  String, ◌≡◌, sym, ap, ◌∙◌, subst, inl, inr, Option, none, some, List, IsAmong, arith,
  Option-cases, eq_refl,
}
use cartographer.Prelude.Dict.{Dict, lookup, lookup-insert}
use cartographer.Prelude.Json.{Json}
use cartographer.Prelude.Result.{Result, ok, err, Result-cases}
use cartographer.Repository.Cache.{
  Unstructured, RepoCache, get_key, set, unchanged_since_cached_from_list, IsHit,
}
use cartographer.Repository.Cache.Listed.{
  unchanged_since_cached_from_list-IsHit, unchanged_since_cached_from_list_found,
}
use cartographer.Repository.Discriminant.{IsDiscriminant, build_owner_discriminant-IsDiscriminant}
use cartographer.Repository.{
  ApiError, Client, State, list_unstructured, create_unstructured, created_with,
  ensure_immutable_object_exists_on_cluster, build_owner_discriminant,
}

spec_of : Option Unstructured → Option Json
spec_of none = none
spec_of (some o) = o.spec

-- The cache has the submitted object under a key, with a persisted one that has the spec.
record IsKept (obj : Unstructured) (key : String) (spec : Json) (c : RepoCache) : Type 0 where
  persisted : Unstructured
  submitted : lookup key c.submitted_cache ≡ some obj
  kept : lookup key c.persisted_cache ≡ some persisted
  has_spec : persisted.spec ≡ some spec

set-IsKept :
    (obj result : Unstructured) (discriminant : String) (spec : Json) (c : RepoCache)
    → result.spec ≡ some spec
    → IsKept obj (get_key obj discriminant) spec (set obj result discriminant c)
unfolding set
set-IsKept obj result discriminant spec c h =
    let key = get_key obj discriminant in
    record {
      persisted = result;
      submitted = ground (arith, eq_refl key, lookup-insert key key obj c.submitted_cache);
      kept = ground (arith, eq_refl key, lookup-insert key key result c.persisted_cache);
      has_spec = h;
    }

module _ {World : Type 0} (cl : Client World) where
  -- What the second call finds.
  pub record IsAgain (obj : Unstructured) (labels : Dict String) (spec : Json)
      (items : List Unstructured) (s : State World) : Type 0 where
    pub found : Unstructured
    pub unchanged : ensure_immutable_object_exists_on_cluster cl obj labels s ≡ (ok found, s)
    pub listed : IsAmong found items
    pub same_spec : found.spec ≡ some spec
    pub discriminant : String
    pub discriminates : IsDiscriminant labels discriminant
    pub hit : IsHit obj found (get_key obj discriminant) s.cache

  created_with-IsKept :
      (obj result : Unstructured) (discriminant : String) (spec : Json) (s s' : State World)
      (r : Result ApiError Unstructured × World)
      → created_with cl obj discriminant s r ≡ (ok result, s')
      → result.spec ≡ some spec
      → IsKept obj (get_key obj discriminant) spec s'.cache
  unfolding created_with
  created_with-IsKept obj result discriminant spec s s' (err e, w) h p =
      absurd (ground (arith, ap (λ q. q.0) h))
  created_with-IsKept obj result discriminant spec s s' (ok o, w) h p =
      let same : o ≡ result = ground (arith, ap (λ q. q.0) h) in
      subst (λ (t : State World). IsKept obj (get_key obj discriminant) spec t.cache)
        (ap (λ q. q.1) h)
        (set-IsKept obj o discriminant spec s.cache (ap (λ (x : Unstructured). x.spec) same ∙ p))

  ensured-IsKept :
      (obj result : Unstructured) (labels : Dict String) (spec : Json) (s s' : State World)
      → ensure_immutable_object_exists_on_cluster cl obj labels s ≡ (ok result, s')
      → result.spec ≡ some spec
      → IsKept obj (get_key obj (build_owner_discriminant labels)) spec s'.cache
  unfolding ensure_immutable_object_exists_on_cluster create_unstructured
  ensured-IsKept obj result labels spec s s' h p =
      elim (Result-cases (list_unstructured cl obj labels s)) [
        | inr (e, g) ↦
            let h' = rw (g, ensure_immutable_object_exists_on_cluster) at h in
            absurd (ground (arith, ap (λ q. q.0) h'))
        | inl (items, g) ↦
            let d = build_owner_discriminant labels in
            elim (Option-cases (unchanged_since_cached_from_list obj items d s.cache)) [
              | inl miss ↦
                  let h' = rw (g, miss, ensure_immutable_object_exists_on_cluster) at h in
                  created_with-IsKept obj result d spec s s' (cl.create obj s.world) h' p
              | inr (hit, e) ↦
                  let h' = rw (g, e, ensure_immutable_object_exists_on_cluster) at h in
                  let same : hit ≡ result = ground (arith, ap (λ q. q.0) h') in
                  let (there, is) =
                    unchanged_since_cached_from_list-IsHit obj items d s.cache hit e in
                  let specs : some is.spec ≡ some spec =
                    sym is.existing_spec ∙ ap (λ (x : Unstructured). x.spec) same ∙ p in
                  subst (λ (t : State World). IsKept obj (get_key obj d) spec t.cache)
                    (ap (λ q. q.1) h')
                    (record {
                      persisted = is.persisted;
                      submitted = is.resubmitted;
                      kept = is.kept;
                      has_spec = is.persisted_spec ∙ specs;
                    })
            ]
      ]

  -- Once an immutable object is ensured, ensuring it again under the same labels writes nothing, as
  -- long as the server lists an object with the spec that it returned: the state does not change, and
  -- what is returned is a listed object with that spec. It is found in the cache under the labels,
  -- each in braces, in the order of their keys.
  pub ensure_immutable_object-IsAgain :
      (obj result o : Unstructured) (spec : Json) (labels : Dict String) (s s' : State World)
      (items : List Unstructured)
      → ensure_immutable_object_exists_on_cluster cl obj labels s ≡ (ok result, s')
      → result.spec ≡ some spec
      → list_unstructured cl obj labels s' ≡ ok items
      → IsAmong o items
      → o.spec ≡ some spec
      → IsAgain obj labels spec items s'
  unfolding ensure_immutable_object_exists_on_cluster spec_of
  ensure_immutable_object-IsAgain obj result o spec labels s s' items h p g there e =
      let d = build_owner_discriminant labels in
      let k = ensured-IsKept obj result labels spec s s' h p in
      let (found, f) =
        unchanged_since_cached_from_list_found obj k.persisted o spec items d s'.cache k.submitted
          k.kept k.has_spec there e in
      let (listed, is) = unchanged_since_cached_from_list-IsHit obj items d s'.cache found f in
      record {
        found = found;
        unchanged = rw (g, f, ensure_immutable_object_exists_on_cluster);
        listed = listed;
        same_spec =
            is.existing_spec
            ∙ sym is.persisted_spec
            ∙ ap spec_of (sym is.kept ∙ k.kept)
            ∙ k.has_spec;
        discriminant = d;
        discriminates = build_owner_discriminant-IsDiscriminant labels;
        hit = is;
      }
