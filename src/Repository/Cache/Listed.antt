-- ===== src/Repository/Cache/Listed.antt =====
-- pkg/repository/cache.go: which of the listed objects is unchanged.
use cartographer.Prelude.{
  String, ◌≡◌, refl, ap, inl, inr, true, some, List, [], ◌∷◌, IsAmong, arith, Bool-cases, subst,
}
use cartographer.Prelude.Dict.{lookup}
use cartographer.Prelude.Json.{Json, Json-discrete, deep_equal_iff}
use cartographer.Repository.Cache.{
  Unstructured, Unstructured-discrete, RepoCache, get_key, is_submitted_cache_hit, specs_match,
  persisted_spec, is_persisted_cache_hit, first_hit, unchanged_since_cached_from_list, IsHit,
  submitted_and_persisted-IsHit,
}

first_hit-IsAmong :
    (key : String) (items : List Unstructured) (c : RepoCache) (found : Unstructured)
    → first_hit key items c ≡ some found
    → IsAmong found items × (is_persisted_cache_hit key found c ≡ true)
unfolding first_hit
first_hit-IsAmong key [] c found h = absurd (ground (arith, h))
first_hit-IsAmong key (o ∷ os) c found h = elim (Bool-cases (is_persisted_cache_hit key o c)) [
  | inl hit ↦
      let same : o ≡ found = ground (arith, h, hit) in
      (inl same, subst (λ x. is_persisted_cache_hit key x c ≡ true) same hit)
  | inr miss ↦
      let (there, hit) = first_hit-IsAmong key os c found (ground (arith, h, miss)) in
      (inr there, hit)
]

-- The object that is unchanged is one of the list, and it is a hit.
pub unchanged_since_cached_from_list-IsHit :
    (submitted : Unstructured) (items : List Unstructured) (discriminant : String) (c : RepoCache)
    (found : Unstructured)
    → unchanged_since_cached_from_list submitted items discriminant c ≡ some found
    → IsAmong found items × IsHit submitted found (get_key submitted discriminant) c
unfolding unchanged_since_cached_from_list
unchanged_since_cached_from_list-IsHit submitted items discriminant c found h =
    let key = get_key submitted discriminant in
    elim (Bool-cases (is_submitted_cache_hit submitted key c)) [
      | inl s ↦
          let (there, hit) = first_hit-IsAmong key items c found (ground (arith, h, s)) in
          (there, submitted_and_persisted-IsHit submitted found key c s hit)
      | inr n ↦ absurd (ground (arith, h, n))
    ]

is_persisted_cache_hit_holds :
    (key : String) (existing persisted : Unstructured) (spec : Json) (c : RepoCache)
    → lookup key c.persisted_cache ≡ some persisted
    → persisted.spec ≡ some spec
    → existing.spec ≡ some spec
    → is_persisted_cache_hit key existing c ≡ true
unfolding is_persisted_cache_hit specs_match persisted_spec
is_persisted_cache_hit_holds key existing persisted spec c k p e =
    ground (arith, k, p, e, (deep_equal_iff Json-discrete spec spec).1 refl)

first_hit_found :
    (key : String) (items : List Unstructured) (c : RepoCache) (o : Unstructured)
    → IsAmong o items
    → is_persisted_cache_hit key o c ≡ true
    → (found : Unstructured) × (first_hit key items c ≡ some found)
unfolding first_hit
first_hit_found key [] c o there hit = elim there [ ]
first_hit_found key (x ∷ xs) c o there hit = elim (Bool-cases (is_persisted_cache_hit key x c)) [
  | inl h ↦ (x, ground (arith, h))
  | inr n ↦ elim there [
    | inl same ↦ absurd (ground (arith, n, ap (λ y. is_persisted_cache_hit key y c) same, hit))
    | inr later ↦
        let (found, e) = first_hit_found key xs c o later hit in (found, ground (arith, n, e))
  ]
]

-- Where the cache has the submitted object, and a persisted one that has the spec of one of the
-- list, some object of the list is unchanged.
pub unchanged_since_cached_from_list_found :
    (submitted persisted o : Unstructured) (spec : Json) (items : List Unstructured)
    (discriminant : String) (c : RepoCache)
    → lookup (get_key submitted discriminant) c.submitted_cache ≡ some submitted
    → lookup (get_key submitted discriminant) c.persisted_cache ≡ some persisted
    → persisted.spec ≡ some spec
    → IsAmong o items
    → o.spec ≡ some spec
    → (found : Unstructured) × (unchanged_since_cached_from_list submitted items discriminant c
        ≡ some found)
unfolding unchanged_since_cached_from_list is_submitted_cache_hit
unchanged_since_cached_from_list_found submitted persisted o spec items discriminant c s k p there
      e =
    let key = get_key submitted discriminant in
    let (found, f) =
      first_hit_found key items c o there
        (is_persisted_cache_hit_holds key o persisted spec c k p e) in
    (found, ground (arith, s, f, (deep_equal_iff Unstructured-discrete submitted submitted).1 refl))
