-- ===== src/Repository/Cache.antt =====
-- pkg/repository/cache.go
pub mod Listed
use Prim.Native.String.{◌++◌ as ◌+++◌}
use native.Mathlib.Decide.{ℕ_discrete}
use cartographer.Prelude.{
  ℕ, String, ◌≡◌, refl, sym, ap, ◌∙◌, inl, inr, Bool, true, false, not, Option, none, some, List,
  [], ◌∷◌, ◌==◌, eq_refl, arith, if◌then◌else◌, Option-cases,
}
use cartographer.Prelude.Dict.{Dict, lookup, insert, lookup-insert}
use cartographer.Prelude.Json.{Json, Json-discrete, String-discrete, deep_equal, deep_equal_iff}

-- unstructured.Unstructured: the parts of the document that the code reads, and the others.
pub record Unstructured : Type 0 where
  pub api_version : String
  pub kind : String
  pub namespace : String
  pub name : String
  pub generate_name : String
  pub resource_version : String
  pub creation_timestamp : ℕ
  pub labels : List (String × String)
  pub spec : Option Json
  pub others : Json

unfoldable pub Unstructured-discrete : Discrete Unstructured
Unstructured-discrete = hlevel (String-discrete, Json-discrete, ℕ_discrete)

unfoldable pub Spec-discrete : Discrete (Option Json)
Spec-discrete = hlevel Json-discrete

pub record RepoCache : Type 0 where
  pub submitted_cache : Dict Unstructured
  pub persisted_cache : Dict Unstructured

unfoldable pub new_cache : RepoCache
new_cache = record { submitted_cache = []; persisted_cache = [] }

-- "%s:%s:%s:%s" of the namespace, the kind, the name or the generateName, and the discriminant
unfoldable pub get_key : Unstructured → String → String
get_key obj owner_discriminant =
    let name = if obj.name == "" then obj.generate_name else obj.name in
    obj.namespace +++ (":" +++ (obj.kind +++ (":" +++ (name +++ (":" +++ owner_discriminant)))))

unfoldable pub set : Unstructured → Unstructured → String → RepoCache → RepoCache
set submitted persisted owner_discriminant c =
    let key = get_key submitted owner_discriminant in
    record {
      submitted_cache = insert key submitted c.submitted_cache;
      persisted_cache = insert key persisted c.persisted_cache;
    }

is_submitted_cache_hit : Unstructured → String → RepoCache → Bool
is_submitted_cache_hit submitted key c = elim (lookup key c.submitted_cache) [
  | none ↦ false
  | some cached ↦ deep_equal Unstructured-discrete cached submitted
]

-- An object without a spec is never a hit.
specs_match : Option Json → Option Json → Bool
specs_match none persisted = false
specs_match (some existing) none = false
specs_match (some existing) (some persisted) = deep_equal Json-discrete existing persisted

-- A missing entry is the zero value, which has no spec.
persisted_spec : Option Unstructured → Option Json
persisted_spec none = none
persisted_spec (some persisted) = persisted.spec

is_persisted_cache_hit : String → Unstructured → RepoCache → Bool
unfolding specs_match persisted_spec
is_persisted_cache_hit key existing c =
    specs_match existing.spec (persisted_spec (lookup key c.persisted_cache))

first_hit : String → List Unstructured → RepoCache → Option Unstructured
first_hit key [] c = none
first_hit key (existing ∷ rest) c =
    let later = first_hit key rest c in
    if is_persisted_cache_hit key existing c then some existing else later

unfoldable pub unchanged_since_cached_from_list :
    Unstructured → List Unstructured → String → RepoCache → Option Unstructured
unfolding is_submitted_cache_hit first_hit is_persisted_cache_hit
unchanged_since_cached_from_list submitted existing_list owner_discriminant c =
    let key = get_key submitted owner_discriminant in
    if not (is_submitted_cache_hit submitted key c) then none else first_hit key existing_list c

unfoldable pub unchanged_since_cached :
    Unstructured → Unstructured → RepoCache → Option Unstructured
unfolding is_submitted_cache_hit is_persisted_cache_hit
unchanged_since_cached submitted existing c =
    let key = get_key submitted "" in
    if not (is_submitted_cache_hit submitted key c)
    then none
    else if is_persisted_cache_hit key existing c
    then some existing
    else none

-- A hit: what was last submitted under the key is the same, and what was persisted then has the
-- spec of an object on the cluster.
pub record IsHit (submitted existing : Unstructured) (key : String) (c : RepoCache) : Type 0 where
  pub persisted : Unstructured
  pub spec : Json
  pub resubmitted : lookup key c.submitted_cache ≡ some submitted
  pub kept : lookup key c.persisted_cache ≡ some persisted
  pub persisted_spec : persisted.spec ≡ some spec
  pub existing_spec : existing.spec ≡ some spec

submitted_and_persisted-IsHit :
    (submitted existing : Unstructured) (key : String) (c : RepoCache)
    → is_submitted_cache_hit submitted key c ≡ true
    → is_persisted_cache_hit key existing c ≡ true
    → IsHit submitted existing key c
unfolding is_submitted_cache_hit is_persisted_cache_hit
submitted_and_persisted-IsHit submitted existing key c h k =
    elim (Option-cases (lookup key c.submitted_cache)) [
      | inl e ↦ absurd (ground arith)
      | inr (s, e) ↦ elim (Option-cases (lookup key c.persisted_cache)) [
        | inl e' ↦ elim (Option-cases existing.spec) [
          | inl x ↦ absurd (ground arith)
          | inr (x, ex) ↦ absurd (ground arith)
        ]
        | inr (p, e') ↦ elim (Option-cases existing.spec) [
          | inl x ↦ absurd (ground arith)
          | inr (x, ex) ↦ elim (Option-cases p.spec) [
            | inl y ↦ absurd (ground arith)
            | inr (y, ey) ↦
                let same : s ≡ submitted =
                  (deep_equal_iff Unstructured-discrete s submitted).0 (ground arith) in
                let alike : x ≡ y = (deep_equal_iff Json-discrete x y).0 (ground arith) in
                record {
                  persisted = p;
                  spec = x;
                  resubmitted = e ∙ ap some same;
                  kept = e';
                  persisted_spec = ey ∙ ap some (sym alike);
                  existing_spec = ex;
                }
          ]
        ]
      ]
    ]

-- Where the cache says that an object is unchanged, it returns the object as it is on the cluster,
-- what was last submitted under the key is the same, and what was then persisted has the spec of the
-- object on the cluster.
pub unchanged_since_cached-IsHit :
    (submitted existing : Unstructured) (c : RepoCache) (found : Unstructured)
    → unchanged_since_cached submitted existing c ≡ some found
    → (found ≡ existing) × IsHit submitted existing (get_key submitted "") c
unfolding unchanged_since_cached
unchanged_since_cached-IsHit submitted existing c found h = (
  ground arith,
  submitted_and_persisted-IsHit submitted existing (get_key submitted "") c (ground arith)
      (ground arith),
)

-- After a submitted and a persisted object were set, the cache says that the submitted one is
-- unchanged for any object on the cluster that has the spec of the persisted one.
pub unchanged_since_cached-set :
    (submitted persisted existing : Unstructured) (spec : Json) (c : RepoCache)
    → persisted.spec ≡ some spec
    → existing.spec ≡ some spec
    → unchanged_since_cached submitted existing (set submitted persisted "" c) ≡ some existing
unfolding unchanged_since_cached set
unchanged_since_cached-set submitted persisted existing spec c p e =
    let key = get_key submitted "" in
    ground (
      arith,
      eq_refl key,
      lookup-insert key key submitted c.submitted_cache,
      lookup-insert key key persisted c.persisted_cache,
      (deep_equal_iff Unstructured-discrete submitted submitted).1 refl,
      (deep_equal_iff Json-discrete spec spec).1 refl,
    )
