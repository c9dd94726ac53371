-- ===== src/Repository.antt =====
-- pkg/repository/repository.go: the writes to the API server, and their cache. The API server is
-- the parameter `Client`, over a state `World` of its own; a deep copy is the value itself.
pub mod Cache
pub mod Discriminant
pub mod Writes
pub mod Immutable
pub mod Templates
mod Tests
use Prim.Native.String.{◌++◌ as ◌+++◌, compare}
use package.text.Mathlib.Text.{is_le}
use cartographer.Prelude.{
  String, Bool, true, false, Option, none, some, List, [], ◌∷◌, ◌++◌, if◌then◌else◌,
}
use cartographer.Prelude.Dict.{Dict}
use cartographer.Prelude.Result.{Result, ok, err}
use cartographer.Repository.Cache.{
  Unstructured, RepoCache, set, unchanged_since_cached, unchanged_since_cached_from_list,
}

-- An error of the API server: kerrors.IsNotFound holds of the first.
pub data ApiError : Type 0 where
  not_found : ApiError
  other_error : String → ApiError

-- client.Client on unstructured objects. A write returns the object as the server has it.
pub record Client (World : Type 0) : Type 0 where
  pub get : Unstructured → World → Result ApiError Unstructured
  pub list : Unstructured → Dict String → World → Result ApiError (List Unstructured)
  pub create : Unstructured → World → Result ApiError Unstructured × World
  pub patch : (existing obj : Unstructured) → World → Result ApiError Unstructured × World
  pub delete : Unstructured → World → Result ApiError (Unit {0}) × World

pub data Event : Type 0 where
  created patched deleted : Unstructured → Event

-- The API server, the cache and the recorded events.
pub record State (World : Type 0) : Type 0 where
  pub world : World
  pub cache : RepoCache
  pub events : List Event

pub data RepoError : Type 0 where
  get_failed list_failed create_failed patch_failed delete_failed : ApiError → RepoError

-- sort.Strings
insert_key : String × String → Dict String → Dict String
insert_key e [] = e ∷ []
insert_key e (f ∷ m) = if is_le (compare e.0 f.0) then e ∷ f ∷ m else f ∷ insert_key e m

sort_keys : Dict String → Dict String
sort_keys [] = []
sort_keys (e ∷ m) = insert_key e (sort_keys m)

join_components : Dict String → String
join_components [] = ""
join_components ((k, v) ∷ m) = ("{" +++ (k +++ (":" +++ (v +++ "}")))) +++ join_components m

unfoldable pub build_owner_discriminant : Dict String → String
unfolding insert_key sort_keys join_components
build_owner_discriminant labels = join_components (sort_keys labels)

module _ {World : Type 0} (cl : Client World) where
  -- What a write leaves: the object that the pointer argument then holds, or the error.
  abbrev pub Write : Type 0
  Write = Result RepoError Unstructured × State World

  -- `none` stands for a missing object.
  unfoldable pub get_unstructured :
      Unstructured → State World → Result RepoError (Option Unstructured)
  get_unstructured obj s = elim (cl.get obj s.world) [
    | ok found ↦ ok (some found)
    | err e ↦ elim e [ not_found ↦ ok none | other_error m ↦ err (get_failed (other_error m)) ]
  ]

  unfoldable pub list_unstructured :
      Unstructured → Dict String → State World → Result RepoError (List Unstructured)
  list_unstructured obj labels s = elim (cl.list obj labels s.world) [
    | ok items ↦ ok items
    | err e ↦ err (list_failed e)
  ]

  created_with : Unstructured → String → State World → Result ApiError Unstructured × World → Write
  created_with submitted discriminant s (err e, w) = (err (create_failed e), record s { world = w })
  created_with submitted discriminant s (ok obj, w) = (
    ok obj,
    record {
      world = w;
      cache = set submitted obj discriminant s.cache;
      events = s.events ++ created obj ∷ [];
    },
  )

  unfoldable pub create_unstructured : Unstructured → String → State World → Write
  unfolding created_with
  create_unstructured obj discriminant s = created_with obj discriminant s (cl.create obj s.world)

  patched_with : Unstructured → State World → Result ApiError Unstructured × World → Write
  patched_with submitted s (err e, w) = (err (patch_failed e), record s { world = w })
  patched_with submitted s (ok obj, w) = (
    ok obj,
    record {
      world = w;
      cache = set submitted obj "" s.cache;
      events = s.events ++ patched obj ∷ [];
    },
  )

  -- The submitted copy is taken before the resource version is set.
  unfoldable pub patch_unstructured : Unstructured → Unstructured → State World → Write
  unfolding patched_with
  patch_unstructured existing obj s =
      let versioned = record obj { resource_version = existing.resource_version } in
      patched_with obj s (cl.patch existing versioned s.world)

  unfoldable pub ensure_mutable_object_exists_on_cluster : Unstructured → State World → Write
  ensure_mutable_object_exists_on_cluster obj s = elim (get_unstructured obj s) [
    | err e ↦ (err e, s)
    | ok found ↦ elim found [
      | none ↦ create_unstructured obj "" s
      | some existing ↦ elim (unchanged_since_cached obj existing s.cache) [
        | some hit ↦ (ok hit, s)
        | none ↦ patch_unstructured existing obj s
      ]
    ]
  ]

  unfoldable pub ensure_immutable_object_exists_on_cluster :
      Unstructured → Dict String → State World → Write
  ensure_immutable_object_exists_on_cluster obj labels s = elim (list_unstructured obj labels s) [
    | err e ↦ (err e, s)
    | ok items ↦
        let discriminant = build_owner_discriminant labels in
        elim (unchanged_since_cached_from_list obj items discriminant s.cache) [
          | some hit ↦ (ok hit, s)
          | none ↦ create_unstructured obj discriminant s
        ]
  ]

  deleted_with :
      Unstructured
      → State World
      → Result ApiError (Unit {0}) × World
      → Result RepoError (Unit {0}) × State World
  deleted_with obj s (err e, w) = (err (delete_failed e), record s { world = w })
  deleted_with obj s (ok u, w) =
      (ok tt, record s { world = w; events = s.events ++ deleted obj ∷ [] })

  unfoldable pub delete : Unstructured → State World → Result RepoError (Unit {0}) × State World
  unfolding deleted_with
  delete obj s = deleted_with obj s (cl.delete obj s.world)
