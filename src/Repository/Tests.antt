-- ===== src/Repository/Tests.antt =====
-- Runs of the repository, on an API server that holds one object or none and accepts every write.
use cartographer.Prelude.{inl, String, ◌≡◌, refl, ◌⊎◌, Option, none, some, List, [], ◌∷◌}
use cartographer.Prelude.Json.{text, null}
use cartographer.Prelude.Dict.{Dict}
use cartographer.Prelude.Result.{Result, ok, err}
use cartographer.Repository.{
  ApiError, not_found, Client, State, created, get_unstructured, list_unstructured,
  build_owner_discriminant, create_unstructured, created_with,
  ensure_mutable_object_exists_on_cluster, ensure_immutable_object_exists_on_cluster,
}
use cartographer.Repository.Cache.{
  Unstructured, new_cache, get_key, set, unchanged_since_cached, IsHit,
  unchanged_since_cached_from_list, unchanged_since_cached-IsHit, unchanged_since_cached-set,
}
use cartographer.Repository.Immutable.{IsAgain, ensure_immutable_object-IsAgain}
use cartographer.Repository.Writes.{
  ensure, IsWritten, IsCached, ensure_mutable_object_cases, ensure_mutable_object_again,
}

abbrev World : Type 0
World = Option Unstructured

abbrev found : World → Result ApiError Unstructured
found none = err not_found
found (some o) = ok o

abbrev one_each : World → List Unstructured
one_each none = []
one_each (some o) = o ∷ []

abbrev server : Client World
server = record {
  get = λ o w. found w;
  list = λ o labels w. ok (one_each w);
  create =
      λ o w. (ok (record o { resource_version = "1" }), some (record o { resource_version = "1" }));
  patch = λ old o w.
      (ok (record o { resource_version = "2" }), some (record o { resource_version = "2" }));
  delete = λ o w. (ok tt, none);
}

abbrev image : Unstructured
image = record {
  api_version = "kpack.io/v1alpha2";
  kind = "Image";
  namespace = "dev";
  name = "web";
  generate_name = "";
  resource_version = "";
  creation_timestamp = 0;
  labels = [];
  spec = some (text "tag");
  others = null;
}

abbrev stored_image : Unstructured
stored_image = record image { resource_version = "1" }

abbrev fresh : State World
fresh = record { world = none; cache = new_cache; events = [] }

abbrev written : State World
written = record {
  world = some stored_image;
  cache = set image stored_image "" new_cache;
  events = created stored_image ∷ [];
}

first_write : ensure server image fresh ≡ (ok stored_image, written)
unfolding ensure_mutable_object_exists_on_cluster get_unstructured create_unstructured created_with
first_write = refl

there_now : get_unstructured server image written ≡ ok (some stored_image)
unfolding get_unstructured
there_now = refl

unchanged_since_cached-set_example :
    unchanged_since_cached image stored_image (set image stored_image "" new_cache)
    ≡ some stored_image
unchanged_since_cached-set_example =
    unchanged_since_cached-set image stored_image stored_image (text "tag") new_cache refl refl

cached_image :
    unchanged_since_cached image stored_image (set image stored_image "" new_cache)
    ≡ some stored_image
cached_image =
    unchanged_since_cached-set image stored_image stored_image (text "tag") new_cache refl refl

unchanged_since_cached-IsHit_example :
    (stored_image ≡ stored_image)
    × IsHit image stored_image (get_key image "") (set image stored_image "" new_cache)
unchanged_since_cached-IsHit_example =
    unchanged_since_cached-IsHit image stored_image (set image stored_image "" new_cache)
      stored_image cached_image

ensure_mutable_object_cases_example :
    IsCached server image stored_image fresh written
    ⊎ IsWritten server image stored_image fresh written
ensure_mutable_object_cases_example =
    ensure_mutable_object_cases server image stored_image fresh written first_write

ensure_mutable_object_again_example : ensure server image written ≡ (ok stored_image, written)
ensure_mutable_object_again_example =
    ensure_mutable_object_again server image stored_image stored_image (text "tag") fresh written
      first_write refl there_now refl

abbrev labels : Dict String
labels = ("carto.run/runnable-name", "tests") ∷ []

abbrev written_run : State World
written_run = record written {
  cache = set image stored_image (build_owner_discriminant labels) new_cache;
}

first_run :
    ensure_immutable_object_exists_on_cluster server image labels fresh
    ≡ (ok stored_image, written_run)
unfolding ensure_immutable_object_exists_on_cluster list_unstructured create_unstructured
    created_with unchanged_since_cached_from_list cartographer.Prelude.Dict.lookup new_cache
first_run = refl

listed_run : list_unstructured server image labels written_run ≡ ok (stored_image ∷ [])
unfolding list_unstructured
listed_run = refl

ensure_immutable_object-IsAgain_example :
    IsAgain server image labels (text "tag") (stored_image ∷ []) written_run
ensure_immutable_object-IsAgain_example =
    ensure_immutable_object-IsAgain server image stored_image stored_image (text "tag") labels fresh
      written_run (stored_image ∷ []) first_run refl listed_run (inl refl) refl
