-- ===== src/Runnable.antt =====
-- pkg/realizer/runnable/gc/gc.go and GetLatestSuccessfulObjFromExaminedObject of pkg/stamp/reader.go:
-- which runs of a runnable are kept, and which one is read. sort.Sort is the parameter `sort`, and a
-- creation timestamp is a number that is zero for the zero time.
pub mod Cleanup
pub mod Latest
pub mod Outputs
pub mod Realize
pub mod Taken
pub mod Written
pub mod Read
mod Tests
use cartographer.Prelude.{
  ℕ, suc, Bool, true, false, not, Option, none, some, List, [], ◌∷◌, ltb, if◌then◌else◌,
}
use cartographer.Prelude.Result.{Result}
use cartographer.Conditions.{Status, is_true, is_false}
use cartographer.Validation.Template.{RetentionPolicy}
use cartographer.Repository.Cache.{Unstructured}
use cartographer.Repository.{Client, State, delete}

pub record ExaminedObject : Type 0 where
  pub stamped_object : Unstructured
  pub health : Status

-- ByCreationTimestamp.Less: the newest first.
unfoldable pub less : ExaminedObject → ExaminedObject → Bool
less e f = ltb f.stamped_object.creation_timestamp e.stamped_object.creation_timestamp

-- sort.Sort, which is given the order.
abbrev pub Sort : Type 0
Sort = (ExaminedObject → ExaminedObject → Bool) → List ExaminedObject → List ExaminedObject

module _ {World : Type 0} (cl : Client World) where
  -- An error of the deletion is only logged.
  unfoldable pub delete_if : Bool → ExaminedObject → State World → State World
  delete_if should_delete e s =
      let deleted = (delete cl e.stamped_object s).1 in if should_delete then deleted else s

  -- The loop counts the successful and the failed objects that it has found.
  cleanup_loop :
      RetentionPolicy
      → (successful_found failed_found : ℕ) → List ExaminedObject
      → State World
      → State World
  unfolding delete_if
  cleanup_loop policy successful failed [] s = s
  cleanup_loop policy successful failed (e ∷ es) s =
      let on_success =
        cleanup_loop policy (suc successful) failed es
          (delete_if (ltb policy.max_successful_runs (suc successful)) e s) in
      let on_failure =
        cleanup_loop policy successful (suc failed) es
          (delete_if (ltb policy.max_failed_runs (suc failed)) e s) in
      let unresolved = cleanup_loop policy successful failed es s in
      if is_true e.health then on_success else if is_false e.health then on_failure else unresolved

  unfoldable pub cleanup_runnable_stamped_objects :
      Sort → List ExaminedObject → RetentionPolicy → State World → State World
  unfolding cleanup_loop
  cleanup_runnable_stamped_objects sort examined policy s =
      cleanup_loop policy 0 0 (sort less examined) s

-- The loop's variables are `latestTime` and `latestMatchingObject`.
latest_loop : List ExaminedObject → ℕ → Option Unstructured → Option Unstructured
latest_loop [] latest found = found
latest_loop (e ∷ es) latest found =
    let t = e.stamped_object.creation_timestamp in
    let skip = latest_loop es latest found in
    let take = latest_loop es t (some e.stamped_object) in
    if not (is_true e.health) then skip else if ltb latest t then take else skip

unfoldable pub get_latest_successful_obj_from_examined_object :
    List ExaminedObject → Option Unstructured
unfolding latest_loop
get_latest_successful_obj_from_examined_object examined = latest_loop examined 0 none
