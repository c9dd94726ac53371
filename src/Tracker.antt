-- ===== src/Tracker.antt =====
-- pkg/tracker/dependency/tracker.go: which objects watch a reference, each for the time of a lease.
-- The lock makes every method one step. The texts of Kubernetes' names (`Key.String`) are the
-- parameter `key_string`, and the times that time.Now returns are arguments.
mod Watching
pub mod View
mod Tests
pub use Watching.{NamespacedName, Watchers, same_name}
use Watching.{insert_watcher, erase_watcher, keep_watchers}
use cartographer.Prelude.{
  ℕ, ◌+◌, String, Bool, true, false, not, Option, none, some, List, [], ◌∷◌, map, ltb, is_nil,
  if◌then◌else◌,
}
use cartographer.Prelude.Dict.{Dict, lookup, insert, erase}

-- schema.GroupKind
pub record GroupKind : Type 0 where
  pub group : String
  pub kind : String

pub record Key : Type 0 where
  pub group_kind : GroupKind
  pub namespaced_name : NamespacedName

-- schema.GroupVersionKind
pub record GroupVersionKind : Type 0 where
  pub group : String
  pub version : String
  pub kind : String

unfoldable pub new_key : GroupVersionKind → NamespacedName → Key
new_key gvk name = record {
  group_kind = record { group = gvk.group; kind = gvk.kind };
  namespaced_name = name;
}

-- `impl`: the mapping from the text of a reference to the objects that watch it
pub record Tracker : Type 0 where
  pub mapping : Dict Watchers
  pub lease_duration : ℕ

unfoldable pub new_dependency_tracker : ℕ → Tracker
new_dependency_tracker lease = record { mapping = []; lease_duration = lease }

-- time.Now().After(expiry)
unfoldable pub is_expired : ℕ → ℕ → Bool
is_expired now expiry = ltb expiry now

or_empty : Option Watchers → Watchers
or_empty none = []
or_empty (some w) = w

pub record LookupResult : Type 0 where
  pub items : List NamespacedName
  pub tracker : Tracker

store_or_delete : String → Watchers → Dict Watchers → Dict Watchers
store_or_delete k w m = if is_nil w then erase k m else insert k w m

clear : NamespacedName → Dict Watchers → Dict Watchers
clear obj [] = []
clear obj ((k, w) ∷ m) =
    let rest = clear obj m in
    let w' = erase_watcher obj w in if is_nil w' then rest else (k, w') ∷ rest

unfoldable pub clear_tracked : NamespacedName → Tracker → Tracker
unfolding clear
clear_tracked obj t = record t { mapping = clear obj t.mapping }

module _ (key_string : Key → String) where
  unfoldable pub track : ℕ → Key → NamespacedName → Tracker → Tracker
  unfolding or_empty
  track now ref obj t =
      let watchers = or_empty (lookup (key_string ref) t.mapping) in
      record t {
        mapping =
            insert (key_string ref) (insert_watcher obj (now + t.lease_duration) watchers)
              t.mapping;
      }

  -- `clock` is the time at which the loop comes to a watcher.
  unfoldable pub lookup_tracked : (NamespacedName → ℕ) → Key → Tracker → LookupResult
  unfolding is_expired store_or_delete
  lookup_tracked clock ref t = elim (lookup (key_string ref) t.mapping) [
    | none ↦ record { items = []; tracker = t }
    | some s ↦
        let live = keep_watchers (λ key expiry. not (is_expired (clock key) expiry)) s in
        record {
          items = map (λ e. e.0) live;
          tracker = record t { mapping = store_or_delete (key_string ref) live t.mapping };
        }
  ]

  -- pkg/enqueuer: a request for each object that watches the changed one. `gvks` is what the
  -- scheme knows of the object's kind; it is never empty without an error. `none` is a panic.
  unfoldable pub enqueue_tracked :
      (NamespacedName → ℕ)
      → Option (List GroupVersionKind)
      → NamespacedName
      → Tracker
      → Option LookupResult
  enqueue_tracked clock none a t = none
  enqueue_tracked clock (some []) a t = none
  enqueue_tracked clock (some (gvk ∷ gvks)) a t = some (lookup_tracked clock (new_key gvk a) t)
