-- ===== src/Tracker/Tests.antt =====
-- Runs of the tracker, with a lease of ten ticks.
use cartographer.Prelude.{ℕ, ◌≡◌, ◌&&◌, String, some, none, ◌==◌, if◌then◌else◌}
use cartographer.Tracker.{
  Key, Tracker, NamespacedName, new_dependency_tracker, track, lookup_tracked, is_expired,
}
use cartographer.Tracker.View.{view, IsWellFormed, view-lookup_tracked}
use cartographer.Tracker.View.Steps.{tracked, Reach, created, next, Reach-IsWellFormed}

abbrev by_kind : Key → String
by_kind k = k.group_kind.kind

abbrev image : Key
image = record {
  group_kind = record { group = "kpack.io"; kind = "Image" };
  namespaced_name = record { namespace = "dev"; name = "web" };
}

abbrev web : NamespacedName
web = record { namespace = "dev"; name = "web" }

abbrev api : NamespacedName
api = record { namespace = "dev"; name = "api" }

abbrev empty : Tracker
empty = new_dependency_tracker 10

abbrev watched : Tracker
watched = track by_kind 3 image web (track by_kind 1 image api empty)

watched-Reach : Reach by_kind 10 watched
watched-Reach =
    next (next created (tracked 1 image api empty))
      (tracked 3 image web (track by_kind 1 image api empty))

watched-IsWellFormed : IsWellFormed watched
watched-IsWellFormed = Reach-IsWellFormed by_kind watched-Reach

abbrev noon : NamespacedName → ℕ
noon o = 12

Reach-IsWellFormed_example : IsWellFormed watched
Reach-IsWellFormed_example = Reach-IsWellFormed by_kind watched-Reach

view-lookup_tracked_example :
    view (lookup_tracked by_kind noon image watched).tracker "Image" api
    ≡ elim (view watched "Image" api) [
      | none ↦ none
      | some e ↦ if by_kind image == "Image" && is_expired (noon api) e then none else some e
    ]
view-lookup_tracked_example =
    view-lookup_tracked by_kind noon image watched "Image" api watched-IsWellFormed
