-- ===== src/Tracker/View/Steps.antt =====
-- The tracker over any sequence of calls.
use cartographer.Prelude.{ℕ, String}
use cartographer.Tracker.{
  NamespacedName, Key, Tracker, new_dependency_tracker, track, lookup_tracked, clear_tracked,
}
use cartographer.Tracker.View.{
  IsWellFormed, track-IsWellFormed, lookup_tracked-IsWellFormed, clear_tracked-IsWellFormed,
}

module _ (key_string : Key → String) where
  -- The methods, in any order and at any times.
  pub data Step : Tracker → Tracker → Type 0 where
    tracked :
        (now : ℕ) (ref : Key) (obj : NamespacedName) (t : Tracker)
        → Step t (track key_string now ref obj t)
    looked_up :
        (clock : NamespacedName → ℕ) (ref : Key) (t : Tracker)
        → Step t (lookup_tracked key_string clock ref t).tracker
    cleared : (obj : NamespacedName) (t : Tracker) → Step t (clear_tracked obj t)

  pub data Reach (lease : ℕ) : Tracker → Type 0 where
    created : Reach lease (new_dependency_tracker lease)
    next : {t u : Tracker} → Reach lease t → Step t u → Reach lease u

  Step-IsWellFormed : {t u : Tracker} → Step t u → IsWellFormed t → IsWellFormed u
  Step-IsWellFormed (tracked now ref obj t) wf = track-IsWellFormed key_string now ref obj t wf
  Step-IsWellFormed (looked_up clock ref t) wf =
      lookup_tracked-IsWellFormed key_string clock ref t wf
  Step-IsWellFormed (cleared obj t) wf = clear_tracked-IsWellFormed obj t wf

  -- Whatever methods were called, each reference that has an entry has a watcher, and each object
  -- has at most one expiry for a reference.
  pub Reach-IsWellFormed : {lease : ℕ} {t : Tracker} → Reach lease t → IsWellFormed t
  unfolding new_dependency_tracker
  Reach-IsWellFormed created = record { is_map = tt; filled = tt }
  Reach-IsWellFormed (next r s) = Step-IsWellFormed s (Reach-IsWellFormed r)
