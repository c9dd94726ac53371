-- ===== src/Tracker/Watching.antt =====
-- A set of watchers with their expiries: a Go map keyed by namespaced names.
use mathlib.Core.Bool.{◌&&◌}
use cartographer.Prelude.{
  ℕ, String, ◌≡◌, refl, Bool, true, false, Option, none, some, List, [], ◌∷◌, map, any, ◌==◌,
  eq_iff, arith, if◌then◌else◌, is_some, inl, inr, Bool-cases,
}

pub record NamespacedName : Type 0 where
  pub namespace : String
  pub name : String

unfoldable pub same_name : NamespacedName → NamespacedName → Bool
same_name a b = a.namespace == b.namespace && a.name == b.name

abbrev pub Watchers : Type 0
Watchers = List (NamespacedName × ℕ)

unfoldable pub find_watcher : NamespacedName → Watchers → Option ℕ
find_watcher o [] = none
find_watcher o ((p, e) ∷ w) = if same_name p o then some e else find_watcher o w

-- l[o] = e
unfoldable pub insert_watcher : NamespacedName → ℕ → Watchers → Watchers
insert_watcher o e [] = (o, e) ∷ []
insert_watcher o e ((p, d) ∷ w) =
    if same_name p o then (o, e) ∷ w else (p, d) ∷ insert_watcher o e w

-- delete(l, o)
unfoldable pub erase_watcher : NamespacedName → Watchers → Watchers
erase_watcher o [] = []
erase_watcher o ((p, d) ∷ w) =
    let rest = erase_watcher o w in if same_name p o then rest else (p, d) ∷ rest

-- The entries that a test keeps.
unfoldable pub keep_watchers : (NamespacedName → ℕ → Bool) → Watchers → Watchers
keep_watchers f [] = []
keep_watchers f ((p, d) ∷ w) = let rest = keep_watchers f w in if f p d then (p, d) ∷ rest else rest

pub same_name_iff : (a b : NamespacedName) → same_name a b ≡ true → a ≡ b
unfolding same_name
same_name_iff a b h = ground (arith, eq_iff a.namespace b.namespace, eq_iff a.name b.name)

pub same_name_symm : (a b : NamespacedName) → same_name a b ≡ same_name b a
unfolding same_name
same_name_symm a b = ground (
  arith,
  eq_iff a.namespace b.namespace,
  eq_iff a.name b.name,
  eq_iff b.namespace a.namespace,
  eq_iff b.name a.name,
)

pub find-insert :
    (o p : NamespacedName) (e : ℕ) (w : Watchers)
    → find_watcher p (insert_watcher o e w) ≡ (if same_name o p then some e else find_watcher p w)
unfolding find_watcher insert_watcher
find-insert o p e [] = refl
find-insert o p e ((q, d) ∷ w) = ground (
  arith,
  same_name_iff q o,
  same_name_iff q p,
  same_name_iff o p,
  same_name_symm o q,
  find-insert o p e w,
)

pub find-erase :
    (o p : NamespacedName) (w : Watchers)
    → find_watcher p (erase_watcher o w) ≡ (if same_name o p then none else find_watcher p w)
unfolding find_watcher erase_watcher
find-erase o p [] = ground arith
find-erase o p ((q, d) ∷ w) = ground (
  arith,
  same_name_iff q o,
  same_name_iff q p,
  same_name_iff o p,
  same_name_symm o q,
  find-erase o p w,
)

-- Each object has one entry.
abbrev pub IsUnique : Watchers → Type 0
IsUnique [] = Unit
IsUnique ((p, d) ∷ w) = (is_some (find_watcher p w) ≡ false) × IsUnique w

pub insert-IsUnique :
    (o : NamespacedName) (e : ℕ) (w : Watchers) → IsUnique w → IsUnique (insert_watcher o e w)
unfolding insert_watcher find_watcher
insert-IsUnique o e [] h = (refl, tt)
insert-IsUnique o e ((p, d) ∷ w) h = elim (Bool-cases (same_name p o)) [
  | inl s ↦ rw (s, insert_watcher) (rw (same_name_iff p o s) at h.0, h.1)
  | inr s ↦
      rw (s, insert_watcher)
        (ground (arith, find-insert o p e w, same_name_symm o p, h.0), insert-IsUnique o e w h.1)
]

pub erase-IsUnique : (o : NamespacedName) (w : Watchers) → IsUnique w → IsUnique (erase_watcher o w)
unfolding erase_watcher find_watcher
erase-IsUnique o [] h = tt
erase-IsUnique o ((p, d) ∷ w) h = elim (Bool-cases (same_name p o)) [
  | inl s ↦ rw (s, erase_watcher) (erase-IsUnique o w h.1)
  | inr s ↦
      rw (s, erase_watcher)
        (ground (arith, find-erase o p w, same_name_symm o p, h.0), erase-IsUnique o w h.1)
]

-- What is found after a filter, where each object has one entry.
pub find-keep :
    (f : NamespacedName → ℕ → Bool) (o : NamespacedName) (w : Watchers)
    → IsUnique w
    → find_watcher o (keep_watchers f w)
      ≡ elim (find_watcher o w) [ none ↦ none | some e ↦ if f o e then some e else none ]
unfolding find_watcher keep_watchers
find-keep f o [] h = refl
find-keep f o ((p, d) ∷ w) h = ground (arith, find-keep f o w h.1, same_name_iff p o, h.0)

pub keep-IsUnique :
    (f : NamespacedName → ℕ → Bool) (w : Watchers) → IsUnique w → IsUnique (keep_watchers f w)
unfolding find_watcher keep_watchers
keep-IsUnique f [] h = tt
keep-IsUnique f ((p, d) ∷ w) h = elim (Bool-cases (f p d)) [
  | inl s ↦ rw (s, keep_watchers) (ground (arith, find-keep f p w h.1, h.0), keep-IsUnique f w h.1)
  | inr s ↦ rw (s, keep_watchers) (keep-IsUnique f w h.1)
]

-- A list of objects holds one exactly where it is found.
abbrev pub holds : NamespacedName → List NamespacedName → Bool
holds o = any (λ p. same_name p o)

pub holds-find :
    (o : NamespacedName) (w : Watchers) → holds o (map (λ e. e.0) w) ≡ is_some (find_watcher o w)
unfolding find_watcher
holds-find o [] = refl
holds-find o ((p, d) ∷ w) = ground (arith, holds-find o w)
