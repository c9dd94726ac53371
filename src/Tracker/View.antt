-- ===== src/Tracker/View.antt =====
-- The tracker as a table: when the watch of an object on a reference expires.
pub mod Steps
use cartographer.Prelude.{
  ℕ, ◌+◌, ◌≡◌, refl, subst, String, Bool, true, false, not, ◌&&◌, Option, none, some, [], ◌∷◌, All,
  arith, is_nil, is_some, ◌==◌, eq_iff, if◌then◌else◌, inl, inr, Bool-cases, Option-cases,
}
use cartographer.Prelude.Dict.{
  Dict, lookup, insert, erase, lookup-insert, lookup-erase, IsMap, insert-IsMap, erase-IsMap,
}
use cartographer.Tracker.Watching.{
  NamespacedName, Watchers, same_name, find_watcher, insert_watcher, erase_watcher, keep_watchers,
  find-insert, find-erase, find-keep, IsUnique, insert-IsUnique, erase-IsUnique, keep-IsUnique,
  holds, holds-find,
}
use cartographer.Tracker.{
  Key, Tracker, new_dependency_tracker, is_expired, or_empty, store_or_delete, clear, track,
  lookup_tracked, clear_tracked,
}

abbrev watch_in : NamespacedName → Option Watchers → Option ℕ
watch_in o none = none
watch_in o (some w) = find_watcher o w

-- When the watch of `o` on the reference of a text expires, if it has one.
unfoldable pub view : Tracker → String → NamespacedName → Option ℕ
view t k o = watch_in o (lookup k t.mapping)

-- A reference that nothing watches has no entry, and a watcher has one.
abbrev Filled : Watchers → Type 0
Filled w = IsUnique w × (is_nil w ≡ false)

pub record IsWellFormed (t : Tracker) : Type 0 where
  pub is_map : IsMap t.mapping
  pub filled : All (λ e. Filled e.1) t.mapping

lookup-Filled :
    (k : String) (m : Dict Watchers)
    → All (λ e. Filled e.1) m
    → (w : Watchers) → lookup k m ≡ some w
    → Filled w
unfolding lookup
lookup-Filled k [] h w e = absurd (ground arith)
lookup-Filled k ((j, v) ∷ m) h w e = elim (Bool-cases (j == k)) [
  | inl s ↦ let same : v ≡ w = ground arith in subst Filled same h.0
  | inr s ↦ lookup-Filled k m h.1 w (ground arith)
]

insert-All :
    (k : String) (w : Watchers) (m : Dict Watchers)
    → Filled w
    → All (λ e. Filled e.1) m
    → All (λ e. Filled e.1) (insert k w m)
unfolding insert
insert-All k w [] f h = (f, tt)
insert-All k w ((j, v) ∷ m) f h = elim (Bool-cases (j == k)) [
  | inl s ↦ rw (s, insert) (f, h.1)
  | inr s ↦ rw (s, insert) (h.0, insert-All k w m f h.1)
]

erase-All :
    (k : String) (m : Dict Watchers) → All (λ e. Filled e.1) m → All (λ e. Filled e.1) (erase k m)
unfolding erase
erase-All k [] h = tt
erase-All k ((j, v) ∷ m) h = elim (Bool-cases (j == k)) [
  | inl s ↦ rw (s, erase) (erase-All k m h.1)
  | inr s ↦ rw (s, erase) (h.0, erase-All k m h.1)
]

insert-filled : (o : NamespacedName) (e : ℕ) (w : Watchers) → is_nil (insert_watcher o e w) ≡ false
unfolding insert_watcher
insert-filled o e [] = refl
insert-filled o e ((p, d) ∷ w) = ground arith

nil-find : (o : NamespacedName) (w : Watchers) → is_nil w ≡ true → find_watcher o w ≡ none
unfolding find_watcher
nil-find o [] h = refl
nil-find o (e ∷ w) h = absurd (ground arith)

module _ (obj o : NamespacedName) where
  watch_in-clear :
      (k : String) (m : Dict Watchers)
      → IsMap m
      → watch_in o (lookup k (clear obj m))
        ≡ (if same_name obj o then none else watch_in o (lookup k m))
  unfolding clear lookup
  watch_in-clear k [] h = ground arith
  watch_in-clear k ((j, w) ∷ m) h = ground (
    arith,
    watch_in-clear k m h.1,
    find-erase obj o w,
    nil-find o (erase_watcher obj w),
    eq_iff j k,
    h.0,
  )

  lookup-clear :
      (k : String) (m : Dict Watchers)
      → is_some (lookup k m) ≡ false
      → is_some (lookup k (clear obj m)) ≡ false
  unfolding clear lookup
  lookup-clear k [] h = h
  lookup-clear k ((j, w) ∷ m) h = ground (arith, lookup-clear k m)

or_empty-IsUnique :
    (o : Option Watchers) → ((w : Watchers) → o ≡ some w → IsUnique w) → IsUnique (or_empty o)
unfolding or_empty
or_empty-IsUnique none h = tt
or_empty-IsUnique (some w) h = h w refl

store_or_delete-IsWellFormed :
    (k : String) (w : Watchers) (t : Tracker)
    → IsWellFormed t
    → IsUnique w
    → IsWellFormed (record t { mapping = store_or_delete k w t.mapping })
unfolding store_or_delete
store_or_delete-IsWellFormed k w t wf u = elim (Bool-cases (is_nil w)) [
  | inl s ↦
      rw (s, store_or_delete)
        (record {
          is_map = erase-IsMap k t.mapping wf.is_map;
          filled = erase-All k t.mapping wf.filled;
        })
  | inr s ↦
      rw (s, store_or_delete)
        (record {
          is_map = insert-IsMap k w t.mapping wf.is_map;
          filled = insert-All k w t.mapping (u, s) wf.filled;
        })
]

clear-IsMap : (obj : NamespacedName) (m : Dict Watchers) → IsMap m → IsMap (clear obj m)
unfolding clear
clear-IsMap obj [] h = tt
clear-IsMap obj ((k, w) ∷ m) h = elim (Bool-cases (is_nil (erase_watcher obj w))) [
  | inl s ↦ rw (s, clear) (clear-IsMap obj m h.1)
  | inr s ↦ rw (s, clear) (lookup-clear obj obj k m h.0, clear-IsMap obj m h.1)
]

clear-All :
    (obj : NamespacedName) (m : Dict Watchers)
    → All (λ e. Filled e.1) m
    → All (λ e. Filled e.1) (clear obj m)
unfolding clear
clear-All obj [] h = tt
clear-All obj ((k, w) ∷ m) h = elim (Bool-cases (is_nil (erase_watcher obj w))) [
  | inl s ↦ rw (s, clear) (clear-All obj m h.1)
  | inr s ↦ rw (s, clear) ((erase-IsUnique obj w h.0.0, s), clear-All obj m h.1)
]

clear_tracked-IsWellFormed :
    (obj : NamespacedName) (t : Tracker) → IsWellFormed t → IsWellFormed (clear_tracked obj t)
unfolding clear_tracked
clear_tracked-IsWellFormed obj t wf = record {
  is_map = clear-IsMap obj t.mapping wf.is_map;
  filled = clear-All obj t.mapping wf.filled;
}

-- In a well-formed tracker, clearing an object removes all of its watches and no other.
pub view-clear_tracked :
    (obj : NamespacedName) (t : Tracker) (k : String) (o : NamespacedName)
    → IsWellFormed t
    → view (clear_tracked obj t) k o ≡ (if same_name obj o then none else view t k o)
unfolding view clear_tracked
view-clear_tracked obj t k o wf = watch_in-clear obj o k t.mapping wf.is_map

module _ (key_string : Key → String) where
  -- Tracking sets the watch of the object on the reference to expire a lease from now, and changes no
  -- other watch.
  pub view-track :
      (now : ℕ) (ref : Key) (obj : NamespacedName) (t : Tracker) (k : String) (o : NamespacedName)
      → view (track key_string now ref obj t) k o ≡ (
          if key_string ref == k && same_name obj o
          then some (now + t.lease_duration)
          else view t k o)
  unfolding view track or_empty find_watcher
  view-track now ref obj t k o = ground (
    arith,
    eq_iff (key_string ref) k,
    lookup-insert (key_string ref) k
        (insert_watcher obj (now + t.lease_duration) (or_empty (lookup (key_string ref) t.mapping)))
        t.mapping,
    find-insert obj o (now + t.lease_duration) (or_empty (lookup (key_string ref) t.mapping)),
  )

  track-IsWellFormed :
      (now : ℕ) (ref : Key) (obj : NamespacedName) (t : Tracker)
      → IsWellFormed t
      → IsWellFormed (track key_string now ref obj t)
  unfolding track
  track-IsWellFormed now ref obj t wf = record {
    is_map = insert-IsMap (key_string ref) _ t.mapping wf.is_map;
    filled =
        insert-All (key_string ref) _ t.mapping
          (
            insert-IsUnique obj (now + t.lease_duration) _ (
                or_empty-IsUnique (lookup (key_string ref) t.mapping)
                  (λ w e. (lookup-Filled (key_string ref) t.mapping wf.filled w e).0)),
            insert-filled obj (now + t.lease_duration) _,
          )
          wf.filled;
  }

  abbrev pub live : (NamespacedName → ℕ) → NamespacedName → ℕ → Bool
  live clock p e = not (is_expired (clock p) e)

  -- In a well-formed tracker, a lookup returns exactly the objects that watch the reference and whose
  -- watch has not expired when the loop comes to it.
  pub items-lookup_tracked :
      (clock : NamespacedName → ℕ) (ref : Key) (t : Tracker) (o : NamespacedName)
      → IsWellFormed t
      → holds o (lookup_tracked key_string clock ref t).items
        ≡ elim (view t (key_string ref) o) [ none ↦ false | some e ↦ live clock o e ]
  unfolding lookup_tracked view find_watcher
  items-lookup_tracked clock ref t o wf = elim (Option-cases (lookup (key_string ref) t.mapping)) [
    | inl e ↦ ground arith
    | inr (w, e) ↦
        let unique = (lookup-Filled (key_string ref) t.mapping wf.filled w e).0 in
        ground
          (arith, holds-find o (keep_watchers (live clock) w), find-keep (live clock) o w unique)
  ]

  -- In a well-formed tracker, a lookup forgets the expired watches on its reference, and keeps every
  -- other watch with its expiry.
  pub view-lookup_tracked :
      (clock : NamespacedName → ℕ) (ref : Key) (t : Tracker) (k : String) (o : NamespacedName)
      → IsWellFormed t
      → view (lookup_tracked key_string clock ref t).tracker k o ≡ elim (view t k o) [
        | none ↦ none
        | some e ↦ if key_string ref == k && is_expired (clock o) e then none else some e
      ]
  unfolding lookup_tracked view store_or_delete
  view-lookup_tracked clock ref t k o wf = elim (Option-cases (lookup (key_string ref) t.mapping)) [
    | inl e ↦ ground (arith, eq_iff (key_string ref) k)
    | inr (w, e) ↦
        let unique = (lookup-Filled (key_string ref) t.mapping wf.filled w e).0 in
        ground (
          arith,
          eq_iff (key_string ref) k,
          find-keep (live clock) o w unique,
          nil-find o (keep_watchers (live clock) w),
          lookup-erase (key_string ref) k t.mapping,
          lookup-insert (key_string ref) k (keep_watchers (live clock) w) t.mapping,
        )
  ]

  lookup_tracked-IsWellFormed :
      (clock : NamespacedName → ℕ) (ref : Key) (t : Tracker)
      → IsWellFormed t
      → IsWellFormed (lookup_tracked key_string clock ref t).tracker
  unfolding lookup_tracked
  lookup_tracked-IsWellFormed clock ref t wf =
      elim (Option-cases (lookup (key_string ref) t.mapping)) [
        | inl e ↦ rw (e, lookup_tracked) wf
        | inr (w, e) ↦
            let unique = (lookup-Filled (key_string ref) t.mapping wf.filled w e).0 in
            rw (e, lookup_tracked)
              (store_or_delete-IsWellFormed (key_string ref) (keep_watchers (live clock) w) t wf
                (keep-IsUnique (live clock) w unique))
      ]
