-- ===== src/Runnable/Latest.antt =====
-- Which object is read.
use cartographer.Prelude.{
  ℕ, ◌≤◌, ◌≡◌, refl, sym, true, false, Option, none, some, List, [], ◌∷◌, ltb, arith, ◌⊎◌, inl, inr,
  Bool-cases, subst,
}
use cartographer.Conditions.{is_true}
use cartographer.Repository.Cache.{Unstructured}
use cartographer.Runnable.{
  ExaminedObject, latest_loop, get_latest_successful_obj_from_examined_object,
}

-- The object of a successful run, of all runs.
abbrev pub IsSuccess : Unstructured → List ExaminedObject → Type 0
IsSuccess o [] = ⊥
IsSuccess o (e ∷ es) = ((e.stamped_object ≡ o) × (is_true e.health ≡ true)) ⊎ IsSuccess o es

-- No successful run is newer.
abbrev pub AreUpTo : ℕ → List ExaminedObject → Type 0
AreUpTo t [] = Unit
AreUpTo t (e ∷ es) =
    ((is_true e.health ≡ false) ⊎ (e.stamped_object.creation_timestamp ≤ t)) × AreUpTo t es

abbrev pub time_of : Option Unstructured → ℕ
time_of none = 0
time_of (some o) = o.creation_timestamp

-- The outcome of the loop that starts at a found object.
abbrev Comes : Option Unstructured → List ExaminedObject → Option Unstructured → Type 0
Comes found es none = found ≡ none
Comes found es (some o) = (found ≡ some o) ⊎ IsSuccess o es

Comes-later :
    (e : ExaminedObject) (found : Option Unstructured) (es : List ExaminedObject)
    (r : Option Unstructured)
    → Comes found es r
    → Comes found (e ∷ es) r
Comes-later e found es none h = h
Comes-later e found es (some o) (inl h) = inl h
Comes-later e found es (some o) (inr h) = inr (inr h)

Comes-taken :
    (e : ExaminedObject) (found : Option Unstructured) (es : List ExaminedObject)
    (r : Option Unstructured)
    → is_true e.health ≡ true
    → Comes (some e.stamped_object) es r
    → Comes found (e ∷ es) r
Comes-taken e found es none h c = absurd (ground (arith, c))
Comes-taken e found es (some o) h (inl c) = inr (inl (ground (arith, c), h))
Comes-taken e found es (some o) h (inr c) = inr (inr c)

abbrev IsLatest : Option Unstructured → List ExaminedObject → Option Unstructured → Type 0
IsLatest found es r = Comes found es r × AreUpTo (time_of r) es × (time_of found ≤ time_of r)

-- The loop passes over an object, or takes it.
module _ (e : ExaminedObject) (es : List ExaminedObject) (found : Option Unstructured) where
  latest_loop-skip :
      (is_true e.health ≡ false) ⊎ (e.stamped_object.creation_timestamp ≤ time_of found)
      → latest_loop (e ∷ es) (time_of found) found ≡ latest_loop es (time_of found) found
  unfolding latest_loop
  latest_loop-skip (inl h) = ground arith
  latest_loop-skip (inr h) = ground arith

  latest_loop-take :
      is_true e.health ≡ true
      → ltb (time_of found) e.stamped_object.creation_timestamp ≡ true
      → latest_loop (e ∷ es) (time_of found) found
        ≡ latest_loop es e.stamped_object.creation_timestamp (some e.stamped_object)
  unfolding latest_loop
  latest_loop-take h newer = ground arith

  skipped :
      (is_true e.health ≡ false) ⊎ (e.stamped_object.creation_timestamp ≤ time_of found)
      → IsLatest found es (latest_loop es (time_of found) found)
      → IsLatest found (e ∷ es) (latest_loop (e ∷ es) (time_of found) found)
  skipped why (c, up, le) =
      subst (IsLatest found (e ∷ es)) (sym (latest_loop-skip why))
        (Comes-later e found es (latest_loop es (time_of found) found) c, (passed why, up), le)
    where
      passed :
          (is_true e.health ≡ false) ⊎ (e.stamped_object.creation_timestamp ≤ time_of found)
          → (is_true e.health ≡ false)
            ⊎ (e.stamped_object.creation_timestamp ≤ time_of (latest_loop es (time_of found) found))
      passed (inl h) = inl h
      passed (inr h) = inr (omega (arith, h, le))

latest_loop-IsLatest :
    (es : List ExaminedObject) (found : Option Unstructured)
    → IsLatest found es (latest_loop es (time_of found) found)
latest_loop-IsLatest [] none = unfold latest_loop in (refl, tt, omega arith)
latest_loop-IsLatest [] (some o) = unfold latest_loop in (inl refl, tt, omega arith)
latest_loop-IsLatest (e ∷ es) found = elim (Bool-cases (is_true e.health)) [
  | inr h ↦ skipped e es found (inl h) (latest_loop-IsLatest es found)
  | inl h ↦ elim (Bool-cases (ltb (time_of found) e.stamped_object.creation_timestamp)) [
    | inr older ↦ skipped e es found (inr (ground (arith, older))) (latest_loop-IsLatest es found)
    | inl newer ↦
        let (c, up, le) = latest_loop-IsLatest es (some e.stamped_object) in
        let late : time_of found ≤ e.stamped_object.creation_timestamp = ground (arith, newer) in
        subst (IsLatest found (e ∷ es)) (sym (latest_loop-take e es found h newer)) (
          Comes-taken e found es
              (latest_loop es e.stamped_object.creation_timestamp (some e.stamped_object)) h c,
          (inr le, up),
          omega (arith, late, le),
        )
  ]
]

-- What is read is the object of a successful run, and no successful run is newer; where nothing is
-- read, no successful run has a creation time after the zero time.
pub get_latest_successful_obj_lem :
    (es : List ExaminedObject)
    → AreUpTo (time_of (get_latest_successful_obj_from_examined_object es)) es
      × ((o : Unstructured)
          → get_latest_successful_obj_from_examined_object es ≡ some o
          → IsSuccess o es)
unfolding get_latest_successful_obj_from_examined_object
get_latest_successful_obj_lem es =
    let (c, up, le) = latest_loop-IsLatest es none in
    (up, λ o h. from_success o (subst (Comes none es) h c))
  where
    from_success : (o : Unstructured) → Comes none es (some o) → IsSuccess o es
    from_success o (inl h) = absurd (ground (arith, h))
    from_success o (inr h) = h
