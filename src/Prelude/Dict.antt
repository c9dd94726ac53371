-- ===== src/Prelude/Dict.antt =====
-- A Go map with string keys, as an association list with at most one entry for a key.
use Prim.Native.String.{String}
use mathlib.Core.Path.{◌≡◌, refl}
use mathlib.Core.List.{List, [], ◌∷◌}
use mathlib.Core.Option.{Option, none, some}
use native.Mathlib.Omega.{arith}
use text.Mathlib.Text.{◌==◌}
use text.Mathlib.TextEquality.{eq_iff}
use mathlib.Core.Logic.{inl, inr}
use mathlib.Core.Bool.{false}
use cartographer.Prelude.Tests.{if◌then◌else◌, Bool-cases, is_some}

abbrev pub Dict {ℓ} : Type ℓ → Type ℓ
Dict V = List (String × V)

module _ {ℓ} {V : Type ℓ} where
  -- m[k], with `none` for a missing key
  unfoldable pub lookup : String → Dict V → Option V
  lookup key [] = none
  lookup key ((name, value) ∷ rest) =
      let later = lookup key rest in if name == key then some value else later

  -- m[k] = v
  unfoldable pub insert : String → V → Dict V → Dict V
  insert key value [] = (key, value) ∷ []
  insert key value ((name, old) ∷ rest) =
      let later = insert key value rest in
      if name == key then (key, value) ∷ rest else (name, old) ∷ later

  -- delete(m, k)
  unfoldable pub erase : String → Dict V → Dict V
  erase k [] = []
  erase k ((j, w) ∷ m) = let rest = erase k m in if j == k then rest else (j, w) ∷ rest

  pub lookup-insert :
      (set sought : String) (value : V) (dict : Dict V)
      → lookup sought (insert set value dict)
        ≡ (if set == sought then some value else lookup sought dict)
  unfolding insert lookup
  lookup-insert set sought value [] = refl
  lookup-insert set sought value ((name, old) ∷ rest) = ground (
    arith,
    lookup-insert set sought value rest,
    eq_iff name set,
    eq_iff name sought,
    eq_iff set sought,
  )

  pub lookup-erase :
      (k j : String) (m : Dict V) → lookup j (erase k m) ≡ (if k == j then none else lookup j m)
  unfolding lookup erase
  lookup-erase k j [] = ground arith
  lookup-erase k j ((i, w) ∷ m) =
      ground (arith, eq_iff k j, eq_iff i k, eq_iff i j, lookup-erase k j m)

  -- Each key has one entry.
  abbrev pub IsMap : Dict V → Type 0
  IsMap [] = Unit
  IsMap ((k, v) ∷ m) = (is_some (lookup k m) ≡ false) × IsMap m

  pub insert-IsMap : (k : String) (v : V) (m : Dict V) → IsMap m → IsMap (insert k v m)
  unfolding insert lookup
  insert-IsMap k v [] h = (refl, tt)
  insert-IsMap k v ((i, w) ∷ m) h = elim (Bool-cases (i == k)) [
    | inl e ↦ rw (e, insert) (rw ((eq_iff i k).0 e) at h.0, h.1)
    | inr e ↦
        rw (e, insert)
          (
            ground (arith, lookup-insert k i v m, eq_iff k i, eq_iff i k, h.0),
            insert-IsMap k v m h.1,
          )
  ]

  pub erase-IsMap : (k : String) (m : Dict V) → IsMap m → IsMap (erase k m)
  unfolding erase lookup
  erase-IsMap k [] h = tt
  erase-IsMap k ((i, w) ∷ m) h = elim (Bool-cases (i == k)) [
    | inl e ↦ rw (e, erase) (erase-IsMap k m h.1)
    | inr e ↦
        rw (e, erase)
          (ground (arith, lookup-erase k i m, eq_iff k i, eq_iff i k, h.0), erase-IsMap k m h.1)
  ]
