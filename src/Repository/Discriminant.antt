-- ===== src/Repository/Discriminant.antt =====
-- The owner discriminant of labels.
use Prim.Native.Nat.{zero, Ordering, compare as compare_ℕ}
use Prim.Native.Char.{code}
use Prim.Native.String.{◌++◌ as ◌+++◌, compare, then as first_of}
use Prim.Native.Nat.compare as compare_ℕ
use Prim.Native.String.compare
use mathlib.Core.List.Permᴰ
use package.text.Mathlib.Text.{is_le}
use mathlib.Core.List.{Permᴰ}
use cartographer.Prelude.{
  ℕ, suc, String, ◌≡◌, refl, sym, ap, ap₂, ◌∙◌, inl, inr, Bool, true, false, [], ◌∷◌, arith,
  Bool-cases,
}
use cartographer.Prelude.Dict.{Dict}
use cartographer.Repository.{insert_key, sort_keys, join_components, build_owner_discriminant}

unfoldable pub braces : Dict String → String
braces [] = ""
braces (e ∷ m) = ("{" +++ (e.0 +++ (":" +++ (e.1 +++ "}")))) +++ braces m

abbrev pub key_le : String × String → String × String → Bool
key_le e f = is_le (compare e.0 f.0)

-- The first entry, if there is one, has no smaller key.
abbrev pub Leads : String × String → Dict String → Type 0
Leads e [] = Unit {0}
Leads e (f ∷ m) = key_le e f ≡ true

abbrev pub IsOrdered : Dict String → Type 0
IsOrdered [] = Unit {0}
IsOrdered (e ∷ m) = Leads e m × IsOrdered m

-- The components in braces, in the order of their keys.
pub record IsDiscriminant (labels : Dict String) (text : String) : Type 0 where
  pub sorted : Dict String
  pub same : Permᴰ labels sorted
  pub ordered : IsOrdered sorted
  pub written : text ≡ braces sorted

-- The two orders of a comparison.
flip : Ordering → Ordering
flip Ordering.lt = Ordering.gt
flip Ordering.eq = Ordering.eq
flip Ordering.gt = Ordering.lt

flip-compare_ℕ : (m n : ℕ) → compare_ℕ n m ≡ flip (compare_ℕ m n)
unfolding flip
flip-compare_ℕ zero zero = compare_ℕ.zero-zero ∙ sym (ap flip compare_ℕ.zero-zero)
flip-compare_ℕ zero (suc n) = compare_ℕ.suc-zero n ∙ sym (ap flip (compare_ℕ.zero-suc n))
flip-compare_ℕ (suc m) zero = compare_ℕ.zero-suc m ∙ sym (ap flip (compare_ℕ.suc-zero m))
flip-compare_ℕ (suc m) (suc n) =
    compare_ℕ.suc-suc n m ∙ flip-compare_ℕ m n ∙ sym (ap flip (compare_ℕ.suc-suc m n))

flip-first_of : (o r : Ordering) → first_of (flip o) (flip r) ≡ flip (first_of o r)
unfolding flip
flip-first_of Ordering.lt r = refl
flip-first_of Ordering.eq r = refl
flip-first_of Ordering.gt r = refl

flip-compare : (s t : String) → compare t s ≡ flip (compare s t)
unfolding flip
flip-compare String.[] String.[] = compare.nil-nil ∙ sym (ap flip compare.nil-nil)
flip-compare String.[] (String.◌∷◌ d t) =
    compare.cons-nil d t ∙ sym (ap flip (compare.nil-cons d t))
flip-compare (String.◌∷◌ c s) String.[] =
    compare.nil-cons c s ∙ sym (ap flip (compare.cons-nil c s))
flip-compare (String.◌∷◌ c s) (String.◌∷◌ d t) =
    compare.cons-cons d c t s
    ∙ ap₂ first_of (flip-compare_ℕ (code c) (code d)) (flip-compare s t)
    ∙ flip-first_of (compare_ℕ (code c) (code d)) (compare s t)
    ∙ sym (ap flip (compare.cons-cons c d s t))

flip-is_le : (o : Ordering) → is_le o ≡ false → is_le (flip o) ≡ true
unfolding flip
flip-is_le Ordering.lt h = absurd (ground (arith, h))
flip-is_le Ordering.eq h = absurd (ground (arith, h))
flip-is_le Ordering.gt h = refl

key_le_total : (e f : String × String) → key_le e f ≡ false → key_le f e ≡ true
key_le_total e f h = ap is_le (flip-compare e.0 f.0) ∙ flip-is_le (compare e.0 f.0) h

insert_key-Leads :
    (e f : String × String) (m : Dict String)
    → key_le f e ≡ true
    → Leads f m
    → Leads f (insert_key e m)
unfolding insert_key
insert_key-Leads e f [] h l = h
insert_key-Leads e f (g ∷ m) h l = elim (Bool-cases (key_le e g)) [
  | inl le ↦ rw (le, insert_key) h
  | inr gt ↦ rw (gt, insert_key) l
]

insert_key-IsOrdered :
    (e : String × String) (m : Dict String) → IsOrdered m → IsOrdered (insert_key e m)
unfolding insert_key
insert_key-IsOrdered e [] h = (tt, tt)
insert_key-IsOrdered e (f ∷ m) h = elim (Bool-cases (key_le e f)) [
  | inl le ↦ rw (le, insert_key) (le, h)
  | inr gt ↦
      rw (gt, insert_key)
        (insert_key-Leads e f m (key_le_total e f gt) h.0, insert_key-IsOrdered e m h.1)
]

insert_key-perm : (e : String × String) (m : Dict String) → Permᴰ (e ∷ m) (insert_key e m)
unfolding insert_key
insert_key-perm e [] = Permᴰ.refl (e ∷ [])
insert_key-perm e (f ∷ m) = elim (Bool-cases (key_le e f)) [
  | inl le ↦ rw (le, insert_key) (Permᴰ.refl (e ∷ f ∷ m))
  | inr gt ↦
      rw (gt, insert_key)
        (Permᴰ.trans (Permᴰ.swap refl refl) (Permᴰ.cons refl (insert_key-perm e m)))
]

sort_keys-IsOrdered : (m : Dict String) → IsOrdered (sort_keys m)
unfolding sort_keys
sort_keys-IsOrdered [] = tt
sort_keys-IsOrdered (e ∷ m) = insert_key-IsOrdered e (sort_keys m) (sort_keys-IsOrdered m)

sort_keys-perm : (m : Dict String) → Permᴰ m (sort_keys m)
unfolding sort_keys
sort_keys-perm [] = Permᴰ.nil
sort_keys-perm (e ∷ m) =
    Permᴰ.trans (Permᴰ.cons refl (sort_keys-perm m)) (insert_key-perm e (sort_keys m))

join_components-braces : (m : Dict String) → join_components m ≡ braces m
unfolding join_components braces
join_components-braces [] = refl
join_components-braces ((k, v) ∷ m) =
    ap (λ rest. ("{" +++ (k +++ (":" +++ (v +++ "}")))) +++ rest) (join_components-braces m)

pub build_owner_discriminant-IsDiscriminant :
    (labels : Dict String) → IsDiscriminant labels (build_owner_discriminant labels)
unfolding build_owner_discriminant
build_owner_discriminant-IsDiscriminant labels = record {
  sorted = sort_keys labels;
  same = sort_keys-perm labels;
  ordered = sort_keys-IsOrdered labels;
  written = join_components-braces (sort_keys labels);
}
