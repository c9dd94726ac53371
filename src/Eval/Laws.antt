-- ===== src/Eval/Laws.antt =====
-- What `ensureValidWrapping` makes of a path.
use Prim.Native.String.{◌++◌ as ◌+++◌}
use package.text.Mathlib.TextEquality.{starts_with_iff}
use package.text.Mathlib.TextPositions.{starts_with-append}
use package.text.Mathlib.TextLemmas.{cons-append, nil-append, append_assoc}
use cartographer.Prelude.{
  String, ◌≡◌, refl, sym, inl, inr, not, if◌then◌else◌, Bool, true, false, ◌||◌, subst, Bool-cases,
  ◌==◌, eq_refl,
}
use cartographer.Eval.{has_prefix, has_suffix, wrap_front, wrap_back, ensure_valid_wrapping}

or_true : (b : Bool) → (b || true) ≡ true
or_true true = refl
or_true false = refl

has_suffix_self : (t : String) → has_suffix t t ≡ true
unfolding has_suffix
has_suffix_self String.[] = refl
has_suffix_self (String.◌∷◌ c s) = rw (eq_refl (String.◌∷◌ c s))

has_suffix-append : (s t : String) → has_suffix (s +++ t) t ≡ true
unfolding has_suffix
has_suffix-append String.[] t = rw (nil-append t) (has_suffix_self t)
has_suffix-append (String.◌∷◌ c s) t =
    rw (cons-append c s t, has_suffix-append s t) (or_true (String.◌∷◌ c (s +++ t) == t))

has_prefix_wrap : (p : String) → has_prefix p "." ≡ true → has_prefix ("{" +++ p) "{." ≡ true
has_prefix_wrap p h =
    let (u, e) = (starts_with_iff p ".").0 h in
    subst (λ q. has_prefix ("{" +++ q) "{." ≡ true) e
      (subst (λ q. has_prefix q "{." ≡ true) (append_assoc "{" "." u) (starts_with-append "{." u))

has_prefix-append : (s t p : String) → has_prefix s p ≡ true → has_prefix (s +++ t) p ≡ true
has_prefix-append s t p h =
    let (u, e) = (starts_with_iff s p).0 h in
    subst (λ q. has_prefix (q +++ t) p ≡ true) e
      (subst (λ q. has_prefix q p ≡ true) (sym (append_assoc p u t))
        (starts_with-append p (u +++ t)))

wrap_front-has_prefix : (p : String) → has_prefix (wrap_front p) "{." ≡ true
unfolding wrap_front
wrap_front-has_prefix p = elim (Bool-cases (has_prefix p "{.")) [
  | inl e ↦ rw (e, wrap_front) e
  | inr e ↦ rw (e, wrap_front) (first_dot e)
]
  where
    first_dot :
        has_prefix p "{." ≡ false
        → has_prefix (if not (has_prefix p ".") then "{." +++ p else "{" +++ p) "{." ≡ true
    first_dot e = elim (Bool-cases (has_prefix p ".")) [
      | inl d ↦ rw d (has_prefix_wrap p d)
      | inr d ↦ rw d (starts_with-append "{." p)
    ]

wrap_back-has_prefix :
    (p : String) → has_prefix p "{." ≡ true → has_prefix (wrap_back p) "{." ≡ true
unfolding wrap_back
wrap_back-has_prefix p h = elim (Bool-cases (has_suffix p "}")) [
  | inl e ↦ rw (e, wrap_back) h
  | inr e ↦ rw (e, wrap_back) (has_prefix-append p "}" "{." h)
]

wrap_back-has_suffix : (p : String) → has_suffix (wrap_back p) "}" ≡ true
unfolding wrap_back
wrap_back-has_suffix p = elim (Bool-cases (has_suffix p "}")) [
  | inl e ↦ rw (e, wrap_back) e
  | inr e ↦ rw (e, wrap_back) (has_suffix-append p "}")
]

-- Whatever the path, the expression handed to the jsonpath library begins with `{.` and ends with
-- `}`, and wrapping it once more changes nothing.
pub ensure_valid_wrapping_lem :
    (path : String)
    → (has_prefix (ensure_valid_wrapping path) "{." ≡ true)
      × (has_suffix (ensure_valid_wrapping path) "}" ≡ true)
      × (ensure_valid_wrapping (ensure_valid_wrapping path) ≡ ensure_valid_wrapping path)
ensure_valid_wrapping_lem path = (front, back, again (ensure_valid_wrapping path) front back)
  where
    front : has_prefix (ensure_valid_wrapping path) "{." ≡ true
    front = unfold ensure_valid_wrapping in wrap_back-has_prefix _ (wrap_front-has_prefix path)

    back : has_suffix (ensure_valid_wrapping path) "}" ≡ true
    back = unfold ensure_valid_wrapping in wrap_back-has_suffix (wrap_front path)

    again :
        (s : String)
        → has_prefix s "{." ≡ true
        → has_suffix s "}" ≡ true
        → ensure_valid_wrapping s ≡ s
    again s f b =
        unfold ensure_valid_wrapping wrap_front wrap_back in rw (f, wrap_front) (rw (b, wrap_back))
