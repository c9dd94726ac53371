-- ===== src/Runnable/Cleanup.antt =====
-- Which objects the clean-up deletes.
use cartographer.Prelude.{
  ℕ, zero, suc, ◌-◌, ◌≡◌, refl, sym, ap, ◌∙◌, Bool, true, not, ◌&&◌, List, [], ◌∷◌, ltb,
  if◌then◌else◌, arith, Bool-cases, inl, inr,
}
use cartographer.Conditions.{Status, is_true, is_false}
use cartographer.Validation.Template.{RetentionPolicy}
use cartographer.Repository.{Client, State}
use cartographer.Runnable.{
  ExaminedObject, Sort, less, delete_if, cleanup_loop, cleanup_runnable_stamped_objects,
}

-- The objects whose health passes a test, in their order.
unfoldable pub with_health : (Status → Bool) → List ExaminedObject → List ExaminedObject
with_health test [] = []
with_health test (e ∷ es) =
    let rest = with_health test es in if test e.health then e ∷ rest else rest

unfoldable pub drop : ℕ → List ExaminedObject → List ExaminedObject
drop zero es = es
drop (suc n) [] = []
drop (suc n) (e ∷ es) = drop n es

abbrev pub is_unresolved : Status → Bool
is_unresolved s = not (is_true s) && not (is_false s)

unfoldable deleted : RetentionPolicy → ℕ → ℕ → List ExaminedObject → List ExaminedObject
deleted p s f [] = []
deleted p s f (e ∷ es) =
    let succeeded = deleted p (suc s) f es in
    let failed = deleted p s (suc f) es in
    let other = deleted p s f es in
    if is_true e.health
    then (if ltb p.max_successful_runs (suc s) then e ∷ succeeded else succeeded)
    else if is_false e.health
    then (if ltb p.max_failed_runs (suc f) then e ∷ failed else failed)
    else other

drop-step :
    (m s : ℕ) (e : ExaminedObject) (es : List ExaminedObject)
    → drop (m - s) (e ∷ es)
      ≡ (if ltb m (suc s) then e ∷ drop (m - suc s) es else drop (m - suc s) es)
unfolding drop
drop-step m s e es = elim (Bool-cases (ltb m (suc s))) [
  | inl h ↦
      let z : m - s ≡ 0 = ground (arith, h) in
      let z' : m - suc s ≡ 0 = ground (arith, h) in rw (z, z', h) refl
  | inr h ↦ let z : m - s ≡ suc (m - suc s) = ground (arith, h) in rw (z, h) refl
]

drop-nil : (n : ℕ) → drop n [] ≡ []
unfolding drop
drop-nil zero = refl
drop-nil (suc n) = refl

successful-deleted :
    (p : RetentionPolicy) (s f : ℕ) (es : List ExaminedObject)
    → with_health is_true (deleted p s f es)
      ≡ drop (p.max_successful_runs - s) (with_health is_true es)
unfolding with_health deleted
successful-deleted p s f [] = sym (drop-nil (p.max_successful_runs - s))
successful-deleted p s f (e ∷ es) = ground (
  arith,
  successful-deleted p (suc s) f es,
  successful-deleted p s (suc f) es,
  successful-deleted p s f es,
  drop-step p.max_successful_runs s e (with_health is_true es),
)

failed-deleted :
    (p : RetentionPolicy) (s f : ℕ) (es : List ExaminedObject)
    → with_health is_false (deleted p s f es)
      ≡ drop (p.max_failed_runs - f) (with_health is_false es)
unfolding with_health deleted
failed-deleted p s f [] = sym (drop-nil (p.max_failed_runs - f))
failed-deleted p s f (e ∷ es) = ground (
  arith,
  failed-deleted p (suc s) f es,
  failed-deleted p s (suc f) es,
  failed-deleted p s f es,
  drop-step p.max_failed_runs f e (with_health is_false es),
)

unresolved-deleted :
    (p : RetentionPolicy) (s f : ℕ) (es : List ExaminedObject)
    → with_health is_unresolved (deleted p s f es) ≡ []
unfolding with_health deleted
unresolved-deleted p s f [] = refl
unresolved-deleted p s f (e ∷ es) = ground (
  arith,
  unresolved-deleted p (suc s) f es,
  unresolved-deleted p s (suc f) es,
  unresolved-deleted p s f es,
)

-- One object comes before another where it was created later.
abbrev pub newest_first : ExaminedObject → ExaminedObject → Bool
newest_first e f = ltb f.stamped_object.creation_timestamp e.stamped_object.creation_timestamp

-- What the clean-up deletes of the sorted objects.
pub record IsRetained (p : RetentionPolicy) (sorted deleted : List ExaminedObject) : Type 0 where
  pub successful :
      with_health is_true deleted ≡ drop p.max_successful_runs (with_health is_true sorted)
  pub failed : with_health is_false deleted ≡ drop p.max_failed_runs (with_health is_false sorted)
  pub unresolved : with_health is_unresolved deleted ≡ []

module _ {World : Type 0} (cl : Client World) where
  unfoldable pub delete_all : List ExaminedObject → State World → State World
  delete_all [] s = s
  delete_all (e ∷ es) s = delete_all es (delete_if cl true e s)

  cleanup_loop-deleted :
      (p : RetentionPolicy) (n m : ℕ) (es : List ExaminedObject) (s : State World)
      → cleanup_loop cl p n m es s ≡ delete_all (deleted p n m es) s
  unfolding cleanup_loop delete_all deleted delete_if
  cleanup_loop-deleted p n m [] s = refl
  cleanup_loop-deleted p n m (e ∷ es) s = ground (
    arith,
    cleanup_loop-deleted p (suc n) m es s,
    cleanup_loop-deleted p n (suc m) es s,
    cleanup_loop-deleted p n m es s,
    cleanup_loop-deleted p (suc n) m es (delete_if cl true e s),
    cleanup_loop-deleted p n (suc m) es (delete_if cl true e s),
  )

  -- Whatever the sort makes of the order with the newest object first, the clean-up deletes, in the
  -- order that the sort gives, the successful objects after as many of them as the policy retains,
  -- the failed ones after as many of them as it retains, and no object whose health has not resolved;
  -- a failed deletion does not stop it.
  pub cleanup_runnable_stamped_objects-IsRetained :
      (sort : Sort) (examined : List ExaminedObject) (p : RetentionPolicy) (s : State World)
      → (gone : List ExaminedObject) × (cleanup_runnable_stamped_objects cl sort examined p s
          ≡ delete_all gone s)
        × IsRetained p (sort newest_first examined) gone
  unfolding cleanup_runnable_stamped_objects less
  cleanup_runnable_stamped_objects-IsRetained sort examined p s = (
    deleted p 0 0 (sort newest_first examined),
    cleanup_loop-deleted p 0 0 (sort newest_first examined) s,
    record {
      successful =
          successful-deleted p 0 0 (sort newest_first examined)
          ∙ ap (λ n. drop n (with_health is_true (sort newest_first examined))) (omega arith);
      failed =
          failed-deleted p 0 0 (sort newest_first examined)
          ∙ ap (λ n. drop n (with_health is_false (sort newest_first examined))) (omega arith);
      unresolved = unresolved-deleted p 0 0 (sort newest_first examined);
    },
  )
