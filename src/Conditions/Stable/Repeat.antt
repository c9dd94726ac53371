-- ===== src/Conditions/Stable/Repeat.antt =====
-- The second reconciliation.
use cartographer.Prelude.{
  ℕ, ◌≡◌, refl, sym, ap, ap₂, ◌∙◌, String, false, Option, none, some, List, [], ◌∷◌, ◌++◌, All,
  arith, ◌==◌, if◌then◌else◌, ◌||◌,
}
use cartographer.Conditions.{
  Condition, Manager, Addition, finalize, new_condition_manager, is_failing, is_unknown,
}
use cartographer.Conditions.Carry.{
  stored, is_moved, kept, moves, add_all-Kept, stored-content, top_of, finalize-conditions,
  finalize-changed,
}
use cartographer.Conditions.Summary.{
  start, gathered, verdict, last_failing, first_unknown, top_of-eq, kept-cons,
}
use cartographer.Conditions.Stable.{
  retime, kept-Matches, Matches-retime, IsDistinct, IsFree, Matches-IsFree, kept-stable,
  stored-previous, not-is_moved, not_eq_symm, AllFree,
}

last_failing-retime :
    (ts : List ℕ) (adds : List Addition) (c : Option Condition)
    → last_failing (retime ts adds) c ≡ last_failing adds c
unfolding last_failing retime
last_failing-retime [] adds c = refl
last_failing-retime (t ∷ ts) [] c = refl
last_failing-retime (t ∷ ts) (a ∷ adds) c =
    last_failing-retime ts adds
      (if is_failing a.condition.status a.polarity then some a.condition else c)

first_unknown-retime :
    (ts : List ℕ) (adds : List Addition) → first_unknown (retime ts adds) ≡ first_unknown adds
unfolding first_unknown retime
first_unknown-retime [] adds = refl
first_unknown-retime (t ∷ ts) [] = refl
first_unknown-retime (t ∷ ts) (a ∷ adds) =
    ap (λ later. if is_unknown a.condition.status then some a.condition else later)
      (first_unknown-retime ts adds)

verdict-retime : (ts : List ℕ) (adds : List Addition) → verdict (retime ts adds) ≡ verdict adds
unfolding verdict
verdict-retime ts adds =
    ground (arith, last_failing-retime ts adds none, first_unknown-retime ts adds)

All-retime :
    (ts : List ℕ) (t : String) (adds : List Addition)
    → All (λ b. (b.condition.type == t) ≡ false) adds
    → All (λ b. (b.condition.type == t) ≡ false) (retime ts adds)
unfolding retime
All-retime [] t adds h = h
All-retime (u ∷ ts) t [] h = h
All-retime (u ∷ ts) t (a ∷ adds) h = (h.0, All-retime ts t adds h.1)

IsDistinct-retime :
    (ts : List ℕ) (adds : List Addition) → IsDistinct adds → IsDistinct (retime ts adds)
unfolding retime
IsDistinct-retime [] adds h = h
IsDistinct-retime (t ∷ ts) [] h = h
IsDistinct-retime (t ∷ ts) (a ∷ adds) h =
    (All-retime ts a.condition.type adds h.0, IsDistinct-retime ts adds h.1)

AllFree-nil : (adds : List Addition) → AllFree adds []
AllFree-nil [] = tt
AllFree-nil (a ∷ adds) = (tt, AllFree-nil adds)

AllFree-top :
    (adds : List Addition) (s : Condition) (top : String)
    → s.type ≡ top
    → All (λ b. (b.condition.type == top) ≡ false) adds
    → AllFree adds (s ∷ [])
AllFree-top [] s top e h = tt
AllFree-top (a ∷ adds) s top e h =
    ((rw e (not_eq_symm a.condition.type top h.0), tt), AllFree-top adds s top e h.1)

module _ (top : String) (previous : List Condition) (a : Addition) (rest : List Addition) (now : ℕ)
    (distinct : IsDistinct (a ∷ rest))
    (apart : All (λ b. (b.condition.type == top) ≡ false) (a ∷ rest)) where
  abbrev adds : List Addition
  adds = a ∷ rest

  abbrev first : Manager
  first = gathered top previous adds

  abbrev summary : Condition
  summary = stored first.previous_conditions (top_of now first)

  first-conditions : first.conditions ≡ kept previous adds
  unfolding new_condition_manager
  first-conditions = (add_all-Kept adds (start top previous)).conditions

  first-result : (finalize now first).conditions ≡ kept previous adds ++ summary ∷ []
  first-result =
      finalize-conditions now first (first-conditions ∙ kept-cons previous a rest)
      ∙ ap (λ l. l ++ summary ∷ []) first-conditions

  summary-eq :
      (ts : List ℕ) (now' : ℕ) (ps : List Condition)
      → summary ≡ record (top_of now' (gathered top ps (retime ts adds))) {
        last_transition_time = summary.last_transition_time;
      }
  summary-eq ts now' ps =
      stored-content first.previous_conditions (top_of now first)
      ∙ ground (
        arith,
        top_of-eq top previous adds now,
        top_of-eq top ps (retime ts adds) now',
        verdict-retime ts adds,
      )

  -- Adding the same conditions again, at any times, over the conditions that the first
  -- reconciliation returned gives these conditions back, times included, and reports no change;
  -- the types of the additions and the top-level type are all different.
  pub finalize_again :
      (ts : List ℕ) (now' : ℕ)
      → ((finalize now' (gathered top (finalize now first).conditions (retime ts adds))).conditions
          ≡ (finalize now first).conditions)
        × ((finalize now' (gathered top (finalize now first).conditions (retime ts adds))).changed
            ≡ false)
  unfolding new_condition_manager
  finalize_again ts now' =
      let r = (finalize now first).conditions in
      let adds' = retime ts adds in
      let second = gathered top r adds' in
      let k = add_all-Kept adds' (start top r) in
      let own_type =
        ap (λ (c : Condition). c.type) (summary-eq ts now' r)
        ∙ ap (λ (c : Condition). c.type) (top_of-eq top r adds' now') in
      let apart' = All-retime ts top adds apart in
      let stable =
        kept-stable adds' [] (kept previous adds) (summary ∷ [])
          (Matches-retime ts (kept previous adds) adds (kept-Matches previous adds))
          (IsDistinct-retime ts adds distinct) (AllFree-nil adds')
          (AllFree-top adds' summary top own_type apart') in
      let kept_same : kept r adds' ≡ kept previous adds = rw first-result stable.0 in
      let still : moves r adds' ≡ false = rw first-result stable.1 in
      let c' : second.conditions ≡ kept previous adds = k.conditions ∙ kept_same in
      let filled = c' ∙ kept-cons previous a rest in
      let t' = top_of now' second in
      let top_free : IsFree t'.type (kept previous adds) =
        rw (ap (λ (c : Condition). c.type) (top_of-eq top r adds' now'))
          (Matches-IsFree top (kept previous adds) adds (kept-Matches previous adds) apart) in
      let known : second.previous_conditions ≡ kept previous adds ++ summary ∷ [] =
        k.previous ∙ first-result in
      let s' : stored second.previous_conditions t' ≡ summary =
        ap (λ ps. stored ps t') known
        ∙ stored-previous (kept previous adds) [] summary t' top_free tt (summary-eq ts now' r) in
      let calm : is_moved second.previous_conditions t' ≡ false =
        ap (λ ps. is_moved ps t') known
        ∙ not-is_moved (kept previous adds) [] summary t' top_free tt (summary-eq ts now' r) in
      (
        finalize-conditions now' second filled ∙ ap₂ (λ l c. l ++ c ∷ []) c' s' ∙ sym first-result,
        finalize-changed now' second filled ∙ ap₂ (λ b c. b || c) (k.changed ∙ still) calm,
      )
