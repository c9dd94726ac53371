-- ===== src/Conditions/Carry.antt =====
-- What the loop over the previous conditions does to one condition.
use cartographer.Prelude.{
  ℕ, ◌≡◌, refl, subst, ◌∙◌, Bool, true, false, not, ◌||◌, ◌&&◌, List, [], ◌∷◌, ◌++◌, append_assoc,
  append-nil, any, arith, ◌==◌, if◌then◌else◌,
}
use cartographer.Conditions.{
  Condition, Polarity, positive, finalize, top_level, ready, Manager, Carried, carry, carry_one,
  add, Addition, add_all, same_content, sum_up,
}

-- The condition as it is kept: with the time of a previous condition of its type and content.
unfoldable pub stored : List Condition → Condition → Condition
stored [] c = c
stored (p ∷ ps) c = stored ps (
    if p.type == c.type && same_content p c
    then record c { last_transition_time = p.last_transition_time }
    else c)

pub carry-condition :
    (ps : List Condition) (c : Carried) → (carry ps c).condition ≡ stored ps c.condition
unfolding carry carry_one stored
carry-condition [] c = refl
carry-condition (p ∷ ps) c = ground (arith, carry-condition ps (carry_one p c))

-- A previous condition of the same type that says something else
abbrev pub contradicts : Condition → Condition → Bool
contradicts c p = p.type == c.type && not (same_content p c)

abbrev pub is_type_of : Condition → Condition → Bool
is_type_of c p = p.type == c.type

pub carry-changed :
    (ps : List Condition) (c : Carried)
    → (carry ps c).changed ≡ (c.changed || any (contradicts c.condition) ps)
unfolding carry carry_one
carry-changed [] c = ground arith
carry-changed (p ∷ ps) c = ground (arith, carry-changed ps (carry_one p c))

pub carry-is_new :
    (ps : List Condition) (c : Carried)
    → (carry ps c).is_new_condition ≡ (c.is_new_condition && not (any (is_type_of c.condition) ps))
unfolding carry carry_one
carry-is_new [] c = ground arith
carry-is_new (p ∷ ps) c = ground (arith, carry-is_new ps (carry_one p c))

-- Whether an addition changes the status: no previous condition of its type, or one that differs.
abbrev pub is_moved : List Condition → Condition → Bool
is_moved ps c = any (contradicts c) ps || not (any (is_type_of c) ps)

abbrev pub stamped : ℕ → Condition → Condition
stamped now c = record c { last_transition_time = now }

module _ (now : ℕ) (c : Condition) (polarity : Polarity) (m : Manager) where
  pub conditions-add :
      (add now c polarity m).conditions
      ≡ m.conditions ++ stored m.previous_conditions (stamped now c) ∷ []
  unfolding add sum_up
  conditions-add = ground (
    arith,
    carry-condition m.previous_conditions
        (record { condition = stamped now c; is_new_condition = true; changed = m.changed }),
  )

  pub changed-add :
      (add now c polarity m).changed ≡ (m.changed || is_moved m.previous_conditions (stamped now c))
  unfolding add sum_up
  changed-add =
      let start : Carried = record {
        condition = stamped now c;
        is_new_condition = true;
        changed = m.changed;
      } in
      ground
        (arith, carry-changed m.previous_conditions start, carry-is_new m.previous_conditions start)

  pub previous_conditions-add : (add now c polarity m).previous_conditions ≡ m.previous_conditions
  unfolding add sum_up
  previous_conditions-add = ground arith

  pub top_level_type-add : (add now c polarity m).top_level_type ≡ m.top_level_type
  unfolding add sum_up
  top_level_type-add = ground arith

-- The conditions that are kept for additions, and whether one of them moves the status.
unfoldable pub kept : List Condition → List Addition → List Condition
kept ps [] = []
kept ps (a ∷ rest) = stored ps (stamped a.now a.condition) ∷ kept ps rest

unfoldable pub moves : List Condition → List Addition → Bool
moves ps [] = false
moves ps (a ∷ rest) = is_moved ps (stamped a.now a.condition) || moves ps rest

pub record Kept (ps : List Condition) (adds : List Addition) (m m' : Manager) : Type 0 where
  pub conditions : m'.conditions ≡ m.conditions ++ kept ps adds
  pub changed : m'.changed ≡ (m.changed || moves ps adds)
  pub previous : m'.previous_conditions ≡ m.previous_conditions
  pub top : m'.top_level_type ≡ m.top_level_type

pub add_all-Kept :
    (adds : List Addition) (m : Manager) → Kept m.previous_conditions adds m (add_all adds m)
unfolding add_all kept moves
add_all-Kept [] m = record {
  conditions = ground (arith, append-nil m.conditions);
  changed = ground arith;
  previous = refl;
  top = refl;
}
add_all-Kept (a ∷ rest) m =
    let m1 = add a.now a.condition a.polarity m in
    let same = previous_conditions-add a.now a.condition a.polarity m in
    let ih = subst (λ ps. Kept ps rest m1 (add_all rest m1)) same (add_all-Kept rest m1) in
    record {
      conditions = ground (
        arith,
        ih.conditions,
        conditions-add a.now a.condition a.polarity m,
        append_assoc m.conditions (stored m.previous_conditions (stamped a.now a.condition) ∷ [])
            (kept m.previous_conditions rest),
      );
      changed = ground (arith, ih.changed, changed-add a.now a.condition a.polarity m);
      previous = ih.previous ∙ same;
      top = ih.top ∙ top_level_type-add a.now a.condition a.polarity m;
    }

-- The kept condition differs from the given one in its time only.
pub stored-content :
    (ps : List Condition) (c : Condition)
    → stored ps c ≡ record c { last_transition_time = (stored ps c).last_transition_time }
unfolding stored
stored-content [] c = refl
stored-content (p ∷ ps) c = ground (
  arith,
  stored-content ps c,
  stored-content ps (record c { last_transition_time = p.last_transition_time }),
)

-- The top-level condition that `Finalize` adds.
unfoldable pub top_of : ℕ → Manager → Condition
top_of now m = top_level now (ready m)

module _ (now : ℕ) (m : Manager) {d : Condition} {ds : List Condition}
    (filled : m.conditions ≡ d ∷ ds) where
  pub finalize-conditions :
      (finalize now m).conditions ≡ m.conditions ++ stored m.previous_conditions (top_of now m) ∷ []
  unfolding finalize top_of
  finalize-conditions =
      ground (arith, conditions-add now (top_level now (ready m)) positive (ready m))

  pub finalize-changed :
      (finalize now m).changed ≡ (m.changed || is_moved m.previous_conditions (top_of now m))
  unfolding finalize top_of
  finalize-changed = ground (arith, changed-add now (top_level now (ready m)) positive (ready m))
